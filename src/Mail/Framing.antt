-- ===== src/Mail/Framing.antt =====
-- src/mail/mbox.rs, as a reader of the spool sees it: where a message begins, and what its body is.
use gcit.Base.{
  ℕ, Bool, true, false, List, [], ◌∷◌, ◌++◌, ◌==◌, map, if◌then◌else◌, ◌≡◌, refl, sym, ap, ◌∙◌,
  subst, arith, All, All-append, Bool-cases, inl, inr, if_ind, ◌&&◌, append-nil,
}
use gcit.Mail.{
  Bytes, newline, sanitize_from, sanitize_header, push_head, split, trim_quotes, starts_with,
  from_space, needs_mboxrd_quote, quote_line, push_lines, escape_lines, escape_mboxrd,
}
use gcit.Mail.Lines.{
  has_newline, IsLine, join, split-line, split-join, Lines, lines, split-Lines, join-split,
}

-- The line begins no message.
abbrev pub Ordinary : Bytes → Type 0
Ordinary line = starts_with from_space line ≡ false

quote_line-IsLine : (l : Bytes) → IsLine l → IsLine (quote_line l)
unfolding quote_line has_newline
quote_line-IsLine l h = if_ind IsLine (needs_mboxrd_quote l) (λ _. h) (λ _. h)

needs_quote : (l : Bytes) → starts_with from_space l ≡ true → needs_mboxrd_quote l ≡ true
unfolding needs_mboxrd_quote trim_quotes starts_with
needs_quote [] h = h
needs_quote (c ∷ s) h = elim (Bool-cases (70 == c)) [
  | inl e ↦
      let other : (c == 62) ≡ false = ground (arith, e) in
      ap (λ b. starts_with from_space (if b then trim_quotes s else c ∷ s)) other ∙ h
  | inr e ↦ absurd (ground (arith, h, e))
]

quote_line-Ordinary : (l : Bytes) → Ordinary (quote_line l)
unfolding quote_line starts_with
quote_line-Ordinary l =
    if_ind Ordinary (needs_mboxrd_quote l) (λ _. refl)
      (λ e. elim (Bool-cases (starts_with from_space l)) [
        | inl s ↦ absurd (ground (arith, e, needs_quote l s))
        | inr s ↦ s
      ])

-- What a reader of the mboxrd format makes of a line of a body: one `>` less before `From `.
unfoldable pub unquote_line : Bytes → Bytes
unquote_line [] = []
unquote_line (c ∷ s) = if (c == 62) && needs_mboxrd_quote s then s else c ∷ s

unfoldable pub unescape_mboxrd : Bytes → Bytes
unescape_mboxrd s = join (map unquote_line (split s))

unquote_line-plain : (l : Bytes) → needs_mboxrd_quote l ≡ false → unquote_line l ≡ l
unfolding unquote_line needs_mboxrd_quote trim_quotes
unquote_line-plain [] h = refl
unquote_line-plain (c ∷ s) h = ground (arith, h)

unquoted : (l : Bytes) → needs_mboxrd_quote l ≡ true → unquote_line (62 ∷ l) ≡ l
unfolding unquote_line
unquoted l e = ap (λ b. if b then l else 62 ∷ l) e

unquote_line-quote_line : (l : Bytes) → unquote_line (quote_line l) ≡ l
unfolding quote_line
unquote_line-quote_line l = elim (Bool-cases (needs_mboxrd_quote l)) [
  | inl e ↦ ap (λ b. unquote_line (if b then 62 ∷ l else l)) e ∙ unquoted l e
  | inr e ↦ ap (λ b. unquote_line (if b then 62 ∷ l else l)) e ∙ unquote_line-plain l e
]

escape_lines-join :
    (l : Bytes) (ls : List Bytes) → escape_lines (l ∷ ls) ≡ join (map quote_line (l ∷ ls))
unfolding escape_lines push_lines join
escape_lines-join l [] = append-nil (quote_line l)
escape_lines-join l (m ∷ ls) = ap (λ x. quote_line l ++ (newline ∷ x)) (escape_lines-join m ls)

map-IsLine : (ls : List Bytes) → All IsLine ls → All IsLine (map quote_line ls)
map-IsLine [] h = tt
map-IsLine (l ∷ ls) h = (quote_line-IsLine l h.0, map-IsLine ls h.1)

split-escape_lines : (ls : List Bytes) → Lines ls → split (escape_lines ls) ≡ map quote_line ls
split-escape_lines _ (lines l ls h hs) =
    ap split (escape_lines-join l ls)
    ∙ split-join (quote_line l) (map quote_line ls) (quote_line-IsLine l h) (map-IsLine ls hs)

pub split-escape_mboxrd : (body : Bytes) → split (escape_mboxrd body) ≡ map quote_line (split body)
unfolding escape_mboxrd
split-escape_mboxrd body = split-escape_lines (split body) (split-Lines body)

map-unquote : (ls : List Bytes) → map unquote_line (map quote_line ls) ≡ ls
map-unquote [] = refl
map-unquote (l ∷ ls) =
    ap (λ x. x ∷ map unquote_line (map quote_line ls)) (unquote_line-quote_line l)
    ∙ ap (λ x. l ∷ x) (map-unquote ls)

-- A reader that takes one `>` off every line of `>`s and `From ` reads the body that was escaped,
-- whatever it is.
pub unescape_mboxrd-escape_mboxrd : (body : Bytes) → unescape_mboxrd (escape_mboxrd body) ≡ body
unfolding unescape_mboxrd
unescape_mboxrd-escape_mboxrd body =
    ap (λ x. join (map unquote_line x)) (split-escape_mboxrd body)
    ∙ ap join (map-unquote (split body))
    ∙ join-split body

-- A text's lines are a first line, and others that begin no message.
abbrev pub IsOneMessage : Bytes → List Bytes → Type 0
IsOneMessage first ls = (rest : List Bytes) × ((ls ≡ first ∷ rest) × All Ordinary rest)

push_head-append :
    (c : ℕ) (ls ms : List Bytes) → Lines ls → push_head c (ls ++ ms) ≡ push_head c ls ++ ms
push_head-append c _ ms (lines l ls h hs) = refl

split-append_newline : (s : Bytes) → split (s ++ (newline ∷ [])) ≡ split s ++ ([] ∷ [])
unfolding split
split-append_newline [] = refl
split-append_newline (c ∷ s) = elim (Bool-cases (c == newline)) [
  | inl e ↦
      ap
        (λ b.
          if b then [] ∷ split (s ++ (newline ∷ [])) else push_head c (split (s ++ (newline ∷ []))))
        e
      ∙ ap (λ x. [] ∷ x) (split-append_newline s)
      ∙ sym (ap (λ b. (if b then [] ∷ split s else push_head c (split s)) ++ ([] ∷ [])) e)
  | inr e ↦
      ap
        (λ b.
          if b then [] ∷ split (s ++ (newline ∷ [])) else push_head c (split (s ++ (newline ∷ []))))
        e
      ∙ ap (push_head c) (split-append_newline s)
      ∙ push_head-append c (split s) ([] ∷ []) (split-Lines s)
      ∙ sym (ap (λ b. (if b then [] ∷ split s else push_head c (split s)) ++ ([] ∷ [])) e)
]

pub append_newline-IsOneMessage :
    (first s : Bytes)
    → IsOneMessage first (split s)
    → IsOneMessage first (split (s ++ (newline ∷ [])))
unfolding starts_with
append_newline-IsOneMessage first s (rest, (e, ordinary)) = (
  rest ++ ([] ∷ []),
  (
    split-append_newline s ∙ ap (λ ls. ls ++ ([] ∷ [])) e,
    All-append Ordinary rest ([] ∷ []) ordinary (refl, tt),
  ),
)

pub line-IsOneMessage :
    (first s : Bytes)
    → IsLine first
    → All Ordinary (split s)
    → IsOneMessage first (split (first ++ (newline ∷ s)))
line-IsOneMessage first s h ordinary = (split s, (split-line first s h, ordinary))

-- A header between the first line and the rest.
pub header-Ordinary :
    (l s : Bytes)
    → IsLine l
    → Ordinary l
    → All Ordinary (split s)
    → All Ordinary (split (l ++ (newline ∷ s)))
header-Ordinary l s h o rest = subst (All Ordinary) (sym (split-line l s h)) (o, rest)

map-Ordinary : (ls : List Bytes) → All Ordinary (map quote_line ls)
map-Ordinary [] = tt
map-Ordinary (l ∷ ls) = (quote_line-Ordinary l, map-Ordinary ls)

pub escape_mboxrd-Ordinary : (body : Bytes) → All Ordinary (split (escape_mboxrd body))
escape_mboxrd-Ordinary body =
    subst (All Ordinary) (sym (split-escape_mboxrd body)) (map-Ordinary (split body))

sanitize_from-IsLine : (inside : Bool) (s : Bytes) → IsLine (sanitize_from inside s)
unfolding sanitize_from has_newline
sanitize_from-IsLine inside [] = refl
sanitize_from-IsLine inside (b ∷ s) =
    ground (arith, sanitize_from-IsLine true s, sanitize_from-IsLine false s)

pub sanitize_header-IsLine : (s : Bytes) → IsLine (sanitize_header s)
unfolding sanitize_header
sanitize_header-IsLine s = sanitize_from-IsLine false s
