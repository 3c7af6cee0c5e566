-- ===== src/Mail/Lines.antt =====
-- src/mail/mbox.rs: texts and their lines.
use gcit.Base.{
  ℕ, Bool, true, false, List, [], ◌∷◌, ◌++◌, ◌==◌, if◌then◌else◌, ◌≡◌, refl, ap, ◌∙◌, arith, All,
  Bool-cases, inl, inr, if_ind,
}
use gcit.Mail.{Bytes, newline, push_head, split}

unfoldable pub has_newline : Bytes → Bool
has_newline [] = false
has_newline (c ∷ s) = if c == newline then true else has_newline s

abbrev pub IsLine : Bytes → Type 0
IsLine l = has_newline l ≡ false

-- The lines with a newline between them: what `split` undoes.
unfoldable pub join : List Bytes → Bytes
join [] = []
join (l ∷ []) = l
join (l ∷ m ∷ ls) = l ++ (newline ∷ join (m ∷ ls))

pub has_newline-append :
    (a b : Bytes) → has_newline (a ++ b) ≡ (if has_newline a then true else has_newline b)
unfolding has_newline
has_newline-append [] b = refl
has_newline-append (c ∷ a) b = ground (arith, has_newline-append a b)

pub split-line : (l s : Bytes) → IsLine l → split (l ++ (newline ∷ s)) ≡ l ∷ split s
unfolding split has_newline
split-line [] s h = refl
split-line (c ∷ l) s h = elim (Bool-cases (c == newline)) [
  | inl e ↦ absurd (ground (arith, h, e))
  | inr e ↦
      ap
        (λ b.
          if b then [] ∷ split (l ++ (newline ∷ s)) else push_head c (split (l ++ (newline ∷ s))))
        e
      ∙ ap (push_head c) (split-line l s (ground (arith, h, e)))
]

pub split-last : (l : Bytes) → IsLine l → split l ≡ l ∷ []
unfolding split has_newline
split-last [] h = refl
split-last (c ∷ l) h = elim (Bool-cases (c == newline)) [
  | inl e ↦ absurd (ground (arith, h, e))
  | inr e ↦
      ap (λ b. if b then [] ∷ split l else push_head c (split l)) e
      ∙ ap (push_head c) (split-last l (ground (arith, h, e)))
]

-- A text is a line, or a line, a newline and a text.
pub split-join :
    (l : Bytes) (ls : List Bytes) → IsLine l → All IsLine ls → split (join (l ∷ ls)) ≡ l ∷ ls
unfolding join
split-join l [] h hs = split-last l h
split-join l (m ∷ ls) h hs =
    split-line l (join (m ∷ ls)) h ∙ ap (λ x. l ∷ x) (split-join m ls hs.0 hs.1)

join-push_head : (c : ℕ) (ls : List Bytes) → join (push_head c ls) ≡ c ∷ join ls
unfolding join
join-push_head c [] = refl
join-push_head c (l ∷ []) = refl
join-push_head c (l ∷ m ∷ ls) = refl

-- What `split` returns is never empty.
pub data Lines : List Bytes → Type 0 where
  lines : (l : Bytes) (ls : List Bytes) → IsLine l → All IsLine ls → Lines (l ∷ ls)

push_head-Lines :
    (c : ℕ) (ls : List Bytes) → (c == newline) ≡ false → Lines ls → Lines (push_head c ls)
unfolding has_newline
push_head-Lines c _ e (lines l ls h hs) =
    lines (c ∷ l) ls (ap (λ b. if b then true else has_newline l) e ∙ h) hs

pub split-Lines : (s : Bytes) → Lines (split s)
unfolding split has_newline
split-Lines [] = lines [] [] refl tt
split-Lines (c ∷ s) =
    if_ind Lines (c == newline) (λ _. cons_empty (split s) (split-Lines s))
      (λ e. push_head-Lines c (split s) e (split-Lines s))
  where
    cons_empty : (ls : List Bytes) → Lines ls → Lines ([] ∷ ls)
    cons_empty _ (lines l ls h hs) = lines [] (l ∷ ls) refl (h, hs)

join_empty : (ls : List Bytes) → Lines ls → join ([] ∷ ls) ≡ newline ∷ join ls
unfolding join
join_empty _ (lines l ls h hs) = refl

pub join-split : (s : Bytes) → join (split s) ≡ s
unfolding split join
join-split [] = refl
join-split (c ∷ s) = elim (Bool-cases (c == newline)) [
  | inl e ↦
      ap (λ b. join (if b then [] ∷ split s else push_head c (split s))) e
      ∙ join_empty (split s) (split-Lines s)
      ∙ ap (λ x. newline ∷ x) (join-split s)
      ∙ ap (λ x. x ∷ s) (ground (arith, e))
  | inr e ↦
      ap (λ b. join (if b then [] ∷ split s else push_head c (split s))) e
      ∙ join-push_head c (split s)
      ∙ ap (λ x. c ∷ x) (join-split s)
]
