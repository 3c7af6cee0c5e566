-- ===== src/Mail.antt =====
-- src/mail/mbox.rs: one message of an mbox spool, as bytes. The local time of the two dates is
-- chrono's, and the dates are arguments.
pub mod Lines
pub mod Framing
pub mod Message
pub mod Samples
use Prim.Native.Char.{code}
use Prim.Native.String
use gcit.Base.{
  ℕ, ◌/◌, Bool, true, false, List, [], ◌∷◌, ◌++◌, ltb, ◌==◌, ◌&&◌, not, map, if◌then◌else◌,
}

abbrev pub Bytes : Type 0
Bytes = List ℕ

-- The bytes of a text that is ASCII.
abbrev pub ascii : String.String → Bytes
ascii String.[] = []
ascii (String.◌∷◌ c s) = code c ∷ ascii s

abbrev pub newline : ℕ
newline = 10

-- `bytes[end] & 0b1100_0000 == 0b1000_0000`
abbrev pub is_continuation : ℕ → Bool
is_continuation b = (b / 64) == 2

-- The loop of `sanitize_header`; `inside` says that a character has begun, whose continuation bytes
-- are copied with it.
unfoldable pub sanitize_from : Bool → Bytes → Bytes
sanitize_from inside [] = []
sanitize_from inside (b ∷ bs) =
    let copied = sanitize_from true bs in
    let replaced = sanitize_from false bs in
    if inside && is_continuation b
    then b ∷ copied
    else if ltb b 32 && not (b == 32)
    then 32 ∷ replaced
    else b ∷ copied

unfoldable pub sanitize_header : Bytes → Bytes
unfolding sanitize_from
sanitize_header = sanitize_from false

-- `split('\n')`
abbrev pub push_head : ℕ → List Bytes → List Bytes
push_head c [] = (c ∷ []) ∷ []
push_head c (line ∷ lines) = (c ∷ line) ∷ lines

unfoldable pub split : Bytes → List Bytes
split [] = [] ∷ []
split (c ∷ s) = if c == newline then [] ∷ split s else push_head c (split s)

-- `trim_start_matches('>')`
unfoldable pub trim_quotes : Bytes → Bytes
trim_quotes [] = []
trim_quotes (c ∷ s) = if c == 62 then trim_quotes s else c ∷ s

unfoldable pub starts_with : Bytes → Bytes → Bool
starts_with [] s = true
starts_with (p ∷ ps) [] = false
starts_with (p ∷ ps) (c ∷ s) = if p == c then starts_with ps s else false

abbrev pub from_space : Bytes
from_space = ascii "From "

unfoldable pub needs_mboxrd_quote : Bytes → Bool
unfolding trim_quotes starts_with
needs_mboxrd_quote line = starts_with from_space (trim_quotes line)

-- One line, with its `>` where it needs one.
unfoldable pub quote_line : Bytes → Bytes
unfolding needs_mboxrd_quote
quote_line line = if needs_mboxrd_quote line then 62 ∷ line else line

-- The loop over the lines, after the first of them.
unfoldable pub push_lines : List Bytes → Bytes
unfolding quote_line
push_lines [] = []
push_lines (line ∷ lines) = newline ∷ quote_line line ++ push_lines lines

abbrev pub escape_lines : List Bytes → Bytes
unfolding quote_line push_lines
escape_lines [] = []
escape_lines (line ∷ lines) = quote_line line ++ push_lines lines

unfoldable pub escape_mboxrd : Bytes → Bytes
unfolding escape_lines split
escape_mboxrd body = escape_lines (split body)

unfoldable pub ends_with_newline : Bytes → Bool
ends_with_newline [] = false
ends_with_newline (c ∷ []) = c == newline
ends_with_newline (c ∷ d ∷ s) = ends_with_newline (d ∷ s)

-- `user`, `hostname` and `subject` are the caller's; the dates are those of `now`.
unfoldable pub format_message : Bytes → Bytes → Bytes → Bytes → Bytes → Bytes → Bytes
unfolding sanitize_header escape_mboxrd ends_with_newline
format_message from_line_date date_header user hostname subject body =
    let out =
      (ascii "From gcit " ++ from_line_date)
      ++ (newline ∷ (ascii "Date: " ++ sanitize_header date_header)
          ++ (newline ∷ (ascii "From: gcit@" ++ sanitize_header hostname)
              ++ (newline
                    ∷ (ascii "To: " ++ sanitize_header user ++ (64 ∷ sanitize_header hostname))
                  ++ (newline ∷ (ascii "Subject: " ++ sanitize_header subject)
                      ++ (newline ∷ ascii "Content-Type: text/plain; charset=utf-8"
                          ++ (newline ∷ ascii "MIME-Version: 1.0"
                              ++ (newline ∷ newline ∷ escape_mboxrd body))))))) in
    (if ends_with_newline out then out else out ++ (newline ∷ [])) ++ (newline ∷ [])
