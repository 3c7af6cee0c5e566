-- ===== src/Config/Credential.antt =====
-- src/config/credential.rs: the ids of credentials, as the bytes of their text. A character that is not
-- allowed is reported as its first byte. The texts of the errors are left out.
pub mod Ids
mod Samples
use gcit.Base.{
  ℕ, ◌-◌, Bool, true, false, ◌&&◌, ◌||◌, ◌==◌, List, [], ◌∷◌, ◌++◌, map, any, length, leb, ltb,
  if◌then◌else◌,
}
use gcit.Base.Results.{Result, ok, err}
use gcit.Mail.{Bytes, ascii, starts_with}
use gcit.Github.Errors.{contains}

abbrev pub max_len : ℕ
max_len = 64

pub data IdError : Type 0 where
  empty leading_hyphen path_traversal : IdError
  too_long : (len : ℕ) → IdError
  invalid_char : (ch : ℕ) → IdError

-- `ch.is_ascii_alphanumeric() || ch == '_' || ch == '-'`
abbrev pub is_id_char : ℕ → Bool
is_id_char c =
    (leb 48 c && leb c 57)
    || (leb 65 c && leb c 90)
    || (leb 97 c && leb c 122)
    || (c == 95)
    || (c == 45)

abbrev pub has_char : ℕ → Bytes → Bool
has_char k = any (λ c. c == k)

-- `..`, `/`, `\`, `~` or NUL
unfoldable pub has_traversal : Bytes → Bool
unfolding contains any
has_traversal s =
    contains (46 ∷ 46 ∷ []) s || has_char 47 s || has_char 92 s || has_char 126 s || has_char 0 s

unfoldable pub check_chars : Bytes → Result IdError (Unit {0})
check_chars [] = ok tt
check_chars (c ∷ s) =
    let rest = check_chars s in if is_id_char c then rest else err (invalid_char c)

unfoldable pub validate_id_str : Bytes → Result IdError (Unit {0})
unfolding has_traversal check_chars starts_with
validate_id_str s =
    if length s == 0
    then err empty
    else if ltb max_len (length s)
    then err (too_long (length s))
    else if has_traversal s
    then err path_traversal
    else if starts_with (45 ∷ []) s
    then err leading_hyphen
    else check_chars s

-- `to_ascii_uppercase`, then `replace('-', "_")`
abbrev pub env_char : ℕ → ℕ
env_char c = if leb 97 c && leb c 122 then c - 32 else if c == 45 then 95 else c

unfoldable pub id_to_env : Bytes → Bytes
id_to_env id = ascii "GCIT_CREDENTIAL_" ++ map env_char id
