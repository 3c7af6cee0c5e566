-- ===== src/Config/Credential/Ids.antt =====
-- src/config/credential.rs: which texts are ids.
use gcit.Base.{
  ℕ, ◌≤◌, Bool, true, false, not, ◌&&◌, ◌||◌, ◌==◌, [], ◌∷◌, map, any, length, leb, ltb,
  if◌then◌else◌, All, All-append, if_ind, ◌≡◌, refl, ap, ◌∙◌, arith, ◌↔◌,
}
use gcit.Base.Results.{Result, ok, err}
use gcit.Mail.{Bytes, ascii, starts_with}
use gcit.Github.Errors.{contains}
use gcit.Config.Credential.{
  IdError, empty, too_long, path_traversal, leading_hyphen, invalid_char, max_len, is_id_char,
  has_char, has_traversal, check_chars, validate_id_str, env_char, id_to_env,
}

-- 1 to 64 letters, digits, underscores and hyphens, no hyphen first.
pub record IsId (s : Bytes) : Type 0 where
  pub some_char : 1 ≤ length s
  pub short : length s ≤ max_len
  pub chars : All (λ c. is_id_char c ≡ true) s
  pub first : starts_with (45 ∷ []) s ≡ false

has_char_absent :
    (k : ℕ) (s : Bytes)
    → is_id_char k ≡ false
    → All (λ c. is_id_char c ≡ true) s
    → has_char k s ≡ false
unfolding any
has_char_absent k [] h _ = refl
has_char_absent k (c ∷ s) h (here, rest) = ground (arith, h, here, has_char_absent k s h rest)

no_dots : (s : Bytes) → All (λ c. is_id_char c ≡ true) s → contains (46 ∷ 46 ∷ []) s ≡ false
unfolding contains starts_with
no_dots [] _ = refl
no_dots (c ∷ s) (here, rest) = ground (arith, here, no_dots s rest)

no_traversal : (s : Bytes) → All (λ c. is_id_char c ≡ true) s → has_traversal s ≡ false
unfolding has_traversal
no_traversal s h = cc (
  no_dots s h,
  has_char_absent 47 s refl h,
  has_char_absent 92 s refl h,
  has_char_absent 126 s refl h,
  has_char_absent 0 s refl h,
)

check_chars-ok : (s : Bytes) → All (λ c. is_id_char c ≡ true) s → check_chars s ≡ ok tt
unfolding check_chars
check_chars-ok [] _ = refl
check_chars-ok (c ∷ s) (here, rest) =
    ap (λ b. if b then check_chars s else err (invalid_char c)) here ∙ check_chars-ok s rest

check_chars-chars : (s : Bytes) → check_chars s ≡ ok tt → All (λ c. is_id_char c ≡ true) s
unfolding check_chars
check_chars-chars [] _ = tt
check_chars-chars (c ∷ s) e =
    if_ind (λ r. r ≡ ok tt → (is_id_char c ≡ true) × All (λ c. is_id_char c ≡ true) s)
      (is_id_char c) (λ allowed e. (allowed, check_chars-chars s e)) (λ _ e. absurd (cc e)) e

-- A test that must fail for the result to be no error.
guard_ok :
    (b : Bool) (e : IdError) (rest : Result IdError (Unit {0}))
    → (if b then err e else rest) ≡ ok tt
    → (b ≡ false) × (rest ≡ ok tt)
guard_ok true e rest h = absurd (cc h)
guard_ok false e rest h = (refl, h)

validate_id_str-IsId : (s : Bytes) → validate_id_str s ≡ ok tt → IsId s
unfolding validate_id_str
validate_id_str-IsId s e =
    let not_empty = guard_ok (length s == 0) empty _ e in
    let not_long = guard_ok (ltb max_len (length s)) (too_long (length s)) _ not_empty.1 in
    let no_path = guard_ok (has_traversal s) path_traversal _ not_long.1 in
    let no_flag = guard_ok (starts_with (45 ∷ []) s) leading_hyphen _ no_path.1 in
    record {
      some_char = ground (arith, not_empty.0);
      short = ground (arith, not_long.0);
      chars = check_chars-chars s no_flag.1;
      first = no_flag.0;
    }

IsId-validate_id_str : (s : Bytes) → IsId s → validate_id_str s ≡ ok tt
unfolding validate_id_str
IsId-validate_id_str s v =
    ground (arith, v.some_char, v.short, no_traversal s v.chars, v.first, check_chars-ok s v.chars)

-- A text is accepted as an id exactly where it has 1 to 64 bytes, all of them letters, digits,
-- underscores or hyphens, and does not start with a hyphen.
pub validate_id_str_iff : (s : Bytes) → (validate_id_str s ≡ ok tt) ↔ IsId s
validate_id_str_iff s = (validate_id_str-IsId s, IsId-validate_id_str s)

-- `A` to `Z`, `0` to `9` and `_`.
abbrev pub is_env_char : ℕ → Bool
is_env_char c = (leb 48 c && leb c 57) || (leb 65 c && leb c 90) || (c == 95)

map-env_char :
    (s : Bytes)
    → All (λ c. is_id_char c ≡ true) s
    → All (λ c. is_env_char c ≡ true) (map env_char s)
map-env_char [] _ = tt
map-env_char (c ∷ s) (here, rest) = (ground (arith, here), map-env_char s rest)

All-any : (q : ℕ → Bool) (s : Bytes) → any (λ c. not (q c)) s ≡ false → All (λ c. q c ≡ true) s
unfolding any
All-any q [] _ = tt
All-any q (c ∷ s) h = (ground (arith, h), All-any q s (ground (arith, h)))

-- The name of the variable of an id that is accepted.
pub id_to_env_lem :
    (s : Bytes) → validate_id_str s ≡ ok tt → All (λ c. is_env_char c ≡ true) (id_to_env s)
unfolding id_to_env any
id_to_env_lem s e =
    All-append (λ c. is_env_char c ≡ true) (ascii "GCIT_CREDENTIAL_") (map env_char s)
      (All-any is_env_char (ascii "GCIT_CREDENTIAL_") env_prefix)
      (map-env_char s (validate_id_str-IsId s e).chars)
  where
    env_prefix : any (λ c. not (is_env_char c)) (ascii "GCIT_CREDENTIAL_") ≡ false
    env_prefix = refl
