-- ===== src/Github/Requests.antt =====
-- src/github/dispatcher.rs, `split_repo`, and src/github/correlator.rs, `ref_to_branch`: the parts of a
-- repository's name, and the branch that a ref names.
use gcit.Base.{
  ℕ, Bool, true, false, Option, none, some, unwrap_or, [], ◌∷◌, ◌++◌, ◌==◌, ◌||◌, if◌then◌else◌,
}
use gcit.Base.Results.{Result, ok, err}
use gcit.Mail.{Bytes, ascii}
use gcit.Github.Errors.{GithubErrorKind, unknown}

abbrev pub slash : ℕ
slash = 47

abbrev pub push_first : ℕ → Bytes × Bytes → Bytes × Bytes
push_first c (owner, repo) = (c ∷ owner, repo)

-- The parts of `splitn(2, '/')`, a second one that is missing as an empty one.
unfoldable pub split_slash : Bytes → Bytes × Bytes
split_slash [] = ([], [])
split_slash (c ∷ s) = if c == slash then ([], s) else push_first c (split_slash s)

abbrev pub is_empty : Bytes → Bool
is_empty [] = true
is_empty (_ ∷ _) = false

unfoldable pub bad_repo : Bytes → GithubErrorKind
bad_repo repo = unknown (
    ascii "repo `"
    ++ repo
    ++ ascii "` must be `owner/repo` (config validation should have caught this)")

abbrev pub check_parts : Bytes → Bytes × Bytes → Result GithubErrorKind (Bytes × Bytes)
unfolding bad_repo
check_parts slash_form (owner, repo) =
    if is_empty owner || is_empty repo then err (bad_repo slash_form) else ok (owner, repo)

unfoldable pub split_repo : Bytes → Result GithubErrorKind (Bytes × Bytes)
unfolding split_slash check_parts bad_repo
split_repo slash_form = check_parts slash_form (split_slash slash_form)

unfoldable pub strip_prefix : Bytes → Bytes → Option Bytes
strip_prefix [] s = some s
strip_prefix (p ∷ prefix) [] = none
strip_prefix (p ∷ prefix) (c ∷ s) =
    let rest = strip_prefix prefix s in if p == c then rest else none

-- `ref_name.strip_prefix("refs/heads/").unwrap_or("")`
unfoldable pub ref_to_branch : Bytes → Bytes
unfolding strip_prefix
ref_to_branch ref_name = unwrap_or (strip_prefix (ascii "refs/heads/") ref_name) []
