-- ===== src/Supervisor/Credentials.antt =====
-- src/flow/supervisor/credentials.rs: the pool of the credentials. Each resolution is given what the
-- environment and the files hold for its id; the clients that use a secret are left out, but for the
-- token that stops the polling of their rate limit.
pub mod Resolved
mod Samples
use Prim.Native.String.{String}
use gcit.Base.{
  Bool, true, false, ◌&&◌, ◌||◌, ◌==◌, not, Option, none, some, is_some, List, [], ◌∷◌, ◌++◌,
  filter, any, str_eq, if◌then◌else◌,
}
use gcit.Base.Dict.{Dict, Entry, lookup, insert, contains_key}
use gcit.Base.Results.{Result, ok, err}
use gcit.Mail.{Bytes}

-- `SecretString`
abbrev pub Secret : Type 0
Secret = Bytes

-- What `probe` says of a path, with the text of an error.
pub data Probe : Type 0 where
  present not_present : Probe
  invariant stat_error : (message : String) → Probe

-- A path: what is probed, and what the reading of the file gives.
pub record Place : Type 0 where
  pub probe : Probe
  pub read : Result String Bytes

-- What a resolution meets: the file under $CREDENTIALS_DIRECTORY, where that is a directory; the
-- variable; the file under the directory of the configuration, where there is one; and the text for a
-- credential that is nowhere.
pub record Sources : Type 0 where
  pub systemd : Option Place
  pub variable : Option Bytes
  pub config : Option Place
  pub not_found : String

-- The pool: of the resources of a credential only whether their token is cancelled, for those that are
-- kept and those that are not.
pub record CredentialPool : Type 0 where
  pub by_id : List String
  pub cancelled : List String
  pub secrets : Dict Secret

abbrev pub is_line_end : Bytes → Bool
is_line_end [] = false
is_line_end (c ∷ s) = (c == 10) || (c == 13)

abbrev pub is_nil : Bytes → Bool
is_nil [] = true
is_nil (c ∷ s) = false

-- `trim_end_matches(['\r', '\n'])`
unfoldable pub trim_line_ends : Bytes → Bytes
trim_line_ends [] = []
trim_line_ends (c ∷ s) =
    let rest = trim_line_ends s in if is_nil rest && is_line_end (c ∷ []) then [] else c ∷ rest

-- What a file gives: `none` goes on to the next step.
unfoldable pub resolve_file : Option Place → Option (Result String Secret)
unfolding trim_line_ends
resolve_file none = none
resolve_file (some place) = elim place.probe [
  | present ↦ elim place.read [ err e ↦ some (err e) | ok raw ↦ some (ok (trim_line_ends raw)) ]
  | not_present ↦ none
  | invariant message ↦ some (err message)
  | stat_error message ↦ some (err message)
]

abbrev pub resolve_variable : Option Bytes → Option (Result String Secret)
resolve_variable none = none
resolve_variable (some v) = some (ok v)

abbrev pub or_else_resolve :
    Option (Result String Secret) → Option (Result String Secret) → Option (Result String Secret)
or_else_resolve none next = next
or_else_resolve (some r) next = some r

-- The three steps, where the pool has no secret.
unfoldable pub look_up : Sources → Result String Secret
unfolding resolve_file
look_up w =
    elim (or_else_resolve (resolve_file w.systemd)
      (or_else_resolve (resolve_variable w.variable) (resolve_file w.config))) [
        | none ↦ err w.not_found
        | some r ↦ r
      ]

unfoldable pub keep_secret :
    String → Result String Secret → CredentialPool → Result String Secret × CredentialPool
unfolding insert
keep_secret id (err e) pool = (err e, pool)
keep_secret id (ok secret) pool =
    (ok secret, record pool { secrets = insert id secret pool.secrets })

unfoldable pub on_cached :
    String → Sources → CredentialPool → Option Secret → Result String Secret × CredentialPool
unfolding look_up keep_secret
on_cached id w pool (some secret) = (ok secret, pool)
on_cached id w pool none = keep_secret id (look_up w) pool

unfoldable pub resolve_secret :
    String → Sources → CredentialPool → Result String Secret × CredentialPool
unfolding on_cached lookup
resolve_secret id w pool = on_cached id w pool (lookup id pool.secrets)

unfoldable pub is_kept : List String → String → Bool
unfolding any
is_kept keep id = any (λ k. str_eq k id) keep

-- The resources and the secrets of all other credentials go, and the tokens of those are cancelled.
unfoldable pub invalidate_except : List String → CredentialPool → CredentialPool
unfolding filter is_kept
invalidate_except keep pool = record {
  by_id = filter (is_kept keep) pool.by_id;
  cancelled = pool.cancelled ++ filter (λ id. not (is_kept keep id)) pool.by_id;
  secrets = filter (λ e. is_kept keep e.key) pool.secrets;
}
