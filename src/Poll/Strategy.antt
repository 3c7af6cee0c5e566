-- ===== src/Poll/Strategy.antt =====
-- src/git/strategy.rs: which strategy polls a URL, how often, and what a new sha means. And
-- `EffectivePoll::compute` of src/flow/poll/mod.rs. A duration is a number of nanoseconds; `f64` is
-- a parameter. `apply_jitter` computes in floats and is left out.
use Prim.Native.Char.{code}
use gcit.Base.{
  ℕ, ◌+◌, ◌*◌, String, Bool, true, false, Option, none, some, List, [], ◌∷◌, map, ◌&&◌, ◌||◌,
  if◌then◌else◌, leb, ◌==◌, unwrap_or, or_else,
}

abbrev pub Duration : Type 0
Duration = ℕ

abbrev pub seconds : ℕ → Duration
seconds n = n * 1_000_000_000

pub data PollStrategy : Type 0 where
  github_api grokmirror ls_remote : PollStrategy

unfoldable pub default_interval : PollStrategy → Duration
default_interval github_api = seconds 60
default_interval grokmirror = seconds 60
default_interval ls_remote = seconds 300

unfoldable pub kind_str : PollStrategy → String
kind_str github_api = "github_api"
kind_str grokmirror = "grokmirror"
kind_str ls_remote = "ls_remote"

-- The code points of a text.
abbrev pub codes : String → List ℕ
codes String.[] = []
codes (String.◌∷◌ c s) = code c ∷ codes s

abbrev to_ascii_lowercase : ℕ → ℕ
to_ascii_lowercase c = if leb b'A' c && leb c b'Z' then c + 32 else c

same_codes : List ℕ → List ℕ → Bool
same_codes [] [] = true
same_codes (a ∷ as') (b ∷ bs) = a == b && same_codes as' bs
same_codes _ _ = false

unfoldable pub eq_ignore_ascii_case : String → String → Bool
unfolding same_codes
eq_ignore_ascii_case a b =
    same_codes (map to_ascii_lowercase (codes a)) (map to_ascii_lowercase (codes b))

-- `parse_host url` is the host of `gix_url::parse(url)`, or `none` where the URL does not parse or
-- has no host.
unfoldable pub auto_detect : (String → Option String) → String → PollStrategy
auto_detect parse_host url = elim (parse_host url) [
  | none ↦ ls_remote
  | some host ↦
      if eq_ignore_ascii_case host "github.com" || eq_ignore_ascii_case host "www.github.com"
      then github_api
      else if eq_ignore_ascii_case host "git.kernel.org"
      then grokmirror
      else ls_remote
]

pub record DiffOutcome (ObjectId : Type 0) : Type 0 where
  pub observed : ObjectId
  pub trigger : Bool

module _ {ObjectId : Type 0} (same : Discrete ObjectId) where
  abbrev differs : Option ObjectId → ObjectId → Bool
  differs none observed = false
  differs (some prev) observed = elim (same prev observed) [ yes _ ↦ false | no _ ↦ true ]

  unfoldable pub compare_sha : Option ObjectId → ObjectId → DiffOutcome ObjectId
  compare_sha last observed = record { observed = observed; trigger = differs last observed }

-- `PollDefaults` and `PollOverride` of src/config/parse.rs.
pub record PollDefaults (F64 : Type 0) : Type 0 where
  pub source_interval : Option Duration
  pub job_interval : Duration
  pub jitter : F64
  pub cooldown : Duration

pub record PollOverride (F64 : Type 0) : Type 0 where
  pub source_interval : Option Duration
  pub job_interval : Option Duration
  pub jitter : Option F64
  pub cooldown : Option Duration

pub record EffectivePoll (F64 : Type 0) : Type 0 where
  pub source_interval : Duration
  pub job_interval : Duration
  pub jitter : F64
  pub cooldown : Duration

unfoldable pub compute :
    {F64 : Type 0} → PollDefaults F64 → PollOverride F64 → PollStrategy → EffectivePoll F64
compute defaults override strategy = record {
  source_interval =
      unwrap_or (or_else override.source_interval defaults.source_interval)
        (default_interval strategy);
  job_interval = unwrap_or override.job_interval defaults.job_interval;
  jitter = unwrap_or override.jitter defaults.jitter;
  cooldown = unwrap_or override.cooldown defaults.cooldown;
}
