-- ===== src/Supervisor/Credentials/Resolved.antt =====
-- src/flow/supervisor/credentials.rs: the secret of one credential, whatever is asked of the pool.
use Prim.Native.String.{String}
use gcit.Base.{
  Bool, true, false, Option, none, some, List, [], ◌∷◌, filter, str_eq, eq_iff, if◌then◌else◌, ◌≡◌,
  refl, sym, ap, ◌∙◌, arith,
}
use gcit.Base.Dict.{Dict, lookup, lookup-insert}
use gcit.Base.Results.{Result, ok, err}
use gcit.Supervisor.Credentials.{
  Secret, Sources, CredentialPool, look_up, keep_secret, on_cached, resolve_secret, is_kept,
  invalidate_except,
}

-- What is asked of the pool.
pub data PoolRequest : Type 0 where
  resolve : (id : String) → Sources → PoolRequest
  invalidate : (keep : List String) → PoolRequest

abbrev pub serve : PoolRequest → CredentialPool → CredentialPool
unfolding resolve_secret invalidate_except
serve (resolve id w) pool = (resolve_secret id w pool).1
serve (invalidate keep) pool = invalidate_except keep pool

unfoldable pub serve_all : List PoolRequest → CredentialPool → CredentialPool
unfolding serve
serve_all [] pool = pool
serve_all (r ∷ rs) pool = serve_all rs (serve r pool)

-- The specification: one credential, whose secret is the first that is found, until it is dropped.
abbrev pub secret_found : Result String Secret → Option Secret
secret_found (ok secret) = some secret
secret_found (err e) = none

abbrev pub first_found : Option Secret → Result String Secret → Option Secret
first_found none r = secret_found r
first_found (some secret) r = some secret

abbrev pub secret_step : String → PoolRequest → Option Secret → Option Secret
unfolding look_up is_kept
secret_step id (resolve j w) o = if str_eq j id then first_found o (look_up w) else o
secret_step id (invalidate keep) o = if is_kept keep id then o else none

unfoldable pub secret_after : String → List PoolRequest → Option Secret → Option Secret
unfolding secret_step
secret_after id [] o = o
secret_after id (r ∷ rs) o = secret_after id rs (secret_step id r o)

lookup-filter :
    {V : Type 0} (q : String → Bool) (id : String) (m : Dict V)
    → lookup id (filter (λ e. q e.key) m) ≡ (if q id then lookup id m else none)
unfolding lookup filter
lookup-filter q id [] = ground arith
lookup-filter q id (e ∷ m) = ground (arith, eq_iff e.key id, lookup-filter q id m)

lookup-resolve_secret :
    (id j : String) (w : Sources) (pool : CredentialPool)
    → lookup id (resolve_secret j w pool).1.secrets ≡ (
        if str_eq j id
        then first_found (lookup id pool.secrets) (look_up w)
        else lookup id pool.secrets)
unfolding resolve_secret on_cached keep_secret
lookup-resolve_secret id j w pool = by_cache (lookup j pool.secrets) refl
  where
    here :
        (o : Option Secret)
        → str_eq j id ≡ true
        → lookup j pool.secrets ≡ o
        → lookup id pool.secrets ≡ o
    here o same h = ap (λ k. lookup k pool.secrets) (sym ((eq_iff j id).0 same)) ∙ h

    kept :
        (b : Bool) (secret : Secret)
        → str_eq j id ≡ b
        → lookup j pool.secrets ≡ some secret
        → lookup id pool.secrets
          ≡ (if b then first_found (lookup id pool.secrets) (look_up w) else lookup id pool.secrets)
    kept false secret other h = refl
    kept true secret same h =
        let e : lookup id pool.secrets ≡ some secret = here (some secret) same h in
        e ∙ ap (λ o. first_found o (look_up w)) (sym e)

    new :
        (b : Bool) (r : Result String Secret)
        → str_eq j id ≡ b
        → lookup j pool.secrets ≡ none
        → lookup id (keep_secret j r pool).1.secrets
          ≡ (if b then first_found (lookup id pool.secrets) r else lookup id pool.secrets)
    new false (err e) other h = refl
    new false (ok secret) other h =
        lookup-insert j id secret pool.secrets
        ∙ ap (λ c. if c then some secret else lookup id pool.secrets) other
    new true (err e) same h =
        let missing : lookup id pool.secrets ≡ none = here none same h in
        missing ∙ ap (λ o. first_found o (err e)) (sym missing)
    new true (ok secret) same h =
        lookup-insert j id secret pool.secrets
        ∙ ap (λ c. if c then some secret else lookup id pool.secrets) same
        ∙ ap (λ o. first_found o (ok secret)) (sym (here none same h))

    by_cache :
        (o : Option Secret)
        → lookup j pool.secrets ≡ o
        → lookup id (on_cached j w pool o).1.secrets ≡ (
            if str_eq j id
            then first_found (lookup id pool.secrets) (look_up w)
            else lookup id pool.secrets)
    by_cache none h = new (str_eq j id) (look_up w) refl h
    by_cache (some secret) h = kept (str_eq j id) secret refl h

lookup-serve :
    (id : String) (r : PoolRequest) (pool : CredentialPool)
    → lookup id (serve r pool).secrets ≡ secret_step id r (lookup id pool.secrets)
unfolding serve secret_step invalidate_except
lookup-serve id (resolve j w) pool = lookup-resolve_secret id j w pool
lookup-serve id (invalidate keep) pool = lookup-filter (is_kept keep) id pool.secrets

-- After any resolutions, and any reloads that drop what is not kept, the pool holds for a
-- credential the secret that it held or else the first that a resolution of that credential
-- found, since it was last dropped; no resolution of another credential changes it, and none that
-- fails.
pub lookup-serve_all :
    (id : String) (rs : List PoolRequest) (pool : CredentialPool)
    → lookup id (serve_all rs pool).secrets ≡ secret_after id rs (lookup id pool.secrets)
unfolding serve_all secret_after
lookup-serve_all id [] pool = refl
lookup-serve_all id (r ∷ rs) pool =
    lookup-serve_all id rs (serve r pool) ∙ ap (secret_after id rs) (lookup-serve id r pool)
