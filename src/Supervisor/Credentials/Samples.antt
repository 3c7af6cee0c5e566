-- ===== src/Supervisor/Credentials/Samples.antt =====
-- A token that is rotated, and a file that others may read.
use gcit.Base.{none, some, List, [], ◌∷◌, ◌++◌, ◌≡◌, refl}
use gcit.Base.Dict.{lookup, insert, remove}
use gcit.Base.Results.{ok, err}
use gcit.Mail.{Bytes, ascii}
use gcit.Supervisor.Credentials.{
  Sources, CredentialPool, present, not_present, invariant, look_up, resolve_secret,
  invalidate_except,
}
use gcit.Supervisor.Credentials.Resolved.{
  resolve, invalidate, PoolRequest, serve_all, secret_after, lookup-serve_all,
}

abbrev file : Bytes → Sources
file content = record {
  systemd = some (record { probe = not_present; read = err "" });
  variable = none;
  config = some (record { probe = present; read = ok (content ++ (13 ∷ 10 ∷ [])) });
  not_found = "nowhere";
}

-- The variable is there, but the file before it must not be used.
abbrev readable_by_others : Sources
readable_by_others = record {
  systemd = some (record { probe = invariant "mode 0644"; read = ok (ascii "t") });
  variable = some (ascii "v");
  config = none;
  not_found = "nowhere";
}

not_masked : look_up readable_by_others ≡ err "mode 0644"
unfolding look_up
not_masked = refl

abbrev empty : CredentialPool
empty = record { by_id = []; cancelled = []; secrets = [] }

-- The new token is taken only once the old one has been dropped.
abbrev rotation : List PoolRequest
rotation = resolve "pat" (file (ascii "old")) ∷ resolve "pat" (file (ascii "new")) ∷ []

lookup-serve_all_example : lookup "pat" (serve_all rotation empty).secrets ≡ some (ascii "old")
unfolding look_up lookup secret_after
lookup-serve_all_example = lookup-serve_all "pat" rotation empty

dropped :
    lookup "pat"
      (serve_all
        (rotation ++ (invalidate [] ∷ resolve "pat" (file (ascii "new")) ∷ []))
        empty).secrets
    ≡ some (ascii "new")
unfolding serve_all look_up lookup resolve_secret insert invalidate_except remove
dropped = refl
