-- ===== src/Config/Credential/Samples.antt =====
-- Ids that are accepted and ids that are not.
use gcit.Base.{◌≡◌, refl, ◌↔◌}
use gcit.Base.Results.{ok, err}
use gcit.Mail.{ascii}
use gcit.Config.Credential.{
  validate_id_str, path_traversal, leading_hyphen, invalid_char, id_to_env,
}
use gcit.Config.Credential.Ids.{IsId, validate_id_str_iff}

validate_id_str_iff_example :
    (validate_id_str (ascii "github-pat_2") ≡ ok tt) ↔ IsId (ascii "github-pat_2")
validate_id_str_iff_example = validate_id_str_iff (ascii "github-pat_2")

accepted : validate_id_str (ascii "github-pat_2") ≡ ok tt
unfolding validate_id_str
accepted = refl

above : validate_id_str (ascii "../x") ≡ err path_traversal
unfolding validate_id_str
above = refl

flag : validate_id_str (ascii "-x") ≡ err leading_hyphen
unfolding validate_id_str
flag = refl

-- The first one that is not allowed, a space.
space : validate_id_str (ascii "a b c") ≡ err (invalid_char 32)
unfolding validate_id_str
space = refl

-- Two ids with one variable.
same_variable : id_to_env (ascii "foo-bar") ≡ id_to_env (ascii "FOO_BAR")
unfolding id_to_env
same_variable = refl
