-- ===== src/Policy/Tests.antt =====
-- internal/policy: the functions and the theorems at concrete documents.
use ironrun.Prelude.{
  inr, ◌≢◌, ◌≡◌, refl, ◌⊎◌, inl, true, false, [], ◌∷◌, Option, none, some, In, bytes_eq, contains,
  join, Bytes, codes, pos, ok, err,
}
use ironrun.Policy.Document.{
  Secret, Command, PolicyFile, version_1, version_2, lookup_key, effective_kind, has_secrets,
  effective_no_network,
}
use ironrun.Policy.Names.{valid_env_target}
use ironrun.Policy.Parse.{duplicate_id, validate, parse, load_policy, no_file, not_found}
use ironrun.Policy.WellFormed.{WellFormed}
use ironrun.Policy.Commands.{argument, authorize_argv, secret_binding}
use ironrun.Policy.Shells.{is_shell_string, lower}
use ironrun.Policy.Paths.{base, clean}
use ironrun.Policy.Lint.{warn, egress_with_secrets, lint}
use ironrun.Policy.Validated.{parse_iff}
use ironrun.Policy.Binding.{secret_binding-parsed, authorize_argv_iff}
use ironrun.Policy.Reviewed.{egress_iff}

abbrev deploy : Command
deploy = record {
  id = codes "deploy";
  argv = codes "./deploy.sh" ∷ codes "--prod" ∷ [];
  env = [];
  secrets = codes "token" ∷ [];
  ttl = pos 0;
  max_bytes = pos 0;
  no_network = false;
  allow_network = true;
  work_dir = [];
  seccomp = none;
}

abbrev token : Secret
token = record {
  env = codes "TOKEN";
  store = codes "local";
  allow = codes "deploy" ∷ [];
  kind = [];
  filename = [];
}

abbrev document : PolicyFile
document = record {
  version = version_1;
  provider = codes "env";
  commands = deploy ∷ [];
  environment_set = [];
  secrets = (codes "token", token) ∷ [];
  seccomp_default = none;
  audit_log = [];
  allow_proposals = false;
  require_agent_leases = false;
}

-- A decoder that knows one document, under the text "p".
abbrev decoder : Bytes → Option PolicyFile
decoder [] = none
decoder (c ∷ cs) = some document

parse_accepts : parse decoder (codes "p") ≡ ok document
unfolding parse bytes_eq effective_kind valid_env_target contains lookup_key
parse_accepts = refl

parse_refuses_twice :
    validate (record document { commands = deploy ∷ deploy ∷ [] })
    ≡ err (duplicate_id (codes "deploy"))
unfolding validate bytes_eq effective_kind valid_env_target contains lookup_key
parse_refuses_twice = refl

load_missing : load_policy decoder no_file ≡ err not_found
unfolding load_policy
load_missing = refl

clean_climbs : clean (codes "/usr//bin/./../sh") ≡ codes "/usr/sh"
unfolding clean join bytes_eq
clean_climbs = refl

env_shell : is_shell_string (codes "/usr/bin/env" ∷ codes "A=b" ∷ codes "/bin/BASH" ∷ []) ≡ true
unfolding is_shell_string clean base contains bytes_eq join lower
env_shell = refl

extra_flag :
    authorize_argv deploy (codes "./deploy.sh" ∷ codes "--test" ∷ [])
    ≡ err (argument 1 (codes "--test") (codes "--prod"))
unfolding authorize_argv bytes_eq
extra_flag = refl

same_argv : authorize_argv deploy deploy.argv ≡ ok tt
unfolding authorize_argv bytes_eq
same_argv = refl

carries : has_secrets deploy ≡ true
unfolding has_secrets
carries = refl

reaches : effective_no_network deploy ≡ false
unfolding effective_no_network
reaches = refl

parse_iff_example : (decoder (codes "p") ≡ some document) × WellFormed document
parse_iff_example = (parse_iff decoder (codes "p") document).0 parse_accepts

secret_binding-parsed_example :
    ((version_1 ≡ version_2) × (secret_binding document (codes "token") ≡ some (codes "token", [])))
    ⊎ ((s : Secret) × (lookup_key (codes "token") document.secrets ≡ some s)
        × In (codes "deploy") s.allow
        × (secret_binding document (codes "token") ≡ some (s.env, s.store)))
secret_binding-parsed_example =
    secret_binding-parsed decoder (codes "p") document deploy (codes "token") parse_accepts
      (inl refl) (inl refl)

authorize_argv_iff_example : deploy.argv ≡ codes "./deploy.sh" ∷ codes "--prod" ∷ []
authorize_argv_iff_example = (authorize_argv_iff deploy deploy.argv).0 same_argv

token_given : deploy.secrets ≢ []
token_given e = cc

egress_iff_example :
    In
      (record { severity = warn; code = egress_with_secrets; cmd_id = codes "deploy" })
      (lint document)
egress_iff_example =
    (egress_iff document (codes "deploy")).1 (deploy, inl refl, refl, inr token_given, refl, refl)
