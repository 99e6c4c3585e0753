-- ===== src/Pending/Tests.antt =====
-- internal/pending and mcp/server.go: the operations and the theorems at concrete proposals.
use ironrun.Prelude.{
  ◌≡◌, refl, true, false, [], ◌∷◌, none, some, codes, ok, err, bytes_eq, bytes_le,
}
use ironrun.Policy.Document.{PolicyFile, version_2}
use ironrun.Pending.Store.{
  Proposal, Proposals, holds, conflict, Transaction, load_store, find, sort_by_id, same_content,
  create,
}
use ironrun.Pending.Propose.{ProposeRequest}
use ironrun.Pending.Kept.{SameContent, create-keeps, create-returns}

abbrev migrate : Proposal
migrate = record {
  id = codes "migrate";
  argv = codes "psql" ∷ [];
  env = [];
  reason = codes "schema";
  proposed_at = codes "t0";
  status = codes "pending";
}

abbrev backup : Proposal
backup = record migrate { id = codes "backup"; proposed_at = codes "t1" }

abbrev other_content : Proposal
other_content = record migrate { reason = codes "data"; proposed_at = codes "t2" }

abbrev goes_well : Transaction
goes_well = record { lock_got = true; saves = true }

conflicting :
    create other_content goes_well (holds (migrate ∷ [])) ≡ (holds (migrate ∷ []), err conflict)
unfolding create same_content bytes_eq
conflicting = refl

repeated :
    (create (record migrate { proposed_at = codes "t3" }) goes_well (holds (migrate ∷ []))).1
    ≡ ok migrate
unfolding create same_content bytes_eq
repeated = refl

sorted : (create backup goes_well (holds (migrate ∷ []))).0 ≡ holds (backup ∷ migrate ∷ [])
unfolding create same_content bytes_eq bytes_le sort_by_id
sorted = refl

found_migrate : find (codes "migrate") (migrate ∷ []) ≡ some migrate
unfolding find bytes_eq
found_migrate = refl

loads_migrate : load_store (holds (migrate ∷ [])) ≡ ok (migrate ∷ [])
unfolding load_store
loads_migrate = refl

created_backup : (create backup goes_well (holds (migrate ∷ []))).1 ≡ ok backup
unfolding create same_content bytes_eq bytes_le
created_backup = refl

create-keeps_example :
    (ps' : Proposals) × (load_store (create other_content goes_well (holds (migrate ∷ []))).0
      ≡ ok ps')
    × (find (codes "migrate") ps' ≡ some migrate)
create-keeps_example =
    create-keeps other_content goes_well (holds (migrate ∷ [])) (migrate ∷ []) (codes "migrate")
      migrate loads_migrate found_migrate

create-returns_example :
    (ps' : Proposals) × (load_store (create backup goes_well (holds (migrate ∷ []))).0 ≡ ok ps')
    × (find (codes "backup") ps' ≡ some backup)
    × SameContent backup backup
create-returns_example =
    create-returns backup goes_well (holds (migrate ∷ [])) backup created_backup

abbrev open_policy : PolicyFile
open_policy = record {
  version = version_2;
  provider = [];
  commands = [];
  environment_set = [];
  secrets = [];
  seccomp_default = none;
  audit_log = [];
  allow_proposals = true;
  require_agent_leases = false;
}

abbrev asked : ProposeRequest
asked = record {
  id = codes "migrate";
  argv = codes "psql" ∷ [];
  reason = codes "schema";
  env = [];
  secrets = [];
}
