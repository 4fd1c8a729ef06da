-- ===== src/Coordinator/OfferTests.antt =====
-- An offered lease that is associated with its request.
use aether_rl.Prelude.{ℕ, ◌≡◌, refl, none, some, [], ◌∷◌}
use aether_rl.Tx.{ok, ◌>>=◌, ◌>>◌, gets, require, guard, modify}
use aether_rl.Coordinator.Schema.{Db, Request, RequestState, RolloutAssignment}
use aether_rl.Coordinator.Leases.{AssignmentLease, LeaseRequest, lease_request_disposition}
use aether_rl.Coordinator.Offers.{validate_offered_lease, validate_offers, associate_offered_leases}
use aether_rl.Coordinator.Promises.Offers.{Associated, associate-Associated}
use aether_rl.Coordinator.Examples.{work}
use aether_rl.Coordinator.Examples.Databases.{leased_db}
use aether_rl.Table.{select, update}

abbrev open_row : Request
open_row = record {
  request_id = 61;
  worker_session_id = 12;
  request_digest = 89;
  state = RequestState.pending;
  lease_id = none;
  created_at = 22;
  completed_at = none;
}

-- The lease was created for the session without a request.
abbrev offered_db : Db
offered_db = record leased_db { requests = open_row ∷ [] }

abbrev answered_db : Db
answered_db = record leased_db {
  requests =
      (record open_row { state = RequestState.leased; lease_id = some 50; completed_at = some 24 })
      ∷ [];
}

abbrev open_request : LeaseRequest
open_request = record {
  request_id = 61;
  worker_id = 11;
  worker_session_id = 12;
  sent_at = 21;
  loaded_policy_ids = [];
  available_slots = 1;
}

abbrev offered_lease : AssignmentLease
offered_lease = record {
  lease_id = 50;
  attempt = 1;
  worker_id = 11;
  worker_session_id = 12;
  issued_at = 20;
  expires_at = 50;
  assignment = work;
}

abbrev task_of : RolloutAssignment → ℕ
task_of a = a.task_data

associate_run :
    associate_offered_leases task_of open_request ((offered_lease, 23) ∷ []) 24 offered_db
    ≡ ok (tt, answered_db)
unfolding associate_offered_leases validate_offers validate_offered_lease lease_request_disposition
    select update ◌>>=◌ ◌>>◌ gets require guard modify
associate_run = refl

associate-Associated_example : Associated open_request (offered_lease, 23) [] offered_db answered_db
associate-Associated_example =
    associate-Associated task_of open_request (offered_lease, 23) [] 24 offered_db answered_db
      associate_run
