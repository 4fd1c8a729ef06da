-- ===== src/Broker/Tests.antt =====
-- Requests of one lease.
use aether_rl.Prelude.{ℕ, ◌≡◌, refl, false, none, some, [], ◌∷◌, ltb, length, ◌==◌, if◌then◌else◌}
use aether_rl.Dict.{get?, pop}
use aether_rl.Broker.Exchange.{
  InferenceRequest, InferenceReply, Waiter, LeaseExchange, InferenceBroker, Attempt, Refusal, Offer,
  same_reply, new_exchange, register_lease, close, put_request, start_request, end_request,
  store_reply, offer, resume, exchange_on, exchange,
}
use aether_rl.Broker.Delivery.{sys, Step, Reaches, outstanding, IsDeliverable}
use aether_rl.Broker.Delivered.{pending-IsDeliverable}
use aether_rl.Broker.Refinement.{answer, serve, queue_of, exchange_on-refines, exchange_on-resolves}
use aether_rl.Broker.Closing.{close-ends}

abbrev generate : ℕ → InferenceRequest
generate id = record { request_id = id; method = 1; path = 2; headers = 0; body = 5 ∷ [] }

abbrev reply_to : ℕ → InferenceReply
reply_to id = record { request_id = id; status_code = 200; headers = 0; body = 6 ∷ 7 ∷ [] }

-- The first of two requests was offered.
abbrev offered : LeaseExchange
offered = record {
  worker_id = 11;
  worker_session_id = 12;
  requests = generate 2 ∷ [];
  replies = [];
  waiters = (1, Waiter.undone) ∷ (2, Waiter.undone) ∷ [];
  active_request = some (generate 1);
  closed = false;
}

-- Its reply came, and the second one is offered.
abbrev answered : LeaseExchange
answered = record {
  worker_id = 11;
  worker_session_id = 12;
  requests = [];
  replies = (1, reply_to 1) ∷ [];
  waiters = (1, Waiter.resolved (reply_to 1)) ∷ (2, Waiter.undone) ∷ [];
  active_request = some (generate 2);
  closed = false;
}

answered_run :
    exchange_on 9 11 12 (some (reply_to 1)) offered
    ≡ Attempt.done (Offer.request (generate 2), answered)
unfolding exchange_on store_reply offer same_reply
answered_run = refl

exchange_on-refines_example :
    (Offer.request (generate 2), queue_of answered)
    ≡ serve (answer (some (reply_to 1)) (queue_of offered))
exchange_on-refines_example =
    exchange_on-refines 9 11 12 (some (reply_to 1)) offered answered (Offer.request (generate 2))
      refl answered_run

exchange_on-resolves_example :
    end_request 1 answered
    ≡ some (Attempt.done (reply_to 1), record answered { waiters = pop ◌==◌ 1 answered.waiters })
exchange_on-resolves_example =
    exchange_on-resolves 9 11 12 (reply_to 1) offered answered (Offer.request (generate 2))
      answered_run refl

queued :
    Reaches 9 11 12
      (sys (put_request (generate 2) (put_request (generate 1) (new_exchange 11 12))) false)
unfolding put_request new_exchange
queued =
    Reaches.after _ _
      (Reaches.after _ _ Reaches.start
        (Step.requested (new_exchange 11 12) false (generate 1) refl))
      (Step.requested (put_request (generate 1) (new_exchange 11 12)) false (generate 2) refl)

pending-IsDeliverable_example :
    IsDeliverable
      (sys (put_request (generate 2) (put_request (generate 1) (new_exchange 11 12))) false)
pending-IsDeliverable_example = pending-IsDeliverable 9 11 12 _ queued

abbrev registered : InferenceBroker
registered = record { body_limit_bytes = 9; leases = (3, offered) ∷ [] }

close-ends_example :
    (exchange 3 11 12 none (close 3 registered).0
      ≡ Attempt.done (Offer.over, (close 3 registered).0))
    × (start_request 3 (generate 4) (close 3 registered).0
        ≡ Attempt.refused
            (if ltb 9 (length (generate 4).body) then Refusal.value else Refusal.lease_closed))
close-ends_example = close-ends 3 11 12 none (generate 4) registered

test_register : register_lease 3 11 12 registered ≡ Attempt.refused Refusal.runtime
unfolding register_lease
test_register = refl

-- A worker other than the lease's.
test_permission : exchange 3 11 13 none registered ≡ Attempt.refused Refusal.permission
unfolding exchange exchange_on
test_permission = refl

-- Two calls of `exchange` that wait at once: the second one's request takes the place of the first
-- one's, which no later call is offered while its future is not done.
abbrev two_waits : LeaseExchange → LeaseExchange
two_waits e = (resume (put_request (generate 2) (resume (put_request (generate 1) e)).1)).1

test_two_waits :
    (outstanding (two_waits (new_exchange 11 12)) ≡ generate 2 ∷ [])
    × (get? ◌==◌ 1 (two_waits (new_exchange 11 12)).waiters ≡ some Waiter.undone)
unfolding resume put_request new_exchange
test_two_waits = (refl, refl)
