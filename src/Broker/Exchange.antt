-- ===== src/Broker/Exchange.antt =====
-- `_LeaseExchange` and `InferenceBroker` of src/aether_rl/coordinator/inference.py. The code between
-- two awaits is one step; a coroutine that awaits is continued by a step of its own.
use aether_rl.Prelude.{
  ℕ, Bool, true, false, Option, none, some, List, [], ◌∷◌, ◌++◌, ◌&&◌, not, ltb, ◌==◌, length, map,
  if◌then◌else◌,
}
use aether_rl.Dict.{get?, set, pop}

pub record InferenceRequest : Type 0 where
  pub request_id : ℕ
  pub method : ℕ
  pub path : ℕ
  pub headers : ℕ
  pub body : List ℕ

pub record InferenceReply : Type 0 where
  pub request_id : ℕ
  pub status_code : ℕ
  pub headers : ℕ
  pub body : List ℕ

-- The futures: not done, done with a result, or with an `InferenceLeaseClosed`.
pub data Waiter : Type 0 where
  undone : Waiter
  resolved : InferenceReply → Waiter
  rejected : Waiter

pub record LeaseExchange : Type 0 where
  pub worker_id : ℕ
  pub worker_session_id : ℕ
  pub requests : List InferenceRequest
  pub replies : List (ℕ × InferenceReply)
  pub waiters : List (ℕ × Waiter)
  pub active_request : Option InferenceRequest
  pub closed : Bool

pub record InferenceBroker : Type 0 where
  pub body_limit_bytes : ℕ
  pub leases : List (ℕ × LeaseExchange)

-- What is raised: a `RuntimeError`, an `InferenceLeaseClosed`, a `ValueError`, a `PermissionError`.
pub data Refusal : Type 0 where
  runtime lease_closed value permission : Refusal

pub data Attempt (A : Type 0) : Type 0 where
  done : A → Attempt A
  refused : Refusal → Attempt A

-- The answer of `exchange`: `False`, a request, or the wait for one.
pub data Offer : Type 0 where
  over : Offer
  request : InferenceRequest → Offer
  waits : Offer

abbrev pub same_body : List ℕ → List ℕ → Bool
same_body [] [] = true
same_body [] (y ∷ ys) = false
same_body (x ∷ xs) [] = false
same_body (x ∷ xs) (y ∷ ys) = x == y && same_body xs ys

unfoldable pub same_reply : InferenceReply → InferenceReply → Bool
same_reply x y =
    x.request_id == y.request_id
    && x.status_code == y.status_code
    && x.headers == y.headers
    && same_body x.body y.body

unfoldable pub new_exchange : ℕ → ℕ → LeaseExchange
new_exchange worker session = record {
  worker_id = worker;
  worker_session_id = session;
  requests = [];
  replies = [];
  waiters = [];
  active_request = none;
  closed = false;
}

-- `register`
abbrev pub register_new :
    ℕ → LeaseExchange → InferenceBroker → Option LeaseExchange → Attempt InferenceBroker
register_new lease e b (some old) = refused runtime
register_new lease e b none = done record b { leases = set ◌==◌ lease e b.leases }

unfoldable pub register_lease : ℕ → ℕ → ℕ → InferenceBroker → Attempt InferenceBroker
unfolding new_exchange
register_lease lease worker session b =
    register_new lease (new_exchange worker session) b (get? ◌==◌ lease b.leases)

-- `if not waiter.done(): waiter.set_exception(…)`
abbrev pub reject : Waiter → Waiter
reject undone = rejected
reject (resolved r) = resolved r
reject rejected = rejected

unfoldable pub close_exchange : LeaseExchange → LeaseExchange
close_exchange e =
    if e.closed
    then e
    else record e { closed = true; waiters = map (λ w. (w.0, reject w.1)) e.waiters }

-- `close`: the broker, and the exchange that coroutines may still hold.
abbrev pub close_found :
    ℕ → InferenceBroker → Option LeaseExchange → InferenceBroker × Option LeaseExchange
close_found lease b none = (b, none)
close_found lease b (some e) =
    (record b { leases = pop ◌==◌ lease b.leases }, some (close_exchange e))

unfoldable pub close : ℕ → InferenceBroker → InferenceBroker × Option LeaseExchange
unfolding close_exchange
close lease b = close_found lease b (get? ◌==◌ lease b.leases)

-- `request`, up to `return await waiter`.
unfoldable pub put_request : InferenceRequest → LeaseExchange → LeaseExchange
put_request r e = record e {
  waiters = set ◌==◌ r.request_id undone e.waiters;
  requests = e.requests ++ r ∷ [];
}

abbrev pub request_in :
    ℕ → InferenceRequest → InferenceBroker → Option LeaseExchange → Attempt InferenceBroker
request_in lease r b none = refused lease_closed
request_in lease r b (some e) =
    if e.closed
    then refused lease_closed
    else done record b { leases = set ◌==◌ lease (put_request r e) b.leases }

unfoldable pub start_request : ℕ → InferenceRequest → InferenceBroker → Attempt InferenceBroker
unfolding put_request
start_request lease r b =
    if ltb b.body_limit_bytes (length r.body)
    then refused value
    else request_in lease r b (get? ◌==◌ lease b.leases)

-- The rest of `request`, once the waiter is done; `none` while it is not.
abbrev pub request_outcome :
    ℕ → LeaseExchange → Option Waiter → Option (Attempt InferenceReply × LeaseExchange)
request_outcome id e none = none
request_outcome id e (some undone) = none
request_outcome id e (some (resolved r)) =
    some (done r, record e { waiters = pop ◌==◌ id e.waiters })
request_outcome id e (some rejected) =
    some (refused lease_closed, record e { waiters = pop ◌==◌ id e.waiters })

-- `request`, cancelled while it awaits the waiter: the `finally` removes it, and the request stays where it
-- was put.
unfoldable pub cancel_request : ℕ → LeaseExchange → LeaseExchange
cancel_request id e = record e { waiters = pop ◌==◌ id e.waiters }

unfoldable pub end_request : ℕ → LeaseExchange → Option (Attempt InferenceReply × LeaseExchange)
end_request id e = request_outcome id e (get? ◌==◌ id e.waiters)

-- `if waiter is not None and not waiter.done(): waiter.set_result(reply)`
abbrev pub resolve : InferenceReply → List (ℕ × Waiter) → Option Waiter → List (ℕ × Waiter)
resolve r ws none = ws
resolve r ws (some undone) = set ◌==◌ r.request_id (resolved r) ws
resolve r ws (some (resolved x)) = ws
resolve r ws (some rejected) = ws

-- The active request is cleared by its reply.
abbrev pub clear_active : InferenceReply → Option InferenceRequest → Option InferenceRequest
clear_active r none = none
clear_active r (some a) = if a.request_id == r.request_id then none else some a

unfoldable pub store_reply : InferenceReply → LeaseExchange → LeaseExchange
store_reply r e = record e {
  replies = set ◌==◌ r.request_id r e.replies;
  waiters = resolve r e.waiters (get? ◌==◌ r.request_id e.waiters);
  active_request = clear_active r e.active_request;
}

abbrev pub differs : InferenceReply → Option InferenceReply → Bool
differs r none = false
differs r (some previous) = not (same_reply previous r)

-- `if reply is not None: …`
abbrev pub accept_reply : ℕ → Option InferenceReply → LeaseExchange → Attempt LeaseExchange
accept_reply limit none e = done e
accept_reply limit (some r) e =
    if ltb limit (length r.body)
    then refused value
    else if differs r (get? ◌==◌ r.request_id e.replies)
    then refused value
    else done (store_reply r e)

-- `exchange.active_request = requests.get_nowait()`, where there is a request.
abbrev pub take_next : LeaseExchange → List InferenceRequest → Offer × LeaseExchange
take_next e [] = (waits, e)
take_next e (r ∷ rs) = (request r, record e { active_request = some r; requests = rs })

abbrev pub offer_active : LeaseExchange → Option InferenceRequest → Offer × LeaseExchange
offer_active e (some a) = (request a, e)
offer_active e none = take_next e e.requests

-- What `exchange` does after the reply, up to the wait for a request.
unfoldable pub offer : LeaseExchange → Offer × LeaseExchange
offer e = if e.closed then (over, e) else offer_active e e.active_request

-- The end of the wait: a request came, or the time is over, which changes nothing.
unfoldable pub resume : LeaseExchange → Offer × LeaseExchange
resume e = take_next e e.requests

abbrev pub offer_after : Attempt LeaseExchange → Attempt (Offer × LeaseExchange)
offer_after (refused x) = refused x
offer_after (done e) = done (offer e)

-- `exchange` on the exchange of the lease, up to the wait for a request.
unfoldable pub exchange_on :
    ℕ → ℕ → ℕ → Option InferenceReply → LeaseExchange → Attempt (Offer × LeaseExchange)
unfolding same_reply store_reply offer
exchange_on limit worker session reply e =
    if e.worker_id == worker && e.worker_session_id == session
    then offer_after (accept_reply limit reply e)
    else refused permission

abbrev pub put_back :
    ℕ → InferenceBroker → Attempt (Offer × LeaseExchange) → Attempt (Offer × InferenceBroker)
put_back lease b (refused x) = refused x
put_back lease b (done (o, e)) = done (o, record b { leases = set ◌==◌ lease e b.leases })

abbrev pub exchange_found :
    ℕ
    → ℕ
    → ℕ
    → Option InferenceReply
    → InferenceBroker
    → Option LeaseExchange
    → Attempt (Offer × InferenceBroker)
exchange_found lease worker session reply b none = done (over, b)
exchange_found lease worker session reply b (some e) =
    put_back lease b (exchange_on b.body_limit_bytes worker session reply e)

unfoldable pub exchange :
    ℕ → ℕ → ℕ → Option InferenceReply → InferenceBroker → Attempt (Offer × InferenceBroker)
unfolding exchange_on
exchange lease worker session reply b =
    exchange_found lease worker session reply b (get? ◌==◌ lease b.leases)
