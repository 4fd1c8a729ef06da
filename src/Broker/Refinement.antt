-- ===== src/Broker/Refinement.antt =====
-- An exchange as a queue: what the worker is offered, by the requests and the replies alone.
use aether_rl.Prelude.{
  ℕ, ◌≡◌, ◌∙◌, refl, sym, ap, Bool, true, false, Bool-cases, inl, inr, Option, none, some, List, [],
  ◌∷◌, ◌++◌, arith, ◌==◌, ==-refl, is_some, if◌then◌else◌,
}
use mathlib.Core.List.{append_assoc}
use mathlib.Core.List.{append_assoc}
use aether_rl.Dict.{==-IsEquality, get?, pop, get?-alter}
use aether_rl.Broker.Exchange.{
  InferenceRequest, InferenceReply, undone, resolved, LeaseExchange, done, Offer, over, waits,
  put_request, request_outcome, end_request, clear_active, store_reply, accept_reply, take_next,
  offer_active, offer, exchange_on,
}
use aether_rl.Broker.Delivery.{active_list, outstanding}
use aether_rl.Broker.Inversion.{done_injective, accept-store, exchange-offer}

-- Requests in their order, and whether the first one was offered.
pub record Queue : Type 0 where
  pub items : List InferenceRequest
  pub offered : Bool

abbrev pub enqueue : InferenceRequest → Queue → Queue
enqueue r q = record { items = q.items ++ r ∷ []; offered = q.offered }

-- An offered request leaves the queue with its reply.
abbrev pub drop_first : InferenceReply → Bool → List InferenceRequest → Queue
drop_first r b [] = record { items = []; offered = b }
drop_first r true (a ∷ rs) =
    if a.request_id == r.request_id
    then record { items = rs; offered = false }
    else record { items = a ∷ rs; offered = true }
drop_first r false (a ∷ rs) = record { items = a ∷ rs; offered = false }

abbrev pub answer : Option InferenceReply → Queue → Queue
answer none q = q
answer (some r) q = drop_first r q.offered q.items

-- The first request is offered.
abbrev pub serve_items : Queue → List InferenceRequest → Offer × Queue
serve_items q [] = (waits, q)
serve_items q (a ∷ rs) = (Offer.request a, record { items = a ∷ rs; offered = true })

abbrev pub serve : Queue → Offer × Queue
serve q = serve_items q q.items

abbrev pub queue_of : LeaseExchange → Queue
queue_of e = record { items = outstanding e; offered = is_some e.active_request }

-- A request joins the end of the queue.
put_request-enqueue :
    (r : InferenceRequest) (e : LeaseExchange) → queue_of (put_request r e) ≡ enqueue r (queue_of e)
unfolding put_request
put_request-enqueue r e =
    ap (λ xs. record { items = xs; offered = is_some e.active_request })
      (sym (append_assoc (active_list e.active_request) e.requests (r ∷ [])))

store-answer :
    (r : InferenceReply) (e : LeaseExchange)
    → queue_of (store_reply r e) ≡ answer (some r) (queue_of e)
unfolding store_reply
store-answer r e = go e.active_request
  where
    unoffered :
        (rs : List InferenceRequest)
        → ◌≡◌ {A = Queue} record { items = rs; offered = false } (drop_first r false rs)
    unoffered [] = refl
    unoffered (a ∷ rs) = refl

    go :
        (o : Option InferenceRequest)
        → ◌≡◌ {A = Queue}
            record {
              items = active_list (clear_active r o) ++ e.requests;
              offered = is_some (clear_active r o);
            }
            (drop_first r (is_some o) (active_list o ++ e.requests))
    go none = unoffered e.requests
    go (some a) = elim (Bool-cases (a.request_id == r.request_id)) [
      | inl y ↦ rw y refl
      | inr n ↦ rw n refl
    ]

offer-serve :
    (e : LeaseExchange)
    → e.closed ≡ false
    → ((offer e).0, queue_of (offer e).1) ≡ serve (queue_of e)
unfolding offer
offer-serve e h = by_closed e.closed h
  where
    by_requests :
        (rs : List InferenceRequest)
        → e.active_request ≡ none
        → e.requests ≡ rs
        → ◌≡◌ {A = Offer × Queue}
            ((take_next e rs).0, queue_of (take_next e rs).1)
            (serve (queue_of e))
    by_requests [] p q = rw (p, q) refl
    by_requests (a ∷ rs) p q = rw (p, q) refl

    by_active :
        (o : Option InferenceRequest)
        → e.active_request ≡ o
        → ◌≡◌ {A = Offer × Queue}
            ((offer_active e o).0, queue_of (offer_active e o).1)
            (serve (queue_of e))
    by_active none q = by_requests e.requests q refl
    by_active (some a) q = rw q refl

    by_closed :
        (b : Bool)
        → b ≡ false
        → let p = if b then (over, e) else offer_active e e.active_request in
          ◌≡◌ {A = Offer × Queue} (p.0, queue_of p.1) (serve (queue_of e))
    by_closed true q = absurd (ground (arith, q))
    by_closed false q = by_active e.active_request refl

-- While the lease is open, a call of `exchange` that is not refused does to the queue of requests
-- what the queue's own operations do: the reply to the offered request removes it, any other reply
-- leaves the queue as it is, and the answer is its first request, or the wait when it is empty.
pub exchange_on-refines :
    (limit worker session : ℕ) (reply : Option InferenceReply) (e e' : LeaseExchange) (o : Offer)
    → e.closed ≡ false
    → exchange_on limit worker session reply e ≡ done (o, e')
    → (o, queue_of e') ≡ serve (answer reply (queue_of e))
unfolding store_reply
exchange_on-refines limit worker session reply e e' o h run =
    let x = exchange-offer limit worker session reply e e' o run in
    let a = accepted reply x.0 x.1 in
    ap (λ p. (p.0, queue_of p.1)) (sym x.2) ∙ offer-serve x.0 a.1 ∙ ap serve a.0
  where
    accepted :
        (reply : Option InferenceReply) (k : LeaseExchange)
        → accept_reply limit reply e ≡ done k
        → (queue_of k ≡ answer reply (queue_of e)) × (k.closed ≡ false)
    accepted none k q =
        let p = done_injective e k q in (ap queue_of (sym p), ap LeaseExchange.closed (sym p) ∙ h)
    accepted (some r) k q =
        let p = accept-store limit r e k q in
        (ap queue_of (sym p) ∙ store-answer r e, ap LeaseExchange.closed (sym p) ∙ h)

-- An offer leaves the futures alone.
offer-waiters : (k : LeaseExchange) → (offer k).1.waiters ≡ k.waiters
unfolding offer
offer-waiters k = by_closed k.closed
  where
    by_requests : (rs : List InferenceRequest) → (take_next k rs).1.waiters ≡ k.waiters
    by_requests [] = refl
    by_requests (a ∷ rs) = refl

    by_active : (o : Option InferenceRequest) → (offer_active k o).1.waiters ≡ k.waiters
    by_active none = by_requests k.requests
    by_active (some a) = refl

    by_closed :
        (b : Bool)
        → (if b then (over, k) else offer_active k k.active_request).1.waiters ≡ k.waiters
    by_closed true = refl
    by_closed false = by_active k.active_request

-- The reply of a request whose future is not done is what that request returns, once the call that
-- brings it is not refused.
pub exchange_on-resolves :
    (limit worker session : ℕ) (r : InferenceReply) (e e' : LeaseExchange) (o : Offer)
    → exchange_on limit worker session (some r) e ≡ done (o, e')
    → get? ◌==◌ r.request_id e.waiters ≡ some undone
    → end_request r.request_id e'
      ≡ some (done r, record e' { waiters = pop ◌==◌ r.request_id e'.waiters })
unfolding end_request store_reply
exchange_on-resolves limit worker session r e e' o run u = ap (request_outcome r.request_id e') now
  where
    stored : get? ◌==◌ r.request_id (store_reply r e).waiters ≡ some (resolved r)
    stored = rw u (
        get?-alter ◌==◌ ==-IsEquality r.request_id r.request_id (resolved r) (λ _. resolved r)
          e.waiters
        ∙ rw (==-refl r.request_id) refl)

    now : get? ◌==◌ r.request_id e'.waiters ≡ some (resolved r)
    now =
        let x = exchange-offer limit worker session (some r) e e' o run in
        ap (get? ◌==◌ r.request_id) (
          sym (ap (λ p. p.1.waiters) x.2)
          ∙ offer-waiters x.0
          ∙ ap LeaseExchange.waiters (sym (accept-store limit r e x.0 x.1)))
        ∙ stored
