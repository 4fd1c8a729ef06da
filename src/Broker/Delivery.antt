-- ===== src/Broker/Delivery.antt =====
-- The steps of one lease's exchange, while the worker makes one call of `exchange` at a time.
use aether_rl.Prelude.{
  ℕ, ◌≡◌, ◌∙◌, refl, sym, ap, Bool, true, false, Bool-cases, inl, inr, Option, none, some, List, [],
  ◌∷◌, ◌++◌, ◌||◌, arith, ◌==◌, ==→eq, any, if◌then◌else◌,
}
use mathlib.Core.List.{append_assoc}
use aether_rl.Dict.{==-IsEquality, get?, set, get?-alter}
use aether_rl.Broker.Exchange.{
  InferenceRequest, InferenceReply, Waiter, undone, resolved, rejected, LeaseExchange, Attempt,
  done, Offer, over, waits, new_exchange, close_exchange, put_request, cancel_request, end_request,
  resolve, clear_active, store_reply, take_next, offer_active, offer, resume, exchange_on,
}

-- The exchange of a lease, and whether a call of `exchange` awaits a request.
pub record Sys : Type 0 where
  pub state : LeaseExchange
  pub waiting : Bool

abbrev pub sys : LeaseExchange → Bool → Sys
sys e w = record { state = e; waiting = w }

abbrev pub is_waits : Offer → Bool
is_waits over = false
is_waits (Offer.request r) = false
is_waits waits = true

pub data Step (limit : ℕ) : Sys → Sys → Type 0 where
  requested :
      (e : LeaseExchange) (w : Bool) (r : InferenceRequest)
      → e.closed ≡ false
      → Step limit (sys e w) (sys (put_request r e) w)
  exchanged :
      (e e' : LeaseExchange) (worker session : ℕ) (reply : Option InferenceReply) (o : Offer)
      → exchange_on limit worker session reply e ≡ done (o, e')
      → Step limit (sys e false) (sys e' (is_waits o))
  resumed : (e : LeaseExchange) → Step limit (sys e true) (sys (resume e).1 (is_waits (resume e).0))
  timed_out : (e : LeaseExchange) → Step limit (sys e true) (sys e false)
  ended :
      (e e' : LeaseExchange) (w : Bool) (id : ℕ) (a : Attempt InferenceReply)
      → end_request id e ≡ some (a, e')
      → Step limit (sys e w) (sys e' w)
  cancelled :
      (e : LeaseExchange) (w : Bool) (id : ℕ) → Step limit (sys e w) (sys (cancel_request id e) w)
  closed_by : (e : LeaseExchange) (w : Bool) → Step limit (sys e w) (sys (close_exchange e) w)

pub data Reaches (limit worker session : ℕ) : Sys → Type 0 where
  start : Reaches limit worker session (sys (new_exchange worker session) false)
  after :
      (s t : Sys) → Reaches limit worker session s → Step limit s t → Reaches limit worker session t

-- The requests that the worker has yet to answer, in the order in which it is offered them.
abbrev pub active_list : Option InferenceRequest → List InferenceRequest
active_list none = []
active_list (some a) = a ∷ []

abbrev pub outstanding : LeaseExchange → List InferenceRequest
outstanding e = active_list e.active_request ++ e.requests

abbrev pub is_outstanding : ℕ → LeaseExchange → Bool
is_outstanding id e = any (λ r. r.request_id == id) (outstanding e)

pub record IsDeliverable (s : Sys) : Type 0 where
  pub pending :
      (id : ℕ)
      → get? ◌==◌ id s.state.waiters ≡ some undone
      → (s.state.closed ≡ false) × (is_outstanding id s.state ≡ true)
  pub idle : s.waiting ≡ true → s.state.active_request ≡ none

any-append :
    {A : Type 0} (p : A → Bool) (xs ys : List A) → any p (xs ++ ys) ≡ (any p xs || any p ys)
any-append p [] ys = refl
any-append p (x ∷ xs) ys = ground (arith, any-append p xs ys)

pub requested-IsDeliverable :
    (e : LeaseExchange) (w : Bool) (r : InferenceRequest)
    → e.closed ≡ false
    → IsDeliverable (sys e w)
    → IsDeliverable (sys (put_request r e) w)
unfolding put_request
requested-IsDeliverable e w r o h = record { pending = λ id u. (o, queued id u); idle = h.idle }
  where
    queued :
        (id : ℕ)
        → get? ◌==◌ id (set ◌==◌ r.request_id undone e.waiters) ≡ some undone
        → any (λ q. q.request_id == id) (active_list e.active_request ++ (e.requests ++ r ∷ []))
          ≡ true
    queued id u =
        rw
          (
            sym (append_assoc (active_list e.active_request) e.requests (r ∷ [])),
            any-append (λ q. q.request_id == id) (outstanding e) (r ∷ []),
          )
          (elim (Bool-cases (r.request_id == id)) [
            | inl y ↦ rw y (ground arith)
            | inr n ↦
                rw
                  ((h.pending id (
                    sym (
                      rw n at (
                        get?-alter ◌==◌ ==-IsEquality id r.request_id undone (λ _. undone)
                          e.waiters))
                    ∙ u)).1)
                  refl
          ])

pub resume-IsDeliverable :
    (e : LeaseExchange) (w : Bool)
    → e.active_request ≡ none
    → IsDeliverable (sys e w)
    → IsDeliverable (sys (take_next e e.requests).1 (is_waits (take_next e e.requests).0))
resume-IsDeliverable e w idle h = go e.requests refl
  where
    go :
        (rs : List InferenceRequest)
        → e.requests ≡ rs
        → IsDeliverable (sys (take_next e rs).1 (is_waits (take_next e rs).0))
    go [] q = record { pending = h.pending; idle = λ _. idle }
    go (r ∷ rs) q = record {
      pending = λ id u. let p = h.pending id u in (p.0, rw (idle, q) at p.1);
      idle = λ b. absurd (ground (arith, b));
    }

pub offer-IsDeliverable :
    (e : LeaseExchange)
    → IsDeliverable (sys e false)
    → IsDeliverable (sys (offer e).1 (is_waits (offer e).0))
unfolding offer
offer-IsDeliverable e h = by_closed e.closed
  where
    by_active :
        (o : Option InferenceRequest)
        → e.active_request ≡ o
        → IsDeliverable (sys (offer_active e o).1 (is_waits (offer_active e o).0))
    by_active none q = resume-IsDeliverable e false q h
    by_active (some a) q = h

    by_closed :
        (b : Bool)
        → let o = if b then (over, e) else offer_active e e.active_request in
          IsDeliverable (sys o.1 (is_waits o.0))
    by_closed true = h
    by_closed false = by_active e.active_request refl

-- A reply clears no other request.
outstanding-store :
    (r : InferenceReply) (o : Option InferenceRequest) (rs : List InferenceRequest) (id : ℕ)
    → (r.request_id == id) ≡ false
    → any (λ q. q.request_id == id) (active_list o ++ rs) ≡ true
    → any (λ q. q.request_id == id) (active_list (clear_active r o) ++ rs) ≡ true
outstanding-store r none rs id n h = h
outstanding-store r (some a) rs id n h = elim (Bool-cases (a.request_id == r.request_id)) [
  | inl y ↦ rw y (ground (arith, ==→eq a.request_id r.request_id y, n, h))
  | inr m ↦ rw m h
]

-- The future of the request is done, the others are as they were.
resolve-others :
    (r : InferenceReply) (ws : List (ℕ × Waiter)) (id : ℕ)
    → get? ◌==◌ id (resolve r ws (get? ◌==◌ r.request_id ws)) ≡ some undone
    → ((r.request_id == id) ≡ false) × (get? ◌==◌ id ws ≡ some undone)
resolve-others r ws id = go (get? ◌==◌ r.request_id ws) refl
  where
    other :
        (o : Option Waiter)
        → get? ◌==◌ r.request_id ws ≡ o
        → (o ≡ some undone → ⊥)
        → get? ◌==◌ id ws ≡ some undone
        → (r.request_id == id) ≡ false
    other o q never u = elim (Bool-cases (r.request_id == id)) [
      | inl y ↦ absurd (never (sym q ∙ ap (λ k. get? ◌==◌ k ws) (==→eq r.request_id id y) ∙ u))
      | inr n ↦ n
    ]

    go :
        (o : Option Waiter)
        → get? ◌==◌ r.request_id ws ≡ o
        → get? ◌==◌ id (resolve r ws o) ≡ some undone
        → ((r.request_id == id) ≡ false) × (get? ◌==◌ id ws ≡ some undone)
    go none q u = (other none q (λ z. absurd (ground (arith, z))) u, u)
    go (some undone) q u = elim (Bool-cases (r.request_id == id)) [
      | inl y ↦ absurd (
          ground (
            arith,
            rw y at
                (get?-alter ◌==◌ ==-IsEquality id r.request_id (resolved r) (λ _. resolved r) ws),
            u,
          ))
      | inr n ↦ (
        n,
        sym (
              rw n at
                (get?-alter ◌==◌ ==-IsEquality id r.request_id (resolved r) (λ _. resolved r) ws))
            ∙ u,
      )
    ]
    go (some (resolved x)) q u = (other _ q (λ z. absurd (ground (arith, z))) u, u)
    go (some rejected) q u = (other _ q (λ z. absurd (ground (arith, z))) u, u)

pub store-IsDeliverable :
    (r : InferenceReply) (e : LeaseExchange)
    → IsDeliverable (sys e false)
    → IsDeliverable (sys (store_reply r e) false)
unfolding store_reply
store-IsDeliverable r e h = record {
  pending = λ id u.
      let k = resolve-others r e.waiters id u in
      let p = h.pending id k.1 in (p.0, outstanding-store r e.active_request e.requests id k.0 p.1);
  idle = λ w. absurd (ground (arith, w));
}
