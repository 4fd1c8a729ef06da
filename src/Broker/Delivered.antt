-- ===== src/Broker/Delivered.antt =====
-- Every pending request of an open exchange stays deliverable, and the futures of replies.
use aether_rl.Prelude.{
  ℕ, ◌≡◌, ◌∙◌, refl, sym, subst, Bool, true, false, Bool-cases, inl, inr, Option, none, some, List,
  [], ◌∷◌, arith, ◌==◌, map, if◌then◌else◌,
}
use aether_rl.Dict.{==-IsEquality, get?, pop, get?-pop}
use aether_rl.Broker.Exchange.{
  InferenceReply, Waiter, undone, resolved, rejected, LeaseExchange, Attempt, done, refused,
  new_exchange, reject, close_exchange, request_outcome, cancel_request, end_request, accept_reply,
  resume,
}
use aether_rl.Broker.Delivery.{
  Sys, sys, Step, requested, exchanged, resumed, timed_out, ended, cancelled, closed_by, Reaches,
  start, after, is_waits, IsDeliverable, requested-IsDeliverable, resume-IsDeliverable,
  offer-IsDeliverable, store-IsDeliverable,
}
use aether_rl.Broker.Inversion.{done_injective, accept-store, exchange-offer}

-- Closing leaves no future undone.
reject-never :
    (id : ℕ) (ws : List (ℕ × Waiter))
    → get? ◌==◌ id (map (λ w. (w.0, reject w.1)) ws) ≡ some undone
    → ⊥
reject-never id [] u = absurd (ground (arith, u))
reject-never id ((k, w) ∷ ws) u = elim (Bool-cases (k == id)) [
  | inl y ↦ done_by w (rw y at u)
  | inr n ↦ reject-never id ws (rw n at u)
]
  where
    done_by : (w : Waiter) → some (reject w) ≡ some undone → ⊥
    done_by undone e = absurd (ground (arith, e))
    done_by (resolved r) e = absurd (ground (arith, e))
    done_by rejected e = absurd (ground (arith, e))

close-IsDeliverable :
    (e : LeaseExchange) (w : Bool)
    → IsDeliverable (sys e w)
    → IsDeliverable (sys (close_exchange e) w)
unfolding close_exchange
close-IsDeliverable e w h = go e.closed
  where
    go :
        (b : Bool)
        → IsDeliverable (
            sys
              (if b
                then e
                else record e { closed = true; waiters = map (λ k. (k.0, reject k.1)) e.waiters })
              w)
    go true = h
    go false = record { pending = λ id u. absurd (reject-never id e.waiters u); idle = h.idle }

-- Removing a waiter leaves the others as they were.
kept :
    (id j : ℕ) (ws : List (ℕ × Waiter))
    → get? ◌==◌ j (pop ◌==◌ id ws) ≡ some undone
    → get? ◌==◌ j ws ≡ some undone
kept id j ws u = elim (Bool-cases (id == j)) [
  | inl y ↦ absurd (ground (arith, rw y at (get?-pop ◌==◌ ==-IsEquality j id ws), u))
  | inr n ↦ sym (rw n at (get?-pop ◌==◌ ==-IsEquality j id ws)) ∙ u
]

cancel-IsDeliverable :
    (e : LeaseExchange) (w : Bool) (id : ℕ)
    → IsDeliverable (sys e w)
    → IsDeliverable (sys (cancel_request id e) w)
unfolding cancel_request
cancel-IsDeliverable e w id h = record {
  pending = λ j u. h.pending j (kept id j e.waiters u);
  idle = h.idle;
}

end-IsDeliverable :
    (e e' : LeaseExchange) (w : Bool) (id : ℕ) (a : Attempt InferenceReply)
    → end_request id e ≡ some (a, e')
    → IsDeliverable (sys e w)
    → IsDeliverable (sys e' w)
unfolding end_request
end-IsDeliverable e e' w id a run h = go (get? ◌==◌ id e.waiters) run
  where
    second :
        (x : Attempt InferenceReply) (k : LeaseExchange)
        → ◌≡◌ {A = Option (Attempt InferenceReply × LeaseExchange)} (some (x, k)) (some (a, e'))
        → k ≡ e'
    second x k q = ground (arith, q)

    popped :
        (x : Attempt InferenceReply)
        → ◌≡◌ {A = Option (Attempt InferenceReply × LeaseExchange)}
            (some (x, record e { waiters = pop ◌==◌ id e.waiters }))
            (some (a, e'))
        → IsDeliverable (sys e' w)
    popped x q =
        subst (λ k. IsDeliverable (sys k w))
          (second x (record e { waiters = pop ◌==◌ id e.waiters }) q)
          record { pending = λ j u. h.pending j (kept id j e.waiters u); idle = h.idle }

    go : (o : Option Waiter) → request_outcome id e o ≡ some (a, e') → IsDeliverable (sys e' w)
    go none q = absurd (ground (arith, q))
    go (some undone) q = absurd (ground (arith, q))
    go (some (resolved r)) q = popped (done r) q
    go (some rejected) q = popped (refused _) q

accept-IsDeliverable :
    (limit : ℕ) (reply : Option InferenceReply) (e k : LeaseExchange)
    → accept_reply limit reply e ≡ done k
    → IsDeliverable (sys e false)
    → IsDeliverable (sys k false)
accept-IsDeliverable limit none e k q h =
    subst (λ x. IsDeliverable (sys x false)) (done_injective e k q) h
accept-IsDeliverable limit (some r) e k q h =
    subst (λ x. IsDeliverable (sys x false)) (accept-store limit r e k q)
      (store-IsDeliverable r e h)

Step-IsDeliverable : (limit : ℕ) (s t : Sys) → Step limit s t → IsDeliverable s → IsDeliverable t
unfolding resume
Step-IsDeliverable limit s t (requested e w r o) h = requested-IsDeliverable e w r o h
Step-IsDeliverable limit s t (exchanged e e' worker session reply o run) h =
    let x = exchange-offer limit worker session reply e e' o run in
    subst (λ p. IsDeliverable (sys p.1 (is_waits p.0))) x.2
      (offer-IsDeliverable x.0 (accept-IsDeliverable limit reply e x.0 x.1 h))
Step-IsDeliverable limit s t (resumed e) h = resume-IsDeliverable e true (h.idle refl) h
Step-IsDeliverable limit s t (timed_out e) h = record {
  pending = h.pending;
  idle = λ b. absurd (ground (arith, b));
}
Step-IsDeliverable limit s t (ended e e' w id a run) h = end-IsDeliverable e e' w id a run h
Step-IsDeliverable limit s t (cancelled e w id) h = cancel-IsDeliverable e w id h
Step-IsDeliverable limit s t (closed_by e w) h = close-IsDeliverable e w h

-- While a worker has at most one call of `exchange` open, after any sequence of requests, exchanges,
-- waits, their ends, cancelled requests and a close, a request that still awaits its reply is one that the worker is
-- offered again or that is queued, and the lease is open.
pub pending-IsDeliverable :
    (limit worker session : ℕ) (s : Sys) → Reaches limit worker session s → IsDeliverable s
unfolding new_exchange
pending-IsDeliverable limit worker session s start = record {
  pending = λ id u. absurd (ground (arith, u));
  idle = λ b. refl;
}
pending-IsDeliverable limit worker session s (after r t h k) =
    Step-IsDeliverable limit r t k (pending-IsDeliverable limit worker session r h)
