-- ===== src/Broker/Inversion.antt =====
-- What a call of `exchange` that is not refused has done.
use aether_rl.Prelude.{
  ℕ, ◌≡◌, refl, ap, Bool, true, false, Option, some, ◌&&◌, arith, ltb, length, ◌==◌, if◌then◌else◌,
}
use aether_rl.Dict.{get?}
use aether_rl.Broker.Exchange.{
  InferenceReply, LeaseExchange, Attempt, done, refused, Refusal, Offer, store_reply, accept_reply,
  differs, offer, offer_after, exchange_on,
}

abbrev from_done : {A : Type 0} → A → Attempt A → A
from_done a (done b) = b
from_done a (refused x) = a

pub done_injective : {A : Type 0} (a b : A) → done a ≡ done b → a ≡ b
done_injective a b q = ap (from_done a) q

pub accept-store :
    (limit : ℕ) (r : InferenceReply) (e k : LeaseExchange)
    → accept_reply limit (some r) e ≡ done k
    → store_reply r e ≡ k
accept-store limit r e k =
    by_size (ltb limit (length r.body)) (differs r (get? ◌==◌ r.request_id e.replies))
  where
    by_size :
        (b d : Bool)
        → (if b
            then refused Refusal.value
            else if d
            then refused Refusal.value
            else done (store_reply r e))
          ≡ done k
        → store_reply r e ≡ k
    by_size true d q = absurd (ground (arith, q))
    by_size false true q = absurd (ground (arith, q))
    by_size false false q = done_injective (store_reply r e) k q

-- The reply was accepted, and the rest is the offer.
pub exchange-offer :
    (limit worker session : ℕ) (reply : Option InferenceReply) (e e' : LeaseExchange) (o : Offer)
    → exchange_on limit worker session reply e ≡ done (o, e')
    → (k : LeaseExchange) × (accept_reply limit reply e ≡ done k) × (offer k ≡ (o, e'))
unfolding exchange_on
exchange-offer limit worker session reply e e' o =
    by_worker (e.worker_id == worker && e.worker_session_id == session)
  where
    by_reply :
        (a : Attempt LeaseExchange)
        → offer_after a ≡ done (o, e')
        → (k : LeaseExchange) × (a ≡ done k) × (offer k ≡ (o, e'))
    by_reply (refused x) q = absurd (ground (arith, q))
    by_reply (done k) q = (k, refl, done_injective (offer k) (o, e') q)

    by_worker :
        (b : Bool)
        → (if b then offer_after (accept_reply limit reply e) else refused Refusal.permission)
          ≡ done (o, e')
        → (k : LeaseExchange) × (accept_reply limit reply e ≡ done k) × (offer k ≡ (o, e'))
    by_worker true q = by_reply (accept_reply limit reply e) q
    by_worker false q = absurd (ground (arith, q))
