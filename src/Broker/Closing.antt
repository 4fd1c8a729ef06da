-- ===== src/Broker/Closing.antt =====
-- The broker after `close`.
use aether_rl.Prelude.{
  ℕ, ◌≡◌, ◌∙◌, refl, Bool, true, false, Option, none, some, ◌==◌, ==-refl, ltb, length,
  if◌then◌else◌,
}
use aether_rl.Dict.{==-IsEquality, get?, get?-pop}
use aether_rl.Broker.Exchange.{
  InferenceRequest, InferenceReply, LeaseExchange, InferenceBroker, Attempt, done, refused, Refusal,
  Offer, close_found, close, start_request, exchange,
}

limit-close :
    (lease : ℕ) (b : InferenceBroker) → (close lease b).0.body_limit_bytes ≡ b.body_limit_bytes
unfolding close
limit-close lease b = go (get? ◌==◌ lease b.leases)
  where
    go :
        (o : Option LeaseExchange) → (close_found lease b o).0.body_limit_bytes ≡ b.body_limit_bytes
    go none = refl
    go (some e) = refl

-- A closed lease is gone.
get?-close : (lease : ℕ) (b : InferenceBroker) → get? ◌==◌ lease (close lease b).0.leases ≡ none
unfolding close
get?-close lease b = go (get? ◌==◌ lease b.leases) refl
  where
    go :
        (o : Option LeaseExchange)
        → get? ◌==◌ lease b.leases ≡ o
        → get? ◌==◌ lease (close_found lease b o).0.leases ≡ none
    go none q = q
    go (some e) q = get?-pop ◌==◌ ==-IsEquality lease lease b.leases ∙ rw (==-refl lease) refl

-- After `close`, whether the lease was registered or not, `exchange` on it answers that it is over,
-- whoever calls and whatever the reply, and changes nothing; `request` on it raises, a `ValueError`
-- for a body over the limit and an `InferenceLeaseClosed` otherwise.
pub close-ends :
    (lease worker session : ℕ) (reply : Option InferenceReply) (r : InferenceRequest)
    (b : InferenceBroker)
    → (exchange lease worker session reply (close lease b).0 ≡ done (Offer.over, (close lease b).0))
      × (start_request lease r (close lease b).0
          ≡ refused (
              if ltb b.body_limit_bytes (length r.body)
              then Refusal.value
              else Refusal.lease_closed))
unfolding exchange start_request
close-ends lease worker session reply r b = (
  rw (get?-close lease b) refl,
  rw (get?-close lease b, limit-close lease b) (one (ltb b.body_limit_bytes (length r.body))),
)
  where
    one :
        (c : Bool)
        → ◌≡◌ {A = Attempt InferenceBroker}
            (if c then refused Refusal.value else refused Refusal.lease_closed)
            (refused (if c then Refusal.value else Refusal.lease_closed))
    one true = refl
    one false = refl
