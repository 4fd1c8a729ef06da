-- ===== src/Batch/Alignment.antt =====
-- The lengths of micro batches under `pad_micro_batch` and `_pad_group_for_distribution`.

use native.Mathlib.Nat
use aether_rl.Prelude.{
  ℕ, zero, suc, ◌+◌, ◌-◌, ◌%◌, ◌<◌, ◌≤◌, ◌≡◌, ◌∙◌, refl, sym, ap, true, false, Option, none, some,
  List, [], ◌∷◌, ◌++◌, arith, not, All, sum, length, length-append, length-replicate, replicate,
  all,
}
use aether_rl.Batch.Data.{MicroBatch}
use aether_rl.Batch.Padding.{padding_of, pad_group, make_dummy}

-- What `-n % w` adds to `n`.
mod-padding : (w n : ℕ) → 1 ≤ w → (n + padding_of w n) % w ≡ 0
mod-padding w n pos =
    Nat.add-mod-mod n (w - n % w) w
    ∙ sym (Nat.mod-add-mod n w (w - n % w))
    ∙ ap (λ z. z % w) (whole (n % w) (Nat.mod-lt n (omega (arith, pos))))
    ∙ Nat.mod_self w
  where
    whole : (r : ℕ) → r < w → r + (w - r) ≡ w
    whole r h = omega (arith, h)

padding_lt : (w n : ℕ) → 1 ≤ w → padding_of w n < w
padding_lt w n pos = Nat.mod-lt (w - n % w) (omega (arith, pos))

abbrev pub HasLength : ℕ → Option (List ℕ) → Type 0
HasLength n none = Unit
HasLength n (some xs) = length xs ≡ n

-- `_assert_token_arrays_aligned`, apart from the routed experts.
pub record IsAligned (b : MicroBatch) : Type 0 where
  pub loss_mask : length b.loss_mask ≡ length b.input_ids
  pub advantages : length b.advantages ≡ length b.input_ids
  pub inference_logprobs : length b.inference_logprobs ≡ length b.input_ids
  pub position_ids : length b.position_ids ≡ length b.input_ids
  pub temperatures : length b.temperatures ≡ length b.input_ids
  pub env_names : length b.env_names ≡ length b.input_ids
  pub ref_logprobs : HasLength (length b.input_ids) b.ref_logprobs
  pub rl_weights : HasLength (length b.input_ids) b.rl_weights
  pub ce_weights : HasLength (length b.input_ids) b.ce_weights
  pub ref_kl_weights : HasLength (length b.input_ids) b.ref_kl_weights
  pub mm_token_type_ids : HasLength (length b.input_ids) b.mm_token_type_ids
  pub sequence_lengths : sum b.sequence_lengths ≡ length b.input_ids
  pub seq_lens : sum b.seq_lens ≡ length b.input_ids

module _ {A : Type 0} (n k : ℕ) (x : A) where
  pub length-filled : (xs : List A) → length xs ≡ k → length (xs ++ replicate n x) ≡ k + n
  length-filled xs e = omega (arith, length-append xs (replicate n x), length-replicate n x, e)

abbrev pub Padded : ℕ → MicroBatch → MicroBatch → Type 0
Padded multiple b c =
    IsAligned c
    × (length c.input_ids % multiple ≡ 0)
    × (length b.input_ids ≤ length c.input_ids)
    × (length c.input_ids < length b.input_ids + multiple)

-- A micro batch that trains no token.
abbrev pub IsDummy : MicroBatch → Type 0
IsDummy b = (all not b.loss_mask ≡ true) × (b.ce_weights ≡ none) × (b.ref_kl_weights ≡ none)

All-replicate : {A : Type 0} (P : A → Type 0) (n : ℕ) (a : A) → P a → All P (replicate n a)
All-replicate P zero a h = tt
All-replicate P (suc n) a h = (h, All-replicate P n a h)

all-not : (n : ℕ) → all not (replicate n false) ≡ true
all-not zero = refl
all-not (suc n) = all-not n

-- `_pad_group_for_distribution` adds only dummies behind the group, fewer than there are workers, and
-- its length becomes a multiple of their number.
pub pad_group-divides :
    (workers : ℕ) (group : List MicroBatch)
    → 1 ≤ workers
    → (dummies : List MicroBatch) × (pad_group workers group ≡ group ++ dummies)
      × All IsDummy dummies
      × (length dummies < workers)
      × (length (pad_group workers group) % workers ≡ 0)
unfolding pad_group
pad_group-divides workers [] pos = ([], refl, tt, omega (arith, pos), Nat.zero-mod workers)
pad_group-divides workers (b ∷ bs) pos =
    let k = length (b ∷ bs) in
    let n = padding_of workers k in
    let e = length-replicate n (make_dummy b) in
    (
      replicate n (make_dummy b),
      refl,
      All-replicate IsDummy n (make_dummy b) (all-not (length b.input_ids), refl, refl),
      rw e (padding_lt workers k pos),
      ap (λ z. z % workers)
            (length-append (b ∷ bs) (replicate n (make_dummy b)) ∙ ap (λ z. k + z) e)
          ∙ mod-padding workers k pos,
    )
