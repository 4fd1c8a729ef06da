-- ===== src/Batch/Materializing.antt =====
-- The micro batch that `_materialize_bin` makes of a bin.
use aether_rl.Prelude.{
  ℕ, zero, suc, ◌+◌, ◌<◌, ◌≡◌, ◌∙◌, refl, sym, ap, true, none, some, List, [], ◌∷◌, arith, ◌==◌,
  All, sum, map, length, length-replicate, replicate,
}
use aether_rl.Batch.Data.{MicroBatch}
use aether_rl.Batch.Bins.{Bin, tokens, sample_tokens}
use aether_rl.Batch.Alignment.{IsAligned}
use aether_rl.Batch.Materialize.{
  cons, add_at, extended, add_sample, add_samples, start_batch, finished_batch, materialize_bin,
}
use aether_rl.Batch.Extending.{
  Every-some, ids_of, length-ids_of, IsPacked, add_samples-IsPacked, start-IsPacked,
}

-- The micro batch of a bin: aligned arrays, the samples' tokens in order with their lengths, and as
-- many tokens of all adapters.
pub record Materialized (ps : List (ℕ × MicroBatch)) (c : MicroBatch) : Type 0 where
  pub aligned : IsAligned c
  pub ids : c.input_ids ≡ ids_of ps
  pub lengths : c.sequence_lengths ≡ map sample_tokens ps
  pub loras : (ls : List ℕ) × (c.lora_num_tokens ≡ some ls) × (sum ls ≡ length c.input_ids)

finished-Materialized :
    (ps : List (ℕ × MicroBatch)) (acc : MicroBatch) (ls : List ℕ)
    → IsPacked (ids_of ps) (acc, ls)
    → (c : MicroBatch) × (finished_batch (map sample_tokens ps) (some (acc, ls)) ≡ some c)
      × Materialized ps c
finished-Materialized ps acc ls h =
    let total : sum (map sample_tokens ps) ≡ length acc.input_ids =
      sym (length-ids_of ps) ∙ ap length (sym h.ids) in
    let a = h.aligned in
    let same : (sum (map sample_tokens ps) == length acc.input_ids) ≡ true =
      ground (arith, total) in
    let seqs : (sum acc.seq_lens == length acc.input_ids) ≡ true = ground (arith, a.seq_lens) in
    (
      record acc { sequence_lengths = map sample_tokens ps; lora_num_tokens = some ls },
      rw (same, seqs) refl,
      record {
        aligned = record {
          loss_mask = a.loss_mask;
          advantages = a.advantages;
          inference_logprobs = a.inference_logprobs;
          position_ids = a.position_ids;
          temperatures = a.temperatures;
          env_names = a.env_names;
          ref_logprobs = a.ref_logprobs;
          rl_weights = a.rl_weights;
          ce_weights = a.ce_weights;
          ref_kl_weights = a.ref_kl_weights;
          mm_token_type_ids = a.mm_token_type_ids;
          sequence_lengths = total;
          seq_lens = a.seq_lens;
        };
        ids = h.ids;
        lengths = refl;
        loras = (ls, refl, h.loras);
      },
    )

-- A sample of text for one of the adapters.
pub record IsText (num_loras : ℕ) (p : ℕ × MicroBatch) : Type 0 where
  pub lora : p.0 < num_loras
  pub experts : p.1.routed_experts ≡ none
  pub kwargs : p.1.mm_kwargs ≡ none

add_at-returns :
    (lora n : ℕ) (xs : List ℕ)
    → lora < length xs
    → (ys : List ℕ) × (add_at lora n xs ≡ some ys) × (length ys ≡ length xs)
unfolding add_at
add_at-returns lora n [] h = absurd (omega (arith, h))
add_at-returns zero n (x ∷ xs) h = ((x + n) ∷ xs, refl, refl)
add_at-returns (suc lora) n (x ∷ xs) h =
    let r = add_at-returns lora n xs (omega (arith, h)) in (x ∷ r.0, ap (cons x) r.1, ap suc r.2)

add_samples-returns :
    (num_loras : ℕ) (ps : List (ℕ × MicroBatch)) (acc : MicroBatch) (ls : List ℕ)
    → All (IsText num_loras) ps
    → length ls ≡ num_loras
    → (r : MicroBatch × List ℕ) × (add_samples ps (acc, ls) ≡ some r)
unfolding add_samples add_sample
add_samples-returns num_loras [] acc ls t e = ((acc, ls), refl)
add_samples-returns num_loras ((l, s) ∷ ps) acc ls t e =
    let x = t.0 in
    let k = add_at-returns l (tokens s) ls (omega (arith, e, x.lora)) in
    let r =
      add_samples-returns num_loras ps (extended acc s acc.routed_experts acc.mm_kwargs) k.0 t.1
        (k.2 ∙ e) in
    (r.0, rw (x.experts, x.kwargs, k.1) r.1)

-- `_materialize_bin` returns for a bin of aligned samples of text without routed experts whose adapters
-- are known.
pub materialize_bin-returns :
    (num_loras : ℕ) (b : Bin)
    → All (λ p. IsAligned p.1) b.samples
    → All (IsText num_loras) b.samples
    → (c : MicroBatch) × (materialize_bin num_loras b ≡ some c)
unfolding materialize_bin
materialize_bin-returns num_loras b a t =
    let start : MicroBatch × List ℕ = (start_batch b.samples, replicate num_loras 0) in
    let r =
      add_samples-returns num_loras b.samples start.0 start.1 t (length-replicate num_loras 0) in
    let h =
      Every-some (IsPacked (ids_of b.samples)) (add_samples b.samples start) r.0
        (add_samples-IsPacked b.samples [] start a (start-IsPacked num_loras b.samples)) r.1 in
    let f = finished-Materialized b.samples r.0.0 r.0.1 h in
    (f.0, ap (finished_batch (map sample_tokens b.samples)) r.1 ∙ f.1)
