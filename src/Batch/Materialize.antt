-- ===== src/Batch/Materialize.antt =====
-- `_materialize_bin` of trainer/batch.py; `none` where an assertion fails or an index or a key is
-- missing.
use aether_rl.Prelude.{
  ℕ, zero, suc, ◌+◌, Option, none, some, List, [], ◌∷◌, ◌++◌, ◌&&◌, ◌==◌, any, sum, map, length,
  is_some, replicate, if◌then◌else◌,
}
use aether_rl.Batch.Data.{MicroBatch, EncodedTensor, RoutedExperts}
use aether_rl.Batch.Bins.{Bin, tokens, sample_tokens, tensor_of, same_rows}

-- `any(sample.… is not None for _, sample in bin_content.samples)`
abbrev pub start_stream : (MicroBatch → Option (List ℕ)) → List (ℕ × MicroBatch) → Option (List ℕ)
start_stream field ps = if any (λ p. is_some (field p.1)) ps then some [] else none

-- A stream that materializes gets the sample's values, or `n` times the fill `x`.
abbrev pub extend_stream : ℕ → ℕ → Option (List ℕ) → Option (List ℕ) → Option (List ℕ)
extend_stream x n none values = none
extend_stream x n (some stream) none = some (stream ++ replicate n x)
extend_stream x n (some stream) (some values) = some (stream ++ values)

-- `x.shape[0] += y.shape[0]`
abbrev pub add_rows : List ℕ → List ℕ → Option (List ℕ)
add_rows [] ys = none
add_rows (x ∷ xs) [] = none
add_rows (x ∷ xs) (y ∷ ys) = some ((x + y) ∷ xs)

abbrev pub with_experts :
    RoutedExperts → RoutedExperts → Option (List ℕ) → Option (Option RoutedExperts)
with_experts a r none = none
with_experts a r (some shape) = some (some (record a { data_ = a.data_ ++ r.data_; shape = shape }))

-- The first sample's routed experts are copied, later ones appended.
abbrev pub join_experts :
    Option RoutedExperts → Option RoutedExperts → Option (Option RoutedExperts)
join_experts acc none = some acc
join_experts none (some r) = some (some r)
join_experts (some a) (some r) =
    if a.dtype == r.dtype && same_rows a.shape r.shape
    then with_experts a r (add_rows a.shape r.shape)
    else none

abbrev pub with_rows : EncodedTensor → EncodedTensor → Option (List ℕ) → Option EncodedTensor
with_rows t u none = none
with_rows t u (some shape) = some (record t { data_ = t.data_ ++ u.data_; shape = shape })

abbrev pub append_tensor : EncodedTensor → Option EncodedTensor → Option EncodedTensor
append_tensor t none = none
append_tensor t (some u) = with_rows t u (add_rows t.shape u.shape)

abbrev pub put_tensor :
    ℕ → Option EncodedTensor → Option (List (ℕ × EncodedTensor)) → Option (List (ℕ × EncodedTensor))
put_tensor k none later = none
put_tensor k (some t) none = none
put_tensor k (some t) (some later) = some ((k, t) ∷ later)

-- `for key in mm_kwargs: …`
unfoldable pub join_tensors :
    List (ℕ × EncodedTensor) → List (ℕ × EncodedTensor) → Option (List (ℕ × EncodedTensor))
join_tensors [] src = some []
join_tensors ((k, t) ∷ rest) src =
    put_tensor k (append_tensor t (tensor_of k src)) (join_tensors rest src)

abbrev pub some_tensors :
    Option (List (ℕ × EncodedTensor)) → Option (Option (List (ℕ × EncodedTensor)))
some_tensors none = none
some_tensors (some kwargs) = some (some kwargs)

abbrev pub join_kwargs :
    Option (List (ℕ × EncodedTensor))
    → Option (List (ℕ × EncodedTensor))
    → Option (Option (List (ℕ × EncodedTensor)))
join_kwargs acc none = some acc
join_kwargs none (some src) = some (some src)
join_kwargs (some kwargs) (some src) = some_tensors (join_tensors kwargs src)

abbrev pub cons : ℕ → Option (List ℕ) → Option (List ℕ)
cons x none = none
cons x (some xs) = some (x ∷ xs)

-- `lora_num_tokens[lora_idx] += sample_len`
unfoldable pub add_at : ℕ → ℕ → List ℕ → Option (List ℕ)
add_at lora n [] = none
add_at zero n (x ∷ xs) = some ((x + n) ∷ xs)
add_at (suc lora) n (x ∷ xs) = cons x (add_at lora n xs)

-- The arrays of a sample appended to those of the loop.
abbrev pub extended :
    MicroBatch → MicroBatch → Option RoutedExperts → Option (List (ℕ × EncodedTensor)) → MicroBatch
extended acc s experts kwargs = record {
  input_ids = acc.input_ids ++ s.input_ids;
  advantages = acc.advantages ++ s.advantages;
  loss_mask = acc.loss_mask ++ s.loss_mask;
  position_ids = acc.position_ids ++ s.position_ids;
  inference_logprobs = acc.inference_logprobs ++ s.inference_logprobs;
  sequence_lengths = acc.sequence_lengths;
  ref_logprobs = extend_stream 0 (tokens s) acc.ref_logprobs s.ref_logprobs;
  temperatures = acc.temperatures ++ s.temperatures;
  lora_num_tokens = acc.lora_num_tokens;
  routed_experts = experts;
  mm_token_type_ids = extend_stream 0 (tokens s) acc.mm_token_type_ids s.mm_token_type_ids;
  env_names = acc.env_names ++ s.env_names;
  mm_kwargs = kwargs;
  rl_weights = extend_stream 1 (tokens s) acc.rl_weights s.rl_weights;
  ce_weights = extend_stream 0 (tokens s) acc.ce_weights s.ce_weights;
  ref_kl_weights = extend_stream 0 (tokens s) acc.ref_kl_weights s.ref_kl_weights;
  seq_lens = acc.seq_lens ++ s.seq_lens;
}

-- The loop's variables: the arrays, and `lora_num_tokens`.
abbrev pub joined :
    MicroBatch
    → MicroBatch
    → Option (Option RoutedExperts)
    → Option (Option (List (ℕ × EncodedTensor)))
    → Option (List ℕ)
    → Option (MicroBatch × List ℕ)
joined acc s none kwargs loras = none
joined acc s (some experts) none loras = none
joined acc s (some experts) (some kwargs) none = none
joined acc s (some experts) (some kwargs) (some loras) = some (extended acc s experts kwargs, loras)

unfoldable pub add_sample : MicroBatch × List ℕ → ℕ × MicroBatch → Option (MicroBatch × List ℕ)
unfolding join_tensors add_at
add_sample (acc, loras) (lora, s) =
    joined acc s (join_experts acc.routed_experts s.routed_experts)
      (join_kwargs acc.mm_kwargs s.mm_kwargs) (add_at lora (tokens s) loras)

-- `for lora_idx, sample in bin_content.samples`
abbrev pub then_samples :
    (MicroBatch × List ℕ → Option (MicroBatch × List ℕ))
    → Option (MicroBatch × List ℕ)
    → Option (MicroBatch × List ℕ)
then_samples next none = none
then_samples next (some acc) = next acc

unfoldable pub add_samples :
    List (ℕ × MicroBatch) → MicroBatch × List ℕ → Option (MicroBatch × List ℕ)
unfolding add_sample
add_samples [] acc = some acc
add_samples (p ∷ ps) acc = then_samples (add_samples ps) (add_sample acc p)

-- The arrays before the loop.
abbrev pub start_batch : List (ℕ × MicroBatch) → MicroBatch
start_batch ps = record {
  input_ids = [];
  advantages = [];
  loss_mask = [];
  position_ids = [];
  inference_logprobs = [];
  sequence_lengths = [];
  ref_logprobs = start_stream MicroBatch.ref_logprobs ps;
  temperatures = [];
  lora_num_tokens = none;
  routed_experts = none;
  mm_token_type_ids = start_stream MicroBatch.mm_token_type_ids ps;
  env_names = [];
  mm_kwargs = none;
  rl_weights = start_stream MicroBatch.rl_weights ps;
  ce_weights = start_stream MicroBatch.ce_weights ps;
  ref_kl_weights = start_stream MicroBatch.ref_kl_weights ps;
  seq_lens = [];
}

-- The assertions after the loop.
abbrev pub finished_batch : List ℕ → Option (MicroBatch × List ℕ) → Option MicroBatch
finished_batch lengths none = none
finished_batch lengths (some (acc, loras)) =
    if sum lengths == length acc.input_ids && sum acc.seq_lens == length acc.input_ids
    then some (record acc { sequence_lengths = lengths; lora_num_tokens = some loras })
    else none

-- `_materialize_bin`
unfoldable pub materialize_bin : ℕ → Bin → Option MicroBatch
unfolding add_samples
materialize_bin num_loras b =
    finished_batch (map sample_tokens b.samples)
      (add_samples b.samples (start_batch b.samples, replicate num_loras 0))
