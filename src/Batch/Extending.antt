-- ===== src/Batch/Extending.antt =====
-- What the loop of `_materialize_bin` keeps.
use mathlib.Core.List.{append-nil, append_assoc}
use aether_rl.Prelude.{
  ℕ, zero, suc, ◌+◌, ◌≡◌, refl, sym, ap, subst, Bool-cases, inl, inr, Option, none, some, List, [],
  ◌∷◌, ◌++◌, arith, All, any, is_some, sum, sum-append, map, length, length-append, replicate,
}
use aether_rl.Batch.Data.{MicroBatch, EncodedTensor, RoutedExperts}
use aether_rl.Batch.Bins.{tokens, sample_tokens}
use aether_rl.Batch.Alignment.{IsAligned, HasLength, length-filled}
use aether_rl.Batch.Materialize.{
  start_stream, extend_stream, cons, add_at, extended, joined, add_sample, then_samples,
  add_samples, start_batch,
}

-- The predicate of the value, if there is one.
abbrev pub Every : {A : Type 0} → (A → Type 0) → Option A → Type 0
Every P none = Unit
Every P (some a) = P a

pub Every-some : {A : Type 0} (P : A → Type 0) (o : Option A) (a : A) → Every P o → o ≡ some a → P a
Every-some P o a h e = subst (Every P) e h

abbrev pub ids_of : List (ℕ × MicroBatch) → List ℕ
ids_of [] = []
ids_of (p ∷ ps) = p.1.input_ids ++ ids_of ps

pub length-ids_of : (ps : List (ℕ × MicroBatch)) → length (ids_of ps) ≡ sum (map sample_tokens ps)
length-ids_of [] = refl
length-ids_of ((l, s) ∷ ps) = omega (arith, length-append s.input_ids (ids_of ps), length-ids_of ps)

length-both :
    {A B : Type 0} (xs ys : List A) (us vs : List B)
    → length xs ≡ length us
    → length ys ≡ length vs
    → length (xs ++ ys) ≡ length (us ++ vs)
length-both xs ys us vs p q = omega (arith, length-append xs ys, length-append us vs, p, q)

HasLength-extend :
    (x k n : ℕ) (o v : Option (List ℕ))
    → HasLength k o
    → HasLength n v
    → HasLength (k + n) (extend_stream x n o v)
HasLength-extend x k n none v h g = tt
HasLength-extend x k n (some xs) none h g = length-filled n k x xs h
HasLength-extend x k n (some xs) (some ys) h g = omega (arith, length-append xs ys, h, g)

-- The arrays in the course of the loop, which has no `sequence_lengths`.
abbrev pub so_far : MicroBatch → MicroBatch
so_far acc = record acc { sequence_lengths = length acc.input_ids ∷ [] }

extended-IsAligned :
    (acc s : MicroBatch) (e : Option RoutedExperts) (k : Option (List (ℕ × EncodedTensor)))
    → IsAligned (so_far acc)
    → IsAligned s
    → IsAligned (so_far (extended acc s e k))
extended-IsAligned acc s e k h g =
    let m = length-append acc.input_ids s.input_ids in
    record {
      loss_mask =
          length-both acc.loss_mask s.loss_mask acc.input_ids s.input_ids h.loss_mask g.loss_mask;
      advantages =
          length-both acc.advantages s.advantages acc.input_ids s.input_ids h.advantages
            g.advantages;
      inference_logprobs =
          length-both acc.inference_logprobs s.inference_logprobs acc.input_ids s.input_ids
            h.inference_logprobs g.inference_logprobs;
      position_ids =
          length-both acc.position_ids s.position_ids acc.input_ids s.input_ids h.position_ids
            g.position_ids;
      temperatures =
          length-both acc.temperatures s.temperatures acc.input_ids s.input_ids h.temperatures
            g.temperatures;
      env_names =
          length-both acc.env_names s.env_names acc.input_ids s.input_ids h.env_names g.env_names;
      ref_logprobs =
          rw m
            (HasLength-extend 0 _ _ acc.ref_logprobs s.ref_logprobs h.ref_logprobs g.ref_logprobs);
      rl_weights =
          rw m (HasLength-extend 1 _ _ acc.rl_weights s.rl_weights h.rl_weights g.rl_weights);
      ce_weights =
          rw m (HasLength-extend 0 _ _ acc.ce_weights s.ce_weights h.ce_weights g.ce_weights);
      ref_kl_weights = rw m (
          HasLength-extend 0 _ _ acc.ref_kl_weights s.ref_kl_weights h.ref_kl_weights
            g.ref_kl_weights);
      mm_token_type_ids = rw m (
          HasLength-extend 0 _ _ acc.mm_token_type_ids s.mm_token_type_ids h.mm_token_type_ids
            g.mm_token_type_ids);
      sequence_lengths = omega arith;
      seq_lens = omega (arith, sum-append acc.seq_lens s.seq_lens, m, h.seq_lens, g.seq_lens);
    }

cons-Every :
    (x m : ℕ) (o : Option (List ℕ))
    → Every (λ ls. sum ls ≡ m) o
    → Every (λ ls. sum ls ≡ x + m) (cons x o)
cons-Every x m none h = tt
cons-Every x m (some ls) h = omega (arith, h)

sum-add_at : (lora n : ℕ) (xs : List ℕ) → Every (λ ls. sum ls ≡ sum xs + n) (add_at lora n xs)
unfolding add_at
sum-add_at lora n [] = tt
sum-add_at zero n (x ∷ xs) = omega arith
sum-add_at (suc lora) n (x ∷ xs) =
    subst (λ m. Every (λ ls. sum ls ≡ m) (cons x (add_at lora n xs))) (shift x (sum xs) n)
      (cons-Every x (sum xs + n) (add_at lora n xs) (sum-add_at lora n xs))
  where
    shift : (a b c : ℕ) → a + (b + c) ≡ a + b + c
    shift a b c = omega arith

-- What the loop keeps, with the tokens that it has appended.
pub record IsPacked (given : List ℕ) (r : MicroBatch × List ℕ) : Type 0 where
  pub aligned : IsAligned (so_far r.0)
  pub ids : r.0.input_ids ≡ given
  pub loras : sum r.1 ≡ length r.0.input_ids

joined-IsPacked :
    (ids : List ℕ) (acc s : MicroBatch) (ls : List ℕ) (e : Option (Option RoutedExperts))
    (k : Option (Option (List (ℕ × EncodedTensor)))) (l : Option (List ℕ))
    → IsPacked ids (acc, ls)
    → IsAligned s
    → Every (λ m. sum m ≡ sum ls + tokens s) l
    → Every (IsPacked (ids ++ s.input_ids)) (joined acc s e k l)
joined-IsPacked ids acc s ls none k l h g t = tt
joined-IsPacked ids acc s ls (some e) none l h g t = tt
joined-IsPacked ids acc s ls (some e) (some k) none h g t = tt
joined-IsPacked ids acc s ls (some e) (some k) (some l) h g t = record {
  aligned = extended-IsAligned acc s e k h.aligned g;
  ids = ap (λ z. z ++ s.input_ids) h.ids;
  loras = omega (arith, t, h.loras, length-append acc.input_ids s.input_ids);
}

then-Every :
    (P Q : MicroBatch × List ℕ → Type 0) (next : MicroBatch × List ℕ → Option (MicroBatch × List ℕ))
    (o : Option (MicroBatch × List ℕ))
    → Every P o
    → ((r : MicroBatch × List ℕ) → P r → Every Q (next r))
    → Every Q (then_samples next o)
then-Every P Q next none h k = tt
then-Every P Q next (some r) h k = k r h

pub add_samples-IsPacked :
    (ps : List (ℕ × MicroBatch)) (ids : List ℕ) (r : MicroBatch × List ℕ)
    → All (λ p. IsAligned p.1) ps
    → IsPacked ids r
    → Every (IsPacked (ids ++ ids_of ps)) (add_samples ps r)
unfolding add_samples add_sample
add_samples-IsPacked [] ids r a h = subst (λ z. IsPacked z r) (sym (append-nil ids)) h
add_samples-IsPacked ((l, s) ∷ ps) ids (acc, ls) a h =
    then-Every (IsPacked (ids ++ s.input_ids)) (IsPacked (ids ++ (s.input_ids ++ ids_of ps)))
      (add_samples ps) (add_sample (acc, ls) (l, s))
      (joined-IsPacked ids acc s ls _ _ (add_at l (tokens s) ls) h a.0 (sum-add_at l (tokens s) ls))
      λ q k.
        subst (λ z. Every (IsPacked z) (add_samples ps q))
          (append_assoc ids s.input_ids (ids_of ps))
          (add_samples-IsPacked ps (ids ++ s.input_ids) q a.1 k)

HasLength-start :
    (field : MicroBatch → Option (List ℕ)) (ps : List (ℕ × MicroBatch))
    → HasLength 0 (start_stream field ps)
HasLength-start field ps = elim (Bool-cases (any (λ p. is_some (field p.1)) ps)) [
  | inl y ↦ rw y refl
  | inr n ↦ rw n tt
]

sum-zeros : (n : ℕ) → sum (replicate n 0) ≡ 0
sum-zeros zero = refl
sum-zeros (suc n) = omega (arith, sum-zeros n)

pub start-IsPacked :
    (n : ℕ) (ps : List (ℕ × MicroBatch)) → IsPacked [] (start_batch ps, replicate n 0)
start-IsPacked n ps = record {
  aligned = record {
    loss_mask = refl;
    advantages = refl;
    inference_logprobs = refl;
    position_ids = refl;
    temperatures = refl;
    env_names = refl;
    ref_logprobs = HasLength-start MicroBatch.ref_logprobs ps;
    rl_weights = HasLength-start MicroBatch.rl_weights ps;
    ce_weights = HasLength-start MicroBatch.ce_weights ps;
    ref_kl_weights = HasLength-start MicroBatch.ref_kl_weights ps;
    mm_token_type_ids = HasLength-start MicroBatch.mm_token_type_ids ps;
    sequence_lengths = refl;
    seq_lens = refl;
  };
  ids = refl;
  loras = sum-zeros n;
}
