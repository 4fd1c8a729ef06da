-- ===== src/Orchestrator/Shapes.antt =====
-- The lengths of the samples that `trace_to_samples` makes.
use aether_rl.Prelude.{
  ℕ, ◌-◌, ◌≡◌, ◌∙◌, refl, sym, Bool, true, false, Bool-cases, inl, inr, Option, none, some, List,
  [], ◌∷◌, ◌&&◌, arith, any, All, sum, length, length-append, length-replicate, length-take,
  length-map, replicate, map,
}
use aether_rl.Orchestrator.Trajectories.{
  Node, TraceBranch, TrainingSample, is_true, is_trainable, is_in, emitted, mask_nodes,
  trained_after, iter_from, iter_trainable_branches, realign, encode_routed_experts, get_or_zero,
  type_ids, sample_of, trace_to_samples,
}

abbrev pub HasLength : {A : Type 0} → ℕ → Option (List A) → Type 0
HasLength n none = Unit
HasLength n (some xs) = length xs ≡ n

abbrev pub node_tokens : List Node → ℕ
node_tokens ns = sum (map (λ n. length n.mask) ns)

length-emitted : (trained : List ℕ) (n : Node) → length (emitted trained n) ≡ length n.mask
unfolding emitted
length-emitted trained n = elim (Bool-cases (is_trainable n && is_in n.ident trained)) [
  | inl y ↦ rw y (length-replicate (length n.mask) false)
  | inr c ↦ rw c refl
]

length-mask_nodes :
    (trained : List ℕ) (ns : List Node) → length (mask_nodes trained ns).1 ≡ node_tokens ns
unfolding mask_nodes
length-mask_nodes trained [] = refl
length-mask_nodes trained (n ∷ ns) = omega (
  arith,
  length-append (emitted trained n) (mask_nodes (trained_after trained n) ns).1,
  length-emitted trained n,
  length-mask_nodes (trained_after trained n) ns,
)

length-realign : {R : Type 0} (z : R) (n : ℕ) (rows : List R) → length (realign z n rows) ≡ n
unfolding realign
length-realign z n rows = ground (
  arith,
  length-take n rows,
  length-append rows (replicate (n - length rows) z),
  length-replicate (n - length rows) z,
)

HasLength-routed :
    {R : Type 0} (z : R) (o : Option (List R)) (n : ℕ) → HasLength n (encode_routed_experts z o n)
unfolding encode_routed_experts
HasLength-routed z none n = tt
HasLength-routed z (some rows) n = length-realign z n rows

HasLength-type_ids :
    {M : Type 0} (mapping : List (ℕ × ℕ)) (ts : List ℕ) (o : Option M)
    → HasLength (length ts) (type_ids mapping ts o)
HasLength-type_ids mapping ts none = tt
HasLength-type_ids mapping ts (some m) = length-map ts (get_or_zero mapping)

module _ {F M R : Type 0} where
  -- The streams of a branch are as long as its nodes together.
  pub record IsFlat (b : TraceBranch F M R) : Type 0 where
    pub token_ids : length b.token_ids ≡ node_tokens b.nodes
    pub logprobs : length b.logprobs ≡ node_tokens b.nodes

  abbrev IsYield : TraceBranch F M R × List Bool → Type 0
  IsYield (b, m) = IsFlat b × (length m ≡ node_tokens b.nodes) × (any is_true m ≡ true)

  iter-IsYield :
      (trained : List ℕ) (bs : List (TraceBranch F M R))
      → All IsFlat bs
      → All IsYield (iter_from trained bs)
  unfolding iter_from
  iter-IsYield trained [] h = tt
  iter-IsYield trained (b ∷ bs) h =
      let w = mask_nodes trained b.nodes in
      elim (Bool-cases (any is_true w.1)) [
        | inl y ↦ rw y ((h.0, length-mask_nodes trained b.nodes, y), iter-IsYield w.0 bs h.1)
        | inr n ↦ rw n (iter-IsYield w.0 bs h.1)
      ]

-- A sample's mask and log probabilities, and its token types and routed experts where it has them, are as
-- long as its tokens; it has no temperatures yet; and something of it is trained on.
pub record IsSample {F K R : Type 0} (s : TrainingSample F K R) : Type 0 where
  pub mask : length s.mask ≡ length s.token_ids
  pub logprobs : length s.logprobs ≡ length s.token_ids
  pub temperatures : s.temperatures ≡ []
  pub mm_token_type_ids : HasLength (length s.token_ids) s.mm_token_type_ids
  pub routed_experts : HasLength (length s.token_ids) s.routed_experts
  pub trained : any is_true s.mask ≡ true

module _ {F M K R : Type 0} (encode : M → Option K) (zero_row : R) (env : ℕ)
    (mapping : List (ℕ × ℕ)) where
  sample_of-IsSample :
      (p : TraceBranch F M R × List Bool)
      → IsYield p
      → IsSample (sample_of encode zero_row env mapping p)
  unfolding sample_of
  sample_of-IsSample (b, m) h = record {
    mask = h.1 ∙ sym h.0.token_ids;
    logprobs = h.0.logprobs ∙ sym h.0.token_ids;
    temperatures = refl;
    mm_token_type_ids = HasLength-type_ids mapping b.token_ids b.multi_modal_data;
    routed_experts = HasLength-routed zero_row b.routed_experts (length b.token_ids);
    trained = h.2;
  }

  All-map :
      (ps : List (TraceBranch F M R × List Bool))
      → All IsYield ps
      → All IsSample (map (sample_of encode zero_row env mapping) ps)
  All-map [] h = tt
  All-map (p ∷ ps) h = (sample_of-IsSample p h.0, All-map ps h.1)

-- From branches whose streams are as long as their nodes, every sample has a mask, log
-- probabilities, and, where it has them, token types and rows of routed experts of the length of
-- its tokens, whatever the length of the rows that came; it has no temperature for any token, and it has a
-- trainable token.
pub trace_to_samples-IsSample :
    {F M K R : Type 0} (encode : M → Option K) (zero_row : R) (env : ℕ) (mapping : List (ℕ × ℕ))
    (bs : List (TraceBranch F M R))
    → All IsFlat bs
    → All IsSample (trace_to_samples encode zero_row env mapping bs)
unfolding trace_to_samples iter_trainable_branches
trace_to_samples-IsSample encode zero_row env mapping bs h =
    All-map encode zero_row env mapping (iter_from [] bs) (iter-IsYield [] bs h)
