-- ===== src/Shard/Weights/Blocks.antt =====
-- The blocks of a model with given weights, their slices, and how they are loaded from a state.
use pi_ssm.Base.{
  ℕ, zero, suc, ◌+◌, ◌-◌, ◌≤◌, ◌<◌, String, true, some, List, [], ◌∷◌, ◌≡◌, refl, ap, subst, ◌∙◌,
  eq_refl, arith, All, contains, map,
}
use pi_ssm.Base.Dict
use pi_ssm.Base.Dict.{Dict, contains-keys}
use pi_ssm.Base.Result.{ok}
use pi_ssm.Shard.{Block, Mamba, take, drop, slice}
use pi_ssm.Shard.Weights.{Modules, layer_key, load_keys, check_keys, load_blocks}

module _ {Weight Tensor Cache : Type 0} (modules : Modules Weight Tensor Cache)
    (weight : ℕ → String → Weight) where
  -- The blocks from layer `i` on.
  unfoldable pub blocks_from : ℕ → ℕ → List (Block Tensor Cache)
  blocks_from i zero = []
  blocks_from i (suc n) =
      modules.block i (map (weight i) modules.block_parameters) ∷ blocks_from (i + 1) n

  blocks_eq : (i j m n : ℕ) → i ≡ j → m ≡ n → blocks_from i m ≡ blocks_from j n
  blocks_eq i j m n p q = cc

  take_blocks : (i n m : ℕ) → m ≤ n → take m (blocks_from i n) ≡ blocks_from i m
  unfolding blocks_from
  take_blocks i n zero le = refl
  take_blocks i zero (suc m) le = absurd (omega (arith, le))
  take_blocks i (suc n) (suc m) le =
      ap (◌∷◌ (modules.block i (map (weight i) modules.block_parameters)))
        (take_blocks (i + 1) n m (omega (arith, le)))

  drop_blocks : (i n m : ℕ) → m ≤ n → drop m (blocks_from i n) ≡ blocks_from (i + m) (n - m)
  unfolding blocks_from
  drop_blocks i n zero le = blocks_eq i (i + 0) n (n - 0) (omega arith) (omega arith)
  drop_blocks i zero (suc m) le = absurd (omega (arith, le))
  drop_blocks i (suc n) (suc m) le =
      drop_blocks (i + 1) n m (omega (arith, le))
      ∙ blocks_eq (i + 1 + m) (i + suc m) (n - m) (suc n - suc m) (omega arith) (omega arith)

  pub slice_blocks :
      (s e total : ℕ) → s ≤ e → e ≤ total → slice s e (blocks_from 0 total) ≡ blocks_from s (e - s)
  slice_blocks s e total start end =
      ap (take (e - s)) (
        drop_blocks 0 total s (omega (arith, start, end))
        ∙ blocks_eq (0 + s) s (total - s) (total - s) (omega arith) refl)
      ∙ take_blocks s (total - s) (e - s) (omega (arith, start, end))

  -- The model whose parameters are the weights.
  abbrev pub model_of : ℕ → Weight → Weight → Weight → Mamba Tensor Cache
  model_of total embedding norm head = record {
    layers = blocks_from 0 total;
    embeddings = modules.embedding embedding;
    norm_f = modules.norm norm;
    lm_head = modules.head head;
    fresh_cache = modules.fresh_cache;
  }

  -- Where a state has the weights of a layer, they are loaded.
  load_keys_lem :
      (state : Dict Weight) (i k : ℕ) (ps : List String)
      → All (λ p. Dict.get state (layer_key k p) ≡ some (weight i p)) ps
      → load_keys state (map (layer_key k) ps) ≡ ok (map (weight i) ps)
  unfolding load_keys
  load_keys_lem state i k [] h = refl
  load_keys_lem state i k (p ∷ ps) h = rw (h.0, load_keys_lem state i k ps h.1) refl

  pub load_blocks_lem :
      (state : Dict Weight) (s k n : ℕ)
      → ((j : ℕ)
          → k ≤ j
          → j < k + n
          → All
              (λ p. Dict.get state (layer_key j p) ≡ some (weight (s + j) p))
              modules.block_parameters)
      → load_blocks modules state (s + k) k n ≡ ok (blocks_from (s + k) n)
  unfolding load_blocks blocks_from
  load_blocks_lem state s k zero h = refl
  load_blocks_lem state s k (suc n) h =
      let rest : load_blocks modules state (s + k + 1) (k + 1) n ≡ ok (blocks_from (s + k + 1) n) =
        subst (λ (i : ℕ). load_blocks modules state i (k + 1) n ≡ ok (blocks_from i n))
          (omega arith)
          (load_blocks_lem state s (k + 1) n
            (λ j from before. h j (omega (arith, from)) (omega (arith, before)))) in
      rw
        (
          load_keys_lem state (s + k) k modules.block_parameters (h k (omega arith) (omega arith)),
          rest,
        )
        refl

pub check_keys_lem :
    (expected keys : List String)
    → ((k : String) → contains k keys ≡ true → contains k expected ≡ true)
    → check_keys expected keys ≡ ok tt
unfolding check_keys
check_keys_lem expected [] h = refl
check_keys_lem expected (k ∷ keys) h =
    rw (h k (rw (eq_refl k) refl))
      (check_keys_lem expected keys (λ j there. h j (ground (arith, there))))
