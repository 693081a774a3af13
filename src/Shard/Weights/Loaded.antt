-- ===== src/Shard/Weights/Loaded.antt =====
-- The shard that a worker builds from the locations that the orchestrator lists for it, against the
-- slice of the whole model.
use pi_ssm.Base.{
  ℕ, ◌+◌, ◌-◌, ◌≤◌, ◌<◌, String, Bool, true, false, Option, none, some, List, [], ◌∷◌, ◌++◌, ◌≡◌,
  refl, ap, subst, sym, ◌∙◌, eq_refl, arith, All, All-append, contains, if◌then◌else◌,
}
use pi_ssm.Base.Dict
use pi_ssm.Base.Dict.{Dict, contains-keys}
use pi_ssm.Base.Result.{ok}
use pi_ssm.Shard.{Block, ShardModule, new_shard, init_first, init_last, from_model, slice}
use pi_ssm.Shard.Locations.{TensorLocationSpec, layer_locations, tensor_locations_for_range}
use pi_ssm.Shard.Weights.{
  Modules, layer_key, layer_keys, shard_keys, first_keys, last_keys, load_blocks, load_module,
  as_load, load_state_dict, from_tensor_locations,
}
use pi_ssm.Shard.Weights.Files.{IsFound, wants, Fills, read_files-by_file}
use pi_ssm.Shard.Weights.Checkpoint.{
  named_lem, IsCheckpoint, value, value-layer_key, value_ends, first_lem, last_lem, Ends,
  layer_locations_found,
}
use pi_ssm.Shard.Weights.Keys.{layer_locations_keys, wants-layer_locations}
use pi_ssm.Shard.Weights.Blocks.{
  blocks_from, slice_blocks, model_of, load_blocks_lem, check_keys_lem,
}
use pi_ssm.Shard.Weights.Parts.{
  wants_key, wants_left, wants_middle, wants_right, contains_left, contains_middle, contains_right,
  under_flag, all_keys, first_same, last_same, filled_lem,
}

module _ {Weight Tensor Cache : Type 0} (modules : Modules Weight Tensor Cache) where
  load_module_lem :
      (state : Dict Weight) (flag : Bool) (key : String) (build : Weight → Tensor → Tensor)
      (v : Weight)
      → (flag ≡ true → Dict.get state key ≡ some v)
      → load_module modules flag key build state ≡ ok (if flag then some (build v) else none)
  load_module_lem state false key build v h = refl
  load_module_lem state true key build v h = rw (h refl) refl

  new_shard_lem :
      (layers : List (Block Tensor Cache)) (first last : Bool) (a b c : Tensor → Tensor)
      (cache : Cache)
      → (shard : ShardModule Tensor Cache) × (new_shard layers first last
            (if first then some a else none)
            (if last then some b else none)
            (if last then some c else none)
            cache
          ≡ ok shard)
  unfolding new_shard init_first init_last
  new_shard_lem layers false false a b c cache = (_, refl)
  new_shard_lem layers false true a b c cache = (_, refl)
  new_shard_lem layers true false a b c cache = (_, refl)
  new_shard_lem layers true true a b c cache = (_, refl)

module _ {Weight Tensor Cache : Type 0} (modules : Modules Weight Tensor Cache) (w : Dict String)
    (fetch : String → Option (Dict Weight)) (weight : ℕ → String → Weight)
    (embedding norm head : Weight) (total : ℕ)
    (c : IsCheckpoint modules.block_parameters w fetch weight embedding norm head total) (s e : ℕ)
    (start : s ≤ e) (end : e ≤ total) where
  -- The weights of a shard's parameters.
  abbrev of_key : String → Weight
  of_key = value modules.block_parameters w fetch weight embedding norm head s

  -- What a state dictionary has to hold for the shard to be loaded as the slice of the model.
  record IsComplete (first last : Bool) (state : Dict Weight) : Type 0 where
    expected :
        (k : String)
        → contains k (Dict.keys state) ≡ true
        → contains k (shard_keys modules (e - s) first last) ≡ true
    layers :
        (k : ℕ) (p : String)
        → k < e - s
        → contains p modules.block_parameters ≡ true
        → Dict.get state (layer_key k p) ≡ some (weight (s + k) p)
    embedding_there : first ≡ true → Dict.get state "embeddings.weight" ≡ some embedding
    norm_there : last ≡ true → Dict.get state "norm_f.weight" ≡ some norm
    head_there : last ≡ true → Dict.get state "lm_head.weight" ≡ some head

  all_of :
      (ps qs : List String) (P : String → Type 0)
      → ((p : String) → contains p qs ≡ true → P p)
      → ((p : String) → contains p ps ≡ true → contains p qs ≡ true)
      → All P ps
  all_of [] qs P h sub = tt
  all_of (p ∷ ps) qs P h sub = (
    h p (sub p (rw (eq_refl p) refl)),
    all_of ps qs P h (λ q there. sub q (ground (arith, there))),
  )

  blocks_lem :
      (first last : Bool) (state : Dict Weight)
      → IsComplete first last state
      → load_blocks modules state s 0 (e - s) ≡ ok (blocks_from modules weight s (e - s))
  blocks_lem first last state h =
      subst
        (λ (i : ℕ).
          load_blocks modules state i 0 (e - s) ≡ ok (blocks_from modules weight i (e - s)))
        (omega arith)
        (load_blocks_lem modules weight state s 0 (e - s) (λ j from before.
          all_of modules.block_parameters modules.block_parameters
            (λ p. Dict.get state (layer_key j p) ≡ some (weight (s + j) p))
            (λ p there. h.layers j p (omega (arith, before)) there) (λ p there. there)))

  load_state_dict_lem :
      (first last : Bool) (state : Dict Weight)
      → IsComplete first last state
      → load_state_dict modules state s e first last
        ≡ as_load modules
            (from_model (model_of modules weight total embedding norm head) s e first last)
  unfolding load_state_dict from_model
  load_state_dict_lem first last state h =
      rw
        (
          check_keys_lem (shard_keys modules (e - s) first last) (Dict.keys state) h.expected,
          load_module_lem modules state first "embeddings.weight" modules.embedding embedding
              h.embedding_there,
          blocks_lem first last state h,
          load_module_lem modules state last "norm_f.weight" modules.norm norm h.norm_there,
          load_module_lem modules state last "lm_head.weight" modules.head head h.head_there,
          slice_blocks modules weight s e total start end,
        )
        refl

  -- Lists of locations for the ends and the layers give a complete state.
  complete_lem :
      (first last : Bool) (fs ls : List TensorLocationSpec) (state : Dict Weight)
      → Ends modules.block_parameters w fetch weight embedding norm head c s first
          ("embeddings.weight" ∷ [])
          fs
      → Ends modules.block_parameters w fetch weight embedding norm head c s last
          ("norm_f.weight" ∷ "lm_head.weight" ∷ [])
          ls
      → Fills fetch of_key state (λ k. wants k (fs ++ layer_locations w s e ++ ls))
      → IsComplete first last state
  complete_lem first last fs ls state f l fills =
      let mid = layer_locations w s e in
      let all = fs ++ mid ++ ls in
      let inner = layer_keys modules.block_parameters 0 (e - s) in
      let keys = shard_keys modules (e - s) first last in
      let dests : All (λ l. contains l.dest_name keys ≡ true) all =
        All-append (λ l. contains l.dest_name keys ≡ true) (fs ++ mid) ls
          (All-append (λ l. contains l.dest_name keys ≡ true) fs mid
            (all_keys (first_keys first) keys fs
              (λ k. contains_left k (first_keys first) inner (last_keys last))
              (under_flag first ("embeddings.weight" ∷ []) (first_keys first) fs (first_same first)
                f.dests))
            (all_keys inner keys mid
              (λ k. contains_middle k (first_keys first) inner (last_keys last))
              (layer_locations_keys modules.block_parameters w fetch weight embedding norm head s e
                c.layer_tensors)))
          (all_keys (last_keys last) keys ls
            (λ k. contains_right k (first_keys first) inner (last_keys last))
            (under_flag last ("norm_f.weight" ∷ "lm_head.weight" ∷ []) (last_keys last) ls
              (last_same last) l.dests)) in
      let got : (k : String)
          → wants k (fs ++ mid ++ ls) ≡ true
          → Dict.get state k ≡ some (of_key k) =
        λ k there. fills k ∙ rw there refl in
      let ends = value_ends modules.block_parameters w fetch weight embedding norm head s in
      record {
        expected = λ k there. wants_key keys all k dests (
            filled_lem (wants k all) (of_key k) (Dict.get state k) (fills k)
              (sym (contains-keys state k) ∙ there));
        layers = λ k p inside there.
            got (layer_key k p) (
              wants_middle (layer_key k p) fs mid ls (
                wants-layer_locations s e k p inside w
                  (c.complete (s + k) p (omega (arith, inside, end)) there)))
            ∙ ap some (
                value-layer_key modules.block_parameters w fetch weight embedding norm head s k p
                  (named_lem modules.block_parameters p c.named there));
        embedding_there = λ up.
            got "embeddings.weight" (wants_left "embeddings.weight" fs mid ls ((f.loaded up).0))
            ∙ ap some ends.0;
        norm_there = λ up.
            got "norm_f.weight" (wants_right "norm_f.weight" fs mid ls ((l.loaded up).0))
            ∙ ap some ends.1;
        head_there = λ up.
            got "lm_head.weight" (wants_right "lm_head.weight" fs mid ls ((l.loaded up).1.0))
            ∙ ap some ends.2;
      }

  -- Take a checkpoint that holds the weights of a model with `total` layers: each tensor of a layer that
  -- its weight map names is the weight of a parameter of that layer's block, every parameter of every
  -- layer is there, as are the embedding, the norm and, unless it is tied to the embedding, the head;
  -- and the files can be read. Then, for any range within the model and any flags, the locations that
  -- `tensor_locations_for_range` lists are there, and the shard that `from_tensor_locations` builds and
  -- loads from them is the one that `from_model` takes out of the whole model.
  pub from_tensor_locations-from_model :
      (first last : Bool)
      → (locations : List TensorLocationSpec) × (shard : ShardModule Tensor Cache)
        × (tensor_locations_for_range w s e first last ≡ ok locations)
        × (from_model (model_of modules weight total embedding norm head) s e first last ≡ ok shard)
        × (from_tensor_locations modules fetch s e first last locations ≡ ok shard)
  unfolding tensor_locations_for_range from_tensor_locations from_model
  from_tensor_locations-from_model first last =
      let (fs, first_ok, f) =
        first_lem modules.block_parameters w fetch weight embedding norm head c s first in
      let (ls, last_ok, l) =
        last_lem modules.block_parameters w fetch weight embedding norm head c s last in
      let mid = layer_locations w s e in
      let found =
        All-append (IsFound fetch of_key) (fs ++ mid) ls
          (All-append (IsFound fetch of_key) fs mid f.found (
            layer_locations_found modules.block_parameters w fetch weight embedding norm head c s
              e))
          l.found in
      let (state, read, fills) = read_files-by_file fetch of_key (fs ++ mid ++ ls) found in
      let model = model_of modules weight total embedding norm head in
      let (shard, made) =
        new_shard_lem modules (slice s e model.layers) first last model.embeddings model.norm_f
          model.lm_head model.fresh_cache in
      (
        fs ++ mid ++ ls,
        shard,
        rw (first_ok, last_ok) refl,
        made,
        rw read (
            load_state_dict_lem first last state (complete_lem first last fs ls state f l fills)
            ∙ ap (as_load modules) made),
      )
