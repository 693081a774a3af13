-- ===== src/Shard.antt =====
-- inference/shard.py: `MambaShardModule`, its constructor, `from_model` and `forward`. The modules of
-- PyTorch and transformers (embedding, norm, head, and the Mamba blocks) are functions that the
-- definitions take; a cache object that a call mutates is passed in and handed back. The model's
-- configuration stands in the field `fresh_cache`, the cache that `new_cache` builds from it.
pub mod Slices
pub mod Chain
pub mod Caches
pub mod Ranges
pub mod Locations
pub mod Weights
use pi_ssm.Base.{
  ℕ, zero, suc, ◌-◌, String, Bool, true, false, Option, none, some, List, [], ◌∷◌, ◌≡◌, ◌≢◌,
  if◌then◌else◌,
}
use pi_ssm.Base.Result.{Result, ok, raise, ◌>>=◌}

pub data ShardFault : Type 0 where
  value_error : String → ShardFault
  attribute_error : String → ShardFault

-- A Mamba block, called with `cache_params=None` and with a cache.
pub record Block (Tensor Cache : Type 0) : Type 0 where
  pub plain : Tensor → Tensor
  pub cached : Tensor → Cache → Tensor × Cache

pub record ShardModule (Tensor Cache : Type 0) : Type 0 where
  pub layers : List (Block Tensor Cache)
  pub is_first : Bool
  pub is_last : Bool
  pub embeddings : Option (Tensor → Tensor)
  pub norm_f : Option (Tensor → Tensor)
  pub lm_head : Option (Tensor → Tensor)
  pub fresh_cache : Cache

-- The parts of a `MambaForCausalLM` that `from_model` reads.
pub record Mamba (Tensor Cache : Type 0) : Type 0 where
  pub layers : List (Block Tensor Cache)
  pub embeddings : Tensor → Tensor
  pub norm_f : Tensor → Tensor
  pub lm_head : Tensor → Tensor
  pub fresh_cache : Cache

module _ {ℓ} {A : Type ℓ} where
  abbrev pub take : ℕ → List A → List A
  take zero xs = []
  take (suc n) [] = []
  take (suc n) (x ∷ xs) = x ∷ take n xs

  abbrev pub drop : ℕ → List A → List A
  drop zero xs = xs
  drop (suc n) [] = []
  drop (suc n) (x ∷ xs) = drop n xs

  -- `xs[start:end]`
  abbrev pub slice : ℕ → ℕ → List A → List A
  slice start end xs = take (end - start) (drop start xs)

module _ {Tensor : Type 0} where
  -- `self.embeddings = embeddings` under `is_first`, with its check.
  unfoldable pub init_first :
      Bool → Option (Tensor → Tensor) → Result ShardFault (Option (Tensor → Tensor))
  init_first false embeddings = ok none
  init_first true none = raise (value_error "embeddings required when is_first=True")
  init_first true (some embeddings) = ok (some embeddings)

  -- The check of the norm and the head under `is_last`.
  unfoldable pub init_last :
      Bool
      → Option (Tensor → Tensor)
      → Option (Tensor → Tensor)
      → Result ShardFault (Option (Tensor → Tensor) × Option (Tensor → Tensor))
  init_last false norm_f lm_head = ok (none, none)
  init_last true (some norm_f) (some lm_head) = ok (some norm_f, some lm_head)
  init_last true _ _ = raise (value_error "norm_f and lm_head required when is_last=True")

  -- A submodule that the constructor did not set is a missing attribute.
  abbrev pub call_module : String → Option (Tensor → Tensor) → Tensor → Result ShardFault Tensor
  call_module name none x = raise (attribute_error name)
  call_module name (some submodule) x = ok (submodule x)

module _ {Tensor Cache : Type 0} where
  -- `__init__`
  unfoldable pub new_shard :
      List (Block Tensor Cache)
      → Bool
      → Bool
      → Option (Tensor → Tensor)
      → Option (Tensor → Tensor)
      → Option (Tensor → Tensor)
      → Cache
      → Result ShardFault (ShardModule Tensor Cache)
  unfolding init_first init_last
  new_shard layers is_first is_last embeddings norm_f lm_head fresh_cache = do
    first ← init_first is_first embeddings
    last ← init_last is_last norm_f lm_head
    ok (record {
      layers = layers;
      is_first = is_first;
      is_last = is_last;
      embeddings = first;
      norm_f = last.0;
      lm_head = last.1;
      fresh_cache = fresh_cache;
    })

  unfoldable pub from_model :
      Mamba Tensor Cache → ℕ → ℕ → Bool → Bool → Result ShardFault (ShardModule Tensor Cache)
  unfolding new_shard
  from_model model layer_start layer_end is_first is_last =
      new_shard (slice layer_start layer_end model.layers) is_first is_last
        (if is_first then some model.embeddings else none)
        (if is_last then some model.norm_f else none) (if is_last then some model.lm_head else none)
        model.fresh_cache

  -- `layer(x, cache_params=cache_params)`
  abbrev pub call_block : Block Tensor Cache → Tensor → Option Cache → Tensor × Option Cache
  call_block layer x none = (layer.plain x, none)
  call_block layer x (some cache) = let (y, after) = layer.cached x cache in (y, some after)

  -- The loop of `forward` over the layers.
  unfoldable pub run_layers :
      List (Block Tensor Cache) → Tensor → Option Cache → Tensor × Option Cache
  run_layers [] x cache = (x, cache)
  run_layers (layer ∷ layers) x cache =
      let (y, after) = call_block layer x cache in run_layers layers y after

  unfoldable pub embed : ShardModule Tensor Cache → Tensor → Result ShardFault Tensor
  embed shard x = if shard.is_first then call_module "embeddings" shard.embeddings x else ok x

  unfoldable pub project : ShardModule Tensor Cache → Tensor → Result ShardFault Tensor
  project shard x =
      if shard.is_last
      then (do y ← call_module "norm_f" shard.norm_f x; call_module "lm_head" shard.lm_head y)
      else ok x

  abbrev pub after_embed :
      ShardModule Tensor Cache
      → Option Cache
      → Result ShardFault Tensor
      → Result ShardFault Tensor × Option Cache
  after_embed shard cache (raise fault) = (raise fault, cache)
  after_embed shard cache (ok x) =
      let (y, after) = run_layers shard.layers x cache in (project shard y, after)

  -- `forward`, with the cache as it leaves it, also where it raises.
  unfoldable pub forward :
      ShardModule Tensor Cache → Tensor → Option Cache → Result ShardFault Tensor × Option Cache
  forward shard x cache = after_embed shard cache (embed shard x)
