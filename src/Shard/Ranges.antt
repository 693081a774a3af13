-- ===== src/Shard/Ranges.antt =====
-- What the shard of a layer range computes.
use pi_ssm.Base.{ℕ, Bool, true, false, none, some, ◌≡◌, refl, if◌then◌else◌}
use pi_ssm.Base.Result.{ok}
use pi_ssm.Shard.{ShardModule, Mamba, slice, from_model, forward, embed, project}
use pi_ssm.Shard.Caches.{run_cached, run_layers-some}

module _ {Tensor Cache : Type 0} (model : Mamba Tensor Cache) where
  -- The shard that `from_model` builds.
  abbrev pub shard_of : ℕ → ℕ → Bool → Bool → ShardModule Tensor Cache
  shard_of start end first last = record {
    layers = slice start end model.layers;
    is_first = first;
    is_last = last;
    embeddings = if first then some model.embeddings else none;
    norm_f = if last then some model.norm_f else none;
    lm_head = if last then some model.lm_head else none;
    fresh_cache = model.fresh_cache;
  }

  pub from_model_lem :
      (start end : ℕ) (first last : Bool)
      → from_model model start end first last ≡ ok (shard_of start end first last)
  unfolding from_model
  from_model_lem start end true true = refl
  from_model_lem start end true false = refl
  from_model_lem start end false true = refl
  from_model_lem start end false false = refl

  abbrev pub embed_if : Bool → Tensor → Tensor
  embed_if first x = if first then model.embeddings x else x

  abbrev pub project_if : Bool → Tensor → Tensor
  project_if last y = if last then model.lm_head (model.norm_f y) else y

  pub forward-shard_of :
      (start end : ℕ) (first last : Bool) (x : Tensor) (cache : Cache)
      → forward (shard_of start end first last) x (some cache) ≡ (
        ok (project_if last (run_cached (slice start end model.layers) (embed_if first x) cache).0),
        some (run_cached (slice start end model.layers) (embed_if first x) cache).1,
      )
  unfolding forward embed project
  forward-shard_of start end true true x cache =
      rw (run_layers-some (slice start end model.layers) (model.embeddings x) cache)
  forward-shard_of start end true false x cache =
      rw (run_layers-some (slice start end model.layers) (model.embeddings x) cache)
  forward-shard_of start end false true x cache =
      rw (run_layers-some (slice start end model.layers) x cache)
  forward-shard_of start end false false x cache =
      rw (run_layers-some (slice start end model.layers) x cache)

  -- `from_model` always builds a shard, and its forward pass on a cache never misses a submodule: it
  -- embeds the input if the shard is the first, runs the layers of the range, and projects to logits
  -- if the shard is the last.
  pub forward-from_model :
      (start end : ℕ) (first last : Bool) (x : Tensor) (cache : Cache)
      → (shard : ShardModule Tensor Cache) × (from_model model start end first last ≡ ok shard)
        × (forward shard x (some cache) ≡ (
          ok (
              project_if last
                (run_cached (slice start end model.layers) (embed_if first x) cache).0),
          some (run_cached (slice start end model.layers) (embed_if first x) cache).1,
        ))
  forward-from_model start end first last x cache = (
    shard_of start end first last,
    from_model_lem start end first last,
    forward-shard_of start end first last x cache,
  )
