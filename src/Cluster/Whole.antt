-- ===== src/Cluster/Whole.antt =====
-- One pass through deployed workers against one pass of a single node that holds the whole model.
use pi_ssm.Base.{
  ℕ, ◌+◌, String, Bool, true, false, Option, some, List, [], ◌∷◌, ◌≡◌, ap, sym, arith, length, ◌∙◌,
}
use pi_ssm.Base.Result.{Result, ok}
use pi_ssm.Shard.{ShardFault, ShardModule, Mamba, Block, forward}
use pi_ssm.Shard.Slices.{slice_all}
use pi_ssm.Shard.Caches.{run_cached, AreLocal}
use pi_ssm.Shard.Chain.{joined, Holds, run_chain_lem}
use pi_ssm.Shard.Ranges.{shard_of}
use pi_ssm.Worker.{ModelHandle}
use pi_ssm.Worker.Running.{call_cache}
use pi_ssm.Cluster.Seats.{Seat, pass}
use pi_ssm.Cluster.Shards.{depth, IsDeployed, stages, joined-stages, shard_ran, logits, pass-RunsAs}

module _ {Tensor Cache : Type 0} (model : Mamba Tensor Cache) where
  -- The shard of a single node that holds all layers.
  abbrev pub whole : ShardModule Tensor Cache
  whole = shard_of model 0 (depth model) true true

module _ {Tensor Cache State : Type 0} (model : Mamba Tensor Cache) (slot : Cache → ℕ → State) where
  call_cache_reset : (h : ModelHandle Tensor Cache) → call_cache true h ≡ h.model.fresh_cache
  unfolding call_cache
  call_cache_reset h = ground arith

  -- After a reset, every worker's cache is that of the single node.
  pub Holds-reset :
      (a c : ℕ) (seats : List (Seat Tensor Cache)) (h : ModelHandle Tensor Cache)
      → h.model ≡ whole model
      → IsDeployed model a seats
      → Holds slot c (stages model true seats) (call_cache true h)
  Holds-reset a c [] h w d = tt
  Holds-reset a c (s ∷ rest) h w d = (
    λ j low high.
        ap (λ (e : Cache). slot e j)
          (call_cache_reset s.handle
            ∙ ap (λ (m : ShardModule Tensor Cache). m.fresh_cache) d.2
            ∙ sym (ap (λ (m : ShardModule Tensor Cache). m.fresh_cache) w)
            ∙ sym (call_cache_reset h)),
    Holds-reset s.handle.layer_end (c + length s.handle.model.layers) rest h w d.3,
  )

  whole_ran :
      (m : ShardModule Tensor Cache) (x : Tensor) (c : Cache)
      → m ≡ whole model
      → forward m x (some c) ≡ (
        ok (logits model (run_cached model.layers (model.embeddings x) c).0),
        some (run_cached model.layers (model.embeddings x) c).1,
      )
  whole_ran m x c w =
      shard_ran model m 0 (depth model) true true x c w
      ∙ ap {B = Result ShardFault Tensor × Option Cache}
          (λ (layers : List (Block Tensor Cache)). (
            ok (logits model (run_cached layers (model.embeddings x) c).0),
            some (run_cached layers (model.embeddings x) c).1,
          ))
          (ap (λ (n : ShardModule Tensor Cache). n.layers) w ∙ slice_all model.layers)

  -- The pass through the workers gives the output of the single node, and leaves caches that hold
  -- the entries of the cache that the single node leaves.
  pub record SameAs (name : String) (reset : Bool) (seats : List (Seat Tensor Cache))
      (h : ModelHandle Tensor Cache) (x : Tensor) : Type 0 where
    pub out : Tensor
    pub cache : Cache
    pub after : List (Seat Tensor Cache)
    pub passed : pass name reset seats x ≡ some (out, after)
    pub alone : forward h.model x (some (call_cache reset h)) ≡ (ok out, some cache)
    pub holds : Holds slot 0 (stages model false after) cache
    pub deployed : IsDeployed model 0 after

  -- Take workers that hold the shards of a model, for non-empty ranges from its first layer to its
  -- last, with caches that hold, each for its own layers, the entries of the cache of a node with the
  -- whole model, where each layer reads and writes only its own entry. A pass through the workers gives
  -- the output of the single node, and leaves the workers in this state with the cache that the single
  -- node leaves.
  pub pass-SameAs :
      (name : String) (reset : Bool) (s : Seat Tensor Cache) (rest : List (Seat Tensor Cache))
      (h : ModelHandle Tensor Cache) (x : Tensor)
      → h.model ≡ whole model
      → AreLocal slot 0 model.layers
      → IsDeployed model 0 (s ∷ rest)
      → Holds slot 0 (stages model reset (s ∷ rest)) (call_cache reset h)
      → SameAs name reset (s ∷ rest) h x
  pass-SameAs name reset s rest h x w local d holds =
      let r = pass-RunsAs model name reset s rest 0 x d in
      let all : joined (stages model reset (s ∷ rest)) ≡ model.layers =
        joined-stages model reset 0 (s ∷ rest) d ∙ slice_all model.layers in
      let d0 = call_cache reset h in
      let (outs, ends, kept) =
        run_chain_lem slot 0 (stages model reset (s ∷ rest)) (model.embeddings x) d0 (rw all local)
          holds in
      record {
        out = logits model (run_cached model.layers (model.embeddings x) d0).0;
        cache = (run_cached model.layers (model.embeddings x) d0).1;
        after = r.after;
        passed = r.passed ∙ ap (λ (y : Tensor). some (logits model y, r.after)) (rw all at outs);
        alone = whole_ran h.model x d0 w;
        holds = rw r.caches (rw all at ends);
        deployed = r.deployed;
      }
