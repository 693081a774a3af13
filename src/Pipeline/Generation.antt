-- ===== src/Pipeline/Generation.antt =====
-- Generation through the cluster against generation on a single node.
use pi_ssm.Base.{
  ℕ, suc, ◌+◌, String, Bool, false, some, List, [], ◌∷◌, ◌≡◌, refl, ap, sym, arith, length,
  length-map, ◌∙◌, eqb, eqb-ne, subst,
}
use pi_ssm.Base.Result.{Result, ok}
use pi_ssm.Tensors.{Torch, TorchLaws}
use pi_ssm.Cluster.{Network}
use pi_ssm.Shard.{ShardFault, Mamba, forward}
use pi_ssm.Shard.Caches.{AreLocal}
use pi_ssm.Shard.Chain.{Holds}
use pi_ssm.Worker.{ModelHandle}
use pi_ssm.Worker.Running.{call_cache}
use pi_ssm.Cluster.Seats.{
  Seat, IsPlaced, pass, pass-IsSeated, addresses-pass, IsPlaced-network_after, network_after,
  head_or_empty,
}
use pi_ssm.Cluster.Shards.{IsDeployed, stages}
use pi_ssm.Cluster.Whole.{whole, Holds-reset, SameAs, pass-SameAs}
use pi_ssm.Pipeline.{PipelineResult, PassFault, System, Runner, run_shard_step}
use pi_ssm.Pipeline.Correct.{run_alone, IsReady, result_of, run_shard_step_lem}
use pi_ssm.Pipeline.Streams.{generate_stream, stream_loop-IsAlike, IsAlike, Agrees}

absurd_length : {n : ℕ} → 0 ≡ suc n → ⊥
absurd_length e = omega (arith, e)

module _ {Tensor Cache : Type 0} where
  run_alone_lem :
      (h : ModelHandle Tensor Cache) (x : Tensor) (reset : Bool) (out : Tensor) (cache : Cache)
      → forward h.model x (some (call_cache reset h)) ≡ (ok out, some cache)
      → run_alone h x reset ≡ (ok out, record h { cache = some cache })
  unfolding run_alone
  run_alone_lem h x reset out cache e = rw e

module _ {Tensor Cache : Type 0} (torch : Torch Tensor) (laws : TorchLaws torch) (runner : Runner)
    (ids : ℕ → String) where
  -- A pass leaves a chain that is ready for the next one.
  IsReady-after :
      (system system' : System Tensor Cache) (first : Seat Tensor Cache)
      (rest : List (Seat Tensor Cache)) (x out : Tensor) (reset : Bool) (next : Seat Tensor Cache)
      (others : List (Seat Tensor Cache))
      → IsReady torch laws runner ids system first rest
      → pass runner.plan.model_name reset (first ∷ rest) x ≡ some (out, next ∷ others)
      → system'.store.slots ≡ system.store.slots
      → system'.network ≡ network_after (next ∷ others) system.network
      → IsReady torch laws runner ids system' next others
  IsReady-after system system' first rest x out reset next others ready passed slots network =
      let same =
        addresses-pass runner.plan.model_name reset (first ∷ rest) x out (next ∷ others) passed in
      let seated =
        pass-IsSeated runner.plan.model_name reset (first ∷ rest) x out (next ∷ others) passed
          ready.seated in
      record {
        head = ready.head;
        others = ready.others;
        planned = ready.planned;
        entrance = ready.entrance ∙ ap head_or_empty (sym same);
        hops = omega (
          arith,
          ready.hops,
          ap length same,
          length-map (λ (s : Seat Tensor Cache). s.address) rest,
          length-map (λ (s : Seat Tensor Cache). s.address) others,
        );
        seated = seated;
        placed =
            subst (λ (n : Network Tensor Cache). IsPlaced n (next ∷ others)) (sym network)
              (IsPlaced-network_after runner.plan.model_name (next ∷ others) system.network seated);
        unused = λ k. rw slots (ready.unused k);
        reachable = ready.reachable;
        mode = ready.mode;
      }

  module _ {State : Type 0} (model : Mamba Tensor Cache) (slot : Cache → ℕ → State) where
    -- Before round `step`: the workers of the plan hold the shards of the model and are ready, a
    -- single node holds the whole model, and where the round does not reset the caches, those of the
    -- workers hold the entries of the single node's.
    pub record Mirrors (step : ℕ) (system : System Tensor Cache) (h : ModelHandle Tensor Cache)
        : Type 0 where
      pub first : Seat Tensor Cache
      pub rest : List (Seat Tensor Cache)
      pub ready : IsReady torch laws runner ids system first rest
      pub deployed : IsDeployed model 0 (first ∷ rest)
      pub alone : h.model ≡ whole model
      pub holds :
          Holds slot 0 (stages model (eqb step 0) (first ∷ rest)) (call_cache (eqb step 0) h)

    -- The passes of the cluster, the `k`-th with the `k`-th id, and of the single node.
    abbrev pub cluster_step :
        System Tensor Cache
        → ℕ
        → Tensor
        → Bool
        → Result PassFault (PipelineResult Tensor) × System Tensor Cache
    cluster_step system k x reset = run_shard_step torch runner system (ids k) x reset

    abbrev pub alone_step :
        ModelHandle Tensor Cache
        → ℕ
        → Tensor
        → Bool
        → Result ShardFault Tensor × ModelHandle Tensor Cache
    alone_step h k x reset = run_alone h x reset

    -- Behind a pass, the next round runs on the caches that the pass left.
    Holds-next :
        (step : ℕ) (seats : List (Seat Tensor Cache)) (h : ModelHandle Tensor Cache) (cache : Cache)
        → Holds slot 0 (stages model false seats) cache
        → Holds slot 0
            (stages model (eqb (step + 1) 0) seats)
            (call_cache (eqb (step + 1) 0) (record h { cache = some cache }))
    unfolding call_cache
    Holds-next step seats h cache holds = rw (eqb-ne (step + 1) 0 (omega arith)) holds

    module _ (argmax : Tensor → Tensor) (local : AreLocal slot 0 model.layers) where
      abbrev pub token_of : PipelineResult Tensor → Tensor
      token_of result = argmax result.output_tensor

      -- A round on the seats that the pass leaves.
      round_after :
          (step : ℕ) (x : Tensor) (system : System Tensor Cache) (h : ModelHandle Tensor Cache)
          (m : Mirrors step system h)
          (p : SameAs model slot runner.plan.model_name (eqb step 0) (m.first ∷ m.rest) h x)
          (after : List (Seat Tensor Cache))
          → p.after ≡ after
          → Agrees cluster_step alone_step token_of argmax Mirrors step x system h
      round_after step x system h m p [] e = absurd (
          absurd_length (
            ap length (
              addresses-pass runner.plan.model_name (eqb step 0) (m.first ∷ m.rest) x p.out []
                (rw e at (p.passed)))))
      round_after step x system h m p (next ∷ others) e =
          let passed : pass runner.plan.model_name (eqb step 0) (m.first ∷ m.rest) x
              ≡ some (p.out, next ∷ others) =
            p.passed ∙ ap (λ (seats : List (Seat Tensor Cache)). some (p.out, seats)) e in
          let (system', ran, slots, network) =
            run_shard_step_lem torch laws runner ids step system m.first m.rest x p.out (eqb step 0)
              (next ∷ others) m.ready passed in
          record {
            result = result_of torch laws runner (m.first ∷ m.rest) p.out;
            result' = p.out;
            state = system';
            state' = record h { cache = some p.cache };
            ran = ran;
            ran' = run_alone_lem h x (eqb step 0) p.out p.cache p.alone;
            token = refl;
            same = record {
              first = next;
              rest = others;
              ready =
                  IsReady-after system system' m.first m.rest x p.out (eqb step 0) next others
                    m.ready passed slots network;
              deployed = subst (IsDeployed model 0) e p.deployed;
              alone = m.alone;
              holds = Holds-next step (next ∷ others) h p.cache (
                  subst
                    (λ (seats : List (Seat Tensor Cache)).
                      Holds slot 0 (stages model false seats) p.cache)
                    e p.holds);
            };
          }

      round-Agrees :
          (step : ℕ) (x : Tensor) (system : System Tensor Cache) (h : ModelHandle Tensor Cache)
          → Mirrors step system h
          → Agrees cluster_step alone_step token_of argmax Mirrors step x system h
      round-Agrees step x system h m =
          let p =
            pass-SameAs model slot runner.plan.model_name (eqb step 0) m.first m.rest h x m.alone
              local m.deployed m.holds in
          round_after step x system h m p p.after refl

      -- Take a runner whose plan names workers that hold the shards of one model, for non-empty ranges
      -- from its first layer to its last, each with the next one's address, on a network where each
      -- stands at its address, with a result store where none of the ids to come is in use, with a
      -- callback address that is not empty and a callback service that is reachable; where each layer
      -- reads and writes only its own entry of a cache, and PyTorch keeps its documented laws. Then
      -- `generate_stream` through the cluster yields, for every prompt and every number of rounds, one
      -- step per round with the tokens that a node with the whole model yields when it runs the same
      -- loop, and neither stream raises, whatever caches an earlier generation left.
      pub generate_stream-IsAlike :
          (prompt : Tensor) (count : ℕ) (system : System Tensor Cache)
          (h : ModelHandle Tensor Cache) (first : Seat Tensor Cache)
          (rest : List (Seat Tensor Cache))
          → IsReady torch laws runner ids system first rest
          → IsDeployed model 0 (first ∷ rest)
          → h.model ≡ whole model
          → IsAlike cluster_step alone_step token_of argmax Mirrors count
              (generate_stream cluster_step token_of prompt count system)
              (generate_stream alone_step argmax prompt count h)
      unfolding generate_stream
      generate_stream-IsAlike prompt count system h first rest ready deployed alone =
          stream_loop-IsAlike cluster_step alone_step token_of argmax Mirrors round-Agrees count 0
            prompt system h
            (record {
              first = first;
              rest = rest;
              ready = ready;
              deployed = deployed;
              alone = alone;
              holds = Holds-reset model slot 0 0 (first ∷ rest) h alone deployed;
            })
