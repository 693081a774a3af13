-- ===== src/Cluster/Shards.antt =====
-- Workers that hold the shards of one model compute what the whole model computes.
use pi_ssm.Base.{
  ℕ, ◌≤◌, ◌<◌, String, Bool, false, some, List, [], ◌∷◌, ◌≡◌, refl, ap, sym, arith, length, map,
  eqb, eqb-ne, eqb_iff,
}
use pi_ssm.Base.Result.{ok}
use pi_ssm.Shard.{ShardModule, Mamba, slice, forward}
use pi_ssm.Shard.Slices.{slice-append, slice_empty}
use pi_ssm.Shard.Caches.{run_cached}
use pi_ssm.Shard.Chain.{Stage, joined, run_chain}
use pi_ssm.Shard.Ranges.{shard_of, embed_if, project_if, forward-shard_of}
use pi_ssm.Worker.Running.{call_cache}
use pi_ssm.Cluster.Seats.{Seat, pass, served, then_served}

module _ {Tensor Cache : Type 0} (model : Mamba Tensor Cache) where
  abbrev pub depth : ℕ
  depth = length model.layers

  -- The workers hold shards for non-empty ranges that run from layer `a` to the last, and each took
  -- the first and last flags from its range.
  abbrev pub IsDeployed : ℕ → List (Seat Tensor Cache) → Type 0
  IsDeployed a [] = a ≡ depth
  IsDeployed a (s ∷ rest) =
      (s.handle.layer_start ≡ a)
      × (a < s.handle.layer_end)
      × (s.handle.model
          ≡ shard_of model a s.handle.layer_end (eqb a 0) (eqb s.handle.layer_end depth))
      × IsDeployed s.handle.layer_end rest

  -- The layers of the workers with the caches on which they run a call.
  abbrev pub stages : Bool → List (Seat Tensor Cache) → List (Stage Tensor Cache)
  stages reset = map (λ s. (s.handle.model.layers, call_cache reset s.handle))

  pub deployed-le : (a : ℕ) (seats : List (Seat Tensor Cache)) → IsDeployed a seats → a ≤ depth
  deployed-le a [] h = omega arith
  deployed-le a (s ∷ rest) h = omega (arith, deployed-le s.handle.layer_end rest h.3)

  pub joined-stages :
      (reset : Bool) (a : ℕ) (seats : List (Seat Tensor Cache))
      → IsDeployed a seats
      → joined (stages reset seats) ≡ slice a depth model.layers
  joined-stages reset a [] h = rw h (sym (slice_empty depth model.layers))
  joined-stages reset a (s ∷ rest) h =
      rw (h.2, joined-stages reset s.handle.layer_end rest h.3)
        (sym (
          slice-append a s.handle.layer_end depth model.layers (omega arith)
            (deployed-le s.handle.layer_end rest h.3)))

  -- A run of a deployed shard on a cache.
  pub shard_ran :
      (m : ShardModule Tensor Cache) (a b : ℕ) (first last : Bool) (x : Tensor) (c : Cache)
      → m ≡ shard_of model a b first last
      → forward m x (some c) ≡ (
        ok (project_if model last (run_cached m.layers (embed_if model first x) c).0),
        some (run_cached m.layers (embed_if model first x) c).1,
      )
  shard_ran m a b first last x c e = rw e (forward-shard_of model a b first last x c)

  abbrev pub logits : Tensor → Tensor
  logits y = model.lm_head (model.norm_f y)

  -- What a pass through deployed shards gives, and the seats that it leaves.
  pub record RunsAs (name : String) (reset : Bool) (a : ℕ) (seats : List (Seat Tensor Cache))
      (x : Tensor) : Type 0 where
    pub after : List (Seat Tensor Cache)
    pub passed :
        pass name reset seats x
        ≡ some (logits (run_chain (stages reset seats) (embed_if model (eqb a 0) x)).0, after)
    pub caches :
        stages false after ≡ (run_chain (stages reset seats) (embed_if model (eqb a 0) x)).1
    pub deployed : IsDeployed a after

  pub pass-RunsAs :
      (name : String) (reset : Bool) (s : Seat Tensor Cache) (rest : List (Seat Tensor Cache))
      (a : ℕ) (x : Tensor)
      → IsDeployed a (s ∷ rest)
      → RunsAs name reset a (s ∷ rest) x
  unfolding pass run_chain call_cache
  pass-RunsAs name reset s [] a x h =
      let b = s.handle.layer_end in
      let c = call_cache reset s.handle in
      let last = (eqb_iff b depth).1 h.3 in
      let ran = shard_ran s.handle.model a b (eqb a 0) (eqb b depth) x c h.2 in
      record {
        after =
            served name s (some (run_cached s.handle.model.layers (embed_if model (eqb a 0) x) c).1)
            ∷ [];
        passed = rw (ran, last);
        caches = refl;
        deployed = h;
      }
  pass-RunsAs name reset s (r ∷ rest) a x h =
      let b = s.handle.layer_end in
      let c = call_cache reset s.handle in
      let last = eqb-ne b depth (omega (arith, deployed-le r.handle.layer_end rest h.3.3)) in
      let ran = shard_ran s.handle.model a b (eqb a 0) (eqb b depth) x c h.2 in
      let out = run_cached s.handle.model.layers (embed_if model (eqb a 0) x) c in
      let ih = pass-RunsAs name reset r rest b out.0 h.3 in
      let inner = eqb-ne b 0 (omega arith) in
      record {
        after = served name s (some out.1) ∷ ih.after;
        passed = rw (ran, last) (ap (then_served name s (some out.1)) (rw inner at (ih.passed)));
        caches = ap (◌∷◌ (s.handle.model.layers, out.1)) (rw inner at (ih.caches));
        deployed = (h.0, h.1, h.2, ih.deployed);
      }
