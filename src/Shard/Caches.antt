-- ===== src/Shard/Caches.antt =====
-- Layers that run on caches: what two caches must share for a run to be the same, and what a run
-- through consecutive groups of layers, each on a cache of its own, has to do with one run.
use pi_ssm.Base.{
  ℕ, suc, ◌+◌, ◌≤◌, ◌<◌, ◌≢◌, List, [], ◌∷◌, ◌++◌, ◌≡◌, refl, ap, arith, length, ◌∙◌, sym, some,
  ◌⊎◌, inl, inr,
}
use native.Mathlib.Decide.{ℕ_discrete}
use pi_ssm.Shard.{Block, run_layers}

module _ {Tensor Cache : Type 0} where
  -- The layers on a cache that is there.
  unfoldable pub run_cached : List (Block Tensor Cache) → Tensor → Cache → Tensor × Cache
  run_cached [] x cache = (x, cache)
  run_cached (layer ∷ layers) x cache =
      let (y, after) = layer.cached x cache in run_cached layers y after

  pub run_layers-some :
      (layers : List (Block Tensor Cache)) (x : Tensor) (cache : Cache)
      → run_layers layers x (some cache)
        ≡ ((run_cached layers x cache).0, some (run_cached layers x cache).1)
  unfolding run_layers run_cached
  run_layers-some [] x cache = refl
  run_layers-some (layer ∷ layers) x cache =
      let (y, after) = layer.cached x cache in run_layers-some layers y after

  pub run_cached-append :
      (xs ys : List (Block Tensor Cache)) (x : Tensor) (cache : Cache)
      → run_cached (xs ++ ys) x cache
        ≡ run_cached ys (run_cached xs x cache).0 (run_cached xs x cache).1
  unfolding run_cached
  run_cached-append [] ys x cache = refl
  run_cached-append (layer ∷ xs) ys x cache =
      let (y, after) = layer.cached x cache in run_cached-append xs ys y after

module _ {Cache State : Type 0} (slot : Cache → ℕ → State) where
  -- Two caches with the same entries from `a` up to `b`.
  abbrev pub Agree : ℕ → ℕ → Cache → Cache → Type 0
  Agree a b c d = (j : ℕ) → a ≤ j → j < b → slot c j ≡ slot d j

module _ {Tensor Cache State : Type 0} (slot : Cache → ℕ → State) where
  -- What transformers documents of a Mamba block with `layer_idx = i`: with a cache it reads and
  -- writes the cache's entry `i`, and no other.
  pub record IsLocal (i : ℕ) (block : Block Tensor Cache) : Type 0 where
    pub output :
        (x : Tensor) (c d : Cache)
        → slot c i ≡ slot d i
        → (block.cached x c).0 ≡ (block.cached x d).0
    pub own :
        (x : Tensor) (c d : Cache)
        → slot c i ≡ slot d i
        → slot (block.cached x c).1 i ≡ slot (block.cached x d).1 i
    pub frame : (x : Tensor) (c : Cache) (j : ℕ) → j ≢ i → slot (block.cached x c).1 j ≡ slot c j

  -- The blocks have the layer indices `i`, `i + 1`, and so on.
  abbrev pub AreLocal : ℕ → List (Block Tensor Cache) → Type 0
  AreLocal i [] = Unit
  AreLocal i (block ∷ blocks) = IsLocal i block × AreLocal (suc i) blocks

  pub run-frame :
      (a : ℕ) (blocks : List (Block Tensor Cache))
      → AreLocal a blocks
      → (x : Tensor) (c : Cache) (j : ℕ) → (j < a) ⊎ (a + length blocks ≤ j)
      → slot (run_cached blocks x c).1 j ≡ slot c j
  unfolding run_cached
  run-frame a [] h x c j out = refl
  run-frame a (block ∷ blocks) h x c j out =
      let (y, after) = block.cached x c in
      run-frame (suc a) blocks h.1 y after j (shift out) ∙ h.0.frame x c j (omega arith)
    where
      shift : (j < a) ⊎ (a + suc (length blocks) ≤ j) → (j < suc a) ⊎ (suc a + length blocks ≤ j)
      shift (inl lt) = inl (omega arith)
      shift (inr le) = inr (omega arith)

  step-Agree :
      (a n : ℕ) (block : Block Tensor Cache)
      → IsLocal a block
      → (x : Tensor) (c d : Cache) → Agree slot a (a + suc n) c d
      → Agree slot (suc a) (suc a + n) (block.cached x c).1 (block.cached x d).1
  step-Agree a n block h x c d same j low high =
      h.frame x c j (omega arith)
      ∙ same j (omega arith) (omega arith)
      ∙ sym (h.frame x d j (omega arith))

  pub run-Agree :
      (a : ℕ) (blocks : List (Block Tensor Cache))
      → AreLocal a blocks
      → (x : Tensor) (c d : Cache) → Agree slot a (a + length blocks) c d
      → ((run_cached blocks x c).0 ≡ (run_cached blocks x d).0)
        × Agree slot a (a + length blocks) (run_cached blocks x c).1 (run_cached blocks x d).1
  unfolding run_cached
  run-Agree a [] h x c d same = (refl, same)
  run-Agree a (block ∷ blocks) h x c d same =
      let at_a = same a (omega arith) (omega arith) in
      let (y, c') = block.cached x c in
      let (z, d') = block.cached x d in
      let e : y ≡ z = h.0.output x c d at_a in
      let (outs, ends) =
        run-Agree (suc a) blocks h.1 z c' d' (step-Agree a (length blocks) block h.0 x c d same) in
      (
        ap (λ (t : Tensor). (run_cached blocks t c').0) e ∙ outs,
        λ j low high.
            ap (λ (t : Tensor). slot (run_cached blocks t c').1 j) e ∙ elim (ℕ_discrete j a) [
              | yes here ↦
                  run-frame (suc a) blocks h.1 z c' j (inl (omega arith))
                  ∙ rw here (h.0.own x c d at_a)
                  ∙ sym (run-frame (suc a) blocks h.1 z d' j (inl (omega arith)))
              | no there ↦ ends j (omega arith) (omega arith)
            ],
      )
