-- ===== src/Shard/Chain.antt =====
-- A chain of stages, each a group of consecutive layers with a cache of its own, against all of the
-- layers on one cache.
use pi_ssm.Base.{
  ℕ, suc, ◌+◌, ◌≤◌, List, [], ◌∷◌, ◌++◌, ◌≡◌, refl, ap, arith, length, ◌∙◌, sym, inl, inr, map,
}
use pi_ssm.Shard.{Block}
use pi_ssm.Shard.Caches.{run_cached, run_cached-append, AreLocal, Agree, run-Agree, run-frame}

-- A group of layers and its cache.
abbrev pub Stage : Type 0 → Type 0 → Type 0
Stage Tensor Cache = List (Block Tensor Cache) × Cache

module _ {Tensor Cache : Type 0} where
  -- All layers of a chain.
  abbrev pub joined : List (Stage Tensor Cache) → List (Block Tensor Cache)
  joined [] = []
  joined ((blocks, cache) ∷ stages) = blocks ++ joined stages

  unfoldable pub run_chain : List (Stage Tensor Cache) → Tensor → Tensor × List (Stage Tensor Cache)
  run_chain [] x = (x, [])
  run_chain ((blocks, cache) ∷ stages) x =
      let (y, after) = run_cached blocks x cache in
      let (z, rest) = run_chain stages y in (z, (blocks, after) ∷ rest)

module _ {Tensor Cache State : Type 0} (slot : Cache → ℕ → State) where
  -- Each stage's cache has, for its own layers, the entries of the one cache.
  abbrev pub Holds : ℕ → List (Stage Tensor Cache) → Cache → Type 0
  Holds a [] d = Unit
  Holds a ((blocks, cache) ∷ stages) d =
      Agree slot a (a + length blocks) cache d × Holds (a + length blocks) stages d

  AreLocal-left :
      (a : ℕ) (xs ys : List (Block Tensor Cache)) → AreLocal slot a (xs ++ ys) → AreLocal slot a xs
  AreLocal-left a [] ys h = tt
  AreLocal-left a (x ∷ xs) ys h = (h.0, AreLocal-left (suc a) xs ys h.1)

  AreLocal-right :
      (a : ℕ) (xs ys : List (Block Tensor Cache))
      → AreLocal slot a (xs ++ ys)
      → AreLocal slot (a + length xs) ys
  AreLocal-right a [] ys h = let e : a + 0 ≡ a = omega arith in rw e h
  AreLocal-right a (x ∷ xs) ys h =
      let e : a + suc (length xs) ≡ suc a + length xs = omega arith in
      rw e (AreLocal-right (suc a) xs ys h.1)

  Holds-transfer :
      (b : ℕ) (stages : List (Stage Tensor Cache)) (d d' : Cache)
      → ((j : ℕ) → b ≤ j → slot d j ≡ slot d' j)
      → Holds b stages d
      → Holds b stages d'
  Holds-transfer b [] d d' same h = tt
  Holds-transfer b ((blocks, cache) ∷ stages) d d' same h = (
    (λ j low high. h.0 j low high ∙ same j low),
    Holds-transfer (b + length blocks) stages d d' (λ j low. same j (omega arith)) h.1,
  )

  -- A run through a chain whose caches hold the entries of one cache gives what the run of all
  -- layers on that cache gives, keeps the layers, and leaves caches that hold the entries of the
  -- cache that the one run leaves.
  pub run_chain_lem :
      (a : ℕ) (stages : List (Stage Tensor Cache)) (x : Tensor) (d : Cache)
      → AreLocal slot a (joined stages)
      → Holds a stages d
      → ((run_chain stages x).0 ≡ (run_cached (joined stages) x d).0)
        × Holds a (run_chain stages x).1 (run_cached (joined stages) x d).1
        × (map (λ s. s.0) (run_chain stages x).1 ≡ map (λ s. s.0) stages)
  unfolding run_chain
  run_chain_lem a [] x d local h = unfold run_cached in (refl, tt, refl)
  run_chain_lem a ((blocks, c) ∷ stages) x d local h =
      let b = a + length blocks in
      let (y, c') = run_cached blocks x c in
      let (z, d') = run_cached blocks x d in
      let (outs, ends) =
        run-Agree slot a blocks (AreLocal-left a blocks (joined stages) local) x c d h.0 in
      let kept =
        Holds-transfer b stages d d'
          (λ j low. sym (
            run-frame slot a blocks (AreLocal-left a blocks (joined stages) local) x d j (inr low)))
          h.1 in
      let (rest_outs, rest_holds, rest_same) =
        run_chain_lem b stages z d' (AreLocal-right a blocks (joined stages) local) kept in
      rw (run_cached-append blocks (joined stages) x d, outs)
        (
          rest_outs,
          (
            λ j low high.
                ends j low high
                ∙ sym (
                    run-frame slot b (joined stages) (AreLocal-right a blocks (joined stages) local)
                      z d' j (inl high)),
            rest_holds,
          ),
          ap (◌∷◌ blocks) rest_same,
        )
