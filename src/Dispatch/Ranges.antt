-- ===== src/Dispatch/Ranges.antt =====
-- What `split_layers` returns: the layers cut into one non-empty range per node, in order.
use native.Mathlib.Nat.{mul-div-le, le-div_iff_mul-le}
use pi_ssm.Base.{
  ℕ, zero, suc, ◌+◌, ◌-◌, ◌*◌, ◌/◌, ◌≤◌, ◌<◌, some, List, [], ◌∷◌, eqb, if◌then◌else◌, length,
  get_elem?, ◌≡◌, refl, arith, ◌∙◌, eqb-ne, ap,
}
use pi_ssm.Base.Result.{ok}
use pi_ssm.Dispatch.{split_loop, split_layers}

-- The ranges are non-empty, each begins where the one before it ends, and they run from `a` to `b`.
abbrev pub Tiles : ℕ → ℕ → List (ℕ × ℕ) → Type 0
Tiles a b [] = a ≡ b
Tiles a b ((start, end) ∷ ranges) = (start ≡ a) × (start < end) × Tiles end b ranges

-- The `i`-th range when `num` nodes share `total` layers.
abbrev pub share : ℕ → ℕ → ℕ → ℕ × ℕ
share total num i = (i * (total / num), if eqb i (num - 1) then total else (i + 1) * (total / num))

length-split_loop :
    (total num base left i start : ℕ) → length (split_loop total num base left i start) ≡ left
unfolding split_loop
length-split_loop total num base zero i start = refl
length-split_loop total num base (suc left) i start =
    ap suc (length-split_loop total num base left (i + 1) _)

module _ (total num base : ℕ) where
  split_last :
      (i start : ℕ) → i + 1 ≡ num → split_loop total num base 1 i start ≡ (start, total) ∷ []
  unfolding split_loop
  split_last i start h = ground arith

  split_inner :
      (left i start : ℕ)
      → i + suc (suc left) ≡ num
      → split_loop total num base (suc (suc left)) i start
        ≡ (start, start + base) ∷ split_loop total num base (suc left) (i + 1) (start + base)
  unfolding split_loop
  split_inner left i start h = rw (eqb-ne i (num - 1) (omega arith))

  split_loop-Tiles :
      (left i start : ℕ)
      → 0 < base
      → i + suc left ≡ num
      → start + base * suc left ≤ total
      → Tiles start total (split_loop total num base (suc left) i start)
  split_loop-Tiles zero i start pos h room =
      rw (split_last i start (omega arith)) (refl, omega arith, refl)
  split_loop-Tiles (suc left) i start pos h room = rw (split_inner left i start h) (
    refl,
    omega arith,
    split_loop-Tiles left (i + 1) (start + base) pos (omega arith) (omega arith),
  )

  get_elem?-split_loop :
      (left i start k : ℕ)
      → i + left ≡ num
      → k < left
      → get_elem? (split_loop total num base left i start) k
        ≡ some (start + k * base, if eqb (i + k) (num - 1) then total else start + (k + 1) * base)
  get_elem?-split_loop zero i start k h lt = elim lt [ ]
  get_elem?-split_loop (suc zero) i start zero h lt =
      rw (split_last i start (omega arith)) (ground arith)
  get_elem?-split_loop (suc zero) i start (suc k) h lt = absurd (omega arith)
  get_elem?-split_loop (suc (suc left)) i start zero h lt =
      rw (split_inner left i start (omega arith)) (ground arith)
  get_elem?-split_loop (suc (suc left)) i start (suc k) h lt =
      rw (split_inner left i start (omega arith)) (
        get_elem?-split_loop (suc left) (i + 1) (start + base) k (omega arith) (omega arith)
        ∙ ground arith)

-- With at least one node and no more nodes than layers, `split_layers` returns one range per node; the
-- ranges are non-empty and run contiguously from layer 0 to the last; the `i`-th begins at `i` times
-- the quotient, and all but the last, which takes the remainder, have the quotient as their size.
pub split_layers-Tiles :
    (total num : ℕ)
    → 0 < num
    → num ≤ total
    → (ranges : List (ℕ × ℕ)) × (split_layers total num ≡ ok ranges)
      × (length ranges ≡ num)
      × Tiles 0 total ranges
      × ((i : ℕ) → i < num → get_elem? ranges i ≡ some (share total num i))
unfolding split_layers
split_layers-Tiles total zero pos le = elim pos [ ]
split_layers-Tiles total (suc n) pos le =
    let num = suc n in
    let base = total / num in
    (
      split_loop total num base num 0 0,
      ground arith,
      length-split_loop total num base num 0 0,
      split_loop-Tiles total num base n 0 0 ((le-div_iff_mul-le pos).1 (omega arith)) (omega arith)
          (omega (arith, mul-div-le total num)),
      λ i lt. get_elem?-split_loop total num base num 0 0 i (omega arith) lt ∙ ground arith,
    )
