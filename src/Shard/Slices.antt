-- ===== src/Shard/Slices.antt =====
-- Consecutive slices of a list.
use pi_ssm.Base.{
  ℕ, zero, suc, ◌+◌, ◌-◌, ◌≤◌, List, [], ◌∷◌, ◌++◌, ◌≡◌, refl, ap, arith, length, ◌∙◌,
}
use Prim.Native.Nat.add
use pi_ssm.Shard.{take, drop, slice}

module _ {ℓ} {A : Type ℓ} where
  take_nil : (n : ℕ) → take {A = A} n [] ≡ []
  take_nil zero = refl
  take_nil (suc n) = refl

  drop_nil : (n : ℕ) → drop {A = A} n [] ≡ []
  drop_nil zero = refl
  drop_nil (suc n) = refl

  drop-drop : (m n : ℕ) (xs : List A) → drop m (drop n xs) ≡ drop (n + m) xs
  drop-drop m zero xs = rw add.zero
  drop-drop m (suc n) [] = rw (drop_nil m, drop_nil (suc n + m))
  drop-drop m (suc n) (x ∷ xs) = rw add.suc (drop-drop m n xs)

  take-append-drop : (m n : ℕ) (xs : List A) → take (m + n) xs ≡ take m xs ++ take n (drop m xs)
  take-append-drop zero n xs = rw add.zero
  take-append-drop (suc m) n [] = rw (take_nil n, take_nil (suc m + n))
  take-append-drop (suc m) n (x ∷ xs) = rw add.suc (ap (◌∷◌ x) (take-append-drop m n xs))

  pub take_all : (xs : List A) → take (length xs) xs ≡ xs
  take_all [] = refl
  take_all (x ∷ xs) = ap (◌∷◌ x) (take_all xs)

  pub slice_empty : (a : ℕ) (xs : List A) → slice a a xs ≡ []
  slice_empty a xs = let e : a - a ≡ 0 = omega arith in ap (λ (n : ℕ). take n (drop a xs)) e

  pub slice_all : (xs : List A) → slice 0 (length xs) xs ≡ xs
  slice_all xs = ap (λ (n : ℕ). take n xs) (omega arith) ∙ take_all xs

  -- Two slices that meet are one slice.
  pub slice-append :
      (a m b : ℕ) (xs : List A) → a ≤ m → m ≤ b → slice a b xs ≡ slice a m xs ++ slice m b xs
  slice-append a m b xs h k =
      ap (λ (n : ℕ). take n (drop a xs)) (omega arith)
      ∙ take-append-drop (m - a) (b - m) (drop a xs)
      ∙ ap (λ (ys : List A). take (m - a) (drop a xs) ++ take (b - m) ys)
          (drop-drop (m - a) a xs ∙ ap (λ (n : ℕ). drop n xs) (omega arith))
