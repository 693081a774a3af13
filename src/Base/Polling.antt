-- ===== src/Base/Polling.antt =====
-- A loop that polls in rounds until one of them has an answer.
use pi_ssm.Base.{
  ℕ, zero, suc, ◌+◌, ◌*◌, ◌≤◌, ◌<◌, Option, none, some, is_some, ◌≡◌, refl, ap, subst, arith,
  Option-cases, Bool-cases, true, false, inl, inr, ltb, sym, ◌∙◌, false≢true,
}

module _ {A : Type 0} where
  abbrev pub or_rest : Option A → Option A → Option A
  or_rest (some a) rest = some a
  or_rest none rest = rest

  module _ (round : ℕ → Option A) where
    -- The rounds from round `i` on; `none` means that the fuel ran out.
    unfoldable pub poll_rounds : ℕ → ℕ → Option A
    poll_rounds zero i = none
    poll_rounds (suc fuel) i = or_rest (round i) (poll_rounds fuel (i + 1))

    -- The round that has the answer, behind rounds that have none.
    pub record Found (first : ℕ) (a : A) : Type 0 where
      pub last : ℕ
      pub begins : first ≤ last
      pub found : round last ≡ some a
      pub waited : (i : ℕ) → first ≤ i → i < last → round i ≡ none

    later : (first i : ℕ) → first ≤ i → ltb first i ≡ false → first ≡ i
    later first i from same = ground arith

    Found-before : (first : ℕ) (a : A) → round first ≡ none → Found (first + 1) a → Found first a
    Found-before first a here e = record {
      last = e.last;
      begins = omega (arith, e.begins);
      found = e.found;
      waited = λ i from before. elim (Bool-cases (ltb first i)) [
        | inl after ↦ e.waited i (ground arith) before
        | inr same ↦ subst (λ (k : ℕ). round k ≡ none) (later first i from same) here
      ];
    }

    Found-now : (first : ℕ) (a : A) → round first ≡ some a → Found first a
    Found-now first a here = record {
      last = first;
      begins = omega arith;
      found = here;
      waited = λ i from before. absurd (omega (arith, from, before));
    }

    rounds_lem :
        (fuel first : ℕ)
        → is_some (round (first + fuel)) ≡ true
        → (a : A) × (poll_rounds (suc fuel) first ≡ some a) × Found first a
    unfolding poll_rounds
    rounds_lem zero first there = elim (Option-cases (round first)) [
      | inl gone ↦ absurd (false≢true (sym (ap is_some (ap round (omega arith) ∙ gone)) ∙ there))
      | inr (a, here) ↦ (a, rw here refl, Found-now first a here)
    ]
    rounds_lem (suc fuel) first there = elim (Option-cases (round first)) [
      | inl gone ↦
          let (a, e, found) =
            rounds_lem fuel (first + 1)
              (subst (λ (k : ℕ). is_some (round k) ≡ true) (omega arith) there) in
          (a, rw gone e, Found-before first a gone found)
      | inr (a, here) ↦ (a, rw here refl, Found-now first a here)
    ]

    -- One round more than those up to one that has an answer is enough fuel.
    pub poll_rounds-Found :
        (fuel : ℕ)
        → is_some (round fuel) ≡ true
        → (a : A) × (poll_rounds (suc fuel) 0 ≡ some a) × Found 0 a
    poll_rounds-Found fuel there =
        rounds_lem fuel 0 (subst (λ (k : ℕ). is_some (round k) ≡ true) (omega arith) there)

step_lem : (a p m b c : ℕ) → a + m ≤ b → b + p ≤ c → a + (p + m) ≤ c
step_lem a p m b c from to = omega (arith, from, to)

mul_lem : (m i : ℕ) → m * suc i ≡ m + m * i
mul_lem m i = ground arith

-- A clock that advances by a period in each round.
pub clock_lem :
    (clock : ℕ → ℕ) (period : ℕ)
    → ((i : ℕ) → clock i + period ≤ clock (i + 1))
    → (i : ℕ) → clock 0 + period * i ≤ clock i
clock_lem clock period ticks zero = ground arith
clock_lem clock period ticks (suc i) =
    subst (λ (k : ℕ). clock 0 + k ≤ clock (suc i)) (sym (mul_lem period i))
      (step_lem (clock 0) period (period * i) (clock i) (clock (suc i))
        (clock_lem clock period ticks i)
        (subst (λ (k : ℕ). clock i + period ≤ clock k) (omega arith) (ticks i)))
