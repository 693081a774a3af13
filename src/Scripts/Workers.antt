-- ===== src/Scripts/Workers.antt =====
-- How `wait_for_workers` of scripts/profile_pipeline.py ends.
use pi_ssm.Base.{
  ℕ, suc, ◌+◌, ◌/◌, ◌<◌, ◌≤◌, Bool, true, false, Option, none, some, is_some, List, length, ◌≡◌,
  ◌⊎◌, inl, inr, refl, arith, ltb, leb, if◌then◌else◌, Bool-cases, ◌∙◌, sym, ap, false≢true,
}
use pi_ssm.Base.Polling.{Found, poll_rounds-Found, clock_lem}
use pi_ssm.Base.Result.{Result, ok, raise}
use pi_ssm.Nodes.{NodeRegistry, NodeInfo}
use pi_ssm.Scripts.{
  round_sleep, available, target_of, enough_or_raise, round_at, workers_round, wait_for_workers,
}

same_some : (a b : Result ℕ (List NodeInfo)) → some a ≡ some b → a ≡ b
same_some a b e = cc

-- What the answer is, by the nodes of the last round.
abbrev pub expected_answer : ℕ → List NodeInfo → Result ℕ (List NodeInfo)
expected_answer target nodes = if leb target (length nodes) then ok nodes else raise (length nodes)

answer_lem :
    (target : ℕ) (nodes : List NodeInfo)
    → enough_or_raise target nodes ≡ expected_answer target nodes
answer_lem target nodes = ground arith

enough_lem :
    (target : ℕ) (nodes : List NodeInfo)
    → leb target (length nodes) ≡ true
    → ok nodes ≡ expected_answer target nodes
enough_lem target nodes enough = ground arith

-- A round that goes on: it was before the deadline, with too few nodes.
goes_on :
    (target : ℕ) (early : Bool) (nodes : List NodeInfo)
    → round_at target early nodes ≡ none
    → (early ≡ true) × (length nodes < target)
goes_on target true nodes h = elim (Bool-cases (leb target (length nodes))) [
  | inl enough ↦ absurd (false≢true (sym (ap is_some (rw enough at h))))
  | inr few ↦ (refl, ground arith)
]
goes_on target false nodes h = absurd (false≢true (sym (ap is_some h)))

-- A round that ends the wait: it has enough nodes, or it is at the deadline.
comes_to :
    (target : ℕ) (early : Bool) (nodes : List NodeInfo) (answer : Result ℕ (List NodeInfo))
    → round_at target early nodes ≡ some answer
    → ((target ≤ length nodes) ⊎ (early ≡ false)) × (answer ≡ expected_answer target nodes)
comes_to target true nodes answer h = elim (Bool-cases (leb target (length nodes))) [
  | inl enough ↦
      (inl (ground arith), sym (same_some _ _ (rw enough at h)) ∙ enough_lem target nodes enough)
  | inr few ↦ absurd (false≢true (ap is_some (rw few at h)))
]
comes_to target false nodes answer h = (inr refl, sym (same_some _ _ h) ∙ answer_lem target nodes)

at_deadline :
    (target : ℕ) (early : Bool) (nodes : List NodeInfo)
    → early ≡ false
    → is_some (round_at target early nodes) ≡ true
at_deadline target early nodes late = rw late refl

module _ (seen : ℕ → NodeRegistry) (clock : ℕ → ℕ) where
  -- What the wait ends with: every round before round `last` was before the deadline and saw too few
  -- available nodes, round `last` sees enough of them or is at the deadline, and the answer is the
  -- nodes that it sees where these are enough, and otherwise the error with their number.
  pub record Ends (target deadline : ℕ) (answer : Result ℕ (List NodeInfo)) : Type 0 where
    pub last : ℕ
    pub waited : (i : ℕ) → i < last → (clock i < deadline) × (length (available (seen i)) < target)
    pub stopped : (target ≤ length (available (seen last))) ⊎ (deadline ≤ clock last)
    pub answered : answer ≡ expected_answer target (available (seen last))

  Ends-Found :
      (target deadline : ℕ) (answer : Result ℕ (List NodeInfo))
      → Found (workers_round seen clock target deadline) 0 answer
      → Ends target deadline answer
  unfolding workers_round
  Ends-Found target deadline answer f =
      let (stopped, answered) =
        comes_to target (ltb (clock f.last) deadline) (available (seen f.last)) answer f.found in
      record {
        last = f.last;
        waited = λ i before.
            let (early, few) =
              goes_on target (ltb (clock i) deadline) (available (seen i))
                (f.waited i (omega arith) before) in
            (ground arith, few);
        stopped = elim stopped [ inl enough ↦ inl enough | inr late ↦ inr (ground arith) ];
        answered = answered;
      }

  -- `wait_for_workers` ends, where every round sleeps for a second at least: for any registries that
  -- its rounds see, two rounds more than the seconds in the timeout are enough fuel. Before the last
  -- round the deadline had not come and too few nodes were available; the last round sees enough of
  -- them or the deadline, and the answer is the available nodes where they are as many as expected, by
  -- default one, and otherwise the error with their number.
  pub wait_for_workers-Ends :
      (start timeout : ℕ) (expected : Option ℕ)
      → ((i : ℕ) → clock i + round_sleep ≤ clock (i + 1))
      → start ≤ clock 0
      → (answer : Result ℕ (List NodeInfo)) × (wait_for_workers seen clock
            (suc (suc (timeout / round_sleep)))
            start
            timeout
            expected
          ≡ some answer)
        × Ends (target_of expected) (start + timeout) answer
  unfolding wait_for_workers workers_round
  wait_for_workers-Ends start timeout expected ticks begun =
      let rounds = suc (timeout / round_sleep) in
      let target = target_of expected in
      let late : start + timeout ≤ clock rounds =
        omega (arith, begun, clock_lem clock round_sleep ticks rounds) in
      let (answer, ends, found) =
        poll_rounds-Found (workers_round seen clock target (start + timeout)) rounds (
          at_deadline target (ltb (clock rounds) (start + timeout)) (available (seen rounds))
            (ground arith)) in
      (answer, ends, Ends-Found target (start + timeout) answer found)
