-- ===== src/Checks/Store.antt =====
-- A result store with two callers.
use pi_ssm.Base.{ℕ, true, some, [], ◌≡◌, refl}
use pi_ssm.Base.Dict
use pi_ssm.Base.Result.{ok}
use pi_ssm.Results.{
  ResultStore, new_store, create_slot, deliver_locked, set_event, wait_begin, wait_end, wait,
  is_listed,
}
use pi_ssm.Results.Interleaving.{IsReachable, start, next, creates, delivers, sets}
use pi_ssm.Results.Sound.{answer_for, wait-IsReachable, wait_end-fired}

-- Two slots are created, and then the second gets its result.
abbrev two_slots : ResultStore ℕ
two_slots = create_slot (create_slot new_store "a") "b"

abbrev stored : ResultStore ℕ
stored = (deliver_locked two_slots "b" 42).0

abbrev answered : ResultStore ℕ
answered = set_event stored

answered-IsReachable : IsReachable answered
answered-IsReachable =
    next
      (next (next (next start (creates new_store "a")) (creates (create_slot new_store "a") "b"))
        (delivers two_slots "b" 42))
      (sets stored)

quiet : answered.setting ≡ []
unfolding create_slot deliver_locked set_event Dict.put Dict.get
quiet = refl

second : Dict.get answered.slots "b" ≡ some (1, some 42)
unfolding create_slot deliver_locked set_event Dict.put Dict.get
second = refl

wait-IsReachable_example : (wait answered "b").1 ≡ answer_for "b" (some 42)
wait-IsReachable_example = wait-IsReachable answered-IsReachable quiet "b" 1 (some 42) second

begun : wait_begin answered "b" ≡ ok 1
unfolding create_slot deliver_locked set_event Dict.put Dict.get wait_begin
begun = refl

fired : is_listed 1 answered.fired ≡ true
unfolding create_slot deliver_locked set_event Dict.put Dict.get
fired = refl

wait_end-fired_example : (result : ℕ) × ((wait_end answered "b" true).1 ≡ ok (some result))
wait_end-fired_example = wait_end-fired answered-IsReachable "b" 1 begun fired
