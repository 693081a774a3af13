-- ===== src/Results.antt =====
-- `ResultStore` of orchestrator/pipeline.py. Events have identities, counted by `next_event`; `fired`
-- lists those that are set. Each locked section is one step, and so is `event.set()`, which
-- `deliver` makes outside the lock: `setting` lists the events that a delivery is about to set.
pub mod Waiting
pub mod Slots
pub mod Interleaving
pub mod Sound
use pi_ssm.Base.{
  ℕ, suc, String, Bool, true, false, ◌||◌, Option, none, some, List, [], ◌∷◌, eqb, if◌then◌else◌,
}
use pi_ssm.Base.Dict
use pi_ssm.Base.Dict.{Dict}
use pi_ssm.Base.Result.{Result, ok, raise}

pub data StoreFault : Type 0 where
  key_error : String → StoreFault
  timeout_error : String → StoreFault

pub record ResultStore (R : Type 0) : Type 0 where
  pub slots : Dict (ℕ × Option R)
  pub next_event : ℕ
  pub setting : List ℕ
  pub fired : List ℕ

abbrev pub new_store : {R : Type 0} → ResultStore R
new_store = record { slots = []; next_event = 0; setting = []; fired = [] }

abbrev pub is_listed : ℕ → List ℕ → Bool
is_listed e [] = false
is_listed e (f ∷ fs) = eqb e f || is_listed e fs

module _ {R : Type 0} where
  -- `create_slot`: the new event is `next_event` of the store before.
  unfoldable pub create_slot : ResultStore R → String → ResultStore R
  create_slot s request_id = record s {
    slots = Dict.put s.slots request_id (s.next_event, none);
    next_event = suc s.next_event;
  }

  abbrev pub store_result :
      ResultStore R → String → R → Option (ℕ × Option R) → ResultStore R × Bool
  store_result s request_id result none = (s, false)
  store_result s request_id result (some (event, old)) = (
    record s {
      slots = Dict.put s.slots request_id (event, some result);
      setting = event ∷ s.setting;
    },
    true,
  )

  -- The locked section of `deliver`, with its answer.
  unfoldable pub deliver_locked : ResultStore R → String → R → ResultStore R × Bool
  deliver_locked s request_id result =
      store_result s request_id result (Dict.get s.slots request_id)

  -- `event.set()` of a delivery that has left the lock.
  unfoldable pub set_event : ResultStore R → ResultStore R
  set_event s = elim s.setting [
    | [] ↦ s
    | event ∷ rest ↦ record s { setting = rest; fired = event ∷ s.fired }
  ]

  -- `deliver` with nothing in between.
  unfoldable pub deliver : ResultStore R → String → R → ResultStore R × Bool
  unfolding deliver_locked set_event
  deliver s request_id result =
      let (after, found) = deliver_locked s request_id result in
      (if found then set_event after else after, found)

  abbrev pub slot_event : String → Option (ℕ × Option R) → Result StoreFault ℕ
  slot_event request_id none = raise (key_error request_id)
  slot_event request_id (some (event, result)) = ok event

  -- The first locked section of `wait`: the event to wait for.
  unfoldable pub wait_begin : ResultStore R → String → Result StoreFault ℕ
  wait_begin s request_id = slot_event request_id (Dict.get s.slots request_id)

  -- `self._slots.pop(request_id, (None, None))`
  abbrev pub popped : Option (ℕ × Option R) → Option R
  popped none = none
  popped (some (event, result)) = result

  -- The second locked section of `wait`, after `event.wait` has returned `has_fired`.
  unfoldable pub wait_end :
      ResultStore R → String → Bool → ResultStore R × Result StoreFault (Option R)
  wait_end s request_id has_fired =
      let result = popped (Dict.get s.slots request_id) in
      (
        record s { slots = Dict.remove s.slots request_id },
        if has_fired then ok result else raise (timeout_error request_id),
      )

  abbrev pub finish_wait :
      ResultStore R → String → Result StoreFault ℕ → ResultStore R × Result StoreFault (Option R)
  finish_wait s request_id (raise fault) = (s, raise fault)
  finish_wait s request_id (ok event) = wait_end s request_id (is_listed event s.fired)

  -- `wait` where nothing happens to the store between its two sections, or nothing more before the
  -- timeout: the event has fired by then or it has not.
  unfoldable pub wait : ResultStore R → String → ResultStore R × Result StoreFault (Option R)
  unfolding wait_begin wait_end
  wait s request_id = finish_wait s request_id (wait_begin s request_id)
