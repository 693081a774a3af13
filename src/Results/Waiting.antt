-- ===== src/Results/Waiting.antt =====
-- A slot from its creation to its end.
use pi_ssm.Base.{ℕ, suc, String, true, false, Option, none, some, ◌∷◌, ◌≡◌, refl, eqb_iff}
use pi_ssm.Base.Dict
use pi_ssm.Base.Dict.{Dict, get-put_self, put-put, get-put, get-remove, remove-put, remove_absent}
use pi_ssm.Base.Result.{ok, raise}
use pi_ssm.Results.{timeout_error, ResultStore, create_slot, deliver, wait, is_listed}

module _ {R : Type 0} (s : ResultStore R) (request_id : String) where
  created : Dict.get (create_slot s request_id).slots request_id ≡ some (s.next_event, none)
  unfolding create_slot
  created = get-put_self s.slots request_id (s.next_event, none)

  -- The store behind the delivery of a result for a slot just created.
  pub resolved : R → ResultStore R
  resolved result = record s {
    slots = Dict.put s.slots request_id (s.next_event, some result);
    next_event = suc s.next_event;
    fired = s.next_event ∷ s.fired;
  }

  pub deliver-create_slot :
      (result : R) → deliver (create_slot s request_id) request_id result ≡ (resolved result, true)
  unfolding deliver create_slot resolved
  deliver-create_slot result = rw (created, put-put)

  -- The store behind the wait for it.
  pub settled : R → ResultStore R
  settled result = record (resolved result) {
    slots = Dict.remove (resolved result).slots request_id;
  }

  pub wait-resolved :
      (result : R) → wait (resolved result) request_id ≡ (settled result, ok (some result))
  unfolding wait resolved settled
  wait-resolved result =
      let slot : ℕ × Option R = (s.next_event, some result) in
      let found = get-put_self s.slots request_id slot in
      rw (found, (eqb_iff s.next_event s.next_event).1 refl) (rw found)

  pub slots-settled :
      (result : R) → Dict.get s.slots request_id ≡ none → (settled result).slots ≡ s.slots
  unfolding resolved settled
  slots-settled result absent = remove-put s.slots request_id (s.next_event, some result) absent

  -- For an id that is not in use, a slot that is created, resolved and waited for gives the delivered
  -- result, and leaves the slots as they were.
  pub wait-deliver :
      (result : R)
      → Dict.get s.slots request_id ≡ none
      → ((deliver (create_slot s request_id) request_id result).1 ≡ true)
        × ((wait (deliver (create_slot s request_id) request_id result).0 request_id).1
            ≡ ok (some result))
        × ((wait (deliver (create_slot s request_id) request_id result).0 request_id).0.slots
            ≡ s.slots)
  wait-deliver result absent =
      rw (deliver-create_slot result, wait-resolved result)
        (refl, refl, slots-settled result absent)

  -- The store behind a wait that timed out on a slot just created.
  pub abandoned : ResultStore R
  abandoned = record s { slots = s.slots; next_event = suc s.next_event }

  wait-create_slot :
      Dict.get s.slots request_id ≡ none
      → is_listed s.next_event s.fired ≡ false
      → wait (create_slot s request_id) request_id ≡ (abandoned, raise (timeout_error request_id))
  unfolding wait create_slot abandoned
  wait-create_slot absent unfired =
      let slot : ℕ × Option R = (s.next_event, none) in
      rw (get-put_self s.slots request_id slot, unfired, remove-put s.slots request_id slot absent)

  -- A wait that times out raises `TimeoutError` and ends the slot: a result that is delivered late is
  -- refused and changes nothing.
  pub deliver_late :
      (result : R)
      → Dict.get s.slots request_id ≡ none
      → is_listed s.next_event s.fired ≡ false
      → ((wait (create_slot s request_id) request_id).1 ≡ raise (timeout_error request_id))
        × (deliver (wait (create_slot s request_id) request_id).0 request_id result
            ≡ ((wait (create_slot s request_id) request_id).0, false))
        × ((wait (create_slot s request_id) request_id).0.slots ≡ s.slots)
  unfolding deliver abandoned
  deliver_late result absent unfired = rw (wait-create_slot absent unfired) (refl, rw absent, refl)
