-- ===== src/Results/Slots.antt =====
-- Several slots at once: what an operation on one slot leaves of the others.
use pi_ssm.Base.{
  ℕ, String, Bool, true, false, ◌||◌, Option, none, some, ◌≡◌, refl, ap, eqb, eqb_iff, ◌==◌, ◌∙◌,
}
use pi_ssm.Base.Dict
use pi_ssm.Base.Dict.{get-put_self, get-put, get-remove}
use pi_ssm.Base.Result.{ok}
use pi_ssm.Results.{ResultStore, create_slot, deliver, wait, is_listed}

or_true : (b : Bool) → (b || true) ≡ true
or_true true = refl
or_true false = refl

module _ {R : Type 0} where
  -- A slot that waits for its result.
  pub record IsOpen (s : ResultStore R) (k : String) : Type 0 where
    pub event : ℕ
    pub slot : Dict.get s.slots k ≡ some (event, none)

  -- A slot whose result has come.
  pub record IsFilled (s : ResultStore R) (k : String) (result : R) : Type 0 where
    pub event : ℕ
    pub slot : Dict.get s.slots k ≡ some (event, some result)
    pub set : is_listed event s.fired ≡ true

  pub IsOpen-create_slot : (s : ResultStore R) (k : String) → IsOpen (create_slot s k) k
  unfolding create_slot
  IsOpen-create_slot s k = record {
    event = s.next_event;
    slot = get-put_self s.slots k (s.next_event, none);
  }

  pub IsOpen-create_slot_other :
      (s : ResultStore R) (k j : String)
      → (k == j) ≡ false
      → IsOpen s j
      → IsOpen (create_slot s k) j
  unfolding create_slot
  IsOpen-create_slot_other s k j other h =
      let slot : ℕ × Option R = (s.next_event, none) in
      record { event = h.event; slot = get-put s.slots k j slot ∙ rw other h.slot }

  pub IsFilled-deliver :
      (s : ResultStore R) (k : String) (result : R)
      → IsOpen s k
      → IsFilled (deliver s k result).0 k result
  unfolding deliver
  IsFilled-deliver s k result h =
      let slot : ℕ × Option R = (h.event, some result) in
      rw h.slot (record {
        event = h.event;
        slot = get-put_self s.slots k slot;
        set = ap (λ (b : Bool). b || is_listed h.event s.fired) ((eqb_iff h.event h.event).1 refl);
      })

  pub IsOpen-deliver :
      (s : ResultStore R) (k j : String) (result : R)
      → (k == j) ≡ false
      → IsOpen s k
      → IsOpen s j
      → IsOpen (deliver s k result).0 j
  unfolding deliver
  IsOpen-deliver s k j result other here h =
      let slot : ℕ × Option R = (here.event, some result) in
      rw here.slot (record { event = h.event; slot = get-put s.slots k j slot ∙ rw other h.slot })

  pub IsFilled-deliver_other :
      (s : ResultStore R) (k j : String) (result value : R)
      → (k == j) ≡ false
      → IsOpen s k
      → IsFilled s j value
      → IsFilled (deliver s k result).0 j value
  unfolding deliver
  IsFilled-deliver_other s k j result value other here h =
      let slot : ℕ × Option R = (here.event, some result) in
      rw here.slot (record {
        event = h.event;
        slot = get-put s.slots k j slot ∙ rw other h.slot;
        set =
            ap (λ (b : Bool). eqb h.event here.event || b) h.set ∙ or_true (eqb h.event here.event);
      })

  pub wait-IsFilled :
      (s : ResultStore R) (k : String) (result : R)
      → IsFilled s k result
      → wait s k ≡ (record s { slots = Dict.remove s.slots k }, ok (some result))
  unfolding wait
  wait-IsFilled s k result h = rw (h.slot, h.set) (rw h.slot refl)

  pub IsFilled-remove :
      (s : ResultStore R) (k j : String) (value : R)
      → (k == j) ≡ false
      → IsFilled s j value
      → IsFilled (record s { slots = Dict.remove s.slots k }) j value
  IsFilled-remove s k j value other h = record {
    event = h.event;
    slot = get-remove s.slots k j ∙ rw other h.slot;
    set = h.set;
  }
