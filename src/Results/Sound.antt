-- ===== src/Results/Sound.antt =====
-- What waits answer under any interleaving: no result is lost, and none is made up.
use pi_ssm.Base.{
  ℕ, String, Bool, true, false, ◌||◌, Option, none, some, List, [], ◌∷◌, ◌≡◌, refl, ap, sym, ◌∙◌,
  arith, ◌==◌, Bool-cases, Option-cases, inl, inr, is_some, false≢true,
}
use pi_ssm.Base.Dict
use pi_ssm.Base.Dict.{get-put, get-remove}
use pi_ssm.Base.Result.{Result, ok, raise}
use pi_ssm.Results.{
  ResultStore, deliver_locked, set_event, wait_begin, wait_end, wait, is_listed, slot_event,
  key_error, StoreFault, timeout_error,
}
use pi_ssm.Results.Interleaving.{
  Step, creates, delivers, sets, ends, IsReachable, start, next, IsSound, IsSound-new_store,
  IsSound-create_slot, IsSound-store_result,
}

or_true : (b : Bool) → (b || true) ≡ true
or_true true = refl
or_true false = refl

module _ {R : Type 0} where
  listed_set :
      (s : ResultStore R) (setting : List ℕ) (e : ℕ)
      → (is_listed e (set_event (record s { setting = setting })).setting
          || is_listed e (set_event (record s { setting = setting })).fired)
        ≡ (is_listed e setting || is_listed e s.fired)
  unfolding set_event
  listed_set s [] e = refl
  listed_set s (event ∷ rest) e = ground arith

  kept_set :
      (s : ResultStore R) (setting : List ℕ)
      → ((set_event (record s { setting = setting })).slots ≡ s.slots)
        × ((set_event (record s { setting = setting })).next_event ≡ s.next_event)
  unfolding set_event
  kept_set s [] = (refl, refl)
  kept_set s (event ∷ rest) = (refl, refl)

  IsSound-set_event : (s : ResultStore R) → IsSound s → IsSound (set_event s)
  IsSound-set_event s h =
      let listed = listed_set s s.setting in
      let (slots, next_event) = kept_set s s.setting in
      let at = λ (k : String). ap (λ (d : Dict.Dict (ℕ × Option R)). Dict.get d k) (sym slots) in
      record {
        old_slot = λ k e r found. omega (arith, h.old_slot k e r (at k ∙ found), next_event);
        old_event = λ e set. omega (arith, h.old_event e (sym (listed e) ∙ set), next_event);
        apart = λ k j e r r' found found'. h.apart k j e r r' (at k ∙ found) (at j ∙ found');
        waiting = λ k e found. listed e ∙ h.waiting k e (at k ∙ found);
        coming = λ k e r found. listed e ∙ h.coming k e r (at k ∙ found);
      }

  remove_cases :
      (d : Dict.Dict (ℕ × Option R)) (id k : String) (w : ℕ × Option R)
      → Dict.get (Dict.remove d id) k ≡ some w
      → Dict.get d k ≡ some w
  remove_cases d id k w h = elim (Bool-cases (id == k)) [
    | inl same ↦ let gone = rw same at (get-remove d id k) in absurd (cc)
    | inr other ↦ rw other at (sym (get-remove d id k) ∙ h)
  ]

  IsSound-wait_end :
      (s : ResultStore R) (id : String) (has_fired : Bool)
      → IsSound s
      → IsSound (wait_end s id has_fired).0
  unfolding wait_end
  IsSound-wait_end s id has_fired h =
      let left = λ (k : String) (w : ℕ × Option R). remove_cases s.slots id k w in
      record {
        old_slot = λ k e r found. h.old_slot k e r (left k (e, r) found);
        old_event = h.old_event;
        apart = λ k j e r r' found found'.
            h.apart k j e r r' (left k (e, r) found) (left j (e, r') found');
        waiting = λ k e found. h.waiting k e (left k (e, none) found);
        coming = λ k e r found. h.coming k e r (left k (e, some r) found);
      }

  IsSound-Step : {s t : ResultStore R} → Step s t → IsSound s → IsSound t
  unfolding deliver_locked
  IsSound-Step (creates s id) h = IsSound-create_slot s id h
  IsSound-Step (delivers s id result) h =
      IsSound-store_result s id result (Dict.get s.slots id) refl h
  IsSound-Step (sets s) h = IsSound-set_event s h
  IsSound-Step (ends s id has_fired) h = IsSound-wait_end s id has_fired h

  IsSound-IsReachable : {s : ResultStore R} → IsReachable s → IsSound s
  IsSound-IsReachable start = IsSound-new_store
  IsSound-IsReachable (next reached step) = IsSound-Step step (IsSound-IsReachable reached)

  -- What a wait answers by the content of its slot.
  abbrev pub answer_for : String → Option R → Result StoreFault (Option R)
  answer_for id none = raise (timeout_error id)
  answer_for id (some result) = ok (some result)

  fired_iff :
      (s : ResultStore R) (id : String) (e : ℕ) (result : Option R)
      → IsSound s
      → s.setting ≡ []
      → Dict.get s.slots id ≡ some (e, result)
      → is_listed e s.fired ≡ is_some result
  fired_iff s id e none h quiet found = rw quiet at (h.waiting id e found)
  fired_iff s id e (some r) h quiet found = rw quiet at (h.coming id e r found)

  answer_lem :
      (s : ResultStore R) (id : String) (e : ℕ) (result : Option R)
      → Dict.get s.slots id ≡ some (e, result)
      → is_listed e s.fired ≡ is_some result
      → (wait s id).1 ≡ answer_for id result
  unfolding wait
  answer_lem s id e none found fired = rw (found, fired) refl
  answer_lem s id e (some r) found fired = rw (found, fired) (rw found refl)

  -- In any store that callers can lead to, in whatever order their locked sections and settings of
  -- events interleave, and where no delivery is between its section and its setting of the event: a
  -- wait for a slot gives the slot's result if one has been delivered, and raises `TimeoutError` only
  -- if none has.
  pub wait-IsReachable :
      {s : ResultStore R}
      → IsReachable s
      → s.setting ≡ []
      → (id : String) (e : ℕ) (result : Option R) → Dict.get s.slots id ≡ some (e, result)
      → (wait s id).1 ≡ answer_for id result
  wait-IsReachable {s} reached quiet id e result found =
      answer_lem s id e result found
        (fired_iff s id e result (IsSound-IsReachable reached) quiet found)

  began_lem :
      (s : ResultStore R) (id : String) (e : ℕ)
      → wait_begin s id ≡ ok e
      → (result : Option R) × (Dict.get s.slots id ≡ some (e, result))
  unfolding wait_begin
  began_lem s id e begun = elim (Option-cases (Dict.get s.slots id)) [
    | inl missing ↦ absurd (differs (sym (ap (slot_event id) missing) ∙ begun))
    | inr ((event, result), found) ↦
        let same = sym (ap (slot_event id) found) ∙ begun in
        (result, found ∙ ap (λ (n : ℕ). some (n, result)) (ok_inj event e same))
  ]
    where
      failure : Result StoreFault ℕ
      failure = raise (key_error id)

      success : ℕ → Result StoreFault ℕ
      success n = ok n

      differs : failure ≡ success e → ⊥
      differs h = absurd (cc)

      ok_inj : (a b : ℕ) → success a ≡ success b → a ≡ b
      ok_inj a b h = cc

  ended_lem :
      (s : ResultStore R) (id : String) (e : ℕ) (r : R)
      → Dict.get s.slots id ≡ some (e, some r)
      → (wait_end s id true).1 ≡ ok (some r)
  unfolding wait_end
  ended_lem s id e r found = rw found refl

  -- In any store that callers can lead to, a wait whose event has been set, and whose slot is still
  -- that of the event, returns a result, never `None`.
  pub wait_end-fired :
      {s : ResultStore R}
      → IsReachable s
      → (id : String) (e : ℕ) → wait_begin s id ≡ ok e
      → is_listed e s.fired ≡ true
      → (result : R) × ((wait_end s id true).1 ≡ ok (some result))
  wait_end-fired {s} reached id e begun fired =
      let (result, found) = began_lem s id e begun in ended result found
    where
      h : IsSound s
      h = IsSound-IsReachable reached

      ended :
          (result : Option R)
          → Dict.get s.slots id ≡ some (e, result)
          → (r : R) × ((wait_end s id true).1 ≡ ok (some r))
      ended none found =
          let w = h.waiting id e found in
          absurd (
            false≢true (
              sym w
              ∙ ap (λ (b : Bool). is_listed e s.setting || b) fired
              ∙ or_true (is_listed e s.setting)))
      ended (some r) found = (r, ended_lem s id e r found)
