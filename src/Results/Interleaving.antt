-- ===== src/Results/Interleaving.antt =====
-- The result store under any interleaving of its callers, at the grain of its locked sections.
use pi_ssm.Base.{
  ℕ, ◌<◌, String, Bool, true, false, ◌||◌, Option, none, some, ◌≡◌, refl, ap, sym, ◌∙◌, arith, eqb,
  eqb_iff, ◌==◌, eq_iff, Bool-cases, inl, inr, ◌⊎◌, false≢true,
}
use pi_ssm.Base.Dict
use pi_ssm.Base.Dict.{get-put, get-remove}
use pi_ssm.Results.{
  ResultStore, new_store, create_slot, deliver_locked, store_result, set_event, wait_end, is_listed,
}

module _ {R : Type 0} where
  -- One section of a caller.
  pub data Step : ResultStore R → ResultStore R → Type 0 where
    creates : (s : ResultStore R) (id : String) → Step s (create_slot s id)
    delivers :
        (s : ResultStore R) (id : String) (result : R) → Step s (deliver_locked s id result).0
    sets : (s : ResultStore R) → Step s (set_event s)
    ends : (s : ResultStore R) (id : String) (has_fired : Bool) → Step s (wait_end s id has_fired).0

  pub data IsReachable : ResultStore R → Type 0 where
    start : IsReachable new_store
    next : {s t : ResultStore R} → IsReachable s → Step s t → IsReachable t

  -- Events are older than the next one, no two slots share one, an event that is set or about to be
  -- set has its result in the slot, and a slot with a result has its event set or about to be set.
  pub record IsSound (s : ResultStore R) : Type 0 where
    pub old_slot :
        (k : String) (e : ℕ) (r : Option R) → Dict.get s.slots k ≡ some (e, r) → e < s.next_event
    pub old_event :
        (e : ℕ) → (is_listed e s.setting || is_listed e s.fired) ≡ true → e < s.next_event
    pub apart :
        (k j : String) (e : ℕ) (r r' : Option R)
        → Dict.get s.slots k ≡ some (e, r)
        → Dict.get s.slots j ≡ some (e, r')
        → (k == j) ≡ true
    pub waiting :
        (k : String) (e : ℕ)
        → Dict.get s.slots k ≡ some (e, none)
        → (is_listed e s.setting || is_listed e s.fired) ≡ false
    pub coming :
        (k : String) (e : ℕ) (r : R)
        → Dict.get s.slots k ≡ some (e, some r)
        → (is_listed e s.setting || is_listed e s.fired) ≡ true

  some_inj : (v w : ℕ × Option R) → some v ≡ some w → v ≡ w
  some_inj v w h = cc

  -- An entry of a dictionary with one more slot.
  put_cases :
      (d : Dict.Dict (ℕ × Option R)) (id k : String) (v w : ℕ × Option R)
      → Dict.get (Dict.put d id v) k ≡ some w
      → ((id == k) ≡ true) × (v ≡ w) ⊎ ((id == k) ≡ false) × (Dict.get d k ≡ some w)
  put_cases d id k v w h = elim (Bool-cases (id == k)) [
    | inl same ↦ inl (same, some_inj v w (rw same at (sym (get-put d id k v) ∙ h)))
    | inr other ↦ inr (other, rw other at (sym (get-put d id k v) ∙ h))
  ]

  pub IsSound-new_store : IsSound new_store
  unfolding Dict.get
  IsSound-new_store = record {
    old_slot = λ k e r h. absurd (cc);
    old_event = λ e h. absurd (cc);
    apart = λ k j e r r' h h'. absurd (cc);
    waiting = λ k e h. absurd (cc);
    coming = λ k e r h. absurd (cc);
  }

  pub IsSound-create_slot :
      (s : ResultStore R) (id : String) → IsSound s → IsSound (create_slot s id)
  unfolding create_slot
  IsSound-create_slot s id h =
      let slot : ℕ × Option R = (s.next_event, none) in
      let split = λ (k : String) (w : ℕ × Option R). put_cases s.slots id k slot w in
      record {
        old_slot = λ k e r found. elim (split k (e, r) found) [
          | inl (same, v) ↦ omega (arith, ap (λ (w : ℕ × Option R). w.0) v)
          | inr (other, there) ↦ omega (arith, h.old_slot k e r there)
        ];
        old_event = λ e listed. omega (arith, h.old_event e listed);
        apart = λ k j e r r' found found'. elim (split k (e, r) found) [
          | inl (same, v) ↦ elim (split j (e, r') found') [
            | inl (same', v') ↦ ground (arith, eq_iff id k, eq_iff id j, eq_iff k j)
            | inr (other', there') ↦
                absurd (omega (arith, ap (λ (w : ℕ × Option R). w.0) v, h.old_slot j e r' there'))
          ]
          | inr (other, there) ↦ elim (split j (e, r') found') [
            | inl (same', v') ↦
                absurd (omega (arith, ap (λ (w : ℕ × Option R). w.0) v', h.old_slot k e r there))
            | inr (other', there') ↦ h.apart k j e r r' there there'
          ]
        ];
        waiting = λ k e found. elim (split k (e, none) found) [
          | inl (same, v) ↦ unlisted e (ap (λ (w : ℕ × Option R). w.0) v)
          | inr (other, there) ↦ h.waiting k e there
        ];
        coming = λ k e r found. elim (split k (e, some r) found) [
          | inl (same, v) ↦ absurd (none_some r (ap (λ (w : ℕ × Option R). w.1) v))
          | inr (other, there) ↦ h.coming k e r there
        ];
      }
    where
      unlisted : (e : ℕ) → s.next_event ≡ e → (is_listed e s.setting || is_listed e s.fired) ≡ false
      unlisted e at_next = elim (Bool-cases (is_listed e s.setting || is_listed e s.fired)) [
        | inl listed ↦ absurd (omega (arith, h.old_event e listed, at_next))
        | inr free ↦ free
      ]

      none_some : (r : R) → none ≡ some r → ⊥
      none_some r e = absurd (cc)

  pub IsSound-store_result :
      (s : ResultStore R) (id : String) (result : R) (found : Option (ℕ × Option R))
      → Dict.get s.slots id ≡ found
      → IsSound s
      → IsSound (store_result s id result found).0
  IsSound-store_result s id result none at_id h = h
  IsSound-store_result s id result (some (event, old)) at_id h =
      let slot : ℕ × Option R = (event, some result) in
      let split = λ (k : String) (w : ℕ × Option R). put_cases s.slots id k slot w in
      record {
        old_slot = λ k e r found. elim (split k (e, r) found) [
          | inl (same, v) ↦
              omega (arith, ap (λ (w : ℕ × Option R). w.0) v, h.old_slot id event old at_id)
          | inr (other, there) ↦ h.old_slot k e r there
        ];
        old_event = λ e listed. elim (Bool-cases (eqb e event)) [
          | inl same ↦ omega (arith, (eqb_iff e event).0 same, h.old_slot id event old at_id)
          | inr other ↦ h.old_event e (rw other at listed)
        ];
        apart = λ k j e r r' found found'. elim (split k (e, r) found) [
          | inl (same, v) ↦ elim (split j (e, r') found') [
            | inl (same', v') ↦ ground (arith, eq_iff id k, eq_iff id j, eq_iff k j)
            | inr (other', there') ↦
                let e' = ap (λ (w : ℕ × Option R). w.0) v in
                let same' =
                  h.apart id j e old r' (at_id ∙ ap (λ (n : ℕ). some (n, old)) e') there' in
                absurd (false≢true (sym other' ∙ same'))
          ]
          | inr (other, there) ↦ elim (split j (e, r') found') [
            | inl (same', v') ↦
                let e' = ap (λ (w : ℕ × Option R). w.0) v' in
                let same = h.apart id k e old r (at_id ∙ ap (λ (n : ℕ). some (n, old)) e') there in
                absurd (false≢true (sym other ∙ same))
            | inr (other', there') ↦ h.apart k j e r r' there there'
          ]
        ];
        waiting = λ k e found. elim (split k (e, none) found) [
          | inl (same, v) ↦ absurd (some_none (ap (λ (w : ℕ × Option R). w.1) v))
          | inr (other, there) ↦ rw (another k e other there) (h.waiting k e there)
        ];
        coming = λ k e r found. elim (split k (e, some r) found) [
          | inl (same, v) ↦ rw ((eqb_iff e event).1 (sym (ap (λ (w : ℕ × Option R). w.0) v))) refl
          | inr (other, there) ↦ or_left (eqb e event) _ _ (h.coming k e r there)
        ];
      }
    where
      some_none : some result ≡ none → ⊥
      some_none e = absurd (cc)

      or_left : (a b c : Bool) → (b || c) ≡ true → ((a || b) || c) ≡ true
      or_left a b c e = ground arith

      another :
          (k : String) (e : ℕ)
          → (id == k) ≡ false
          → Dict.get s.slots k ≡ some (e, none)
          → eqb e event ≡ false
      another k e other there = elim (Bool-cases (eqb e event)) [
        | inl same ↦
            let at_e = at_id ∙ ap (λ (n : ℕ). some (n, old)) (sym ((eqb_iff e event).0 same)) in
            absurd (false≢true (sym other ∙ h.apart id k e old none at_e there))
        | inr differ ↦ differ
      ]
