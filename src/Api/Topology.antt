-- ===== src/Api/Topology.antt =====
-- What GET /topology shows, in any interleaving of requests and load threads.
use pi_ssm.Base.{
  String, true, false, ◌&&◌, ◌||◌, not, Option, none, some, is_some, List, [], ◌∷◌, ◌++◌, ◌≡◌, refl,
  subst, false≢true, ap, sym, map, Bool-cases, inl, inr, ◌==◌, All,
}
use pi_ssm.Base.Dict
use pi_ssm.Base.Dict.{Dict}
use pi_ssm.Base.Result.{Result, ok, raise}
use pi_ssm.Dispatch.{DispatchPlan}
use pi_ssm.Api.{
  Status, loading, ready, error, is_active, ModelState, Api, begin_by, begin_loading, start_loading,
  loading_state, ended_state, end_loading, redistribute_by, redistribute_model, delete_all,
  loaded_models,
}
use pi_ssm.Api.States.{IsReachable, start, next, Step, begins, starts, ends, redistributes}
use pi_ssm.Api.Routes.{
  TopologyEntry, topology_entry, started, first_shown, topology_of, entries_of, get_topology,
}

plan_lem :
    (status : Status) (planned : Option DispatchPlan)
    → (not (is_active status) || is_some planned) ≡ true
    → is_active status ≡ true
    → (plan : DispatchPlan) × (planned ≡ some plan)
plan_lem status none h up = absurd (false≢true (rw up at h))
plan_lem status (some plan) h up = (plan, refl)

shown_lem :
    (status : Status) (planned : Option DispatchPlan) (plan : DispatchPlan)
    → is_active status ≡ true
    → planned ≡ some plan
    → (is_some planned && is_active status) ≡ true
shown_lem status planned plan up e = rw (e, up) refl

idle_lem :
    (status : Status) (planned : Option DispatchPlan)
    → is_active status ≡ false
    → (is_some planned && is_active status) ≡ false
idle_lem status none idle = refl
idle_lem status (some plan) idle = idle

module _ {Session : Type 0} where
  abbrev IsPlanned : String × ModelState Session → Type 0
  IsPlanned e = (not (is_active e.1.status) || is_some e.1.plan) ≡ true

  abbrev IsIdle : String × ModelState Session → Type 0
  IsIdle e = is_active e.1.status ≡ false

  IsPlanned-put :
      (d : Dict (ModelState Session)) (name : String) (state : ModelState Session)
      → All IsPlanned d
      → IsPlanned (name, state)
      → All IsPlanned (Dict.put d name state)
  unfolding Dict.put
  IsPlanned-put [] name state h new = (new, tt)
  IsPlanned-put ((k, old) ∷ d) name state h new = elim (Bool-cases (k == name)) [
    | inl same ↦ rw same (new, h.1)
    | inr other ↦ rw other (h.0, IsPlanned-put d name state h.1 new)
  ]

  IsPlanned-remove :
      (d : Dict (ModelState Session)) (name : String)
      → All IsPlanned d
      → All IsPlanned (Dict.remove d name)
  unfolding Dict.remove
  IsPlanned-remove [] name h = tt
  IsPlanned-remove ((k, old) ∷ d) name h = elim (Bool-cases (k == name)) [
    | inl same ↦ rw same (IsPlanned-remove d name h.1)
    | inr other ↦ rw other (h.0, IsPlanned-remove d name h.1)
  ]

  IsPlanned-delete_all :
      (names : List (String × Option Session)) (d : Dict (ModelState Session))
      → All IsPlanned d
      → All IsPlanned (delete_all d names)
  IsPlanned-delete_all [] d h = h
  IsPlanned-delete_all ((name, session) ∷ names) d h =
      IsPlanned-delete_all names (Dict.remove d name) (IsPlanned-remove d name h)

  IsPlanned-begin :
      (api : Api Session) (found : Option (ModelState Session))
      → All IsPlanned api.states
      → All IsPlanned (begin_by api found).0.states
  IsPlanned-begin api none h = IsPlanned-delete_all (loaded_models api.states) api.states h
  IsPlanned-begin api (some state) h = elim (Bool-cases (is_active state.status)) [
    | inl active ↦ rw active h
    | inr idle ↦ rw idle (IsPlanned-delete_all (loaded_models api.states) api.states h)
  ]

  IsPlanned-ended :
      (d : Dict (ModelState Session)) (name : String) (plan : DispatchPlan)
      (built : Result String Session)
      → All IsPlanned d
      → All IsPlanned (Dict.put d name (ended_state plan built))
  IsPlanned-ended d name plan (ok session) h =
      IsPlanned-put d name (ended_state plan (ok session)) h refl
  IsPlanned-ended d name plan (raise text) h =
      IsPlanned-put d name (ended_state plan (raise text)) h refl

  IsPlanned-redistribute :
      (api : Api Session) (name : String) (found : Option (ModelState Session))
      → All IsPlanned api.states
      → All IsPlanned (redistribute_by api name found).0.states
  IsPlanned-redistribute api name none h = h
  IsPlanned-redistribute api name (some state) h =
      elim state.status
        as (λ status.
          All IsPlanned
            (redistribute_by api name (some (record state { status = status }))).0.states) [
              | loading ↦ h
              | ready ↦ IsPlanned-remove api.states name h
              | error ↦ IsPlanned-remove api.states name h
            ]

  IsPlanned-Step : {s t : Api Session} → Step s t → All IsPlanned s.states → All IsPlanned t.states
  unfolding begin_loading start_loading end_loading redistribute_model
  IsPlanned-Step (begins api name) h = IsPlanned-begin api (Dict.get api.states name) h
  IsPlanned-Step (starts api name (ok plan)) h =
      IsPlanned-put api.states name (loading_state plan) h refl
  IsPlanned-Step (starts api name (raise fault)) h =
      IsPlanned-put api.states name (started (raise fault)) h refl
  IsPlanned-Step (ends api before (name, plan) after built e) h =
      IsPlanned-ended api.states name plan built h
  IsPlanned-Step (redistributes api name) h =
      IsPlanned-redistribute api name (Dict.get api.states name) h

  planned_lem : {s : Api Session} → IsReachable s → All IsPlanned s.states
  planned_lem start = tt
  planned_lem (next reached step) = IsPlanned-Step step (planned_lem reached)

  -- What the route may show of the states: nothing where no model is loading or ready, or else the
  -- plan of the first one that is, by the order in which the models came.
  pub data Shows (states : Dict (ModelState Session))
      : Option String × List TopologyEntry → Type 0 where
    nothing : All IsIdle states → Shows states (none, [])
    active :
        (before : Dict (ModelState Session)) (name : String) (state : ModelState Session)
        (after : Dict (ModelState Session)) (plan : DispatchPlan)
        → states ≡ before ++ (name, state) ∷ after
        → All IsIdle before
        → is_active state.status ≡ true
        → state.plan ≡ some plan
        → Shows states (some name, map topology_entry plan.assignments)

  -- What is found of the states: no model to show, or the first one.
  data First (states : Dict (ModelState Session))
      : Option (String × ModelState Session) → Type 0 where
    no_model : All IsIdle states → First states none
    model :
        (before : Dict (ModelState Session)) (name : String) (state : ModelState Session)
        (after : Dict (ModelState Session)) (plan : DispatchPlan)
        → states ≡ before ++ (name, state) ∷ after
        → All IsIdle before
        → is_active state.status ≡ true
        → state.plan ≡ some plan
        → First states (some (name, state))

  First-cons :
      (e : String × ModelState Session) (d : Dict (ModelState Session))
      (found : Option (String × ModelState Session))
      → IsIdle e
      → First d found
      → First (e ∷ d) found
  First-cons e d found idle (no_model h) = no_model (idle, h)
  First-cons e d found idle (model before name state after plan p h up planned) =
      model (e ∷ before) name state after plan (ap (◌∷◌ e) p) (idle, h) up planned

  first_lem : (d : Dict (ModelState Session)) → All IsPlanned d → First d (first_shown d)
  unfolding first_shown
  first_lem [] h = no_model tt
  first_lem ((name, state) ∷ d) h = elim (Bool-cases (is_active state.status)) [
    | inl up ↦
        let (plan, planned) = plan_lem state.status state.plan h.0 up in
        rw (shown_lem state.status state.plan plan up planned)
          (model [] name state d plan refl tt up planned)
    | inr idle ↦
        rw (idle_lem state.status state.plan idle)
          (First-cons (name, state) d (first_shown d) idle (first_lem d h.1))
  ]

  topology_by :
      {states : Dict (ModelState Session)} {found : Option (String × ModelState Session)}
      → First states found
      → Shows states (topology_of found)
  topology_by (no_model h) = nothing h
  topology_by {states} (model before name state after plan p h up planned) =
      subst (λ (o : Option DispatchPlan). Shows states (some name, entries_of o)) (sym planned)
        (active before name state after plan p h up planned)

  -- In any interleaving of requests and load threads, GET /topology shows nothing exactly where no
  -- model is loading or ready; otherwise it shows the plan of the one among these that came first.
  pub get_topology-IsReachable : {s : Api Session} → IsReachable s → Shows s.states (get_topology s)
  unfolding get_topology
  get_topology-IsReachable {s} reached = topology_by (first_lem s.states (planned_lem reached))
