-- ===== src/Api/States.antt =====
-- What holds of the model states in any interleaving of requests and load threads.
use pi_ssm.Base.{
  String, Bool, true, false, ◌&&◌, Option, none, some, is_some, List, [], ◌∷◌, ◌++◌, ◌≡◌, ◌⊎◌, inl,
  inr, refl, ap, sym, subst, ◌∙◌, ◌==◌, eq_iff, Bool-cases, Option-cases, map, contains, false≢true,
}
use pi_ssm.Base.Dict
use pi_ssm.Base.Dict.{Dict, get-put, get-remove}
use pi_ssm.Base.Result.{Result, ok, raise}
use pi_ssm.Dispatch.{Fault, message, DispatchPlan}
use pi_ssm.Api.Threads.{is_running, running_append, running_last, running_more}
use pi_ssm.Api.{
  Status, loading, ready, error, is_ready, is_active, ModelState, Api, new_api, unloading,
  loaded_models, delete_all, begin_by, begin_loading, loading_state, start_loading, ended_state,
  end_loading, redistribute_by, redistribute_model,
}

-- A model that is loading has a plan and a thread that is still running, a model that is ready has
-- a plan and a session, and a model in error has a message.
abbrev pub backed_by : Bool → Status → Bool → Bool → Bool → Bool
backed_by running loading plan session text = plan && running
backed_by running ready plan session text = plan && session
backed_by running error plan session text = text

backed_mono :
    (running running' : Bool) (status : Status) (plan session text : Bool)
    → ((running ≡ true) → running' ≡ true)
    → backed_by running status plan session text ≡ true
    → backed_by running' status plan session text ≡ true
backed_mono true running' loading plan session text kept h = rw (kept refl) h
backed_mono false running' loading true session text kept h = absurd (false≢true h)
backed_mono false running' loading false session text kept h = absurd (false≢true h)
backed_mono running running' ready plan session text kept h = h
backed_mono running running' error plan session text kept h = h

module _ {Session : Type 0} where
  -- One section of a request, or the end of a load thread.
  pub data Step : Api Session → Api Session → Type 0 where
    begins : (api : Api Session) (name : String) → Step api (begin_loading api name).0
    starts :
        (api : Api Session) (name : String) (planned : Result Fault DispatchPlan)
        → Step api (start_loading api name planned)
    ends :
        (api : Api Session) (before : List (String × DispatchPlan)) (thread : String × DispatchPlan)
        (after : List (String × DispatchPlan)) (built : Result String Session)
        → api.threads ≡ before ++ thread ∷ after
        → Step api (end_loading api before thread after built)
    redistributes : (api : Api Session) (name : String) → Step api (redistribute_model api name).0

  pub data IsReachable : Api Session → Type 0 where
    start : IsReachable new_api
    next : {s t : Api Session} → IsReachable s → Step s t → IsReachable t

  abbrev pub is_backed : List (String × DispatchPlan) → String → ModelState Session → Bool
  is_backed threads name state =
      backed_by (is_running name threads) state.status (is_some state.plan) (is_some state.session)
        (is_some state.error_text)

  abbrev pub IsBacked : List (String × DispatchPlan) → Dict (ModelState Session) → Type 0
  IsBacked threads states =
      (name : String) (state : ModelState Session)
      → Dict.get states name ≡ some state
      → is_backed threads name state ≡ true

  put_cases :
      (d : Dict (ModelState Session)) (name k : String) (new state : ModelState Session)
      → Dict.get (Dict.put d name new) k ≡ some state
      → ((name == k) ≡ true) × (some new ≡ some state)
        ⊎ ((name == k) ≡ false) × (Dict.get d k ≡ some state)
  put_cases d name k new state h = elim (Bool-cases (name == k)) [
    | inl same ↦ inl (same, rw same at (sym (get-put d name k new) ∙ h))
    | inr other ↦ inr (other, rw other at (sym (get-put d name k new) ∙ h))
  ]

  pub remove_cases :
      (d : Dict (ModelState Session)) (name k : String) (state : ModelState Session)
      → Dict.get (Dict.remove d name) k ≡ some state
      → ((name == k) ≡ false) × (Dict.get d k ≡ some state)
  remove_cases d name k state h = elim (Bool-cases (name == k)) [
    | inl same ↦ let gone = rw same at (get-remove d name k) in absurd (cc)
    | inr other ↦ (other, rw other at (sym (get-remove d name k) ∙ h))
  ]

  state_inj : (new state : ModelState Session) → some new ≡ some state → new ≡ state
  state_inj new state h = cc

  IsBacked-delete_all :
      (threads : List (String × DispatchPlan)) (names : List (String × Option Session))
      (states : Dict (ModelState Session))
      → IsBacked threads states
      → IsBacked threads (delete_all states names)
  IsBacked-delete_all threads [] states h = h
  IsBacked-delete_all threads ((name, session) ∷ rest) states h =
      IsBacked-delete_all threads rest (Dict.remove states name)
        (λ k state found. h k state (remove_cases states name k state found).1)

  IsBacked-begin_by :
      (api : Api Session) (found : Option (ModelState Session))
      → IsBacked api.threads api.states
      → IsBacked (begin_by api found).0.threads (begin_by api found).0.states
  IsBacked-begin_by api none h =
      IsBacked-delete_all api.threads (loaded_models api.states) api.states h
  IsBacked-begin_by api (some state) h = elim (Bool-cases (is_active state.status)) [
    | inl active ↦ rw active h
    | inr idle ↦ rw idle (IsBacked-delete_all api.threads (loaded_models api.states) api.states h)
  ]

  -- A state that is put must be backed, and the others must stay so.
  IsBacked-put :
      (threads threads' : List (String × DispatchPlan)) (states : Dict (ModelState Session))
      (name : String) (new : ModelState Session)
      → IsBacked threads states
      → is_backed threads' name new ≡ true
      → ((k : String)
          → (name == k) ≡ false
          → is_running k threads ≡ true
          → is_running k threads' ≡ true)
      → IsBacked threads' (Dict.put states name new)
  IsBacked-put threads threads' states name new h backed kept k state found =
      elim (put_cases states name k new state found) [
        | inl (same, e) ↦
            subst (λ (i : String). is_backed threads' i state ≡ true) ((eq_iff name k).0 same)
              (subst (λ (s : ModelState Session). is_backed threads' name s ≡ true)
                (state_inj new state e) backed)
        | inr (other, there) ↦
            backed_mono (is_running k threads) (is_running k threads') state.status
              (is_some state.plan) (is_some state.session) (is_some state.error_text) (kept k other)
              (h k state there)
      ]

  ended_backed :
      (threads : List (String × DispatchPlan)) (name : String) (plan : DispatchPlan)
      (built : Result String Session)
      → is_backed threads name (ended_state plan built) ≡ true
  ended_backed threads name plan (ok session) = refl
  ended_backed threads name plan (raise text) = refl

  IsBacked-redistribute_by :
      (api : Api Session) (name : String) (status : Status) (state : ModelState Session)
      → state.status ≡ status
      → IsBacked api.threads api.states
      → IsBacked
          (redistribute_by api name (some state)).0.threads
          (redistribute_by api name (some state)).0.states
  IsBacked-redistribute_by api name loading state e h = rw e h
  IsBacked-redistribute_by api name ready state e h =
      rw e (λ k s found. h k s (remove_cases api.states name k s found).1)
  IsBacked-redistribute_by api name error state e h =
      rw e (λ k s found. h k s (remove_cases api.states name k s found).1)

  IsBacked-Step :
      {s t : Api Session} → Step s t → IsBacked s.threads s.states → IsBacked t.threads t.states
  unfolding begin_loading start_loading end_loading redistribute_model
  IsBacked-Step (begins api name) h = IsBacked-begin_by api (Dict.get api.states name) h
  IsBacked-Step (starts api name (raise fault)) h =
      IsBacked-put api.threads api.threads api.states name
        (record { status = error; plan = none; session = none; error_text = some (message fault) })
        h refl (λ k other running. running)
  IsBacked-Step (starts api name (ok plan)) h =
      IsBacked-put api.threads (api.threads ++ (name, plan) ∷ []) api.states name
        (loading_state plan) h (running_last name api.threads plan)
        (λ k other running. running_more k name api.threads plan running)
  IsBacked-Step (ends api before (name, plan) after built e) h =
      IsBacked-put api.threads (before ++ after) api.states name (ended_state plan built) h
        (ended_backed (before ++ after) name plan built)
        (λ k other running.
          sym (running_append k name before after plan other) ∙ sym (ap (is_running k) e) ∙ running)
  IsBacked-Step (redistributes api name) h = elim (Option-cases (Dict.get api.states name)) [
    | inl missing ↦ rw missing h
    | inr (state, found) ↦ rw found (IsBacked-redistribute_by api name state.status state refl h)
  ]

  reached_lem : {s : Api Session} → IsReachable s → IsBacked s.threads s.states
  unfolding Dict.get
  reached_lem start = λ name state found. absurd (cc)
  reached_lem (next reached step) = IsBacked-Step step (reached_lem reached)

  -- In any interleaving of requests and load threads: a model that is loading has a plan, and a load
  -- thread for it has not ended; a model that is ready has a plan and a session; and a model in error
  -- has a message.
  pub is_backed-IsReachable :
      {s : Api Session}
      → IsReachable s
      → (name : String) (state : ModelState Session) → Dict.get s.states name ≡ some state
      → is_backed s.threads name state ≡ true
  is_backed-IsReachable reached name state found = reached_lem reached name state found

  left_lem :
      (d : Dict (ModelState Session)) (names : List (String × Option Session)) (k : String)
      (state : ModelState Session)
      → Dict.get (delete_all d names) k ≡ some state
      → (contains k (map (λ n. n.0) names) ≡ false) × (Dict.get d k ≡ some state)
  left_lem d [] k state found = (refl, found)
  left_lem d ((name, session) ∷ rest) k state found =
      let (absent, there) = left_lem (Dict.remove d name) rest k state found in
      let (other, kept) = remove_cases d name k state there in (rw other absent, kept)

  loaded_lem :
      (d : Dict (ModelState Session)) (k : String) (state : ModelState Session)
      → Dict.get d k ≡ some state
      → is_ready state.status ≡ true
      → contains k (map (λ n. n.0) (loaded_models d)) ≡ true
  unfolding Dict.get loaded_models
  loaded_lem [] k state found up = absurd (cc)
  loaded_lem ((name, first) ∷ d) k state found up = elim (Bool-cases (name == k)) [
    | inl same ↦
        let e = state_inj first state (rw same at found) in
        let first_up = ap (λ (s : ModelState Session). is_ready s.status) e ∙ up in
        rw first_up (rw same refl)
    | inr other ↦
        let ih = loaded_lem d k state (rw other at found) up in
        elim (Bool-cases (is_ready first.status)) [
          | inl first_up ↦ rw first_up (rw other ih)
          | inr first_down ↦ rw first_down ih
        ]
  ]

  unloaded_lem :
      (d : Dict (ModelState Session)) (k : String) (state : ModelState Session)
      → Dict.get (delete_all d (loaded_models d)) k ≡ some state
      → is_ready state.status ≡ false
  unloaded_lem d k state found = elim (Bool-cases (is_ready state.status)) [
    | inl up ↦
        let (absent, there) = left_lem d (loaded_models d) k state found in
        absurd (false≢true (sym absent ∙ loaded_lem d k state there up))
    | inr down ↦ down
  ]

  begun_lem :
      (api : Api Session) (found : Option (ModelState Session))
      (loaded : List (String × Option Session)) (k : String) (state : ModelState Session)
      → (begin_by api found).1 ≡ unloading loaded
      → Dict.get (begin_by api found).0.states k ≡ some state
      → is_ready state.status ≡ false
  begun_lem api none loaded k state begun there = unloaded_lem api.states k state there
  begun_lem api (some old) loaded k state begun there = elim (Bool-cases (is_active old.status)) [
    | inl active ↦ let e = rw active at begun in absurd (cc)
    | inr idle ↦ unloaded_lem api.states k state (rw idle at there)
  ]

  -- Where `_ensure_loading_started` goes on to plan a load, its first section leaves no model ready.
  pub begin_loading-unloading :
      (api : Api Session) (name : String) (loaded : List (String × Option Session)) (k : String)
      (state : ModelState Session)
      → (begin_loading api name).1 ≡ unloading loaded
      → Dict.get (begin_loading api name).0.states k ≡ some state
      → is_ready state.status ≡ false
  unfolding begin_loading
  begin_loading-unloading api name loaded k state begun there =
      begun_lem api (Dict.get api.states name) loaded k state begun there
