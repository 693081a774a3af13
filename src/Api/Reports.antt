-- ===== src/Api/Reports.antt =====
-- What the routes of Api.Routes report, against the states that they leave.
use pi_ssm.Base.{
  ℕ, String, Bool, true, false, Option, none, some, [], ◌≡◌, refl, ap, sym, ◌∙◌, Bool-cases, inl,
  inr,
}
use pi_ssm.Base.Dict
use pi_ssm.Base.Dict.{Dict, get-put, get-put_self}
use pi_ssm.Base.Result.{Result, ok, raise}
use pi_ssm.Manifest.Defs.{Manifest}
use pi_ssm.Manifest.Registry.{Models, get_model}
use pi_ssm.Nodes.{NodeRegistry}
use pi_ssm.Dispatch.{Fault, DispatchPlan, plan_dispatch}
use pi_ssm.Api.{
  Status, is_active, ModelState, Api, begin_by, begin_loading, start_loading, loading_state,
  unload_others,
}
use pi_ssm.Api.Routes.{
  StatusReport, report, started, Answer, ensured, ensure_loading_started, load_model, model_status,
  reported,
}

abbrev pub is_loaded : Option Status → Bool
is_loaded none = false
is_loaded (some status) = is_active status

ok_inj : (a b : StatusReport) → (let r : Result ℕ StatusReport = ok a in r) ≡ ok b → a ≡ b
ok_inj a b e = cc

module _ {Session : Type 0} where
  get-start_loading :
      (api : Api Session) (name : String) (planned : Result Fault DispatchPlan)
      → Dict.get (start_loading api name planned).states name ≡ some (started planned)
  unfolding start_loading
  get-start_loading api name (ok plan) = get-put_self api.states name (loading_state plan)
  get-start_loading api name (raise fault) = get-put_self api.states name (started (raise fault))

  -- The state that `_ensure_loading_started` returns is the one that it leaves.
  ensured_lem :
      (api : Api Session) (name : String) (planned : Result Fault DispatchPlan)
      (found : Option (ModelState Session))
      → Dict.get api.states name ≡ found
      → let r = ensured name planned (begin_by api found) in Dict.get r.0.states name ≡ some r.1
  ensured_lem api name planned none e = get-start_loading (unload_others api).0 name planned
  ensured_lem api name planned (some state) e = elim (Bool-cases (is_active state.status)) [
    | inl active ↦ rw active e
    | inr idle ↦ rw idle (get-start_loading (unload_others api).0 name planned)
  ]

  pub ensure_loading_started_lem :
      (manifest : Manifest String ℕ) (registry : NodeRegistry) (api : Api Session)
      → let r = ensure_loading_started manifest registry api in
        Dict.get r.0.states manifest.name ≡ some r.1
  unfolding ensure_loading_started begin_loading
  ensure_loading_started_lem manifest registry api =
      ensured_lem api manifest.name (plan_dispatch manifest registry)
        (Dict.get api.states manifest.name) refl

  -- A model that is loading or ready is returned as it is.
  ensure_loading_started_again :
      (manifest : Manifest String ℕ) (registry : NodeRegistry) (api : Api Session)
      (state : ModelState Session)
      → Dict.get api.states manifest.name ≡ some state
      → is_active state.status ≡ true
      → ensure_loading_started manifest registry api ≡ (api, state, [])
  unfolding ensure_loading_started begin_loading
  ensure_loading_started_again manifest registry api state found active = rw (found, active) refl

  load_model_lem :
      (models : Models ℕ) (registry : NodeRegistry) (api : Api Session) (name : String)
      (manifest : Manifest String ℕ)
      → get_model models name ≡ some manifest
      → load_model models registry api name
        ≡ reported [] (ensure_loading_started manifest registry api)
  unfolding load_model
  load_model_lem models registry api name manifest registered = rw (registered, load_model) refl

  model_status_lem :
      (models : Models ℕ) (api : Api Session) (name : String) (manifest : Manifest String ℕ)
      (state : ModelState Session)
      → get_model models name ≡ some manifest
      → Dict.get api.states name ≡ some state
      → model_status models api name ≡ ok (report state)
  unfolding model_status
  model_status_lem models api name manifest state registered found =
      rw (registered, model_status, found) refl

  -- A request to load a registered model that is answered with "loading" or "ready": a status request
  -- right behind it has the same answer, and a second load request, whatever nodes there are by then,
  -- gives the same answer again, unloads nothing and leaves all the states as they are.
  pub load_model-again :
      (models : Models ℕ) (registry registry' : NodeRegistry) (api : Api Session) (name : String)
      (manifest : Manifest String ℕ) (answer : StatusReport)
      → get_model models name ≡ some manifest
      → manifest.name ≡ name
      → (load_model models registry api name).1 ≡ ok answer
      → is_loaded answer.status ≡ true
      → (model_status models (load_model models registry api name).0 name ≡ ok answer)
        × (load_model models registry' (load_model models registry api name).0 name
            ≡ ((load_model models registry api name).0, ok answer, []))
  load_model-again models registry registry' api name manifest answer registered named said loaded =
      let first = load_model_lem models registry api name manifest registered in
      let r = ensure_loading_started manifest registry api in
      let there = ensure_loading_started_lem manifest registry api in
      let e = ok_inj (report r.1) answer (sym (ap (λ a. a.1) first) ∙ said) in
      let again =
        ensure_loading_started_again manifest registry' r.0 r.1 there
          (ap (λ (a : StatusReport). is_loaded a.status) e ∙ loaded) in
      rw first (
        model_status_lem models r.0 name manifest r.1 registered
              (ap (Dict.get r.0.states) (sym named) ∙ there)
            ∙ ap ok e,
        load_model_lem models registry' r.0 name manifest registered
            ∙ ap (reported []) again
            ∙ ap
                (λ (a : StatusReport).
                  (let t : Answer Session (Result ℕ StatusReport) = (r.0, ok a, []) in t))
                e,
      )
