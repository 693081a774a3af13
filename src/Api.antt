-- ===== src/Api.antt =====
-- The states of the models in orchestrator/http_api.py: `_ensure_loading_started` with its load thread,
-- `_get_ready_session`, and the routes that redistribute a model and report on it. Each section under
-- `states_lock` is one step. The HTTP framework and the tokenizer are not modelled.
pub mod Threads
pub mod States
pub mod Ready
pub mod Routes
pub mod Reports
pub mod Topology
pub mod Submission
pub mod Submitted
pub mod Inference
pub mod Streaming
pub mod Answers
pub mod Replies
pub mod Sessions
pub mod Served
use text.Mathlib.Text.{find?}
use pi_ssm.Base.{
  ℕ, String, Bool, true, false, ◌&&◌, ◌||◌, Option, none, some, is_some, List, [], ◌∷◌, ◌++◌,
  if◌then◌else◌, map, keep_if,
}
use pi_ssm.Base.Dict
use pi_ssm.Base.Dict.{Dict}
use pi_ssm.Base.Result.{Result, ok, raise}
use pi_ssm.Dispatch.{Fault, message, DispatchPlan, ShardAssignment}

pub data Status : Type 0 where
  loading ready error : Status

abbrev pub is_ready : Status → Bool
is_ready ready = true
is_ready other = false

abbrev pub is_active : Status → Bool
is_active error = false
is_active other = true

pub record ModelState (Session : Type 0) : Type 0 where
  pub status : Status
  pub plan : Option DispatchPlan
  pub session : Option Session
  pub error_text : Option String

-- The states, and the load threads that are running, each with its model's name and plan.
pub record Api (Session : Type 0) : Type 0 where
  pub states : Dict (ModelState Session)
  pub threads : List (String × DispatchPlan)

abbrev pub new_api : {Session : Type 0} → Api Session
new_api = record { states = []; threads = [] }

-- What a locked section tells its caller: the state that it returns at once, or the sessions that it
-- has to unload before it plans.
pub data Begun (Session : Type 0) : Type 0 where
  returned : ModelState Session → Begun Session
  unloading : List (String × Option Session) → Begun Session

module _ {Session : Type 0} where
  unfoldable pub loaded_models : Dict (ModelState Session) → List (String × Option Session)
  loaded_models [] = []
  loaded_models ((name, state) ∷ rest) =
      let others = loaded_models rest in
      if is_ready state.status then (name, state.session) ∷ others else others

  abbrev pub delete_all :
      Dict (ModelState Session) → List (String × Option Session) → Dict (ModelState Session)
  delete_all states [] = states
  delete_all states ((name, session) ∷ rest) = delete_all (Dict.remove states name) rest

  abbrev pub unload_others : Api Session → Api Session × Begun Session
  unload_others api =
      let loaded = loaded_models api.states in
      (record api { states = delete_all api.states loaded }, unloading loaded)

  abbrev pub begin_by : Api Session → Option (ModelState Session) → Api Session × Begun Session
  begin_by api none = unload_others api
  begin_by api (some state) =
      if is_active state.status then (api, returned state) else unload_others api

  -- The first section of `_ensure_loading_started`.
  unfoldable pub begin_loading : Api Session → String → Api Session × Begun Session
  begin_loading api name = begin_by api (Dict.get api.states name)

  abbrev pub loading_state : DispatchPlan → ModelState Session
  loading_state plan = record {
    status = loading;
    plan = some plan;
    session = none;
    error_text = none;
  }

  -- The section behind `plan_dispatch`, by what it returned or raised, with the thread that it starts.
  unfoldable pub start_loading : Api Session → String → Result Fault DispatchPlan → Api Session
  start_loading api name (raise fault) = record api {
    states =
        Dict.put api.states name (record {
          status = error;
          plan = none;
          session = none;
          error_text = some (message fault);
        });
  }
  start_loading api name (ok plan) = record {
    states = Dict.put api.states name (loading_state plan);
    threads = api.threads ++ (name, plan) ∷ [];
  }

  abbrev pub ended_state : DispatchPlan → Result String Session → ModelState Session
  ended_state plan (ok session) = record {
    status = ready;
    plan = some plan;
    session = some session;
    error_text = none;
  }
  ended_state plan (raise text) = record {
    status = error;
    plan = some plan;
    session = none;
    error_text = some text;
  }

  -- The end of a load thread, which stands between the threads `before` and `after`, with what
  -- `_build_session` gave.
  unfoldable pub end_loading :
      Api Session
      → List (String × DispatchPlan)
      → String × DispatchPlan
      → List (String × DispatchPlan)
      → Result String Session
      → Api Session
  end_loading api before (name, plan) after built = record {
    states = Dict.put api.states name (ended_state plan built);
    threads = before ++ after;
  }

  abbrev pub redistribute_by :
      Api Session → String → Option (ModelState Session) → Api Session × Result ℕ (Option Session)
  redistribute_by api name none = (api, raise 400)
  redistribute_by api name (some state) = elim state.status [
    | loading ↦ (api, raise 409)
    | other ↦ (record api { states = Dict.remove api.states name }, ok state.session)
  ]

  -- The section of `redistribute_model`: an HTTP error, or the old session.
  unfoldable pub redistribute_model : Api Session → String → Api Session × Result ℕ (Option Session)
  redistribute_model api name = redistribute_by api name (Dict.get api.states name)

  -- One round of the loop of `_get_ready_session`; `none` keeps waiting, and `ok none` is a session
  -- that a ready model lacks. A state that is gone raises `KeyError`, as the status 500.
  abbrev pub poll_by : Option (ModelState Session) → Option (Result ℕ (Option Session))
  poll_by none = some (raise 500)
  poll_by (some state) = elim state.status [
    | loading ↦ none
    | ready ↦ some (ok state.session)
    | error ↦ some (raise (http_status state.error_text))
  ]
    where
      http_status : Option String → ℕ
      http_status none = 400
      http_status (some text) = if is_some (find? text "no available") then 503 else 400

  unfoldable pub poll : Api Session → String → Option (Result ℕ (Option Session))
  poll api name = poll_by (Dict.get api.states name)

  -- The state that `get_model_status` reports, `none` for "not_loaded".
  abbrev pub get_model_status : Api Session → String → Option (Status × Option String)
  get_model_status api name = elim (Dict.get api.states name) [
    | none ↦ none
    | some state ↦ some (state.status, state.error_text)
  ]
