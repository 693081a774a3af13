-- ===== src/Api/Routes.antt =====
-- The routes of orchestrator/http_api.py that load models and report on them: `_ensure_loading_started`
-- as a whole, POST /models/{name}/load and /redistribute, GET /models/{name}/status, /topology and
-- /nodes. Each runs here with no other request between its sections; Api.States is about any
-- interleaving of these. A response is the record of its fields, an HTTP error its status code.
use pi_ssm.Base.{
  ℕ, String, Bool, ◌&&◌, Option, none, some, is_some, List, [], ◌∷◌, ◌++◌, map, length,
  if◌then◌else◌,
}
use pi_ssm.Base.Dict
use pi_ssm.Base.Dict.{Dict}
use pi_ssm.Base.Result.{Result, ok, raise}
use pi_ssm.Manifest.Defs.{Manifest}
use pi_ssm.Manifest.Registry.{Models, get_model}
use pi_ssm.Nodes.{NodeInfo, NodeRegistry, list_nodes}
use pi_ssm.Dispatch.{Fault, message, DispatchPlan, ShardAssignment, plan_dispatch}
use pi_ssm.Api.{
  Status, error, is_active, ModelState, Api, Begun, returned, unloading, begin_loading,
  loading_state, start_loading, redistribute_model,
}

pub record StatusReport : Type 0 where
  pub status : Option Status
  pub error_text : Option String
  pub num_nodes : Option ℕ

-- `_node_to_dict` is the record itself.
abbrev pub get_nodes : NodeRegistry → List NodeInfo
get_nodes registry = list_nodes registry none

abbrev pub num_nodes : Option DispatchPlan → Option ℕ
num_nodes none = none
num_nodes (some plan) = some (length plan.assignments)

-- `status = none` is "not_loaded".
abbrev pub not_loaded : StatusReport
not_loaded = record { status = none; error_text = none; num_nodes = none }

pub record TopologyEntry : Type 0 where
  pub node_id : String
  pub ip_address : String
  pub layer_start : ℕ
  pub layer_end : ℕ
  pub is_first : Bool
  pub is_last : Bool

abbrev pub topology_entry : ShardAssignment → TopologyEntry
topology_entry a = record {
  node_id = a.node_id;
  ip_address = a.ip_address;
  layer_start = a.layer_start;
  layer_end = a.layer_end;
  is_first = a.is_first;
  is_last = a.is_last;
}

abbrev pub entries_of : Option DispatchPlan → List TopologyEntry
entries_of none = []
entries_of (some plan) = map topology_entry plan.assignments

-- What a request leaves: the states, its response, and the sessions that it has unloaded.
abbrev pub Answer : Type 0 → Type 0 → Type 0
Answer Session A = Api Session × A × List (String × Option Session)

module _ {Session : Type 0} where
  abbrev pub report : ModelState Session → StatusReport
  report state = record {
    status = some state.status;
    error_text = state.error_text;
    num_nodes = num_nodes state.plan;
  }

  -- The state that the section behind `plan_dispatch` puts and returns.
  abbrev pub started : Result Fault DispatchPlan → ModelState Session
  started (raise fault) = record {
    status = error;
    plan = none;
    session = none;
    error_text = some (message fault);
  }
  started (ok plan) = loading_state plan

  abbrev pub ensured :
      String
      → Result Fault DispatchPlan
      → Api Session × Begun Session
      → Answer Session (ModelState Session)
  ensured name planned (api, returned state) = (api, state, [])
  ensured name planned (api, unloading loaded) =
      (start_loading api name planned, started planned, loaded)

  -- `_ensure_loading_started`
  unfoldable pub ensure_loading_started :
      Manifest String ℕ → NodeRegistry → Api Session → Answer Session (ModelState Session)
  ensure_loading_started manifest registry api =
      ensured manifest.name (plan_dispatch manifest registry) (begin_loading api manifest.name)

  abbrev pub reported :
      List (String × Option Session)
      → Answer Session (ModelState Session)
      → Answer Session (Result ℕ StatusReport)
  reported before (api, state, unloaded) = (api, ok (report state), before ++ unloaded)

  -- POST /models/{name}/load
  unfoldable pub load_model :
      Models ℕ → NodeRegistry → Api Session → String → Answer Session (Result ℕ StatusReport)
  load_model models registry api name = elim (get_model models name) [
    | none ↦ (api, raise 404, [])
    | some manifest ↦ reported [] (ensure_loading_started manifest registry api)
  ]

  -- `_unload_session` of the session that a redistribution has found.
  abbrev pub old_session : String → Option Session → List (String × Option Session)
  old_session name none = []
  old_session name (some session) = (name, some session) ∷ []

  abbrev pub redistributed :
      Manifest String ℕ
      → NodeRegistry
      → String
      → Api Session × Result ℕ (Option Session)
      → Answer Session (Result ℕ StatusReport)
  redistributed manifest registry name (api, raise status) = (api, raise status, [])
  redistributed manifest registry name (api, ok session) =
      reported (old_session name session) (ensure_loading_started manifest registry api)

  -- POST /models/{name}/redistribute
  unfoldable pub redistribute :
      Models ℕ → NodeRegistry → Api Session → String → Answer Session (Result ℕ StatusReport)
  redistribute models registry api name = elim (get_model models name) [
    | none ↦ (api, raise 404, [])
    | some manifest ↦ redistributed manifest registry name (redistribute_model api name)
  ]

  abbrev pub status_of : Option (ModelState Session) → StatusReport
  status_of none = not_loaded
  status_of (some state) = report state

  -- GET /models/{name}/status
  unfoldable pub model_status : Models ℕ → Api Session → String → Result ℕ StatusReport
  model_status models api name = elim (get_model models name) [
    | none ↦ raise 404
    | some manifest ↦ ok (status_of (Dict.get api.states name))
  ]

  abbrev pub is_shown : ModelState Session → Bool
  is_shown state = is_some state.plan && is_active state.status

  -- The first of the models that are shown.
  unfoldable pub first_shown : Dict (ModelState Session) → Option (String × ModelState Session)
  first_shown [] = none
  first_shown ((name, state) ∷ rest) =
      let others = first_shown rest in if is_shown state then some (name, state) else others

  abbrev pub topology_of : Option (String × ModelState Session) → Option String × List TopologyEntry
  topology_of none = (none, [])
  topology_of (some (name, state)) = (some name, entries_of state.plan)

  -- GET /topology
  unfoldable pub get_topology : Api Session → Option String × List TopologyEntry
  get_topology api = topology_of (first_shown api.states)
