-- ===== src/Checks/Requests.antt =====
-- Requests of the HTTP API on concrete data; a session is a number.
use pi_ssm.Base.{
  ℕ, ◌+◌, ◌*◌, ◌≡◌, ◌≤◌, ltb, String, none, some, is_some, [], ◌∷◌, ◌++◌, refl, arith, Option,
  if◌then◌else◌,
}
use pi_ssm.Base.Decimal.{address}
use pi_ssm.Base.Dict
use pi_ssm.Base.Polling.{poll_rounds}
use pi_ssm.Base.Result.{Result, ok, raise}
use pi_ssm.Manifest.Defs.{Manifest}
use pi_ssm.Manifest.Values.{Value, string, mapping}
use pi_ssm.Manifest.Registry.{Models, already, get_model}
use pi_ssm.Nodes.{new_registry, run, handle, list_nodes, update_node}
use pi_ssm.Dispatch.{plan_dispatch, split_layers, split_loop, assign_loop, next_addr, next_of}
use pi_ssm.Api.{
  Api, new_api, loading, begin_loading, start_loading, loaded_models, end_loading, poll,
}
use pi_ssm.Api.Ready.{
  status_poll_interval, get_ready_session, Ends, get_ready_session-Ends, ready_round,
}
use pi_ssm.Api.Routes.{StatusReport, load_model, ensure_loading_started, model_status, get_topology}
use pi_ssm.Api.Reports.{load_model-again}
use pi_ssm.Api.Submission.{conflict, submit_model}
use pi_ssm.Api.Submitted.{Holds, Answers, submit_model-Holds, submit_model-Answers}
use pi_ssm.Api.Topology.{Shows, get_topology-IsReachable}
use pi_ssm.Checks.Api.{first_loading, first_ready, first-IsReachable}
use pi_ssm.Checks.Manifests.{document, manifest_for, from, valid}
use pi_ssm.Checks.Orchestrator.{both}
use pi_ssm.Checks.Whole.{small}

-- The load thread of the model ends between the rounds 1 and 2.
abbrev seen : ℕ → Api ℕ
seen i = if ltb i 2 then first_loading else first_ready

abbrev clock : ℕ → ℕ
clock i = 1000 + 60 * i

ticks : (i : ℕ) → clock i + status_poll_interval ≤ clock (i + 1)
ticks i = omega arith

get_ready_session-Ends_example :
    (answer : Result ℕ (Option ℕ)) × (get_ready_session seen clock "a" 4 1000 100 ≡ some answer)
    × Ends seen clock "a" 1100 answer
get_ready_session-Ends_example = get_ready_session-Ends seen clock "a" 1000 100 ticks (omega arith)

ready_seen : get_ready_session seen clock "a" 4 1000 100 ≡ some (ok (some 7))
unfolding get_ready_session ready_round poll_rounds poll begin_loading start_loading end_loading
    loaded_models Dict.get Dict.put
ready_seen = refl

abbrev models : Models ℕ
models = ("tiny", small) ∷ []

abbrev answer : StatusReport
answer = record { status = some loading; error_text = none; num_nodes = some 2 }

registered : get_model models "tiny" ≡ some small
unfolding get_model Dict.get
registered = refl

said : (load_model {Session = ℕ} models both new_api "tiny").1 ≡ ok answer
unfolding load_model ensure_loading_started begin_loading loaded_models start_loading get_model
    plan_dispatch run handle list_nodes update_node split_layers split_loop assign_loop next_addr
    next_of address Dict.put Dict.get
said = refl

load_model-again_example :
    (model_status {Session = ℕ} models
        (load_model {Session = ℕ} models both new_api "tiny").0
        "tiny"
      ≡ ok answer)
    × (load_model models
          (new_registry 15 3)
          (load_model {Session = ℕ} models both new_api "tiny").0
          "tiny"
        ≡ ((load_model {Session = ℕ} models both new_api "tiny").0, ok answer, []))
load_model-again_example =
    load_model-again {Session = ℕ} models both (new_registry 15 3) new_api "tiny" small answer
      registered refl said refl

get_topology-IsReachable_example : Shows first_ready.states (get_topology first_ready)
get_topology-IsReachable_example = get_topology-IsReachable first-IsReachable

abbrev submitted_document : Result String Value
submitted_document = ok (mapping (document (string "mamba-130m")))

abbrev submitted_manifest : Manifest Value Value
submitted_manifest = manifest_for (string "mamba-130m")

held : Holds submitted_document "mamba-130m" submitted_manifest
held = record {
  entries = document (string "mamba-130m");
  parsed = refl;
  from = from;
  valid = valid;
  named = refl;
}

submit_model-Holds_example :
    submit_model (("mamba-130m", submitted_manifest) ∷ []) submitted_document ≡ (
      if is_some (get_model (("mamba-130m", submitted_manifest) ∷ []) "mamba-130m")
      then (("mamba-130m", submitted_manifest) ∷ [], raise (409, conflict (already "mamba-130m")))
      else (
        (("mamba-130m", submitted_manifest) ∷ []) ++ ("mamba-130m", submitted_manifest) ∷ [],
        ok submitted_manifest,
      ))
submit_model-Holds_example =
    submit_model-Holds (("mamba-130m", submitted_manifest) ∷ []) submitted_document "mamba-130m"
      submitted_manifest held

submit_model-Answers_example : Answers [] submitted_document (submit_model [] submitted_document)
submit_model-Answers_example = submit_model-Answers [] submitted_document
