-- ===== src/Checks/Api.antt =====
-- Two models through the states of the HTTP API; a session is a number.
use pi_ssm.Base.{ℕ, String, true, false, some, [], ◌∷◌, ◌≡◌, refl, map}
use pi_ssm.Base.Dict
use pi_ssm.Base.Result.{ok, raise}
use pi_ssm.Dispatch.{DispatchPlan, no_available_nodes}
use pi_ssm.Api.{
  Api, new_api, loading, is_ready, loading_state, ended_state, unloading, loaded_models,
  begin_loading, start_loading, end_loading, poll,
}
use pi_ssm.Api.States.{
  IsReachable, start, next, begins, starts, ends, is_backed, is_backed-IsReachable,
  begin_loading-unloading,
}

abbrev plan_for : String → DispatchPlan
plan_for name = record {
  assignments = [];
  arch = "mamba";
  model_name = name;
  checkpoint = name;
  total_layers = 24;
}

abbrev pub first_loading : Api ℕ
first_loading = start_loading (begin_loading new_api "a").0 "a" (ok (plan_for "a"))

abbrev pub first_ready : Api ℕ
first_ready = end_loading first_loading [] ("a", plan_for "a") [] (ok 7)

loading-IsReachable : IsReachable first_loading
loading-IsReachable =
    next (next start (begins new_api "a"))
      (starts (begin_loading new_api "a").0 "a" (ok (plan_for "a")))

pub first-IsReachable : IsReachable first_ready
unfolding begin_loading start_loading loaded_models Dict.get
first-IsReachable =
    next loading-IsReachable (ends first_loading [] ("a", plan_for "a") [] (ok 7) refl)

there : Dict.get first_ready.states "a" ≡ some (ended_state (plan_for "a") (ok 7))
unfolding begin_loading start_loading end_loading loaded_models Dict.get Dict.put
there = refl

is_backed-IsReachable_example :
    is_backed {Session = ℕ} first_ready.threads "a" (ended_state (plan_for "a") (ok 7)) ≡ true
is_backed-IsReachable_example =
    is_backed-IsReachable first-IsReachable "a" (ended_state (plan_for "a") (ok 7)) there

-- While the first model is loading, the second starts to load as well.
abbrev second_loading : Api ℕ
second_loading = start_loading (begin_loading first_loading "b").0 "b" (ok (plan_for "b"))

both_loading : map (λ s. s.1.status) second_loading.states ≡ loading ∷ loading ∷ []
unfolding begin_loading start_loading loaded_models Dict.get Dict.put
both_loading = refl

begun : (begin_loading second_loading "c").1 ≡ unloading []
unfolding begin_loading start_loading loaded_models Dict.get Dict.put
begun = refl

still_there :
    Dict.get (begin_loading second_loading "c").0.states "b" ≡ some (loading_state (plan_for "b"))
unfolding begin_loading start_loading loaded_models Dict.get Dict.put
still_there = refl

begin_loading-unloading_example : is_ready loading ≡ false
begin_loading-unloading_example =
    begin_loading-unloading second_loading "c" [] "b" (loading_state (plan_for "b")) begun
      still_there

-- A load with no node is the HTTP error 503.
no_nodes :
    poll {Session = ℕ} (start_loading new_api "a" (raise no_available_nodes)) "a" ≡ some (raise 503)
unfolding poll start_loading Dict.get Dict.put
no_nodes = refl
