-- ===== src/Checks/Planned.antt =====
-- The tensors of a checkpoint over the two nodes of Checks.Orchestrator.
use pi_ssm.Base.{String, some, List, [], ◌∷◌, ◌≡◌, refl, arith, true, false}
use pi_ssm.Base.Decimal.{decimal}
use pi_ssm.Base.Dict
use pi_ssm.Base.Dict.{Dict}
use pi_ssm.Base.Result.{ok}
use pi_ssm.Dispatch.{DispatchPlan, plan_dispatch}
use pi_ssm.Shard.Locations.{
  TensorLocationSpec, layer_of_name, layer_locations, tensor_locations_for_range,
}
use pi_ssm.Shard.Locations.Cover.{HasEnds, listed, occurrences}
use pi_ssm.ModelStore.{new_model_store, load}
use pi_ssm.ModelStore.Planned.{extract_all, extract_all-plan_dispatch}
use pi_ssm.Checks.Orchestrator.{mamba, both, two_available}

abbrev weights : Dict String
weights =
    ("backbone.embeddings.weight", "model.safetensors")
    ∷ ("backbone.layers.5.mixer.A_log", "model.safetensors")
    ∷ ("backbone.layers.12.mixer.D", "model.safetensors")
    ∷ ("backbone.norm_f.weight", "model.safetensors")
    ∷ []

ends : HasEnds weights
unfolding Dict.get
ends = record {
  embeddings = "model.safetensors";
  norm = "model.safetensors";
  embeddings_there = refl;
  norm_there = refl;
}

fifth : layer_of_name "backbone.layers.5.mixer.A_log" ≡ some (5, "mixer.A_log")
unfolding layer_of_name
fifth = refl

-- The second shard numbers its layers from 0, and its head is tied to the embedding.
second_shard :
    tensor_locations_for_range weights 12 24 false true
    ≡ ok (
        record {
          dest_name = "layers.0.mixer.D";
          source_name = "backbone.layers.12.mixer.D";
          source_file = "model.safetensors";
        }
        ∷ record {
          dest_name = "norm_f.weight";
          source_name = "backbone.norm_f.weight";
          source_file = "model.safetensors";
        }
        ∷ record {
          dest_name = "lm_head.weight";
          source_name = "backbone.embeddings.weight";
          source_file = "model.safetensors";
        }
        ∷ [])
unfolding tensor_locations_for_range layer_locations layer_of_name Dict.get decimal
second_shard = refl

extract_all-plan_dispatch_example :
    (plan : DispatchPlan) × (locations : List TensorLocationSpec) × (plan_dispatch mamba both
      ≡ ok plan)
    × (extract_all
          (load {E = String} new_model_store (ok weights) (ok "{}")).0
          plan.arch
          plan.assignments
        ≡ ok locations)
    × (listed "backbone.layers.5.mixer.A_log" locations
        ≡ occurrences "backbone.layers.5.mixer.A_log" weights)
extract_all-plan_dispatch_example =
    extract_all-plan_dispatch mamba both new_model_store weights "{}"
      "backbone.layers.5.mixer.A_log" 5 "mixer.A_log" (omega (arith, two_available))
      (omega (arith, two_available)) refl ends fifth (omega arith)
