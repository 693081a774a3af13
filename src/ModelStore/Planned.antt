-- ===== src/ModelStore/Planned.antt =====
-- The tensors that the shards of a plan are sent: `ModelStore` with `plan_dispatch`.
use pi_ssm.Base.{
  ℕ, ◌≤◌, ◌<◌, String, true, Option, some, List, [], ◌∷◌, ◌++◌, ◌==◌, ◌≡◌, refl, ap, ◌∙◌, arith,
  eqb, length, map,
}
use pi_ssm.Base.Dict.{Dict}
use pi_ssm.Base.Result.{Result, ok, raise, ◌>>=◌}
use pi_ssm.Manifest.Defs.{Manifest}
use pi_ssm.Nodes.{NodeRegistry, list_nodes}
use pi_ssm.Dispatch.{ShardAssignment, DispatchPlan, plan_dispatch}
use pi_ssm.Dispatch.Plan.{layer_range, Flagged, plan_dispatch-IsChain}
use pi_ssm.Shard.Locations.{TensorLocationSpec, layer_of_name, tensor_locations_for_range}
use pi_ssm.Shard.Locations.Cover.{
  HasEnds, listed, occurrences, plan_locations, plan_locations-Tiles,
}
use pi_ssm.ModelStore.{ModelStore, StoreFault, key_error, load, extract_shard, located}

-- The tensors of all shards that `PipelineRunner.load` extracts, in the order of the plan.
unfoldable pub extract_all :
    ModelStore → String → List ShardAssignment → Result StoreFault (List TensorLocationSpec)
extract_all s arch [] = ok []
extract_all s arch (a ∷ rest) = do
  shard ← extract_shard s arch a.layer_start a.layer_end a.is_first a.is_last
  others ← extract_all s arch rest
  ok (shard.0 ++ others)

-- A missing name as the fault of the store.
abbrev keyed : Result String (List TensorLocationSpec) → Result StoreFault (List TensorLocationSpec)
keyed (raise name) = raise (key_error name)
keyed (ok locations) = ok locations

keyed-append :
    (config : Option String) (p q : Result String (List TensorLocationSpec))
    → (located config p >>= λ shard. keyed q >>= λ others. ok (shard.0 ++ others))
      ≡ keyed (p >>= λ shard. q >>= λ others. ok (shard ++ others))
keyed-append config (raise name) q = refl
keyed-append config (ok shard) (raise name) = refl
keyed-append config (ok shard) (ok others) = refl

extract_all_lem :
    (s : ModelStore) (w : Dict String) (arch : String) (total : ℕ) (chain : List ShardAssignment)
    → s.metadata ≡ some w
    → (arch == "mamba") ≡ true
    → Flagged total chain
    → extract_all s arch chain ≡ keyed (plan_locations w total (map layer_range chain))
unfolding extract_all extract_shard plan_locations
extract_all_lem s w arch total [] kept mamba flags = refl
extract_all_lem s w arch total (a ∷ rest) kept mamba flags =
    rw (kept, extract_all_lem s w arch total rest kept mamba flags.1, flags.0.0, flags.0.1)
      (rw mamba (
        keyed-append s.config_json
          (tensor_locations_for_range w a.layer_start a.layer_end (eqb a.layer_start 0)
            (eqb a.layer_end total))
          (plan_locations w total (map layer_range rest))))

-- Take a manifest for the architecture `mamba`, a registry with at least one available node and no more
-- of them than layers, and a checkpoint whose weight map has the embedding and the final norm. Once the
-- store has loaded the checkpoint, the tensors of every shard of the plan are found, and all the shards
-- together list each tensor of a layer of the model exactly as often as the weight map has it: none is
-- left out, and none is loaded by two shards.
pub extract_all-plan_dispatch :
    (manifest : Manifest String ℕ) (registry : NodeRegistry) (s : ModelStore) (w : Dict String)
    (config : String) (name : String) (i : ℕ) (suffix : String)
    → 0 < length (list_nodes registry (some "available"))
    → length (list_nodes registry (some "available")) ≤ manifest.layers
    → (manifest.arch == "mamba") ≡ true
    → HasEnds w
    → layer_of_name name ≡ some (i, suffix)
    → i < manifest.layers
    → (plan : DispatchPlan) × (locations : List TensorLocationSpec) × (plan_dispatch manifest
          registry
        ≡ ok plan)
      × (extract_all (load {E = String} s (ok w) (ok config)).0 plan.arch plan.assignments
          ≡ ok locations)
      × (listed name locations ≡ occurrences name w)
unfolding load
extract_all-plan_dispatch manifest registry s w config name i suffix pos le mamba ends layer
      inside =
    let (plan, planned, _, chain, _, _, arch, _) = plan_dispatch-IsChain manifest registry pos le in
    let (locations, found, count) =
      plan_locations-Tiles w ends name i suffix layer manifest.layers 0
        (map layer_range plan.assignments) chain.tiles in
    let after = record s { metadata = some w; config_json = some config } in
    (
      plan,
      locations,
      planned,
      extract_all_lem after w plan.arch manifest.layers plan.assignments refl
            (ap (λ (a : String). a == "mamba") arch ∙ mamba) chain.flagged
          ∙ ap keyed found,
      count ∙ ground arith,
    )
