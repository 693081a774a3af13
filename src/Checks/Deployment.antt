-- ===== src/Checks/Deployment.antt =====
-- A model of three layers on two workers.
use pi_ssm.Base.{
  ℕ, ◌+◌, ◌*◌, String, Bool, true, false, none, some, List, [], ◌∷◌, ◌≡◌, refl, ap, arith, eqb,
  eqb-ne, if◌then◌else◌, ◌==◌,
}
use pi_ssm.Base.Dict
use pi_ssm.Base.Result.{ok, raise}
use pi_ssm.Tensors.{NumpyType, float32, float16, int64, int32}
use pi_ssm.Tensors.{Torch, TorchLaws, prod, serialize_tensor, deserialize_tensor, size_mismatch}
use pi_ssm.Tensors.RoundTrip.{deserialize_tensor_truncated}
use pi_ssm.Shard.{Block, Mamba, ShardModule, from_model, slice, forward, run_layers, embed, project}
use pi_ssm.Shard.Caches.{IsLocal, AreLocal, run_cached}
use pi_ssm.Shard.Ranges.{shard_of, embed_if, project_if, forward-from_model}
use pi_ssm.Worker.{ModelHandle, new_worker}
use pi_ssm.Worker.Running.{RunShardRequest, Measure, acknowledged, call_cache}
use pi_ssm.Cluster.{Network, replied, call_run_shard}
use pi_ssm.Cluster.Seats.{Seat, IsSeated, IsPlaced, pass, network_after, served}
use pi_ssm.Cluster.Hops.{delivery, call_run_shard_chain}
use pi_ssm.Cluster.Shards.{IsDeployed}
use pi_ssm.Cluster.Whole.{SameAs, pass-SameAs, Holds-reset}

-- Tensors of one 32-bit integer, whose buffer holds the integer in its first cell.
abbrev head_of : List ℕ → ℕ
head_of [] = 0
head_of (n ∷ rest) = n

-- `np.dtype(t).itemsize`
abbrev pub itemsize : NumpyType → ℕ
itemsize float32 = 4
itemsize float16 = 2
itemsize int64 = 8
itemsize int32 = 4

abbrev pub numbers : Torch ℕ
numbers = record {
  tobytes = λ t. t ∷ 0 ∷ 0 ∷ 0 ∷ [];
  shape = λ t. 1 ∷ [];
  dtype = λ t. "torch.int32";
  numpy_type = λ t. int32;
  itemsize = itemsize;
  from_buffer = λ buffer np_dtype shape. head_of buffer;
}

pub numbers_laws : TorchLaws numbers
unfolding prod
numbers_laws = record { named = λ t. refl; sized = λ t. refl; rebuilt = λ t. refl }

deserialize_tensor_truncated_example :
    deserialize_tensor numbers (record (serialize_tensor numbers 7) { buffer = 7 ∷ [] })
    ≡ raise (size_mismatch 1 4)
deserialize_tensor_truncated_example =
    deserialize_tensor_truncated numbers numbers_laws 7 (7 ∷ []) (λ e. omega (arith, e))

-- Layer `i` adds entry `i` of the cache and one to its input, and stores its input in the entry.
abbrev pub block : ℕ → Block ℕ (ℕ → ℕ)
block i = record {
  plain = λ x. x + 1;
  cached = λ x c. (x + c i + 1, λ j. if eqb j i then x else c j);
}

abbrev pub entry_of : (ℕ → ℕ) → ℕ → ℕ
entry_of c i = c i

pub block-IsLocal : (i : ℕ) → IsLocal entry_of i (block i)
block-IsLocal i = record {
  output = λ x c d same. ap (λ e. x + e + 1) same;
  own = λ x c d same. ap (λ e. if eqb i i then x else e) same;
  frame = λ x c j other. rw (eqb-ne j i other) refl;
}

abbrev pub model : Mamba ℕ (ℕ → ℕ)
model = record {
  layers = block 0 ∷ block 1 ∷ block 2 ∷ [];
  embeddings = λ x. x * 2;
  norm_f = λ x. x + 3;
  lm_head = λ x. x * 10;
  fresh_cache = λ j. 0;
}

pub local : AreLocal entry_of 0 model.layers
local = (block-IsLocal 0, (block-IsLocal 1, (block-IsLocal 2, tt)))

abbrev handle_of : ℕ → ℕ → Bool → Bool → String → ModelHandle ℕ (ℕ → ℕ)
handle_of start end first last next = record {
  name = "mamba";
  model = shard_of model start end first last;
  memory_mb = 10;
  loaded_at = 0;
  layer_start = start;
  layer_end = end;
  is_first_shard = first;
  is_last_shard = last;
  next_worker_address = next;
  cache = none;
}

abbrev seat_of : String → ModelHandle ℕ (ℕ → ℕ) → Seat ℕ (ℕ → ℕ)
seat_of where_at handle = record {
  address = where_at;
  worker = record (new_worker where_at) { models = ("mamba", handle) ∷ [] };
  handle = handle;
}

abbrev pub front : Seat ℕ (ℕ → ℕ)
front = seat_of "10.0.0.1:50052" (handle_of 0 1 true false "10.0.0.2:50052")

abbrev pub back : Seat ℕ (ℕ → ℕ)
back = seat_of "10.0.0.2:50052" (handle_of 1 3 false true "")

abbrev pub alone : ModelHandle ℕ (ℕ → ℕ)
alone = handle_of 0 3 true true ""

pub deployed : IsDeployed model 0 (front ∷ back ∷ [])
deployed = (refl, omega arith, refl, (refl, omega arith, refl, refl))

pub seated : IsSeated "mamba" (front ∷ back ∷ [])
unfolding Dict.get
seated = (refl, refl, refl, refl, (refl, refl, refl, refl, tt))

abbrev pub network : Network ℕ (ℕ → ℕ)
network = ("10.0.0.2:50052", back.worker) ∷ ("10.0.0.1:50052", front.worker) ∷ []

pub placed : IsPlaced network (front ∷ back ∷ [])
unfolding Dict.get
placed = (refl, (refl, tt))

forward-from_model_example :
    (shard : ShardModule ℕ (ℕ → ℕ)) × (from_model model 1 3 false true ≡ ok shard)
    × (forward shard 5 (some (λ j. j)) ≡ (
      ok (
          project_if model true
            (run_cached (slice 1 3 model.layers) (embed_if model false 5) (λ j. j)).0),
      some (run_cached (slice 1 3 model.layers) (embed_if model false 5) (λ j. j)).1,
    ))
forward-from_model_example = forward-from_model model 1 3 false true 5 (λ j. j)

pass-SameAs_example : SameAs model entry_of "mamba" true (front ∷ back ∷ []) alone 4
pass-SameAs_example =
    pass-SameAs model entry_of "mamba" true front (back ∷ []) alone 4 refl local deployed
      (Holds-reset model entry_of 0 0 (front ∷ back ∷ []) alone refl deployed)

abbrev pub measured : String → Measure
measured where_at = record { elapsed_ms = 5; peak_memory_mb = 100 }

abbrev request : RunShardRequest
request = record {
  model_name = "mamba";
  input_tensor = serialize_tensor numbers 4;
  generate_mode = false;
  max_new_tokens = 0;
  request_id = "r";
  orchestrator_callback_address = "10.0.0.9:50051";
  node_latencies_ms = [];
  node_peak_memory_mb = [];
  reset_cache = true;
}

-- The seats behind a pass with input 4.
abbrev after : List (Seat ℕ (ℕ → ℕ))
after =
    served "mamba" front (some (λ j. if eqb j 0 then 8 else 0))
    ∷ served "mamba" back (some (λ j. if eqb j 2 then 10 else (if eqb j 1 then 9 else 0)))
    ∷ []

passed : pass "mamba" true (front ∷ back ∷ []) 4 ≡ some (140, after)
unfolding pass forward run_layers embed project call_cache Dict.put
passed = refl

nonempty : ("10.0.0.9:50051" == "") ≡ false
nonempty = refl

call_run_shard_chain_example :
    call_run_shard numbers measured true 2 network "10.0.0.1:50052" request
    ≡ some (record {
      network = network_after after network;
      response = replied acknowledged;
      delivered = delivery numbers numbers_laws measured request (front ∷ back ∷ []) 140 ∷ [];
    })
call_run_shard_chain_example =
    call_run_shard_chain numbers numbers_laws measured front (back ∷ []) network request 4 140 after
      seated placed refl nonempty passed
