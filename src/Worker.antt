-- ===== src/Worker.antt =====
-- inference/service.py, `InferenceServiceServicer`, and `ModelHandle` of inference/loader.py: what a
-- worker node keeps. The handlers stand in the modules below.
pub mod Running
pub mod Loading
use pi_ssm.Base.{ℕ, String, Bool, Option, List, []}
use pi_ssm.Base.Dict.{Dict}
use pi_ssm.Shard.{ShardModule}

-- A shard's handle; its tokenizer and its manifest are always `None`.
pub record ModelHandle (Tensor Cache : Type 0) : Type 0 where
  pub name : String
  pub model : ShardModule Tensor Cache
  pub memory_mb : ℕ
  pub loaded_at : ℕ
  pub layer_start : ℕ
  pub layer_end : ℕ
  pub is_first_shard : Bool
  pub is_last_shard : Bool
  pub next_worker_address : String
  pub cache : Option Cache

pub record Worker (Tensor Cache : Type 0) : Type 0 where
  pub node_id : String
  pub models : Dict (ModelHandle Tensor Cache)
  pub loading : List String

-- `__init__`
abbrev pub new_worker : {Tensor Cache : Type 0} → String → Worker Tensor Cache
new_worker node_id = record { node_id = node_id; models = []; loading = [] }
