-- ===== src/Dispatch.antt =====
-- orchestrator/dispatch.py: `split_layers` and `plan_dispatch`.
pub mod Ranges
pub mod Plan
use Prim.Native.String.{◌++◌}
use pi_ssm.Base.{
  ℕ, zero, suc, ◌+◌, ◌-◌, ◌/◌, String, Bool, Option, none, some, List, [], ◌∷◌, ltb, eqb,
  if◌then◌else◌, length, get_elem?,
}
use pi_ssm.Base.Decimal.{address, decimal}
use pi_ssm.Base.Result.{Result, ok, raise, ◌>>=◌}
use pi_ssm.Manifest.Defs.{Manifest}
use pi_ssm.Nodes.{NodeInfo, NodeRegistry, list_nodes}

-- `DispatchError` with its two causes, and what a bad argument or index would raise.
pub data Fault : Type 0 where
  no_available_nodes : Fault
  more_nodes_than_layers : ℕ → ℕ → Fault
  zero_division_error : Fault
  index_error : Fault

-- `str(err)` of a `DispatchError`.
abbrev pub message : Fault → String
message no_available_nodes = "no available nodes in the registry"
message (more_nodes_than_layers num_nodes total_layers) =
    "Cannot assign "
    ++ decimal num_nodes
    ++ " nodes to "
    ++ decimal total_layers
    ++ " layers: more nodes than layers."
message zero_division_error = "integer division or modulo by zero"
message index_error = "list index out of range"

pub record ShardAssignment : Type 0 where
  pub node_id : String
  pub ip_address : String
  pub inference_port : ℕ
  pub layer_start : ℕ
  pub layer_end : ℕ
  pub is_first : Bool
  pub is_last : Bool
  pub next_worker_address : String

pub record DispatchPlan : Type 0 where
  pub assignments : List ShardAssignment
  pub arch : String
  pub model_name : String
  pub checkpoint : String
  pub total_layers : ℕ

-- The loop of `split_layers`, with `left` rounds to go at index `i`.
unfoldable pub split_loop : ℕ → ℕ → ℕ → ℕ → ℕ → ℕ → List (ℕ × ℕ)
split_loop total_layers num_nodes base zero i start = []
split_loop total_layers num_nodes base (suc left) i start =
    let end = if eqb i (num_nodes - 1) then total_layers else start + base in
    (start, end) ∷ split_loop total_layers num_nodes base left (i + 1) end

unfoldable pub split_layers : ℕ → ℕ → Result Fault (List (ℕ × ℕ))
split_layers total_layers num_nodes =
    if ltb total_layers num_nodes
    then raise (more_nodes_than_layers num_nodes total_layers)
    else if eqb num_nodes 0
    then raise zero_division_error
    else ok (split_loop total_layers num_nodes (total_layers / num_nodes) num_nodes 0 0)

unfoldable pub next_of : Option NodeInfo → Result Fault String
next_of none = raise index_error
next_of (some nxt) = ok (address nxt.ip_address nxt.inference_port)

-- `next_addr` of the `i`-th node.
unfoldable pub next_addr : List NodeInfo → ℕ → Result Fault String
unfolding next_of
next_addr nodes i = if eqb i (length nodes - 1) then ok "" else next_of (get_elem? nodes (i + 1))

-- The loop of `plan_dispatch` over `enumerate(zip(nodes, ranges))`, at index `i`.
unfoldable pub assign_loop :
    List NodeInfo → ℕ → List NodeInfo → List (ℕ × ℕ) → Result Fault (List ShardAssignment)
assign_loop nodes i [] ranges = ok []
assign_loop nodes i (node ∷ rest) [] = ok []
assign_loop nodes i (node ∷ rest) ((start, end) ∷ ranges) = do
  next ← next_addr nodes i
  others ← assign_loop nodes (i + 1) rest ranges
  ok (
      record {
        node_id = node.node_id;
        ip_address = node.ip_address;
        inference_port = node.inference_port;
        layer_start = start;
        layer_end = end;
        is_first = eqb i 0;
        is_last = eqb i (length nodes - 1);
        next_worker_address = next;
      }
      ∷ others)

unfoldable pub plan_dispatch : Manifest String ℕ → NodeRegistry → Result Fault DispatchPlan
plan_dispatch manifest registry = do
  let nodes = list_nodes registry (some "available")
  if eqb (length nodes) 0 then raise no_available_nodes else do
    ranges ← split_layers manifest.layers (length nodes)
    assignments ← assign_loop nodes 0 nodes ranges
    ok (record {
      assignments = assignments;
      arch = manifest.arch;
      model_name = manifest.name;
      checkpoint = manifest.checkpoint;
      total_layers = manifest.layers;
    })
