-- ===== src/Scripts.antt =====
-- scripts/profile_pipeline.py: `wait_for_workers`, the wait before a profile for the workers that it
-- needs. Times are in milliseconds. What the scripts measure and print is not modelled.
pub mod Workers
use Prim.Native.String.{◌++◌}
use pi_ssm.Base.{
  ℕ, zero, suc, ◌+◌, ◌-◌, ◌*◌, ◌/◌, ◌<◌, ◌≤◌, String, Bool, true, false, Option, none, some, List,
  [], ◌∷◌, ltb, leb, length, if◌then◌else◌, eqb,
}
use pi_ssm.Base.Decimal.{decimal}
use pi_ssm.Base.Polling.{poll_rounds}
use pi_ssm.Base.Result.{Result, ok, raise}
use pi_ssm.Nodes.{NodeRegistry, NodeInfo, list_nodes}

-- How long a round sleeps.
abbrev pub round_sleep : ℕ
round_sleep = 1000

-- `registry.list_nodes(status_filter="available")`
abbrev pub available : NodeRegistry → List NodeInfo
available registry = list_nodes registry (some "available")

abbrev pub target_of : Option ℕ → ℕ
target_of none = 1
target_of (some expected) = expected

-- The last lines, behind the loop: the nodes, or a `RuntimeError` with their number.
abbrev pub enough_or_raise : ℕ → List NodeInfo → Result ℕ (List NodeInfo)
enough_or_raise target nodes = if ltb (length nodes) target then raise (length nodes) else ok nodes

-- A round before the deadline.
abbrev pub early_round : ℕ → List NodeInfo → Option (Result ℕ (List NodeInfo))
early_round target nodes = if leb target (length nodes) then some (ok nodes) else none

-- A round, by the test of the clock.
abbrev pub round_at : ℕ → Bool → List NodeInfo → Option (Result ℕ (List NodeInfo))
round_at target true nodes = early_round target nodes
round_at target false nodes = some (enough_or_raise target nodes)

-- `seen i` is the registry in round `i`, and `clock i` the reading of the clock at its test.
module _ (seen : ℕ → NodeRegistry) (clock : ℕ → ℕ) where
  unfoldable pub workers_round : ℕ → ℕ → ℕ → Option (Result ℕ (List NodeInfo))
  workers_round target deadline i = round_at target (ltb (clock i) deadline) (available (seen i))

  -- `wait_for_workers`; `none` means that the fuel ran out.
  unfoldable pub wait_for_workers : ℕ → ℕ → ℕ → Option ℕ → Option (Result ℕ (List NodeInfo))
  wait_for_workers fuel start timeout expected =
      poll_rounds (workers_round (target_of expected) (start + timeout)) fuel 0

-- `format_bytes` of scripts/benchmark_network.py
abbrev pub format_bytes : ℕ → String
format_bytes n =
    if eqb n 0
    then "0 B"
    else if ltb n 1024
    then decimal n ++ " B"
    else if ltb n (1024 * 1024)
    then decimal (n / 1024) ++ " KB"
    else decimal (n / (1024 * 1024)) ++ " MB"
