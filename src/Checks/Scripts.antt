-- ===== src/Checks/Scripts.antt =====
-- A wait for two workers that register between its rounds, and sizes of payloads.
use pi_ssm.Base.{ℕ, ◌+◌, ◌*◌, ◌≤◌, some, List, ◌≡◌, refl, arith, ltb, if◌then◌else◌}
use pi_ssm.Base.Decimal.{decimal}
use pi_ssm.Base.Dict
use pi_ssm.Base.Polling.{poll_rounds}
use pi_ssm.Base.Result.{Result, ok, raise}
use pi_ssm.Nodes.{NodeRegistry, NodeInfo, new_registry, run, handle, list_nodes, update_node}
use pi_ssm.Scripts.{round_sleep, available, wait_for_workers, workers_round, format_bytes}
use pi_ssm.Scripts.Workers.{Ends, wait_for_workers-Ends}
use pi_ssm.Checks.Orchestrator.{both}

abbrev seen : ℕ → NodeRegistry
seen i = if ltb i 2 then new_registry 15 3 else both

abbrev clock : ℕ → ℕ
clock i = 500 + 1200 * i

ticks : (i : ℕ) → clock i + round_sleep ≤ clock (i + 1)
ticks i = omega arith

wait_for_workers-Ends_example :
    (answer : Result ℕ (List NodeInfo)) × (wait_for_workers seen clock 7 400 5000 (some 2)
      ≡ some answer)
    × Ends seen clock 2 5400 answer
wait_for_workers-Ends_example =
    wait_for_workers-Ends seen clock 400 5000 (some 2) ticks (omega arith)

two_there : wait_for_workers seen clock 7 400 5000 (some 2) ≡ some (ok (available both))
unfolding wait_for_workers workers_round poll_rounds run handle list_nodes update_node Dict.put
    Dict.get
two_there = refl

-- With three expected, the wait ends with the number of those that are there.
too_few : wait_for_workers seen clock 7 400 5000 (some 3) ≡ some (raise 2)
unfolding wait_for_workers workers_round poll_rounds run handle list_nodes update_node Dict.put
    Dict.get
too_few = refl

kilobytes : format_bytes 65536 ≡ "64 KB"
unfolding decimal
kilobytes = refl
