-- ===== src/Checks/Heartbeats.antt =====
-- A heartbeat loop that meets two outages.
use pi_ssm.Base.{true, false, some, List, [], ◌∷◌, ◌≡◌, refl}
use pi_ssm.Heartbeats.{
  HeartbeatClient, Outcome, responded, rpc_error, raises, adjusted, recovered, sent, failed,
  still_failing, heartbeat_loop, heartbeat_round, outages, recoveries, last_interval, total,
  is_failed, is_recovered, heartbeat_loop-logs,
}
use pi_ssm.Heartbeats.Lifecycle.{
  Client, calling, raised, new_client, start, stop, run_thread, close, IsReachable, created, next,
  starts, runs, stops, is_running, stop_end,
}
use pi_ssm.Heartbeats.Lifecycle.Clean.{IsClean}
use pi_ssm.Heartbeats.Lifecycle.Stopping.{run_all, end_at, run_thread-IsReachable}

abbrev client : HeartbeatClient
client = record { interval_ms = 5000; consecutive_failures = 0 }

abbrev two_outages : List Outcome
two_outages = responded 5000 ∷ rpc_error ∷ rpc_error ∷ responded 2000 ∷ rpc_error ∷ responded 0 ∷ []

logs :
    (heartbeat_loop client two_outages).1
    ≡ sent
      ∷ failed
      ∷ still_failing 2
      ∷ adjusted 2000
      ∷ recovered 2
      ∷ sent
      ∷ failed
      ∷ recovered 1
      ∷ sent
      ∷ []
unfolding heartbeat_loop heartbeat_round
logs = refl

heartbeat_loop-logs_example :
    (total is_failed (heartbeat_loop client two_outages).1 ≡ 2)
    × (total is_recovered (heartbeat_loop client two_outages).1 ≡ 2)
    × ((heartbeat_loop client two_outages).0.interval_ms ≡ 2000)
unfolding outages recoveries last_interval
heartbeat_loop-logs_example = heartbeat_loop-logs client two_outages

-- A client whose first call fails, and that is stopped in its second call.
abbrev begun : Client
begun =
    run_all (start (new_client 2000))
      (rpc_error ∷ rpc_error ∷ rpc_error ∷ rpc_error ∷ rpc_error ∷ [])

-- The second channel is the one that is open, and the thread is in its second call.
replaced : (begun.channel ≡ some 1) × (begun.open_channels ≡ 1 ∷ []) × (begun.thread ≡ some calling)
unfolding start run_thread close heartbeat_round
replaced = (refl, refl, refl)

abbrev stopped : Client
stopped = stop begun

stopped-IsReachable : IsReachable stopped
unfolding start run_thread close heartbeat_round
stopped-IsReachable =
    next
      (next
        (next
          (next
            (next
              (next (next (created 2000) (starts (new_client 2000) refl refl))
                (runs (start (new_client 2000)) rpc_error))
              (runs _ rpc_error))
            (runs _ rpc_error))
          (runs _ rpc_error))
        (runs _ rpc_error))
      (stops begun refl)

event : stopped.stop_event ≡ true
unfolding stop
event = refl

run_thread-IsReachable_example :
    ((run_all stopped (responded 2000 ∷ rpc_error ∷ rpc_error ∷ [])).thread
      ≡ end_at stopped.thread (responded 2000))
    × (is_running (run_all stopped (responded 2000 ∷ rpc_error ∷ rpc_error ∷ [])) ≡ false)
    × IsClean (run_all stopped (responded 2000 ∷ rpc_error ∷ rpc_error ∷ []))
    × ((stop_end (run_all stopped (responded 2000 ∷ rpc_error ∷ rpc_error ∷ []))).open_channels
        ≡ [])
run_thread-IsReachable_example =
    run_thread-IsReachable (responded 2000) rpc_error rpc_error stopped-IsReachable event

-- An `OSError` while the request is built ends the thread.
killed : (run_all begun (raises ∷ [])).thread ≡ some raised
unfolding start run_thread close heartbeat_round
killed = refl
