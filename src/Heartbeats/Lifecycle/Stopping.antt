-- ===== src/Heartbeats/Lifecycle/Stopping.antt =====
-- How a HeartbeatClient comes to its end behind `stop`.
use pi_ssm.Base.{
  ℕ, true, false, Option, none, some, is_some, List, [], ◌∷◌, ◌≡◌, refl, ap, ◌∙◌, false≢true,
}
use pi_ssm.Heartbeats.{Outcome, responded, rpc_error, raises, heartbeat_round}
use pi_ssm.Heartbeats.Lifecycle.{
  Phase, starting, testing, calling, waiting, ended, raised, crashed, Client, is_alive,
  is_running_at, is_running, stop_end, reconnect, run_at, run_by, run_thread, IsReachable,
}
use pi_ssm.Heartbeats.Lifecycle.Clean.{
  IsClean, IsClean-run_thread, IsClean-IsReachable, closed_all, has_channel,
}

-- Where a thread stands after its next step, once the event is set.
abbrev pub after_call : Outcome → Phase
after_call raises = raised
after_call other = waiting

abbrev pub next_phase : Phase → Outcome → Phase
next_phase starting outcome = testing
next_phase testing outcome = ended
next_phase calling outcome = after_call outcome
next_phase waiting outcome = testing
next_phase end outcome = end

-- Where a thread comes to its end, once the event is set: by an exception only where it has met one,
-- or where the body that it is in raises one.
abbrev pub end_of_call : Outcome → Phase
end_of_call raises = raised
end_of_call other = ended

abbrev pub end_of : Phase → Outcome → Phase
end_of calling outcome = end_of_call outcome
end_of raised outcome = raised
end_of crashed outcome = crashed
end_of phase outcome = ended

abbrev pub end_at : Option Phase → Outcome → Option Phase
end_at none outcome = none
end_at (some phase) outcome = some (end_of phase outcome)

abbrev next_at : Option Phase → Outcome → Option Phase
next_at none outcome = none
next_at (some phase) outcome = some (next_phase phase outcome)

next_reconnect :
    (c : Client) (channel : Option ℕ)
    → is_some channel ≡ true
    → (reconnect c channel).thread ≡ some waiting
next_reconnect c none h = absurd (false≢true h)
next_reconnect c (some k) h = refl

next-run_at :
    (c : Client) (outcome : Outcome) (phase : Phase)
    → c.thread ≡ some phase
    → has_channel (some phase) c.channel ≡ true
    → c.stop_event ≡ true
    → (run_at c outcome phase).thread ≡ some (next_phase phase outcome)
next-run_at c outcome starting e there on = rw there refl
next-run_at c outcome testing e there on = rw on refl
next-run_at c rpc_error calling e there on =
    next_reconnect (record c { rounds = (heartbeat_round c.rounds rpc_error).0 }) c.channel there
next-run_at c (responded interval_ms) calling e there on = refl
next-run_at c raises calling e there on = refl
next-run_at c outcome waiting e there on = refl
next-run_at c outcome ended e there on = e
next-run_at c outcome raised e there on = e
next-run_at c outcome crashed e there on = e

next-run_by :
    (c : Client) (outcome : Outcome) (thread : Option Phase)
    → c.thread ≡ thread
    → has_channel thread c.channel ≡ true
    → c.stop_event ≡ true
    → (run_by c outcome thread).thread ≡ next_at thread outcome
next-run_by c outcome none e there on = e
next-run_by c outcome (some phase) e there on = next-run_at c outcome phase e there on

next-run_thread :
    (c : Client) (outcome : Outcome)
    → IsClean c
    → c.stop_event ≡ true
    → (run_thread c outcome).thread ≡ next_at c.thread outcome
unfolding run_thread
next-run_thread c outcome clean on = next-run_by c outcome c.thread refl clean.owned on

on_reconnect : (c : Client) (channel : Option ℕ) → (reconnect c channel).stop_event ≡ c.stop_event
on_reconnect c none = refl
on_reconnect c (some k) = refl

on-run_at :
    (c : Client) (outcome : Outcome) (phase : Phase)
    → (run_at c outcome phase).stop_event ≡ c.stop_event
on-run_at c outcome starting = refl
on-run_at c outcome testing = refl
on-run_at c rpc_error calling =
    on_reconnect (record c { rounds = (heartbeat_round c.rounds rpc_error).0 }) c.channel
on-run_at c (responded interval_ms) calling = refl
on-run_at c raises calling = refl
on-run_at c outcome waiting = refl
on-run_at c outcome ended = refl
on-run_at c outcome raised = refl
on-run_at c outcome crashed = refl

on-run_by :
    (c : Client) (outcome : Outcome) (thread : Option Phase)
    → (run_by c outcome thread).stop_event ≡ c.stop_event
on-run_by c outcome none = refl
on-run_by c outcome (some phase) = on-run_at c outcome phase

on-run_thread : (c : Client) (outcome : Outcome) → (run_thread c outcome).stop_event ≡ c.stop_event
unfolding run_thread
on-run_thread c outcome = on-run_by c outcome c.thread

-- Three steps are enough from any place.
end_lem :
    (thread : Option Phase) (first second third : Outcome)
    → next_at (next_at (next_at thread first) second) third ≡ end_at thread first
end_lem none first second third = refl
end_lem (some starting) first second third = refl
end_lem (some testing) first second third = refl
end_lem (some calling) raises second third = refl
end_lem (some calling) rpc_error second third = refl
end_lem (some calling) (responded interval_ms) second third = refl
end_lem (some waiting) first second third = refl
end_lem (some ended) first second third = refl
end_lem (some raised) first second third = refl
end_lem (some crashed) first second third = refl

not_running_call : (outcome : Outcome) → is_alive (end_of_call outcome) ≡ false
not_running_call raises = refl
not_running_call rpc_error = refl
not_running_call (responded interval_ms) = refl

not_running :
    (thread : Option Phase) (outcome : Outcome) → is_running_at (end_at thread outcome) ≡ false
not_running none outcome = refl
not_running (some calling) outcome = not_running_call outcome
not_running (some starting) outcome = refl
not_running (some testing) outcome = refl
not_running (some waiting) outcome = refl
not_running (some ended) outcome = refl
not_running (some raised) outcome = refl
not_running (some crashed) outcome = refl

-- The steps of the thread for some outcomes of its calls.
abbrev pub run_all : Client → List Outcome → Client
run_all c [] = c
run_all c (outcome ∷ outcomes) = run_all (run_thread c outcome) outcomes

-- Where a client is started only when it has no thread, and `stop` waits for its thread: once `stop` has
-- set the event, three more steps of the thread bring it to its end, whatever the calls on the way come
-- to. It ends behind its loop; by an exception only if one that is no `grpc.RpcError` had ended it
-- before, or is raised where it is in the body of the `try`, and never because its channel is gone. The
-- one channel that is open then is the client's own, however often failed calls have replaced it, and
-- `stop` returns with no channel of the client left open.
pub run_thread-IsReachable :
    {c : Client} (first second third : Outcome)
    → IsReachable c
    → c.stop_event ≡ true
    → ((run_all c (first ∷ second ∷ third ∷ [])).thread ≡ end_at c.thread first)
      × (is_running (run_all c (first ∷ second ∷ third ∷ [])) ≡ false)
      × IsClean (run_all c (first ∷ second ∷ third ∷ []))
      × ((stop_end (run_all c (first ∷ second ∷ third ∷ []))).open_channels ≡ [])
run_thread-IsReachable {c} first second third reached on =
    let clean = IsClean-IsReachable reached in
    let c1 = run_thread c first in
    let clean1 = IsClean-run_thread c first clean in
    let c2 = run_thread c1 second in
    let clean2 = IsClean-run_thread c1 second clean1 in
    let c3 = run_thread c2 third in
    let clean3 = IsClean-run_thread c2 third clean2 in
    let on1 = on-run_thread c first ∙ on in
    let on2 = on-run_thread c1 second ∙ on1 in
    let comes_to_end : c3.thread ≡ end_at c.thread first =
      next-run_thread c2 third clean2 on2
      ∙ ap (λ t. next_at t third) (next-run_thread c1 second clean1 on1)
      ∙ ap (λ t. next_at (next_at t second) third) (next-run_thread c first clean on)
      ∙ end_lem c.thread first second third in
    (
      comes_to_end,
      ap is_running_at comes_to_end ∙ not_running c.thread first,
      clean3,
      closed_all c3 clean3,
    )
