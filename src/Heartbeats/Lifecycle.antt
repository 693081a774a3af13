-- ===== src/Heartbeats/Lifecycle.antt =====
-- The life of a HeartbeatClient of worker/heartbeat.py: `start`, `stop`, `_reconnect`, and where the
-- thread of `_heartbeat_loop` stands. Channels are numbered in the order in which they are opened. The
-- caller is one thread that starts a client which is not running, and whose `stop` waits for the thread:
-- the timeout of its join is a second longer than that of a heartbeat.
pub mod Clean
pub mod Stopping
use pi_ssm.Base.{
  ℕ, ◌+◌, Bool, true, false, not, ◌-◌, ◌≤◌, Option, none, some, is_some, List, [], ◌∷◌, ◌≡◌, refl,
  ap, sym, ◌∙◌, eqb, if◌then◌else◌, arith, Bool-cases, inl, inr, false≢true,
}
use pi_ssm.Heartbeats.{HeartbeatClient, Outcome, responded, rpc_error, raises, heartbeat_round}

-- Where the thread stands: before its first stub, at the test of the loop, in the body of the `try`, in
-- the wait behind it, or at its end: behind the loop, by an exception of the body that is not caught,
-- or by one for a channel that is gone.
pub data Phase : Type 0 where
  starting testing calling waiting ended raised crashed : Phase

pub record Client : Type 0 where
  pub stop_event : Bool
  pub thread : Option Phase
  pub channel : Option ℕ
  pub open_channels : List ℕ
  pub next_channel : ℕ
  pub rounds : HeartbeatClient
  pub stopping : Bool

abbrev pub new_client : ℕ → Client
new_client interval_ms = record {
  stop_event = false;
  thread = none;
  channel = none;
  open_channels = [];
  next_channel = 0;
  rounds = record { interval_ms = interval_ms; consecutive_failures = 0 };
  stopping = false;
}

abbrev pub is_alive : Phase → Bool
is_alive ended = false
is_alive raised = false
is_alive crashed = false
is_alive other = true

abbrev pub is_running_at : Option Phase → Bool
is_running_at none = false
is_running_at (some phase) = is_alive phase

-- `is_running`
abbrev pub is_running : Client → Bool
is_running c = is_running_at c.thread

-- `grpc.insecure_channel`, kept in the client
abbrev pub open_channel : Client → Client
open_channel c = record c {
  channel = some c.next_channel;
  open_channels = c.next_channel ∷ c.open_channels;
  next_channel = c.next_channel + 1;
}

unfoldable pub close : ℕ → List ℕ → List ℕ
close k [] = []
close k (j ∷ channels) = let rest = close k channels in if eqb j k then rest else j ∷ rest

abbrev pub closed : Option ℕ → List ℕ → List ℕ
closed none channels = channels
closed (some k) channels = close k channels

abbrev pub stands_at : Client → Phase → Client
stands_at c phase = record c { thread = some phase }

-- `start`
unfoldable pub start : Client → Client
start c = stands_at (open_channel (record c { stop_event = false })) starting

-- `stop` up to its join
unfoldable pub stop : Client → Client
stop c = record c { stop_event = true; stopping = true }

-- `stop` behind its join
unfoldable pub stop_end : Client → Client
stop_end c = record c {
  thread = none;
  channel = none;
  open_channels = closed c.channel c.open_channels;
  stopping = false;
}

-- `_reconnect`, then the wait; a channel that is gone is an `AttributeError` in the thread.
abbrev pub reconnect : Client → Option ℕ → Client
reconnect c none = stands_at c crashed
reconnect c (some k) =
    stands_at (open_channel (record c { open_channels = close k c.open_channels })) waiting

abbrev pub called : Client → Outcome → Client
called c rpc_error = reconnect c c.channel
called c (responded interval_ms) = stands_at c waiting
called c raises = stands_at c raised

-- The next step of the thread, where `outcome` is what the body of the `try` would come to.
abbrev pub run_at : Client → Outcome → Phase → Client
run_at c outcome starting = stands_at c (if is_some c.channel then testing else crashed)
run_at c outcome testing = stands_at c (if c.stop_event then ended else calling)
run_at c outcome calling =
    called (record c { rounds = (heartbeat_round c.rounds outcome).0 }) outcome
run_at c outcome waiting = stands_at c testing
run_at c outcome ended = c
run_at c outcome raised = c
run_at c outcome crashed = c

abbrev pub run_by : Client → Outcome → Option Phase → Client
run_by c outcome none = c
run_by c outcome (some phase) = run_at c outcome phase

unfoldable pub run_thread : Client → Outcome → Client
run_thread c outcome = run_by c outcome c.thread

-- The caller's calls and the thread's steps, in any order that the caller and its join allow.
pub data Step : Client → Client → Type 0 where
  starts : (c : Client) → c.thread ≡ none → c.stopping ≡ false → Step c (start c)
  runs : (c : Client) (outcome : Outcome) → Step c (run_thread c outcome)
  stops : (c : Client) → c.stopping ≡ false → Step c (stop c)
  joins : (c : Client) → c.stopping ≡ true → is_running c ≡ false → Step c (stop_end c)

pub data IsReachable : Client → Type 0 where
  created : (interval_ms : ℕ) → IsReachable (new_client interval_ms)
  next : {c d : Client} → IsReachable c → Step c d → IsReachable d
