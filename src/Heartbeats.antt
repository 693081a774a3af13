-- ===== src/Heartbeats.antt =====
-- `HeartbeatClient._heartbeat_loop` of worker/heartbeat.py: what its rounds log, and how they keep the
-- interval. Intervals are in milliseconds. Its thread and its channels are in Heartbeats.Lifecycle; the
-- readings of the machine that a request carries are not modelled, only that they may raise.
pub mod Lifecycle
use pi_ssm.Base.{
  ℕ, zero, suc, ◌+◌, Bool, true, false, ◌&&◌, not, Option, none, some, List, [], ◌∷◌, ◌++◌, ◌≡◌,
  refl, ap, ◌∙◌, arith, eqb, ltb, if◌then◌else◌,
}

-- The messages of the loop, with their numbers.
pub data Log : Type 0 where
  adjusted : ℕ → Log
  recovered : ℕ → Log
  sent : Log
  failed : Log
  still_failing : ℕ → Log

pub record HeartbeatClient : Type 0 where
  pub interval_ms : ℕ
  pub consecutive_failures : ℕ

abbrev pub adjusts : HeartbeatClient → ℕ → Bool
adjusts c interval_ms = ltb 0 interval_ms && not (eqb interval_ms c.interval_ms)

-- What the body of the `try` comes to: a response with its interval, a `grpc.RpcError`, or any other
-- exception, such as an `OSError` of `get_ip_address`, which is not caught.
pub data Outcome : Type 0 where
  responded : ℕ → Outcome
  rpc_error raises : Outcome

-- One round of the loop, with the messages that it logs.
unfoldable pub heartbeat_round : HeartbeatClient → Outcome → HeartbeatClient × List Log
heartbeat_round c (responded interval_ms) = (
  record {
    interval_ms = if adjusts c interval_ms then interval_ms else c.interval_ms;
    consecutive_failures = 0;
  },
  (if adjusts c interval_ms then adjusted interval_ms ∷ [] else [])
      ++ (if ltb 0 c.consecutive_failures then recovered c.consecutive_failures ∷ [] else [])
      ++ sent ∷ [],
)
heartbeat_round c rpc_error =
    let failures = c.consecutive_failures + 1 in
    (
      record c { consecutive_failures = failures },
      if eqb failures 1 then failed ∷ [] else still_failing failures ∷ [],
    )
heartbeat_round c raises = (c, [])

-- The loop over the outcomes of its rounds, the oldest first; an exception that is not caught ends it.
unfoldable pub heartbeat_loop : HeartbeatClient → List Outcome → HeartbeatClient × List Log
heartbeat_loop c [] = (c, [])
heartbeat_loop c (raises ∷ rest) = heartbeat_round c raises
heartbeat_loop c (outcome ∷ rest) =
    let (after, logs) = heartbeat_round c outcome in
    let (end, others) = heartbeat_loop after rest in (end, logs ++ others)

-- How many outages begin and end in a list of outcomes, up to one that ends the loop; `down` tells
-- whether one is under way.
unfoldable pub outages : Bool → List Outcome → ℕ
outages down [] = 0
outages down (raises ∷ rest) = 0
outages down (rpc_error ∷ rest) = (if down then 0 else 1) + outages true rest
outages down (responded interval_ms ∷ rest) = outages false rest

unfoldable pub recoveries : Bool → List Outcome → ℕ
recoveries down [] = 0
recoveries down (raises ∷ rest) = 0
recoveries down (rpc_error ∷ rest) = recoveries true rest
recoveries down (responded interval_ms ∷ rest) = (if down then 1 else 0) + recoveries false rest

-- The last interval that a response gave, the first one where none did.
unfoldable pub last_interval : ℕ → List Outcome → ℕ
last_interval interval_ms [] = interval_ms
last_interval interval_ms (raises ∷ rest) = interval_ms
last_interval interval_ms (rpc_error ∷ rest) = last_interval interval_ms rest
last_interval interval_ms (responded given ∷ rest) =
    last_interval (if ltb 0 given then given else interval_ms) rest

abbrev pub is_failed : Log → ℕ
is_failed failed = 1
is_failed other = 0

abbrev pub is_recovered : Log → ℕ
is_recovered (recovered n) = 1
is_recovered other = 0

abbrev pub total : (Log → ℕ) → List Log → ℕ
total f [] = 0
total f (log ∷ logs) = f log + total f logs

total-append : (f : Log → ℕ) (xs ys : List Log) → total f (xs ++ ys) ≡ total f xs + total f ys
total-append f [] ys = omega arith
total-append f (log ∷ xs) ys = omega (arith, total-append f xs ys)

-- The messages of a response's round.
abbrev answered : Bool → Bool → ℕ → ℕ → List Log
answered adjusting recovering m n =
    (if adjusting then adjusted m ∷ [] else [])
    ++ (if recovering then recovered n ∷ [] else [])
    ++ sent ∷ []

answered_failed : (a b : Bool) (m n : ℕ) → total is_failed (answered a b m n) ≡ 0
answered_failed false false m n = refl
answered_failed false true m n = refl
answered_failed true false m n = refl
answered_failed true true m n = refl

answered_recovered :
    (a b : Bool) (m n : ℕ) → total is_recovered (answered a b m n) ≡ (if b then 1 else 0)
answered_recovered false false m n = refl
answered_recovered false true m n = refl
answered_recovered true false m n = refl
answered_recovered true true m n = refl

unanswered :
    (failures : ℕ)
    → total is_failed
        (if eqb (failures + 1) 1 then failed ∷ [] else still_failing (failures + 1) ∷ [])
      ≡ (if ltb 0 failures then 0 else 1)
unanswered zero = refl
unanswered (suc failures) = ground arith

unanswered_recovered :
    (b : Bool) (n : ℕ) → total is_recovered (if b then failed ∷ [] else still_failing n ∷ []) ≡ 0
unanswered_recovered true n = refl
unanswered_recovered false n = refl

next_down : (failures : ℕ) → ltb 0 (failures + 1) ≡ true
next_down failures = ground arith

interval_adjusts :
    (c : HeartbeatClient) (given : ℕ)
    → (if adjusts c given then given else c.interval_ms)
      ≡ (if ltb 0 given then given else c.interval_ms)
interval_adjusts c given = ground arith

both : {m n k l : ℕ} → m ≡ n → k ≡ l → m + k ≡ n + l
both p q = omega (arith, p, q)

both_zero : {m k l : ℕ} → m ≡ 0 → k ≡ l → m + k ≡ l
both_zero p q = omega (arith, p, q)

abbrev after_failure : HeartbeatClient → HeartbeatClient
after_failure c = record c { consecutive_failures = c.consecutive_failures + 1 }

abbrev after_response : HeartbeatClient → ℕ → HeartbeatClient
after_response c given = record {
  interval_ms = if adjusts c given then given else c.interval_ms;
  consecutive_failures = 0;
}

loop_failed :
    (c : HeartbeatClient) (outcomes : List Outcome)
    → total is_failed (heartbeat_loop c outcomes).1
      ≡ outages (ltb 0 c.consecutive_failures) outcomes
unfolding heartbeat_loop outages heartbeat_round
loop_failed c [] = refl
loop_failed c (raises ∷ rest) = refl
loop_failed c (rpc_error ∷ rest) =
    total-append is_failed
      (if eqb (c.consecutive_failures + 1) 1
        then failed ∷ []
        else still_failing (c.consecutive_failures + 1) ∷ [])
      (heartbeat_loop (after_failure c) rest).1
    ∙ both (unanswered c.consecutive_failures) (
        loop_failed (after_failure c) rest
        ∙ ap (λ down. outages down rest) (next_down c.consecutive_failures))
loop_failed c (responded given ∷ rest) =
    let recovering = ltb 0 c.consecutive_failures in
    total-append is_failed (answered (adjusts c given) recovering given c.consecutive_failures)
      (heartbeat_loop (after_response c given) rest).1
    ∙ both_zero (answered_failed (adjusts c given) recovering given c.consecutive_failures)
        (loop_failed (after_response c given) rest)

loop_recovered :
    (c : HeartbeatClient) (outcomes : List Outcome)
    → total is_recovered (heartbeat_loop c outcomes).1
      ≡ recoveries (ltb 0 c.consecutive_failures) outcomes
unfolding heartbeat_loop recoveries heartbeat_round
loop_recovered c [] = refl
loop_recovered c (raises ∷ rest) = refl
loop_recovered c (rpc_error ∷ rest) =
    let failures = c.consecutive_failures + 1 in
    total-append is_recovered (if eqb failures 1 then failed ∷ [] else still_failing failures ∷ [])
      (heartbeat_loop (after_failure c) rest).1
    ∙ both_zero (unanswered_recovered (eqb failures 1) failures) (
        loop_recovered (after_failure c) rest
        ∙ ap (λ down. recoveries down rest) (next_down c.consecutive_failures))
loop_recovered c (responded given ∷ rest) =
    let recovering = ltb 0 c.consecutive_failures in
    total-append is_recovered (answered (adjusts c given) recovering given c.consecutive_failures)
      (heartbeat_loop (after_response c given) rest).1
    ∙ both (answered_recovered (adjusts c given) recovering given c.consecutive_failures)
        (loop_recovered (after_response c given) rest)

loop_interval :
    (c : HeartbeatClient) (outcomes : List Outcome)
    → (heartbeat_loop c outcomes).0.interval_ms ≡ last_interval c.interval_ms outcomes
unfolding heartbeat_loop last_interval heartbeat_round
loop_interval c [] = refl
loop_interval c (raises ∷ rest) = refl
loop_interval c (rpc_error ∷ rest) =
    loop_interval (record c { consecutive_failures = c.consecutive_failures + 1 }) rest
loop_interval c (responded given ∷ rest) =
    loop_interval
      record {
        interval_ms = if adjusts c given then given else c.interval_ms;
        consecutive_failures = 0;
      }
      rest
    ∙ ap (λ interval_ms. last_interval interval_ms rest) (interval_adjusts c given)

-- Whatever the outcomes of its rounds, up to the first exception that is no `grpc.RpcError`, which ends
-- the loop: the loop warns of a failure once for every outage that begins in them and tells of a
-- recovery once for every outage that ends in them; and its interval is at the end the last positive
-- one that a response gave, or the first one where no response gave one.
pub heartbeat_loop-logs :
    (c : HeartbeatClient) (outcomes : List Outcome)
    → (total is_failed (heartbeat_loop c outcomes).1
        ≡ outages (ltb 0 c.consecutive_failures) outcomes)
      × (total is_recovered (heartbeat_loop c outcomes).1
          ≡ recoveries (ltb 0 c.consecutive_failures) outcomes)
      × ((heartbeat_loop c outcomes).0.interval_ms ≡ last_interval c.interval_ms outcomes)
heartbeat_loop-logs c outcomes =
    (loop_failed c outcomes, loop_recovered c outcomes, loop_interval c outcomes)
