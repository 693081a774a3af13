-- ===== src/Pipeline/Loading/Collected.antt =====
-- The slots of a load: created, filled by the workers' reports, and waited for.
use pi_ssm.Base.{
  ℕ, Option, none, some, String, true, false, List, [], ◌∷◌, ◌≡◌, refl, ap, sym, ◌∙◌, arith, ◌==◌,
  contains, map, concat, eq_iff, Bool-cases, false≢true, inl, inr,
}
use text.Mathlib.TextLemmas.{append_cancel_left, append_cancel_right}
use pi_ssm.Base.Dict
use pi_ssm.Base.Entries.{AreApart}
use pi_ssm.Base.Result.{ok}
use pi_ssm.Dispatch.{ShardAssignment}
use pi_ssm.Results.{ResultStore, create_slot, deliver}
use pi_ssm.Results.Slots.{
  IsOpen, IsFilled, IsOpen-create_slot, IsOpen-create_slot_other, IsFilled-deliver, IsOpen-deliver,
  IsFilled-deliver_other, wait-IsFilled, IsFilled-remove,
}
use pi_ssm.Worker.Loading.Names.{IsDistinct}
use pi_ssm.Pipeline.Loading.{
  ShardReadyResult, shard_ready_key, create_slots, unbounded, load_wait, collect_loop,
}

-- The assignments with the results that their workers report.
abbrev pub Crew : Type 0
Crew = List (ShardAssignment × ShardReadyResult)

abbrev pub fills : String → Crew → List (String × ShardReadyResult)
fills name = map (λ c. (shard_ready_key name c.0.node_id, c.1))

abbrev pub AllOpen : ResultStore ShardReadyResult → List (String × ShardReadyResult) → Type 0
AllOpen s [] = Unit
AllOpen s ((k, r) ∷ rest) = IsOpen s k × AllOpen s rest

abbrev pub AllFilled : ResultStore ShardReadyResult → List (String × ShardReadyResult) → Type 0
AllFilled s [] = Unit
AllFilled s ((k, r) ∷ rest) = IsFilled s k r × AllFilled s rest

abbrev pub deliver_each :
    ResultStore ShardReadyResult → List (String × ShardReadyResult) → ResultStore ShardReadyResult
deliver_each s [] = s
deliver_each s ((k, r) ∷ rest) = deliver_each (deliver s k r).0 rest

-- Two names that differ, from a list that lacks one of them.
differ :
    (j k : String) (ks : List String)
    → contains k (j ∷ ks) ≡ false
    → ((k == j) ≡ false) × ((j == k) ≡ false) × (contains k ks ≡ false)
differ j k ks h = (ground (arith, eq_iff k j, eq_iff j k), ground arith, ground arith)

IsOpen-create_slots :
    (s : ResultStore ShardReadyResult) (name : String) (crew : Crew) (k : String)
    → contains k (map (λ e. e.0) (fills name crew)) ≡ false
    → IsOpen s k
    → IsOpen (create_slots s name (map (λ c. c.0) crew)) k
IsOpen-create_slots s name [] k absent h = h
IsOpen-create_slots s name ((a, r) ∷ crew) k absent h =
    let j = shard_ready_key name a.node_id in
    let (_, other, rest) = differ j k (map (λ e. e.0) (fills name crew)) absent in
    IsOpen-create_slots (create_slot s j) name crew k rest (IsOpen-create_slot_other s j k other h)

pub AllOpen-create_slots :
    (s : ResultStore ShardReadyResult) (name : String) (crew : Crew)
    → AreApart (fills name crew)
    → AllOpen (create_slots s name (map (λ c. c.0) crew)) (fills name crew)
AllOpen-create_slots s name [] apart = tt
AllOpen-create_slots s name ((a, r) ∷ crew) apart =
    let k = shard_ready_key name a.node_id in
    (
      IsOpen-create_slots (create_slot s k) name crew k apart.0 (IsOpen-create_slot s k),
      AllOpen-create_slots (create_slot s k) name crew apart.1,
    )

AllOpen-deliver :
    (s : ResultStore ShardReadyResult) (k : String) (r : ShardReadyResult)
    (entries : List (String × ShardReadyResult))
    → contains k (map (λ e. e.0) entries) ≡ false
    → IsOpen s k
    → AllOpen s entries
    → AllOpen (deliver s k r).0 entries
AllOpen-deliver s k r [] absent here h = tt
AllOpen-deliver s k r ((j, v) ∷ entries) absent here h =
    let (other, _, rest) = differ j k (map (λ e. e.0) entries) absent in
    (IsOpen-deliver s k j r other here h.0, AllOpen-deliver s k r entries rest here h.1)

IsFilled-deliver_each :
    (s : ResultStore ShardReadyResult) (k : String) (r : ShardReadyResult)
    (entries : List (String × ShardReadyResult))
    → contains k (map (λ e. e.0) entries) ≡ false
    → AreApart entries
    → AllOpen s entries
    → IsFilled s k r
    → IsFilled (deliver_each s entries) k r
IsFilled-deliver_each s k r [] absent apart opened h = h
IsFilled-deliver_each s k r ((j, v) ∷ entries) absent apart opened h =
    let (_, other, rest) = differ j k (map (λ e. e.0) entries) absent in
    IsFilled-deliver_each (deliver s j v).0 k r entries rest apart.1
      (AllOpen-deliver s j v entries apart.0 opened.0 opened.1)
      (IsFilled-deliver_other s j k v r other opened.0 h)

pub AllFilled-deliver_each :
    (s : ResultStore ShardReadyResult) (entries : List (String × ShardReadyResult))
    → AreApart entries
    → AllOpen s entries
    → AllFilled (deliver_each s entries) entries
AllFilled-deliver_each s [] apart opened = tt
AllFilled-deliver_each s ((k, r) ∷ entries) apart opened =
    let still = AllOpen-deliver s k r entries apart.0 opened.0 opened.1 in
    (
      IsFilled-deliver_each (deliver s k r).0 k r entries apart.0 apart.1 still
          (IsFilled-deliver s k r opened.0),
      AllFilled-deliver_each (deliver s k r).0 entries apart.1 still,
    )

AllFilled-remove :
    (s : ResultStore ShardReadyResult) (k : String) (entries : List (String × ShardReadyResult))
    → contains k (map (λ e. e.0) entries) ≡ false
    → AllFilled s entries
    → AllFilled (record s { slots = Dict.remove s.slots k }) entries
AllFilled-remove s k [] absent h = tt
AllFilled-remove s k ((j, v) ∷ entries) absent h =
    let (other, _, rest) = differ j k (map (λ e. e.0) entries) absent in
    (IsFilled-remove s k j v other h.0, AllFilled-remove s k entries rest h.1)

abbrev pub AllSucceeded : Crew → Type 0
AllSucceeded [] = Unit
AllSucceeded ((a, r) ∷ crew) = (r.success ≡ true) × AllSucceeded crew

-- With a report that is there, a wait ends whether or not it has a timeout.
load_wait-IsFilled :
    (load_timeout_s : Option ℕ) (s : ResultStore ShardReadyResult) (k : String)
    (r : ShardReadyResult)
    → IsFilled s k r
    → load_wait load_timeout_s s k
      ≡ (record s { slots = Dict.remove s.slots k }, some (ok (some r)))
load_wait-IsFilled none s k r filled = ap (unbounded s) (wait-IsFilled s k r filled)
load_wait-IsFilled (some load_timeout_s) s k r filled = rw (wait-IsFilled s k r filled) refl

-- Where every worker has reported success, the waits end without an exception.
pub collect_loop_lem :
    (load_timeout_s : Option ℕ) (s : ResultStore ShardReadyResult) (name : String) (crew : Crew)
    → AreApart (fills name crew)
    → AllFilled s (fills name crew)
    → AllSucceeded crew
    → (collect_loop load_timeout_s name (map (λ c. c.0) crew) s).1 ≡ some (ok tt)
unfolding collect_loop
collect_loop_lem load_timeout_s s name [] apart filled good = refl
collect_loop_lem load_timeout_s s name ((a, r) ∷ crew) apart filled good =
    let k = shard_ready_key name a.node_id in
    let after = record s { slots = Dict.remove s.slots k } in
    rw (load_wait-IsFilled load_timeout_s s k r filled.0, good.0)
      (collect_loop_lem load_timeout_s after name crew apart.1
        (AllFilled-remove s k (fills name crew) apart.0 filled.1) good.1)

key_cancel : (name i j : String) → shard_ready_key name i ≡ shard_ready_key name j → i ≡ j
key_cancel name i j e = append_cancel_right i j "" (
    append_cancel_left ":" (concat (i ∷ [])) (concat (j ∷ [])) (
      append_cancel_left name (concat (":" ∷ i ∷ [])) (concat (":" ∷ j ∷ [])) (
        append_cancel_left "shard:" (concat (name ∷ ":" ∷ i ∷ [])) (concat (name ∷ ":" ∷ j ∷ []))
          e)))

-- The keys of two workers are the same exactly if their ids are.
key_iff : (name i j : String) → (shard_ready_key name i == shard_ready_key name j) ≡ (i == j)
key_iff name i j = elim (Bool-cases (i == j)) [
  | inl same ↦ (eq_iff _ _).1 (ap (shard_ready_key name) ((eq_iff i j).0 same)) ∙ sym same
  | inr other ↦ elim (Bool-cases (shard_ready_key name i == shard_ready_key name j)) [
    | inl same ↦
        let e = (eq_iff i j).1 (key_cancel name i j ((eq_iff _ _).0 same)) in
        absurd (false≢true (sym other ∙ e))
    | inr differs ↦ differs ∙ sym other
  ]
]

contains-keys :
    (name i : String) (crew : Crew)
    → contains (shard_ready_key name i) (map (λ e. e.0) (fills name crew))
      ≡ contains i (map (λ c. c.0.node_id) crew)
contains-keys name i [] = refl
contains-keys name i ((a, r) ∷ crew) = rw (key_iff name a.node_id i, contains-keys name i crew) refl

-- Workers with distinct ids have distinct keys.
pub AreApart-fills :
    (name : String) (crew : Crew)
    → IsDistinct (map (λ c. c.0.node_id) crew)
    → AreApart (fills name crew)
AreApart-fills name [] distinct = tt
AreApart-fills name ((a, r) ∷ crew) distinct =
    (contains-keys name a.node_id crew ∙ distinct.0, AreApart-fills name crew distinct.1)
