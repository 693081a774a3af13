-- ===== src/Nodes/Freshness.antt =====
-- The registry against its history: which status, heartbeat time and first-seen time a node has.
use pi_ssm.Base.{
  ℕ, ◌-◌, String, Bool, true, false, ◌||◌, Option, none, some, List, [], ◌∷◌, ◌≡◌, refl, arith, ltb,
  ◌==◌, eq_iff, if◌then◌else◌, ◌*◌, ◌∙◌,
}
use pi_ssm.Base.Dict
use pi_ssm.Base.Dict.{Dict, get-put}
use pi_ssm.Nodes.{
  NodeInfo, NodeReport, NodeRegistry, timeout, first_seen, fresh_info, update_node, get_node,
  is_stale, mark_unavailable, reap_each, reap_stale_nodes, Event, heartbeat, reap, handle, run,
  new_registry,
}

-- `get_node` after a heartbeat: the reporting node is available with the new data and keeps its
-- first-seen time, every other node is as before.
pub get_node-update_node :
    (r : NodeRegistry) (report : NodeReport) (now : ℕ) (j : String)
    → get_node (update_node r report now) j ≡ (
        if report.node_id == j
        then some (fresh_info report now (first_seen (get_node r j) now))
        else get_node r j)
unfolding get_node update_node
get_node-update_node r report now j = ground (
  arith,
  eq_iff report.node_id j,
  get-put r.nodes report.node_id j
      (fresh_info report now (first_seen (Dict.get r.nodes report.node_id) now)),
)

abbrev pub aged : ℕ → ℕ → Option NodeInfo → Option NodeInfo
aged now limit none = none
aged now limit (some node) = some (if is_stale now limit node then mark_unavailable node else node)

get-reap_each :
    (now limit : ℕ) (d : Dict NodeInfo) (j : String)
    → Dict.get (reap_each now limit d).0 j ≡ aged now limit (Dict.get d j)
unfolding reap_each Dict.get
get-reap_each now limit [] j = refl
get-reap_each now limit ((k, node) ∷ d) j = ground (arith, get-reap_each now limit d j)

pub get_node-reap :
    (r : NodeRegistry) (now : ℕ) (j : String)
    → get_node (reap_stale_nodes r now).0 j ≡ aged now (timeout r) (get_node r j)
unfolding get_node reap_stale_nodes
get_node-reap r now j = get-reap_each now (timeout r) r.nodes j

timeout-handle : (r : NodeRegistry) (event : Event) → timeout (handle r event) ≡ timeout r
unfolding handle update_node reap_stale_nodes
timeout-handle r (heartbeat report now) = refl
timeout-handle r (reap now) = refl

pub timeout-run : (r : NodeRegistry) (history : List Event) → timeout (run r history) ≡ timeout r
unfolding run
timeout-run r [] = refl
timeout-run r (event ∷ older) = timeout-handle (run r older) event ∙ timeout-run r older

-- What a history says of one node, read off without a registry: its first and last heartbeat, the
-- last report, and the reaper cycles since.
pub record Trace : Type 0 where
  pub first : ℕ
  pub last : ℕ
  pub report : NodeReport
  pub reaps : List ℕ

unfoldable pub beat : NodeReport → ℕ → Option Trace → Trace
beat report now none = record { first = now; last = now; report = report; reaps = [] }
beat report now (some t) = record { first = t.first; last = now; report = report; reaps = [] }

unfoldable pub cycle : ℕ → Option Trace → Option Trace
cycle now none = none
cycle now (some t) = some (record t { reaps = now ∷ t.reaps })

unfoldable pub trace : String → List Event → Option Trace
trace j [] = none
trace j (heartbeat report now ∷ older) =
    if report.node_id == j then some (beat report now (trace j older)) else trace j older
trace j (reap now ∷ older) = cycle now (trace j older)

-- Some cycle came more than the timeout after the last heartbeat.
unfoldable pub missed : ℕ → ℕ → List ℕ → Bool
missed limit last [] = false
missed limit last (now ∷ reaps) = ltb limit (now - last) || missed limit last reaps

unfoldable pub view_of : ℕ → Option Trace → Option NodeInfo
view_of limit none = none
view_of limit (some t) = some (record (fresh_info t.report t.last t.first) {
  status = if missed limit t.last t.reaps then "unavailable" else "available";
})

view_of-beat :
    (limit : ℕ) (report : NodeReport) (now : ℕ) (o : Option Trace)
    → some (fresh_info report now (first_seen (view_of limit o) now))
      ≡ view_of limit (some (beat report now o))
unfolding view_of beat missed
view_of-beat limit report now none = refl
view_of-beat limit report now (some t) = refl

abbrev status_if : Bool → String
status_if late = if late then "unavailable" else "available"

aged_status :
    (limit now : ℕ) (info : NodeInfo) (late : Bool)
    → aged now limit (some (record info { status = status_if late }))
      ≡ some (record info { status = status_if (ltb limit (now - info.last_heartbeat) || late) })
unfolding is_stale
aged_status limit now info true = ground arith
aged_status limit now info false = ground arith

view_of-cycle :
    (limit now : ℕ) (o : Option Trace)
    → aged now limit (view_of limit o) ≡ view_of limit (cycle now o)
unfolding view_of cycle missed
view_of-cycle limit now none = refl
view_of-cycle limit now (some t) =
    aged_status limit now (fresh_info t.report t.last t.first) (missed limit t.last t.reaps)

view_of-if :
    (limit : ℕ) (b : Bool) (x y : Option Trace)
    → (if b then view_of limit x else view_of limit y) ≡ view_of limit (if b then x else y)
view_of-if limit true x y = refl
view_of-if limit false x y = refl

-- After any history of heartbeats and reaper cycles, from an empty registry, a node is known exactly
-- if it has sent a heartbeat; it carries the data of its last report, the time of its last and of its
-- first heartbeat, and it is unavailable exactly if some reaper cycle since its last heartbeat came
-- more than the timeout after it.
pub get_node-run :
    (interval threshold : ℕ) (history : List Event) (j : String)
    → get_node (run (new_registry interval threshold) history) j
      ≡ view_of (interval * threshold) (trace j history)
unfolding run trace handle
get_node-run interval threshold [] j = unfold get_node Dict.get view_of in refl
get_node-run interval threshold (heartbeat report now ∷ older) j =
    let r = run (new_registry interval threshold) older in
    let limit = interval * threshold in
    rw
      (
        get_node-update_node r report now j,
        get_node-run interval threshold older j,
        view_of-beat limit report now (trace j older),
      )
      (view_of-if limit (report.node_id == j) (some (beat report now (trace j older)))
        (trace j older))
get_node-run interval threshold (reap now ∷ older) j =
    let r = run (new_registry interval threshold) older in
    rw
      (
        get_node-reap r now j,
        get_node-run interval threshold older j,
        timeout-run (new_registry interval threshold) older,
      )
      (view_of-cycle (interval * threshold) now (trace j older))
