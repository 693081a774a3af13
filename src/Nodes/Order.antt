-- ===== src/Nodes/Order.antt =====
-- `list_nodes` and `reap_stale_nodes`: which nodes they list, and in which order.
use pi_ssm.Base.{
  ℕ, String, false, none, List, [], ◌∷◌, ◌++◌, ◌≡◌, refl, sym, arith, ◌==◌, eq_iff, if◌then◌else◌,
  keep_if, map, contains, ◌∙◌, Bool-cases, inl, inr,
}
use pi_ssm.Base.Dict
use pi_ssm.Base.Dict.{Dict, keys-put, contains-keys}
use pi_ssm.Nodes.{
  NodeInfo, NodeReport, NodeRegistry, timeout, fresh_info, update_node, list_nodes, is_stale,
  mark_unavailable, reap_each, reap_stale_nodes, Event, heartbeat, reap, handle, run, new_registry,
}

-- The node ids of a history in the order of their first heartbeats.
unfoldable pub arrivals : List Event → List String
arrivals [] = []
arrivals (heartbeat report now ∷ older) =
    let seen = arrivals older in
    if contains report.node_id seen then seen else seen ++ report.node_id ∷ []
arrivals (reap now ∷ older) = arrivals older

keys-reap_each :
    (now limit : ℕ) (d : Dict NodeInfo) → Dict.keys (reap_each now limit d).0 ≡ Dict.keys d
unfolding reap_each
keys-reap_each now limit [] = refl
keys-reap_each now limit ((k, node) ∷ d) = ground (arith, keys-reap_each now limit d)

keys-handle_heartbeat :
    (r : NodeRegistry) (report : NodeReport) (now : ℕ) (seen : List String)
    → Dict.keys r.nodes ≡ seen
    → Dict.keys (update_node r report now).nodes
      ≡ (if contains report.node_id seen then seen else seen ++ report.node_id ∷ [])
unfolding update_node
keys-handle_heartbeat r report now seen h = rw (← h, contains-keys) (keys-put r.nodes _ _)

keys-run :
    (interval threshold : ℕ) (history : List Event)
    → Dict.keys (run (new_registry interval threshold) history).nodes ≡ arrivals history
unfolding run handle arrivals reap_stale_nodes
keys-run interval threshold [] = refl
keys-run interval threshold (heartbeat report now ∷ older) =
    keys-handle_heartbeat (run (new_registry interval threshold) older) report now (arrivals older)
      (keys-run interval threshold older)
keys-run interval threshold (reap now ∷ older) =
    keys-reap_each _ _ _ ∙ keys-run interval threshold older

-- Every entry is stored under the id of its node.
abbrev pub IsKeyed : Dict NodeInfo → Type 0
IsKeyed [] = Unit
IsKeyed ((k, node) ∷ d) = (node.node_id ≡ k) × IsKeyed d

IsKeyed-put :
    (d : Dict NodeInfo) (node : NodeInfo) → IsKeyed d → IsKeyed (Dict.put d node.node_id node)
unfolding Dict.put
IsKeyed-put [] node h = (refl, tt)
IsKeyed-put ((k, old) ∷ d) node h = elim (Bool-cases (k == node.node_id)) [
  | inl same ↦ rw same (sym ((eq_iff k node.node_id).0 same), h.1)
  | inr other ↦ rw other (h.0, IsKeyed-put d node h.1)
]

IsKeyed-reap_each :
    (now limit : ℕ) (d : Dict NodeInfo) → IsKeyed d → IsKeyed (reap_each now limit d).0
unfolding reap_each
IsKeyed-reap_each now limit [] h = tt
IsKeyed-reap_each now limit ((k, node) ∷ d) h = elim (Bool-cases (is_stale now limit node)) [
  | inl stale ↦ rw stale (h.0, IsKeyed-reap_each now limit d h.1)
  | inr live ↦ rw live (h.0, IsKeyed-reap_each now limit d h.1)
]

pub IsKeyed-run :
    (interval threshold : ℕ) (history : List Event)
    → IsKeyed (run (new_registry interval threshold) history).nodes
unfolding run handle reap_stale_nodes update_node
IsKeyed-run interval threshold [] = tt
IsKeyed-run interval threshold (heartbeat report now ∷ older) =
    IsKeyed-put (run (new_registry interval threshold) older).nodes (fresh_info report now _)
      (IsKeyed-run interval threshold older)
IsKeyed-run interval threshold (reap now ∷ older) =
    IsKeyed-reap_each _ _ _ (IsKeyed-run interval threshold older)

ids-values : (d : Dict NodeInfo) → IsKeyed d → map (λ n. n.node_id) (Dict.values d) ≡ Dict.keys d
ids-values [] h = refl
ids-values ((k, node) ∷ d) h = cc (ids-values d h.1)

-- After any history of heartbeats and reaper cycles, `list_nodes` without a filter lists each node
-- that ever sent a heartbeat once, in the order of the first heartbeats.
pub list_nodes-run :
    (interval threshold : ℕ) (history : List Event)
    → map (λ n. n.node_id) (list_nodes (run (new_registry interval threshold) history) none)
      ≡ arrivals history
unfolding list_nodes
list_nodes-run interval threshold history =
    ids-values (run (new_registry interval threshold) history).nodes
      (IsKeyed-run interval threshold history)
    ∙ keys-run interval threshold history

-- The ids that a reaper cycle returns are those of the stale nodes, in order.
reaped_lem :
    (now limit : ℕ) (d : Dict NodeInfo)
    → (reap_each now limit d).1
      ≡ map (λ n. n.node_id) (keep_if (is_stale now limit) (Dict.values d))
unfolding reap_each
reaped_lem now limit [] = refl
reaped_lem now limit ((k, node) ∷ d) = ground (arith, reaped_lem now limit d)

is_stale-mark :
    (now limit : ℕ) (node : NodeInfo) → is_stale now limit (mark_unavailable node) ≡ false
unfolding is_stale
is_stale-mark now limit node = refl

reap_each_idem :
    (now limit : ℕ) (d : Dict NodeInfo)
    → reap_each now limit (reap_each now limit d).0 ≡ ((reap_each now limit d).0, [])
unfolding reap_each
reap_each_idem now limit [] = refl
reap_each_idem now limit ((k, node) ∷ d) =
    ground (arith, reap_each_idem now limit d, is_stale-mark now limit node)

-- A reaper cycle returns the ids of exactly the stale nodes, in the order of `list_nodes`, and a
-- second cycle at the same time changes nothing and returns none.
pub reap_stale_nodes_reaped :
    (r : NodeRegistry) (now : ℕ)
    → ((reap_stale_nodes r now).1
        ≡ map (λ n. n.node_id) (keep_if (is_stale now (timeout r)) (list_nodes r none)))
      × (reap_stale_nodes (reap_stale_nodes r now).0 now ≡ ((reap_stale_nodes r now).0, []))
unfolding reap_stale_nodes list_nodes
reap_stale_nodes_reaped r now =
    (reaped_lem now (timeout r) r.nodes, ground (arith, reap_each_idem now (timeout r) r.nodes))
