-- ===== src/Dispatch/Plan.antt =====
-- What `plan_dispatch` returns: a chain of workers whose layer ranges cover the model.
use pi_ssm.Base.{
  ℕ, suc, ◌+◌, ◌-◌, ◌≤◌, ◌<◌, String, Bool, true, false, some, List, [], ◌∷◌, ltb, eqb, length,
  get_elem?, ◌≡◌, ◌⊎◌, refl, ap, arith, All, ◌∙◌, map, eqb-ne, eqb_iff, Bool-cases, subst, inl, inr,
  ltb→lt,
}
use pi_ssm.Base.Decimal.{address}
use pi_ssm.Base.Result.{ok, raise}
use pi_ssm.Manifest.Defs.{Manifest}
use pi_ssm.Nodes.{NodeInfo, NodeRegistry, list_nodes}
use pi_ssm.Dispatch.{
  Fault, no_available_nodes, more_nodes_than_layers, ShardAssignment, DispatchPlan, split_layers,
  next_addr, assign_loop, plan_dispatch,
}
use pi_ssm.Dispatch.Ranges.{Tiles, split_layers-Tiles}

abbrev pub layer_range : ShardAssignment → ℕ × ℕ
layer_range a = (a.layer_start, a.layer_end)

-- Where a worker is reached.
abbrev pub endpoint : ShardAssignment → String × String × ℕ
endpoint a = (a.node_id, a.ip_address, a.inference_port)

abbrev pub node_endpoint : NodeInfo → String × String × ℕ
node_endpoint n = (n.node_id, n.ip_address, n.inference_port)

-- The address of the first worker of a chain, and the empty text where the chain has ended.
abbrev pub entry : List ShardAssignment → String
entry [] = ""
entry (a ∷ rest) = address a.ip_address a.inference_port

-- Each worker forwards to the one behind it, the last one to none.
abbrev pub Linked : List ShardAssignment → Type 0
Linked [] = Unit
Linked (a ∷ rest) = (a.next_worker_address ≡ entry rest) × Linked rest

-- The flags agree with the tests by which a worker computes them from its layer range.
abbrev pub Flagged : ℕ → List ShardAssignment → Type 0
Flagged total = All (λ a. (a.is_first ≡ eqb a.layer_start 0) × (a.is_last ≡ eqb a.layer_end total))

pub record IsChain (total : ℕ) (chain : List ShardAssignment) : Type 0 where
  pub tiles : Tiles 0 total (map layer_range chain)
  pub flagged : Flagged total chain
  pub linked : Linked chain

abbrev node_entry : List NodeInfo → String
node_entry [] = ""
node_entry (n ∷ rest) = address n.ip_address n.inference_port

abbrev is_nil : List NodeInfo → Bool
is_nil [] = true
is_nil (n ∷ rest) = false

-- The assignments with the indices gone.
assigned : Bool → List NodeInfo → List (ℕ × ℕ) → List ShardAssignment
assigned first [] ranges = []
assigned first (n ∷ rest) [] = []
assigned first (n ∷ rest) ((start, end) ∷ ranges) =
    record {
      node_id = n.node_id;
      ip_address = n.ip_address;
      inference_port = n.inference_port;
      layer_start = start;
      layer_end = end;
      is_first = first;
      is_last = is_nil rest;
      next_worker_address = node_entry rest;
    }
    ∷ assigned false rest ranges

next_addr_lem :
    (nodes : List NodeInfo) (i : ℕ) (n : NodeInfo) (rest : List NodeInfo)
    → length nodes ≡ i + suc (length rest)
    → ((k : ℕ) → get_elem? nodes (i + k) ≡ get_elem? (n ∷ rest) k)
    → (next_addr nodes i ≡ ok (node_entry rest)) × (eqb i (length nodes - 1) ≡ is_nil rest)
unfolding next_addr
next_addr_lem nodes i n [] len same =
    let e = (eqb_iff i (length nodes - 1)).1 (omega arith) in (rw e, e)
next_addr_lem nodes i n (m ∷ rest) len same =
    let e = eqb-ne i (length nodes - 1) (omega arith) in (rw (e, same 1), e)

assign_loop_lem :
    (nodes : List NodeInfo) (i : ℕ) (rest : List NodeInfo) (ranges : List (ℕ × ℕ))
    → length nodes ≡ i + length rest
    → ((k : ℕ) → get_elem? nodes (i + k) ≡ get_elem? rest k)
    → assign_loop nodes i rest ranges ≡ ok (assigned (eqb i 0) rest ranges)
unfolding assign_loop assigned
assign_loop_lem nodes i [] ranges len same = refl
assign_loop_lem nodes i (n ∷ rest) [] len same = refl
assign_loop_lem nodes i (n ∷ rest) ((start, end) ∷ ranges) len same =
    let (next, last) = next_addr_lem nodes i n rest len same in
    let ih =
      assign_loop_lem nodes (i + 1) rest ranges (omega arith)
        (λ k. ap (get_elem? nodes) (omega arith) ∙ same (suc k)) in
    rw (next, ih, last, eqb-ne (i + 1) 0 (omega arith))

Tiles-lt : (a b : ℕ) (r : ℕ × ℕ) (rs : List (ℕ × ℕ)) → Tiles a b (r ∷ rs) → a < b
Tiles-lt a b (s, e) [] t = omega arith
Tiles-lt a b (s, e) (r ∷ rs) t = omega (arith, Tiles-lt e b r rs t.2)

module _ (total : ℕ) where
  assigned_parts :
      (first : Bool) (a : ℕ) (nodes : List NodeInfo) (ranges : List (ℕ × ℕ))
      → length ranges ≡ length nodes
      → (map endpoint (assigned first nodes ranges) ≡ map node_endpoint nodes)
        × (map layer_range (assigned first nodes ranges) ≡ ranges)
        × (entry (assigned first nodes ranges) ≡ node_entry nodes)
        × Linked (assigned first nodes ranges)
  unfolding assigned
  assigned_parts first a [] [] len = (refl, refl, refl, tt)
  assigned_parts first a [] (r ∷ ranges) len = absurd (omega arith)
  assigned_parts first a (n ∷ nodes) [] len = absurd (omega arith)
  assigned_parts first a (n ∷ nodes) ((s, e) ∷ ranges) len =
      let (ends, rs, enter, link) = assigned_parts false e nodes ranges (omega arith) in
      (rw ends, rw rs, refl, (rw enter, link))

  assigned-Flagged :
      (first : Bool) (a : ℕ) (nodes : List NodeInfo) (ranges : List (ℕ × ℕ))
      → length ranges ≡ length nodes
      → first ≡ eqb a 0
      → Tiles a total ranges
      → Flagged total (assigned first nodes ranges)
  unfolding assigned
  assigned-Flagged first a [] ranges len h t = tt
  assigned-Flagged first a (n ∷ nodes) [] len h t = absurd (omega arith)
  assigned-Flagged first a (n ∷ []) ((s, e) ∷ []) len h t = (ground arith, tt)
  assigned-Flagged first a (n ∷ []) ((s, e) ∷ r ∷ ranges) len h t = absurd (omega arith)
  assigned-Flagged first a (n ∷ m ∷ nodes) ((s, e) ∷ []) len h t = absurd (omega arith)
  assigned-Flagged first a (n ∷ m ∷ nodes) ((s, e) ∷ r ∷ ranges) len h t = (
    ground (arith, Tiles-lt e total r ranges t.2),
    assigned-Flagged false e (m ∷ nodes) (r ∷ ranges) (omega arith) (ground arith) t.2,
  )

-- With at least one available node and no more of them than layers, `plan_dispatch` returns a plan for
-- the manifest's model that assigns the available nodes in the order of the registry. The layer ranges
-- are non-empty and run contiguously over all layers; each worker's next address is the address of the
-- worker behind it, and empty for the last; and the first and last flags are those that a worker
-- computes from its own range.
pub plan_dispatch-IsChain :
    (manifest : Manifest String ℕ) (registry : NodeRegistry)
    → 0 < length (list_nodes registry (some "available"))
    → length (list_nodes registry (some "available")) ≤ manifest.layers
    → (plan : DispatchPlan) × (plan_dispatch manifest registry ≡ ok plan)
      × (map endpoint plan.assignments ≡ map node_endpoint (list_nodes registry (some "available")))
      × IsChain manifest.layers plan.assignments
      × (plan.model_name ≡ manifest.name)
      × (plan.checkpoint ≡ manifest.checkpoint)
      × (plan.arch ≡ manifest.arch)
      × (plan.total_layers ≡ manifest.layers)
unfolding plan_dispatch
plan_dispatch-IsChain manifest registry pos le =
    let nodes = list_nodes registry (some "available") in
    let total = manifest.layers in
    let (ranges, split, len, tiles, shares) = split_layers-Tiles total (length nodes) pos le in
    let (ends, rs, enter, link) = assigned_parts total true 0 nodes ranges len in
    (
      record {
        assignments = assigned true nodes ranges;
        arch = manifest.arch;
        model_name = manifest.name;
        checkpoint = manifest.checkpoint;
        total_layers = total;
      },
      rw (
        eqb-ne (length nodes) 0 (omega arith),
        split,
        assign_loop_lem nodes 0 nodes ranges (omega arith)
            (λ k. ap (get_elem? nodes) (omega arith)),
      ),
      ends,
      record {
        tiles = rw rs tiles;
        flagged = assigned-Flagged total true 0 nodes ranges len refl tiles;
        linked = link;
      },
      refl,
      refl,
      refl,
      refl,
    )

nil_of_length : {A : Type 0} (xs : List A) → length xs ≡ 0 → xs ≡ []
nil_of_length [] h = refl
nil_of_length (x ∷ xs) h = absurd (omega arith)

plan_dispatch_none :
    (manifest : Manifest String ℕ) (registry : NodeRegistry)
    → eqb (length (list_nodes registry (some "available"))) 0 ≡ true
    → plan_dispatch manifest registry ≡ raise no_available_nodes
unfolding plan_dispatch
plan_dispatch_none manifest registry h = rw h

plan_dispatch_more :
    (manifest : Manifest String ℕ) (registry : NodeRegistry)
    → eqb (length (list_nodes registry (some "available"))) 0 ≡ false
    → ltb manifest.layers (length (list_nodes registry (some "available"))) ≡ true
    → plan_dispatch manifest registry
      ≡ raise
          (more_nodes_than_layers (length (list_nodes registry (some "available"))) manifest.layers)
unfolding plan_dispatch split_layers
plan_dispatch_more manifest registry h k = rw (h, k)

-- `plan_dispatch` raises only `DispatchError`, for no available node at all and for more available
-- nodes than layers.
pub plan_dispatch_fault :
    (manifest : Manifest String ℕ) (registry : NodeRegistry) (fault : Fault)
    → plan_dispatch manifest registry ≡ raise fault
    → (fault ≡ no_available_nodes) × (list_nodes registry (some "available") ≡ [])
      ⊎ (fault
          ≡ more_nodes_than_layers
              (length (list_nodes registry (some "available")))
              manifest.layers)
        × (manifest.layers < length (list_nodes registry (some "available")))
plan_dispatch_fault manifest registry fault h =
    let nodes = list_nodes registry (some "available") in
    elim (Bool-cases (eqb (length nodes) 0)) [
      | inl none_left ↦
          let e = plan_dispatch_none manifest registry none_left in
          inl (cc, nil_of_length nodes ((eqb_iff (length nodes) 0).0 none_left))
      | inr some_left ↦ elim (Bool-cases (ltb manifest.layers (length nodes))) [
        | inl over ↦
            let e = plan_dispatch_more manifest registry some_left over in inr (cc, ltb→lt _ _ over)
        | inr fits ↦
            let (plan, e, _, _, _, _, _, _) =
              plan_dispatch-IsChain manifest registry (ground arith) (ground arith) in
            absurd (cc)
      ]
    ]

-- The same of a plan that `plan_dispatch` has returned.
pub plan_dispatch-ok :
    (manifest : Manifest String ℕ) (registry : NodeRegistry) (plan : DispatchPlan)
    → plan_dispatch manifest registry ≡ ok plan
    → IsChain manifest.layers plan.assignments
      × (plan.arch ≡ manifest.arch)
      × (plan.total_layers ≡ manifest.layers)
plan_dispatch-ok manifest registry plan h =
    let nodes = list_nodes registry (some "available") in
    elim (Bool-cases (eqb (length nodes) 0)) [
      | inl none_left ↦ let e = plan_dispatch_none manifest registry none_left in absurd (cc)
      | inr some_left ↦ elim (Bool-cases (ltb manifest.layers (length nodes))) [
        | inl over ↦ let e = plan_dispatch_more manifest registry some_left over in absurd (cc)
        | inr fits ↦
            let (planned, e, _, chain, _, _, arch, layers) =
              plan_dispatch-IsChain manifest registry (ground arith) (ground arith) in
            let same : planned ≡ plan = cc in
            (
              subst (λ (q : DispatchPlan). IsChain manifest.layers q.assignments) same chain,
              subst (λ (q : DispatchPlan). q.arch ≡ manifest.arch) same arch,
              subst (λ (q : DispatchPlan). q.total_layers ≡ manifest.layers) same layers,
            )
      ]
    ]
