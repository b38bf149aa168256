-- ===== src/Master/Health.antt =====
-- internal/master/master.go: what the check of the heartbeats does to the nodes.
use lumeo_fs.Base.{
  ℕ, ◌*◌, String, false, ◌&&◌, none, some, [], ◌∷◌, Dict, str_eq, if◌then◌else◌, lookup, keys,
  mem_text, ◌≡◌, refl, ap, ◌∙◌, inl, inr, arith, eq_iff, Bool-cases, ltb_ℤ, i64,
}
use lumeo_fs.Common.{NodeStatus, is_online, DataNodeInfo}
use lumeo_fs.Version.Lease.{since}
use lumeo_fs.Master.State.{Master, is_late, mark_late, late_nodes, check_data_nodes}

-- What the check makes of a node.
abbrev checked : ℕ → ℕ → DataNodeInfo → DataNodeInfo
checked now period n = if is_late now period n then record n { status = NodeStatus.offline } else n

lookup-mark_late :
    (now period : ℕ) (id : String) (nodes : Dict DataNodeInfo)
    → lookup id (mark_late now period nodes)
      ≡ elim (lookup id nodes) [ none ↦ none | some n ↦ some (checked now period n) ]
unfolding lookup mark_late
lookup-mark_late now period id [] = refl
lookup-mark_late now period id ((key, n) ∷ nodes) = elim (Bool-cases (str_eq key id)) [
  | inl y ↦ rw y refl
  | inr n ↦ rw n (lookup-mark_late now period id nodes)
]

mem_text-late_nodes :
    (now period : ℕ) (id : String) (nodes : Dict DataNodeInfo)
    → mem_text id (keys nodes) ≡ false
    → mem_text id (late_nodes now period nodes) ≡ false
unfolding late_nodes
mem_text-late_nodes now period id [] h = refl
mem_text-late_nodes now period id ((key, n) ∷ nodes) h =
    let rest = mem_text-late_nodes now period id nodes (ground arith) in
    elim (Bool-cases (is_late now period n)) [
      | inl y ↦ rw y (ground (arith, rest))
      | inr l ↦ rw l rest
    ]

-- No key stands twice.
abbrev pub Unique : Dict DataNodeInfo → Type 0
Unique [] = Unit
Unique ((key, n) ∷ nodes) = (mem_text key (keys nodes) ≡ false) × Unique nodes

late_nodes-late :
    (now period : ℕ) (id : String) (nodes : Dict DataNodeInfo)
    → Unique nodes
    → mem_text id (late_nodes now period nodes)
      ≡ elim (lookup id nodes) [ none ↦ false | some n ↦ is_late now period n ]
unfolding lookup late_nodes
late_nodes-late now period id [] u = refl
late_nodes-late now period id ((key, n) ∷ nodes) (h, u) =
    let rest = late_nodes-late now period id nodes u in
    elim (Bool-cases (str_eq key id)) [
      | inl y ↦
          let same : key ≡ id = ground (arith, y, eq_iff key id) in
          let gone : mem_text id (late_nodes now period nodes) ≡ false =
            rw same at (mem_text-late_nodes now period key nodes h) in
          elim (Bool-cases (is_late now period n)) [
            | inl l ↦ rw (y, l) (ground (arith, y))
            | inr l ↦ rw (y, l) gone
          ]
      | inr o ↦ elim (Bool-cases (is_late now period n)) [
        | inl l ↦ rw (o, l) (rw o rest)
        | inr l ↦ rw (o, l) rest
      ]
    ]

-- The check of the heartbeats, where no id stands twice: the recovery of replicas starts for exactly
-- the nodes that count as online and whose last heartbeat is more than three periods ago, three
-- periods being a number of 64 bits; after the check such a node counts as offline and has its other
-- data, and every other node is as before.
pub check_data_nodes_lem :
    (now : ℕ) (id : String) (n : DataNodeInfo) (m : Master)
    → Unique m.datanodes
    → lookup id m.datanodes ≡ some n
    → let late =
        ltb_ℤ (i64 (m.heartbeat_period * 3)) (since now n.last_heartbeat) && is_online n.status in
      (mem_text id (check_data_nodes now m).1 ≡ late)
      × (lookup id (check_data_nodes now m).0.datanodes
          ≡ some (if late then record n { status = NodeStatus.offline } else n))
check_data_nodes_lem now id n m u e = (
  late_nodes-late now m.heartbeat_period id m.datanodes u
      ∙ ap (λ o. elim o [ none ↦ false | some x ↦ is_late now m.heartbeat_period x ]) e,
  lookup-mark_late now m.heartbeat_period id m.datanodes
      ∙ ap (λ o. elim o [ none ↦ none | some x ↦ some (checked now m.heartbeat_period x) ]) e,
)
