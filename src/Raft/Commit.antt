-- ===== src/Raft/Commit.antt =====
-- internal/raft/raft.go: what a committed entry sets off. `none` is a panic: an index out of the
-- range of the log.
pub mod Range
pub mod Scan
pub mod Repeat
use lumeo_fs.Base.{
  ℕ, zero, suc, ◌+◌, ◌-◌, ◌*◌, ◌/◌, ◌%◌, ◌≤◌, ◌<◌, String, Bool, true, false, not, ◌&&◌, ◌||◌,
  Option, none, some, List, [], ◌∷◌, ◌++◌, map, Dict, ltb, leb, ◌==◌, str_eq, if◌then◌else◌, length,
  get_elem?, set, take, drop, replicate, count, any, All, lookup, lookup_or, insert, delete, keys,
  values, mem_text, u64, ◌≡◌, refl, sym, ap, ◌∙◌, ◌≢◌, ◌⊎◌, inl, inr, arith, eq_iff, Bool-cases,
  Option-cases, str_eq_refl, str_eq_of_ne, ltb→lt, leb→le, length-append, length-set, length-take,
  length-drop, length-replicate, take-append-drop, get_elem?-lt, lt-length_of_get, get_elem?-take,
  get_elem?-append_left, get_elem?-append_last, count-le-length, count_overlap, count_mono,
  lookup-insert, lookup-delete,
}
use lumeo_fs.Raft.Types.{LogEntry, RaftNode, MetadataCommand}
use lumeo_fs.Raft.Log.{last_log_index, majority}

-- The capacity of `applyC`.
abbrev pub apply_capacity : ℕ
apply_capacity = 1000

-- A send that `select` drops if the channel is full.
unfoldable pub offer : LogEntry → List LogEntry → List LogEntry
offer e c = if ltb (length c) apply_capacity then c ++ e ∷ [] else c

-- The loop that offers the entries from index `i` on, for the number of rounds given.
unfoldable pub notify : ℕ → ℕ → List LogEntry → List LogEntry → Option (List LogEntry)
notify zero i log c = some c
notify (suc rounds) i log c = elim (get_elem? log i) [
  | none ↦ none
  | some e ↦ notify rounds (i + 1) log (offer e c)
]

-- `for i := lastApplied + 1; i <= commitIndex; i++`, after the commit index was set to `n`.
unfoldable pub commit_to : ℕ → RaftNode → Option RaftNode
commit_to n rn = elim (notify (n - rn.last_applied) (rn.last_applied + 1) rn.log rn.apply_c) [
  | none ↦ none
  | some c ↦ some (record rn { commit_index = n; apply_c = c })
]

-- How many nodes hold the entry at `n`, the leader itself among them.
unfoldable pub replica_count : ℕ → RaftNode → ℕ
replica_count n rn = 1 + count (λ m. leb n m) (values rn.match_index)

-- The loop of `updateCommitIndex` from index `n` down: the index to commit, if there is one.
unfoldable pub commit_scan : ℕ → RaftNode → Option (Option ℕ)
commit_scan zero rn = some none
commit_scan (suc m) rn =
    let rest = commit_scan m rn in
    if leb (suc m) rn.commit_index then some none else elim (get_elem? rn.log (suc m)) [
      | none ↦ none
      | some e ↦
          if e.term == rn.current_term && leb (majority rn) (replica_count (suc m) rn)
          then some (some (suc m))
          else rest
    ]

-- `updateCommitIndex`
unfoldable pub update_commit_index : RaftNode → Option RaftNode
update_commit_index rn = elim (commit_scan (last_log_index rn.log) rn) [
  | none ↦ none
  | some none ↦ some rn
  | some (some n) ↦ commit_to n rn
]

-- One round of `applyLoop` over a state machine: the oldest entry leaves the channel.
unfoldable pub apply_one {ℓ} :
    {S : Type ℓ} → (MetadataCommand → S → S) → RaftNode × S → RaftNode × S
apply_one apply (rn, s) = elim rn.apply_c [
  | [] ↦ (rn, s)
  | e ∷ c ↦ (
    record rn { apply_c = c; last_applied = e.index },
    elim e.command [ none ↦ s | some cmd ↦ apply cmd s ],
  )
]
