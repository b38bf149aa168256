-- ===== src/Raft/Append/Backoff.antt =====
-- internal/raft/raft.go, `sendHeartbeats`: after a refusal the leader goes back in the log of the
-- peer.
use lumeo_fs.Base.{
  ℕ, ◌-◌, ◌≤◌, ◌<◌, String, false, some, List, Dict, ltb, ◌==◌, length, lookup_or, insert, ◌≡◌,
  refl, ap, inl, inr, arith, Bool-cases, str_eq_refl, lookup-insert,
}
use lumeo_fs.Raft.Types.{LogEntry, RaftNode, AppendEntriesResponse}
use lumeo_fs.Raft.Terms.{handle_append_entries_term}
use lumeo_fs.Raft.Append.{append_request, handle_append_entries, handle_append_reply}
use lumeo_fs.Raft.Append.Follower.{handle_append_entries-Handled}

-- `rn.nextIndex[peer]`
abbrev pub next_of : String → RaftNode → ℕ
next_of peer rn = lookup_or 0 peer rn.next_index

lookup_or-insert : (k : String) (v : ℕ) (m : Dict ℕ) → lookup_or 0 k (insert k v m) ≡ v
lookup_or-insert k v m = ground (arith, lookup-insert k k v m, str_eq_refl k)

append_request-prev :
    (peer : String) (term commit : ℕ) (rn : RaftNode)
    → 1 ≤ next_of peer rn
    → next_of peer rn < 18446744073709551616
    → ((append_request peer term commit rn).prev_log_index ≡ next_of peer rn - 1)
      × ((append_request peer term commit rn).term ≡ term)
unfolding append_request
append_request-prev peer term commit rn lo hi = (omega arith, refl)

-- A refusal with a conflict index below the next index, which is at least 2, lowers the next index.
reply-lowers :
    (peer : String) (entries : List LogEntry) (resp : AppendEntriesResponse) (rn : RaftNode)
    → resp.success ≡ false
    → resp.term ≤ rn.current_term
    → 1 < next_of peer rn
    → resp.conflict_index < next_of peer rn
    → (rn' : RaftNode) × (handle_append_reply peer entries resp rn ≡ some rn')
      × (1 ≤ next_of peer rn')
      × (next_of peer rn' < next_of peer rn)
unfolding handle_append_reply
reply-lowers peer entries resp rn f t lo c = elim (Bool-cases (ltb 0 resp.conflict_index)) [
  | inl at ↦
      let l = lookup_or-insert peer resp.conflict_index rn.next_index in
      (
        record rn { next_index = insert peer resp.conflict_index rn.next_index },
        ground arith,
        ground (arith, l),
        ground (arith, l),
      )
  | inr back ↦
      let l = lookup_or-insert peer (next_of peer rn - 1) rn.next_index in
      (
        record rn { next_index = insert peer (next_of peer rn - 1) rn.next_index },
        ground arith,
        omega (arith, l),
        omega (arith, l),
      )
]

-- Where the next index of a follower is at least 1 and below 2 ^ 64, a follower of no higher term
-- and with a log that is not empty that refuses the leader's request makes the leader lower that
-- next index, which stays at least 1.
pub append_refused-lowers :
    (now : ℕ) (peer : String) (commit : ℕ) (rn f : RaftNode) {f' : RaftNode}
    {resp : AppendEntriesResponse}
    → 1 ≤ next_of peer rn
    → next_of peer rn < 18446744073709551616
    → 0 < length f.log
    → f.current_term ≤ rn.current_term
    → handle_append_entries now (append_request peer rn.current_term commit rn) f ≡ some (f', resp)
    → resp.success ≡ false
    → (rn' : RaftNode) × (handle_append_reply peer
          (append_request peer rn.current_term commit rn).entries
          resp
          rn
        ≡ some rn')
      × (1 ≤ next_of peer rn')
      × (next_of peer rn' < next_of peer rn)
append_refused-lowers now peer commit rn f {f'} {resp} lo hi ne le e no' =
    let req = append_request peer rn.current_term commit rn in
    let (p, t) = append_request-prev peer rn.current_term commit rn lo hi in
    let (g, r, done, h, k) = handle_append_entries-Handled now req f ne in
    let rr : r ≡ resp = cc in
    let refused : r.success ≡ false = rw rr no' in
    let (l, c, ci) = h.kept refused in
    let late : 1 < next_of peer rn = elim (Bool-cases (req.prev_log_index == 0)) [
      | inl z ↦ absurd (ground (arith, h.accepts (omega (arith, t)) (inl (ground arith))))
      | inr nz ↦ ground arith
    ] in
    reply-lowers peer req.entries resp rn no'
      (omega (arith, (handle_append_entries_term now req f e).1)) late
      (omega (arith, ap (λ (x : AppendEntriesResponse). x.conflict_index) rr))
