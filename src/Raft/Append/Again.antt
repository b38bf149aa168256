-- ===== src/Raft/Append/Again.antt =====
-- internal/raft/raft.go, `handleAppendEntries`: a request that arrives twice.
use lumeo_fs.Base.{ℕ, ◌+◌, ◌≤◌, ◌<◌, true, some, List, length, ◌≡◌, ◌∙◌, inl, inr, arith}
use lumeo_fs.Raft.Types.{LogEntry, RaftNode, AppendEntriesRequest, AppendEntriesResponse}
use lumeo_fs.Raft.Terms.{handle_append_entries_term}
use lumeo_fs.Raft.Append.{handle_append_entries}
use lumeo_fs.Raft.Append.Merge.{SameBelow, merge_entries_held}
use lumeo_fs.Raft.Append.Follower.{Consistent, Handled, handle_append_entries-Handled}

Consistent-below :
    (req : AppendEntriesRequest) (a b : List LogEntry)
    → SameBelow (req.prev_log_index + 1) b a
    → Consistent req a
    → Consistent req b
Consistent-below req a b same (inl z) = inl z
Consistent-below req a b same (inr (e, at, t)) =
    inr (e, same req.prev_log_index (omega arith) ∙ at, t)

-- A request that a node whose log is not empty accepted, handled once more in the state after, is
-- accepted again, and leaves the log as it was.
pub handle_append_entries_again :
    (now now' : ℕ) (req : AppendEntriesRequest) (rn : RaftNode) {rn1 : RaftNode}
    {resp1 : AppendEntriesResponse}
    → 0 < length rn.log
    → handle_append_entries now req rn ≡ some (rn1, resp1)
    → resp1.success ≡ true
    → (rn2 : RaftNode) × (resp2 : AppendEntriesResponse) × (handle_append_entries now' req rn1
        ≡ some (rn2, resp2))
      × (resp2.success ≡ true)
      × (rn2.log ≡ rn1.log)
handle_append_entries_again now now' req rn {rn1} {resp1} ne e1 ok =
    let (a, ra, da, ha, ta) = handle_append_entries-Handled now req rn ne in
    let a1 : a ≡ rn1 = cc in
    let r1 : ra ≡ resp1 = cc in
    let h1 : Handled req rn rn1 resp1 = rw (a1, r1) at ha in
    let (b, rb, db, h2, tb) = handle_append_entries-Handled now' req rn1 h1.nonempty in
    let t : rn1.current_term ≤ req.term =
      omega (arith, (handle_append_entries_term now req rn e1).0, ta (rw r1 ok)) in
    let done = h2.accepts t (Consistent-below req rn.log rn1.log (h1.below ok) (h1.fits ok)) in
    (
      b,
      rb,
      db,
      done,
      h2.merged done
          ∙ merge_entries_held req.entries rn1.log (req.prev_log_index + 1) (h1.holds ok),
    )
