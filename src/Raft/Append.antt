-- ===== src/Raft/Append.antt =====
-- internal/raft/raft.go: log replication, on the follower's and on the leader's side. `none` is a
-- panic: an index out of the range of the log.
pub mod Merge
pub mod Follower
pub mod Backoff
pub mod Again
use lumeo_fs.Base.{
  ℕ, zero, suc, ◌+◌, ◌-◌, ◌*◌, ◌/◌, ◌%◌, ◌≤◌, ◌<◌, String, Bool, true, false, not, ◌&&◌, ◌||◌,
  Option, none, some, List, [], ◌∷◌, ◌++◌, map, Dict, ltb, leb, ◌==◌, str_eq, if◌then◌else◌, length,
  get_elem?, set, take, drop, replicate, count, any, All, lookup, lookup_or, insert, delete, keys,
  values, mem_text, u64, ◌≡◌, refl, sym, ap, ◌∙◌, ◌≢◌, ◌⊎◌, inl, inr, arith, eq_iff, Bool-cases,
  Option-cases, str_eq_refl, str_eq_of_ne, ltb→lt, leb→le, length-append, length-set, length-take,
  length-drop, length-replicate, take-append-drop, get_elem?-lt, lt-length_of_get, get_elem?-take,
  get_elem?-append_left, get_elem?-append_last, count-le-length, count_overlap, count_mono,
  lookup-insert, lookup-delete,
}
use lumeo_fs.Raft.Types.{NodeState, LogEntry, RaftNode, AppendEntriesRequest, AppendEntriesResponse}
use lumeo_fs.Raft.Log.{last_log_index, log_term}
use lumeo_fs.Raft.Election.{reset_election_timer, step_down}
use lumeo_fs.Raft.Commit.{commit_to, update_commit_index}

-- The loop that looks for the first index of the conflicting term, from `i` down; 0 if it finds
-- none.
unfoldable pub first_of_term : List LogEntry → ℕ → ℕ → Option ℕ
first_of_term log term zero = some 0
first_of_term log term (suc i) =
    let rest = first_of_term log term i in
    elim (get_elem? log (suc i)) [
      | none ↦ none
      | some e ↦ if e.term == term then rest else some (suc i + 1)
    ]

-- One round of the loop over the new entries. `get_elem?` finds nothing exactly where the source
-- tests that the index is not below the length.
unfoldable pub merge_entry : List LogEntry → ℕ → LogEntry → List LogEntry
merge_entry log index entry = elim (get_elem? log index) [
  | none ↦ log ++ entry ∷ []
  | some old ↦ if old.term == entry.term then log else take index log ++ entry ∷ []
]

-- The loop over the new entries, the first of which belongs at `index`.
unfoldable pub merge_entries : List LogEntry → ℕ → List LogEntry → List LogEntry
merge_entries log index [] = log
merge_entries log index (entry ∷ entries) =
    merge_entries (merge_entry log index entry) (index + 1) entries

-- `handleAppendEntries` from the new entries on.
unfoldable pub accept_entries :
    AppendEntriesRequest
    → AppendEntriesResponse
    → RaftNode
    → Option (RaftNode × AppendEntriesResponse)
accept_entries req resp rn =
    let rn' = record rn { log = merge_entries rn.log (req.prev_log_index + 1) req.entries } in
    let last_new = req.prev_log_index + length req.entries in
    let answer = record resp { success = true } in
    if ltb rn.commit_index req.leader_commit
    then elim (commit_to (if ltb req.leader_commit last_new then req.leader_commit else last_new)
        rn') [ none ↦ none | some rn'' ↦ some (rn'', answer) ]
    else some (rn', answer)

-- `handleAppendEntries` from the consistency check on.
unfoldable pub check_and_accept :
    AppendEntriesRequest
    → AppendEntriesResponse
    → RaftNode
    → Option (RaftNode × AppendEntriesResponse)
check_and_accept req resp rn =
    if ltb 0 req.prev_log_index
    then elim (get_elem? rn.log req.prev_log_index) [
      | none ↦ some (rn, record resp { conflict_index = length rn.log })
      | some e ↦
          if e.term == req.prev_log_term
          then accept_entries req resp rn
          else elim (first_of_term rn.log e.term (req.prev_log_index - 1)) [
            | none ↦ none
            | some i ↦ some (rn, record resp { conflict_term = e.term; conflict_index = i })
          ]
    ]
    else accept_entries req resp rn

-- `handleAppendEntries`, at the time `now`.
unfoldable pub handle_append_entries :
    ℕ → AppendEntriesRequest → RaftNode → Option (RaftNode × AppendEntriesResponse)
handle_append_entries now req rn =
    let resp : AppendEntriesResponse = record {
      term = rn.current_term;
      success = false;
      conflict_index = 0;
      conflict_term = 0;
    } in
    let stepped = if ltb rn.current_term req.term then step_down req.term rn else rn in
    if ltb req.term rn.current_term
    then some (rn, resp)
    else check_and_accept req resp
        (record (reset_election_timer stepped) { leader_id = req.leader_id; last_heartbeat = now })

-- `sendHeartbeats`: the request to a peer, with the term and the commit index that were read
-- before.
unfoldable pub append_request : String → ℕ → ℕ → RaftNode → AppendEntriesRequest
append_request peer term commit rn =
    let next = lookup_or 0 peer rn.next_index in
    let prev = u64 (next + 18446744073709551615) in
    record {
      term = term;
      leader_id = rn.config.node_id;
      prev_log_index = prev;
      prev_log_term = log_term rn.log prev;
      entries = if leb next (last_log_index rn.log) then drop next rn.log else [];
      leader_commit = commit;
    }

-- The index of the last of the entries that were sent; `none` if none were.
unfoldable pub last_entry_index : List LogEntry → Option ℕ
last_entry_index [] = none
last_entry_index (e ∷ []) = some e.index
last_entry_index (e ∷ f ∷ es) = last_entry_index (f ∷ es)

-- `sendHeartbeats`: what the goroutine of `peer` does with the response.
unfoldable pub handle_append_reply :
    String → List LogEntry → AppendEntriesResponse → RaftNode → Option RaftNode
handle_append_reply peer entries resp rn =
    let next = lookup_or 0 peer rn.next_index in
    if ltb rn.current_term resp.term
    then some (step_down resp.term rn)
    else if resp.success
    then elim (last_entry_index entries) [
      | none ↦ some rn
      | some i ↦ update_commit_index (record rn {
        next_index = insert peer (u64 (i + 1)) rn.next_index;
        match_index = insert peer i rn.match_index;
      })
    ]
    else if ltb 0 resp.conflict_index
    then some (record rn { next_index = insert peer resp.conflict_index rn.next_index })
    else if ltb 1 next
    then some (record rn { next_index = insert peer (next - 1) rn.next_index })
    else some rn
