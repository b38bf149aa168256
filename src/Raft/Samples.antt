-- ===== src/Raft/Samples.antt =====
-- Examples of log replication: a leader and a follower that lags behind, each with a log of three
-- entries.
use lumeo_fs.Base.{
  ℕ, ◌≤◌, ◌<◌, String, true, false, none, some, List, [], ◌∷◌, lookup, ◌≡◌, refl, arith,
}
use lumeo_fs.Raft.Types.{NodeState, LogEntry, RaftNode, AppendEntriesRequest, AppendEntriesResponse}
use lumeo_fs.Raft.Log.{last_log_index, last_log_term, log_term, majority}
use lumeo_fs.Raft.Append.{
  append_request, first_of_term, merge_entry, merge_entries, accept_entries, check_and_accept,
  handle_append_entries, handle_append_reply,
}
use lumeo_fs.Raft.Append.Follower.{Handled, handle_append_entries-Handled}
use lumeo_fs.Raft.Append.Again.{handle_append_entries_again}
use lumeo_fs.Raft.Append.Backoff.{next_of, append_refused-lowers}
use lumeo_fs.Raft.Commit.{offer, notify, commit_to, replica_count, commit_scan, update_commit_index}
use lumeo_fs.Raft.Commit.Scan.{Advanced, update_commit_index-Advanced}
use lumeo_fs.Raft.Commit.Repeat.{commit_to_twice}

abbrev entry : ℕ → ℕ → LogEntry
entry i t = record { index = i; term = t; command = none }

abbrev node : String → NodeState → ℕ → List LogEntry → RaftNode
node id state term log = record {
  config = record { node_id = id; address = id; port = 9000; peers = [] };
  current_term = term;
  voted_for = "";
  log = log;
  state = state;
  commit_index = 0;
  last_applied = 0;
  next_index = ("n2", 3) ∷ ("n3", 3) ∷ [];
  match_index = ("n2", 2) ∷ ("n3", 0) ∷ [];
  leader_id = "";
  last_heartbeat = 0;
  peers = ("n2", "n2") ∷ ("n3", "n3") ∷ [];
  apply_c = [];
  election_timer = true;
  heartbeat_timer = false;
}

abbrev leading : RaftNode
leading = node "n1" NodeState.leader 2 (entry 0 0 ∷ entry 1 1 ∷ entry 2 2 ∷ [])

abbrev behind : RaftNode
behind = node "n3" NodeState.follower 1 (entry 0 0 ∷ entry 1 1 ∷ entry 2 1 ∷ [])

-- The leader's entry at 2 takes the place of the follower's.
abbrev request : AppendEntriesRequest
request = record {
  term = 2;
  leader_id = "n1";
  prev_log_index = 1;
  prev_log_term = 1;
  entries = entry 2 2 ∷ [];
  leader_commit = 2;
}

code : Unit {0}
unfolding last_log_index last_log_term log_term majority lookup append_request first_of_term
    merge_entry merge_entries accept_entries check_and_accept handle_append_entries
    handle_append_reply offer notify commit_to replica_count commit_scan update_commit_index
code = tt

handled :
    (rn' : RaftNode) × (resp : AppendEntriesResponse) × (handle_append_entries 7 request behind
      ≡ some (rn', resp))
    × (resp.success ≡ true)
    × (rn'.log ≡ leading.log)
    × (rn'.commit_index ≡ 2)
unfolding code
handled = (_, _, refl, refl, refl, refl)

handle_append_entries-Handled_example :
    (rn' : RaftNode) × (resp : AppendEntriesResponse) × (handle_append_entries 7 request behind
      ≡ some (rn', resp))
    × Handled request behind rn' resp
    × (resp.success ≡ true → 1 ≤ 2)
handle_append_entries-Handled_example = handle_append_entries-Handled 7 request behind (omega arith)

handle_append_entries_again_example :
    (rn2 : RaftNode) × (resp2 : AppendEntriesResponse) × (handle_append_entries 8 request handled.0
      ≡ some (rn2, resp2))
    × (resp2.success ≡ true)
    × (rn2.log ≡ handled.0.log)
handle_append_entries_again_example =
    handle_append_entries_again 7 8 request behind (omega arith) handled.2 handled.3

-- The request after index 2 is refused, since the follower's entry at 2 is of another term.
refused :
    (f : RaftNode) × (resp : AppendEntriesResponse) × (handle_append_entries 7
        (append_request "n3" 2 0 leading)
        behind
      ≡ some (f, resp))
    × (resp.success ≡ false)
unfolding code
refused = (_, _, refl, refl)

append_refused-lowers_example :
    (rn' : RaftNode) × (handle_append_reply "n3"
        (append_request "n3" 2 0 leading).entries
        refused.1
        leading
      ≡ some rn')
    × (1 ≤ next_of "n3" rn')
    × (next_of "n3" rn' < 3)
unfolding lookup
append_refused-lowers_example =
    append_refused-lowers 7 "n3" 0 leading behind (omega arith) (omega arith) (omega arith)
      (omega arith) refused.2 refused.3

update_commit_index-Advanced_example :
    (rn' : RaftNode) × (update_commit_index leading ≡ some rn') × Advanced leading rn'
update_commit_index-Advanced_example = update_commit_index-Advanced leading (omega arith)

advanced : (rn' : RaftNode) × (update_commit_index leading ≡ some rn') × (rn'.commit_index ≡ 2)
unfolding code
advanced = (_, refl, refl)

commit_to_twice_example :
    (r1 : RaftNode) × (r2 : RaftNode) × (commit_to 1 leading ≡ some r1)
    × (commit_to 2 r1 ≡ some r2)
    × (r2.apply_c ≡ entry 1 1 ∷ entry 1 1 ∷ entry 2 2 ∷ [])
commit_to_twice_example =
    commit_to_twice 1 2 leading (omega arith) (omega arith) (omega arith) (omega arith)
