-- ===== src/Raft/Log.antt =====
-- internal/raft/raft.go: creation of a node, the log helpers, the status queries and `Propose`.
-- `none` is a panic: an index out of the range of the log.
use lumeo_fs.Base.{
  ℕ, ◌+◌, ◌/◌, String, Bool, false, Option, none, some, List, [], ◌∷◌, ◌++◌, Dict, if◌then◌else◌,
  length, get_elem?, lookup_or, insert, u64,
}
use lumeo_fs.Raft.Types.{
  NodeState, is_leader_state, MetadataCommand, LogEntry, PeerConfig, Config, RaftNode,
}

-- `getLastLogIndex`; on an empty log, `len - 1` wraps.
unfoldable pub last_log_index : List LogEntry → ℕ
last_log_index [] = 18446744073709551615
last_log_index (e ∷ log) = length log

-- `getLastLogTerm`
unfoldable pub last_log_term : List LogEntry → Option ℕ
last_log_term [] = none
last_log_term (e ∷ []) = some e.term
last_log_term (e ∷ f ∷ log) = last_log_term (f ∷ log)

-- `getLogTerm`
unfoldable pub log_term : List LogEntry → ℕ → ℕ
log_term log index = elim (get_elem? log index) [ none ↦ 0 | some e ↦ e.term ]

-- The loop of `NewRaftNode` over the configured peers; `show` is the `%s:%d` of an address.
unfoldable pub connect_peers : (String → ℕ → String) → List PeerConfig → Dict String → Dict String
connect_peers show [] peers = peers
connect_peers show (p ∷ ps) peers =
    connect_peers show ps (insert p.node_id (show p.address p.port) peers)

-- `NewRaftNode`
unfoldable pub new_raft_node : (String → ℕ → String) → Config → RaftNode
unfolding connect_peers
new_raft_node show cfg = record {
  config = cfg;
  current_term = 0;
  voted_for = "";
  log = record { index = 0; term = 0; command = none } ∷ [];
  state = NodeState.follower;
  commit_index = 0;
  last_applied = 0;
  next_index = [];
  match_index = [];
  leader_id = "";
  last_heartbeat = 0;
  peers = connect_peers show cfg.peers [];
  apply_c = [];
  election_timer = false;
  heartbeat_timer = false;
}

-- `IsLeader`
abbrev pub is_leader : RaftNode → Bool
is_leader rn = is_leader_state rn.state

-- `GetState`
abbrev pub get_state : RaftNode → NodeState × ℕ × String
get_state rn = (rn.state, rn.current_term, rn.leader_id)

-- `GetLeaderAddress`
unfoldable pub get_leader_address : (String → ℕ → String) → RaftNode → String
get_leader_address show rn =
    if is_leader rn
    then show rn.config.address rn.config.port
    else lookup_or "" rn.leader_id rn.peers

-- The number of votes, or of copies of an entry, that `startElection` and `updateCommitIndex` ask
-- for.
unfoldable pub majority : RaftNode → ℕ
majority rn = (length rn.peers + 1) / 2 + 1

-- `Propose`; `none` is the error of a node that is not the leader.
unfoldable pub propose : MetadataCommand → RaftNode → Option RaftNode
unfolding last_log_index
propose cmd rn =
    if is_leader rn
    then some (record rn {
      log =
          rn.log
          ++ record {
            index = u64 (last_log_index rn.log + 1);
            term = rn.current_term;
            command = some cmd;
          }
            ∷ [];
    })
    else none
