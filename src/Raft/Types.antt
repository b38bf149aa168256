-- ===== src/Raft/Types.antt =====
-- internal/raft/raft.go: the data of a node and the messages.
use lumeo_fs.Base.{ℕ, String, Bool, Option, List, Dict}

-- `NodeState`
pub data NodeState : Type 0 where
  follower candidate leader : NodeState

abbrev pub is_leader_state : NodeState → Bool
is_leader_state NodeState.leader = Bool.true
is_leader_state NodeState.follower = Bool.false
is_leader_state NodeState.candidate = Bool.false

abbrev pub is_candidate_state : NodeState → Bool
is_candidate_state NodeState.candidate = Bool.true
is_candidate_state NodeState.follower = Bool.false
is_candidate_state NodeState.leader = Bool.false

-- `MetadataCommand`; `value` holds the bytes of the JSON text.
pub record MetadataCommand : Type 0 where
  pub kind : String
  pub key : String
  pub value : List ℕ
  pub timestamp : ℕ

-- `LogEntry`; the entry at index 0 has no command.
pub record LogEntry : Type 0 where
  pub index : ℕ
  pub term : ℕ
  pub command : Option MetadataCommand

-- `PeerConfig`
pub record PeerConfig : Type 0 where
  pub node_id : String
  pub address : String
  pub port : ℕ

-- `Config`, less the timeouts and the data directory, which decide no value of the model.
pub record Config : Type 0 where
  pub node_id : String
  pub address : String
  pub port : ℕ
  pub peers : List PeerConfig

-- `RaftNode`. A timer is its state: armed or stopped. `peers` gives each peer's address, and
-- `apply_c` holds what the channel buffers, oldest first. The state machine, the listener, the lock
-- and the context are not fields of the model.
pub record RaftNode : Type 0 where
  pub config : Config
  pub current_term : ℕ
  pub voted_for : String
  pub log : List LogEntry
  pub state : NodeState
  pub commit_index : ℕ
  pub last_applied : ℕ
  pub next_index : Dict ℕ
  pub match_index : Dict ℕ
  pub leader_id : String
  pub last_heartbeat : ℕ
  pub peers : Dict String
  pub apply_c : List LogEntry
  pub election_timer : Bool
  pub heartbeat_timer : Bool

-- `RequestVoteRequest`
pub record RequestVoteRequest : Type 0 where
  pub term : ℕ
  pub candidate_id : String
  pub last_log_index : ℕ
  pub last_log_term : ℕ

-- `RequestVoteResponse`
pub record RequestVoteResponse : Type 0 where
  pub term : ℕ
  pub vote_granted : Bool

-- `AppendEntriesRequest`
pub record AppendEntriesRequest : Type 0 where
  pub term : ℕ
  pub leader_id : String
  pub prev_log_index : ℕ
  pub prev_log_term : ℕ
  pub entries : List LogEntry
  pub leader_commit : ℕ

-- `AppendEntriesResponse`
pub record AppendEntriesResponse : Type 0 where
  pub term : ℕ
  pub success : Bool
  pub conflict_index : ℕ
  pub conflict_term : ℕ
