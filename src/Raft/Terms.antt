-- ===== src/Raft/Terms.antt =====
-- internal/raft/raft.go: the terms that a node takes over from a message, and that it sends.
use lumeo_fs.Base.{ℕ, max, String, some, List, [], ◌∷◌, insert, ◌≡◌, arith}
use lumeo_fs.Raft.Types.{
  NodeState, LogEntry, RaftNode, RequestVoteRequest, RequestVoteResponse, AppendEntriesRequest,
  AppendEntriesResponse,
}
use lumeo_fs.Raft.Election.{handle_request_vote, handle_vote_reply, init_indexes, become_leader}
use lumeo_fs.Raft.Commit.{update_commit_index, commit_to}
use lumeo_fs.Raft.Append.{
  accept_entries, check_and_accept, handle_append_entries, handle_append_reply,
}

accept_entries_term :
    (req : AppendEntriesRequest) (resp : AppendEntriesResponse) (rn : RaftNode) {rn' : RaftNode}
    {resp' : AppendEntriesResponse}
    → accept_entries req resp rn ≡ some (rn', resp')
    → (rn'.current_term ≡ rn.current_term) × (resp'.term ≡ resp.term)
unfolding accept_entries commit_to
accept_entries_term req resp rn h = ground arith

check_and_accept_term :
    (req : AppendEntriesRequest) (resp : AppendEntriesResponse) (rn : RaftNode) {rn' : RaftNode}
    {resp' : AppendEntriesResponse}
    → check_and_accept req resp rn ≡ some (rn', resp')
    → (rn'.current_term ≡ rn.current_term) × (resp'.term ≡ resp.term)
unfolding check_and_accept
check_and_accept_term req resp rn {rn'} {resp'} h = ground (
  arith,
  λ (e : accept_entries req resp rn ≡ some (rn', resp')). accept_entries_term req resp rn e,
)

-- A node answers with the term that it had, and goes on with the higher term of the two.
pub handle_append_entries_term :
    (now : ℕ) (req : AppendEntriesRequest) (rn : RaftNode) {rn' : RaftNode}
    {resp' : AppendEntriesResponse}
    → handle_append_entries now req rn ≡ some (rn', resp')
    → (rn'.current_term ≡ max rn.current_term req.term) × (resp'.term ≡ rn.current_term)
unfolding handle_append_entries
handle_append_entries_term now req rn h = grind (arith, check_and_accept_term)

pub handle_request_vote_term :
    (req : RequestVoteRequest) (rn : RaftNode) {rn' : RaftNode} {resp' : RequestVoteResponse}
    → handle_request_vote req rn ≡ some (rn', resp')
    → (rn'.current_term ≡ max rn.current_term req.term) × (resp'.term ≡ rn.current_term)
unfolding handle_request_vote
handle_request_vote_term req rn h = ground arith

pub handle_vote_reply_term :
    (resp : RequestVoteResponse) (rn : RaftNode)
    → (handle_vote_reply resp rn).0.current_term ≡ max rn.current_term resp.term
unfolding handle_vote_reply
handle_vote_reply_term resp rn = ground arith

pub handle_append_reply_term :
    (peer : String) (entries : List LogEntry) (resp : AppendEntriesResponse) (rn : RaftNode)
    {rn' : RaftNode}
    → handle_append_reply peer entries resp rn ≡ some rn'
    → rn'.current_term ≡ max rn.current_term resp.term
unfolding handle_append_reply update_commit_index commit_to
handle_append_reply_term peer entries resp rn h = ground arith

-- `becomeLeader` changes no term, no vote, no peer and no configuration.
pub record SameLog (a b : RaftNode) : Type 0 where
  pub same_config : b.config ≡ a.config
  pub same_peers : b.peers ≡ a.peers
  pub same_term : b.current_term ≡ a.current_term
  pub same_vote : b.voted_for ≡ a.voted_for
  pub same_log : b.log ≡ a.log

init_indexes_state :
    (ids : List String) (k : ℕ) (rn : RaftNode)
    → SameLog rn (init_indexes ids k rn) × ((init_indexes ids k rn).state ≡ rn.state)
unfolding init_indexes
init_indexes_state [] k rn = ground arith
init_indexes_state (id ∷ ids) k rn = ground (
  arith,
  init_indexes_state ids k (record rn {
    next_index = insert id k rn.next_index;
    match_index = insert id 0 rn.match_index;
  }),
)

pub become_leader_state :
    (rn : RaftNode) → SameLog rn (become_leader rn) × ((become_leader rn).state ≡ NodeState.leader)
unfolding become_leader
become_leader_state rn = grind (arith, init_indexes_state)
