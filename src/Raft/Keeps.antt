-- ===== src/Raft/Keeps.antt =====
-- internal/raft/raft.go: what each operation of a node leaves of its term, its vote and its role.
use lumeo_fs.Base.{ℕ, ◌+◌, ◌≤◌, ◌<◌, String, some, List, ◌≡◌, sym, ◌∙◌, ◌⊎◌, inr, arith, eq_iff}
use lumeo_fs.Raft.Types.{
  NodeState, LogEntry, RaftNode, RequestVoteRequest, RequestVoteResponse, AppendEntriesRequest,
  AppendEntriesResponse, MetadataCommand,
}
use lumeo_fs.Raft.Log.{propose}
use lumeo_fs.Raft.Election.{start_election, handle_request_vote, handle_vote_reply}
use lumeo_fs.Raft.Commit.{commit_to, update_commit_index, apply_one}
use lumeo_fs.Raft.Append.{
  accept_entries, check_and_accept, handle_append_entries, handle_append_reply,
}

-- The term does not fall, a vote is not changed within a term, and a leader was one before.
pub record Keeps (a b : RaftNode) : Type 0 where
  pub same_config : b.config ≡ a.config
  pub same_peers : b.peers ≡ a.peers
  pub term_le : a.current_term ≤ b.current_term
  pub vote : (a.current_term < b.current_term) ⊎ (a.voted_for ≡ "") ⊎ (b.voted_for ≡ a.voted_for)
  pub still :
      b.state ≡ NodeState.leader → (a.state ≡ NodeState.leader) × (b.current_term ≡ a.current_term)

-- Only the log, the commit index, the indexes of the peers and the channel differ.
pub record SameCore (a b : RaftNode) : Type 0 where
  pub same_config : b.config ≡ a.config
  pub same_peers : b.peers ≡ a.peers
  pub same_term : b.current_term ≡ a.current_term
  pub same_vote : b.voted_for ≡ a.voted_for
  pub same_state : b.state ≡ a.state

pub SameCore-Keeps : {a b : RaftNode} → SameCore a b → Keeps a b
SameCore-Keeps c = record {
  same_config = c.same_config;
  same_peers = c.same_peers;
  term_le = omega (arith, c.same_term);
  vote = inr (inr c.same_vote);
  still = λ h. (sym c.same_state ∙ h, c.same_term);
}

commit_to-SameCore :
    (n : ℕ) (rn : RaftNode) {rn' : RaftNode} → commit_to n rn ≡ some rn' → SameCore rn rn'
unfolding commit_to
commit_to-SameCore n rn h = ground arith

update_commit_index-SameCore :
    (rn : RaftNode) {rn' : RaftNode} → update_commit_index rn ≡ some rn' → SameCore rn rn'
unfolding update_commit_index commit_to
update_commit_index-SameCore rn h = ground arith

pub propose-SameCore :
    (cmd : MetadataCommand) (rn : RaftNode) {rn' : RaftNode}
    → propose cmd rn ≡ some rn'
    → SameCore rn rn'
unfolding propose
propose-SameCore cmd rn h = ground arith

accept_entries-SameCore :
    (req : AppendEntriesRequest) (resp : AppendEntriesResponse) (rn : RaftNode) {rn' : RaftNode}
    {resp' : AppendEntriesResponse}
    → accept_entries req resp rn ≡ some (rn', resp')
    → SameCore rn rn'
unfolding accept_entries commit_to
accept_entries-SameCore req resp rn h = ground arith

check_and_accept-SameCore :
    (req : AppendEntriesRequest) (resp : AppendEntriesResponse) (rn : RaftNode) {rn' : RaftNode}
    {resp' : AppendEntriesResponse}
    → check_and_accept req resp rn ≡ some (rn', resp')
    → SameCore rn rn'
unfolding check_and_accept
check_and_accept-SameCore req resp rn {rn'} {resp'} h = ground (
  arith,
  λ (e : accept_entries req resp rn ≡ some (rn', resp')). accept_entries-SameCore req resp rn e,
)

pub handle_append_entries-Keeps :
    (now : ℕ) (req : AppendEntriesRequest) (rn : RaftNode) {rn' : RaftNode}
    {resp' : AppendEntriesResponse}
    → handle_append_entries now req rn ≡ some (rn', resp')
    → Keeps rn rn'
unfolding handle_append_entries
handle_append_entries-Keeps now req rn {rn'} {resp'} h = grind (arith, check_and_accept-SameCore)

pub handle_request_vote-Keeps :
    (req : RequestVoteRequest) (rn : RaftNode) {rn' : RaftNode} {resp' : RequestVoteResponse}
    → handle_request_vote req rn ≡ some (rn', resp')
    → Keeps rn rn'
unfolding handle_request_vote
handle_request_vote-Keeps req rn {rn'} {resp'} h =
    ground (arith, eq_iff rn.voted_for "", eq_iff rn.voted_for req.candidate_id)

pub handle_vote_reply-Keeps :
    (resp : RequestVoteResponse) (rn : RaftNode) → Keeps rn (handle_vote_reply resp rn).0
unfolding handle_vote_reply
handle_vote_reply-Keeps resp rn = ground arith

pub handle_append_reply-Keeps :
    (peer : String) (entries : List LogEntry) (resp : AppendEntriesResponse) (rn : RaftNode)
    {rn' : RaftNode}
    → handle_append_reply peer entries resp rn ≡ some rn'
    → Keeps rn rn'
unfolding handle_append_reply update_commit_index commit_to
handle_append_reply-Keeps peer entries resp rn {rn'} h = ground arith

pub start_election-Keeps :
    (rn : RaftNode) {rn' : RaftNode} {req : RequestVoteRequest}
    → rn.current_term + 1 < 18446744073709551616
    → start_election rn ≡ some (rn', req)
    → Keeps rn rn'
unfolding start_election
start_election-Keeps rn b h = ground arith

pub apply_one-SameCore {ℓ} :
    {S : Type ℓ} (f : MetadataCommand → S → S) (rn : RaftNode) (s : S)
    → SameCore rn (apply_one f (rn, s)).0
unfolding apply_one
apply_one-SameCore f rn s = ground arith
