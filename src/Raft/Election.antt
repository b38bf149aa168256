-- ===== src/Raft/Election.antt =====
-- internal/raft/raft.go: elections. A timer that `resetElectionTimer` sets is armed; the random
-- length of the timeout is not modelled.
use lumeo_fs.Base.{
  ℕ, ◌+◌, String, Bool, true, false, not, ◌&&◌, ◌||◌, Option, none, some, List, [], ◌∷◌, ltb, leb,
  ◌==◌, str_eq, if◌then◌else◌, insert, keys, u64,
}
use lumeo_fs.Raft.Types.{
  NodeState, is_candidate_state, RaftNode, RequestVoteRequest, RequestVoteResponse,
}
use lumeo_fs.Raft.Log.{last_log_index, last_log_term, majority}

-- `resetElectionTimer`
abbrev pub reset_election_timer : RaftNode → RaftNode
reset_election_timer rn = record rn { election_timer = true }

-- `stepDown`
abbrev pub step_down : ℕ → RaftNode → RaftNode
step_down term rn = reset_election_timer (record rn {
  current_term = term;
  state = NodeState.follower;
  voted_for = "";
  heartbeat_timer = false;
})

-- `startElection` up to the requests: the new state, and the request that every peer is sent.
unfoldable pub start_election : RaftNode → Option (RaftNode × RequestVoteRequest)
start_election rn =
    let term = u64 (rn.current_term + 1) in
    elim (last_log_term rn.log) [
      | none ↦ none
      | some last_term ↦ some (
        reset_election_timer (record rn {
          state = NodeState.candidate;
          current_term = term;
          voted_for = rn.config.node_id;
        }),
        record {
          term = term;
          candidate_id = rn.config.node_id;
          last_log_index = last_log_index rn.log;
          last_log_term = last_term;
        },
      )
    ]

-- `logOK` of `handleRequestVote`.
abbrev pub log_ok : RequestVoteRequest → ℕ → ℕ → Bool
log_ok req last_index last_term =
    ltb last_term req.last_log_term
    || (req.last_log_term == last_term && leb last_index req.last_log_index)

-- `handleRequestVote`
unfoldable pub handle_request_vote :
    RequestVoteRequest → RaftNode → Option (RaftNode × RequestVoteResponse)
handle_request_vote req rn =
    let refuse : RequestVoteResponse = record { term = rn.current_term; vote_granted = false } in
    let rn' = if ltb rn.current_term req.term then step_down req.term rn else rn in
    if ltb req.term rn'.current_term
    then some (rn', refuse)
    else if not (str_eq rn'.voted_for "") && not (str_eq rn'.voted_for req.candidate_id)
    then some (rn', refuse)
    else elim (last_log_term rn'.log) [
      | none ↦ none
      | some last_term ↦
          if log_ok req (last_log_index rn'.log) last_term
          then some (
            reset_election_timer (record rn' { voted_for = req.candidate_id }),
            record { term = rn.current_term; vote_granted = true },
          )
          else some (rn', refuse)
    ]

-- What the goroutine of `startElection` does with a response: the state, and what it sends on
-- `voteCh`.
unfoldable pub handle_vote_reply : RequestVoteResponse → RaftNode → RaftNode × Bool
handle_vote_reply resp rn =
    if ltb rn.current_term resp.term
    then (step_down resp.term rn, false)
    else (rn, resp.vote_granted)

-- The loop of `becomeLeader`.
unfoldable pub init_indexes : List String → ℕ → RaftNode → RaftNode
init_indexes [] next rn = rn
init_indexes (id ∷ ids) next rn = init_indexes ids next (record rn {
  next_index = insert id next rn.next_index;
  match_index = insert id 0 rn.match_index;
})

-- `becomeLeader`, less the goroutine that starts the heartbeats.
unfoldable pub become_leader : RaftNode → RaftNode
become_leader rn =
    let rn' = record rn { state = NodeState.leader; leader_id = rn.config.node_id } in
    record (init_indexes (keys rn.peers) (u64 (last_log_index rn.log + 1)) rn') {
      election_timer = false;
    }

-- The end of `startElection`, with the votes that came in for the election of `term`.
unfoldable pub tally : ℕ → ℕ → RaftNode → RaftNode
tally term votes rn =
    if not (is_candidate_state rn.state) || not (rn.current_term == term)
    then rn
    else if leb (majority rn) votes
    then become_leader rn
    else rn
