-- ===== src/Raft/Cluster/Defs.antt =====
-- internal/raft/raft.go: the steps of a cluster. A step is one critical section under the lock of a
-- node, or the loss of a message; a request can be handled after its sender has given up. A timer may fire at any time, so that every order of the
-- goroutines is a sequence of steps. A node that stops for good takes no more steps, and none starts
-- again.
use lumeo_fs.Base.{
  ℕ, suc, ◌+◌, String, Bool, true, false, not, Option, none, some, List, ◌==◌, str_eq,
  if◌then◌else◌, count, any, keys, mem_text, ◌≡◌,
}
use lumeo_fs.Raft.Types.{
  LogEntry, RaftNode, RequestVoteRequest, RequestVoteResponse, AppendEntriesRequest,
  AppendEntriesResponse, Config, MetadataCommand,
}
use lumeo_fs.Raft.Log.{new_raft_node, propose, is_leader}
use lumeo_fs.Raft.Election.{start_election, handle_request_vote, handle_vote_reply, tally}
use lumeo_fs.Raft.Commit.{apply_one}
use lumeo_fs.Raft.Append.{append_request, handle_append_entries, handle_append_reply}

-- The goroutine of `startElection` for one peer: its request is out, the peer has answered, or the
-- result stands on `voteCh`.
pub data Ballot : Type 0 where
  asked : Ballot
  answered : RequestVoteResponse → Ballot
  counted : Bool → Ballot

-- A call of `startElection`; `closed` once it has returned.
pub record Election : Type 0 where
  pub request : RequestVoteRequest
  pub ballots : String → Ballot
  pub closed : Bool

-- The goroutine of `sendHeartbeats` for one peer.
pub data Exchange : Type 0 where
  prepared : (leader peer : String) (term commit : ℕ) → Exchange
  sent : (leader peer : String) → AppendEntriesRequest → Exchange
  replied : (leader peer : String) → List LogEntry → AppendEntriesResponse → Exchange
  finished : Exchange

-- The nodes by their id, and the goroutines by a number.
pub record Cluster : Type 0 where
  pub nodes : String → RaftNode
  pub elections : ℕ → Option Election
  pub exchanges : ℕ → Option Exchange

abbrev pub put {ℓ} : {A : Type ℓ} → String → A → (String → A) → String → A
put k a f j = if str_eq k j then a else f j

abbrev pub put_at {ℓ} : {A : Type ℓ} → ℕ → A → (ℕ → Option A) → ℕ → Option A
put_at k a f j = if k == j then some a else f j

-- A peer whose vote came in on `voteCh`.
abbrev pub is_vote : Ballot → Bool
is_vote (counted b) = b
is_vote asked = false
is_vote (answered r) = false

abbrev pub is_counted : Ballot → Bool
is_counted (counted b) = true
is_counted asked = false
is_counted (answered r) = false

-- `votes`, when the loop over `voteCh` ends.
unfoldable pub votes : Election → RaftNode → ℕ
votes e rn = 1 + count (λ p. is_vote (e.ballots p)) (keys rn.peers)

-- The loop over `voteCh` has ended.
unfoldable pub all_counted : Election → RaftNode → Bool
all_counted e rn = not (any (λ p. not (is_counted (e.ballots p))) (keys rn.peers))

abbrev pub with_ballot : String → Ballot → Election → Election
with_ballot p b e = record e { ballots = put p b e.ballots }

abbrev pub candidate : Election → String
candidate e = e.request.candidate_id

pub data Step (members : List String) (s : Cluster) : Cluster → Type 0 where
  -- The election timer of `v` fires.
  timeout :
      (v : String) (i : ℕ) {rn : RaftNode} {req : RequestVoteRequest}
      → mem_text v members ≡ true
      → s.elections i ≡ none
      → start_election (s.nodes v) ≡ some (rn, req)
      → Step members s (record s {
        nodes = put v rn s.nodes;
        elections =
            put_at i (record { request = req; ballots = λ _. asked; closed = false }) s.elections;
      })
  -- Peer `p` handles the request of election `i`.
  vote :
      (i : ℕ) (p : String) {e : Election} {rn : RaftNode} {resp : RequestVoteResponse}
      → s.elections i ≡ some e
      → mem_text p (keys (s.nodes (candidate e)).peers) ≡ true
      → e.ballots p ≡ asked
      → handle_request_vote e.request (s.nodes p) ≡ some (rn, resp)
      → Step members s (record s {
        nodes = put p rn s.nodes;
        elections = put_at i (with_ballot p (answered resp) e) s.elections;
      })
  -- The candidate receives the response of `p`.
  tell :
      (i : ℕ) (p : String) {e : Election} {resp : RequestVoteResponse}
      → s.elections i ≡ some e
      → e.ballots p ≡ answered resp
      → Step members s (record s {
        nodes = put (candidate e) (handle_vote_reply resp (s.nodes (candidate e))).0 s.nodes;
        elections =
            put_at i
              (with_ballot p (counted (handle_vote_reply resp (s.nodes (candidate e))).1) e)
              s.elections;
      })
  -- The request to `p` or its response is lost.
  lose_vote :
      (i : ℕ) (p : String) {e : Election}
      → s.elections i ≡ some e
      → is_counted (e.ballots p) ≡ false
      → Step members s
          (record s { elections = put_at i (with_ballot p (counted false) e) s.elections })
  -- Peer `p` handles the request of election `i` when the candidate does not wait for it any more;
  -- the response goes nowhere.
  vote_late :
      (i : ℕ) (p : String) {e : Election} {rn : RaftNode} {resp : RequestVoteResponse}
      → s.elections i ≡ some e
      → e.ballots p ≡ counted false
      → handle_request_vote e.request (s.nodes p) ≡ some (rn, resp)
      → Step members s (record s { nodes = put p rn s.nodes })
  -- All results of election `i` are in.
  close :
      (i : ℕ) {e : Election}
      → s.elections i ≡ some e
      → e.closed ≡ false
      → all_counted e (s.nodes (candidate e)) ≡ true
      → Step members s (record s {
        nodes =
            put
              (candidate e)
              (tally e.request.term (votes e (s.nodes (candidate e))) (s.nodes (candidate e)))
              s.nodes;
        elections = put_at i (record e { closed = true }) s.elections;
      })
  -- The leader `v` starts the goroutine for `p`, with its term and commit index.
  prepare :
      (v p : String) (j : ℕ)
      → s.exchanges j ≡ none
      → is_leader (s.nodes v) ≡ true
      → mem_text p (keys (s.nodes v).peers) ≡ true
      → Step members s (record s {
        exchanges =
            put_at j (prepared v p (s.nodes v).current_term (s.nodes v).commit_index) s.exchanges;
      })
  -- The goroutine reads the log and sends the request.
  send :
      (j : ℕ) {v p : String} {term commit : ℕ}
      → s.exchanges j ≡ some (prepared v p term commit)
      → Step members s (record s {
        exchanges = put_at j (sent v p (append_request p term commit (s.nodes v))) s.exchanges;
      })
  -- Node `p` handles the request.
  deliver :
      (j now : ℕ) {v p : String} {req : AppendEntriesRequest} {rn : RaftNode}
      {resp : AppendEntriesResponse}
      → s.exchanges j ≡ some (sent v p req)
      → handle_append_entries now req (s.nodes p) ≡ some (rn, resp)
      → Step members s (record s {
        nodes = put p rn s.nodes;
        exchanges = put_at j (replied v p req.entries resp) s.exchanges;
      })
  -- The sender handles the response.
  reply :
      (j : ℕ) {v p : String} {entries : List LogEntry} {resp : AppendEntriesResponse}
      {rn : RaftNode}
      → s.exchanges j ≡ some (replied v p entries resp)
      → handle_append_reply p entries resp (s.nodes v) ≡ some rn
      → Step members s
          (record s { nodes = put v rn s.nodes; exchanges = put_at j finished s.exchanges })
  -- The request or the response is lost. The sender does nothing then, so that a request which is
  -- handled later is one that is lost after `deliver`.
  lose_append :
      (j : ℕ) {x : Exchange}
      → s.exchanges j ≡ some x
      → Step members s (record s { exchanges = put_at j finished s.exchanges })
  -- A client's command.
  command :
      (v : String) (cmd : MetadataCommand) {rn : RaftNode}
      → propose cmd (s.nodes v) ≡ some rn
      → Step members s (record s { nodes = put v rn s.nodes })
  -- The apply loop of `v` takes an entry; the receive from the channel and the update of the index,
  -- which are apart in the code, are one step.
  apply :
      (v : String)
      → Step members s (record s {
        nodes = put v (apply_one {0} {S = Unit} (λ _ t. t) (s.nodes v, tt)).0 s.nodes;
      })

-- The cluster after the nodes are created.
abbrev pub boot : (String → ℕ → String) → (String → Config) → Cluster
boot show cfg = record {
  nodes = λ v. new_raft_node show (cfg v);
  elections = λ _. none;
  exchanges = λ _. none;
}

-- What can be reached in `n` steps.
pub data Reach (members : List String) (init : Cluster) : ℕ → Cluster → Type 0 where
  start : Reach members init 0 init
  next :
      {n : ℕ} {s t : Cluster}
      → Reach members init n s
      → Step members s t
      → Reach members init (suc n) t
