-- ===== src/Raft/Cluster/Steps.antt =====
-- Every step of a cluster keeps the invariant of the votes.
use lumeo_fs.Base.{
  ℕ, suc, ◌≤◌, ◌<◌, String, true, false, none, some, List, Dict, mem_text, ◌≡◌, refl, sym, ◌∙◌, ◌⊎◌,
  inl, inr, arith, eq_iff, str_eq_refl,
}
use lumeo_fs.Raft.Types.{RaftNode, RequestVoteRequest, RequestVoteResponse}
use lumeo_fs.Raft.Log.{majority}
use lumeo_fs.Raft.Election.{
  start_election, handle_request_vote, handle_vote_reply, tally, become_leader,
}
use lumeo_fs.Raft.Keeps.{
  SameCore-Keeps, apply_one-SameCore, propose-SameCore, handle_append_entries-Keeps,
  handle_request_vote-Keeps, handle_vote_reply-Keeps, handle_append_reply-Keeps,
  start_election-Keeps,
}
use lumeo_fs.Raft.Cluster.Terms.{Bounds}
use lumeo_fs.Raft.Cluster.Votes.{
  Inv, Follows, with_ballot-Follows, election-Inv, node-Inv, become_leader-Inv, open-Inv,
  exchange-Inv,
}
use lumeo_fs.Raft.Cluster.Defs.{
  asked, answered, counted, Election, Cluster, put, put_at, votes, with_ballot, candidate, Step,
  timeout, vote, tell, lose_vote, vote_late, close, prepare, send, deliver, reply, lose_append,
  command, apply,
}

start_election_vote :
    (rn : RaftNode) {rn' : RaftNode} {req : RequestVoteRequest}
    → start_election rn ≡ some (rn', req)
    → (rn'.current_term ≡ req.term)
      × (rn'.voted_for ≡ req.candidate_id)
      × (req.candidate_id ≡ rn.config.node_id)
unfolding start_election
start_election_vote rn h = ground arith

-- A vote is granted to the candidate that the node then stands for, in the term of the request.
granted_vote :
    (req : RequestVoteRequest) (rn : RaftNode) {rn' : RaftNode} {resp : RequestVoteResponse}
    → handle_request_vote req rn ≡ some (rn', resp)
    → resp.vote_granted ≡ true
    → (rn'.current_term ≡ req.term) × (rn'.voted_for ≡ req.candidate_id)
unfolding handle_request_vote
granted_vote req rn h g = ground arith

reply_vote :
    (resp : RequestVoteResponse) (rn : RaftNode)
    → (handle_vote_reply resp rn).1 ≡ true
    → resp.vote_granted ≡ true
unfolding handle_vote_reply
reply_vote resp rn h = ground arith

tally-cases :
    (t n : ℕ) (rn : RaftNode)
    → (tally t n rn ≡ rn)
      ⊎ ((tally t n rn ≡ become_leader rn) × (rn.current_term ≡ t) × (majority rn ≤ n))
unfolding tally
tally-cases t n rn = ground arith

closed-Follows : (s : Cluster) (e : Election) → Follows s e (record e { closed = true })
closed-Follows s e = record { same_request = refl; supporters = λ v g. inl g; quorum = λ ps q. q }

module _ {members : List String} {peers : String → Dict String}
    (named : mem_text "" members ≡ false) where
  timeout-Inv :
      {n : ℕ} {s : Cluster} (v : String) (i : ℕ) (rn : RaftNode) (req : RequestVoteRequest)
      → suc n < 18446744073709551616
      → Bounds n s
      → mem_text v members ≡ true
      → s.elections i ≡ none
      → start_election (s.nodes v) ≡ some (rn, req)
      → Inv members peers s
      → Inv members peers (record s {
        nodes = put v rn s.nodes;
        elections =
            put_at i (record { request = req; ballots = λ _. asked; closed = false }) s.elections;
      })
  timeout-Inv {s} v i rn req few b m f h inv =
      let (t, w, c) = start_election_vote (s.nodes v) h in
      let cv : req.candidate_id ≡ v = c ∙ inv.id v in
      open-Inv {s = record s { nodes = put v rn s.nodes }} i req f (rw cv m)
        (ground (arith, eq_iff v req.candidate_id)) (ground (arith, eq_iff v req.candidate_id))
        (node-Inv v rn named (start_election-Keeps (s.nodes v) (omega (arith, b.node v)) h) inv)

  vote-Inv :
      {s : Cluster} (i : ℕ) (p : String) (e : Election) (rn : RaftNode) (resp : RequestVoteResponse)
      → s.elections i ≡ some e
      → e.ballots p ≡ asked
      → handle_request_vote e.request (s.nodes p) ≡ some (rn, resp)
      → Inv members peers s
      → Inv members peers (record s {
        nodes = put p rn s.nodes;
        elections = put_at i (with_ballot p (answered resp) e) s.elections;
      })
  vote-Inv {s} i p e rn resp h a w inv =
      let s' : Cluster = record s { nodes = put p rn s.nodes } in
      election-Inv {s = s'} i e (with_ballot p (answered resp) e) h
        (with_ballot-Follows s' p (answered resp) e (ground arith)
          (λ g. inr (ground (arith, str_eq_refl p, granted_vote e.request (s.nodes p) w g))))
        (node-Inv p rn named (handle_request_vote-Keeps e.request (s.nodes p) w) inv)

  tell-Inv :
      {s : Cluster} (i : ℕ) (p : String) (e : Election) (resp : RequestVoteResponse)
      → s.elections i ≡ some e
      → e.ballots p ≡ answered resp
      → Inv members peers s
      → Inv members peers (record s {
        nodes = put (candidate e) (handle_vote_reply resp (s.nodes (candidate e))).0 s.nodes;
        elections =
            put_at i
              (with_ballot p (counted (handle_vote_reply resp (s.nodes (candidate e))).1) e)
              s.elections;
      })
  tell-Inv {s} i p e resp h a inv =
      let c = candidate e in
      let (rn, b) = handle_vote_reply resp (s.nodes c) in
      let s' : Cluster = record s { nodes = put c rn s.nodes } in
      election-Inv {s = s'} i e (with_ballot p (counted b) e) h
        (with_ballot-Follows s' p (counted b) e (ground arith)
          (λ g. inl (ground (arith, reply_vote resp (s.nodes c) g))))
        (node-Inv c rn named (handle_vote_reply-Keeps resp (s.nodes c)) inv)

  tally-Inv :
      {s : Cluster} (i : ℕ) (e : Election)
      → s.elections i ≡ some e
      → Inv members peers s
      → Inv members peers (record s {
        nodes =
            put
              (candidate e)
              (tally e.request.term (votes e (s.nodes (candidate e))) (s.nodes (candidate e)))
              s.nodes;
      })
  unfolding votes majority
  tally-Inv {s} i e h inv =
      let c = candidate e in
      let rn = s.nodes c in
      elim (tally-cases e.request.term (votes e rn) rn) [
        | inl same ↦
            node-Inv c (tally e.request.term (votes e rn) rn) named
              (rw same (
                SameCore-Keeps (record {
                  same_config = refl;
                  same_peers = refl;
                  same_term = refl;
                  same_vote = refl;
                  same_state = refl;
                })))
              inv
        | inr (lead, t, q) ↦ rw lead (become_leader-Inv c named (i, e, h, refl, sym t, q) inv)
      ]

  pub Step-Inv :
      {n : ℕ} {s t : Cluster}
      → suc n < 18446744073709551616
      → Bounds n s
      → Step members s t
      → Inv members peers s
      → Inv members peers t
  Step-Inv few b (timeout v i {rn} {req} m f h) inv = timeout-Inv v i rn req few b m f h inv
  Step-Inv few b (vote i p {e} {rn} {resp} h m a w) inv = vote-Inv i p e rn resp h a w inv
  Step-Inv few b (tell i p {e} {resp} h a) inv = tell-Inv i p e resp h a inv
  Step-Inv {s} few b (lose_vote i p {e} h a) inv =
      election-Inv i e (with_ballot p (counted false) e) h
        (with_ballot-Follows s p (counted false) e (ground arith) (λ g. cc)) inv
  Step-Inv {s} few b (vote_late i p {e} {rn} h a w) inv =
      node-Inv p rn named (handle_request_vote-Keeps e.request (s.nodes p) w) inv
  Step-Inv {s} few b (close i {e} h c a) inv =
      election-Inv i e (record e { closed = true }) h (closed-Follows _ e) (tally-Inv i e h inv)
  Step-Inv few b (prepare v p j f h m) inv = exchange-Inv _ inv
  Step-Inv few b (send j h) inv = exchange-Inv _ inv
  Step-Inv {s} few b (deliver j now {v} {p} {req} {rn} h w) inv =
      exchange-Inv _ (node-Inv p rn named (handle_append_entries-Keeps now req (s.nodes p) w) inv)
  Step-Inv {s} few b (reply j {v} {p} {entries} {resp} {rn} h w) inv =
      exchange-Inv _
        (node-Inv v rn named (handle_append_reply-Keeps p entries resp (s.nodes v) w) inv)
  Step-Inv few b (lose_append j h) inv = exchange-Inv _ inv
  Step-Inv {s} few b (command v cmd {rn} h) inv =
      node-Inv v rn named (SameCore-Keeps (propose-SameCore cmd (s.nodes v) h)) inv
  Step-Inv {s} few b (apply v) inv =
      node-Inv v _ named
        (SameCore-Keeps (apply_one-SameCore {0} {S = Unit} (λ _ t. t) (s.nodes v) tt)) inv
