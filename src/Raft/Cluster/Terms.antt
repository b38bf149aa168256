-- ===== src/Raft/Cluster/Terms.antt =====
-- No node and no message has a term above the number of steps taken, so that no term wraps.
use lumeo_fs.Base.{ℕ, suc, ◌+◌, ◌≤◌, String, some, List, ◌≡◌, refl, arith}
use lumeo_fs.Raft.Types.{RaftNode, RequestVoteRequest, Config}
use lumeo_fs.Raft.Log.{new_raft_node}
use lumeo_fs.Raft.Election.{start_election, tally}
use lumeo_fs.Raft.Append.{append_request}
use lumeo_fs.Raft.Keeps.{apply_one-SameCore, propose-SameCore}
use lumeo_fs.Raft.Terms.{
  handle_append_entries_term, handle_request_vote_term, handle_vote_reply_term,
  handle_append_reply_term, become_leader_state,
}
use lumeo_fs.Raft.Cluster.Defs.{
  Ballot, asked, answered, counted, Election, Exchange, prepared, sent, replied, finished, Cluster,
  votes, candidate, Step, timeout, vote, tell, lose_vote, vote_late, close, prepare, send, deliver,
  reply, lose_append, command, apply, boot, Reach, start, next,
}

abbrev exchange_term : Exchange → ℕ
exchange_term (prepared v p term commit) = term
exchange_term (sent v p req) = req.term
exchange_term (replied v p entries resp) = resp.term
exchange_term finished = 0

abbrev ballot_term : Ballot → ℕ
ballot_term (answered resp) = resp.term
ballot_term asked = 0
ballot_term (counted b) = 0

pub record Bounds (n : ℕ) (s : Cluster) : Type 0 where
  pub node : (v : String) → (s.nodes v).current_term ≤ n
  pub election : (i : ℕ) (e : Election) → s.elections i ≡ some e → e.request.term ≤ n
  pub ballot :
      (i : ℕ) (e : Election) (p : String) → s.elections i ≡ some e → ballot_term (e.ballots p) ≤ n
  pub exchange : (j : ℕ) (x : Exchange) → s.exchanges j ≡ some x → exchange_term x ≤ n

start_election_term :
    (rn : RaftNode) {rn' : RaftNode} {req : RequestVoteRequest}
    → start_election rn ≡ some (rn', req)
    → (rn'.current_term ≤ rn.current_term + 1) × (req.term ≡ rn'.current_term)
unfolding start_election
start_election_term rn h = ground arith

tally_term : (term n : ℕ) (rn : RaftNode) → (tally term n rn).current_term ≡ rn.current_term
unfolding tally
tally_term term n rn = grind (arith, become_leader_state rn)

append_request_term :
    (p : String) (term commit : ℕ) (rn : RaftNode) → (append_request p term commit rn).term ≡ term
unfolding append_request
append_request_term p term commit rn = refl

pub Step-Bounds :
    {members : List String} {n : ℕ} {s t : Cluster}
    → Step members s t
    → Bounds n s
    → Bounds (suc n) t
Step-Bounds {s} (timeout v i {rn} {req} m f h) b = record {
  node = λ u. ground (arith, b.node u, b.node v, start_election_term (s.nodes v) h);
  election = λ k e q. ground (arith, b.election k e, b.node v, start_election_term (s.nodes v) h);
  ballot = λ k e p q. ground (arith, b.ballot k e p);
  exchange = λ j x q. ground (arith, b.exchange j x q);
}
Step-Bounds {s} (vote i p {e} h m a w) b = record {
  node = λ u. ground (
    arith,
    b.node u,
    b.node p,
    b.election i e h,
    handle_request_vote_term e.request (s.nodes p) w,
  );
  election = λ k f q. ground (arith, b.election k f, b.election i e h);
  ballot = λ k f r q. ground (
    arith,
    b.ballot k f r,
    b.ballot i e r h,
    b.node p,
    handle_request_vote_term e.request (s.nodes p) w,
  );
  exchange = λ j x q. ground (arith, b.exchange j x q);
}
Step-Bounds {s} (tell i p {e} {resp} h a) b = record {
  node = λ u. ground (
    arith,
    b.node u,
    b.node (candidate e),
    b.ballot i e p h,
    handle_vote_reply_term resp (s.nodes (candidate e)),
  );
  election = λ k f q. ground (arith, b.election k f, b.election i e h);
  ballot = λ k f r q. ground (arith, b.ballot k f r, b.ballot i e r h);
  exchange = λ j x q. ground (arith, b.exchange j x q);
}
Step-Bounds {s} (lose_vote i p {e} h a) b = record {
  node = λ u. omega (arith, b.node u);
  election = λ k f q. ground (arith, b.election k f, b.election i e h);
  ballot = λ k f r q. ground (arith, b.ballot k f r, b.ballot i e r h);
  exchange = λ j x q. ground (arith, b.exchange j x q);
}
Step-Bounds {s} (vote_late i p {e} h a w) b = record {
  node = λ u. ground (
    arith,
    b.node u,
    b.node p,
    b.election i e h,
    handle_request_vote_term e.request (s.nodes p) w,
  );
  election = λ k f q. ground (arith, b.election k f);
  ballot = λ k f r q. ground (arith, b.ballot k f r);
  exchange = λ j x q. ground (arith, b.exchange j x q);
}
Step-Bounds {s} (close i {e} h c a) b = record {
  node = λ u. ground (
    arith,
    b.node u,
    b.node (candidate e),
    tally_term e.request.term (votes e (s.nodes (candidate e))) (s.nodes (candidate e)),
  );
  election = λ k f q. ground (arith, b.election k f, b.election i e h);
  ballot = λ k f r q. ground (arith, b.ballot k f r, b.ballot i e r h);
  exchange = λ j x q. ground (arith, b.exchange j x q);
}
Step-Bounds {s} (prepare v p j f h m) b = record {
  node = λ u. omega (arith, b.node u);
  election = λ k f q. ground (arith, b.election k f);
  ballot = λ k f r q. ground (arith, b.ballot k f r);
  exchange = λ k x q. ground (arith, b.exchange k x, b.node v);
}
Step-Bounds {s} (send j {v} {p} {term} {commit} h) b = record {
  node = λ u. omega (arith, b.node u);
  election = λ k f q. ground (arith, b.election k f);
  ballot = λ k f r q. ground (arith, b.ballot k f r);
  exchange = λ k x q.
      ground
        (arith, b.exchange k x, b.exchange j _ h, append_request_term p term commit (s.nodes v));
}
Step-Bounds {s} (deliver j now {v} {p} {req} h w) b = record {
  node = λ u. ground (
    arith,
    b.node u,
    b.node p,
    b.exchange j _ h,
    handle_append_entries_term now req (s.nodes p) w,
  );
  election = λ k f q. ground (arith, b.election k f);
  ballot = λ k f r q. ground (arith, b.ballot k f r);
  exchange = λ k x q.
      ground (arith, b.exchange k x, b.node p, handle_append_entries_term now req (s.nodes p) w);
}
Step-Bounds {s} (reply j {v} {p} {entries} {resp} h w) b = record {
  node = λ u. ground (
    arith,
    b.node u,
    b.node v,
    b.exchange j _ h,
    handle_append_reply_term p entries resp (s.nodes v) w,
  );
  election = λ k f q. ground (arith, b.election k f);
  ballot = λ k f r q. ground (arith, b.ballot k f r);
  exchange = λ k x q. ground (arith, b.exchange k x);
}
Step-Bounds {s} (lose_append j h) b = record {
  node = λ u. omega (arith, b.node u);
  election = λ k f q. ground (arith, b.election k f);
  ballot = λ k f r q. ground (arith, b.ballot k f r);
  exchange = λ k x q. ground (arith, b.exchange k x);
}
Step-Bounds {s} (command v cmd h) b = record {
  node = λ u. ground (arith, b.node u, b.node v, propose-SameCore cmd (s.nodes v) h);
  election = λ k f q. ground (arith, b.election k f);
  ballot = λ k f r q. ground (arith, b.ballot k f r);
  exchange = λ k x q. ground (arith, b.exchange k x);
}
Step-Bounds {s} (apply v) b = record {
  node = λ u.
      ground
        (arith, b.node u, b.node v, apply_one-SameCore {0} {S = Unit} (λ _ t. t) (s.nodes v) tt);
  election = λ k f q. ground (arith, b.election k f);
  ballot = λ k f r q. ground (arith, b.ballot k f r);
  exchange = λ k x q. ground (arith, b.exchange k x);
}

pub boot-Bounds : (show : String → ℕ → String) (cfg : String → Config) → Bounds 0 (boot show cfg)
unfolding new_raft_node
boot-Bounds show cfg = record {
  node = λ v. omega arith;
  election = λ i e q. ground arith;
  ballot = λ i e p q. ground arith;
  exchange = λ j x q. ground arith;
}

pub Reach-Bounds :
    {members : List String} {init : Cluster} {n : ℕ} {s : Cluster}
    → Bounds 0 init
    → Reach members init n s
    → Bounds n s
Reach-Bounds b start = b
Reach-Bounds b (next r st) = Step-Bounds st (Reach-Bounds b r)
