-- ===== src/Raft/Cluster/Votes.antt =====
-- Who supports which candidate: the invariant that a node supports one candidate in a term, and that
-- a leader won an election of its term.
use lumeo_fs.Base.{
  ℕ, ◌+◌, ◌/◌, ◌≤◌, ◌<◌, String, Bool, true, false, ◌||◌, Option, none, some, List, Dict, ◌==◌,
  str_eq, length, count, keys, mem_text, ◌≡◌, refl, sym, ◌∙◌, ◌≢◌, ◌⊎◌, inl, inr, arith, eq_iff,
  Bool-cases, count_mono,
}
use lumeo_fs.Raft.Types.{NodeState, RaftNode, RequestVoteRequest}
use lumeo_fs.Raft.Election.{become_leader}
use lumeo_fs.Raft.Keeps.{Keeps}
use lumeo_fs.Raft.Terms.{become_leader_state}
use lumeo_fs.Raft.Cluster.Defs.{
  Ballot, asked, answered, counted, Election, Exchange, Cluster, put, put_at, is_vote, with_ballot,
  candidate,
}

-- A peer that has granted its vote, whether the candidate knows it or not.
abbrev pub granted : Ballot → Bool
granted asked = false
granted (answered resp) = resp.vote_granted
granted (counted b) = b

abbrev pub supports : Election → String → Bool
supports e v = str_eq v (candidate e) || granted (e.ballots v)

-- `e` got the votes that `tally` asks for, over the peers `ps` of its candidate.
abbrev pub HasQuorum : Election → Dict String → Type 0
HasQuorum e ps = (length ps + 1) / 2 + 1 ≤ 1 + count (λ p. is_vote (e.ballots p)) (keys ps)

abbrev pub Won : Cluster → String → Type 0
Won s v =
    (i : ℕ) × (e : Election) × (s.elections i ≡ some e)
    × (candidate e ≡ v)
    × (e.request.term ≡ (s.nodes v).current_term)
    × HasQuorum e (s.nodes v).peers

pub record Inv (members : List String) (peers : String → Dict String) (s : Cluster) : Type 0 where
  pub id : (v : String) → (s.nodes v).config.node_id ≡ v
  pub connected : (v : String) → (s.nodes v).peers ≡ peers v
  pub known :
      (i : ℕ) (e : Election) → s.elections i ≡ some e → mem_text (candidate e) members ≡ true
  pub voted :
      (i : ℕ) (e : Election) (v : String)
      → s.elections i ≡ some e
      → supports e v ≡ true
      → (e.request.term ≤ (s.nodes v).current_term)
        × ((s.nodes v).current_term ≡ e.request.term → (s.nodes v).voted_for ≡ candidate e)
  pub agree :
      (i j : ℕ) (e f : Election) (v : String)
      → s.elections i ≡ some e
      → s.elections j ≡ some f
      → e.request.term ≡ f.request.term
      → supports e v ≡ true
      → supports f v ≡ true
      → candidate e ≡ candidate f
  pub won : (v : String) → (s.nodes v).state ≡ NodeState.leader → Won s v

candidate-ne-empty :
    (members : List String) (c : String)
    → mem_text "" members ≡ false
    → mem_text c members ≡ true
    → c ≢ ""
candidate-ne-empty members c named h e = let h' : mem_text "" members ≡ true = rw e at h in cc

-- Election `e` goes on as `e'`: whoever supports `e'` alone gives it its vote of the present term, and
-- no vote on `voteCh` is taken back.
pub record Follows (s : Cluster) (e e' : Election) : Type 0 where
  pub same_request : e'.request ≡ e.request
  pub supporters :
      (v : String)
      → supports e' v ≡ true
      → (supports e v ≡ true)
        ⊎ (((s.nodes v).current_term ≡ e.request.term) × ((s.nodes v).voted_for ≡ candidate e))
  pub quorum : (ps : Dict String) → HasQuorum e ps → HasQuorum e' ps

-- A ballot that is not on `voteCh` may become a vote that its node gave in its present term.
pub with_ballot-Follows :
    (s : Cluster) (p : String) (b : Ballot) (e : Election)
    → is_vote (e.ballots p) ≡ false
    → (granted b ≡ true
        → (supports e p ≡ true)
          ⊎ (((s.nodes p).current_term ≡ e.request.term) × ((s.nodes p).voted_for ≡ candidate e)))
    → Follows s e (with_ballot p b e)
with_ballot-Follows s p b e kept fresh = record {
  same_request = refl;
  supporters = λ v g. ground (arith, eq_iff p v, fresh);
  quorum = λ ps q. omega (
    arith,
    count_mono (λ v. is_vote (e.ballots v)) (λ v. is_vote (put p b e.ballots v)) (keys ps)
        (λ v h. ground (arith, eq_iff p v)),
  );
}

module _ {members : List String} {peers : String → Dict String} where
  -- The winner of an election stays it while a node keeps its role.
  Won-put :
      {s : Cluster} (v : String) (rn : RaftNode)
      → Keeps (s.nodes v) rn
      → Inv members peers s
      → (u : String) → (put v rn s.nodes u).state ≡ NodeState.leader
      → Won (record s { nodes = put v rn s.nodes }) u
  Won-put {s} v rn k inv u h = elim (Bool-cases (str_eq v u)) [
    | inl here ↦
        let vu : v ≡ u = (eq_iff v u).0 here in
        let h' : rn.state ≡ NodeState.leader = rw here at h in
        let (i, e, found, c, t, q) = inv.won v (k.still h').0 in
        (i, e, found, c ∙ vu, rw here (t ∙ sym (k.still h').1), rw (here, k.same_peers) q)
    | inr other ↦
        let (i, e, found, c, t, q) = inv.won u (rw other at h) in
        (i, e, found, c, rw other t, rw other q)
  ]

  -- A node changes, and the elections do not; who leads is left to be shown.
  change-Inv :
      {s : Cluster} (v : String) (rn : RaftNode)
      → mem_text "" members ≡ false
      → rn.config ≡ (s.nodes v).config
      → rn.peers ≡ (s.nodes v).peers
      → (s.nodes v).current_term ≤ rn.current_term
      → ((s.nodes v).current_term < rn.current_term)
        ⊎ ((s.nodes v).voted_for ≡ "")
        ⊎ (rn.voted_for ≡ (s.nodes v).voted_for)
      → Inv members peers s
      → ((u : String)
          → (put v rn s.nodes u).state ≡ NodeState.leader
          → Won (record s { nodes = put v rn s.nodes }) u)
      → Inv members peers (record s { nodes = put v rn s.nodes })
  change-Inv {s} v rn named cf ps le vt inv lead = record {
    id = λ u. ground (arith, inv.id u, inv.id v, eq_iff v u);
    connected = λ u. ground (arith, inv.connected u, inv.connected v, eq_iff v u);
    known = inv.known;
    voted = λ i e u h g. ground (
      arith,
      inv.voted i e u h g,
      eq_iff v u,
      candidate-ne-empty members (candidate e) named (inv.known i e h),
    );
    agree = inv.agree;
    won = lead;
  }

  pub node-Inv :
      {s : Cluster} (v : String) (rn : RaftNode)
      → mem_text "" members ≡ false
      → Keeps (s.nodes v) rn
      → Inv members peers s
      → Inv members peers (record s { nodes = put v rn s.nodes })
  node-Inv v rn named k inv =
      change-Inv v rn named k.same_config k.same_peers k.term_le k.vote inv (Won-put v rn k inv)

  -- The winner of an election becomes the leader.
  pub become_leader-Inv :
      {s : Cluster} (v : String)
      → mem_text "" members ≡ false
      → Won s v
      → Inv members peers s
      → Inv members peers (record s { nodes = put v (become_leader (s.nodes v)) s.nodes })
  become_leader-Inv {s} v named (i, e, found, c, t, q) inv =
      change-Inv v rn named same.same_config same.same_peers (omega (arith, same.same_term))
        (inr (inr same.same_vote)) inv
        (λ u h. elim (Bool-cases (str_eq v u)) [
          | inl here ↦ (
            i,
            e,
            found,
            c ∙ (eq_iff v u).0 here,
            rw here (t ∙ sym same.same_term),
            rw (here, same.same_peers) q,
          )
          | inr other ↦
              let (j, f, had, c', t', q') = inv.won u (rw other at h) in
              (j, f, had, c', rw other t', rw other q')
        ])
    where
      rn : RaftNode
      rn = become_leader (s.nodes v)

      open (become_leader_state (s.nodes v)) use {«0» as same}

  -- A new election, in which the candidate alone has voted.
  pub open-Inv :
      {s : Cluster} (i : ℕ) (req : RequestVoteRequest)
      → s.elections i ≡ none
      → mem_text req.candidate_id members ≡ true
      → (s.nodes req.candidate_id).current_term ≡ req.term
      → (s.nodes req.candidate_id).voted_for ≡ req.candidate_id
      → Inv members peers s
      → Inv members peers (record s {
        elections =
            put_at i (record { request = req; ballots = λ _. asked; closed = false }) s.elections;
      })
  open-Inv {s} i req free m t w inv = record {
    id = inv.id;
    connected = inv.connected;
    known = λ k f h. ground (arith, inv.known k f);
    voted = λ k f v h g. ground (arith, inv.voted k f v, eq_iff v req.candidate_id);
    agree = λ j k f f' v h h' same g g'.
        ground (
          arith,
          inv.agree j k f f' v,
          inv.voted j f v,
          inv.voted k f' v,
          eq_iff v req.candidate_id,
        );
    won = λ v h. let (j, f, had, c, t', q) = inv.won v h in (j, f, ground arith, c, t', q);
  }

  module _ {s : Cluster} (i : ℕ) (e e' : Election) (found : s.elections i ≡ some e)
      (go : Follows s e e') (inv : Inv members peers s) where
    voted-Follows :
        (v : String)
        → supports e' v ≡ true
        → (e.request.term ≤ (s.nodes v).current_term)
          × ((s.nodes v).current_term ≡ e.request.term → (s.nodes v).voted_for ≡ candidate e)
    voted-Follows v g = elim (go.supporters v g) [
      | inl old ↦ inv.voted i e v found old
      | inr (t, w) ↦ (omega (arith, t), λ _. w)
    ]

    agree-Follows :
        (j : ℕ) (f : Election) (v : String)
        → s.elections j ≡ some f
        → e.request.term ≡ f.request.term
        → supports e' v ≡ true
        → supports f v ≡ true
        → candidate e ≡ candidate f
    agree-Follows j f v h same g k = elim (go.supporters v g) [
      | inl old ↦ inv.agree i j e f v found h same old k
      | inr (t, w) ↦ sym w ∙ (inv.voted j f v h k).1 (t ∙ same)
    ]

    found-put :
        (k : ℕ) (f : Election)
        → put_at i e' s.elections k ≡ some f
        → (f ≡ e') ⊎ (s.elections k ≡ some f)
    found-put k f h = ground arith

    -- An election goes on, and the nodes do not change.
    pub election-Inv : Inv members peers (record s { elections = put_at i e' s.elections })
    election-Inv = record {
      id = inv.id;
      connected = inv.connected;
      known = λ k f h. ground (arith, inv.known k f, inv.known i e found, go.same_request);
      voted = λ k f v h g.
          ground (arith, go.same_request, found-put k f h, voted-Follows v, inv.voted k f v);
      agree = λ j k f f' v h h' same g g'. ground (
        arith,
        go.same_request,
        found-put j f h,
        found-put k f' h',
        agree-Follows j f v,
        agree-Follows k f' v,
        inv.agree j k f f' v,
      );
      won = λ v h.
          let (j, f, had, c, t, q) = inv.won v h in
          elim (Bool-cases (i == j)) [
            | inl here ↦
                let fe : f ≡ e = ground arith in
                (
                  i,
                  e',
                  ground arith,
                  ground (arith, go.same_request),
                  ground (arith, go.same_request),
                  go.quorum (s.nodes v).peers (rw fe at q),
                )
            | inr other ↦ (j, f, ground arith, c, t, q)
          ];
    }

  -- Only the exchanges change.
  pub exchange-Inv :
      {s : Cluster} (x : ℕ → Option Exchange)
      → Inv members peers s
      → Inv members peers (record s { exchanges = x })
  exchange-Inv x inv = record {
    id = inv.id;
    connected = inv.connected;
    known = inv.known;
    voted = inv.voted;
    agree = inv.agree;
    won = inv.won;
  }
