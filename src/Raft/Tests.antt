-- ===== src/Raft/Tests.antt =====
-- Examples: a cluster of three nodes that elects a leader.
use lumeo_fs.Base.{
  ℕ, String, true, List, [], ◌∷◌, str_eq, if◌then◌else◌, insert, keys, mem_text, ◌≡◌, refl, inl,
  inr, arith, eq_iff, Bool-cases,
}
use lumeo_fs.Raft.Types.{NodeState, PeerConfig, Config}
use lumeo_fs.Raft.Log.{new_raft_node, majority, last_log_index, last_log_term}
use lumeo_fs.Raft.Election.{
  start_election, handle_request_vote, handle_vote_reply, tally, become_leader, init_indexes,
}
use lumeo_fs.Raft.Cluster.{
  Cluster, boot, Reach, start, next, timeout, vote, tell, lose_vote, close, votes, all_counted,
}
use lumeo_fs.Raft.Cluster.Safety.{SameNames, IsConfigured, election_safety}

abbrev address_text : String → ℕ → String
address_text a p = a

abbrev peer : String → PeerConfig
peer n = record { node_id = n; address = n; port = 9000 }

abbrev others_of : String → List PeerConfig
others_of v =
    if str_eq v "n1"
    then peer "n2" ∷ peer "n3" ∷ []
    else if str_eq v "n2"
    then peer "n1" ∷ peer "n3" ∷ []
    else peer "n1" ∷ peer "n2" ∷ []

abbrev config_of : String → Config
config_of v = record { node_id = v; address = v; port = 9000; peers = others_of v }

abbrev three : List String
three = "n1" ∷ "n2" ∷ "n3" ∷ []

three_others :
    (v : String)
    → mem_text v three ≡ true
    → SameNames (v ∷ keys (new_raft_node address_text (config_of v)).peers) three
unfolding new_raft_node insert
three_others v m p = elim (Bool-cases (str_eq "n1" v)) [
  | inl h ↦ rw (← (eq_iff "n1" v).0 h) refl
  | inr h1 ↦ elim (Bool-cases (str_eq "n2" v)) [
    | inl h ↦ rw (← (eq_iff "n2" v).0 h) (omega arith)
    | inr h2 ↦ elim (Bool-cases (str_eq "n3" v)) [
      | inl h ↦ rw (← (eq_iff "n3" v).0 h) (omega arith)
      | inr h3 ↦ cc
    ]
  ]
]

three-IsConfigured : IsConfigured three address_text config_of
three-IsConfigured = record { id = λ v. refl; named = refl; others = three_others }

program : Unit {0}
unfolding new_raft_node insert start_election handle_request_vote handle_vote_reply tally
    become_leader init_indexes majority last_log_index last_log_term votes all_counted
program = tt

-- `n1` stands for election, gets the vote of `n2`, and the request to `n3` is lost.
elected :
    (s : Cluster) × Reach three (boot address_text config_of) 5 s
    × ((s.nodes "n1").state ≡ NodeState.leader)
unfolding program
elected = (
  _,
  next
      (next
        (next (next (next start (timeout "n1" 0 refl refl refl)) (vote 0 "n2" refl refl refl refl))
          (tell 0 "n2" refl refl))
        (lose_vote 0 "n3" refl refl))
      (close 0 refl refl refl),
  refl,
)

election_safety_example : ◌≡◌ {A = String} "n1" "n1"
election_safety_example =
    election_safety three-IsConfigured "n1" "n1" (omega arith) elected.1 elected.2 elected.2 refl
