-- ===== src/Raft/Cluster/Safety.antt =====
-- At most one leader in a term.
use lumeo_fs.Base.{
  ℕ, suc, ◌+◌, ◌<◌, String, Bool, true, false, List, [], ◌∷◌, Dict, length, count, keys, mem_text,
  ◌≡◌, refl, sym, ap, ◌∙◌, arith, str_eq_refl, count_overlap, count_mono,
}
use lumeo_fs.Raft.Types.{NodeState, Config}
use lumeo_fs.Raft.Log.{new_raft_node}
use lumeo_fs.Raft.Cluster.Terms.{boot-Bounds, Reach-Bounds}
use lumeo_fs.Raft.Cluster.Votes.{supports, HasQuorum, Inv}
use lumeo_fs.Raft.Cluster.Steps.{Step-Inv}
use lumeo_fs.Raft.Cluster.Defs.{Election, Cluster, is_vote, candidate, boot, Reach, start, next}

-- Two lists hold the same names, as often.
abbrev pub SameNames : List String → List String → Type 0
SameNames xs ys = (p : String → Bool) → count p xs ≡ count p ys

-- Each node's configuration names it and, as its peers, the other members.
pub record IsConfigured (members : List String) (show : String → ℕ → String) (cfg : String → Config)
    : Type 0 where
  pub id : (v : String) → (cfg v).node_id ≡ v
  pub named : mem_text "" members ≡ false
  pub others :
      (v : String)
      → mem_text v members ≡ true
      → SameNames (v ∷ keys (new_raft_node show (cfg v)).peers) members

count-true {ℓ} : {A : Type ℓ} (xs : List A) → count (λ _. true) xs ≡ length xs
count-true [] = refl
count-true (x ∷ xs) = omega (arith, count-true xs)

length-keys {ℓ} : {V : Type ℓ} (m : Dict V) → length (keys m) ≡ length m
length-keys [] = refl
length-keys ((k, v) ∷ m) = ap suc (length-keys m)

vote→supports : (e : Election) (p : String) → is_vote (e.ballots p) ≡ true → supports e p ≡ true
vote→supports e p h = ground arith

-- The winner of an election is supported by more than half of the members.
quorum-majority :
    (members : List String) (ps : Dict String) (e : Election)
    → SameNames (candidate e ∷ keys ps) members
    → HasQuorum e ps
    → length members < count (supports e) members + count (supports e) members
quorum-majority members ps e same q = ground (
  arith,
  same (supports e),
  same (λ _. true),
  count-true members,
  count-true (keys ps),
  length-keys ps,
  str_eq_refl (candidate e),
  count_mono (λ p. is_vote (e.ballots p)) (supports e) (keys ps) (vote→supports e),
)

module _ {members : List String} {show : String → ℕ → String} {cfg : String → Config}
    (good : IsConfigured members show cfg) where
  abbrev connections : String → Dict String
  connections v = (new_raft_node show (cfg v)).peers

  boot-Inv : Inv members connections (boot show cfg)
  unfolding new_raft_node
  boot-Inv = record {
    id = good.id;
    connected = λ v. refl;
    known = λ i e h. ground arith;
    voted = λ i e v h g. ground arith;
    agree = λ i j e f v h. ground arith;
    won = λ v h. cc;
  }

  Reach-Inv :
      {n : ℕ} {s : Cluster}
      → n < 18446744073709551616
      → Reach members (boot show cfg) n s
      → Inv members connections s
  Reach-Inv few start = boot-Inv
  Reach-Inv few (next r st) =
      Step-Inv good.named few (Reach-Bounds (boot-Bounds show cfg) r) st (Reach-Inv (omega arith) r)

  -- In a cluster whose nodes name each other as peers, whatever the order in which timers fire and
  -- messages are handled or lost, two nodes that are leaders in the same term are one node, as long
  -- as fewer than 2 ^ 64 steps were taken.
  pub election_safety :
      {n : ℕ} {s : Cluster} (a b : String)
      → n < 18446744073709551616
      → Reach members (boot show cfg) n s
      → (s.nodes a).state ≡ NodeState.leader
      → (s.nodes b).state ≡ NodeState.leader
      → (s.nodes a).current_term ≡ (s.nodes b).current_term
      → a ≡ b
  election_safety {s} a b few r la lb same =
      let inv = Reach-Inv few r in
      let (i, e, he, ea, et, eq) = inv.won a la in
      let (j, f, hf, fb, ft, fq) = inv.won b lb in
      let ma =
        quorum-majority members (connections (candidate e)) e
          (good.others (candidate e) (inv.known i e he)) (rw (ea, ← inv.connected a) eq) in
      let mb =
        quorum-majority members (connections (candidate f)) f
          (good.others (candidate f) (inv.known j f hf)) (rw (fb, ← inv.connected b) fq) in
      let (v, pe, pf) = count_overlap (supports e) (supports f) members (omega (arith, ma, mb)) in
      sym ea ∙ inv.agree i j e f v he hf (et ∙ same ∙ sym ft) pe pf ∙ fb
