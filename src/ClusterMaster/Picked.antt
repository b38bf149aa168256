-- ===== src/ClusterMaster/Picked.antt =====
-- internal/master/cluster_master.go: the nodes that both masters pick.
use lumeo_fs.Base.{
  ℕ, zero, suc, ◌+◌, ◌%◌, String, none, some, List, [], ◌∷◌, map, Dict, if◌then◌else◌, length,
  get_elem?, All, lookup, ◌≡◌, refl, ap, ◌∙◌, inl, inr, arith, Bool-cases, Option-cases, ℤ,
}
use lumeo_fs.Common.{is_online, DataNodeInfo}
use lumeo_fs.Metadata.Queries.{visit, online_of}
use lumeo_fs.Master.Alloc.{available, pick, node_address, replica_infos, first_address}
use lumeo_fs.ClusterMaster.Alloc.{first_or_empty}

abbrev pub ids_of : List DataNodeInfo → List String
ids_of = map (λ n. n.id)

-- Every node stands at its own id.
abbrev pub Keyed : Dict DataNodeInfo → Type 0
Keyed nodes = (id : String) (n : DataNodeInfo) → lookup id nodes ≡ some n → n.id ≡ id

-- A node is what its id stands for.
abbrev pub Known : Dict DataNodeInfo → DataNodeInfo → Type 0
Known nodes n = lookup n.id nodes ≡ some n

pub length-ids_of : (ns : List DataNodeInfo) → length (ids_of ns) ≡ length ns
length-ids_of [] = refl
length-ids_of (n ∷ ns) = ap suc (length-ids_of ns)

get_elem?-ids_of :
    (ns : List DataNodeInfo) (k : ℕ)
    → get_elem? (ids_of ns) k ≡ elim (get_elem? ns k) [ none ↦ none | some n ↦ some n.id ]
get_elem?-ids_of [] k = refl
get_elem?-ids_of (n ∷ ns) zero = refl
get_elem?-ids_of (n ∷ ns) (suc k) = get_elem?-ids_of ns k

get_elem?-ids_of_at :
    (ns : List DataNodeInfo) (k : ℕ)
    → get_elem? (ids_of ns) (k % length (ids_of ns))
      ≡ elim (get_elem? ns (k % length ns)) [ none ↦ none | some n ↦ some n.id ]
get_elem?-ids_of_at ns k =
    ap (λ l. get_elem? (ids_of ns) (k % l)) (length-ids_of ns) ∙ get_elem?-ids_of ns (k % length ns)

pub pick-ids_of :
    (ns : List DataNodeInfo) (i j rounds : ℕ)
    → pick (ids_of ns) i j rounds ≡ ids_of (pick ns i j rounds)
unfolding pick
pick-ids_of ns i j zero = refl
pick-ids_of ns i j (suc rounds) =
    let rest = pick-ids_of ns i (suc j) rounds in
    let at = get_elem?-ids_of_at ns (i + j) in
    elim (Option-cases (get_elem? ns ((i + j) % length ns))) [
      | inl n ↦
          let gone : get_elem? (ids_of ns) ((i + j) % length (ids_of ns)) ≡ none = at ∙ rw n refl in
          rw (gone, pick) (rw (n, pick) rest)
      | inr (x, e) ↦
          let there : get_elem? (ids_of ns) ((i + j) % length (ids_of ns)) ≡ some x.id =
            at ∙ rw e refl in
          rw (there, pick) (rw (e, pick) (ap (◌∷◌ x.id) rest))
    ]

pub pick-Known :
    (nodes : Dict DataNodeInfo) (ns : List DataNodeInfo) (i j rounds : ℕ)
    → All (Known nodes) ns
    → All (Known nodes) (pick ns i j rounds)
unfolding pick
pick-Known nodes ns i j zero h = tt
pick-Known nodes ns i j (suc rounds) h = elim (Option-cases (get_elem? ns ((i + j) % length ns))) [
  | inl n ↦ rw (n, pick) (pick-Known nodes ns i (suc j) rounds h)
  | inr (x, e) ↦
      rw (e, pick) (at ns ((i + j) % length ns) x h e, pick-Known nodes ns i (suc j) rounds h)
]
  where
    at :
        (ns : List DataNodeInfo) (k : ℕ) (x : DataNodeInfo)
        → All (Known nodes) ns
        → get_elem? ns k ≡ some x
        → Known nodes x
    at [] k x h e = absurd (ground arith)
    at (n ∷ ns) zero x (k, h) e = let same : n ≡ x = ground arith in rw (← same) k
    at (n ∷ ns) (suc k) x (q, h) e = at ns k x h e

-- The nodes that are online, in both masters.
pub online-available :
    (order : List String) (nodes : Dict DataNodeInfo)
    → Keyed nodes
    → (ids_of (online_of (visit order nodes)) ≡ available order nodes)
      × All (Known nodes) (online_of (visit order nodes))
unfolding online_of visit available
online-available [] nodes keyed = (refl, tt)
online-available (id ∷ ids) nodes keyed =
    let (same, known) = online-available ids nodes keyed in
    elim (Option-cases (lookup id nodes)) [
      | inl n ↦ rw (n, visit, available) (same, known)
      | inr (x, e) ↦
          let at = keyed id x e in
          elim (Bool-cases (is_online x.status)) [
            | inl on ↦
                rw (e, visit, available)
                  (rw (on, online_of, if◌then◌else◌)
                    (
                      (ap (λ k. k ∷ ids_of (online_of (visit ids nodes))) at ∙ ap (◌∷◌ id) same),
                      (ap (λ k. lookup k nodes) at ∙ e, known),
                    ))
            | inr off ↦ rw (e, visit, available) (rw (off, online_of, if◌then◌else◌) (same, known))
          ]
    ]

-- The addresses that the client is told.
pub addresses :
    (show : String → ℤ → String) (nodes : Dict DataNodeInfo) (role : String)
    (picked : List DataNodeInfo)
    → All (Known nodes) picked
    → let infos = replica_infos show nodes role (ids_of picked) in
      let told = map (λ x. show x.address x.port) picked in
      (map (λ r. r.address) infos ≡ told) × (first_address infos ≡ first_or_empty told)
unfolding replica_infos
addresses show nodes role [] h = (refl, refl)
addresses show nodes role (x ∷ xs) (k, h) =
    let one : node_address show nodes x.id ≡ show x.address x.port =
      ap (λ o. elim o [ none ↦ "" | some n ↦ show n.address n.port ]) k in
    (
      ap (λ a. a ∷ map (λ r. r.address) (replica_infos show nodes "SECONDARY" (ids_of xs))) one
          ∙ ap (◌∷◌ (show x.address x.port)) ((addresses show nodes "SECONDARY" xs h).0),
      one,
    )
