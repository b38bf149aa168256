-- ===== src/Replicas/Primary.antt =====
-- internal/master/replica_manager.go: who becomes the primary when the node of the old one goes
-- offline.
use lumeo_fs.Base.{
  ℕ, zero, suc, ◌+◌, ◌<◌, String, true, false, ◌&&◌, Option, none, some, List, [], ◌∷◌, str_eq,
  length, get_elem?, count, All, ◌≡◌, refl, ap, ◌∙◌, ◌≢◌, ◌⊎◌, inl, inr, arith, eq_iff, Bool-cases,
  lt-length_of_get, ℤ, pos, negsuc, ◌≤ℤ◌, ltb_ℤ,
}
use lumeo_fs.Common.{ReplicaRole, is_primary, ReplicaStatus, ReplicaInfo}
use lumeo_fs.Replicas.Manager.{
  mark_offline, need_primary_election, is_electable, best_candidate, demote, promote,
  elect_new_primary, recover_replicas,
}

-- A replica that may be elected has at most the version `v`.
abbrev pub Below : ℤ → ReplicaInfo → Type 0
Below v r = is_electable r ≡ true → r.version ≤ℤ v

Below-trans : (v w : ℤ) (rs : List ReplicaInfo) → v ≤ℤ w → All (Below v) rs → All (Below w) rs
Below-trans v w [] le h = tt
Below-trans v w (r ∷ rs) le (b, h) = ((λ e. omega (arith, b e)), Below-trans v w rs le h)

-- The replica at index `k` of `rs` wins against all others of `rs`.
abbrev pub Wins : ℕ → ReplicaInfo → List ReplicaInfo → Type 0
Wins k r rs = (get_elem? rs k ≡ some r) × (is_electable r ≡ true) × All (Below r.version) rs

best_candidate-Wins :
    (i : ℕ) (rs : List ReplicaInfo) (best : Option ℕ) (highest : ℤ)
    → ((best_candidate i rs best highest ≡ best) × All (Below highest) rs)
      ⊎ ((k : ℕ) × (r : ReplicaInfo) × (best_candidate i rs best highest ≡ some (i + k))
          × Wins k r rs
          × (highest ≤ℤ r.version))
unfolding best_candidate
best_candidate-Wins i [] best highest = inl (refl, tt)
best_candidate-Wins i (r ∷ rs) best highest =
    elim (Bool-cases (is_electable r && ltb_ℤ highest r.version)) [
      | inl takes ↦ elim (best_candidate-Wins (i + 1) rs (some i) r.version) [
        | inl (e, b) ↦
            let at : i ≡ i + 0 = omega arith in
            inr (
              0,
              r,
              rw (takes, best_candidate) (e ∙ ap some at),
              (refl, ground arith, ((λ u. omega arith), b)),
              ground arith,
            )
        | inr (k, s, e, (g, el, b), le) ↦
            let at : i + 1 + k ≡ i + suc k = omega arith in
            inr (
              suc k,
              s,
              rw (takes, best_candidate) (e ∙ ap some at),
              (g, el, ((λ u. le), b)),
              ground (arith, le),
            )
      ]
      | inr leaves ↦ elim (best_candidate-Wins (i + 1) rs best highest) [
        | inl (e, b) ↦ inl (rw (leaves, best_candidate) e, ((λ u. ground arith), b))
        | inr (k, s, e, (g, el, b), le) ↦
            let at : i + 1 + k ≡ i + suc k = omega arith in
            inr (
              suc k,
              s,
              rw (leaves, best_candidate) (e ∙ ap some at),
              (g, el, ((λ u. ground (arith, le)), b)),
              le,
            )
      ]
    ]

demote-primaries : (rs : List ReplicaInfo) → count (λ r. is_primary r.role) (demote rs) ≡ 0
unfolding demote
demote-primaries [] = refl
demote-primaries (r ∷ rs) = ground (arith, demote-primaries rs)

promote-primaries :
    (k : ℕ) (rs : List ReplicaInfo)
    → k < length rs
    → count (λ r. is_primary r.role) rs ≡ 0
    → count (λ r. is_primary r.role) (promote k rs) ≡ 1
unfolding promote
promote-primaries k [] h z = absurd (omega arith)
promote-primaries zero (r ∷ rs) h z = ground arith
promote-primaries (suc k) (r ∷ rs) h z = ground (arith, promote-primaries k rs (omega arith))

promoted-at :
    (k : ℕ) (rs : List ReplicaInfo) (r : ReplicaInfo)
    → get_elem? rs k ≡ some r
    → (is_electable r ≡ true)
    → get_elem? (promote k (demote rs)) k ≡ some (record r { role = ReplicaRole.primary })
unfolding promote demote
promoted-at k [] r g e = absurd (ground arith)
promoted-at zero (s ∷ rs) r g e =
    let same : s ≡ r = ground arith in
    rw (← same) (elim (Bool-cases (is_primary s.role)) [ inl p ↦ rw p refl | inr p ↦ rw p refl ])
promoted-at (suc k) (s ∷ rs) r g e = promoted-at k rs r g e

pub length-demote : (rs : List ReplicaInfo) → length (demote rs) ≡ length rs
unfolding demote
length-demote [] = refl
length-demote (r ∷ rs) = ap suc (length-demote rs)

-- `electNewPrimary` leaves the replicas if no healthy secondary one has a version of 0 or more, and
-- otherwise makes one of the highest version the only primary.
pub elect_new_primary-Wins :
    (rs : List ReplicaInfo)
    → ((elect_new_primary rs ≡ rs) × All (Below (negsuc 0)) rs)
      ⊎ ((k : ℕ) × (r : ReplicaInfo) × Wins k r rs
          × (count (λ s. is_primary s.role) (elect_new_primary rs) ≡ 1)
          × (get_elem? (elect_new_primary rs) k ≡ some (record r { role = ReplicaRole.primary })))
unfolding elect_new_primary
elect_new_primary-Wins rs = elim (best_candidate-Wins 0 rs none (negsuc 0)) [
  | inl (e, b) ↦ inl (rw (e, elect_new_primary) refl, b)
  | inr (k, r, e, (g, el, b), le) ↦
      let at : 0 + k ≡ k = omega arith in
      let won : elect_new_primary rs ≡ promote k (demote rs) =
        rw (e ∙ ap some at, elect_new_primary) refl in
      let room : k < length (demote rs) =
        omega (arith, length-demote rs, lt-length_of_get rs k g) in
      inr (
        k,
        r,
        (g, el, b),
        ap (count (λ s. is_primary s.role)) won
            ∙ promote-primaries k (demote rs) room (demote-primaries rs),
        ap (λ l. get_elem? l k) won ∙ promoted-at k rs r g el,
      )
]

-- What may be elected after a node is marked was there before, on another node.
marked-before :
    (node : String) (k : ℕ) (rs : List ReplicaInfo) (r : ReplicaInfo)
    → get_elem? (mark_offline node rs) k ≡ some r
    → is_electable r ≡ true
    → (get_elem? rs k ≡ some r) × (r.node_id ≢ node)
unfolding mark_offline
marked-before node k [] r g e = absurd (ground arith)
marked-before node zero (s ∷ rs) r g e = elim (Bool-cases (str_eq s.node_id node)) [
  | inl on ↦
      let same : record s { status = ReplicaStatus.offline } ≡ r = ground arith in
      absurd (ground (arith, rw (← same) at e))
  | inr off ↦
      let same : s ≡ r = ground arith in
      (ap some same, rw (← same) (λ q. absurd (ground (arith, eq_iff s.node_id node))))
]
marked-before node (suc k) (s ∷ rs) r g e = marked-before node k rs r g e

marked-after :
    (node : String) (k : ℕ) (rs : List ReplicaInfo) (r : ReplicaInfo)
    → get_elem? rs k ≡ some r
    → r.node_id ≢ node
    → get_elem? (mark_offline node rs) k ≡ some r
unfolding mark_offline
marked-after node k [] r g ne = absurd (ground arith)
marked-after node zero (s ∷ rs) r g ne =
    let same : s ≡ r = ground arith in
    let off : str_eq r.node_id node ≡ false = ground (arith, eq_iff r.node_id node) in
    rw (same, off) refl
marked-after node (suc k) (s ∷ rs) r g ne = marked-after node k rs r g ne

Below-at :
    (v : ℤ) (k : ℕ) (rs : List ReplicaInfo) (r : ReplicaInfo)
    → All (Below v) rs
    → get_elem? rs k ≡ some r
    → is_electable r ≡ true
    → r.version ≤ℤ v
Below-at v k [] r b g e = absurd (ground arith)
Below-at v zero (s ∷ rs) r (h, b) g e =
    let same : s ≡ r = ground arith in rw (← same) (h (rw (← same) at e))
Below-at v (suc k) (s ∷ rs) r (h, b) g e = Below-at v k rs r b g e

-- When the node of a primary goes offline, and a healthy secondary replica of version 0 or more is
-- on another node, then the chunk has exactly one primary after: a replica that was healthy and
-- secondary, on another node, and of no lower version than that replica.
pub recover_replicas-primary :
    (node : String) (rs : List ReplicaInfo) (j : ℕ) (s : ReplicaInfo)
    → need_primary_election node rs ≡ true
    → get_elem? rs j ≡ some s
    → is_electable s ≡ true
    → s.node_id ≢ node
    → pos 0 ≤ℤ s.version
    → (count (λ r. is_primary r.role) (recover_replicas node rs) ≡ 1)
      × (k : ℕ) × (r : ReplicaInfo) × (get_elem? rs k ≡ some r)
      × (is_electable r ≡ true)
      × (r.node_id ≢ node)
      × (s.version ≤ℤ r.version)
      × (get_elem? (recover_replicas node rs) k ≡ some (record r { role = ReplicaRole.primary }))
unfolding recover_replicas
recover_replicas-primary node rs j s need g e ne v =
    let marked = mark_offline node rs in
    let there = marked-after node j rs s g ne in
    let go : recover_replicas node rs ≡ elect_new_primary marked =
      rw (need, recover_replicas) refl in
    elim (elect_new_primary-Wins marked) [
      | inl (same, b) ↦ absurd (omega (arith, Below-at (negsuc 0) j marked s b there e))
      | inr (k, r, (at, el, b), one, won) ↦
          let (before, elsewhere) = marked-before node k rs r at el in
          (
            ap (count (λ r. is_primary r.role)) go ∙ one,
            k,
            r,
            before,
            el,
            elsewhere,
            Below-at r.version j marked s b there e,
            ap (λ l. get_elem? l k) go ∙ won,
          )
    ]
