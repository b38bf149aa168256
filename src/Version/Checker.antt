-- ===== src/Version/Checker.antt =====
-- internal/version/version.go: what the consistency checker finds.
use lumeo_fs.Base.{
  ℕ, suc, String, true, false, not, Option, none, some, List, [], ◌∷◌, ◌↔◌, get_elem?, All, lookup,
  ◌≡◌, refl, ◌⊎◌, inl, inr, arith, eq_iff, Bool-cases, Option-cases, ℤ, pos, negsuc, ◌≤ℤ◌, ltb_ℤ,
  eqb_ℤ,
}
use lumeo_fs.Version.Lease.{since, Lease, is_valid, get_lease, check_holder}
use lumeo_fs.Version.Data.{
  DataVersion, is_consistent_with, newest_of, all_consistent, validate_version_consistency,
  ConsistencyChecker, check_read_consistency, forward_to, check_write_permission,
}

abbrev pub AtMost : DataVersion → Option DataVersion → Type 0
AtMost n none = Unit
AtMost n (some v) = v.logical_version ≤ℤ n.logical_version

abbrev pub Agrees : DataVersion → Option DataVersion → Type 0
Agrees n none = Unit
Agrees n (some v) = (v.logical_version ≡ n.logical_version) × (v.checksum ≡ n.checksum)

-- `n` is one of the versions.
abbrev pub Among : DataVersion → List (Option DataVersion) → Type 0
Among n vs = (i : ℕ) × (get_elem? vs i ≡ some (some n))

Among-cons :
    (n : DataVersion) (o : Option DataVersion) (vs : List (Option DataVersion))
    → Among n vs
    → Among n (o ∷ vs)
Among-cons n o vs (i, h) = (suc i, h)

eqb_ℤ-≡ : (a b : ℤ) → (eqb_ℤ a b ≡ true ↔ a ≡ b)
eqb_ℤ-≡ (pos a) (pos b) = ((λ e. ground arith), (λ e. ground arith))
eqb_ℤ-≡ (pos a) (negsuc b) = ((λ e. ground arith), (λ e. ground arith))
eqb_ℤ-≡ (negsuc a) (pos b) = ((λ e. ground arith), (λ e. ground arith))
eqb_ℤ-≡ (negsuc a) (negsuc b) = ((λ e. ground arith), (λ e. ground arith))

is_consistent_with-Agrees :
    (v n : DataVersion) → (is_consistent_with v (some n) ≡ true ↔ Agrees n (some v))
is_consistent_with-Agrees v n =
    let (z1, z2) = eqb_ℤ-≡ v.logical_version n.logical_version in
    let (s1, s2) = eq_iff v.checksum n.checksum in
    ((λ e. (z1 (ground arith), s1 (ground arith))), (λ (a, b). ground (arith, z2 a, s2 b)))

all_consistent-Agrees :
    (vs : List (Option DataVersion)) (n : DataVersion)
    → (all_consistent vs (some n) ≡ true ↔ All (Agrees n) vs)
unfolding all_consistent
all_consistent-Agrees [] n = ((λ e. tt), (λ h. refl))
all_consistent-Agrees (none ∷ vs) n =
    let (a, b) = all_consistent-Agrees vs n in ((λ e. (tt, a e)), (λ (u, h). b h))
all_consistent-Agrees (some v ∷ vs) n =
    let (a, b) = all_consistent-Agrees vs n in
    let (c, d) = is_consistent_with-Agrees v n in
    ((λ e. (c (ground arith), a (ground arith))), (λ (u, h). ground (arith, d u, b h)))

-- What the first loop finds, from the newest version so far.
newest_of_lem :
    (vs : List (Option DataVersion)) (best : Option DataVersion) (n : DataVersion)
    → newest_of vs best ≡ some n
    → ((best ≡ some n) ⊎ Among n vs) × AtMost n best × All (AtMost n) vs
unfolding newest_of
newest_of_lem [] none n h = absurd (ground arith)
newest_of_lem [] (some b) n h = (inl h, ground arith, tt)
newest_of_lem (none ∷ vs) best n h =
    let (w, m, l) = newest_of_lem vs best n h in
    (elim w [ inl e ↦ inl e | inr q ↦ inr (Among-cons n none vs q) ], m, (tt, l))
newest_of_lem (some v ∷ vs) none n h =
    let (w, m, l) = newest_of_lem vs (some v) n h in
    (elim w [ inl e ↦ inr (0, cc) | inr q ↦ inr (Among-cons n (some v) vs q) ], tt, (m, l))
newest_of_lem (some v ∷ vs) (some b) n h =
    elim (Bool-cases (ltb_ℤ b.logical_version v.logical_version)) [
      | inl newer ↦
          let (w, m, l) = newest_of_lem vs (some v) n (rw newer at h) in
          (
            elim w [ inl e ↦ inr (0, cc) | inr q ↦ inr (Among-cons n (some v) vs q) ],
            ground (arith, m),
            (m, l),
          )
      | inr older ↦
          let (w, m, l) = newest_of_lem vs (some b) n (rw older at h) in
          (
            elim w [ inl e ↦ inl e | inr q ↦ inr (Among-cons n (some v) vs q) ],
            m,
            (ground (arith, m), l),
          )
    ]

-- The version that `ValidateVersionConsistency` returns is one of those given, and none has a higher
-- logical version. The answer that goes with it is true exactly if all versions that are there have
-- its logical version and its checksum.
pub validate_version_consistency_lem :
    (vs : List (Option DataVersion)) (n : DataVersion)
    → (validate_version_consistency vs).1 ≡ some n
    → Among n vs
      × All (AtMost n) vs
      × ((validate_version_consistency vs).0 ≡ true ↔ All (Agrees n) vs)
unfolding validate_version_consistency
validate_version_consistency_lem [] n h = absurd (ground arith)
validate_version_consistency_lem (v ∷ vs) n h =
    let (w, m, l) = newest_of_lem (v ∷ vs) none n h in
    (
      elim w [ inl e ↦ absurd (ground arith) | inr q ↦ q ],
      l,
      rw h (all_consistent-Agrees (v ∷ vs) n),
    )

-- A replica that is not the primary forwards a write to exactly the node that the lease manager
-- takes for the holder of the chunk's lease at that time.
pub check_write_permission-check_holder :
    (now : ℕ) (chunk node : String) (c : ConsistencyChecker)
    → (check_write_permission now chunk false c ≡ forward_to node
        ↔ check_holder now chunk node c.lease_manager ≡ true)
unfolding check_write_permission check_holder
check_write_permission-check_holder now chunk node c =
    elim (Option-cases (lookup chunk c.lease_manager.leases)) [
      | inl free ↦ ((λ e. ground arith), (λ e. ground arith))
      | inr (l, at) ↦ (
        (λ e. ground (arith, eq_iff l.holder_node node)),
        (λ e. ground (arith, eq_iff l.holder_node node)),
      )
    ]

-- A replica that is not the primary can read exactly if the chunk has a valid lease and the version
-- it has, if it has one, is not older than the clock skew that is allowed; otherwise, and only then,
-- it needs the primary.
pub check_read_consistency_lem :
    (now : ℕ) (chunk : String) (local : Option DataVersion) (c : ConsistencyChecker)
    → ((check_read_consistency now chunk local false c).0 ≡ true
        ↔ ((l : Lease) × (get_lease chunk c.lease_manager ≡ some l) × (is_valid now l ≡ true))
          × ((v : DataVersion) → local ≡ some v → since now v.updated_at ≤ℤ c.max_clock_skew))
      × ((check_read_consistency now chunk local false c).1
          ≡ not (check_read_consistency now chunk local false c).0)
unfolding check_read_consistency
check_read_consistency_lem now chunk none c =
    elim (Option-cases (lookup chunk c.lease_manager.leases)) [
      | inl free ↦ (((λ e. ground arith), (λ ((l, a, v), f). ground arith)), ground arith)
      | inr (l, at) ↦ (
        ((λ e. ((l, at, ground arith), (λ v n. ground arith))), (λ ((k, a, v), f). ground arith)),
        ground arith,
      )
    ]
check_read_consistency_lem now chunk (some w) c =
    elim (Option-cases (lookup chunk c.lease_manager.leases)) [
      | inl free ↦ (((λ e. ground arith), (λ ((l, a, v), f). ground arith)), ground arith)
      | inr (l, at) ↦ (
        (
          (λ e. ((l, at, ground arith), (λ v n. ground arith))),
          (λ ((k, a, v), f). ground (arith, f w refl)),
        ),
        ground arith,
      )
    ]
