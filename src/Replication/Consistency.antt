-- ===== src/Replication/Consistency.antt =====
-- internal/replication/replica_manager.go: what the comparison of versions decides.
use lumeo_fs.Base.{
  true, false, not, Option, none, some, List, [], ◌∷◌, any, All, ◌≡◌, refl, ◌↔◌, ◌⊎◌, inl, inr, sym,
  ◌∙◌, Option-cases, arith, eq_iff,
}
use mathlib.Core.Path.{subst}
use lumeo_fs.Version.Data.{DataVersion, is_consistent_with}
use lumeo_fs.Replication.Manager.{VersionInfo, matches, validate_consistency}

-- Two replicas agree: in the checksum that was told, and, where both have a version, in the logical
-- version and its checksum.
abbrev VersionsAgree : Option DataVersion → Option DataVersion → Type 0
VersionsAgree none b = Unit
VersionsAgree (some a) none = Unit
VersionsAgree (some a) (some b) =
    (a.logical_version ≡ b.logical_version) × (a.checksum ≡ b.checksum)

abbrev Agrees : VersionInfo → VersionInfo → Type 0
Agrees first v = VersionsAgree v.version first.version × (v.checksum ≡ first.checksum)

versions-agree :
    (a b : Option DataVersion)
    → ((elim a [
      | none ↦ true
      | some x ↦ elim b [ none ↦ true | some y ↦ is_consistent_with x (some y) ]
    ])
        ≡ true)
      ↔ VersionsAgree a b
versions-agree none b = (λ h. tt, λ h. refl)
versions-agree (some a) none = (λ h. tt, λ h. refl)
versions-agree (some a) (some b) = (
  λ h. (ground (arith, h), ground (arith, h, eq_iff a.checksum b.checksum)),
  λ h. ground (arith, h.0, h.1, eq_iff a.checksum b.checksum),
)

matches-Agrees : (first v : VersionInfo) → (matches first v ≡ true) ↔ Agrees first v
unfolding matches
matches-Agrees first v =
    let (to, from) = versions-agree v.version first.version in
    (
      λ h. (to (ground (arith, h)), ground (arith, h, eq_iff v.checksum first.checksum)),
      λ h. let p = from (h.0) in ground (arith, p, h.1, eq_iff v.checksum first.checksum),
    )

any-not-matches :
    (first : VersionInfo) (vs : List VersionInfo)
    → (not (any (λ v. not (matches first v)) vs) ≡ true) ↔ All (Agrees first) vs
any-not-matches first [] = (λ h. tt, λ h. refl)
any-not-matches first (v ∷ vs) =
    let (to, from) = matches-Agrees first v in
    let (tos, froms) = any-not-matches first vs in
    (
      λ h. (to (ground (arith, h)), tos (ground (arith, h))),
      λ h. let p = from (h.0) in let q = froms (h.1) in ground (arith, p, q),
    )

All-map :
    {P Q : VersionInfo → Type 0}
    → ((v : VersionInfo) → P v → Q v)
    → (vs : List VersionInfo) → All P vs
    → All Q vs
All-map f [] h = tt
All-map f (v ∷ vs) (p, ps) = (f v p, All-map f vs ps)

-- Two replicas were told with the same checksum.
abbrev SameSum : VersionInfo → VersionInfo → Type 0
SameSum v w = v.checksum ≡ w.checksum

-- The versions of two replicas agree, where both have one.
abbrev SameVersion : VersionInfo → VersionInfo → Type 0
SameVersion v w = VersionsAgree v.version w.version

-- So it is with any two replicas of a list.
abbrev Pairwise : (VersionInfo → VersionInfo → Type 0) → List VersionInfo → Type 0
Pairwise R vs = All (λ v. All (R v) vs) vs

-- What a comparison is to find out: any two replicas have the same checksum, and any two that have a
-- version agree in it. Where the first has no version, only the checksums count.
pub record Consistent (first : VersionInfo) (vs : List VersionInfo) : Type 0 where
  pub sums : Pairwise SameSum (first ∷ vs)
  pub versions : (first.version ≡ none) ⊎ Pairwise SameVersion (first ∷ vs)

-- A version that two others agree with makes them agree.
VersionsAgree-join :
    (a : DataVersion) (x y : Option DataVersion)
    → VersionsAgree x (some a)
    → VersionsAgree y (some a)
    → VersionsAgree x y
VersionsAgree-join a none y h k = tt
VersionsAgree-join a (some x) none h k = tt
VersionsAgree-join a (some x) (some y) h k = (h.0 ∙ sym k.0, h.1 ∙ sym k.1)

VersionsAgree-refl : (x : Option DataVersion) → VersionsAgree x x
VersionsAgree-refl none = tt
VersionsAgree-refl (some x) = (refl, refl)

VersionsAgree-none : (x : Option DataVersion) → VersionsAgree x none
VersionsAgree-none none = tt
VersionsAgree-none (some x) = tt

All-both :
    {P Q R : VersionInfo → Type 0}
    → ((v : VersionInfo) → P v → Q v → R v)
    → (vs : List VersionInfo) → All P vs
    → All Q vs
    → All R vs
All-both f [] h k = tt
All-both f (v ∷ vs) (p, ps) (q, qs) = (f v p q, All-both f vs ps qs)

Agrees-Consistent :
    (first : VersionInfo) (vs : List VersionInfo) → All (Agrees first) vs → Consistent first vs
Agrees-Consistent first vs h =
    let all : All (Agrees first) (first ∷ vs) = ((VersionsAgree-refl first.version, refl), h) in
    record {
      sums = All-map (λ v p. All-map (λ w q. p.1 ∙ sym q.1) (first ∷ vs) all) (first ∷ vs) all;
      versions = elim (Option-cases first.version) [
        | inl n ↦ inl n
        | inr (a, e) ↦ inr (
            All-map
              (λ v p.
                All-map
                  (λ w q.
                    VersionsAgree-join a v.version w.version (subst (VersionsAgree v.version) e p.0)
                      (subst (VersionsAgree w.version) e q.0))
                  (first ∷ vs) all)
              (first ∷ vs) all)
      ];
    }

Consistent-Agrees :
    (first : VersionInfo) (vs : List VersionInfo) → Consistent first vs → All (Agrees first) vs
Consistent-Agrees first vs c =
    let versions : All (λ v. SameVersion v first) vs = elim c.versions [
      | inl n ↦
          All-map (λ v p. subst (VersionsAgree v.version) (sym n) (VersionsAgree-none v.version)) vs
            c.sums.1
      | inr p ↦ All-map (λ v q. q.0) vs p.1
    ] in
    All-both (λ v p q. (p, q.0)) vs versions c.sums.1

-- The comparison of the versions of some replicas succeeds exactly if any two have the same checksum
-- and either the first has no version, or any two that have a version agree in the logical version
-- and its checksum. Of no replicas it fails.
pub validate_consistency_lem :
    (first : VersionInfo) (vs : List VersionInfo)
    → (validate_consistency [] ≡ false)
      × ((validate_consistency (first ∷ vs) ≡ true) ↔ Consistent first vs)
unfolding validate_consistency
validate_consistency_lem first vs =
    let (to, from) = any-not-matches first vs in
    (refl, (λ h. Agrees-Consistent first vs (to h), λ c. from (Consistent-Agrees first vs c)))
