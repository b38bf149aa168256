-- ===== src/Version/Tests.antt =====
-- internal/version/version.go: two clocks, a lease of ten nanoseconds, and replicas of two versions.
use lumeo_fs.Base.{
  ℕ, max, String, true, false, not, Option, none, some, List, [], ◌∷◌, ◌↔◌, All, lookup, insert,
  delete, ◌≡◌, refl, ◌≢◌, arith, eq_iff, pos, negsuc, ◌≤ℤ◌,
}
use lumeo_fs.Version.Clock.{
  VectorClock, get, increment, merge_keys, merge, some_less, some_greater, compare,
}
use lumeo_fs.Version.Order.{◌⊑◌, compare-⊑, merge-least, compare-increment}
use lumeo_fs.Version.Lease.{
  Lease, new_lease, LeaseManager, new_lease_manager, since, is_valid, Grant, leased_to, grant,
  get_lease, check_holder,
}
use lumeo_fs.Version.Window.{Call, grant_call, revoke_call, run, grant-exclusive}
use lumeo_fs.Version.Stamp
use lumeo_fs.Version.Stamp.{TimestampVersion, is_newer_than, compare_lem}
use lumeo_fs.Version.Data.{
  DataVersion, new_data_version, bump, newest_of, all_consistent, validate_version_consistency,
  ConsistencyChecker, check_read_consistency, check_write_permission, forward_to,
}
use lumeo_fs.Version.Checker.{
  Among, AtMost, Agrees, validate_version_consistency_lem, check_write_permission-check_holder,
  check_read_consistency_lem,
}

-- Two clocks of which neither is at most the other.
abbrev left_clock : VectorClock
left_clock = ("n1", 2) ∷ ("n2", 1) ∷ []

abbrev right_clock : VectorClock
right_clock = ("n1", 1) ∷ ("n3", 4) ∷ []

code : Unit {0}
unfolding lookup insert delete increment merge_keys merge some_less some_greater compare grant
    check_holder newest_of all_consistent validate_version_consistency check_read_consistency
    check_write_permission Stamp.compare
code = tt

concurrent : compare left_clock right_clock ≡ pos 0
unfolding code
concurrent = refl

compare-⊑_example :
    (compare left_clock right_clock ≡ negsuc 0
      ↔ left_clock ⊑ right_clock × ¬ right_clock ⊑ left_clock)
    × (compare left_clock right_clock ≡ pos 1
        ↔ right_clock ⊑ left_clock × ¬ left_clock ⊑ right_clock)
    × (compare left_clock right_clock ≡ pos 2 ↔ left_clock ⊑ right_clock × right_clock ⊑ left_clock)
    × (compare left_clock right_clock ≡ pos 0
        ↔ (¬ left_clock ⊑ right_clock) × ¬ right_clock ⊑ left_clock)
compare-⊑_example = compare-⊑ left_clock right_clock

merge-least_example :
    ((j : String)
      → get j (merge right_clock left_clock) ≡ max (get j left_clock) (get j right_clock))
    × (left_clock ⊑ merge right_clock left_clock)
    × (right_clock ⊑ merge right_clock left_clock)
    × ((c : VectorClock) → left_clock ⊑ c → right_clock ⊑ c → merge right_clock left_clock ⊑ c)
merge-least_example = merge-least right_clock left_clock

compare-increment_example : compare (increment "n2" left_clock) left_clock ≡ pos 1
unfolding lookup
compare-increment_example = compare-increment "n2" left_clock (omega arith)

abbrev manager : LeaseManager
manager = new_lease_manager (pos 10)

-- Another node is refused, another chunk is leased and given back, and the holder renews.
abbrev calls : List (ℕ × Call)
calls =
    (101, grant_call "c" "n2")
    ∷ (102, grant_call "d" "n2")
    ∷ (103, revoke_call "d")
    ∷ (105, grant_call "c" "n1")
    ∷ []

free : (grant 100 "c" "n1" manager).1 ≡ Grant.granted (new_lease 100 "c" "n1" (pos 10))
unfolding code
free = refl

grant-exclusive_example :
    (check_holder 109 "c" "n1" (run calls (grant 100 "c" "n1" manager).0) ≡ true)
    × ((other : String)
        → other ≢ "n1"
        → (check_holder 109 "c" other (run calls (grant 100 "c" "n1" manager).0) ≡ false)
          × ((grant 109 "c" other (run calls (grant 100 "c" "n1" manager).0)).1
              ≡ leased_to "c" "n1"))
grant-exclusive_example =
    grant-exclusive 100 10 109 "c" "n1" manager calls free refl
      (
        (omega arith, omega arith, tt),
        (
          (omega arith, omega arith, tt),
          (
            (omega arith, omega arith, λ e. absurd (ground (arith, eq_iff "d" "c"))),
            ((omega arith, omega arith, tt), tt),
          ),
        ),
      )
      (omega arith)

abbrev stamp : ℕ → String → ℕ → TimestampVersion
stamp t id seq = record { timestamp = pos t; node_id = id; sequence = seq }

compare_lem_example :
    (Stamp.compare (stamp 5 "n1" 1) (stamp 5 "n2" 1) ≡ pos 0 ↔ (pos 5 ≡ pos 5) × (◌≡◌ {A = ℕ} 1 1))
    × (Stamp.compare (stamp 5 "n1" 1) (stamp 5 "n2" 1) ≡ pos 1
        ↔ Stamp.compare (stamp 5 "n2" 1) (stamp 5 "n1" 1) ≡ negsuc 0)
    × (is_newer_than (stamp 7 "n3" 0) (stamp 5 "n1" 1) ≡ true
        → is_newer_than (stamp 5 "n1" 1) (stamp 5 "n2" 1) ≡ true
        → is_newer_than (stamp 7 "n3" 0) (stamp 5 "n2" 1) ≡ true)
compare_lem_example = compare_lem (stamp 7 "n3" 0) (stamp 5 "n1" 1) (stamp 5 "n2" 1)

abbrev first_version : DataVersion
first_version = new_data_version 50 "n1"

abbrev second_version : DataVersion
second_version = bump 60 "n1" first_version

abbrev versions : List (Option DataVersion)
versions = some first_version ∷ none ∷ some second_version ∷ []

newest : (validate_version_consistency versions).1 ≡ some second_version
unfolding code
newest = refl

validate_version_consistency_lem_example :
    Among second_version versions
    × All (AtMost second_version) versions
    × ((validate_version_consistency versions).0 ≡ true ↔ All (Agrees second_version) versions)
validate_version_consistency_lem_example =
    validate_version_consistency_lem versions second_version newest

-- Versions that are all missing count as consistent, an empty list does not.
none_there :
    (validate_version_consistency (none ∷ []) ≡ (true, none))
    × (validate_version_consistency [] ≡ (false, none))
unfolding code
none_there = (refl, refl)

abbrev checker : ConsistencyChecker
checker = record { max_clock_skew = pos 20; lease_manager = (grant 55 "c" "n1" manager).0 }

check_write_permission-check_holder_example :
    check_write_permission 60 "c" false checker ≡ forward_to "n1"
    ↔ check_holder 60 "c" "n1" checker.lease_manager ≡ true
check_write_permission-check_holder_example =
    check_write_permission-check_holder 60 "c" "n1" checker

check_read_consistency_lem_example :
    ((check_read_consistency 60 "c" (some first_version) false checker).0 ≡ true
      ↔ ((l : Lease) × (get_lease "c" checker.lease_manager ≡ some l) × (is_valid 60 l ≡ true))
        × ((v : DataVersion) → some first_version ≡ some v → since 60 v.updated_at ≤ℤ pos 20))
    × ((check_read_consistency 60 "c" (some first_version) false checker).1
        ≡ not (check_read_consistency 60 "c" (some first_version) false checker).0)
check_read_consistency_lem_example = check_read_consistency_lem 60 "c" (some first_version) checker
