-- ===== src/Version/Data.antt =====
-- internal/version/version.go: `DataVersion` and `ConsistencyChecker`. A pointer that may be nil is
-- an option; an operation takes one time for all its reads of the clock.
use lumeo_fs.Base.{
  ℕ, String, Bool, true, false, not, ◌&&◌, Option, none, some, List, [], ◌∷◌, str_eq, if◌then◌else◌,
  ℤ, pos, ltb_ℤ, eqb_ℤ, suc_i64,
}
use lumeo_fs.Version.Clock.{VectorClock, increment}
use lumeo_fs.Version.Lease.{since, is_valid, LeaseManager, new_lease_manager, get_lease}

-- `DataVersion`
pub record DataVersion : Type 0 where
  pub logical_version : ℤ
  pub vector_clock : VectorClock
  pub timestamp : ℕ
  pub node_id : String
  pub checksum : String
  pub updated_at : ℕ

-- `NewDataVersion`
abbrev pub new_data_version : ℕ → String → DataVersion
new_data_version now id = record {
  logical_version = pos 1;
  vector_clock = (id, 1) ∷ [];
  timestamp = now;
  node_id = id;
  checksum = "";
  updated_at = now;
}

-- `Increment`
abbrev pub bump : ℕ → String → DataVersion → DataVersion
bump now id dv = record dv {
  logical_version = suc_i64 dv.logical_version;
  vector_clock = increment id dv.vector_clock;
  timestamp = now;
  node_id = id;
  updated_at = now;
}

-- `IsNewerThan`
abbrev pub is_newer_than : DataVersion → Option DataVersion → Bool
is_newer_than dv none = true
is_newer_than dv (some other) = ltb_ℤ other.logical_version dv.logical_version

-- `IsConsistentWith`
abbrev pub is_consistent_with : DataVersion → Option DataVersion → Bool
is_consistent_with dv none = false
is_consistent_with dv (some other) =
    eqb_ℤ dv.logical_version other.logical_version && str_eq dv.checksum other.checksum

-- The first loop of `ValidateVersionConsistency`.
unfoldable pub newest_of : List (Option DataVersion) → Option DataVersion → Option DataVersion
newest_of [] newest = newest
newest_of (none ∷ vs) newest = newest_of vs newest
newest_of (some v ∷ vs) newest = newest_of vs (if is_newer_than v newest then some v else newest)

-- The second loop.
unfoldable pub all_consistent : List (Option DataVersion) → Option DataVersion → Bool
all_consistent [] newest = true
all_consistent (none ∷ vs) newest = all_consistent vs newest
all_consistent (some v ∷ vs) newest = is_consistent_with v newest && all_consistent vs newest

-- `ValidateVersionConsistency`
unfoldable pub validate_version_consistency : List (Option DataVersion) → Bool × Option DataVersion
validate_version_consistency [] = (false, none)
validate_version_consistency (v ∷ vs) =
    let newest = newest_of (v ∷ vs) none in (all_consistent (v ∷ vs) newest, newest)

-- `ConsistencyChecker`
pub record ConsistencyChecker : Type 0 where
  pub max_clock_skew : ℤ
  pub lease_manager : LeaseManager

-- `NewConsistencyChecker`
abbrev pub new_consistency_checker : ℤ → ℤ → ConsistencyChecker
new_consistency_checker skew duration = record {
  max_clock_skew = skew;
  lease_manager = new_lease_manager duration;
}

-- `CheckReadConsistency`: whether the reader can read, and whether it needs the primary. The error
-- is always nil, and the node that reads decides nothing.
unfoldable pub check_read_consistency :
    ℕ → String → Option DataVersion → Bool → ConsistencyChecker → Bool × Bool
check_read_consistency now chunk local is_primary c =
    if is_primary then (true, false) else elim (get_lease chunk c.lease_manager) [
      | none ↦ (false, true)
      | some l ↦ if not (is_valid now l) then (false, true) else elim local [
        | none ↦ (true, false)
        | some v ↦
            if ltb_ℤ c.max_clock_skew (since now v.updated_at) then (false, true) else (true, false)
      ]
    ]

-- What `CheckWritePermission` returns.
pub data Permission : Type 0 where
  can_write : Permission
  forward_to : String → Permission
  no_valid_lease : Permission

-- `CheckWritePermission`; the node that writes decides nothing.
unfoldable pub check_write_permission : ℕ → String → Bool → ConsistencyChecker → Permission
check_write_permission now chunk is_primary c =
    if is_primary then can_write else elim (get_lease chunk c.lease_manager) [
      | none ↦ no_valid_lease
      | some l ↦ if is_valid now l then forward_to l.holder_node else no_valid_lease
    ]
