-- ===== src/Version/Lease.antt =====
-- internal/version/version.go: `Lease` and `LeaseManager`. A time is a number of nanoseconds, and an
-- operation takes the time at which it reads the clock. The manager holds its leases by value: no
-- code outside it changes one that it handed out.
use lumeo_fs.Base.{
  ℕ, ◌-◌, String, Bool, false, ◌&&◌, Option, none, some, [], Dict, ltb, str_eq, if◌then◌else◌,
  lookup, insert, delete, ℤ, pos, negsuc, ltb_ℤ, suc_i64,
}

-- `time.Since` of a time, at the time `now`.
abbrev pub since : ℕ → ℕ → ℤ
since now t = if ltb now t then negsuc (t - now - 1) else pos (now - t)

-- `Lease`
pub record Lease : Type 0 where
  pub chunk_id : String
  pub holder_node : String
  pub granted_at : ℕ
  pub duration : ℤ
  pub version : ℤ

-- `NewLease`
abbrev pub new_lease : ℕ → String → String → ℤ → Lease
new_lease now chunk holder duration = record {
  chunk_id = chunk;
  holder_node = holder;
  granted_at = now;
  duration = duration;
  version = pos 1;
}

-- `IsValid`
abbrev pub is_valid : ℕ → Lease → Bool
is_valid now l = ltb_ℤ (since now l.granted_at) l.duration

-- `Renew`
abbrev pub renew : ℕ → Lease → Lease
renew now l = record l { granted_at = now; version = suc_i64 l.version }

-- `Transfer`
abbrev pub transfer : ℕ → String → Lease → Lease
transfer now holder l = record l {
  holder_node = holder;
  granted_at = now;
  version = suc_i64 l.version;
}

-- `LeaseManager`
pub record LeaseManager : Type 0 where
  pub leases : Dict Lease
  pub duration : ℤ

-- `NewLeaseManager`
abbrev pub new_lease_manager : ℤ → LeaseManager
new_lease_manager duration = record { leases = []; duration = duration }

-- What `Grant` returns: the lease, or an error that names the chunk and its holder.
pub data Grant : Type 0 where
  granted : Lease → Grant
  leased_to : (chunk holder : String) → Grant

-- A lease that `Grant` puts in the map and returns.
abbrev pub store_lease : String → Lease → LeaseManager → LeaseManager × Grant
store_lease chunk l lm = (record lm { leases = insert chunk l lm.leases }, granted l)

-- `Grant`
unfoldable pub grant : ℕ → String → String → LeaseManager → LeaseManager × Grant
grant now chunk node lm =
    let fresh = store_lease chunk (new_lease now chunk node lm.duration) lm in
    elim (lookup chunk lm.leases) [
      | none ↦ fresh
      | some l ↦
          if is_valid now l
          then (if str_eq l.holder_node node
              then store_lease chunk (renew now l) lm
              else (lm, leased_to chunk l.holder_node))
          else fresh
    ]

-- `Revoke`
unfoldable pub revoke : String → LeaseManager → LeaseManager
revoke chunk lm = record lm { leases = delete chunk lm.leases }

-- `GetLease`
abbrev pub get_lease : String → LeaseManager → Option Lease
get_lease chunk lm = lookup chunk lm.leases

-- `CheckHolder`
unfoldable pub check_holder : ℕ → String → String → LeaseManager → Bool
check_holder now chunk node lm = elim (lookup chunk lm.leases) [
  | none ↦ false
  | some l ↦ str_eq l.holder_node node && is_valid now l
]
