-- ===== src/Version/Stamp.antt =====
-- internal/version/version.go: `TimestampVersion` and its order.
use lumeo_fs.Base.{
  ℕ, String, Bool, true, false, ◌↔◌, ltb, if◌then◌else◌, ◌≡◌, arith, ℤ, pos, negsuc, ltb_ℤ,
}

-- `TimestampVersion`
pub record TimestampVersion : Type 0 where
  pub timestamp : ℤ
  pub node_id : String
  pub sequence : ℕ

-- `Compare`
unfoldable pub compare : TimestampVersion → TimestampVersion → ℤ
compare v other =
    if ltb_ℤ v.timestamp other.timestamp
    then negsuc 0
    else if ltb_ℤ other.timestamp v.timestamp
    then pos 1
    else if ltb v.sequence other.sequence
    then negsuc 0
    else if ltb other.sequence v.sequence
    then pos 1
    else pos 0

-- `IsNewerThan`
abbrev pub is_newer_than : TimestampVersion → TimestampVersion → Bool
is_newer_than v other = ltb_ℤ (pos 0) (compare v other)

neither-less : (a b : ℤ) → ltb_ℤ a b ≡ false → ltb_ℤ b a ≡ false → a ≡ b
neither-less (pos a) (pos b) h k = ground arith
neither-less (pos a) (negsuc b) h k = ground arith
neither-less (negsuc a) (pos b) h k = ground arith
neither-less (negsuc a) (negsuc b) h k = ground arith

-- `Compare` is an order of the versions by time and sequence number: it answers 0 exactly if both are
-- equal, whatever the nodes are; it answers 1 exactly if it answers -1 the other way round; and a
-- version newer than one that is newer than a third is newer than the third.
pub compare_lem :
    (u v w : TimestampVersion)
    → (compare v w ≡ pos 0 ↔ (v.timestamp ≡ w.timestamp) × (v.sequence ≡ w.sequence))
      × (compare v w ≡ pos 1 ↔ compare w v ≡ negsuc 0)
      × (is_newer_than u v ≡ true → is_newer_than v w ≡ true → is_newer_than u w ≡ true)
unfolding compare
compare_lem u v w = (
  (
    (λ e. (neither-less v.timestamp w.timestamp (ground arith) (ground arith), ground arith)),
    (λ (t, s). ground arith),
  ),
  ((λ e. ground arith), (λ e. ground arith)),
  (λ h k. ground arith),
)
