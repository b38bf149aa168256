-- ===== src/Version/Clock.antt =====
-- internal/version/version.go: `VectorClock`. A clock that is missing reads 0.
use lumeo_fs.Base.{
  ℕ, ◌+◌, String, Bool, ◌&&◌, List, [], ◌∷◌, ◌++◌, Dict, ltb, if◌then◌else◌, any, lookup_or, insert,
  keys, u64, ℤ, pos, negsuc,
}

-- `VectorClock`
abbrev pub VectorClock : Type 0
VectorClock = Dict ℕ

-- `Get`
abbrev pub get : String → VectorClock → ℕ
get k vc = lookup_or 0 k vc

-- `Increment`, of a 64-bit clock.
unfoldable pub increment : String → VectorClock → VectorClock
increment k vc = insert k (u64 (get k vc + 1)) vc

-- The loop of `Merge` over the nodes of `other`.
unfoldable pub merge_keys : List String → VectorClock → VectorClock → VectorClock
merge_keys [] other vc = vc
merge_keys (k ∷ ks) other vc =
    merge_keys ks other (if ltb (get k vc) (get k other) then insert k (get k other) vc else vc)

-- `vc.Merge(other)`
unfoldable pub merge : VectorClock → VectorClock → VectorClock
merge other vc = merge_keys (keys other) other vc

-- `allNodes`, where a node may stand twice.
abbrev pub all_nodes : VectorClock → VectorClock → List String
all_nodes vc other = keys vc ++ keys other

-- `less`, after the loop.
unfoldable pub some_less : VectorClock → VectorClock → Bool
some_less vc other = any (λ k. ltb (get k vc) (get k other)) (all_nodes vc other)

-- `greater`, after the loop.
unfoldable pub some_greater : VectorClock → VectorClock → Bool
some_greater vc other = any (λ k. ltb (get k other) (get k vc)) (all_nodes vc other)

-- The result of `Compare`, of `less` and `greater`.
abbrev pub answer : Bool → Bool → ℤ
answer less greater =
    if less && greater then pos 0 else if less then negsuc 0 else if greater then pos 1 else pos 2

-- `Compare`
unfoldable pub compare : VectorClock → VectorClock → ℤ
compare vc other = answer (some_less vc other) (some_greater vc other)
