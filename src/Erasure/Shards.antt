-- ===== src/Erasure/Shards.antt =====
-- internal/erasure/erasure.go: encoding into shards, decoding, verification. A byte is a number; the
-- checksum (SHA-256 in hexadecimal) is a parameter. A slice of pointers is a list of options, and
-- `panic` is an index out of range.
use lumeo_fs.Base.{
  ℕ, zero, suc, ◌+◌, ◌-◌, ◌*◌, ◌/◌, String, Bool, true, false, ◌&&◌, Option, none, some, List, [],
  ◌∷◌, ◌++◌, map, ltb, str_eq, if◌then◌else◌, length, set, take, drop, replicate, ℤ, pos, negsuc,
  bit_xor,
}

pub data ErasureError : Type 0 where
  invalid_shard_count too_few_shards shard_size_mismatch : ErasureError

pub data Result {ℓ} (A : Type ℓ) : Type ℓ where
  ok : A → Result A
  err : ErasureError → Result A
  panic : Result A

infixl 5 ◌>>=◌
abbrev pub ◌>>=◌ {ℓ κ} : {A : Type ℓ} {B : Type κ} → Result A → (A → Result B) → Result B
ok a >>= f = f a
err e >>= f = err e
panic >>= f = panic

-- `Config`, and the `Encoder` that holds one; `NewEncoder` admits no negative number.
pub record Encoder : Type 0 where
  pub data_shards : ℕ
  pub parity_shards : ℕ

-- `DefaultConfig`
abbrev pub default_config : Encoder
default_config = record { data_shards = 3; parity_shards = 1 }

-- `NewEncoder`
unfoldable pub new_encoder : ℤ → ℤ → Result Encoder
new_encoder (negsuc d) p = err invalid_shard_count
new_encoder (pos zero) p = err invalid_shard_count
new_encoder (pos (suc d)) (negsuc p) = err invalid_shard_count
new_encoder (pos (suc d)) (pos p) = ok (record { data_shards = suc d; parity_shards = p })

-- `Shard`
pub record Shard : Type 0 where
  pub index : ℤ
  pub bytes : List ℕ
  pub checksum : String
  pub is_parity : Bool

-- `for k := 0; k < len(acc); k++ { acc[k] ^= b[k] }`
unfoldable pub xor_into : List ℕ → List ℕ → Result (List ℕ)
xor_into [] bs = ok []
xor_into (a ∷ as') [] = panic
xor_into (a ∷ as') (b ∷ bs) = xor_into as' bs >>= λ r. ok (bit_xor a b ∷ r)

-- The exclusive or of a list of slices into `acc`.
unfoldable pub xor_all : List ℕ → List (List ℕ) → Result (List ℕ)
xor_all acc [] = ok acc
xor_all acc (b ∷ bs) = xor_into acc b >>= λ acc'. xor_all acc' bs

-- `shardSize`
abbrev pub shard_size : Encoder → List ℕ → ℕ
shard_size e bytes = (length bytes + e.data_shards - 1) / e.data_shards

-- `paddedData`
abbrev pub padded : Encoder → List ℕ → List ℕ
padded e bytes = bytes ++ replicate (shard_size e bytes * e.data_shards - length bytes) 0

-- The loop that puts the data shards at their places; a negative index is out of range.
unfoldable pub place_shards : ℕ → List Shard → List (Option Shard) → Result (List (Option Shard))
place_shards d [] slots = ok slots
place_shards d (s ∷ ss) slots = if s.is_parity then place_shards d ss slots else elim s.index [
  | negsuc i ↦ panic
  | pos i ↦ place_shards d ss (if ltb i d then set slots i (some s) else slots)
]

-- `missingIndices`, from index `i` on.
unfoldable pub missing_indices : ℕ → List (Option Shard) → List ℕ
missing_indices i [] = []
missing_indices i (none ∷ slots) = i ∷ missing_indices (i + 1) slots
missing_indices i (some s ∷ slots) = missing_indices (i + 1) slots

-- The first parity shard.
unfoldable pub find_parity : List Shard → Option Shard
find_parity [] = none
find_parity (s ∷ ss) = if s.is_parity then some s else find_parity ss

-- The bytes of the slots that are filled.
unfoldable pub present : List (Option Shard) → List (List ℕ)
present [] = []
present (none ∷ slots) = present slots
present (some s ∷ slots) = s.bytes ∷ present slots

unfoldable pub join : List (List ℕ) → List ℕ
join [] = []
join (b ∷ bs) = b ++ join bs

-- The end of `Decode`.
unfoldable pub truncate_to : ℤ → List ℕ → List ℕ
truncate_to (negsuc n) bytes = bytes
truncate_to (pos n) bytes = if ltb 0 n && ltb n (length bytes) then take n bytes else bytes

module _ (calculate_checksum : List ℕ → String) where
  -- `verifyChecksum`
  abbrev pub verify_checksum : Shard → Bool
  verify_checksum s = str_eq (calculate_checksum s.bytes) s.checksum

  abbrev pub make_shard : ℕ → Bool → List ℕ → Shard
  make_shard i parity bytes = record {
    index = pos i;
    bytes = bytes;
    checksum = calculate_checksum bytes;
    is_parity = parity;
  }

  -- The loop over the data shards: `n` more of them, from index `i` and the bytes left.
  unfoldable pub split_shards : ℕ → ℕ → ℕ → List ℕ → List Shard
  split_shards zero i size bytes = []
  split_shards (suc n) i size bytes =
      make_shard i false (take size bytes) ∷ split_shards n (i + 1) size (drop size bytes)

  -- The loop over the parity shards, all with the same bytes.
  unfoldable pub parity_copies : ℕ → ℕ → List ℕ → List Shard
  parity_copies zero i bytes = []
  parity_copies (suc n) i bytes = make_shard i true bytes ∷ parity_copies n (i + 1) bytes

  -- `Encode`
  unfoldable pub encode : Encoder → List ℕ → Result (List Shard)
  encode e bytes =
      let size = shard_size e bytes in
      let shards = split_shards e.data_shards 0 size (padded e bytes) in
      xor_all (replicate size 0) (map (λ s. s.bytes) shards) >>= λ parity.
      ok (shards ++ parity_copies e.parity_shards e.data_shards parity)

  -- The loop that keeps the shards that are there and intact.
  unfoldable pub valid_shards : List (Option Shard) → List Shard
  valid_shards [] = []
  valid_shards (none ∷ ss) = valid_shards ss
  valid_shards (some s ∷ ss) = if verify_checksum s then s ∷ valid_shards ss else valid_shards ss

  -- `reconstruct`: the slots with the missing one rebuilt. The slot at the missing index is empty,
  -- so that every filled slot enters the exclusive or.
  unfoldable pub reconstruct :
      Encoder → List Shard → List (Option Shard) → List ℕ → Result (List (Option Shard))
  reconstruct e valid slots missing =
      if ltb e.parity_shards (length missing)
      then err too_few_shards
      else elim (find_parity valid) [
        | none ↦ err too_few_shards
        | some p ↦ elim missing [
          | [] ↦ err too_few_shards
          | i ∷ more ↦ elim more [
            | [] ↦ xor_all p.bytes (present slots) >>= λ rebuilt.
                ok (set slots i (some (make_shard i false rebuilt)))
            | j ∷ rest ↦ err too_few_shards
          ]
        ]
      ]

  -- `Decode`
  unfoldable pub decode : Encoder → List (Option Shard) → ℤ → Result (List ℕ)
  decode e shards original_size =
      let valid = valid_shards shards in
      if ltb (length shards) e.data_shards
      then err too_few_shards
      else if ltb (length valid) e.data_shards
      then err too_few_shards
      else (place_shards e.data_shards valid (replicate e.data_shards none) >>= λ slots.
          (elim (missing_indices 0 slots) [
            | [] ↦ ok slots
            | i ∷ more ↦ reconstruct e valid slots (i ∷ more)
          ])
          >>= λ full. ok (truncate_to original_size (join (present full))))
