-- ===== src/Erasure/Tests.antt =====
-- internal/erasure/erasure.go: the encoder of `DefaultConfig` on seven bytes.
use lumeo_fs.Base.{
  ℕ, ◌+◌, ◌%◌, ◌==◌, String, true, false, if◌then◌else◌, none, some, List, [], ◌∷◌, pos, ◌≡◌, refl,
  arith,
}
use lumeo_fs.Erasure.Shards.{
  ok, err, default_config, Shard, make_shard, encode, decode, too_few_shards, xor_into, xor_all,
  place_shards, missing_indices, find_parity, split_shards, parity_copies, valid_shards,
  reconstruct,
}
use lumeo_fs.Erasure.Recover.{decode-encode}

abbrev total : List ℕ → ℕ
total [] = 0
total (x ∷ xs) = x + total xs

-- A checksum that sees a change of one byte by one.
abbrev parity_name : List ℕ → String
parity_name b = if total b % 2 == 0 then "even" else "odd"

abbrev seven : List ℕ
seven = 1 ∷ 2 ∷ 3 ∷ 4 ∷ 5 ∷ 6 ∷ 7 ∷ []

abbrev first_shard : Shard
first_shard = make_shard parity_name 0 false (1 ∷ 2 ∷ 3 ∷ [])

abbrev second_shard : Shard
second_shard = make_shard parity_name 1 false (4 ∷ 5 ∷ 6 ∷ [])

abbrev third_shard : Shard
third_shard = make_shard parity_name 2 false (7 ∷ 0 ∷ 0 ∷ [])

abbrev parity_shard : Shard
parity_shard = make_shard parity_name 3 true (2 ∷ 7 ∷ 5 ∷ [])

abbrev damaged : Shard
damaged = record { index = pos 1; bytes = 4 ∷ 5 ∷ 7 ∷ []; checksum = "odd"; is_parity = false }

encode-seven :
    encode parity_name default_config seven
    ≡ ok (first_shard ∷ second_shard ∷ third_shard ∷ parity_shard ∷ [])
unfolding encode split_shards parity_copies xor_all xor_into
encode-seven = refl

-- The second shard is damaged, and is rebuilt from the others.
decode-encode_example :
    decode parity_name default_config
      (some first_shard ∷ some damaged ∷ some third_shard ∷ some parity_shard ∷ [])
      (pos 7)
    ≡ ok seven
decode-encode_example =
    decode-encode parity_name default_config seven (first_shard ∷ [])
      (third_shard ∷ parity_shard ∷ []) second_shard (some damaged) (omega arith) (omega arith)
      encode-seven refl

-- Two lost shards are not recovered, whatever the number of parity shards.
two_lost :
    decode parity_name
      (record { data_shards = 3; parity_shards = 2 })
      (some first_shard ∷ none ∷ none ∷ some parity_shard ∷ some parity_shard ∷ [])
      (pos 7)
    ≡ err too_few_shards
unfolding decode valid_shards place_shards missing_indices reconstruct find_parity
two_lost = refl
