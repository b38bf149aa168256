-- ===== src/Erasure/RoundTrip.antt =====
-- internal/erasure/erasure.go: what is encoded is decoded again after the loss or the damage of any
-- one shard.
use lumeo_fs.Base.{
  ℕ, zero, suc, ◌+◌, ◌-◌, ◌*◌, ◌≤◌, ◌<◌, String, true, some, List, [], ◌∷◌, ◌++◌, map, ltb, length,
  take, drop, replicate, All, ◌≡◌, refl, ap, ◌∙◌, inl, inr, arith, Bool-cases, str_eq_refl,
  length-append, length-take, length-drop, length-replicate, take-append-drop, pos,
}
use mathlib.Core.List.{append-nil}
use lumeo_fs.Erasure.Shards.{
  ok, Encoder, Shard, split_shards, parity_copies, shard_size, padded, encode, truncate_to, join,
}
use lumeo_fs.Erasure.Xor.{fold_xor, OfLength, xor_all-fold_xor}
use lumeo_fs.Erasure.Places.{AllInPlace, AllParity, contents}

module _ (cs : List ℕ → String) where
  pub length-split_shards : (n i size : ℕ) (b : List ℕ) → length (split_shards cs n i size b) ≡ n
  unfolding split_shards
  length-split_shards zero i size b = refl
  length-split_shards (suc n) i size b = ap suc (length-split_shards n (i + 1) size (drop size b))

  -- The data shards are in place, of one size, and hold the bytes in order.
  pub split_shards-InPlace :
      (n i size : ℕ) (b : List ℕ) → AllInPlace cs i (map some (split_shards cs n i size b))
  unfolding split_shards
  split_shards-InPlace zero i size b = tt
  split_shards-InPlace (suc n) i size b =
      let e : i + 1 ≡ suc i = omega arith in
      (
        record { at = refl; plain = refl; intact = str_eq_refl _ },
        rw e (split_shards-InPlace n (suc i) size (drop size b)),
      )

  pub split_shards-OfLength :
      (n i size : ℕ) (b : List ℕ)
      → length b ≡ n * size
      → All (OfLength size) (contents (split_shards cs n i size b))
  unfolding split_shards
  split_shards-OfLength zero i size b h = tt
  split_shards-OfLength (suc n) i size b h = (
    omega (arith, length-take size b),
    split_shards-OfLength n (i + 1) size (drop size b) (omega (arith, length-drop size b)),
  )

  join-split_shards :
      (n i size : ℕ) (b : List ℕ)
      → length b ≡ n * size
      → join (contents (split_shards cs n i size b)) ≡ b
  unfolding split_shards join
  join-split_shards zero i size [] h = refl
  join-split_shards zero i size (x ∷ b) h = absurd (omega arith)
  join-split_shards (suc n) i size b h =
      ap (λ r. take size b ++ r)
        (join-split_shards n (i + 1) size (drop size b) (omega (arith, length-drop size b)))
      ∙ take-append-drop size b

  pub parity_copies-AllParity : (n i : ℕ) (b : List ℕ) → AllParity cs (parity_copies cs n i b)
  unfolding parity_copies
  parity_copies-AllParity zero i b = tt
  parity_copies-AllParity (suc n) i b = ((refl, str_eq_refl _), parity_copies-AllParity n (i + 1) b)

  size-covers :
      (e : Encoder) (b : List ℕ) → 0 < e.data_shards → length b ≤ shard_size e b * e.data_shards
  size-covers e b h = grind arith

  pub length-padded :
      (e : Encoder) (b : List ℕ)
      → 0 < e.data_shards
      → length (padded e b) ≡ e.data_shards * shard_size e b
  length-padded e b h = omega (
    arith,
    size-covers e b h,
    length-append b (replicate (shard_size e b * e.data_shards - length b) 0),
    length-replicate {A = ℕ} (shard_size e b * e.data_shards - length b) 0,
  )

  nil_of_length : (z : List ℕ) → length z ≡ 0 → z ≡ []
  nil_of_length [] h = refl
  nil_of_length (x ∷ z) h = absurd (omega arith)

  take-append : (b z : List ℕ) → take (length b) (b ++ z) ≡ b
  take-append [] z = ground arith
  take-append (x ∷ b) z = ap (◌∷◌ x) (take-append b z)

  -- Cutting at the original length undoes the padding.
  truncate_to-append :
      (b z : List ℕ) → (length b ≡ 0 → z ≡ []) → truncate_to (pos (length b)) (b ++ z) ≡ b
  unfolding truncate_to
  truncate_to-append [] z h = h refl
  truncate_to-append (x ∷ b) z h =
      elim (Bool-cases (ltb (length (x ∷ b)) (length ((x ∷ b) ++ z)))) [
        | inl cut ↦
            let some_left : ltb 0 (length (x ∷ b)) ≡ true = ground arith in
            rw (some_left, cut) (take-append (x ∷ b) z)
        | inr whole ↦
            let z0 : z ≡ [] = nil_of_length z (ground (arith, length-append (x ∷ b) z)) in
            let some_left : ltb 0 (length (x ∷ b)) ≡ true = ground arith in
            rw (some_left, whole) (rw z0 (append-nil (x ∷ b)))
      ]

  padding-nil :
      (e : Encoder) (b : List ℕ)
      → 0 < e.data_shards
      → length b ≡ 0
      → replicate {A = ℕ} (shard_size e b * e.data_shards - length b) 0 ≡ []
  padding-nil e b h z =
      let s : shard_size e b ≡ 0 = grind arith in
      let n : shard_size e b * e.data_shards - length b ≡ 0 = rw s (omega arith) in rw n refl

  -- What `Encode` makes: the data shards, and copies of their exclusive or.
  abbrev pub data_of : Encoder → List ℕ → List Shard
  data_of e b = split_shards cs e.data_shards 0 (shard_size e b) (padded e b)

  abbrev pub parity_of : Encoder → List ℕ → List Shard
  parity_of e b =
      parity_copies cs e.parity_shards e.data_shards
        (fold_xor (replicate (shard_size e b) 0) (contents (data_of e b)))

  pub encode-data_of :
      (e : Encoder) (b : List ℕ)
      → 0 < e.data_shards
      → encode cs e b ≡ ok (data_of e b ++ parity_of e b)
  unfolding encode
  encode-data_of e b h =
      rw
        (xor_all-fold_xor (shard_size e b) (replicate (shard_size e b) 0) (contents (data_of e b))
          (length-replicate {A = ℕ} (shard_size e b) 0)
          (split_shards-OfLength e.data_shards 0 (shard_size e b) (padded e b)
            (length-padded e b h)))
        refl

  -- The bytes of all data shards, cut to the original length, are the original.
  pub truncate-data_of :
      (e : Encoder) (b : List ℕ)
      → 0 < e.data_shards
      → truncate_to (pos (length b)) (join (contents (data_of e b))) ≡ b
  truncate-data_of e b h =
      ap (truncate_to (pos (length b)))
        (join-split_shards e.data_shards 0 (shard_size e b) (padded e b) (length-padded e b h))
      ∙ truncate_to-append b (replicate (shard_size e b * e.data_shards - length b) 0)
          (padding-nil e b h)
