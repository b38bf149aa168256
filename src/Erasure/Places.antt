-- ===== src/Erasure/Places.antt =====
-- internal/erasure/erasure.go, `Decode`: where the shards go, and which are missing.
use lumeo_fs.Base.{
  ℕ, zero, suc, ◌+◌, ◌≤◌, ◌<◌, String, true, false, Option, none, some, List, [], ◌∷◌, ◌++◌, map,
  length, set, replicate, All, ◌≡◌, refl, sym, ap, ◌∙◌, arith, length-append, pos,
}
use mathlib.Core.List.{append_assoc}
use lumeo_fs.Erasure.Shards.{
  ok, Shard, verify_checksum, valid_shards, place_shards, missing_indices, find_parity, present,
}

-- A data shard in place: intact, of the index `i`.
pub record InPlace (cs : List ℕ → String) (i : ℕ) (s : Shard) : Type 0 where
  pub at : s.index ≡ pos i
  pub plain : s.is_parity ≡ false
  pub intact : verify_checksum cs s ≡ true

-- The shards that there are among `xs` are in place, from index `i` on.
abbrev pub AllInPlace : (List ℕ → String) → ℕ → List (Option Shard) → Type 0
AllInPlace cs i [] = Unit
AllInPlace cs i (none ∷ xs) = AllInPlace cs (suc i) xs
AllInPlace cs i (some s ∷ xs) = InPlace cs i s × AllInPlace cs (suc i) xs

-- Intact parity shards.
abbrev pub AllParity : (List ℕ → String) → List Shard → Type 0
AllParity cs = All (λ s. (s.is_parity ≡ true) × (verify_checksum cs s ≡ true))

abbrev pub somes : List (Option Shard) → List Shard
somes [] = []
somes (none ∷ xs) = somes xs
somes (some s ∷ xs) = s ∷ somes xs

-- The bytes of each shard.
abbrev pub contents : List Shard → List (List ℕ)
contents = map (λ s. s.bytes)

set-append :
    (i : ℕ) (xs ys : List (Option Shard)) (o s : Option Shard)
    → length xs ≡ i
    → set (xs ++ o ∷ ys) i s ≡ xs ++ s ∷ ys
set-append zero [] ys o s h = refl
set-append (suc i) [] ys o s h = absurd (omega arith)
set-append zero (x ∷ xs) ys o s h = absurd (omega arith)
set-append (suc i) (x ∷ xs) ys o s h = ap (◌∷◌ x) (set-append i xs ys o s (omega arith))

module _ (cs : List ℕ → String) where
  place_one :
      (d i : ℕ) (s : Shard) (ss : List Shard) (slots : List (Option Shard))
      → InPlace cs i s
      → i < d
      → place_shards d (s ∷ ss) slots ≡ place_shards d ss (set slots i (some s))
  unfolding place_shards
  place_one d i s ss slots q h = ground arith

  pub place_shards-somes :
      (d i : ℕ) (xs done : List (Option Shard)) (more : List Shard)
      → length done ≡ i
      → i + length xs ≤ d
      → AllInPlace cs i xs
      → place_shards d (somes xs ++ more) (done ++ replicate (length xs) none)
        ≡ place_shards d more (done ++ xs)
  unfolding place_shards
  place_shards-somes d i [] done more l h p = refl
  place_shards-somes d i (none ∷ xs) done more l h p =
      let a = append_assoc done (none ∷ []) (replicate (length xs) none) in
      let b = append_assoc done (none ∷ []) xs in
      ap (place_shards d (somes xs ++ more)) (sym a)
      ∙ place_shards-somes d (suc i) xs (done ++ none ∷ []) more
          (omega (arith, length-append done (none ∷ []))) (omega arith) p
      ∙ ap (place_shards d more) b
  place_shards-somes d i (some s ∷ xs) done more l h (q, p) =
      let a = append_assoc done (some s ∷ []) (replicate (length xs) none) in
      let b = append_assoc done (some s ∷ []) xs in
      place_one d i s (somes xs ++ more) (done ++ none ∷ replicate (length xs) none) q (omega arith)
      ∙ ap (place_shards d (somes xs ++ more))
          (set-append i done (replicate (length xs) none) none (some s) l ∙ sym a)
      ∙ place_shards-somes d (suc i) xs (done ++ some s ∷ []) more
          (omega (arith, length-append done (some s ∷ []))) (omega arith) p
      ∙ ap (place_shards d more) b

  pub place_shards-parity :
      (d : ℕ) (ps : List Shard) (slots : List (Option Shard))
      → AllParity cs ps
      → place_shards d ps slots ≡ ok slots
  unfolding place_shards
  place_shards-parity d [] slots h = refl
  place_shards-parity d (p ∷ ps) slots ((q, v), h) = rw q (place_shards-parity d ps slots h)

  pub valid_shards-somes :
      (i : ℕ) (xs : List (Option Shard)) (more : List (Option Shard))
      → AllInPlace cs i xs
      → valid_shards cs (xs ++ more) ≡ somes xs ++ valid_shards cs more
  unfolding valid_shards
  valid_shards-somes i [] more h = refl
  valid_shards-somes i (none ∷ xs) more h = valid_shards-somes (suc i) xs more h
  valid_shards-somes i (some s ∷ xs) more (q, h) =
      rw q.intact (ap (◌∷◌ s) (valid_shards-somes (suc i) xs more h))

  pub valid_shards-parity : (ps : List Shard) → AllParity cs ps → valid_shards cs (map some ps) ≡ ps
  unfolding valid_shards
  valid_shards-parity [] h = refl
  valid_shards-parity (p ∷ ps) ((q, v), h) = rw v (ap (◌∷◌ p) (valid_shards-parity ps h))

  pub find_parity-somes :
      (i : ℕ) (xs : List (Option Shard)) (more : List Shard)
      → AllInPlace cs i xs
      → find_parity (somes xs ++ more) ≡ find_parity more
  unfolding find_parity
  find_parity-somes i [] more h = refl
  find_parity-somes i (none ∷ xs) more h = find_parity-somes (suc i) xs more h
  find_parity-somes i (some s ∷ xs) more (q, h) = rw q.plain (find_parity-somes (suc i) xs more h)

  pub missing_indices-full : (i : ℕ) (ss : List Shard) → missing_indices i (map some ss) ≡ []
  unfolding missing_indices
  missing_indices-full i [] = refl
  missing_indices-full i (s ∷ ss) = missing_indices-full (i + 1) ss

  pub missing_indices-one :
      (i : ℕ) (xs ys : List Shard)
      → missing_indices i (map some xs ++ none ∷ map some ys) ≡ (i + length xs) ∷ []
  unfolding missing_indices
  missing_indices-one i [] ys =
      let e : i + 0 ≡ i = omega arith in rw (missing_indices-full (i + 1) ys, e)
  missing_indices-one i (x ∷ xs) ys =
      let e : i + 1 + length xs ≡ i + suc (length xs) = omega arith in
      missing_indices-one (i + 1) xs ys ∙ ap (λ n. n ∷ []) e

  pub present-full : (ss : List Shard) → present (map some ss) ≡ contents ss
  unfolding present
  present-full [] = refl
  present-full (s ∷ ss) = ap (◌∷◌ s.bytes) (present-full ss)

  pub present-one :
      (xs ys : List Shard)
      → present (map some xs ++ none ∷ map some ys) ≡ contents xs ++ contents ys
  unfolding present
  present-one [] ys = present-full ys
  present-one (x ∷ xs) ys = ap (◌∷◌ x.bytes) (present-one xs ys)

  pub set-lost :
      (xs ys : List Shard) (s : Shard)
      → set (map some xs ++ none ∷ map some ys) (length xs) (some s)
        ≡ map some xs ++ some s ∷ map some ys
  set-lost [] ys s = refl
  set-lost (x ∷ xs) ys s = ap (◌∷◌ (some x)) (set-lost xs ys s)
