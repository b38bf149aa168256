-- ===== src/Erasure/Recover.antt =====
-- internal/erasure/erasure.go: what is encoded is decoded again after the loss or the damage of any
-- one shard.
use lumeo_fs.Base.{
  ℕ, ◌+◌, ◌≤◌, ◌<◌, String, false, Option, none, some, List, [], ◌∷◌, ◌++◌, map, length, set,
  replicate, ◌≡◌, refl, sym, ap, ◌∙◌, inl, inr, arith, length-append, pos,
}
use mathlib.Core.List.{append_assoc, map-append}
use lumeo_fs.Erasure.Shards.{
  ok, Encoder, Shard, xor_all, make_shard, shard_size, padded, encode, truncate_to, decode,
  place_shards, find_parity, present, join,
}
use lumeo_fs.Erasure.Xor.{fold_xor, xor_all-fold_xor, fold_xor_lost, length-fold_zeros}
use lumeo_fs.Erasure.Places.{
  AllInPlace, AllParity, somes, contents, place_shards-somes, place_shards-parity,
  find_parity-somes, missing_indices-full, missing_indices-one, present-full, present-one, set-lost,
}
use lumeo_fs.Erasure.RoundTrip.{
  data_of, parity_of, encode-data_of, truncate-data_of, split_shards-InPlace, split_shards-OfLength,
  length-split_shards, length-padded, parity_copies-AllParity,
}
use lumeo_fs.Erasure.Loss.{
  somes-map, somes-lost, length-map-some, append-split, AllInPlace-lost, reconstruct-one,
  decode-full, decode-rebuilt, Unusable, Intact, Intact-InPlace, Intact-parity, Intact-append,
  valid_shards-lost, length-lost, AllParity-lost, All-middle, contents-middle, parity-head,
  find_parity-head, length-parity_copies,
}

module _ (cs : List ℕ → String) where
  -- All slots are filled or known to be empty, and the parity shards change nothing.
  place-data :
      (d : ℕ) (slots : List (Option Shard)) (more valid : List Shard)
      → AllInPlace cs 0 slots
      → length slots ≡ d
      → AllParity cs more
      → valid ≡ somes slots ++ more
      → place_shards d valid (replicate d none) ≡ ok slots
  place-data d slots more valid p l q v =
      rw (v, ← l)
        (place_shards-somes cs (length slots) 0 slots [] more refl (omega arith) p
          ∙ place_shards-parity cs (length slots) more slots q)

  -- Of the parity shards any one is lost: all data shards are there.
  recover-parity :
      (e : Encoder) (b : List ℕ) (rs ys : List Shard) (s : Shard) (o : Option Shard)
      → 0 < e.data_shards
      → Unusable cs o
      → parity_of cs e b ≡ rs ++ s ∷ ys
      → decode cs e (map some (data_of cs e b ++ rs) ++ o ∷ map some ys) (pos (length b)) ≡ ok b
  recover-parity e b rs ys s o h u parts =
      let ds = data_of cs e b in
      let place : AllInPlace cs 0 (map some ds) =
        split_shards-InPlace cs e.data_shards 0 (shard_size e b) (padded e b) in
      let par : AllParity cs (rs ++ s ∷ ys) = rw parts at (
        parity_copies-AllParity cs e.parity_shards e.data_shards
          (fold_xor (replicate (shard_size e b) 0) (contents ds))) in
      let count_ds : length ds ≡ e.data_shards =
        length-split_shards cs e.data_shards 0 (shard_size e b) (padded e b) in
      let whole : Intact cs ((ds ++ rs) ++ s ∷ ys) = rw (append_assoc ds rs (s ∷ ys)) (
        Intact-append cs ds (rs ++ s ∷ ys) (Intact-InPlace cs 0 ds place)
          (Intact-parity cs (rs ++ s ∷ ys) par)) in
      let sizes = length-append ds rs in
      let sizes' = length-append (ds ++ rs) ys in
      let v = valid_shards-lost cs (ds ++ rs) ys s o u whole in
      let split : (ds ++ rs) ++ ys ≡ somes (map some ds) ++ (rs ++ ys) =
        append_assoc ds rs ys ∙ ap (λ x. x ++ (rs ++ ys)) (sym (somes-map ds)) in
      decode-full cs e (map some (ds ++ rs) ++ o ∷ map some ys) ((ds ++ rs) ++ ys) (map some ds)
        (pos (length b)) v (omega (arith, length-lost cs (ds ++ rs) ys o, sizes, sizes', count_ds))
        (omega (arith, sizes, sizes', count_ds))
        (place-data e.data_shards (map some ds) (rs ++ ys) ((ds ++ rs) ++ ys) place
          (length-map-some ds ∙ count_ds) (AllParity-lost cs rs ys s par) split)
        (missing_indices-full cs 0 ds)
      ∙ ap ok (
          ap (λ x. truncate_to (pos (length b)) (join x)) (present-full cs ds)
          ∙ truncate-data_of cs e b h)

  lost_lengths :
      (e : Encoder) (xs rs ps : List Shard) (s : Shard) (o : Option Shard)
      → 0 < e.parity_shards
      → length (xs ++ s ∷ rs) ≡ e.data_shards
      → length ps ≡ e.parity_shards
      → (e.data_shards ≤ length (map some xs ++ o ∷ map some (rs ++ ps)))
        × (e.data_shards ≤ length (xs ++ (rs ++ ps)))
        × (length (map some xs ++ none ∷ map some rs) ≡ e.data_shards)
  lost_lengths e xs rs ps s o hp ds pl =
      let a = length-lost cs xs (rs ++ ps) o in
      let b = length-append xs (rs ++ ps) in
      let c = length-append rs ps in
      let d = length-append xs (s ∷ rs) in
      let f = length-lost cs xs rs none in
      let g = length-append xs rs in
      (
        omega (arith, a, b, c, d, ds, pl),
        omega (arith, b, c, d, ds, pl),
        omega (arith, f, g, d, ds),
      )

  contents-lost :
      (e : Encoder) (b : List ℕ) (xs rs : List Shard) (s : Shard)
      → data_of cs e b ≡ xs ++ s ∷ rs
      → contents (data_of cs e b) ≡ contents xs ++ s.bytes ∷ contents rs
  contents-lost e b xs rs s parts = ap contents parts ∙ contents-middle cs xs rs s

  -- The parity of the data shards, and the shards that are left, give the lost one.
  parity-rebuilds :
      (e : Encoder) (b : List ℕ) (xs rs : List Shard) (s p : Shard)
      → 0 < e.data_shards
      → data_of cs e b ≡ xs ++ s ∷ rs
      → p.bytes ≡ fold_xor (replicate (shard_size e b) 0) (contents (data_of cs e b))
      → xor_all p.bytes (present (map some xs ++ none ∷ map some rs)) ≡ ok s.bytes
  parity-rebuilds e b xs rs s p h parts pb =
      let n = shard_size e b in
      let sum = contents-lost e b xs rs s parts in
      let lengths =
        split_shards-OfLength cs e.data_shards 0 n (padded e b) (length-padded cs e b h) in
      let (mine, others) =
        All-middle cs n (contents xs) (contents rs) s.bytes (rw sum at lengths) in
      let sized = ap length pb ∙ length-fold_zeros n (contents (data_of cs e b)) lengths in
      ap (xor_all p.bytes) (present-one cs xs rs)
      ∙ xor_all-fold_xor n p.bytes (contents xs ++ contents rs) sized others
      ∙ ap ok (
          ap (λ a. fold_xor a (contents xs ++ contents rs)) (pb ∙ ap (fold_xor (replicate n 0)) sum)
          ∙ fold_xor_lost n s.bytes (contents xs) (contents rs) mine others)

  -- With the lost shard's bytes back in its place, the bytes are the original ones.
  rebuilt-truncate :
      (e : Encoder) (b : List ℕ) (xs rs : List Shard) (s t : Shard)
      → 0 < e.data_shards
      → data_of cs e b ≡ xs ++ s ∷ rs
      → t.bytes ≡ s.bytes
      → truncate_to
          (pos (length b))
          (join (present (set (map some xs ++ none ∷ map some rs) (length xs) (some t))))
        ≡ b
  rebuilt-truncate e b xs rs s t h parts same =
      let filled = set-lost cs xs rs t ∙ sym (map-append some xs (t ∷ rs)) in
      let bytes_back : contents (xs ++ t ∷ rs) ≡ contents (data_of cs e b) =
        contents-middle cs xs rs t
        ∙ ap (λ x. contents xs ++ x ∷ contents rs) same
        ∙ sym (contents-lost e b xs rs s parts) in
      ap (λ x. truncate_to (pos (length b)) (join (present x))) filled
      ∙ ap (λ x. truncate_to (pos (length b)) (join x))
          (present-full cs (xs ++ t ∷ rs) ∙ bytes_back)
      ∙ truncate-data_of cs e b h

  -- Of the data shards any one is lost: it is rebuilt from the first parity shard.
  recover-data :
      (e : Encoder) (b : List ℕ) (xs rs : List Shard) (s : Shard) (o : Option Shard)
      → 0 < e.data_shards
      → 0 < e.parity_shards
      → Unusable cs o
      → data_of cs e b ≡ xs ++ s ∷ rs
      → decode cs e (map some xs ++ o ∷ map some (rs ++ parity_of cs e b)) (pos (length b)) ≡ ok b
  recover-data e b xs rs s o h hp u parts =
      let n = shard_size e b in
      let ps = parity_of cs e b in
      let place : AllInPlace cs 0 (map some (xs ++ s ∷ rs)) =
        rw parts at (split_shards-InPlace cs e.data_shards 0 n (padded e b)) in
      let lost = (AllInPlace-lost cs 0 xs rs s place).0 in
      let par =
        parity_copies-AllParity cs e.parity_shards e.data_shards
          (fold_xor (replicate n 0) (contents (data_of cs e b))) in
      let (p, more, head, isp, pb) =
        parity-head cs e.parity_shards e.data_shards
          (fold_xor (replicate n 0) (contents (data_of cs e b))) hp in
      let slots = map some xs ++ none ∷ map some rs in
      let valid = xs ++ (rs ++ ps) in
      let split : valid ≡ somes slots ++ ps =
        sym (append_assoc xs rs ps) ∙ ap (λ x. x ++ ps) (sym (somes-lost xs rs)) in
      let first : find_parity valid ≡ some p =
        ap find_parity split
        ∙ find_parity-somes cs 0 slots ps lost
        ∙ ap find_parity head
        ∙ find_parity-head cs p more isp in
      let rebuilt : xor_all p.bytes (present slots) ≡ ok s.bytes =
        parity-rebuilds e b xs rs s p h parts pb in
      let here : 0 + length xs ≡ length xs = omega arith in
      let whole : Intact cs (xs ++ s ∷ (rs ++ ps)) = rw (append_assoc xs (s ∷ rs) ps) at (
        Intact-append cs (xs ++ s ∷ rs) ps (Intact-InPlace cs 0 (xs ++ s ∷ rs) place)
          (Intact-parity cs ps par)) in
      let v = valid_shards-lost cs xs (rs ++ ps) s o u whole in
      let count_ds : length (xs ++ s ∷ rs) ≡ e.data_shards =
        rw parts at (length-split_shards cs e.data_shards 0 n (padded e b)) in
      let counts : (e.data_shards ≤ length (map some xs ++ o ∷ map some (rs ++ ps)))
          × (e.data_shards ≤ length valid)
          × (length slots ≡ e.data_shards) =
        lost_lengths e xs rs ps s o hp count_ds (
          length-parity_copies cs e.parity_shards e.data_shards
            (fold_xor (replicate n 0) (contents (data_of cs e b)))) in
      decode-rebuilt cs e (map some xs ++ o ∷ map some (rs ++ ps)) valid slots (pos (length b)) v
        (counts.0) (counts.1) (place-data e.data_shards slots ps valid lost (counts.2) par split)
        (length xs) (set slots (length xs) (some (make_shard cs (length xs) false s.bytes)))
        (missing_indices-one cs 0 xs rs ∙ ap (λ i. i ∷ []) here)
        (reconstruct-one cs e valid slots (length xs) p s.bytes hp first rebuilt)
      ∙ ap ok (rebuilt-truncate e b xs rs s (make_shard cs (length xs) false s.bytes) h parts refl)

  -- Whichever single shard of an encoding with at least one parity shard is lost, or replaced by one
  -- whose checksum does not fit, `Decode` with the original length returns the original bytes.
  pub decode-encode :
      (e : Encoder) (b : List ℕ) (xs ys : List Shard) (s : Shard) (o : Option Shard)
      → 0 < e.data_shards
      → 0 < e.parity_shards
      → encode cs e b ≡ ok (xs ++ s ∷ ys)
      → Unusable cs o
      → decode cs e (map some xs ++ o ∷ map some ys) (pos (length b)) ≡ ok b
  decode-encode e b xs ys s o h hp enc u =
      let parts : xs ++ s ∷ ys ≡ data_of cs e b ++ parity_of cs e b =
        cc (encode-data_of cs e b h) in
      elim (append-split xs s ys (data_of cs e b) (parity_of cs e b) parts) [
        | inl (r, ds, ye) ↦ rw ye (recover-data e b xs r s o h hp u ds)
        | inr (r, xe, pe) ↦ rw xe (recover-parity e b r ys s o h u pe)
      ]
