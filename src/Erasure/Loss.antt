-- ===== src/Erasure/Loss.antt =====
-- internal/erasure/erasure.go, `Decode`: what it does when one shard is lost or damaged.
use lumeo_fs.Base.{
  ℕ, zero, suc, ◌+◌, ◌≤◌, ◌<◌, String, true, false, Option, none, some, List, [], ◌∷◌, ◌++◌, map,
  ltb, length, set, replicate, All, ◌≡◌, refl, sym, ap, ◌∙◌, ◌⊎◌, inl, inr, arith, ℤ,
}
use lumeo_fs.Erasure.Shards.{
  ok, Encoder, Shard, xor_all, verify_checksum, make_shard, parity_copies, reconstruct, truncate_to,
  decode, valid_shards, place_shards, missing_indices, find_parity, present, join,
}
use lumeo_fs.Erasure.Xor.{OfLength}
use lumeo_fs.Erasure.Places.{InPlace, AllInPlace, AllParity, somes, contents}

pub somes-map : (ss : List Shard) → somes (map some ss) ≡ ss
somes-map [] = refl
somes-map (s ∷ ss) = ap (◌∷◌ s) (somes-map ss)

pub somes-lost : (xs ys : List Shard) → somes (map some xs ++ none ∷ map some ys) ≡ xs ++ ys
somes-lost [] ys = somes-map ys
somes-lost (x ∷ xs) ys = ap (◌∷◌ x) (somes-lost xs ys)

pub length-map-some : (ss : List Shard) → length (map some ss) ≡ length ss
length-map-some [] = refl
length-map-some (s ∷ ss) = ap suc (length-map-some ss)

-- Where an element of a list stands, if the list is in two parts.
pub append-split :
    (xs : List Shard) (s : Shard) (ys ds ps : List Shard)
    → xs ++ s ∷ ys ≡ ds ++ ps
    → ((r : List Shard) × (ds ≡ xs ++ s ∷ r) × (ys ≡ r ++ ps))
      ⊎ ((r : List Shard) × (xs ≡ ds ++ r) × (ps ≡ r ++ s ∷ ys))
append-split [] s ys [] ps e = inr ([], refl, sym e)
append-split [] s ys (d ∷ ds) ps e = inl (ds, cc, cc)
append-split (x ∷ xs) s ys [] ps e = inr (x ∷ xs, refl, sym e)
append-split (x ∷ xs) s ys (d ∷ ds) ps e = elim (append-split xs s ys ds ps cc) [
  | inl (r, a, b) ↦ inl (r, cc, b)
  | inr (r, a, b) ↦ inr (r, cc, b)
]

module _ (cs : List ℕ → String) where
  pub AllInPlace-lost :
      (i : ℕ) (xs ys : List Shard) (s : Shard)
      → AllInPlace cs i (map some (xs ++ s ∷ ys))
      → AllInPlace cs i (map some xs ++ none ∷ map some ys) × InPlace cs (i + length xs) s
  AllInPlace-lost i [] ys s (q, h) = let e : i + 0 ≡ i = omega arith in (h, rw e q)
  AllInPlace-lost i (x ∷ xs) ys s (q, h) =
      let (a, b) = AllInPlace-lost (suc i) xs ys s h in
      let e : i + suc (length xs) ≡ suc i + length xs = omega arith in ((q, a), rw e b)

  pub reconstruct-one :
      (e : Encoder) (valid : List Shard) (slots : List (Option Shard)) (i : ℕ) (p : Shard)
      (b : List ℕ)
      → 0 < e.parity_shards
      → find_parity valid ≡ some p
      → xor_all p.bytes (present slots) ≡ ok b
      → reconstruct cs e valid slots (i ∷ []) ≡ ok (set slots i (some (make_shard cs i false b)))
  unfolding reconstruct
  reconstruct-one e valid slots i p b h f x =
      let few : ltb e.parity_shards 1 ≡ false = ground arith in rw (few, f) (rw x refl)

  module _ (e : Encoder) (shards : List (Option Shard)) (valid : List Shard)
      (slots : List (Option Shard)) (size : ℤ) (v : valid_shards cs shards ≡ valid)
      (enough : e.data_shards ≤ length shards) (good : e.data_shards ≤ length valid)
      (placed : place_shards e.data_shards valid (replicate e.data_shards none) ≡ ok slots) where
    pub decode-full :
        missing_indices 0 slots ≡ []
        → decode cs e shards size ≡ ok (truncate_to size (join (present slots)))
    unfolding decode
    decode-full m =
        let a : ltb (length shards) e.data_shards ≡ false = ground arith in
        let b : ltb (length valid) e.data_shards ≡ false = ground arith in
        rw (a, v) (rw b (rw placed (rw m refl)))

    pub decode-rebuilt :
        (i : ℕ) (full : List (Option Shard))
        → missing_indices 0 slots ≡ i ∷ []
        → reconstruct cs e valid slots (i ∷ []) ≡ ok full
        → decode cs e shards size ≡ ok (truncate_to size (join (present full)))
    unfolding decode
    decode-rebuilt i full m r =
        let a : ltb (length shards) e.data_shards ≡ false = ground arith in
        let b : ltb (length valid) e.data_shards ≡ false = ground arith in
        rw (a, v) (rw b (rw placed (rw m (rw (v, r) refl))))

  -- A shard that is lost, or whose checksum does not fit its bytes.
  abbrev pub Unusable : Option Shard → Type 0
  Unusable none = Unit
  Unusable (some b) = verify_checksum cs b ≡ false

  abbrev pub Intact : List Shard → Type 0
  Intact = All (λ s. verify_checksum cs s ≡ true)

  pub Intact-InPlace : (i : ℕ) (ss : List Shard) → AllInPlace cs i (map some ss) → Intact ss
  Intact-InPlace i [] h = tt
  Intact-InPlace i (s ∷ ss) (q, h) = (q.intact, Intact-InPlace (suc i) ss h)

  pub Intact-parity : (ps : List Shard) → AllParity cs ps → Intact ps
  Intact-parity [] h = tt
  Intact-parity (p ∷ ps) ((q, v), h) = (v, Intact-parity ps h)

  pub Intact-append : (xs ys : List Shard) → Intact xs → Intact ys → Intact (xs ++ ys)
  Intact-append [] ys h k = k
  Intact-append (x ∷ xs) ys (q, h) k = (q, Intact-append xs ys h k)

  pub valid_shards-Intact : (ss : List Shard) → Intact ss → valid_shards cs (map some ss) ≡ ss
  unfolding valid_shards
  valid_shards-Intact [] h = refl
  valid_shards-Intact (s ∷ ss) (q, h) = rw q (ap (◌∷◌ s) (valid_shards-Intact ss h))

  pub valid_shards-Unusable :
      (o : Option Shard) (ss : List (Option Shard))
      → Unusable o
      → valid_shards cs (o ∷ ss) ≡ valid_shards cs ss
  unfolding valid_shards
  valid_shards-Unusable none ss u = refl
  valid_shards-Unusable (some b) ss u = rw u refl

  pub valid_shards-lost :
      (xs ys : List Shard) (s : Shard) (o : Option Shard)
      → Unusable o
      → Intact (xs ++ s ∷ ys)
      → valid_shards cs (map some xs ++ o ∷ map some ys) ≡ xs ++ ys
  unfolding valid_shards
  valid_shards-lost [] ys s o u (q, h) =
      valid_shards-Unusable o (map some ys) u ∙ valid_shards-Intact ys h
  valid_shards-lost (x ∷ xs) ys s o u (q, h) = rw q (ap (◌∷◌ x) (valid_shards-lost xs ys s o u h))

  pub length-lost :
      (xs ys : List Shard) (o : Option Shard)
      → length (map some xs ++ o ∷ map some ys) ≡ suc (length (xs ++ ys))
  length-lost [] ys o = ap suc (length-map-some ys)
  length-lost (x ∷ xs) ys o = ap suc (length-lost xs ys o)

  pub length-parity_copies : (n i : ℕ) (b : List ℕ) → length (parity_copies cs n i b) ≡ n
  unfolding parity_copies
  length-parity_copies zero i b = refl
  length-parity_copies (suc n) i b = ap suc (length-parity_copies n (i + 1) b)

  pub AllParity-lost :
      (xs ys : List Shard) (s : Shard) → AllParity cs (xs ++ s ∷ ys) → AllParity cs (xs ++ ys)
  AllParity-lost [] ys s (q, h) = h
  AllParity-lost (x ∷ xs) ys s (q, h) = (q, AllParity-lost xs ys s h)

  pub All-middle :
      (n : ℕ) (xs ys : List (List ℕ)) (d : List ℕ)
      → All (OfLength n) (xs ++ d ∷ ys)
      → (length d ≡ n) × All (OfLength n) (xs ++ ys)
  All-middle n [] ys d (q, h) = (q, h)
  All-middle n (x ∷ xs) ys d (q, h) = let (a, b) = All-middle n xs ys d h in (a, (q, b))

  pub contents-middle :
      (xs ys : List Shard) (s : Shard)
      → contents (xs ++ s ∷ ys) ≡ contents xs ++ s.bytes ∷ contents ys
  contents-middle [] ys s = refl
  contents-middle (x ∷ xs) ys s = ap (◌∷◌ x.bytes) (contents-middle xs ys s)

  pub parity-head :
      (n i : ℕ) (b : List ℕ)
      → 0 < n
      → (p : Shard) × (more : List Shard) × (parity_copies cs n i b ≡ p ∷ more)
        × (p.is_parity ≡ true)
        × (p.bytes ≡ b)
  unfolding parity_copies
  parity-head zero i b h = absurd (omega arith)
  parity-head (suc n) i b h =
      (make_shard cs i true b, parity_copies cs n (i + 1) b, refl, refl, refl)

  pub find_parity-head :
      (p : Shard) (ps : List Shard) → p.is_parity ≡ true → find_parity (p ∷ ps) ≡ some p
  unfolding find_parity
  find_parity-head p ps h = ground arith
