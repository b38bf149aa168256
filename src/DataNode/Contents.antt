-- ===== src/DataNode/Contents.antt =====
-- internal/datanode/datanode.go: a file by its length and its bytes; what a write does to them.
use lumeo_fs.Base.{
  ℕ, zero, suc, ◌+◌, ◌-◌, ◌≤◌, ◌<◌, max, ◌&&◌, List, [], ◌∷◌, ◌++◌, ltb, leb, if◌then◌else◌, length,
  take, drop, replicate, ◌≡◌, refl, ap, ◌∙◌, inl, inr, arith, Bool-cases, length-append,
  length-take, length-drop, length-replicate,
}
use lumeo_fs.DataNode.Storage.{overwrite}

-- The byte at a position; zero beyond the end.
abbrev pub byte_at : List ℕ → ℕ → ℕ
byte_at [] i = 0
byte_at (b ∷ bs) zero = b
byte_at (b ∷ bs) (suc i) = byte_at bs i

pub byte_at-ext :
    (a b : List ℕ) → length a ≡ length b → ((i : ℕ) → byte_at a i ≡ byte_at b i) → a ≡ b
byte_at-ext [] [] l h = refl
byte_at-ext [] (y ∷ b) l h = absurd (omega arith)
byte_at-ext (x ∷ a) [] l h = absurd (omega arith)
byte_at-ext (x ∷ a) (y ∷ b) l h = cc (h 0, byte_at-ext a b (omega arith) (λ i. h (suc i)))

byte_at-beyond : (a : List ℕ) (i : ℕ) → length a ≤ i → byte_at a i ≡ 0
byte_at-beyond [] i h = refl
byte_at-beyond (x ∷ a) zero h = absurd (omega arith)
byte_at-beyond (x ∷ a) (suc i) h = byte_at-beyond a i (omega arith)

byte_at-append :
    (a b : List ℕ) (i : ℕ)
    → byte_at (a ++ b) i ≡ (if ltb i (length a) then byte_at a i else byte_at b (i - length a))
byte_at-append [] b i = ground arith
byte_at-append (x ∷ a) b zero = ground arith
byte_at-append (x ∷ a) b (suc i) = ground (arith, byte_at-append a b i)

byte_at-take : (n : ℕ) (a : List ℕ) (i : ℕ) → i < n → byte_at (take n a) i ≡ byte_at a i
byte_at-take zero a i h = absurd (omega arith)
byte_at-take (suc n) [] i h = refl
byte_at-take (suc n) (x ∷ a) zero h = refl
byte_at-take (suc n) (x ∷ a) (suc i) h = byte_at-take n a i (omega arith)

byte_at-drop : (n : ℕ) (a : List ℕ) (i : ℕ) → byte_at (drop n a) i ≡ byte_at a (n + i)
byte_at-drop zero a i = ap (byte_at a) (omega arith)
byte_at-drop (suc n) [] i = refl
byte_at-drop (suc n) (x ∷ a) i =
    let e : suc n + i ≡ suc (n + i) = omega arith in rw e (byte_at-drop n a i)

byte_at-zeros : (n i : ℕ) → byte_at (replicate n 0) i ≡ 0
byte_at-zeros zero i = refl
byte_at-zeros (suc n) zero = refl
byte_at-zeros (suc n) (suc i) = byte_at-zeros n i

byte_at-padded : (n : ℕ) (a : List ℕ) (i : ℕ) → byte_at (a ++ replicate n 0) i ≡ byte_at a i
byte_at-padded n a i =
    ground (
      arith,
      byte_at-append a (replicate n 0) i,
      byte_at-zeros n (i - length a),
      byte_at-beyond a i,
    )

-- The beginning of a file, filled up with zeros.
abbrev pub before : ℕ → List ℕ → List ℕ
before start file = take start (file ++ replicate (start - length file) 0)

pub length-before : (start : ℕ) (file : List ℕ) → length (before start file) ≡ start
length-before start file = omega (
  arith,
  length-take start (file ++ replicate (start - length file) 0),
  length-append file (replicate (start - length file) 0),
  length-replicate {A = ℕ} (start - length file) 0,
)

byte_at-before :
    (start : ℕ) (file : List ℕ) (i : ℕ) → i < start → byte_at (before start file) i ≡ byte_at file i
byte_at-before start file i h =
    byte_at-take start (file ++ replicate (start - length file) 0) i h
    ∙ byte_at-padded (start - length file) file i

byte_at-spliced :
    (start : ℕ) (d file : List ℕ) (i : ℕ)
    → byte_at (before start file ++ (d ++ drop (start + length d) file)) i
      ≡ (if leb start i && ltb i (start + length d) then byte_at d (i - start) else byte_at file i)
byte_at-spliced start d file i =
    let l = length-before start file in
    let a = byte_at-append (before start file) (d ++ drop (start + length d) file) i in
    let m = byte_at-append d (drop (start + length d) file) (i - start) in
    elim (Bool-cases (ltb i start)) [
      | inl early ↦ ground (arith, a, l, byte_at-before start file i)
      | inr later ↦
          let second : byte_at (before start file ++ (d ++ drop (start + length d) file)) i
              ≡ byte_at (d ++ drop (start + length d) file) (i - start) =
            rw l at a ∙ rw later refl in
          elim (Bool-cases (ltb (i - start) (length d))) [
            | inl inside ↦ second ∙ m ∙ ground arith
            | inr behind ↦
                let back : start + length d + (i - start - length d) ≡ i = ground arith in
                second
                ∙ m
                ∙ rw behind (
                    byte_at-drop (start + length d) file (i - start - length d)
                    ∙ ap (byte_at file) back
                    ∙ ground arith)
          ]
    ]

-- The bytes of a file after a write: the new ones where it wrote, and the old ones elsewhere.
pub byte_at-overwrite :
    (start : ℕ) (bytes file : List ℕ) (i : ℕ)
    → byte_at (overwrite start bytes file) i ≡ (
        if leb start i && ltb i (start + length bytes)
        then byte_at bytes (i - start)
        else byte_at file i)
unfolding overwrite
byte_at-overwrite start [] file i = ground arith
byte_at-overwrite start (b ∷ bs) file i = byte_at-spliced start (b ∷ bs) file i

-- Its length.
pub length-overwrite :
    (start : ℕ) (bytes file : List ℕ)
    → 0 < length bytes
    → length (overwrite start bytes file) ≡ max (length file) (start + length bytes)
unfolding overwrite
length-overwrite start [] file h = absurd (omega arith)
length-overwrite start (b ∷ bs) file h = omega (
  arith,
  length-before start file,
  length-append (before start file) ((b ∷ bs) ++ drop (start + length (b ∷ bs)) file),
  length-append (b ∷ bs) (drop (start + length (b ∷ bs)) file),
  length-drop (start + length (b ∷ bs)) file,
)
