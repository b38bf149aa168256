-- ===== src/Base/Bytes.antt =====
-- Bytes: big-endian numbers, and blocks with their length in front, as the write-ahead log and the
-- protocol write them.
use Prim.Native.Nat.{ℕ, zero, suc, ◌+◌, ◌-◌, ◌*◌, ◌/◌, ◌%◌, ◌≤◌, ◌<◌}
use mathlib.Core.Path.{◌≡◌, refl, ap, ◌∙◌}
use mathlib.Core.Logic.{inl, inr}
use mathlib.Core.List.{List, [], ◌∷◌, ◌++◌, append_assoc}
use mathlib.Core.Option.{Option, none, some}
use mathlib.Core.Bool.{false}
use native.Mathlib.Omega.{arith}
use lumeo_fs.Base.Tests.{if◌then◌else◌, ltb, Bool-cases, Option-cases}
use lumeo_fs.Base.Lists.{length, take, drop, length-append, length-take, length-drop}

-- `binary.BigEndian.PutUint64` on a buffer of eight bytes.
unfoldable pub put_uint64 : ℕ → List ℕ
put_uint64 n =
    n / 72057594037927936 % 256
    ∷ n / 281474976710656 % 256
    ∷ n / 1099511627776 % 256
    ∷ n / 4294967296 % 256
    ∷ n / 16777216 % 256
    ∷ n / 65536 % 256
    ∷ n / 256 % 256
    ∷ n % 256
    ∷ []

-- `binary.Write` of a `uint32` in big-endian order.
unfoldable pub put_uint32 : ℕ → List ℕ
put_uint32 n = n / 16777216 % 256 ∷ n / 65536 % 256 ∷ n / 256 % 256 ∷ n % 256 ∷ []

-- The number of big-endian bytes, after those that make `acc`.
unfoldable pub big_endian : ℕ → List ℕ → ℕ
big_endian acc [] = acc
big_endian acc (b ∷ bs) = big_endian (acc * 256 + b) bs

-- `io.ReadFull` of a buffer of `n` bytes: what it reads and the rest, or an error.
unfoldable pub read_full : ℕ → List ℕ → Option (List ℕ × List ℕ)
read_full n input = if ltb (length input) n then none else some (take n input, drop n input)

-- A block whose length stands before it, in `k` big-endian bytes: its bytes and the rest.
unfoldable pub read_block : ℕ → List ℕ → Option (List ℕ × List ℕ)
read_block k input = elim (read_full k input) [
  | none ↦ none
  | some (header, rest) ↦ read_full (big_endian 0 header) rest
]

pub big_endian-put_uint64 : (n : ℕ) → n < 18446744073709551616 → big_endian 0 (put_uint64 n) ≡ n
unfolding put_uint64 big_endian
big_endian-put_uint64 n h = omega arith

pub length-put_uint64 : (n : ℕ) → length (put_uint64 n) ≡ 8
unfolding put_uint64
length-put_uint64 n = refl

pub big_endian-put_uint32 : (n : ℕ) → n < 4294967296 → big_endian 0 (put_uint32 n) ≡ n
unfolding put_uint32 big_endian
big_endian-put_uint32 n h = omega arith

pub length-put_uint32 : (n : ℕ) → length (put_uint32 n) ≡ 4
unfolding put_uint32
length-put_uint32 n = refl

pub take-append_left : (n : ℕ) (xs ys : List ℕ) → n ≤ length xs → take n (xs ++ ys) ≡ take n xs
take-append_left zero xs ys h = ground arith
take-append_left (suc n) [] ys h = absurd (omega arith)
take-append_left (suc n) (x ∷ xs) ys h = ap (◌∷◌ x) (take-append_left n xs ys (omega arith))

pub drop-append_left :
    (n : ℕ) (xs ys : List ℕ) → n ≤ length xs → drop n (xs ++ ys) ≡ drop n xs ++ ys
drop-append_left zero xs ys h = ground arith
drop-append_left (suc n) [] ys h = absurd (omega arith)
drop-append_left (suc n) (x ∷ xs) ys h = drop-append_left n xs ys (omega arith)

pub take-exact : (a t : List ℕ) → take (length a) (a ++ t) ≡ a
take-exact [] t = ground arith
take-exact (x ∷ a) t = ap (◌∷◌ x) (take-exact a t)

pub drop-exact : (a t : List ℕ) → drop (length a) (a ++ t) ≡ t
drop-exact [] t = ground arith
drop-exact (x ∷ a) t = drop-exact a t

take-append_right : (k m : ℕ) (a t : List ℕ) → k ≡ length a + m → take k (a ++ t) ≡ a ++ take m t
take-append_right k m [] t h = let e : k ≡ m = omega arith in rw e refl
take-append_right zero m (x ∷ a) t h = absurd (omega arith)
take-append_right (suc k) m (x ∷ a) t h = ap (◌∷◌ x) (take-append_right k m a t (omega arith))

read_full-append :
    (n : ℕ) (a t d r : List ℕ)
    → read_full n a ≡ some (d, r)
    → read_full n (a ++ t) ≡ some (d, r ++ t)
unfolding read_full
read_full-append n a t d r h = elim (Bool-cases (ltb (length a) n)) [
  | inl short ↦ absurd (ground arith)
  | inr enough ↦
      let l = length-append a t in
      let still : ltb (length (a ++ t)) n ≡ false = ground arith in
      let le : n ≤ length a = ground arith in
      rw still (
        rw (take-append_left n a t le, drop-append_left n a t le)
          (let e1 : take n a ≡ d = ground arith in
            let e2 : drop n a ≡ r = ground arith in rw (e1, e2) refl))
]

read_full-shorter : (n : ℕ) (a d r : List ℕ) → read_full n a ≡ some (d, r) → length r + n ≡ length a
unfolding read_full
read_full-shorter n a d r h = ground (arith, length-drop n a)

read_full-short : (n : ℕ) (a : List ℕ) → length a < n → read_full n a ≡ none
unfolding read_full
read_full-short n a h = ground arith

read_full-exact : (a t : List ℕ) → read_full (length a) (a ++ t) ≡ some (a, t)
unfolding read_full
read_full-exact a t =
    let l = length-append a t in
    let enough : ltb (length (a ++ t)) (length a) ≡ false = ground arith in
    rw enough (rw (take-exact a t, drop-exact a t) refl)

-- What is read is there too when the input goes on.
pub read_block-append :
    (k : ℕ) (a t d r : List ℕ)
    → read_block k a ≡ some (d, r)
    → read_block k (a ++ t) ≡ some (d, r ++ t)
unfolding read_block
read_block-append k a t d r h = elim (Option-cases (read_full k a)) [
  | inl n ↦ absurd (ground arith)
  | inr ((b, c), e) ↦
      rw (read_full-append k a t b c e, read_block)
        (read_full-append (big_endian 0 b) c t d r (rw (e, read_block) at h))
]

-- Reading a block shortens the input.
pub read_block-shorter :
    (k : ℕ) (a d r : List ℕ) → read_block k a ≡ some (d, r) → length r + k ≤ length a
unfolding read_block
read_block-shorter k a d r h = elim (Option-cases (read_full k a)) [
  | inl n ↦ absurd (ground arith)
  | inr ((b, c), e) ↦ omega (
    arith,
    read_full-shorter k a b c e,
    read_full-shorter (big_endian 0 b) c d r (rw (e, read_block) at h),
  )
]

-- A block after its header `w`, which says its length.
module _ (w d : List ℕ) (says : big_endian 0 w ≡ length d) where
  pub read_block-frame : (t : List ℕ) → read_block (length w) ((w ++ d) ++ t) ≡ some (d, t)
  unfolding read_block
  read_block-frame t =
      let start : read_full (length w) ((w ++ d) ++ t) ≡ some (w, d ++ t) =
        ap (read_full (length w)) (append_assoc w d t) ∙ read_full-exact w (d ++ t) in
      rw (start, read_block) (rw says (read_full-exact d t))

  -- An input that ends within it.
  pub read_block-torn :
      (k : ℕ) → k < length (w ++ d) → read_block (length w) (take k (w ++ d)) ≡ none
  unfolding read_block
  read_block-torn k lt = elim (Bool-cases (ltb k (length w))) [
    | inl header ↦
        rw
          (
            read_full-short (length w) (take k (w ++ d)) (ground (arith, length-take k (w ++ d))),
            read_block,
          )
          refl
    | inr more ↦
        let cut : take k (w ++ d) ≡ w ++ take (k - length w) d =
          take-append_right k (k - length w) w d (ground arith) in
        let start : read_full (length w) (take k (w ++ d)) ≡ some (w, take (k - length w) d) =
          ap (read_full (length w)) cut ∙ read_full-exact w (take (k - length w) d) in
        rw (start, read_block)
          (rw says (
            read_full-short (length d) (take (k - length w) d)
              (ground (arith, length-take (k - length w) d, length-append w d))))
  ]
