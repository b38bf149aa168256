-- ===== src/Erasure/Xor.antt =====
-- internal/erasure/erasure.go: the exclusive or of slices, and how a lost slice comes back.
use lumeo_fs.Base.{
  ℕ, zero, suc, ◌-◌, ◌≤◌, List, [], ◌∷◌, ◌++◌, length, replicate, All, ◌≡◌, refl, sym, ap, ◌∙◌,
  arith, length-replicate, bit_xor, bit_xor_comm, bit_xor_assoc, bit_xor_self, zero-bit_xor,
  bit_xor-zero,
}
use lumeo_fs.Erasure.Shards.{ok, xor_into, xor_all}

-- `xor_into` where it does not panic.
abbrev pub zip_xor : List ℕ → List ℕ → List ℕ
zip_xor [] bs = []
zip_xor (a ∷ as') [] = []
zip_xor (a ∷ as') (b ∷ bs) = bit_xor a b ∷ zip_xor as' bs

abbrev pub fold_xor : List ℕ → List (List ℕ) → List ℕ
fold_xor acc [] = acc
fold_xor acc (b ∷ bs) = fold_xor (zip_xor acc b) bs

abbrev pub OfLength : ℕ → List ℕ → Type 0
OfLength n b = length b ≡ n

length-zip_xor : (a b : List ℕ) (n : ℕ) → length a ≡ n → length b ≡ n → length (zip_xor a b) ≡ n
length-zip_xor [] b n p q = p
length-zip_xor (x ∷ a) [] n p q = absurd (omega arith)
length-zip_xor (x ∷ a) (y ∷ b) n p q =
    omega (arith, length-zip_xor a b (n - 1) (omega arith) (omega arith))

xor_into-zip_xor : (a b : List ℕ) → length a ≤ length b → xor_into a b ≡ ok (zip_xor a b)
unfolding xor_into
xor_into-zip_xor [] b h = refl
xor_into-zip_xor (x ∷ a) [] h = absurd (omega arith)
xor_into-zip_xor (x ∷ a) (y ∷ b) h = rw (xor_into-zip_xor a b (omega arith)) refl

-- On slices of one length `xor_all` does not panic.
pub xor_all-fold_xor :
    (n : ℕ) (acc : List ℕ) (bs : List (List ℕ))
    → length acc ≡ n
    → All (OfLength n) bs
    → xor_all acc bs ≡ ok (fold_xor acc bs)
unfolding xor_all
xor_all-fold_xor n acc [] h t = refl
xor_all-fold_xor n acc (b ∷ bs) h (hb, t) =
    rw (xor_into-zip_xor acc b (omega arith))
      (xor_all-fold_xor n (zip_xor acc b) bs (length-zip_xor acc b n h hb) t)

zip_xor_comm : (a b : List ℕ) → zip_xor a b ≡ zip_xor b a
zip_xor_comm [] [] = refl
zip_xor_comm [] (y ∷ b) = refl
zip_xor_comm (x ∷ a) [] = refl
zip_xor_comm (x ∷ a) (y ∷ b) = cc (bit_xor_comm x y, zip_xor_comm a b)

zip_xor_assoc : (a b c : List ℕ) → zip_xor (zip_xor a b) c ≡ zip_xor a (zip_xor b c)
zip_xor_assoc [] b c = refl
zip_xor_assoc (x ∷ a) [] c = refl
zip_xor_assoc (x ∷ a) (y ∷ b) [] = refl
zip_xor_assoc (x ∷ a) (y ∷ b) (z ∷ c) = cc (bit_xor_assoc x y z, zip_xor_assoc a b c)

zip_xor_right_comm : (a b c : List ℕ) → zip_xor (zip_xor a b) c ≡ zip_xor (zip_xor a c) b
zip_xor_right_comm a b c =
    zip_xor_assoc a b c ∙ ap (zip_xor a) (zip_xor_comm b c) ∙ sym (zip_xor_assoc a c b)

zip_xor_cancel : (a b : List ℕ) → length a ≤ length b → zip_xor (zip_xor a b) b ≡ a
zip_xor_cancel [] b h = refl
zip_xor_cancel (x ∷ a) [] h = absurd (omega arith)
zip_xor_cancel (x ∷ a) (y ∷ b) h = cc (
  bit_xor_assoc x y y,
  ap (bit_xor x) (bit_xor_self y),
  bit_xor-zero x,
  zip_xor_cancel a b (omega arith),
)

zeros-zip_xor : (n : ℕ) (a : List ℕ) → length a ≡ n → zip_xor (replicate n 0) a ≡ a
zeros-zip_xor zero [] h = refl
zeros-zip_xor zero (x ∷ a) h = absurd (omega arith)
zeros-zip_xor (suc n) [] h = absurd (omega arith)
zeros-zip_xor (suc n) (x ∷ a) h = cc (zero-bit_xor x, zeros-zip_xor n a (omega arith))

fold_xor-zip_xor :
    (acc b : List ℕ) (bs : List (List ℕ))
    → fold_xor (zip_xor acc b) bs ≡ zip_xor (fold_xor acc bs) b
fold_xor-zip_xor acc b [] = refl
fold_xor-zip_xor acc b (c ∷ bs) =
    ap (λ x. fold_xor x bs) (zip_xor_right_comm acc b c) ∙ fold_xor-zip_xor (zip_xor acc c) b bs

length-fold_xor :
    (n : ℕ) (acc : List ℕ) (bs : List (List ℕ))
    → length acc ≡ n
    → All (OfLength n) bs
    → length (fold_xor acc bs) ≡ n
length-fold_xor n acc [] h t = h
length-fold_xor n acc (b ∷ bs) h (hb, t) =
    length-fold_xor n (zip_xor acc b) bs (length-zip_xor acc b n h hb) t

fold_xor_twice :
    (n : ℕ) (acc : List ℕ) (bs : List (List ℕ))
    → length acc ≡ n
    → All (OfLength n) bs
    → fold_xor (fold_xor acc bs) bs ≡ acc
fold_xor_twice n acc [] h t = refl
fold_xor_twice n acc (b ∷ bs) h (hb, t) =
    ap (λ x. fold_xor (zip_xor x b) bs) (fold_xor-zip_xor acc b bs)
    ∙ ap (λ x. fold_xor x bs)
        (zip_xor_cancel (fold_xor acc bs) b (omega (arith, length-fold_xor n acc bs h t)))
    ∙ fold_xor_twice n acc bs h t

fold_xor-middle :
    (acc d : List ℕ) (xs ys : List (List ℕ))
    → fold_xor acc (xs ++ d ∷ ys) ≡ fold_xor (zip_xor acc d) (xs ++ ys)
fold_xor-middle acc d [] ys = refl
fold_xor-middle acc d (x ∷ xs) ys =
    fold_xor-middle (zip_xor acc x) d xs ys
    ∙ ap (λ a. fold_xor a (xs ++ ys)) (zip_xor_right_comm acc x d)

-- The parity of all slices, and the slices but one, give the one.
pub fold_xor_lost :
    (n : ℕ) (d : List ℕ) (xs ys : List (List ℕ))
    → length d ≡ n
    → All (OfLength n) (xs ++ ys)
    → fold_xor (fold_xor (replicate n 0) (xs ++ d ∷ ys)) (xs ++ ys) ≡ d
fold_xor_lost n d xs ys h t =
    ap (λ a. fold_xor a (xs ++ ys)) (fold_xor-middle (replicate n 0) d xs ys)
    ∙ fold_xor_twice n (zip_xor (replicate n 0) d) (xs ++ ys)
        (length-zip_xor (replicate n 0) d n (length-replicate n 0) h) t
    ∙ zeros-zip_xor n d h

pub length-fold_zeros :
    (n : ℕ) (bs : List (List ℕ)) → All (OfLength n) bs → length (fold_xor (replicate n 0) bs) ≡ n
length-fold_zeros n bs t = length-fold_xor n (replicate n 0) bs (length-replicate n 0) t
