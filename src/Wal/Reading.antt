-- ===== src/Wal/Reading.antt =====
-- internal/wal/wal.go, `readFile`: enough rounds, and files that are read one part after the other.
use lumeo_fs.Base.{
  ℕ, zero, suc, ◌+◌, ◌≤◌, ◌<◌, Option, none, some, List, [], ◌∷◌, ◌++◌, length, take, ◌≡◌, refl,
  sym, ap, ◌∙◌, inl, inr, arith, Option-cases, put_uint64, big_endian-put_uint64, length-put_uint64,
  read_block-append, read_block-shorter, read_block-frame, read_block-torn,
}
use lumeo_fs.Wal.Log.{Entry, frame, next_record, prepend, read_records, read_file}

pub next_record-append :
    (a t d r : List ℕ) → next_record a ≡ some (d, r) → next_record (a ++ t) ≡ some (d, r ++ t)
unfolding next_record
next_record-append a t d r h = read_block-append 8 a t d r h

-- A round that reads an entry shortens the file.
pub next_record-shorter : (a d r : List ℕ) → next_record a ≡ some (d, r) → length r + 8 ≤ length a
unfolding next_record
next_record-shorter a d r h = read_block-shorter 8 a d r h

pub next_record-frame :
    (d t : List ℕ) → length d < 18446744073709551616 → next_record (frame d ++ t) ≡ some (d, t)
unfolding next_record
next_record-frame d t h =
    rw (length-put_uint64 (length d)) at
      (read_block-frame (put_uint64 (length d)) d (big_endian-put_uint64 (length d) h) t)

-- A file that ends within an entry.
pub next_record-torn :
    (k : ℕ) (d : List ℕ)
    → length d < 18446744073709551616
    → k < length (frame d)
    → next_record (take k (frame d)) ≡ none
unfolding next_record
next_record-torn k d h lt =
    rw (length-put_uint64 (length d)) at
      (read_block-torn (put_uint64 (length d)) d (big_endian-put_uint64 (length d) h) k lt)

module _ (unmarshal : List ℕ → Option Entry) where
  -- Rounds beyond the length of the file change nothing.
  pub read_records-fuel :
      (f g : ℕ) (a : List ℕ)
      → length a ≤ f
      → length a ≤ g
      → read_records unmarshal f a ≡ read_records unmarshal g a
  unfolding read_records
  read_records-fuel f g [] h k = refl
  read_records-fuel zero g (b ∷ bs) h k = absurd (omega arith)
  read_records-fuel (suc f) zero (b ∷ bs) h k = absurd (omega arith)
  read_records-fuel (suc f) (suc g) (b ∷ bs) h k = elim (Option-cases (next_record (b ∷ bs))) [
    | inl n ↦ ground (arith, n)
    | inr ((d, r), e) ↦
        let s = next_record-shorter (b ∷ bs) d r e in
        ground (arith, e, read_records-fuel f g r (omega (arith, s)) (omega (arith, s)))
  ]

  -- One round of reading.
  pub read_file-next :
      (a d r : List ℕ) (e : Entry)
      → next_record a ≡ some (d, r)
      → unmarshal d ≡ some e
      → read_file unmarshal a ≡ prepend (e ∷ []) (read_file unmarshal r)
  unfolding read_file read_records
  read_file-next [] d r e h u = absurd (omega (arith, next_record-shorter [] d r h))
  read_file-next (b ∷ bs) d r e h u =
      rw (h, u, read_file, read_records)
        (rw
          (read_records-fuel (length bs) (length r) r
            (omega (arith, next_record-shorter (b ∷ bs) d r h)) (omega arith))
          refl)

  pub prepend-nil : (o : Option (List Entry)) → prepend [] o ≡ o
  prepend-nil none = refl
  prepend-nil (some fs) = refl

  prepend_assoc :
      (e : Entry) (es : List Entry) (o : Option (List Entry))
      → prepend (e ∷ es) o ≡ prepend (e ∷ []) (prepend es o)
  prepend_assoc e es none = refl
  prepend_assoc e es (some fs) = refl

  -- A file that can be read, and more after it: the entries of the one and of the other.
  read_records-append :
      (f : ℕ) (a t : List ℕ) (es : List Entry)
      → read_records unmarshal f a ≡ some es
      → read_file unmarshal (a ++ t) ≡ prepend es (read_file unmarshal t)
  unfolding read_records
  read_records-append f [] t es h =
      let e : [] ≡ es = ground arith in rw (← e) (sym (prepend-nil (read_file unmarshal t)))
  read_records-append zero (b ∷ bs) t es h = absurd (ground arith)
  read_records-append (suc f) (b ∷ bs) t es h = elim (Option-cases (next_record (b ∷ bs))) [
    | inl n ↦ absurd (ground arith)
    | inr ((d, r), e) ↦ elim (Option-cases (unmarshal d)) [
      | inl n ↦ absurd (ground arith)
      | inr (x, u) ↦ elim (Option-cases (read_records unmarshal f r)) [
        | inl n ↦ absurd (ground arith)
        | inr (fs, q) ↦
            let whole : x ∷ fs ≡ es = ground arith in
            read_file-next ((b ∷ bs) ++ t) d (r ++ t) x (next_record-append (b ∷ bs) t d r e) u
            ∙ ap (prepend (x ∷ [])) (read_records-append f r t fs q)
            ∙ sym (prepend_assoc x fs (read_file unmarshal t))
            ∙ ap (λ l. prepend l (read_file unmarshal t)) whole
      ]
    ]
  ]

  pub read_file-append :
      (a t : List ℕ) (es : List Entry)
      → read_file unmarshal a ≡ some es
      → read_file unmarshal (a ++ t) ≡ prepend es (read_file unmarshal t)
  unfolding read_file
  read_file-append a t es h = read_records-append (length a) a t es h
