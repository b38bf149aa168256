-- ===== src/Wal/Appending.antt =====
-- internal/wal/wal.go: what was appended is read again, in order, whatever file it went to.
use lumeo_fs.Base.{
  ℕ, ◌+◌, ◌<◌, true, false, ◌&&◌, Option, none, some, List, [], ◌∷◌, ◌++◌, leb, length, take, ◌≡◌,
  refl, sym, ap, ◌∙◌, inl, inr, arith, Bool-cases, Option-cases, length-take, pos, ◌≤ℤ◌, ltb_ℤ,
}
use mathlib.Core.List.{append_assoc, append-nil}
use lumeo_fs.Wal.Log.{
  Entry, header_size, frame, next_record, prepend, read_records, read_file, read_files, Wal, files,
  maybe_rotate, append_bytes, append, read_all, truncate,
}
use lumeo_fs.Wal.Reading.{
  next_record-frame, next_record-torn, read_file-next, read_file-append, prepend-nil,
}

module _ (unmarshal : List ℕ → Option Entry) where
  prepend-append :
      (es fs : List Entry) (o : Option (List Entry))
      → prepend es (prepend fs o) ≡ prepend (es ++ fs) o
  prepend-append es fs none = refl
  prepend-append es fs (some gs) = ap some (sym (append_assoc es fs gs))

  -- The last file that `ReadAll` reads.
  prepend-end :
      (o : Option (List Entry)) → (elim o [ none ↦ none | some es ↦ prepend es (some []) ]) ≡ o
  prepend-end none = refl
  prepend-end (some es) = ap some (append-nil es)

  read_file-nil : read_file unmarshal [] ≡ some []
  unfolding read_file read_records
  read_file-nil = refl

  read_file-none : (a : List ℕ) → 0 < length a → next_record a ≡ none → read_file unmarshal a ≡ none
  unfolding read_file read_records
  read_file-none [] h n = absurd (omega arith)
  read_file-none (b ∷ bs) h n = ground (arith, n)

  -- The last file of a list, and more at the end of it.
  read_files-last :
      (older : List (ℕ × List ℕ)) (seq seq' : ℕ) (file t : List ℕ) (es : List Entry)
      → read_files unmarshal (older ++ (seq, file) ∷ []) ≡ some es
      → read_files unmarshal (older ++ (seq', file ++ t) ∷ []) ≡ prepend es (read_file unmarshal t)
  unfolding read_files
  read_files-last [] seq seq' file t es h = elim (Option-cases (read_file unmarshal file)) [
    | inl n ↦ absurd (ground arith)
    | inr (fs, e) ↦
        let same : fs ≡ es = ground (arith, append-nil fs) in
        rw (read_file-append unmarshal file t fs e, read_files)
          (prepend-end (prepend fs (read_file unmarshal t))
            ∙ ap (λ l. prepend l (read_file unmarshal t)) same)
  ]
  read_files-last ((s, f) ∷ older) seq seq' file t es h =
      elim (Option-cases (read_file unmarshal f)) [
        | inl n ↦ absurd (ground arith)
        | inr (fs, e) ↦ elim (Option-cases (read_files unmarshal (older ++ (seq, file) ∷ []))) [
          | inl n ↦ absurd (ground arith)
          | inr (gs, q) ↦
              let same : fs ++ gs ≡ es = ground arith in
              rw (e, read_files)
                (rw (read_files-last older seq seq' file t gs q) (
                  prepend-append fs gs (read_file unmarshal t)
                  ∙ ap (λ l. prepend l (read_file unmarshal t)) same))
        ]
      ]

  -- A new file after the others.
  read_files-new :
      (older : List (ℕ × List ℕ)) (seq : ℕ) (t : List ℕ) (es : List Entry)
      → read_files unmarshal older ≡ some es
      → read_files unmarshal (older ++ (seq, t) ∷ []) ≡ prepend es (read_file unmarshal t)
  unfolding read_files
  read_files-new [] seq t es h =
      let same : [] ≡ es = ground arith in
      prepend-end (read_file unmarshal t)
      ∙ sym (prepend-nil unmarshal (read_file unmarshal t))
      ∙ ap (λ l. prepend l (read_file unmarshal t)) same
  read_files-new ((s, f) ∷ older) seq t es h = elim (Option-cases (read_file unmarshal f)) [
    | inl n ↦ absurd (ground arith)
    | inr (fs, e) ↦ elim (Option-cases (read_files unmarshal older)) [
      | inl n ↦ absurd (ground arith)
      | inr (gs, q) ↦
          let same : fs ++ gs ≡ es = ground arith in
          rw (e, read_files)
            (rw (read_files-new older seq t gs q) (
              prepend-append fs gs (read_file unmarshal t)
              ∙ ap (λ l. prepend l (read_file unmarshal t)) same))
    ]
  ]

  read_file-frame :
      (bytes : List ℕ) (e : Entry)
      → length bytes < 18446744073709551616
      → unmarshal bytes ≡ some e
      → read_file unmarshal (frame bytes) ≡ some (e ∷ [])
  read_file-frame bytes e lt u =
      let next = next_record-frame bytes [] lt in
      ap (read_file unmarshal) (sym (append-nil (frame bytes)))
      ∙ read_file-next unmarshal (frame bytes ++ []) bytes [] e next u
      ∙ rw (read_file-nil) refl

  read_file-torn :
      (k : ℕ) (bytes : List ℕ)
      → length bytes < 18446744073709551616
      → 0 < k
      → k < length (frame bytes)
      → read_file unmarshal (take k (frame bytes)) ≡ none
  read_file-torn k bytes lt pos_k le =
      read_file-none (take k (frame bytes)) (omega (arith, length-take k (frame bytes)))
        (next_record-torn k bytes lt le)

append-append_bytes :
    (marshal : Entry → Option (List ℕ)) (now : ℕ) (e : Entry) (w : Wal) {bytes : List ℕ}
    → marshal (record e { timestamp = now }) ≡ some bytes
    → append marshal now e w ≡ (append_bytes bytes w, true)
unfolding append
append-append_bytes marshal now e w m = rw (m, append) refl

-- The files after a record that needs a new file, and after one that does not.
files-rotated :
    (bytes : List ℕ) (w : Wal)
    → ltb_ℤ w.max_size (pos (length w.current + (length bytes + header_size))) ≡ true
    → files (append_bytes bytes w) ≡ files w ++ (w.sequence + 1, frame bytes) ∷ []
unfolding maybe_rotate
files-rotated bytes w full = rw (full, maybe_rotate) refl

not-rotated :
    (bytes : List ℕ) (w : Wal)
    → ltb_ℤ w.max_size (pos (length w.current + (length bytes + header_size))) ≡ false
    → append_bytes bytes w ≡ record w { current = w.current ++ frame bytes }
unfolding maybe_rotate
not-rotated bytes w room = rw (room, maybe_rotate) refl

files-linked : (w : Wal) → w.linked ≡ true → files w ≡ w.older ++ (w.sequence, w.current) ∷ []
files-linked w on = rw on refl

files-unlinked : (w : Wal) → w.linked ≡ false → files w ≡ w.older
files-unlinked w off = rw off refl

-- What is read when the open file goes on.
read_all-longer :
    (unmarshal : List ℕ → Option Entry) (w : Wal) (t : List ℕ) {es : List Entry}
    → w.linked ≡ true
    → read_all unmarshal w ≡ some es
    → read_all unmarshal (record w { current = w.current ++ t })
      ≡ prepend es (read_file unmarshal t)
unfolding read_all
read_all-longer unmarshal w t {es} on r =
    ap (read_files unmarshal) (files-linked (record w { current = w.current ++ t }) on)
    ∙ read_files-last unmarshal w.older w.sequence w.sequence w.current t es
        (ap (read_files unmarshal) (sym (files-linked w on)) ∙ r)

-- `Append` of an entry to a log whose open file is in its directory, and which can be read, where
-- `json.Unmarshal` reads back what `json.Marshal` makes of the entry with its time: `ReadAll` then
-- gives the entries as before and that entry at the end, also when the log went on to a new file.
pub append-read_all :
    (marshal : Entry → Option (List ℕ)) (unmarshal : List ℕ → Option Entry) (now : ℕ) (e : Entry)
    (w : Wal) {bytes : List ℕ} {es : List Entry}
    → marshal (record e { timestamp = now }) ≡ some bytes
    → unmarshal bytes ≡ some (record e { timestamp = now })
    → length bytes < 18446744073709551616
    → w.linked ≡ true
    → read_all unmarshal w ≡ some es
    → read_all unmarshal (append marshal now e w).0 ≡ some (es ++ record e { timestamp = now } ∷ [])
unfolding read_all
append-read_all marshal unmarshal now e w {bytes} {es} m u lt on r =
    let done = append-append_bytes marshal now e w m in
    let one = read_file-frame unmarshal bytes (record e { timestamp = now }) lt u in
    elim (Bool-cases (ltb_ℤ w.max_size (pos (length w.current + (length bytes + header_size))))) [
      | inl full ↦
          ap (λ q. read_all unmarshal q.0) done
          ∙ ap (read_files unmarshal) (files-rotated bytes w full)
          ∙ read_files-new unmarshal (files w) (w.sequence + 1) (frame bytes) es r
          ∙ ap (prepend es) one
      | inr room ↦
          ap (λ q. read_all unmarshal q.0) done
          ∙ ap (read_all unmarshal) (not-rotated bytes w room)
          ∙ read_all-longer unmarshal w (frame bytes) on r
          ∙ ap (prepend es) one
    ]

-- A log that ends within an entry, as after a crash in `Append`, cannot be read at all: `ReadAll`
-- gives none of the entries that are whole.
pub read_all-torn :
    (unmarshal : List ℕ → Option Entry) (k : ℕ) (bytes : List ℕ) (w : Wal) {es : List Entry}
    → length bytes < 18446744073709551616
    → 0 < k
    → k < length (frame bytes)
    → w.linked ≡ true
    → read_all unmarshal w ≡ some es
    → read_all unmarshal (record w { current = w.current ++ take k (frame bytes) }) ≡ none
read_all-torn unmarshal k bytes w {es} lt pos_k le on r =
    read_all-longer unmarshal w (take k (frame bytes)) on r
    ∙ ap (prepend es) (read_file-torn unmarshal k bytes lt pos_k le)

-- After `Truncate` with a number above that of the open file, an `Append` that needs no new file
-- reports no error, and the entry is in no file that `ReadAll` reads.
pub truncate-append :
    (marshal : Entry → Option (List ℕ)) (unmarshal : List ℕ → Option Entry) (now seq : ℕ)
    (e : Entry) (w : Wal) {bytes : List ℕ}
    → marshal (record e { timestamp = now }) ≡ some bytes
    → w.sequence < seq
    → pos (length w.current + (length bytes + header_size)) ≤ℤ w.max_size
    → ((append marshal now e (truncate seq w)).1 ≡ true)
      × (read_all unmarshal (append marshal now e (truncate seq w)).0
          ≡ read_all unmarshal (truncate seq w))
unfolding read_all truncate
truncate-append marshal unmarshal now seq e w {bytes} m lt room =
    let small = not-rotated bytes (truncate seq w) (ground arith) in
    let done = append-append_bytes marshal now e (truncate seq w) m ∙ ap (λ x. (x, true)) small in
    let off : (w.linked && leb seq w.sequence) ≡ false = ground arith in
    let t = truncate seq w in
    (
      ap (λ q. q.1) done,
      ap (λ q. read_all unmarshal q.0) done
          ∙ ap (read_files unmarshal) (
              files-unlinked (record t { current = t.current ++ frame bytes }) off
              ∙ sym (files-unlinked t off)),
    )

-- `Append` to a file that the directory has goes to a file that it has.
pub append-linked :
    (marshal : Entry → Option (List ℕ)) (now : ℕ) (e : Entry) (w : Wal)
    → w.linked ≡ true
    → (append marshal now e w).0.linked ≡ true
unfolding append maybe_rotate
append-linked marshal now e w on = elim (Option-cases (marshal (record e { timestamp = now }))) [
  | inl n ↦ rw (n, append) on
  | inr (bytes, m) ↦
      elim (Bool-cases (ltb_ℤ w.max_size (pos (length w.current + (length bytes + header_size))))) [
        | inl full ↦ rw (m, append) (rw (full, maybe_rotate) refl)
        | inr room ↦ rw (m, append) (rw (room, maybe_rotate) on)
      ]
]
