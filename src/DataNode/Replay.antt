-- ===== src/DataNode/Replay.antt =====
-- internal/datanode/datanode.go: replaying the write-ahead log, what it does to the files of the
-- chunks.
use lumeo_fs.Base.{
  ℕ, zero, suc, ◌+◌, ◌-◌, ◌≤◌, max, String, Bool, ◌&&◌, Option, none, some, List, [], ◌∷◌, ◌++◌,
  ltb, leb, str_eq, if◌then◌else◌, length, take, lookup, lookup_or, ◌≡◌, refl, sym, ap, ◌∙◌, inl,
  inr, arith, eq_iff, Bool-cases, Option-cases, lookup-insert, ℤ, pos_part,
}
use lumeo_fs.Wal.Log.{Entry, EntryType}
use lumeo_fs.DataNode.Storage.{Storage, overwrite, write_chunk}
use lumeo_fs.DataNode.Contents.{byte_at, byte_at-ext, byte_at-overwrite, length-overwrite}

-- What an entry of the log is to do to the storage.
abbrev pub replay_entry : Entry → Storage → Storage
replay_entry e st = elim e.type [
  | EntryType.write ↦ write_chunk e.chunk_id e.bytes e.offset st
  | EntryType.delete_chunk ↦ st
  | EntryType.sync ↦ st
]

-- What all entries of the log are to do to it.
unfoldable pub replay : List Entry → Storage → Storage
replay [] st = st
replay (e ∷ es) st = replay es (replay_entry e st)

-- Where a write of some bytes to one file begins, and the bytes.
abbrev pub FileWrite : Type 0
FileWrite = ℕ × List ℕ

-- The write that an entry does to one file.
abbrev written_by : String → Entry → Option FileWrite
written_by c e = elim e.type [
  | EntryType.write ↦ if str_eq e.chunk_id c then some (pos_part e.offset, e.bytes) else none
  | EntryType.delete_chunk ↦ none
  | EntryType.sync ↦ none
]

abbrev add_write : Option FileWrite → List FileWrite → List FileWrite
add_write none ws = ws
add_write (some w) ws = w ∷ ws

-- The writes that entries do to it.
unfoldable writes_to : String → List Entry → List FileWrite
writes_to c [] = []
writes_to c (e ∷ es) = add_write (written_by c e) (writes_to c es)

unfoldable apply : List FileWrite → List ℕ → List ℕ
apply [] f = f
apply ((s, bs) ∷ ws) f = apply ws (overwrite s bs f)

abbrev covers : FileWrite → ℕ → Bool
covers (s, bs) i = leb s i && ltb i (s + length bs)

-- The byte that the last write over a position leaves there.
unfoldable last_byte : List FileWrite → ℕ → Option ℕ
last_byte [] i = none
last_byte (w ∷ ws) i = elim (last_byte ws i) [
  | some b ↦ some b
  | none ↦ if covers w i then some (byte_at (w.1) (i - w.0)) else none
]

abbrev end_of : FileWrite → ℕ
end_of (s, []) = 0
end_of (s, b ∷ bs) = s + length (b ∷ bs)

-- Where the file ends at least after the writes.
unfoldable reach : List FileWrite → ℕ
reach [] = 0
reach (w ∷ ws) = max (end_of w) (reach ws)

abbrev or_else : ℕ → Option ℕ → ℕ
or_else d none = d
or_else d (some b) = b

length-overwrite_end :
    (w : FileWrite) (f : List ℕ) → length (overwrite (w.0) (w.1) f) ≡ max (length f) (end_of w)
unfolding overwrite
length-overwrite_end (s, []) f = omega arith
length-overwrite_end (s, b ∷ bs) f = length-overwrite s (b ∷ bs) f (omega arith)

length-apply : (ws : List FileWrite) (f : List ℕ) → length (apply ws f) ≡ max (length f) (reach ws)
unfolding apply reach
length-apply [] f = omega arith
length-apply (w ∷ ws) f =
    omega (arith, length-apply ws (overwrite (w.0) (w.1) f), length-overwrite_end w f)

byte_at-apply :
    (ws : List FileWrite) (f : List ℕ) (i : ℕ)
    → byte_at (apply ws f) i ≡ or_else (byte_at f i) (last_byte ws i)
unfolding apply last_byte
byte_at-apply [] f i = refl
byte_at-apply ((s, bs) ∷ ws) f i = elim (Option-cases (last_byte ws i)) [
  | inl n ↦ ground (arith, n, byte_at-apply ws (overwrite s bs f) i, byte_at-overwrite s bs f i)
  | inr (b, e) ↦ ground (arith, e, byte_at-apply ws (overwrite s bs f) i)
]

last_byte-take :
    (k : ℕ) (ws : List FileWrite) (i : ℕ) → last_byte ws i ≡ none → last_byte (take k ws) i ≡ none
unfolding last_byte
last_byte-take zero ws i h = refl
last_byte-take (suc k) [] i h = refl
last_byte-take (suc k) (w ∷ ws) i h = elim (Option-cases (last_byte ws i)) [
  | inl n ↦ ground (arith, n, last_byte-take k ws i n)
  | inr (b, e) ↦ absurd (ground arith)
]

reach-take : (k : ℕ) (ws : List FileWrite) → reach (take k ws) ≤ reach ws
unfolding reach
reach-take zero ws = omega arith
reach-take (suc k) [] = omega arith
reach-take (suc k) (w ∷ ws) = omega (arith, reach-take k ws)

-- Doing the first of some writes before all of them changes nothing.
apply-again :
    (k : ℕ) (ws : List FileWrite) (f : List ℕ) → apply ws (apply (take k ws) f) ≡ apply ws f
apply-again k ws f =
    byte_at-ext (apply ws (apply (take k ws) f)) (apply ws f)
      (omega (
        arith,
        length-apply ws (apply (take k ws) f),
        length-apply (take k ws) f,
        length-apply ws f,
        reach-take k ws,
      ))
      (λ i. elim (Option-cases (last_byte ws i)) [
        | inl n ↦ ground (
          arith,
          n,
          last_byte-take k ws i n,
          byte_at-apply ws (apply (take k ws) f) i,
          byte_at-apply (take k ws) f i,
          byte_at-apply ws f i,
        )
        | inr (b, e) ↦
            ground (arith, e, byte_at-apply ws (apply (take k ws) f) i, byte_at-apply ws f i)
      ])

abbrev pub old_file : Option (List ℕ) → List ℕ
old_file none = []
old_file (some f) = f

-- The same, where a file that is not there is made by the first write.
unfoldable put : List FileWrite → Option (List ℕ) → Option (List ℕ)
put [] o = o
put (w ∷ ws) o = some (apply (w ∷ ws) (old_file o))

put-again :
    (k : ℕ) (ws : List FileWrite) (o : Option (List ℕ)) → put ws (put (take k ws) o) ≡ put ws o
unfolding put
put-again zero ws o = refl
put-again (suc k) [] o = refl
put-again (suc k) (w ∷ ws) o = ap some (apply-again (suc k) (w ∷ ws) (old_file o))

-- What an entry does to the file.
abbrev pub put_write : Option FileWrite → Option (List ℕ) → Option (List ℕ)
put_write none o = o
put_write (some w) o = some (overwrite w.0 w.1 (old_file o))

put-add_write :
    (m : Option FileWrite) (ws : List FileWrite) (o : Option (List ℕ))
    → put (add_write m ws) o ≡ put ws (put_write m o)
unfolding put apply
put-add_write none ws o = refl
put-add_write (some w) [] o = refl
put-add_write (some w) (v ∷ ws) o = refl

pub lookup-write_chunk :
    (c id : String) (bytes : List ℕ) (offset : ℤ) (st : Storage)
    → lookup c (write_chunk id bytes offset st)
      ≡ put_write (if str_eq id c then some (pos_part offset, bytes) else none) (lookup c st)
unfolding write_chunk
lookup-write_chunk c id bytes offset st =
    let w = lookup-insert id c (overwrite (pos_part offset) bytes (lookup_or [] id st)) st in
    elim (Bool-cases (str_eq id c)) [
      | inl y ↦ rw y (
          w
          ∙ rw y (
              ap (λ k. some (overwrite (pos_part offset) bytes (old_file (lookup k st))))
                (let same : id ≡ c = ground (arith, y, eq_iff id c) in same)))
      | inr n ↦ rw n (w ∙ rw n refl)
    ]

lookup-replay_entry :
    (c : String) (e : Entry) (st : Storage)
    → lookup c (replay_entry e st) ≡ put_write (written_by c e) (lookup c st)
lookup-replay_entry c e st =
    let w = lookup-write_chunk c e.chunk_id e.bytes e.offset st in
    (elim e.type
      as (λ t.
        lookup c (elim t [
          | EntryType.write ↦ write_chunk e.chunk_id e.bytes e.offset st
          | EntryType.delete_chunk ↦ st
          | EntryType.sync ↦ st
        ])
        ≡ put_write
            (elim t [
              | EntryType.write ↦
                  if str_eq e.chunk_id c then some (pos_part e.offset, e.bytes) else none
              | EntryType.delete_chunk ↦ none
              | EntryType.sync ↦ none
            ])
            (lookup c st)) [
              | EntryType.write ↦ w
              | EntryType.delete_chunk ↦ refl
              | EntryType.sync ↦ refl
            ])

lookup-replay :
    (c : String) (es : List Entry) (st : Storage)
    → lookup c (replay es st) ≡ put (writes_to c es) (lookup c st)
unfolding replay writes_to put
lookup-replay c [] st = refl
lookup-replay c (e ∷ es) st =
    lookup-replay c es (replay_entry e st)
    ∙ ap (put (writes_to c es)) (lookup-replay_entry c e st)
    ∙ sym (put-add_write (written_by c e) (writes_to c es) (lookup c st))

writes_to-take :
    (c : String) (k : ℕ) (es : List Entry)
    → (m : ℕ) × (writes_to c (take k es) ≡ take m (writes_to c es))
unfolding writes_to
writes_to-take c zero es = (0, refl)
writes_to-take c (suc k) [] = (0, refl)
writes_to-take c (suc k) (e ∷ es) =
    let (m, h) = writes_to-take c k es in
    elim (Option-cases (written_by c e)) [
      | inl n ↦ (m, ground (arith, n, h))
      | inr (w, x) ↦ (suc m, ground (arith, x, h))
    ]

-- A crash after which the storage has the first k of the writes in the log: replaying the whole log
-- leaves every chunk as the writes in the log do without a crash.
pub replay-crash :
    (es : List Entry) (k : ℕ) (st : Storage) (c : String)
    → lookup c (replay es (replay (take k es) st)) ≡ lookup c (replay es st)
replay-crash es k st c =
    let (m, e) = writes_to-take c k es in
    lookup-replay c es (replay (take k es) st)
    ∙ ap (put (writes_to c es)) (lookup-replay c (take k es) st ∙ ap (λ ws. put ws (lookup c st)) e)
    ∙ put-again m (writes_to c es) (lookup c st)
    ∙ sym (lookup-replay c es st)

pub replay-append :
    (es fs : List Entry) (st : Storage) → replay (es ++ fs) st ≡ replay fs (replay es st)
unfolding replay
replay-append [] fs st = refl
replay-append (e ∷ es) fs st = replay-append es fs (replay_entry e st)
