-- ===== src/Wal/Tests.antt =====
-- internal/wal/wal.go: a log with one entry, and a second that is appended, torn, or lost.
use lumeo_fs.Base.{
  put_uint64, big_endian, read_full, read_block, ℕ, true, Option, none, some, List, [], ◌∷◌, ◌++◌,
  take, ◌≡◌, refl, arith, pos,
}
use lumeo_fs.Wal.Log.{
  EntryType, Entry, frame, next_record, read_records, read_file, read_files, Wal, new_wal,
  open_last, maybe_rotate, append, read_all, from_seq, truncate, set_max_size,
}
use lumeo_fs.Wal.Appending.{append-read_all, read_all-torn, truncate-append}

abbrev entry : ℕ → Entry
entry now = record {
  type = EntryType.write;
  chunk_id = "c";
  bytes = 1 ∷ 2 ∷ [];
  offset = pos 0;
  version = pos 1;
  checksum = "";
  timestamp = now;
}

-- A codec of entries that differ in their times only.
abbrev marshal_time : Entry → Option (List ℕ)
marshal_time e = some (e.timestamp ∷ [])

abbrev unmarshal_time : List ℕ → Option Entry
unmarshal_time [] = none
unmarshal_time (t ∷ bs) = some (entry t)

code : Unit {0}
unfolding put_uint64 big_endian read_full read_block next_record read_records read_file read_files
    open_last maybe_rotate append read_all from_seq truncate
code = tt

-- A log whose open file has room for one entry.
abbrev one_entry : Wal
one_entry = (append marshal_time 7 (entry 0) (set_max_size (pos 10) (new_wal []))).0

read_one : read_all unmarshal_time one_entry ≡ some (entry 7 ∷ [])
unfolding code
read_one = refl

linked_one : one_entry.linked ≡ true
unfolding code
linked_one = refl

sequence_one : one_entry.sequence ≡ 1
unfolding code
sequence_one = refl

-- The second entry goes to a new file.
append-read_all_example :
    read_all unmarshal_time (append marshal_time 9 (entry 0) one_entry).0
    ≡ some (entry 7 ∷ entry 9 ∷ [])
append-read_all_example =
    append-read_all marshal_time unmarshal_time 9 (entry 0) one_entry refl refl (omega arith)
      linked_one read_one

read_all-torn_example :
    read_all unmarshal_time
      (record one_entry { current = one_entry.current ++ take 3 (frame (9 ∷ [])) })
    ≡ none
unfolding put_uint64
read_all-torn_example =
    read_all-torn unmarshal_time 3 (9 ∷ []) one_entry (omega arith) (omega arith) (omega arith)
      linked_one read_one

abbrev roomy : Wal
roomy = record one_entry { max_size = pos 100 }

truncate-append_example :
    ((append marshal_time 9 (entry 0) (truncate 2 roomy)).1 ≡ true)
    × (read_all unmarshal_time (append marshal_time 9 (entry 0) (truncate 2 roomy)).0
        ≡ read_all unmarshal_time (truncate 2 roomy))
unfolding code
truncate-append_example =
    truncate-append marshal_time unmarshal_time 9 2 (entry 0) roomy refl (omega arith) (omega arith)
