-- ===== src/Wal/Log.antt =====
-- internal/wal/wal.go: the records of a log file, and the log on its directory. The bytes that
-- `json.Marshal` makes of an entry, and what `json.Unmarshal` makes of bytes, are parameters. A file
-- operation does not fail.
use lumeo_fs.Base.{
  ℕ, zero, suc, ◌+◌, String, Bool, true, false, ◌&&◌, Option, none, some, List, [], ◌∷◌, ◌++◌, ltb,
  leb, if◌then◌else◌, length, read_block, put_uint64, ℤ, pos, ltb_ℤ,
}

-- `EntryType`
pub data EntryType : Type 0 where
  write delete_chunk sync : EntryType

-- `Entry`
pub record Entry : Type 0 where
  pub type : EntryType
  pub chunk_id : String
  pub bytes : List ℕ
  pub offset : ℤ
  pub version : ℤ
  pub checksum : String
  pub timestamp : ℕ

-- `headerSize`
abbrev pub header_size : ℕ
header_size = 8

-- What `Append` writes for an entry.
abbrev pub frame : List ℕ → List ℕ
frame bytes = put_uint64 (length bytes) ++ bytes

-- One round of the loop of `readFile` on a file that is not at its end: the bytes of an entry and
-- the rest of the file.
unfoldable pub next_record : List ℕ → Option (List ℕ × List ℕ)
next_record file = read_block header_size file

-- `append(entries, ...)` before the entries that are read later.
abbrev pub prepend : List Entry → Option (List Entry) → Option (List Entry)
prepend es none = none
prepend es (some fs) = some (es ++ fs)

module _ (unmarshal : List ℕ → Option Entry) where
  -- The loop of `readFile`, for at most the number of rounds given.
  unfoldable pub read_records : ℕ → List ℕ → Option (List Entry)
  read_records fuel [] = some []
  read_records zero (b ∷ bs) = none
  read_records (suc fuel) (b ∷ bs) = elim (next_record (b ∷ bs)) [
    | none ↦ none
    | some (bytes, rest) ↦ elim (unmarshal bytes) [
      | none ↦ none
      | some e ↦ prepend (e ∷ []) (read_records fuel rest)
    ]
  ]

  -- `readFile`
  unfoldable pub read_file : List ℕ → Option (List Entry)
  read_file file = read_records (length file) file

  -- The loop of `ReadAll` over the files.
  unfoldable pub read_files : List (ℕ × List ℕ) → Option (List Entry)
  read_files [] = some []
  read_files ((seq, file) ∷ files) = elim (read_file file) [
    | none ↦ none
    | some es ↦ prepend es (read_files files)
  ]

-- `WAL`, with the files of its directory in the order of their names, which is that of their numbers
-- below 100000000. `current` is the file that is open, and `linked` says whether the directory still
-- has it; `older` are the others. The mode of syncing decides no value.
pub record Wal : Type 0 where
  pub older : List (ℕ × List ℕ)
  pub current : List ℕ
  pub linked : Bool
  pub sequence : ℕ
  pub max_size : ℤ

-- `filepath.Glob`
abbrev pub files : Wal → List (ℕ × List ℕ)
files w = if w.linked then w.older ++ (w.sequence, w.current) ∷ [] else w.older

-- `openCurrentFile`: the last file, from the files before it.
unfoldable pub open_last : List (ℕ × List ℕ) → List (ℕ × List ℕ) → Wal
open_last before [] = record {
  older = before;
  current = [];
  linked = true;
  sequence = 1;
  max_size = pos 67108864;
}
open_last before ((seq, file) ∷ []) = record {
  older = before;
  current = file;
  linked = true;
  sequence = seq;
  max_size = pos 67108864;
}
open_last before (f ∷ g ∷ fs) = open_last (before ++ f ∷ []) (g ∷ fs)

-- `NewWAL` on a directory that holds the files given.
abbrev pub new_wal : List (ℕ × List ℕ) → Wal
new_wal fs = open_last [] fs

-- `maybeRotate`
unfoldable pub maybe_rotate : ℕ → Wal → Wal
maybe_rotate additional w =
    if ltb_ℤ w.max_size (pos (length w.current + additional))
    then record w { older = files w; current = []; linked = true; sequence = w.sequence + 1 }
    else w

-- `Append`, of an entry that becomes the bytes given.
abbrev pub append_bytes : List ℕ → Wal → Wal
append_bytes bytes w =
    let w' = maybe_rotate (length bytes + header_size) w in
    record w' { current = w'.current ++ frame bytes }

-- `Append` at the time `now`: the log, and whether there was no error.
unfoldable pub append : (Entry → Option (List ℕ)) → ℕ → Entry → Wal → Wal × Bool
append marshal now e w = elim (marshal (record e { timestamp = now })) [
  | none ↦ (w, false)
  | some bytes ↦ (append_bytes bytes w, true)
]

-- `ReadAll`
unfoldable pub read_all : (List ℕ → Option Entry) → Wal → Option (List Entry)
read_all unmarshal w = read_files unmarshal (files w)

-- The files that `Truncate` leaves.
unfoldable pub from_seq : ℕ → List (ℕ × List ℕ) → List (ℕ × List ℕ)
from_seq seq [] = []
from_seq seq ((s, file) ∷ fs) = if ltb s seq then from_seq seq fs else (s, file) ∷ from_seq seq fs

-- `Truncate`; the file that is open stays open when it is removed.
unfoldable pub truncate : ℕ → Wal → Wal
truncate seq w = record w { older = from_seq seq w.older; linked = w.linked && leb seq w.sequence }

-- `SetMaxSize`
abbrev pub set_max_size : ℤ → Wal → Wal
set_max_size size w = record w { max_size = size }
