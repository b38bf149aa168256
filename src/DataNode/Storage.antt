-- ===== src/DataNode/Storage.antt =====
-- internal/datanode/datanode.go: `LocalStorage`. A chunk's file is found by the chunk's id. A file that
-- is there can be opened, and `Read` reads all that there is; a write that fails is a case of the
-- handlers.
use lumeo_fs.Base.{
  ℕ, ◌+◌, ◌-◌, String, none, some, List, [], ◌∷◌, ◌++◌, Dict, length, take, drop, replicate, lookup,
  lookup_or, insert, ℤ, pos, negsuc, pos_part,
}

-- The files below the base directory.
abbrev pub Storage : Type 0
Storage = Dict (List ℕ)

-- A file into which `bytes` are written from `start` on. What lies between the end of the file and
-- `start` reads as zeros; a write of no bytes changes nothing.
unfoldable pub overwrite : ℕ → List ℕ → List ℕ → List ℕ
overwrite start [] file = file
overwrite start (b ∷ bs) file =
    take start (file ++ replicate (start - length file) 0)
    ++ ((b ∷ bs) ++ drop (start + length (b ∷ bs)) file)

-- `WriteChunk`; an offset that is not positive is the beginning of the file.
unfoldable pub write_chunk : String → List ℕ → ℤ → Storage → Storage
write_chunk id bytes offset st =
    insert id (overwrite (pos_part offset) bytes (lookup_or [] id st)) st

-- What `ReadChunk` returns; `crashed` is a panic, of `make` with a negative length.
pub data FileRead : Type 0 where
  content : List ℕ → FileRead
  missing : FileRead
  crashed : FileRead

-- `ReadChunk`
unfoldable pub read_chunk : String → ℤ → ℤ → Storage → FileRead
read_chunk id offset len st = elim (lookup id st) [
  | none ↦ missing
  | some file ↦ elim len [
    | pos n ↦ content (take n (drop (pos_part offset) file))
    | negsuc n ↦ crashed
  ]
]
