-- ===== src/DataNode/Recovery.antt =====
-- internal/datanode/datanode.go: recovery from the write-ahead log.
use lumeo_fs.Base.{
  ℕ, suc, String, Bool, true, false, Option, none, some, List, [], ◌∷◌, length, take, lookup,
  insert, ◌≡◌, refl, ap, ◌∙◌, pos,
}
use lumeo_fs.Wal.Log.{Entry, EntryType, read_all}
use lumeo_fs.DataNode.Storage.{Storage, write_chunk}
use lumeo_fs.DataNode.Replay.{replay_entry, replay, replay-crash}
use lumeo_fs.DataNode.Handlers.{LocalChunk, DataNode, new_local_chunk}

-- The chunk that `recoverFromWAL` records for an entry.
abbrev pub recovered_chunk : ℕ → String → Entry → LocalChunk
recovered_chunk now node e =
    let c = new_local_chunk now node e.chunk_id false in
    record c {
      version = record c.version { logical_version = e.version };
      size = pos (length e.bytes);
      checksum = e.checksum;
    }

-- A write of the log that is done again. Where the write to the file fails, `fault` is what it leaves
-- of the files, and the chunk is not recorded.
unfoldable pub recover_write : ℕ → Option Storage → Entry → DataNode → DataNode
recover_write now fault e dn = elim fault [
  | some st ↦ record dn { storage = st }
  | none ↦ record dn {
    storage = write_chunk e.chunk_id e.bytes e.offset dn.storage;
    chunks = insert e.chunk_id (recovered_chunk now dn.node_id e) dn.chunks;
  }
]

-- One round of the loop of `recoverFromWAL`.
unfoldable pub recover_entry : ℕ → Option Storage → Entry → DataNode → DataNode
recover_entry now fault e dn = elim e.type [
  | EntryType.write ↦ recover_write now fault e dn
  | EntryType.delete_chunk ↦ dn
  | EntryType.sync ↦ dn
]

-- The loop; `faults` says of each round whether its write fails.
unfoldable pub recover_entries : ℕ → (ℕ → Option Storage) → List Entry → DataNode → DataNode
recover_entries now faults [] dn = dn
recover_entries now faults (e ∷ es) dn =
    recover_entries now (λ n. faults (suc n)) es (recover_entry now (faults 0) e dn)

-- `recoverFromWAL`: the node, and whether there was no error.
unfoldable pub recover_from_wal :
    (List ℕ → Option Entry) → ℕ → (ℕ → Option Storage) → DataNode → DataNode × Bool
recover_from_wal unmarshal now faults dn = elim (read_all unmarshal dn.wal) [
  | none ↦ (dn, false)
  | some es ↦ (recover_entries now faults es dn, true)
]

-- No write to a file fails.
abbrev pub no_faults : ℕ → Option Storage
no_faults n = none

storage-recover_entry :
    (now : ℕ) (e : Entry) (dn : DataNode)
    → (recover_entry now none e dn).storage ≡ replay_entry e dn.storage
unfolding recover_entry recover_write
storage-recover_entry now e dn =
    (elim e.type
      as (λ t.
        (elim t as (λ u. DataNode) [
          | EntryType.write ↦ recover_write now none e dn
          | EntryType.delete_chunk ↦ dn
          | EntryType.sync ↦ dn
        ]).storage
        ≡ elim t [
          | EntryType.write ↦ write_chunk e.chunk_id e.bytes e.offset dn.storage
          | EntryType.delete_chunk ↦ dn.storage
          | EntryType.sync ↦ dn.storage
        ]) [ EntryType.write ↦ refl | EntryType.delete_chunk ↦ refl | EntryType.sync ↦ refl ])

pub storage-recover_entries :
    (now : ℕ) (es : List Entry) (dn : DataNode)
    → (recover_entries now no_faults es dn).storage ≡ replay es dn.storage
unfolding recover_entries replay
storage-recover_entries now [] dn = refl
storage-recover_entries now (e ∷ es) dn =
    storage-recover_entries now es (recover_entry now none e dn)
    ∙ ap (replay es) (storage-recover_entry now e dn)

-- What recovery leaves of a node: its log, its roles and replicas, and its id.
pub record SameSettings (a b : DataNode) : Type 0 where
  pub wal : b.wal ≡ a.wal
  pub manager : b.manager ≡ a.manager
  pub node_id : b.node_id ≡ a.node_id

recover_write-SameSettings :
    (now : ℕ) (fault : Option Storage) (e : Entry) (dn : DataNode)
    → SameSettings dn (recover_write now fault e dn)
unfolding recover_write
recover_write-SameSettings now none e dn = record { wal = refl; manager = refl; node_id = refl }
recover_write-SameSettings now (some st) e dn = record {
  wal = refl;
  manager = refl;
  node_id = refl;
}

pub recover_entry-SameSettings :
    (now : ℕ) (fault : Option Storage) (e : Entry) (dn : DataNode)
    → SameSettings dn (recover_entry now fault e dn)
unfolding recover_entry
recover_entry-SameSettings now fault e dn =
    let same : SameSettings dn dn = record { wal = refl; manager = refl; node_id = refl } in
    (elim e.type
      as (λ t. SameSettings dn (elim t as (λ u. DataNode) [
        | EntryType.write ↦ recover_write now fault e dn
        | EntryType.delete_chunk ↦ dn
        | EntryType.sync ↦ dn
      ])) [
        | EntryType.write ↦ recover_write-SameSettings now fault e dn
        | EntryType.delete_chunk ↦ same
        | EntryType.sync ↦ same
      ])

pub recover_entries-SameSettings :
    (now : ℕ) (faults : ℕ → Option Storage) (es : List Entry) (dn : DataNode)
    → SameSettings dn (recover_entries now faults es dn)
unfolding recover_entries
recover_entries-SameSettings now faults [] dn = record {
  wal = refl;
  manager = refl;
  node_id = refl;
}
recover_entries-SameSettings now faults (e ∷ es) dn =
    let one = recover_entry-SameSettings now (faults 0) e dn in
    let rest =
      recover_entries-SameSettings now (λ n. faults (suc n)) es
        (recover_entry now (faults 0) e dn) in
    record {
      wal = rest.wal ∙ one.wal;
      manager = rest.manager ∙ one.manager;
      node_id = rest.node_id ∙ one.node_id;
    }

-- A node whose log is read as `es`, and whose storage has the first `k` of these writes, done on the
-- storage `st`: recovery, no write of which fails, reports no error,
-- and leaves every chunk's file as all the writes leave it.
pub recover_from_wal-crash :
    (unmarshal : List ℕ → Option Entry) (now k : ℕ) (es : List Entry) (st : Storage) (dn : DataNode)
    (c : String)
    → read_all unmarshal dn.wal ≡ some es
    → dn.storage ≡ replay (take k es) st
    → ((recover_from_wal unmarshal now no_faults dn).1 ≡ true)
      × (lookup c ((recover_from_wal unmarshal now no_faults dn).0.storage)
          ≡ lookup c (replay es st))
unfolding recover_from_wal
recover_from_wal-crash unmarshal now k es st dn c r s =
    rw (r, recover_from_wal)
      (
        refl,
        ap (lookup c) (storage-recover_entries now es dn)
            ∙ ap (λ x. lookup c (replay es x)) s
            ∙ replay-crash es k st c,
      )
