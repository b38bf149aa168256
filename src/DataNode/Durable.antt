-- ===== src/DataNode/Durable.antt =====
-- internal/datanode/datanode.go: the writes of a primary, its log, and a crash.
use lumeo_fs.Base.{
  ℕ, ◌<◌, String, true, Option, none, some, List, [], ◌∷◌, ◌++◌, str_eq, if◌then◌else◌, length,
  take, All, lookup, ◌≡◌, refl, sym, ap, ◌∙◌, ◌⊎◌, inl, inr, Bool-cases, Option-cases, pos,
  pos_part,
}
use lumeo_fs.Common.{ReplicaRole, is_primary}
use lumeo_fs.Wal.Log.{Entry, read_all}
use lumeo_fs.Wal.Appending.{append-read_all, append-linked}
use lumeo_fs.Protocol.Messages.{WriteChunkRequest, WriteChunkResponse}
use lumeo_fs.Replication.Manager.{get_local_role, set_local_role}
use lumeo_fs.DataNode.Storage.{Storage}
use lumeo_fs.DataNode.Replay.{replay, replay-append, put_write, lookup-write_chunk}
use lumeo_fs.DataNode.Handlers.{
  DataNode, new_data_node, write_entry, write_as_primary, handle_write_chunk,
}
use lumeo_fs.DataNode.Recovery.{
  recover_entries, recover_entries-SameSettings, no_faults, recover_from_wal,
  storage-recover_entries, recover_from_wal-crash,
}

-- The entry in the log for a request that comes at the time `now`.
abbrev pub logged_entry : ℕ → WriteChunkRequest → Entry
logged_entry now req = record (write_entry req.chunk_id req.bytes req.offset (pos 0) req.checksum) {
  timestamp = now;
}

module _ (marshal : Entry → Option (List ℕ)) (unmarshal : List ℕ → Option Entry)
    (sum : List ℕ → String) (call_write : String → WriteChunkRequest → String ⊎ WriteChunkResponse)
    (id : String) where
  -- `json.Marshal` makes a text of the entry of a write, and `json.Unmarshal` reads it back.
  pub record Logs (w : ℕ × WriteChunkRequest) (bytes : List ℕ) : Type 0 where
    pub made : marshal (logged_entry w.0 w.1) ≡ some bytes
    pub read : unmarshal bytes ≡ some (logged_entry w.0 w.1)
    pub short : length bytes < 18446744073709551616

  abbrev pub AllLogs : List (ℕ × WriteChunkRequest) → Type 0
  AllLogs = All (λ w. (bytes : List ℕ) × Logs w bytes)

  -- The log of a node is read as some entries, and the node's files are as these leave the storage
  -- `st`.
  pub record Logged (st : Storage) (dn : DataNode) : Type 0 where
    pub entries : List Entry
    pub read : read_all unmarshal dn.wal ≡ some entries
    pub linked : dn.wal.linked ≡ true
    pub files : (c : String) → lookup c dn.storage ≡ lookup c (replay entries st)

  -- So it is with a node that has started with a log that can be read, and has recovered without a
  -- failing write.
  pub recover_entries-Logged :
      (start : ℕ) (dn : DataNode) (es : List Entry)
      → read_all unmarshal dn.wal ≡ some es
      → dn.wal.linked ≡ true
      → Logged dn.storage (recover_entries start no_faults es dn)
  recover_entries-Logged start dn es r k =
      let same = recover_entries-SameSettings start no_faults es dn in
      record {
        entries = es;
        read = ap (read_all unmarshal) same.wal ∙ r;
        linked = ap (λ w. w.linked) same.wal ∙ k;
        files = λ c. ap (lookup c) (storage-recover_entries start es dn);
      }

  -- Requests to write, each with its time, one after the other.
  unfoldable pub handle_writes : List (ℕ × WriteChunkRequest) → DataNode → DataNode
  handle_writes [] dn = dn
  handle_writes ((now, req) ∷ ws) dn =
      handle_writes ws (handle_write_chunk marshal sum call_write id now none req dn).0

  write_as_primary-Logged :
      (st : Storage) (now : ℕ) (req : WriteChunkRequest) (dn : DataNode) (bytes : List ℕ)
      → Logs (now, req) bytes
      → Logged st dn
      → Logged st (write_as_primary marshal now none req dn).0
  unfolding write_as_primary replay
  write_as_primary-Logged st now req dn bytes c l =
      let e = write_entry req.chunk_id req.bytes req.offset (pos 0) req.checksum in
      record {
        entries = l.entries ++ logged_entry now req ∷ [];
        read = append-read_all marshal unmarshal now e dn.wal c.made c.read c.short l.linked l.read;
        linked = append-linked marshal now e dn.wal l.linked;
        files = λ x.
            lookup-write_chunk x req.chunk_id req.bytes req.offset dn.storage
            ∙ ap
                (put_write
                  (if str_eq req.chunk_id x then some (pos_part req.offset, req.bytes) else none))
                (l.files x)
            ∙ sym (lookup-write_chunk x req.chunk_id req.bytes req.offset (replay l.entries st))
            ∙ sym (ap (lookup x) (replay-append l.entries (logged_entry now req ∷ []) st));
      }

  handle_write_chunk-Logged :
      (st : Storage) (now : ℕ) (req : WriteChunkRequest) (dn : DataNode) (bytes : List ℕ)
      → Logs (now, req) bytes
      → Logged st dn
      → Logged st (handle_write_chunk marshal sum call_write id now none req dn).0
  unfolding handle_write_chunk
  handle_write_chunk-Logged st now req dn bytes c l =
      elim (Option-cases (lookup req.chunk_id dn.chunks)) [
        | inl n ↦
            rw (n, handle_write_chunk)
              (write_as_primary-Logged st now req
                (record dn { manager = set_local_role req.chunk_id ReplicaRole.primary dn.manager })
                bytes c
                (record { entries = l.entries; read = l.read; linked = l.linked; files = l.files }))
        | inr (chunk, e) ↦ elim (Bool-cases (is_primary (get_local_role req.chunk_id dn.manager))) [
          | inl y ↦
              rw (e, handle_write_chunk)
                (rw (y, if◌then◌else◌) (write_as_primary-Logged st now req dn bytes c l))
          | inr n ↦ rw (e, handle_write_chunk) (rw (n, if◌then◌else◌) l)
        ]
      ]

  handle_writes-Logged :
      (st : Storage) (ws : List (ℕ × WriteChunkRequest)) (dn : DataNode)
      → AllLogs ws
      → Logged st dn
      → Logged st (handle_writes ws dn)
  unfolding handle_writes
  handle_writes-Logged st [] dn cs l = l
  handle_writes-Logged st ((now, req) ∷ ws) dn ((bytes, c), cs) l =
      handle_writes-Logged st ws (handle_write_chunk marshal sum call_write id now none req dn).0 cs
        (handle_write_chunk-Logged st now req dn bytes c l)

  -- A node has a log that can be read and whose open file is in its directory, and every chunk's file
  -- is as the writes of the log, done one after the other, leave it, from some files that were there
  -- before. It handles requests to write, which are coded in the log, and no write to a file fails.
  -- Its log can then be read. When it stops, with any number of the first writes of the log in the
  -- files that were there before, a node that starts with that log and these files, and no write of
  -- whose recovery fails, recovers every chunk's file as it was.
  pub recover_from_wal-handle_writes :
      (st : Storage) (ws : List (ℕ × WriteChunkRequest)) (dn : DataNode) (k later : ℕ)
      (node address c : String)
      → AllLogs ws
      → Logged st dn
      → (es : List Entry) × (read_all unmarshal (handle_writes ws dn).wal ≡ some es)
        × (lookup c
              (recover_from_wal unmarshal later no_faults (
                new_data_node node address
                  (handle_writes ws dn).wal
                  (replay (take k es) st))).0.storage
            ≡ lookup c (handle_writes ws dn).storage)
  recover_from_wal-handle_writes st ws dn k later node address c cs l =
      let l' = handle_writes-Logged st ws dn cs l in
      let started =
        new_data_node node address (handle_writes ws dn).wal (replay (take k l'.entries) st) in
      (
        l'.entries,
        l'.read,
        (recover_from_wal-crash unmarshal later k l'.entries st started c l'.read refl).1
            ∙ sym (l'.files c),
      )
