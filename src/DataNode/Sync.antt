-- ===== src/DataNode/Sync.antt =====
-- internal/datanode/datanode.go: what is read after a write, and what the replicas have after a write
-- and its synchronisation.
use lumeo_fs.Base.{
  ℕ, ◌+◌, ◌<◌, String, Bool, true, false, Option, none, some, List, [], ◌∷◌, ◌++◌, Dict,
  if◌then◌else◌, length, take, drop, lookup, lookup_or, insert, ◌≡◌, refl, sym, ap, ◌∙◌, ◌⊎◌, inl,
  inr, arith, Option-cases, str_eq_refl, lookup-insert, ℤ, pos, pos_part, eqb_ℤ, take-exact,
  drop-exact,
}
use lumeo_fs.Common.{ReplicaRole, is_primary}
use lumeo_fs.Wal.Log.{Entry}
use lumeo_fs.Protocol.Messages.{
  WriteChunkRequest, WriteChunkResponse, ReadChunkRequest, ReadChunkResponse, SyncChunkRequest,
  GetVersionRequest, GetVersionResponse,
}
use lumeo_fs.Version.Data.{check_read_consistency, bump}
use lumeo_fs.Replication.Manager.{get_local_role, set_local_role, is_local_primary}
use lumeo_fs.Replication.Proxy as Proxy
use lumeo_fs.DataNode.Storage.{Storage, overwrite, write_chunk, content, read_chunk}
use lumeo_fs.DataNode.Contents.{before, length-before}
use lumeo_fs.DataNode.Replay.{lookup-write_chunk}
use lumeo_fs.DataNode.Handlers.{
  LocalChunk, DataNode, chunk_or_new, succeeded, write_as_primary, handle_write_chunk, local_read,
  handle_read_chunk, handle_sync_chunk,
}
use lumeo_fs.DataNode.Interface.{handle_get_version, sync_request}

drop-known : (n : ℕ) (a t : List ℕ) → length a ≡ n → drop n (a ++ t) ≡ t
drop-known n a t h = rw (sym h) (drop-exact a t)

overwrite-inside :
    (start : ℕ) (bytes file : List ℕ)
    → 0 < length bytes
    → take (length bytes) (drop start (overwrite start bytes file)) ≡ bytes
unfolding overwrite
overwrite-inside start [] file h = absurd (omega arith)
overwrite-inside start (b ∷ bs) file h =
    let rest = drop (start + length (b ∷ bs)) file in
    rw (drop-known start (before start file) ((b ∷ bs) ++ rest) (length-before start file))
      (take-exact (b ∷ bs) rest)

lookup-insert_same :
    {V : Type 0} (k : String) (v : V) (m : Dict V) → lookup k (insert k v m) ≡ some v
lookup-insert_same k v m = lookup-insert k k v m ∙ rw (str_eq_refl k) refl

read_chunk-write_chunk :
    (chunk : String) (bytes : List ℕ) (offset : ℤ) (st : Storage)
    → 0 < length bytes
    → read_chunk chunk offset (pos (length bytes)) (write_chunk chunk bytes offset st)
      ≡ content bytes
unfolding read_chunk write_chunk
read_chunk-write_chunk chunk bytes offset st h =
    rw
      (
        lookup-insert_same chunk (overwrite (pos_part offset) bytes (lookup_or [] chunk st)) st,
        read_chunk,
      )
      (ap content (overwrite-inside (pos_part offset) bytes (lookup_or [] chunk st) h))

-- The node is the primary of a chunk, or has not had the chunk.
abbrev pub CanWrite : String → DataNode → Type 0
CanWrite chunk dn =
    (lookup chunk dn.chunks ≡ none) ⊎ (is_primary (get_local_role chunk dn.manager) ≡ true)

-- A primary reads from its own files.
handle_read_chunk-primary :
    (sum : List ℕ → String) (call_read : String → ReadChunkRequest → String ⊎ ReadChunkResponse)
    (open_error id : String) (now : ℕ) (rq : ReadChunkRequest) (dn : DataNode) (c : LocalChunk)
    (bytes : List ℕ)
    → eqb_ℤ rq.length (pos 0) ≡ false
    → is_local_primary rq.chunk_id dn.manager ≡ true
    → lookup rq.chunk_id dn.chunks ≡ some c
    → read_chunk rq.chunk_id rq.offset rq.length dn.storage ≡ content bytes
    → handle_read_chunk sum call_read open_error id now rq dn
      ≡ some (record {
        base = succeeded rq.request_id;
        bytes = bytes;
        checksum = sum bytes;
        version = c.version.logical_version;
      })
unfolding handle_read_chunk Proxy.read local_read check_read_consistency
handle_read_chunk-primary sum call_read open_error id now rq dn c bytes z p has got =
    rw (z, handle_read_chunk, if◌then◌else◌)
      (rw (p, Proxy.read, check_read_consistency, if◌then◌else◌)
        (rw (got, local_read) (rw has refl)))

-- What `handleGetVersion` answers for a chunk that the node has.
abbrev version_of : GetVersionRequest → LocalChunk → Bool → GetVersionResponse
version_of req c primary = record {
  base = succeeded req.request_id;
  version = c.version.logical_version;
  vector_clock = c.version.vector_clock;
  timestamp = c.version.timestamp;
  checksum = c.checksum;
  is_primary = primary;
}

handle_get_version-known :
    (req : GetVersionRequest) (dn : DataNode) (c : LocalChunk)
    → lookup req.chunk_id dn.chunks ≡ some c
    → handle_get_version req dn ≡ version_of req c (is_local_primary req.chunk_id dn.manager)
unfolding handle_get_version
handle_get_version-known req dn c h = rw (h, handle_get_version) refl

-- The chunk of a node after a synchronisation.
abbrev synced : ℕ → SyncChunkRequest → DataNode → LocalChunk
synced now req dn =
    let old = chunk_or_new now req.chunk_id false dn in
    record old {
      version = record old.version {
        logical_version = req.version;
        vector_clock = req.vector_clock;
        timestamp = req.timestamp;
      };
      size = pos (length req.bytes);
      checksum = req.checksum;
    }

-- What a node has of a chunk, and answers, when it has written as the primary.
record Wrote (req : WriteChunkRequest) (before : DataNode) (done : DataNode × WriteChunkResponse)
    : Type 0 where
  role : is_local_primary req.chunk_id done.0.manager ≡ true
  files : done.0.storage ≡ write_chunk req.chunk_id req.bytes req.offset before.storage
  chunk : LocalChunk
  has : lookup req.chunk_id done.0.chunks ≡ some chunk
  checksum : chunk.checksum ≡ req.checksum
  answer :
      done.1 ≡ record { base = succeeded req.request_id; version = chunk.version.logical_version }

write_as_primary-Wrote :
    (marshal : Entry → Option (List ℕ)) (now : ℕ) (req : WriteChunkRequest) (dn : DataNode)
    → is_local_primary req.chunk_id dn.manager ≡ true
    → Wrote req dn (write_as_primary marshal now none req dn)
unfolding write_as_primary
write_as_primary-Wrote marshal now req dn p =
    let old = chunk_or_new now req.chunk_id true dn in
    let chunk : LocalChunk = record old {
      size = pos (length req.bytes);
      version = bump now dn.node_id old.version;
      checksum = req.checksum;
    } in
    record {
      role = p;
      files = refl;
      chunk = chunk;
      has = lookup-insert_same req.chunk_id chunk dn.chunks;
      checksum = refl;
      answer = refl;
    }

module _ (marshal : Entry → Option (List ℕ)) (sum : List ℕ → String)
    (call_write : String → WriteChunkRequest → String ⊎ WriteChunkResponse) (id : String) where
  handle_write_chunk-Wrote :
      (now : ℕ) (req : WriteChunkRequest) (dn : DataNode)
      → CanWrite req.chunk_id dn
      → Wrote req dn (handle_write_chunk marshal sum call_write id now none req dn)
  unfolding handle_write_chunk
  handle_write_chunk-Wrote now req dn can = elim (Option-cases (lookup req.chunk_id dn.chunks)) [
    | inl n ↦
        let first = record dn {
          manager = set_local_role req.chunk_id ReplicaRole.primary dn.manager;
        } in
        let set : is_local_primary req.chunk_id first.manager ≡ true =
          ap (λ o. is_primary (elim o [ none ↦ ReplicaRole.secondary | some v ↦ v ]))
            (lookup-insert_same req.chunk_id ReplicaRole.primary dn.manager.local_roles) in
        let w = write_as_primary-Wrote marshal now req first set in
        rw (n, handle_write_chunk)
          (record {
            role = w.role;
            files = w.files;
            chunk = w.chunk;
            has = w.has;
            checksum = w.checksum;
            answer = w.answer;
          })
    | inr (c, e) ↦
        let p : is_local_primary req.chunk_id dn.manager ≡ true = elim can [
          | inl n ↦ absurd (ground (arith, n, e))
          | inr p ↦ p
        ] in
        rw (e, handle_write_chunk)
          (rw (p, if◌then◌else◌) (write_as_primary-Wrote marshal now req dn p))
  ]

  pub handle_write_chunk-succeeds :
      (now : ℕ) (req : WriteChunkRequest) (dn : DataNode)
      → CanWrite req.chunk_id dn
      → let resp = (handle_write_chunk marshal sum call_write id now none req dn).1 in
        resp ≡ record { base = succeeded req.request_id; version = resp.version }
  handle_write_chunk-succeeds now req dn can =
      let w = handle_write_chunk-Wrote now req dn can in
      w.answer
      ∙ ap {B = WriteChunkResponse} (λ v. record { base = succeeded req.request_id; version = v })
          (sym (ap {A = WriteChunkResponse} (λ r. r.version) w.answer))

  -- After a write, whose file operation does not fail, to a chunk of which the node is the primary
  -- or which it has not had, a read of as many bytes, which are not none, from the same offset gives
  -- these bytes, their hash, and the version that the answer to the write gives.
  pub handle_read_chunk-handle_write_chunk :
      (call_read : String → ReadChunkRequest → String ⊎ ReadChunkResponse) (open_error : String)
      (now later : ℕ) (req : WriteChunkRequest) (dn : DataNode) (request_id : String)
      → 0 < length req.bytes
      → CanWrite req.chunk_id dn
      → let done = handle_write_chunk marshal sum call_write id now none req dn in
        handle_read_chunk sum call_read open_error id later
          (record {
            request_id = request_id;
            chunk_id = req.chunk_id;
            offset = req.offset;
            length = pos (length req.bytes);
          })
          done.0
        ≡ some (record {
          base = succeeded request_id;
          bytes = req.bytes;
          checksum = sum req.bytes;
          version = done.1.version;
        })
  unfolding handle_read_chunk Proxy.read local_read check_read_consistency
  handle_read_chunk-handle_write_chunk call_read open_error now later req dn request_id h can =
      let w = handle_write_chunk-Wrote now req dn can in
      let done = handle_write_chunk marshal sum call_write id now none req dn in
      let got : read_chunk req.chunk_id req.offset (pos (length req.bytes)) done.0.storage
          ≡ content req.bytes =
        rw w.files (read_chunk-write_chunk req.chunk_id req.bytes req.offset dn.storage h) in
      handle_read_chunk-primary sum call_read open_error id later
        (record {
          request_id = request_id;
          chunk_id = req.chunk_id;
          offset = req.offset;
          length = pos (length req.bytes);
        })
        done.0 w.chunk req.bytes (ground arith) w.role w.has got
      ∙ rw w.answer refl

  -- A node that can write a chunk, and a secondary replica that has the same file of it. After a write
  -- from the beginning of the file, whose hash is the checksum of the request, and the
  -- synchronisation that follows it, no file operation of which fails, the secondary replica has the
  -- same file again, and tells the same version, vector clock, time and checksum.
  pub handle_sync_chunk-handle_write_chunk :
      (now later : ℕ) (req : WriteChunkRequest) (p s : DataNode) (version_id : String)
      → pos_part req.offset ≡ 0
      → req.checksum ≡ sum req.bytes
      → CanWrite req.chunk_id p
      → lookup req.chunk_id p.storage ≡ lookup req.chunk_id s.storage
      → let p' = (handle_write_chunk marshal sum call_write id now none req p).0 in
        (c : LocalChunk) × (lookup req.chunk_id p'.chunks ≡ some c)
        × (let s' =
              (handle_sync_chunk later none
                (sync_request sum id req.chunk_id req.bytes c p')
                s).0 in
            let asked : GetVersionRequest = record {
              request_id = version_id;
              chunk_id = req.chunk_id;
            } in
            (lookup req.chunk_id p'.storage ≡ lookup req.chunk_id s'.storage)
            × (record (handle_get_version asked s') { is_primary = true }
                ≡ handle_get_version asked p'))
  unfolding handle_sync_chunk
  handle_sync_chunk-handle_write_chunk now later req p s version_id start hash can same =
      let w = handle_write_chunk-Wrote now req p can in
      let p' = (handle_write_chunk marshal sum call_write id now none req p).0 in
      let written = λ (offset : ℤ) (st : Storage).
        lookup-write_chunk req.chunk_id req.chunk_id req.bytes offset st in
      let sync : SyncChunkRequest = sync_request sum id req.chunk_id req.bytes w.chunk p' in
      let s' = (handle_sync_chunk later none sync s).0 in
      let asked : GetVersionRequest = record { request_id = version_id; chunk_id = req.chunk_id } in
      let files : lookup req.chunk_id p'.storage ≡ lookup req.chunk_id s'.storage =
        ap (lookup req.chunk_id) w.files
        ∙ written req.offset p.storage
        ∙ rw (start, same) refl
        ∙ sym (written (pos 0) s.storage) in
      (
        w.chunk,
        w.has,
        (
          files,
          ap {A = GetVersionResponse} (λ r. record r { is_primary = true })
                (handle_get_version-known asked s' (synced later sync s)
                  (lookup-insert_same req.chunk_id (synced later sync s) s.chunks))
              ∙ ap {B = GetVersionResponse}
                  (λ h. record (version_of asked w.chunk true) { checksum = h })
                  (sym hash ∙ sym w.checksum)
              ∙ ap (version_of asked w.chunk) (sym w.role)
              ∙ sym (handle_get_version-known asked p' w.chunk w.has),
        ),
      )
