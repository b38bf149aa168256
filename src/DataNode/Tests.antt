-- ===== src/DataNode/Tests.antt =====
-- internal/datanode/datanode.go: the theorems at concrete inputs.
use lumeo_fs.Base.{
  ℕ, zero, suc, String, true, false, inr, ap, sym, Option, none, some, List, [], ◌∷◌, take, lookup,
  insert, ◌≡◌, refl, ◌⊎◌, inl, arith, pos, pos_part, read_block, read_full, big_endian,
}
use lumeo_fs.Common.{ReplicaRole}
use lumeo_fs.Replication.Manager.{primary_address, set_local_role, register_replicas}
use lumeo_fs.DataNode.Forward.{Secondary, sent_on, handle_read_chunk-forward_write}
use lumeo_fs.Wal.Log.{
  Entry, Wal, new_wal, open_last, read_records, read_file, read_files, read_all, next_record,
}
use lumeo_fs.Protocol.Messages.{
  WriteChunkRequest, WriteChunkResponse, ReadChunkRequest, ReadChunkResponse, GetVersionRequest,
}
use lumeo_fs.DataNode.Storage.{Storage}
use lumeo_fs.DataNode.Replay.{replay}
use lumeo_fs.DataNode.Handlers.{
  LocalChunk, DataNode, new_data_node, write_entry, succeeded, new_local_chunk, write_as_primary,
  handle_write_chunk, handle_read_chunk, handle_sync_chunk,
}
use lumeo_fs.DataNode.Interface.{handle_get_version, sync_request}
use lumeo_fs.DataNode.Recovery.{recovered_chunk, recover_entries, no_faults, recover_from_wal}
use lumeo_fs.DataNode.Durable.{
  Logged, handle_writes, recover_entries-Logged, recover_from_wal-handle_writes,
}
use lumeo_fs.DataNode.Restart.{no_primary, last_recovered, handle_write_chunk-recover_from_wal}
use lumeo_fs.DataNode.Sync.{
  handle_read_chunk-handle_write_chunk, handle_sync_chunk-handle_write_chunk,
}

abbrev write_request : List ℕ → ℕ → WriteChunkRequest
write_request bytes offset = record {
  request_id = "r";
  chunk_id = "c";
  bytes = bytes;
  offset = pos offset;
  checksum = "sum";
}

-- A codec of the entries for such requests.
abbrev marshal_write : Entry → Option (List ℕ)
marshal_write e = some (e.timestamp ∷ pos_part e.offset ∷ e.bytes)

abbrev unmarshal_write : List ℕ → Option Entry
unmarshal_write [] = none
unmarshal_write (t ∷ []) = none
unmarshal_write (t ∷ offset ∷ bytes) =
    some (record (write_entry "c" bytes (pos offset) (pos 0) "sum") { timestamp = t })

abbrev same_sum : List ℕ → String
same_sum bytes = "sum"

abbrev no_write : String → WriteChunkRequest → String ⊎ WriteChunkResponse
no_write address req = inl "refused"

abbrev no_read : String → ReadChunkRequest → String ⊎ ReadChunkResponse
no_read address req = inl "refused"

-- A node with an empty log, and no files.
abbrev fresh : String → DataNode
fresh id = new_data_node id "address" (new_wal []) []

abbrev two_writes : List (ℕ × WriteChunkRequest)
two_writes = (5, write_request (1 ∷ 2 ∷ []) 0) ∷ (6, write_request (9 ∷ []) 1) ∷ []

abbrev logged_write : Entry
logged_write = record (write_entry "c" (1 ∷ 2 ∷ []) (pos 0) (pos 0) "sum") { timestamp = 5 }

-- A log with one entry of four bytes.
abbrev one_write : Wal
one_write = record (new_wal []) { current = 0 ∷ 0 ∷ 0 ∷ 0 ∷ 0 ∷ 0 ∷ 0 ∷ 4 ∷ 5 ∷ 0 ∷ 1 ∷ 2 ∷ [] }

one_write-read : read_all unmarshal_write one_write ≡ some (logged_write ∷ [])
unfolding open_last read_all read_files read_file read_records next_record read_block read_full
    big_endian
one_write-read = refl

one_write-linked : one_write.linked ≡ true
unfolding open_last
one_write-linked = refl

-- A node that has started with this log.
abbrev restarted : DataNode
restarted =
    recover_entries 4 no_faults (logged_write ∷ []) (new_data_node "n" "address" one_write [])

-- It has been told that it is the primary.
abbrev told : DataNode
told = record restarted { manager = set_local_role "c" ReplicaRole.primary restarted.manager }

told-Logged : Logged marshal_write unmarshal_write same_sum no_write "id" [] told
told-Logged =
    let l =
      recover_entries-Logged marshal_write unmarshal_write same_sum no_write "id" 4
        (new_data_node "n" "address" one_write []) (logged_write ∷ []) one_write-read
        one_write-linked in
    record { entries = l.entries; read = l.read; linked = l.linked; files = l.files }

recover_from_wal-handle_writes_example :
    let after =
      handle_writes marshal_write unmarshal_write same_sum no_write "id" two_writes told in
    (es : List Entry) × (read_all unmarshal_write after.wal ≡ some es)
    × (lookup "c"
          (recover_from_wal unmarshal_write 8 no_faults
            (new_data_node "n" "address" after.wal (replay (take 2 es) []))).0.storage
        ≡ lookup "c" after.storage)
recover_from_wal-handle_writes_example =
    recover_from_wal-handle_writes marshal_write unmarshal_write same_sum no_write "id" []
      two_writes told 2 8 "n" "address" "c"
      (
        (5 ∷ 0 ∷ 1 ∷ 2 ∷ [], record { made = refl; read = refl; short = omega arith }),
        ((6 ∷ 1 ∷ 9 ∷ [], record { made = refl; read = refl; short = omega arith }), tt),
      )
      told-Logged

handle_read_chunk-handle_write_chunk_example :
    let done =
      handle_write_chunk marshal_write same_sum no_write "id" 5 none
        (write_request (1 ∷ 2 ∷ []) 3)
        (fresh "n") in
    handle_read_chunk same_sum no_read "no such file" "id" 6
      (record { request_id = "q"; chunk_id = "c"; offset = pos 3; length = pos 2 })
      done.0
    ≡ some (record {
      base = succeeded "q";
      bytes = 1 ∷ 2 ∷ [];
      checksum = "sum";
      version = done.1.version;
    })
unfolding lookup
handle_read_chunk-handle_write_chunk_example =
    handle_read_chunk-handle_write_chunk marshal_write same_sum no_write "id" no_read "no such file"
      5 6 (write_request (1 ∷ 2 ∷ []) 3) (fresh "n") "q" (omega arith) (inl refl)

handle_sync_chunk-handle_write_chunk_example :
    let p =
      (handle_write_chunk marshal_write same_sum no_write "id" 5 none
        (write_request (1 ∷ 2 ∷ []) 0)
        (fresh "n")).0 in
    (c : LocalChunk) × (lookup "c" p.chunks ≡ some c)
    × (let s =
          (handle_sync_chunk 6 none
            (sync_request same_sum "id" "c" (1 ∷ 2 ∷ []) c p)
            (fresh "m")).0 in
        let asked : GetVersionRequest = record { request_id = "v"; chunk_id = "c" } in
        (lookup "c" p.storage ≡ lookup "c" s.storage)
        × (record (handle_get_version asked s) { is_primary = true } ≡ handle_get_version asked p))
unfolding lookup
handle_sync_chunk-handle_write_chunk_example =
    handle_sync_chunk-handle_write_chunk marshal_write same_sum no_write "id" 5 6
      (write_request (1 ∷ 2 ∷ []) 0) (fresh "n") (fresh "m") "v" refl refl (inl refl) refl

-- A node that has the chunk as a secondary replica, and knows the primary.
abbrev secondary_node : String → DataNode
secondary_node id = record (fresh id) {
  chunks = ("c", new_local_chunk 1 id "c" false) ∷ [];
  manager =
      register_replicas "c"
        (record {
          chunk_id = "c";
          node_id = "p";
          node_address = "0.0.0.0:9";
          role = ReplicaRole.primary;
          version = none;
          is_healthy = true;
        }
          ∷ [])
        (fresh id).manager;
}

secondary_node-Secondary : (id : String) → Secondary "c" "0.0.0.0:9" (secondary_node id)
unfolding lookup insert primary_address
secondary_node-Secondary id = record {
  copy = new_local_chunk 1 id "c" false;
  has = refl;
  role = refl;
  primary = refl;
  no_lease = refl;
}

-- What the primary answers.
abbrev primary_writes : String → WriteChunkRequest → String ⊎ WriteChunkResponse
primary_writes address req = inr (record { base = succeeded "id"; version = pos 2 })

abbrev primary_answer : ReadChunkResponse
primary_answer = record {
  base = succeeded "id";
  bytes = 1 ∷ 2 ∷ [];
  checksum = "sum";
  version = pos 2;
}

abbrev primary_reads : String → ReadChunkRequest → String ⊎ ReadChunkResponse
primary_reads address req = inr primary_answer

written_version :
    (handle_write_chunk marshal_write same_sum primary_writes "id" 5 none
      (sent_on same_sum "id" (write_request (1 ∷ 2 ∷ []) 3))
      (fresh "p")).1
    ≡ record { base = succeeded "id"; version = pos 2 }
unfolding lookup handle_write_chunk write_as_primary
written_version = refl

handle_read_chunk-forward_write_example :
    (handle_write_chunk marshal_write same_sum primary_writes "id" 5 none
        (write_request (1 ∷ 2 ∷ []) 3)
        (secondary_node "s")
      ≡ (secondary_node "s", record { base = succeeded "r"; version = pos 2 }))
    × (handle_read_chunk same_sum primary_reads "no such file" "id" 6
          (record { request_id = "q"; chunk_id = "c"; offset = pos 3; length = pos 2 })
          (secondary_node "t")
        ≡ some (record {
          base = succeeded "q";
          bytes = 1 ∷ 2 ∷ [];
          checksum = "sum";
          version = pos 0;
        }))
unfolding lookup handle_write_chunk write_as_primary
handle_read_chunk-forward_write_example =
    handle_read_chunk-forward_write marshal_write same_sum primary_writes primary_reads
      "no such file" "id" 5 6 (write_request (1 ∷ 2 ∷ []) 3) (secondary_node "s")
      (secondary_node "t") (fresh "p") "0.0.0.0:9" "0.0.0.0:9" "q" primary_answer (omega arith)
      (secondary_node-Secondary "s") (secondary_node-Secondary "t") (inl refl)
      (ap inr (sym written_version))
      (handle_read_chunk-handle_write_chunk marshal_write same_sum primary_writes "id" primary_reads
        "no such file" 5 6 (sent_on same_sum "id" (write_request (1 ∷ 2 ∷ []) 3)) (fresh "p") "id"
        (omega arith) (inl refl))
      refl

-- Two writes, the second of which fails when it is done again, and leaves the file as it was.
abbrev second_fails : ℕ → Option Storage
second_fails zero = none
second_fails (suc n) = some (("c", 1 ∷ 2 ∷ []) ∷ [])

abbrev two_logged : Wal
two_logged = record one_write {
  current =
      0 ∷ 0 ∷ 0 ∷ 0 ∷ 0 ∷ 0 ∷ 0 ∷ 4 ∷ 5 ∷ 0 ∷ 1 ∷ 2 ∷ 0 ∷ 0 ∷ 0 ∷ 0 ∷ 0 ∷ 0 ∷ 0 ∷ 3 ∷ 6 ∷ 1 ∷ 9
      ∷ [];
}

abbrev later_write : Entry
later_write = record (write_entry "c" (9 ∷ []) (pos 1) (pos 0) "sum") { timestamp = 6 }

two_logged-read : read_all unmarshal_write two_logged ≡ some (logged_write ∷ later_write ∷ [])
unfolding open_last read_all read_files read_file read_records next_record read_block read_full
    big_endian
two_logged-read = refl

handle_write_chunk-recover_from_wal_example :
    let dn =
      (recover_from_wal unmarshal_write 8 second_fails
        (new_data_node "n" "address" two_logged [])).0 in
    (lookup "c" dn.chunks ≡ some (recovered_chunk 8 "n" logged_write))
    × (handle_write_chunk marshal_write same_sum no_write "id" 9 none (write_request (7 ∷ []) 0) dn
        ≡ (dn, no_primary (write_request (7 ∷ []) 0)))
unfolding last_recovered
handle_write_chunk-recover_from_wal_example =
    handle_write_chunk-recover_from_wal unmarshal_write marshal_write same_sum no_write "id" "n"
      "address" 8 9 second_fails none two_logged [] (logged_write ∷ later_write ∷ [])
      (write_request (7 ∷ []) 0) two_logged-read
