-- ===== src/DataNode/Handlers.antt =====
-- internal/datanode/datanode.go: the state of a data node, and the handlers of its requests. A handler
-- gives the node after it and the response. The pointer to a chunk's version is never nil, and the
-- path of a chunk's file is never set. An attempt to write to a file may fail: `fault` is then the
-- storage that it leaves and the text of the error. A request that cannot be decoded changes nothing.
use lumeo_fs.Base.{
  ℕ, String, Bool, true, false, Option, none, some, List, [], Dict, if◌then◌else◌, length, lookup,
  insert, ◌⊎◌, inl, inr, ℤ, pos, eqb_ℤ,
}
use lumeo_fs.Common.{ReplicaRole, is_primary}
use lumeo_fs.Version.Data.{DataVersion, new_data_version, bump}
use lumeo_fs.Wal.Log.{Entry, EntryType, Wal, append}
use lumeo_fs.Protocol.Messages.{
  Response, WriteChunkRequest, WriteChunkResponse, ReadChunkRequest, ReadChunkResponse,
  SyncChunkRequest, SyncChunkResponse,
}
use lumeo_fs.Replication.Manager.{
  ReplicaManager, new_replica_manager, set_local_role, get_local_role,
}
use lumeo_fs.Replication.Proxy as Proxy
use lumeo_fs.Replication.Proxy.{ReadResult, dial_address}
use lumeo_fs.DataNode.Storage.{Storage, write_chunk, content, missing, crashed, read_chunk}

-- `LocalChunk`
pub record LocalChunk : Type 0 where
  pub id : String
  pub role : ReplicaRole
  pub version : DataVersion
  pub size : ℤ
  pub checksum : String
  pub is_primary : Bool

-- `DataNode`
pub record DataNode : Type 0 where
  pub node_id : String
  pub storage : Storage
  pub wal : Wal
  pub chunks : Dict LocalChunk
  pub manager : ReplicaManager

-- `NewDataNode`, with the address of its replica manager, over the log and the storage of its
-- directories.
abbrev pub new_data_node : String → String → Wal → Storage → DataNode
new_data_node id address wal st = record {
  node_id = id;
  storage = st;
  wal = wal;
  chunks = [];
  manager = new_replica_manager id address;
}

-- A chunk that the node has not had; the role, where it is not given, is the zero value.
abbrev pub new_local_chunk : ℕ → String → String → Bool → LocalChunk
new_local_chunk now node id primary = record {
  id = id;
  role = ReplicaRole.primary;
  version = new_data_version now node;
  size = pos 0;
  checksum = "";
  is_primary = primary;
}

-- The chunk that a node has, or a new one.
abbrev pub chunk_or_new : ℕ → String → Bool → DataNode → LocalChunk
chunk_or_new now id primary dn = elim (lookup id dn.chunks) [
  | none ↦ new_local_chunk now dn.node_id id primary
  | some c ↦ c
]

abbrev pub succeeded : String → Response
succeeded id = record { request_id = id; success = true; error = "" }

abbrev pub failed : String → String → Response
failed id err = record { request_id = id; success = false; error = err }

-- The entry of the write-ahead log for a write; `Append` sets the time.
abbrev pub write_entry : String → List ℕ → ℤ → ℤ → String → Entry
write_entry chunk bytes offset version checksum = record {
  type = EntryType.write;
  chunk_id = chunk;
  bytes = bytes;
  offset = offset;
  version = version;
  checksum = checksum;
  timestamp = 0;
}

-- The part of `handleWriteChunk` after the test of the role: the write of a primary. The error of the
-- log is only logged. The entry in the log and the write to the file are one step here; the code holds
-- no lock across them.
unfoldable pub write_as_primary :
    (Entry → Option (List ℕ))
    → ℕ
    → Option (Storage × String)
    → WriteChunkRequest
    → DataNode
    → DataNode × WriteChunkResponse
write_as_primary marshal now fault req dn =
    let e = write_entry req.chunk_id req.bytes req.offset (pos 0) req.checksum in
    let logged = record dn { wal = (append marshal now e dn.wal).0 } in
    elim fault [
      | some (st, err) ↦ (
        record logged { storage = st },
        record { base = failed req.request_id err; version = pos 0 },
      )
      | none ↦
          let old = chunk_or_new now req.chunk_id true dn in
          let chunk = record old {
            size = pos (length req.bytes);
            version = bump now dn.node_id old.version;
            checksum = req.checksum;
          } in
          (
            record logged {
              storage = write_chunk req.chunk_id req.bytes req.offset dn.storage;
              chunks = insert req.chunk_id chunk dn.chunks;
            },
            record { base = succeeded req.request_id; version = chunk.version.logical_version },
          )
    ]

-- The part of `handleWriteChunk` for a node that is not the primary.
unfoldable pub forward_write :
    (List ℕ → String)
    → (String → WriteChunkRequest → String ⊎ WriteChunkResponse)
    → String
    → WriteChunkRequest
    → DataNode
    → WriteChunkResponse
forward_write sum call_write id req dn =
    elim (Proxy.write call_write sum id req.chunk_id req.bytes req.offset
      (λ c bytes offset checksum. inl "should not reach here") dn.manager) [
        | inl err ↦ record { base = failed req.request_id err; version = pos 0 }
        | inr result ↦ record {
          base = record {
            request_id = req.request_id;
            success = result.success;
            error = result.error;
          };
          version = result.version;
        }
      ]

-- `handleWriteChunk`; the node takes the role of the primary at its first write to a chunk.
unfoldable pub handle_write_chunk :
    (Entry → Option (List ℕ))
    → (List ℕ → String)
    → (String → WriteChunkRequest → String ⊎ WriteChunkResponse)
    → String
    → ℕ
    → Option (Storage × String)
    → WriteChunkRequest
    → DataNode
    → DataNode × WriteChunkResponse
handle_write_chunk marshal sum call_write id now fault req dn =
    elim (lookup req.chunk_id dn.chunks) [
      | none ↦
          write_as_primary marshal now fault req
            (record dn { manager = set_local_role req.chunk_id ReplicaRole.primary dn.manager })
      | some c ↦
          if is_primary (get_local_role req.chunk_id dn.manager)
          then write_as_primary marshal now fault req dn
          else (dn, forward_write sum call_write id req dn)
    ]

-- The local read of `handleReadChunk`, with the text of the error for a file that cannot be opened;
-- `none` is a panic.
unfoldable pub local_read :
    (List ℕ → String)
    → String
    → Option DataVersion
    → DataNode
    → String
    → ℤ
    → ℤ
    → Option (String ⊎ ReadResult)
local_read sum open_error local dn chunk offset len =
    elim (read_chunk chunk offset len dn.storage) [
      | content bytes ↦ some (
          inr
            (record { bytes = bytes; version = local; checksum = sum bytes; from_primary = false }))
      | missing ↦ some (inl open_error)
      | crashed ↦ none
    ]

-- The version of a chunk that the node has.
abbrev pub local_version : String → DataNode → Option DataVersion
local_version chunk dn = elim (lookup chunk dn.chunks) [ none ↦ none | some c ↦ some c.version ]

-- `handleReadChunk` at the time `now`, which changes nothing; `none` is a panic.
unfoldable pub handle_read_chunk :
    (List ℕ → String)
    → (String → ReadChunkRequest → String ⊎ ReadChunkResponse)
    → String
    → String
    → ℕ
    → ReadChunkRequest
    → DataNode
    → Option ReadChunkResponse
handle_read_chunk sum call_read open_error id now req dn =
    let local = local_version req.chunk_id dn in
    let len = if eqb_ℤ req.length (pos 0) then pos 67108864 else req.length in
    elim (Proxy.read call_read now id req.chunk_id req.offset len local
      (local_read sum open_error local dn) dn.manager) [
        | none ↦ none
        | some (inl err) ↦ some (record {
          base = failed req.request_id err;
          bytes = [];
          checksum = "";
          version = pos 0;
        })
        | some (inr result) ↦ some (record {
          base = succeeded req.request_id;
          bytes = result.bytes;
          checksum = result.checksum;
          version = elim result.version [ none ↦ pos 0 | some v ↦ v.logical_version ];
        })
      ]

-- `handleSyncChunk`
unfoldable pub handle_sync_chunk :
    ℕ → Option (Storage × String) → SyncChunkRequest → DataNode → DataNode × SyncChunkResponse
handle_sync_chunk now fault req dn = elim fault [
  | some (st, err) ↦
      (record dn { storage = st }, record { base = failed req.request_id err; version = pos 0 })
  | none ↦
      let old = chunk_or_new now req.chunk_id false dn in
      let chunk = record old {
        version = record old.version {
          logical_version = req.version;
          vector_clock = req.vector_clock;
          timestamp = req.timestamp;
        };
        size = pos (length req.bytes);
        checksum = req.checksum;
      } in
      (
        record dn {
          storage = write_chunk req.chunk_id req.bytes req.offset dn.storage;
          chunks = insert req.chunk_id chunk dn.chunks;
        },
        record { base = succeeded req.request_id; version = req.version },
      )
]
