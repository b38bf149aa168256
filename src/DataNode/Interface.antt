-- ===== src/DataNode/Interface.antt =====
-- internal/datanode/datanode.go: the other handlers of a data node, what it sends to the secondary
-- replicas and to the master, and its own interface for writes and reads.
use lumeo_fs.Base.{
  ℕ, String, true, false, not, Option, none, some, List, [], ◌∷◌, Dict, str_eq, if◌then◌else◌,
  length, lookup, insert, ◌⊎◌, inl, inr, ℤ, pos, suc_i64,
}
use Prim.Native.String.{◌++◌ as ◌^◌}
use lumeo_fs.Common.{
  ReplicaRole, is_primary, WriteRequest, WriteResponse, ReadRequest, ReadResponse,
}
use lumeo_fs.Version.Data.{bump}
use lumeo_fs.Wal.Log.{Entry, append}
use lumeo_fs.Protocol.Messages.{
  Response, SyncChunkRequest, SyncChunkResponse, ReplicaNodeInfo, SetRoleRequest, GetVersionRequest,
  GetVersionResponse, RegisterRequest, HeartbeatRequest,
}
use lumeo_fs.Replication.Manager.{
  ReplicaInfo, ReplicaManager, set_local_role, is_local_primary, register_replicas,
  get_secondary_nodes,
}
use lumeo_fs.Replication.Proxy.{dial_address}
use lumeo_fs.DataNode.Storage.{Storage, write_chunk, content, missing, crashed, read_chunk}
use lumeo_fs.DataNode.Handlers.{LocalChunk, DataNode, chunk_or_new, succeeded, failed, write_entry}

-- The role that a text names.
abbrev pub named_role : String → ReplicaRole
named_role role = if str_eq role "PRIMARY" then ReplicaRole.primary else ReplicaRole.secondary

-- The replicas that `handleSetRole` registers.
unfoldable pub replica_infos : String → List ReplicaNodeInfo → List ReplicaInfo
replica_infos chunk [] = []
replica_infos chunk (r ∷ rs) =
    record {
      chunk_id = chunk;
      node_id = r.node_id;
      node_address = r.address;
      role = named_role r.role;
      version = none;
      is_healthy = true;
    }
    ∷ replica_infos chunk rs

-- `handleSetRole`
unfoldable pub handle_set_role : SetRoleRequest → DataNode → DataNode × Response
handle_set_role req dn =
    let role = named_role req.role in
    let manager = set_local_role req.chunk_id role dn.manager in
    let manager' : ReplicaManager = elim req.replicas [
      | [] ↦ manager
      | r ∷ rs ↦ register_replicas req.chunk_id (replica_infos req.chunk_id (r ∷ rs)) manager
    ] in
    let chunks : Dict LocalChunk = elim (lookup req.chunk_id dn.chunks) [
      | none ↦ dn.chunks
      | some c ↦
          insert req.chunk_id (record c { is_primary = is_primary role; role = role }) dn.chunks
    ] in
    (record dn { manager = manager'; chunks = chunks }, succeeded req.request_id)

-- `handleGetVersion`
unfoldable pub handle_get_version : GetVersionRequest → DataNode → GetVersionResponse
handle_get_version req dn = elim (lookup req.chunk_id dn.chunks) [
  | none ↦ record {
    base = failed req.request_id "chunk not found";
    version = pos 0;
    vector_clock = [];
    timestamp = 0;
    checksum = "";
    is_primary = false;
  }
  | some c ↦ record {
    base = succeeded req.request_id;
    version = c.version.logical_version;
    vector_clock = c.version.vector_clock;
    timestamp = c.version.timestamp;
    checksum = c.checksum;
    is_primary = is_local_primary req.chunk_id dn.manager;
  }
]

-- The request that `syncToNode` sends, with its id, for a chunk of the node as it is when the request
-- is made: the version is read through a pointer.
abbrev pub sync_request :
    (List ℕ → String) → String → String → List ℕ → LocalChunk → DataNode → SyncChunkRequest
sync_request sum id chunk bytes c dn = record {
  request_id = id;
  chunk_id = chunk;
  bytes = bytes;
  offset = pos 0;
  checksum = sum bytes;
  version = c.version.logical_version;
  vector_clock = c.version.vector_clock;
  timestamp = c.version.timestamp;
  source_node_id = dn.node_id;
}

-- `syncToNode`: the text of the error, if there is one.
unfoldable pub sync_to_node :
    (String → SyncChunkRequest → String ⊎ SyncChunkResponse)
    → String
    → SyncChunkRequest
    → Option String
sync_to_node call_sync address req = elim (call_sync (dial_address address) req) [
  | inl err ↦ some err
  | inr resp ↦ if resp.base.success then none else some ("同步失败: " ^ resp.base.error)
]

-- The addresses to which `syncToSecondariesAsync` sends.
abbrev pub sync_targets : String → DataNode → List String
sync_targets chunk dn = get_secondary_nodes chunk dn.manager

-- The request of `sendHeartbeat`, with its id; the used space is not set.
abbrev pub heartbeat : String → DataNode → HeartbeatRequest
heartbeat id dn = record {
  request_id = id;
  node_id = dn.node_id;
  chunk_count = pos (length dn.chunks);
  used_space = pos 0;
}

-- The request of `registerToMaster`, with its id, and the address and the port of the configuration.
abbrev pub registration : String → String → ℤ → DataNode → RegisterRequest
registration id address port dn = record {
  request_id = id;
  node_id = dn.node_id;
  address = address;
  port = port;
  total_space = pos 0;
  used_space = pos 0;
}

abbrev pub refused : String → WriteResponse
refused err = record { success = false; version = pos 0; error = err }

-- `Write`, with the text of the error of the log.
unfoldable pub write :
    (Entry → Option (List ℕ))
    → (List ℕ → String)
    → String
    → ℕ
    → Option (Storage × String)
    → WriteRequest
    → DataNode
    → DataNode × WriteResponse
write marshal sum wal_error now fault req dn =
    let old = chunk_or_new now req.chunk_id true dn in
    let opened = record dn { chunks = insert req.chunk_id old dn.chunks } in
    if not (is_primary old.role)
    then (opened, refused "not primary replica, cannot write")
    else let next = suc_i64 old.version.logical_version in
      let e = write_entry req.chunk_id req.bytes req.offset next req.checksum in
      let (wal, logged) = append marshal now e dn.wal in
      if not logged
      then (record opened { wal = wal }, refused ("WAL write failed: " ^ wal_error))
      else elim fault [
        | some (st, err) ↦
            (record opened { wal = wal; storage = st }, refused ("storage write failed: " ^ err))
        | none ↦
            let chunk = record old {
              version = bump now dn.node_id old.version;
              size = pos (length req.bytes);
              checksum = sum req.bytes;
            } in
            (
              record opened {
                wal = wal;
                storage = write_chunk req.chunk_id req.bytes req.offset dn.storage;
                chunks = insert req.chunk_id chunk dn.chunks;
              },
              record { success = true; version = chunk.version.logical_version; error = "" },
            )
      ]

-- `Read`, with the text of the error for a file that cannot be opened; `none` is a panic.
unfoldable pub read : (List ℕ → String) → String → ReadRequest → DataNode → Option ReadResponse
read sum open_error req dn =
    let refuse : String → Option ReadResponse =
      λ err. some (record { bytes = []; checksum = ""; version = pos 0; error = err }) in
    elim (lookup req.chunk_id dn.chunks) [
      | none ↦ refuse "chunk not found"
      | some c ↦ elim (read_chunk req.chunk_id req.offset req.length dn.storage) [
        | content bytes ↦ some (record {
          bytes = bytes;
          checksum = sum bytes;
          version = c.version.logical_version;
          error = "";
        })
        | missing ↦ refuse ("read failed: " ^ open_error)
        | crashed ↦ none
      ]
    ]
