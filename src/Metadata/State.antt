-- ===== src/Metadata/State.antt =====
-- internal/raft/state_machine.go: the state, the commands and the snapshots. Decoding and encoding
-- by `encoding/json` is a parameter; a time is an argument, one for all reads of the clock in an
-- operation.
use lumeo_fs.Base.{
  ℕ, ◌+◌, String, Bool, true, false, Option, none, some, List, [], ◌∷◌, ◌++◌, Dict, str_eq,
  if◌then◌else◌, lookup, insert, delete, u64, ℤ, pos,
}
use lumeo_fs.Common.{
  ReplicaRole, ReplicaStatus, NodeStatus, is_online, ReplicaInfo, ChunkInfo, DataNodeInfo,
  FileMetadata,
}
use lumeo_fs.Raft.Types.{MetadataCommand}

-- `MetadataStateMachine`; the values behind the pointers of its maps.
pub record StateMachine : Type 0 where
  pub files : Dict FileMetadata
  pub chunks : Dict ChunkInfo
  pub datanodes : Dict DataNodeInfo
  pub version : ℕ

-- `NewMetadataStateMachine`
abbrev pub new_state_machine : StateMachine
new_state_machine = record { files = []; chunks = []; datanodes = []; version = 0 }

-- `RegisterNodeData`
pub record RegisterNodeData : Type 0 where
  pub node_id : String
  pub address : String
  pub port : ℤ
  pub total_space : ℤ
  pub used_space : ℤ

-- `CreateFileData`
pub record CreateFileData : Type 0 where
  pub file_id : String
  pub file_name : String
  pub file_path : String
  pub file_size : ℤ
  pub checksum : String

-- `AllocChunkData`
pub record AllocChunkData : Type 0 where
  pub chunk_id : String
  pub file_id : String
  pub index : ℤ
  pub size : ℤ
  pub replicas : List String

-- `UpdateChunkData`
pub record UpdateChunkData : Type 0 where
  pub chunk_id : String
  pub version : ℤ
  pub checksum : String
  pub size : ℤ

-- `json.Unmarshal` at the types of the commands; `none` is its error.
pub record Decoders : Type 0 where
  pub register_node : List ℕ → Option RegisterNodeData
  pub create_file : List ℕ → Option CreateFileData
  pub alloc_chunk : List ℕ → Option AllocChunkData
  pub update_chunk : List ℕ → Option UpdateChunkData

-- The errors that `Apply` returns.
pub data ApplyError : Type 0 where
  bad_value : ApplyError
  unknown_command : String → ApplyError

unfoldable pub register_node : ℕ → RegisterNodeData → StateMachine → StateMachine
register_node now d sm = record sm {
  datanodes =
      insert d.node_id
        (record {
          id = d.node_id;
          address = d.address;
          port = d.port;
          total_space = d.total_space;
          used_space = d.used_space;
          chunk_count = pos 0;
          status = NodeStatus.online;
          last_heartbeat = now;
        })
        sm.datanodes;
}

-- `applyUnregisterNode`, at the key of the command.
unfoldable pub unregister_node : String → StateMachine → StateMachine
unregister_node id sm = elim (lookup id sm.datanodes) [
  | none ↦ sm
  | some n ↦ record sm {
    datanodes = insert id (record n { status = NodeStatus.offline }) sm.datanodes;
  }
]

unfoldable pub create_file : ℕ → CreateFileData → StateMachine → StateMachine
create_file now d sm = record sm {
  files =
      insert d.file_id
        (record {
          id = d.file_id;
          name = d.file_name;
          path = d.file_path;
          size = d.file_size;
          chunk_ids = [];
          create_time = now;
          modify_time = now;
        })
        sm.files;
}

-- The loop of `applyDeleteFile`.
unfoldable pub delete_all : List String → Dict ChunkInfo → Dict ChunkInfo
delete_all [] m = m
delete_all (c ∷ cs) m = delete_all cs (delete c m)

unfoldable pub delete_file : String → StateMachine → StateMachine
delete_file id sm = elim (lookup id sm.files) [
  | none ↦ sm
  | some f ↦ record sm { files = delete id sm.files; chunks = delete_all f.chunk_ids sm.chunks }
]

-- The loop of `applyAllocChunk`, at the nodes after the first, or at the first with `role` primary.
unfoldable pub make_replicas : ℕ → String → ReplicaRole → List String → List ReplicaInfo
make_replicas now chunk role [] = []
make_replicas now chunk role (n ∷ ns) =
    record {
      chunk_id = chunk;
      node_id = n;
      role = role;
      version = pos 0;
      checksum = "";
      status = ReplicaStatus.healthy;
      update_time = now;
    }
    ∷ make_replicas now chunk ReplicaRole.secondary ns

-- The chunk that `applyAllocChunk` records; its first replica is the primary.
abbrev pub new_chunk : ℕ → AllocChunkData → ChunkInfo
new_chunk now d = record {
  id = d.chunk_id;
  file_id = d.file_id;
  index = d.index;
  size = d.size;
  checksum = "";
  replicas = make_replicas now d.chunk_id ReplicaRole.primary d.replicas;
  create_time = now;
}

unfoldable pub alloc_chunk : ℕ → AllocChunkData → StateMachine → StateMachine
alloc_chunk now d sm =
    let sm' = record sm { chunks = insert d.chunk_id (new_chunk now d) sm.chunks } in
    elim (lookup d.file_id sm.files) [
      | none ↦ sm'
      | some f ↦ record sm' {
        files = insert d.file_id (record f { chunk_ids = f.chunk_ids ++ d.chunk_id ∷ [] }) sm.files;
      }
    ]

unfoldable pub update_chunk : UpdateChunkData → StateMachine → StateMachine
update_chunk d sm = elim (lookup d.chunk_id sm.chunks) [
  | none ↦ sm
  | some c ↦ record sm {
    chunks = insert d.chunk_id (record c { checksum = d.checksum; size = d.size }) sm.chunks;
  }
]

-- The parameters of a value that `json.Unmarshal` refuses: the error, and no change.
abbrev pub decoded {ℓ} :
    {A : Type ℓ}
    → Option A
    → (A → StateMachine → StateMachine)
    → StateMachine
    → StateMachine × Option ApplyError
decoded none f sm = (sm, some bad_value)
decoded (some d) f sm = (f d sm, none)

-- The `switch` of `Apply`.
unfoldable pub dispatch :
    Decoders → ℕ → MetadataCommand → StateMachine → StateMachine × Option ApplyError
dispatch js now cmd sm =
    if str_eq cmd.kind "REGISTER_NODE"
    then decoded (js.register_node cmd.value) (register_node now) sm
    else if str_eq cmd.kind "UNREGISTER_NODE"
    then (unregister_node cmd.key sm, none)
    else if str_eq cmd.kind "CREATE_FILE"
    then decoded (js.create_file cmd.value) (create_file now) sm
    else if str_eq cmd.kind "DELETE_FILE"
    then (delete_file cmd.key sm, none)
    else if str_eq cmd.kind "ALLOC_CHUNK"
    then decoded (js.alloc_chunk cmd.value) (alloc_chunk now) sm
    else if str_eq cmd.kind "UPDATE_CHUNK"
    then decoded (js.update_chunk cmd.value) update_chunk sm
    else (sm, some (unknown_command cmd.kind))

-- `Apply`: the version goes up, also where the command fails.
unfoldable pub apply :
    Decoders → ℕ → MetadataCommand → StateMachine → StateMachine × Option ApplyError
apply js now cmd sm = dispatch js now cmd (record sm { version = u64 (sm.version + 1) })

-- `UpdateNodeHeartbeat`
unfoldable pub update_node_heartbeat : ℕ → String → ℤ → ℤ → StateMachine → StateMachine
update_node_heartbeat now id chunk_count used_space sm = elim (lookup id sm.datanodes) [
  | none ↦ sm
  | some n ↦ record sm {
    datanodes =
        insert id
          (record n {
            last_heartbeat = now;
            chunk_count = chunk_count;
            used_space = used_space;
            status = if is_online n.status then n.status else NodeStatus.online;
          })
          sm.datanodes;
  }
]

-- `SetNodeOffline`
unfoldable pub set_node_offline : String → StateMachine → StateMachine
set_node_offline id sm = elim (lookup id sm.datanodes) [
  | none ↦ sm
  | some n ↦ record sm {
    datanodes = insert id (record n { status = NodeStatus.offline }) sm.datanodes;
  }
]

-- `MetadataSnapshot`
pub record MetadataSnapshot : Type 0 where
  pub version : ℕ
  pub files : Dict FileMetadata
  pub chunks : Dict ChunkInfo
  pub datanodes : Dict DataNodeInfo
  pub timestamp : ℕ

-- What `Snapshot` encodes.
abbrev pub snapshot_of : ℕ → StateMachine → MetadataSnapshot
snapshot_of now sm = record {
  version = sm.version;
  files = sm.files;
  chunks = sm.chunks;
  datanodes = sm.datanodes;
  timestamp = now;
}

-- `Snapshot`, with `json.Marshal` as `marshal`.
unfoldable pub snapshot : (MetadataSnapshot → List ℕ) → ℕ → StateMachine → List ℕ
snapshot marshal now sm = marshal (snapshot_of now sm)

-- `Restore`, with `json.Unmarshal` as `unmarshal`.
unfoldable pub restore :
    (List ℕ → Option MetadataSnapshot) → List ℕ → StateMachine → StateMachine × Bool
restore unmarshal bytes sm = elim (unmarshal bytes) [
  | none ↦ (sm, false)
  | some s ↦ (
    record { files = s.files; chunks = s.chunks; datanodes = s.datanodes; version = s.version },
    true,
  )
]
