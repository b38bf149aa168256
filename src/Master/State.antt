-- ===== src/Master/State.antt =====
-- internal/master/master.go: the state of the master and its operations on nodes and files. A map is
-- visited in an order that Go does not fix: `order` holds the keys in the order of that visit. The
-- heartbeat period is not negative, and three of them are a number of nanoseconds below 2 ^ 63. The
-- text of an address with its port, `show`, is a parameter.
use lumeo_fs.Base.{
  ℕ, ◌*◌, String, Bool, true, false, not, ◌&&◌, ◌||◌, Option, none, some, List, [], ◌∷◌, Dict,
  str_eq, if◌then◌else◌, length, lookup, insert, ℤ, pos, ltb_ℤ, i64,
}
use lumeo_fs.Common.{
  NodeStatus, is_online, is_primary, ReplicaInfo, ChunkInfo, DataNodeInfo, FileMetadata,
}
use lumeo_fs.Version.Lease.{since}
use lumeo_fs.Protocol.Messages.{
  Response, PutFileRequest, PutFileResponse, GetFileRequest, GetFileResponse, NodeReport,
  StatusResponse, RegisterRequest, HeartbeatRequest,
}
use lumeo_fs.Replicas.Manager.{handle_node_offline}

-- `Master`, with the parts of its configuration that decide what it does, and its replica manager,
-- which has no other state. The values stand behind the pointers of its maps.
pub record Master : Type 0 where
  pub files : Dict FileMetadata
  pub chunks : Dict ChunkInfo
  pub datanodes : Dict DataNodeInfo
  pub replica_count : ℕ
  pub heartbeat_period : ℕ

-- `NewMaster`
abbrev pub new_master : ℕ → ℕ → Master
new_master replica_count period = record {
  files = [];
  chunks = [];
  datanodes = [];
  replica_count = replica_count;
  heartbeat_period = period;
}

abbrev pub succeeded : String → Response
succeeded id = record { request_id = id; success = true; error = "" }

-- `handlePutFile` at the time `now`, with the id of the new file.
unfoldable pub handle_put_file : ℕ → String → PutFileRequest → Master → Master × PutFileResponse
handle_put_file now id req m = (
  record m {
    files =
        insert id
          (record {
            id = id;
            name = req.file_name;
            path = req.file_path;
            size = req.file_size;
            chunk_ids = [];
            create_time = now;
            modify_time = now;
          })
          m.files;
  },
  record { base = succeeded req.request_id; file_id = id; chunk_ids = [] },
)

-- The loop of `handleGetFile`.
unfoldable pub find_path : String → List String → Dict FileMetadata → Option FileMetadata
find_path path [] files = none
find_path path (id ∷ ids) files = elim (lookup id files) [
  | none ↦ find_path path ids files
  | some f ↦ if str_eq f.path path then some f else find_path path ids files
]

-- `handleGetFile`
unfoldable pub handle_get_file : List String → GetFileRequest → Master → GetFileResponse
handle_get_file order req m = elim (find_path req.file_path order m.files) [
  | none ↦ record {
    base = record { request_id = req.request_id; success = false; error = "file not found" };
    file_name = "";
    file_size = pos 0;
    bytes = [];
  }
  | some f ↦ record {
    base = succeeded req.request_id;
    file_name = f.name;
    file_size = f.size;
    bytes = [];
  }
]

-- The loop of `handleGetStatus`.
unfoldable pub node_reports :
    (String → ℤ → String) → List String → Dict DataNodeInfo → List NodeReport
node_reports show [] nodes = []
node_reports show (id ∷ ids) nodes = elim (lookup id nodes) [
  | none ↦ node_reports show ids nodes
  | some n ↦
      record {
        node_id = id;
        address = show n.address n.port;
        status = if is_online n.status then "online" else "offline";
        chunk_count = n.chunk_count;
      }
      ∷ node_reports show ids nodes
]

-- `handleGetStatus`, for the id of the request, which stays empty where it cannot be decoded.
unfoldable pub handle_get_status :
    (String → ℤ → String) → List String → String → Master → StatusResponse
handle_get_status show order request_id m = record {
  base = succeeded request_id;
  node_count = length m.datanodes;
  total_space = pos 0;
  used_space = pos 0;
  file_count = length m.files;
  chunk_count = length m.chunks;
  nodes = node_reports show order m.datanodes;
}

-- The loop of `handleListDir`: name, size and path of a file. `dir` is `filepath.Dir`.
unfoldable pub list_dir :
    (String → String) → String → List String → Dict FileMetadata → List (String × ℤ × String)
list_dir dir path [] files = []
list_dir dir path (id ∷ ids) files = elim (lookup id files) [
  | none ↦ list_dir dir path ids files
  | some f ↦
      if str_eq (dir f.path) path || str_eq path "/"
      then (f.name, f.size, f.path) ∷ list_dir dir path ids files
      else list_dir dir path ids files
]

-- The test of `checkDataNodes` on a node: its heartbeat is late, and it counts as online.
abbrev pub is_late : ℕ → ℕ → DataNodeInfo → Bool
is_late now period n = ltb_ℤ (i64 (period * 3)) (since now n.last_heartbeat) && is_online n.status

-- The loop of `checkDataNodes`: the nodes after it.
unfoldable pub mark_late : ℕ → ℕ → Dict DataNodeInfo → Dict DataNodeInfo
mark_late now period [] = []
mark_late now period ((id, n) ∷ nodes) =
    (id, if is_late now period n then record n { status = NodeStatus.offline } else n)
    ∷ mark_late now period nodes

-- The nodes for which the loop starts `HandleNodeOffline`.
unfoldable pub late_nodes : ℕ → ℕ → Dict DataNodeInfo → List String
late_nodes now period [] = []
late_nodes now period ((id, n) ∷ nodes) =
    if is_late now period n then id ∷ late_nodes now period nodes else late_nodes now period nodes

-- `checkDataNodes`; each of the nodes is handled by a goroutine of its own, by `HandleNodeOffline`.
abbrev pub check_data_nodes : ℕ → Master → Master × List String
check_data_nodes now m = (
  record m { datanodes = mark_late now m.heartbeat_period m.datanodes },
  late_nodes now m.heartbeat_period m.datanodes,
)

-- `HandleNodeOffline`, on the chunks of the master, with no other operation between two chunks.
abbrev pub node_offline : String → Master → Master
node_offline id m = record m { chunks = handle_node_offline id m.chunks }

-- `RegisterDataNode`
abbrev pub register_data_node : ℕ → DataNodeInfo → Master → Master
register_data_node now info m = record m {
  datanodes =
      insert info.id (record info { status = NodeStatus.online; last_heartbeat = now }) m.datanodes;
}

-- `Heartbeat`: the master, and whether the node is known.
unfoldable pub heartbeat : ℕ → String → Master → Master × Bool
heartbeat now id m = elim (lookup id m.datanodes) [
  | none ↦ (m, false)
  | some n ↦ (
    record m {
      datanodes =
          insert id
            (record n {
              last_heartbeat = now;
              status = if not (is_online n.status) then NodeStatus.online else n.status;
            })
            m.datanodes;
    },
    true,
  )
]

-- `handleRegister`
unfoldable pub handle_register : ℕ → RegisterRequest → Master → Master × Response
handle_register now req m = (
  record m {
    datanodes =
        insert req.node_id
          (record {
            id = req.node_id;
            address = req.address;
            port = req.port;
            total_space = req.total_space;
            used_space = req.used_space;
            chunk_count = pos 0;
            status = NodeStatus.online;
            last_heartbeat = now;
          })
          m.datanodes;
  },
  succeeded req.request_id,
)

-- `handleHeartbeat`
unfoldable pub handle_heartbeat : ℕ → HeartbeatRequest → Master → Master × Response
handle_heartbeat now req m = (
  elim (lookup req.node_id m.datanodes) [
    | none ↦ m
    | some n ↦ record m {
      datanodes =
          insert req.node_id
            (record n {
              last_heartbeat = now;
              chunk_count = req.chunk_count;
              used_space = req.used_space;
              status = if not (is_online n.status) then NodeStatus.online else n.status;
            })
            m.datanodes;
    }
  ],
  succeeded req.request_id,
)

-- `GetChunkInfo`; `none` is the error.
abbrev pub get_chunk_info : String → Master → Option ChunkInfo
get_chunk_info id m = lookup id m.chunks

-- The loop of `GetPrimaryNode`.
unfoldable pub primary_of : List ReplicaInfo → Option String
primary_of [] = none
primary_of (r ∷ rs) = if is_primary r.role then some r.node_id else primary_of rs

-- `GetPrimaryNode`; `none` is one of its errors.
abbrev pub get_primary_node : String → Master → Option String
get_primary_node id m = elim (lookup id m.chunks) [ none ↦ none | some c ↦ primary_of c.replicas ]

-- `GetDataNodeInfo`; `none` is the error.
abbrev pub get_data_node_info : String → Master → Option DataNodeInfo
get_data_node_info id m = lookup id m.datanodes
