-- ===== src/ClusterMaster/Handlers.antt =====
-- internal/master/cluster_master.go: the master on top of Raft. What `json.Marshal` makes of the value of
-- a command, the text of an address with its port, that of a chunk's id and that of an error are
-- parameters. A `ReplicaCount` is not negative, and the period is a number of milliseconds, of which
-- three are a `Duration` below 2 ^ 63 nanoseconds.
use lumeo_fs.Base.{
  ℕ, ◌*◌, String, Bool, false, not, ◌&&◌, ◌||◌, Option, none, some, List, [], ◌∷◌, map, ◌==◌,
  str_eq, if◌then◌else◌, ℤ, pos, ltb_ℤ, i64,
}
use Prim.Native.String.{◌++◌ as ◌^◌}
use lumeo_fs.Common.{is_online, DataNodeInfo}
use lumeo_fs.Raft.Types.{MetadataCommand}
use lumeo_fs.Raft.Types.{RaftNode}
use lumeo_fs.Raft.Log.{is_leader, get_leader_address, propose}
use lumeo_fs.Metadata.State.{
  StateMachine, RegisterNodeData, CreateFileData, AllocChunkData, update_node_heartbeat,
  set_node_offline,
}
use lumeo_fs.Metadata.Queries.{get_file_by_path, get_stats, list_data_nodes}
use lumeo_fs.Version.Lease.{since}
use lumeo_fs.Protocol.Messages.{
  Response, PutFileRequest, PutFileResponse, GetFileRequest, GetFileResponse, NodeReport,
  StatusResponse, RegisterRequest, HeartbeatRequest,
}
use lumeo_fs.Protocol.MsgType as MsgType
use lumeo_fs.Master.State.{succeeded}

-- `ClusterMaster`, with the parts of its configuration that decide what it does. Its replica manager
-- is not used.
pub record ClusterMaster : Type 0 where
  pub raft_node : RaftNode
  pub state_machine : StateMachine
  pub replica_count : ℕ
  pub heartbeat_period : ℕ

-- `json.Marshal` at the types of the values of commands.
pub record Encoders : Type 0 where
  pub register_node : RegisterNodeData → List ℕ
  pub create_file : CreateFileData → List ℕ
  pub alloc_chunk : AllocChunkData → List ℕ

-- `isWriteRequest`
abbrev pub is_write_request : ℕ → Bool
is_write_request type =
    type == MsgType.register
    || type == MsgType.put_file
    || type == MsgType.delete_file
    || type == MsgType.alloc_chunk

-- The test of `handleConnection` for a request that is sent to the leader.
abbrev pub must_redirect : ℕ → ClusterMaster → Bool
must_redirect type cm = not (is_leader cm.raft_node) && is_write_request type

-- `redirectToLeader`: the response, and the address of the leader that it has.
unfoldable pub redirect_to_leader : (String → ℕ → String) → ClusterMaster → Response × String
redirect_to_leader show cm =
    let address = get_leader_address show cm.raft_node in
    if str_eq address ""
    then (
      record {
        request_id = "";
        success = false;
        error = "no leader available, cluster may be electing";
      },
      "",
    )
    else (record { request_id = ""; success = false; error = "not leader" }, address)

-- `Propose`: the master, and the text of the error, if there is one.
abbrev pub submit : MetadataCommand → ClusterMaster → ClusterMaster × Option String
submit cmd cm = elim (propose cmd cm.raft_node) [
  | none ↦ (cm, some ("not leader, current leader: " ^ cm.raft_node.leader_id))
  | some rn ↦ (record cm { raft_node = rn }, none)
]

-- The response to a request whose command was proposed.
abbrev pub proposed : String → Option String → Response
proposed id none = succeeded id
proposed id (some err) = record { request_id = id; success = false; error = err }

-- The command of `handleRegister`.
abbrev pub register_command : Encoders → ℕ → RegisterRequest → MetadataCommand
register_command js now req = record {
  kind = "REGISTER_NODE";
  key = req.node_id;
  value = js.register_node (record {
    node_id = req.node_id;
    address = req.address;
    port = req.port;
    total_space = req.total_space;
    used_space = req.used_space;
  });
  timestamp = now;
}

-- `handleRegister`
unfoldable pub handle_register :
    Encoders → ℕ → RegisterRequest → ClusterMaster → ClusterMaster × Response
handle_register js now req cm =
    let (cm', err) = submit (register_command js now req) cm in (cm', proposed req.request_id err)

-- `handleHeartbeat`, which does not go through Raft.
unfoldable pub handle_heartbeat : ℕ → HeartbeatRequest → ClusterMaster → ClusterMaster × Response
handle_heartbeat now req cm = (
  record cm {
    state_machine =
        update_node_heartbeat now req.node_id req.chunk_count req.used_space cm.state_machine;
  },
  succeeded req.request_id,
)

-- The command of `handlePutFile`, with the id of the new file.
abbrev pub create_command : Encoders → ℕ → String → PutFileRequest → MetadataCommand
create_command js now id req = record {
  kind = "CREATE_FILE";
  key = id;
  value = js.create_file (record {
    file_id = id;
    file_name = req.file_name;
    file_path = req.file_path;
    file_size = req.file_size;
    checksum = req.checksum;
  });
  timestamp = now;
}

-- `handlePutFile`
unfoldable pub handle_put_file :
    Encoders → ℕ → String → PutFileRequest → ClusterMaster → ClusterMaster × PutFileResponse
handle_put_file js now id req cm =
    let (cm', err) = submit (create_command js now id req) cm in
    (cm', record { base = proposed req.request_id err; file_id = id; chunk_ids = [] })

-- `handleGetFile`
unfoldable pub handle_get_file : List String → GetFileRequest → ClusterMaster → GetFileResponse
handle_get_file order req cm = elim (get_file_by_path order req.file_path cm.state_machine) [
  | none ↦ record {
    base = record { request_id = req.request_id; success = false; error = "file not found" };
    file_name = "";
    file_size = pos 0;
    bytes = [];
  }
  | some f ↦ record {
    base = succeeded req.request_id;
    file_name = f.name;
    file_size = f.size;
    bytes = [];
  }
]

-- A node's part of the status.
abbrev pub node_report : (String → ℤ → String) → DataNodeInfo → NodeReport
node_report show n = record {
  node_id = n.id;
  address = show n.address n.port;
  status = if is_online n.status then "online" else "offline";
  chunk_count = n.chunk_count;
}

-- `handleGetStatus`, less what it takes over from `GetClusterInfo`, for the id of the request.
unfoldable pub handle_get_status :
    (String → ℤ → String) → List String → String → ClusterMaster → StatusResponse
handle_get_status show order request_id cm =
    let (files, chunks, nodes) = get_stats cm.state_machine in
    record {
      base = succeeded request_id;
      node_count = nodes;
      total_space = pos 0;
      used_space = pos 0;
      file_count = files;
      chunk_count = chunks;
      nodes = map (node_report show) (list_data_nodes order cm.state_machine);
    }

-- The loop of `checkDataNodes`; the nodes are looked at as they were before it.
unfoldable pub set_late_offline : ℕ → ℕ → List DataNodeInfo → StateMachine → StateMachine
set_late_offline now period [] sm = sm
set_late_offline now period (n ∷ ns) sm = set_late_offline now period ns (
    if is_online n.status && ltb_ℤ (i64 (period * 3 * 1000000)) (since now n.last_heartbeat)
    then set_node_offline n.id sm
    else sm)

-- `checkDataNodes`
unfoldable pub check_data_nodes : ℕ → List String → ClusterMaster → ClusterMaster
check_data_nodes now order cm =
    if is_leader cm.raft_node
    then record cm {
      state_machine =
          set_late_offline now cm.heartbeat_period (list_data_nodes order cm.state_machine)
            cm.state_machine;
    }
    else cm
