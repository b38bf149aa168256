-- ===== src/ClusterMaster/Tests.antt =====
-- internal/master/cluster_master.go: the theorem at a concrete input.
use lumeo_fs.Base.{
  ℕ, zero, suc, min, String, true, false, Option, none, some, List, [], ◌∷◌, ◌++◌, map, Dict,
  length, lookup, ◌≡◌, refl, arith, eq_iff, ℤ, pos, pos_part,
}
use lumeo_fs.Common.{NodeStatus, DataNodeInfo}
use lumeo_fs.Raft.Types.{NodeState, RaftNode, MetadataCommand}
use lumeo_fs.Metadata.State.{new_state_machine, AllocChunkData, Decoders}
use lumeo_fs.Metadata.Queries.{get_online_nodes}
use lumeo_fs.Protocol.Messages.{AllocChunkRequest}
use lumeo_fs.Master.Alloc as Plain
use lumeo_fs.Master.Alloc.{chunk_count}
use lumeo_fs.ClusterMaster.Handlers.{ClusterMaster, Encoders}
use lumeo_fs.ClusterMaster.Alloc.{handle_alloc_chunk, alloc_data}
use lumeo_fs.ClusterMaster.Picked.{Keyed}
use lumeo_fs.ClusterMaster.Applied.{as_master, apply_all}
use lumeo_fs.ClusterMaster.Refines.{logged_commands, handle_alloc_chunk-apply_all}

abbrev show_plain : String → ℤ → String
show_plain address port = address

abbrev name_chunk : String → ℕ → String
name_chunk file zero = "first"
name_chunk file (suc i) = "next"

abbrev refusal_text : ℕ → ℕ → String
refusal_text need have = "too few"

abbrev node_at : String → DataNodeInfo
node_at address = record {
  id = address;
  address = address;
  port = pos 80;
  total_space = pos 0;
  used_space = pos 0;
  chunk_count = pos 0;
  status = NodeStatus.online;
  last_heartbeat = 0;
}

abbrev two_nodes : Dict DataNodeInfo
two_nodes = ("a", node_at "a") ∷ ("b", node_at "b") ∷ []

abbrev leader : RaftNode
leader = record {
  config = record { node_id = "n1"; address = "n1"; port = 9000; peers = [] };
  current_term = 1;
  voted_for = "n1";
  log = record { index = 0; term = 0; command = none } ∷ [];
  state = NodeState.leader;
  commit_index = 0;
  last_applied = 0;
  next_index = [];
  match_index = [];
  leader_id = "n1";
  last_heartbeat = 0;
  peers = [];
  apply_c = [];
  election_timer = false;
  heartbeat_timer = true;
}

abbrev cluster : ClusterMaster
cluster = record {
  raft_node = leader;
  state_machine = record new_state_machine { datanodes = two_nodes };
  replica_count = 2;
  heartbeat_period = 1000;
}

-- A file of two chunks.
abbrev alloc_request : AllocChunkRequest
alloc_request = record { request_id = "r"; file_id = "f"; file_size = pos 100000000 }

-- A codec of the two commands by the index of the chunk.
abbrev encode_index : Encoders
encode_index = record {
  register_node = λ d. [];
  create_file = λ d. [];
  alloc_chunk = λ d. pos_part d.index ∷ [];
}

abbrev decode_index : (ℕ → AllocChunkData) → List ℕ → Option AllocChunkData
decode_index at [] = none
decode_index at (i ∷ rest) = some (at i)

abbrev decoders : Decoders
decoders = record {
  register_node = λ b. none;
  create_file = λ b. none;
  alloc_chunk = decode_index (λ i.
      let nodes = get_online_nodes ("b" ∷ "a" ∷ []) cluster.state_machine in
      alloc_data show_plain name_chunk encode_index alloc_request (chunk_count (pos 100000000)) i
        (Plain.pick nodes i 0 (min 2 (length nodes))));
  update_chunk = λ b. none;
}

two_nodes-Keyed : Keyed two_nodes
unfolding lookup
two_nodes-Keyed id n e = ground (arith, eq_iff "a" id, eq_iff "b" id)

handle_alloc_chunk-apply_all_example :
    let done =
      handle_alloc_chunk show_plain name_chunk encode_index refusal_text 5
        ("b" ∷ "a" ∷ [])
        alloc_request
        cluster in
    let plain =
      Plain.handle_alloc_chunk show_plain name_chunk refusal_text 5
        ("b" ∷ "a" ∷ [])
        alloc_request
        (as_master 2 1000 cluster.state_machine) in
    (cmds : List MetadataCommand) × (logged_commands done.0.raft_node
      ≡ logged_commands leader ++ map some cmds)
    × (as_master 2 1000 (apply_all decoders 5 cmds cluster.state_machine) ≡ plain.0)
    × (done.1 ≡ plain.1)
handle_alloc_chunk-apply_all_example =
    handle_alloc_chunk-apply_all show_plain name_chunk encode_index decoders 1000 5 alloc_request
      refusal_text ("b" ∷ "a" ∷ []) cluster refl two_nodes-Keyed (λ i. refl)
