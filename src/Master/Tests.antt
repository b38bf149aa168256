-- ===== src/Master/Tests.antt =====
-- internal/master/master.go: the theorems at concrete inputs.
use lumeo_fs.Base.{
  ℕ, zero, suc, String, true, some, [], ◌∷◌, Dict, length, All, lookup, insert, mem_text, eq_iff,
  ◌≡◌, refl, arith, ℤ, pos,
}
use lumeo_fs.Common.{
  ReplicaRole, ReplicaStatus, NodeStatus, ReplicaInfo, ChunkInfo, DataNodeInfo, FileMetadata,
}
use lumeo_fs.Metadata.State.{make_replicas}
use lumeo_fs.Replicas.Manager.{
  mark_offline, need_primary_election, best_candidate, demote, promote, elect_new_primary,
  recover_replicas, handle_chunk_recovery, find_chunks_on_node, recover_all, handle_node_offline,
}
use lumeo_fs.Protocol.Messages.{AllocChunkRequest, PutFileRequest}
use lumeo_fs.Master.Health.{check_data_nodes_lem}
use lumeo_fs.Master.Files.{handle_get_file-handle_put_file}
use lumeo_fs.Master.State.{
  Master, new_master, succeeded, handle_put_file, handle_get_file, check_data_nodes, node_offline,
  register_data_node,
}
use lumeo_fs.Master.Alloc.{
  available, allocate_chunk, handle_alloc_chunk, replica_infos, set_role_requests,
}
use lumeo_fs.Master.Sizes.{Sized, total_size, handle_alloc_chunk-sizes}
use lumeo_fs.Master.Placement.{WellPlaced, handle_alloc_chunk-WellPlaced}
use lumeo_fs.Master.Recovered.{OnePrimary}
use lumeo_fs.Master.Steps.{begun, stepped, adds_node, loses, allocates, Reached-OnePrimary}
use lumeo_fs.Master.Roles.{Notified, handle_set_role-set_role_requests}
use lumeo_fs.DataNode.Handlers.{new_data_node}
use lumeo_fs.Wal.Log.{new_wal}

abbrev show_plain : String → ℤ → String
show_plain address port = address

abbrev name_chunk : String → ℕ → String
name_chunk file zero = "first"
name_chunk file (suc i) = "next"

abbrev refusal_text : ℕ → ℕ → String
refusal_text need have = "too few"

abbrev node_at : String → DataNodeInfo
node_at address = record {
  id = address;
  address = address;
  port = pos 80;
  total_space = pos 0;
  used_space = pos 0;
  chunk_count = pos 0;
  status = NodeStatus.online;
  last_heartbeat = 0;
}

abbrev two_nodes : Dict DataNodeInfo
two_nodes = ("a", node_at "a") ∷ ("b", node_at "b") ∷ []

abbrev small_cluster : Master
small_cluster = record (new_master 2 1000) { datanodes = two_nodes }

-- A file of two chunks.
abbrev alloc_request : AllocChunkRequest
alloc_request = record { request_id = "r"; file_id = "f"; file_size = pos 100000000 }

both_online : length (available ("b" ∷ "a" ∷ []) two_nodes) ≡ 2
unfolding available lookup
both_online = refl

handle_alloc_chunk-sizes_example :
    let resp =
      (handle_alloc_chunk show_plain name_chunk refusal_text 5
        ("b" ∷ "a" ∷ [])
        alloc_request
        small_cluster).1 in
    (resp.base.success ≡ true) × All Sized resp.chunks × (total_size resp.chunks ≡ 100000000)
handle_alloc_chunk-sizes_example =
    handle_alloc_chunk-sizes show_plain name_chunk refusal_text 5 ("b" ∷ "a" ∷ []) alloc_request
      small_cluster 100000000 refl (omega arith) (omega arith) (omega (arith, both_online))

handle_alloc_chunk-WellPlaced_example :
    All
      (λ p. WellPlaced 2 two_nodes p.1)
      (handle_alloc_chunk show_plain name_chunk refusal_text 5
        ("b" ∷ "a" ∷ [])
        alloc_request
        small_cluster).2
handle_alloc_chunk-WellPlaced_example =
    handle_alloc_chunk-WellPlaced show_plain name_chunk refusal_text 5 ("b" ∷ "a" ∷ [])
      alloc_request small_cluster (refl, (refl, tt)) (omega arith) (omega (arith, both_online))

-- A chunk is allocated on two nodes, and the node of its primary goes offline.
abbrev registered : Master
registered =
    register_data_node 1 (node_at "b") (register_data_node 1 (node_at "a") (new_master 2 1000))

abbrev recovered : Master
recovered = node_offline "a" (allocate_chunk 2 "c" ("a" ∷ "b" ∷ []) "f" (pos 10) registered).0

abbrev replica_on : String → ReplicaRole → ReplicaStatus → ReplicaInfo
replica_on node role status = record {
  chunk_id = "c";
  node_id = node;
  role = role;
  version = pos 0;
  checksum = "";
  status = status;
  update_time = 2;
}

abbrev recovered_chunk : ChunkInfo
recovered_chunk = record {
  id = "c";
  file_id = "f";
  index = pos 0;
  size = pos 10;
  checksum = "";
  replicas =
      replica_on "a" ReplicaRole.secondary ReplicaStatus.offline
      ∷ replica_on "b" ReplicaRole.primary ReplicaStatus.healthy
      ∷ [];
  create_time = 2;
}

recovered_has : lookup "c" recovered.chunks ≡ some recovered_chunk
unfolding lookup insert available allocate_chunk make_replicas handle_node_offline
    find_chunks_on_node recover_all handle_chunk_recovery recover_replicas mark_offline
    need_primary_election elect_new_primary best_candidate demote promote
recovered_has = refl

Reached-OnePrimary_example : OnePrimary recovered_chunk.replicas
Reached-OnePrimary_example =
    Reached-OnePrimary show_plain name_chunk refusal_text 2 1000 recovered "c" recovered_chunk
      (stepped
        (stepped (stepped (stepped begun (adds_node 1 (node_at "a"))) (adds_node 1 (node_at "b")))
          (allocates 2 "c" ("a" ∷ "b" ∷ []) "f" (pos 10)))
        (loses "a"))
      recovered_has

handle_set_role-set_role_requests_example :
    let infos = replica_infos show_plain two_nodes "PRIMARY" ("b" ∷ "a" ∷ []) in
    All
      (Notified show_plain two_nodes "c" "b" ("a" ∷ []) (new_data_node "b" "b" (new_wal []) []))
      (set_role_requests "id" "c" infos infos)
handle_set_role-set_role_requests_example =
    handle_set_role-set_role_requests show_plain two_nodes "id" "c" "b" ("a" ∷ [])
      (new_data_node "b" "b" (new_wal []) [])

-- The node "b" has sent its last heartbeat at the time 9000, the node "a" at the time 0.
abbrev late_cluster : Master
late_cluster = record (new_master 2 1000) {
  datanodes = ("a", node_at "a") ∷ ("b", record (node_at "b") { last_heartbeat = 9000 }) ∷ [];
}

check_data_nodes_lem_example :
    (mem_text "a" (check_data_nodes 10000 late_cluster).1 ≡ true)
    × (lookup "a" (check_data_nodes 10000 late_cluster).0.datanodes
        ≡ some (record (node_at "a") { status = NodeStatus.offline }))
unfolding lookup
check_data_nodes_lem_example =
    check_data_nodes_lem 10000 "a" (node_at "a") late_cluster (refl, (refl, tt)) refl

abbrev put_request : PutFileRequest
put_request = record {
  request_id = "r";
  file_name = "name";
  file_path = "/path";
  file_size = pos 10;
  checksum = "";
}

-- The new file is put where one with the same id was.
abbrev with_file : Master
with_file = (handle_put_file 3 "f" put_request (new_master 2 1000)).0

with_file-only :
    (j : String) (f : FileMetadata) → lookup j with_file.files ≡ some f → f.path ≡ "/path" → j ≡ "f"
unfolding handle_put_file insert lookup
with_file-only j f e p = ground (arith, eq_iff "f" j)

handle_get_file-handle_put_file_example :
    handle_get_file
      ("g" ∷ "f" ∷ [])
      (record { request_id = "q"; file_path = "/path" })
      (handle_put_file 4 "f" put_request with_file).0
    ≡ record { base = succeeded "q"; file_name = "name"; file_size = pos 10; bytes = [] }
handle_get_file-handle_put_file_example =
    handle_get_file-handle_put_file 4 "f" put_request "q" ("g" ∷ "f" ∷ []) with_file refl
      with_file-only
