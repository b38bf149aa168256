-- ===== src/Replicas/Tests.antt =====
-- internal/master/replica_manager.go: a chunk on three nodes, the first of which goes offline.
use lumeo_fs.Base.{
  ℕ, String, true, some, List, [], ◌∷◌, get_elem?, count, lookup, insert, ◌≡◌, refl, ◌≢◌, arith,
  eq_iff, pos, ◌≤ℤ◌,
}
use lumeo_fs.Common.{ReplicaRole, is_primary, ReplicaStatus, ReplicaInfo, ChunkInfo}
use lumeo_fs.Replicas.Manager.{
  mark_offline, need_primary_election, is_electable, best_candidate, demote, promote,
  elect_new_primary, recover_replicas, handle_chunk_recovery, find_chunks_on_node, recover_all,
  handle_node_offline, healthy_checksums, verify_replica_consistency,
}
use lumeo_fs.Replicas.Primary.{recover_replicas-primary}

abbrev replica : String → ReplicaRole → ℕ → ReplicaInfo
replica node role version = record {
  chunk_id = "c";
  node_id = node;
  role = role;
  version = pos version;
  checksum = "";
  status = ReplicaStatus.healthy;
  update_time = 0;
}

abbrev three : List ReplicaInfo
three =
    replica "d1" ReplicaRole.primary 4
    ∷ replica "d2" ReplicaRole.secondary 3
    ∷ replica "d3" ReplicaRole.secondary 4
    ∷ []

abbrev chunk : ChunkInfo
chunk = record {
  id = "c";
  file_id = "f";
  index = pos 0;
  size = pos 1;
  checksum = "";
  replicas = three;
  create_time = 0;
}

code : Unit {0}
unfolding lookup insert mark_offline need_primary_election best_candidate demote promote
    elect_new_primary recover_replicas handle_chunk_recovery find_chunks_on_node recover_all
    handle_node_offline healthy_checksums verify_replica_consistency
code = tt

needed : need_primary_election "d1" three ≡ true
unfolding code
needed = refl

-- The replica of the higher version is the new primary.
recovered :
    handle_node_offline "d1" (("c", chunk) ∷ [])
    ≡ (
      "c",
      record chunk {
        replicas =
            record (replica "d1" ReplicaRole.secondary 4) { status = ReplicaStatus.offline }
            ∷ replica "d2" ReplicaRole.secondary 3
            ∷ replica "d3" ReplicaRole.primary 4
            ∷ [];
      },
    )
      ∷ []
unfolding code
recovered = refl

consistent : verify_replica_consistency "c" (("c", chunk) ∷ []) ≡ true
unfolding code
consistent = refl

recover_replicas-primary_example :
    (count (λ r. is_primary r.role) (recover_replicas "d1" three) ≡ 1)
    × (k : ℕ) × (r : ReplicaInfo) × (get_elem? three k ≡ some r)
    × (is_electable r ≡ true)
    × (r.node_id ≢ "d1")
    × (pos 3 ≤ℤ r.version)
    × (get_elem? (recover_replicas "d1" three) k ≡ some (record r { role = ReplicaRole.primary }))
recover_replicas-primary_example =
    recover_replicas-primary "d1" three 1 (replica "d2" ReplicaRole.secondary 3) needed refl refl
      (λ e. absurd (ground (arith, eq_iff "d2" "d1"))) (omega arith)
