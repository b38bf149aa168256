-- ===== src/Replicas/Manager.antt =====
-- internal/master/replica_manager.go: `ReplicaManager`, on the map of the master's chunks.
use lumeo_fs.Base.{
  ℕ, zero, suc, ◌+◌, String, Bool, false, not, ◌&&◌, Option, none, some, List, [], ◌∷◌, Dict,
  str_eq, if◌then◌else◌, count, any, lookup, insert, ℤ, negsuc, ltb_ℤ,
}
use lumeo_fs.Common.{
  ReplicaRole, is_primary, is_secondary, ReplicaStatus, is_healthy, ReplicaInfo, ChunkInfo,
}

-- The replicas of the offline node are marked.
unfoldable pub mark_offline : String → List ReplicaInfo → List ReplicaInfo
mark_offline node [] = []
mark_offline node (r ∷ rs) =
    (if str_eq r.node_id node then record r { status = ReplicaStatus.offline } else r)
    ∷ mark_offline node rs

-- `needPrimaryElection`
unfoldable pub need_primary_election : String → List ReplicaInfo → Bool
need_primary_election node rs = any (λ r. str_eq r.node_id node && is_primary r.role) rs

-- A healthy secondary replica.
abbrev pub is_electable : ReplicaInfo → Bool
is_electable r = is_healthy r.status && is_secondary r.role

-- The loop of `electNewPrimary` from index `i` on: `bestCandidate`, where `none` is -1.
unfoldable pub best_candidate : ℕ → List ReplicaInfo → Option ℕ → ℤ → Option ℕ
best_candidate i [] best highest = best
best_candidate i (r ∷ rs) best highest =
    let rest = best_candidate (i + 1) rs best highest in
    if is_electable r && ltb_ℤ highest r.version
    then best_candidate (i + 1) rs (some i) r.version
    else rest

-- The old primary becomes a secondary replica.
unfoldable pub demote : List ReplicaInfo → List ReplicaInfo
demote [] = []
demote (r ∷ rs) =
    (if is_primary r.role then record r { role = ReplicaRole.secondary } else r) ∷ demote rs

-- The replica at an index becomes the primary.
unfoldable pub promote : ℕ → List ReplicaInfo → List ReplicaInfo
promote i [] = []
promote zero (r ∷ rs) = record r { role = ReplicaRole.primary } ∷ rs
promote (suc i) (r ∷ rs) = r ∷ promote i rs

-- `electNewPrimary`, on the replicas of a chunk.
unfoldable pub elect_new_primary : List ReplicaInfo → List ReplicaInfo
elect_new_primary rs = elim (best_candidate 0 rs none (negsuc 0)) [
  | none ↦ rs
  | some i ↦ promote i (demote rs)
]

-- `handleChunkRecovery`, on the replicas of a chunk that is there. Too few healthy replicas are
-- only logged.
unfoldable pub recover_replicas : String → List ReplicaInfo → List ReplicaInfo
recover_replicas node rs =
    let marked = mark_offline node rs in
    if need_primary_election node rs then elect_new_primary marked else marked

-- `handleChunkRecovery`
unfoldable pub handle_chunk_recovery : String → String → Dict ChunkInfo → Dict ChunkInfo
handle_chunk_recovery node chunk chunks = elim (lookup chunk chunks) [
  | none ↦ chunks
  | some c ↦ insert chunk (record c { replicas = recover_replicas node c.replicas }) chunks
]

-- `findChunksOnNode`
unfoldable pub find_chunks_on_node : String → Dict ChunkInfo → List String
find_chunks_on_node node [] = []
find_chunks_on_node node ((id, c) ∷ chunks) =
    if any (λ r. str_eq r.node_id node) c.replicas
    then id ∷ find_chunks_on_node node chunks
    else find_chunks_on_node node chunks

-- The loop of `HandleNodeOffline`.
unfoldable pub recover_all : String → List String → Dict ChunkInfo → Dict ChunkInfo
recover_all node [] chunks = chunks
recover_all node (id ∷ ids) chunks = recover_all node ids (handle_chunk_recovery node id chunks)

-- `HandleNodeOffline`
unfoldable pub handle_node_offline : String → Dict ChunkInfo → Dict ChunkInfo
handle_node_offline node chunks = recover_all node (find_chunks_on_node node chunks) chunks

-- `countHealthyReplicas`
abbrev pub count_healthy_replicas : List ReplicaInfo → ℕ
count_healthy_replicas rs = count (λ r. is_healthy r.status) rs

-- The checksums that `VerifyReplicaConsistency` compares.
unfoldable pub healthy_checksums : List ReplicaInfo → List String
healthy_checksums [] = []
healthy_checksums (r ∷ rs) =
    if is_healthy r.status then r.checksum ∷ healthy_checksums rs else healthy_checksums rs

-- `VerifyReplicaConsistency`; the error is always nil.
unfoldable pub verify_replica_consistency : String → Dict ChunkInfo → Bool
verify_replica_consistency chunk chunks = elim (lookup chunk chunks) [
  | none ↦ false
  | some c ↦ elim (healthy_checksums c.replicas) [
    | [] ↦ false
    | first ∷ rest ↦ not (any (λ s. not (str_eq s first)) rest)
  ]
]
