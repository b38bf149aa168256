-- ===== src/Master/Steps.antt =====
-- internal/master/master.go, internal/master/replica_manager.go: the operations of the master in any
-- order, and what they keep.
use lumeo_fs.Base.{
  ℕ, zero, suc, min, String, some, List, ltb, if◌then◌else◌, length, take, lookup, ◌≡◌, refl, sym,
  inl, inr, arith, Bool-cases, Option-cases, ℤ, pos,
}
use mathlib.Core.Path.{subst}
use lumeo_fs.Common.{ReplicaRole, DataNodeInfo, ChunkInfo}
use lumeo_fs.Metadata.State.{make_replicas}
use lumeo_fs.Protocol.Messages.{
  PutFileRequest, RegisterRequest, HeartbeatRequest, AllocChunkRequest,
}
use lumeo_fs.Replicas.Manager.{find_chunks_on_node, handle_chunk_recovery, handle_node_offline}
use lumeo_fs.Master.State.{
  Master, new_master, handle_put_file, check_data_nodes, node_offline, register_data_node,
  heartbeat, handle_register, handle_heartbeat,
}
use lumeo_fs.Master.Alloc.{
  available, allocate_chunk, chunk_count, size_of, pick, alloc_info, place_chunk, place_chunks,
  handle_alloc_chunk,
}
use lumeo_fs.Master.Recovered.{
  OnePrimary, AllOnePrimary, insert-OnePrimary, handle_chunk_recovery-OnePrimary,
  recover_all-OnePrimary, make_replicas-OnePrimary, record_chunk-OnePrimary,
}

module _ (show : String → ℤ → String) (chunk_name : String → ℕ → String)
    (refusal : ℕ → ℕ → String) where
  -- One operation of the master that changes its state, or a node that is found to be offline.
  pub data Step : Master → Master → Type 0 where
    puts :
        {m : Master} (now : ℕ) (id : String) (req : PutFileRequest)
        → Step m (handle_put_file now id req m).0
    registers :
        {m : Master} (now : ℕ) (req : RegisterRequest) → Step m (handle_register now req m).0
    adds_node :
        {m : Master} (now : ℕ) (info : DataNodeInfo) → Step m (register_data_node now info m)
    beats : {m : Master} (now : ℕ) (req : HeartbeatRequest) → Step m (handle_heartbeat now req m).0
    hears : {m : Master} (now : ℕ) (id : String) → Step m (heartbeat now id m).0
    checks : {m : Master} (now : ℕ) → Step m (check_data_nodes now m).0
    loses : {m : Master} (id : String) → Step m (node_offline id m)
    -- One round of the loop of `HandleNodeOffline`, which takes the lock for each chunk, so that
    -- other operations can come between.
    recovers :
        {m : Master} (node chunk : String)
        → Step m (record m { chunks = handle_chunk_recovery node chunk m.chunks })
    allocates :
        {m : Master} (now : ℕ) (id : String) (order : List String) (file : String) (size : ℤ)
        → Step m (allocate_chunk now id order file size m).0
    places :
        {m : Master} (now : ℕ) (order : List String) (req : AllocChunkRequest)
        → Step m (handle_alloc_chunk show chunk_name refusal now order req m).0

  -- What a master can come to.
  pub data Reached (start : Master) : Master → Type 0 where
    begun : Reached start start
    stepped : {m n : Master} → Reached start m → Step m n → Reached start n

  node_offline-OnePrimary :
      (id : String) (m : Master) → AllOnePrimary m.chunks → AllOnePrimary (node_offline id m).chunks
  unfolding handle_node_offline
  node_offline-OnePrimary id m all =
      recover_all-OnePrimary id (find_chunks_on_node id m.chunks) m.chunks all

  allocate_chunk-OnePrimary :
      (now : ℕ) (id : String) (order : List String) (file : String) (size : ℤ) (m : Master)
      → AllOnePrimary m.chunks
      → AllOnePrimary (allocate_chunk now id order file size m).0.chunks
  unfolding allocate_chunk
  allocate_chunk-OnePrimary now id order file size m all =
      let nodes = available order m.datanodes in
      elim (Bool-cases (ltb (length nodes) m.replica_count)) [
        | inl few ↦ rw (few, allocate_chunk, if◌then◌else◌) all
        | inr enough ↦
            rw (enough, allocate_chunk, if◌then◌else◌)
              (insert-OnePrimary id
                (record {
                  id = id;
                  file_id = file;
                  index = pos 0;
                  size = size;
                  checksum = "";
                  replicas = make_replicas now id ReplicaRole.primary (take m.replica_count nodes);
                  create_time = now;
                })
                m.chunks all (make_replicas-OnePrimary now id (take m.replica_count nodes)))
      ]

  place_chunks-OnePrimary :
      (now : ℕ) (nodes : List String) (req : AllocChunkRequest) (n i rounds : ℕ) (m : Master)
      → AllOnePrimary m.chunks
      → AllOnePrimary (place_chunks show chunk_name now nodes req n i rounds m).0.chunks
  unfolding place_chunks place_chunk
  place_chunks-OnePrimary now nodes req n i zero m all = all
  place_chunks-OnePrimary now nodes req n i (suc rounds) m all =
      let id = chunk_name req.file_id i in
      let ids = pick nodes i 0 (min m.replica_count (length nodes)) in
      let c = alloc_info now id req.file_id i (size_of req.file_size n i) ids in
      place_chunks-OnePrimary now nodes req n (suc i) rounds
        (place_chunk show chunk_name now nodes req n i m).0
        (record_chunk-OnePrimary c m all (make_replicas-OnePrimary now id ids))

  handle_alloc_chunk-OnePrimary :
      (now : ℕ) (order : List String) (req : AllocChunkRequest) (m : Master)
      → AllOnePrimary m.chunks
      → AllOnePrimary (handle_alloc_chunk show chunk_name refusal now order req m).0.chunks
  unfolding handle_alloc_chunk
  handle_alloc_chunk-OnePrimary now order req m all =
      let nodes = available order m.datanodes in
      let n = chunk_count req.file_size in
      elim (Bool-cases (ltb (length nodes) m.replica_count)) [
        | inl few ↦ rw (few, handle_alloc_chunk, if◌then◌else◌) all
        | inr enough ↦
            rw (enough, handle_alloc_chunk, if◌then◌else◌)
              (place_chunks-OnePrimary now nodes req n 0 n m all)
      ]

  -- The nodes do not decide what the chunks are.
  heartbeat-chunks : (now : ℕ) (id : String) (m : Master) → (heartbeat now id m).0.chunks ≡ m.chunks
  unfolding heartbeat
  heartbeat-chunks now id m = elim (Option-cases (lookup id m.datanodes)) [
    | inl n ↦ rw (n, heartbeat) refl
    | inr (d, e) ↦ rw (e, heartbeat) refl
  ]

  handle_heartbeat-chunks :
      (now : ℕ) (req : HeartbeatRequest) (m : Master)
      → (handle_heartbeat now req m).0.chunks ≡ m.chunks
  unfolding handle_heartbeat
  handle_heartbeat-chunks now req m = elim (Option-cases (lookup req.node_id m.datanodes)) [
    | inl n ↦ rw (n, handle_heartbeat) refl
    | inr (d, e) ↦ rw (e, handle_heartbeat) refl
  ]

  Step-OnePrimary : {m n : Master} → Step m n → AllOnePrimary m.chunks → AllOnePrimary n.chunks
  unfolding handle_put_file handle_register
  Step-OnePrimary {m} (puts now id req) all = all
  Step-OnePrimary {m} (registers now req) all = all
  Step-OnePrimary {m} (adds_node now info) all = all
  Step-OnePrimary {m} (beats now req) all =
      subst AllOnePrimary (sym (handle_heartbeat-chunks now req m)) all
  Step-OnePrimary {m} (hears now id) all = subst AllOnePrimary (sym (heartbeat-chunks now id m)) all
  Step-OnePrimary {m} (checks now) all = all
  Step-OnePrimary {m} (loses id) all = node_offline-OnePrimary id m all
  Step-OnePrimary {m} (recovers node chunk) all =
      handle_chunk_recovery-OnePrimary node chunk m.chunks all
  Step-OnePrimary {m} (allocates now id order file size) all =
      allocate_chunk-OnePrimary now id order file size m all
  Step-OnePrimary {m} (places now order req) all = handle_alloc_chunk-OnePrimary now order req m all

  Reached-AllOnePrimary :
      (replica_count period : ℕ) {m : Master}
      → Reached (new_master replica_count period) m
      → AllOnePrimary m.chunks
  unfolding lookup
  Reached-AllOnePrimary replica_count period begun = λ id c e. absurd (ground arith)
  Reached-AllOnePrimary replica_count period (stepped r s) =
      Step-OnePrimary s (Reached-AllOnePrimary replica_count period r)

  -- Whatever operations a new master has done, in whatever order, also between the chunks that are
  -- recovered when a node is offline, every chunk that has replicas has
  -- exactly one that is the primary.
  pub Reached-OnePrimary :
      (replica_count period : ℕ) (m : Master) (id : String) (c : ChunkInfo)
      → Reached (new_master replica_count period) m
      → lookup id m.chunks ≡ some c
      → OnePrimary c.replicas
  Reached-OnePrimary replica_count period m id c r =
      Reached-AllOnePrimary replica_count period r id c
