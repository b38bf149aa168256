-- ===== src/Master/Alloc.antt =====
-- internal/master/master.go: the allocation of chunks. The text of a chunk's id, `chunk_name`, and of
-- the error are parameters, and so is `show`, the text of an address with its port. A `ReplicaCount`
-- is not negative.
use lumeo_fs.Base.{
  ℕ, zero, suc, ◌+◌, ◌-◌, ◌*◌, ◌/◌, ◌%◌, min, String, true, false, not, none, some, List, [], ◌∷◌,
  ◌++◌, map, Dict, ltb, leb, ◌==◌, str_eq, if◌then◌else◌, length, get_elem?, take, lookup, insert,
  ℤ, pos, negsuc,
}
use lumeo_fs.Common.{ReplicaRole, is_online, ChunkInfo, DataNodeInfo}
use lumeo_fs.Metadata.State.{make_replicas}
use lumeo_fs.Protocol.Messages.{
  AllocChunkRequest, ChunkLocation, AllocChunkResponse, ReplicaNodeInfo, SetRoleRequest,
}
use lumeo_fs.Replication.Proxy.{dial_address}
use lumeo_fs.Master.State.{Master}

-- `selectNodesForReplica`, and the first loop of `handleAllocChunk`.
unfoldable pub available : List String → Dict DataNodeInfo → List String
available [] nodes = []
available (id ∷ ids) nodes = elim (lookup id nodes) [
  | none ↦ available ids nodes
  | some n ↦ if is_online n.status then id ∷ available ids nodes else available ids nodes
]

-- What `AllocateChunk` returns. `crashed` is the panic of `nodes[0]` when there are no nodes and the
-- replica count is zero.
pub data Allocation : Type 0 where
  allocated : ChunkInfo → Allocation
  insufficient : ℕ → ℕ → Allocation
  crashed : Allocation

-- `AllocateChunk` at the time `now`, with the id of the new chunk.
unfoldable pub allocate_chunk : ℕ → String → List String → String → ℤ → Master → Master × Allocation
allocate_chunk now id order file size m =
    let nodes = available order m.datanodes in
    if ltb (length nodes) m.replica_count
    then (m, insufficient m.replica_count (length nodes))
    else let chunk : ChunkInfo = record {
      id = id;
      file_id = file;
      index = pos 0;
      size = size;
      checksum = "";
      replicas = make_replicas now id ReplicaRole.primary (take m.replica_count nodes);
      create_time = now;
    } in
      (
        record m { chunks = insert id chunk m.chunks },
        elim nodes [ [] ↦ crashed | n ∷ ns ↦ allocated chunk ],
      )

-- `chunkSize`
abbrev pub chunk_size : ℕ
chunk_size = 67108864

-- The rounds of the loop over the chunks for a file of a size: `chunkCount`, where a negative one
-- makes none. The sum of the size and `chunkSize - 1` wraps around.
unfoldable pub chunk_count : ℤ → ℕ
chunk_count (pos n) =
    if not (ltb (n + 67108863) 9223372036854775808)
    then 0
    else if (n + 67108863) / chunk_size == 0
    then 1
    else (n + 67108863) / chunk_size
chunk_count (negsuc n) = if (n + 1 - 67108863) / chunk_size == 0 then 1 else 0

-- `req.FileSize - i*chunkSize`
abbrev pub rest_size : ℤ → ℕ → ℤ
rest_size (pos n) i =
    if leb (i * chunk_size) n then pos (n - i * chunk_size) else negsuc (i * chunk_size - n - 1)
rest_size (negsuc n) i = negsuc (n + i * chunk_size)

-- The size of chunk `i` of `n`.
unfoldable pub size_of : ℤ → ℕ → ℕ → ℤ
size_of size n i = if i + 1 == n then rest_size size i else pos chunk_size

-- The nodes of a chunk: the loop over `j`, for the number of rounds given.
unfoldable pub pick {ℓ} : {A : Type ℓ} → List A → ℕ → ℕ → ℕ → List A
pick nodes i j zero = []
pick nodes i j (suc rounds) = elim (get_elem? nodes ((i + j) % length nodes)) [
  | none ↦ pick nodes i (suc j) rounds
  | some n ↦ n ∷ pick nodes i (suc j) rounds
]

-- The address of a node.
abbrev pub node_address : (String → ℤ → String) → Dict DataNodeInfo → String → String
node_address show nodes id = elim (lookup id nodes) [ none ↦ "" | some n ↦ show n.address n.port ]

-- `replicaInfos`, from the first node on, whose role is given.
unfoldable pub replica_infos :
    (String → ℤ → String) → Dict DataNodeInfo → String → List String → List ReplicaNodeInfo
replica_infos show nodes role [] = []
replica_infos show nodes role (id ∷ ids) =
    record { node_id = id; address = node_address show nodes id; role = role }
    ∷ replica_infos show nodes "SECONDARY" ids

abbrev pub first_address : List ReplicaNodeInfo → String
first_address [] = ""
first_address (r ∷ rs) = r.address

-- A chunk's record in the metadata.
abbrev pub alloc_info : ℕ → String → String → ℕ → ℤ → List String → ChunkInfo
alloc_info now id file i size ids = record {
  id = id;
  file_id = file;
  index = pos i;
  size = size;
  checksum = "";
  replicas = make_replicas now id ReplicaRole.primary ids;
  create_time = now;
}

-- A chunk that is recorded, and added to its file where there is one.
unfoldable pub record_chunk : ChunkInfo → Master → Master
record_chunk c m =
    let m' = record m { chunks = insert c.id c m.chunks } in
    elim (lookup c.file_id m.files) [
      | none ↦ m'
      | some f ↦ record m' {
        files = insert c.file_id (record f { chunk_ids = f.chunk_ids ++ c.id ∷ [] }) m.files;
      }
    ]

-- What is told to the client about a chunk, and the replicas that `notifyNodesSetRole` is told.
abbrev pub Placed : Type 0
Placed = ChunkLocation × List ReplicaNodeInfo

module _ (show : String → ℤ → String) (chunk_name : String → ℕ → String) where
  -- One round of the loop over the chunks, for chunk `i` of `n`.
  unfoldable pub place_chunk :
      ℕ → List String → AllocChunkRequest → ℕ → ℕ → Master → Master × Placed
  place_chunk now nodes req n i m =
      let id = chunk_name req.file_id i in
      let size = size_of req.file_size n i in
      let ids = pick nodes i 0 (min m.replica_count (length nodes)) in
      let infos = replica_infos show m.datanodes "PRIMARY" ids in
      (
        record_chunk (alloc_info now id req.file_id i size ids) m,
        (
          record {
            chunk_id = id;
            index = i;
            size = size;
            nodes = map (λ r. r.address) infos;
            primary = first_address infos;
          },
          infos,
        ),
      )

  -- The loop from chunk `i` on, for the number of rounds given.
  unfoldable pub place_chunks :
      ℕ → List String → AllocChunkRequest → ℕ → ℕ → ℕ → Master → Master × List Placed
  place_chunks now nodes req n i zero m = (m, [])
  place_chunks now nodes req n i (suc rounds) m =
      let (m', placed) = place_chunk now nodes req n i m in
      let (m'', more) = place_chunks now nodes req n (suc i) rounds m' in (m'', placed ∷ more)

  -- `handleAllocChunk`: the master, the response, and the notifications that it starts.
  unfoldable pub handle_alloc_chunk :
      (ℕ → ℕ → String)
      → ℕ
      → List String
      → AllocChunkRequest
      → Master
      → Master × AllocChunkResponse × List (String × List ReplicaNodeInfo)
  handle_alloc_chunk refusal now order req m =
      let nodes = available order m.datanodes in
      if ltb (length nodes) m.replica_count
      then (
        m,
        record {
          base = record {
            request_id = req.request_id;
            success = false;
            error = refusal m.replica_count (length nodes);
          };
          chunks = [];
        },
        [],
      )
      else let n = chunk_count req.file_size in
        let (m', placed) = place_chunks now nodes req n 0 n m in
        (
          m',
          record {
            base = record { request_id = req.request_id; success = true; error = "" };
            chunks = map (λ p. p.0) placed;
          },
          map (λ p. (p.0.chunk_id, p.1)) placed,
        )

-- The primary that `sendSetRoleToNode` names.
unfoldable pub named_primary : List ReplicaNodeInfo → String
named_primary [] = ""
named_primary (r ∷ rs) = if str_eq r.role "PRIMARY" then r.address else named_primary rs

-- The requests of `notifyNodesSetRole`, each with the address that is dialled and the id given.
unfoldable pub set_role_requests :
    String → String → List ReplicaNodeInfo → List ReplicaNodeInfo → List (String × SetRoleRequest)
set_role_requests id chunk all [] = []
set_role_requests id chunk all (r ∷ rs) =
    (
      dial_address r.address,
      record {
        request_id = id;
        chunk_id = chunk;
        role = r.role;
        primary_node = named_primary all;
        replicas = all;
      },
    )
    ∷ set_role_requests id chunk all rs
