-- ===== src/ClusterMaster/Alloc.antt =====
-- internal/master/cluster_master.go: the allocation of chunks through Raft. The text of a chunk's id and
-- that of the error are parameters.
use lumeo_fs.Base.{
  ℕ, zero, suc, min, String, true, false, none, some, List, [], ◌∷◌, map, ltb, if◌then◌else◌,
  length, ℤ, pos,
}
use lumeo_fs.Common.{DataNodeInfo}
use lumeo_fs.Raft.Types.{MetadataCommand}
use lumeo_fs.Raft.Types.{RaftNode}
use lumeo_fs.Raft.Log.{propose}
use lumeo_fs.Metadata.State.{AllocChunkData}
use lumeo_fs.Metadata.Queries.{get_online_nodes}
use lumeo_fs.Protocol.Messages.{AllocChunkRequest, ChunkLocation, AllocChunkResponse}
use lumeo_fs.Master.Alloc.{chunk_count, size_of, pick}
use lumeo_fs.ClusterMaster.Handlers.{ClusterMaster, Encoders}

abbrev pub first_or_empty : List String → String
first_or_empty [] = ""
first_or_empty (a ∷ rest) = a

-- `Propose`, whose error is not looked at.
abbrev pub propose_or_skip : MetadataCommand → RaftNode → RaftNode
propose_or_skip cmd rn = elim (propose cmd rn) [ none ↦ rn | some rn' ↦ rn' ]

-- The commands are proposed one after the other.
unfoldable pub propose_all : List (MetadataCommand × ChunkLocation) → RaftNode → RaftNode
propose_all [] rn = rn
propose_all ((cmd, loc) ∷ cmds) rn = propose_all cmds (propose_or_skip cmd rn)

module _ (show : String → ℤ → String) (chunk_name : String → ℕ → String) (js : Encoders) where
  -- The data of the command for chunk `i` of `n`, with the nodes that are picked for it.
  abbrev pub alloc_data : AllocChunkRequest → ℕ → ℕ → List DataNodeInfo → AllocChunkData
  alloc_data req n i picked = record {
    chunk_id = chunk_name req.file_id i;
    file_id = req.file_id;
    index = pos i;
    size = size_of req.file_size n i;
    replicas = map (λ x. x.id) picked;
  }

  -- The command.
  abbrev pub alloc_command : ℕ → AllocChunkData → MetadataCommand
  alloc_command now d = record {
    kind = "ALLOC_CHUNK";
    key = d.chunk_id;
    value = js.alloc_chunk d;
    timestamp = now;
  }

  -- What the client is told.
  abbrev pub location : AllocChunkRequest → ℕ → ℕ → List DataNodeInfo → ChunkLocation
  location req n i picked =
      let addresses = map (λ x. show x.address x.port) picked in
      record {
        chunk_id = chunk_name req.file_id i;
        index = i;
        size = size_of req.file_size n i;
        nodes = addresses;
        primary = first_or_empty addresses;
      }

  -- The loop over the chunks from chunk `i` on, for the number of rounds given: the commands that are
  -- proposed, and the locations.
  unfoldable pub alloc_commands :
      ℕ
      → List DataNodeInfo
      → ℕ
      → AllocChunkRequest
      → ℕ
      → ℕ
      → ℕ
      → List (MetadataCommand × ChunkLocation)
  alloc_commands now nodes replica_count req n i zero = []
  alloc_commands now nodes replica_count req n i (suc rounds) =
      let picked = pick nodes i 0 (min replica_count (length nodes)) in
      (alloc_command now (alloc_data req n i picked), location req n i picked)
      ∷ alloc_commands now nodes replica_count req n (suc i) rounds

  -- `handleAllocChunk`, with no other operation of the node between two of its calls of `Propose`.
  unfoldable pub handle_alloc_chunk :
      (ℕ → ℕ → String)
      → ℕ
      → List String
      → AllocChunkRequest
      → ClusterMaster
      → ClusterMaster × AllocChunkResponse
  handle_alloc_chunk refusal now order req cm =
      let nodes = get_online_nodes order cm.state_machine in
      if ltb (length nodes) cm.replica_count
      then (
        cm,
        record {
          base = record {
            request_id = req.request_id;
            success = false;
            error = refusal cm.replica_count (length nodes);
          };
          chunks = [];
        },
      )
      else let n = chunk_count req.file_size in
        let cmds = alloc_commands now nodes cm.replica_count req n 0 n in
        (
          record cm { raft_node = propose_all cmds cm.raft_node },
          record {
            base = record { request_id = req.request_id; success = true; error = "" };
            chunks = map (λ c. c.1) cmds;
          },
        )
