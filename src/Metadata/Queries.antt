-- ===== src/Metadata/Queries.antt =====
-- internal/raft/state_machine.go: the queries. A map is visited in an order that Go does not fix:
-- `order` holds its keys in the order of that visit. A missing key gives nil, here `none`.
use lumeo_fs.Base.{
  ℕ, String, Option, none, some, List, [], ◌∷◌, Dict, str_eq, if◌then◌else◌, length, count, lookup,
  values,
}
use lumeo_fs.Common.{is_online, ChunkInfo, DataNodeInfo, FileMetadata}
use lumeo_fs.Metadata.State.{StateMachine}

-- `GetFile`
abbrev pub get_file : String → StateMachine → Option FileMetadata
get_file id sm = lookup id sm.files

-- `GetChunk`
abbrev pub get_chunk : String → StateMachine → Option ChunkInfo
get_chunk id sm = lookup id sm.chunks

-- `GetDataNode`
abbrev pub get_data_node : String → StateMachine → Option DataNodeInfo
get_data_node id sm = lookup id sm.datanodes

-- The values of a map, in the order of a visit.
unfoldable pub visit {ℓ} : {V : Type ℓ} → List String → Dict V → List V
visit [] m = []
visit (id ∷ ids) m = elim (lookup id m) [ none ↦ visit ids m | some v ↦ v ∷ visit ids m ]

-- The loop of `GetFileByPath`.
unfoldable pub first_at : String → List FileMetadata → Option FileMetadata
first_at path [] = none
first_at path (f ∷ fs) = if str_eq f.path path then some f else first_at path fs

-- `GetFileByPath`
abbrev pub get_file_by_path : List String → String → StateMachine → Option FileMetadata
get_file_by_path order path sm = first_at path (visit order sm.files)

-- The loop of `GetOnlineNodes`.
unfoldable pub online_of : List DataNodeInfo → List DataNodeInfo
online_of [] = []
online_of (n ∷ ns) = if is_online n.status then n ∷ online_of ns else online_of ns

-- `GetOnlineNodes`
abbrev pub get_online_nodes : List String → StateMachine → List DataNodeInfo
get_online_nodes order sm = online_of (visit order sm.datanodes)

-- `GetStats`: the numbers of files, of chunks, and of nodes that are online.
abbrev pub get_stats : StateMachine → ℕ × ℕ × ℕ
get_stats sm =
    (length sm.files, length sm.chunks, count (λ n. is_online n.status) (values sm.datanodes))

-- `ListFiles`
abbrev pub list_files : List String → StateMachine → List FileMetadata
list_files order sm = visit order sm.files

-- `ListDataNodes`
abbrev pub list_data_nodes : List String → StateMachine → List DataNodeInfo
list_data_nodes order sm = visit order sm.datanodes
