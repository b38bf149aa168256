-- ===== src/Protocol/Messages.antt =====
-- pkg/protocol/protocol.go: the messages. An embedded `Request` is the field of its one field, and an
-- embedded `Response` is the field `base`. A field that may be left out of the JSON text is a field.
use lumeo_fs.Base.{ℕ, String, Bool, List, Dict, ℤ}

-- `Message`; the type is a byte.
pub record Message : Type 0 where
  pub type : ℕ
  pub payload : List ℕ

-- `Response`
pub record Response : Type 0 where
  pub request_id : String
  pub success : Bool
  pub error : String

-- `PutFileRequest`
pub record PutFileRequest : Type 0 where
  pub request_id : String
  pub file_name : String
  pub file_path : String
  pub file_size : ℤ
  pub checksum : String

-- `PutFileResponse`
pub record PutFileResponse : Type 0 where
  pub base : Response
  pub file_id : String
  pub chunk_ids : List String

-- `GetFileRequest`
pub record GetFileRequest : Type 0 where
  pub request_id : String
  pub file_path : String

-- `GetFileResponse`
pub record GetFileResponse : Type 0 where
  pub base : Response
  pub file_name : String
  pub file_size : ℤ
  pub bytes : List ℕ

-- `NodeStatus`
pub record NodeReport : Type 0 where
  pub node_id : String
  pub address : String
  pub status : String
  pub chunk_count : ℤ

-- `StatusResponse`
pub record StatusResponse : Type 0 where
  pub base : Response
  pub node_count : ℕ
  pub total_space : ℤ
  pub used_space : ℤ
  pub file_count : ℕ
  pub chunk_count : ℕ
  pub nodes : List NodeReport

-- `RegisterRequest`
pub record RegisterRequest : Type 0 where
  pub request_id : String
  pub node_id : String
  pub address : String
  pub port : ℤ
  pub total_space : ℤ
  pub used_space : ℤ

-- `HeartbeatRequest`
pub record HeartbeatRequest : Type 0 where
  pub request_id : String
  pub node_id : String
  pub chunk_count : ℤ
  pub used_space : ℤ

-- `AllocChunkRequest`
pub record AllocChunkRequest : Type 0 where
  pub request_id : String
  pub file_id : String
  pub file_size : ℤ

-- `ChunkLocation`
pub record ChunkLocation : Type 0 where
  pub chunk_id : String
  pub index : ℕ
  pub size : ℤ
  pub nodes : List String
  pub primary : String

-- `AllocChunkResponse`
pub record AllocChunkResponse : Type 0 where
  pub base : Response
  pub chunks : List ChunkLocation

-- `WriteChunkRequest`
pub record WriteChunkRequest : Type 0 where
  pub request_id : String
  pub chunk_id : String
  pub bytes : List ℕ
  pub offset : ℤ
  pub checksum : String

-- `WriteChunkResponse`
pub record WriteChunkResponse : Type 0 where
  pub base : Response
  pub version : ℤ

-- `ReadChunkRequest`
pub record ReadChunkRequest : Type 0 where
  pub request_id : String
  pub chunk_id : String
  pub offset : ℤ
  pub length : ℤ

-- `ReadChunkResponse`
pub record ReadChunkResponse : Type 0 where
  pub base : Response
  pub bytes : List ℕ
  pub checksum : String
  pub version : ℤ

-- `SyncChunkRequest`
pub record SyncChunkRequest : Type 0 where
  pub request_id : String
  pub chunk_id : String
  pub bytes : List ℕ
  pub offset : ℤ
  pub checksum : String
  pub version : ℤ
  pub vector_clock : Dict ℕ
  pub timestamp : ℕ
  pub source_node_id : String

-- `SyncChunkResponse`
pub record SyncChunkResponse : Type 0 where
  pub base : Response
  pub version : ℤ

-- `ReplicaNodeInfo`
pub record ReplicaNodeInfo : Type 0 where
  pub node_id : String
  pub address : String
  pub role : String

-- `SetRoleRequest`
pub record SetRoleRequest : Type 0 where
  pub request_id : String
  pub chunk_id : String
  pub role : String
  pub primary_node : String
  pub replicas : List ReplicaNodeInfo

-- `GetVersionRequest`
pub record GetVersionRequest : Type 0 where
  pub request_id : String
  pub chunk_id : String

-- `GetVersionResponse`
pub record GetVersionResponse : Type 0 where
  pub base : Response
  pub version : ℤ
  pub vector_clock : Dict ℕ
  pub timestamp : ℕ
  pub checksum : String
  pub is_primary : Bool
