-- ===== src/Common.antt =====
-- pkg/common/types.go: the data that master and data nodes share. A time is a number of nanoseconds.
use lumeo_fs.Base.{ℕ, String, Bool, true, false, List, ℤ}

-- `ReplicaRole`
pub data ReplicaRole : Type 0 where
  primary secondary : ReplicaRole

-- `ReplicaStatus`
pub data ReplicaStatus : Type 0 where
  healthy syncing stale offline : ReplicaStatus

-- `NodeStatus`
pub data NodeStatus : Type 0 where
  online offline : NodeStatus

abbrev pub is_primary : ReplicaRole → Bool
is_primary ReplicaRole.primary = true
is_primary ReplicaRole.secondary = false

abbrev pub is_secondary : ReplicaRole → Bool
is_secondary ReplicaRole.secondary = true
is_secondary ReplicaRole.primary = false

abbrev pub is_healthy : ReplicaStatus → Bool
is_healthy ReplicaStatus.healthy = true
is_healthy ReplicaStatus.syncing = false
is_healthy ReplicaStatus.stale = false
is_healthy ReplicaStatus.offline = false

abbrev pub is_online : NodeStatus → Bool
is_online NodeStatus.online = true
is_online NodeStatus.offline = false

-- `ReplicaInfo`
pub record ReplicaInfo : Type 0 where
  pub chunk_id : String
  pub node_id : String
  pub role : ReplicaRole
  pub version : ℤ
  pub checksum : String
  pub status : ReplicaStatus
  pub update_time : ℕ

-- `ChunkInfo`
pub record ChunkInfo : Type 0 where
  pub id : String
  pub file_id : String
  pub index : ℤ
  pub size : ℤ
  pub checksum : String
  pub replicas : List ReplicaInfo
  pub create_time : ℕ

-- `DataNodeInfo`
pub record DataNodeInfo : Type 0 where
  pub id : String
  pub address : String
  pub port : ℤ
  pub total_space : ℤ
  pub used_space : ℤ
  pub chunk_count : ℤ
  pub status : NodeStatus
  pub last_heartbeat : ℕ

-- `FileMetadata`
pub record FileMetadata : Type 0 where
  pub id : String
  pub name : String
  pub path : String
  pub size : ℤ
  pub chunk_ids : List String
  pub create_time : ℕ
  pub modify_time : ℕ

-- `WriteRequest`
pub record WriteRequest : Type 0 where
  pub file_id : String
  pub chunk_id : String
  pub bytes : List ℕ
  pub offset : ℤ
  pub checksum : String

-- `WriteResponse`
pub record WriteResponse : Type 0 where
  pub success : Bool
  pub version : ℤ
  pub error : String

-- `ReadRequest`
pub record ReadRequest : Type 0 where
  pub chunk_id : String
  pub offset : ℤ
  pub length : ℤ

-- `ReadResponse`
pub record ReadResponse : Type 0 where
  pub bytes : List ℕ
  pub checksum : String
  pub version : ℤ
  pub error : String
