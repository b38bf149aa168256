-- ===== src/Replication/Manager.antt =====
-- internal/replication/replica_manager.go: roles and replicas. The package's `ReplicaRole` has the
-- values of that of pkg/common, into which the data node converts it. The pool of connections is
-- never used.
use lumeo_fs.Base.{
  String, Bool, true, false, not, ◌&&◌, Option, none, some, List, [], ◌∷◌, Dict, str_eq,
  if◌then◌else◌, any, lookup_or, insert, pos,
}
use lumeo_fs.Common.{ReplicaRole, is_primary, is_secondary}
use lumeo_fs.Version.Data.{
  DataVersion, is_consistent_with, ConsistencyChecker, new_consistency_checker,
}

-- `ReplicaInfo`
pub record ReplicaInfo : Type 0 where
  pub chunk_id : String
  pub node_id : String
  pub node_address : String
  pub role : ReplicaRole
  pub version : Option DataVersion
  pub is_healthy : Bool

-- `ReplicaManager`
pub record ReplicaManager : Type 0 where
  pub local_node_id : String
  pub local_address : String
  pub replicas : Dict (List ReplicaInfo)
  pub local_roles : Dict ReplicaRole
  pub checker : ConsistencyChecker

-- `NewReplicaManager`; five and thirty seconds.
abbrev pub new_replica_manager : String → String → ReplicaManager
new_replica_manager id address = record {
  local_node_id = id;
  local_address = address;
  replicas = [];
  local_roles = [];
  checker = new_consistency_checker (pos 5000000000) (pos 30000000000);
}

-- `SetLocalRole`
abbrev pub set_local_role : String → ReplicaRole → ReplicaManager → ReplicaManager
set_local_role chunk role rm = record rm { local_roles = insert chunk role rm.local_roles }

-- `GetLocalRole`
abbrev pub get_local_role : String → ReplicaManager → ReplicaRole
get_local_role chunk rm = lookup_or ReplicaRole.secondary chunk rm.local_roles

-- `IsPrimary`
abbrev pub is_local_primary : String → ReplicaManager → Bool
is_local_primary chunk rm = is_primary (get_local_role chunk rm)

-- `RegisterReplicas`
abbrev pub register_replicas : String → List ReplicaInfo → ReplicaManager → ReplicaManager
register_replicas chunk rs rm = record rm { replicas = insert chunk rs rm.replicas }

-- `GetAllReplicas`, where a missing key gives the empty list.
abbrev pub get_all_replicas : String → ReplicaManager → List ReplicaInfo
get_all_replicas chunk rm = lookup_or [] chunk rm.replicas

-- The address of the first primary of a list.
unfoldable pub primary_address : List ReplicaInfo → Option String
primary_address [] = none
primary_address (r ∷ rs) = if is_primary r.role then some r.node_address else primary_address rs

-- `GetPrimaryNode`; `none` is the error.
abbrev pub get_primary_node : String → ReplicaManager → Option String
get_primary_node chunk rm = primary_address (get_all_replicas chunk rm)

-- The addresses of the secondary replicas of a list that are not on the node itself.
unfoldable pub secondary_addresses : String → List ReplicaInfo → List String
secondary_addresses self [] = []
secondary_addresses self (r ∷ rs) =
    if is_secondary r.role && not (str_eq r.node_id self)
    then r.node_address ∷ secondary_addresses self rs
    else secondary_addresses self rs

-- `GetSecondaryNodes`
abbrev pub get_secondary_nodes : String → ReplicaManager → List String
get_secondary_nodes chunk rm = secondary_addresses rm.local_node_id (get_all_replicas chunk rm)

-- `VersionInfo`
pub record VersionInfo : Type 0 where
  pub chunk_id : String
  pub node_id : String
  pub version : Option DataVersion
  pub checksum : String

-- The test of a version against the first one, in the loop of `ValidateConsistency`.
unfoldable pub matches : VersionInfo → VersionInfo → Bool
matches first v =
    (elim v.version [
      | none ↦ true
      | some a ↦ elim first.version [ none ↦ true | some b ↦ is_consistent_with a (some b) ]
    ])
    && str_eq v.checksum first.checksum

-- `ValidateConsistency`, less the text of the reason.
unfoldable pub validate_consistency : List VersionInfo → Bool
validate_consistency [] = false
validate_consistency (first ∷ vs) = not (any (λ v. not (matches first v)) vs)
