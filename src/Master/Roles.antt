-- ===== src/Master/Roles.antt =====
-- internal/master/master.go, internal/datanode/datanode.go, internal/replication/replica_manager.go: what
-- the data nodes know of a chunk when they have handled the notifications of the master.
use lumeo_fs.Base.{
  String, none, some, List, [], ◌∷◌, map, Dict, str_eq, if◌then◌else◌, All, lookup, insert, ◌≡◌,
  refl, ap, ◌∙◌, inl, inr, Bool-cases, str_eq_refl, lookup-insert, ℤ,
}
use lumeo_fs.Common.{ReplicaRole, is_primary, DataNodeInfo}
use lumeo_fs.Protocol.Messages.{ReplicaNodeInfo, SetRoleRequest}
use lumeo_fs.Replication.Manager.{
  is_local_primary, primary_address, get_primary_node, secondary_addresses,
}
use lumeo_fs.Replication.Proxy.{dial_address}
use lumeo_fs.DataNode.Handlers.{DataNode}
use lumeo_fs.DataNode.Interface as Node
use lumeo_fs.DataNode.Interface.{named_role, handle_set_role, sync_targets}
use lumeo_fs.Master.Alloc.{node_address, replica_infos, named_primary, set_role_requests}

lookup-insert_same :
    {V : Type 0} (k : String) (v : V) (m : Dict V) → lookup k (insert k v m) ≡ some v
lookup-insert_same k v m = lookup-insert k k v m ∙ rw (str_eq_refl k) refl

-- What a node has of a chunk, `chunk`, after a notification that gives it a role, and the replicas of
-- the chunk.
record Informed (chunk role : String) (rs : List ReplicaNodeInfo) (before after : DataNode)
    : Type 0 where
  replicas : lookup chunk after.manager.replicas ≡ some (Node.replica_infos chunk rs)
  local_role : is_local_primary chunk after.manager ≡ is_primary (named_role role)
  same_node : after.manager.local_node_id ≡ before.manager.local_node_id

handle_set_role-Informed :
    (id chunk role primary : String) (r : ReplicaNodeInfo) (rs : List ReplicaNodeInfo)
    (dn : DataNode)
    → Informed chunk role
        (r ∷ rs)
        dn
        (handle_set_role
          (record {
            request_id = id;
            chunk_id = chunk;
            role = role;
            primary_node = primary;
            replicas = r ∷ rs;
          })
          dn).0
unfolding handle_set_role
handle_set_role-Informed id chunk role primary r rs dn = record {
  replicas = lookup-insert_same chunk (Node.replica_infos chunk (r ∷ rs)) dn.manager.replicas;
  local_role =
      ap (λ o. is_primary (elim o [ none ↦ ReplicaRole.secondary | some v ↦ v ]))
        (lookup-insert_same chunk (named_role role) dn.manager.local_roles);
  same_node = refl;
}

-- The nodes `ids` other than one.
unfoldable pub others : String → List String → List String
others self [] = []
others self (id ∷ ids) = if str_eq id self then others self ids else id ∷ others self ids

secondary_addresses-others :
    (show : String → ℤ → String) (nodes : Dict DataNodeInfo) (chunk self : String)
    (ids : List String)
    → secondary_addresses self (Node.replica_infos chunk (replica_infos show nodes "SECONDARY" ids))
      ≡ map (node_address show nodes) (others self ids)
unfolding secondary_addresses Node.replica_infos replica_infos others
secondary_addresses-others show nodes chunk self [] = refl
secondary_addresses-others show nodes chunk self (i ∷ ids) =
    let rest = secondary_addresses-others show nodes chunk self ids in
    elim (Bool-cases (str_eq i self)) [
      | inl y ↦ rw y rest
      | inr n ↦ rw n (ap (◌∷◌ (node_address show nodes i)) rest)
    ]

-- What a data node answers from, for the chunk `chunk`, when the node `first` is the primary and the
-- nodes `ids` have the other replicas.
abbrev pub Notified :
    (String → ℤ → String)
    → Dict DataNodeInfo
    → String
    → String
    → List String
    → DataNode
    → String × SetRoleRequest
    → Type 0
Notified show nodes chunk first ids dn q =
    let dn' = (handle_set_role q.1 dn).0 in
    (get_primary_node chunk dn'.manager ≡ some (node_address show nodes first))
    × (is_local_primary chunk dn'.manager ≡ str_eq q.1.role "PRIMARY")
    × (sync_targets chunk dn' ≡ map (node_address show nodes) (others dn.manager.local_node_id ids))

is_primary-named_role : (role : String) → is_primary (named_role role) ≡ str_eq role "PRIMARY"
is_primary-named_role role = elim (Bool-cases (str_eq role "PRIMARY")) [
  | inl y ↦ rw y refl
  | inr n ↦ rw n refl
]

module _ (show : String → ℤ → String) (nodes : Dict DataNodeInfo) (id chunk first : String)
    (ids : List String) (dn : DataNode) where
  handle_set_role-Notified :
      (address role primary : String)
      → Notified show nodes chunk first ids dn (
        address,
        record {
          request_id = id;
          chunk_id = chunk;
          role = role;
          primary_node = primary;
          replicas = replica_infos show nodes "PRIMARY" (first ∷ ids);
        },
      )
  unfolding replica_infos primary_address secondary_addresses Node.replica_infos
  handle_set_role-Notified address role primary =
      let r : ReplicaNodeInfo = record {
        node_id = first;
        address = node_address show nodes first;
        role = "PRIMARY";
      } in
      let dn' =
        (handle_set_role
          (record {
            request_id = id;
            chunk_id = chunk;
            role = role;
            primary_node = primary;
            replicas = replica_infos show nodes "PRIMARY" (first ∷ ids);
          })
          dn).0 in
      let h =
        handle_set_role-Informed id chunk role primary r (replica_infos show nodes "SECONDARY" ids)
          dn in
      (
        ap (λ o. primary_address (elim o [ none ↦ [] | some v ↦ v ])) h.replicas,
        h.local_role ∙ is_primary-named_role role,
        ap (λ o. secondary_addresses dn'.manager.local_node_id (elim o [ none ↦ [] | some v ↦ v ]))
              h.replicas
            ∙ ap
                (λ n.
                  secondary_addresses n
                    (Node.replica_infos chunk (replica_infos show nodes "SECONDARY" ids)))
                h.same_node
            ∙ secondary_addresses-others show nodes chunk dn.manager.local_node_id ids,
      )

  set_role_requests-Notified :
      (rs : List ReplicaNodeInfo)
      → All
          (Notified show nodes chunk first ids dn)
          (set_role_requests id chunk (replica_infos show nodes "PRIMARY" (first ∷ ids)) rs)
  unfolding set_role_requests
  set_role_requests-Notified [] = tt
  set_role_requests-Notified (r ∷ rs) = (
    handle_set_role-Notified (dial_address r.address) r.role
        (named_primary (replica_infos show nodes "PRIMARY" (first ∷ ids))),
    set_role_requests-Notified rs,
  )

  -- The master has placed a chunk on the node `first`, as the primary, and the nodes `ids`. A data node
  -- that has handled any of the notifications that it sends finds the primary at the address of
  -- `first`, counts as the primary just where the notification says so, and synchronises with those
  -- of `ids` that are not the data node itself.
  pub handle_set_role-set_role_requests :
      let infos = replica_infos show nodes "PRIMARY" (first ∷ ids) in
      All (Notified show nodes chunk first ids dn) (set_role_requests id chunk infos infos)
  handle_set_role-set_role_requests =
      set_role_requests-Notified (replica_infos show nodes "PRIMARY" (first ∷ ids))
