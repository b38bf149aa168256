-- ===== src/Replication/Proxy.antt =====
-- internal/replication/replica_manager.go: writes and reads that go to the primary. What a connection
-- gives is a parameter: the text of the error of the step that failed, or the response. The hash of
-- the bytes and the number in the id of a request are parameters too.
use lumeo_fs.Base.{
  ℕ, String, Bool, true, not, ◌&&◌, Option, none, some, List, ltb, str_eq, if◌then◌else◌, ◌⊎◌, inl,
  inr, ℤ, pos,
}
use Prim.Native.String.{◌++◌ as ◌^◌, len, slice}
use lumeo_fs.Protocol.Messages.{
  WriteChunkRequest, WriteChunkResponse, ReadChunkRequest, ReadChunkResponse,
}
use lumeo_fs.Version.Data.{DataVersion, check_read_consistency}
use lumeo_fs.Replication.Manager.{ReplicaManager, is_local_primary, get_primary_node}

-- `WriteResult`
pub record WriteResult : Type 0 where
  pub success : Bool
  pub version : ℤ
  pub error : String
  pub checksum : String

-- `ReadResult`, less the text of an error, which is never set.
pub record ReadResult : Type 0 where
  pub bytes : List ℕ
  pub version : Option DataVersion
  pub checksum : String
  pub from_primary : Bool

-- The address that is dialled for an address of a node.
unfoldable pub dial_address : String → String
dial_address address =
    if ltb 7 (len address) && str_eq (slice address 0 7) "0.0.0.0"
    then "127.0.0.1" ^ slice address 7 (len address)
    else address

-- What `GetPrimaryNode` gives: the text of its error, or the address.
abbrev pub primary_or_error : String → ReplicaManager → String ⊎ String
primary_or_error chunk rm = elim (get_primary_node chunk rm) [
  | none ↦ inl ("no primary replica found for chunk " ^ chunk)
  | some address ↦ inr address
]

module _ (call_write : String → WriteChunkRequest → String ⊎ WriteChunkResponse) where
  -- `proxyWriteToPrimary`, with the id of the request.
  unfoldable pub proxy_write_to_primary :
      String → String → List ℕ → ℤ → String → ReplicaManager → String ⊎ WriteResult
  proxy_write_to_primary id chunk bytes offset checksum rm = elim (primary_or_error chunk rm) [
    | inl err ↦ inl ("无法获取主副本地址: " ^ err)
    | inr address ↦
        elim (call_write (dial_address address) (record {
          request_id = id;
          chunk_id = chunk;
          bytes = bytes;
          offset = offset;
          checksum = checksum;
        })) [
          | inl err ↦ inl err
          | inr resp ↦ inr (record {
            success = resp.base.success;
            version = resp.version;
            error = resp.base.error;
            checksum = checksum;
          })
        ]
  ]

  -- `Write`
  unfoldable pub write :
      (List ℕ → String)
      → String
      → String
      → List ℕ
      → ℤ
      → (String → List ℕ → ℤ → String → String ⊎ WriteResult)
      → ReplicaManager
      → String ⊎ WriteResult
  write sum id chunk bytes offset local_write rm =
      if is_local_primary chunk rm
      then local_write chunk bytes offset (sum bytes)
      else proxy_write_to_primary id chunk bytes offset (sum bytes) rm

module _ (call_read : String → ReadChunkRequest → String ⊎ ReadChunkResponse) where
  -- `readFromPrimary`
  unfoldable pub read_from_primary : String → String → ℤ → ℤ → ReplicaManager → String ⊎ ReadResult
  read_from_primary id chunk offset len rm = elim (primary_or_error chunk rm) [
    | inl err ↦ inl err
    | inr address ↦
        elim (call_read (dial_address address)
          (record { request_id = id; chunk_id = chunk; offset = offset; length = len })) [
            | inl err ↦ inl err
            | inr resp ↦
                if not resp.base.success
                then inl ("主副本读取失败: " ^ resp.base.error)
                else inr (record {
                  bytes = resp.bytes;
                  version = none;
                  checksum = resp.checksum;
                  from_primary = true;
                })
          ]
  ]

  -- `Read` at the time `now`; `none` is a panic, of the local read.
  unfoldable pub read :
      ℕ
      → String
      → String
      → ℤ
      → ℤ
      → Option DataVersion
      → (String → ℤ → ℤ → Option (String ⊎ ReadResult))
      → ReplicaManager
      → Option (String ⊎ ReadResult)
  read now id chunk offset len local local_read rm =
      let primary = is_local_primary chunk rm in
      let (can_read, need_primary) = check_read_consistency now chunk local primary rm.checker in
      if can_read && not need_primary
      then elim (local_read chunk offset len) [
        | none ↦ none
        | some (inl err) ↦ some (inl err)
        | some (inr result) ↦ some (inr (record result { from_primary = primary }))
      ]
      else some (read_from_primary id chunk offset len rm)

  -- `SyncFromPrimary`; what it returns is the text of its error, if there is one. The local write
  -- gives the state after it, or the text of an error.
  unfoldable pub sync_from_primary :
      {S : Type 0}
      → String
      → String
      → (String → List ℕ → ℤ → String → S → S × Option String)
      → ReplicaManager
      → S
      → S × Option String
  sync_from_primary id chunk local_write rm s =
      if is_local_primary chunk rm
      then (s, none)
      else elim (read_from_primary id chunk (pos 0) (pos 0) rm) [
        | inl err ↦ (s, some ("从主副本读取失败: " ^ err))
        | inr result ↦
            let (s', e) = local_write chunk result.bytes (pos 0) result.checksum s in
            elim e [ none ↦ (s', none) | some err ↦ (s', some ("本地写入失败: " ^ err)) ]
      ]
