-- ===== src/DataNode/Restart.antt =====
-- internal/datanode/datanode.go: what a node knows of its chunks when it has started again.
use lumeo_fs.Base.{
  ℕ, suc, String, false, Option, none, some, List, [], ◌∷◌, str_eq, if◌then◌else◌, lookup, ◌≡◌,
  refl, ap, ◌∙◌, ◌⊎◌, inl, inr, Bool-cases, Option-cases, lookup-insert, pos,
}
use Prim.Native.String.{◌++◌ as ◌^◌}
use lumeo_fs.Common.{ReplicaRole, is_primary}
use lumeo_fs.Wal.Log.{Entry, EntryType, Wal, read_all}
use lumeo_fs.Protocol.Messages.{WriteChunkRequest, WriteChunkResponse}
use lumeo_fs.Replication.Manager.{
  get_local_role, set_local_role, new_replica_manager, primary_address,
}
use lumeo_fs.Replication.Proxy as Proxy
use lumeo_fs.Replication.Proxy.{proxy_write_to_primary}
use lumeo_fs.DataNode.Storage.{Storage}
use lumeo_fs.DataNode.Handlers.{
  LocalChunk, DataNode, new_data_node, failed, forward_write, write_as_primary, handle_write_chunk,
}
use lumeo_fs.DataNode.Recovery.{
  recovered_chunk, recover_write, recover_entry, recover_entries, recover_from_wal,
  recover_entry-SameSettings, recover_entries-SameSettings,
}

-- The entry, if it is a write to the chunk.
abbrev pub own_write : String → Entry → Option Entry
own_write c e = elim e.type [
  | EntryType.write ↦ if str_eq e.chunk_id c then some e else none
  | EntryType.delete_chunk ↦ none
  | EntryType.sync ↦ none
]

-- The entry, where its write is done again without a failure.
abbrev pub done_again : Option Storage → Option Entry → Option Entry
done_again none o = o
done_again (some st) o = none

-- The last write of a log to a chunk that recovery does again without a failure.
unfoldable pub last_recovered : String → (ℕ → Option Storage) → List Entry → Option Entry
last_recovered c faults [] = none
last_recovered c faults (e ∷ es) = elim (last_recovered c (λ n. faults (suc n)) es) [
  | some l ↦ some l
  | none ↦ done_again (faults 0) (own_write c e)
]

-- The chunk that recovery records for a write, or what there was.
abbrev pub or_recovered : ℕ → String → Option Entry → Option LocalChunk → Option LocalChunk
or_recovered now node none o = o
or_recovered now node (some e) o = some (recovered_chunk now node e)

chunks-recover_write :
    (now : ℕ) (fault : Option Storage) (c : String) (e : Entry) (dn : DataNode)
    → lookup c (recover_write now fault e dn).chunks
      ≡ or_recovered now dn.node_id
          (done_again fault (if str_eq e.chunk_id c then some e else none))
          (lookup c dn.chunks)
unfolding recover_write
chunks-recover_write now (some st) c e dn = refl
chunks-recover_write now none c e dn =
    let new = recovered_chunk now dn.node_id e in
    elim (Bool-cases (str_eq e.chunk_id c)) [
      | inl y ↦ rw y (lookup-insert e.chunk_id c new dn.chunks ∙ rw y refl)
      | inr n ↦ rw n (lookup-insert e.chunk_id c new dn.chunks ∙ rw n refl)
    ]

done_again-none : (fault : Option Storage) → done_again fault none ≡ none
done_again-none none = refl
done_again-none (some st) = refl

chunks-recover_entry :
    (now : ℕ) (fault : Option Storage) (c : String) (e : Entry) (dn : DataNode)
    → lookup c (recover_entry now fault e dn).chunks
      ≡ or_recovered now dn.node_id (done_again fault (own_write c e)) (lookup c dn.chunks)
unfolding recover_entry
chunks-recover_entry now fault c e dn =
    let stays : lookup c dn.chunks
        ≡ or_recovered now dn.node_id (done_again fault none) (lookup c dn.chunks) =
      rw (done_again-none fault) refl in
    (elim e.type
      as (λ t.
        lookup c
          (elim t as (λ u. DataNode) [
            | EntryType.write ↦ recover_write now fault e dn
            | EntryType.delete_chunk ↦ dn
            | EntryType.sync ↦ dn
          ]).chunks
        ≡ or_recovered now dn.node_id
            (done_again fault (elim t [
              | EntryType.write ↦ if str_eq e.chunk_id c then some e else none
              | EntryType.delete_chunk ↦ none
              | EntryType.sync ↦ none
            ]))
            (lookup c dn.chunks)) [
              | EntryType.write ↦ chunks-recover_write now fault c e dn
              | EntryType.delete_chunk ↦ stays
              | EntryType.sync ↦ stays
            ])

chunks-recover_entries :
    (now : ℕ) (faults : ℕ → Option Storage) (c : String) (es : List Entry) (dn : DataNode)
    → lookup c (recover_entries now faults es dn).chunks
      ≡ or_recovered now dn.node_id (last_recovered c faults es) (lookup c dn.chunks)
unfolding recover_entries last_recovered
chunks-recover_entries now faults c [] dn = refl
chunks-recover_entries now faults c (e ∷ es) dn =
    let later : ℕ → Option Storage = λ n. faults (suc n) in
    let one = chunks-recover_entry now (faults 0) c e dn in
    let same = (recover_entry-SameSettings now (faults 0) e dn).node_id in
    let rest = chunks-recover_entries now later c es (recover_entry now (faults 0) e dn) in
    elim (Option-cases (last_recovered c later es)) [
      | inl n ↦ rw n (rest ∙ rw n one)
      | inr (l, y) ↦ rw y (rest ∙ rw y (ap (λ i. some (recovered_chunk now i l)) same))
    ]

-- The answer to a write for which no primary is found.
abbrev pub no_primary : WriteChunkRequest → WriteChunkResponse
no_primary req = record {
  base =
      failed req.request_id
        ("无法获取主副本地址: " ^ ("no primary replica found for chunk " ^ req.chunk_id));
  version = pos 0;
}

forward_write-new :
    (sum : List ℕ → String) (call : String → WriteChunkRequest → String ⊎ WriteChunkResponse)
    (rid node address : String) (req : WriteChunkRequest) (dn : DataNode)
    → dn.manager ≡ new_replica_manager node address
    → forward_write sum call rid req dn ≡ no_primary req
unfolding forward_write Proxy.write proxy_write_to_primary primary_address lookup
forward_write-new sum call rid node address req dn m = rw m refl

-- What a node without roles makes of a write, whether it knows the chunk or not.
abbrev pub write_without_role :
    (Entry → Option (List ℕ))
    → ℕ
    → Option (Storage × String)
    → WriteChunkRequest
    → DataNode
    → Option LocalChunk
    → DataNode × WriteChunkResponse
write_without_role marshal now fault req dn (some lc) = (dn, no_primary req)
write_without_role marshal now fault req dn none =
    write_as_primary marshal now fault req
      (record dn { manager = set_local_role req.chunk_id ReplicaRole.primary dn.manager })

handle_write_chunk-new :
    (marshal : Entry → Option (List ℕ)) (sum : List ℕ → String)
    (call : String → WriteChunkRequest → String ⊎ WriteChunkResponse) (rid node address : String)
    (now : ℕ) (fault : Option (Storage × String)) (req : WriteChunkRequest) (dn : DataNode)
    → dn.manager ≡ new_replica_manager node address
    → handle_write_chunk marshal sum call rid now fault req dn
      ≡ write_without_role marshal now fault req dn (lookup req.chunk_id dn.chunks)
unfolding handle_write_chunk lookup
handle_write_chunk-new marshal sum call rid node address now fault req dn m =
    let p : is_primary (get_local_role req.chunk_id dn.manager) ≡ false =
      ap (λ x. is_primary (get_local_role req.chunk_id x)) m in
    elim (Option-cases (lookup req.chunk_id dn.chunks)) [
      | inl n ↦ rw (n, handle_write_chunk) refl
      | inr (lc, h) ↦
          rw (h, handle_write_chunk, p)
            (ap (λ r. (dn, r)) (forward_write-new sum call rid node address req dn m))
    ]

-- A node that starts anew, with a log that is read as `es`, of whose writes some may fail when they
-- are done again. If the last write to a chunk that recovery does without a failure is `l`, the node
-- has the chunk with the version, the checksum and the length of `l`, refuses every further write to
-- the chunk, since no primary is known, and stays as it is. If there is no such write, the node does
-- not have the chunk, and takes the next write to it as the primary.
pub handle_write_chunk-recover_from_wal :
    (unmarshal : List ℕ → Option Entry) (marshal : Entry → Option (List ℕ)) (sum : List ℕ → String)
    (call : String → WriteChunkRequest → String ⊎ WriteChunkResponse) (rid node address : String)
    (start now : ℕ) (faults : ℕ → Option Storage) (fault : Option (Storage × String)) (wal : Wal)
    (st : Storage) (es : List Entry) (req : WriteChunkRequest)
    → read_all unmarshal wal ≡ some es
    → let dn = (recover_from_wal unmarshal start faults (new_data_node node address wal st)).0 in
      let known = or_recovered start node (last_recovered req.chunk_id faults es) none in
      (lookup req.chunk_id dn.chunks ≡ known)
      × (handle_write_chunk marshal sum call rid now fault req dn
          ≡ write_without_role marshal now fault req dn known)
unfolding recover_from_wal lookup
handle_write_chunk-recover_from_wal unmarshal marshal sum call rid node address start now faults
      fault wal st es req r =
    let fresh = new_data_node node address wal st in
    let dn = recover_entries start faults es fresh in
    let l = last_recovered req.chunk_id faults es in
    let known : lookup req.chunk_id dn.chunks ≡ or_recovered start node l none =
      chunks-recover_entries start faults req.chunk_id es fresh in
    rw (r, recover_from_wal)
      (
        known,
        handle_write_chunk-new marshal sum call rid node address now fault req dn
              (recover_entries-SameSettings start faults es fresh).manager
            ∙ ap (write_without_role marshal now fault req dn) known,
      )
