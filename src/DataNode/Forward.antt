-- ===== src/DataNode/Forward.antt =====
-- internal/datanode/datanode.go, internal/replication/replica_manager.go: writes and reads that a node
-- sends on to the primary.
use lumeo_fs.Base.{
  ℕ, ◌<◌, String, true, false, Option, none, some, List, if◌then◌else◌, length, lookup, ◌≡◌, refl,
  sym, ap, ◌∙◌, ◌⊎◌, inl, inr, arith, ℤ, pos, eqb_ℤ,
}
use lumeo_fs.Wal.Log.{Entry}
use lumeo_fs.Protocol.Messages.{
  WriteChunkRequest, WriteChunkResponse, ReadChunkRequest, ReadChunkResponse,
}
use lumeo_fs.Version.Lease.{get_lease}
use lumeo_fs.Version.Data.{check_read_consistency}
use lumeo_fs.Replication.Manager.{is_local_primary, get_primary_node}
use lumeo_fs.Replication.Proxy as Proxy
use lumeo_fs.Replication.Proxy.{proxy_write_to_primary, read_from_primary}
use lumeo_fs.DataNode.Handlers.{
  LocalChunk, DataNode, succeeded, forward_write, handle_write_chunk, handle_read_chunk,
}
use lumeo_fs.DataNode.Sync.{
  CanWrite, handle_read_chunk-handle_write_chunk, handle_write_chunk-succeeds,
}

-- A node that has a chunk as a secondary replica, knows the address of the primary, and has no lease.
pub record Secondary (chunk address : String) (dn : DataNode) : Type 0 where
  pub copy : LocalChunk
  pub has : lookup chunk dn.chunks ≡ some copy
  pub role : is_local_primary chunk dn.manager ≡ false
  pub primary : get_primary_node chunk dn.manager ≡ some address
  pub no_lease : get_lease chunk dn.manager.checker.lease_manager ≡ none

-- A read at a secondary replica, where the primary answers.
handle_read_chunk-Secondary :
    (sum : List ℕ → String) (call_read : String → ReadChunkRequest → String ⊎ ReadChunkResponse)
    (open_error id : String) (now : ℕ) (rq : ReadChunkRequest) (s : DataNode) (address : String)
    (resp : ReadChunkResponse)
    → Secondary rq.chunk_id address s
    → eqb_ℤ rq.length (pos 0) ≡ false
    → resp.base.success ≡ true
    → call_read (Proxy.dial_address address) (record rq { request_id = id }) ≡ inr resp
    → handle_read_chunk sum call_read open_error id now rq s
      ≡ some (record {
        base = succeeded rq.request_id;
        bytes = resp.bytes;
        checksum = resp.checksum;
        version = pos 0;
      })
unfolding handle_read_chunk Proxy.read check_read_consistency read_from_primary
handle_read_chunk-Secondary sum call_read open_error id now rq s address resp sec z ok c =
    rw (z, handle_read_chunk, if◌then◌else◌)
      (rw (sec.role, Proxy.read, check_read_consistency, if◌then◌else◌)
        (rw (sec.no_lease, check_read_consistency)
          (rw (sec.primary, read_from_primary) (rw (c, read_from_primary) (rw ok refl)))))

-- What a node sends to the primary for a request to write.
abbrev pub sent_on : (List ℕ → String) → String → WriteChunkRequest → WriteChunkRequest
sent_on sum id req = record req { request_id = id; checksum = sum req.bytes }

write-Secondary :
    (sum : List ℕ → String) (call_write : String → WriteChunkRequest → String ⊎ WriteChunkResponse)
    (local_write : String → List ℕ → ℤ → String → String ⊎ Proxy.WriteResult) (id : String)
    (req : WriteChunkRequest) (s : DataNode) (address : String) (resp : WriteChunkResponse)
    → Secondary req.chunk_id address s
    → call_write (Proxy.dial_address address) (sent_on sum id req) ≡ inr resp
    → Proxy.write call_write sum id req.chunk_id req.bytes req.offset local_write s.manager
      ≡ inr (record {
        success = resp.base.success;
        version = resp.version;
        error = resp.base.error;
        checksum = sum req.bytes;
      })
unfolding Proxy.write proxy_write_to_primary
write-Secondary sum call_write local_write id req s address resp sec c =
    rw (sec.role, Proxy.write, if◌then◌else◌)
      (rw (sec.primary, proxy_write_to_primary) (rw (c, proxy_write_to_primary) refl))

-- A write at a secondary replica, where the primary answers.
handle_write_chunk-Secondary :
    (marshal : Entry → Option (List ℕ)) (sum : List ℕ → String)
    (call_write : String → WriteChunkRequest → String ⊎ WriteChunkResponse) (id : String) (now : ℕ)
    (req : WriteChunkRequest) (s : DataNode) (address : String) (resp : WriteChunkResponse)
    → Secondary req.chunk_id address s
    → call_write (Proxy.dial_address address) (sent_on sum id req) ≡ inr resp
    → handle_write_chunk marshal sum call_write id now none req s ≡ (
      s,
      record { base = record resp.base { request_id = req.request_id }; version = resp.version },
    )
unfolding handle_write_chunk forward_write
handle_write_chunk-Secondary marshal sum call_write id now req s address resp sec c =
    rw (sec.has, handle_write_chunk)
      (rw (sec.role, if◌then◌else◌)
        (rw
          (
            write-Secondary sum call_write (λ k bytes offset checksum. inl "should not reach here")
                id req s address resp sec c,
            forward_write,
          )
          refl))

-- A write reaches a node `s`, and a later read a node `t`; both have the chunk as secondary replicas
-- without a lease, and know the address of the primary `p`, which answers what they send on. The write
-- is of some bytes, and its file operation on `p` does not fail. Then `s` stays as it is and answers
-- with the version that the chunk has on `p`, and `t` answers the read of as many bytes from the same
-- offset with these bytes and their hash, and with the version 0.
pub handle_read_chunk-forward_write :
    (marshal : Entry → Option (List ℕ)) (sum : List ℕ → String)
    (call_write : String → WriteChunkRequest → String ⊎ WriteChunkResponse)
    (call_read : String → ReadChunkRequest → String ⊎ ReadChunkResponse) (open_error id : String)
    (now later : ℕ) (req : WriteChunkRequest) (s t p : DataNode) (a b request_id : String)
    (answer : ReadChunkResponse)
    → 0 < length req.bytes
    → Secondary req.chunk_id a s
    → Secondary req.chunk_id b t
    → CanWrite req.chunk_id p
    → let done = handle_write_chunk marshal sum call_write id now none (sent_on sum id req) p in
      let rq : ReadChunkRequest = record {
        request_id = request_id;
        chunk_id = req.chunk_id;
        offset = req.offset;
        length = pos (length req.bytes);
      } in
      call_write (Proxy.dial_address a) (sent_on sum id req) ≡ inr done.1
      → handle_read_chunk sum call_read open_error id later (record rq { request_id = id }) done.0
        ≡ some answer
      → call_read (Proxy.dial_address b) (record rq { request_id = id }) ≡ inr answer
      → (handle_write_chunk marshal sum call_write id now none req s
          ≡ (s, record { base = succeeded req.request_id; version = done.1.version }))
        × (handle_read_chunk sum call_read open_error id later rq t
            ≡ some (record {
              base = succeeded request_id;
              bytes = req.bytes;
              checksum = sum req.bytes;
              version = pos 0;
            }))
handle_read_chunk-forward_write marshal sum call_write call_read open_error id now later req s t p a
      b request_id answer h sec_s sec_t can w r c =
    let done = handle_write_chunk marshal sum call_write id now none (sent_on sum id req) p in
    let good =
      handle_write_chunk-succeeds marshal sum call_write id now (sent_on sum id req) p can in
    let rq : ReadChunkRequest = record {
      request_id = request_id;
      chunk_id = req.chunk_id;
      offset = req.offset;
      length = pos (length req.bytes);
    } in
    let known : ReadChunkResponse = record {
      base = succeeded id;
      bytes = req.bytes;
      checksum = sum req.bytes;
      version = done.1.version;
    } in
    let told : some answer ≡ some known =
      sym r
      ∙ handle_read_chunk-handle_write_chunk marshal sum call_write id call_read open_error now
          later (sent_on sum id req) p id h can in
    let same : answer ≡ known = ground arith in
    (
      handle_write_chunk-Secondary marshal sum call_write id now req s a done.1 sec_s w
          ∙ ap (λ v. (s, v))
              (ap {A = WriteChunkResponse} {B = WriteChunkResponse}
                (λ v. record {
                  base = record v.base { request_id = req.request_id };
                  version = v.version;
                })
                good),
      handle_read_chunk-Secondary sum call_read open_error id later rq t b known sec_t
          (ground arith) refl (c ∙ ap inr same),
    )
