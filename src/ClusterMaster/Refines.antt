-- ===== src/ClusterMaster/Refines.antt =====
-- internal/master/cluster_master.go, internal/raft/state_machine.go, internal/master/master.go: the master
-- on Raft, whose commands are applied, against the master without Raft.
use lumeo_fs.Base.{
  ℕ, ◌+◌, String, true, false, Option, none, some, List, [], ◌∷◌, ◌++◌, map, ltb, if◌then◌else◌,
  length, u64, ◌≡◌, refl, sym, ap, ◌∙◌, inl, inr, Bool-cases, ℤ,
}
use mathlib.Core.List.{append_assoc, append-nil}
use lumeo_fs.Raft.Types.{MetadataCommand, LogEntry, RaftNode}
use lumeo_fs.Raft.Log.{last_log_index, is_leader, propose}
use lumeo_fs.Metadata.State.{Decoders}
use lumeo_fs.Metadata.Queries.{get_online_nodes}
use lumeo_fs.Protocol.Messages.{AllocChunkRequest, ChunkLocation, AllocChunkResponse}
use lumeo_fs.Master.State.{Master}
use lumeo_fs.Master.Alloc as Plain
use lumeo_fs.Master.Alloc.{
  available, chunk_count, size_of, pick, replica_infos, first_address, alloc_info, record_chunk,
  Placed, place_chunk, place_chunks,
}
use lumeo_fs.ClusterMaster.Handlers.{ClusterMaster, Encoders}
use lumeo_fs.ClusterMaster.Alloc.{alloc_commands, propose_or_skip, propose_all, handle_alloc_chunk}
use lumeo_fs.ClusterMaster.Picked.{length-ids_of, Keyed, online-available}
use lumeo_fs.ClusterMaster.Applied.{as_master, apply_all, Decodes, place_chunks-apply_all}

-- The commands in the log of a node.
abbrev pub logged_commands : RaftNode → List (Option MetadataCommand)
logged_commands rn = map (λ e. e.command) rn.log

map-append_one :
    (es : List LogEntry) (e : LogEntry)
    → map (λ x. x.command) (es ++ e ∷ []) ≡ map (λ x. x.command) es ++ e.command ∷ []
map-append_one [] e = refl
map-append_one (x ∷ es) e = ap (◌∷◌ x.command) (map-append_one es e)

propose-leader :
    (cmd : MetadataCommand) (rn : RaftNode)
    → is_leader rn ≡ true
    → (is_leader (propose_or_skip cmd rn) ≡ true)
      × (logged_commands (propose_or_skip cmd rn) ≡ logged_commands rn ++ some cmd ∷ [])
unfolding propose
propose-leader cmd rn h =
    let e : LogEntry = record {
      index = u64 (last_log_index rn.log + 1);
      term = rn.current_term;
      command = some cmd;
    } in
    let rn' = record rn { log = rn.log ++ e ∷ [] } in
    let done : propose cmd rn ≡ some rn' = rw (h, propose, if◌then◌else◌) refl in
    let taken : propose_or_skip cmd rn ≡ rn' = ap (λ o. elim o [ none ↦ rn | some x ↦ x ]) done in
    (ap is_leader taken ∙ h, ap logged_commands taken ∙ map-append_one rn.log e)

propose_all-leader :
    (cmds : List (MetadataCommand × ChunkLocation)) (rn : RaftNode)
    → is_leader rn ≡ true
    → logged_commands (propose_all cmds rn) ≡ logged_commands rn ++ map some (map (λ c. c.0) cmds)
unfolding propose_all
propose_all-leader [] rn h = sym (append-nil (logged_commands rn))
propose_all-leader ((cmd, loc) ∷ cmds) rn h =
    let (leads, log) = propose-leader cmd rn h in
    propose_all-leader cmds (propose_or_skip cmd rn) leads
    ∙ ap (λ l. l ++ map some (map (λ c. c.0) cmds)) log
    ∙ append_assoc (logged_commands rn) (some cmd ∷ []) (map some (map (λ c. c.0) cmds))

abbrev granted : String → List ChunkLocation → AllocChunkResponse
granted id chunks = record {
  base = record { request_id = id; success = true; error = "" };
  chunks = chunks;
}

abbrev turned_down : String → String → AllocChunkResponse
turned_down id text = record {
  base = record { request_id = id; success = false; error = text };
  chunks = [];
}

-- The branches of the two handlers.
module _ (show : String → ℤ → String) (chunk_name : String → ℕ → String) (js : Encoders) (now : ℕ)
    (req : AllocChunkRequest) (refusal : ℕ → ℕ → String) (order : List String) where
  cluster-few :
      (cm : ClusterMaster)
      → let nodes = get_online_nodes order cm.state_machine in
        ltb (length nodes) cm.replica_count ≡ true
        → handle_alloc_chunk show chunk_name js refusal now order req cm
          ≡ (cm, turned_down req.request_id (refusal cm.replica_count (length nodes)))
  unfolding handle_alloc_chunk
  cluster-few cm h = rw (h, handle_alloc_chunk, if◌then◌else◌) refl

  cluster-enough :
      (cm : ClusterMaster)
      → let nodes = get_online_nodes order cm.state_machine in
        let n = chunk_count req.file_size in
        let cmds = alloc_commands show chunk_name js now nodes cm.replica_count req n 0 n in
        ltb (length nodes) cm.replica_count ≡ false
        → handle_alloc_chunk show chunk_name js refusal now order req cm ≡ (
          record cm { raft_node = propose_all cmds cm.raft_node },
          granted req.request_id (map (λ c. c.1) cmds),
        )
  unfolding handle_alloc_chunk
  cluster-enough cm h = rw (h, handle_alloc_chunk, if◌then◌else◌) refl

  plain-few :
      (m : Master)
      → let nodes = available order m.datanodes in
        ltb (length nodes) m.replica_count ≡ true
        → Plain.handle_alloc_chunk show chunk_name refusal now order req m
          ≡ (m, turned_down req.request_id (refusal m.replica_count (length nodes)), [])
  unfolding Plain.handle_alloc_chunk
  plain-few m h = rw (h, Plain.handle_alloc_chunk, if◌then◌else◌) refl

  plain-enough :
      (m : Master)
      → let nodes = available order m.datanodes in
        let n = chunk_count req.file_size in
        let placed = place_chunks show chunk_name now nodes req n 0 n m in
        ltb (length nodes) m.replica_count ≡ false
        → Plain.handle_alloc_chunk show chunk_name refusal now order req m ≡ (
          placed.0,
          granted req.request_id (map (λ p. p.0) placed.1),
          map (λ p. (p.0.chunk_id, p.1)) placed.1,
        )
  unfolding Plain.handle_alloc_chunk
  plain-enough m h = rw (h, Plain.handle_alloc_chunk, if◌then◌else◌) refl

-- A leader handles a request for chunks. Some commands, which may be none, are then at the end of its log, and
-- when these are applied to the state machine one after the other, it has the files, chunks and nodes that
-- the master without Raft has after the same request; and the two responses are the same. This is on
-- condition that every node stands at its own id, and that the commands can be decoded.
pub handle_alloc_chunk-apply_all :
    (show : String → ℤ → String) (chunk_name : String → ℕ → String) (js : Encoders) (ds : Decoders)
    (period now : ℕ) (req : AllocChunkRequest) (refusal : ℕ → ℕ → String) (order : List String)
    (cm : ClusterMaster)
    → is_leader cm.raft_node ≡ true
    → Keyed cm.state_machine.datanodes
    → Decodes show chunk_name js ds cm.replica_count period now req
        (get_online_nodes order cm.state_machine)
        (chunk_count req.file_size)
    → let done = handle_alloc_chunk show chunk_name js refusal now order req cm in
      let k = cm.replica_count in
      let plain =
        Plain.handle_alloc_chunk show chunk_name refusal now order req
          (as_master k period cm.state_machine) in
      (cmds : List MetadataCommand) × (logged_commands done.0.raft_node
        ≡ logged_commands cm.raft_node ++ map some cmds)
      × (as_master k period (apply_all ds now cmds cm.state_machine) ≡ plain.0)
      × (done.1 ≡ plain.1)
unfolding apply_all
handle_alloc_chunk-apply_all show chunk_name js ds period now req refusal order cm leads keyed d =
    let nodes = get_online_nodes order cm.state_machine in
    let (ids, known) = online-available order cm.state_machine.datanodes keyed in
    let len : length nodes ≡ length (available order cm.state_machine.datanodes) =
      sym (length-ids_of nodes) ∙ ap length ids in
    let m = as_master cm.replica_count period cm.state_machine in
    let n = chunk_count req.file_size in
    let base = logged_commands cm.raft_node in
    elim (Bool-cases (ltb (length nodes) cm.replica_count)) [
      | inl few ↦
          let c = cluster-few show chunk_name js now req refusal order cm few in
          let p = plain-few show chunk_name js now req refusal order m (rw len at few) in
          (
            [],
            ap (λ q. logged_commands q.0.raft_node) c ∙ sym (append-nil base),
            sym (ap (λ q. q.0) p),
            ap (λ q. q.1) c
                ∙ ap (λ l. turned_down req.request_id (refusal cm.replica_count l)) len
                ∙ sym (ap (λ q. q.1) p),
          )
      | inr enough ↦
          let c = cluster-enough show chunk_name js now req refusal order cm enough in
          let p = plain-enough show chunk_name js now req refusal order m (rw len at enough) in
          let cmds = alloc_commands show chunk_name js now nodes cm.replica_count req n 0 n in
          let (states, told) =
            place_chunks-apply_all show chunk_name js ds cm.replica_count period now req nodes n 0 n
              cm.state_machine d known in
          let same = ap (λ l. place_chunks show chunk_name now l req n 0 n m) ids in
          (
            map (λ x. x.0) cmds,
            ap (λ q. logged_commands q.0.raft_node) c ∙ propose_all-leader cmds cm.raft_node leads,
            sym states ∙ ap (λ q. q.0) same ∙ sym (ap (λ q. q.0) p),
            ap (λ q. q.1) c
                ∙ ap (granted req.request_id) (sym told)
                ∙ ap (λ q. granted req.request_id (map (λ x. x.0) q.1)) same
                ∙ sym (ap (λ q. q.1) p),
          )
    ]
