-- ===== src/ClusterMaster/Applied.antt =====
-- internal/master/cluster_master.go, internal/raft/state_machine.go: the commands to allocate chunks, applied
-- to the state machine, against the loop of the master without Raft.
use lumeo_fs.Base.{
  ℕ, zero, suc, ◌+◌, min, String, some, List, [], ◌∷◌, map, length, All, lookup, u64, ◌≡◌, refl,
  sym, ap, ◌∙◌, inl, inr, Option-cases, ℤ,
}
use mathlib.Core.Path.{subst}
use lumeo_fs.Common.{DataNodeInfo}
use lumeo_fs.Raft.Types.{MetadataCommand}
use lumeo_fs.Metadata.State.{
  StateMachine, AllocChunkData, Decoders, new_chunk, alloc_chunk, dispatch, apply,
}
use lumeo_fs.Protocol.Messages.{AllocChunkRequest, ChunkLocation}
use lumeo_fs.Master.State.{Master}
use lumeo_fs.Master.Alloc.{
  size_of, pick, replica_infos, first_address, alloc_info, record_chunk, place_chunk, place_chunks,
}
use lumeo_fs.Master.Placement.{record_chunk-same}
use lumeo_fs.ClusterMaster.Handlers.{Encoders}
use lumeo_fs.ClusterMaster.Alloc.{alloc_data, alloc_command, location, alloc_commands}
use lumeo_fs.ClusterMaster.Picked.{ids_of, length-ids_of, Known, pick-ids_of, pick-Known, addresses}

-- The master without Raft that has the metadata of a state machine.
abbrev pub as_master : ℕ → ℕ → StateMachine → Master
as_master replica_count period sm = record {
  files = sm.files;
  chunks = sm.chunks;
  datanodes = sm.datanodes;
  replica_count = replica_count;
  heartbeat_period = period;
}

-- The state machine after commands that are applied one after the other.
unfoldable pub apply_all : Decoders → ℕ → List MetadataCommand → StateMachine → StateMachine
apply_all ds now [] sm = sm
apply_all ds now (cmd ∷ cmds) sm = apply_all ds now cmds (apply ds now cmd sm).0

as_master-alloc_chunk :
    (k period now : ℕ) (d : AllocChunkData) (sm : StateMachine)
    → as_master k period (alloc_chunk now d sm)
      ≡ record_chunk (new_chunk now d) (as_master k period sm)
unfolding alloc_chunk record_chunk
as_master-alloc_chunk k period now d sm = elim (Option-cases (lookup d.file_id sm.files)) [
  | inl n ↦ rw (n, alloc_chunk, record_chunk) refl
  | inr (f, e) ↦ rw (e, alloc_chunk, record_chunk) refl
]

module _ (show : String → ℤ → String) (chunk_name : String → ℕ → String) (js : Encoders)
    (ds : Decoders) (k period now : ℕ) (req : AllocChunkRequest) where
  -- A command to allocate a chunk, applied.
  apply-alloc_command :
      (d : AllocChunkData) (sm : StateMachine)
      → ds.alloc_chunk (js.alloc_chunk d) ≡ some d
      → as_master k period (apply ds now (alloc_command show chunk_name js now d) sm).0
        ≡ record_chunk (new_chunk now d) (as_master k period sm)
  unfolding apply dispatch
  apply-alloc_command d sm e =
      rw e (as_master-alloc_chunk k period now d (record sm { version = u64 (sm.version + 1) }))

  -- The data of the command for chunk `i` of `n`.
  abbrev pub data_at : List DataNodeInfo → ℕ → ℕ → AllocChunkData
  data_at nodes n i = alloc_data show chunk_name js req n i (pick nodes i 0 (min k (length nodes)))

  -- `json.Unmarshal` reads back the data of each of the commands.
  abbrev pub Decodes : List DataNodeInfo → ℕ → Type 0
  Decodes nodes n =
      (i : ℕ) → ds.alloc_chunk (js.alloc_chunk (data_at nodes n i)) ≡ some (data_at nodes n i)

  -- The commands of the loop from chunk `i` on.
  abbrev commands : List DataNodeInfo → ℕ → ℕ → ℕ → List (MetadataCommand × ChunkLocation)
  commands nodes n i rounds = alloc_commands show chunk_name js now nodes k req n i rounds

  abbrev located : ℕ → ℕ → List String → String → ChunkLocation
  located n i told first = record {
    chunk_id = chunk_name req.file_id i;
    index = i;
    size = size_of req.file_size n i;
    nodes = told;
    primary = first;
  }

  -- One round.
  place_chunk-apply :
      (nodes : List DataNodeInfo) (n i : ℕ) (sm : StateMachine)
      → ds.alloc_chunk (js.alloc_chunk (data_at nodes n i)) ≡ some (data_at nodes n i)
      → All (Known sm.datanodes) nodes
      → let placed =
          place_chunk show chunk_name now (ids_of nodes) req n i (as_master k period sm) in
        (placed.0
          ≡ as_master k period
              (apply ds now (alloc_command show chunk_name js now (data_at nodes n i)) sm).0)
        × (placed.1.0 ≡ location show chunk_name js req n i (pick nodes i 0 (min k (length nodes))))
  unfolding place_chunk
  place_chunk-apply nodes n i sm e known =
      let rounds = min k (length nodes) in
      let picked = pick nodes i 0 rounds in
      let same : pick (ids_of nodes) i 0 (min k (length (ids_of nodes))) ≡ ids_of picked =
        ap (λ l. pick (ids_of nodes) i 0 (min k l)) (length-ids_of nodes)
        ∙ pick-ids_of nodes i 0 rounds in
      let (told, first) =
        addresses show sm.datanodes "PRIMARY" picked
          (pick-Known sm.datanodes nodes i 0 rounds known) in
      (
        ap
              (λ ids.
                record_chunk
                  (alloc_info now (chunk_name req.file_id i) req.file_id i
                    (size_of req.file_size n i) ids)
                  (as_master k period sm))
              same
            ∙ sym (apply-alloc_command (data_at nodes n i) sm e),
        ap
              (λ ids.
                let infos = replica_infos show sm.datanodes "PRIMARY" ids in
                located n i (map (λ r. r.address) infos) (first_address infos))
              same
            ∙ ap
                (λ t.
                  located n i t
                    (first_address (replica_infos show sm.datanodes "PRIMARY" (ids_of picked))))
                told
            ∙ ap (located n i (map (λ x. show x.address x.port) picked)) first,
      )

  pub place_chunks-apply_all :
      (nodes : List DataNodeInfo) (n i rounds : ℕ) (sm : StateMachine)
      → Decodes nodes n
      → All (Known sm.datanodes) nodes
      → let cmds = commands nodes n i rounds in
        let placed =
          place_chunks show chunk_name now (ids_of nodes) req n i rounds (as_master k period sm) in
        (placed.0 ≡ as_master k period (apply_all ds now (map (λ c. c.0) cmds) sm))
        × (map (λ p. p.0) placed.1 ≡ map (λ c. c.1) cmds)
  unfolding place_chunks alloc_commands apply_all
  place_chunks-apply_all nodes n i zero sm d known = (refl, refl)
  place_chunks-apply_all nodes n i (suc rounds) sm d known =
      let (state, told) = place_chunk-apply nodes n i sm (d i) known in
      let sm' = (apply ds now (alloc_command show chunk_name js now (data_at nodes n i)) sm).0 in
      let kept : sm'.datanodes ≡ sm.datanodes =
        ap {A = Master} (λ m. m.datanodes) (apply-alloc_command (data_at nodes n i) sm (d i))
        ∙ (record_chunk-same (new_chunk now (data_at nodes n i)) (as_master k period sm)).0 in
      let (states, tolds) =
        place_chunks-apply_all nodes n (suc i) rounds sm' d
          (subst (λ x. All (Known x) nodes) (sym kept) known) in
      (
        ap (λ m. (place_chunks show chunk_name now (ids_of nodes) req n (suc i) rounds m).0) state
            ∙ states,
        ap
              (◌∷◌ (
                (place_chunk show chunk_name now (ids_of nodes) req n i
                  (as_master k period sm)).1.0))
              (ap
                  (λ m.
                    map (λ p. p.0)
                      (place_chunks show chunk_name now (ids_of nodes) req n (suc i) rounds m).1)
                  state
                ∙ tolds)
            ∙ ap (λ c. c ∷ map (λ c. c.1) (commands nodes n (suc i) rounds)) told,
      )
