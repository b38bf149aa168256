-- ===== src/Metadata/Effects.antt =====
-- internal/raft/state_machine.go: what single commands do.
use lumeo_fs.Base.{
  ℕ, String, true, none, some, List, [], ◌∷◌, ◌++◌, map, count, lookup, mem_text, ◌≡◌, refl, ap,
  ◌≢◌, inl, inr, arith, eq_iff, Bool-cases, str_eq_refl, lookup-insert, lookup-delete,
}
use lumeo_fs.Common.{ReplicaRole, is_primary, ChunkInfo, FileMetadata}
use lumeo_fs.Metadata.State.{
  StateMachine, AllocChunkData, delete_file, make_replicas, new_chunk, alloc_chunk,
}
use lumeo_fs.Metadata.Ownership.{Owned, lookup-delete_all}

-- In a state that keeps every listed chunk with its file, deleting a file that is there removes it
-- and the chunks that it lists; every other file is as before, and the chunks that it lists are too.
pub delete_file_lem :
    (id : String) (f : FileMetadata) (sm : StateMachine)
    → Owned sm
    → lookup id sm.files ≡ some f
    → (lookup id (delete_file id sm).files ≡ none)
      × ((c : String) → mem_text c f.chunk_ids ≡ true → lookup c (delete_file id sm).chunks ≡ none)
      × ((k : String) → k ≢ id → lookup k (delete_file id sm).files ≡ lookup k sm.files)
      × ((k c : String) (g : FileMetadata)
          → k ≢ id
          → lookup k sm.files ≡ some g
          → mem_text c g.chunk_ids ≡ true
          → lookup c (delete_file id sm).chunks ≡ lookup c sm.chunks)
unfolding delete_file
delete_file_lem id f sm o h = (
  ground (arith, lookup-delete id id sm.files, str_eq_refl id),
  λ c m. ground (arith, lookup-delete_all c f.chunk_ids sm.chunks),
  λ k ne. ground (arith, lookup-delete id k sm.files, eq_iff id k),
  λ k c g ne at m.
      let l = lookup-delete_all c f.chunk_ids sm.chunks in
      elim (Bool-cases (mem_text c f.chunk_ids)) [
        | inr safe ↦ ground (arith, l)
        | inl mine ↦
            let (a, pa, qa) = o.owned id c f h mine in
            let (b, pb, qb) = o.owned k c g at m in absurd (ne (ground arith))
      ],
)

secondaries :
    (now : ℕ) (c : String) (ns : List String)
    → (count (λ r. is_primary r.role) (make_replicas now c ReplicaRole.secondary ns) ≡ 0)
      × (map (λ r. r.node_id) (make_replicas now c ReplicaRole.secondary ns) ≡ ns)
unfolding make_replicas
secondaries now c [] = (refl, refl)
secondaries now c (n ∷ ns) = let (a, b) = secondaries now c ns in (omega (arith, a), ap (◌∷◌ n) b)

replicas-primary :
    (now : ℕ) (c : String) (ns : List String)
    → ns ≢ []
    → (count (λ r. is_primary r.role) (make_replicas now c ReplicaRole.primary ns) ≡ 1)
      × (map (λ r. r.node_id) (make_replicas now c ReplicaRole.primary ns) ≡ ns)
unfolding make_replicas
replicas-primary now c [] ne = absurd (ne refl)
replicas-primary now c (n ∷ ns) ne =
    let (a, b) = secondaries now c ns in (omega (arith, a), ap (◌∷◌ n) b)

alloc_chunk-chunk :
    (now : ℕ) (d : AllocChunkData) (sm : StateMachine)
    → lookup d.chunk_id (alloc_chunk now d sm).chunks ≡ some (new_chunk now d)
unfolding alloc_chunk
alloc_chunk-chunk now d sm =
    ground (
      arith,
      lookup-insert d.chunk_id d.chunk_id (new_chunk now d) sm.chunks,
      str_eq_refl d.chunk_id,
    )

alloc_chunk-file :
    (now : ℕ) (d : AllocChunkData) (f : FileMetadata) (sm : StateMachine)
    → lookup d.file_id sm.files ≡ some f
    → lookup d.file_id (alloc_chunk now d sm).files
      ≡ some (record f { chunk_ids = f.chunk_ids ++ d.chunk_id ∷ [] })
unfolding alloc_chunk
alloc_chunk-file now d f sm h = ground (
  arith,
  lookup-insert d.file_id d.file_id (record f { chunk_ids = f.chunk_ids ++ d.chunk_id ∷ [] })
      sm.files,
  str_eq_refl d.file_id,
)

-- The replicas of a chunk that is allocated on at least one node stand on the nodes of the command
-- in order, and exactly one of them is a primary.
pub alloc_chunk-primary :
    (now : ℕ) (d : AllocChunkData) (sm : StateMachine)
    → d.replicas ≢ []
    → (ch : ChunkInfo) × (lookup d.chunk_id (alloc_chunk now d sm).chunks ≡ some ch)
      × (count (λ r. is_primary r.role) ch.replicas ≡ 1)
      × (map (λ r. r.node_id) ch.replicas ≡ d.replicas)
alloc_chunk-primary now d sm ne =
    let (a, b) = replicas-primary now d.chunk_id d.replicas ne in
    (new_chunk now d, alloc_chunk-chunk now d sm, a, b)

-- The same allocation applied twice, to a file that is there, lists the chunk twice.
pub alloc_chunk_twice :
    (now now' : ℕ) (d : AllocChunkData) (f : FileMetadata) (sm : StateMachine)
    → lookup d.file_id sm.files ≡ some f
    → (g : FileMetadata) × (lookup d.file_id (alloc_chunk now' d (alloc_chunk now d sm)).files
        ≡ some g)
      × (g.chunk_ids ≡ (f.chunk_ids ++ d.chunk_id ∷ []) ++ d.chunk_id ∷ [])
alloc_chunk_twice now now' d f sm h =
    (_, alloc_chunk-file now' d _ (alloc_chunk now d sm) (alloc_chunk-file now d f sm h), refl)
