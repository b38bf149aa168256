-- ===== src/Metadata/Ownership.antt =====
-- internal/raft/state_machine.go: a chunk that a file lists is there and belongs to that file. A
-- command keeps that, unless it allocates a chunk again for another file.
use lumeo_fs.Base.{
  ℕ, ◌+◌, String, Bool, true, false, ◌||◌, Option, none, some, List, [], ◌∷◌, ◌++◌, Dict, str_eq,
  if◌then◌else◌, lookup, insert, delete, mem_text, u64, ◌≡◌, refl, inl, inr, arith, eq_iff,
  Bool-cases, Option-cases, lookup-insert, lookup-delete,
}
use lumeo_fs.Common.{ChunkInfo, FileMetadata}
use lumeo_fs.Raft.Types.{MetadataCommand}
use lumeo_fs.Metadata.State.{
  StateMachine, RegisterNodeData, CreateFileData, AllocChunkData, UpdateChunkData, Decoders,
  ApplyError, decoded, register_node, unregister_node, create_file, delete_all, delete_file,
  new_chunk, alloc_chunk, update_chunk, dispatch, apply,
}

abbrev pub OwnedBy : String → String → StateMachine → Type 0
OwnedBy c k sm = (ch : ChunkInfo) × (lookup c sm.chunks ≡ some ch) × (ch.file_id ≡ k)

-- Every chunk that a file lists is recorded, as a chunk of that file.
pub record Owned (sm : StateMachine) : Type 0 where
  pub owned :
      (k c : String) (f : FileMetadata)
      → lookup k sm.files ≡ some f
      → mem_text c f.chunk_ids ≡ true
      → OwnedBy c k sm

pub lookup-delete_all :
    (j : String) (cs : List String) (m : Dict ChunkInfo)
    → lookup j (delete_all cs m) ≡ (if mem_text j cs then none else lookup j m)
unfolding delete_all
lookup-delete_all j [] m = refl
lookup-delete_all j (c ∷ cs) m =
    ground (arith, lookup-delete_all j cs (delete c m), lookup-delete c j m)

mem_text-append :
    (k : String) (xs : List String) (y : String)
    → mem_text k (xs ++ y ∷ []) ≡ (mem_text k xs || str_eq y k)
mem_text-append k [] y = ground arith
mem_text-append k (x ∷ xs) y = ground (arith, mem_text-append k xs y)

create_file-Owned :
    (now : ℕ) (d : CreateFileData) (sm : StateMachine) → Owned sm → Owned (create_file now d sm)
unfolding create_file
create_file-Owned now d sm o = record {
  owned = λ k c f h m. elim (Bool-cases (str_eq d.file_id k)) [
    | inl here ↦ ground (
      arith,
      lookup-insert d.file_id k
          (record {
            id = d.file_id;
            name = d.file_name;
            path = d.file_path;
            size = d.file_size;
            chunk_ids = [];
            create_time = now;
            modify_time = now;
          })
          sm.files,
    )
    | inr other ↦ o.owned k c f (rw (lookup-insert, other) at h) m
  ];
}

delete_file-Owned : (id : String) (sm : StateMachine) → Owned sm → Owned (delete_file id sm)
unfolding delete_file
delete_file-Owned id sm o = elim (Option-cases (lookup id sm.files)) [
  | inl missing ↦ rw (missing, delete_file) o
  | inr (g, found) ↦
      rw (found, delete_file)
        (record {
          owned = λ k c f h m.
              let h' : lookup k sm.files ≡ some f = ground (arith, lookup-delete id k sm.files) in
              let (ch, at, by) = o.owned k c f h' m in
              let ne : str_eq id k ≡ false = ground (arith, lookup-delete id k sm.files) in
              elim (Bool-cases (mem_text c g.chunk_ids)) [
                | inl mine ↦
                    let (ch', at', by') = o.owned id c g found mine in
                    absurd (ground (arith, eq_iff id k))
                | inr safe ↦ (ch, ground (arith, lookup-delete_all c g.chunk_ids sm.chunks), by)
              ];
        })
]

-- A chunk recorded anew for the same file leaves every chunk with its file.
OwnedBy-insert :
    (id : String) (new : ChunkInfo) (c k : String) (sm : StateMachine)
    → ((ch : ChunkInfo) → lookup id sm.chunks ≡ some ch → ch.file_id ≡ new.file_id)
    → OwnedBy c k sm
    → OwnedBy c k (record sm { chunks = insert id new sm.chunks })
OwnedBy-insert id new c k sm fresh (ch, at, by) =
    let l = lookup-insert id c new sm.chunks in
    elim (Bool-cases (str_eq id c)) [
      | inl here ↦ (new, ground (arith, l), ground (arith, eq_iff id c, fresh ch))
      | inr other ↦ (ch, ground (arith, l), by)
    ]

alloc_chunk-Owned :
    (now : ℕ) (d : AllocChunkData) (sm : StateMachine)
    → ((ch : ChunkInfo) → lookup d.chunk_id sm.chunks ≡ some ch → ch.file_id ≡ d.file_id)
    → Owned sm
    → Owned (alloc_chunk now d sm)
unfolding alloc_chunk
alloc_chunk-Owned now d sm fresh o = elim (Option-cases (lookup d.file_id sm.files)) [
  | inl missing ↦
      rw (missing, alloc_chunk)
        (record {
          owned = λ k c f h m.
              OwnedBy-insert d.chunk_id (new_chunk now d) c k sm fresh (o.owned k c f h m);
        })
  | inr (g, found) ↦
      rw (found, alloc_chunk)
        (record {
          owned = λ k c f h m.
              let g' : FileMetadata = record g { chunk_ids = g.chunk_ids ++ d.chunk_id ∷ [] } in
              let l = lookup-insert d.file_id k g' sm.files in
              elim (Bool-cases (str_eq d.file_id k)) [
                | inr other ↦
                    OwnedBy-insert d.chunk_id (new_chunk now d) c k sm fresh
                      (o.owned k c f (ground (arith, l)) m)
                | inl here ↦ elim (Bool-cases (str_eq d.chunk_id c)) [
                  | inl new ↦ (
                    new_chunk now d,
                    ground (arith, lookup-insert d.chunk_id c (new_chunk now d) sm.chunks),
                    ground (arith, eq_iff d.file_id k),
                  )
                  | inr old ↦
                      let m' : mem_text c g.chunk_ids ≡ true =
                        ground (arith, l, mem_text-append c g.chunk_ids d.chunk_id) in
                      OwnedBy-insert d.chunk_id (new_chunk now d) c k sm fresh
                        (o.owned k c g (ground (arith, eq_iff d.file_id k)) m')
                ]
              ];
        })
]

update_chunk-Owned :
    (d : UpdateChunkData) (sm : StateMachine) → Owned sm → Owned (update_chunk d sm)
unfolding update_chunk
update_chunk-Owned d sm o = elim (Option-cases (lookup d.chunk_id sm.chunks)) [
  | inl missing ↦ rw (missing, update_chunk) o
  | inr (g, found) ↦
      rw (found, update_chunk)
        (record {
          owned = λ k c f h m.
              let (ch, at, by) = o.owned k c f h m in
              let new : ChunkInfo = record g { checksum = d.checksum; size = d.size } in
              let l = lookup-insert d.chunk_id c new sm.chunks in
              elim (Bool-cases (str_eq d.chunk_id c)) [
                | inl here ↦ (new, ground (arith, l), ground (arith, eq_iff d.chunk_id c))
                | inr other ↦ (ch, ground (arith, l), by)
              ];
        })
]

-- What a command asks for, if it allocates: a chunk that is there already belongs to the file it is
-- allocated for.
abbrev pub NoTheft : Decoders → MetadataCommand → StateMachine → Type 0
NoTheft js cmd sm =
    (d : AllocChunkData) (ch : ChunkInfo)
    → str_eq cmd.kind "ALLOC_CHUNK" ≡ true
    → js.alloc_chunk cmd.value ≡ some d
    → lookup d.chunk_id sm.chunks ≡ some ch
    → ch.file_id ≡ d.file_id

decoded-Owned {ℓ} :
    {A : Type ℓ} (o : Option A) (f : A → StateMachine → StateMachine) (sm : StateMachine)
    → Owned sm
    → ((d : A) → o ≡ some d → Owned (f d sm))
    → Owned (decoded o f sm).0
decoded-Owned none f sm o h = o
decoded-Owned (some d) f sm o h = h d refl

if-Owned :
    (b : Bool) (x y : StateMachine × Option ApplyError)
    → (b ≡ true → Owned x.0)
    → Owned y.0
    → Owned (if b then x else y).0
if-Owned true x y hx hy = hx refl
if-Owned false x y hx hy = hy

register_node-Owned :
    (now : ℕ) (d : RegisterNodeData) (sm : StateMachine) → Owned sm → Owned (register_node now d sm)
unfolding register_node
register_node-Owned now d sm o = record { owned = o.owned }

unregister_node-Owned : (id : String) (sm : StateMachine) → Owned sm → Owned (unregister_node id sm)
unfolding unregister_node
unregister_node-Owned id sm o = elim (Option-cases (lookup id sm.datanodes)) [
  | inl missing ↦ rw (missing, unregister_node) o
  | inr (n, found) ↦ rw (found, unregister_node) (record { owned = o.owned })
]

-- A command keeps every listed chunk recorded with its file, whether the command succeeds or fails:
-- any command that does not allocate, and an allocation of a chunk that is not there, or is there and
-- belongs to the file of the allocation.
pub apply-Owned :
    (js : Decoders) (now : ℕ) (cmd : MetadataCommand) (sm : StateMachine)
    → NoTheft js cmd sm
    → Owned sm
    → Owned (apply js now cmd sm).0
unfolding dispatch apply
apply-Owned js now cmd sm0 fresh o0 =
    let sm = record sm0 { version = u64 (sm0.version + 1) } in
    let o : Owned sm = record { owned = o0.owned } in
    if-Owned _ _ _
      (λ k.
        decoded-Owned (js.register_node cmd.value) (register_node now) sm o
          (λ d e. register_node-Owned now d sm o))
      (if-Owned _ _ _ (λ k. unregister_node-Owned cmd.key sm o)
        (if-Owned _ _ _
          (λ k.
            decoded-Owned (js.create_file cmd.value) (create_file now) sm o
              (λ d e. create_file-Owned now d sm o))
          (if-Owned _ _ _ (λ k. delete_file-Owned cmd.key sm o)
            (if-Owned _ _ _
              (λ k.
                decoded-Owned (js.alloc_chunk cmd.value) (alloc_chunk now) sm o
                  (λ d e. alloc_chunk-Owned now d sm (λ ch. fresh d ch k e) o))
              (if-Owned _ _ _
                (λ k.
                  decoded-Owned (js.update_chunk cmd.value) update_chunk sm o
                    (λ d e. update_chunk-Owned d sm o))
                o)))))
