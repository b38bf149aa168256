-- ===== src/Metadata/Tests.antt =====
-- internal/raft/state_machine.go: a file with two chunks, its deletion, and a chunk allocated twice.
use lumeo_fs.Base.{
  String, true, none, some, [], ◌∷◌, ◌++◌, map, count, lookup, insert, mem_text, ◌≡◌, refl, ◌≢◌,
  arith, pos,
}
use lumeo_fs.Common.{is_primary, ChunkInfo, FileMetadata}
use lumeo_fs.Raft.Types.{MetadataCommand}
use lumeo_fs.Metadata.State.{
  StateMachine, new_state_machine, CreateFileData, AllocChunkData, Decoders, register_node,
  unregister_node, create_file, delete_all, delete_file, make_replicas, alloc_chunk, update_chunk,
  dispatch, apply,
}
use lumeo_fs.Metadata.Ownership.{Owned, apply-Owned}
use lumeo_fs.Metadata.Effects.{delete_file_lem, alloc_chunk-primary, alloc_chunk_twice}

abbrev file_data : CreateFileData
file_data = record {
  file_id = "f";
  file_name = "a";
  file_path = "/a";
  file_size = pos 9;
  checksum = "";
}

abbrev chunk_data : AllocChunkData
chunk_data = record {
  chunk_id = "c";
  file_id = "f";
  index = pos 0;
  size = pos 9;
  replicas = "d1" ∷ "d2" ∷ [];
}

-- A decoder of the two values that the commands below hold.
abbrev json : Decoders
json = record {
  register_node = λ _. none;
  create_file = λ _. some file_data;
  alloc_chunk = λ _. some chunk_data;
  update_chunk = λ _. none;
}

abbrev create_command : MetadataCommand
create_command = record { kind = "CREATE_FILE"; key = "f"; value = 123 ∷ 125 ∷ []; timestamp = 1 }

abbrev alloc_command : MetadataCommand
alloc_command = record { kind = "ALLOC_CHUNK"; key = "c"; value = 123 ∷ 125 ∷ []; timestamp = 1 }

code : Unit {0}
unfolding lookup insert register_node unregister_node create_file delete_all delete_file
    make_replicas alloc_chunk update_chunk dispatch apply
code = tt

no_files : (k : String) → lookup k new_state_machine.files ≡ none
unfolding code
no_files k = refl

no_chunks : (k : String) → lookup k new_state_machine.chunks ≡ none
unfolding code
no_chunks k = refl

new_state_machine-Owned : Owned new_state_machine
new_state_machine-Owned = record { owned = λ k c f h m. absurd (ground (arith, no_files k)) }

abbrev created : StateMachine
created = (apply json 1 create_command new_state_machine).0

abbrev allocated : StateMachine
allocated = (apply json 2 alloc_command created).0

created-Owned : Owned created
created-Owned =
    apply-Owned json 1 create_command new_state_machine
      (λ d ch a e h. absurd (cc (no_chunks d.chunk_id))) new_state_machine-Owned

no_chunks_yet : (k : String) → lookup k created.chunks ≡ none
unfolding code
no_chunks_yet k = refl

allocated-Owned : Owned allocated
allocated-Owned =
    apply-Owned json 2 alloc_command created (λ d ch a e h. absurd (cc (no_chunks_yet d.chunk_id)))
      created-Owned

-- An update of the chunk that is there. Its value can be decoded as that of an allocation too, with
-- no file.
abbrev update_json : Decoders
update_json = record json {
  alloc_chunk = λ _. some (record chunk_data { file_id = ""; replicas = [] });
  update_chunk =
      λ _. some (record { chunk_id = "c"; version = pos 1; checksum = "sum"; size = pos 7 });
}

abbrev update_command : MetadataCommand
update_command = record { kind = "UPDATE_CHUNK"; key = "c"; value = 123 ∷ 125 ∷ []; timestamp = 3 }

apply-Owned_example : Owned (apply update_json 3 update_command allocated).0
apply-Owned_example =
    apply-Owned update_json 3 update_command allocated (λ d ch a e h. absurd (ground (arith, a)))
      allocated-Owned

file_there : (f : FileMetadata) × (lookup "f" allocated.files ≡ some f) × (f.chunk_ids ≡ "c" ∷ [])
unfolding code
file_there = (_, refl, refl)

delete_file_lem_example :
    (lookup "f" (delete_file "f" allocated).files ≡ none)
    × ((c : String)
        → mem_text c file_there.0.chunk_ids ≡ true
        → lookup c (delete_file "f" allocated).chunks ≡ none)
    × ((k : String)
        → k ≢ "f"
        → lookup k (delete_file "f" allocated).files ≡ lookup k allocated.files)
    × ((k c : String) (g : FileMetadata)
        → k ≢ "f"
        → lookup k allocated.files ≡ some g
        → mem_text c g.chunk_ids ≡ true
        → lookup c (delete_file "f" allocated).chunks ≡ lookup c allocated.chunks)
delete_file_lem_example = delete_file_lem "f" file_there.0 allocated allocated-Owned file_there.1

alloc_chunk-primary_example :
    (ch : ChunkInfo) × (lookup "c" (alloc_chunk 2 chunk_data created).chunks ≡ some ch)
    × (count (λ r. is_primary r.role) ch.replicas ≡ 1)
    × (map (λ r. r.node_id) ch.replicas ≡ "d1" ∷ "d2" ∷ [])
alloc_chunk-primary_example = alloc_chunk-primary 2 chunk_data created (λ e. absurd (ground arith))

alloc_chunk_twice_example :
    (g : FileMetadata) × (lookup "f"
        (alloc_chunk 4 chunk_data (alloc_chunk 3 chunk_data allocated)).files
      ≡ some g)
    × (g.chunk_ids ≡ (file_there.0.chunk_ids ++ "c" ∷ []) ++ "c" ∷ [])
alloc_chunk_twice_example = alloc_chunk_twice 3 4 chunk_data file_there.0 allocated file_there.1
