-- ===== src/Master/Files.antt =====
-- internal/master/master.go: files that are put, and found by their path.
use lumeo_fs.Base.{
  ℕ, String, true, none, some, List, [], ◌∷◌, Dict, str_eq, lookup, insert, mem_text, ◌≡◌, refl,
  sym, ap, ◌∙◌, ◌≢◌, inl, inr, arith, eq_iff, Bool-cases, Option-cases, str_eq_refl, lookup-insert,
}
use lumeo_fs.Common.{FileMetadata}
use lumeo_fs.Protocol.Messages.{PutFileRequest}
use lumeo_fs.Master.State.{Master, succeeded, handle_put_file, find_path, handle_get_file}

-- A file that is found has the path, and stands in the map.
find_path-found :
    (path : String) (order : List String) (files : Dict FileMetadata) (f : FileMetadata)
    → find_path path order files ≡ some f
    → (f.path ≡ path) × (id : String) × (lookup id files ≡ some f)
unfolding find_path
find_path-found path [] files f h = absurd (ground arith)
find_path-found path (id ∷ ids) files f h = elim (Option-cases (lookup id files)) [
  | inl n ↦ find_path-found path ids files f (ground arith)
  | inr (g, e) ↦ elim (Bool-cases (str_eq g.path path)) [
    | inl y ↦
        let same : g ≡ f = ground arith in
        (sym (ap (λ x. x.path) same) ∙ ground (arith, y, eq_iff g.path path), id, e ∙ ap some same)
    | inr n ↦ find_path-found path ids files f (ground arith)
  ]
]

-- A file whose id is visited is found, or another one with its path.
find_path-finds :
    (path id : String) (order : List String) (files : Dict FileMetadata) (f : FileMetadata)
    → mem_text id order ≡ true
    → lookup id files ≡ some f
    → f.path ≡ path
    → find_path path order files ≢ none
unfolding find_path
find_path-finds path id [] files f m e p n = ground arith
find_path-finds path id (k ∷ ks) files f m e p n = elim (Option-cases (lookup k files)) [
  | inl gone ↦ elim (Bool-cases (str_eq k id)) [
    | inl y ↦
        let same : k ≡ id = ground (arith, y, eq_iff k id) in
        absurd (ground (arith, rw same at gone))
    | inr o ↦ find_path-finds path id ks files f (ground arith) e p (ground arith)
  ]
  | inr (g, there) ↦ elim (Bool-cases (str_eq g.path path)) [
    | inl y ↦ ground arith
    | inr other ↦ elim (Bool-cases (str_eq k id)) [
      | inl y ↦
          let same : k ≡ id = ground (arith, y, eq_iff k id) in
          let equal : g ≡ f = ground (arith, rw same at there) in
          absurd (ground (arith, ap (λ x. x.path) equal, eq_iff g.path path))
      | inr o ↦ find_path-finds path id ks files f (ground arith) e p (ground arith)
    ]
  ]
]

-- After a file is put, a request for its path succeeds, in whatever order the files are visited that
-- comes to its id, if no file under another id has the path: the answer is the name and the size of
-- this file.
pub handle_get_file-handle_put_file :
    (now : ℕ) (id : String) (req : PutFileRequest) (request_id : String) (order : List String)
    (m : Master)
    → mem_text id order ≡ true
    → ((j : String) (f : FileMetadata)
        → lookup j m.files ≡ some f
        → f.path ≡ req.file_path
        → j ≡ id)
    → handle_get_file order
        (record { request_id = request_id; file_path = req.file_path })
        (handle_put_file now id req m).0
      ≡ record {
        base = succeeded request_id;
        file_name = req.file_name;
        file_size = req.file_size;
        bytes = [];
      }
unfolding handle_get_file handle_put_file
handle_get_file-handle_put_file now id req request_id order m visited only =
    let f : FileMetadata = record {
      id = id;
      name = req.file_name;
      path = req.file_path;
      size = req.file_size;
      chunk_ids = [];
      create_time = now;
      modify_time = now;
    } in
    let files = insert id f m.files in
    let here : lookup id files ≡ some f =
      lookup-insert id id f m.files ∙ rw (str_eq_refl id) refl in
    elim (Option-cases (find_path req.file_path order files)) [
      | inl n ↦ absurd (find_path-finds req.file_path id order files f visited here refl n)
      | inr (g, e) ↦
          let (p, j, there) = find_path-found req.file_path order files g e in
          let same : g ≡ f =
            let w = lookup-insert id j f m.files in
            elim (Bool-cases (str_eq id j)) [
              | inl y ↦
                  let one : some f ≡ some g = sym (w ∙ rw y refl) ∙ there in ground (arith, one)
              | inr o ↦
                  let old : lookup j m.files ≡ some g = sym (w ∙ rw o refl) ∙ there in
                  absurd (ground (arith, only j g old p, o, eq_iff id j))
            ] in
          rw (e, handle_get_file) (rw same refl)
    ]
