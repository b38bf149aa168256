-- ===== src/Master/Placement.antt =====
-- internal/master/master.go: the replicas of the chunks of a file.
use lumeo_fs.Base.{
  ℕ, zero, suc, ◌+◌, ◌%◌, ◌≤◌, ◌<◌, min, String, true, false, some, List, [], ◌∷◌, map, Dict, ltb,
  str_eq, if◌then◌else◌, length, get_elem?, count, All, lookup, ◌≡◌, refl, sym, ap, ◌∙◌, inl, inr,
  arith, Option-cases, ℤ,
}
use mathlib.Core.Path.{subst}
use lumeo_fs.Common.{is_online, DataNodeInfo, ChunkInfo}
use lumeo_fs.Protocol.Messages.{AllocChunkRequest, ReplicaNodeInfo}
use lumeo_fs.Master.State.{Master}
use lumeo_fs.Master.Alloc.{
  available, chunk_count, pick, replica_infos, Placed, place_chunk, place_chunks, record_chunk,
  alloc_info, size_of, handle_alloc_chunk,
}
use lumeo_fs.Master.Nodes.{
  Distinct, Distinct-OncePlaced, OncePlaced-Distinct, get_elem?-pick, length-pick, pick-OncePlaced,
  available-online, available-Distinct,
}

-- A node that is online.
abbrev pub Online : Dict DataNodeInfo → String → Type 0
Online nodes id = (n : DataNodeInfo) × (lookup id nodes ≡ some n) × (is_online n.status ≡ true)

abbrev pub names : List ReplicaNodeInfo → List String
names = map (λ r. r.node_id)

abbrev pub primaries : List ReplicaNodeInfo → ℕ
primaries = count (λ r. str_eq r.role "PRIMARY")

-- The replicas of a chunk: as many as configured, on different nodes that are online, and one of them
-- the primary.
pub record WellPlaced (n : ℕ) (nodes : Dict DataNodeInfo) (rs : List ReplicaNodeInfo) : Type 0 where
  pub number : length rs ≡ n
  pub different : Distinct (names rs)
  pub reachable : All (Online nodes) (names rs)
  pub one_primary : primaries rs ≡ 1

names-replica_infos :
    (show : String → ℤ → String) (nodes : Dict DataNodeInfo) (role : String) (ids : List String)
    → names (replica_infos show nodes role ids) ≡ ids
unfolding replica_infos
names-replica_infos show nodes role [] = refl
names-replica_infos show nodes role (id ∷ ids) =
    ap (◌∷◌ id) (names-replica_infos show nodes "SECONDARY" ids)

length-names : (rs : List ReplicaNodeInfo) → length rs ≡ length (names rs)
length-names [] = refl
length-names (r ∷ rs) = ap suc (length-names rs)

primaries-secondary :
    (show : String → ℤ → String) (nodes : Dict DataNodeInfo) (ids : List String)
    → primaries (replica_infos show nodes "SECONDARY" ids) ≡ 0
unfolding replica_infos
primaries-secondary show nodes [] = refl
primaries-secondary show nodes (id ∷ ids) = omega (arith, primaries-secondary show nodes ids)

primaries-replica_infos :
    (show : String → ℤ → String) (nodes : Dict DataNodeInfo) (ids : List String)
    → 0 < length ids
    → primaries (replica_infos show nodes "PRIMARY" ids) ≡ 1
unfolding replica_infos
primaries-replica_infos show nodes [] h = absurd (omega arith)
primaries-replica_infos show nodes (id ∷ ids) h = omega (arith, primaries-secondary show nodes ids)

All-get :
    (P : String → Type 0) (l : List String) (k : ℕ) (x : String)
    → All P l
    → get_elem? l k ≡ some x
    → P x
All-get P [] k x h e = absurd (ground arith)
All-get P (y ∷ l) zero x (p, h) e = let same : y ≡ x = ground arith in rw (← same) p
All-get P (y ∷ l) (suc k) x (p, h) e = All-get P l k x h e

All-of_get :
    (P : String → Type 0) (l : List String)
    → ((k : ℕ) (x : String) → get_elem? l k ≡ some x → P x)
    → All P l
All-of_get P [] h = tt
All-of_get P (y ∷ l) h = (h 0 y refl, All-of_get P l (λ k x e. h (suc k) x e))

pub record_chunk-same :
    (c : ChunkInfo) (m : Master)
    → ((record_chunk c m).datanodes ≡ m.datanodes)
      × ((record_chunk c m).replica_count ≡ m.replica_count)
unfolding record_chunk
record_chunk-same c m = elim (Option-cases (lookup c.file_id m.files)) [
  | inl n ↦ rw (n, record_chunk) (refl, refl)
  | inr (f, e) ↦ rw (e, record_chunk) (refl, refl)
]

All-notified :
    (P : List ReplicaNodeInfo → Type 0) (placed : List Placed)
    → All (λ (p : Placed). P p.1) placed
    → All (λ (p : String × List ReplicaNodeInfo). P p.1) (map (λ p. (p.0.chunk_id, p.1)) placed)
All-notified P [] h = tt
All-notified P (p ∷ ps) (q, h) = (q, All-notified P ps h)

module _ (show : String → ℤ → String) (chunk_name : String → ℕ → String) where
  -- The replicas of one chunk.
  replica_infos-WellPlaced :
      (known : Dict DataNodeInfo) (nodes : List String) (n i : ℕ)
      → 0 < n
      → n ≤ length nodes
      → Distinct nodes
      → All (Online known) nodes
      → WellPlaced n known
          (replica_infos show known "PRIMARY" (pick nodes i 0 (min n (length nodes))))
  replica_infos-WellPlaced known nodes n i some_replicas enough d on =
      let r : min n (length nodes) ≡ n = omega arith in
      let has : 0 < length nodes = omega (arith, some_replicas, enough) in
      let ids = pick nodes i 0 (min n (length nodes)) in
      let len = length-pick nodes i 0 (min n (length nodes)) has in
      let same = names-replica_infos show known "PRIMARY" ids in
      let infos = replica_infos show known "PRIMARY" ids in
      let once =
        pick-OncePlaced nodes i (min n (length nodes)) (omega arith)
          (Distinct-OncePlaced nodes d) in
      let there : (k : ℕ) (x : String) → get_elem? ids k ≡ some x → Online known x = λ k x e.
        All-get (Online known) nodes ((i + (0 + k)) % length nodes) x on
          ((get_elem?-pick nodes i 0 (min n (length nodes)) k x has e).1) in
      record {
        number = length-names infos ∙ ap length same ∙ len ∙ r;
        different = subst Distinct (sym same) (OncePlaced-Distinct ids once);
        reachable = subst (All (Online known)) (sym same) (All-of_get (Online known) ids there);
        one_primary = primaries-replica_infos show known ids (omega (arith, len, r, some_replicas));
      }

  place_chunks-WellPlaced :
      (now : ℕ) (nodes : List String) (req : AllocChunkRequest) (n i rounds : ℕ) (m : Master)
      → 0 < m.replica_count
      → m.replica_count ≤ length nodes
      → Distinct nodes
      → All (Online m.datanodes) nodes
      → All
          (λ p. WellPlaced m.replica_count m.datanodes p.1)
          (place_chunks show chunk_name now nodes req n i rounds m).1
  unfolding place_chunks place_chunk
  place_chunks-WellPlaced now nodes req n i zero m some_replicas enough d on = tt
  place_chunks-WellPlaced now nodes req n i (suc rounds) m some_replicas enough d on =
      let m' = (place_chunk show chunk_name now nodes req n i m).0 in
      let (s, t) =
        record_chunk-same
          (alloc_info now (chunk_name req.file_id i) req.file_id i (size_of req.file_size n i)
            (pick nodes i 0 (min m.replica_count (length nodes))))
          m in
      (
        replica_infos-WellPlaced m.datanodes nodes m.replica_count i some_replicas enough d on,
        subst
            (λ k.
              All (λ p. WellPlaced k m.datanodes p.1)
                (place_chunks show chunk_name now nodes req n (suc i) rounds m').1)
            t
            (subst
              (λ x.
                All (λ p. WellPlaced m'.replica_count x p.1)
                  (place_chunks show chunk_name now nodes req n (suc i) rounds m').1)
              s
              (place_chunks-WellPlaced now nodes req n (suc i) rounds m'
                (omega (arith, t, some_replicas)) (omega (arith, t, enough)) d
                (subst (λ x. All (Online x) nodes) (sym s) on))),
      )

  -- The notifications of an allocation, where one replica at least is configured and as many nodes as
  -- configured are online: the replicas of each chunk are as many as configured, on different nodes
  -- that are online, and exactly one is the primary.
  pub handle_alloc_chunk-WellPlaced :
      (refusal : ℕ → ℕ → String) (now : ℕ) (order : List String) (req : AllocChunkRequest)
      (m : Master)
      → Distinct order
      → 0 < m.replica_count
      → m.replica_count ≤ length (available order m.datanodes)
      → All
          (λ p. WellPlaced m.replica_count m.datanodes p.1)
          (handle_alloc_chunk show chunk_name refusal now order req m).2
  unfolding handle_alloc_chunk
  handle_alloc_chunk-WellPlaced refusal now order req m d some_replicas enough =
      let nodes = available order m.datanodes in
      let n = chunk_count req.file_size in
      let ok : ltb (length nodes) m.replica_count ≡ false = ground arith in
      let placed =
        place_chunks-WellPlaced now nodes req n 0 n m some_replicas enough
          (available-Distinct order m.datanodes d) (available-online order m.datanodes) in
      rw (ok, handle_alloc_chunk, if◌then◌else◌)
        (All-notified (WellPlaced m.replica_count m.datanodes)
          (place_chunks show chunk_name now nodes req n 0 n m).1 placed)
