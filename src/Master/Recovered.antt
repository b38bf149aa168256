-- ===== src/Master/Recovered.antt =====
-- internal/master/master.go, internal/master/replica_manager.go: the primaries of the chunks, over all
-- operations of the master.
use lumeo_fs.Base.{
  ℕ, zero, suc, min, String, none, some, List, [], ◌∷◌, Dict, str_eq, length, count, lookup, insert,
  ◌≡◌, refl, ap, ◌∙◌, inl, inr, arith, Bool-cases, Option-cases, lt-length_of_get, lookup-insert,
  negsuc,
}
use lumeo_fs.Common.{ReplicaRole, is_primary, ReplicaInfo, ChunkInfo}
use lumeo_fs.Metadata.State.{make_replicas}
use lumeo_fs.Replicas.Manager.{
  mark_offline, need_primary_election, best_candidate, demote, promote, elect_new_primary,
  recover_replicas, handle_chunk_recovery, recover_all,
}
use lumeo_fs.Replicas.Primary.{elect_new_primary-Wins, length-demote}
use lumeo_fs.Master.State.{Master}
use lumeo_fs.Master.Alloc.{record_chunk}

-- Exactly one replica is the primary, where there are replicas.
abbrev pub OnePrimary : List ReplicaInfo → Type 0
OnePrimary rs = count (λ r. is_primary r.role) rs ≡ min 1 (length rs)

-- This holds of every chunk.
abbrev pub AllOnePrimary : Dict ChunkInfo → Type 0
AllOnePrimary chunks =
    (id : String) (c : ChunkInfo) → lookup id chunks ≡ some c → OnePrimary c.replicas

mark_offline-primaries :
    (node : String) (rs : List ReplicaInfo)
    → (count (λ r. is_primary r.role) (mark_offline node rs) ≡ count (λ r. is_primary r.role) rs)
      × (length (mark_offline node rs) ≡ length rs)
unfolding mark_offline
mark_offline-primaries node [] = (refl, refl)
mark_offline-primaries node (r ∷ rs) =
    let (a, b) = mark_offline-primaries node rs in
    elim (Bool-cases (str_eq r.node_id node)) [
      | inl y ↦ (rw y (omega (arith, a)), omega (arith, b))
      | inr n ↦ (rw n (omega (arith, a)), omega (arith, b))
    ]

length-promote : (k : ℕ) (rs : List ReplicaInfo) → length (promote k rs) ≡ length rs
unfolding promote
length-promote k [] = refl
length-promote zero (r ∷ rs) = refl
length-promote (suc k) (r ∷ rs) = ap suc (length-promote k rs)

length-elect_new_primary : (rs : List ReplicaInfo) → length (elect_new_primary rs) ≡ length rs
unfolding elect_new_primary
length-elect_new_primary rs = elim (Option-cases (best_candidate 0 rs none (negsuc 0))) [
  | inl n ↦ rw (n, elect_new_primary) refl
  | inr (k, e) ↦ rw (e, elect_new_primary) (length-promote k (demote rs) ∙ length-demote rs)
]

elect_new_primary-OnePrimary :
    (rs : List ReplicaInfo) → OnePrimary rs → OnePrimary (elect_new_primary rs)
elect_new_primary-OnePrimary rs h = elim (elect_new_primary-Wins rs) [
  | inl (same, b) ↦ rw same h
  | inr (k, r, (at, el, b), one, won) ↦
      omega (arith, one, length-elect_new_primary rs, lt-length_of_get rs k at)
]

recover_replicas-OnePrimary :
    (node : String) (rs : List ReplicaInfo) → OnePrimary rs → OnePrimary (recover_replicas node rs)
unfolding recover_replicas
recover_replicas-OnePrimary node rs h =
    let (a, b) = mark_offline-primaries node rs in
    let marked : OnePrimary (mark_offline node rs) = omega (arith, a, b, h) in
    elim (Bool-cases (need_primary_election node rs)) [
      | inl y ↦
          rw (y, recover_replicas) (elect_new_primary-OnePrimary (mark_offline node rs) marked)
      | inr n ↦ rw (n, recover_replicas) marked
    ]

pub insert-OnePrimary :
    (id : String) (c : ChunkInfo) (chunks : Dict ChunkInfo)
    → AllOnePrimary chunks
    → OnePrimary c.replicas
    → AllOnePrimary (insert id c chunks)
insert-OnePrimary id c chunks all one j d e = elim (Bool-cases (str_eq id j)) [
  | inl y ↦ let same : c ≡ d = ground (arith, lookup-insert id j c chunks) in rw (← same) one
  | inr n ↦ all j d (ground (arith, lookup-insert id j c chunks))
]

pub handle_chunk_recovery-OnePrimary :
    (node id : String) (chunks : Dict ChunkInfo)
    → AllOnePrimary chunks
    → AllOnePrimary (handle_chunk_recovery node id chunks)
unfolding handle_chunk_recovery
handle_chunk_recovery-OnePrimary node id chunks all = elim (Option-cases (lookup id chunks)) [
  | inl n ↦ rw (n, handle_chunk_recovery) all
  | inr (c, e) ↦
      rw (e, handle_chunk_recovery)
        (insert-OnePrimary id (record c { replicas = recover_replicas node c.replicas }) chunks all
          (recover_replicas-OnePrimary node c.replicas (all id c e)))
]

pub recover_all-OnePrimary :
    (node : String) (ids : List String) (chunks : Dict ChunkInfo)
    → AllOnePrimary chunks
    → AllOnePrimary (recover_all node ids chunks)
unfolding recover_all
recover_all-OnePrimary node [] chunks all = all
recover_all-OnePrimary node (id ∷ ids) chunks all =
    recover_all-OnePrimary node ids (handle_chunk_recovery node id chunks)
      (handle_chunk_recovery-OnePrimary node id chunks all)

secondaries :
    (now : ℕ) (id : String) (ns : List String)
    → count (λ r. is_primary r.role) (make_replicas now id ReplicaRole.secondary ns) ≡ 0
unfolding make_replicas
secondaries now id [] = refl
secondaries now id (n ∷ ns) = omega (arith, secondaries now id ns)

pub make_replicas-OnePrimary :
    (now : ℕ) (id : String) (ns : List String)
    → OnePrimary (make_replicas now id ReplicaRole.primary ns)
unfolding make_replicas
make_replicas-OnePrimary now id [] = refl
make_replicas-OnePrimary now id (n ∷ ns) = omega (arith, secondaries now id ns)

pub record_chunk-OnePrimary :
    (c : ChunkInfo) (m : Master)
    → AllOnePrimary m.chunks
    → OnePrimary c.replicas
    → AllOnePrimary (record_chunk c m).chunks
unfolding record_chunk
record_chunk-OnePrimary c m all one = elim (Option-cases (lookup c.file_id m.files)) [
  | inl n ↦ rw (n, record_chunk) (insert-OnePrimary c.id c m.chunks all one)
  | inr (f, e) ↦ rw (e, record_chunk) (insert-OnePrimary c.id c m.chunks all one)
]
