-- ===== src/Raft/Commit/Scan.antt =====
-- internal/raft/raft.go, `updateCommitIndex`: which index is committed, and that one is found
-- without going out of the range of the log.
use lumeo_fs.Base.{
  ℕ, zero, suc, ◌≤◌, ◌<◌, ◌&&◌, Option, none, some, leb, ◌==◌, length, get_elem?, ◌≡◌, refl, ◌⊎◌,
  inl, inr, arith, Bool-cases, get_elem?-lt,
}
use lumeo_fs.Raft.Types.{LogEntry, RaftNode}
use lumeo_fs.Raft.Log.{last_log_index, majority}
use lumeo_fs.Raft.Commit.{replica_count, commit_scan, update_commit_index}
use lumeo_fs.Raft.Commit.Range.{last_log_index_lem, commit_to-some}

-- The entry at `n` is of the leader's term, and a majority holds it.
abbrev pub Committable : ℕ → RaftNode → Type 0
Committable n rn =
    (e : LogEntry) × (get_elem? rn.log n ≡ some e)
    × (e.term ≡ rn.current_term)
    × (majority rn ≤ replica_count n rn)

-- From `m` down there is nothing to commit above `n`.
abbrev pub NoneAbove : ℕ → ℕ → RaftNode → Type 0
NoneAbove n m rn = (k : ℕ) → n < k → k ≤ m → ¬ Committable k rn

-- What a scan from `m` down may answer.
abbrev pub Scanned : ℕ → RaftNode → Option ℕ → Type 0
Scanned m rn none = NoneAbove rn.commit_index m rn
Scanned m rn (some n) = (rn.commit_index < n) × (n ≤ m) × Committable n rn × NoneAbove n m rn

NoneAbove-suc :
    (n m : ℕ) (rn : RaftNode) → ¬ Committable (suc m) rn → NoneAbove n m rn → NoneAbove n (suc m) rn
NoneAbove-suc n m rn no' s k lt le c = elim (Bool-cases (k == suc m)) [
  | inl here ↦ let e : k ≡ suc m = ground arith in no' (rw e at c)
  | inr less ↦ s k lt (ground arith) c
]

Scanned-suc :
    (m : ℕ) (rn : RaftNode) (r : Option ℕ)
    → ¬ Committable (suc m) rn
    → Scanned m rn r
    → Scanned (suc m) rn r
Scanned-suc m rn none no' s = NoneAbove-suc rn.commit_index m rn no' s
Scanned-suc m rn (some n) no' s = (s.0, omega arith, s.2, NoneAbove-suc n m rn no' s.3)

commit_scan-Scanned :
    (m : ℕ) (rn : RaftNode)
    → m < length rn.log
    → (r : Option ℕ) × (commit_scan m rn ≡ some r) × Scanned m rn r
unfolding commit_scan
commit_scan-Scanned zero rn h = (none, refl, λ k lt le c. absurd (omega arith))
commit_scan-Scanned (suc m) rn h = elim (Bool-cases (leb (suc m) rn.commit_index)) [
  | inl low ↦ (none, ground arith, λ k lt le c. absurd (ground arith))
  | inr high ↦
      let (e, at) = get_elem?-lt rn.log (suc m) h in
      let (r, done, s) = commit_scan-Scanned m rn (omega arith) in
      elim (Bool-cases
        (e.term == rn.current_term && leb (majority rn) (replica_count (suc m) rn))) [
          | inl pass ↦ (
            some (suc m),
            ground arith,
            (
              ground arith,
              omega arith,
              (e, at, ground arith, ground arith),
              λ k lt le c. absurd (omega arith),
            ),
          )
          | inr fail ↦ (r, ground arith, Scanned-suc m rn r (λ (f, at', t, q). ground arith) s)
        ]
]

-- The commit index is left, or goes up to an index that may be committed, and is the last such.
pub record Advanced (a b : RaftNode) : Type 0 where
  pub same_log : b.log ≡ a.log
  pub chosen :
      (b.commit_index ≡ a.commit_index)
      ⊎ ((a.commit_index < b.commit_index) × Committable b.commit_index a)
  pub last : (k : ℕ) → b.commit_index < k → k < length a.log → ¬ Committable k a

advance :
    (rn : RaftNode) (r : Option ℕ)
    → 0 < length rn.log
    → commit_scan (last_log_index rn.log) rn ≡ some r
    → Scanned (last_log_index rn.log) rn r
    → (rn' : RaftNode) × (update_commit_index rn ≡ some rn') × Advanced rn rn'
unfolding update_commit_index
advance rn none w e s = (
  rn,
  rw (e, update_commit_index) refl,
  record {
    same_log = refl;
    chosen = inl refl;
    last = λ k lt le. s k lt (omega (arith, last_log_index_lem rn.log w));
  },
)
advance rn (some n) w e (up, le, c, none_above) =
    let l = last_log_index_lem rn.log w in
    let (rn', done, same, at) = commit_to-some n rn (omega (arith, l)) in
    (
      rn',
      rw (e, update_commit_index) done,
      record {
        same_log = same;
        chosen = inr (rw at (up, c));
        last = λ k lt lk. none_above k (omega (arith, at)) (omega (arith, l));
      },
    )

-- On a node whose log is not empty `updateCommitIndex` returns, and leaves the log. It leaves the
-- commit index, or sets it to a higher index, the entry at which is of the node's term and held by a
-- majority; no entry above the new commit index is both.
pub update_commit_index-Advanced :
    (rn : RaftNode)
    → 0 < length rn.log
    → (rn' : RaftNode) × (update_commit_index rn ≡ some rn') × Advanced rn rn'
update_commit_index-Advanced rn w =
    let (r, e, s) =
      commit_scan-Scanned (last_log_index rn.log) rn (omega (arith, last_log_index_lem rn.log w)) in
    advance rn r w e s
