-- ===== src/Raft/Commit/Range.antt =====
-- internal/raft/raft.go: the offers of a commit stay in the range of the log.
use lumeo_fs.Base.{
  ℕ, zero, suc, ◌+◌, ◌-◌, ◌≤◌, ◌<◌, some, List, [], ◌∷◌, length, ◌≡◌, refl, arith, get_elem?-lt,
}
use lumeo_fs.Raft.Types.{LogEntry, RaftNode}
use lumeo_fs.Raft.Log.{last_log_index, last_log_term}
use lumeo_fs.Raft.Commit.{offer, notify, commit_to}

pub last_log_index_lem :
    (log : List LogEntry) → 0 < length log → last_log_index log + 1 ≡ length log
unfolding last_log_index
last_log_index_lem [] h = absurd (omega arith)
last_log_index_lem (e ∷ log) h = omega arith

pub last_log_term_some :
    (log : List LogEntry) → 0 < length log → (t : ℕ) × (last_log_term log ≡ some t)
unfolding last_log_term
last_log_term_some [] h = absurd (omega arith)
last_log_term_some (e ∷ []) h = (e.term, refl)
last_log_term_some (e ∷ f ∷ log) h = last_log_term_some (f ∷ log) (omega arith)

notify-some :
    (rounds i : ℕ) (log c : List LogEntry)
    → (0 < rounds → i + rounds ≤ length log)
    → (c' : List LogEntry) × (notify rounds i log c ≡ some c')
unfolding notify
notify-some zero i log c h = (c, refl)
notify-some (suc r) i log c h =
    let (e, at) = get_elem?-lt log i (omega (arith, h (omega arith))) in
    let (c', done) = notify-some r (i + 1) log (offer e c) (λ p. omega (arith, h (omega arith))) in
    (c', rw (at, notify) done)

pub commit_to-some :
    (n : ℕ) (rn : RaftNode)
    → n < length rn.log
    → (rn' : RaftNode) × (commit_to n rn ≡ some rn') × (rn'.log ≡ rn.log) × (rn'.commit_index ≡ n)
unfolding commit_to
commit_to-some n rn h =
    let (c, done) =
      notify-some (n - rn.last_applied) (rn.last_applied + 1) rn.log rn.apply_c
        (λ p. omega arith) in
    (record rn { commit_index = n; apply_c = c }, rw (done, commit_to), refl, refl)
