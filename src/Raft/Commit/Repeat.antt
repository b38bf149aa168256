-- ===== src/Raft/Commit/Repeat.antt =====
-- internal/raft/raft.go: what the commits put on `applyC`. Each commit starts from the last applied
-- index, whatever the channel still holds.
use lumeo_fs.Base.{
  ℕ, zero, suc, ◌+◌, ◌-◌, ◌≤◌, ◌<◌, true, some, List, [], ◌∷◌, ◌++◌, ltb, length, get_elem?, take,
  drop, ◌≡◌, refl, ap, ◌∙◌, arith, length-append, length-take, get_elem?-lt,
}
use mathlib.Core.List.{append_assoc, append-nil}
use lumeo_fs.Raft.Types.{LogEntry, RaftNode}
use lumeo_fs.Raft.Commit.{offer, notify, commit_to, apply_capacity}

-- The entries after index `a` up to index `b`.
abbrev pub slice : ℕ → ℕ → List LogEntry → List LogEntry
slice a b log = take (b - a) (drop (a + 1) log)

drop-get :
    (i : ℕ) (log : List LogEntry) (e : LogEntry)
    → get_elem? log i ≡ some e
    → drop i log ≡ e ∷ drop (suc i) log
drop-get i [] e h = ground arith
drop-get zero (x ∷ log) e h = ground arith
drop-get (suc i) (x ∷ log) e h = drop-get i log e h

notify-take :
    (rounds i : ℕ) (log c : List LogEntry)
    → i + rounds ≤ length log
    → length c + rounds ≤ apply_capacity
    → notify rounds i log c ≡ some (c ++ take rounds (drop i log))
unfolding notify offer
notify-take zero i log c h room = rw append-nil
notify-take (suc r) i log c h room =
    let (e, at) = get_elem?-lt log i (omega arith) in
    let fits : ltb (length c) apply_capacity ≡ true = ground arith in
    let rest =
      notify-take r (i + 1) log (c ++ e ∷ []) (omega arith)
        (omega (arith, length-append c (e ∷ []))) in
    let s : i + 1 ≡ suc i = omega arith in
    rw (at, notify)
      (rw fits (
        rw (drop-get i log e at)
          (rest ∙ rw s (ap some (append_assoc c (e ∷ []) (take r (drop (suc i) log)))))))

commit_to-offers :
    (n : ℕ) (rn : RaftNode)
    → rn.last_applied ≤ n
    → n < length rn.log
    → length rn.apply_c + (n - rn.last_applied) ≤ apply_capacity
    → commit_to n rn
      ≡ some
          (record rn { commit_index = n; apply_c = rn.apply_c ++ slice rn.last_applied n rn.log })
unfolding commit_to
commit_to-offers n rn le lt room =
    let e =
      notify-take (n - rn.last_applied) (rn.last_applied + 1) rn.log rn.apply_c (omega arith)
        room in
    rw (e, commit_to) refl

-- Two commits with nothing applied in between put the entries of the first on the channel twice,
-- when it has room for them: each commit offers all entries after the last applied one.
pub commit_to_twice :
    (n m : ℕ) (rn : RaftNode)
    → rn.last_applied ≤ n
    → n ≤ m
    → m < length rn.log
    → length rn.apply_c + (n - rn.last_applied) + (m - rn.last_applied) ≤ apply_capacity
    → (r1 : RaftNode) × (r2 : RaftNode) × (commit_to n rn ≡ some r1)
      × (commit_to m r1 ≡ some r2)
      × (r2.apply_c
          ≡ (rn.apply_c ++ slice rn.last_applied n rn.log) ++ slice rn.last_applied m rn.log)
commit_to_twice n m rn le nm lt room =
    let c = rn.apply_c ++ slice rn.last_applied n rn.log in
    let r1 = record rn { commit_index = n; apply_c = c } in
    (
      r1,
      record r1 { commit_index = m; apply_c = c ++ slice rn.last_applied m rn.log },
      commit_to-offers n rn le (omega arith) (omega arith),
      commit_to-offers m r1 (omega arith) lt (
          omega (
            arith,
            length-append rn.apply_c (slice rn.last_applied n rn.log),
            length-take (n - rn.last_applied) (drop (rn.last_applied + 1) rn.log),
          )),
      refl,
    )
