-- ===== src/Version/Window.antt =====
-- internal/version/version.go: a lease that was granted keeps other nodes out until it expires.
use lumeo_fs.Base.{
  ℕ, ◌+◌, ◌≤◌, ◌<◌, String, true, false, some, List, [], ◌∷◌, str_eq, All, lookup, ◌≡◌, refl, ap,
  ◌∙◌, ◌≢◌, inl, inr, arith, eq_iff, Bool-cases, Option-cases, str_eq_refl, lookup-insert,
  lookup-delete, pos,
}
use lumeo_fs.Version.Lease.{
  Lease, is_valid, renew, new_lease, LeaseManager, granted, leased_to, grant, revoke, check_holder,
}

-- The calls that change a manager.
pub data Call : Type 0 where
  grant_call : (chunk node : String) → Call
  revoke_call : (chunk : String) → Call

abbrev pub call : ℕ → Call → LeaseManager → LeaseManager
call now (grant_call chunk node) lm = (grant now chunk node lm).0
call now (revoke_call chunk) lm = revoke chunk lm

-- Calls with their times, first to last.
abbrev pub run : List (ℕ × Call) → LeaseManager → LeaseManager
run [] lm = lm
run ((now, c) ∷ cs) lm = run cs (call now c lm)

-- Not a revocation of the lease of the chunk.
abbrev pub Keeps : String → Call → Type 0
Keeps chunk (grant_call c node) = Unit
Keeps chunk (revoke_call c) = c ≢ chunk

-- All calls come in the time from `lo` up to `hi`, and none revokes the lease of the chunk.
abbrev pub Within : ℕ → ℕ → String → List (ℕ × Call) → Type 0
Within lo hi chunk = All (λ (now, c). (lo ≤ now) × (now < hi) × Keeps chunk c)

-- The chunk is leased to the node since `lo` or later, for `d`.
abbrev Held : ℕ → ℕ → String → String → LeaseManager → Type 0
Held lo d chunk node lm =
    (l : Lease) × (lookup chunk lm.leases ≡ some l)
    × (l.holder_node ≡ node)
    × (lo ≤ l.granted_at)
    × (l.duration ≡ pos d)

held-is_valid :
    (lo d now : ℕ) (l : Lease)
    → lo ≤ l.granted_at
    → l.duration ≡ pos d
    → now < lo + d
    → is_valid now l ≡ true
held-is_valid lo d now l le dur lt = rw dur (ground arith)

-- A grant for another chunk.
grant-elsewhere :
    (now : ℕ) (chunk c n : String) (lm : LeaseManager)
    → str_eq c chunk ≡ false
    → lookup chunk (grant now c n lm).0.leases ≡ lookup chunk lm.leases
unfolding grant
grant-elsewhere now chunk c n lm ne = elim (Option-cases (lookup c lm.leases)) [
  | inl free ↦ ground (arith, lookup-insert c chunk (new_lease now c n lm.duration) lm.leases)
  | inr (l, at) ↦ ground (
    arith,
    lookup-insert c chunk (new_lease now c n lm.duration) lm.leases,
    lookup-insert c chunk (renew now l) lm.leases,
  )
]

-- What a grant answers, and the lease after it, when the chunk has a lease that is valid.
grant-leased :
    (now : ℕ) (chunk n : String) (lm : LeaseManager) (l : Lease)
    → lookup chunk lm.leases ≡ some l
    → is_valid now l ≡ true
    → (str_eq l.holder_node n ≡ true
        → lookup chunk (grant now chunk n lm).0.leases ≡ some (renew now l))
      × (str_eq l.holder_node n ≡ false
          → (grant now chunk n lm ≡ (lm, leased_to chunk l.holder_node)))
unfolding grant
grant-leased now chunk n lm l at v = (
  λ same. ground (arith, lookup-insert chunk chunk (renew now l) lm.leases, str_eq_refl chunk),
  λ diff. rw (at, grant) (rw v (rw diff refl)),
)

grant-Held :
    (lo d now : ℕ) (chunk node c n : String) (lm : LeaseManager)
    → lo ≤ now
    → now < lo + d
    → Held lo d chunk node lm
    → Held lo d chunk node (grant now c n lm).0
unfolding grant
grant-Held lo d now chunk node c n lm le lt (l, at, by, since_lo, dur) =
    elim (Bool-cases (str_eq c chunk)) [
      | inr other ↦ (l, grant-elsewhere now chunk c n lm other ∙ at, by, since_lo, dur)
      | inl same ↦
          let v = held-is_valid lo d now l since_lo dur lt in
          let (renewed, kept) = grant-leased now chunk n lm l at v in
          rw ((eq_iff c chunk).0 same) (elim (Bool-cases (str_eq l.holder_node n)) [
            | inl mine ↦ (renew now l, renewed mine, by, le, dur)
            | inr theirs ↦
                (l, ap (λ r. lookup chunk r.0.leases) (kept theirs) ∙ at, by, since_lo, dur)
          ])
    ]

revoke-Held :
    (lo d : ℕ) (chunk node c : String) (lm : LeaseManager)
    → c ≢ chunk
    → Held lo d chunk node lm
    → Held lo d chunk node (revoke c lm)
unfolding revoke
revoke-Held lo d chunk node c lm ne (l, at, by, since_lo, dur) =
    (l, ground (arith, lookup-delete c chunk lm.leases, eq_iff c chunk), by, since_lo, dur)

run-Held :
    (lo d : ℕ) (chunk node : String) (cs : List (ℕ × Call)) (lm : LeaseManager)
    → Within lo (lo + d) chunk cs
    → Held lo d chunk node lm
    → Held lo d chunk node (run cs lm)
run-Held lo d chunk node [] lm w h = h
run-Held lo d chunk node ((now, grant_call c n) ∷ cs) lm ((le, lt, k), w) h =
    run-Held lo d chunk node cs _ w (grant-Held lo d now chunk node c n lm le lt h)
run-Held lo d chunk node ((now, revoke_call c) ∷ cs) lm ((le, lt, k), w) h =
    run-Held lo d chunk node cs _ w (revoke-Held lo d chunk node c lm k h)

granted-Held :
    (lo d : ℕ) (chunk node : String) (lm : LeaseManager) {l : Lease}
    → (grant lo chunk node lm).1 ≡ granted l
    → l.duration ≡ pos d
    → Held lo d chunk node (grant lo chunk node lm).0
unfolding grant
granted-Held lo d chunk node lm {l} g dur =
    let fresh = lookup-insert chunk chunk (new_lease lo chunk node lm.duration) lm.leases in
    elim (Option-cases (lookup chunk lm.leases)) [
      | inl free ↦ (
        new_lease lo chunk node lm.duration,
        ground (arith, fresh, str_eq_refl chunk),
        refl,
        omega arith,
        ground arith,
      )
      | inr (k, at) ↦ elim (Bool-cases (is_valid lo k)) [
        | inr old ↦ (
          new_lease lo chunk node lm.duration,
          ground (arith, fresh, str_eq_refl chunk),
          refl,
          omega arith,
          ground arith,
        )
        | inl v ↦ elim (Bool-cases (str_eq k.holder_node node)) [
          | inl mine ↦ (
            renew lo k,
            (grant-leased lo chunk node lm k at v).0 mine,
            (eq_iff k.holder_node node).0 mine,
            omega arith,
            ground arith,
          )
          | inr theirs ↦ absurd (ground (arith, (grant-leased lo chunk node lm k at v).1 theirs))
        ]
      ]
    ]

-- After a grant at the time `lo` of a lease of the duration `d`, whatever other grants and
-- revocations of other chunks' leases come from `lo` up to before `lo + d`, until then the node is the
-- holder, and every other node is not, and is refused the lease with the name of the holder.
pub grant-exclusive :
    (lo d now : ℕ) (chunk node : String) (lm : LeaseManager) (cs : List (ℕ × Call)) {l : Lease}
    → (grant lo chunk node lm).1 ≡ granted l
    → l.duration ≡ pos d
    → Within lo (lo + d) chunk cs
    → now < lo + d
    → (check_holder now chunk node (run cs (grant lo chunk node lm).0) ≡ true)
      × ((other : String)
          → other ≢ node
          → (check_holder now chunk other (run cs (grant lo chunk node lm).0) ≡ false)
            × ((grant now chunk other (run cs (grant lo chunk node lm).0)).1
                ≡ leased_to chunk node))
unfolding check_holder
grant-exclusive lo d now chunk node lm cs g dur w lt =
    let lm' = run cs (grant lo chunk node lm).0 in
    let (l, at, by, since_lo, dl) =
      run-Held lo d chunk node cs (grant lo chunk node lm).0 w
        (granted-Held lo d chunk node lm g dur) in
    let v = held-is_valid lo d now l since_lo dl lt in
    (
      rw (at, check_holder) (rw (by, v) (rw (str_eq_refl node) refl)),
      λ other ne.
          let differs : str_eq l.holder_node other ≡ false =
            ground (arith, eq_iff l.holder_node other) in
          (
            rw (at, check_holder) (rw differs refl),
            ap (λ r. r.1) ((grant-leased now chunk other lm' l at v).1 differs)
                ∙ ap (leased_to chunk) by,
          ),
    )
