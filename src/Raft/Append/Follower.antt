-- ===== src/Raft/Append/Follower.antt =====
-- internal/raft/raft.go, `handleAppendEntries`: what a follower does with a request, on every
-- branch.
use lumeo_fs.Base.{
  ℕ, zero, suc, ◌+◌, ◌-◌, ◌≤◌, ◌<◌, min, true, false, some, List, ltb, ◌==◌, if◌then◌else◌, length,
  get_elem?, ◌≡◌, refl, ap, ◌∙◌, ◌⊎◌, inl, inr, arith, Bool-cases, Option-cases, get_elem?-lt,
  lt-length_of_get,
}
use lumeo_fs.Raft.Types.{LogEntry, RaftNode, AppendEntriesRequest, AppendEntriesResponse}
use lumeo_fs.Raft.Election.{step_down, reset_election_timer}
use lumeo_fs.Raft.Commit.Range.{commit_to-some}
use lumeo_fs.Raft.Append.{
  first_of_term, merge_entries, accept_entries, check_and_accept, handle_append_entries,
}
use lumeo_fs.Raft.Append.Merge.{
  HoldsTerms, SameBelow, merge_entries-below, merge_entries-HoldsTerms, merge_entries-reach,
  get_elem?-none,
}

-- The entry before the new ones is there, with the term that the leader says; before the first
-- entry nothing is asked.
abbrev pub Consistent : AppendEntriesRequest → List LogEntry → Type 0
Consistent req log =
    (req.prev_log_index ≡ 0)
    ⊎ ((e : LogEntry) × (get_elem? log req.prev_log_index ≡ some e) × (e.term ≡ req.prev_log_term))

-- What a node answers, and its log after.
pub record Handled (req : AppendEntriesRequest) (rn rn' : RaftNode) (resp : AppendEntriesResponse)
    : Type 0 where
  -- a success says that the log below the new entries is as it was, and holds them from there on
  pub merged :
      resp.success ≡ true → rn'.log ≡ merge_entries rn.log (req.prev_log_index + 1) req.entries
  pub below : resp.success ≡ true → SameBelow (req.prev_log_index + 1) rn'.log rn.log
  pub holds : resp.success ≡ true → HoldsTerms rn'.log (req.prev_log_index + 1) req.entries
  pub fits : resp.success ≡ true → Consistent req rn.log
  pub accepts : rn.current_term ≤ req.term → Consistent req rn.log → resp.success ≡ true
  -- a refusal changes neither the log nor the commit index, and names no index above the request's
  pub kept :
      resp.success ≡ false
      → (rn'.log ≡ rn.log)
        × (rn'.commit_index ≡ rn.commit_index)
        × (resp.conflict_index ≤ req.prev_log_index)
  -- after a success the commit index is the lower of the leader's and of the last new entry, if the
  -- leader's is higher than the node's
  pub commit :
      resp.success ≡ true
      → rn'.commit_index ≡ (
          if ltb rn.commit_index req.leader_commit
          then min req.leader_commit (req.prev_log_index + length req.entries)
          else rn.commit_index)
  pub nonempty : 0 < length rn'.log

first_of_term-le :
    (log : List LogEntry) (term i : ℕ)
    → i < length log
    → (j : ℕ) × (first_of_term log term i ≡ some j) × (j ≤ i + 1)
unfolding first_of_term
first_of_term-le log term zero h = (0, refl, omega arith)
first_of_term-le log term (suc i) h =
    let (e, at) = get_elem?-lt log (suc i) h in
    let (j, done, le) = first_of_term-le log term i (omega arith) in
    elim (Bool-cases (e.term == term)) [
      | inl same ↦ (j, ground arith, omega arith)
      | inr diff ↦ (suc i + 1, ground arith, omega arith)
    ]

module _ (req : AppendEntriesRequest) (rn : RaftNode)
    (lt : req.prev_log_index < length rn.log) where
  extended : RaftNode
  extended = record rn { log = merge_entries rn.log (req.prev_log_index + 1) req.entries }

  extended-reach : req.prev_log_index + 1 + length req.entries ≤ length extended.log
  unfolding extended
  extended-reach = merge_entries-reach req.entries rn.log (req.prev_log_index + 1) (omega arith)

  accept_entries-Handled :
      (resp : AppendEntriesResponse)
      → Consistent req rn.log
      → (rn' : RaftNode) × (resp' : AppendEntriesResponse) × (accept_entries req resp rn
          ≡ some (rn', resp'))
        × Handled req rn rn' resp'
  unfolding accept_entries extended
  accept_entries-Handled resp c =
      let below = merge_entries-below req.entries rn.log (req.prev_log_index + 1) (omega arith) in
      let holds =
        merge_entries-HoldsTerms req.entries rn.log (req.prev_log_index + 1) (omega arith) in
      let last_new : ℕ = req.prev_log_index + length req.entries in
      let new : ℕ = if ltb req.leader_commit last_new then req.leader_commit else last_new in
      elim (Bool-cases (ltb rn.commit_index req.leader_commit)) [
        | inl more ↦
            let (rn', done, same, at) =
              commit_to-some new extended (ground (arith, extended-reach)) in
            (
              rn',
              record resp { success = true },
              ground arith,
              record {
                merged = λ _. same;
                below = λ _. rw same below;
                holds = λ _. rw same holds;
                fits = λ _. c;
                accepts = λ _ _. refl;
                kept = λ e. cc;
                commit = λ _. ground arith;
                nonempty = omega (arith, ap length same, extended-reach);
              },
            )
        | inr less ↦ (
          extended,
          record resp { success = true },
          ground arith,
          record {
            merged = λ _. refl;
            below = λ _. below;
            holds = λ _. holds;
            fits = λ _. c;
            accepts = λ _ _. refl;
            kept = λ e. cc;
            commit = λ _. ground arith;
            nonempty = omega (arith, extended-reach);
          },
        )
      ]

-- A refusal.
refuse-Handled :
    (req : AppendEntriesRequest) (rn rn' : RaftNode) (resp : AppendEntriesResponse)
    → 0 < length rn.log
    → rn'.log ≡ rn.log
    → rn'.commit_index ≡ rn.commit_index
    → resp.success ≡ false
    → resp.conflict_index ≤ req.prev_log_index
    → (rn.current_term ≤ req.term → ¬ Consistent req rn.log)
    → Handled req rn rn' resp
refuse-Handled req rn rn' resp ne l c f le no' = record {
  merged = λ e. cc;
  below = λ e. cc;
  holds = λ e. cc;
  fits = λ e. cc;
  accepts = λ t k. absurd (no' t k);
  kept = λ e. (l, c, le);
  commit = λ e. cc;
  nonempty = omega (arith, ap length l);
}

check_and_accept-Handled :
    (req : AppendEntriesRequest) (resp : AppendEntriesResponse) (rn : RaftNode)
    → 0 < length rn.log
    → resp.success ≡ false
    → (rn' : RaftNode) × (resp' : AppendEntriesResponse) × (check_and_accept req resp rn
        ≡ some (rn', resp'))
      × Handled req rn rn' resp'
unfolding check_and_accept
check_and_accept-Handled req resp rn ne f = elim (Bool-cases (ltb 0 req.prev_log_index)) [
  | inr first ↦ rw first (accept_entries-Handled req rn (ground arith) resp (inl (ground arith)))
  | inl later ↦ elim (Option-cases (get_elem? rn.log req.prev_log_index)) [
    | inl out ↦
        let short : length rn.log ≤ req.prev_log_index =
          get_elem?-none rn.log req.prev_log_index out in
        (
          rn,
          record resp { conflict_index = length rn.log },
          rw later (rw out refl),
          refuse-Handled req rn rn _ ne refl refl f short (λ t c. ground arith),
        )
    | inr (e, at) ↦ elim (Bool-cases (e.term == req.prev_log_term)) [
      | inl same ↦
          rw (later, at)
            (rw same (
              accept_entries-Handled req rn (lt-length_of_get rn.log req.prev_log_index at) resp
                (inr (e, at, ground arith))))
      | inr diff ↦
          let (j, done, le) =
            first_of_term-le rn.log e.term (req.prev_log_index - 1)
              (omega (arith, lt-length_of_get rn.log req.prev_log_index at)) in
          (
            rn,
            record resp { conflict_term = e.term; conflict_index = j },
            ground arith,
            refuse-Handled req rn rn _ ne refl refl f (ground arith) (λ t c. ground arith),
          )
    ]
  ]
]

Handled-from :
    (req : AppendEntriesRequest) (rn1 rn rn' : RaftNode) (resp : AppendEntriesResponse)
    → rn1.log ≡ rn.log
    → rn1.commit_index ≡ rn.commit_index
    → (rn.current_term ≤ req.term → rn1.current_term ≤ req.term)
    → Handled req rn1 rn' resp
    → Handled req rn rn' resp
Handled-from req rn1 rn rn' resp l c t h = record {
  merged = rw (← l) h.merged;
  below = rw (← l) h.below;
  holds = h.holds;
  fits = rw (← l) h.fits;
  accepts = λ le k. h.accepts (t le) (rw l k);
  kept = λ e. let (a, b, d) = h.kept e in (a ∙ l, b ∙ c, d);
  commit = rw (← c) h.commit;
  nonempty = h.nonempty;
}

-- The state in which a node checks a request that is not of a lower term.
abbrev follow : ℕ → AppendEntriesRequest → RaftNode → RaftNode
follow now req rn =
    record (reset_election_timer
      (if ltb rn.current_term req.term then step_down req.term rn else rn)) {
        leader_id = req.leader_id;
        last_heartbeat = now;
      }

-- On a node whose log is not empty `handleAppendEntries` returns, with an answer as in `Handled`: it
-- succeeds exactly if the request is not of a lower term and the log is consistent with it; then the
-- log is as it was below the new entries and holds entries of their terms from there on, and the
-- commit index follows the leader's; otherwise the log and the commit index stay, and the conflict
-- index is at most the previous index of the request.
pub handle_append_entries-Handled :
    (now : ℕ) (req : AppendEntriesRequest) (rn : RaftNode)
    → 0 < length rn.log
    → (rn' : RaftNode) × (resp : AppendEntriesResponse) × (handle_append_entries now req rn
        ≡ some (rn', resp))
      × Handled req rn rn' resp
      × (resp.success ≡ true → rn.current_term ≤ req.term)
unfolding handle_append_entries
handle_append_entries-Handled now req rn ne = elim (Bool-cases (ltb req.term rn.current_term)) [
  | inl old ↦
      let resp : AppendEntriesResponse = record {
        term = rn.current_term;
        success = false;
        conflict_index = 0;
        conflict_term = 0;
      } in
      (
        rn,
        resp,
        rw old refl,
        refuse-Handled req rn rn resp ne refl refl refl (omega arith) (λ t c. ground arith),
        λ e. cc,
      )
  | inr new ↦
      let resp : AppendEntriesResponse = record {
        term = rn.current_term;
        success = false;
        conflict_index = 0;
        conflict_term = 0;
      } in
      let rn1 = follow now req rn in
      let l : rn1.log ≡ rn.log = ground arith in
      let (rn', resp', done, h) =
        check_and_accept-Handled req resp rn1 (omega (arith, ap length l)) refl in
      (
        rn',
        resp',
        rw new done,
        Handled-from req rn1 rn rn' resp' l (ground arith) (λ t. ground arith) h,
        λ e. ground arith,
      )
]
