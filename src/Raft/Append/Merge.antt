-- ===== src/Raft/Append/Merge.antt =====
-- internal/raft/raft.go, `handleAppendEntries`: what the loop over the new entries makes of the
-- log.
use lumeo_fs.Base.{
  ℕ, zero, suc, ◌+◌, ◌≤◌, ◌<◌, none, some, List, [], ◌∷◌, ◌++◌, ◌==◌, length, get_elem?, take, ◌≡◌,
  refl, ◌∙◌, inl, inr, arith, Bool-cases, Option-cases, length-append, length-take,
  lt-length_of_get, get_elem?-take, get_elem?-append_left, get_elem?-append_last,
}
use lumeo_fs.Raft.Types.{LogEntry}
use lumeo_fs.Raft.Append.{merge_entry, merge_entries}

-- The log holds, from `i` on, entries of the terms of `es`.
abbrev pub HoldsTerms : List LogEntry → ℕ → List LogEntry → Type 0
HoldsTerms log i [] = Unit
HoldsTerms log i (e ∷ es) =
    ((x : LogEntry) × (get_elem? log i ≡ some x) × (x.term ≡ e.term)) × HoldsTerms log (i + 1) es

-- The two logs agree below `n`.
abbrev pub SameBelow : ℕ → List LogEntry → List LogEntry → Type 0
SameBelow n a b = (i : ℕ) → i < n → get_elem? a i ≡ get_elem? b i

pub get_elem?-none : (log : List LogEntry) (i : ℕ) → get_elem? log i ≡ none → length log ≤ i
get_elem?-none [] i h = omega arith
get_elem?-none (x ∷ log) zero h = cc
get_elem?-none (x ∷ log) (suc i) h = omega (arith, get_elem?-none log i h)

get_elem?-append_at :
    (log : List LogEntry) (i : ℕ) (e : LogEntry)
    → length log ≡ i
    → get_elem? (log ++ e ∷ []) i ≡ some e
get_elem?-append_at log i e h = rw (← h) (get_elem?-append_last log e)

-- One entry: it is there afterwards, up to its command; nothing below changes; the log reaches it.
pub record Merged (log : List LogEntry) (i : ℕ) (e : LogEntry) (log' : List LogEntry) : Type 0 where
  pub below : SameBelow i log' log
  pub here : (x : LogEntry) × (get_elem? log' i ≡ some x) × (x.term ≡ e.term)
  pub reach : i < length log'

pub merge_entry-Merged :
    (log : List LogEntry) (i : ℕ) (e : LogEntry)
    → i ≤ length log
    → Merged log i e (merge_entry log i e)
unfolding merge_entry
merge_entry-Merged log i e h = elim (Option-cases (get_elem? log i)) [
  | inl out ↦
      let l : length log ≡ i = omega (arith, get_elem?-none log i out) in
      rw (out, merge_entry)
        (record {
          below = λ j lt. get_elem?-append_left log (e ∷ []) j (omega arith);
          here = (e, get_elem?-append_at log i e l, refl);
          reach = omega (arith, length-append log (e ∷ []));
        })
  | inr (x, at) ↦ elim (Bool-cases (x.term == e.term)) [
    | inl same ↦
        rw (at, merge_entry)
          (rw same (record {
            below = λ j lt. refl;
            here = (x, at, ground arith);
            reach = lt-length_of_get log i at;
          }))
    | inr diff ↦
        let l : length (take i log) ≡ i =
          omega (arith, length-take i log, lt-length_of_get log i at) in
        rw (at, merge_entry)
          (rw diff (record {
            below = λ j lt.
                get_elem?-append_left (take i log) (e ∷ []) j (omega arith)
                ∙ get_elem?-take i log j lt;
            here = (e, get_elem?-append_at (take i log) i e l, refl);
            reach = omega (arith, length-append (take i log) (e ∷ []));
          }))
  ]
]

pub merge_entries-below :
    (es : List LogEntry) (log : List LogEntry) (i : ℕ)
    → i ≤ length log
    → SameBelow i (merge_entries log i es) log
unfolding merge_entries
merge_entries-below [] log i h j lt = refl
merge_entries-below (e ∷ es) log i h j lt =
    let m = merge_entry-Merged log i e h in
    merge_entries-below es (merge_entry log i e) (i + 1) (omega (arith, m.reach)) j (omega arith)
    ∙ m.below j lt

pub merge_entries-HoldsTerms :
    (es : List LogEntry) (log : List LogEntry) (i : ℕ)
    → i ≤ length log
    → HoldsTerms (merge_entries log i es) i es
unfolding merge_entries
merge_entries-HoldsTerms [] log i h = tt
merge_entries-HoldsTerms (e ∷ es) log i h =
    let m = merge_entry-Merged log i e h in
    let r : i + 1 ≤ length (merge_entry log i e) = omega (arith, m.reach) in
    let (x, at, same) = m.here in
    (
      (x, merge_entries-below es (merge_entry log i e) (i + 1) r i (omega arith) ∙ at, same),
      merge_entries-HoldsTerms es (merge_entry log i e) (i + 1) r,
    )

merge_entry_held :
    (log : List LogEntry) (i : ℕ) (e x : LogEntry)
    → get_elem? log i ≡ some x
    → x.term ≡ e.term
    → merge_entry log i e ≡ log
unfolding merge_entry
merge_entry_held log i e x at same = ground arith

-- Entries that are there already change nothing.
pub merge_entries_held :
    (es : List LogEntry) (log : List LogEntry) (i : ℕ)
    → HoldsTerms log i es
    → merge_entries log i es ≡ log
unfolding merge_entries
merge_entries_held [] log i h = refl
merge_entries_held (e ∷ es) log i ((x, at, same), rest) =
    rw (merge_entry_held log i e x at same) (merge_entries_held es log (i + 1) rest)

pub merge_entries-reach :
    (es : List LogEntry) (log : List LogEntry) (i : ℕ)
    → i ≤ length log
    → i + length es ≤ length (merge_entries log i es)
unfolding merge_entries
merge_entries-reach [] log i h = omega arith
merge_entries-reach (e ∷ es) log i h =
    let m = merge_entry-Merged log i e h in
    omega (arith, merge_entries-reach es (merge_entry log i e) (i + 1) (omega (arith, m.reach)))
