-- ===== src/Version/Order.antt =====
-- internal/version/version.go: the order of vector clocks.
use lumeo_fs.Base.{
  ℕ, ◌+◌, ◌≤◌, ◌<◌, max, String, Bool, true, false, ◌||◌, List, [], ◌∷◌, ◌++◌, ◌↔◌, ltb, str_eq,
  if◌then◌else◌, any, lookup, insert, keys, mem_text, u64, ◌≡◌, refl, inl, inr, arith, eq_iff,
  Bool-cases, str_eq_refl, lookup-insert, ℤ, pos, negsuc,
}
use lumeo_fs.Version.Clock.{
  VectorClock, get, increment, merge_keys, merge, some_less, some_greater, answer, compare,
}

-- Every clock of `a` is at most that of `b`.
infix 50 ◌⊑◌
abbrev pub ◌⊑◌ : VectorClock → VectorClock → Type 0
a ⊑ b = (k : String) → get k a ≤ get k b

get-insert :
    (k j : String) (v : ℕ) (vc : VectorClock)
    → get j (insert k v vc) ≡ (if str_eq k j then v else get j vc)
get-insert k j v vc = ground (arith, lookup-insert k j v vc)

get-missing : (k : String) (vc : VectorClock) → mem_text k (keys vc) ≡ false → get k vc ≡ 0
unfolding lookup
get-missing k [] h = refl
get-missing k ((j, v) ∷ vc) h = ground (arith, get-missing k vc)

get-merge_keys :
    (j : String) (ks : List String) (other vc : VectorClock)
    → get j (merge_keys ks other vc)
      ≡ (if mem_text j ks then max (get j vc) (get j other) else get j vc)
unfolding merge_keys
get-merge_keys j [] other vc = refl
get-merge_keys j (k ∷ ks) other vc = elim (Bool-cases (ltb (get k vc) (get k other))) [
  | inl up ↦ ground (
    arith,
    up,
    get-merge_keys j ks other (insert k (get k other) vc),
    get-insert k j (get k other) vc,
    eq_iff k j,
  )
  | inr stay ↦ ground (arith, stay, get-merge_keys j ks other vc, eq_iff k j)
]

-- After a merge each clock is the higher of the two.
pub get-merge :
    (j : String) (other vc : VectorClock) → get j (merge other vc) ≡ max (get j vc) (get j other)
unfolding merge
get-merge j other vc = ground (arith, get-merge_keys j (keys other) other vc, get-missing j other)

any-append : (p : String → Bool) (xs ys : List String) → any p (xs ++ ys) ≡ (any p xs || any p ys)
any-append p [] ys = refl
any-append p (x ∷ xs) ys = ground (arith, any-append p xs ys)

any-none :
    (p : String → Bool) (xs : List String) (k : String)
    → any p xs ≡ false
    → mem_text k xs ≡ true
    → p k ≡ false
any-none p [] k h m = absurd (ground arith)
any-none p (x ∷ xs) k h m = elim (Bool-cases (str_eq x k)) [
  | inl here ↦ rw (← (eq_iff x k).0 here) (ground arith)
  | inr other ↦ any-none p xs k (ground arith) (ground arith)
]

any-one : (p : String → Bool) (xs : List String) → any p xs ≡ true → (k : String) × (p k ≡ true)
any-one p [] h = absurd (ground arith)
any-one p (x ∷ xs) h = elim (Bool-cases (p x)) [
  | inl here ↦ (x, here)
  | inr other ↦ any-one p xs (ground arith)
]

-- No node where `b` is less: `a` is at most `b`. On all other nodes both read 0.
none-⊑ :
    (a b : VectorClock) (ks : List String)
    → ((k : String) → mem_text k ks ≡ false → get k a ≡ 0)
    → any (λ k. ltb (get k b) (get k a)) ks ≡ false
    → a ⊑ b
none-⊑ a b ks zero_out h k = elim (Bool-cases (mem_text k ks)) [
  | inl m ↦ ground (arith, any-none (λ j. ltb (get j b) (get j a)) ks k h m)
  | inr m ↦ omega (arith, zero_out k m)
]

outside :
    (a b : VectorClock) (k : String)
    → mem_text k (keys a ++ keys b) ≡ false
    → (get k a ≡ 0) × (get k b ≡ 0)
outside a b k h =
    let s = any-append (λ j. str_eq j k) (keys a) (keys b) in
    (ground (arith, get-missing k a), ground (arith, get-missing k b))

-- Whether `a` is at most `b` is what `greater` says the contrary of, and `less` of the converse.
greater-⊑ : (a b : VectorClock) → (some_greater a b ≡ false ↔ a ⊑ b)
unfolding some_greater
greater-⊑ a b = (
  none-⊑ a b (keys a ++ keys b) (λ k m. (outside a b k m).0),
  λ h. elim (Bool-cases (any (λ k. ltb (get k b) (get k a)) (keys a ++ keys b))) [
    | inr none_up ↦ none_up
    | inl up ↦
        let (k, q) = any-one (λ j. ltb (get j b) (get j a)) (keys a ++ keys b) up in
        absurd (ground (arith, h k))
  ],
)

less-⊑ : (a b : VectorClock) → (some_less a b ≡ false ↔ b ⊑ a)
unfolding some_less
less-⊑ a b = (
  none-⊑ b a (keys a ++ keys b) (λ k m. (outside a b k m).1),
  λ h. elim (Bool-cases (any (λ k. ltb (get k a) (get k b)) (keys a ++ keys b))) [
    | inr none_up ↦ none_up
    | inl up ↦
        let (k, q) = any-one (λ j. ltb (get j a) (get j b)) (keys a ++ keys b) up in
        absurd (ground (arith, h k))
  ],
)

-- The four answers, when no `greater` is `P` and no `less` is `Q`.
abbrev Answers : Type 0 → Type 0 → ℤ → Type 0
Answers P Q r =
    (r ≡ negsuc 0 ↔ P × ¬ Q)
    × (r ≡ pos 1 ↔ Q × ¬ P)
    × (r ≡ pos 2 ↔ P × Q)
    × (r ≡ pos 0 ↔ (¬ P) × ¬ Q)

answer-Answers :
    {P Q : Type 0} (less greater : Bool)
    → (greater ≡ false ↔ P)
    → (less ≡ false ↔ Q)
    → Answers P Q (answer less greater)
answer-Answers true true (g1, g2) (l1, l2) = (
  (λ e. absurd (ground arith), λ (p, q). absurd (ground (arith, g2 p))),
  (λ e. absurd (ground arith), λ (q, p). absurd (ground (arith, l2 q))),
  (λ e. absurd (ground arith), λ (p, q). absurd (ground (arith, g2 p))),
  (λ e. (λ p. ground (arith, g2 p), λ q. ground (arith, l2 q)), λ h. refl),
)
answer-Answers true false (g1, g2) (l1, l2) = (
  (λ e. (g1 refl, λ q. ground (arith, l2 q)), λ h. refl),
  (λ e. absurd (ground arith), λ (q, p). absurd (p (g1 refl))),
  (λ e. absurd (ground arith), λ (p, q). absurd (ground (arith, l2 q))),
  (λ e. absurd (ground arith), λ (p, q). absurd (p (g1 refl))),
)
answer-Answers false true (g1, g2) (l1, l2) = (
  (λ e. absurd (ground arith), λ (p, q). absurd (q (l1 refl))),
  (λ e. (l1 refl, λ p. ground (arith, g2 p)), λ h. refl),
  (λ e. absurd (ground arith), λ (p, q). absurd (ground (arith, g2 p))),
  (λ e. absurd (ground arith), λ (p, q). absurd (q (l1 refl))),
)
answer-Answers false false (g1, g2) (l1, l2) = (
  (λ e. absurd (ground arith), λ (p, q). absurd (q (l1 refl))),
  (λ e. absurd (ground arith), λ (q, p). absurd (p (g1 refl))),
  (λ e. (g1 refl, l1 refl), λ h. refl),
  (λ e. absurd (ground arith), λ (p, q). absurd (p (g1 refl))),
)

-- `Compare` decides the order of two vector clocks, node by node: it answers -1 exactly if the first
-- is at most the second and not conversely, 1 exactly if it is the other way round, 2 exactly if each
-- is at most the other, and 0 exactly if neither is.
pub compare-⊑ :
    (a b : VectorClock)
    → (compare a b ≡ negsuc 0 ↔ a ⊑ b × ¬ b ⊑ a)
      × (compare a b ≡ pos 1 ↔ b ⊑ a × ¬ a ⊑ b)
      × (compare a b ≡ pos 2 ↔ a ⊑ b × b ⊑ a)
      × (compare a b ≡ pos 0 ↔ (¬ a ⊑ b) × ¬ b ⊑ a)
unfolding compare
compare-⊑ a b = answer-Answers (some_less a b) (some_greater a b) (greater-⊑ a b) (less-⊑ a b)

-- `Merge` makes the least clock that is at least both: each clock is the higher of the two, so that
-- both are at most the result, and the result is at most whatever they both are at most.
pub merge-least :
    (other vc : VectorClock)
    → ((j : String) → get j (merge other vc) ≡ max (get j vc) (get j other))
      × (vc ⊑ merge other vc)
      × (other ⊑ merge other vc)
      × ((c : VectorClock) → vc ⊑ c → other ⊑ c → merge other vc ⊑ c)
merge-least other vc = (
  λ j. get-merge j other vc,
  λ k. omega (arith, get-merge k other vc),
  λ k. omega (arith, get-merge k other vc),
  λ c h g k. omega (arith, get-merge k other vc, h k, g k),
)

-- An increment of a node's clock below the highest 64-bit number makes a later vector clock, as
-- `Compare` sees it.
pub compare-increment :
    (k : String) (vc : VectorClock)
    → get k vc < 18446744073709551615
    → compare (increment k vc) vc ≡ pos 1
unfolding increment
compare-increment k vc few =
    let s : (j : String)
        → get j (increment k vc) ≡ (if str_eq k j then get k vc + 1 else get j vc) =
      λ j. ground (arith, get-insert k j (u64 (get k vc + 1)) vc) in
    (compare-⊑ (increment k vc) vc).1.1 (
      (λ j. ground (arith, s j, eq_iff k j)),
      (λ h. absurd (ground (arith, s k, h k, str_eq_refl k))),
    )
