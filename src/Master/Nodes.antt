-- ===== src/Master/Nodes.antt =====
-- internal/master/master.go: the nodes that are picked for a chunk, and the available ones.
use lumeo_fs.Base.{
  ℕ, zero, suc, ◌+◌, ◌-◌, ◌%◌, ◌≤◌, ◌<◌, String, true, false, some, List, [], ◌∷◌, Dict, ltb,
  str_eq, if◌then◌else◌, length, get_elem?, All, lookup, mem_text, ◌≡◌, refl, sym, ap, ◌∙◌, ◌≢◌,
  ◌⊎◌, inl, inr, arith, eq_iff, Bool-cases, Option-cases, str_eq_refl, get_elem?-lt,
}
use native.Mathlib.Nat.{mod-lt, mod-eq_of_lt, mod-add-mod, mod-eq-sub-mod}
use lumeo_fs.Common.{is_online, DataNodeInfo}
use lumeo_fs.Master.Alloc.{available, pick}

-- No text stands twice in a list.
abbrev pub Distinct : List String → Type 0
Distinct [] = Unit
Distinct (x ∷ xs) = (mem_text x xs ≡ false) × Distinct xs

-- The same by index.
abbrev pub OncePlaced : List String → Type 0
OncePlaced l = (a b : ℕ) (x : String) → get_elem? l a ≡ some x → get_elem? l b ≡ some x → a ≡ b

mem_text-get : (l : List String) (a : ℕ) (x : String) → get_elem? l a ≡ some x → mem_text x l ≡ true
mem_text-get [] a x e = absurd (ground arith)
mem_text-get (y ∷ l) zero x e = let same : y ≡ x = ground arith in rw same (rw (str_eq_refl x) refl)
mem_text-get (y ∷ l) (suc a) x e = ground (arith, mem_text-get l a x e)

get-mem_text :
    (l : List String) (x : String) → mem_text x l ≡ true → (a : ℕ) × (get_elem? l a ≡ some x)
get-mem_text [] x e = absurd (ground arith)
get-mem_text (y ∷ l) x e = elim (Bool-cases (str_eq y x)) [
  | inl same ↦ (0, let q : y ≡ x = ground (arith, eq_iff y x) in ap some q)
  | inr other ↦ let (a, g) = get-mem_text l x (ground arith) in (suc a, g)
]

pub Distinct-OncePlaced : (l : List String) → Distinct l → OncePlaced l
Distinct-OncePlaced [] d a b x ea eb = absurd (ground arith)
Distinct-OncePlaced (y ∷ l) d zero zero x ea eb = refl
Distinct-OncePlaced (y ∷ l) (n, d) zero (suc b) x ea eb =
    let same : y ≡ x = ground arith in absurd (ground (arith, mem_text-get l b x eb, rw same at n))
Distinct-OncePlaced (y ∷ l) (n, d) (suc a) zero x ea eb =
    let same : y ≡ x = ground arith in absurd (ground (arith, mem_text-get l a x ea, rw same at n))
Distinct-OncePlaced (y ∷ l) (n, d) (suc a) (suc b) x ea eb =
    ap suc (Distinct-OncePlaced l d a b x ea eb)

pub OncePlaced-Distinct : (l : List String) → OncePlaced l → Distinct l
OncePlaced-Distinct [] o = tt
OncePlaced-Distinct (y ∷ l) o = (
  elim (Bool-cases (mem_text y l)) [
    | inl twice ↦
        let (a, g) = get-mem_text l y twice in absurd (omega (arith, o 0 (suc a) y refl g))
    | inr once ↦ once
  ],
  OncePlaced-Distinct l (λ a b x ea eb. omega (arith, o (suc a) (suc b) x ea eb)),
)

wrapped : (x n : ℕ) → x < n + n → (x % n ≡ x) × (x < n) ⊎ (x % n + n ≡ x) × (n ≤ x)
wrapped x n h = elim (Bool-cases (ltb x n)) [
  | inl small ↦ inl (mod-eq_of_lt (ground arith), ground arith)
  | inr big ↦
      let ge : n ≤ x = ground arith in
      let less : x - n < n = omega arith in
      inr (omega (arith, mod-eq-sub-mod {n = x} {m = n} ge, mod-eq_of_lt less), ge)
]

-- Indices in a window of `n` that are the same modulo `n`.
same_in_window : (c a b n : ℕ) → a < n → b < n → (c + a) % n ≡ (c + b) % n → a ≡ b
same_in_window c a b n ha hb e =
    let r = mod-lt c {m = n} (omega (arith, ha)) in
    let e' : (c % n + a) % n ≡ (c % n + b) % n = mod-add-mod c n a ∙ e ∙ sym (mod-add-mod c n b) in
    elim (wrapped (c % n + a) n (omega (arith, r, ha))) [
      | inl (s, t) ↦ elim (wrapped (c % n + b) n (omega (arith, r, hb))) [
        | inl (u, v) ↦ omega (arith, e', s, u)
        | inr (u, v) ↦ omega (arith, e', s, u, r, ha, hb)
      ]
      | inr (s, t) ↦ elim (wrapped (c % n + b) n (omega (arith, r, hb))) [
        | inl (u, v) ↦ omega (arith, e', s, u, r, ha, hb)
        | inr (u, v) ↦ omega (arith, e', s, u)
      ]
    ]

pick-next :
    (nodes : List String) (i j rounds : ℕ)
    → 0 < length nodes
    → (y : String) × (get_elem? nodes ((i + j) % length nodes) ≡ some y)
      × (pick nodes i j (suc rounds) ≡ y ∷ pick nodes i (suc j) rounds)
unfolding pick
pick-next nodes i j rounds h =
    let (y, f) = get_elem?-lt nodes ((i + j) % length nodes) (mod-lt (i + j) h) in
    (y, f, rw (f, pick) refl)

pick-none : (nodes : List String) (i j t : ℕ) (x : String) → get_elem? (pick nodes i j 0) t ≢ some x
unfolding pick
pick-none nodes i j t x e = ground arith

-- The nodes that are picked, by index.
pub get_elem?-pick :
    (nodes : List String) (i j rounds t : ℕ) (x : String)
    → 0 < length nodes
    → get_elem? (pick nodes i j rounds) t ≡ some x
    → (t < rounds) × (get_elem? nodes ((i + (j + t)) % length nodes) ≡ some x)
get_elem?-pick nodes i j zero t x h e = absurd (pick-none nodes i j t x e)
get_elem?-pick nodes i j (suc rounds) zero x h e =
    let (y, f, p) = pick-next nodes i j rounds h in
    let q : some y ≡ some x = sym (ap (λ l. get_elem? l 0) p) ∙ e in
    let at : j + 0 ≡ j = omega arith in (omega arith, rw at (f ∙ q))
get_elem?-pick nodes i j (suc rounds) (suc t) x h e =
    let (y, f, p) = pick-next nodes i j rounds h in
    let (lt, g) =
      get_elem?-pick nodes i (suc j) rounds t x h (sym (ap (λ l. get_elem? l (suc t)) p) ∙ e) in
    let at : j + suc t ≡ suc j + t = omega arith in (omega (arith, lt), rw at g)

pub length-pick :
    (nodes : List String) (i j rounds : ℕ)
    → 0 < length nodes
    → length (pick nodes i j rounds) ≡ rounds
unfolding pick
length-pick nodes i j zero h = refl
length-pick nodes i j (suc rounds) h =
    let (y, f, p) = pick-next nodes i j rounds h in
    ap length p ∙ ap suc (length-pick nodes i (suc j) rounds h)

-- The nodes of a chunk are different ones, where the available ones are.
pub pick-OncePlaced :
    (nodes : List String) (i rounds : ℕ)
    → rounds ≤ length nodes
    → OncePlaced nodes
    → OncePlaced (pick nodes i 0 rounds)
pick-OncePlaced nodes i zero le d a b x ea eb = absurd (pick-none nodes i 0 a x ea)
pick-OncePlaced nodes i (suc rounds) le d a b x ea eb =
    let h : 0 < length nodes = omega (arith, le) in
    let (la, ga) = get_elem?-pick nodes i 0 (suc rounds) a x h ea in
    let (lb, gb) = get_elem?-pick nodes i 0 (suc rounds) b x h eb in
    let same = d ((i + (0 + a)) % length nodes) ((i + (0 + b)) % length nodes) x ga gb in
    omega (
      arith,
      same_in_window i (0 + a) (0 + b) (length nodes) (omega (arith, la, le))
          (omega (arith, lb, le)) same,
    )

available-mem_text :
    (x : String) (order : List String) (nodes : Dict DataNodeInfo)
    → mem_text x order ≡ false
    → mem_text x (available order nodes) ≡ false
unfolding available
available-mem_text x [] nodes h = refl
available-mem_text x (id ∷ ids) nodes h = elim (Option-cases (lookup id nodes)) [
  | inl gone ↦ rw (gone, available) (available-mem_text x ids nodes (ground arith))
  | inr (n, e) ↦ elim (Bool-cases (is_online n.status)) [
    | inl on ↦
        rw (e, available)
          (rw (on, if◌then◌else◌) (ground (arith, available-mem_text x ids nodes (ground arith))))
    | inr off ↦
        rw (e, available) (rw (off, if◌then◌else◌) (available-mem_text x ids nodes (ground arith)))
  ]
]

pub available-Distinct :
    (order : List String) (nodes : Dict DataNodeInfo)
    → Distinct order
    → Distinct (available order nodes)
unfolding available
available-Distinct [] nodes d = tt
available-Distinct (id ∷ ids) nodes (h, d) = elim (Option-cases (lookup id nodes)) [
  | inl gone ↦ rw (gone, available) (available-Distinct ids nodes d)
  | inr (n, e) ↦ elim (Bool-cases (is_online n.status)) [
    | inl on ↦
        rw (e, available)
          (rw (on, if◌then◌else◌)
            (available-mem_text id ids nodes h, available-Distinct ids nodes d))
    | inr off ↦ rw (e, available) (rw (off, if◌then◌else◌) (available-Distinct ids nodes d))
  ]
]

pub available-online :
    (order : List String) (nodes : Dict DataNodeInfo)
    → All
        (λ id. (n : DataNodeInfo) × (lookup id nodes ≡ some n) × (is_online n.status ≡ true))
        (available order nodes)
unfolding available
available-online [] nodes = tt
available-online (id ∷ ids) nodes = elim (Option-cases (lookup id nodes)) [
  | inl gone ↦ rw (gone, available) (available-online ids nodes)
  | inr (n, e) ↦ elim (Bool-cases (is_online n.status)) [
    | inl on ↦ rw (e, available) (rw (on, if◌then◌else◌) ((n, e, on), available-online ids nodes))
    | inr off ↦ rw (e, available) (rw (off, if◌then◌else◌) (available-online ids nodes))
  ]
]
