-- ===== src/HashMap/Entries.antt =====
-- src/RAM/HashMap.cpp, `forEach`: the entries that it visits, and the map.
use kv_database.Prelude.{
  ℕ, zero, suc, ◌+◌, ◌<◌, ◌≡◌, ◌≢◌, refl, sym, ◌∙◌, List, [], ◌∷◌, ◌++◌, arith, Bytes, none, some,
  inl, inr, get_or, ===_refl, Option-cases,
}
use mathlib.Core.Path.{subst}
use mathlib.Core.List.{foldl}
use native.Mathlib.Nat
use kv_database.HashMap.{Chain, HashMap, for_each_chain, for_each_table, for_each}
use kv_database.HashMap.Chain.{find, IsDistinct}
use kv_database.HashMap.Map.{IsBucket, IsValid, home, view}

-- The nodes in the order of the visit.
unfoldable pub entries : List Chain → Chain
entries [] = []
entries (c ∷ cs) = c ++ entries cs

for_each_chain-append {ℓ} :
    {S : Type ℓ} (f : Bytes → Bytes → S → S) (c d : Chain) (s : S)
    → for_each_chain f (c ++ d) s ≡ for_each_chain f d (for_each_chain f c s)
unfolding for_each_chain
for_each_chain-append f [] d s = refl
for_each_chain-append f (n ∷ c) d s = for_each_chain-append f c d (f n.key n.value s)

for_each_table-entries {ℓ} :
    {S : Type ℓ} (f : Bytes → Bytes → S → S) (table : List Chain) (s : S)
    → for_each_table f table s ≡ for_each_chain f (entries table) s
unfolding for_each_table entries
for_each_table-entries f [] s = refl
for_each_table-entries f (c ∷ cs) s =
    for_each_table-entries f cs (for_each_chain f c s)
    ∙ sym (for_each_chain-append f c (entries cs) s)

-- The two nested loops are one loop over the entries.
pub for_each-entries {ℓ} :
    {S : Type ℓ} (f : Bytes → Bytes → S → S) (m : HashMap) (s : S)
    → for_each f m s ≡ for_each_chain f (entries m.table) s
unfolding for_each
for_each-entries f m s = for_each_table-entries f m.table s

find-append_none : (q : Bytes) (c d : Chain) → find q c ≡ none → find q (c ++ d) ≡ find q d
unfolding find
find-append_none q [] d h = refl
find-append_none q (n ∷ c) d h = ground (arith, find-append_none q c d)

find-append_some :
    (q : Bytes) (c d : Chain) (v : Bytes) → find q c ≡ some v → find q (c ++ d) ≡ some v
unfolding find
find-append_some q [] d v h = ground arith
find-append_some q (n ∷ c) d v h = ground (arith, find-append_some q c d v)

-- Two chains with no key in common.
append-IsDistinct :
    (c d : Chain)
    → IsDistinct c
    → IsDistinct d
    → ((q : Bytes) → find q c ≢ none → find q d ≡ none)
    → IsDistinct (c ++ d)
unfolding find
append-IsDistinct [] d hc hd apart = hd
append-IsDistinct (n ∷ c) d hc hd apart = (
  find-append_none n.key c d hc.0 ∙ apart n.key (λ absent. ground (arith, absent, ===_refl n.key)),
  append-IsDistinct c d hc.1 hd (λ q present. apart q (λ absent. present (ground (arith, absent)))),
)

-- The chains from the `i`-th on hold the keys whose home is their bucket.
abbrev AreBuckets : ℕ → ℕ → List Chain → Type 0
AreBuckets n i [] = Unit
AreBuckets n i (c ∷ cs) = IsBucket n i c × AreBuckets n (suc i) cs

AreBuckets-of :
    (n i : ℕ) (cs : List Chain)
    → ((j : ℕ) → IsBucket n (i + j) (get_or cs j []))
    → AreBuckets n i cs
AreBuckets-of n i [] h = tt
AreBuckets-of n i (c ∷ cs) h = (
  subst (λ (j : ℕ). IsBucket n j c) (omega arith) (h 0),
  AreBuckets-of n (suc i) cs
      (λ j. subst (λ (k : ℕ). IsBucket n k (get_or cs j [])) (omega arith) (h (suc j))),
)

find-elsewhere : (n i : ℕ) (q : Bytes) (c : Chain) → IsBucket n i c → home n q ≢ i → find q c ≡ none
find-elsewhere n i q c b away = elim (Option-cases (find q c)) [
  | inl e ↦ e
  | inr (v, e) ↦ absurd (away (b.at_home q (λ absent. cc)))
]

find-entries_before :
    (n i : ℕ) (q : Bytes) (cs : List Chain)
    → AreBuckets n i cs
    → home n q < i
    → find q (entries cs) ≡ none
unfolding entries find
find-entries_before n i q [] h before = refl
find-entries_before n i q (c ∷ cs) h before =
    find-append_none q c (entries cs) (find-elsewhere n i q c h.0 (omega arith))
    ∙ find-entries_before n (suc i) q cs h.1 (omega arith)

find-entries_at :
    (n i j : ℕ) (q : Bytes) (cs : List Chain)
    → AreBuckets n i cs
    → home n q ≡ i + j
    → find q (entries cs) ≡ find q (get_or cs j [])
unfolding entries find
find-entries_at n i j q [] h e = refl
find-entries_at n i zero q (c ∷ cs) h e = elim (Option-cases (find q c)) [
  | inl absent ↦
      find-append_none q c (entries cs) absent
      ∙ find-entries_before n (suc i) q cs h.1 (omega arith)
      ∙ sym absent
  | inr (v, present) ↦ find-append_some q c (entries cs) v present ∙ sym present
]
find-entries_at n i (suc j) q (c ∷ cs) h e =
    find-append_none q c (entries cs) (find-elsewhere n i q c h.0 (omega arith))
    ∙ find-entries_at n (suc i) j q cs h.1 (omega arith)

entries-IsDistinct_from : (n i : ℕ) (cs : List Chain) → AreBuckets n i cs → IsDistinct (entries cs)
unfolding entries
entries-IsDistinct_from n i [] h = tt
entries-IsDistinct_from n i (c ∷ cs) h =
    append-IsDistinct c (entries cs) h.0.distinct (entries-IsDistinct_from n (suc i) cs h.1)
      (λ q present. find-entries_before n (suc i) q cs h.1 (omega (arith, h.0.at_home q present)))

-- The entries of a valid map hold each key once, and with the value that the map has at it.
pub entries-view :
    (m : HashMap)
    → IsValid m
    → IsDistinct (entries m.table) × ((q : Bytes) → find q (entries m.table) ≡ view m q)
unfolding view
entries-view m valid =
    let b = AreBuckets-of m.capacity 0 m.table (λ j. rw (Nat.zero-add j) (valid.bucket j)) in
    (
      entries-IsDistinct_from m.capacity 0 m.table b,
      λ q. find-entries_at m.capacity 0 (home m.capacity q) q m.table b (omega arith),
    )

-- The inner loop is the library's fold.
for_each_chain-foldl {ℓ} :
    {S : Type ℓ} (f : Bytes → Bytes → S → S) (c : Chain) (s : S)
    → for_each_chain f c s ≡ foldl (λ t n. f n.key n.value t) s c
unfolding for_each_chain
for_each_chain-foldl f [] s = refl
for_each_chain-foldl f (n ∷ c) s = for_each_chain-foldl f c (f n.key n.value s)

-- On a valid map forEach calls the callback, in the order of some list of nodes, with the key and
-- the value of each node of it and with nothing else; the list holds each key once, with the value
-- of the map.
pub for_each-view {ℓ} :
    {S : Type ℓ} (f : Bytes → Bytes → S → S) (m : HashMap) (s : S)
    → IsValid m
    → (visited : Chain) × IsDistinct visited
      × ((q : Bytes) → find q visited ≡ view m q)
      × (for_each f m s ≡ foldl (λ t n. f n.key n.value t) s visited)
for_each-view f m s valid =
    let (distinct, reads) = entries-view m valid in
    (
      entries m.table,
      distinct,
      reads,
      for_each-entries f m s ∙ for_each_chain-foldl f (entries m.table) s,
    )
