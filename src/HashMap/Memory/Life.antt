-- ===== src/HashMap/Memory/Life.antt =====
-- src/RAM/HashMap.cpp, a map in memory from its constructor over any calls of `insert` and `remove`
-- to its destructor.
pub mod Calls
pub mod End
use kv_database.Prelude.{
  contains, ℕ, ◌<◌, ◌≡◌, refl, ap, sym, ◌∙◌, ◌⊎◌, inl, inr, Option, none, some, List, [], Bytes,
  Bool, true, false, arith, ◌==◌, ==_iff, if◌then◌else◌, length, Bool-cases, get_or,
}
use mathlib.Core.Path.{subst}
use kv_database.Result.{Result, ok, ok-injective}
use kv_database.HashMap.{Chain, HashMap, new, insert, remove}
use kv_database.HashMap.Map.{
  IsValid, view, get-view, Writes, new-IsValid, insert-Writes, remove-Writes,
}
use kv_database.HashMap.Chain.{or_empty}
use kv_database.HashMap.Memory.{
  Memory, HeadTable, construct_at, insert_at, get_at, remove_at, destroy,
}
use kv_database.HashMap.Memory.Owned.{Changes}
use kv_database.HashMap.Memory.Buckets.{Stores, assign, elsewhere, Clears, delete_table-Clears}
use kv_database.HashMap.Memory.Refinement.{
  Represents, IsEnough, Refines, construct_at-Represents, insert_at-Refines, remove_at-Refines,
  get_at-get,
}

-- The states of a map that was constructed in the memory `start`: `new Node` returns the address of
-- no live object. The last index is the map that the calls give without memory.
pub data Life (size : ℕ) (start : Memory) : Memory → HeadTable → HashMap → Type 0 where
  constructs : Life size start start (construct_at size) (new size)
  inserts :
      (h : Memory) (t : HeadTable) (m : HashMap) (fuel address : ℕ) (k v : Bytes) (h' : Memory)
      (t' : HeadTable) (m' : HashMap)
      → Life size start h t m
      → IsEnough fuel m
      → h address ≡ none
      → insert_at fuel address k v h t ≡ ok (h', t')
      → insert m k v ≡ ok m'
      → Life size start h' t' m'
  removes :
      (h : Memory) (t : HeadTable) (m : HashMap) (fuel : ℕ) (k : Bytes) (h' : Memory)
      (t' : HeadTable) (m' : HashMap)
      → Life size start h t m
      → IsEnough fuel m
      → remove_at fuel k h t ≡ ok (h', t')
      → remove m k ≡ ok m'
      → Life size start h' t' m'

-- An address is as it was, or holds a node that was not there.
abbrev IsKept : Memory → Memory → (ℕ → List ℕ) → ℕ → Type 0
IsKept start h owned j =
    (((i : ℕ) → contains j (owned i) ≡ false) × (h j ≡ start j))
    ⊎ ((i : ℕ) × (contains j (owned i) ≡ true) × (start j ≡ none))

pub record IsAlive (start h : Memory) (t : HeadTable) (m : HashMap) : Type 0 where
  pub owned : ℕ → List ℕ
  pub valid : IsValid m
  pub represents : Represents h t m owned
  pub kept : (j : ℕ) → IsKept start h owned j

IsKept-assign :
    (start h h' : Memory) (owned : ℕ → List ℕ) (i : ℕ) (new : List ℕ) (heads : List (Option ℕ))
    (chains : List Chain)
    → Stores h heads chains owned
    → Changes h h' (owned i) new
    → (j : ℕ) → IsKept start h owned j
    → IsKept start h' (assign owned i new) j
IsKept-assign start h h' owned i new heads chains stores changes j (inl (outside, same)) =
    elim (Bool-cases (contains j new)) [
      | inl e ↦ inr (i, ground (arith, e), sym same ∙ changes.fresh j e (outside i))
      | inr e ↦ inl (
        λ l. elim (Bool-cases (i == l)) [
          | inl el ↦ ground (arith, e, el)
          | inr el ↦ ground (arith, outside l, el)
        ],
        changes.frame j (outside i) e ∙ same,
      )
    ]
IsKept-assign start h h' owned i new heads chains stores changes j (inr (l, inside, unused)) =
    elim (Bool-cases (i == l)) [
      | inl el ↦ elim (Bool-cases (contains j new)) [
        | inl e ↦ inr (i, ground (arith, e), unused)
        | inr e ↦
            let here =
              subst (λ (b : ℕ). contains j (owned b) ≡ true) (sym ((==_iff i l).0 el)) inside in
            inl (
              λ b. elim (Bool-cases (i == b)) [
                | inl eb ↦ ground (arith, e, eb)
                | inr eb ↦ ground (
                  arith,
                  eb,
                  elsewhere h heads chains owned stores b i j (ground (arith, eb)) here,
                )
              ],
              changes.freed j here e ∙ sym unused,
            )
      ]
      | inr el ↦ inr (l, ground (arith, el, inside), unused)
    ]

-- One call, given what it does to the memory and to the map.
IsAlive-step :
    (start h : Memory) (t : HeadTable) (m : HashMap) (i : ℕ) (k : Bytes) (v : Option Bytes)
    (on_map : Result HashMap) (run : Result (Memory × HeadTable)) (h' : Memory) (t' : HeadTable)
    (m' : HashMap) (alive : IsAlive start h t m)
    → Refines h alive.owned i on_map run
    → Writes m k v on_map
    → run ≡ ok (h', t')
    → on_map ≡ ok m'
    → IsAlive start h' t' m'
IsAlive-step start h t m i k v on_map run h' t' m' alive refines writes runs maps =
    let same = ok-injective (sym refines.returns ∙ runs) in
    let same_map = ok-injective (sym refines.maps ∙ maps) in
    let here : IsAlive start refines.after refines.table refines.map = record {
      owned = assign alive.owned i refines.new;
      valid = subst IsValid (ok-injective (sym writes.returns ∙ refines.maps)) writes.valid;
      represents = refines.represents;
      kept = λ j.
          IsKept-assign start h refines.after alive.owned i refines.new t.heads m.table
            alive.represents.stores refines.changes j (alive.kept j);
    } in
    subst (λ (x : HashMap). IsAlive start h' t' x) same_map
      (subst (λ (x : Memory × HeadTable). IsAlive start x.0 x.1 refines.map) same here)

pub Life-IsAlive :
    (size : ℕ) (start h : Memory) (t : HeadTable) (m : HashMap)
    → 0 < size
    → Life size start h t m
    → IsAlive start h t m
Life-IsAlive size start h t m positive constructs = record {
  owned = λ _. [];
  valid = new-IsValid size positive;
  represents = construct_at-Represents start size;
  kept = λ j. inl (λ i. refl, refl);
}
Life-IsAlive size start _ _ _ positive
      (inserts h t m fuel address k v h' t' m' life enough unused runs maps) =
    let alive = Life-IsAlive size start h t m positive life in
    IsAlive-step start h t m _ k (some v) _ _ h' t' m' alive
      (insert_at-Refines h t m alive.owned alive.valid alive.represents fuel enough k address v
        unused)
      (insert-Writes m k v alive.valid) runs maps
Life-IsAlive size start _ _ _ positive (removes h t m fuel k h' t' m' life enough runs maps) =
    let alive = Life-IsAlive size start h t m positive life in
    IsAlive-step start h t m _ k none _ _ h' t' m' alive
      (remove_at-Refines h t m alive.owned alive.valid alive.represents fuel enough k)
      (remove-Writes m k alive.valid) runs maps
