-- ===== src/HashMap/Memory/Owned.antt =====
-- src/RAM/HashMap.cpp, the chains in memory: which addresses a chain owns, what a method may change
-- of them, and what it leaves alone.
use kv_database.Prelude.{
  contains, NoRepeat, ℕ, ◌≡◌, refl, ap, ◌∙◌, inl, inr, true, false, Option, none, some, List, [],
  ◌∷◌, arith, ◌==◌, ==_iff, Bool-cases,
}
use mathlib.Core.Path.{subst}
use kv_database.Result.{Result, ok}
use kv_database.HashMap.{Node, Chain}
use kv_database.HashMap.Memory.{Cell, Memory, put}

abbrev pub cell_of : Node → Option ℕ → Cell
cell_of n next = record { key = n.key; value = n.value; next = next }

-- From the pointer `p` on, the memory holds the nodes of the chain at these addresses.
abbrev pub Owns : Memory → Option ℕ → List ℕ → Chain → Type 0
Owns h p [] [] = p ≡ none
Owns h p (a ∷ xs) (n ∷ c) =
    (p ≡ some a) × ((next : Option ℕ) × (h a ≡ some (cell_of n next)) × Owns h next xs c)
Owns h p _ _ = ⊥

-- The memory `h'` holds a chain at `new` instead of the one that `h` held at `old`.
pub record Changes (h h' : Memory) (old new : List ℕ) : Type 0 where
  -- nothing else is touched
  pub frame : (j : ℕ) → contains j old ≡ false → contains j new ≡ false → h' j ≡ h j
  -- what the chain no longer holds is freed
  pub freed : (j : ℕ) → contains j old ≡ true → contains j new ≡ false → h' j ≡ none
  -- what the chain newly holds was not live
  pub fresh : (j : ℕ) → contains j new ≡ true → contains j old ≡ false → h j ≡ none

-- A method returns, and leaves the chain in memory.
pub record Leaves (h : Memory) (old : List ℕ) (chain : Chain) (run : Result (Memory × Option ℕ))
    : Type 0 where
  pub after : Memory
  pub head : Option ℕ
  pub new : List ℕ
  pub returns : run ≡ ok (after, head)
  pub owns : Owns after head new chain
  pub apart : NoRepeat new
  pub changes : Changes h after old new

-- A chain depends on its own addresses only.
pub Owns-frame :
    (h h' : Memory) (p : Option ℕ) (xs : List ℕ) (c : Chain)
    → ((j : ℕ) → contains j xs ≡ true → h' j ≡ h j)
    → Owns h p xs c
    → Owns h' p xs c
Owns-frame h h' p [] [] same owns = owns
Owns-frame h h' p [] (n ∷ c) same owns = owns
Owns-frame h h' p (a ∷ xs) [] same owns = owns
Owns-frame h h' p (a ∷ xs) (n ∷ c) same (at, (next, here, rest)) = (
  at,
  (
    next,
    same a (ground arith) ∙ here,
    Owns-frame h h' next xs c (λ j inside. same j (ground (arith, inside))) rest,
  ),
)

-- What a chain owns is live.
pub Owns-live :
    (h : Memory) (p : Option ℕ) (xs : List ℕ) (c : Chain) (j : ℕ)
    → Owns h p xs c
    → h j ≡ none
    → contains j xs ≡ false
Owns-live h p [] c j owns dead = refl
Owns-live h p (a ∷ xs) [] j owns dead = absurd owns
Owns-live h p (a ∷ xs) (n ∷ c) j (at, (next, here, rest)) dead =
    ground (arith, Owns-live h next xs c j rest dead, dead, here)

pub Owns-cons :
    (h : Memory) (next : Option ℕ) (xs : List ℕ) (n : Node) (c : Chain) {p : Option ℕ} {a : ℕ}
    {d : Chain}
    → p ≡ some a
    → h a ≡ some (cell_of n next)
    → Owns h next xs c
    → n ∷ c ≡ d
    → Owns h p (a ∷ xs) d
Owns-cons h next xs n c {p} {a} {d} at here rest same =
    subst (λ (e : Chain). Owns h p (a ∷ xs) e) same (at, (next, here, rest))

-- A write elsewhere leaves a chain alone.
pub Owns-put :
    (h : Memory) (p : Option ℕ) (xs : List ℕ) (c : Chain) (a : ℕ) (content : Option Cell)
    → contains a xs ≡ false
    → Owns h p xs c
    → Owns (put a content h) p xs c
Owns-put h p xs c a content outside owns =
    Owns-frame h (put a content h) p xs c
      (λ j inside. elim (Bool-cases (a == j)) [
        | inl e ↦
            absurd
              (ground (arith, inside, outside, ap (λ (i : ℕ). contains i xs) ((==_iff a j).0 e)))
        | inr e ↦ ground (arith, e)
      ])
      owns
