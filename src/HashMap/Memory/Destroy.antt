-- ===== src/HashMap/Memory/Destroy.antt =====
-- src/RAM/HashMap.cpp, the destructor on a chain in memory.
use kv_database.Prelude.{
  contains, NoRepeat, ℕ, zero, suc, ◌<◌, ◌≡◌, refl, ◌∙◌, true, false, Option, none, some, List, [],
  ◌∷◌, arith, length,
}
use kv_database.Result.{Result, ok}
use kv_database.HashMap.{Chain}
use kv_database.HashMap.Memory.{Cell, Memory, put, delete_chain}
use kv_database.HashMap.Memory.Owned.{Owns, Owns-put}

-- The loop returns, so that each `delete` is of a live node. All nodes of the chain are gone, and
-- nothing else is.
pub record Frees (h : Memory) (xs : List ℕ) (run : Result Memory) : Type 0 where
  pub after : Memory
  pub returns : run ≡ ok after
  pub freed : (j : ℕ) → contains j xs ≡ true → after j ≡ none
  pub frame : (j : ℕ) → contains j xs ≡ false → after j ≡ h j

delete_chain-step :
    (fuel a : ℕ) (h : Memory) (p : Option ℕ) (c : Cell)
    → p ≡ some a
    → h a ≡ some c
    → delete_chain (suc fuel) h p ≡ delete_chain fuel (put a none h) c.next
unfolding delete_chain
delete_chain-step fuel a h p c at here = ground (arith, at, here)

pub delete_chain-Frees :
    (fuel : ℕ) (h : Memory) (p : Option ℕ) (xs : List ℕ) (c : Chain)
    → length c < fuel
    → Owns h p xs c
    → NoRepeat xs
    → Frees h xs (delete_chain fuel h p)
unfolding delete_chain
delete_chain-Frees zero h p xs c enough owns apart = absurd (omega arith)
delete_chain-Frees (suc fuel) h p [] [] enough owns apart = record {
  after = h;
  returns = rw owns refl;
  freed = λ j inside. absurd (ground arith);
  frame = λ j outside. refl;
}
delete_chain-Frees (suc fuel) h p [] (n ∷ c) enough owns apart = absurd owns
delete_chain-Frees (suc fuel) h p (a ∷ xs) [] enough owns apart = absurd owns
delete_chain-Frees (suc fuel) h p (a ∷ xs) (n ∷ c) enough (at, (next, here, rest)) apart =
    let later =
      delete_chain-Frees fuel (put a none h) next xs c (omega arith)
        (Owns-put h next xs c a none apart.0 rest) apart.1 in
    record {
      after = later.after;
      returns = delete_chain-step fuel a h p _ at here ∙ later.returns;
      freed = λ j inside. ground (arith, inside, later.freed j, later.frame j);
      frame = λ j outside. ground (arith, outside, later.frame j);
    }
