-- ===== src/HashMap/Memory/Visit.antt =====
-- src/RAM/HashMap.cpp, `forEach` on the table in memory.
use kv_database.Prelude.{
  ℕ, zero, suc, ◌<◌, ◌≡◌, refl, ◌∙◌, Option, none, List, [], ◌∷◌, arith, Bytes, length, get_or,
}
use kv_database.Result.{ok}
use kv_database.HashMap.{Chain, for_each_chain, for_each_table}
use kv_database.HashMap.Memory.{Memory, visit_chain, visit_table}
use kv_database.HashMap.Memory.Owned.{Owns}

module _ {ℓ} {S : Type ℓ} (f : Bytes → Bytes → S → S) where
  visit_chain-for_each_chain :
      (fuel : ℕ) (h : Memory) (p : Option ℕ) (xs : List ℕ) (c : Chain) (s : S)
      → length c < fuel
      → Owns h p xs c
      → visit_chain f fuel h p s ≡ ok (for_each_chain f c s)
  unfolding visit_chain for_each_chain
  visit_chain-for_each_chain zero h p xs c s enough owns = absurd (omega arith)
  visit_chain-for_each_chain (suc fuel) h p [] [] s enough owns = rw owns refl
  visit_chain-for_each_chain (suc fuel) h p [] (n ∷ c) s enough owns = absurd owns
  visit_chain-for_each_chain (suc fuel) h p (a ∷ xs) [] s enough owns = absurd owns
  visit_chain-for_each_chain (suc fuel) h p (a ∷ xs) (n ∷ c) s enough (at, (next, here, rest)) =
      ground (
        arith,
        at,
        here,
        visit_chain-for_each_chain fuel h next xs c (f n.key n.value s) (omega arith) rest,
      )

  -- The visit of the memory is the visit of the map.
  pub visit_table-for_each_table :
      (fuel : ℕ) (h : Memory) (heads : List (Option ℕ)) (chains : List Chain) (owned : ℕ → List ℕ)
      (s : S)
      → length heads ≡ length chains
      → ((i : ℕ) → length (get_or chains i []) < fuel)
      → ((i : ℕ) → Owns h (get_or heads i none) (owned i) (get_or chains i []))
      → visit_table f fuel h heads s ≡ ok (for_each_table f chains s)
  unfolding visit_table for_each_table
  visit_table-for_each_table fuel h [] [] owned s width enough owns = refl
  visit_table-for_each_table fuel h [] (c ∷ cs) owned s width enough owns =
      absurd (omega (arith, width))
  visit_table-for_each_table fuel h (p ∷ ps) [] owned s width enough owns =
      absurd (omega (arith, width))
  visit_table-for_each_table fuel h (p ∷ ps) (c ∷ cs) owned s width enough owns =
      (rw (visit_chain-for_each_chain fuel h p (owned 0) c s (enough 0) (owns 0)) refl)
      ∙ visit_table-for_each_table fuel h ps cs (λ i. owned (suc i)) (for_each_chain f c s)
          (omega (arith, width)) (λ i. enough (suc i)) (λ i. owns (suc i))
