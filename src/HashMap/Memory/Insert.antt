-- ===== src/HashMap/Memory/Insert.antt =====
-- src/RAM/HashMap.cpp, `insert` on a chain in memory.
use kv_database.Prelude.{
  contains, NoRepeat, ℕ, zero, suc, ◌<◌, ◌≡◌, refl, ◌∙◌, inl, inr, Bool, true, false, Option, none,
  some, List, [], ◌∷◌, arith, Bytes, ◌===◌, length, Option-cases, Bool-cases,
}
use kv_database.Result.{Result, ok}
use kv_database.HashMap.{Chain, update_node, insert_chain}
use kv_database.HashMap.Memory.{Memory, put, insert_loop, insert_head}
use kv_database.HashMap.Memory.Owned.{cell_of, Owns, Leaves, Owns-live, Owns-cons, Owns-put}

-- The loop passes every node if none has the key.
insert_loop-none :
    (fuel : ℕ) (k v : Bytes) (h : Memory) (p : Option ℕ) (xs : List ℕ) (c : Chain)
    → length c < fuel
    → Owns h p xs c
    → update_node k v c ≡ none
    → insert_loop fuel k v h p ≡ ok (false, h)
unfolding insert_loop update_node
insert_loop-none zero k v h p xs c enough owns missing = absurd (omega arith)
insert_loop-none (suc fuel) k v h p [] [] enough owns missing = rw owns refl
insert_loop-none (suc fuel) k v h p [] (n ∷ c) enough owns missing = absurd owns
insert_loop-none (suc fuel) k v h p (a ∷ xs) [] enough owns missing = absurd owns
insert_loop-none (suc fuel) k v h p (a ∷ xs) (n ∷ c) enough (at, (next, here, rest)) missing =
    elim (Option-cases (update_node k v c)) [
      | inl e ↦
          ground (arith, at, here, e, insert_loop-none fuel k v h next xs c (omega arith) rest e)
      | inr (c', e) ↦ absurd (ground (arith, e))
    ]

-- The loop writes the value in place.
record Overwrites (run : Result (Bool × Memory)) (h : Memory) (p : Option ℕ) (xs : List ℕ)
    (c' : Chain) : Type 0 where
  after : Memory
  returns : run ≡ ok (true, after)
  owns : Owns after p xs c'
  frame : (j : ℕ) → contains j xs ≡ false → after j ≡ h j

insert_loop-some :
    (fuel : ℕ) (k v : Bytes) (h : Memory) (p : Option ℕ) (xs : List ℕ) (c c' : Chain)
    → length c < fuel
    → Owns h p xs c
    → NoRepeat xs
    → update_node k v c ≡ some c'
    → Overwrites (insert_loop fuel k v h p) h p xs c'
unfolding insert_loop update_node
insert_loop-some zero k v h p xs c c' enough owns apart found = absurd (omega arith)
insert_loop-some (suc fuel) k v h p xs [] c' enough owns apart found = absurd (ground arith)
insert_loop-some (suc fuel) k v h p [] (n ∷ c) c' enough owns apart found = absurd owns
insert_loop-some (suc fuel) k v h p (a ∷ xs) (n ∷ c) c' enough (at, (next, here, rest)) apart
      found =
    elim (Bool-cases (n.key === k)) [
      | inl e ↦
          let h' = put a (some (cell_of (record n { value = v }) next)) h in
          record {
            after = h';
            returns = ground (arith, at, here, e);
            owns =
                Owns-cons h' next xs (record n { value = v }) c at (ground arith)
                  (Owns-put h next xs c a _ apart.0 rest) (ground (arith, e));
            frame = λ j outside. ground (arith, outside);
          }
      | inr e ↦ elim (Option-cases (update_node k v c)) [
        | inl none_left ↦ absurd (ground (arith, e, none_left))
        | inr (d, e') ↦
            let inner = insert_loop-some fuel k v h next xs c d (omega arith) rest apart.1 e' in
            record {
              after = inner.after;
              returns = ground (arith, at, here, e, inner.returns);
              owns =
                  Owns-cons inner.after next xs n d at (inner.frame a apart.0 ∙ here) inner.owns
                    (ground (arith, e, e'));
              frame = λ j outside. inner.frame j (ground (arith, outside));
            }
      ]
    ]

-- `insert` on a chain in memory leaves the chain that `insert_chain` gives.
pub insert_head-Leaves :
    (fuel address : ℕ) (k v : Bytes) (h : Memory) (head : Option ℕ) (xs : List ℕ) (c : Chain)
    → length c < fuel
    → h address ≡ none
    → Owns h head xs c
    → NoRepeat xs
    → Leaves h xs (insert_chain k v c) (insert_head fuel address k v h head)
unfolding insert_head insert_chain
insert_head-Leaves fuel address k v h head xs c enough unused owns apart =
    elim (Option-cases (update_node k v c)) [
      | inl e ↦
          let outside = Owns-live h head xs c address owns unused in
          record {
            after = put address (some (cell_of (record { key = k; value = v }) head)) h;
            head = some address;
            new = address ∷ xs;
            returns = rw (insert_loop-none fuel k v h head xs c enough owns e) refl;
            owns =
                Owns-cons _ head xs (record { key = k; value = v }) c refl (ground arith)
                  (Owns-put h head xs c address _ outside owns) (ground (arith, e));
            apart = (outside, apart);
            changes = record {
              frame = λ j old new. ground (arith, new);
              freed = λ j old new. absurd (ground (arith, old, new));
              fresh = λ j new old. ground (arith, new, old, unused);
            };
          }
      | inr (d, e) ↦
          let loop = insert_loop-some fuel k v h head xs c d enough owns apart e in
          record {
            after = loop.after;
            head = head;
            new = xs;
            returns = rw loop.returns refl;
            owns = rw (insert_chain, e) loop.owns;
            apart = apart;
            changes = record {
              frame = λ j old new. loop.frame j old;
              freed = λ j old new. absurd (ground (arith, old, new));
              fresh = λ j new old. absurd (ground (arith, old, new));
            };
          }
    ]
