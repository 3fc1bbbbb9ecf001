-- ===== src/HashMap/Memory/Remove.antt =====
-- src/RAM/HashMap.cpp, `remove` on a chain in memory.
use kv_database.Prelude.{
  contains, NoRepeat, ℕ, zero, suc, ◌<◌, ◌≡◌, refl, inl, inr, true, false, Option, none, some, List,
  [], ◌∷◌, arith, Bytes, ◌==◌, ◌===◌, length, Bool-cases,
}
use kv_database.Result.{Result, ok}
use kv_database.HashMap.{Chain, Node, remove_chain}
use kv_database.HashMap.Memory.{Cell, Memory, put, unlink, remove_loop}
use kv_database.HashMap.Memory.Owned.{cell_of, Owns, Leaves, Owns-cons, Owns-put}

unlink_behind :
    (h : Memory) (head : Option ℕ) (prev curr : ℕ) (c p d : Cell)
    → h prev ≡ some p
    → h curr ≡ some d
    → (prev == curr) ≡ false
    → unlink h head (some prev) curr c
      ≡ ok (put curr none (put prev (some (record p { next = c.next })) h), head)
unfolding unlink
unlink_behind h head prev curr c p d before here away = ground (arith, before, away, here)

-- The loop behind a node `prev` relinks that node, and leaves the head.
record Relinks (run : Result (Memory × Option ℕ)) (h : Memory) (head : Option ℕ) (prev : ℕ)
    (node_before : Node) (xs : List ℕ) (c' : Chain) : Type 0 where
  after : Memory
  next : Option ℕ
  new : List ℕ
  returns : run ≡ ok (after, head)
  before : after prev ≡ some (cell_of node_before next)
  owns : Owns after next new c'
  apart : NoRepeat new
  within : (j : ℕ) → contains j xs ≡ false → contains j new ≡ false
  frame : (j : ℕ) → contains j xs ≡ false → (prev == j) ≡ false → after j ≡ h j
  freed : (j : ℕ) → contains j xs ≡ true → contains j new ≡ false → after j ≡ none

remove_loop-Relinks :
    (fuel : ℕ) (k : Bytes) (h : Memory) (head : Option ℕ) (prev : ℕ) (m : Node) (p : Option ℕ)
    (xs : List ℕ) (c : Chain)
    → length c < fuel
    → h prev ≡ some (cell_of m p)
    → contains prev xs ≡ false
    → Owns h p xs c
    → NoRepeat xs
    → Relinks (remove_loop fuel k h head (some prev) p) h head prev m xs (remove_chain k c)
unfolding remove_loop remove_chain
remove_loop-Relinks zero k h head prev m p xs c enough here out owns apart = absurd (omega arith)
remove_loop-Relinks (suc fuel) k h head prev m p [] [] enough here out owns apart = record {
  after = h;
  next = none;
  new = [];
  returns = rw owns refl;
  before = ground (arith, here, owns);
  owns = refl;
  apart = tt;
  within = λ j outside. refl;
  frame = λ j outside away. refl;
  freed = λ j inside gone. absurd (ground arith);
}
remove_loop-Relinks (suc fuel) k h head prev m p [] (n ∷ c) enough here out owns apart = absurd owns
remove_loop-Relinks (suc fuel) k h head prev m p (a ∷ xs) [] enough here out owns apart =
    absurd owns
remove_loop-Relinks (suc fuel) k h head prev m p (a ∷ xs) (n ∷ c) enough here out
      (at, (next, there, rest)) apart =
    elim (Bool-cases (n.key === k))
      as (λ _.
        Relinks (remove_loop (suc fuel) k h head (some prev) p) h head prev m (a ∷ xs)
          (remove_chain k (n ∷ c))) [
            | inl e ↦
                let h' = put prev (some (cell_of m next)) h in
                record {
                  after = put a none h';
                  next = next;
                  new = xs;
                  returns = ground (
                    arith,
                    at,
                    there,
                    e,
                    unlink_behind h head prev a (cell_of n next) (cell_of m p) (cell_of n next) here
                        there (ground (arith, out)),
                  );
                  before = ground (arith, out);
                  owns =
                      rw (remove_chain, e)
                        (Owns-put h' next xs c a none apart.0 (
                          Owns-put h next xs c prev (some (cell_of m next)) (ground (arith, out))
                            rest));
                  apart = apart.1;
                  within = λ j outside. ground (arith, outside);
                  frame = λ j outside away. ground (arith, outside, away);
                  freed = λ j inside gone. ground (arith, inside, gone);
                }
            | inr e ↦
                let loop =
                  remove_loop-Relinks fuel k h head a n next xs c (omega arith) there apart.0 rest
                    apart.1 in
                record {
                  after = loop.after;
                  next = some a;
                  new = a ∷ loop.new;
                  returns = ground (arith, at, there, e, loop.returns);
                  before = ground (arith, loop.frame prev, out, here, at);
                  owns =
                      Owns-cons loop.after loop.next loop.new n (remove_chain k c) refl loop.before
                        loop.owns (ground (arith, e));
                  apart = (loop.within a apart.0, loop.apart);
                  within = λ j outside. ground (arith, outside, loop.within j);
                  frame = λ j outside away. ground (arith, outside, away, loop.frame j);
                  freed = λ j inside gone. ground (arith, inside, gone, loop.freed j);
                }
          ]

-- `remove` on a chain in memory leaves the chain that `remove_chain` gives, and frees the node.
pub remove_loop-Leaves :
    (fuel : ℕ) (k : Bytes) (h : Memory) (head : Option ℕ) (xs : List ℕ) (c : Chain)
    → length c < fuel
    → Owns h head xs c
    → NoRepeat xs
    → Leaves h xs (remove_chain k c) (remove_loop fuel k h head none head)
unfolding remove_loop remove_chain unlink
remove_loop-Leaves zero k h head xs c enough owns apart = absurd (omega arith)
remove_loop-Leaves (suc fuel) k h head [] [] enough owns apart = record {
  after = h;
  head = head;
  new = [];
  returns = rw owns refl;
  owns = owns;
  apart = tt;
  changes = record {
    frame = λ j old new. refl;
    freed = λ j old new. absurd (ground arith);
    fresh = λ j new old. absurd (ground arith);
  };
}
remove_loop-Leaves (suc fuel) k h head [] (n ∷ c) enough owns apart = absurd owns
remove_loop-Leaves (suc fuel) k h head (a ∷ xs) [] enough owns apart = absurd owns
remove_loop-Leaves (suc fuel) k h head (a ∷ xs) (n ∷ c) enough (at, (next, here, rest)) apart =
    elim (Bool-cases (n.key === k)) [
      | inl e ↦ record {
        after = put a none h;
        head = next;
        new = xs;
        returns = ground (arith, at, here, e);
        owns = rw (remove_chain, e) (Owns-put h next xs c a none apart.0 rest);
        apart = apart.1;
        changes = record {
          frame = λ j old new. ground (arith, old);
          freed = λ j old new. ground (arith, old, new);
          fresh = λ j new old. absurd (ground (arith, old, new));
        };
      }
      | inr e ↦
          let loop =
            remove_loop-Relinks fuel k h head a n next xs c (omega arith) here apart.0 rest
              apart.1 in
          record {
            after = loop.after;
            head = head;
            new = a ∷ loop.new;
            returns = ground (arith, at, here, e, loop.returns);
            owns =
                Owns-cons loop.after loop.next loop.new n (remove_chain k c) at loop.before
                  loop.owns (ground (arith, e));
            apart = (loop.within a apart.0, loop.apart);
            changes = record {
              frame = λ j old new. ground (arith, old, loop.frame j);
              freed = λ j old new. ground (arith, old, new, loop.freed j);
              fresh = λ j new old. absurd (ground (arith, old, new, loop.within j));
            };
          }
    ]
