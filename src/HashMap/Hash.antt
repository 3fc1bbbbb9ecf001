-- ===== src/HashMap/Hash.antt =====
-- src/RAM/HashMap.cpp, `hashFunction`: the recurrence, and which characters of a key matter.
use kv_database.Prelude.{
  ℕ, zero, suc, ◌+◌, ◌*◌, ◌%◌, ◌/◌, ◌^◌, ◌<◌, ◌≤◌, ◌≡◌, refl, ap, [], ◌∷◌, ◌++◌, arith, Bytes,
  length,
}
use native.Mathlib.Nat.{pow-suc}
use kv_database.HashMap.{char_to_ull, hash_step, hash_loop, ull_mod}

-- One round multiplies by 32: `hashValue += 31 * hashValue + c`.
pub hash_step-eq : (h c : ℕ) → hash_step h c ≡ (32 * h + char_to_ull c) % ull_mod
unfolding hash_step
hash_step-eq h c = omega arith

pub hash_loop-lt : (h : ℕ) (key : Bytes) → h < ull_mod → hash_loop h key < ull_mod
unfolding hash_loop hash_step
hash_loop-lt h [] lt = lt
hash_loop-lt h (c ∷ key) lt = hash_loop-lt (hash_step h c) key (omega arith)

pub hash_loop-append :
    (h : ℕ) (xs ys : Bytes) → hash_loop h (xs ++ ys) ≡ hash_loop (hash_loop h xs) ys
unfolding hash_loop
hash_loop-append h [] ys = refl
hash_loop-append h (c ∷ xs) ys = hash_loop-append (hash_step h c) xs ys

-- `a` and `b` are congruent modulo `m`.
record Agree (m a b : ℕ) : Type 0 where
  up : ℕ
  down : ℕ
  balance : a + m * up ≡ b + m * down

-- A round turns a congruence modulo `m` into one modulo `32 * m`, as far as the 64 bits go.
step-Agree :
    (m q a b c : ℕ)
    → 32 * m * q ≡ ull_mod
    → Agree m a b
    → Agree (32 * m) (hash_step a c) (hash_step b c)
step-Agree m q a b c width g =
    let x : ℕ = 32 * a + char_to_ull c in
    let y : ℕ = 32 * b + char_to_ull c in
    record {
      up = q * (x / ull_mod) + g.up;
      down = q * (y / ull_mod) + g.down;
      balance = omega (
        arith,
        g.balance,
        ap (λ (t : ℕ). t * (x / ull_mod)) width,
        ap (λ (t : ℕ). t * (y / ull_mod)) width,
        hash_step-eq a c,
        hash_step-eq b c,
      );
    }

-- Congruent modulo 2 ^ 59, the values are equal after one more round.
step-eq_of_Agree : (a b c : ℕ) → Agree (2 ^ 59) a b → hash_step a c ≡ hash_step b c
step-eq_of_Agree a b c g =
    let s = step-Agree (2 ^ 59) 1 a b c refl g in
    omega (arith, s.balance, hash_step-eq a c, hash_step-eq b c)

forget :
    (n m : ℕ) (a b : ℕ) (key : Bytes)
    → 32 ^ n * m ≡ 2 ^ 59
    → Agree m a b
    → n < length key
    → hash_loop a key ≡ hash_loop b key
unfolding hash_loop
forget n m a b [] width g long = absurd (omega arith)
forget zero m a b (c ∷ key) width g long =
    let e : m ≡ 2 ^ 59 = omega (arith, width) in rw (step-eq_of_Agree a b c (rw e at g))
forget (suc n) m a b (c ∷ key) width g long =
    forget n (32 * m) (hash_step a c) (hash_step b c) key
      (omega (arith, width, ap (λ (t : ℕ). t * m) (pow-suc 32 n)))
      (step-Agree m (32 ^ n * 32) a b c (omega (arith, width, ap (λ (t : ℕ). t * m) (pow-suc 32 n)))
        g)
      (omega arith)

-- Whatever the hash before them, 13 or more characters determine the hash that they lead to.
pub hash_loop-forgets :
    (a b : ℕ) (key : Bytes) → 13 ≤ length key → hash_loop a key ≡ hash_loop b key
unfolding hash_loop
hash_loop-forgets a b [] long = absurd (omega arith)
hash_loop-forgets a b (c ∷ key) long =
    let start : Agree 1 a b = record { up = b; down = a; balance = omega arith } in
    let g = step-Agree 1 (2 ^ 59) a b c refl start in
    forget 11 (2 ^ 4) (hash_step a c) (hash_step b c) key refl
      (record { up = 2 * g.up; down = 2 * g.down; balance = omega (arith, g.balance) })
      (omega arith)
