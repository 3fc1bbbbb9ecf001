-- ===== src/Persistence/Records.antt =====
-- src/Storage/Persistence.cpp, what the log means: records of writes, their effect on the map,
-- replay.
use kv_database.Prelude.{
  ◌≡◌, refl, sym, ◌∙◌, ◌⊎◌, inl, inr, List, [], ◌∷◌, ◌++◌, Bytes, ◌===◌, Bool-cases, Option, none,
  some,
}
use kv_database.HashMap.Map.{Map, update}
use kv_database.Stream.Words.{IsToken, IsWord}

-- A write that the server logs.
pub data Record : Type 0 where
  put : Bytes → Bytes → Record
  del : Bytes → Record

-- The keys and values of the protocol: words, or for a deletion perhaps the empty key.
abbrev pub IsPrintable : Record → Type 0
IsPrintable (put k v) = IsWord k × IsWord v
IsPrintable (del k) = IsToken k

unfoldable pub apply : Record → Map → Map
apply (put k v) f = update f k (some v)
apply (del k) f = update f k none

-- The meaning of a log: its records from the first to the last.
unfoldable pub replay : List Record → Map → Map
unfolding apply
replay [] f = f
replay (r ∷ rs) f = replay rs (apply r f)

pub replay-append : (rs ss : List Record) (f : Map) → replay (rs ++ ss) f ≡ replay ss (replay rs f)
unfolding replay
replay-append [] ss f = refl
replay-append (r ∷ rs) ss f = replay-append rs ss (apply r f)

-- `apply` and `replay` respect agreement of maps.
pub apply_congr :
    (r : Record) (f g : Map) → ((q : Bytes) → f q ≡ g q) → (q : Bytes) → apply r f q ≡ apply r g q
unfolding apply
apply_congr (put k v) f g h q = rw (h q)
apply_congr (del k) f g h q = rw (h q)

pub replay_congr :
    (rs : List Record) (f g : Map)
    → ((q : Bytes) → f q ≡ g q)
    → (q : Bytes) → replay rs f q ≡ replay rs g q
unfolding replay
replay_congr [] f g h = h
replay_congr (r ∷ rs) f g h = replay_congr rs (apply r f) (apply r g) (apply_congr r f g h)

apply-cases :
    (r : Record) (q : Bytes)
    → ((f : Map) → apply r f q ≡ f q) ⊎ ((w : Option Bytes) × ((f : Map) → apply r f q ≡ w))
unfolding apply
apply-cases (put k v) q = elim (Bool-cases (k === q)) [
  | inl e ↦ inr (some v, λ f. rw e)
  | inr e ↦ inl (λ f. rw e)
]
apply-cases (del k) q = elim (Bool-cases (k === q)) [
  | inl e ↦ inr (none, λ f. rw e)
  | inr e ↦ inl (λ f. rw e)
]

-- Either a log leaves a key alone or it decides the key's value.
replay-cases :
    (rs : List Record) (q : Bytes)
    → ((f : Map) → replay rs f q ≡ f q) ⊎ ((w : Option Bytes) × ((f : Map) → replay rs f q ≡ w))
unfolding replay
replay-cases [] q = inl (λ f. refl)
replay-cases (r ∷ rs) q = elim (replay-cases rs q) [
  | inr (w, decided) ↦ inr (w, λ f. decided (apply r f))
  | inl alone ↦ elim (apply-cases r q) [
    | inl kept ↦ inl (λ f. alone (apply r f) ∙ kept f)
    | inr (w, decided) ↦ inr (w, λ f. alone (apply r f) ∙ decided f)
  ]
]

-- Replaying a log over its own result changes nothing.
pub replay_twice :
    (rs : List Record) (f g : Map) (q : Bytes)
    → ((j : Bytes) → g j ≡ replay rs f j)
    → replay rs g q ≡ replay rs f q
replay_twice rs f g q h = elim (replay-cases rs q) [
  | inl alone ↦ alone g ∙ h q
  | inr (w, decided) ↦ decided g ∙ sym (decided f)
]
