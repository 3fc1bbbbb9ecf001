-- ===== src/HashMap/Chain.antt =====
-- src/RAM/HashMap.cpp, one chain of the table: what the loops of `insert`, `get` and `remove` do
-- to it.
use kv_database.Prelude.{
  ◌≡◌, refl, ap, ◌+◌, ℕ, Option, none, some, [], ◌∷◌, arith, Bytes, ◌===◌, ===_iff, Option-cases,
  inl, inr, if◌then◌else◌, length,
}
use kv_database.HashMap.{Chain, update_node, insert_chain, get_chain, remove_chain}

-- The value that a chain holds at a key.
unfoldable pub find : Bytes → Chain → Option Bytes
find q [] = none
find q (n ∷ c) = if n.key === q then some n.value else find q c

-- No key occurs twice.
abbrev pub IsDistinct : Chain → Type 0
IsDistinct [] = Unit
IsDistinct (n ∷ c) = (find n.key c ≡ none) × IsDistinct c

abbrev pub or_empty : Option Bytes → Bytes
or_empty none = []
or_empty (some v) = v

pub get_chain-find : (q : Bytes) (c : Chain) → get_chain q c ≡ or_empty (find q c)
unfolding get_chain find
get_chain-find q [] = refl
get_chain-find q (n ∷ c) = ground (arith, get_chain-find q c)

-- An `update_node` that fails found no such key.
update_node-none : (k v : Bytes) (c : Chain) → update_node k v c ≡ none → find k c ≡ none
unfolding update_node find
update_node-none k v [] h = refl
update_node-none k v (n ∷ c) h = ground (arith, update_node-none k v c)

update_node-some :
    (k v q : Bytes) (c c' : Chain)
    → update_node k v c ≡ some c'
    → find q c' ≡ (if k === q then some v else find q c)
unfolding update_node find
update_node-some k v q [] c' h = ground arith
update_node-some k v q (n ∷ c) c' h = elim (Option-cases (update_node k v c)) [
  | inl e ↦ ground (arith, e, ===_iff n.key k, ===_iff n.key q, ===_iff k q)
  | inr (d, e) ↦
      ground (arith, e, update_node-some k v q c d, ===_iff n.key k, ===_iff n.key q, ===_iff k q)
]

-- `insert` sets the key and leaves every other key alone.
pub find-insert_chain :
    (k v q : Bytes) (c : Chain)
    → find q (insert_chain k v c) ≡ (if k === q then some v else find q c)
unfolding insert_chain find
find-insert_chain k v q c = elim (Option-cases (update_node k v c)) [
  | inl e ↦ ground (arith, e)
  | inr (d, e) ↦ ground (arith, e, update_node-some k v q c d)
]

update_node-IsDistinct :
    (k v : Bytes) (c c' : Chain) → update_node k v c ≡ some c' → IsDistinct c → IsDistinct c'
unfolding update_node
update_node-IsDistinct k v [] c' h d = ground arith
update_node-IsDistinct k v (n ∷ c) c' h d = elim (Option-cases (update_node k v c)) [
  | inl e ↦ ground (arith, e)
  | inr (t, e) ↦ ground (
    arith,
    e,
    update_node-IsDistinct k v c t,
    update_node-some k v n.key c t,
    ===_iff n.key k,
    ===_iff k n.key,
  )
]

pub insert_chain-IsDistinct :
    (k v : Bytes) (c : Chain) → IsDistinct c → IsDistinct (insert_chain k v c)
unfolding insert_chain
insert_chain-IsDistinct k v c d = elim (Option-cases (update_node k v c)) [
  | inl e ↦ ground (arith, e, update_node-none k v c)
  | inr (t, e) ↦ ground (arith, e, update_node-IsDistinct k v c t)
]

find-remove_chain-none :
    (k q : Bytes) (c : Chain) → find q c ≡ none → find q (remove_chain k c) ≡ none
unfolding remove_chain find
find-remove_chain-none k q [] h = refl
find-remove_chain-none k q (n ∷ c) h = ground (arith, find-remove_chain-none k q c)

-- `remove` clears the key and leaves every other key alone.
pub find-remove_chain :
    (k q : Bytes) (c : Chain)
    → IsDistinct c
    → find q (remove_chain k c) ≡ (if k === q then none else find q c)
unfolding remove_chain find
find-remove_chain k q [] d = ground arith
find-remove_chain k q (n ∷ c) d = ground (
  arith,
  find-remove_chain k q c,
  ===_iff n.key k,
  ===_iff n.key q,
  ===_iff k q,
  ap (λ (b : Bytes). find b c),
)

pub remove_chain-IsDistinct : (k : Bytes) (c : Chain) → IsDistinct c → IsDistinct (remove_chain k c)
unfolding remove_chain
remove_chain-IsDistinct k [] d = tt
remove_chain-IsDistinct k (n ∷ c) d =
    ground (arith, remove_chain-IsDistinct k c, find-remove_chain-none k n.key c)

-- The nodes that a chain holds at a key.
abbrev pub held : Option Bytes → ℕ
held none = 0
held (some v) = 1

update_node-length :
    (k v : Bytes) (c c' : Chain)
    → update_node k v c ≡ some c'
    → (length c' ≡ length c) × (held (find k c) ≡ 1)
unfolding update_node find
update_node-length k v [] c' h = ground arith
update_node-length k v (n ∷ c) c' h = elim (Option-cases (update_node k v c)) [
  | inl e ↦ ground (arith, e)
  | inr (t, e) ↦ ground (arith, e, update_node-length k v c t)
]

-- `insert` allocates a node exactly if the key is new.
pub length-insert_chain :
    (k v : Bytes) (c : Chain) → length (insert_chain k v c) + held (find k c) ≡ length c + 1
unfolding insert_chain
length-insert_chain k v c = elim (Option-cases (update_node k v c)) [
  | inl e ↦ ground (arith, e, update_node-none k v c)
  | inr (t, e) ↦ ground (arith, e, update_node-length k v c t)
]

-- `remove` frees a node exactly if the key is there.
pub length-remove_chain :
    (k : Bytes) (c : Chain) → length (remove_chain k c) + held (find k c) ≡ length c
unfolding remove_chain find
length-remove_chain k [] = refl
length-remove_chain k (n ∷ c) = ground (arith, length-remove_chain k c)
