-- ===== src/HashMap.antt =====
-- src/RAM/HashMap.h and HashMap.cpp: the table of chains, its hash function and its methods. A
-- chain `Node *` is the list of its nodes from the head: each chain is owned by one bucket, so the
-- `next` pointers are the list itself. The mutex `sm` makes each method one atomic step.
pub mod Hash
pub mod Chain
pub mod Map
pub mod Entries
pub mod Contents
pub mod Memory
use kv_database.Prelude.{
  ℕ, ◌+◌, ◌-◌, ◌*◌, ◌%◌, ◌^◌, Bool, Option, none, some, List, [], ◌∷◌, Bytes, ltb, ◌==◌, ◌===◌,
  if◌then◌else◌, get_or, set, replicate,
}
use kv_database.Result.{Result, ok, fault, division_by_zero, ◌>>=◌}

pub record Node : Type 0 where
  pub key : Bytes
  pub value : Bytes

abbrev pub Chain : Type 0
Chain = List Node

pub record HashMap : Type 0 where
  pub table : List Chain
  pub capacity : ℕ

-- The default argument of the constructor.
abbrev pub default_capacity : ℕ
default_capacity = 100

-- `HashMap(int size)`: every bucket is empty.
unfoldable pub new : ℕ → HashMap
new size = record { table = replicate size []; capacity = size }

-- `unsigned long long`.
abbrev pub ull_mod : ℕ
ull_mod = 2 ^ 64

-- A `char` is signed: a byte from 128 on is negative, and wraps when it is added to an
-- `unsigned long long`.
unfoldable pub char_to_ull : ℕ → ℕ
char_to_ull c = if ltb c 128 then c else c + (ull_mod - 256)

-- `hashValue += (p * hashValue) + c` with `p = 31`.
unfoldable pub hash_step : ℕ → ℕ → ℕ
unfolding char_to_ull
hash_step hash_value c =
    (hash_value + (31 * hash_value % ull_mod + char_to_ull c) % ull_mod) % ull_mod

unfoldable pub hash_loop : ℕ → Bytes → ℕ
hash_loop hash_value [] = hash_value
hash_loop hash_value (c ∷ key) = hash_loop (hash_step hash_value c) key

unfoldable pub hash_function : HashMap → Bytes → Result ℕ
hash_function m key =
    if m.capacity == 0 then fault division_by_zero else ok (hash_loop 0 key % m.capacity)

-- A node that the loop has passed stays in front of what follows it.
abbrev pub keep_node : Node → Option Chain → Option Chain
keep_node curr none = none
keep_node curr (some next) = some (curr ∷ next)

-- The `while` loop of `insert`: writes the value at the key, `none` if the end is reached.
unfoldable pub update_node : Bytes → Bytes → Chain → Option Chain
update_node key value [] = none
update_node key value (curr ∷ next) =
    let rest = keep_node curr (update_node key value next) in
    if curr.key === key then some (record curr { value = value } ∷ next) else rest

-- `insert` on the chain of the key: a new node is put at the head.
unfoldable pub insert_chain : Bytes → Bytes → Chain → Chain
insert_chain key value chain = elim (update_node key value chain) [
  | some updated ↦ updated
  | none ↦ record { key = key; value = value } ∷ chain
]

unfoldable pub insert : HashMap → Bytes → Bytes → Result HashMap
insert m key value = do
  i ← hash_function m key
  ok (record m { table = set m.table i (insert_chain key value (get_or m.table i [])) })

-- The `while` loop of `get`.
unfoldable pub get_chain : Bytes → Chain → Bytes
get_chain key [] = []
get_chain key (curr ∷ next) = if curr.key === key then curr.value else get_chain key next

unfoldable pub get : HashMap → Bytes → Result Bytes
get m key = do i ← hash_function m key; ok (get_chain key (get_or m.table i []))

-- The `while` loop of `remove`: the first node with the key is unlinked, as head or after `prev`.
unfoldable pub remove_chain : Bytes → Chain → Chain
remove_chain key [] = []
remove_chain key (curr ∷ next) = if curr.key === key then next else curr ∷ remove_chain key next

unfoldable pub remove : HashMap → Bytes → Result HashMap
remove m key = do
  i ← hash_function m key
  ok (record m { table = set m.table i (remove_chain key (get_or m.table i [])) })

-- `forEach`: the callback changes a state `S` that it captures.
module _ {ℓ} {S : Type ℓ} (callback : Bytes → Bytes → S → S) where
  unfoldable pub for_each_chain : Chain → S → S
  for_each_chain [] s = s
  for_each_chain (current ∷ next) s = for_each_chain next (callback current.key current.value s)

  unfoldable pub for_each_table : List Chain → S → S
  unfolding for_each_chain
  for_each_table [] s = s
  for_each_table (chain ∷ rest) s = for_each_table rest (for_each_chain chain s)

  unfoldable pub for_each : HashMap → S → S
  for_each m s = for_each_table m.table s
