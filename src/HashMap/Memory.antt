-- ===== src/HashMap/Memory.antt =====
-- src/RAM/HashMap.cpp with its pointers: the nodes are cells of a memory, the table holds the
-- addresses of the heads, and a method follows, writes and frees them as the code does. A null
-- pointer is `none`. The address that `new Node` returns is an argument: the allocator is not
-- code of this repository. Each loop runs on fuel.
mod Owned
mod Insert
mod Remove
mod Get
mod Visit
mod Destroy
mod Buckets
pub mod Refinement
pub mod Life
use kv_database.Prelude.{
  ℕ, zero, suc, Bool, true, false, Option, none, some, List, [], ◌∷◌, Bytes, ◌==◌, ◌===◌,
  if◌then◌else◌, get_or, set, replicate,
}
use kv_database.Result.{Result, ok, fault, dangling_pointer, out_of_fuel, ◌>>=◌}
use kv_database.HashMap.{HashMap, hash_function}

-- `struct Node`.
pub record Cell : Type 0 where
  pub key : Bytes
  pub value : Bytes
  pub next : Option ℕ

-- The live objects, by their address.
abbrev pub Memory : Type 0
Memory = ℕ → Option Cell

-- `Node(k, v)`.
abbrev pub node : Bytes → Bytes → Cell
node k v = record { key = k; value = v; next = none }

abbrev pub put : ℕ → Option Cell → Memory → Memory
put a c h j = if a == j then c else h j

abbrev pub load : Memory → ℕ → Result Cell
load h a = elim (h a) [ none ↦ fault dangling_pointer | some c ↦ ok c ]

-- A write through a pointer.
abbrev pub store : Memory → ℕ → Cell → Result Memory
store h a c = elim (h a) [ none ↦ fault dangling_pointer | some _ ↦ ok (put a (some c) h) ]

-- `delete`: freeing what is not live faults.
abbrev pub free : Memory → ℕ → Result Memory
free h a = elim (h a) [ none ↦ fault dangling_pointer | some _ ↦ ok (put a none h) ]

-- The `while` loop of `insert`: whether it has returned, and the memory.
unfoldable pub insert_loop : ℕ → Bytes → Bytes → Memory → Option ℕ → Result (Bool × Memory)
insert_loop zero key value h curr = fault out_of_fuel
insert_loop (suc fuel) key value h none = ok (false, h)
insert_loop (suc fuel) key value h (some curr) = do
  c ← load h curr
  let rest = insert_loop fuel key value h c.next
  if c.key === key then (do h' ← store h curr (record c { value = value }); ok (true, h')) else rest

-- The rest of `insert`: the new node is put in front of the head.
unfoldable pub insert_head : ℕ → ℕ → Bytes → Bytes → Memory → Option ℕ → Result (Memory × Option ℕ)
insert_head fuel address key value h head = do
  (returned, h') ← insert_loop fuel key value h head
  if returned
      then ok (h', head)
      else ok (put address (some (record (node key value) { next = head })) h', some address)

-- The `while` loop of `get`.
unfoldable pub get_loop : ℕ → Bytes → Memory → Option ℕ → Result Bytes
get_loop zero key h curr = fault out_of_fuel
get_loop (suc fuel) key h none = ok []
get_loop (suc fuel) key h (some curr) = do
  c ← load h curr
  let rest = get_loop fuel key h c.next
  if c.key === key then ok c.value else rest

-- The node is taken out of the chain and deleted.
unfoldable pub unlink : Memory → Option ℕ → Option ℕ → ℕ → Cell → Result (Memory × Option ℕ)
unlink h head none curr c = do h' ← free h curr; ok (h', c.next)
unlink h head (some prev) curr c = do
  p ← load h prev
  h' ← store h prev (record p { next = c.next })
  h'' ← free h' curr
  ok (h'', head)

-- The `while` loop of `remove`: the memory and the head of the chain.
unfoldable pub remove_loop :
    ℕ → Bytes → Memory → Option ℕ → Option ℕ → Option ℕ → Result (Memory × Option ℕ)
remove_loop zero key h head prev curr = fault out_of_fuel
remove_loop (suc fuel) key h head prev none = ok (h, head)
remove_loop (suc fuel) key h head prev (some curr) = do
  c ← load h curr
  let rest = remove_loop fuel key h head (some curr) c.next
  if c.key === key then unlink h head prev curr c else rest

-- The `while` loop of the destructor.
unfoldable pub delete_chain : ℕ → Memory → Option ℕ → Result Memory
delete_chain zero h curr = fault out_of_fuel
delete_chain (suc fuel) h none = ok h
delete_chain (suc fuel) h (some curr) = do
  c ← load h curr
  h' ← free h curr
  delete_chain fuel h' c.next

-- `~HashMap`: every bucket in turn.
unfoldable pub delete_table : ℕ → Memory → List (Option ℕ) → Result Memory
delete_table fuel h [] = ok h
delete_table fuel h (head ∷ table) = do h' ← delete_chain fuel h head; delete_table fuel h' table

-- The members of `HashMap`: the array holds the heads of the chains.
pub record HeadTable : Type 0 where
  pub heads : List (Option ℕ)
  pub capacity : ℕ

-- `hashFunction` reads the capacity only.
abbrev pub bucket_of : HeadTable → Bytes → Result ℕ
bucket_of t key = hash_function (record { table = []; capacity = t.capacity }) key

abbrev pub head_at : HeadTable → ℕ → Option ℕ
head_at t i = get_or t.heads i none

abbrev pub with_head : HeadTable → ℕ → Option ℕ → HeadTable
with_head t i head = record t { heads = set t.heads i head }

-- `HashMap(int size)`: every head is null.
unfoldable pub construct_at : ℕ → HeadTable
construct_at size = record { heads = replicate size none; capacity = size }

-- `insert`
unfoldable pub insert_at : ℕ → ℕ → Bytes → Bytes → Memory → HeadTable → Result (Memory × HeadTable)
insert_at fuel address key value h t = do
  i ← bucket_of t key
  (h', head) ← insert_head fuel address key value h (head_at t i)
  ok (h', with_head t i head)

-- `get`
unfoldable pub get_at : ℕ → Bytes → Memory → HeadTable → Result Bytes
get_at fuel key h t = do i ← bucket_of t key; get_loop fuel key h (head_at t i)

-- `remove`
unfoldable pub remove_at : ℕ → Bytes → Memory → HeadTable → Result (Memory × HeadTable)
remove_at fuel key h t = do
  i ← bucket_of t key
  (h', head) ← remove_loop fuel key h (head_at t i) none (head_at t i)
  ok (h', with_head t i head)

-- `forEach`: the callback changes a state `S` that it captures.
module _ {ℓ} {S : Type ℓ} (callback : Bytes → Bytes → S → S) where
  -- The inner loop, on one chain.
  unfoldable pub visit_chain : ℕ → Memory → Option ℕ → S → Result S
  visit_chain zero h current s = fault out_of_fuel
  visit_chain (suc fuel) h none s = ok s
  visit_chain (suc fuel) h (some current) s = do
    c ← load h current
    visit_chain fuel h c.next (callback c.key c.value s)

  unfoldable pub visit_table : ℕ → Memory → List (Option ℕ) → S → Result S
  visit_table fuel h [] s = ok s
  visit_table fuel h (head ∷ table) s = do
    s' ← visit_chain fuel h head s
    visit_table fuel h table s'

  unfoldable pub for_each_at : ℕ → Memory → HeadTable → S → Result S
  for_each_at fuel h t s = visit_table fuel h t.heads s

-- `~HashMap`
unfoldable pub destroy : ℕ → Memory → HeadTable → Result Memory
destroy fuel h t = delete_table fuel h t.heads
