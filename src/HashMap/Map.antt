-- ===== src/HashMap/Map.antt =====
-- src/RAM/HashMap.cpp, the table as a map from keys to values: the invariant, and each method
-- against the map.
use kv_database.Prelude.{
  ℕ, ◌%◌, ◌<◌, ◌≡◌, ◌≢◌, refl, ap, ◌∙◌, [], arith, Bytes, Option, none, inl, inr, Bool-cases, some,
  length, length-set, length-replicate, get_or, get_or-set, get_or-replicate, set, ◌==◌, ◌===◌,
  ===_iff, if◌then◌else◌,
}
use kv_database.Result.{Result, ok, fault, division_by_zero}
use kv_database.HashMap.{
  Chain, HashMap, new, hash_loop, hash_function, insert_chain, insert, get, remove_chain, remove,
}
use kv_database.HashMap.Chain.{
  find, IsDistinct, or_empty, get_chain-find, find-insert_chain, insert_chain-IsDistinct,
  find-remove_chain, remove_chain-IsDistinct,
}

-- What the map promises: a partial function from keys to values.
abbrev pub Map : Type 0
Map = Bytes → Option Bytes

-- The bucket of a key in a table of `n` buckets.
unfoldable pub home : ℕ → Bytes → ℕ
home n key = hash_loop 0 key % n

-- The chain of a bucket holds only keys that belong there, each once.
pub record IsBucket (n i : ℕ) (chain : Chain) : Type 0 where
  pub distinct : IsDistinct chain
  pub at_home : (q : Bytes) → find q chain ≢ none → home n q ≡ i

pub record IsValid (m : HashMap) : Type 0 where
  pub nonempty : 0 < m.capacity
  pub width : length m.table ≡ m.capacity
  pub bucket : (i : ℕ) → IsBucket m.capacity i (get_or m.table i [])

abbrev pub chain_of : HashMap → Bytes → Chain
chain_of m q = get_or m.table (home m.capacity q) []

-- The value of the map at a key.
unfoldable pub view : HashMap → Map
view m q = find q (chain_of m q)

abbrev pub update : Map → Bytes → Option Bytes → Map
update f k v q = if k === q then v else f q

pub home-lt : (n : ℕ) (k : Bytes) → 0 < n → home n k < n
unfolding home
home-lt n k h = omega arith

pub hash_function-home :
    (m : HashMap) (k : Bytes) → 0 < m.capacity → hash_function m k ≡ ok (home m.capacity k)
unfolding hash_function home
hash_function-home m k h = ground arith

-- A new map with at least one bucket is valid and empty.
pub new-IsValid : (size : ℕ) → 0 < size → IsValid (new size)
unfolding new find
new-IsValid size h = record {
  nonempty = h;
  width = length-replicate size [];
  bucket = λ i.
      rw get_or-replicate (record { distinct = tt; at_home = λ q present. absurd (present refl) });
}

pub view-new : (size : ℕ) (q : Bytes) → view (new size) q ≡ none
unfolding view new find
view-new size q = rw get_or-replicate

-- The map with the chain of `k` replaced.
abbrev pub with_chain : HashMap → Bytes → Chain → HashMap
with_chain m k c = record m { table = set m.table (home m.capacity k) c }

-- Both writes replace one chain by a chain that differs at the key only.
module _ (m : HashMap) (valid : IsValid m) (k : Bytes) (v : Option Bytes) (c : Chain) where
  module _ (distinct : IsDistinct c)
      (reads : (q : Bytes) → find q c ≡ (if k === q then v else find q (chain_of m k))) where
    inside : home m.capacity k < length m.table
    inside = omega (arith, home-lt m.capacity k valid.nonempty, valid.width)

    with_chain-IsBucket :
        (i : ℕ) → IsBucket m.capacity i (if home m.capacity k == i then c else get_or m.table i [])
    with_chain-IsBucket i = elim (Bool-cases (home m.capacity k == i)) [
      | inr e ↦ rw e (valid.bucket i)
      | inl e ↦ rw e (record {
        distinct = distinct;
        at_home = λ q present. ground (
          arith,
          e,
          ===_iff k q,
          reads q,
          (valid.bucket (home m.capacity k)).at_home q,
          ap (home m.capacity),
        );
      })
    ]

    with_chain-IsValid : IsValid (with_chain m k c)
    with_chain-IsValid = record {
      nonempty = valid.nonempty;
      width = length-set m.table _ c ∙ valid.width;
      bucket =
          λ i. rw (get_or-set m.table (home m.capacity k) i c [] inside) (with_chain-IsBucket i);
    }

    view-with_chain : (q : Bytes) → view (with_chain m k c) q ≡ update (view m) k v q
    unfolding view
    view-with_chain q =
        rw (get_or-set m.table (home m.capacity k) (home m.capacity q) c [] inside)
          (ground (arith, reads q, ===_iff k q, ap (home m.capacity)))

-- The call returned a valid map that reads as `m` with `k` set to `v`.
pub record Writes (m : HashMap) (k : Bytes) (v : Option Bytes) (r : Result HashMap) : Type 0 where
  pub after : HashMap
  pub returns : r ≡ ok after
  pub valid : IsValid after
  pub reads : (q : Bytes) → view after q ≡ update (view m) k v q

-- On a valid map insert returns a valid map that has the value at the key and is unchanged
-- elsewhere.
pub insert-Writes : (m : HashMap) (k v : Bytes) → IsValid m → Writes m k (some v) (insert m k v)
unfolding insert
insert-Writes m k v valid =
    let c = insert_chain k v (chain_of m k) in
    let distinct =
      insert_chain-IsDistinct k v (chain_of m k) (valid.bucket (home m.capacity k)).distinct in
    let reads = λ (q : Bytes). find-insert_chain k v q (chain_of m k) in
    record {
      after = with_chain m k c;
      returns = rw (hash_function-home m k valid.nonempty);
      valid = with_chain-IsValid m valid k (some v) c distinct reads;
      reads = view-with_chain m valid k (some v) c distinct reads;
    }

-- On a valid map remove returns a valid map that has nothing at the key and is unchanged
-- elsewhere.
pub remove-Writes : (m : HashMap) (k : Bytes) → IsValid m → Writes m k none (remove m k)
unfolding remove
remove-Writes m k valid =
    let old = (valid.bucket (home m.capacity k)).distinct in
    let c = remove_chain k (chain_of m k) in
    let distinct = remove_chain-IsDistinct k (chain_of m k) old in
    let reads = λ (q : Bytes). find-remove_chain k q (chain_of m k) old in
    record {
      after = with_chain m k c;
      returns = rw (hash_function-home m k valid.nonempty);
      valid = with_chain-IsValid m valid k none c distinct reads;
      reads = view-with_chain m valid k none c distinct reads;
    }

-- On a valid map get returns the value at the key, or the empty string where there is none.
pub get-view : (m : HashMap) (k : Bytes) → IsValid m → get m k ≡ ok (or_empty (view m k))
unfolding get view
get-view m k valid =
    rw (hash_function-home m k valid.nonempty) (ap ok (get_chain-find k (chain_of m k)))

-- On a map with capacity 0 insert, get and remove divide by zero.
pub no_buckets :
    (m : HashMap) (k v : Bytes)
    → m.capacity ≡ 0
    → (insert m k v ≡ fault division_by_zero)
      × (get m k ≡ fault division_by_zero)
      × (remove m k ≡ fault division_by_zero)
unfolding insert get remove hash_function
no_buckets m k v e = ground arith
