-- ===== src/HashMap/Contents.antt =====
-- src/RAM/HashMap.h, what a map holds: maps that read alike are one element, whatever the capacity,
-- the order of the chains and the calls that made them.
use kv_database.Prelude.{◌≡◌, ◌≢◌, arith, Bytes, Option, none, some, ◌===◌, ===_iff, if◌then◌else◌}
use mathlib.Core.Quot
use mathlib.Core.Quot.{Quot, Quot-set}
use kv_database.HashMap.{HashMap}
use kv_database.HashMap.Map.{IsValid, view, update, insert-Writes, remove-Writes}

abbrev pub ValidMap : Type 0
ValidMap = (m : HashMap) × IsValid m

abbrev pub SameView : ValidMap → ValidMap → Type 0
SameView a b = (q : Bytes) → view a.0 q ≡ view b.0 q

abbrev pub Contents : Type 0
Contents = Quot SameView

abbrev pub contents : (m : HashMap) → IsValid m → Contents
contents m valid = Quot.mk (m, valid)

-- The value at a key.
pub lookup : Bytes → Contents → Option Bytes
lookup q = Quot.lift (hlevel) (λ a. view a.0 q) (λ a b same. same q)

-- An insert, or with `none` a remove.
abbrev written : Bytes → (v : Option Bytes) → ValidMap → ValidMap
written k none a = let w = remove-Writes a.0 k a.1 in (w.after, w.valid)
written k (some v) a = let w = insert-Writes a.0 k v a.1 in (w.after, w.valid)

view-written :
    (k q : Bytes) (v : Option Bytes) (a : ValidMap)
    → view (written k v a).0 q ≡ update (view a.0) k v q
view-written k q none a = (remove-Writes a.0 k a.1).reads q
view-written k q (some v) a = (insert-Writes a.0 k v a.1).reads q

pub write : Bytes → Option Bytes → Contents → Contents
write k v =
    Quot.lift Quot-set (λ a. Quot.mk (written k v a))
      (λ a b same.
        Quot.sound (λ q. ground (arith, view-written k q v a, view-written k q v b, same q)))

-- Contents that read alike are equal.
pub ext : (a b : Contents) → ((q : Bytes) → lookup q a ≡ lookup q b) → a ≡ b
unfolding lookup
ext = Quot.ind (λ _. hlevel Quot-set) (λ a. Quot.ind (λ _. hlevel Quot-set) (λ b. Quot.sound))

pub lookup-write :
    (q k : Bytes) (v : Option Bytes) (c : Contents)
    → lookup q (write k v c) ≡ (if k === q then v else lookup q c)
unfolding lookup write
lookup-write q k v = Quot.ind (λ _. hlevel) (view-written k q v)

-- Writes of two keys commute.
pub write_comm :
    (k l : Bytes) (v w : Option Bytes) (c : Contents)
    → k ≢ l
    → write k v (write l w c) ≡ write l w (write k v c)
write_comm k l v w c apart = ext _ _ (λ q. ground (
  arith,
  lookup-write q k v (write l w c),
  lookup-write q l w c,
  lookup-write q l w (write k v c),
  lookup-write q k v c,
  ===_iff k q,
  ===_iff l q,
  ===_iff k l,
))
