-- ===== src/Server/Entries.antt =====
-- src/Server/Server.cpp, the map `connections` and the list of jobs as lists: their entries and the
-- connection objects.
use kv_database.Prelude.{
  get_elem?-append, ℕ, zero, suc, ◌≡◌, refl, ap, sym, ◌∙◌, some, List, [], ◌∷◌, ◌++◌, arith,
  Bool-cases, inl, inr, get_elem?, set, ◌==◌, ==_iff, All,
}
use kv_database.Server.{Connection, find_connection, erase_connection}
use kv_database.Server.Loop.{set_connection}

-- The number is the index of an object.
abbrev pub HasObject : List Connection → ℕ → Type 0
HasObject objects ref = (c : Connection) × (get_elem? objects ref ≡ some c)

-- An entry of the map leads from a socket to an object of this socket.
abbrev pub IsLink : List Connection → ℕ × ℕ → Type 0
IsLink objects (sock, ref) = (c : Connection) × (get_elem? objects ref ≡ some c) × (c.socket ≡ sock)

pub find_connection-IsLink :
    (objects : List Connection) (sock ref : ℕ) (cs : List (ℕ × ℕ))
    → All (IsLink objects) cs
    → find_connection sock cs ≡ some ref
    → HasObject objects ref
unfolding find_connection
find_connection-IsLink objects sock ref [] h e = absurd (ground arith)
find_connection-IsLink objects sock ref ((k, c) ∷ cs) h e = elim (Bool-cases (k == sock)) [
  | inr x ↦ find_connection-IsLink objects sock ref cs h.1 (rw x at e)
  | inl x ↦
      let found : some c ≡ some ref = rw x at e in
      let same : c ≡ ref = cc in (h.0.0, ap (get_elem? objects) (sym same) ∙ h.0.1)
]

pub erase_connection-IsLink :
    (objects : List Connection) (sock : ℕ) (cs : List (ℕ × ℕ))
    → All (IsLink objects) cs
    → All (IsLink objects) (erase_connection sock cs)
unfolding erase_connection
erase_connection-IsLink objects sock [] h = tt
erase_connection-IsLink objects sock ((k, c) ∷ cs) h = elim (Bool-cases (k == sock)) [
  | inl e ↦ rw e h.1
  | inr e ↦ rw e (h.0, erase_connection-IsLink objects sock cs h.1)
]

pub set_connection-IsLink :
    (objects : List Connection) (sock ref : ℕ) (cs : List (ℕ × ℕ))
    → All (IsLink objects) cs
    → IsLink objects (sock, ref)
    → All (IsLink objects) (set_connection sock ref cs)
unfolding set_connection
set_connection-IsLink objects sock ref [] h l = (l, tt)
set_connection-IsLink objects sock ref ((k, c) ∷ cs) h l = elim (Bool-cases (k == sock)) [
  | inl e ↦ rw e ((l.0, l.1, l.2 ∙ sym ((==_iff k sock).0 e)), h.1)
  | inr e ↦ rw e (h.0, set_connection-IsLink objects sock ref cs h.1 l)
]

-- A new object leaves the links alone.
pub links-append :
    (objects new : List Connection) (cs : List (ℕ × ℕ))
    → All (IsLink objects) cs
    → All (IsLink (objects ++ new)) cs
links-append objects new [] h = tt
links-append objects new ((k, ref) ∷ cs) h =
    ((h.0.0, get_elem?-append objects new ref h.0.0 h.0.1, h.0.2), links-append objects new cs h.1)

pub jobs-append :
    (objects new : List Connection) (refs : List ℕ)
    → All (HasObject objects) refs
    → All (HasObject (objects ++ new)) refs
jobs-append objects new [] h = tt
jobs-append objects new (ref ∷ refs) h =
    ((h.0.0, get_elem?-append objects new ref h.0.0 h.0.1), jobs-append objects new refs h.1)

set-HasObject :
    (objects : List Connection) (ref : ℕ) (c : Connection) (j : ℕ)
    → HasObject objects j
    → HasObject (set objects ref c) j
set-HasObject [] ref c j h = h
set-HasObject (x ∷ xs) zero c zero h = (c, refl)
set-HasObject (x ∷ xs) zero c (suc j) h = h
set-HasObject (x ∷ xs) (suc ref) c zero h = h
set-HasObject (x ∷ xs) (suc ref) c (suc j) h = set-HasObject xs ref c j h

-- The object at `ref` is replaced by one with the same socket.
set-IsLink :
    (objects : List Connection) (ref : ℕ) (c c' : Connection) (k j : ℕ)
    → get_elem? objects ref ≡ some c
    → c'.socket ≡ c.socket
    → IsLink objects (k, j)
    → IsLink (set objects ref c') (k, j)
set-IsLink [] ref c c' k j e same h = h
set-IsLink (x ∷ xs) zero c c' k zero e same h =
    let one : c ≡ h.0 = cc (h.1) in (c', refl, same ∙ ap (λ (d : Connection). d.socket) one ∙ h.2)
set-IsLink (x ∷ xs) zero c c' k (suc j) e same h = h
set-IsLink (x ∷ xs) (suc ref) c c' k zero e same h = h
set-IsLink (x ∷ xs) (suc ref) c c' k (suc j) e same h = set-IsLink xs ref c c' k j e same h

pub set-links :
    (objects : List Connection) (ref : ℕ) (c c' : Connection) (cs : List (ℕ × ℕ))
    → get_elem? objects ref ≡ some c
    → c'.socket ≡ c.socket
    → All (IsLink objects) cs
    → All (IsLink (set objects ref c')) cs
set-links objects ref c c' [] e same h = tt
set-links objects ref c c' ((k, j) ∷ cs) e same h =
    (set-IsLink objects ref c c' k j e same h.0, set-links objects ref c c' cs e same h.1)

pub set-jobs :
    (objects : List Connection) (ref : ℕ) (c : Connection) (refs : List ℕ)
    → All (HasObject objects) refs
    → All (HasObject (set objects ref c)) refs
set-jobs objects ref c [] h = tt
set-jobs objects ref c (j ∷ refs) h =
    (set-HasObject objects ref c j h.0, set-jobs objects ref c refs h.1)
