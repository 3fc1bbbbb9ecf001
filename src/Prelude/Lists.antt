-- ===== src/Prelude/Lists.antt =====
-- Lists measured and indexed by native numbers, under the library's names.
use Prim.Native.Nat.{ℕ, zero, suc, ◌+◌, ◌<◌}
use mathlib.Core.Path.{◌≡◌, refl, ap, subst}
use mathlib.Core.Bool.{Bool, true, false}
use mathlib.Core.List.{List, [], ◌∷◌, ◌++◌}
use mathlib.Core.Option.{Option, none, some, some-injective}
use native.Mathlib.Omega.{arith}
use kv_database.Prelude.Tests.{◌==◌, if◌then◌else◌}

module _ {ℓ} {A : Type ℓ} where
  abbrev pub length : List A → ℕ
  length [] = 0
  length (x ∷ xs) = suc (length xs)

  -- A read out of range gives the default `d`.
  abbrev pub get_or : List A → ℕ → A → A
  get_or [] i d = d
  get_or (x ∷ xs) zero d = x
  get_or (x ∷ xs) (suc i) d = get_or xs i d

  abbrev pub get_elem? : List A → ℕ → Option A
  get_elem? [] i = none
  get_elem? (x ∷ xs) zero = some x
  get_elem? (x ∷ xs) (suc i) = get_elem? xs i

  -- A write out of range changes nothing.
  abbrev pub set : List A → ℕ → A → List A
  set [] i v = []
  set (x ∷ xs) zero v = v ∷ xs
  set (x ∷ xs) (suc i) v = x ∷ set xs i v

  abbrev pub replicate : ℕ → A → List A
  replicate zero a = []
  replicate (suc n) a = a ∷ replicate n a

  pub length-append : (xs ys : List A) → length (xs ++ ys) ≡ length xs + length ys
  length-append [] ys = omega arith
  length-append (x ∷ xs) ys = omega (arith, length-append xs ys)

  pub length-set : (xs : List A) (i : ℕ) (v : A) → length (set xs i v) ≡ length xs
  length-set (x ∷ xs) (suc i) v = ap suc (length-set xs i v)
  length-set _ _ v = refl

  pub set-set : (xs : List A) (i : ℕ) (v w : A) → set (set xs i v) i w ≡ set xs i w
  set-set (x ∷ xs) (suc i) v w = ap (λ (t : List A). x ∷ t) (set-set xs i v w)
  set-set (x ∷ xs) zero v w = refl
  set-set [] i v w = refl

  pub get_elem?-set :
      (xs : List A) (i : ℕ) (v w : A) → get_elem? xs i ≡ some v → get_elem? (set xs i w) i ≡ some w
  get_elem?-set [] i v w h = cc
  get_elem?-set (x ∷ xs) zero v w h = refl
  get_elem?-set (x ∷ xs) (suc i) v w h = get_elem?-set xs i v w h

  pub get_elem?-append :
      (xs ys : List A) (i : ℕ) (v : A) → get_elem? xs i ≡ some v → get_elem? (xs ++ ys) i ≡ some v
  get_elem?-append [] ys i v h = absurd (ground arith)
  get_elem?-append (x ∷ xs) ys zero v h = h
  get_elem?-append (x ∷ xs) ys (suc i) v h = get_elem?-append xs ys i v h

  pub get_elem?-last : (xs : List A) (v : A) → get_elem? (xs ++ v ∷ []) (length xs) ≡ some v
  get_elem?-last [] v = refl
  get_elem?-last (x ∷ xs) v = get_elem?-last xs v

  pub get_elem?-set_other :
      (xs : List A) (i j : ℕ) (v w : A)
      → (i ≡ j → ⊥)
      → get_elem? xs j ≡ some v
      → get_elem? (set xs i w) j ≡ some v
  get_elem?-set_other [] i j v w apart h = h
  get_elem?-set_other (x ∷ xs) zero zero v w apart h = absurd (apart refl)
  get_elem?-set_other (x ∷ xs) zero (suc j) v w apart h = h
  get_elem?-set_other (x ∷ xs) (suc i) zero v w apart h = h
  get_elem?-set_other (x ∷ xs) (suc i) (suc j) v w apart h =
      get_elem?-set_other xs i j v w (λ e. apart (ap suc e)) h

  -- A write to another element leaves the last one alone.
  pub get_elem?-set-last :
      (xs : List A) (i : ℕ) (u v w : A)
      → get_elem? xs i ≡ some u
      → get_elem? (set (xs ++ v ∷ []) i w) (length xs) ≡ some v
  get_elem?-set-last [] i u v w h = absurd (ground arith)
  get_elem?-set-last (x ∷ xs) zero u v w h = get_elem?-last xs v
  get_elem?-set-last (x ∷ xs) (suc i) u v w h = get_elem?-set-last xs i u v w h

  pub length-replicate : (n : ℕ) (a : A) → length (replicate n a) ≡ n
  length-replicate zero a = refl
  length-replicate (suc n) a = ap suc (length-replicate n a)

  pub get_or-replicate : (n i : ℕ) (a : A) → get_or (replicate n a) i a ≡ a
  get_or-replicate (suc n) (suc i) a = get_or-replicate n i a
  get_or-replicate _ _ a = refl

  pub get_or-set :
      (xs : List A) (i j : ℕ) (v d : A)
      → i < length xs
      → get_or (set xs i v) j d ≡ (if i == j then v else get_or xs j d)
  get_or-set [] i j v d h = absurd (omega arith)
  get_or-set (x ∷ xs) (suc i) (suc j) v d h = ground (arith, get_or-set xs i j v d)
  get_or-set (x ∷ xs) zero zero v d h = ground arith
  get_or-set (x ∷ xs) i j v d h = ground arith

-- A property of every element, by recursion.
abbrev pub All {ℓ κ} : {A : Type ℓ} → (A → Type κ) → List A → Type κ
All P [] = Unit
All P (x ∷ xs) = P x × All P xs

pub All-append {ℓ κ} :
    {A : Type ℓ} (P : A → Type κ) (xs ys : List A) → All P xs → All P ys → All P (xs ++ ys)
All-append P [] ys hx hy = hy
All-append P (x ∷ xs) ys hx hy = (hx.0, All-append P xs ys hx.1 hy)

pub All-map {ℓ κ κ'} :
    {A : Type ℓ} (P : A → Type κ) (Q : A → Type κ') (xs : List A)
    → ((x : A) → P x → Q x)
    → All P xs
    → All Q xs
All-map P Q [] f h = tt
All-map P Q (x ∷ xs) f h = (f x h.0, All-map P Q xs f h.1)

pub All-replicate {ℓ κ} :
    {A : Type ℓ} (P : A → Type κ) (n : ℕ) (a : A) → P a → All P (replicate n a)
All-replicate P zero a h = tt
All-replicate P (suc n) a h = (h, All-replicate P n a h)

pub All-set {ℓ κ} :
    {A : Type ℓ} (P : A → Type κ) (xs : List A) (i : ℕ) (v : A)
    → P v
    → All P xs
    → All P (set xs i v)
All-set P [] i v hv h = tt
All-set P (x ∷ xs) zero v hv h = (hv, h.1)
All-set P (x ∷ xs) (suc i) v hv h = (h.0, All-set P xs i v hv h.1)

pub All-get_elem? {ℓ κ} :
    {A : Type ℓ} (P : A → Type κ) (xs : List A) (i : ℕ) (v : A)
    → get_elem? xs i ≡ some v
    → All P xs
    → P v
All-get_elem? P [] i v e h = absurd (ground arith)
All-get_elem? P (x ∷ xs) zero v e h = subst P (some-injective x v e) h.0
All-get_elem? P (x ∷ xs) (suc i) v e h = All-get_elem? P xs i v e h.1

-- One entry fewer.
pub All-without {ℓ κ} :
    {A : Type ℓ} (P : A → Type κ) (before after : List A) (x : A)
    → All P (before ++ x ∷ after)
    → All P (before ++ after)
All-without P [] after x h = h.1
All-without P (b ∷ before) after x h = (h.0, All-without P before after x h.1)

pub All-at {ℓ κ} :
    {A : Type ℓ} (P : A → Type κ) (before after : List A) (x : A)
    → All P (before ++ x ∷ after)
    → P x
All-at P [] after x h = h.0
All-at P (b ∷ before) after x h = All-at P before after x h.1

-- Membership in a list of numbers.
abbrev pub contains : ℕ → List ℕ → Bool
contains a [] = false
contains a (b ∷ bs) = let rest = contains a bs in if a == b then true else rest

-- No address occurs twice.
abbrev pub NoRepeat : List ℕ → Type 0
NoRepeat [] = Unit
NoRepeat (a ∷ xs) = (contains a xs ≡ false) × NoRepeat xs

pub contains-append :
    (j : ℕ) (xs ys : List ℕ)
    → contains j (xs ++ ys) ≡ (if contains j xs then true else contains j ys)
contains-append j [] ys = refl
contains-append j (x ∷ xs) ys = ground (arith, contains-append j xs ys)

pub NoRepeat-append :
    (xs ys : List ℕ)
    → NoRepeat xs
    → NoRepeat ys
    → ((j : ℕ) → contains j xs ≡ true → contains j ys ≡ false)
    → NoRepeat (xs ++ ys)
NoRepeat-append [] ys hx hy apart = hy
NoRepeat-append (x ∷ xs) ys hx hy apart = (
  ground (arith, contains-append x xs ys, hx.0, apart x),
  NoRepeat-append xs ys hx.1 hy (λ j inside. apart j (ground (arith, inside))),
)

pub contains-without :
    (j x : ℕ) (before after : List ℕ)
    → contains j (before ++ after) ≡ true
    → contains j (before ++ x ∷ after) ≡ true
contains-without j x before after h =
    ground (arith, contains-append j before after, contains-append j before (x ∷ after), h)

-- The element that is left out is nowhere else.
pub NoRepeat-without :
    (x : ℕ) (before after : List ℕ)
    → NoRepeat (before ++ x ∷ after)
    → NoRepeat (before ++ after) × (contains x (before ++ after) ≡ false)
NoRepeat-without x [] after h = (h.1, h.0)
NoRepeat-without x (b ∷ before) after h =
    let (rest, out) = NoRepeat-without x before after h.1 in
    (
      (
        ground (arith, contains-append b before after, contains-append b before (x ∷ after), h.0),
        rest,
      ),
      ground (arith, contains-append b before (x ∷ after), h.0, out),
    )

-- A property of each element that is contained.
pub All-contains {κ} :
    (P : ℕ → Type κ) (xs : List ℕ) → ((j : ℕ) → contains j xs ≡ true → P j) → All P xs
All-contains P [] h = tt
All-contains P (x ∷ xs) h =
    (h x (ground arith), All-contains P xs (λ j inside. h j (ground (arith, inside))))

pub contains-apart :
    (a b : ℕ) (xs : List ℕ) → contains a xs ≡ false → contains b xs ≡ true → (a == b) ≡ false
contains-apart a b [] out inside = absurd (ground (arith, inside))
contains-apart a b (x ∷ xs) out inside = ground (arith, out, inside, contains-apart a b xs)
