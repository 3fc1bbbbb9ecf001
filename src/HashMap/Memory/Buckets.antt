-- ===== src/HashMap/Memory/Buckets.antt =====
-- src/RAM/HashMap.cpp, the whole table in memory: every bucket owns its chain, and no node is in
-- two of them.
use kv_database.Prelude.{
  contains, NoRepeat, ℕ, zero, suc, ◌<◌, ◌≡◌, refl, sym, ◌∙◌, inl, inr, true, false, Option, none,
  List, [], ◌∷◌, arith, ◌==◌, ==_iff, if◌then◌else◌, length, length-set, get_or, get_or-set, set,
  Bool-cases,
}
use kv_database.Result.{Result, ok}
use kv_database.HashMap.{Chain}
use kv_database.HashMap.Memory.{Memory, delete_table}
use kv_database.HashMap.Memory.Owned.{Owns, Changes, Owns-frame, Owns-live}
use kv_database.HashMap.Memory.Destroy.{delete_chain-Frees}

-- `owned i` are the addresses of the nodes of the `i`-th bucket.
pub record Stores (h : Memory) (heads : List (Option ℕ)) (chains : List Chain) (owned : ℕ → List ℕ)
    : Type 0 where
  pub width : length heads ≡ length chains
  pub owns : (i : ℕ) → Owns h (get_or heads i none) (owned i) (get_or chains i [])
  pub apart : (i : ℕ) → NoRepeat (owned i)
  pub separate : (i j a : ℕ) → contains a (owned i) ≡ true → contains a (owned j) ≡ true → i ≡ j

abbrev pub assign : (ℕ → List ℕ) → ℕ → List ℕ → ℕ → List ℕ
assign owned i new j = if i == j then new else owned j

-- A method that changes one chain leaves the others alone.
module _ (h : Memory) (heads : List (Option ℕ)) (chains : List Chain) (owned : ℕ → List ℕ)
    (stores : Stores h heads chains owned) (i : ℕ) where
  pub elsewhere :
      (j a : ℕ) → (i == j) ≡ false → contains a (owned j) ≡ true → contains a (owned i) ≡ false
  elsewhere j a away inside = elim (Bool-cases (contains a (owned i))) [
    | inl both ↦ absurd (ground (arith, away, stores.separate i j a both inside))
    | inr none_here ↦ none_here
  ]

  module _ (h' : Memory) (head : Option ℕ) (new : List ℕ) (c : Chain)
      (changes : Changes h h' (owned i) new) (owns_new : Owns h' head new c)
      (apart_new : NoRepeat new) where
    unchanged : (j a : ℕ) → (i == j) ≡ false → contains a (owned j) ≡ true → contains a new ≡ false
    unchanged j a away inside = elim (Bool-cases (contains a new)) [
      | inl taken ↦ absurd (
          ground (
            arith,
            inside,
            Owns-live h _ (owned j) _ a (stores.owns j)
                (changes.fresh a taken (elsewhere j a away inside)),
          ))
      | inr e ↦ e
    ]

    -- Two buckets share no node, by whether each is the one that changed.
    separate_set :
        (j l a : ℕ)
        → contains a (assign owned i new j) ≡ true
        → contains a (assign owned i new l) ≡ true
        → j ≡ l
    separate_set j l a hj hl = elim (Bool-cases (i == j)) [
      | inl ej ↦ elim (Bool-cases (i == l)) [
        | inl el ↦ sym ((==_iff i j).0 ej) ∙ (==_iff i l).0 el
        | inr el ↦ absurd (ground (arith, ej, el, hj, hl, unchanged l a el))
      ]
      | inr ej ↦ elim (Bool-cases (i == l)) [
        | inl el ↦ absurd (ground (arith, ej, el, hj, hl, unchanged j a ej))
        | inr el ↦ stores.separate j l a (ground (arith, ej, hj)) (ground (arith, el, hl))
      ]
    ]

    pub Stores-set :
        i < length chains → Stores h' (set heads i head) (set chains i c) (assign owned i new)
    Stores-set inside = record {
      width = length-set heads i head ∙ stores.width ∙ sym (length-set chains i c);
      owns = λ j.
          rw
            (
              get_or-set heads i j head none (omega (arith, inside, stores.width)),
              get_or-set chains i j c [] inside,
            )
            (elim (Bool-cases (i == j)) [
              | inl e ↦ rw e owns_new
              | inr e ↦ rw e (
                  Owns-frame h h' _ (owned j) _
                    (λ a mine. changes.frame a (elsewhere j a e mine) (unchanged j a e mine))
                    (stores.owns j))
            ]);
      apart = λ j. elim (Bool-cases (i == j)) [
        | inl e ↦ rw e apart_new
        | inr e ↦ rw e (stores.apart j)
      ];
      separate = separate_set;
    }

-- The nodes of the table are gone, and nothing else is.
pub record Clears (h : Memory) (owned : ℕ → List ℕ) (run : Result Memory) : Type 0 where
  pub after : Memory
  pub returns : run ≡ ok after
  pub freed : (i j : ℕ) → contains j (owned i) ≡ true → after j ≡ none
  pub frame : (j : ℕ) → ((i : ℕ) → contains j (owned i) ≡ false) → after j ≡ h j

Owns-nil :
    (h : Memory) (p : Option ℕ) (xs : List ℕ) (j : ℕ) → Owns h p xs [] → contains j xs ≡ false
Owns-nil h p [] j owns = refl
Owns-nil h p (a ∷ xs) j owns = absurd owns

pub delete_table-Clears :
    (fuel : ℕ) (h : Memory) (heads : List (Option ℕ)) (chains : List Chain) (owned : ℕ → List ℕ)
    → ((i : ℕ) → length (get_or chains i []) < fuel)
    → Stores h heads chains owned
    → Clears h owned (delete_table fuel h heads)
unfolding delete_table
delete_table-Clears fuel h [] [] owned enough stores = record {
  after = h;
  returns = refl;
  freed =
      λ i j inside. absurd (ground (arith, inside, Owns-nil h none (owned i) j (stores.owns i)));
  frame = λ j outside. refl;
}
delete_table-Clears fuel h [] (c ∷ cs) owned enough stores = absurd (omega (arith, stores.width))
delete_table-Clears fuel h (p ∷ ps) [] owned enough stores = absurd (omega (arith, stores.width))
delete_table-Clears fuel h (p ∷ ps) (c ∷ cs) owned enough stores =
    let first =
      delete_chain-Frees fuel h p (owned 0) c (enough 0) (stores.owns 0) (stores.apart 0) in
    let later =
      delete_table-Clears fuel first.after ps cs (λ i. owned (suc i)) (λ i. enough (suc i))
        (record {
          width = omega (arith, stores.width);
          owns = λ i.
              Owns-frame h first.after _ (owned (suc i)) _
                (λ a inside.
                  first.frame a
                    (elsewhere h (p ∷ ps) (c ∷ cs) owned stores 0 (suc i) a (ground arith) inside))
                (stores.owns (suc i));
          apart = λ i. stores.apart (suc i);
          separate = λ i j a hi hj. omega (arith, stores.separate (suc i) (suc j) a hi hj);
        }) in
    record {
      after = later.after;
      returns = ground (arith, first.returns, later.returns);
      freed = λ i j. elim i as (λ (i : ℕ). contains j (owned i) ≡ true → later.after j ≡ none) [
        | zero ↦ λ inside.
            later.frame j
              (λ i. elsewhere h (p ∷ ps) (c ∷ cs) owned stores (suc i) 0 j (ground arith) inside)
            ∙ first.freed j inside
        | suc i ↦ later.freed i j
      ];
      frame = λ j outside. later.frame j (λ i. outside (suc i)) ∙ first.frame j (outside 0);
    }
