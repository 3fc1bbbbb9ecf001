-- ===== src/Server/Interleaved/Keys.antt =====
-- src/Server/Server.cpp, the writes of one key among those of many.
use kv_database.Prelude.{
  ◌≡◌, refl, ap, sym, ◌∙◌, true, false, List, [], ◌∷◌, ◌++◌, arith, Bytes, All, ◌===◌, ===_iff,
  append_assoc, append-nil, Bool-cases, inl, inr, if◌then◌else◌,
}
use kv_database.HashMap.Map.{Map}
use kv_database.Persistence.Records.{Record, put, del, apply, replay, replay-append}
use kv_database.Persistence.Workers.{key_written, Spares}

-- The writes of the key.
abbrev pub on : Bytes → List Record → List Record
on q [] = []
on q (r ∷ rs) = let rest = on q rs in if key_written r === q then r ∷ rest else rest

pub on-append : (q : Bytes) (rs ss : List Record) → on q (rs ++ ss) ≡ on q rs ++ on q ss
on-append q [] ss = refl
on-append q (r ∷ rs) ss = ground (arith, on-append q rs ss)

pub on-Spares : (q : Bytes) (rs : List Record) → All (Spares q) rs → on q rs ≡ []
on-Spares q [] h = refl
on-Spares q (r ∷ rs) h = ground (arith, ===_iff (key_written r) q, on-Spares q rs h.1)

pub apply_other :
    (r : Record) (f : Map) (q : Bytes) → (key_written r === q) ≡ false → apply r f q ≡ f q
unfolding apply
apply_other (put k v) f q other = rw other
apply_other (del k) f q other = rw other

-- A write decides its own key.
pub apply_own :
    (r : Record) (f g : Map) (q : Bytes) → (key_written r === q) ≡ true → apply r f q ≡ apply r g q
unfolding apply
apply_own (put k v) f g q own = rw own
apply_own (del k) f g q own = rw own

replay-on_from :
    (rs : List Record) (f g : Map) (q : Bytes) → f q ≡ g q → replay rs f q ≡ replay (on q rs) g q
unfolding replay
replay-on_from [] f g q h = h
replay-on_from (r ∷ rs) f g q h = elim (Bool-cases (key_written r === q)) [
  | inl e ↦ rw (e, replay) (replay-on_from rs (apply r f) (apply r g) q (apply_own r f g q e))
  | inr e ↦ rw e (replay-on_from rs (apply r f) g q (apply_other r f q e ∙ h))
]

-- What a log makes of a key, its writes of the key make.
pub replay-on : (rs : List Record) (f : Map) (q : Bytes) → replay rs f q ≡ replay (on q rs) f q
replay-on rs f q = replay-on_from rs f f q refl

-- What is said of one key when the files restore `f` and the process began with `start`: its writes of the
-- map are those of the log and then the pending ones, and `f` has what the log and the first so many of
-- the pending writes make.
pub record KeyKept (start f : Map) (q : Bytes) (written journal pending : List Record)
    : Type 0 where
  pub order : on q written ≡ on q journal ++ on q pending
  pub early : List Record
  pub late : List Record
  pub cut : on q pending ≡ early ++ late
  pub reads : f q ≡ replay (on q journal ++ early) start q

module _ (start f : Map) (q : Bytes) (written journal : List Record) where
  pub stores-KeyKept :
      (pending : List Record) (r : Record)
      → KeyKept start f q written journal pending
      → KeyKept start f q (written ++ r ∷ []) journal (pending ++ r ∷ [])
  stores-KeyKept pending r h = record {
    order =
        on-append q written (r ∷ [])
        ∙ ap (λ (rs : List Record). rs ++ on q (r ∷ [])) h.order
        ∙ append_assoc (on q journal) (on q pending) (on q (r ∷ []))
        ∙ ap (λ (rs : List Record). on q journal ++ rs) (sym (on-append q pending (r ∷ [])));
    early = h.early;
    late = h.late ++ on q (r ∷ []);
    cut =
        on-append q pending (r ∷ [])
        ∙ ap (λ (rs : List Record). rs ++ on q (r ∷ [])) h.cut
        ∙ append_assoc h.early h.late (on q (r ∷ []));
    reads = h.reads;
  }

  -- The snapshot takes all pending writes along.
  pub snapshots-KeyKept :
      (pending : List Record) (g : Map)
      → ((j : Bytes) → g j ≡ replay written start j)
      → KeyKept start f q written journal pending
      → KeyKept start g q written journal pending
  snapshots-KeyKept pending g shown h = record {
    order = h.order;
    early = on q pending;
    late = [];
    cut = sym (append-nil (on q pending));
    reads =
        shown q ∙ replay-on written start q ∙ ap (λ (rs : List Record). replay rs start q) h.order;
  }

  module _ (before after : List Record) (r : Record)
      (h : KeyKept start f q written journal (before ++ r ∷ after)) where
    logs_own :
        (key_written r === q) ≡ true
        → on q before ≡ []
        → KeyKept start (apply r f) q written (journal ++ r ∷ []) (before ++ after)
    unfolding replay
    logs_own own none_before =
        let journal' : on q (journal ++ r ∷ []) ≡ on q journal ++ r ∷ [] =
          on-append q journal (r ∷ []) ∙ rw own in
        let waiting : on q (before ++ r ∷ after) ≡ r ∷ on q after =
          on-append q before (r ∷ after) ∙ rw (none_before, own) in
        let waiting' : on q (before ++ after) ≡ on q after =
          on-append q before after ∙ rw none_before in
        record {
          order =
              h.order
              ∙ ap (λ (rs : List Record). on q journal ++ rs) waiting
              ∙ sym (append_assoc (on q journal) (r ∷ []) (on q after))
              ∙ rw (journal', waiting') refl;
          early = [];
          late = on q (before ++ after);
          cut = refl;
          reads =
              apply_own r f (replay (on q journal) start) q own
              ∙ ap (λ (g : Map). g q) (sym (replay-append (on q journal) (r ∷ []) start))
              ∙ ap (λ (rs : List Record). replay rs start q)
                  (sym journal' ∙ sym (append-nil (on q (journal ++ r ∷ []))));
        }

    logs_other :
        (key_written r === q) ≡ false
        → KeyKept start (apply r f) q written (journal ++ r ∷ []) (before ++ after)
    logs_other other =
        let journal' : on q (journal ++ r ∷ []) ≡ on q journal =
          on-append q journal (r ∷ []) ∙ rw other (append-nil (on q journal)) in
        let waiting : on q (before ++ r ∷ after) ≡ on q (before ++ after) =
          on-append q before (r ∷ after) ∙ rw other (sym (on-append q before after)) in
        record {
          order = h.order ∙ rw (journal', waiting) refl;
          early = h.early;
          late = h.late;
          cut = sym waiting ∙ h.cut;
          reads =
              apply_other r f q other
              ∙ h.reads
              ∙ ap (λ (rs : List Record). replay (rs ++ h.early) start q) (sym journal');
        }

    pub logs-KeyKept :
        All (Spares (key_written r)) before
        → KeyKept start (apply r f) q written (journal ++ r ∷ []) (before ++ after)
    logs-KeyKept alone = elim (Bool-cases (key_written r === q)) [
      | inl own ↦
          logs_own own (on-Spares q before (rw ((===_iff (key_written r) q).0 own) at alone))
      | inr other ↦ logs_other other
    ]
