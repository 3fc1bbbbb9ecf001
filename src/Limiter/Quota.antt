-- ===== src/Limiter/Quota.antt =====
-- src/Limit/Limiter.cpp, the bucket of one IP under a check of any request.
use kv_database.Prelude.{
  ℕ, ◌+◌, ◌*◌, ◌≤◌, ◌≡◌, refl, ap, sym, ◌∙◌, Bool, false, List, [], ◌∷◌, arith, some, ◌==◌, ==_iff,
  Bool-cases, Option-cases, inl, inr, if◌then◌else◌,
}
use kv_database.Prelude.Int.{ℤ, pos, negsuc, pos_part, neg_part, ◌≤ℤ◌}
use native.Mathlib.Nat.{mul-le-mul_right, zero-add}
use kv_database.Limiter.{
  nano, IpRecord, RateLimiter, reset_window, count_request, is_allowed_global, find_record,
  set_record, emplaced, is_allowed_private,
}
use kv_database.Limiter.Bucket.{
  granted, IsFilled, take_token, take_token_bounds, take_token-IsFilled,
}

pub find-set_record :
    (ip j : ℕ) (r : IpRecord) (rs : List (ℕ × IpRecord))
    → find_record j (set_record ip r rs) ≡ (if ip == j then some r else find_record j rs)
unfolding find_record set_record
find-set_record ip j r [] = refl
find-set_record ip j r ((i, s) ∷ rs) = ground (arith, find-set_record ip j r rs)

-- An integer that is not negative has no negative part.
neg_part-zero : (t : ℤ) → pos 0 ≤ℤ t → neg_part t ≡ 0
neg_part-zero (pos n) h = refl
neg_part-zero (negsuc n) h = absurd (omega arith)

abbrev last_of : IpRecord → ℕ
last_of r = r.last_refill

module _ (max_tokens rate ip : ℕ) where
  -- Under these limits the record of the IP, if there is one, is filled and not of the future.
  pub record IsReady (now : ℕ) (l : RateLimiter) : Type 0 where
    pub max : l.max_tokens ≡ max_tokens
    pub rate_set : l.refill_rate ≡ rate
    pub ready :
        (r : IpRecord)
        → find_record ip l.ip_records ≡ some r
        → IsFilled max_tokens r × (r.last_refill ≤ now)

  -- What the bucket can pay for until `end`, with the time on both sides.
  pub record Pays (grants now end : ℕ) (l : RateLimiter) : Type 0 where
    pub known :
        (r : IpRecord)
        → find_record ip l.ip_records ≡ some r
        → nano * grants + r.last_refill * rate ≤ pos_part r.tokens + end * rate
    pub capped : nano * grants + now * rate ≤ max_tokens + end * rate

  -- Waiting.
  pub wait-IsReady :
      {now later : ℕ} {l : RateLimiter} → now ≤ later → IsReady now l → IsReady later l
  wait-IsReady h i = record {
    max = i.max;
    rate_set = i.rate_set;
    ready = λ r e. let f = i.ready r e in (f.0, omega arith);
  }

  pub wait-Pays :
      {grants now later end : ℕ} {l : RateLimiter}
      → now ≤ later
      → Pays grants later end l
      → Pays grants now end l
  wait-Pays h p =
      let t = mul-le-mul_right rate h in
      record { known = p.known; capped = omega (arith, p.capped) }

  -- A change that leaves the buckets alone.
  module _ {l w : RateLimiter} (same_max : w.max_tokens ≡ l.max_tokens)
      (same_rate : w.refill_rate ≡ l.refill_rate)
      (same : find_record ip w.ip_records ≡ find_record ip l.ip_records) where
    pub same-IsReady : {now : ℕ} → IsReady now l → IsReady now w
    same-IsReady i = record {
      max = same_max ∙ i.max;
      rate_set = same_rate ∙ i.rate_set;
      ready = λ r e. i.ready r (sym same ∙ e);
    }

    pub same-Pays : {grants now end : ℕ} → Pays grants now end w → Pays grants now end l
    same-Pays p = record { known = λ r e. p.known r (same ∙ e); capped = p.capped }

  emplaced-some :
      (now : ℕ) (l : RateLimiter) (r : IpRecord)
      → find_record ip l.ip_records ≡ some r
      → emplaced ip now l ≡ r
  unfolding emplaced
  emplaced-some now l r e = rw (e, emplaced)

  -- The record that a check finds.
  emplaced-IsFilled :
      (now now' : ℕ) (l : RateLimiter)
      → now ≤ now'
      → IsReady now l
      → IsFilled max_tokens (emplaced ip now' l) × ((emplaced ip now' l).last_refill ≤ now')
  unfolding emplaced
  emplaced-IsFilled now now' l h i = elim (Option-cases (find_record ip l.ip_records)) [
    | inl e ↦
        rw (e, emplaced, i.max)
          (record { solvent = omega arith; capped = omega arith }, omega arith)
    | inr (r, e) ↦ let f = i.ready r e in rw (e, emplaced) (f.0, omega arith)
  ]

  -- A check of the bucket itself.
  module _ (now now' : ℕ) (l : RateLimiter) (h : now ≤ now') (i : IsReady now l) where
    abbrev taken : Bool × IpRecord
    taken = take_token max_tokens rate now' (emplaced ip now' l)

    private-taken :
        is_allowed_private ip now' l
        ≡ (taken.0, record l { ip_records = set_record ip taken.1 l.ip_records })
    unfolding is_allowed_private take_token
    private-taken = rw (i.max, i.rate_set)

    abbrev checked : RateLimiter
    checked = record l { ip_records = set_record ip taken.1 l.ip_records }

    find-checked : find_record ip checked.ip_records ≡ some taken.1
    find-checked = rw (find-set_record ip ip taken.1 l.ip_records, (==_iff ip ip).1 refl)

    checked-IsReady : IsReady now' checked
    checked-IsReady =
        let (filled, past) = emplaced-IsFilled now now' l h i in
        let after = take_token-IsFilled max_tokens rate now' (emplaced ip now' l) past filled in
        let time = (take_token_bounds max_tokens rate now' (emplaced ip now' l)).0 in
        record {
          max = i.max;
          rate_set = i.rate_set;
          ready = λ r e.
              let same : taken.1 ≡ r = cc find-checked in
              (rw same at after, omega (arith, ap last_of same));
        }

    checked-Pays :
        {grants end : ℕ} → Pays grants now' end checked → Pays (granted taken.0 + grants) now end l
    checked-Pays p =
        let (filled, past) = emplaced-IsFilled now now' l h i in
        let after = take_token-IsFilled max_tokens rate now' (emplaced ip now' l) past filled in
        let (time, capped, paid) = take_token_bounds max_tokens rate now' (emplaced ip now' l) in
        let later = mul-le-mul_right rate h in
        let rest = p.known taken.1 find-checked in
        let rest_time : taken.1.last_refill * rate ≡ now' * rate = ap (λ (t : ℕ). t * rate) time in
        record {
          known = λ r e.
              let found = emplaced-some now' l r e in
              let tokens = ap (λ (s : IpRecord). pos_part s.tokens) found in
              let last = ap (λ (s : IpRecord). s.last_refill * rate) found in
              omega (
                arith,
                paid,
                rest,
                rest_time,
                tokens,
                last,
                neg_part-zero _ filled.solvent,
                neg_part-zero _ after.solvent,
              );
          capped = omega (arith, capped, rest, rest_time, later, neg_part-zero _ after.solvent);
        }

  -- A request of another IP leaves the bucket alone.
  other-records :
      (j now : ℕ) (l : RateLimiter)
      → (j == ip) ≡ false
      → find_record ip (is_allowed_private j now l).1.ip_records ≡ find_record ip l.ip_records
  unfolding is_allowed_private
  other-records j now l e = rw (find-set_record, e)

  -- The window leaves the buckets alone.
  pub window-leaves :
      (now : ℕ) (l : RateLimiter)
      → let w = (is_allowed_global now l).1 in
        (w.max_tokens ≡ l.max_tokens)
        × (w.refill_rate ≡ l.refill_rate)
        × (w.ip_records ≡ l.ip_records)
  unfolding is_allowed_global count_request reset_window
  window-leaves now l = ground arith

  -- The bucket's check of a request of `j`.
  module _ (j now now' : ℕ) (w : RateLimiter) (h : now ≤ now') (i : IsReady now w) where
    abbrev pub answer : Bool × RateLimiter
    answer = is_allowed_private j now' w

    pub private-IsReady : IsReady now' answer.1
    private-IsReady = elim (Bool-cases (j == ip)) [
      | inr e ↦
          unfold is_allowed_private in
          wait-IsReady h (same-IsReady refl refl (other-records j now' w e) i)
      | inl e ↦
          rw ((==_iff j ip).0 e, private-taken now now' w h i) (checked-IsReady now now' w h i)
    ]

    pub private-Pays :
        {grants end : ℕ}
        → Pays grants now' end answer.1
        → Pays ((if j == ip then granted answer.0 else 0) + grants) now end w
    private-Pays {grants} p = elim (Bool-cases (j == ip)) [
      | inr e ↦
          rw (e, zero-add grants)
            (unfold is_allowed_private in
              wait-Pays h (same-Pays refl refl (other-records j now' w e) p))
      | inl e ↦
          let same = (==_iff j ip).0 e in
          rw (e, same, private-taken now now' w h i)
            (checked-Pays now now' w h i (rw (same, private-taken now now' w h i) at p))
    ]
