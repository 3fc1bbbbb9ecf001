-- ===== src/Limiter/Bucket.antt =====
-- src/Limit/Limiter.cpp, `isAllowedPrivate`: one bucket, and what a check does to its tokens.
use kv_database.Prelude.{
  ℕ, ◌+◌, ◌*◌, ◌≤◌, ◌≡◌, ◌∙◌, refl, Bool, true, false, arith, ltb→lt, ltb-false, Bool-cases, inl,
  inr,
}
use kv_database.Prelude.Int.{
  ℤ, pos, pos_part, neg_part, ◌≤ℤ◌, ◌+ℤ◌, +ℤ_parts, -ℤ_parts, sub_ℕ, sub_ℕ_parts, ltb_ℤ,
}
use kv_database.Limiter.{nano, IpRecord, cap_tokens, refill, consume}

-- 1 for a request that is let through.
abbrev pub granted : Bool → ℕ
granted true = 1
granted false = 0

-- The bucket is neither overdrawn nor overfull.
pub record IsFilled (max_tokens : ℕ) (r : IpRecord) : Type 0 where
  pub solvent : pos 0 ≤ℤ r.tokens
  pub capped : r.tokens ≤ℤ pos max_tokens

cap_tokens_bounds :
    (max_tokens : ℕ) (t : ℤ)
    → (cap_tokens max_tokens t ≤ℤ t)
      × (cap_tokens max_tokens t ≤ℤ pos max_tokens)
      × (pos 0 ≤ℤ t → pos 0 ≤ℤ cap_tokens max_tokens t)
unfolding cap_tokens
cap_tokens_bounds max_tokens t = elim (Bool-cases (ltb_ℤ (pos max_tokens) t)) [
  | inl e ↦ rw e (omega (arith, ltb→lt _ _ e))
  | inr e ↦ rw e (omega (arith, ltb-false _ _ e))
]

-- A check takes from the bucket what it grants, and adds at most what the elapsed time is worth.
module _ (max_tokens rate now : ℕ) (r : IpRecord) where
  refilled : IpRecord
  refilled = refill max_tokens rate now r

  refill_bounds :
      (refilled.tokens ≤ℤ pos max_tokens)
      × (pos_part refilled.tokens + neg_part r.tokens + r.last_refill * rate
          ≤ neg_part refilled.tokens + pos_part r.tokens + now * rate)
  unfolding refilled refill
  refill_bounds =
      let sum = +ℤ_parts r.tokens (sub_ℕ (now * rate) (r.last_refill * rate)) in
      let diff = sub_ℕ_parts (now * rate) (r.last_refill * rate) in
      let (below, capped, kept) =
        cap_tokens_bounds max_tokens (r.tokens +ℤ sub_ℕ (now * rate) (r.last_refill * rate)) in
      (capped, omega arith)

  -- A forward step of the clock leaves a bucket that was not overdrawn so.
  refill-solvent : r.last_refill ≤ now → pos 0 ≤ℤ r.tokens → pos 0 ≤ℤ refilled.tokens
  unfolding refilled refill
  refill-solvent later solvent =
      let sum = +ℤ_parts r.tokens (sub_ℕ (now * rate) (r.last_refill * rate)) in
      let diff = sub_ℕ_parts (now * rate) (r.last_refill * rate) in
      let (below, capped, kept) =
        cap_tokens_bounds max_tokens (r.tokens +ℤ sub_ℕ (now * rate) (r.last_refill * rate)) in
      let grown : r.last_refill * rate ≤ now * rate = grind arith in kept (omega arith)

consume_bounds :
    (r : IpRecord)
    → (pos_part (consume r).1.tokens + nano * granted (consume r).0 + neg_part r.tokens
        ≡ neg_part (consume r).1.tokens + pos_part r.tokens)
      × ((consume r).1.last_refill ≡ r.last_refill)
      × (pos 0 ≤ℤ r.tokens → pos 0 ≤ℤ (consume r).1.tokens)
unfolding consume
consume_bounds r = elim (Bool-cases (ltb_ℤ r.tokens (pos nano))) [
  | inl e ↦ rw e (omega arith, refl, λ h. h)
  | inr e ↦
      let diff = -ℤ_parts r.tokens (pos nano) in
      let enough = ltb-false _ _ e in rw e (omega arith, refl, λ h. omega arith)
]

-- One check of a bucket with the rates of a limiter.
unfoldable pub take_token : ℕ → ℕ → ℕ → IpRecord → Bool × IpRecord
take_token max_tokens rate now r = consume (refill max_tokens rate now r)

-- Whatever the clock says, a check pays for a granted request with a token: what is left and what is
-- granted are no more than the bucket holds, and come from what was there and the time.
pub take_token_bounds :
    (max_tokens rate now : ℕ) (r : IpRecord)
    → let (allowed, r') = take_token max_tokens rate now r in
      (r'.last_refill ≡ now)
      × (nano * granted allowed + pos_part r'.tokens ≤ max_tokens + neg_part r'.tokens)
      × (nano * granted allowed + pos_part r'.tokens + neg_part r.tokens + r.last_refill * rate
          ≤ neg_part r'.tokens + pos_part r.tokens + now * rate)
unfolding take_token refilled
take_token_bounds max_tokens rate now r =
    let paid = consume_bounds (refill max_tokens rate now r) in
    let filled = refill_bounds max_tokens rate now r in
    (paid.1 ∙ (unfold refill in refl), omega arith, omega arith)

-- A check whose clock reads no earlier than the last one of the bucket keeps a bucket that is
-- neither overdrawn nor overfull so.
pub take_token-IsFilled :
    (max_tokens rate now : ℕ) (r : IpRecord)
    → r.last_refill ≤ now
    → IsFilled max_tokens r
    → IsFilled max_tokens (take_token max_tokens rate now r).1
unfolding take_token refilled
take_token-IsFilled max_tokens rate now r later filled = record {
  solvent =
      (consume_bounds (refill max_tokens rate now r)).2
        (refill-solvent max_tokens rate now r later filled.solvent);
  capped = (let b = take_token_bounds max_tokens rate now r in omega (arith, b.1));
}
