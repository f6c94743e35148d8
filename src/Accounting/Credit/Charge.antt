-- ===== src/Accounting/Credit/Charge.antt =====
-- What applying or cleaning up a credit action does to the balances and to the reserve.
use aicode.Prelude.{
  ◌≡◌, ◌⊎◌, refl, inl, inr, Bool, ℕ, true, false, some, Bool-cases, if◌then◌else◌, arith,
}
use aicode.Prelude.Int.{ℤ, pos, ◌+ℤ◌, ◌-ℤ◌, ◌≤ℤ◌, ltb_ℤ, +ℤ_parts, +ℤ_sub_cancel, int_laws}
use aicode.Accounting.{Context, Account, Error, store_failure, peer_balance_key, ok, err}
use aicode.Accounting.Settle.Frame.{settle-Framed}
use aicode.Accounting.Debit.Conservation.{get_or_zero, net}
use aicode.Accounting.Credit.{
  CreditAction, release_reserved, credit_charge, credit_originate, settle_credited,
  credit_follow_up, credit_apply, credit_cleanup, prepare_credit,
}
use aicode.Accounting.Credit.Overdraft.{
  expected_debt, expected_debt_lem, prepare_credit_within_limit,
}

-- The reserve after the release of a price.
abbrev pub released : ℤ → ℤ → ℤ
released reserved price = if ltb_ℤ reserved price then pos 0 else reserved -ℤ price

abbrev charged : Account → ℤ → Account
charged s price = record s {
  peer = record (s.peer) { reserved_balance = released s.reserved_balance price };
  stored_balance = some (get_or_zero s.stored_balance -ℤ price);
}

-- The charge either fails and changes nothing, or does all of its work.
credit_charge_lem :
    (price : ℤ) (c : Context) (s : Account)
    → ((e : Error) × (credit_charge price c s ≡ (err e, s)))
      ⊎ (credit_charge price c s ≡ (
        ok (expected_debt s (s.reserved_balance +ℤ price), get_or_zero s.stored_balance -ℤ price),
        charged s price,
      ))
unfolding credit_charge release_reserved
credit_charge_lem price c s = elim (Bool-cases (c.put_fails peer_balance_key)) [
  | inl fails ↦ elim (expected_debt_lem price c s) [
    | inl (e, p) ↦ inl (e, ground arith)
    | inr p ↦ inl (store_failure, ground arith)
  ]
  | inr writes ↦ elim (expected_debt_lem price c s) [
    | inl (e, p) ↦ inl (e, ground arith)
    | inr p ↦ inr (ground arith)
  ]
]

-- The follow-up changes the originated balance at most, and starts settlements.
pub record Followed (s t : Account) : Type 0 where
  pub balances : t.stored_balance ≡ s.stored_balance
  pub surpluses : t.stored_surplus ≡ s.stored_surplus
  pub reserve : t.reserved_balance ≡ s.reserved_balance
  pub ghost : t.ghost_balance ≡ s.ghost_balance

credit_originate-Followed :
    (price nb : ℤ) (c : Context) (s : Account) → Followed s (credit_originate price nb c s).1
unfolding credit_originate
credit_originate-Followed price nb c s = ground arith

settle_credited-Followed :
    (x : ℤ) (c : Context) (s : Account) → Followed s (settle_credited x c s).1
unfolding settle_credited
settle_credited-Followed x c s = ground (arith, settle-Framed c s)

pub credit_follow_up-Followed :
    (a : CreditAction) (x nb : ℤ) (c : Context) (s : Account)
    → Followed s (credit_follow_up a x nb c s).1
unfolding credit_follow_up
credit_follow_up-Followed a x nb c s = ground (
  arith,
  credit_originate-Followed a.price nb c s,
  settle_credited-Followed x c s,
  settle_credited-Followed x c (credit_originate a.price nb c s).1,
)

-- Applying a credit action either fails with the account and the action unchanged, or it marks the
-- action as applied, lowers the net balance by exactly its price and releases that much of the
-- reserve, whatever becomes of the originated balance and of a settlement after that.
pub credit_apply-net :
    (a : CreditAction) (c : Context) (s : Account)
    → let (r, a', t) = credit_apply a c s in
      ((e : Error) × (r ≡ err e) × (a' ≡ a) × (t ≡ s))
      ⊎ ((a' ≡ record a { applied = true })
          × (net t ≡ net s -ℤ a.price)
          × (t.reserved_balance ≡ released s.reserved_balance a.price)
          × (t.ghost_balance ≡ s.ghost_balance))
unfolding credit_apply
credit_apply-net a c s = elim (credit_charge_lem a.price c s) [
  | inl (e, p) ↦ rw (p, credit_apply) (inl (e, refl, refl, refl))
  | inr p ↦
      let nb = get_or_zero s.stored_balance -ℤ a.price in
      let f =
        credit_follow_up-Followed a (expected_debt s (s.reserved_balance +ℤ a.price)) nb c
          (charged s a.price) in
      rw (p, credit_apply)
        (inr (refl, rw (f.balances, f.surpluses) (omega int_laws), f.reserve, f.ghost))
]

cleanup_reserved :
    (price : ℕ) (a : CreditAction) (d : Context) (s t : Account)
    → a ≡ record { price = pos price; originated = a.originated; applied = false }
    → pos 0 ≤ℤ s.reserved_balance
    → t.reserved_balance ≡ s.reserved_balance +ℤ pos price
    → (credit_cleanup a d t).1.reserved_balance ≡ s.reserved_balance
unfolding credit_cleanup release_reserved
cleanup_reserved price a d s t p h e =
    ground
      (arith, +ℤ_parts s.reserved_balance (pos price), +ℤ_sub_cancel s.reserved_balance (pos price))

cleanup_net : (a : CreditAction) (d : Context) (t : Account) → net (credit_cleanup a d t).1 ≡ net t
unfolding credit_cleanup release_reserved
cleanup_net a d t = ground arith

-- Over a reserve that is not negative, a credit that is prepared and then given up leaves the
-- reserve and the net balance as they were.
pub prepare_credit-cleanup :
    (expired : Bool) (price : ℕ) (originated : Bool) (a : CreditAction) (c d : Context)
    (s : Account)
    → pos 0 ≤ℤ s.reserved_balance
    → (prepare_credit expired price originated c s).0 ≡ ok a
    → let t = (credit_cleanup a d (prepare_credit expired price originated c s).1).1 in
      (t.reserved_balance ≡ s.reserved_balance) × (net t ≡ net s)
prepare_credit-cleanup expired price originated a c d s h q =
    let u = (prepare_credit expired price originated c s).1 in
    let (cases, same, surplus, _) = prepare_credit_within_limit expired price originated c s in
    elim cases [
      | inl (p, _, e) ↦
          let shape : a ≡ record { price = pos price; originated = a.originated; applied = false } =
            ground arith in
          (cleanup_reserved price a d s u shape h e, rw (cleanup_net a d u, same, surplus) refl)
      | inr (e, p, _) ↦ absurd (ground arith)
    ]
