-- ===== src/Accounting/Credit/Overdraft.antt =====
-- `PrepareCredit` never promises more than the peer lets us owe.
use aicode.Prelude.{Option, ◌⊎◌, Bool-cases, ◌≡◌, refl, ap, inl, inr, Bool, ℕ, true, false, arith}
use aicode.Prelude.Int.{ℤ, pos, ◌+ℤ◌, neg_ℤ, ◌≤ℤ◌, ◌<ℤ◌, max_ℤ, ltb_ℤ}
use aicode.Accounting.{
  Context, Account, Error, fail_to_lock, not_connected, overdraft, store_failure, invalid_value,
  peer_balance_key, peer_surplus_balance_key, ok, err, Result-cases,
}
use aicode.Accounting.Balances.{get_increased_expected_debt}
use aicode.Accounting.Settle.{settle}
use aicode.Accounting.Settle.Frame.{Framed, settle-Framed}
use aicode.Accounting.Debit.Conservation.{get_or_zero}
use aicode.Accounting.Credit.{overdraft_limit, settle_early, reserve_credit, prepare_credit}

-- Our debt if every reserved credit is applied, with the debt made by surplus balance.
pub debt_with : Option ℤ → Option ℤ → ℤ → ℤ
debt_with balance surplus reserved =
    max_ℤ (neg_ℤ (get_or_zero balance)) (pos 0) +ℤ reserved +ℤ get_or_zero surplus

abbrev pub expected_debt : Account → ℤ → ℤ
expected_debt s reserved = debt_with s.stored_balance s.stored_surplus reserved

pub expected_debt_lem :
    (price : ℤ) (c : Context) (s : Account)
    → ((e : Error) × (get_increased_expected_debt price c s ≡ (err e, s)))
      ⊎ (get_increased_expected_debt price c s
          ≡ (ok (expected_debt s (s.reserved_balance +ℤ price), get_or_zero s.stored_balance), s))
unfolding get_increased_expected_debt debt_with
expected_debt_lem price c s = elim (Bool-cases (c.get_fails peer_balance_key)) [
  | inl fails ↦ inl (store_failure, ground arith)
  | inr reads ↦ elim (Bool-cases (c.get_fails peer_surplus_balance_key)) [
    | inl fails ↦ inl (store_failure, ground arith)
    | inr reads' ↦ elim (Bool-cases (ltb_ℤ (get_or_zero s.stored_surplus) (pos 0))) [
      | inl negative ↦ inl (invalid_value, ground arith)
      | inr valid ↦ inr (ground arith)
    ]
  ]
]

-- The expected debt that is tested is that of the state after an early settlement.
settle_early_lem :
    (price x : ℤ) (c : Context) (s : Account)
    → (settle_early price c s).0 ≡ ok x
    → let t = (settle_early price c s).1 in x ≡ expected_debt t (t.reserved_balance +ℤ price)
unfolding settle_early
settle_early_lem price x c s h =
    ground (arith, expected_debt_lem price c s, expected_debt_lem price c (settle c s).1)

pub settle_early-cases :
    (price : ℤ) (c : Context) (s : Account)
    → ((settle_early price c s).1 ≡ s) ⊎ ((settle_early price c s).1 ≡ (settle c s).1)
unfolding settle_early
settle_early-cases price c s =
    ground (arith, expected_debt_lem price c s, expected_debt_lem price c (settle c s).1)

settle_early-Framed : (price : ℤ) (c : Context) (s : Account) → Framed s (settle_early price c s).1
settle_early-Framed price c s = elim (settle_early-cases price c s) [
  | inl p ↦ rw p (ground arith)
  | inr p ↦ rw p (settle-Framed c s)
]

-- The entry after a price has been reserved.
abbrev reserving : Account → ℕ → Account
reserving s price = record s {
  peer = record (s.peer) { reserved_balance = s.reserved_balance +ℤ pos price };
}

overdraft_limit-reserving :
    (c : Context) (s : Account) (price : ℕ)
    → overdraft_limit c (reserving s price) ≡ overdraft_limit c s
unfolding overdraft_limit
overdraft_limit-reserving c s price = refl

-- A price is reserved exactly where the expected debt is within the limit.
reserve_credit_lem :
    (price : ℕ) (originated : Bool) (expected : ℤ) (c : Context) (s : Account)
    → ((overdraft_limit c s <ℤ expected)
        × (reserve_credit price originated expected c s ≡ (err overdraft, s)))
      ⊎ ((expected ≤ℤ overdraft_limit c s)
          × (reserve_credit price originated expected c s ≡ (
            ok (record { price = pos price; originated = originated; applied = false }),
            reserving s price,
          )))
unfolding reserve_credit
reserve_credit_lem price originated expected c s = ground arith

-- The three ways in which `PrepareCredit` ends.
pub prepare_credit-cases :
    (expired : Bool) (price : ℕ) (originated : Bool) (c : Context) (s : Account)
    → ((e : Error) × (prepare_credit expired price originated c s ≡ (err e, s)))
      ⊎ (let t = (settle_early (pos price) c s).1 in
          ((e : Error) × (prepare_credit expired price originated c s ≡ (err e, t)))
          ⊎ ((x : ℤ) × ((settle_early (pos price) c s).0 ≡ ok x)
              × (prepare_credit expired price originated c s
                  ≡ reserve_credit price originated x c t)))
unfolding prepare_credit
prepare_credit-cases true price originated c s = inl (fail_to_lock, refl)
prepare_credit-cases false price originated c s = elim (Bool-cases s.connected) [
  | inr e ↦ inl (not_connected, ground arith)
  | inl e ↦ elim (Result-cases (settle_early (pos price) c s).0) [
    | inl (x, p) ↦ inr (inr (x, p, ground arith))
    | inr (x, p) ↦ inr (inl (x, ground arith))
  ]
]

pub prepare_credit_within_limit :
    (expired : Bool) (price : ℕ) (originated : Bool) (c : Context) (s : Account)
    → let (r, t) = prepare_credit expired price originated c s in
      (((r ≡ ok (record { price = pos price; originated = originated; applied = false }))
          × (expected_debt t t.reserved_balance ≤ℤ overdraft_limit c t)
          × (t.reserved_balance ≡ s.reserved_balance +ℤ pos price))
        ⊎ ((e : Error) × (r ≡ err e) × (t.reserved_balance ≡ s.reserved_balance)))
      × (t.stored_balance ≡ s.stored_balance)
      × (t.stored_surplus ≡ s.stored_surplus)
      × (t.stored_originated ≡ s.stored_originated)
prepare_credit_within_limit expired price originated c s =
    let u = (settle_early (pos price) c s).1 in
    let f = settle_early-Framed (pos price) c s in
    elim (prepare_credit-cases expired price originated c s) [
      | inl (e, p) ↦ rw p (inr (e, refl, refl), refl, refl, refl)
      | inr (inl (e, p)) ↦ rw p (inr (e, refl, f.reserve), f.balances, f.surpluses, f.originated)
      | inr (inr (x, q, p)) ↦ elim (reserve_credit_lem price originated x c u) [
        | inl (_, k) ↦
            rw (p, k) (inr (overdraft, refl, f.reserve), f.balances, f.surpluses, f.originated)
        | inr (le, k) ↦
            rw (p, k)
              (
                inl (
                  refl,
                  rw overdraft_limit-reserving (rw (settle_early_lem (pos price) x c s q) at le),
                  ap (λ r. r +ℤ pos price) f.reserve,
                ),
                f.balances,
                f.surpluses,
                f.originated,
              )
      ]
    ]
