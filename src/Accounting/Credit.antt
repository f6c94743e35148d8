-- ===== src/Accounting/Credit.antt =====
-- `PrepareCredit` and the credit action: what we are to pay the peer for.
pub mod Overdraft
pub mod Charge
use aicode.Prelude.{Bool, true, false, ℕ, ◌&&◌, not, if◌then◌else◌}
use aicode.Prelude.Int.{ℤ, pos, ◌+ℤ◌, ◌-ℤ◌, ◌*ℤ◌, ltb_ℤ, leb_ℤ, min_ℤ}
use aicode.Accounting.{
  peer_balance_key, originated_balance_key, Context, Account, fail_to_lock, not_connected,
  overdraft, Result, ok, err, M, pure, ◌>>=◌, ◌>>◌, choose, guard, ask, get, modify_peer,
  ignore_error, or_zero,
}
use aicode.Accounting.Balances.{
  store_put, originated_balance, get_increased_expected_debt, elapsed_seconds,
}
use aicode.Accounting.Settle.{settle}

pub record CreditAction : Type 0 where
  pub price : ℤ
  pub originated : Bool
  pub applied : Bool

-- What the peer lets us owe: its payment threshold, and the refreshment due, of one second at most.
unfoldable pub overdraft_limit : Context → Account → ℤ
unfolding elapsed_seconds
overdraft_limit c s =
    s.payment_threshold +ℤ elapsed_seconds c.now s.refresh_timestamp_milliseconds *ℤ c.refresh_rate

-- The expected debt, after a settlement where it comes near the threshold and we are in debt.
unfoldable pub settle_early : ℤ → M ℤ
unfolding get_increased_expected_debt settle
settle_early price = do
  s ← get
  (expected, current) ← get_increased_expected_debt price
  choose (leb_ℤ s.early_payment (expected -ℤ s.shadow_reserved_balance) && ltb_ℤ current (pos 0))
      (do settle; (expected_now, _) ← get_increased_expected_debt price; pure expected_now)
      (pure expected)

-- The last part of `PrepareCredit`: refuses an expected debt beyond the limit, or reserves the price.
unfoldable pub reserve_credit : ℕ → Bool → ℤ → M CreditAction
unfolding overdraft_limit
reserve_credit price originated expected = do
  c ← ask
  s ← get
  guard (not (ltb_ℤ (overdraft_limit c s) expected)) overdraft
  modify_peer (λ p. record p { reserved_balance = p.reserved_balance +ℤ pos price })
  pure (record { price = pos price; originated = originated; applied = false })

-- `expired`: the caller's context ended before the peer's lock was free.
unfoldable pub prepare_credit : Bool → ℕ → Bool → M CreditAction
unfolding settle_early reserve_credit
prepare_credit expired price originated = do
  guard (not expired) fail_to_lock
  s ← get
  guard s.connected not_connected
  expected ← settle_early (pos price)
  reserve_credit price originated expected

-- A release of more than was reserved is logged, and leaves nothing reserved.
unfoldable pub release_reserved : ℤ → M (Unit {0})
release_reserved price = modify_peer λ p. record p {
  reserved_balance = if ltb_ℤ p.reserved_balance price then pos 0 else p.reserved_balance -ℤ price;
}

-- The first half of `Apply`, up to `c.applied = true`: charges the price to the balance. It returns
-- the expected debt and the new balance.
unfoldable pub credit_charge : ℤ → M (ℤ × ℤ)
unfolding get_increased_expected_debt store_put release_reserved
credit_charge price = do
  (expected, current) ← get_increased_expected_debt price
  let next_balance = current -ℤ price
  store_put peer_balance_key next_balance
  release_reserved price
  pure (expected, next_balance)

-- An originated credit lowers the originated balance too, but never below the balance or above 0.
unfoldable pub credit_originate : ℤ → ℤ → M (Unit {0})
unfolding originated_balance store_put
credit_originate price next_balance = do
  origin ← or_zero originated_balance
  let next_origin = origin -ℤ price
  let limit = min_ℤ next_balance (pos 0)
  store_put originated_balance_key (if ltb_ℤ next_origin limit then limit else next_origin)

unfoldable pub settle_credited : ℤ → M (Unit {0})
unfolding settle
settle_credited expected = do
  s ← get
  choose (ltb_ℤ s.early_payment (expected -ℤ s.shadow_reserved_balance)) (ignore_error settle)
      (pure tt)

-- The second half of `Apply`, from `c.applied = true` on.
unfoldable pub credit_follow_up : CreditAction → ℤ → ℤ → M (Unit {0})
unfolding credit_originate settle_credited
credit_follow_up a expected next_balance = do
  choose a.originated (credit_originate a.price next_balance) (pure tt)
  settle_credited expected

abbrev credit_finish :
    CreditAction → Result (ℤ × ℤ) → Context → Account → Result (Unit {0}) × CreditAction × Account
credit_finish a (err e) c s = (err e, a, s)
credit_finish a (ok (expected, next_balance)) c s =
    let (r, t) = credit_follow_up a expected next_balance c s in (r, record a { applied = true }, t)

-- `Apply`, with the action as it leaves it.
unfoldable pub credit_apply :
    CreditAction → Context → Account → Result (Unit {0}) × CreditAction × Account
unfolding credit_charge credit_follow_up
credit_apply a c s = let (r, t) = credit_charge a.price c s in credit_finish a r c t

unfoldable pub credit_cleanup : CreditAction → M (Unit {0})
unfolding release_reserved
credit_cleanup a = choose a.applied (pure tt) (release_reserved a.price)
