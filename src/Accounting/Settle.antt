-- ===== src/Accounting/Settle.antt =====
-- `settle`: starts a time-based and a monetary settlement for the debt with a peer.
pub mod Frame
pub mod Pay
use aicode.Prelude.{Bool, true, false, ◌&&◌, not}
use aicode.Prelude.Int.{ℤ, pos, ◌+ℤ◌, ◌-ℤ◌, ◌*ℤ◌, neg_ℤ, quo_ℤ, ltb_ℤ, min_ℤ}
use aicode.Accounting.{
  Account, refresh_call, pay_call, M, pure, ◌>>=◌, ◌>>◌, choose, ask, get, put, modify_peer, emit,
  or_zero,
}
use aicode.Accounting.Balances.{balance, originated_balance, shadow_balance, unix_seconds}

-- Seconds.
abbrev pub failed_settlement_interval : ℤ
failed_settlement_interval = pos 10

-- The time-based settlement: at most one at a time, at least a second after the last one.
unfoldable pub start_refresh : ℤ → M (Unit {0})
start_refresh amount = do
  c ← ask
  s ← get
  choose (ltb_ℤ (pos 999) (c.now -ℤ s.refresh_timestamp_milliseconds) && not s.refresh_ongoing)
      (do modify_peer (λ p. record p { refresh_ongoing = true }); emit (refresh_call amount))
      (pure tt)

-- The entry after a payment of an amount has been sent off.
unfoldable pub reserve_payment : ℤ → Account → Account
reserve_payment amount s = record s {
  peer = record (s.peer) {
    payment_ongoing = true;
    shadow_reserved_balance = s.shadow_reserved_balance +ℤ amount;
    refresh_reserved_balance = refresh_reserved s.refresh_ongoing;
  };
  wg = s.wg +ℤ pos 1;
}
  where
    refresh_reserved : Bool → ℤ
    refresh_reserved true = s.refresh_reserved_balance +ℤ amount
    refresh_reserved false = s.refresh_reserved_balance

-- The monetary settlement: of the originated balance, but of no more than the debt that the due
-- refreshment and the shadow reserve leave, and of no amount below the minimum.
unfoldable pub start_payment : M (Unit {0})
unfolding originated_balance balance reserve_payment
start_payment = do
  c ← ask
  originated ← or_zero originated_balance
  choose (ltb_ℤ (neg_ℤ originated) c.minimum_payment) (pure tt) (do
    s ← get
    let elapsed = quo_ℤ (c.now -ℤ s.refresh_timestamp_milliseconds) 1000
    current ← or_zero balance
    let decreased_debt = neg_ℤ current -ℤ elapsed *ℤ c.refresh_rate
    let amount = min_ℤ (neg_ℤ originated) (decreased_debt -ℤ s.shadow_reserved_balance)
    choose (ltb_ℤ amount c.minimum_payment) (pure tt)
        (do put (reserve_payment amount s); emit (pay_call amount)))

-- The settlements for a debt that is worth settling.
unfoldable pub settle_debt : ℤ → M (Unit {0})
unfolding start_refresh start_payment unix_seconds
settle_debt amount = do
  c ← ask
  choose (ltb_ℤ amount c.refresh_rate) (pure tt) (do
    start_refresh amount
    s ← get
    let waited = unix_seconds c.now -ℤ s.last_settlement_failure_timestamp
    choose (c.has_pay_function && not s.payment_ongoing && ltb_ℤ failed_settlement_interval waited)
        start_payment (pure tt))

unfoldable pub settle : M (Unit {0})
unfolding shadow_balance settle_debt
settle = do amount ← shadow_balance; settle_debt amount
