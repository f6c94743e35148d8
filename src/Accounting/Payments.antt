-- ===== src/Accounting/Payments.antt =====
-- `NotifyPaymentSent`, `NotifyPaymentThreshold`, `NotifyPaymentReceived`: monetary settlement.
pub mod Surplus
use aicode.Prelude.{Bool, false, if◌then◌else◌}
use aicode.Prelude.Int.{ℤ, pos, ◌+ℤ◌, ◌-ℤ◌, ◌*ℤ◌, ltb_ℤ, leb_ℤ, max_ℤ}
use aicode.Accounting.{
  peer_balance_key, peer_surplus_balance_key, Account, announce, M, pure, ◌>>=◌, ◌>>◌, choose, ask,
  get, put, modify_peer, emit, ignore_error, or_zero,
}
use aicode.Accounting.Balances.{
  store_put, balance, surplus_balance, percent_of, unix_seconds, decrease_originated_balance_by,
}

-- The next checkpoint of repaid debt: linear steps at first, then doubling.
unfoldable pub next_checkpoint : ℤ → ℤ → ℤ → ℤ
next_checkpoint change step at = if leb_ℤ change at then at *ℤ pos 2 else at +ℤ step

unfoldable pub notify_payment_threshold_upgrade : M (Unit {0})
unfolding next_checkpoint percent_of
notify_payment_threshold_upgrade = do
  c ← ask
  s ← get
  let change = if s.full_node then c.threshold_grow_change else c.light_threshold_grow_change
  let step = if s.full_node then c.threshold_grow_step else c.light_threshold_grow_step
  let rate = if s.full_node then c.refresh_rate else c.light_refresh_rate
  let threshold = s.payment_threshold_for_peer +ℤ rate
  modify_peer λ p. record p {
    threshold_grow_at = next_checkpoint change step p.threshold_grow_at;
    payment_threshold_for_peer = threshold;
    disconnect_limit = percent_of (pos 100 +ℤ c.payment_tolerance) threshold;
  }
  emit (announce threshold)

-- What both kinds of settlement by the peer do first.
unfoldable pub count_repaid : ℤ → M (Unit {0})
unfolding notify_payment_threshold_upgrade
count_repaid amount = do
  modify_peer (λ p. record p { total_debt_repay = p.total_debt_repay +ℤ amount })
  s ← get
  choose (ltb_ℤ s.threshold_grow_at s.total_debt_repay) notify_payment_threshold_upgrade (pure tt)

-- The entry after a payment has ended, in success or failure. Go's wait group panics below 0.
unfoldable pub release_payment : ℤ → Account → Account
release_payment amount s = record s {
  peer = record (s.peer) {
    payment_ongoing = false;
    shadow_reserved_balance = s.shadow_reserved_balance -ℤ amount;
  };
  wg = s.wg -ℤ pos 1;
}

-- `failed`: the settlement service gave an error. Errors of the store are logged.
unfoldable pub notify_payment_sent : ℤ → Bool → M (Unit {0})
unfolding release_payment unix_seconds balance store_put decrease_originated_balance_by
notify_payment_sent amount failed = do
  s ← get
  put (release_payment amount s)
  c ← ask
  choose failed
      (modify_peer λ p. record p { last_settlement_failure_timestamp = unix_seconds c.now })
      (ignore_error (do
        current ← or_zero balance
        store_put peer_balance_key (current +ℤ amount)
        ignore_error (decrease_originated_balance_by amount)))

unfoldable pub notify_payment_threshold : ℤ → M (Unit {0})
unfolding percent_of
notify_payment_threshold threshold = do
  c ← ask
  modify_peer λ p. record p {
    payment_threshold = threshold;
    early_payment = percent_of (pos 100 -ℤ c.early_payment_percent) threshold;
  }

unfoldable pub add_surplus : ℤ → M (Unit {0})
unfolding surplus_balance store_put
add_surplus amount = do
  surplus ← surplus_balance
  store_put peer_surplus_balance_key (surplus +ℤ amount)

-- A payment lowers a positive balance to 0 at most, and the rest of it becomes surplus.
unfoldable pub notify_payment_received : ℤ → M (Unit {0})
unfolding balance store_put
notify_payment_received amount = do
  count_repaid amount
  current ← or_zero balance
  choose (leb_ℤ current (pos 0)) (add_surplus amount) (do
    let new_balance = current -ℤ amount
    store_put peer_balance_key (max_ℤ new_balance (pos 0))
    choose (ltb_ℤ new_balance (pos 0)) (add_surplus (amount -ℤ current)) (pure tt))
