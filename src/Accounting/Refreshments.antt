-- ===== src/Accounting/Refreshments.antt =====
-- `NotifyRefreshmentSent` and `NotifyRefreshmentReceived`: time-based settlement.
pub mod Allowance
use aicode.Prelude.{false}
use aicode.Prelude.Int.{ℤ, pos, ◌+ℤ◌, ◌-ℤ◌, ◌*ℤ◌, ltb_ℤ, min_ℤ}
use aicode.Accounting.{
  peer_balance_key, allowance_expectation, failed_to_refresh, M, pure, ◌>>=◌, ◌>>◌, choose, ask,
  get, modify_peer, ignore_error, or_zero,
}
use aicode.Accounting.Balances.{store_put, balance, decrease_originated_balance_to}
use aicode.Accounting.Blocking.{blocklist}
use aicode.Accounting.Payments.{count_repaid}

-- How the refreshment that we asked for ended. Other errors of the pseudosettle protocol differ
-- only in the metric that they count in.
pub data RefreshOutcome : Type 0 where
  accepted peer_not_found other_error : RefreshOutcome

-- The least amount that the peer has to accept.
unfoldable pub expected_allowance : ℤ → ℤ → ℤ → ℤ → ℤ
expected_allowance attempted reserved interval rate =
    min_ℤ (interval *ℤ rate) (min_ℤ (attempted -ℤ reserved) attempted)

-- An accepted refreshment: errors of the store are logged.
unfoldable pub accept_refreshment : ℤ → ℤ → ℤ → M (Unit {0})
unfolding balance store_put
accept_refreshment attempted amount interval = do
  c ← ask
  s ← get
  modify_peer (λ p. record p { refresh_reserved_balance = pos 0 })
  choose
      (ltb_ℤ amount
        (expected_allowance attempted s.refresh_reserved_balance interval c.refresh_rate))
      (blocklist allowance_expectation)
      (ignore_error (do
        current ← or_zero balance
        store_put peer_balance_key (current +ℤ amount)
        ignore_error (decrease_originated_balance_to (current +ℤ amount))))

abbrev conclude : RefreshOutcome → M (Unit {0}) → M (Unit {0})
conclude accepted m = m
conclude peer_not_found m = pure tt
conclude other_error m = blocklist failed_to_refresh

unfoldable pub notify_refreshment_sent : ℤ → ℤ → ℤ → ℤ → RefreshOutcome → M (Unit {0})
notify_refreshment_sent attempted amount timestamp interval outcome = do
  modify_peer
      (λ p. record p { refresh_ongoing = false; refresh_timestamp_milliseconds = timestamp })
  conclude outcome (accept_refreshment attempted amount interval)

unfoldable pub notify_refreshment_received : ℤ → ℤ → M (Unit {0})
unfolding balance store_put
notify_refreshment_received amount timestamp = do
  count_repaid amount
  current ← or_zero balance
  store_put peer_balance_key (current -ℤ amount)
  modify_peer (λ p. record p { refresh_received_timestamp = timestamp })
