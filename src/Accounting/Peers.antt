-- ===== src/Accounting/Peers.antt =====
-- `NewAccounting`, `getAccountingPeer`, `Connect`, `Disconnect` and `PeerAccounting`.
use aicode.Prelude.{Bool, true, false, none, [], if◌then◌else◌}
use aicode.Prelude.Int.{ℤ, pos, ◌+ℤ◌, ◌-ℤ◌, ◌*ℤ◌, div_ℤ}
use aicode.Accounting.{
  peer_balance_key, peer_surplus_balance_key, Config, AccountingPeer, Account,
  accounting_disconnect, blocklist_call, M, pure, ◌>>=◌, ◌>>◌, choose, ask, get, modify_peer, emit,
  ignore_error, or_zero,
}
use aicode.Accounting.Balances.{store_put, balance, surplus_balance, percent_of}
use aicode.Accounting.Blocking.{block_seconds}
use aicode.Accounting.Credit.{overdraft_limit}
use aicode.Accounting.Debit.{debit_limit}

abbrev pub minimum_payment_divisor : ℤ
minimum_payment_divisor = pos 5

abbrev pub linear_checkpoint_number : ℤ
linear_checkpoint_number = pos 1800

abbrev pub linear_checkpoint_step : ℤ
linear_checkpoint_step = pos 100

-- The arguments are the threshold, the tolerance and the early payment in percent, the refresh
-- rate, and the factor by which light nodes get less; then whether `SetPayFunc` is called.
unfoldable pub new_accounting : ℤ → ℤ → ℤ → ℤ → ℤ → Bool → Config
unfolding percent_of
new_accounting threshold tolerance early rate light_factor pays = record {
  base_payment_threshold = threshold;
  payment_tolerance = tolerance;
  early_payment_percent = early;
  base_disconnect_limit = percent_of (pos 100 +ℤ tolerance) threshold;
  refresh_rate = rate;
  light_refresh_rate = div_ℤ rate light_factor;
  minimum_payment = div_ℤ rate minimum_payment_divisor;
  threshold_grow_step = rate *ℤ linear_checkpoint_step;
  threshold_grow_change = rate *ℤ linear_checkpoint_number;
  light_payment_threshold = div_ℤ threshold light_factor;
  light_disconnect_limit = percent_of (pos 100 +ℤ tolerance) (div_ℤ threshold light_factor);
  light_threshold_grow_step = div_ℤ rate light_factor *ℤ linear_checkpoint_step;
  light_threshold_grow_change = div_ℤ rate light_factor *ℤ linear_checkpoint_number;
  has_pay_function = pays;
}

-- The entry that `getAccountingPeer` makes for a peer that the map lacks.
unfoldable pub new_accounting_peer : Config → AccountingPeer
unfolding percent_of
new_accounting_peer c = record {
  reserved_balance = pos 0;
  shadow_reserved_balance = pos 0;
  refresh_reserved_balance = pos 0;
  ghost_balance = pos 0;
  payment_threshold = c.base_payment_threshold;
  early_payment = percent_of (pos 100 -ℤ c.early_payment_percent) c.base_payment_threshold;
  payment_threshold_for_peer = c.base_payment_threshold;
  disconnect_limit = c.base_disconnect_limit;
  refresh_timestamp_milliseconds = pos 0;
  refresh_received_timestamp = pos 0;
  payment_ongoing = false;
  refresh_ongoing = false;
  last_settlement_failure_timestamp = pos 0;
  connected = false;
  full_node = false;
  total_debt_repay = pos 0;
  threshold_grow_at = c.threshold_grow_step;
}

-- A peer that is in neither the map nor the store.
unfoldable pub new_account : Config → Account
unfolding new_accounting_peer
new_account c = record {
  peer = new_accounting_peer c;
  stored_balance = none;
  stored_surplus = none;
  stored_originated = none;
  effects = [];
  wg = pos 0;
}

unfoldable pub connect : Bool → M (Unit {0})
unfolding store_put
connect full = do
  c ← ask
  modify_peer λ p. record p {
    connected = true;
    full_node = full;
    shadow_reserved_balance = pos 0;
    ghost_balance = pos 0;
    reserved_balance = pos 0;
    refresh_reserved_balance = pos 0;
    payment_threshold_for_peer =
        if full then c.base_payment_threshold else c.light_payment_threshold;
    threshold_grow_at = if full then c.threshold_grow_step else c.light_threshold_grow_step;
    disconnect_limit = if full then c.base_disconnect_limit else c.light_disconnect_limit;
  }
  ignore_error (store_put peer_balance_key (pos 0))
  ignore_error (store_put peer_surplus_balance_key (pos 0))

unfoldable pub disconnect : M (Unit {0})
unfolding block_seconds
disconnect = do
  s ← get
  choose s.connected
      (do
        seconds ← block_seconds (pos 10)
        modify_peer (λ p. record p { connected = false })
        emit (blocklist_call seconds accounting_disconnect))
      (pure tt)

pub record PeerInfo : Type 0 where
  pub balance_less_surplus : ℤ
  pub consumed_balance : ℤ
  pub threshold_received : ℤ
  pub threshold_given : ℤ
  pub current_threshold_received : ℤ
  pub current_threshold_given : ℤ
  pub surplus : ℤ
  pub reserved : ℤ
  pub shadow_reserved : ℤ
  pub ghost : ℤ

-- What `PeerAccounting` reports of one peer.
unfoldable pub peer_info : M PeerInfo
unfolding balance surplus_balance overdraft_limit debit_limit
peer_info = do
  c ← ask
  s ← get
  consumed ← or_zero balance
  surplus ← surplus_balance
  pure (record {
    balance_less_surplus = consumed -ℤ surplus;
    consumed_balance = consumed;
    threshold_received = s.payment_threshold;
    threshold_given = s.payment_threshold_for_peer;
    current_threshold_received = overdraft_limit c s;
    current_threshold_given = debit_limit c s;
    surplus = surplus;
    reserved = s.reserved_balance;
    shadow_reserved = s.shadow_reserved_balance;
    ghost = s.ghost_balance;
  })
