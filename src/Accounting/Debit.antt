-- ===== src/Accounting/Debit.antt =====
-- `PrepareDebit` and the debit action: what the peer is to pay us for.
pub mod Conservation
pub mod Shadow
use aicode.Prelude.{Bool, true, false, ℕ, not, if◌then◌else◌}
use aicode.Prelude.Int.{ℤ, pos, ◌+ℤ◌, ◌-ℤ◌, ◌*ℤ◌, ltb_ℤ, leb_ℤ, min_ℤ}
use aicode.Accounting.{
  peer_balance_key, peer_surplus_balance_key, Context, Account, ghost_overdraw, fail_to_lock,
  not_connected, sanity_check, block_peer, Result, ok, err, M, pure, fail, ◌>>=◌, ◌>>◌, choose,
  guard, ask, get, modify_peer, ignore_error, or_zero,
}
use aicode.Accounting.Balances.{
  store_put, balance, surplus_balance, decrease_originated_balance_to, unix_seconds,
}
use aicode.Accounting.Blocking.{block_seconds, blocklist}

pub record DebitAction : Type 0 where
  pub price : ℤ
  pub applied : Bool

unfoldable pub prepare_debit : Bool → ℕ → M DebitAction
prepare_debit expired price = do
  guard (not expired) fail_to_lock
  s ← get
  guard s.connected not_connected
  modify_peer λ p. record p {
    shadow_reserved_balance = p.shadow_reserved_balance +ℤ pos price;
    refresh_reserved_balance =
        if p.refresh_ongoing
        then p.refresh_reserved_balance +ℤ pos price
        else p.refresh_reserved_balance;
  }
  pure (record { price = pos price; applied = false })

-- What the balance takes of a cost that the surplus did not cover.
unfoldable pub charge_balance : ℤ → M ℤ
unfolding balance store_put decrease_originated_balance_to
charge_balance cost = do
  current ← or_zero balance
  let next_balance = current +ℤ cost
  store_put peer_balance_key next_balance
  ignore_error (decrease_originated_balance_to next_balance)
  pure next_balance

-- The price is drawn from the surplus first.
unfoldable pub increase_balance : ℤ → M ℤ
unfolding surplus_balance balance store_put charge_balance
increase_balance price = do
  surplus ← surplus_balance
  choose (ltb_ℤ (pos 0) surplus)
      (choose (leb_ℤ (pos 0) (surplus -ℤ price))
        (do store_put peer_surplus_balance_key (surplus -ℤ price); balance)
        (choose (leb_ℤ (price -ℤ surplus) (pos 0)) (fail sanity_check)
          (do store_put peer_surplus_balance_key (pos 0); charge_balance (price -ℤ surplus))))
      (charge_balance price)

-- The balance at which the peer is disconnected.
unfoldable pub debit_limit : Context → Account → ℤ
unfolding unix_seconds
debit_limit c s =
    let elapsed = min_ℤ (unix_seconds c.now -ℤ s.refresh_received_timestamp) (pos 1) in
    s.disconnect_limit +ℤ elapsed *ℤ (if s.full_node then c.refresh_rate else c.light_refresh_rate)

-- The second half of `Apply`, from `d.applied = true` on.
unfoldable pub debit_follow_up : ℤ → ℤ → M (Unit {0})
unfolding debit_limit block_seconds
debit_follow_up price next_balance = do
  modify_peer (λ p. record p { shadow_reserved_balance = p.shadow_reserved_balance -ℤ price })
  c ← ask
  s ← get
  choose (ltb_ℤ next_balance (debit_limit c s)) (pure tt)
      (do seconds ← block_seconds (pos 10); fail (block_peer seconds))

abbrev debit_finish :
    DebitAction → Result ℤ → Context → Account → Result (Unit {0}) × DebitAction × Account
debit_finish d (err e) c s = (err e, d, s)
debit_finish d (ok next_balance) c s =
    let (r, t) = debit_follow_up d.price next_balance c s in (r, record d { applied = true }, t)

-- `Apply`, with the action as it leaves it.
unfoldable pub debit_apply :
    DebitAction → Context → Account → Result (Unit {0}) × DebitAction × Account
debit_apply d c s = let (r, t) = increase_balance d.price c s in debit_finish d r c t

-- A debit that was prepared and not applied becomes ghost balance.
unfoldable pub debit_cleanup : DebitAction → M (Unit {0})
debit_cleanup d = choose d.applied (pure tt) (do
  modify_peer λ p. record p {
    shadow_reserved_balance = p.shadow_reserved_balance -ℤ d.price;
    ghost_balance = p.ghost_balance +ℤ d.price;
  }
  s ← get
  choose (ltb_ℤ s.disconnect_limit s.ghost_balance) (blocklist ghost_overdraw) (pure tt))
