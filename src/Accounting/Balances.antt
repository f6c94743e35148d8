-- ===== src/Accounting/Balances.antt =====
-- The reads and writes of a peer's balances in the state store, and the sums over them.
use aicode.Prelude.{Bool, true, false, Option, none, some, ◌&&◌, not, if◌then◌else◌}
use aicode.Prelude.Int.{ℤ, pos, ◌+ℤ◌, ◌-ℤ◌, ◌*ℤ◌, neg_ℤ, div_ℤ, quo_ℤ, ltb_ℤ, leb_ℤ, max_ℤ, min_ℤ}
use aicode.Accounting.{
  Key, peer_balance_key, peer_surplus_balance_key, originated_balance_key, Account, Error,
  store_failure, peer_no_balance, invalid_value, Result, ok, err, M, pure, fail, ◌>>=◌, ◌>>◌,
  choose, guard, get, or_zero,
}

abbrev pub stored : Account → Key → Option ℤ
stored s peer_balance_key = s.stored_balance
stored s peer_surplus_balance_key = s.stored_surplus
stored s originated_balance_key = s.stored_originated

abbrev write : Account → Key → ℤ → Account
write s peer_balance_key v = record s { stored_balance = some v }
write s peer_surplus_balance_key v = record s { stored_surplus = some v }
write s originated_balance_key v = record s { stored_originated = some v }

-- `store.Get`, where `ErrNotFound` is told from other failures.
abbrev found : Option ℤ → Error → Result ℤ
found none e = err e
found (some v) e = ok v

unfoldable pub store_get : Key → Error → M ℤ
store_get k missing c s =
    (if c.get_fails k then err store_failure else found (stored s k) missing, s)

unfoldable pub store_put : Key → ℤ → M (Unit {0})
store_put k v c s = if c.put_fails k then (err store_failure, s) else (ok tt, write s k v)

unfoldable pub balance : M ℤ
unfolding store_get
balance = store_get peer_balance_key peer_no_balance

unfoldable pub originated_balance : M ℤ
unfolding store_get
originated_balance = store_get originated_balance_key peer_no_balance

-- A missing surplus balance is 0, with no error; a negative one is refused.
unfoldable pub surplus_balance : M ℤ
unfolding store_get
surplus_balance = do
  surplus ← or_zero (store_get peer_surplus_balance_key peer_no_balance)
  guard (not (ltb_ℤ surplus (pos 0))) invalid_value
  pure surplus

abbrev is_no_balance : Result ℤ → Bool
is_no_balance (err peer_no_balance) = true
is_no_balance r = false

unfoldable pub compensated_balance : M ℤ
unfolding surplus_balance balance
compensated_balance c s =
    (do
      surplus ← surplus_balance
      value ← or_zero balance
      choose
          (not (ltb_ℤ (pos 0) surplus)
            && not (ltb_ℤ surplus (pos 0))
            && is_no_balance (balance c s).0)
          (fail peer_no_balance) (pure (value -ℤ surplus)))
      c s

unfoldable pub percent_of : ℤ → ℤ → ℤ
percent_of percent of = div_ℤ (of *ℤ percent) (pos 100)

-- The debt if all reserved operations and this one are credited, with the debt made by surplus
-- balance, and the current balance.
unfoldable pub get_increased_expected_debt : ℤ → M (ℤ × ℤ)
unfolding balance surplus_balance
get_increased_expected_debt price = do
  s ← get
  let next_reserved = s.reserved_balance +ℤ price
  current_balance ← or_zero balance
  let current_debt = max_ℤ (neg_ℤ current_balance) (pos 0)
  additional_debt ← surplus_balance
  pure (current_debt +ℤ next_reserved +ℤ additional_debt, current_balance)

unfoldable pub shadow_balance : M ℤ
unfolding balance surplus_balance
shadow_balance = do
  s ← get
  value ← or_zero balance
  choose (leb_ℤ (pos 0) value) (pure (pos 0)) (do
    surplus ← surplus_balance
    choose (ltb_ℤ (neg_ℤ value +ℤ surplus) s.shadow_reserved_balance) (pure (pos 0))
        (pure (neg_ℤ value -ℤ s.shadow_reserved_balance)))

-- The positive part of the sum of the balance and the shadow reserve.
unfoldable pub peer_debt : M ℤ
unfolding balance
peer_debt = do
  s ← get
  value ← or_zero balance
  pure (max_ℤ (value +ℤ s.shadow_reserved_balance) (pos 0))

unfoldable pub peer_latent_debt : M ℤ
unfolding balance
peer_latent_debt = do
  s ← get
  value ← or_zero balance
  pure (max_ℤ (max_ℤ value (pos 0) +ℤ s.shadow_reserved_balance +ℤ s.ghost_balance) (pos 0))

-- The seconds since a time in milliseconds, at most 1.
unfoldable pub elapsed_seconds : ℤ → ℤ → ℤ
elapsed_seconds now since = min_ℤ (quo_ℤ (now -ℤ since) 1000) (pos 1)

-- `time.Time.Unix` of a time in milliseconds.
unfoldable pub unix_seconds : ℤ → ℤ
unix_seconds now = div_ℤ now (pos 1000)

-- Never more than the limit, and never above 0.
unfoldable pub decrease_originated_balance_to : ℤ → M (Unit {0})
unfolding originated_balance store_put
decrease_originated_balance_to limit = do
  originated ← or_zero originated_balance
  let to_set = min_ℤ limit (pos 0)
  choose (ltb_ℤ originated to_set) (store_put originated_balance_key to_set) (pure tt)

unfoldable pub decrease_originated_balance_by : ℤ → M (Unit {0})
unfolding originated_balance store_put
decrease_originated_balance_by amount = do
  originated ← or_zero originated_balance
  store_put originated_balance_key (originated +ℤ amount)
