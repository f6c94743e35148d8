-- ===== src/Accounting/Settle/Frame.antt =====
-- What `settle` leaves alone, and what it starts.
use aicode.Prelude.{◌≡◌, ◌⊎◌, inl, inr, true, false, arith}
use aicode.Prelude.Int.{ℤ, ◌-ℤ◌, ◌≤ℤ◌, ◌<ℤ◌}
use aicode.Accounting.{Context, Account, Error, ok, err, Result-cases}
use aicode.Accounting.Balances.{shadow_balance, unix_seconds}
use aicode.Accounting.Settle.{
  start_refresh, start_payment, failed_settlement_interval, settle_debt, settle,
}

-- The balances and thresholds that no settlement changes when it starts.
pub record Framed (s t : Account) : Type 0 where
  pub balances : t.stored_balance ≡ s.stored_balance
  pub surpluses : t.stored_surplus ≡ s.stored_surplus
  pub originated : t.stored_originated ≡ s.stored_originated
  pub reserve : t.reserved_balance ≡ s.reserved_balance
  pub ghost : t.ghost_balance ≡ s.ghost_balance
  pub threshold : t.payment_threshold ≡ s.payment_threshold
  pub early : t.early_payment ≡ s.early_payment
  pub given : t.payment_threshold_for_peer ≡ s.payment_threshold_for_peer
  pub limit : t.disconnect_limit ≡ s.disconnect_limit
  pub refreshed : t.refresh_timestamp_milliseconds ≡ s.refresh_timestamp_milliseconds
  pub linked : t.connected ≡ s.connected

pub shadow_balance-state : (c : Context) (s : Account) → (shadow_balance c s).1 ≡ s
unfolding shadow_balance
shadow_balance-state c s = ground arith

pub start_payment-Framed : (c : Context) (s : Account) → Framed s (start_payment c s).1
unfolding start_payment
start_payment-Framed c s = ground arith

pub start_refresh-Framed : (a : ℤ) (c : Context) (s : Account) → Framed s (start_refresh a c s).1
unfolding start_refresh
start_refresh-Framed a c s = ground arith

-- A settlement ends at once, after a refreshment was started or not, or with the attempt to start
-- a payment, which is made only if none is under way and the last one did not fail just before.
pub settle_debt-cases :
    (amount : ℤ) (c : Context) (s : Account)
    → (settle_debt amount c s ≡ (ok tt, s))
      ⊎ ((c.refresh_rate ≤ℤ amount)
          × ((settle_debt amount c s ≡ start_refresh amount c s)
              ⊎ ((c.has_pay_function ≡ true)
                  × (s.payment_ongoing ≡ false)
                  × (failed_settlement_interval
                      <ℤ unix_seconds c.now -ℤ s.last_settlement_failure_timestamp)
                  × (settle_debt amount c s ≡ start_payment c (start_refresh amount c s).1))))
unfolding settle_debt start_refresh
settle_debt-cases amount c s = ground arith

pub settle_lem :
    (c : Context) (s : Account)
    → ((e : Error) × (settle c s ≡ (err e, s)))
      ⊎ ((amount : ℤ) × ((shadow_balance c s).0 ≡ ok amount)
          × (settle c s ≡ settle_debt amount c s))
unfolding settle
settle_lem c s = elim (Result-cases (shadow_balance c s).0) [
  | inl (amount, e) ↦ inr (amount, e, rw (e, shadow_balance-state c s))
  | inr (x, e) ↦ inl (x, rw (e, shadow_balance-state c s))
]

-- A property of the state that a started refreshment and a started payment keep.
pub settle_rule {ℓ} :
    (P : Account → Type ℓ) (c : Context) (s : Account)
    → P s
    → ((amount : ℤ) → P (start_refresh amount c s).1)
    → ((amount : ℤ) → P (start_payment c (start_refresh amount c s).1).1)
    → P (settle c s).1
settle_rule P c s here refreshed paid = elim (settle_lem c s) [
  | inl (e, p) ↦ rw p here
  | inr (amount, _, p) ↦ rw p (elim (settle_debt-cases amount c s) [
    | inl q ↦ rw q here
    | inr (_, inl q) ↦ rw q (refreshed amount)
    | inr (_, inr (_, _, _, q)) ↦ rw q (paid amount)
  ])
]

Framed-trans : {s t u : Account} → Framed s t → Framed t u → Framed s u
Framed-trans p q = ground arith

pub settle-Framed : (c : Context) (s : Account) → Framed s (settle c s).1
settle-Framed c s =
    settle_rule (Framed s) c s (ground arith) (λ a. start_refresh-Framed a c s)
      λ a. Framed-trans (start_refresh-Framed a c s) (start_payment-Framed c _)
