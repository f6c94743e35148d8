-- ===== src/Accounting/Steps/Parts.antt =====
-- The invariant of a peer's account, kept by the parts of the operations.
use aicode.Prelude.{◌≡◌, ℕ, Bool, true, false, some, arith}
use aicode.Prelude.Int.{ℤ, pos, ◌+ℤ◌, ◌-ℤ◌, ◌≤ℤ◌, +ℤ_parts, -ℤ_parts}
use aicode.Accounting.{Config, Context, Account}
use aicode.Accounting.Balances.{percent_of, decrease_originated_balance_to}
use aicode.Accounting.Settle.{settle}
use aicode.Accounting.Settle.Frame.{settle-Framed}
use aicode.Accounting.Settle.Pay.{settle_pays}
use aicode.Accounting.Debit.Conservation.{get_or_zero}
use aicode.Accounting.Credit.{credit_charge, credit_originate, reserve_credit}
use aicode.Accounting.Debit.{prepare_debit, increase_balance, charge_balance, debit_follow_up}
use aicode.Accounting.Payments.{
  count_repaid, add_surplus, notify_payment_sent, notify_payment_threshold,
}
use aicode.Accounting.Peers.{connect, disconnect}

abbrev pub payments : Bool → ℤ
payments true = pos 1
payments false = pos 0

pub record Inv (f : Config) (s : Account) : Type 0 where
  pub limit_linked :
      s.disconnect_limit ≡ percent_of (pos 100 +ℤ f.payment_tolerance) s.payment_threshold_for_peer
  pub early_linked :
      s.early_payment ≡ percent_of (pos 100 -ℤ f.early_payment_percent) s.payment_threshold
  pub reserve_nonneg : pos 0 ≤ℤ s.reserved_balance
  pub surplus_nonneg : pos 0 ≤ℤ get_or_zero s.stored_surplus
  pub one_payment : s.wg ≡ payments s.payment_ongoing

pub connect-Inv :
    (full : Bool) (c : Context) (s : Account)
    → c.base_disconnect_limit ≡ percent_of (pos 100 +ℤ c.payment_tolerance) c.base_payment_threshold
    → c.light_disconnect_limit
      ≡ percent_of (pos 100 +ℤ c.payment_tolerance) c.light_payment_threshold
    → Inv c.config s
    → Inv c.config (connect full c s).1
unfolding connect
connect-Inv full c s h k v = ground arith

pub disconnect-Inv : (f : Config) (c : Context) (s : Account) → Inv f s → Inv f (disconnect c s).1
unfolding disconnect
disconnect-Inv f c s v = ground arith

pub prepare_debit-Inv :
    (f : Config) (n : ℕ) (c : Context) (s : Account) → Inv f s → Inv f (prepare_debit false n c s).1
unfolding prepare_debit
prepare_debit-Inv f n c s v = ground arith

pub threshold-Inv :
    (x : ℤ) (c : Context) (s : Account)
    → Inv c.config s
    → Inv c.config (notify_payment_threshold x c s).1
unfolding notify_payment_threshold
threshold-Inv x c s v = ground arith

pub settle-Inv : (f : Config) (c : Context) (s : Account) → Inv f s → Inv f (settle c s).1
settle-Inv f c s v =
    let t = (settle c s).1 in
    let r = settle-Framed c s in
    record {
      limit_linked = ground arith;
      early_linked = ground arith;
      reserve_nonneg = ground arith;
      surplus_nonneg = ground arith;
      one_payment = ground (arith, settle_pays c s, +ℤ_parts s.wg (pos 1));
    }

pub sent-Inv :
    (f : Config) (amount : ℤ) (failed : Bool) (c : Context) (s : Account)
    → s.payment_ongoing ≡ true
    → Inv f s
    → Inv f (notify_payment_sent amount failed c s).1
unfolding notify_payment_sent
sent-Inv f amount failed c s h v = ground (arith, -ℤ_parts s.wg (pos 1))

pub charge_balance-Inv :
    (f : Config) (cost : ℤ) (c : Context) (s : Account)
    → Inv f s
    → Inv f (charge_balance cost c s).1
unfolding charge_balance decrease_originated_balance_to
charge_balance-Inv f cost c s v = ground arith

pub increase_balance-Inv :
    (f : Config) (price : ℤ) (c : Context) (s : Account)
    → Inv f s
    → Inv f (increase_balance price c s).1
unfolding increase_balance
increase_balance-Inv f price c s v =
    let rest = price -ℤ get_or_zero s.stored_surplus in
    let z : ℤ = pos 0 in
    let t = record s { stored_surplus = some z } in
    ground (arith, charge_balance-Inv f price c s, charge_balance-Inv f rest c t)

pub debit_follow_up-Inv :
    (f : Config) (price v : ℤ) (c : Context) (s : Account)
    → Inv f s
    → Inv f (debit_follow_up price v c s).1
unfolding debit_follow_up
debit_follow_up-Inv f price v c s i = ground arith

pub credit_charge-Inv :
    (f : Config) (n : ℕ) (c : Context) (s : Account) → Inv f s → Inv f (credit_charge (pos n) c s).1
unfolding credit_charge
credit_charge-Inv f n c s v = ground (arith, -ℤ_parts s.reserved_balance (pos n))

pub credit_originate-Inv :
    (f : Config) (p b : ℤ) (c : Context) (s : Account)
    → Inv f s
    → Inv f (credit_originate p b c s).1
unfolding credit_originate
credit_originate-Inv f p b c s v = ground arith

pub reserve_credit-Inv :
    (f : Config) (n : ℕ) (o : Bool) (x : ℤ) (c : Context) (s : Account)
    → Inv f s
    → Inv f (reserve_credit n o x c s).1
unfolding reserve_credit
reserve_credit-Inv f n o x c s v = ground (arith, +ℤ_parts s.reserved_balance (pos n))

pub count_repaid-Inv :
    (amount : ℤ) (c : Context) (s : Account)
    → Inv c.config s
    → Inv c.config (count_repaid amount c s).1
unfolding count_repaid
count_repaid-Inv amount c s v = ground arith

pub add_surplus-Inv :
    (f : Config) (amount : ℤ) (c : Context) (s : Account)
    → pos 0 ≤ℤ amount
    → Inv f s
    → Inv f (add_surplus amount c s).1
unfolding add_surplus
add_surplus-Inv f amount c s h v = ground (arith, +ℤ_parts (get_or_zero s.stored_surplus) amount)
