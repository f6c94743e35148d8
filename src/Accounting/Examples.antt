-- ===== src/Accounting/Examples.antt =====
-- Tests of the accounting operations on concrete accounts, and the theorems at such inputs.
use aicode.Prelude.{◌≡◌, ◌⊎◌, refl, true, false, [], ◌∷◌, some, arith}
use aicode.Prelude.Int.{ℤ, pos, negsuc, ◌+ℤ◌, ◌-ℤ◌, ◌*ℤ◌, neg_ℤ, div_ℤ, quo_ℤ, ◌≤ℤ◌, ◌<ℤ◌}
use aicode.Accounting.{
  Config, Context, Account, Error, Reason, pay_call, refresh_call, blocklist_call, ghost_overdraw,
  allowance_expectation, ok, err,
}
use aicode.Accounting.Settle.{settle}
use aicode.Accounting.Settle.Pay.{
  Unpaid, Paid, Payable, payments, settle_pays, settle-notify_payment_sent,
}
use aicode.Accounting.Credit.{CreditAction, prepare_credit, credit_apply}
use aicode.Accounting.Credit.Charge.{released, credit_apply-net}
use aicode.Accounting.Debit.{DebitAction, prepare_debit, increase_balance, debit_cleanup}
use aicode.Accounting.Debit.Conservation.{get_or_zero, net, Works}
use aicode.Accounting.Payments.{notify_payment_sent, notify_payment_received}
use aicode.Accounting.Payments.Surplus.{notify_payment_received-net}
use aicode.Accounting.Peers.{new_accounting, new_account, connect}
use aicode.Accounting.Steps.{connects, applies_debit, received_payment, run, here, next}
use aicode.Accounting.Steps.Parts.{Inv}
use aicode.Accounting.Steps.Invariant.{reachable_invariant}

abbrev config : Config
config = new_accounting (pos 10000) (pos 10) (pos 50) (pos 1000) (pos 10) true

abbrev context : Context
context = record {
  config = config;
  now = pos 5000000;
  get_fails = λ _. false;
  put_fails = λ _. false;
}

-- A full node that has connected.
abbrev fresh : Account
fresh = (connect true context (new_account config)).1

-- We owe 9000, 8000 of it for requests of our own; 100 of surplus is left.
abbrev indebted : Account
indebted = record fresh {
  stored_balance = some (negsuc 8999);
  stored_surplus = some (pos 100);
  stored_originated = some (negsuc 7999);
}

-- A debit of 300 draws the surplus, and then the balance.
debit_draws_surplus : (increase_balance (pos 300) context indebted).0 ≡ ok (negsuc 8799)
unfolding increase_balance connect new_account new_accounting ◌+ℤ◌ ◌-ℤ◌
    aicode.Accounting.Balances.decrease_originated_balance_to aicode.Accounting.Debit.charge_balance
debit_draws_surplus = refl

abbrev credit : CreditAction
credit = record { price = pos 100; originated = true; applied = false }

credit_apply-net_example :
    let (r, a', t) = credit_apply credit context indebted in
    ((e : Error) × (r ≡ err e) × (a' ≡ credit) × (t ≡ indebted))
    ⊎ ((a' ≡ record credit { applied = true })
        × (net t ≡ net indebted -ℤ pos 100)
        × (t.reserved_balance ≡ released indebted.reserved_balance (pos 100))
        × (t.ghost_balance ≡ indebted.ghost_balance))
credit_apply-net_example = credit_apply-net credit context indebted

abbrev debit : DebitAction
debit = record { price = pos 300; applied = false }

settle_pays_example :
    let t = (settle context indebted).1 in
    Unpaid indebted t
    ⊎ ((amount : ℤ) × (context.has_pay_function ≡ true)
        × (indebted.payment_ongoing ≡ false)
        × Payable amount context indebted
        × Paid amount indebted t
        × (payments t.effects ≡ amount ∷ payments indebted.effects))
settle_pays_example = settle_pays context indebted

works : Works context
works = record { gets = λ _. refl; puts = λ _. refl }

-- The peer owes us 500 and pays 800.
abbrev owed : Account
owed = record fresh { stored_balance = some (pos 500) }

-- After a connection, a debit and a payment that is larger than the balance.
abbrev history : Account
history =
    run (received_payment 800) context
      (run (applies_debit 300) context (run (connects true) context (new_account config)))

reachable_invariant_example : Inv config history
reachable_invariant_example =
    reachable_invariant (pos 10000) (pos 10) (pos 50) (pos 1000) (pos 10) true history (
      next (next (next here (connects true) context refl tt) (applies_debit 300) context refl tt)
        (received_payment 800) context refl tt)

owed_pays : (notify_payment_received (pos 800) context owed).0 ≡ ok tt
unfolding notify_payment_received aicode.Accounting.Payments.count_repaid
    aicode.Accounting.Payments.add_surplus connect new_account new_accounting ◌+ℤ◌ ◌-ℤ◌ ◌*ℤ◌
owed_pays = refl

notify_payment_received-net_example :
    let t = (notify_payment_received (pos 800) context owed).1 in
    let b = get_or_zero owed.stored_balance in
    let b' = get_or_zero t.stored_balance in
    (net t ≡ net owed -ℤ pos 800)
    × (((pos 0 <ℤ b) × (pos 0 ≤ℤ b')) ⊎ ((b ≤ℤ pos 0) × (t.stored_balance ≡ owed.stored_balance)))
notify_payment_received-net_example = notify_payment_received-net (pos 800) context owed owed_pays

fresh_accepts_debit : (prepare_debit false 300 context fresh).0 ≡ ok debit
unfolding prepare_debit connect new_account new_accounting
fresh_accepts_debit = refl

fresh_reserve : pos 0 ≤ℤ fresh.reserved_balance
unfolding connect
fresh_reserve = omega arith

fresh_accepts_credit : (prepare_credit false 100 true context fresh).0 ≡ ok credit
unfolding prepare_credit connect new_account new_accounting ◌+ℤ◌ ◌-ℤ◌ ◌*ℤ◌ neg_ℤ div_ℤ quo_ℤ
    aicode.Accounting.Balances.percent_of
fresh_accepts_credit = refl

-- Two seconds after the last refreshment, a settlement pays the debt less 2000.
abbrev due : Account
due = record indebted {
  peer = record (indebted.peer) { refresh_timestamp_milliseconds = pos 18000 };
}

abbrev later : Context
later = record context { now = pos 20000 }

due_pays : Paid (pos 7000) due (settle later due).1
unfolding settle connect new_account new_accounting ◌+ℤ◌ ◌-ℤ◌ ◌*ℤ◌ neg_ℤ div_ℤ quo_ℤ
    aicode.Accounting.Balances.percent_of
due_pays = record {
  ongoing = refl;
  shadow = refl;
  count = refl;
  called = (refresh_call (pos 9000) ∷ [], refl);
}

settle-notify_payment_sent_example :
    let u = (notify_payment_sent (pos 7000) true later (settle later due).1).1 in
    (u.shadow_reserved_balance ≡ due.shadow_reserved_balance)
    × (u.payment_ongoing ≡ false)
    × (u.wg ≡ due.wg)
settle-notify_payment_sent_example =
    settle-notify_payment_sent (pos 7000) true later due (settle later due).1 due_pays
