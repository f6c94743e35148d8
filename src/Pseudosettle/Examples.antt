-- ===== src/Pseudosettle/Examples.antt =====
-- The theorems on settlement by time at concrete peers.
use aicode.Prelude.{◌≡◌, inr, refl, true, false, Option, none, some, List, [], ◌∷◌, arith}
use aicode.Prelude.Int.{ℤ, pos, negsuc, ◌+ℤ◌, ◌-ℤ◌, ◌*ℤ◌, ◌≤ℤ◌, quo_ℤ}
use aicode.Accounting.{Config, Context, Account}
use aicode.Accounting.Debit.Conservation.{get_or_zero}
use aicode.Accounting.Peers.{new_accounting, new_account, connect}
use aicode.Accounting.Refreshments.{notify_refreshment_received, notify_refreshment_sent}
use aicode.Effects.{ok}
use aicode.Pseudosettle.{LastPayment, Service, Surroundings, handle}
use aicode.Pseudosettle.Received.{debt_of}
use aicode.Pseudosettle.Received.History.{total, time, Slow, Steady, handle_all, handle_all_bound}
use aicode.Pseudosettle.Sent.{Exchange, PaymentAck, attempt, pay}
use aicode.Pseudosettle.Sent.Honest.{Counted}
use aicode.Pseudosettle.Sent.Agreement.{Answered, refreshment_agrees}

abbrev context : Context
context = record {
  config = new_accounting (pos 10000) (pos 10) (pos 50) (pos 100) (pos 10) true;
  now = pos 20000;
  get_fails = λ k. false;
  put_fails = λ k. false;
}

abbrev node : Option LastPayment → Option LastPayment → ℤ → Service
node received sent balance = record {
  full_node = some true;
  received = received;
  sent = sent;
  account = record (connect true context (new_account context.config)).1 {
    stored_balance = some balance;
  };
}

abbrev at_ten : LastPayment
at_ten = record { timestamp = pos 10; check_timestamp = pos 10; total = pos 40 }

-- The peer owes us 900; 40 were forgiven at second 10.
abbrev creditor : Service
creditor = node (some at_ten) none (pos 900)

abbrev surroundings : ℤ → Surroundings
surroundings now = record {
  rates = record { refresh_rate = pos 100; light_refresh_rate = pos 10 };
  context = context;
  now = now;
  request = ok 800;
  get_fails = false;
  write_fails = false;
  get_again_fails = false;
  put_fails = false;
}

abbrev calls : List Surroundings
calls = surroundings (pos 15) ∷ surroundings (pos 15) ∷ surroundings (pos 17) ∷ []

-- 500 are forgiven after five seconds, and then the rest of the debt.
forgives_by_time : total (handle_all calls creditor) ≡ pos 740
unfolding handle aicode.Accounting.Balances.peer_debt notify_refreshment_received
    aicode.Accounting.Payments.count_repaid connect new_accounting ◌*ℤ◌ ◌+ℤ◌ new_account ◌-ℤ◌
forgives_by_time = refl

slow : Slow 100 (surroundings (pos 15)).rates
slow = record {
  full = 100;
  light = 10;
  is_full = refl;
  is_light = refl;
  full_most = ground arith;
  light_most = ground arith;
}

steady : Steady 100 calls creditor
unfolding handle aicode.Accounting.Balances.peer_debt notify_refreshment_received
    aicode.Accounting.Payments.count_repaid connect new_accounting ◌*ℤ◌ ◌+ℤ◌ new_account ◌-ℤ◌
steady = (ground arith, slow, (ground arith, slow, (ground arith, slow, tt)))

handle_all_bound_example :
    let t = handle_all calls creditor in
    (total creditor ≤ℤ total t)
    × (total t ≤ℤ total creditor +ℤ (time t -ℤ time creditor) *ℤ pos 100)
handle_all_bound_example = handle_all_bound 100 calls creditor steady

-- The other side: we owe 900, and ask for 500 at second 15.
abbrev debtor : Service
debtor = node none (some at_ten) (negsuc 899)

abbrev answer : PaymentAck
answer = record { amount = 500; timestamp = pos 15 }

abbrev exchange : Exchange
exchange = record {
  answer = ok answer;
  check_time = pos 15400;
  get_fails = false;
  put_fails = false;
}

-- What the creditor is left with after the call at second 15.
abbrev creditor_after : Service
creditor_after = (handle (surroundings (pos 15)) creditor).1

answered : Answered (surroundings (pos 15)) creditor creditor_after answer
unfolding handle aicode.Accounting.Balances.peer_debt notify_refreshment_received
    aicode.Accounting.Payments.count_repaid connect new_accounting ◌*ℤ◌ ◌+ℤ◌ new_account ◌-ℤ◌
answered = record { ran = refl; amount = refl; stamp = refl }

counted : Counted context exchange (pos 800) debtor (pay exchange context (pos 800) debtor) answer
unfolding handle aicode.Accounting.Balances.peer_debt notify_refreshment_received
    aicode.Accounting.Payments.count_repaid connect new_accounting ◌*ℤ◌ ◌+ℤ◌ new_account ◌-ℤ◌ pay
    attempt quo_ℤ notify_refreshment_sent aicode.Accounting.Refreshments.accept_refreshment
    aicode.Accounting.Refreshments.expected_allowance aicode.Accounting.Blocking.blocklist
    aicode.Accounting.Balances.store_put aicode.Accounting.Balances.store_get
    aicode.Accounting.Balances.balance aicode.Accounting.Balances.decrease_originated_balance_to
counted = record {
  in_sync = record {
    answered = refl;
    within_asked = ground arith;
    onward = ground arith;
    recent = refl;
    even_paced = refl;
  };
  stored = refl;
  peer = refl;
  booked = inr (ground arith, refl, refl);
}

rate_same : (surroundings (pos 15)).rates.refresh_rate ≡ context.refresh_rate
unfolding new_accounting
rate_same = refl

owed_enough : pos 800 -ℤ debtor.account.refresh_reserved_balance ≤ℤ debt_of creditor.account
unfolding handle aicode.Accounting.Balances.peer_debt notify_refreshment_received
    aicode.Accounting.Payments.count_repaid connect new_accounting ◌*ℤ◌ ◌+ℤ◌ new_account ◌-ℤ◌
owed_enough = ground arith

refreshment_agrees_example :
    let t = pay exchange context (pos 800) debtor in
    (t.account.effects ≡ debtor.account.effects)
    × (get_or_zero t.account.stored_balance +ℤ get_or_zero creditor_after.account.stored_balance
        ≡ get_or_zero debtor.account.stored_balance +ℤ get_or_zero creditor.account.stored_balance)
refreshment_agrees_example =
    refreshment_agrees exchange context 800 debtor (surroundings (pos 15)) creditor creditor_after
      answer counted answered refl refl rate_same refl owed_enough
