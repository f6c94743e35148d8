-- ===== src/Swap/Examples.antt =====
-- The theorems on the settlement service at a concrete peer.
use aicode.Prelude.{ℕ, ◌≡◌, refl, ◌+◌, true, false, none, some, [], ◌∷◌, ◌==◌, if◌then◌else◌, arith}
use aicode.Prelude.Int.{pos, ◌+ℤ◌, ◌-ℤ◌, ◌*ℤ◌, div_ℤ}
use aicode.Accounting
use aicode.Accounting.{Config, Context, Account}
use aicode.Accounting.Debit.Conservation.{net}
use aicode.Accounting.Payments.{notify_payment_received, notify_payment_sent}
use aicode.Accounting.Peers.{new_accounting, new_account, connect}
use aicode.Accounting.Settle.Pay.{Paid}
use aicode.Effects.{Result, ok}
use aicode.Cheques.{SignedCheque}
use aicode.Cheques.Received.{Chain, receive_cheque, last_payout, check_contract, store_cheque}
use aicode.Cheques.Issued.{Surroundings, Chequebook}
use aicode.Cheques.Issued.Funds.{next_cheque}
use aicode.Swap.{Error, Service, credits, receive}
use aicode.Swap.Addressbook.{
  Faults, Book, set_key, handshake, chequebook, put_chequebook, add_deduction_for,
}
use aicode.Swap.Addressbook.Migration.{
  Works, Inv, Settled, Chequebooks, Deductions, handshake-Settled,
}
use aicode.Swap.Booking.{sent-received}
use aicode.Swap.Protocol.{Offer, Rates, sent_amount, pay}
use aicode.Swap.Protocol.Payment.{pay_ends}

abbrev no_faults : Faults
no_faults = record { get_fails = λ k. false; put_fails = λ k. false; delete_fails = λ k. false }

no_faults-Works : Works no_faults
no_faults-Works = record { gets = λ k. refl; puts = λ k. refl; deletes = λ k. refl }

-- Peer 3 has the beneficiary 12.
abbrev book : Book
book = record {
  beneficiary_of = set_key 3 (some 12) (λ p. none);
  peer_of_beneficiary = set_key 12 (some 3) (λ a. none);
  chequebook_of = λ p. none;
  peer_of_chequebook = λ a. none;
  is_deducted_for = λ p. false;
  is_deducted_by = λ p. false;
}

-- Peers 3 and 4 are the same owner's.
abbrev owner : ℕ → ℕ
owner p = if p == 3 then 12 else (if p == 4 then 12 else p + 100)

book-Inv : Inv owner book
book-Inv = record { forward = λ p a e. ground arith; backward = λ a p e. ground arith }

handshake-Settled_example :
    (t : Book) × (handshake no_faults 4 12 book ≡ (ok tt, t))
    × Settled owner 4 book t
    × Chequebooks 12 4 book t
    × Deductions book t
handshake-Settled_example = handshake-Settled owner no_faults 4 book no_faults-Works book-Inv

abbrev context : Context
context = record {
  config = new_accounting (pos 10000) (pos 10) (pos 50) (pos 1000) (pos 10) true;
  now = pos 5000000;
  get_fails = λ k. false;
  put_fails = λ k. false;
}

-- The peer owes 400.
abbrev owing : Account
owing = record (connect true context (new_account context.config)).1 {
  stored_balance = some (pos 400);
}

abbrev chain : Chain
chain = record {
  verify_chequebook = λ i. ok tt;
  issuer = λ i. ok 9;
  balance = λ i. ok (pos 100000);
  paid_out = λ i b. ok (pos 0);
  recover = λ signed. ok 9;
  get_fails = λ i. false;
  put_fails = λ i. false;
}

-- The peer's chequebook, at 5.
abbrev sender : Chequebook
sender = record {
  address = 5;
  last_issued = λ i. none;
  total_issued = none;
  total_issued_reserved = pos 0;
}

-- For 300 credits, at a rate of 20 and with a deduction of 7.
abbrev signed : SignedCheque
signed = record {
  cheque = record { chequebook = 5; beneficiary = 7; cumulative_payout = pos 6007 };
  signature = 1 ∷ [];
}

abbrev service : Service
service = record { book = book; cheques = λ i. none; issued = sender; account = owing }

abbrev after_receipt : Service
after_receipt = (receive no_faults chain context 7 3 signed (pos 20) (pos 7) service).1

received_run :
    receive no_faults chain context 7 3 signed (pos 20) (pos 7) service ≡ (ok tt, after_receipt)
unfolding receive chequebook receive_cheque last_payout ◌-ℤ◌ check_contract store_cheque
    add_deduction_for put_chequebook notify_payment_received aicode.Accounting.Payments.count_repaid
    connect new_accounting ◌*ℤ◌ ◌+ℤ◌ new_account credits div_ℤ aicode.Accounting.Balances.balance
    aicode.Accounting.Balances.percent_of aicode.Accounting.Balances.store_get
    aicode.Accounting.Balances.store_put aicode.Accounting.Balances.surplus_balance
    aicode.Accounting.Payments.add_surplus aicode.Accounting.Payments.next_checkpoint
    aicode.Accounting.Payments.notify_payment_threshold_upgrade
    aicode.Accounting.Peers.new_accounting_peer
received_run = refl

made_out : signed.cheque ≡ next_cheque sender 7 (sent_amount (pos 300) 20 7)
unfolding sent_amount ◌+ℤ◌ ◌*ℤ◌
made_out = refl

sent-received_example : net after_receipt.account ≡ net service.account -ℤ pos 300
sent-received_example =
    sent-received no_faults chain context 7 3 300 20 7 sender signed service after_receipt
      (ground arith) made_out refl received_run

abbrev surroundings : Surroundings
surroundings = record {
  balance = ok (pos 100);
  total_paid_out = ok (pos 0);
  sign = λ cheque. ok (1 ∷ []);
  send = λ signed. ok tt;
  get_last_fails = false;
  get_total_fails = false;
  get_total_again_fails = false;
  put_last_fails = false;
  put_total_fails = false;
}

abbrev offer : Offer
offer = record { stream_fails = false; exchange_rate = some 20; deduction = none }

abbrev rates : Result Error Rates
rates = ok (record { exchange_rate = 20; deduction = 0 })

-- A payment of 300 is under way, for which the chequebook has too little.
abbrev paying : Service
paying = record service {
  account = record owing {
    peer = record owing.peer {
      payment_ongoing = true;
      shadow_reserved_balance = owing.shadow_reserved_balance +ℤ pos 300;
    };
    wg = owing.wg +ℤ pos 1;
    effects = Accounting.pay_call (pos 300) ∷ [];
  };
}

paying-Paid : Paid (pos 300) owing paying.account
paying-Paid = record { ongoing = refl; shadow = refl; count = refl; called = ([], refl) }

pay_ends_example :
    let u = (pay true no_faults offer rates surroundings context 3 (pos 300) paying).account in
    (u.shadow_reserved_balance ≡ owing.shadow_reserved_balance)
    × (u.payment_ongoing ≡ false)
    × (u.wg ≡ owing.wg)
pay_ends_example =
    pay_ends true no_faults offer rates surroundings context 3 (pos 300) owing paying paying-Paid
