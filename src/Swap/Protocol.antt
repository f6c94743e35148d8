-- ===== src/Swap/Protocol.antt =====
-- `EmitCheque` of pkg/settlement/swap/swapprotocol/swapprotocol.go, which agrees on the rates with the peer
-- and issues a cheque, and `Pay` of swap.go, which reports how it ended. The stream's answer is an argument.
pub mod Payment
use aicode.Prelude.{ℕ, Bool, true, false, not, ◌==◌, ◌&&◌, Option, none, some, if◌then◌else◌}
use aicode.Prelude.Int.{ℤ, pos, ◌+ℤ◌, ◌*ℤ◌}
use aicode.Accounting.{Context, Account}
use aicode.Accounting.Payments.{notify_payment_sent}
use aicode.Effects.{Result, ok, err, M, ◌>>=◌, ◌>>◌, pure, fail, fail_if, lift}
use aicode.Cheques.Issued.{Surroundings, issue}
use aicode.Swap.{
  Error, no_chequebook, unknown_beneficiary, stream_failure, no_exchange_header, have_deduction,
  negotiate_rate, negotiate_deduction, Service, on_book, on_issued,
}
use aicode.Swap.Addressbook.{Faults, beneficiary, get_deduction_by, add_deduction_by}

-- The headers that the peer answers with: byte strings, read as numbers.
pub record Offer : Type 0 where
  pub stream_fails : Bool
  pub exchange_rate : Option ℕ
  pub deduction : Option ℕ

pub record Rates : Type 0 where
  pub exchange_rate : ℕ
  pub deduction : ℕ

abbrev required : Option ℕ → M Service Error ℕ
required none = fail no_exchange_header
required (some n) = pure n

abbrev or_zero : Option ℕ → ℕ
or_zero none = 0
or_zero (some n) = n

unfoldable pub sent_amount : ℤ → ℕ → ℕ → ℤ
sent_amount amount exchange_rate deduction = amount *ℤ pos exchange_rate +ℤ pos deduction

abbrev mark_deducted : Faults → ℕ → ℕ → M Service Error (Unit {0})
mark_deducted f peer deduction s =
    (if deduction == 0 then pure tt else on_book (add_deduction_by f peer)) s

-- The checks of the peer's offer against the oracle's rates: the rate and the deduction that are agreed.
unfoldable pub negotiate : Faults → Offer → Result Error Rates → ℕ → M Service Error Rates
negotiate f offer oracle peer = do
  fail_if offer.stream_fails stream_failure
  exchange_rate ← required offer.exchange_rate
  let deduction = or_zero offer.deduction
  deducted ← on_book (get_deduction_by f peer)
  fail_if (deducted && not (deduction == 0)) have_deduction
  known ← lift oracle
  fail_if (not (exchange_rate == known.exchange_rate)) negotiate_rate
  fail_if (not (deduction == known.deduction) && not (deduction == 0)) negotiate_deduction
  pure (record { exchange_rate = exchange_rate; deduction = deduction })

unfoldable pub emit_cheque :
    Faults → Offer → Result Error Rates → Surroundings → ℕ → ℕ → ℤ → M Service Error ℤ
emit_cheque f offer oracle surroundings peer a amount = do
  rates ← negotiate f offer oracle peer
  balance ←
      on_issued (issue surroundings a (sent_amount amount rates.exchange_rate rates.deduction))
  mark_deducted f peer rates.deduction
  pure balance

abbrev emit_to :
    Faults → Offer → Result Error Rates → Surroundings → ℕ → ℤ → Option ℕ → M Service Error ℤ
emit_to f offer oracle surroundings peer amount none = fail unknown_beneficiary
emit_to f offer oracle surroundings peer amount (some a) =
    emit_cheque f offer oracle surroundings peer a amount

-- `Pay` up to its report.
unfoldable pub attempt :
    Bool → Faults → Offer → Result Error Rates → Surroundings → ℕ → ℤ → M Service Error ℤ
attempt has_chequebook f offer oracle surroundings peer amount = do
  fail_if (not has_chequebook) no_chequebook
  a ← on_book (beneficiary f peer)
  emit_to f offer oracle surroundings peer amount a

abbrev pub failed : {E A : Type 0} → Result E A → Bool
failed (ok a) = false
failed (err e) = true

abbrev report : Context → ℤ → Result Error ℤ × Service → Service
report context amount (r, s) = record s {
  account = (notify_payment_sent amount (failed r) context s.account).1;
}

-- `Pay` reports the end of the payment, in success or failure.
unfoldable pub pay :
    Bool → Faults → Offer → Result Error Rates → Surroundings → Context → ℕ → ℤ → Service → Service
pay has_chequebook f offer oracle surroundings context peer amount s =
    report context amount (attempt has_chequebook f offer oracle surroundings peer amount s)
