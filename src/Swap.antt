-- ===== src/Swap.antt =====
-- pkg/settlement/swap/swap.go: settlement by cheques, over the address book, the chequebook, the store of
-- received cheques and the accounting of the peer. Peers and Ethereum addresses are numbers. The state is
-- that of a call for one peer, whose account it has; calls for one peer are taken one after another.
pub mod Addressbook
pub mod Protocol
pub mod Booking
mod Examples
use aicode.Prelude.{ℕ, Bool, true, false, not, ◌==◌, Option, none, some, if◌then◌else◌}
use aicode.Prelude.Int.{ℤ, pos, ◌-ℤ◌, div_ℤ, ltb_ℤ}
use aicode.Accounting
use aicode.Accounting.{Context, Account}
use aicode.Accounting.Payments.{notify_payment_received}
use aicode.Effects.{Result, ok, err, M, ◌>>=◌, ◌>>◌, pure, fail_if}
use aicode.Cheques
use aicode.Cheques.{SignedCheque}
use aicode.Cheques.Issued.{Chequebook}
use aicode.Cheques.Received.{Chain, ChequeStore, receive_cheque}
use aicode.Swap.Addressbook
use aicode.Swap.Addressbook.{Faults, Book, chequebook, put_chequebook, add_deduction_for}

pub data Error : Type 0 where
  wrong_chequebook no_chequebook unknown_beneficiary stream_failure no_exchange_header : Error
  have_deduction negotiate_rate negotiate_deduction oracle_failure : Error
  book_failure : Addressbook.Error → Error
  cheque_failure : Cheques.Error → Error
  unbooked : Accounting.Error → Error

pub record Service : Type 0 where
  pub book : Book
  pub cheques : ChequeStore
  pub issued : Chequebook
  pub account : Account

abbrev with_book :
    {A : Type 0} → Service → Result Addressbook.Error A × Book → Result Error A × Service
with_book s (ok a, b) = (ok a, record s { book = b })
with_book s (err e, b) = (err (book_failure e), record s { book = b })

abbrev pub on_book : {A : Type 0} → M Book Addressbook.Error A → M Service Error A
on_book m s = with_book s (m s.book)

abbrev with_cheques :
    {A : Type 0} → Service → Result Cheques.Error A × ChequeStore → Result Error A × Service
with_cheques s (ok a, b) = (ok a, record s { cheques = b })
with_cheques s (err e, b) = (err (cheque_failure e), record s { cheques = b })

abbrev pub on_cheques : {A : Type 0} → M ChequeStore Cheques.Error A → M Service Error A
on_cheques m s = with_cheques s (m s.cheques)

abbrev with_issued :
    {A : Type 0} → Service → Result Cheques.Error A × Chequebook → Result Error A × Service
with_issued s (ok a, b) = (ok a, record s { issued = b })
with_issued s (err e, b) = (err (cheque_failure e), record s { issued = b })

abbrev pub on_issued : {A : Type 0} → M Chequebook Cheques.Error A → M Service Error A
on_issued m s = with_issued s (m s.issued)

abbrev with_account :
    {A : Type 0} → Service → Accounting.Result A × Account → Result Error A × Service
with_account s (Accounting.ok a, b) = (ok a, record s { account = b })
with_account s (Accounting.err e, b) = (err (unbooked e), record s { account = b })

abbrev pub on_account : {A : Type 0} → Context → Accounting.M A → M Service Error A
on_account c m s = with_account s (m c s.account)

abbrev differs : ℕ → Option ℕ → Bool
differs a none = false
differs a (some known) = not (known == a)

abbrev deduct : Faults → ℕ → ℤ → M Service Error (Unit {0})
deduct f peer deduction s =
    (if ltb_ℤ (pos 0) deduction then on_book (add_deduction_for f peer) else pure tt) s

abbrev remember : Faults → ℕ → ℕ → Option ℕ → M Service Error (Unit {0})
remember f peer a none = on_book (put_chequebook f peer a)
remember f peer a (some known) = pure tt

-- What an amount received is worth in accounting credits.
unfoldable pub credits : ℤ → ℤ → ℤ → ℤ
credits received exchange_rate deduction = div_ℤ (received -ℤ deduction) exchange_rate

-- `ReceiveCheque`, of a node with the beneficiary `us`.
unfoldable pub receive :
    Faults → Chain → Context → ℕ → ℕ → SignedCheque → ℤ → ℤ → M Service Error (Unit {0})
receive f chain context us peer signed exchange_rate deduction = do
  known ← on_book (chequebook f peer)
  fail_if (differs signed.cheque.chequebook known) wrong_chequebook
  received ← on_cheques (receive_cheque us chain signed exchange_rate deduction)
  deduct f peer deduction
  remember f peer signed.cheque.chequebook known
  on_account context (notify_payment_received (credits received exchange_rate deduction))
