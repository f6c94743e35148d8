-- ===== src/Cheques/Issued.antt =====
-- pkg/settlement/swap/chequebook/chequebook.go: the cheques that the node issues from its chequebook.
pub mod Funds
pub mod Overlap
use aicode.Prelude.{ℕ, Bool, Option, none, some}
use aicode.Prelude.Int.{ℤ, pos, ◌+ℤ◌, ◌-ℤ◌, ltb_ℤ}
use aicode.Bytes.{Bytes}
use aicode.Effects.{Result, ok, err, M, ◌>>=◌, ◌>>◌, pure, fail, fail_if, lift, get, modify}
use aicode.Cheques.{Cheque, SignedCheque, Error, out_of_funds, store_failure, put}

-- What one call finds: the contract, the signer, the peer that the cheque is sent to, and the accesses to
-- the state store that fail. The total is read twice.
pub record Surroundings : Type 0 where
  pub balance : Result Error ℤ
  pub total_paid_out : Result Error ℤ
  pub sign : Cheque → Result Error Bytes
  pub send : SignedCheque → Result Error (Unit {0})
  pub get_last_fails : Bool
  pub get_total_fails : Bool
  pub get_total_again_fails : Bool
  pub put_last_fails : Bool
  pub put_total_fails : Bool

pub record Chequebook : Type 0 where
  pub address : ℕ
  pub last_issued : ℕ → Option Cheque
  pub total_issued : Option ℤ
  pub total_issued_reserved : ℤ

abbrev pub or_zero : Option ℤ → ℤ
or_zero none = pos 0
or_zero (some n) = n

abbrev pub payout : Option Cheque → ℤ
payout none = pos 0
payout (some cheque) = cheque.cumulative_payout

abbrev read_total : Bool → M Chequebook Error ℤ
read_total fails = fail_if fails store_failure >> (get >>= λ s. pure (or_zero s.total_issued))

unfoldable pub available_balance : Surroundings → M Chequebook Error ℤ
available_balance c = do
  total ← read_total c.get_total_fails
  balance ← lift c.balance
  paid ← lift c.total_paid_out
  pure (balance +ℤ paid -ℤ total)

unfoldable pub reserve_total_issued : Surroundings → ℤ → M Chequebook Error ℤ
unfolding available_balance
reserve_total_issued c amount = do
  available ← available_balance c
  s ← get
  fail_if (ltb_ℤ (available -ℤ s.total_issued_reserved) amount) out_of_funds
  modify (λ s. record s { total_issued_reserved = s.total_issued_reserved +ℤ amount })
  pure (available -ℤ amount)

-- `Issue` while the amount is reserved, in three parts between which other calls may run: the cheque is made out from
-- the last one, it is signed, sent and stored, and then the total is updated, which is locked.
abbrev pub make_cheque : Surroundings → ℕ → ℤ → M Chequebook Error Cheque
make_cheque c beneficiary amount = do
  fail_if c.get_last_fails store_failure
  s ← get
  pure (record {
    chequebook = s.address;
    beneficiary = beneficiary;
    cumulative_payout = payout (s.last_issued beneficiary) +ℤ amount;
  })

abbrev pub deliver_cheque : Surroundings → ℕ → Cheque → M Chequebook Error (Unit {0})
deliver_cheque c beneficiary cheque = do
  sig ← lift (c.sign cheque)
  lift (c.send (record { cheque = cheque; signature = sig }))
  fail_if c.put_last_fails store_failure
  modify (λ s. record s { last_issued = put beneficiary cheque s.last_issued })

abbrev pub count_issued : Surroundings → ℤ → M Chequebook Error (Unit {0})
count_issued c amount = do
  total ← read_total c.get_total_again_fails
  fail_if c.put_total_fails store_failure
  modify (λ s. record s { total_issued = some (total +ℤ amount) })

unfoldable pub issue_reserved : Surroundings → ℕ → ℤ → ℤ → M Chequebook Error ℤ
issue_reserved c beneficiary amount available = do
  cheque ← make_cheque c beneficiary amount
  deliver_cheque c beneficiary cheque
  count_issued c amount
  pure available

-- `unreserveTotalIssued`, deferred, runs after success and failure alike.
abbrev pub release_reserved : ℤ → Chequebook → Chequebook
release_reserved amount s = record s { total_issued_reserved = s.total_issued_reserved -ℤ amount }

abbrev unreserve : ℤ → Result Error ℤ × Chequebook → Result Error ℤ × Chequebook
unreserve amount (r, s) = (r, release_reserved amount s)

-- `Issue`, of a call that runs alone. Calls that overlap are in Overlap.
unfoldable pub issue : Surroundings → ℕ → ℤ → M Chequebook Error ℤ
issue c beneficiary amount = reserve_total_issued c amount >>= λ available s.
    unreserve amount (issue_reserved c beneficiary amount available s)
