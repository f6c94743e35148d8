-- ===== src/Cheques/Received.antt =====
-- pkg/settlement/swap/chequebook/chequestore.go: the cheques that are received, of which the last of each
-- chequebook is stored. The contract, the factory and the recovery of the issuer are parameters.
pub mod Payouts
pub mod Earned
pub mod Replay
use aicode.Prelude.{ℕ, Bool, not, ◌==◌, Option, none, some}
use aicode.Prelude.Int.{ℤ, pos, ◌-ℤ◌, ltb_ℤ, leb_ℤ}
use aicode.Effects.{Result, ok, err, M, ◌>>=◌, ◌>>◌, pure, fail, fail_if, lift, get, modify}
use aicode.Cheques.{
  SignedCheque, Error, wrong_beneficiary, cheque_not_increasing, cheque_value_too_low,
  cheque_invalid, bouncing_cheque, store_failure, put,
}

-- What the store asks of the chain and of the cryptography, for one call.
pub record Chain : Type 0 where
  pub verify_chequebook : ℕ → Result Error (Unit {0})
  pub issuer : ℕ → Result Error ℕ
  pub balance : ℕ → Result Error ℤ
  pub paid_out : ℕ → ℕ → Result Error ℤ
  pub recover : SignedCheque → Result Error ℕ
  pub get_fails : ℕ → Bool
  pub put_fails : ℕ → Bool

-- The last cheque of each chequebook.
abbrev pub ChequeStore : Type 0
ChequeStore = ℕ → Option SignedCheque

abbrev store_get : Chain → ℕ → M ChequeStore Error (Option SignedCheque)
store_get c i = fail_if (c.get_fails i) store_failure >> (get >>= λ s. pure (s i))

-- The first cheque of a chequebook has the factory verify it.
abbrev payout_of : Chain → ℕ → Option SignedCheque → M ChequeStore Error ℤ
payout_of c i none = lift (c.verify_chequebook i) >> pure (pos 0)
payout_of c i (some last) = pure last.cheque.cumulative_payout

unfoldable pub last_payout : Chain → ℕ → M ChequeStore Error ℤ
last_payout c i = store_get c i >>= payout_of c i

-- The calls of the contract at the end of `ReceiveCheque`.
unfoldable pub check_contract : Chain → ℕ → SignedCheque → M ChequeStore Error (Unit {0})
check_contract c beneficiary signed = do
  expected ← lift (c.issuer signed.cheque.chequebook)
  issuer ← lift (c.recover signed)
  fail_if (not (issuer == expected)) cheque_invalid
  balance ← lift (c.balance signed.cheque.chequebook)
  already ← lift (c.paid_out signed.cheque.chequebook beneficiary)
  fail_if (ltb_ℤ balance (signed.cheque.cumulative_payout -ℤ already)) bouncing_cheque

unfoldable pub store_cheque : Chain → SignedCheque → M ChequeStore Error (Unit {0})
store_cheque c signed = do
  fail_if (c.put_fails signed.cheque.chequebook) store_failure
  modify (put signed.cheque.chequebook signed)

-- `ReceiveCheque` of the store with a beneficiary: the amount that the cheque adds.
unfoldable pub receive_cheque : ℕ → Chain → SignedCheque → ℤ → ℤ → M ChequeStore Error ℤ
receive_cheque beneficiary c signed exchange_rate deduction = do
  fail_if (not (signed.cheque.beneficiary == beneficiary)) wrong_beneficiary
  last ← last_payout c signed.cheque.chequebook
  let amount = signed.cheque.cumulative_payout -ℤ last
  fail_if (leb_ℤ amount (pos 0)) cheque_not_increasing
  fail_if (ltb_ℤ (amount -ℤ deduction) exchange_rate) cheque_value_too_low
  check_contract c beneficiary signed
  store_cheque c signed
  pure amount
