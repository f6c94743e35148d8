-- ===== src/Cheques.antt =====
-- pkg/settlement/swap: cheques, which promise a payment out of a chequebook contract. An Ethereum address
-- is a number, and a payout is a Go big integer.
pub mod Received
pub mod Issued
mod Examples
use aicode.Prelude.{ℕ, Bool, ◌==◌, if◌then◌else◌, Option, none, some, ◌&&◌}
use aicode.Prelude.Int.{ℤ}
use aicode.Bytes.{Bytes}

pub record Cheque : Type 0 where
  pub chequebook : ℕ
  pub beneficiary : ℕ
  pub cumulative_payout : ℤ

pub record SignedCheque : Type 0 where
  pub cheque : Cheque
  pub signature : Bytes

pub data Error : Type 0 where
  wrong_beneficiary cheque_not_increasing cheque_value_too_low cheque_invalid bouncing_cheque :
      Error
  out_of_funds store_failure chain_failure signer_failure send_failure : Error

-- The keys of the cheques of one address in the state store.
abbrev pub put : {A : Type 0} → ℕ → A → (ℕ → Option A) → ℕ → Option A
put k a f i = if k == i then some a else f i
