-- ===== src/Postage.antt =====
-- pkg/postage: postage batches, the stamps that are issued from them, and the store of batches.
pub mod Stamp
pub mod Issuer
pub mod Stamper
mod Examples
use aicode.Prelude.{◌≡◌, refl, ◌⊎◌, inl, inr}

pub data Error : Type 0 where
  invalid_batch_id invalid_batch_index invalid_batch_timestamp invalid_batch_signature : Error
  stamp_invalid bucket_mismatch invalid_index owner_mismatch : Error
  bucket_full index_out_of_range store_failure signer_failure : Error

pub data Result (A : Type 0) : Type 0 where
  ok : A → Result A
  err : Error → Result A

pub Result-cases :
    {A : Type 0} (r : Result A) → ((a : A) × (r ≡ ok a)) ⊎ ((e : Error) × (r ≡ err e))
Result-cases (ok a) = inl (a, refl)
Result-cases (err e) = inr (e, refl)

infixl 5 ◌>>=◌ ◌>>◌
abbrev pub ◌>>=◌ : {A B : Type 0} → Result A → (A → Result B) → Result B
ok a >>= f = f a
err e >>= f = err e

abbrev pub ◌>>◌ : {A B : Type 0} → Result A → Result B → Result B
m >> k = m >>= λ _. k
