-- ===== src/Encryption.antt =====
-- pkg/encryption/encryption.go and chunk_encryption.go, with `decrypt` of store/decrypt_store.go: the exclusive or of
-- data with a stream of hashes of the key. The hash and the randomness are parameters.
pub mod Stream
pub mod Decryption
pub mod Chunks
pub mod Reuse
mod Examples
use aicode.Prelude.{
  ℕ, zero, suc, ◌+◌, ◌-◌, ◌/◌, ◌%◌, ◌^◌, ◌++◌, Bool, true, false, not, ◌&&◌, ltb, ◌==◌,
  if◌then◌else◌, List, [], ◌∷◌, length, take, drop,
}
use aicode.Bytes.{Bytes}
use aicode.Effects.{Result, ok, err, M, ◌>>=◌, ◌>>◌, pure, fail_if, get, modify}
use aicode.Swarm.{xor_all}

-- The loop of a key without bytes does not end, and a hash that is shorter than a segment is read out of range.
pub data Error : Type 0 where
  data_too_long wrong_length out_of_range endless : Error

pub record Encryption : Type 0 where
  pub key : Bytes
  pub key_len : ℕ
  pub padding : ℕ
  pub index : ℕ
  pub init_ctr : ℕ

unfoldable pub new_encryption : Bytes → ℕ → ℕ → Encryption
new_encryption key padding init_ctr = record {
  key = key;
  key_len = length key;
  padding = padding;
  index = 0;
  init_ctr = init_ctr;
}

unfoldable pub reset : Encryption → Encryption
reset e = record e { index = 0 }

-- `binary.LittleEndian.PutUint32`.
abbrev pub little_endian_uint32 : ℕ → Bytes
little_endian_uint32 n = n % 256 ∷ n / 2 ^ 8 % 256 ∷ n / 2 ^ 16 % 256 ∷ n / 2 ^ 24 % 256 ∷ []

abbrev pub chunk_size : ℕ
chunk_size = 4096

abbrev pub reference_size : ℕ
reference_size = 64

unfoldable pub new_span_encryption : Bytes → Encryption
unfolding new_encryption
new_span_encryption key = new_encryption key 0 (chunk_size / reference_size % 2 ^ 32)

unfoldable pub new_data_encryption : Bytes → Encryption
unfolding new_encryption
new_data_encryption key = new_encryption key chunk_size 0

abbrev pub both : Result Error Bytes → Result Error Bytes → Result Error (Bytes × Bytes)
both (ok span) (ok input) = ok (span, input)
both (ok span) (err e) = err e
both (err e) r = err e

-- A hash takes all bytes that are written to it.
module _ (hash : Bytes → Bytes) where
  -- The hash of the key with a counter, hashed once more.
  abbrev pub segment_key : Bytes → ℕ → Bytes
  segment_key key counter = hash (hash (key ++ little_endian_uint32 counter))

  -- `Transcrypt`, where the output has the length of the input.
  unfoldable pub transcrypt : ℕ → Bytes → M Encryption Error Bytes
  transcrypt i segment e =
      let key = segment_key e.key ((i % 2 ^ 32 + e.init_ctr) % 2 ^ 32) in
      (if ltb (length key) (length segment) then err out_of_range else ok (xor_all segment key), e)

  -- The loop of `transform` over the segments.
  unfoldable pub transform_loop : ℕ → Bytes → M Encryption Error Bytes
  transform_loop n [] e = (ok [], e)
  transform_loop zero (x ∷ xs) e = (err endless, e)
  transform_loop (suc n) (x ∷ xs) e =
      (do
        segment ← transcrypt e.index (take e.key_len (x ∷ xs))
        modify (λ d. record d { index = suc d.index })
        rest ← transform_loop n (drop e.key_len (x ∷ xs))
        pure (segment ++ rest))
        e

  -- `transform`: the rest of a longer output is random.
  unfoldable pub transform : (ℕ → Bytes) → Bytes → ℕ → M Encryption Error Bytes
  transform random input out_length = do
    out ← transform_loop (length input) input
    pure (out ++ random (out_length - length input))

  unfoldable pub encrypt : (ℕ → Bytes) → Bytes → M Encryption Error Bytes
  encrypt random input = do
    e ← get
    fail_if (ltb 0 e.padding && ltb e.padding (length input)) data_too_long
    transform random input (if ltb 0 e.padding then e.padding else length input)

  unfoldable pub decrypt : (ℕ → Bytes) → Bytes → M Encryption Error Bytes
  decrypt random input = do
    e ← get
    fail_if (ltb 0 e.padding && not (length input == e.padding)) wrong_length
    transform random input (length input)

  -- `EncryptChunk`, with the key that was generated.
  unfoldable pub encrypt_chunk : (ℕ → Bytes) → Bytes → Bytes → Result Error (Bytes × Bytes)
  unfolding encrypt
  encrypt_chunk random key chunk =
      both (encrypt random (take 8 chunk) (new_span_encryption key)).0
        (encrypt random (drop 8 chunk) (new_data_encryption key)).0

  -- `decrypt` of the store.
  unfoldable pub decrypt_chunk : (ℕ → Bytes) → Bytes → Bytes → Result Error (Bytes × Bytes)
  unfolding decrypt
  decrypt_chunk random key chunk =
      both (decrypt random (take 8 chunk) (new_span_encryption key)).0
        (decrypt random (drop 8 chunk) (new_data_encryption key)).0
