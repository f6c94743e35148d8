-- ===== src/Encryption/Examples.antt =====
-- A short hash that stands for the real one, and the theorems with it.
use aicode.Prelude.{
  ℕ, ◌+◌, ◌%◌, ◌≤◌, ◌≡◌, refl, sym, subst, [], ◌∷◌, ◌++◌, length, take, drop, replicate,
  length-replicate, arith,
}
use aicode.Bytes.{Bytes}
use aicode.Effects.{ok, err}
use aicode.Swarm.{xor_bits, xor_all}
use aicode.Encryption.{
  Encryption, data_too_long, endless, new_encryption, transcrypt, transform, transform_loop,
  encrypt, encrypt_chunk, decrypt_chunk,
}
use aicode.Encryption.Chunks.{decrypt_chunk-encrypt_chunk}
use aicode.Encryption.Reuse.{span_and_data_share_bytes}

abbrev sum : Bytes → ℕ
sum [] = 1
sum (b ∷ bs) = b + sum bs

abbrev toy_hash : Bytes → Bytes
toy_hash bs = sum bs % 256 ∷ replicate 31 (length bs % 256)

abbrev toy_random : ℕ → Bytes
toy_random n = replicate n 5

abbrev short_key : Bytes
short_key = 1 ∷ 2 ∷ []

abbrev padded : Encryption
padded = record { key = short_key; key_len = 2; padding = 5; index = 0; init_ctr = 0 }

-- Two segments, of which the second is half empty, and the padding.
scrambled :
    (encrypt toy_hash toy_random (9 ∷ 8 ∷ 7 ∷ []) padded).0 ≡ ok (182 ∷ 40 ∷ 199 ∷ 5 ∷ 5 ∷ [])
unfolding encrypt transform transform_loop transcrypt xor_bits
scrambled = refl

too_long : (encrypt toy_hash toy_random (1 ∷ 2 ∷ 3 ∷ 4 ∷ 5 ∷ 6 ∷ []) padded).0 ≡ err data_too_long
unfolding encrypt
too_long = refl

-- An empty key does not encrypt anything.
no_key : (encrypt toy_hash toy_random (1 ∷ []) (new_encryption [] 0 0)).0 ≡ err endless
unfolding encrypt new_encryption transform transform_loop transcrypt
no_key = refl

abbrev small_chunk : Bytes
small_chunk = 2 ∷ 0 ∷ 0 ∷ 0 ∷ 0 ∷ 0 ∷ 0 ∷ 0 ∷ 77 ∷ 78 ∷ []

decrypt_chunk-encrypt_chunk_example :
    (span : Bytes) × (input : Bytes) × (encrypt_chunk toy_hash toy_random short_key small_chunk
      ≡ ok (span, input))
    × (length input ≡ 4096)
    × ((out : Bytes) × (decrypt_chunk toy_hash toy_random short_key (span ++ input)
          ≡ ok (take 8 small_chunk, out))
        × (take 2 out ≡ drop 8 small_chunk))
decrypt_chunk-encrypt_chunk_example =
    decrypt_chunk-encrypt_chunk toy_hash toy_random toy_random short_key small_chunk (omega arith)
      (λ bs. omega arith) (λ n. length-replicate n 5) (λ n. length-replicate n 5)
      (
        omega arith,
        (
          omega arith,
          (
            omega arith,
            (
              omega arith,
              (
                omega arith,
                (omega arith, (omega arith, (omega arith, (omega arith, (omega arith, tt))))),
              ),
            ),
          ),
        ),
      )
      (omega arith) (omega arith)

abbrev long_chunk : Bytes
long_chunk = replicate 2072 3

span_and_data_share_bytes_example :
    (span : Bytes) × (input : Bytes) × (encrypt_chunk toy_hash toy_random
        (replicate 32 1)
        long_chunk
      ≡ ok (span, input))
    × (xor_all span (take 8 (drop 2048 input))
        ≡ xor_all (take 8 long_chunk) (take 8 (drop 2048 (drop 8 long_chunk))))
span_and_data_share_bytes_example =
    span_and_data_share_bytes toy_hash toy_random (replicate 32 1) long_chunk refl
      (λ bs. omega arith) (λ n. length-replicate n 5)
      (subst (λ n. 2064 ≤ n) (sym (length-replicate {A = ℕ} 2072 3)) (omega arith))
      (subst (λ n. n ≤ 4104) (sym (length-replicate {A = ℕ} 2072 3)) (omega arith))
