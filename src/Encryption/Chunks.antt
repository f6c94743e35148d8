-- ===== src/Encryption/Chunks.antt =====
-- Chunks, whose span and data are encrypted apart.
use aicode.Prelude.{
  ℕ, zero, suc, ◌-◌, ◌≤◌, ◌<◌, ◌≡◌, sym, ap, ap₂, ◌∙◌, ◌++◌, [], ◌∷◌, length, take, drop,
  length-take, length-drop, take_all, take_append, drop_append, All, arith,
}
use aicode.Bytes.{Bytes, IsByte}
use aicode.Effects.{ok}
use aicode.Encryption.{
  Encryption, encrypt, decrypt, new_span_encryption, new_data_encryption, both, encrypt_chunk,
  decrypt_chunk,
}
use aicode.Encryption.Decryption.{decrypt-encrypt}

All-take : (n : ℕ) (xs : Bytes) → All IsByte xs → All IsByte (take n xs)
All-take zero xs h = tt
All-take (suc n) [] h = tt
All-take (suc n) (x ∷ xs) (b, h) = (b, All-take n xs h)

All-drop : (n : ℕ) (xs : Bytes) → All IsByte xs → All IsByte (drop n xs)
All-drop zero xs h = h
All-drop (suc n) [] h = tt
All-drop (suc n) (x ∷ xs) (b, h) = All-drop n xs h

-- What `decrypt-encrypt` says of one part.
abbrev Returns : (Bytes → Bytes) → (ℕ → Bytes) → (ℕ → Bytes) → Encryption → Bytes → ℕ → Type 0
Returns hash random other e xs n =
    (c : Bytes) × ((encrypt hash random xs e).0 ≡ ok c)
    × (length c ≡ n)
    × ((ys : Bytes) × ((decrypt hash other c e).0 ≡ ok ys)
        × (length ys ≡ length c)
        × (take (length xs) ys ≡ xs))

join_parts :
    (hash : Bytes → Bytes) (random other : ℕ → Bytes) (key chunk : Bytes)
    → 8 ≤ length chunk
    → Returns hash random other (new_span_encryption key) (take 8 chunk) 8
    → Returns hash random other (new_data_encryption key) (drop 8 chunk) 4096
    → (span : Bytes) × (input : Bytes) × (encrypt_chunk hash random key chunk ≡ ok (span, input))
      × (length input ≡ 4096)
      × ((out : Bytes) × (decrypt_chunk hash other key (span ++ input) ≡ ok (take 8 chunk, out))
          × (take (length chunk - 8) out ≡ drop 8 chunk))
unfolding encrypt_chunk decrypt_chunk
join_parts hash random other key chunk h (s, enc_s, len_s, (ys, dec_s, len_y, same_s))
      (c, enc_c, len_c, (zs, dec_c, len_z, same_c)) =
    let head_len = length-take 8 chunk in
    let tail_len = length-drop 8 chunk in
    let front : take 8 (s ++ c) ≡ s = ap (λ n. take n (s ++ c)) (sym len_s) ∙ take_append s c in
    let back : drop 8 (s ++ c) ≡ c = ap (λ n. drop n (s ++ c)) (sym len_s) ∙ drop_append s c in
    let span : ys ≡ take 8 chunk =
      sym (take_all (length (take 8 chunk)) ys (omega arith)) ∙ same_s in
    (
      s,
      c,
      ap₂ both enc_s enc_c,
      len_c,
      (
        zs,
        ap₂
              (λ a b.
                both (decrypt hash other a (new_span_encryption key)).0
                  (decrypt hash other b (new_data_encryption key)).0)
              front back
            ∙ (ap₂ both dec_s dec_c ∙ ap (λ y. ok (y, zs)) span),
        ap (λ n. take n zs) (sym tail_len) ∙ same_c,
      ),
    )

-- An encrypted chunk, of a span of 8 bytes and of data of at most 4096, is decrypted to its span and to data that
-- begins with its own, with other randomness; its encrypted data has 4096 bytes. The key is not empty, a hash
-- is at least as long as the key, and random bytes come as many as asked for.
pub decrypt_chunk-encrypt_chunk :
    (hash : Bytes → Bytes) (random other : ℕ → Bytes) (key chunk : Bytes)
    → 0 < length key
    → ((bs : Bytes) → length key ≤ length (hash bs))
    → ((n : ℕ) → length (random n) ≡ n)
    → ((n : ℕ) → length (other n) ≡ n)
    → All IsByte chunk
    → 8 ≤ length chunk
    → length chunk ≤ 4104
    → (span : Bytes) × (input : Bytes) × (encrypt_chunk hash random key chunk ≡ ok (span, input))
      × (length input ≡ 4096)
      × ((out : Bytes) × (decrypt_chunk hash other key (span ++ input) ≡ ok (take 8 chunk, out))
          × (take (length chunk - 8) out ≡ drop 8 chunk))
unfolding new_span_encryption new_data_encryption
decrypt_chunk-encrypt_chunk hash random other key chunk p long full filled bytes h k =
    let head_len = length-take 8 chunk in
    let tail_len = length-drop 8 chunk in
    let span =
      decrypt-encrypt hash random other (new_span_encryption key) (take 8 chunk) p long full filled
        (All-take 8 chunk bytes) (omega arith) in
    let input =
      decrypt-encrypt hash random other (new_data_encryption key) (drop 8 chunk) p long full filled
        (All-drop 8 chunk bytes) (omega arith) in
    join_parts hash random other key chunk h
      (span.0, span.1, span.2 ∙ (head_len ∙ omega arith), span.3) input
