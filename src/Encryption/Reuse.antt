-- ===== src/Encryption/Reuse.antt =====
-- The counter of the span is one of the counters of the data.
use aicode.Prelude.{
  ℕ, zero, suc, ◌+◌, ◌-◌, ◌*◌, ◌/◌, ◌%◌, ◌^◌, ◌≤◌, ◌≡◌, refl, sym, ap, ap₂, ◌∙◌, ◌++◌, [], ◌∷◌,
  length, take, drop, length-take, length-drop, append-nil, drop_append, drop-drop, arith,
}
use aicode.Bytes.{Bytes}
use aicode.Effects.{ok}
use aicode.Swarm.{xor_bits, xor, xor_all}
use aicode.Encryption.{
  little_endian_uint32, segment_key, encrypt, new_span_encryption, new_data_encryption, both,
  encrypt_chunk,
}
use aicode.Encryption.Stream.{
  xor_all-take, length-xor_all_short, keystream, length-keystream, length-nil,
}
use aicode.Encryption.Decryption.{encrypt-stream}

-- Of two bytes that went through the same byte.
xor_bits_same : (k a b c : ℕ) → xor_bits k (xor_bits k a c) (xor_bits k b c) ≡ xor_bits k a b
unfolding xor_bits
xor_bits_same zero a b c = refl
xor_bits_same (suc k) a b c =
    let x = xor_bits k (a / 2) (c / 2) in
    let y = xor_bits k (b / 2) (c / 2) in
    let i : (x * 2 + (a + c) % 2) / 2 ≡ x = omega arith in
    let j : (y * 2 + (b + c) % 2) / 2 ≡ y = omega arith in
    let h : xor_bits k ((x * 2 + (a + c) % 2) / 2) ((y * 2 + (b + c) % 2) / 2)
        ≡ xor_bits k (a / 2) (b / 2) =
      ap₂ (xor_bits k) i j ∙ xor_bits_same k (a / 2) (b / 2) (c / 2) in
    omega arith

xor_all_same :
    (xs ys ks : Bytes)
    → length xs ≡ length ks
    → length ys ≡ length ks
    → xor_all (xor_all xs ks) (xor_all ys ks) ≡ xor_all xs ys
xor_all_same [] ys ks e f = refl
xor_all_same (x ∷ xs) ys [] e f = absurd (omega arith)
xor_all_same (x ∷ xs) [] (k ∷ ks) e f = absurd (omega arith)
xor_all_same (x ∷ xs) (y ∷ ys) (k ∷ ks) e f =
    ap₂ (◌∷◌) (xor_bits_same 8 x y k) (xor_all_same xs ys ks (omega arith) (omega arith))

take-xor_all : (n : ℕ) (xs ks : Bytes) → take n (xor_all xs ks) ≡ xor_all (take n xs) (take n ks)
take-xor_all zero xs ks = refl
take-xor_all (suc n) [] ks = refl
take-xor_all (suc n) (x ∷ xs) [] = refl
take-xor_all (suc n) (x ∷ xs) (k ∷ ks) = ap (λ r. xor x k ∷ r) (take-xor_all n xs ks)

xor_all-nil : (xs : Bytes) → xor_all xs [] ≡ []
xor_all-nil [] = refl
xor_all-nil (x ∷ xs) = refl

drop-xor_all : (n : ℕ) (xs ks : Bytes) → drop n (xor_all xs ks) ≡ xor_all (drop n xs) (drop n ks)
drop-xor_all zero xs ks = refl
drop-xor_all (suc n) [] ks = refl
drop-xor_all (suc n) (x ∷ xs) [] = sym (xor_all-nil (drop n xs))
drop-xor_all (suc n) (x ∷ xs) (k ∷ ks) = drop-xor_all n xs ks

take_front : (n : ℕ) (xs ys : Bytes) → n ≤ length xs → take n (xs ++ ys) ≡ take n xs
take_front zero xs ys h = refl
take_front (suc n) [] ys h = absurd (omega arith)
take_front (suc n) (x ∷ xs) ys h = ap (λ r. x ∷ r) (take_front n xs ys (omega arith))

drop_front : (n : ℕ) (xs ys : Bytes) → n ≤ length xs → drop n (xs ++ ys) ≡ drop n xs ++ ys
drop_front zero xs ys h = refl
drop_front (suc n) [] ys h = absurd (omega arith)
drop_front (suc n) (x ∷ xs) ys h = drop_front n xs ys (omega arith)

take-take_le : (n m : ℕ) (xs : Bytes) → n ≤ m → take n (take m xs) ≡ take n xs
take-take_le zero m xs h = refl
take-take_le (suc n) zero xs h = absurd (omega arith)
take-take_le (suc n) (suc m) [] h = refl
take-take_le (suc n) (suc m) (x ∷ xs) h = ap (λ r. x ∷ r) (take-take_le n m xs (omega arith))

module _ (hash : Bytes → Bytes) (key : Bytes) (long : (bs : Bytes) → 32 ≤ length (hash bs)) where
  abbrev segment : ℕ → ℕ → Bytes
  segment init i = segment_key hash key ((i % 2 ^ 32 + init) % 2 ^ 32)

  -- The stream from a later segment on.
  drop-keystream :
      (init i n m : ℕ)
      → drop (n * 32) (keystream hash key 32 init i (n + m)) ≡ keystream hash key 32 init (i + n) m
  drop-keystream init i zero m =
      ap₂ (λ n j. keystream hash key 32 init j n) (omega arith) (omega arith)
  drop-keystream init i (suc n) m =
      let first = take 32 (segment init i) in
      let rest = keystream hash key 32 init (suc i) (n + m) in
      let size : length first ≡ 32 =
        let most = long (hash (key ++ little_endian_uint32 ((i % 2 ^ 32 + init) % 2 ^ 32))) in
        omega (arith, length-take 32 (segment init i)) in
      let split : suc n * 32 ≡ 32 + n * 32 = omega arith in
      let count : suc n + m ≡ suc (n + m) = omega arith in
      let cut : drop 32 (first ++ rest) ≡ rest =
        ap (λ k. drop k (first ++ rest)) (sym size) ∙ drop_append first rest in
      ap₂ (λ k j. drop k (keystream hash key 32 init i j)) split count
      ∙ (sym (drop-drop (n * 32) 32 (first ++ rest))
          ∙ (ap (drop (n * 32)) cut
              ∙ (drop-keystream init (suc i) n m
                  ∙ ap (λ j. keystream hash key 32 init j m) (omega arith))))

  -- The first 8 bytes of a segment.
  first_bytes :
      (init i n : ℕ) → take 8 (keystream hash key 32 init i (suc n)) ≡ take 8 (segment init i)
  first_bytes init i n =
      let most = long (hash (key ++ little_endian_uint32 ((i % 2 ^ 32 + init) % 2 ^ 32))) in
      let size = length-take 32 (segment init i) in
      take_front 8 (take 32 (segment init i)) (keystream hash key 32 init (suc i) n) (omega arith)
      ∙ take-take_le 8 32 (segment init i) (omega arith)

  span_bytes :
      (xs : Bytes)
      → length xs ≡ 8
      → xor_all xs (keystream hash key 32 64 0 8) ≡ xor_all xs (take 8 (segment 0 64))
  span_bytes xs e =
      sym (xor_all-take 8 xs (keystream hash key 32 64 0 8) (omega arith))
      ∙ ap (xor_all xs) (first_bytes 64 0 7)

  data_bytes :
      (xs pad : Bytes)
      → 2056 ≤ length xs
      → length xs ≤ 4096
      → take 8 (drop 2048 (xor_all xs (keystream hash key 32 0 0 4096) ++ pad))
        ≡ xor_all (take 8 (drop 2048 xs)) (take 8 (segment 0 64))
  data_bytes xs pad h k =
      let ks = keystream hash key 32 0 0 4096 in
      let all = length-keystream hash key 32 0 0 4096 (omega arith) long in
      let size = length-xor_all_short xs ks (omega arith) in
      let left = length-drop 2048 (xor_all xs ks) in
      let jump : drop 2048 ks ≡ keystream hash key 32 0 64 4032 = drop-keystream 0 0 64 4032 in
      ap (take 8) (drop_front 2048 (xor_all xs ks) pad (omega arith))
      ∙ (take_front 8 (drop 2048 (xor_all xs ks)) pad (omega arith)
          ∙ (ap (take 8) (drop-xor_all 2048 xs ks)
              ∙ (take-xor_all 8 (drop 2048 xs) (drop 2048 ks)
                  ∙ ap (xor_all (take 8 (drop 2048 xs)))
                      (ap (take 8) jump ∙ first_bytes 0 64 4031))))

module _ (hash : Bytes → Bytes) (random : ℕ → Bytes) (key : Bytes) (e : length key ≡ 32)
    (long : (bs : Bytes) → 32 ≤ length (hash bs)) (full : (n : ℕ) → length (random n) ≡ n) where
  long_enough : (bs : Bytes) → length key ≤ length (hash bs)
  long_enough bs = let l = long bs in omega arith

  encrypted_span :
      (xs : Bytes)
      → length xs ≡ 8
      → (encrypt hash random xs (new_span_encryption key)).0
        ≡ ok (xor_all xs (take 8 (segment hash key long 0 64)))
  unfolding new_span_encryption
  encrypted_span xs h =
      let enc =
        encrypt-stream hash random (new_span_encryption key) (omega arith) long_enough 8 xs
          (omega arith) (omega arith) in
      let none_left : random (length xs - length xs) ≡ [] =
        length-nil (random (length xs - length xs)) (full (length xs - length xs) ∙ omega arith) in
      enc
      ∙ ap ok (
          ap (λ r. xor_all xs (keystream hash key (length key) 64 0 8) ++ r) none_left
          ∙ (append-nil (xor_all xs (keystream hash key (length key) 64 0 8))
              ∙ (ap (λ n. xor_all xs (keystream hash key n 64 0 8)) e
                  ∙ span_bytes hash key long xs h)))

  encrypted_data :
      (xs : Bytes)
      → 2056 ≤ length xs
      → length xs ≤ 4096
      → (c : Bytes) × ((encrypt hash random xs (new_data_encryption key)).0 ≡ ok c)
        × (take 8 (drop 2048 c)
            ≡ xor_all (take 8 (drop 2048 xs)) (take 8 (segment hash key long 0 64)))
  unfolding new_data_encryption
  encrypted_data xs h k =
      let pad = random (4096 - length xs) in
      let enc =
        encrypt-stream hash random (new_data_encryption key) (omega arith) long_enough 4096 xs k
          k in
      (
        xor_all xs (keystream hash key 32 0 0 4096) ++ pad,
        enc ∙ ap (λ n. ok (xor_all xs (keystream hash key n 0 0 4096) ++ pad)) e,
        data_bytes hash key long xs pad h k,
      )

-- The exclusive or of an encrypted span with the 8 bytes of encrypted data from the 2048-th on is that of the
-- plain span with the plain data there, whatever the key is: both use the segment of the stream for the
-- counter 64. The key has 32 bytes, a hash has at least as many, random bytes come as many as asked for, and
-- the data has from 2056 to 4096 bytes.
pub span_and_data_share_bytes :
    (hash : Bytes → Bytes) (random : ℕ → Bytes) (key chunk : Bytes)
    → length key ≡ 32
    → ((bs : Bytes) → 32 ≤ length (hash bs))
    → ((n : ℕ) → length (random n) ≡ n)
    → 2064 ≤ length chunk
    → length chunk ≤ 4104
    → (span : Bytes) × (input : Bytes) × (encrypt_chunk hash random key chunk ≡ ok (span, input))
      × (xor_all span (take 8 (drop 2048 input))
          ≡ xor_all (take 8 chunk) (take 8 (drop 2048 (drop 8 chunk))))
unfolding encrypt_chunk
span_and_data_share_bytes hash random key chunk e long full h k =
    let head_len = length-take 8 chunk in
    let tail_len = length-drop 8 chunk in
    let part_len = length-drop 2048 (drop 8 chunk) in
    let piece_len = length-take 8 (drop 2048 (drop 8 chunk)) in
    let key_len = length-take 8 (segment_key hash key 64) in
    let most = long (hash (key ++ little_endian_uint32 64)) in
    let span = encrypted_span hash random key e long full (take 8 chunk) (omega arith) in
    let input =
      encrypted_data hash random key e long full (drop 8 chunk) (omega arith) (omega arith) in
    let shared = take 8 (segment_key hash key 64) in
    (
      xor_all (take 8 chunk) shared,
      input.0,
      ap₂ both span input.1,
      ap (xor_all (xor_all (take 8 chunk) shared)) input.2
          ∙ xor_all_same (take 8 chunk) (take 8 (drop 2048 (drop 8 chunk))) shared (omega arith)
              (omega arith),
    )
