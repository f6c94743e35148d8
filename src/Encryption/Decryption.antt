-- ===== src/Encryption/Decryption.antt =====
-- Decrypting what was encrypted.
use aicode.Prelude.{
  ℕ, ◌-◌, ◌≤◌, ◌<◌, ◌≡◌, refl, sym, ap, ap₂, ◌∙◌, ◌++◌, false, not, ◌&&◌, ltb, ◌==◌, if◌then◌else◌,
  [], ◌∷◌, length, take, length-append, All, arith,
}
use aicode.Bytes.{Bytes, IsByte}
use aicode.Effects.{Result, ok, continue, pure}
use aicode.Swarm.{xor, xor_all}
use aicode.Encryption.{Error, Encryption, transform_loop, transform, encrypt, decrypt}
use aicode.Encryption.Stream.{
  xor_all_twice, length-xor_all_short, keystream, length-keystream, transform_loop-keystream,
}

-- The first part of what a stream makes of two parts.
take-xor_all :
    (xs ys ks zs : Bytes)
    → length xs ≤ length ks
    → take (length xs) (xor_all (xs ++ ys) ks ++ zs) ≡ xor_all xs ks
take-xor_all [] ys ks zs h = refl
take-xor_all (x ∷ xs) ys [] zs h = absurd (omega arith)
take-xor_all (x ∷ xs) ys (k ∷ ks) zs h =
    ap (λ r. xor x k ∷ r) (take-xor_all xs ys ks zs (omega arith))

-- The output has the length of the padding, if there is one.
abbrev pub out_length : ℕ → Bytes → ℕ
out_length padding xs = if ltb 0 padding then padding else length xs

module _ (hash : Bytes → Bytes) (random : ℕ → Bytes) (e : Encryption) (some_key : 0 < e.key_len)
    (long : (bs : Bytes) → e.key_len ≤ length (hash bs)) where
  abbrev pub stream : ℕ → Bytes
  stream n = keystream hash e.key e.key_len e.init_ctr e.index n

  transform-stream :
      (n g : ℕ) (xs : Bytes)
      → length xs ≤ g
      → (transform hash random xs n e).0 ≡ ok (xor_all xs (stream g) ++ random (n - length xs))
  unfolding transform
  transform-stream n g xs h =
      let r = transform_loop hash (length xs) xs e in
      let p = transform_loop-keystream hash (length xs) g xs e some_key long (omega arith) h in
      let last : Result Error Bytes × Encryption → Result Error Bytes =
        λ r. (continue (λ out. pure (out ++ random (n - length xs))) r).0 in
      ap last (ap (λ x. (x, r.1)) p)

  pub encrypt-stream :
      (g : ℕ) (xs : Bytes)
      → length xs ≤ out_length e.padding xs
      → length xs ≤ g
      → (encrypt hash random xs e).0
        ≡ ok (xor_all xs (stream g) ++ random (out_length e.padding xs - length xs))
  unfolding encrypt
  encrypt-stream g xs h k =
      let fits : (ltb 0 e.padding && ltb e.padding (length xs)) ≡ false = ground arith in
      rw fits (transform-stream (out_length e.padding xs) g xs k)

  pub decrypt-stream :
      (xs : Bytes)
      → length xs ≡ out_length e.padding xs
      → (decrypt hash random xs e).0
        ≡ ok (xor_all xs (stream (length xs)) ++ random (length xs - length xs))
  unfolding decrypt
  decrypt-stream xs h =
      let fits : (ltb 0 e.padding && not (length xs == e.padding)) ≡ false = ground arith in
      rw fits (transform-stream (length xs) (length xs) xs (omega arith))

-- What is encrypted can be decrypted, with the same state and other randomness: if the data is no longer than
-- the padding, the result has the length of the padding, or of the data without one, and it is decrypted to
-- the data followed by what was padded. The key is not empty, a hash is at least as long as the key, and
-- random bytes come as many as asked for.
pub decrypt-encrypt :
    (hash : Bytes → Bytes) (random other : ℕ → Bytes) (e : Encryption) (xs : Bytes)
    → 0 < e.key_len
    → ((bs : Bytes) → e.key_len ≤ length (hash bs))
    → ((n : ℕ) → length (random n) ≡ n)
    → ((n : ℕ) → length (other n) ≡ n)
    → All IsByte xs
    → length xs ≤ out_length e.padding xs
    → (c : Bytes) × ((encrypt hash random xs e).0 ≡ ok c)
      × (length c ≡ out_length e.padding xs)
      × ((ys : Bytes) × ((decrypt hash other c e).0 ≡ ok ys)
          × (length ys ≡ length c)
          × (take (length xs) ys ≡ xs))
decrypt-encrypt hash random other e xs p long full filled bytes h =
    let out = out_length e.padding xs in
    let ks = stream hash random e p long out in
    let pad = random (out - length xs) in
    let c = xor_all xs ks ++ pad in
    let enough = length-keystream hash e.key e.key_len e.init_ctr e.index out p long in
    let same = length-xor_all_short xs ks (omega arith) in
    let all = length-append (xor_all xs ks) pad in
    let padded = full (out - length xs) in
    let len : length c ≡ out = omega arith in
    let kept : length c ≡ out_length e.padding c = ground arith in
    let read = decrypt-stream hash other e p long c kept in
    let zs = other (length c - length c) in
    let first : take (length (xor_all xs ks)) (xor_all c ks ++ zs) ≡ xor_all (xor_all xs ks) ks =
      take-xor_all (xor_all xs ks) pad ks zs (omega arith) in
    let back = stream hash other e p long (length c) in
    let whole = length-append (xor_all c back) zs in
    let rest = filled (length c - length c) in
    let seen =
      length-xor_all_short c back
        (length-keystream hash e.key e.key_len e.init_ctr e.index (length c) p long) in
    (
      c,
      encrypt-stream hash random e p long out xs h h,
      len,
      (
        xor_all c back ++ zs,
        read,
        omega arith,
        ap₂ (λ n g. take n (xor_all c (keystream hash e.key e.key_len e.init_ctr e.index g) ++ zs))
              (sym same) len
            ∙ (first ∙ xor_all_twice xs ks bytes (omega arith)),
      ),
    )
