-- ===== src/Encryption/Stream.antt =====
-- The segments as one stream.
use aicode.Prelude.{
  ℕ, zero, suc, ◌+◌, ◌/◌, ◌*◌, ◌%◌, ◌^◌, ◌≤◌, ◌<◌, ◌≡◌, ◌⊎◌, inl, inr, refl, sym, ap, ap₂, ◌∙◌,
  ◌++◌, false, Bool-cases, ltb, [], ◌∷◌, length, take, drop, take-append-drop, length-take,
  length-append, length-drop, All, arith,
}
use aicode.Bytes.{Bytes, IsByte}
use aicode.Effects.{Result, ok, continue, pure}
use aicode.Swarm.{xor_bits, xor, xor_all}
use aicode.Encryption.{
  Error, Encryption, little_endian_uint32, segment_key, transcrypt, transform_loop,
}

-- Twice with the same byte is nothing.
xor_bits_twice : (k a b : ℕ) → a < 2 ^ k → xor_bits k (xor_bits k a b) b ≡ a
unfolding xor_bits
xor_bits_twice zero a b l = omega arith
xor_bits_twice (suc k) a b l =
    let x = xor_bits k (a / 2) (b / 2) in
    let half : (x * 2 + (a + b) % 2) / 2 ≡ x = omega arith in
    let h : xor_bits k ((x * 2 + (a + b) % 2) / 2) (b / 2) ≡ a / 2 =
      ap (λ y. xor_bits k y (b / 2)) half ∙ xor_bits_twice k (a / 2) (b / 2) (omega arith) in
    omega arith

xor_twice : (a b : ℕ) → IsByte a → xor (xor a b) b ≡ a
xor_twice a b h = xor_bits_twice 8 a b h

-- What is no longer than the stream comes back.
pub xor_all_twice :
    (xs ks : Bytes) → All IsByte xs → length xs ≤ length ks → xor_all (xor_all xs ks) ks ≡ xs
xor_all_twice [] ks a h = refl
xor_all_twice (x ∷ xs) [] a h = absurd (omega arith)
xor_all_twice (x ∷ xs) (k ∷ ks) (b, a) h =
    ap₂ (◌∷◌) (xor_twice x k b) (xor_all_twice xs ks a (omega arith))

pub length-xor_all_short :
    (xs ks : Bytes) → length xs ≤ length ks → length (xor_all xs ks) ≡ length xs
length-xor_all_short [] ks h = refl
length-xor_all_short (x ∷ xs) [] h = absurd (omega arith)
length-xor_all_short (x ∷ xs) (k ∷ ks) h = ap suc (length-xor_all_short xs ks (omega arith))

-- Only the first bytes of a stream matter.
pub xor_all-take : (n : ℕ) (xs ks : Bytes) → length xs ≤ n → xor_all xs (take n ks) ≡ xor_all xs ks
xor_all-take n [] ks h = refl
xor_all-take zero (x ∷ xs) ks h = absurd (omega arith)
xor_all-take (suc n) (x ∷ xs) [] h = refl
xor_all-take (suc n) (x ∷ xs) (k ∷ ks) h =
    ap (λ r. xor x k ∷ r) (xor_all-take n xs ks (omega arith))

-- A part that fills its part of the stream, or the last part.
pub xor_all-append :
    (xs ys ks ls : Bytes)
    → length xs ≤ length ks
    → (length xs ≡ length ks) ⊎ (ys ≡ [])
    → xor_all (xs ++ ys) (ks ++ ls) ≡ xor_all xs ks ++ xor_all ys ls
xor_all-append [] ys [] ls h e = refl
xor_all-append [] ys (k ∷ ks) ls h (inl e) = absurd (omega arith)
xor_all-append [] ys (k ∷ ks) ls h (inr e) = rw e refl
xor_all-append (x ∷ xs) ys [] ls h e = absurd (omega arith)
xor_all-append (x ∷ xs) ys (k ∷ ks) ls h (inl e) =
    ap (λ r. xor x k ∷ r) (xor_all-append xs ys ks ls (omega arith) (inl (omega arith)))
xor_all-append (x ∷ xs) ys (k ∷ ks) ls h (inr e) =
    ap (λ r. xor x k ∷ r) (xor_all-append xs ys ks ls (omega arith) (inr e))

pub length-nil : (xs : Bytes) → length xs ≡ 0 → xs ≡ []
length-nil [] e = refl
length-nil (x ∷ xs) e = absurd (omega arith)

module _ (hash : Bytes → Bytes) where
  -- The keys of n segments from the i-th on.
  abbrev pub keystream : Bytes → ℕ → ℕ → ℕ → ℕ → Bytes
  keystream key len init i zero = []
  keystream key len init i (suc n) =
      take len (segment_key hash key ((i % 2 ^ 32 + init) % 2 ^ 32))
      ++ keystream key len init (suc i) n

  pub length-keystream :
      (key : Bytes) (len init i n : ℕ)
      → 0 < len
      → ((bs : Bytes) → len ≤ length (hash bs))
      → n ≤ length (keystream key len init i n)
  length-keystream key len init i zero h long = omega arith
  length-keystream key len init i (suc n) h long =
      let counter = (i % 2 ^ 32 + init) % 2 ^ 32 in
      let most = long (hash (key ++ little_endian_uint32 counter)) in
      let part = length-take len (segment_key hash key counter) in
      let all =
        length-append (take len (segment_key hash key counter))
          (keystream key len init (suc i) n) in
      let rest = length-keystream key len init (suc i) n h long in omega arith

  first_ok : {A S : Type 0} (r : Result Error A × S) (a : A) → r.0 ≡ ok a → (ok a, r.1) ≡ r
  first_ok r a p = ap (λ x. (x, r.1)) (sym p)

  -- The loop gives the exclusive or with the stream, of which enough is taken, as fuel for each byte is enough.
  pub transform_loop-keystream :
      (f g : ℕ) (xs : Bytes) (e : Encryption)
      → 0 < e.key_len
      → ((bs : Bytes) → e.key_len ≤ length (hash bs))
      → length xs ≤ f
      → length xs ≤ g
      → (transform_loop hash f xs e).0
        ≡ ok (xor_all xs (keystream e.key e.key_len e.init_ctr e.index g))
  unfolding transform_loop transcrypt
  transform_loop-keystream f g [] e p long h k = ground arith
  transform_loop-keystream zero g (x ∷ xs) e p long h k = absurd (omega arith)
  transform_loop-keystream (suc f) zero (x ∷ xs) e p long h k = absurd (omega arith)
  transform_loop-keystream (suc f) (suc g) (x ∷ xs) e p long h k =
      let counter = (e.index % 2 ^ 32 + e.init_ctr) % 2 ^ 32 in
      let key = segment_key hash e.key counter in
      let seg = take e.key_len (x ∷ xs) in
      let rest = drop e.key_len (x ∷ xs) in
      let d = record e { index = suc e.index } in
      let stream = keystream e.key e.key_len e.init_ctr (suc e.index) g in
      let most : e.key_len ≤ length key = long (hash (e.key ++ little_endian_uint32 counter)) in
      let seg_len = length-take e.key_len (x ∷ xs) in
      let rest_len = length-drop e.key_len (x ∷ xs) in
      let ih = transform_loop-keystream f g rest d p long (omega arith) (omega arith) in
      let there : ltb (length key) (length seg) ≡ false = ground arith in
      let last : Result Error Bytes × Encryption → Result Error Bytes =
        λ r. (continue (λ tail. pure (xor_all seg key ++ tail)) r).0 in
      let run : (transform_loop hash (suc f) (x ∷ xs) e).0 ≡ last (transform_loop hash f rest d) =
        rw there refl in
      let cut = xor_all-take e.key_len seg key (omega arith) in
      let part = length-take e.key_len key in
      let ends : (length seg ≡ length (take e.key_len key)) ⊎ (rest ≡ []) =
        elim (Bool-cases (ltb (length (x ∷ xs)) e.key_len)) [
          | inl short ↦ inr (length-nil rest (ground arith))
          | inr full ↦ inl (ground arith)
        ] in
      let join = xor_all-append seg rest (take e.key_len key) stream (omega arith) ends in
      run
      ∙ (ap last (sym (first_ok (transform_loop hash f rest d) (xor_all rest stream) ih))
          ∙ ap ok (
              ap (λ s. s ++ xor_all rest stream) (sym cut)
              ∙ (sym join
                  ∙ ap (λ y. xor_all y (take e.key_len key ++ stream))
                      (take-append-drop e.key_len (x ∷ xs)))))
