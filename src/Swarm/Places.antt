-- ===== src/Swarm/Places.antt =====
-- The first bit in which two byte strings differ, and what it says of their distance.
use aicode.Prelude.{
  ℕ, zero, suc, ◌+◌, ◌*◌, ◌/◌, ◌%◌, ◌^◌, ◌≤◌, ◌<◌, ◌≡◌, refl, sym, ap, subst, ◌∙◌, ◌⊎◌, inl, inr,
  Bool-cases, ◌==◌, none, some, [], ◌∷◌, length, arith,
}
use aicode.Bytes.{Bytes, big_endian}
use aicode.Swarm.{xor, xor_all, first_bit, first_difference}
use aicode.Swarm.Xor.{xor_lt, xor_all-IsByte, big_endian_digit, big_endian_lt}

pub pow_pos : (k : ℕ) → 0 < 2 ^ k
pow_pos zero = omega arith
pow_pos (suc k) = let h = pow_pos k in omega arith

eight_more : (a : ℕ) → 2 ^ (8 + a) ≡ 256 * 2 ^ a
eight_more zero = refl
eight_more (suc a) =
    let e : 8 + suc a ≡ suc (8 + a) = omega arith in
    let h = eight_more a in
    let f : 2 ^ suc (8 + a) ≡ 256 * 2 ^ suc a = omega arith in ap (λ c. 2 ^ c) e ∙ f

shift_up : (m k : ℕ) → m * 2 ^ suc k ≡ 2 * (m * 2 ^ k)
shift_up m k = grind arith

half : (o s : ℕ) → 0 < s → o < 2 * s → (o / s % 2 ≡ 0) → o < s
half o s h k e = grind arith

upper : (o s : ℕ) → 0 < s → o < s → o / s % 2 ≡ 0
upper o s h k = grind arith

-- The place of the highest bit, and the size of the number.
record First (k j o : ℕ) : Type 0 where
  place : ℕ
  found : first_bit k j o ≡ some (j + place)
  within : place < k
  below : (o + 1) * 2 ^ place ≤ 2 ^ k
  above : 2 ^ k ≤ o * 2 ^ suc place

first_bit_cases : (k j o : ℕ) → o < 2 ^ k → ((first_bit k j o ≡ none) × (o ≡ 0)) ⊎ First k j o
unfolding first_bit
first_bit_cases zero j o h = inl (refl, omega arith)
first_bit_cases (suc k) j o h = elim (Bool-cases (o / 2 ^ k % 2 == 0)) [
  | inr set ↦ inr (record {
    place = 0;
    found = ground arith;
    within = omega arith;
    below = omega arith;
    above = let s = upper o (2 ^ k) (pow_pos k) in ground arith;
  })
  | inl clear ↦
      elim (first_bit_cases k (suc j) o (let s = half o (2 ^ k) (pow_pos k) in ground arith)) [
        | inl (e, z) ↦ inl (ground arith, z)
        | inr f ↦ inr (record {
          place = suc f.place;
          found = ground arith;
          within = let w = f.within in omega arith;
          below = let e = shift_up (o + 1) f.place in omega arith;
          above = let e = shift_up o (suc f.place) in omega arith;
        })
      ]
]

-- What a byte with its highest bit at a place adds to the number of the rest.
scale : (a b s : ℕ) → a ≤ b → a * s ≤ b * s
scale a b s h = grind arith

place_below : (o s r t : ℕ) → r < s → (o + 1) * t ≤ 256 → (o * s + r) * t < 256 * s
place_below o s r zero h k = omega arith
place_below o s r (suc t) h k =
    let x = scale ((o + 1) * suc t) 256 s k in let y = scale (suc r) s (suc t) h in grind arith

place_above : (o s r t : ℕ) → 256 ≤ o * t → 256 * s ≤ (o * s + r) * t
place_above o s r t h = let x = scale 256 (o * t) s h in grind arith

shift_byte : (d a : ℕ) → d * 2 ^ (8 + a) ≡ 256 * (d * 2 ^ a)
shift_byte d a = rw (eight_more a) (grind arith)

byte_below : (d a b n : ℕ) → b ≡ 8 + a → d * 2 ^ a < 256 ^ n → d * 2 ^ b < 256 ^ suc n
byte_below d a b n e h =
    subst (λ c. d * 2 ^ c < 256 ^ suc n) (sym e) (let x = shift_byte d a in omega arith)

byte_above : (d a n : ℕ) → 256 ^ n ≤ d * 2 ^ suc a → 256 ^ suc n ≤ d * 2 ^ suc (8 + a)
byte_above d a n h =
    let e : suc (8 + a) ≡ 8 + suc a = omega arith in
    subst (λ c. 256 ^ suc n ≤ d * 2 ^ c) (sym e) (let x = shift_byte d (suc a) in omega arith)

-- Where the two first differ within k bytes.
pub record Differ (most i k : ℕ) (xs ys : Bytes) (d n : ℕ) : Type 0 where
  pub place : ℕ
  pub found : first_difference most i k xs ys ≡ i * 8 + place
  pub within : place < 8 * k
  pub below : d * 2 ^ place < 256 ^ n
  pub above : 256 ^ n ≤ d * 2 ^ suc place

-- The bytes differ.
bytes-Differ :
    (most i k x y : ℕ) (xs ys : Bytes)
    → First 8 0 (xor x y)
    → Differ most i
        (suc k)
        (x ∷ xs)
        (y ∷ ys)
        (big_endian 0 (xor_all (x ∷ xs) (y ∷ ys)))
        (suc (length (xor_all xs ys)))
unfolding first_difference
bytes-Differ most i k x y xs ys f =
    let o = xor x y in
    let rest = xor_all xs ys in
    let r = big_endian 0 rest in
    let s = 256 ^ length rest in
    let small = big_endian_lt rest (xor_all-IsByte xs ys) in
    let digit = big_endian_digit o rest in
    record {
      place = f.place;
      found = rw f.found (omega arith);
      within = let w = f.within in omega arith;
      below =
          subst (λ d. d * 2 ^ f.place < 256 ^ suc (length rest)) (sym digit)
            (let b = place_below o s r (2 ^ f.place) small f.below in omega arith);
      above =
          subst (λ d. 256 ^ suc (length rest) ≤ d * 2 ^ suc f.place) (sym digit)
            (let b = place_above o s r (2 ^ suc f.place) f.above in omega arith);
    }

pub first_difference_cases :
    (most i k : ℕ) (xs ys : Bytes)
    → length xs ≡ length ys
    → k ≤ length xs
    → let d = big_endian 0 (xor_all xs ys) in
      let n = length (xor_all xs ys) in
      ((first_difference most i k xs ys ≡ most) × (d * 2 ^ (8 * k) < 256 ^ n))
      ⊎ Differ most i k xs ys d n
unfolding first_difference
first_difference_cases most i zero xs ys e h =
    inl (refl, let b = big_endian_lt (xor_all xs ys) (xor_all-IsByte xs ys) in omega arith)
first_difference_cases most i (suc k) [] ys e h = absurd (omega arith)
first_difference_cases most i (suc k) (x ∷ xs) [] e h = absurd (omega arith)
first_difference_cases most i (suc k) (x ∷ xs) (y ∷ ys) e h =
    let o = xor x y in
    let rest = xor_all xs ys in
    let r = big_endian 0 rest in
    let s = 256 ^ length rest in
    let digit = big_endian_digit o rest in
    elim (first_bit_cases 8 0 o (xor_lt x y)) [
      | inl (p, z) ↦
          let same : big_endian 0 (o ∷ rest) ≡ r = digit ∙ ap (λ a. a * s + r) z ∙ omega arith in
          elim (first_difference_cases most (suc i) k xs ys (omega arith) (omega arith)) [
            | inl (q, b) ↦ inl (
              rw p q,
              subst (λ d. d * 2 ^ (8 * suc k) < 256 ^ suc (length rest)) (sym same)
                  (byte_below r (8 * k) (8 * suc k) (length rest) (omega arith) b),
            )
            | inr f ↦ inr (record {
              place = 8 + f.place;
              found = rw p (f.found ∙ omega arith);
              within = let w = f.within in omega arith;
              below =
                  subst (λ d. d * 2 ^ (8 + f.place) < 256 ^ suc (length rest)) (sym same)
                    (byte_below r f.place (8 + f.place) (length rest) (omega arith) f.below);
              above =
                  subst (λ d. 256 ^ suc (length rest) ≤ d * 2 ^ suc (8 + f.place)) (sym same)
                    (byte_above r f.place (length rest) f.above);
            })
          ]
      | inr f ↦ inr (bytes-Differ most i k x y xs ys f)
    ]
