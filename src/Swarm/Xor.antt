-- ===== src/Swarm/Xor.antt =====
-- The exclusive or, of bytes and of byte strings.
use aicode.Prelude.{
  ℕ, zero, suc, ◌+◌, ◌*◌, ◌/◌, ◌^◌, ◌<◌, ◌≡◌, refl, sym, ap, subst, ◌∙◌, [], ◌∷◌, length, All,
  arith,
}
use aicode.Bytes.{Bytes, IsByte, big_endian}
use aicode.Swarm.{xor_bits, xor, xor_all}

xor_bits_lt : (k a b : ℕ) → xor_bits k a b < 2 ^ k
unfolding xor_bits
xor_bits_lt zero a b = ground arith
xor_bits_lt (suc k) a b = let h = xor_bits_lt k (a / 2) (b / 2) in omega arith

pub xor_lt : (a b : ℕ) → xor a b < 256
xor_lt a b = xor_bits_lt 8 a b

xor_bits_injective : (k a b c : ℕ) → b < 2 ^ k → c < 2 ^ k → xor_bits k b a ≡ xor_bits k c a → b ≡ c
unfolding xor_bits
xor_bits_injective zero a b c h i e = omega arith
xor_bits_injective (suc k) a b c h i e =
    let r =
      xor_bits_injective k (a / 2) (b / 2) (c / 2) (omega arith) (omega arith) (omega arith) in
    omega arith

pub xor_injective : (a b c : ℕ) → IsByte b → IsByte c → xor b a ≡ xor c a → b ≡ c
xor_injective a b c = xor_bits_injective 8 a b c

pub xor_comm : (k a b : ℕ) → xor_bits k a b ≡ xor_bits k b a
unfolding xor_bits
xor_comm zero a b = refl
xor_comm (suc k) a b = let h = xor_comm k (a / 2) (b / 2) in omega arith

pub xor_all-IsByte : (xs ys : Bytes) → All IsByte (xor_all xs ys)
xor_all-IsByte [] ys = tt
xor_all-IsByte (x ∷ xs) [] = tt
xor_all-IsByte (x ∷ xs) (y ∷ ys) = (xor_lt x y, xor_all-IsByte xs ys)

pub length-xor_all : (xs ys : Bytes) → length xs ≡ length ys → length (xor_all xs ys) ≡ length xs
length-xor_all [] ys e = refl
length-xor_all (x ∷ xs) [] e = absurd (omega arith)
length-xor_all (x ∷ xs) (y ∷ ys) e = let h = length-xor_all xs ys (omega arith) in omega arith

pow_suc : (n : ℕ) → 256 ^ suc n ≡ 256 * 256 ^ n
pow_suc n = omega arith

regroup :
    (m b n r : ℕ) → (m * 256 + b) * 256 ^ n + r ≡ m * 256 ^ suc n + ((0 * 256 + b) * 256 ^ n + r)
regroup m b n r = rw (pow_suc n) (grind arith)

-- The number of bytes, by their first one.
big_endian_acc :
    (acc : ℕ) (bs : Bytes) → big_endian acc bs ≡ acc * 256 ^ length bs + big_endian 0 bs
big_endian_acc acc [] = omega arith
big_endian_acc acc (b ∷ bs) =
    big_endian_acc (acc * 256 + b) bs
    ∙ (regroup acc b (length bs) (big_endian 0 bs)
        ∙ ap (λ r. acc * 256 ^ suc (length bs) + r) (sym (big_endian_acc (0 * 256 + b) bs)))

pub big_endian_digit :
    (b : ℕ) (bs : Bytes) → big_endian 0 (b ∷ bs) ≡ b * 256 ^ length bs + big_endian 0 bs
big_endian_digit b bs =
    let e : 0 * 256 + b ≡ b = omega arith in
    big_endian_acc (0 * 256 + b) bs ∙ ap (λ x. x * 256 ^ length bs + big_endian 0 bs) e

digit_lt : (b n r : ℕ) → b < 256 → r < 256 ^ n → b * 256 ^ n + r < 256 ^ suc n
digit_lt b n r h k = rw (pow_suc n) (grind arith)

pub big_endian_lt : (bs : Bytes) → All IsByte bs → big_endian 0 bs < 256 ^ length bs
big_endian_lt [] h = ground arith
big_endian_lt (b ∷ bs) (h, hs) =
    subst (λ n. n < 256 ^ suc (length bs)) (sym (big_endian_digit b bs))
      (digit_lt b (length bs) (big_endian 0 bs) h (big_endian_lt bs hs))
