-- ===== src/Swarm.antt =====
-- pkg/swarm/distance.go and proximity.go: how close addresses are, as byte strings.
pub mod Xor
pub mod Distance
pub mod Places
pub mod Proximity
mod Examples
use aicode.Prelude.{
  ℕ, zero, suc, ◌+◌, ◌*◌, ◌/◌, ◌%◌, ◌^◌, Bool, true, false, not, ◌==◌, ltb, Option, none, some,
  List, [], ◌∷◌, if◌then◌else◌, length,
}
use aicode.Prelude.Int.{ℤ, pos, negsuc}
use aicode.Bytes.{Bytes, big_endian}
use aicode.Effects.{Result, ok, err}

pub data Error : Type 0 where
  length_mismatch : Error

-- The exclusive or of the lowest k bits.
unfoldable pub xor_bits : ℕ → ℕ → ℕ → ℕ
xor_bits zero a b = 0
xor_bits (suc k) a b = xor_bits k (a / 2) (b / 2) * 2 + (a + b) % 2

-- `^` of two bytes.
abbrev pub xor : ℕ → ℕ → ℕ
xor a b = xor_bits 8 a b

-- Of two byte strings of the same length.
abbrev pub xor_all : Bytes → Bytes → Bytes
xor_all [] ys = []
xor_all (x ∷ xs) [] = []
xor_all (x ∷ xs) (y ∷ ys) = xor x y ∷ xor_all xs ys

unfoldable pub distance_raw : Bytes → Bytes → Result Error Bytes
distance_raw x y = if length x == length y then ok (xor_all x y) else err length_mismatch

-- `big.Int.SetBytes` of what `DistanceRaw` gives.
abbrev pub number_of : Result Error Bytes → Result Error ℕ
number_of (ok bs) = ok (big_endian 0 bs)
number_of (err e) = err e

unfoldable pub distance : Bytes → Bytes → Result Error ℕ
unfolding distance_raw
distance x y = number_of (distance_raw x y)

-- The loop of `DistanceCmp`, which ends at the first byte that tells the distances apart.
unfoldable pub compare_bytes : Bytes → Bytes → Bytes → ℤ
compare_bytes [] xs ys = pos 0
compare_bytes (a ∷ cs) [] ys = pos 0
compare_bytes (a ∷ cs) (x ∷ xs) [] = pos 0
compare_bytes (a ∷ cs) (x ∷ xs) (y ∷ ys) =
    let rest = compare_bytes cs xs ys in
    if xor x a == xor y a then rest else (if ltb (xor x a) (xor y a) then pos 1 else negsuc 0)

unfoldable pub distance_cmp : Bytes → Bytes → Bytes → Result Error ℤ
distance_cmp a x y =
    if length a == length x
    then (if length a == length y then ok (compare_bytes a x y) else err length_mismatch)
    else err length_mismatch

-- The highest of the k lowest bits that is set, where j is the count of the bits above.
unfoldable pub first_bit : ℕ → ℕ → ℕ → Option ℕ
first_bit zero j o = none
first_bit (suc k) j o =
    let rest = first_bit k (suc j) o in if o / 2 ^ k % 2 == 0 then rest else some j

abbrev found : ℕ → Option ℕ → ℕ → ℕ
found i none rest = rest
found i (some j) rest = i * 8 + j

-- The loop over k bytes from the i-th on.
unfoldable pub first_difference : ℕ → ℕ → ℕ → Bytes → Bytes → ℕ
first_difference most i zero xs ys = most
first_difference most i (suc k) [] ys = most
first_difference most i (suc k) (x ∷ xs) [] = most
first_difference most i (suc k) (x ∷ xs) (y ∷ ys) =
    let rest = first_difference most (suc i) k xs ys in found i (first_bit 8 0 (xor x y)) rest

abbrev pub at_most : ℕ → ℕ → ℕ
at_most b l = if ltb l b then l else b

-- The lengths are turned to bytes, which wrap around.
unfoldable pub proximity_up_to : ℕ → Bytes → Bytes → ℕ
proximity_up_to most one other =
    first_difference most 0
      (at_most (at_most (most / 8 + 1) (length one % 256)) (length other % 256)) one other

abbrev pub max_po : ℕ
max_po = 31

abbrev pub extended_po : ℕ
extended_po = max_po + 5

unfoldable pub proximity : Bytes → Bytes → ℕ
unfolding proximity_up_to
proximity one other = proximity_up_to max_po one other

unfoldable pub extended_proximity : Bytes → Bytes → ℕ
unfolding proximity_up_to
extended_proximity one other = proximity_up_to extended_po one other
