-- ===== src/Swarm/Examples.antt =====
-- Distances and proximity orders of concrete addresses, and the theorems at such.
use aicode.Prelude.{◌≡◌, ◌<◌, refl, [], ◌∷◌, arith}
use aicode.Bytes.{Bytes}
use aicode.Effects.{err}
use aicode.Swarm.{
  xor, length_mismatch, distance, distance_cmp, proximity, extended_proximity, first_bit,
  first_difference, xor_bits,
}
use aicode.Swarm.Distance.{order_of, distance_cmp-order}
use aicode.Swarm.Proximity.{Bracket, proximity-Bracket}

abbrev base : Bytes
base = 0x12 ∷ 0x34 ∷ 0x56 ∷ 0x78 ∷ 0x9a ∷ []

-- It differs from the base in bit 19, and the other one in bit 9.
abbrev near : Bytes
near = 0x12 ∷ 0x34 ∷ 0x46 ∷ 0x78 ∷ 0x9a ∷ []

abbrev far : Bytes
far = 0x12 ∷ 0x74 ∷ 0x56 ∷ 0x78 ∷ 0x9a ∷ []

-- It differs from the base in the last bit of the fifth byte.
abbrev beside : Bytes
beside = 0x12 ∷ 0x34 ∷ 0x56 ∷ 0x78 ∷ 0x9b ∷ []

exclusive_or : xor 12 10 ≡ 6
unfolding xor_bits
exclusive_or = refl

near_agrees : proximity base near ≡ 19
unfolding proximity first_difference first_bit xor_bits
near_agrees = refl

far_agrees : proximity base far ≡ 9
unfolding proximity first_difference first_bit xor_bits
far_agrees = refl

-- The extended order is that of an equal address, unless the difference is in the last bits that are read.
same_extended : extended_proximity base base ≡ 36
unfolding extended_proximity first_difference first_bit xor_bits
same_extended = refl

beside_extended : extended_proximity base beside ≡ 39
unfolding extended_proximity first_difference first_bit xor_bits
beside_extended = refl

short_fails : distance_cmp base near [] ≡ err length_mismatch
unfolding distance_cmp
short_fails = refl

distance_cmp-order_example :
    distance_cmp base near far ≡ order_of (distance near base) (distance far base)
distance_cmp-order_example = distance_cmp-order base near far

proximity-Bracket_example : Bracket base near
proximity-Bracket_example = proximity-Bracket base near refl (ground arith) (ground arith)

farther : proximity base far < proximity base near
unfolding proximity first_difference first_bit xor_bits
farther = ground arith
