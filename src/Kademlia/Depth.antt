-- ===== src/Kademlia/Depth.antt =====
-- The loops that the depth is made of, bin by bin.
pub mod Loops
pub mod Greatest
use aicode.Prelude.{
  ℕ, zero, suc, ◌+◌, ◌-◌, ◌%◌, ◌≤◌, ◌<◌, ◌≡◌, ◌⊎◌, inl, inr, refl, sym, ap, subst, ◌∙◌, Bool, true,
  false, not, ◌&&◌, ◌||◌, Bool-cases, ltb, leb, ◌==◌, if◌then◌else◌, Option, none, some, List, [],
  ◌∷◌, length, arith,
}
use aicode.Bytes.{Bytes}
use aicode.Pslice.{PSlice, empty_from, shallowest_empty}
use aicode.Pslice.Each.{each_in, each_down, each_up, each_bin, each_bin_rev}
use aicode.Kademlia.{unsaturated_step, candidate_step}

-- How many of the peers are not filtered out.
abbrev pub live : (Bytes → Bool) → List Bytes → ℕ
live filter [] = 0
live filter (p ∷ ps) = if filter p then live filter ps else suc (live filter ps)

unsaturated_here :
    (sat : ℕ) (filter : Bytes → Bool) (b n : ℕ) (ps : List Bytes)
    → each_in (unsaturated_step sat filter) b ps (b, n) ≡ ((b, n + live filter ps), false)
unfolding each_in
unsaturated_here sat filter b n [] = ground arith
unsaturated_here sat filter b n (p ∷ ps) = elim (Bool-cases (filter p)) [
  | inl out ↦ let h = unsaturated_here sat filter b n ps in ground arith
  | inr stays ↦ let h = unsaturated_here sat filter b (suc n) ps in ground arith
]

unsaturated_short :
    (sat : ℕ) (filter : Bytes → Bool) (b shallowest n : ℕ) (ps : List Bytes)
    → shallowest < b
    → n < sat
    → each_in (unsaturated_step sat filter) b ps (shallowest, n)
      ≡ ((shallowest, n), ltb 0 (live filter ps))
unfolding each_in
unsaturated_short sat filter b shallowest n [] h l = ground arith
unsaturated_short sat filter b shallowest n (p ∷ ps) h l = elim (Bool-cases (filter p)) [
  | inl out ↦ let r = unsaturated_short sat filter b shallowest n ps h l in ground arith
  | inr stays ↦ ground arith
]

unsaturated_full :
    (sat : ℕ) (filter : Bytes → Bool) (b shallowest n : ℕ) (ps : List Bytes)
    → shallowest < b
    → sat ≤ n
    → each_in (unsaturated_step sat filter) b ps (shallowest, n)
      ≡ ((if live filter ps == 0 then (shallowest, n) else (b, live filter ps)), false)
unfolding each_in
unsaturated_full sat filter b shallowest n [] h l = ground arith
unsaturated_full sat filter b shallowest n (p ∷ ps) h l = elim (Bool-cases (filter p)) [
  | inl out ↦ let r = unsaturated_full sat filter b shallowest n ps h l in ground arith
  | inr stays ↦ let r = unsaturated_here sat filter b 1 ps in ground arith
]

candidate_here :
    (low : ℕ) (filter : Bytes → Bool) (b n c : ℕ) (ps : List Bytes)
    → n < low
    → each_in (candidate_step low filter) b ps (n, c) ≡ (
        if leb low (n + live filter ps) then ((low, b), true) else ((n + live filter ps, c), false))
unfolding each_in
candidate_here low filter b n c [] h = ground arith
candidate_here low filter b n c (p ∷ ps) h = elim (Bool-cases (filter p)) [
  | inl out ↦ let r = candidate_here low filter b n c ps h in ground arith
  | inr stays ↦ elim (Bool-cases (leb low (suc n))) [
    | inl reached ↦ let e : suc n ≡ low = ground arith in ground arith
    | inr before ↦
        let l : suc n < low = ground arith in
        let r = candidate_here low filter b (suc n) c ps l in
        let s : suc n + live filter ps ≡ n + suc (live filter ps) = omega arith in ground arith
  ]
]
