-- ===== src/Swarm/Distance.antt =====
-- The comparison of distances byte by byte against the distances as numbers.
use aicode.Prelude.{
  ℕ, ◌+◌, ◌*◌, ◌^◌, ◌<◌, ◌≡◌, sym, ap, ap₂, subst, ◌∙◌, inl, inr, true, Bool-cases, ◌==◌, ltb,
  ltb→lt, if◌then◌else◌, [], ◌∷◌, length, arith,
}
use aicode.Prelude.Int.{ℤ, pos, negsuc}
use aicode.Bytes.{Bytes, big_endian}
use aicode.Effects.{Result, ok, err}
use aicode.Swarm.{Error, xor, xor_all, distance_raw, distance, compare_bytes, distance_cmp}
use aicode.Swarm.Xor.{xor_all-IsByte, length-xor_all, big_endian_digit, big_endian_lt}

-- 1 if the first number is less, -1 if it is greater.
abbrev pub order : ℕ → ℕ → ℤ
order m n = if m == n then pos 0 else (if ltb m n then pos 1 else negsuc 0)

abbrev pub order_of : Result Error ℕ → Result Error ℕ → Result Error ℤ
order_of (ok m) (ok n) = ok (order m n)
order_of (ok m) (err e) = err e
order_of (err e) r = err e

digit_less : (d e m n s : ℕ) → m < s → d < e → d * s + m < e * s + n
digit_less d e m n s h k = grind arith

order_digits :
    (d e m n s : ℕ)
    → m < s
    → n < s
    → order (d * s + m) (e * s + n)
      ≡ (if d == e then order m n else (if ltb d e then pos 1 else negsuc 0))
order_digits d e m n s h k = elim (Bool-cases (d == e)) [
  | inl same ↦ let r : d ≡ e = ground arith in rw r (ground arith)
  | inr apart ↦ elim (Bool-cases (ltb d e)) [
    | inl less ↦ let r = digit_less d e m n s h (ltb→lt d e less) in ground arith
    | inr more ↦ let g : e < d = ground arith in let r = digit_less e d n m s k g in ground arith
  ]
]

compare_bytes-order :
    (a x y : Bytes)
    → length a ≡ length x
    → length a ≡ length y
    → compare_bytes a x y ≡ order (big_endian 0 (xor_all x a)) (big_endian 0 (xor_all y a))
unfolding compare_bytes
compare_bytes-order [] [] [] p q = ground arith
compare_bytes-order [] [] (y ∷ ys) p q = absurd (omega arith)
compare_bytes-order [] (x ∷ xs) ys p q = absurd (omega arith)
compare_bytes-order (a ∷ cs) [] ys p q = absurd (omega arith)
compare_bytes-order (a ∷ cs) (x ∷ xs) [] p q = absurd (omega arith)
compare_bytes-order (a ∷ cs) (x ∷ xs) (y ∷ ys) p q =
    let h = compare_bytes-order cs xs ys (omega arith) (omega arith) in
    let top = 256 ^ length (xor_all xs cs) in
    let len : length (xor_all xs cs) ≡ length (xor_all ys cs) =
      length-xor_all xs cs (omega arith)
      ∙ (omega arith ∙ sym (length-xor_all ys cs (omega arith))) in
    let m = big_endian 0 (xor_all xs cs) in
    let n = big_endian 0 (xor_all ys cs) in
    let b : n < top =
      subst (λ l. n < 256 ^ l) (sym len) (big_endian_lt (xor_all ys cs) (xor_all-IsByte ys cs)) in
    let e : big_endian 0 (xor y a ∷ xor_all ys cs) ≡ xor y a * top + n =
      big_endian_digit (xor y a) (xor_all ys cs) ∙ ap (λ l. xor y a * 256 ^ l + n) (sym len) in
    ap
      (λ r. if xor x a == xor y a then r else (if ltb (xor x a) (xor y a) then pos 1 else negsuc 0))
      h
    ∙ (sym (
          order_digits (xor x a) (xor y a) m n top
            (big_endian_lt (xor_all xs cs) (xor_all-IsByte xs cs)) b)
        ∙ ap₂ order (sym (big_endian_digit (xor x a) (xor_all xs cs))) (sym e))

-- The comparison of the distances of two addresses from a third is that of the two distances as numbers, and
-- fails where one of them has no distance, as of addresses of other lengths.
pub distance_cmp-order :
    (a x y : Bytes) → distance_cmp a x y ≡ order_of (distance x a) (distance y a)
unfolding distance_cmp distance
distance_cmp-order a x y = elim (Bool-cases (length a == length x)) [
  | inl p ↦ elim (Bool-cases (length a == length y)) [
    | inl q ↦
        let i : length a ≡ length x = ground arith in
        let j : length a ≡ length y = ground arith in
        let h = compare_bytes-order a x y i j in
        let i' : (length x == length a) ≡ true = ground arith in
        let j' : (length y == length a) ≡ true = ground arith in
        rw (p, q, distance, distance_raw, i', j') (ap ok h)
    | inr q ↦ ground arith
  ]
  | inr p ↦ ground arith
]
