-- ===== src/Swarm/Proximity.antt =====
-- The proximity order against the distance.
use aicode.Prelude.{
  ℕ, suc, ◌*◌, ◌%◌, ◌^◌, ◌≤◌, ◌<◌, ◌≡◌, refl, sym, ap, ap₂, subst, ◌∙◌, inl, inr, true, false, ◌==◌,
  ltb, [], ◌∷◌, length, arith,
}
use aicode.Prelude.Int.{pos}
use native.Mathlib.Nat.{pow-le-pow_right}
use aicode.Bytes.{Bytes, big_endian}
use aicode.Effects.{ok}
use aicode.Swarm.{xor_all, distance, distance_cmp, first_difference, proximity_up_to, proximity}
use aicode.Swarm.Xor.{xor_comm, length-xor_all}
use aicode.Swarm.Distance.{order, order_of, distance_cmp-order}
use aicode.Swarm.Places.{pow_pos, first_difference_cases}

-- The distance is below 2 to the number of bits less the proximity order, and at least half of that unless
-- the order is the greatest one: so the order is the number of leading bits in which the addresses agree.
pub record Bracket (one other : Bytes) : Type 0 where
  pub most : proximity one other ≤ 31
  pub below : big_endian 0 (xor_all one other) * 2 ^ proximity one other < 256 ^ length one
  pub above :
      proximity one other < 31
      → 256 ^ length one ≤ big_endian 0 (xor_all one other) * 2 ^ suc (proximity one other)

bracket :
    (one other : Bytes) (q : ℕ)
    → proximity one other ≡ q
    → q ≤ 31
    → big_endian 0 (xor_all one other) * 2 ^ q < 256 ^ length one
    → (q < 31 → 256 ^ length one ≤ big_endian 0 (xor_all one other) * 2 ^ suc q)
    → Bracket one other
bracket one other q e h b a = record {
  most = subst (λ p. p ≤ 31) (sym e) h;
  below = subst (λ p. big_endian 0 (xor_all one other) * 2 ^ p < 256 ^ length one) (sym e) b;
  above =
      subst (λ p. p < 31 → 256 ^ length one ≤ big_endian 0 (xor_all one other) * 2 ^ suc p) (sym e)
        a;
}

four_bytes :
    (one other : Bytes)
    → length one ≡ length other
    → 4 ≤ length one
    → length one < 256
    → proximity one other ≡ first_difference 31 0 4 one other
unfolding proximity proximity_up_to
four_bytes one other e h l =
    let i : length one % 256 ≡ length one = omega arith in
    let j : length other % 256 ≡ length one = omega arith in
    let k : ltb (length one) 4 ≡ false = ground arith in rw (i, j, k, k) refl

-- The proximity order of two addresses of one length of 4 to 255 bytes is the number of leading bits in which they
-- agree, up to 31: the distance is below the power of two of the bits that are left, and at least half of it unless
-- the order is 31.
pub proximity-Bracket :
    (one other : Bytes)
    → length one ≡ length other
    → 4 ≤ length one
    → length one < 256
    → Bracket one other
proximity-Bracket one other e h l =
    let run = four_bytes one other e h l in
    let d = big_endian 0 (xor_all one other) in
    let len = length-xor_all one other e in
    elim (first_difference_cases 31 0 4 one other e h) [
      | inl (p, b) ↦
          bracket one other 31 (run ∙ p) (omega arith)
            (subst (λ n. d * 2 ^ 31 < 256 ^ n) len (omega arith)) (λ c. absurd (omega arith))
      | inr f ↦
          bracket one other f.place (run ∙ (f.found ∙ omega arith))
            (let w = f.within in omega arith) (subst (λ n. d * 2 ^ f.place < 256 ^ n) len f.below)
            (λ c. subst (λ n. 256 ^ n ≤ d * 2 ^ suc f.place) len f.above)
    ]

xor_all_comm : (xs ys : Bytes) → length xs ≡ length ys → xor_all xs ys ≡ xor_all ys xs
xor_all_comm [] [] e = refl
xor_all_comm [] (y ∷ ys) e = absurd (omega arith)
xor_all_comm (x ∷ xs) [] e = absurd (omega arith)
xor_all_comm (x ∷ xs) (y ∷ ys) e = ap₂ (◌∷◌) (xor_comm 8 x y) (xor_all_comm xs ys (omega arith))

scale_right : (d m n : ℕ) → m ≤ n → d * m ≤ d * n
scale_right d m n h = grind arith

scale_cancel : (a b t : ℕ) → a * t < b * t → a < b
scale_cancel a b t h = grind arith

pub distance_known :
    (x y : Bytes) → (length x == length y) ≡ true → distance x y ≡ ok (big_endian 0 (xor_all x y))
unfolding distance
distance_known x y p = rw p refl

-- Of two addresses, the one of the greater proximity order is closer.
pub distance_cmp-proximity :
    (a x y : Bytes)
    → length a ≡ length x
    → length a ≡ length y
    → 4 ≤ length a
    → length a < 256
    → proximity a y < proximity a x
    → distance_cmp a x y ≡ ok (pos 1)
distance_cmp-proximity a x y p q h l less =
    let bx = proximity-Bracket a x p h l in
    let by = proximity-Bracket a y q h l in
    let dx = big_endian 0 (xor_all a x) in
    let dy = big_endian 0 (xor_all a y) in
    let t = 2 ^ proximity a x in
    let wide = pow-le-pow_right (pow_pos 1) less in
    let most = bx.most in
    let far = by.above (omega arith) in
    let grown : dy * 2 ^ suc (proximity a y) ≤ dy * t =
      scale_right dy (2 ^ suc (proximity a y)) t wide in
    let near = bx.below in
    let closer : dx < dy = scale_cancel dx dy t (omega arith) in
    let i : (length x == length a) ≡ true = ground arith in
    let j : (length y == length a) ≡ true = ground arith in
    let x_a = distance_known x a i ∙ ap (λ bs. ok (big_endian 0 bs)) (xor_all_comm x a (sym p)) in
    let y_a = distance_known y a j ∙ ap (λ bs. ok (big_endian 0 bs)) (xor_all_comm y a (sym q)) in
    let first : order dx dy ≡ pos 1 = ground arith in
    distance_cmp-order a x y ∙ (ap₂ order_of x_a y_a ∙ ap ok first)
