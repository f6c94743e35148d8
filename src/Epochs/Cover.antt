-- ===== src/Epochs/Cover.antt =====
-- Which times an epoch covers.
use aicode.Prelude.{
  ℕ, suc, ◌+◌, ◌*◌, ◌/◌, ◌%◌, ◌^◌, ◌≤◌, ◌<◌, ◌≡◌, ◌⊎◌, inl, inr, refl, sym, ap, subst, true, false,
  Bool-cases, ◌==◌, arith,
}
use native.Mathlib.Nat.{
  pow-le-pow_right, div-mul-le_self, lt-div-mul-add, le-div_iff_mul-le, div-lt_iff_lt-mul,
  div-eq_of_eq-mul_left,
}
use aicode.Swarm.Places.{pow_pos}
use aicode.Epochs.{Epoch, span, has_bit, child_at}

-- The times from the start on, as many as the span has, where the start is a multiple of it.
pub record Covers (e : Epoch) (t : ℕ) : Type 0 where
  pub turn : ℕ
  pub aligned : e.start ≡ turn * 2 ^ e.level
  pub after_start : e.start ≤ t
  pub before_end : t < e.start + 2 ^ e.level

-- A time in a span is in its first half or in its second one, as its bit says.
half_cases :
    (t q n : ℕ)
    → 0 < n
    → q * 2 * n ≤ t
    → t < (q * 2 + 2) * n
    → ((t / n % 2 ≡ 0) × (t < q * 2 * n + n)) ⊎ ((t / n % 2 ≡ 1) × (q * 2 * n + n ≤ t))
half_cases t q n p h k =
    let y = t / n in
    let low : q * 2 ≤ y = (le-div_iff_mul-le {k = n} {x = q * 2} {y = t} p).1 h in
    let high : y < q * 2 + 2 = (div-lt_iff_lt-mul {k = n} {x = t} {y = q * 2 + 2} p).1 k in
    let above = div-mul-le_self t n in
    let under = lt-div-mul-add {a = t} {b = n} p in
    elim (Bool-cases (y == q * 2)) [
      | inl first ↦
          let e : y ≡ q * 2 = ground arith in inl (omega arith, subst (λ z. t < z * n + n) e under)
      | inr second ↦
          let e : y ≡ q * 2 + 1 = ground arith in
          inr (omega arith, let r = subst (λ z. z * n ≤ t) e above in grind arith)
    ]

pub power_fits : (l : ℕ) → l < 64 → 2 ^ l % 2 ^ 64 ≡ 2 ^ l
power_fits l h =
    let most : 2 ^ l ≤ 2 ^ 63 = pow-le-pow_right {n = 2} (omega arith) {j = 63} (omega arith) in
    omega arith

-- The child in whose half the time is covers it.
child_at-Covers :
    (s l t q : ℕ)
    → l < 64
    → s ≡ q * 2 * 2 ^ l
    → s ≤ t
    → t < (q * 2 + 2) * 2 ^ l
    → Covers (child_at (record { start = s; level = suc l }) t) t
      × ((child_at (record { start = s; level = suc l }) t).level ≡ l)
      × (s ≤ (child_at (record { start = s; level = suc l }) t).start)
unfolding child_at span
child_at-Covers s l t q h e a b =
    let n = 2 ^ l in
    let p = pow_pos l in
    let level : (suc l + 255) % 256 ≡ l = omega arith in
    let width = power_fits l h in
    let even : s / n ≡ q * 2 = div-eq_of_eq-mul_left p e in
    let clear : has_bit s n ≡ false = ground arith in
    elim (half_cases t q n p (omega arith) b) [
      | inl (bit, low) ↦
          let off : has_bit t n ≡ false = ground arith in
          rw (level, width, off)
            (
              record { turn = q * 2; aligned = e; after_start = a; before_end = omega arith },
              refl,
              omega arith,
            )
      | inr (bit, high) ↦
          let on : has_bit t n ≡ true = ground arith in
          rw (level, width, on, clear)
            (
              record {
                turn = q * 2 + 1;
                aligned = grind arith;
                after_start = omega arith;
                before_end = grind arith;
              },
              refl,
              omega arith,
            )
    ]

-- An epoch with a level, and with the time in it, so that a child of it can be taken.
pub record Parent (e : Epoch) (t : ℕ) : Type 0 where
  pub level : ℕ
  pub below : level < 32
  pub higher : e.level ≡ suc level
  pub turn : ℕ
  pub aligned : e.start ≡ turn * 2 * 2 ^ level
  pub after_start : e.start ≤ t
  pub before_end : t < (turn * 2 + 2) * 2 ^ level

pub Parent-Covers :
    (e : Epoch) (t : ℕ)
    → Parent e t
    → Covers (child_at e t) t
      × ((child_at e t).level < 32)
      × (suc (child_at e t).level ≡ e.level)
      × (e.start ≤ (child_at e t).start)
Parent-Covers e t p =
    let b = p.below in
    let same : record { start = e.start; level = suc p.level } ≡ e =
      ap (λ n. record { start = e.start; level = n }) (sym p.higher) in
    let c =
      child_at-Covers e.start p.level t p.turn (omega arith) p.aligned p.after_start p.before_end in
    let level = c.1 in
    subst
      (λ f.
        Covers (child_at f t) t
        × ((child_at f t).level < 32)
        × (suc (child_at f t).level ≡ f.level)
        × (f.start ≤ (child_at f t).start))
      same (c.0, omega arith, omega arith, c.2)

-- The multiple of a span below a time, with the time in the span.
pub regroup :
    (t y n : ℕ)
    → y * (n * 2) ≤ t
    → t < y * (n * 2) + n * 2
    → (y * (n * 2) ≡ y * 2 * n) × (t < (y * 2 + 2) * n)
regroup t y n h k = (grind arith, grind arith)
