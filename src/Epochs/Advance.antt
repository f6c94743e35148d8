-- ===== src/Epochs/Advance.antt =====
-- The epochs that follow each other.
use aicode.Prelude.{
  ℕ, zero, suc, ◌+◌, ◌-◌, ◌*◌, ◌/◌, ◌%◌, ◌^◌, ◌≤◌, ◌<◌, ◌≡◌, ◌≢◌, ◌⊎◌, inl, inr, refl, sym, ap,
  subst, ◌∙◌, true, false, not, ◌||◌, Bool-cases, ltb, ◌==◌, arith,
}
use native.Mathlib.Nat.{
  pow-le-pow_right, div-mul-le_self, lt-div-mul-add, le-div_iff_mul-le, div-lt_iff_lt-mul, div-one,
}
use aicode.Swarm.Places.{pow_pos}
use aicode.Epochs.{Epoch, span, child_at, lca_loop, epoch_of, lca, advance}
use aicode.Epochs.Cover.{Covers, power_fits, Parent, Parent-Covers, regroup}

-- What the loop finds from a level on, and that it does not find less.
record Found (first t after : ℕ) (r : ℕ × ℕ) : Type 0 where
  size : r.1 ≡ 2 ^ r.0
  most : r.0 ≤ 32
  common : (r.0 ≡ 32) ⊎ (t / r.1 ≡ after / r.1)
  least :
      (r.0 ≡ first)
      ⊎ ((l : ℕ) × (r.0 ≡ suc l)
          × ((2 ^ l < (t + 2 ^ 64 - after) % 2 ^ 64) ⊎ (t / 2 ^ l ≢ after / 2 ^ l)))

lower :
    (level t after length : ℕ) (r : ℕ × ℕ)
    → length ≡ 2 ^ level
    → (ltb length ((t + 2 ^ 64 - after) % 2 ^ 64) || not (t / length == after / length)) ≡ true
    → Found (suc level) t after r
    → Found level t after r
lower level t after length r e goes f =
    let far : (2 ^ level < (t + 2 ^ 64 - after) % 2 ^ 64) ⊎ (t / 2 ^ level ≢ after / 2 ^ level) =
      subst (λ n. (n < (t + 2 ^ 64 - after) % 2 ^ 64) ⊎ (t / n ≢ after / n)) e (ground arith) in
    record {
      size = f.size;
      most = f.most;
      common = f.common;
      least = elim f.least [ inl same ↦ inr (level, same, far) | inr more ↦ inr more ];
    }

lca_loop-Found :
    (k level length t after : ℕ)
    → length ≡ 2 ^ level
    → level + k ≡ 32
    → Found level t after (lca_loop k level length t after)
unfolding lca_loop
lca_loop-Found zero level length t after e h = record {
  size = e;
  most = omega arith;
  common = inl (omega arith);
  least = inl refl;
}
lca_loop-Found (suc k) level length t after e h =
    let width = power_fits (suc level) (omega arith) in
    let double : length * 2 ≡ 2 ^ suc level = omega arith in
    let fits : length * 2 % 2 ^ 64 ≡ 2 ^ suc level = ap (λ n. n % 2 ^ 64) double ∙ width in
    let ih = lca_loop-Found k (suc level) (length * 2 % 2 ^ 64) t after fits (omega arith) in
    elim (Bool-cases
      (ltb length ((t + 2 ^ 64 - after) % 2 ^ 64) || not (t / length == after / length))) [
        | inl goes ↦ rw goes (
            lower level t after length (lca_loop k (suc level) (length * 2 % 2 ^ 64) t after) e goes
              ih)
        | inr stops ↦
            let same : t / length ≡ after / length = ground arith in
            rw stops (record { size = e; most = omega arith; common = inr same; least = inl refl })
      ]

Found-Parent :
    (t after : ℕ) (r : ℕ × ℕ)
    → Found 0 t after r
    → t < 2 ^ 32
    → after < 2 ^ 32
    → t ≢ after
    → Parent (epoch_of after r) t
Found-Parent t after (zero, n) f h k apart =
    let one : n ≡ 1 = f.size ∙ omega arith in
    let same : t / n ≡ after / n = elim f.common [ inl x ↦ absurd (omega arith) | inr x ↦ x ] in
    absurd (
      apart (
        sym (div-one t)
        ∙ (ap (λ m. t / m) (sym one) ∙ (same ∙ (ap (λ m. after / m) one ∙ div-one after)))))
Found-Parent t after (suc l, n) f h k apart =
    let most = f.most in
    let double : n ≡ 2 ^ l * 2 = f.size ∙ omega arith in
    let p : 0 < n = let q = pow_pos l in omega arith in
    let y = after / n in
    let same : t / n ≡ y = elim f.common [
      | inl x ↦
          let whole : n ≡ 2 ^ 32 = f.size ∙ ap (λ m. 2 ^ m) x in
          let zero_t : t / n ≡ 0 = ap (λ m. t / m) whole ∙ omega arith in
          let zero_after : after / n ≡ 0 = ap (λ m. after / m) whole ∙ omega arith in omega arith
      | inr x ↦ x
    ] in
    let low : y * n ≤ t = subst (λ z. z * n ≤ t) same (div-mul-le_self t n) in
    let high : t < y * n + n = subst (λ z. t < z * n + n) same (lt-div-mul-add p) in
    let wide =
      regroup t y (2 ^ l) (subst (λ m. y * m ≤ t) double low)
        (subst (λ m. t < y * m + m) double high) in
    record {
      level = l;
      below = omega arith;
      higher = refl;
      turn = y;
      aligned = ap (λ m. y * m) double ∙ wide.0;
      after_start = low;
      before_end = wide.1;
    }

lca-Parent : (t after : ℕ) → t < 2 ^ 32 → after < 2 ^ 32 → t ≢ after → Parent (lca t after) t
unfolding lca
lca-Parent t after h k apart = elim (Bool-cases (after == 0)) [
  | inl never ↦ rw never (record {
    level = 31;
    below = omega arith;
    higher = refl;
    turn = 0;
    aligned = omega arith;
    after_start = omega arith;
    before_end = omega arith;
  })
  | inr before ↦
      let r = lca_loop 32 0 1 t after in
      let f = lca_loop-Found 32 0 1 t after (omega arith) (omega arith) in
      rw before (Found-Parent t after r f h k apart)
]

deeper :
    (e : Epoch) (t q : ℕ)
    → e.start ≡ q * 2 ^ e.level
    → e.level ≤ 32
    → (e.start < t) ⊎ ((0 < e.level) × (e.start ≤ t))
    → t < e.start + 2 ^ e.level
    → Parent e t
deeper e t q a m s b = go e.level refl
  where
    go : (n : ℕ) → e.level ≡ n → Parent e t
    go zero z =
        let one : 2 ^ e.level ≡ 1 = ap (λ m. 2 ^ m) z ∙ omega arith in
        elim s [ inl x ↦ absurd (omega arith) | inr x ↦ let y = x.0 in absurd (omega arith) ]
    go (suc l) z =
        let double : 2 ^ e.level ≡ 2 ^ l * 2 = ap (λ m. 2 ^ m) z ∙ omega arith in
        let start : q * (2 ^ l * 2) ≤ t = elim s [
          | inl x ↦ subst (λ y. y ≤ t) (a ∙ ap (λ m. q * m) double) (omega arith)
          | inr x ↦ subst (λ y. y ≤ t) (a ∙ ap (λ m. q * m) double) x.1
        ] in
        let end : t < q * (2 ^ l * 2) + 2 ^ l * 2 =
          subst (λ m. t < q * m + m) double (subst (λ y. t < y + 2 ^ e.level) a b) in
        let wide = regroup t q (2 ^ l) start end in
        record {
          level = l;
          below = omega arith;
          higher = z;
          turn = q;
          aligned = a ∙ (ap (λ m. q * m) double ∙ wide.0);
          after_start = elim s [ inl x ↦ omega arith | inr x ↦ x.1 ];
          before_end = wide.1;
        }

-- The epoch that follows covers the time it is for, and has a level below 32. The time and that of the last update
-- differ and are below 2 ^ 32; the epoch before starts at a multiple of its span, has a level of at most 32,
-- and starts no later, and earlier if its level is 0.
pub advance-Covers :
    (e : Epoch) (last t q : ℕ)
    → e.start ≡ q * 2 ^ e.level
    → e.level ≤ 32
    → (e.start < t) ⊎ ((0 < e.level) × (e.start ≤ t))
    → t < 2 ^ 32
    → last < 2 ^ 32
    → t ≢ last
    → Covers (advance e last t) t × ((advance e last t).level < 32)
unfolding advance span
advance-Covers e last t q a m s h k apart =
    let width = power_fits e.level (omega arith) in
    let most : 2 ^ e.level ≤ 2 ^ 32 = pow-le-pow_right {n = 2} (omega arith) {j = 32} m in
    let start : e.start ≤ t = elim s [ inl x ↦ omega arith | inr x ↦ x.1 ] in
    let sum : (e.start + span e) % 2 ^ 64 ≡ e.start + 2 ^ e.level = omega arith in
    elim (Bool-cases (ltb t ((e.start + span e) % 2 ^ 64))) [
      | inl inside ↦
          let c = Parent-Covers e t (deeper e t q a m s (ground arith)) in rw inside (c.0, c.1)
      | inr past ↦
          let c = Parent-Covers (lca t last) t (lca-Parent t last h k apart) in rw past (c.0, c.1)
    ]

-- All times of a span are equal when divided by it.
same_turn : (x q n : ℕ) → 0 < n → q * n ≤ x → x < q * n + n → x / n ≡ q
same_turn x q n p h k =
    let low : q ≤ x / n = (le-div_iff_mul-le {k = n} {x = q} {y = x} p).1 h in
    let high : x / n < q + 1 = (div-lt_iff_lt-mul {k = n} {x = x} {y = q + 1} p).1 (grind arith) in
    omega arith

-- The epoch below the common one does not have the time of the last update.
lca_moves : (t last : ℕ) → 0 < last → last < t → t < 2 ^ 32 → last < (child_at (lca t last) t).start
unfolding lca
lca_moves t last p h k =
    let c = Parent-Covers (lca t last) t (lca-Parent t last k (omega arith) (λ z. omega arith)) in
    let e = child_at (lca t last) t in
    let r = lca_loop 32 0 1 t last in
    let f = lca_loop-Found 32 0 1 t last (omega arith) (omega arith) in
    let some_last : (last == 0) ≡ false = ground arith in
    let level : (lca t last).level ≡ r.0 = rw some_last refl in
    let up = c.2 in
    let q = c.0.turn in
    let n = 2 ^ e.level in
    let aligned = c.0.aligned in
    let low = c.0.after_start in
    let high = c.0.before_end in
    elim (Bool-cases (ltb last e.start)) [
      | inl moved ↦ ground arith
      | inr stays ↦
          let both_t : t / n ≡ q = same_turn t q n (pow_pos e.level) (omega arith) (omega arith) in
          let both_last : last / n ≡ q =
            same_turn last q n (pow_pos e.level) (ground arith) (omega arith) in
          elim f.least [
            | inl none_below ↦ absurd (omega arith)
            | inr (l, top, far) ↦
                let same : l ≡ e.level = omega arith in
                absurd
                  (elim (subst
                    (λ m. (2 ^ m < (t + 2 ^ 64 - last) % 2 ^ 64) ⊎ (t / 2 ^ m ≢ last / 2 ^ m)) same
                    far) [
                      | inl wide ↦ let near : e.start ≤ last = ground arith in omega arith
                      | inr apart ↦ apart (both_t ∙ sym both_last)
                    ])
          ]
    ]

-- The epoch that follows is below the one before, or past the last update.
pub advance_moves :
    (e : Epoch) (last t q : ℕ)
    → e.start ≡ q * 2 ^ e.level
    → e.level ≤ 32
    → e.start ≤ last
    → 0 < last
    → last < t
    → t < 2 ^ 32
    → ((suc (advance e last t).level ≡ e.level) × (e.start ≤ (advance e last t).start))
      ⊎ (last < (advance e last t).start)
unfolding advance span
advance_moves e last t q a m s p h k =
    let width = power_fits e.level (omega arith) in
    let most : 2 ^ e.level ≤ 2 ^ 32 = pow-le-pow_right {n = 2} (omega arith) {j = 32} m in
    let sum : (e.start + span e) % 2 ^ 64 ≡ e.start + 2 ^ e.level = omega arith in
    elim (Bool-cases (ltb t ((e.start + span e) % 2 ^ 64))) [
      | inl inside ↦
          let c = Parent-Covers e t (deeper e t q a m (inl (omega arith)) (ground arith)) in
          rw inside (inl (c.2, c.3))
      | inr past ↦ rw past (inr (lca_moves t last p h k))
    ]
