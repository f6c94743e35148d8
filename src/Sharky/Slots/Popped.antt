-- ===== src/Sharky/Slots/Popped.antt =====
-- What is left of the slots when one is popped.
use aicode.Prelude.{
  ℕ, zero, suc, ◌+◌, ◌-◌, ◌%◌, ◌^◌, ◌≤◌, ◌<◌, ◌≡◌, ◌≢◌, refl, sym, ap, subst, ◌∙◌, ◌⊎◌, inl, inr,
  Bool, true, false, Bool-cases, List, [], ◌∷◌, ◌++◌, length, get_or, set, replicate, ltb, arith,
  length-append, length-set, length-replicate,
}
use aicode.Sharky.Slots.{Slots, is_free, take_head, extend, pop}
use aicode.Sharky.Slots.Lowest.{Inv, set-is_free, next-LowestFrom}

get_or-append :
    (xs ys : List Bool) (i : ℕ)
    → ((i < length xs) × (get_or (xs ++ ys) i false ≡ get_or xs i false))
      ⊎ ((length xs ≤ i) × (get_or (xs ++ ys) i false ≡ get_or ys (i - length xs) false))
get_or-append [] ys i =
    let e : i ≡ i - 0 = omega arith in inr (omega arith, ap (λ n. get_or ys n false) e)
get_or-append (x ∷ xs) ys zero = inl (omega arith, refl)
get_or-append (x ∷ xs) ys (suc i) = elim (get_or-append xs ys i) [
  | inl (a, e) ↦ inl (omega arith, e)
  | inr (a, e) ↦
      let q : i - length xs ≡ suc i - suc (length xs) = omega arith in
      inr (omega arith, e ∙ ap (λ n. get_or ys n false) q)
]

get_or-replicate : (n i : ℕ) → i < n → get_or (replicate n true) i false ≡ true
get_or-replicate zero i h = absurd (omega arith)
get_or-replicate (suc n) zero h = refl
get_or-replicate (suc n) (suc i) h = get_or-replicate n i (omega arith)

-- Where no slot is free, a byte of free slots is added, and the others stay in use.
extend-Inv :
    (sl : Slots)
    → Inv sl
    → sl.head ≡ sl.size
    → sl.size + 8 < 2 ^ 32
    → Inv (extend 1 sl)
      × ((j : ℕ) → j < sl.size → is_free (extend 1 sl) j ≡ is_free sl j)
      × ((extend 1 sl).head ≡ sl.head)
      × ((extend 1 sl).size ≡ sl.size + 8)
unfolding extend
extend-Inv sl v full room =
    let more = replicate 8 true in
    let old : (j : ℕ) → j < sl.size → is_free (extend 1 sl) j ≡ is_free sl j = λ j p.
      elim (get_or-append sl.data_bits more j) [
        | inl (a, e) ↦ e
        | inr (a, e) ↦ absurd (omega (arith, v.bits))
      ] in
    let new : (j : ℕ) → sl.size ≤ j → j < sl.size + 8 → is_free (extend 1 sl) j ≡ true = λ j p q.
      elim (get_or-append sl.data_bits more j) [
        | inl (a, e) ↦ absurd (omega (arith, v.bits))
        | inr (a, e) ↦ e ∙ get_or-replicate 8 (j - length sl.data_bits) (omega (arith, v.bits))
      ] in
    (
      record {
        bits = length-append sl.data_bits more ∙ omega (arith, v.bits, length-replicate 8 true);
        small = omega arith;
        head_le = omega arith;
        below = λ j p. old j (omega arith) ∙ v.below j p;
        at_head = λ p. new sl.head (omega arith) (omega arith);
      },
      old,
      refl,
      omega arith,
    )

-- What a pop leaves of the slots `sl`: the slot `h` is in use, and the others are as they were.
pub record Popped (sl : Slots) (h : ℕ) (t : Slots) : Type 0 where
  pub inv : Inv t
  pub in_range : h < t.size
  pub in_use : is_free t h ≡ false
  pub others : (j : ℕ) → j < sl.size → h ≢ j → is_free t j ≡ is_free sl j
  pub grown : sl.size ≤ t.size

take_head-Popped : (sl : Slots) → Inv sl → sl.head < sl.size → Popped sl sl.head (take_head sl).1
take_head-Popped sl v free =
    let t : Slots = record sl { data_bits = set sl.data_bits sl.head false } in
    let start : (sl.head + 1) % 2 ^ 32 ≡ sl.head + 1 = omega (arith, v.small) in
    let (a, b, c, d) = next-LowestFrom t ((sl.head + 1) % 2 ^ 32) (omega (arith, v.small)) in
    let cases = λ (j : ℕ). set-is_free sl.data_bits sl.head j false (rw v.bits free) in
    record {
      inv = record {
        bits = length-set sl.data_bits sl.head false ∙ v.bits;
        small = v.small;
        head_le = b;
        below = λ j p. elim (cases j) [
          | inl (_, e) ↦ e
          | inr (n, e) ↦ elim (Bool-cases (ltb j sl.head)) [
            | inl low ↦ e ∙ v.below j (ground arith)
            | inr high ↦ let above : sl.head ≤ j = ground arith in c j (omega arith) p
          ]
        ];
        at_head = d;
      };
      in_range = free;
      in_use = elim (cases sl.head) [ inl (_, e) ↦ e | inr (n, e) ↦ absurd (n refl) ];
      others = λ j p n. elim (cases j) [ inl (e, _) ↦ absurd (n e) | inr (_, e) ↦ e ];
      grown = omega arith;
    }

pop_cases :
    (sl : Slots)
    → ((sl.head ≡ sl.size) × (pop sl ≡ take_head (extend 1 sl)))
      ⊎ ((sl.head ≢ sl.size) × (pop sl ≡ take_head sl))
unfolding pop
pop_cases sl = ground arith

pop_full :
    (sl : Slots)
    → Inv sl
    → sl.head ≡ sl.size
    → sl.size + 8 < 2 ^ 32
    → Popped sl sl.head (take_head (extend 1 sl)).1
pop_full sl v full room =
    let (w, old, same, more) = extend-Inv sl v full room in
    let q = take_head-Popped (extend 1 sl) w (omega arith) in
    record {
      inv = q.inv;
      in_range = omega (arith, q.in_range);
      in_use = ap (is_free (take_head (extend 1 sl)).1) (sym same) ∙ q.in_use;
      others = λ j p n. q.others j (omega arith) (λ e. n (sym same ∙ e)) ∙ old j p;
      grown = omega (arith, q.grown);
    }

-- A pop, of slots that can still grow by a byte, gives out the lowest free slot, or the one after the last
-- where none is free. That slot is then in use, the others are as they were, and the head is again the
-- lowest free slot.
pub pop_lowest :
    (sl t : Slots) (h : ℕ)
    → Inv sl
    → sl.size + 8 < 2 ^ 32
    → pop sl ≡ (h, t)
    → Popped sl h t
      × ((j : ℕ) → j < h → is_free sl j ≡ false)
      × (((h < sl.size) × (is_free sl h ≡ true)) ⊎ (h ≡ sl.size))
unfolding extend
pop_lowest sl t h v room e = elim (pop_cases sl) [
  | inl (full, p) ↦
      let q = sym p ∙ e in
      let same : sl.head ≡ h = ap (λ (r : ℕ × Slots). r.0) q in
      (
        subst (λ n. Popped sl n t) same
            (subst (Popped sl sl.head) (ap (λ (r : ℕ × Slots). r.1) q) (pop_full sl v full room)),
        λ j k. v.below j (omega arith),
        inr (omega arith),
      )
  | inr (free, p) ↦
      let q = sym p ∙ e in
      let same : sl.head ≡ h = ap (λ (r : ℕ × Slots). r.0) q in
      let low : sl.head < sl.size = omega (arith, v.head_le) in
      (
        subst (λ n. Popped sl n t) same
            (subst (Popped sl sl.head) (ap (λ (r : ℕ × Slots). r.1) q) (take_head-Popped sl v low)),
        λ j k. v.below j (omega arith),
        inl (omega arith, ap (is_free sl) (sym same) ∙ v.at_head low),
      )
]
