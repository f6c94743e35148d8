-- ===== src/Sharky/Slots/Lowest.antt =====
-- The head of the slots is the lowest free one.
use aicode.Prelude.{
  ℕ, zero, suc, ◌+◌, ◌-◌, ◌%◌, ◌^◌, ◌≤◌, ◌<◌, ◌≡◌, ◌≢◌, refl, sym, ap, subst, ◌∙◌, ◌⊎◌, inl, inr,
  Bool, true, false, Bool-cases, List, length, get_or, set, ◌==◌, arith, length-set,
  get_or-set_self, get_or-set_ne,
}
use aicode.Sharky.Slots.{Slots, is_free, next_loop, next, load, push}

pub record Inv (sl : Slots) : Type 0 where
  pub bits : length sl.data_bits ≡ sl.size
  pub small : sl.size < 2 ^ 32
  pub head_le : sl.head ≤ sl.size
  pub below : (i : ℕ) → i < sl.head → is_free sl i ≡ false
  pub at_head : sl.head < sl.size → is_free sl sl.head ≡ true

-- `r` is the lowest free slot from `start` on, or the size if none is.
abbrev LowestFrom : Slots → ℕ → ℕ → Type 0
LowestFrom sl start r =
    (start ≤ r)
    × (r ≤ sl.size)
    × ((j : ℕ) → start ≤ j → j < r → is_free sl j ≡ false)
    × (r < sl.size → is_free sl r ≡ true)

next_loop-LowestFrom : (sl : Slots) (k i : ℕ) → i + k ≡ sl.size → LowestFrom sl i (next_loop sl k i)
next_loop-LowestFrom sl zero i h =
    (omega arith, omega arith, λ j p q. absurd (omega arith), λ p. absurd (omega arith))
next_loop-LowestFrom sl (suc k) i h = elim (Bool-cases (is_free sl i)) [
  | inl free ↦
      rw (free, next_loop) (omega arith, omega arith, λ j p q. absurd (omega arith), λ p. free)
  | inr used ↦
      let (a, b, c, d) = next_loop-LowestFrom sl k (suc i) (omega arith) in
      rw (used, next_loop)
        (
          omega arith,
          b,
          λ j p q. elim (Bool-cases (i == j)) [
            | inl hit ↦ let e : i ≡ j = ground arith in subst (λ n. is_free sl n ≡ false) e used
            | inr miss ↦ c j (ground arith) q
          ],
          d,
        )
]

pub next-LowestFrom :
    (sl : Slots) (start : ℕ) → start ≤ sl.size → LowestFrom sl start (next sl start)
unfolding next
next-LowestFrom sl start h = next_loop-LowestFrom sl (sl.size - start) start (omega arith)

-- The slots are read from any file of less than 2 ^ 32 bits.
pub load-Inv : (bits : List Bool) → length bits < 2 ^ 32 → Inv (load bits)
unfolding load
load-Inv bits h =
    let sl : Slots = record { data_bits = bits; size = length bits % 2 ^ 32; head = 0 } in
    let (a, b, c, d) = next-LowestFrom sl 0 (omega arith) in
    record {
      bits = omega arith;
      small = omega arith;
      head_le = b;
      below = λ i p. c i (omega arith) p;
      at_head = d;
    }

-- The bit of a slot after the bit of another or the same slot is written.
pub set-is_free :
    (bits : List Bool) (i j : ℕ) (b : Bool)
    → i < length bits
    → ((i ≡ j) × (get_or (set bits i b) j false ≡ b))
      ⊎ ((i ≢ j) × (get_or (set bits i b) j false ≡ get_or bits j false))
set-is_free bits i j b h = elim (Bool-cases (i == j)) [
  | inl hit ↦
      let e : i ≡ j = ground arith in
      inl (e, subst (λ n. get_or (set bits i b) n false ≡ b) e (get_or-set_self bits i b false h))
  | inr miss ↦ let n : i ≢ j = ground arith in inr (n, get_or-set_ne bits b false n)
]

push-is_free :
    (sl : Slots) (i j : ℕ)
    → Inv sl
    → i < sl.size
    → ((i ≡ j) × (is_free (push i sl) j ≡ true))
      ⊎ ((i ≢ j) × (is_free (push i sl) j ≡ is_free sl j))
unfolding push
push-is_free sl i j v h = set-is_free sl.data_bits i j true (rw v.bits h)

push_head :
    (sl : Slots) (i : ℕ)
    → ((i < sl.head) × ((push i sl).head ≡ i)) ⊎ ((sl.head ≤ i) × ((push i sl).head ≡ sl.head))
unfolding push
push_head sl i = ground arith

push_below :
    (sl : Slots) (i j : ℕ)
    → Inv sl
    → i < sl.size
    → j < (push i sl).head
    → is_free (push i sl) j ≡ false
push_below sl i j v h p =
    let (low, other) : (j < sl.head) × (i ≢ j) = elim (push_head sl i) [
      | inl (a, e) ↦ (omega arith, omega arith)
      | inr (a, e) ↦ (omega arith, omega arith)
    ] in
    elim (push-is_free sl i j v h) [
      | inl (e, _) ↦ absurd (other e)
      | inr (_, e) ↦ e ∙ v.below j low
    ]

push_at_head :
    (sl : Slots) (i : ℕ) → Inv sl → i < sl.size → is_free (push i sl) (push i sl).head ≡ true
push_at_head sl i v h = elim (push-is_free sl i (push i sl).head v h) [
  | inl (_, e) ↦ e
  | inr (n, e) ↦ elim (push_head sl i) [
    | inl (a, q) ↦ absurd (n (sym q))
    | inr (a, q) ↦ e ∙ (ap (is_free sl) q ∙ v.at_head (omega arith))
  ]
]

-- A slot within the size that is pushed is free, any other is as before, and the head is again the lowest
-- free slot.
pub push-Inv :
    (sl : Slots) (i : ℕ)
    → Inv sl
    → i < sl.size
    → Inv (push i sl)
      × (is_free (push i sl) i ≡ true)
      × ((j : ℕ) → i ≢ j → is_free (push i sl) j ≡ is_free sl j)
push-Inv sl i v h = (
  record {
    bits = unfold push in length-set sl.data_bits i true ∙ v.bits;
    small = unfold push in v.small;
    head_le = unfold push in ground (arith, v.head_le);
    below = λ j p. push_below sl i j v h p;
    at_head = λ p. push_at_head sl i v h;
  },
  elim (push-is_free sl i i v h) [ inl (_, e) ↦ e | inr (n, _) ↦ absurd (n refl) ],
  λ j n. elim (push-is_free sl i j v h) [ inl (e, _) ↦ absurd (n e) | inr (_, e) ↦ e ],
)
