-- ===== src/Cheques/Issued/Overlap/Limit.antt =====
-- What overlapping calls keep.
use aicode.Prelude.{
  ℕ, zero, suc, ◌≡◌, refl, sym, ap, subst, ◌∙◌, inl, inr, Bool-cases, List, [], ◌∷◌, All,
}
use aicode.Prelude.Int.{ℤ, pos, ◌+ℤ◌, ◌-ℤ◌, ◌≤ℤ◌, int_laws}
use aicode.Effects.{Result-cases}
use aicode.Cheques.{Cheque}
use aicode.Cheques.Issued.{Surroundings, Chequebook, or_zero, deliver_cheque}
use aicode.Cheques.Issued.Funds.{Funds, reserve_cases}
use aicode.Cheques.Issued.Overlap.{
  Stage, reserved, sent, counted, failed, made, Call, World, advance, keep, advance_at, Event,
  starts, goes_on, step, run, amounts, owing, uncounted,
}

abbrev total : Chequebook → ℤ
total s = or_zero s.total_issued

-- What a part of the calls does to the sums.
record Kept (ks : List Call) (s : Chequebook) (ls : List Call) (t : Chequebook) : Type 0 where
  reserve : t.total_issued_reserved -ℤ amounts ls ≡ s.total_issued_reserved -ℤ amounts ks
  issued : total t +ℤ uncounted ls ≤ℤ total s +ℤ uncounted ks

deliver_cheque_cases :
    (c : Surroundings) (beneficiary : ℕ) (cheque : Cheque) (s : Chequebook)
    → let t = (deliver_cheque c beneficiary cheque s).1 in
      (t.total_issued ≡ s.total_issued) × (t.total_issued_reserved ≡ s.total_issued_reserved)
deliver_cheque_cases c beneficiary cheque s = elim (Result-cases (c.sign cheque)) [
  | inr (x, p) ↦ rw p (refl, refl)
  | inl (sig, p) ↦ elim (Result-cases (c.send (record { cheque = cheque; signature = sig }))) [
    | inr (x, q) ↦ rw (p, q) (refl, refl)
    | inl (u, q) ↦ elim (Bool-cases c.put_last_fails) [
      | inl fails ↦ rw (p, q, fails) (refl, refl)
      | inr puts ↦ rw (p, q, puts) (refl, refl)
    ]
  ]
]

released_sum : (r n a : ℤ) → r -ℤ n -ℤ a ≡ r -ℤ (n +ℤ a)
released_sum r n a = omega int_laws

counted_sum : (t n u : ℤ) → t +ℤ n +ℤ (pos 0 +ℤ u) ≤ℤ t +ℤ (n +ℤ u)
counted_sum t n u = omega int_laws

nothing_owing : (t : ℤ) (n : ℕ) (u : ℤ) → t +ℤ u ≤ℤ t +ℤ (pos n +ℤ u)
nothing_owing t n u = omega int_laws

advance-Kept :
    (c : Surroundings) (b n : ℕ) (stage : Stage) (ks : List Call) (s : Chequebook)
    → let r = advance c b n stage s in
      Kept (record { beneficiary = b; amount = n; stage = stage } ∷ ks) s (keep r.0 ks) r.1
advance-Kept c b n reserved ks s = elim (Bool-cases c.get_last_fails) [
  | inl fails ↦ rw fails (record { reserve = refl; issued = omega int_laws })
  | inr reads ↦ rw reads (record { reserve = refl; issued = omega int_laws })
]
advance-Kept c b n (made cheque) ks s =
    let (e, h) = deliver_cheque_cases c b cheque s in
    elim (Result-cases (deliver_cheque c b cheque s).0) [
      | inl (u, p) ↦ rw (p, e, h) (record { reserve = refl; issued = omega int_laws })
      | inr (x, p) ↦ rw (p, e, h) (record { reserve = refl; issued = omega int_laws })
    ]
advance-Kept c b n sent ks s = elim (Bool-cases c.get_total_again_fails) [
  | inl fails ↦ rw fails (record { reserve = refl; issued = omega int_laws })
  | inr reads ↦ elim (Bool-cases c.put_total_fails) [
    | inl fails ↦ rw (reads, fails) (record { reserve = refl; issued = omega int_laws })
    | inr puts ↦
        rw (reads, puts)
          (record { reserve = refl; issued = counted_sum (total s) (pos n) (uncounted ks) })
  ]
]
advance-Kept c b n counted ks s = record {
  reserve = released_sum s.total_issued_reserved (pos n) (amounts ks);
  issued = omega int_laws;
}
advance-Kept c b n failed ks s = record {
  reserve = released_sum s.total_issued_reserved (pos n) (amounts ks);
  issued = nothing_owing (total s) n (uncounted ks);
}

shift : (r n a : ℤ) → r -ℤ (n +ℤ a) ≡ r -ℤ a -ℤ n
shift r n a = omega int_laws

advance_at-Kept :
    (c : Surroundings) (n : ℕ) (ks : List Call) (s : Chequebook)
    → let r = advance_at c n ks s in Kept ks s r.0 r.1
advance_at-Kept c n [] s = record { reserve = refl; issued = omega int_laws }
advance_at-Kept c zero (k ∷ ks) s = advance-Kept c k.beneficiary k.amount k.stage ks s
advance_at-Kept c (suc n) (k ∷ ks) s =
    let h = advance_at-Kept c n ks s in
    let r = advance_at c n ks s in
    let a = pos k.amount in
    let i = h.issued in
    record {
      reserve =
          shift r.1.total_issued_reserved a (amounts r.0)
          ∙ (ap (λ x. x -ℤ a) h.reserve ∙ sym (shift s.total_issued_reserved a (amounts ks)));
      issued = omega int_laws;
    }

owing_bounds : (s : Stage) (n : ℕ) → (pos 0 ≤ℤ owing s n) × (owing s n ≤ℤ pos n)
owing_bounds reserved n = (omega int_laws, omega int_laws)
owing_bounds (made cheque) n = (omega int_laws, omega int_laws)
owing_bounds sent n = (omega int_laws, omega int_laws)
owing_bounds counted n = (omega int_laws, omega int_laws)
owing_bounds failed n = (omega int_laws, omega int_laws)

uncounted_most : (ks : List Call) → uncounted ks ≤ℤ amounts ks
uncounted_most [] = omega int_laws
uncounted_most (k ∷ ks) =
    let h = uncounted_most ks in let o = (owing_bounds k.stage k.amount).1 in omega int_laws

uncounted_least : (ks : List Call) → pos 0 ≤ℤ uncounted ks
uncounted_least [] = omega int_laws
uncounted_least (k ∷ ks) =
    let h = uncounted_least ks in let o = (owing_bounds k.stage k.amount).0 in omega int_laws

-- The reserve is what the calls under way have reserved, and with the amounts that are still to be counted the total
-- is within the limit.
pub record Within (limit : ℤ) (w : World) : Type 0 where
  pub reserve : w.book.total_issued_reserved ≡ amounts w.calls
  pub covered : or_zero w.book.total_issued +ℤ uncounted w.calls ≤ℤ limit

-- What a call that starts finds is within the limit.
abbrev pub Bounded : ℤ → Event → Type 0
Bounded limit (starts c beneficiary amount) = (funds : ℤ) → Funds c funds → funds ≤ℤ limit
Bounded limit (goes_on c n) = Unit {0}

add_both : (r a n : ℤ) → r ≡ a → r +ℤ n ≡ n +ℤ a
add_both r a n e = subst (λ x. r +ℤ n ≡ n +ℤ x) e (omega int_laws)

room_left :
    (t r n u a funds limit : ℤ)
    → t +ℤ r +ℤ n ≤ℤ funds
    → funds ≤ℤ limit
    → u ≤ℤ a
    → r ≡ a
    → t +ℤ (n +ℤ u) ≤ℤ limit
room_left t r n u a funds limit low most v e =
    let below = subst (λ x. t +ℤ x +ℤ n ≤ℤ funds) e low in omega int_laws

nothing_left : (r a : ℤ) → r ≡ a → r -ℤ a ≡ pos 0
nothing_left r a e = ap (λ x. x -ℤ a) e ∙ omega int_laws

sum_of : (r a : ℤ) → r -ℤ a ≡ pos 0 → r ≡ a
sum_of r a e =
    let apart : r ≡ r -ℤ a +ℤ a = omega int_laws in apart ∙ (ap (λ x. x +ℤ a) e ∙ omega int_laws)

step-Within :
    (limit : ℤ) (x : Event) (w : World) → Bounded limit x → Within limit w → Within limit (step x w)
step-Within limit (goes_on c n) w b h =
    let k = advance_at-Kept c n w.calls w.book in
    let (ls, t) = advance_at c n w.calls w.book in
    let i = k.issued in
    let j = h.covered in
    let same = k.reserve ∙ nothing_left w.book.total_issued_reserved (amounts w.calls) h.reserve in
    record { reserve = sum_of t.total_issued_reserved (amounts ls) same; covered = omega int_laws }
step-Within limit (starts c beneficiary amount) w b h = elim (reserve_cases c (pos amount) w.book) [
  | inr (e, p) ↦ rw p (record { reserve = h.reserve; covered = h.covered })
  | inl (funds, f, low, p) ↦
      let most = b funds f in
      let e = h.reserve in
      let u = uncounted_most w.calls in
      let n = pos amount in
      let s = w.book in
      rw p (record {
        reserve = add_both s.total_issued_reserved (amounts w.calls) n e;
        covered =
            room_left (or_zero s.total_issued) s.total_issued_reserved n (uncounted w.calls)
              (amounts w.calls) funds limit low most u e;
      })
]

run-Within :
    (limit : ℤ) (xs : List Event) (w : World)
    → All (Bounded limit) xs
    → Within limit w
    → Within limit (run xs w)
run-Within limit [] w b h = h
run-Within limit (x ∷ xs) w b h = run-Within limit xs (step x w) b.1 (step-Within limit x w b.0 h)

-- Calls of `Issue`, for amounts that are not negative, may overlap: each reserves its amount, makes out its
-- cheque, sends it, counts it and gives its reserve back in parts between which the others run, and each part
-- may fail. After any parts of any calls, the total issued, with the amounts under way that it does not have
-- yet, is within a limit that the funds reported to each call are within, and what is reserved is exactly what
-- the calls under way have reserved. At first no calls are under way, nothing is reserved, and the total is
-- within the limit.
pub overlapping-Within :
    (limit : ℤ) (xs : List Event) (s : Chequebook)
    → All (Bounded limit) xs
    → s.total_issued_reserved ≡ pos 0
    → or_zero s.total_issued ≤ℤ limit
    → let w = run xs (record { book = s; calls = [] }) in
      (or_zero w.book.total_issued ≤ℤ limit)
      × (or_zero w.book.total_issued +ℤ uncounted w.calls ≤ℤ limit)
      × (w.book.total_issued_reserved ≡ amounts w.calls)
overlapping-Within limit xs s b e h =
    let w = run xs (record { book = s; calls = [] }) in
    let i =
      run-Within limit xs (record { book = s; calls = [] }) b
        (record { reserve = e; covered = omega int_laws }) in
    let c = i.covered in let u = uncounted_least w.calls in (omega int_laws, c, i.reserve)
