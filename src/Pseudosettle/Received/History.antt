-- ===== src/Pseudosettle/Received/History.antt =====
-- What a peer is forgiven in all.
use aicode.Prelude.{
  ℕ, ◌+◌, ◌*◌, ◌≤◌, ◌≡◌, refl, sym, ap, subst, ◌∙◌, inl, inr, Bool, true, false, arith, List, [],
  ◌∷◌,
}
use aicode.Prelude.Int.{
  ℤ, pos, pos_part, neg_part, ◌+ℤ◌, ◌-ℤ◌, ◌*ℤ◌, ◌≤ℤ◌, min_ℤ, int_laws, -ℤ_parts,
}
use aicode.Accounting
use aicode.Accounting.{Account}
use aicode.Accounting.Refreshments.{notify_refreshment_received}
use aicode.Effects.{Result}
use aicode.Pseudosettle.{
  Error, Service, Rates, Surroundings, or_new, rate_of, on_account, add_received, payment_amount,
  handle,
}
use aicode.Pseudosettle.Received.{debt_of, amount_of, handle-Forgiven}

*ℤ_parts :
    (a : ℤ) (n : ℕ)
    → pos_part (a *ℤ pos n) + neg_part a * n ≡ neg_part (a *ℤ pos n) + pos_part a * n
unfolding ◌*ℤ◌
*ℤ_parts a n = ground arith

span_add : (a b c : ℤ) (n : ℕ) → (c -ℤ a) *ℤ pos n ≡ (b -ℤ a) *ℤ pos n +ℤ (c -ℤ b) *ℤ pos n
span_add a b c n =
    let p = ap (λ x. x * n) (-ℤ_parts c a) in
    let q = ap (λ x. x * n) (-ℤ_parts b a) in
    let r = ap (λ x. x * n) (-ℤ_parts c b) in
    let x = *ℤ_parts (c -ℤ a) n in
    let y = *ℤ_parts (b -ℤ a) n in let z = *ℤ_parts (c -ℤ b) n in grind int_laws

span_mono : (a b : ℤ) (m n : ℕ) → a ≤ℤ b → m ≤ n → (b -ℤ a) *ℤ pos m ≤ℤ (b -ℤ a) *ℤ pos n
span_mono a b m n h k =
    let x = *ℤ_parts (b -ℤ a) m in
    let y = *ℤ_parts (b -ℤ a) n in let z = -ℤ_parts b a in grind int_laws

span_nonneg : (a b : ℤ) (n : ℕ) → a ≤ℤ b → pos 0 ≤ℤ (b -ℤ a) *ℤ pos n
span_nonneg a b n h = let x = *ℤ_parts (b -ℤ a) n in let z = -ℤ_parts b a in grind int_laws

span_zero : (a : ℤ) (n : ℕ) → (a -ℤ a) *ℤ pos n ≡ pos 0
span_zero a n =
    let x = *ℤ_parts (a -ℤ a) n in let z = ap (λ x. x * n) (-ℤ_parts a a) in grind int_laws

within_refl : (t a : ℤ) (n : ℕ) → t ≤ℤ t +ℤ (a -ℤ a) *ℤ pos n
within_refl t a n = rw (span_zero a n) (omega int_laws)

within_trans :
    (t u v a b c : ℤ) (n : ℕ)
    → u ≤ℤ t +ℤ (b -ℤ a) *ℤ pos n
    → v ≤ℤ u +ℤ (c -ℤ b) *ℤ pos n
    → v ≤ℤ t +ℤ (c -ℤ a) *ℤ pos n
within_trans t u v a b c n h k = rw (span_add a b c n) (omega int_laws)

-- The total that was forgiven, and when last.
abbrev pub total : Service → ℤ
total s = (or_new s.received).total

abbrev pub time : Service → ℤ
time s = (or_new s.received).timestamp

on_account_received :
    {A : Type 0} (c : Accounting.Context) (m : Accounting.M A) (s : Service)
    → (on_account c m s).1.received ≡ s.received
on_account_received c m s = elim (Accounting.Result-cases (m c s.account).0) [
  | inl (a, p) ↦ rw p refl
  | inr (e, p) ↦ rw p refl
]

-- The rates of a call are at most a rate.
pub record Slow (rate : ℕ) (rates : Rates) : Type 0 where
  pub full : ℕ
  pub light : ℕ
  pub is_full : rates.refresh_rate ≡ pos full
  pub is_light : rates.light_refresh_rate ≡ pos light
  pub full_most : full ≤ rate
  pub light_most : light ≤ rate

-- A sequence of calls of the handler.
abbrev pub handle_all : List Surroundings → Service → Service
handle_all [] s = s
handle_all (c ∷ cs) s = handle_all cs (handle c s).1

-- The clock does not go back, and no call forgives more than the rate.
abbrev pub Steady : ℕ → List Surroundings → Service → Type 0
Steady rate [] s = Unit {0}
Steady rate (c ∷ cs) s = (time s ≤ℤ c.now) × Slow rate c.rates × Steady rate cs (handle c s).1

rate_of_bound :
    (rate : ℕ) (rates : Rates) (full : Bool)
    → Slow rate rates
    → (m : ℕ) × (rate_of rates full ≡ pos m) × (m ≤ rate)
rate_of_bound rate rates true slow = (slow.full, slow.is_full, slow.full_most)
rate_of_bound rate rates false slow = (slow.light, slow.is_light, slow.light_most)

payment_amount_bounds :
    (attempted : ℕ) (debt most : ℤ)
    → pos 0 ≤ℤ most
    → (pos 0 ≤ℤ payment_amount attempted (min_ℤ debt most))
      × (payment_amount attempted (min_ℤ debt most) ≤ℤ most)
payment_amount_bounds attempted debt most h = ground arith

handle_bound :
    (rate : ℕ) (c : Surroundings) (s : Service)
    → time s ≤ℤ c.now
    → Slow rate c.rates
    → let t = (handle c s).1 in
      (total s ≤ℤ total t) × (total t ≤ℤ total s +ℤ (time t -ℤ time s) *ℤ pos rate)
handle_bound rate c s h slow = elim (handle-Forgiven c s) [
  | inr (e, p) ↦ rw p (ground arith, within_refl (total s) (time s) rate)
  | inl (amount, f, p) ↦
      let r : (handle c s).1.received ≡ (add_received c.now amount s).received =
        ap (λ (x : Result Error (Unit {0}) × Service). x.1.received) p
        ∙ on_account_received c.context (notify_refreshment_received amount c.now)
            (add_received c.now amount s) in
      let (m, e, k) = rate_of_bound rate c.rates f.full slow in
      let most : (c.now -ℤ time s) *ℤ rate_of c.rates f.full ≡ (c.now -ℤ time s) *ℤ pos m =
        ap (λ x. (c.now -ℤ time s) *ℤ x) e in
      let exact : amount
          ≡ payment_amount f.attempted (min_ℤ (debt_of s.account) ((c.now -ℤ time s) *ℤ pos m)) =
        amount_of c s amount f
        ∙ ap (λ x. payment_amount f.attempted (min_ℤ (debt_of s.account) x)) most in
      let (low, high) =
        payment_amount_bounds f.attempted (debt_of s.account) ((c.now -ℤ time s) *ℤ pos m)
          (span_nonneg (time s) c.now m h) in
      let low' = subst (λ x. pos 0 ≤ℤ x) (sym exact) low in
      let high' = subst (λ x. x ≤ℤ (c.now -ℤ time s) *ℤ pos m) (sym exact) high in
      let more = span_mono (time s) c.now m rate h k in
      rw (total, time, r) (omega int_laws, omega int_laws)
]

-- Over any sequence of calls, refused ones included, in which the clock does not go back, what a peer is forgiven
-- never decreases and is at most the rate times the time between the last and the first refreshment.
pub handle_all_bound :
    (rate : ℕ) (cs : List Surroundings) (s : Service)
    → Steady rate cs s
    → let t = handle_all cs s in
      (total s ≤ℤ total t) × (total t ≤ℤ total s +ℤ (time t -ℤ time s) *ℤ pos rate)
handle_all_bound rate [] s h = (ground arith, within_refl (total s) (time s) rate)
handle_all_bound rate (c ∷ cs) s (h, slow, hs) =
    let t = (handle c s).1 in
    let u = handle_all cs t in
    let (low, most) = handle_bound rate c s h slow in
    let (low', most') = handle_all_bound rate cs t hs in
    (
      ground arith,
      within_trans (total s) (total t) (total u) (time s) (time t) (time u) rate most most',
    )
