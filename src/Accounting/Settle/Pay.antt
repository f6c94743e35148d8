-- ===== src/Accounting/Settle/Pay.antt =====
-- What a settlement may pay, and what the end of a payment undoes.
use aicode.Prelude.{◌≡◌, ◌⊎◌, refl, ap, subst, inl, inr, Bool, true, false, List, [], ◌∷◌, arith}
use aicode.Prelude.Int.{ℤ, pos, ◌+ℤ◌, ◌-ℤ◌, ◌*ℤ◌, neg_ℤ, min_ℤ, quo_ℤ, ◌≤ℤ◌, +ℤ_sub_cancel}
use aicode.Accounting.{Context, Account, Effect, pay_call}
use aicode.Accounting.Debit.Conservation.{get_or_zero}
use aicode.Accounting.Settle.{start_refresh, start_payment, reserve_payment, settle}
use aicode.Accounting.Settle.Frame.{settle_debt-cases, settle_lem}
use aicode.Accounting.Payments.{notify_payment_sent}

-- The limits on a payment of an amount.
pub record Payable (amount : ℤ) (c : Context) (s : Account) : Type 0 where
  pub worthwhile : c.minimum_payment ≤ℤ amount
  pub owed : amount ≤ℤ neg_ℤ (get_or_zero s.stored_originated)
  pub within_debt :
      amount
      ≤ℤ neg_ℤ (get_or_zero s.stored_balance)
        -ℤ quo_ℤ (c.now -ℤ s.refresh_timestamp_milliseconds) 1000 *ℤ c.refresh_rate
        -ℤ s.shadow_reserved_balance

abbrev amount_due : Context → Account → ℤ
amount_due c s = min_ℤ (neg_ℤ (get_or_zero s.stored_originated)) (
    neg_ℤ (get_or_zero s.stored_balance)
    -ℤ quo_ℤ (c.now -ℤ s.refresh_timestamp_milliseconds) 1000 *ℤ c.refresh_rate
    -ℤ s.shadow_reserved_balance)

abbrev paying : ℤ → Account → Account
paying amount s =
    let t = reserve_payment amount s in record t { effects = pay_call amount ∷ t.effects }

start_payment_lem :
    (c : Context) (s : Account)
    → ((start_payment c s).1 ≡ s)
      ⊎ ((c.minimum_payment ≤ℤ amount_due c s)
          × ((start_payment c s).1 ≡ paying (amount_due c s) s))
unfolding start_payment
start_payment_lem c s = ground arith

amount_due-Payable :
    (c : Context) (s : Account) → c.minimum_payment ≤ℤ amount_due c s → Payable (amount_due c s) c s
amount_due-Payable c s h = ground arith

-- The amounts of the payments that are called, the latest one first.
abbrev pub payments : List Effect → List ℤ
payments [] = []
payments (pay_call amount ∷ rest) = amount ∷ payments rest
payments (x ∷ rest) = payments rest

-- What tells whether a payment is under way, or was called.
pub record Unpaid (s t : Account) : Type 0 where
  pub calls : payments t.effects ≡ payments s.effects
  pub ongoing : t.payment_ongoing ≡ s.payment_ongoing
  pub shadow : t.shadow_reserved_balance ≡ s.shadow_reserved_balance
  pub count : t.wg ≡ s.wg

pub record Paid (amount : ℤ) (s t : Account) : Type 0 where
  pub ongoing : t.payment_ongoing ≡ true
  pub shadow : t.shadow_reserved_balance ≡ s.shadow_reserved_balance +ℤ amount
  pub count : t.wg ≡ s.wg +ℤ pos 1
  pub called : (calls : List Effect) × (t.effects ≡ pay_call amount ∷ calls)

start_refresh_lem :
    (a : ℤ) (c : Context) (s : Account)
    → let t = (start_refresh a c s).1 in Unpaid s t × (amount_due c t ≡ amount_due c s)
unfolding start_refresh
start_refresh_lem a c s = ground arith

paying-Paid : (amount : ℤ) (s t : Account) → Unpaid s t → Paid amount s (paying amount t)
unfolding reserve_payment
paying-Paid amount s t u = record {
  ongoing = refl;
  shadow = ap (λ r. r +ℤ amount) u.shadow;
  count = ap (λ r. r +ℤ pos 1) u.count;
  called = (t.effects, refl);
}

paying_once :
    (amount : ℤ) (s t : Account)
    → Unpaid s t
    → payments (paying amount t).effects ≡ amount ∷ payments s.effects
unfolding reserve_payment
paying_once amount s t u = ap (λ r. amount ∷ r) u.calls

-- A settlement starts a payment only if a payment function is set and none is under way, and then of
-- an amount within the limits: at least the minimum, at most the originated debt, and at most the
-- debt that the due refreshment and the shadow reserve leave. The amount is added to the shadow
-- reserve and this one payment is called. Otherwise the payment state is unchanged and none is called.
pub settle_pays :
    (c : Context) (s : Account)
    → let t = (settle c s).1 in
      Unpaid s t
      ⊎ ((amount : ℤ) × (c.has_pay_function ≡ true)
          × (s.payment_ongoing ≡ false)
          × Payable amount c s
          × Paid amount s t
          × (payments t.effects ≡ amount ∷ payments s.effects))
settle_pays c s = elim (settle_lem c s) [
  | inl (e, p) ↦ rw p (inl (record { calls = refl; ongoing = refl; shadow = refl; count = refl }))
  | inr (a, _, p) ↦
      let u = (start_refresh a c s).1 in
      let (same, due) = start_refresh_lem a c s in
      rw p (elim (settle_debt-cases a c s) [
        | inl q ↦ rw q (inl (record { calls = refl; ongoing = refl; shadow = refl; count = refl }))
        | inr (_, inl q) ↦ rw q (inl same)
        | inr (_, inr (has, idle, _, q)) ↦ rw q (elim (start_payment_lem c u) [
          | inl k ↦ rw k (inl same)
          | inr (le, k) ↦ rw k (
              inr (
                amount_due c s,
                has,
                idle,
                amount_due-Payable c s (subst (λ a. c.minimum_payment ≤ℤ a) due le),
                subst (λ a. Paid a s (paying (amount_due c u) u)) due
                    (paying-Paid (amount_due c u) s u same),
                subst (λ a. payments (paying (amount_due c u) u).effects ≡ a ∷ payments s.effects)
                    due (paying_once (amount_due c u) s u same),
              ))
        ])
      ])
]

-- The end of a payment, in success or failure, takes its amount off the shadow reserve again, ends
-- the payment, and lets the wait group go on.
pub settle-notify_payment_sent :
    (amount : ℤ) (failed : Bool) (c : Context) (s t : Account)
    → Paid amount s t
    → let u = (notify_payment_sent amount failed c t).1 in
      (u.shadow_reserved_balance ≡ s.shadow_reserved_balance)
      × (u.payment_ongoing ≡ false)
      × (u.wg ≡ s.wg)
unfolding notify_payment_sent
settle-notify_payment_sent amount failed c s t p =
    ground (arith, +ℤ_sub_cancel s.shadow_reserved_balance amount, +ℤ_sub_cancel s.wg (pos 1))
