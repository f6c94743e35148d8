-- ===== src/Swap/Protocol/Payment.antt =====
-- A payment that accounting starts is ended by the settlement service.
use aicode.Prelude.{
  ℕ, ◌≡◌, refl, sym, ap, subst, ◌∙◌, inl, inr, Bool, true, false, Bool-cases, not, ◌==◌, Option,
  none, some, ◌&&◌,
}
use aicode.Prelude.Int.{ℤ}
use aicode.Accounting.{Context, Account}
use aicode.Accounting.Settle.Pay.{Paid, settle-notify_payment_sent}
use aicode.Effects.{Result, Run-cases, ok, M, continue, ◌>>=◌, fail_if, lift}
use aicode.Cheques
use aicode.Cheques.Issued.{Surroundings, Chequebook, issue}
use aicode.Swap.{
  Error, Service, no_chequebook, stream_failure, have_deduction, negotiate_rate,
  negotiate_deduction, on_book, on_issued,
}
use aicode.Swap.Addressbook
use aicode.Swap.Addressbook.{Faults, Book, beneficiary, get_deduction_by, add_deduction_by}
use aicode.Swap.Protocol.{
  Offer, Rates, negotiate, sent_amount, emit_cheque, emit_to, attempt, failed, pay, mark_deducted,
  required, or_zero,
}

-- An operation that leaves the account as it was, whether it fails or not.
record Keeps {A : Type 0} (m : M Service Error A) : Type 0 where
  same : (s : Service) → (m s).1.account ≡ s.account

Keeps-bind :
    {A B : Type 0} (m : M Service Error A) (f : A → M Service Error B)
    → Keeps m
    → ((a : A) → Keeps (f a))
    → Keeps (m >>= f)
Keeps-bind {B = B} m f h k = record {
  same = λ s. elim (Run-cases (m s)) [
    | inl (a, t, p) ↦
        ap (λ (r : Result Error B × Service). r.1.account) (ap (continue f) p)
        ∙ ((k a).same t ∙ (sym (ap (λ r. r.1.account) p) ∙ h.same s))
    | inr (x, t, p) ↦
        ap (λ (r : Result Error B × Service). r.1.account) (ap (continue f) p)
        ∙ (sym (ap (λ r. r.1.account) p) ∙ h.same s)
  ];
}

on_book-Keeps : {A : Type 0} (m : M Book Addressbook.Error A) → Keeps (on_book m)
on_book-Keeps m = record {
  same = λ s. elim (Run-cases (m s.book)) [ inl (a, b, p) ↦ rw p refl | inr (x, b, p) ↦ rw p refl ];
}

on_issued-Keeps : {A : Type 0} (m : M Chequebook Cheques.Error A) → Keeps (on_issued m)
on_issued-Keeps m = record {
  same =
      λ s. elim (Run-cases (m s.issued)) [ inl (a, b, p) ↦ rw p refl | inr (x, b, p) ↦ rw p refl ];
}

fail_if-Keeps : (b : Bool) (x : Error) → Keeps (fail_if b x)
fail_if-Keeps true x = record { same = λ s. refl }
fail_if-Keeps false x = record { same = λ s. refl }

lift-Keeps : {A : Type 0} (r : Result Error A) → Keeps (lift r)
lift-Keeps r = record { same = λ s. refl }

required-Keeps : (o : Option ℕ) → Keeps (required o)
required-Keeps none = record { same = λ s. refl }
required-Keeps (some n) = record { same = λ s. refl }

mark_deducted-Keeps : (f : Faults) (peer n : ℕ) → Keeps (mark_deducted f peer n)
mark_deducted-Keeps f peer n = record {
  same = λ s. elim (Bool-cases (n == 0)) [
    | inl nothing ↦ rw nothing refl
    | inr due ↦ rw due ((on_book-Keeps (add_deduction_by f peer)).same s)
  ];
}

negotiate-Keeps :
    (f : Faults) (offer : Offer) (oracle : Result Error Rates) (peer : ℕ)
    → Keeps (negotiate f offer oracle peer)
unfolding negotiate
negotiate-Keeps f offer oracle peer =
    let ded = or_zero offer.deduction in
    Keeps-bind _ _ (fail_if-Keeps offer.stream_fails stream_failure) λ _.
      Keeps-bind _ _ (required-Keeps offer.exchange_rate) λ rate.
        Keeps-bind _ _ (on_book-Keeps (get_deduction_by f peer)) λ deducted.
          Keeps-bind _ _ (fail_if-Keeps (deducted && not (ded == 0)) have_deduction) λ _.
            Keeps-bind _ _ (lift-Keeps oracle) λ known.
              Keeps-bind _ _ (fail_if-Keeps (not (rate == known.exchange_rate)) negotiate_rate) λ _.
                Keeps-bind _ _
                  (fail_if-Keeps (not (ded == known.deduction) && not (ded == 0))
                    negotiate_deduction)
                  λ _. lift-Keeps (ok (record { exchange_rate = rate; deduction = ded }))

emit_to-Keeps :
    (f : Faults) (offer : Offer) (oracle : Result Error Rates) (surroundings : Surroundings)
    (peer : ℕ) (amount : ℤ) (a : Option ℕ)
    → Keeps (emit_to f offer oracle surroundings peer amount a)
unfolding emit_cheque
emit_to-Keeps f offer oracle surroundings peer amount none = record { same = λ s. refl }
emit_to-Keeps f offer oracle surroundings peer amount (some a) =
    Keeps-bind _ _ (negotiate-Keeps f offer oracle peer) λ rates.
      Keeps-bind _ _
        (on_issued-Keeps
          (issue surroundings a (sent_amount amount rates.exchange_rate rates.deduction)))
        λ balance.
          Keeps-bind _ _ (mark_deducted-Keeps f peer rates.deduction) λ _. lift-Keeps (ok balance)

attempt-Keeps :
    (has_chequebook : Bool) (f : Faults) (offer : Offer) (oracle : Result Error Rates)
    (surroundings : Surroundings) (peer : ℕ) (amount : ℤ)
    → Keeps (attempt has_chequebook f offer oracle surroundings peer amount)
unfolding attempt
attempt-Keeps has_chequebook f offer oracle surroundings peer amount =
    Keeps-bind _ _ (fail_if-Keeps (not has_chequebook) no_chequebook) λ _.
      Keeps-bind _ _ (on_book-Keeps (beneficiary f peer))
        λ a. emit_to-Keeps f offer oracle surroundings peer amount a

-- A payment that a settlement has started is always ended: whatever fails on the way to the peer, `Pay`
-- reports it, so that the payment is no longer under way, its amount is off the shadow reserve, and the wait
-- group is as it was before the settlement.
pub pay_ends :
    (has_chequebook : Bool) (f : Faults) (offer : Offer) (oracle : Result Error Rates)
    (surroundings : Surroundings) (context : Context) (peer : ℕ) (amount : ℤ) (before : Account)
    (s : Service)
    → Paid amount before s.account
    → let u = (pay has_chequebook f offer oracle surroundings context peer amount s).account in
      (u.shadow_reserved_balance ≡ before.shadow_reserved_balance)
      × (u.payment_ongoing ≡ false)
      × (u.wg ≡ before.wg)
unfolding pay
pay_ends has_chequebook f offer oracle surroundings context peer amount before s p =
    let r = attempt has_chequebook f offer oracle surroundings peer amount s in
    let kept = (attempt-Keeps has_chequebook f offer oracle surroundings peer amount).same s in
    settle-notify_payment_sent amount (failed r.0) context before r.1.account
      (subst (λ a. Paid amount before a) (sym kept) p)
