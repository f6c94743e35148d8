-- ===== src/Swap/Booking.antt =====
-- What a cheque that is received does to the account of its sender, and how a payment ends.
use aicode.Prelude.{
  ℕ, ◌*◌, ◌/◌, ◌<◌, ◌≡◌, refl, sym, ap, ap₂, subst, ◌∙◌, inl, inr, Bool, true, false, Bool-cases,
  Option, none, some, if◌then◌else◌, arith,
}
use aicode.Prelude.Int.{ℤ, pos, ◌+ℤ◌, ◌-ℤ◌, ◌*ℤ◌, div_ℤ, ltb_ℤ, int_laws}
use aicode.Accounting
use aicode.Accounting.{Context, Account}
use aicode.Accounting.Debit.Conservation.{net}
use aicode.Accounting.Payments.{notify_payment_received}
use aicode.Accounting.Payments.Surplus.{notify_payment_received-net}
use aicode.Effects.{M, Result, Run-cases, ok, err, bind_ok, fail_if, pure}
use aicode.Cheques
use aicode.Cheques.{Cheque, SignedCheque, put}
use aicode.Cheques.Issued.{Chequebook, payout}
use aicode.Cheques.Issued.Funds.{next_cheque}
use aicode.Cheques.Received.{Chain, ChequeStore, receive_cheque}
use aicode.Cheques.Received.Payouts.{Accepted, payout_in, receive_cheque-Accepted}
use aicode.Swap.{
  Error, unbooked, wrong_chequebook, book_failure, cheque_failure, with_account, with_book,
  with_cheques, differs, Service, on_book, on_cheques, on_account, credits, receive, deduct,
  remember,
}
use aicode.Swap.Addressbook
use aicode.Swap.Addressbook.{Faults, Book, chequebook, put_chequebook, add_deduction_for}
use aicode.Swap.Protocol.{sent_amount}

+ℤ_cancel : (a b : ℤ) → a +ℤ b -ℤ a ≡ b
+ℤ_cancel a b = omega int_laws

product_part : (n r : ℕ) → pos n *ℤ pos r ≡ pos (n * r)
unfolding ◌*ℤ◌
product_part n r = ground arith

mul_div : (n r : ℕ) → 0 < r → n * r / r ≡ n
mul_div n r h = grind arith

-- What is sent for an amount is worth that amount, at the rate and the deduction that were agreed.
credits-sent_amount :
    (n r d : ℕ) → 0 < r → credits (sent_amount (pos n) r d) (pos r) (pos d) ≡ pos n
unfolding credits sent_amount div_ℤ
credits-sent_amount n r d h =
    let e : pos n *ℤ pos r +ℤ pos d -ℤ pos d ≡ pos (n * r) =
      rw (product_part n r) (omega int_laws) in
    ap (λ x. div_ℤ x (pos r)) e ∙ ap pos (mul_div n r h)

-- The end of a receipt, of the account.
book_ok :
    (context : Context) (amount : ℤ) (s t : Service)
    → on_account context (notify_payment_received amount) s ≡ (ok tt, t)
    → (t.book ≡ s.book) × (t.cheques ≡ s.cheques) × (net t.account ≡ net s.account -ℤ amount)
book_ok context amount s t e =
    let r = notify_payment_received amount context s.account in
    elim (Accounting.Result-cases r.0) [
      | inr (x, p) ↦
          let q : r ≡ (Accounting.err x, r.1) = λ k. (p k, r.1) in
          let clash : err (unbooked x) ≡ ok tt =
            ap (λ (y : Result Error (Unit {0}) × Service). y.0) (sym (ap (with_account s) q) ∙ e) in
          absurd cc
      | inl (u, p) ↦
          let q : r ≡ (Accounting.ok tt, r.1) = λ k. (p k, r.1) in
          let same : record s { account = r.1 } ≡ t =
            ap (λ (y : Result Error (Unit {0}) × Service). y.1) (sym (ap (with_account s) q) ∙ e) in
          subst
            (λ v.
              (v.book ≡ s.book)
              × (v.cheques ≡ s.cheques)
              × (net v.account ≡ net s.account -ℤ amount))
            same (refl, refl, (notify_payment_received-net amount context s.account p).0)
    ]

-- The service has the same cheques and the same account.
record Same (s u : Service) : Type 0 where
  cheques : u.cheques ≡ s.cheques
  account : u.account ≡ s.account

on_book-Same :
    {A : Type 0} (m : M Book Addressbook.Error A) (a : A) (s u : Service)
    → on_book m s ≡ (ok a, u)
    → Same s u
on_book-Same {A = A} m a s u e = elim (Run-cases (m s.book)) [
  | inl (b, t, p) ↦
      let same : record s { book = t } ≡ u =
        ap (λ (y : Result Error A × Service). y.1) (sym (ap (with_book s) p) ∙ e) in
      subst (Same s) same (record { cheques = refl; account = refl })
  | inr (x, t, p) ↦
      let clash : err (book_failure x) ≡ ok a =
        ap (λ (y : Result Error A × Service). y.0) (sym (ap (with_book s) p) ∙ e) in
      absurd cc
]

deduct-Same :
    (f : Faults) (peer : ℕ) (deduction : ℤ) (s u : Service)
    → deduct f peer deduction s ≡ (ok tt, u)
    → Same s u
deduct-Same f peer deduction s u e = elim (Bool-cases (ltb_ℤ (pos 0) deduction)) [
  | inl some_due ↦ on_book-Same (add_deduction_for f peer) tt s u (
      subst (λ b. (if b then on_book (add_deduction_for f peer) else pure tt) s ≡ (ok tt, u))
        some_due e)
  | inr none_due ↦
      let e' =
        subst (λ b. (if b then on_book (add_deduction_for f peer) else pure tt) s ≡ (ok tt, u))
          none_due e in
      let same : s ≡ u = ap (λ (y : Result Error (Unit {0}) × Service). y.1) e' in
      subst (Same s) same (record { cheques = refl; account = refl })
]

remember-Same :
    (f : Faults) (peer a : ℕ) (known : Option ℕ) (s u : Service)
    → remember f peer a known s ≡ (ok tt, u)
    → Same s u
remember-Same f peer a none s u e = on_book-Same (put_chequebook f peer a) tt s u e
remember-Same f peer a (some k) s u e =
    let same : s ≡ u = ap (λ (y : Result Error (Unit {0}) × Service). y.1) e in
    subst (Same s) same (record { cheques = refl; account = refl })

on_cheques_ok :
    {A : Type 0} (m : M ChequeStore Cheques.Error A) (a : A) (s u : Service)
    → on_cheques m s ≡ (ok a, u)
    → (m s.cheques ≡ (ok a, u.cheques)) × (u.account ≡ s.account)
on_cheques_ok {A = A} m a s u e = elim (Run-cases (m s.cheques)) [
  | inl (b, t, p) ↦
      let q = sym (ap (with_cheques s) p) ∙ e in
      let r : ok b ≡ ok a = ap (λ (y : Result Error A × Service). y.0) q in
      let same : b ≡ a = cc in
      let u_is : record s { cheques = t } ≡ u = ap (λ (y : Result Error A × Service). y.1) q in
      (
        p ∙ ap₂ (λ x (y : ChequeStore). (ok x, y)) same (ap (λ (v : Service). v.cheques) u_is),
        ap (λ (v : Service). v.account) (sym u_is),
      )
  | inr (x, t, p) ↦
      let clash : err (cheque_failure x) ≡ ok a =
        ap (λ (y : Result Error A × Service). y.0) (sym (ap (with_cheques s) p) ∙ e) in
      absurd cc
]

fail_if_ok :
    (b : Bool) (x : Error) (s u : Service) → fail_if b x s ≡ (ok tt, u) → (b ≡ false) × (s ≡ u)
fail_if_ok true x s u e =
    let clash : err x ≡ ok tt = ap (λ (y : Result Error (Unit {0}) × Service). y.0) e in absurd cc
fail_if_ok false x s u e = (refl, ap (λ (y : Result Error (Unit {0}) × Service). y.1) e)

-- What a receipt that succeeds has done.
pub record Booked (us : ℕ) (chain : Chain) (signed : SignedCheque) (exchange_rate deduction : ℤ)
    (s t : Service) : Type 0 where
  pub received : ℤ
  pub accepted : Accepted us chain signed exchange_rate deduction s.cheques received
  pub stored : t.cheques ≡ put signed.cheque.chequebook signed s.cheques
  pub booked : net t.account ≡ net s.account -ℤ credits received exchange_rate deduction

-- A cheque that is received without a failure was accepted by the store of cheques, which keeps it, and the
-- net balance of its sender falls by exactly what the amount received, less the deduction, is worth.
pub receive-Booked :
    (f : Faults) (chain : Chain) (context : Context) (us peer : ℕ) (signed : SignedCheque)
    (exchange_rate deduction : ℤ) (s t : Service)
    → receive f chain context us peer signed exchange_rate deduction s ≡ (ok tt, t)
    → Booked us chain signed exchange_rate deduction s t
unfolding receive
receive-Booked f chain context us peer signed exchange_rate deduction s t e =
    let cb = signed.cheque.chequebook in
    let (known, s1, p1, e1) = bind_ok (on_book (chequebook f peer)) _ s t tt e in
    let (_, s2, p2, e2) = bind_ok (fail_if (differs cb known) wrong_chequebook) _ s1 t tt e1 in
    let (received, s3, p3, e3) =
      bind_ok (on_cheques (receive_cheque us chain signed exchange_rate deduction)) _ s2 t tt e2 in
    let (_, s4, p4, e4) = bind_ok (deduct f peer deduction) _ s3 t tt e3 in
    let (_, s5, p5, e5) = bind_ok (remember f peer cb known) _ s4 t tt e4 in
    let h1 = on_book-Same (chequebook f peer) known s s1 p1 in
    let (_, h2) = fail_if_ok (differs cb known) wrong_chequebook s1 s2 p2 in
    let (run, h3) =
      on_cheques_ok (receive_cheque us chain signed exchange_rate deduction) received s2 s3 p3 in
    let h4 = deduct-Same f peer deduction s3 s4 p4 in
    let h5 = remember-Same f peer cb known s4 s5 p5 in
    let (_, kept, fallen) = book_ok context (credits received exchange_rate deduction) s5 t e5 in
    let before : s2.cheques ≡ s.cheques = ap (λ (v : Service). v.cheques) (sym h2) ∙ h1.cheques in
    let account : s5.account ≡ s.account =
      h5.account ∙ (h4.account ∙ (h3 ∙ (ap (λ (v : Service). v.account) (sym h2) ∙ h1.account))) in
    let after : t.cheques ≡ s3.cheques = kept ∙ (h5.cheques ∙ h4.cheques) in
    let run' =
      subst
        (λ q. receive_cheque us chain signed exchange_rate deduction q ≡ (ok received, s3.cheques))
        before run in
    elim (receive_cheque-Accepted us chain signed exchange_rate deduction s.cheques) [
      | inr (x, q) ↦
          let clash : err x ≡ ok received =
            ap (λ (y : Result Cheques.Error ℤ × ChequeStore). y.0) (sym q ∙ run') in
          absurd cc
      | inl (amount, a, q) ↦
          let both = sym q ∙ run' in
          let r : ok amount ≡ ok received =
            ap (λ (y : Result Cheques.Error ℤ × ChequeStore). y.0) both in
          let same : amount ≡ received = cc in
          record {
            received = received;
            accepted = subst (Accepted us chain signed exchange_rate deduction s.cheques) same a;
            stored = after ∙ sym (ap (λ (y : Result Cheques.Error ℤ × ChequeStore). y.1) both);
            booked = fallen ∙ ap (λ x. net x -ℤ credits received exchange_rate deduction) account;
          }
    ]

-- A cheque that the sender makes out for an amount of credits, at a rate above 0 and a deduction that both sides
-- use, and on top of the last payout that the receiver has stored, lowers the net balance of the sender by exactly
-- that amount where its receipt succeeds.
pub sent-received :
    (f : Faults) (chain : Chain) (context : Context) (us peer n r d : ℕ) (sender : Chequebook)
    (signed : SignedCheque) (s t : Service)
    → 0 < r
    → signed.cheque ≡ next_cheque sender us (sent_amount (pos n) r d)
    → payout_in s.cheques sender.address ≡ payout (sender.last_issued us)
    → receive f chain context us peer signed (pos r) (pos d) s ≡ (ok tt, t)
    → net t.account ≡ net s.account -ℤ pos n
sent-received f chain context us peer n r d sender signed s t h made agreed e =
    let b = receive-Booked f chain context us peer signed (pos r) (pos d) s t e in
    let from : signed.cheque.chequebook ≡ sender.address = ap (λ (k : Cheque). k.chequebook) made in
    let total : signed.cheque.cumulative_payout
        ≡ payout (sender.last_issued us) +ℤ sent_amount (pos n) r d =
      ap (λ (k : Cheque). k.cumulative_payout) made in
    let amount : b.received ≡ sent_amount (pos n) r d =
      b.accepted.difference
      ∙ (ap₂ (◌-ℤ◌) total (ap (payout_in s.cheques) from ∙ agreed)
          ∙ +ℤ_cancel (payout (sender.last_issued us)) (sent_amount (pos n) r d)) in
    b.booked
    ∙ ap (λ x. net s.account -ℤ x)
        (ap (λ x. credits x (pos r) (pos d)) amount ∙ credits-sent_amount n r d h)
