-- ===== src/Pseudosettle/Sent/Agreement.antt =====
-- A refreshment between two nodes that keep to the protocol.
use aicode.Prelude.{ℕ, ◌≡◌, sym, ap, ap₂, subst, ◌∙◌, inl, inr, true, some, arith}
use aicode.Prelude.Int.{ℤ, pos, ◌+ℤ◌, ◌-ℤ◌, ◌*ℤ◌, ◌≤ℤ◌, min_ℤ, int_laws}
use aicode.Accounting
use aicode.Accounting.{Context, Account}
use aicode.Accounting.Debit.Conservation.{get_or_zero}
use aicode.Accounting.Payments.Surplus.{count_repaid_lem}
use aicode.Accounting.Refreshments.{expected_allowance, notify_refreshment_received}
use aicode.Effects.{Result, ok, err}
use aicode.Pseudosettle.{
  Error, unbooked, Service, Surroundings, or_new, rate_of, with_account, on_account, add_received,
  payment_amount, handle,
}
use aicode.Pseudosettle.Received.{Forgiven, debt_of, allowance, amount_of, handle-Forgiven}
use aicode.Pseudosettle.Received.History.{total, time}
use aicode.Pseudosettle.Sent.{Exchange, PaymentAck, pay}
use aicode.Pseudosettle.Sent.Honest.{Counted, least}

notify_refreshment_received_lem :
    (amount now : ℤ) (c : Context) (a : Account)
    → (notify_refreshment_received amount now c a).0 ≡ Accounting.ok tt
    → get_or_zero (notify_refreshment_received amount now c a).1.stored_balance
      ≡ get_or_zero a.stored_balance -ℤ amount
unfolding notify_refreshment_received
notify_refreshment_received_lem amount now c a h = ground (arith, count_repaid_lem amount c a)

on_account_ok :
    (c : Context) (m : Accounting.M (Unit {0})) (s t : Service)
    → on_account c m s ≡ (ok tt, t)
    → ((m c s.account).0 ≡ Accounting.ok tt) × (t ≡ record s { account = (m c s.account).1 })
on_account_ok c m s t e = elim (Accounting.Result-cases (m c s.account).0) [
  | inl (u, p) ↦
      let q : m c s.account ≡ (Accounting.ok tt, (m c s.account).1) =
        λ k. (p k, (m c s.account).1) in
      (p, ap (λ (y : Result Error (Unit {0}) × Service). y.1) (sym e ∙ ap (with_account s) q))
  | inr (x, p) ↦
      let q : m c s.account ≡ (Accounting.err x, (m c s.account).1) =
        λ k. (p k, (m c s.account).1) in
      let clash : err (unbooked x) ≡ ok tt =
        ap (λ (y : Result Error (Unit {0}) × Service). y.0) (sym (ap (with_account s) q) ∙ e) in
      absurd cc
]

-- A refreshment that the handler took in without a failure.
record Taken (c : Surroundings) (s t : Service) : Type 0 where
  amount : ℤ
  forgiven : Forgiven c s amount
  counted : total t ≡ total s +ℤ amount
  booked : get_or_zero t.account.stored_balance ≡ get_or_zero s.account.stored_balance -ℤ amount

handle-Taken : (c : Surroundings) (s t : Service) → handle c s ≡ (ok tt, t) → Taken c s t
handle-Taken c s t e = elim (handle-Forgiven c s) [
  | inr (x, p) ↦
      let clash : err x ≡ ok tt = ap (λ (y : Result Error (Unit {0}) × Service). y.0) (sym p ∙ e) in
      absurd cc
  | inl (amount, f, p) ↦
      let (worked, same) =
        on_account_ok c.context (notify_refreshment_received amount c.now)
          (add_received c.now amount s) t (sym p ∙ e) in
      record {
        amount = amount;
        forgiven = f;
        counted = ap total same;
        booked =
            ap (λ (u : Service). get_or_zero u.account.stored_balance) same
            ∙ notify_refreshment_received_lem amount c.now c.context s.account worked;
      }
]

-- The least that the one side demands is at most what the other side forgives.
least_bound :
    (n : ℕ) (reserved debt most : ℤ)
    → pos n -ℤ reserved ≤ℤ debt
    → min_ℤ most (min_ℤ (pos n -ℤ reserved) (pos n)) ≤ℤ payment_amount n (min_ℤ debt most)
least_bound n reserved debt most h = ground arith

-- What the answer of the peer has to do with its handler.
pub record Answered (c : Surroundings) (theirs theirs' : Service) (ack : PaymentAck) : Type 0 where
  pub ran : handle c theirs ≡ (ok tt, theirs')
  pub amount : total theirs' ≡ total theirs +ℤ pos ack.amount
  pub stamp : ack.timestamp ≡ c.now

sum_less : (a b : ℤ) → a +ℤ b -ℤ a ≡ b
sum_less a b = omega int_laws

cancel_left : (a b c : ℤ) → a +ℤ b ≡ a +ℤ c → b ≡ c
cancel_left a b c e = sym (sum_less a b) ∙ (ap (λ x. x -ℤ a) e ∙ sum_less a c)

balance_sum : (a b n : ℤ) → a +ℤ n +ℤ (b -ℤ n) ≡ a +ℤ b
balance_sum a b n = omega int_laws

-- Where a payment is counted with the answer of a peer that ran the handler, so that the answer was in sync, and the
-- peer knows the node as a full one, uses the same rate and the same last time, and sees a debt that is at least what
-- was attempted less what is reserved for refreshments, the peer is not blocked, and the sum of both sides' balances
-- stays the same.
pub refreshment_agrees :
    (x : Exchange) (context : Context) (n : ℕ) (s : Service) (c : Surroundings)
    (theirs theirs' : Service) (ack : PaymentAck)
    → Counted context x (pos n) s (pay x context (pos n) s) ack
    → Answered c theirs theirs' ack
    → c.request ≡ ok n
    → theirs.full_node ≡ some true
    → c.rates.refresh_rate ≡ context.refresh_rate
    → time theirs ≡ (or_new s.sent).timestamp
    → pos n -ℤ s.account.refresh_reserved_balance ≤ℤ debt_of theirs.account
    → let t = pay x context (pos n) s in
      (t.account.effects ≡ s.account.effects)
      × (get_or_zero t.account.stored_balance +ℤ get_or_zero theirs'.account.stored_balance
          ≡ get_or_zero s.account.stored_balance +ℤ get_or_zero theirs.account.stored_balance)
unfolding expected_allowance
refreshment_agrees x context n s c theirs theirs' ack counted answered asked full rate last debt =
    let k = handle-Taken c theirs theirs' answered.ran in
    let taken : k.amount ≡ pos ack.amount =
      cancel_left (total theirs) k.amount (pos ack.amount) (sym k.counted ∙ answered.amount) in
    let most = (ack.timestamp -ℤ (or_new s.sent).timestamp) *ℤ context.refresh_rate in
    let most_theirs : (c.now -ℤ time theirs) *ℤ rate_of c.rates true ≡ most =
      ap₂ (◌*ℤ◌) (ap₂ (◌-ℤ◌) (sym answered.stamp) last) rate in
    let same_n : k.forgiven.attempted ≡ n = let e = sym k.forgiven.asked ∙ asked in cc in
    let is_full : k.forgiven.full ≡ true = let e = sym k.forgiven.connected ∙ full in cc in
    let exact : pos ack.amount ≡ payment_amount n (min_ℤ (debt_of theirs.account) most) =
      sym taken
      ∙ (amount_of c theirs k.amount k.forgiven
          ∙ (ap₂ (λ m f. payment_amount m (allowance c f theirs)) same_n is_full
              ∙ ap (λ y. payment_amount n (min_ℤ (debt_of theirs.account) y)) most_theirs)) in
    let enough : least context x (pos n) ack s ≤ℤ pos ack.amount =
      subst (λ y. least context x (pos n) ack s ≤ℤ y) (sym exact)
        (least_bound n s.account.refresh_reserved_balance (debt_of theirs.account) most debt) in
    elim counted.booked [
      | inl (below, _, _) ↦ absurd (omega arith)
      | inr (_, booked, quiet) ↦ (
        quiet,
        ap₂ (◌+ℤ◌) booked
              (k.booked ∙ ap (λ y. get_or_zero theirs.account.stored_balance -ℤ y) taken)
            ∙ balance_sum (get_or_zero s.account.stored_balance)
                (get_or_zero theirs.account.stored_balance) (pos ack.amount),
      )
    ]
