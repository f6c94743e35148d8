-- ===== src/Accounting/Payments/Surplus.antt =====
-- What a payment of the peer does to the net balance.
use aicode.Prelude.{◌≡◌, ◌⊎◌, ap, inl, inr, some, arith}
use aicode.Prelude.Int.{ℤ, pos, ◌+ℤ◌, ◌-ℤ◌, ◌≤ℤ◌, ◌<ℤ◌, int_laws}
use aicode.Accounting.{Context, Account, ok}
use aicode.Accounting.Debit.Conservation.{get_or_zero, net}
use aicode.Accounting.Payments.{count_repaid, add_surplus, notify_payment_received}

pub count_repaid_lem :
    (amount : ℤ) (c : Context) (s : Account)
    → let (r, t) = count_repaid amount c s in
      (r ≡ ok tt)
      × (t.stored_balance ≡ s.stored_balance)
      × (t.stored_surplus ≡ s.stored_surplus)
      × (t.stored_originated ≡ s.stored_originated)
unfolding count_repaid
count_repaid_lem amount c s = ground arith

add_surplus_lem :
    (amount : ℤ) (c : Context) (s : Account)
    → (add_surplus amount c s).0 ≡ ok tt
    → let t = (add_surplus amount c s).1 in
      (t.stored_balance ≡ s.stored_balance)
      × (get_or_zero t.stored_surplus ≡ get_or_zero s.stored_surplus +ℤ amount)
unfolding add_surplus
add_surplus_lem amount c s h = ground arith

-- The store after a payment of the peer: a positive balance goes down to 0 at most, and what it
-- does not take goes to the surplus.
abbrev Received : ℤ → Account → Account → Type 0
Received amount s t =
    let b = get_or_zero s.stored_balance in
    let a = get_or_zero s.stored_surplus in
    let b' = get_or_zero t.stored_balance in
    let a' = get_or_zero t.stored_surplus in
    ((b ≤ℤ pos 0) × (t.stored_balance ≡ s.stored_balance) × (a' ≡ a +ℤ amount))
    ⊎ ((pos 0 <ℤ b) × (pos 0 ≤ℤ b -ℤ amount) × (b' ≡ b -ℤ amount) × (a' ≡ a))
    ⊎ ((pos 0 <ℤ b) × (b' ≡ pos 0) × (a' ≡ a +ℤ (amount -ℤ b)))

notify_payment_received-Received :
    (amount : ℤ) (c : Context) (s : Account)
    → (notify_payment_received amount c s).0 ≡ ok tt
    → Received amount s (notify_payment_received amount c s).1
unfolding notify_payment_received
notify_payment_received-Received amount c s h =
    let t = (count_repaid amount c s).1 in
    let b = get_or_zero s.stored_balance in
    let z : ℤ = pos 0 in
    ground (
      arith,
      count_repaid_lem amount c s,
      add_surplus_lem amount c t,
      add_surplus_lem (amount -ℤ b) c (record t { stored_balance = some z }),
    )

net-Received : (amount : ℤ) (s t : Account) → Received amount s t → net t ≡ net s -ℤ amount
net-Received amount s t (inl (_, p, q)) = let e = ap get_or_zero p in rw (e, q) (omega int_laws)
net-Received amount s t (inr (inl (_, _, p, q))) = rw (p, q) (omega int_laws)
net-Received amount s t (inr (inr (_, p, q))) = rw (p, q) (omega int_laws)

sign-Received :
    (amount : ℤ) (s t : Account)
    → Received amount s t
    → let b = get_or_zero s.stored_balance in
      let b' = get_or_zero t.stored_balance in
      ((pos 0 <ℤ b) × (pos 0 ≤ℤ b')) ⊎ ((b ≤ℤ pos 0) × (t.stored_balance ≡ s.stored_balance))
sign-Received amount s t (inl (p, q, _)) = inr (p, q)
sign-Received amount s t (inr (inl (p, k, q, _))) = inl (p, rw q k)
sign-Received amount s t (inr (inr (p, q, _))) = inl (p, rw q (omega arith))

-- Where a payment of a peer is booked, the net balance falls by exactly its amount. A balance that
-- was positive is never driven below 0 by it, and one that was not is left as it was, so a payment
-- never puts us in debt.
pub notify_payment_received-net :
    (amount : ℤ) (c : Context) (s : Account)
    → (notify_payment_received amount c s).0 ≡ ok tt
    → let t = (notify_payment_received amount c s).1 in
      let b = get_or_zero s.stored_balance in
      let b' = get_or_zero t.stored_balance in
      (net t ≡ net s -ℤ amount)
      × (((pos 0 <ℤ b) × (pos 0 ≤ℤ b')) ⊎ ((b ≤ℤ pos 0) × (t.stored_balance ≡ s.stored_balance)))
notify_payment_received-net amount c s h =
    let r = notify_payment_received-Received amount c s h in
    let t = (notify_payment_received amount c s).1 in
    (net-Received amount s t r, sign-Received amount s t r)
