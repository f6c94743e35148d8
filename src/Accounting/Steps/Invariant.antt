-- ===== src/Accounting/Steps/Invariant.antt =====
-- What every history of operations keeps.
use aicode.Prelude.{◌≡◌, sym, subst, inl, inr, ℕ, Bool, false, some, arith}
use aicode.Prelude.Int.{ℤ, pos, ◌+ℤ◌, ◌-ℤ◌, -ℤ_parts}
use aicode.Accounting.{Config, Context, Account, Result-cases}
use aicode.Accounting.Balances.{percent_of, decrease_originated_balance_to}
use aicode.Accounting.Credit.Overdraft.{settle_early-cases, prepare_credit-cases}
use aicode.Accounting.Payments.Surplus.{count_repaid_lem}
use aicode.Accounting.Blocking.{blocklist}
use aicode.Accounting.Refreshments.{
  RefreshOutcome, accept_refreshment, notify_refreshment_sent, notify_refreshment_received,
}
use aicode.Accounting.Debit.Conservation.{get_or_zero}
use aicode.Accounting.Credit.{
  CreditAction, credit_apply, settle_credited, credit_follow_up, credit_charge, credit_originate,
  credit_cleanup, prepare_credit, settle_early,
}
use aicode.Accounting.Debit.{DebitAction, debit_apply, debit_cleanup, increase_balance}
use aicode.Accounting.Payments.{count_repaid, notify_payment_received}
use aicode.Accounting.Peers.{new_accounting, new_account}
use aicode.Accounting.Steps.{
  Operation, connects, disconnects, prepares_credit, applies_credit, gives_up_credit,
  prepares_debit, applies_debit, gives_up_debit, sent_payment, received_payment, changed_threshold,
  sent_refreshment, received_refreshment, run, Allowed, Reach, here, next,
}
use aicode.Accounting.Steps.Parts.{
  Inv, settle-Inv, connect-Inv, disconnect-Inv, prepare_debit-Inv, threshold-Inv, sent-Inv,
  increase_balance-Inv, debit_follow_up-Inv, credit_charge-Inv, credit_originate-Inv,
  reserve_credit-Inv, count_repaid-Inv, add_surplus-Inv,
}

settle_early-Inv :
    (f : Config) (price : ℤ) (c : Context) (s : Account)
    → Inv f s
    → Inv f (settle_early price c s).1
settle_early-Inv f price c s v = elim (settle_early-cases price c s) [
  | inl p ↦ rw p v
  | inr p ↦ rw p (settle-Inv f c s v)
]

prepare_credit-Inv :
    (f : Config) (price : ℕ) (o : Bool) (c : Context) (s : Account)
    → Inv f s
    → Inv f (prepare_credit false price o c s).1
prepare_credit-Inv f price o c s v = elim (prepare_credit-cases false price o c s) [
  | inl (e, p) ↦ rw p v
  | inr (inl (e, p)) ↦ rw p (settle_early-Inv f (pos price) c s v)
  | inr (inr (x, _, p)) ↦
      rw p (reserve_credit-Inv f price o x c _ (settle_early-Inv f (pos price) c s v))
]

settle_credited-Inv :
    (f : Config) (x : ℤ) (c : Context) (s : Account) → Inv f s → Inv f (settle_credited x c s).1
unfolding settle_credited
settle_credited-Inv f x c s v = ground (arith, settle-Inv f c s v)

credit_follow_up-Inv :
    (f : Config) (a : CreditAction) (x b : ℤ) (c : Context) (s : Account)
    → Inv f s
    → Inv f (credit_follow_up a x b c s).1
unfolding credit_follow_up
credit_follow_up-Inv f a x b c s v = ground (
  arith,
  credit_originate-Inv f a.price b c s v,
  settle_credited-Inv f x c s v,
  settle_credited-Inv f x c (credit_originate a.price b c s).1,
)

credit_apply-Inv :
    (f : Config) (n : ℕ) (o : Bool) (c : Context) (s : Account)
    → Inv f s
    → Inv f (credit_apply (record { price = pos n; originated = o; applied = false }) c s).2
unfolding credit_apply
credit_apply-Inv f n o c s v =
    let a : CreditAction = record { price = pos n; originated = o; applied = false } in
    elim (Result-cases (credit_charge (pos n) c s).0) [
      | inl ((x, b), p) ↦
          rw (p, credit_apply)
            (credit_follow_up-Inv f a x b c (credit_charge (pos n) c s).1
              (credit_charge-Inv f n c s v))
      | inr (e, p) ↦ rw (p, credit_apply) (credit_charge-Inv f n c s v)
    ]

credit_cleanup-Inv :
    (f : Config) (n : ℕ) (o : Bool) (c : Context) (s : Account)
    → Inv f s
    → Inv f (credit_cleanup (record { price = pos n; originated = o; applied = false }) c s).1
unfolding credit_cleanup
credit_cleanup-Inv f n o c s v = ground (arith, -ℤ_parts s.reserved_balance (pos n))

debit_apply-Inv :
    (f : Config) (d : DebitAction) (c : Context) (s : Account)
    → Inv f s
    → Inv f (debit_apply d c s).2
unfolding debit_apply
debit_apply-Inv f d c s v = elim (Result-cases (increase_balance d.price c s).0) [
  | inl (b, p) ↦
      rw (p, debit_apply)
        (debit_follow_up-Inv f d.price b c _ (increase_balance-Inv f d.price c s v))
  | inr (e, p) ↦ rw (p, debit_apply) (increase_balance-Inv f d.price c s v)
]

debit_cleanup-Inv :
    (f : Config) (d : DebitAction) (c : Context) (s : Account)
    → Inv f s
    → Inv f (debit_cleanup d c s).1
unfolding debit_cleanup blocklist
debit_cleanup-Inv f d c s v = ground arith

received-Inv :
    (n : ℕ) (c : Context) (s : Account)
    → Inv c.config s
    → Inv c.config (notify_payment_received (pos n) c s).1
unfolding notify_payment_received
received-Inv n c s v =
    let t = (count_repaid (pos n) c s).1 in
    let b = get_or_zero s.stored_balance in
    let z : ℤ = pos 0 in
    ground (
      arith,
      count_repaid-Inv (pos n) c s v,
      count_repaid_lem (pos n) c s,
      add_surplus-Inv c.config (pos n) c t,
      add_surplus-Inv c.config (pos n -ℤ b) c (record t { stored_balance = some z }),
      -ℤ_parts b (pos n),
      -ℤ_parts (pos n) b,
    )

refreshed-Inv :
    (f : Config) (attempted amount time interval : ℤ) (o : RefreshOutcome) (c : Context)
    (s : Account)
    → Inv f s
    → Inv f (notify_refreshment_sent attempted amount time interval o c s).1
unfolding notify_refreshment_sent accept_refreshment blocklist decrease_originated_balance_to
refreshed-Inv f attempted amount time interval o c s v = ground arith

received_refreshment-Inv :
    (amount time : ℤ) (c : Context) (s : Account)
    → Inv c.config s
    → Inv c.config (notify_refreshment_received amount time c s).1
unfolding notify_refreshment_received
received_refreshment-Inv amount time c s v =
    ground (arith, count_repaid-Inv amount c s v, count_repaid_lem amount c s)

-- The limits of a configuration that `Connect` hands out.
pub record IsConsistent (f : Config) : Type 0 where
  pub full_limit :
      f.base_disconnect_limit ≡ percent_of (pos 100 +ℤ f.payment_tolerance) f.base_payment_threshold
  pub light_limit :
      f.light_disconnect_limit
      ≡ percent_of (pos 100 +ℤ f.payment_tolerance) f.light_payment_threshold

run-Inv :
    (o : Operation) (c : Context) (s : Account)
    → IsConsistent c.config
    → Allowed o s
    → Inv c.config s
    → Inv c.config (run o c s)
unfolding run
run-Inv (connects full) c s k h v = connect-Inv full c s k.full_limit k.light_limit v
run-Inv disconnects c s k h v = disconnect-Inv c.config c s v
run-Inv (prepares_credit n o) c s k h v = prepare_credit-Inv c.config n o c s v
run-Inv (applies_credit n o) c s k h v = credit_apply-Inv c.config n o c s v
run-Inv (gives_up_credit n o) c s k h v = credit_cleanup-Inv c.config n o c s v
run-Inv (prepares_debit n) c s k h v = prepare_debit-Inv c.config n c s v
run-Inv (applies_debit n) c s k h v = debit_apply-Inv c.config _ c s v
run-Inv (gives_up_debit n) c s k h v = debit_cleanup-Inv c.config _ c s v
run-Inv (sent_payment amount failed) c s k h v = sent-Inv c.config amount failed c s h v
run-Inv (received_payment n) c s k h v = received-Inv n c s v
run-Inv (changed_threshold x) c s k h v = threshold-Inv x c s v
run-Inv (sent_refreshment a b t i o) c s k h v = refreshed-Inv c.config a b t i o c s v
run-Inv (received_refreshment n t) c s k h v = received_refreshment-Inv n t c s v

new_account-Inv :
    (threshold tolerance early rate factor : ℤ) (pays : Bool)
    → let f = new_accounting threshold tolerance early rate factor pays in
      IsConsistent f × Inv f (new_account f)
unfolding new_accounting new_account
new_account-Inv threshold tolerance early rate factor pays = (ground arith, ground arith)

Reach-Inv : (f : Config) {s t : Account} → IsConsistent f → Inv f s → Reach f s t → Inv f t
Reach-Inv f k v here = v
Reach-Inv f k v (next {t} r o c e h) =
    subst (λ g. Inv g (run o c t)) e
      (run-Inv o c t (subst IsConsistent (sym e) k) h
        (subst (λ g. Inv g t) (sym e) (Reach-Inv f k v r)))

-- In every history of a peer, from its first appearance on and whatever fails in the store: the
-- disconnect limit and the early payment threshold are the configured percentages of the thresholds
-- given and received, the reserve and the surplus balance are never negative, and the wait group
-- counts one payment exactly while one is under way. The settlement service is assumed to report
-- the end of a payment only while one is under way.
pub reachable_invariant :
    (threshold tolerance early rate factor : ℤ) (pays : Bool) (t : Account)
    → let f = new_accounting threshold tolerance early rate factor pays in
      Reach f (new_account f) t → Inv f t
reachable_invariant threshold tolerance early rate factor pays t r =
    let (k, v) = new_account-Inv threshold tolerance early rate factor pays in Reach-Inv _ k v r
