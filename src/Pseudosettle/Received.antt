-- ===== src/Pseudosettle/Received.antt =====
-- What a peer is forgiven.
pub mod History
use aicode.Prelude.{
  ℕ, ◌≡◌, ◌≢◌, refl, sym, ap, ap₂, subst, ◌∙◌, ◌⊎◌, inl, inr, Bool, true, false, Bool-cases, Option,
  none, some, Option-cases, ◌==◌, if◌then◌else◌, arith, not,
}
use aicode.Prelude.Int.{
  ℤ, pos, ◌+ℤ◌, ◌-ℤ◌, ◌*ℤ◌, ◌≤ℤ◌, ◌<ℤ◌, ltb_ℤ, leb_ℤ, min_ℤ, max_ℤ, ◌==ℤ◌, int_laws,
}
use aicode.Accounting
use aicode.Accounting.{Context, Account, Key, peer_balance_key}
use aicode.Accounting.Balances.{peer_debt}
use aicode.Accounting.Debit.Conservation.{get_or_zero}
use aicode.Accounting.Refreshments.{notify_refreshment_received}
use aicode.Effects.{Result, Result-cases, Run-cases, ok, err}
use aicode.Pseudosettle.{
  Error, store_failure, settlement_too_soon, no_pseudo_settle_peer, write_failure, unbooked,
  LastPayment, Service, Rates, Surroundings, or_new, rate_of, on_account, with_account, known,
  peer_allowance, payment_amount, add_received, handle,
}

-- What the peer owes, with what it is about to owe.
abbrev pub debt_of : Account → ℤ
debt_of a = max_ℤ (get_or_zero a.stored_balance +ℤ a.shadow_reserved_balance) (pos 0)

peer_debt_cases :
    (c : Context) (a : Account)
    → (peer_debt c a ≡ (Accounting.ok (debt_of a), a))
      ⊎ ((e : Accounting.Error) × (peer_debt c a ≡ (Accounting.err e, a)))
unfolding peer_debt
peer_debt_cases c a = elim (Bool-cases (c.get_fails peer_balance_key)) [
  | inl fails ↦ inr (Accounting.store_failure, ground arith)
  | inr reads ↦ elim (Option-cases a.stored_balance) [
    | inl e ↦ inl (ground arith)
    | inr (x, e) ↦ inl (ground arith)
  ]
]

-- The most that is forgiven: the debt, or the time's worth of the rate.
abbrev pub allowance : Surroundings → Bool → Service → ℤ
allowance c full s =
    min_ℤ (debt_of s.account) ((c.now -ℤ (or_new s.received).timestamp) *ℤ rate_of c.rates full)

peer_allowance_cases :
    (c : Surroundings) (full : Bool) (s : Service)
    → (((c.now ==ℤ (or_new s.received).timestamp) ≡ false)
        × (peer_allowance c full s ≡ (ok (allowance c full s), s)))
      ⊎ ((e : Error) × (peer_allowance c full s ≡ (err e, s)))
unfolding peer_allowance
peer_allowance_cases c full s = elim (Bool-cases c.get_fails) [
  | inl fails ↦ inr (store_failure, ground arith)
  | inr reads ↦ elim (Bool-cases (c.now ==ℤ (or_new s.received).timestamp)) [
    | inl soon ↦ inr (settlement_too_soon, ground arith)
    | inr later ↦ elim (peer_debt_cases c.context s.account) [
      | inl p ↦ inl (later, ground arith)
      | inr (e, p) ↦ inr (unbooked e, ground arith)
    ]
  ]
]

-- The time of the last refreshment, or 0 before the first one.
abbrev pub time_of_last : Option LastPayment → ℤ
time_of_last none = pos 0
time_of_last (some last) = last.timestamp

exact_amount :
    (c : Surroundings) (s : Service) (full : Bool) (attempted : ℕ)
    → payment_amount attempted (allowance c full s)
      ≡ max_ℤ
          (min_ℤ (pos attempted) (
            min_ℤ (debt_of s.account) (
              (c.now -ℤ time_of_last s.received)
              *ℤ (if full then c.rates.refresh_rate else c.rates.light_refresh_rate))))
          (pos 0)
exact_amount c s full attempted = elim (Option-cases s.received) [
  | inl e ↦ rw e refl
  | inr (last, e) ↦ rw e refl
]

-- What a refreshment that is taken in satisfies.
pub record Forgiven (c : Surroundings) (s : Service) (amount : ℤ) : Type 0 where
  pub full : Bool
  pub connected : s.full_node ≡ some full
  pub attempted : ℕ
  pub asked : c.request ≡ ok attempted
  pub later : (c.now ==ℤ (or_new s.received).timestamp) ≡ false
  pub exact :
      amount
      ≡ max_ℤ
          (min_ℤ (pos attempted) (
            min_ℤ (debt_of s.account) (
              (c.now -ℤ time_of_last s.received)
              *ℤ (if full then c.rates.refresh_rate else c.rates.light_refresh_rate))))
          (pos 0)

-- The amount by the code's own limits.
pub amount_of :
    (c : Surroundings) (s : Service) (amount : ℤ) (f : Forgiven c s amount)
    → amount ≡ payment_amount f.attempted (allowance c f.full s)
amount_of c s amount f = f.exact ∙ sym (exact_amount c s f.full f.attempted)

pub handle-Forgiven :
    (c : Surroundings) (s : Service)
    → ((amount : ℤ) × Forgiven c s amount
        × (handle c s
            ≡ on_account c.context
                (notify_refreshment_received amount c.now)
                (add_received c.now amount s)))
      ⊎ ((e : Error) × (handle c s ≡ (err e, s)))
unfolding handle
handle-Forgiven c s = elim (Result-cases c.request) [
  | inr (x, p) ↦ inr (x, ground arith)
  | inl (attempted, asked) ↦ elim (Option-cases s.full_node) [
    | inl unknown ↦ inr (no_pseudo_settle_peer, ground arith)
    | inr (full, connected) ↦ elim (peer_allowance_cases c full s) [
      | inr (e, p) ↦ inr (e, ground arith)
      | inl (later, p) ↦ elim (Bool-cases c.write_fails) [
        | inl fails ↦ inr (write_failure, ground arith)
        | inr writes ↦ elim (Bool-cases c.get_again_fails) [
          | inl fails ↦ inr (store_failure, ground arith)
          | inr reads ↦ elim (Bool-cases c.put_fails) [
            | inl fails ↦ inr (store_failure, ground arith)
            | inr puts ↦ inl (
              payment_amount attempted (allowance c full s),
              record {
                full = full;
                connected = connected;
                attempted = attempted;
                asked = asked;
                later = later;
                exact = exact_amount c s full attempted;
              },
              ground arith,
            )
          ]
        ]
      ]
    ]
  ]
]
