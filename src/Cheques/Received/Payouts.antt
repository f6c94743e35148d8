-- ===== src/Cheques/Received/Payouts.antt =====
-- What a received cheque adds.
use aicode.Prelude.{
  ℕ, ◌≡◌, refl, sym, ap, ◌∙◌, ◌⊎◌, inl, inr, Bool-cases, Option, none, some, Option-cases, ◌==◌,
  if◌then◌else◌, arith,
}
use aicode.Prelude.Int.{ℤ, pos, ◌-ℤ◌, ◌≤ℤ◌, ◌<ℤ◌, ltb_ℤ, leb_ℤ}
use aicode.Effects.{Result-cases, ok, err}
use aicode.Cheques.{
  SignedCheque, Error, cheque_not_increasing, store_failure, cheque_invalid, bouncing_cheque,
  wrong_beneficiary, cheque_value_too_low, put,
}
use aicode.Cheques.Received.{
  Chain, ChequeStore, last_payout, check_contract, store_cheque, receive_cheque,
}

abbrev value : Option SignedCheque → ℤ
value none = pos 0
value (some last) = last.cheque.cumulative_payout

-- The payout that is stored for a chequebook.
abbrev pub payout_in : ChequeStore → ℕ → ℤ
payout_in s i = value (s i)

last_payout_cases :
    (c : Chain) (i : ℕ) (s : ChequeStore)
    → (last_payout c i s ≡ (ok (payout_in s i), s))
      ⊎ ((e : Error) × (last_payout c i s ≡ (err e, s)))
unfolding last_payout
last_payout_cases c i s = elim (Bool-cases (c.get_fails i)) [
  | inl fails ↦ inr (store_failure, ground arith)
  | inr reads ↦ elim (Option-cases (s i)) [
    | inl p ↦ elim (Result-cases (c.verify_chequebook i)) [
      | inl (tt, q) ↦ inl (ground arith)
      | inr (x, q) ↦ inr (x, ground arith)
    ]
    | inr (x, p) ↦ inl (ground arith)
  ]
]

-- The contract's issuer signed the cheque, and its balance covers what is not yet paid out.
pub record Covered (c : Chain) (beneficiary : ℕ) (signed : SignedCheque) : Type 0 where
  pub issuer : ℕ
  pub expected : c.issuer signed.cheque.chequebook ≡ ok issuer
  pub recovered : c.recover signed ≡ ok issuer
  pub balance : ℤ
  pub already : ℤ
  pub has : c.balance signed.cheque.chequebook ≡ ok balance
  pub paid : c.paid_out signed.cheque.chequebook beneficiary ≡ ok already
  pub covers : signed.cheque.cumulative_payout -ℤ already ≤ℤ balance

check_contract_cases :
    (c : Chain) (beneficiary : ℕ) (signed : SignedCheque) (s : ChequeStore)
    → (Covered c beneficiary signed × (check_contract c beneficiary signed s ≡ (ok tt, s)))
      ⊎ ((e : Error) × (check_contract c beneficiary signed s ≡ (err e, s)))
unfolding check_contract
check_contract_cases c beneficiary signed s =
    let i = signed.cheque.chequebook in
    elim (Result-cases (c.issuer i)) [
      | inr (x, p) ↦ inr (x, ground arith)
      | inl (expected, p) ↦ elim (Result-cases (c.recover signed)) [
        | inr (x, q) ↦ inr (x, ground arith)
        | inl (issuer, q) ↦ elim (Bool-cases (issuer == expected)) [
          | inr other ↦ inr (cheque_invalid, ground arith)
          | inl same ↦ elim (Result-cases (c.balance i)) [
            | inr (x, r) ↦ inr (x, ground arith)
            | inl (balance, r) ↦ elim (Result-cases (c.paid_out i beneficiary)) [
              | inr (x, h) ↦ inr (x, ground arith)
              | inl (already, h) ↦
                  elim (Bool-cases (ltb_ℤ balance (signed.cheque.cumulative_payout -ℤ already))) [
                    | inl less ↦ inr (bouncing_cheque, ground arith)
                    | inr enough ↦ inl (
                      record {
                        issuer = issuer;
                        expected = ground arith;
                        recovered = q;
                        balance = balance;
                        already = already;
                        has = r;
                        paid = h;
                        covers = ground arith;
                      },
                      ground arith,
                    )
                  ]
            ]
          ]
        ]
      ]
    ]

store_cheque_cases :
    (c : Chain) (signed : SignedCheque) (s : ChequeStore)
    → (store_cheque c signed s ≡ (ok tt, put signed.cheque.chequebook signed s))
      ⊎ (store_cheque c signed s ≡ (err store_failure, s))
unfolding store_cheque
store_cheque_cases c signed s = ground arith

-- What an accepted cheque satisfies.
pub record Accepted (beneficiary : ℕ) (c : Chain) (signed : SignedCheque)
    (exchange_rate deduction : ℤ) (s : ChequeStore) (amount : ℤ) : Type 0 where
  pub ours : signed.cheque.beneficiary ≡ beneficiary
  pub difference : amount ≡ signed.cheque.cumulative_payout -ℤ payout_in s signed.cheque.chequebook
  pub increasing : pos 0 <ℤ amount
  pub worth : exchange_rate ≤ℤ amount -ℤ deduction
  pub covered : Covered c beneficiary signed

-- A cheque is either accepted or leaves the store as it was. One that is accepted is made out to the node
-- and signed by the issuer of its chequebook; it adds the amount by which it exceeds the last one of its
-- chequebook, which is positive and, less the deduction, at least the exchange rate; the balance of the
-- contract covers what is not yet paid out. It becomes the last cheque of its chequebook, and the others
-- are kept.
pub receive_cheque-Accepted :
    (beneficiary : ℕ) (c : Chain) (signed : SignedCheque) (exchange_rate deduction : ℤ)
    (s : ChequeStore)
    → ((amount : ℤ) × Accepted beneficiary c signed exchange_rate deduction s amount
        × (receive_cheque beneficiary c signed exchange_rate deduction s
            ≡ (ok amount, put signed.cheque.chequebook signed s)))
      ⊎ ((e : Error) × (receive_cheque beneficiary c signed exchange_rate deduction s ≡ (err e, s)))
unfolding receive_cheque
receive_cheque-Accepted beneficiary c signed exchange_rate deduction s =
    let i = signed.cheque.chequebook in
    let amount = signed.cheque.cumulative_payout -ℤ payout_in s i in
    elim (Bool-cases (signed.cheque.beneficiary == beneficiary)) [
      | inr other ↦ inr (wrong_beneficiary, ground arith)
      | inl ours ↦ elim (last_payout_cases c i s) [
        | inr (x, p) ↦ inr (x, ground arith)
        | inl p ↦ elim (Bool-cases (leb_ℤ amount (pos 0))) [
          | inl low ↦ inr (cheque_not_increasing, ground arith)
          | inr more ↦ elim (Bool-cases (ltb_ℤ (amount -ℤ deduction) exchange_rate)) [
            | inl low ↦ inr (cheque_value_too_low, ground arith)
            | inr worth ↦ elim (check_contract_cases c beneficiary signed s) [
              | inr (x, q) ↦ inr (x, ground arith)
              | inl (covered, q) ↦ elim (store_cheque_cases c signed s) [
                | inr r ↦ inr (store_failure, ground arith)
                | inl r ↦ inl (
                  amount,
                  record {
                    ours = ground arith;
                    difference = refl;
                    increasing = ground arith;
                    worth = ground arith;
                    covered = covered;
                  },
                  ground arith,
                )
              ]
            ]
          ]
        ]
      ]
    ]

pub payout_in-put :
    (k j : ℕ) (signed : SignedCheque) (s : ChequeStore)
    → payout_in (put k signed s) j
      ≡ (if k == j then signed.cheque.cumulative_payout else payout_in s j)
payout_in-put k j signed s = elim (Bool-cases (k == j)) [
  | inl hit ↦ let e : put k signed s j ≡ some signed = ground arith in ap value e ∙ rw hit refl
  | inr miss ↦ let e : put k signed s j ≡ s j = ground arith in ap value e ∙ rw miss refl
]

pub receive_cheque-payout_in :
    (beneficiary : ℕ) (c : Chain) (signed : SignedCheque) (exchange_rate deduction amount : ℤ)
    (s t : ChequeStore)
    → receive_cheque beneficiary c signed exchange_rate deduction s ≡ (ok amount, t)
    → payout_in t signed.cheque.chequebook ≡ signed.cheque.cumulative_payout
receive_cheque-payout_in beneficiary c signed exchange_rate deduction amount s t e =
    elim (receive_cheque-Accepted beneficiary c signed exchange_rate deduction s) [
      | inr (x, p) ↦ absurd (ground arith)
      | inl (_, _, p) ↦
          let q : t ≡ put signed.cheque.chequebook signed s = ap (λ r. r.1) (sym e ∙ p) in
          ap (λ u. payout_in u signed.cheque.chequebook) q
          ∙ (payout_in-put signed.cheque.chequebook signed.cheque.chequebook signed s
              ∙ ground arith)
    ]
