-- ===== src/Cheques/Issued/Funds.antt =====
-- What the node has issued never exceeds its funds.
use aicode.Prelude.{ℕ, ◌≡◌, refl, ap, ◌∙◌, ◌⊎◌, inl, inr, Bool-cases, some, arith}
use aicode.Prelude.Int.{ℤ, ◌+ℤ◌, ◌-ℤ◌, ◌≤ℤ◌, ltb_ℤ, int_laws, +ℤ_sub_cancel}
use aicode.Bytes.{Bytes}
use aicode.Effects.{Result-cases, ok, err}
use aicode.Cheques.{Cheque, Error, out_of_funds, store_failure, put}
use aicode.Cheques.Issued.{
  Surroundings, Chequebook, or_zero, payout, reserve_total_issued, issue_reserved, issue,
}

-- The funds that the chequebook has had: its balance and what it has paid out.
pub record Funds (c : Surroundings) (funds : ℤ) : Type 0 where
  pub balance : ℤ
  pub paid : ℤ
  pub has : c.balance ≡ ok balance
  pub gave : c.total_paid_out ≡ ok paid
  pub sum : funds ≡ balance +ℤ paid

pub reserve_cases :
    (c : Surroundings) (amount : ℤ) (s : Chequebook)
    → ((funds : ℤ) × Funds c funds
        × (or_zero s.total_issued +ℤ s.total_issued_reserved +ℤ amount ≤ℤ funds)
        × (reserve_total_issued c amount s ≡ (
          ok (funds -ℤ or_zero s.total_issued -ℤ amount),
          record s { total_issued_reserved = s.total_issued_reserved +ℤ amount },
        )))
      ⊎ ((e : Error) × (reserve_total_issued c amount s ≡ (err e, s)))
unfolding reserve_total_issued
reserve_cases c amount s = elim (Bool-cases c.get_total_fails) [
  | inl fails ↦ inr (store_failure, ground arith)
  | inr reads ↦ elim (Result-cases c.balance) [
    | inr (x, p) ↦ inr (x, ground arith)
    | inl (balance, p) ↦ elim (Result-cases c.total_paid_out) [
      | inr (x, q) ↦ inr (x, ground arith)
      | inl (paid, q) ↦
          let funds = balance +ℤ paid in
          elim (Bool-cases
            (ltb_ℤ (funds -ℤ or_zero s.total_issued -ℤ s.total_issued_reserved) amount)) [
              | inl less ↦ inr (out_of_funds, ground arith)
              | inr enough ↦ inl (
                funds,
                record { balance = balance; paid = paid; has = p; gave = q; sum = refl },
                let low : amount ≤ℤ funds -ℤ or_zero s.total_issued -ℤ s.total_issued_reserved =
                      ground arith in
                    omega int_laws,
                ground arith,
              )
            ]
    ]
  ]
]

-- The cheque that `issue` makes out.
abbrev pub next_cheque : Chequebook → ℕ → ℤ → Cheque
next_cheque s beneficiary amount = record {
  chequebook = s.address;
  beneficiary = beneficiary;
  cumulative_payout = payout (s.last_issued beneficiary) +ℤ amount;
}

-- The chequebook after a cheque was sent and stored, and its total counted.
abbrev pub counted : Chequebook → ℕ → ℤ → Chequebook
counted s beneficiary amount = record s {
  last_issued = put beneficiary (next_cheque s beneficiary amount) s.last_issued;
  total_issued = some (or_zero s.total_issued +ℤ amount);
}

abbrev pub Sent : Surroundings → Cheque → Type 0
Sent c cheque =
    (sig : Bytes) × (c.sign cheque ≡ ok sig)
    × (c.send (record { cheque = cheque; signature = sig }) ≡ ok tt)

issue_reserved_cases :
    (c : Surroundings) (beneficiary : ℕ) (amount available : ℤ) (s : Chequebook)
    → (Sent c (next_cheque s beneficiary amount)
        × (issue_reserved c beneficiary amount available s
            ≡ (ok available, counted s beneficiary amount)))
      ⊎ ((e : Error) × (t : Chequebook) × (issue_reserved c beneficiary amount available s
            ≡ (err e, t))
          × (t.total_issued ≡ s.total_issued)
          × (t.total_issued_reserved ≡ s.total_issued_reserved))
unfolding issue_reserved
issue_reserved_cases c beneficiary amount available s =
    let cheque = next_cheque s beneficiary amount in
    elim (Bool-cases c.get_last_fails) [
      | inl fails ↦ inr (store_failure, s, ground arith, refl, refl)
      | inr reads ↦ elim (Result-cases (c.sign cheque)) [
        | inr (x, p) ↦ inr (x, s, ground arith, refl, refl)
        | inl (sig, p) ↦
            elim (Result-cases (c.send (record { cheque = cheque; signature = sig }))) [
              | inr (x, q) ↦ inr (x, s, ground arith, refl, refl)
              | inl (u, q) ↦ elim (Bool-cases c.put_last_fails) [
                | inl fails ↦ inr (store_failure, s, ground arith, refl, refl)
                | inr puts ↦
                    let t = record s { last_issued = put beneficiary cheque s.last_issued } in
                    elim (Bool-cases c.get_total_again_fails) [
                      | inl fails ↦ inr (store_failure, t, ground arith, refl, refl)
                      | inr again ↦ elim (Bool-cases c.put_total_fails) [
                        | inl fails ↦ inr (store_failure, t, ground arith, refl, refl)
                        | inr counts ↦ inl ((sig, p, ground arith), ground arith)
                      ]
                    ]
              ]
            ]
      ]
    ]

-- A cheque that is issued is signed and sent, and its amount, with all that was issued and reserved before,
-- is within the funds; then the last payout of the beneficiary and the total are greater by the amount, and
-- the others are kept. Otherwise the total is as it was. The reserve is released in either case.
pub issue_covered :
    (c : Surroundings) (beneficiary : ℕ) (amount : ℤ) (s : Chequebook)
    → ((funds : ℤ) × Funds c funds
        × (or_zero s.total_issued +ℤ s.total_issued_reserved +ℤ amount ≤ℤ funds)
        × Sent c (next_cheque s beneficiary amount)
        × (issue c beneficiary amount s
            ≡ (ok (funds -ℤ or_zero s.total_issued -ℤ amount), counted s beneficiary amount)))
      ⊎ ((e : Error) × (t : Chequebook) × (issue c beneficiary amount s ≡ (err e, t))
          × (t.total_issued ≡ s.total_issued)
          × (t.total_issued_reserved ≡ s.total_issued_reserved))
unfolding issue
issue_covered c beneficiary amount s = elim (reserve_cases c amount s) [
  | inr (e, p) ↦ inr (e, s, rw p refl, refl, refl)
  | inl (funds, f, low, p) ↦
      let u = record s { total_issued_reserved = s.total_issued_reserved +ℤ amount } in
      let available = funds -ℤ or_zero s.total_issued -ℤ amount in
      elim (issue_reserved_cases c beneficiary amount available u) [
        | inl (sent, q) ↦ inl (
          funds,
          f,
          low,
          sent,
          rw (p, q)
              (ap
                (λ r. (
                  ok available,
                  record (counted s beneficiary amount) { total_issued_reserved = r },
                ))
                (+ℤ_sub_cancel s.total_issued_reserved amount)),
        )
        | inr (e, t, q, total, reserved) ↦ inr (
          e,
          record t { total_issued_reserved = t.total_issued_reserved -ℤ amount },
          rw (p, q) refl,
          total,
          ap (λ r. r -ℤ amount) reserved ∙ +ℤ_sub_cancel s.total_issued_reserved amount,
        )
      ]
]
