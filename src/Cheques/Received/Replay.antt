-- ===== src/Cheques/Received/Replay.antt =====
-- A cheque that is delivered again.
use aicode.Prelude.{ℕ, ◌≡◌, ap, inl, inr, Bool-cases, ◌∙◌, subst, List, [], ◌∷◌, ◌==◌, arith}
use aicode.Prelude.Int.{ℤ, pos, ◌-ℤ◌, ◌≤ℤ◌, ◌<ℤ◌, int_laws}
use aicode.Effects.{ok, err}
use aicode.Cheques.{Error, SignedCheque}
use aicode.Cheques.Received.{Chain, ChequeStore, receive_cheque}
use aicode.Cheques.Received.Payouts.{
  payout_in, receive_cheque-Accepted, payout_in-put, receive_cheque-payout_in,
}
use aicode.Cheques.Received.Earned.{Delivery, deliver, after}

no_less : (n last paid : ℤ) → n ≡ last -ℤ paid → pos 0 <ℤ n → paid ≤ℤ last
no_less n last paid e h = let k = subst (λ x. pos 0 <ℤ x) e h in omega int_laws

past : (last paid : ℤ) → last ≤ℤ paid → pos 0 <ℤ last -ℤ paid → ⊥
past last paid h k = omega int_laws

-- The payout that is stored for a chequebook never falls.
deliver-payout_in :
    (beneficiary i : ℕ) (d : Delivery) (s : ChequeStore)
    → payout_in s i ≤ℤ payout_in (deliver beneficiary d s).1 i
deliver-payout_in beneficiary i d s =
    elim (receive_cheque-Accepted beneficiary d.chain d.signed d.exchange_rate d.deduction s) [
      | inr (x, p) ↦ rw p (omega int_laws)
      | inl (amount, a, p) ↦
          let k = d.signed.cheque.chequebook in
          let last = d.signed.cheque.cumulative_payout in
          rw (p, payout_in-put k i d.signed s)
            elim (Bool-cases (k == i)) [
              | inl hit ↦
                  let same : k ≡ i = ground arith in
                  let e : amount ≡ last -ℤ payout_in s i =
                    a.difference ∙ ap (λ j. last -ℤ payout_in s j) same in
                  rw hit (no_less amount last (payout_in s i) e a.increasing)
              | inr miss ↦ rw miss (omega int_laws)
            ]
    ]

after-payout_in :
    (beneficiary i : ℕ) (s : ChequeStore) (ds : List Delivery)
    → payout_in s i ≤ℤ payout_in (after beneficiary s ds) i
after-payout_in beneficiary i s [] = omega int_laws
after-payout_in beneficiary i s (d ∷ ds) =
    let one = deliver-payout_in beneficiary i d s in
    let rest = after-payout_in beneficiary i (deliver beneficiary d s).1 ds in omega int_laws

-- A cheque that was accepted once is refused from then on, after any deliveries of cheques that follow, and
-- whatever the chain, the exchange rate and the deduction are then. The refusal leaves the store as it was.
pub receive_cheque_replay :
    (beneficiary other : ℕ) (c d : Chain) (signed : SignedCheque)
    (exchange_rate deduction amount exchange_rate' deduction' : ℤ) (s t : ChequeStore)
    (ds : List Delivery)
    → receive_cheque beneficiary c signed exchange_rate deduction s ≡ (ok amount, t)
    → let u = after beneficiary t ds in
      (e : Error) × (receive_cheque other d signed exchange_rate' deduction' u ≡ (err e, u))
receive_cheque_replay beneficiary other c d signed exchange_rate deduction amount exchange_rate'
      deduction' s t ds e =
    let u = after beneficiary t ds in
    let last = signed.cheque.cumulative_payout in
    let paid = payout_in u signed.cheque.chequebook in
    elim (receive_cheque-Accepted other d signed exchange_rate' deduction' u) [
      | inr r ↦ r
      | inl (more, a, _) ↦
          let same =
            receive_cheque-payout_in beneficiary c signed exchange_rate deduction amount s t e in
          let least : last ≤ℤ paid =
            subst (λ x. x ≤ℤ paid) same
              (after-payout_in beneficiary signed.cheque.chequebook t ds) in
          let above = subst (λ n. pos 0 <ℤ n) a.difference a.increasing in
          absurd (past last paid least above)
    ]
