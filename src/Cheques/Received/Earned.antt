-- ===== src/Cheques/Received/Earned.antt =====
-- What a sequence of received cheques earns.
use aicode.Prelude.{
  ℕ, ◌≡◌, ap, ap₂, ◌∙◌, inl, inr, Bool-cases, List, [], ◌∷◌, ◌==◌, if◌then◌else◌, arith,
}
use aicode.Prelude.Int.{ℤ, pos, ◌+ℤ◌, ◌-ℤ◌, int_laws}
use aicode.Effects.{Result, ok, err}
use aicode.Cheques.{SignedCheque, Error}
use aicode.Cheques.Received.{Chain, ChequeStore, receive_cheque}
use aicode.Cheques.Received.Payouts.{payout_in, receive_cheque-Accepted, payout_in-put}

telescope : (a b c : ℤ) → b -ℤ a +ℤ (c -ℤ b) ≡ c -ℤ a
telescope a b c = omega int_laws

-- A cheque that a peer delivers, with what the chain and the price oracle say then.
pub record Delivery : Type 0 where
  pub chain : Chain
  pub signed : SignedCheque
  pub exchange_rate : ℤ
  pub deduction : ℤ

abbrev pub deliver : ℕ → Delivery → ChequeStore → Result Error ℤ × ChequeStore
deliver beneficiary d = receive_cheque beneficiary d.chain d.signed d.exchange_rate d.deduction

abbrev gain : ℕ → ℕ → Result Error ℤ → ℤ
gain i j (err e) = pos 0
gain i j (ok amount) = if j == i then amount else pos 0

-- What a sequence of deliveries earns from one chequebook, and the store after it.
abbrev pub earned : ℕ → ℕ → ChequeStore → List Delivery → ℤ
earned beneficiary i s [] = pos 0
earned beneficiary i s (d ∷ ds) =
    let r = deliver beneficiary d s in
    gain i d.signed.cheque.chequebook r.0 +ℤ earned beneficiary i r.1 ds

abbrev pub after : ℕ → ChequeStore → List Delivery → ChequeStore
after beneficiary s [] = s
after beneficiary s (d ∷ ds) = after beneficiary (deliver beneficiary d s).1 ds

deliver-gain :
    (beneficiary i : ℕ) (d : Delivery) (s : ChequeStore)
    → gain i d.signed.cheque.chequebook (deliver beneficiary d s).0
      ≡ payout_in (deliver beneficiary d s).1 i -ℤ payout_in s i
deliver-gain beneficiary i d s =
    elim (receive_cheque-Accepted beneficiary d.chain d.signed d.exchange_rate d.deduction s) [
      | inr (x, p) ↦ rw p (omega int_laws)
      | inl (amount, a, p) ↦
          let k = d.signed.cheque.chequebook in
          rw (p, payout_in-put k i d.signed s)
            elim (Bool-cases (k == i)) [
              | inl hit ↦
                  let same : k ≡ i = ground arith in
                  rw hit (
                    a.difference
                    ∙ ap (λ j. d.signed.cheque.cumulative_payout -ℤ payout_in s j) same)
              | inr miss ↦ rw miss (omega int_laws)
            ]
    ]

-- What any sequence of deliveries earns from a chequebook, refused ones included, is the difference of the
-- payouts stored for it after and before: nothing is earned twice and nothing is lost.
pub earned_difference :
    (beneficiary i : ℕ) (s : ChequeStore) (ds : List Delivery)
    → earned beneficiary i s ds ≡ payout_in (after beneficiary s ds) i -ℤ payout_in s i
earned_difference beneficiary i s [] = omega int_laws
earned_difference beneficiary i s (d ∷ ds) =
    let t = (deliver beneficiary d s).1 in
    ap₂ (◌+ℤ◌) (deliver-gain beneficiary i d s) (earned_difference beneficiary i t ds)
    ∙ telescope (payout_in s i) (payout_in t i) (payout_in (after beneficiary t ds) i)
