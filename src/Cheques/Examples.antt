-- ===== src/Cheques/Examples.antt =====
-- The theorems on cheques at concrete cheques.
use aicode.Prelude.{◌≡◌, ◌⊎◌, refl, sym, ap₂, ◌∙◌, arith, false, none, some, List, [], ◌∷◌}
use aicode.Prelude.Int.{ℤ, pos, ◌+ℤ◌, ◌-ℤ◌, ◌≤ℤ◌}
use aicode.Effects.{ok, err}
use aicode.Cheques.{SignedCheque, Error, cheque_not_increasing, out_of_funds, put}
use aicode.Cheques.Received.{
  Chain, ChequeStore, receive_cheque, last_payout, check_contract, store_cheque,
}
use aicode.Cheques.Received.Payouts.{Accepted, payout_in, receive_cheque-Accepted}
use aicode.Cheques.Received.Replay.{receive_cheque_replay}
use aicode.Cheques.Received.Earned.{Delivery, earned, after, earned_difference}
use aicode.Cheques.Issued.{
  Surroundings, Chequebook, or_zero, issue, reserve_total_issued, issue_reserved,
}
use aicode.Cheques.Issued.Funds.{Funds, Sent, next_cheque, counted, issue_covered}
use aicode.Cheques.Issued.Overlap.{World, Event, starts, goes_on, run, amounts, uncounted}
use aicode.Cheques.Issued.Overlap.Limit.{overlapping-Within}

-- Address 9 has deployed the chequebook at address 5, which holds 1000 and has paid out 200.
abbrev chain : Chain
chain = record {
  verify_chequebook = λ i. ok tt;
  issuer = λ i. ok 9;
  balance = λ i. ok (pos 1000);
  paid_out = λ i b. ok (pos 200);
  recover = λ signed. ok 9;
  get_fails = λ i. false;
  put_fails = λ i. false;
}

abbrev promise : ℤ → SignedCheque
promise n = record {
  cheque = record { chequebook = 5; beneficiary = 7; cumulative_payout = n };
  signature = 1 ∷ [];
}

abbrev no_cheques : ChequeStore
no_cheques i = none

accepted_once :
    (receive_cheque 7 chain (promise (pos 300)) (pos 10) (pos 0) no_cheques).0 ≡ ok (pos 300)
unfolding receive_cheque last_payout check_contract store_cheque ◌-ℤ◌ ◌+ℤ◌
accepted_once = refl

refused_twice :
    (receive_cheque 7 chain
      (promise (pos 300))
      (pos 10)
      (pos 0)
      (put 5 (promise (pos 300)) no_cheques)).0
    ≡ err cheque_not_increasing
unfolding receive_cheque last_payout check_contract store_cheque ◌-ℤ◌ ◌+ℤ◌
refused_twice = refl

receive_cheque-Accepted_example :
    ((amount : ℤ) × Accepted 7 chain (promise (pos 300)) (pos 10) (pos 0) no_cheques amount
      × (receive_cheque 7 chain (promise (pos 300)) (pos 10) (pos 0) no_cheques
          ≡ (ok amount, put 5 (promise (pos 300)) no_cheques)))
    ⊎ ((e : Error) × (receive_cheque 7 chain (promise (pos 300)) (pos 10) (pos 0) no_cheques
          ≡ (err e, no_cheques)))
receive_cheque-Accepted_example =
    receive_cheque-Accepted 7 chain (promise (pos 300)) (pos 10) (pos 0) no_cheques

abbrev first_stored : ChequeStore
first_stored = put 5 (promise (pos 300)) no_cheques

first_run :
    receive_cheque 7 chain (promise (pos 300)) (pos 10) (pos 0) no_cheques
    ≡ (ok (pos 300), first_stored)
unfolding receive_cheque last_payout check_contract store_cheque ◌-ℤ◌ ◌+ℤ◌
first_run = refl

abbrev delivery : ℤ → Delivery
delivery n = record { chain = chain; signed = promise n; exchange_rate = pos 10; deduction = pos 0 }

-- Three cheques, the second of them a replay.
abbrev three : List Delivery
three = delivery (pos 300) ∷ delivery (pos 300) ∷ delivery (pos 450) ∷ []

-- The first cheque comes again after the three.
receive_cheque_replay_example :
    let u = after 7 first_stored three in
    (e : Error) × (receive_cheque 7 chain (promise (pos 300)) (pos 20) (pos 5) u ≡ (err e, u))
receive_cheque_replay_example =
    receive_cheque_replay 7 7 chain chain (promise (pos 300)) (pos 10) (pos 0) (pos 300) (pos 20)
      (pos 5) no_cheques first_stored three first_run

total_of_deliveries : earned 7 5 no_cheques three ≡ pos 450
unfolding receive_cheque last_payout check_contract store_cheque ◌-ℤ◌ ◌+ℤ◌
total_of_deliveries = refl

earned_difference_example :
    earned 7 5 no_cheques three ≡ payout_in (after 7 no_cheques three) 5 -ℤ payout_in no_cheques 5
earned_difference_example = earned_difference 7 5 no_cheques three

abbrev surroundings : Surroundings
surroundings = record {
  balance = ok (pos 800);
  total_paid_out = ok (pos 200);
  sign = λ cheque. ok (1 ∷ []);
  send = λ signed. ok tt;
  get_last_fails = false;
  get_total_fails = false;
  get_total_again_fails = false;
  put_last_fails = false;
  put_total_fails = false;
}

-- 600 are issued, 250 of them to 7.
abbrev issuing : Chequebook
issuing = record {
  address = 5;
  last_issued =
      put 7 (record { chequebook = 5; beneficiary = 7; cumulative_payout = pos 250 }) (λ i. none);
  total_issued = some (pos 600);
  total_issued_reserved = pos 0;
}

issues_rest : (issue surroundings 7 (pos 400) issuing).0 ≡ ok (pos 0)
unfolding issue reserve_total_issued issue_reserved ◌-ℤ◌ ◌+ℤ◌
issues_rest = refl

issues_no_more : (issue surroundings 7 (pos 401) issuing).0 ≡ err out_of_funds
unfolding issue reserve_total_issued issue_reserved ◌-ℤ◌ ◌+ℤ◌
issues_no_more = refl

issue_covered_example :
    ((funds : ℤ) × Funds surroundings funds
      × (or_zero issuing.total_issued +ℤ issuing.total_issued_reserved +ℤ pos 400 ≤ℤ funds)
      × Sent surroundings (next_cheque issuing 7 (pos 400))
      × (issue surroundings 7 (pos 400) issuing
          ≡ (ok (funds -ℤ or_zero issuing.total_issued -ℤ pos 400), counted issuing 7 (pos 400))))
    ⊎ ((e : Error) × (t : Chequebook) × (issue surroundings 7 (pos 400) issuing ≡ (err e, t))
        × (t.total_issued ≡ issuing.total_issued)
        × (t.total_issued_reserved ≡ issuing.total_issued_reserved))
issue_covered_example = issue_covered surroundings 7 (pos 400) issuing

funds_limit : (funds : ℤ) → Funds surroundings funds → funds ≤ℤ pos 1000
unfolding ◌+ℤ◌
funds_limit funds f =
    let b : pos 800 ≡ f.balance = cc in
    let p : pos 200 ≡ f.paid = cc in
    let e : funds ≡ pos 1000 = f.sum ∙ sym (ap₂ (◌+ℤ◌) b p) in rw e (ground arith)

-- Two calls are under way when a third one finds too little left, and the first one goes on until it is counted.
abbrev two_calls : List Event
two_calls =
    starts surroundings 7 200
    ∷ starts surroundings 8 150
    ∷ goes_on surroundings 0
    ∷ starts surroundings 9 100
    ∷ goes_on surroundings 1
    ∷ goes_on surroundings 1
    ∷ goes_on surroundings 1
    ∷ []

abbrev world : World
world = run two_calls (record { book = issuing; calls = [] })

-- The first amount is in the total and reserved as well, until its call gives it back.
counted_twice :
    (world.book.total_issued ≡ some (pos 800)) × (world.book.total_issued_reserved ≡ pos 350)
unfolding reserve_total_issued ◌-ℤ◌ ◌+ℤ◌
counted_twice = (refl, refl)

overlapping-Within_example :
    (or_zero world.book.total_issued ≤ℤ pos 1000)
    × (or_zero world.book.total_issued +ℤ uncounted world.calls ≤ℤ pos 1000)
    × (world.book.total_issued_reserved ≡ amounts world.calls)
overlapping-Within_example =
    overlapping-Within (pos 1000) two_calls issuing
      (funds_limit, (funds_limit, (tt, (funds_limit, (tt, (tt, (tt, tt))))))) refl (ground arith)
