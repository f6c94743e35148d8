-- ===== src/Cheques/Issued/Overlap.antt =====
-- Calls of `Issue` that overlap.
pub mod Limit
use aicode.Prelude.{
  ℕ, zero, suc, ◌≡◌, refl, sym, ap, subst, ◌∙◌, inl, inr, Bool-cases, Option, none, some, List, [],
  ◌∷◌, All,
}
use aicode.Prelude.Int.{ℤ, pos, ◌+ℤ◌, ◌-ℤ◌, ◌≤ℤ◌, int_laws}
use aicode.Effects.{Result, Result-cases, ok, err}
use aicode.Cheques.{Cheque, Error}
use aicode.Cheques.Issued.{
  Surroundings, Chequebook, or_zero, reserve_total_issued, make_cheque, deliver_cheque,
  count_issued, release_reserved,
}
use aicode.Cheques.Issued.Funds.{Funds, reserve_cases}

-- What a call has come to: only what is locked runs without others in between.
pub data Stage : Type 0 where
  reserved sent counted failed : Stage
  made : Cheque → Stage

-- A call that has reserved its amount.
pub record Call : Type 0 where
  pub beneficiary : ℕ
  pub amount : ℕ
  pub stage : Stage

pub record World : Type 0 where
  pub book : Chequebook
  pub calls : List Call

abbrev pub made_out : Call → Result Error Cheque → Call
made_out k (ok cheque) = record k { stage = made cheque }
made_out k (err e) = record k { stage = failed }

abbrev pub went_on : Call → Stage → Result Error (Unit {0}) → Call
went_on k next (ok u) = record k { stage = next }
went_on k next (err e) = record k { stage = failed }

-- The next part of a call. The last one, after a failure too, gives the reserve back.
abbrev pub advance : Surroundings → ℕ → ℕ → Stage → Chequebook → Option Call × Chequebook
advance c beneficiary amount reserved s =
    let k : Call = record { beneficiary = beneficiary; amount = amount; stage = reserved } in
    let r = make_cheque c beneficiary (pos amount) s in (some (made_out k r.0), r.1)
advance c beneficiary amount (made cheque) s =
    let k : Call = record { beneficiary = beneficiary; amount = amount; stage = reserved } in
    let r = deliver_cheque c beneficiary cheque s in (some (went_on k sent r.0), r.1)
advance c beneficiary amount sent s =
    let k : Call = record { beneficiary = beneficiary; amount = amount; stage = reserved } in
    let r = count_issued c (pos amount) s in (some (went_on k counted r.0), r.1)
advance c beneficiary amount counted s = (none, release_reserved (pos amount) s)
advance c beneficiary amount failed s = (none, release_reserved (pos amount) s)

abbrev pub keep : Option Call → List Call → List Call
keep none ks = ks
keep (some k) ks = k ∷ ks

-- The next part of the call at a place.
abbrev pub advance_at : Surroundings → ℕ → List Call → Chequebook → List Call × Chequebook
advance_at c n [] s = ([], s)
advance_at c zero (k ∷ ks) s =
    let r = advance c k.beneficiary k.amount k.stage s in (keep r.0 ks, r.1)
advance_at c (suc n) (k ∷ ks) s = let r = advance_at c n ks s in (k ∷ r.0, r.1)

abbrev pub started : ℕ → ℕ → List Call → Result Error ℤ × Chequebook → World
started beneficiary amount ks (ok available, t) = record {
  book = t;
  calls = record { beneficiary = beneficiary; amount = amount; stage = reserved } ∷ ks;
}
started beneficiary amount ks (err e, t) = record { book = t; calls = ks }

-- A call starts, or one of those under way goes on, with what it finds then.
pub data Event : Type 0 where
  starts : Surroundings → ℕ → ℕ → Event
  goes_on : Surroundings → ℕ → Event

abbrev pub step : Event → World → World
step (starts c beneficiary amount) w =
    started beneficiary amount w.calls (reserve_total_issued c (pos amount) w.book)
step (goes_on c n) w = let r = advance_at c n w.calls w.book in record { book = r.1; calls = r.0 }

abbrev pub run : List Event → World → World
run [] w = w
run (x ∷ xs) w = run xs (step x w)

abbrev pub amounts : List Call → ℤ
amounts [] = pos 0
amounts (k ∷ ks) = pos k.amount +ℤ amounts ks

abbrev pub owing : Stage → ℕ → ℤ
owing counted amount = pos 0
owing failed amount = pos amount
owing reserved amount = pos amount
owing sent amount = pos amount
owing (made cheque) amount = pos amount

-- The amounts under way that the total does not have yet.
abbrev pub uncounted : List Call → ℤ
uncounted [] = pos 0
uncounted (k ∷ ks) = owing k.stage k.amount +ℤ uncounted ks
