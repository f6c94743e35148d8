-- ===== src/Pseudosettle/Sent.antt =====
-- `Pay` of pkg/settlement/pseudosettle/pseudosettle.go: the node asks a peer for a refreshment, and reports to
-- the accounting how it ended.
pub mod Honest
pub mod Agreement
use aicode.Prelude.{
  ℕ, ◌≡◌, ◌⊎◌, refl, inl, inr, Bool, true, false, Bool-cases, ◌||◌, Option, none, some,
  if◌then◌else◌, arith,
}
use aicode.Prelude.Int.{ℤ, pos, negsuc, ◌+ℤ◌, ◌-ℤ◌, ◌≤ℤ◌, ltb_ℤ, int_laws, quo_ℤ}
use aicode.Accounting.{Context, Account}
use aicode.Accounting.Refreshments.{
  RefreshOutcome, accepted, peer_not_found, other_error, notify_refreshment_sent,
}
use aicode.Effects.{Result, Result-cases, ok, err, M, ◌>>=◌, ◌>>◌, pure, fail_if, lift, get, modify}
use aicode.Pseudosettle.{LastPayment, Service, or_new}

-- Why a payment fails. The stream, and what is written to and read from it, fail with an error that may say
-- that the peer is not found.
pub data PayError : Type 0 where
  store_failure refreshment_above_expected : PayError
  out_of_sync_alleged out_of_sync_recent out_of_sync_interval : PayError
  stream_failure : Bool → PayError

-- The peer's answer: an amount out of bytes and a time.
pub record PaymentAck : Type 0 where
  pub amount : ℕ
  pub timestamp : ℤ

-- What a payment finds; the check time is that of the answer, in milliseconds.
pub record Exchange : Type 0 where
  pub answer : Result PayError PaymentAck
  pub check_time : ℤ
  pub get_fails : Bool
  pub put_fails : Bool

abbrev pub outside : ℤ → ℤ → ℤ → Bool
outside low high d = ltb_ℤ d low || ltb_ℤ high d

abbrev pub add_sent : ℕ → ℤ → ℤ → Service → Service
add_sent amount timestamp check s = record s {
  sent = some (record {
    timestamp = timestamp;
    check_timestamp = check;
    total = (or_new s.sent).total +ℤ pos amount;
  });
}

-- `Pay` up to its report: the amount that the peer accepted, and the interval that it alleges.
unfoldable pub attempt : Exchange → ℤ → M Service PayError (ℤ × ℤ)
attempt x amount = do
  fail_if x.get_fails store_failure
  s ← get
  let last = or_new s.sent
  ack ← lift x.answer
  let check = quo_ℤ x.check_time 1000
  fail_if (ltb_ℤ amount (pos ack.amount)) refreshment_above_expected
  let experienced = check -ℤ last.check_timestamp
  let alleged = ack.timestamp -ℤ last.timestamp
  fail_if (ltb_ℤ alleged (pos 0)) out_of_sync_alleged
  fail_if (outside (negsuc 1) (pos 2) (ack.timestamp -ℤ check)) out_of_sync_recent
  fail_if (outside (negsuc 2) (pos 3) (experienced -ℤ alleged)) out_of_sync_interval
  fail_if x.put_fails store_failure
  modify (add_sent ack.amount ack.timestamp check)
  pure (pos ack.amount, alleged)

abbrev pub outcome : PayError → RefreshOutcome
outcome (stream_failure true) = peer_not_found
outcome (stream_failure false) = other_error
outcome e = other_error

abbrev pub report : Context → Exchange → ℤ → Result PayError (ℤ × ℤ) × Service → Service
report context x amount (ok (taken, alleged), s) = record s {
  account =
      (notify_refreshment_sent amount taken x.check_time alleged accepted context s.account).1;
}
report context x amount (err e, s) = record s {
  account =
      (notify_refreshment_sent (pos 0) (pos 0) (pos 0) (pos 0) (outcome e) context s.account).1;
}

unfoldable pub pay : Exchange → Context → ℤ → Service → Service
unfolding attempt
pay x context amount s = report context x amount (attempt x amount s)

-- What a payment that succeeds has seen: an amount that was asked for, from a peer whose time does not go
-- back, is within two seconds of ours, and has passed within three seconds of how it passed here.
pub record InSync (x : Exchange) (amount : ℤ) (s : Service) (ack : PaymentAck) : Type 0 where
  pub answered : x.answer ≡ ok ack
  pub within_asked : pos ack.amount ≤ℤ amount
  pub onward : (or_new s.sent).timestamp ≤ℤ ack.timestamp
  pub recent : outside (negsuc 1) (pos 2) (ack.timestamp -ℤ quo_ℤ x.check_time 1000) ≡ false
  pub even_paced :
      outside (negsuc 2) (pos 3) (
        quo_ℤ x.check_time 1000
        -ℤ (or_new s.sent).check_timestamp
        -ℤ (ack.timestamp -ℤ (or_new s.sent).timestamp))
      ≡ false

pub attempt_cases :
    (x : Exchange) (amount : ℤ) (s : Service)
    → ((ack : PaymentAck) × InSync x amount s ack
        × (attempt x amount s ≡ (
          ok (pos ack.amount, ack.timestamp -ℤ (or_new s.sent).timestamp),
          add_sent ack.amount ack.timestamp (quo_ℤ x.check_time 1000) s,
        )))
      ⊎ ((e : PayError) × (attempt x amount s ≡ (err e, s)))
unfolding attempt
attempt_cases x amount s =
    let last = or_new s.sent in
    let check = quo_ℤ x.check_time 1000 in
    elim (Bool-cases x.get_fails) [
      | inl fails ↦ inr (store_failure, ground arith)
      | inr reads ↦ elim (Result-cases x.answer) [
        | inr (e, p) ↦ inr (e, ground arith)
        | inl (ack, p) ↦
            let alleged = ack.timestamp -ℤ last.timestamp in
            elim (Bool-cases (ltb_ℤ amount (pos ack.amount))) [
              | inl above ↦ inr (refreshment_above_expected, ground arith)
              | inr within ↦ elim (Bool-cases (ltb_ℤ alleged (pos 0))) [
                | inl back ↦ inr (out_of_sync_alleged, ground arith)
                | inr onward ↦
                    elim (Bool-cases (outside (negsuc 1) (pos 2) (ack.timestamp -ℤ check))) [
                      | inl far ↦ inr (out_of_sync_recent, ground arith)
                      | inr near ↦
                          elim (Bool-cases (
                            outside (negsuc 2) (pos 3)
                              (check -ℤ last.check_timestamp -ℤ alleged))) [
                                | inl uneven ↦ inr (out_of_sync_interval, ground arith)
                                | inr even ↦ elim (Bool-cases x.put_fails) [
                                  | inl fails ↦ inr (store_failure, ground arith)
                                  | inr puts ↦ inl (
                                    ack,
                                    record {
                                      answered = p;
                                      within_asked = ground arith;
                                      onward =
                                          let n : pos 0 ≤ℤ alleged = ground arith in omega int_laws;
                                      recent = near;
                                      even_paced = even;
                                    },
                                    ground arith,
                                  )
                                ]
                              ]
                    ]
              ]
            ]
      ]
    ]
