-- ===== src/Breaker.antt =====
-- pkg/p2p/libp2p/internal/breaker/breaker.go: the breaker that keeps from calling what has failed too often. A time is a
-- number, and the zero time is none. Calls overlap, so that one is two steps, before and after the function.
pub mod Reopening
mod Examples
use aicode.Prelude.{
  ℕ, suc, ◌+◌, ◌*◌, Bool, true, false, ltb, leb, ◌==◌, if◌then◌else◌, Option, none, some,
}
use aicode.Effects.{ok, err, M, ◌>>=◌}

pub data Error : Type 0 where
  breaker_closed call_failed : Error

pub record Breaker : Type 0 where
  pub limit : ℕ
  pub cons_failed_calls : ℕ
  pub first_failed_timestamp : Option ℕ
  pub closed_timestamp : Option ℕ
  pub backoff : ℕ
  pub max_backoff : ℕ
  pub fail_interval : ℕ

pub record Options : Type 0 where
  pub limit : ℕ
  pub fail_interval : ℕ
  pub start_backoff : ℕ
  pub max_backoff : ℕ

abbrev pub minute : ℕ
minute = 60 * 1000000000

abbrev pub or_default : ℕ → ℕ → ℕ
or_default n d = if n == 0 then d else n

unfoldable pub new_breaker : Options → Breaker
new_breaker o = record {
  limit = or_default o.limit 100;
  cons_failed_calls = 0;
  first_failed_timestamp = none;
  closed_timestamp = none;
  backoff = or_default o.start_backoff (2 * minute);
  max_backoff = or_default o.max_backoff (60 * minute);
  fail_interval = or_default o.fail_interval (30 * minute);
}

abbrev pub reset_failed : Breaker → Breaker
reset_failed b = record b { cons_failed_calls = 0; first_failed_timestamp = none }

-- Whether a time is less than a duration after another, where the zero time is.
abbrev pub waits : ℕ → Option ℕ → ℕ → Bool
waits now none d = true
waits now (some c) d = ltb now (c + d)

abbrev pub expired : ℕ → Option ℕ → ℕ → Bool
expired now none d = false
expired now (some f) d = leb (f + d) now

abbrev pub back_off : Breaker → Breaker
back_off b = record b {
  backoff = if leb (b.backoff * 2) b.max_backoff then b.backoff * 2 else b.max_backoff;
}

abbrev pub forget_old : ℕ → Breaker → Breaker
forget_old now b =
    if expired now b.first_failed_timestamp b.fail_interval then reset_failed b else b

-- `beforef`.
unfoldable pub before_f : ℕ → M Breaker Error (Unit {0})
before_f now b =
    if leb b.limit b.cons_failed_calls
    then (if waits now b.closed_timestamp b.backoff
        then (err breaker_closed, b)
        else (ok tt, forget_old now (back_off (reset_failed b))))
    else (ok tt, forget_old now b)

abbrev pub first_failed : ℕ → Breaker → Breaker
first_failed now b =
    if b.cons_failed_calls == 0 then record b { first_failed_timestamp = some now } else b

abbrev pub count_failed : ℕ → Breaker → Breaker
count_failed now b =
    let n = suc b.cons_failed_calls in
    record b {
      cons_failed_calls = n;
      closed_timestamp = if n == b.limit then some now else b.closed_timestamp;
    }

-- `afterf`.
unfoldable pub after_f : ℕ → Bool → M Breaker Error (Unit {0})
after_f now true b = (err call_failed, count_failed now (first_failed now b))
after_f now false b = (ok tt, reset_failed b)

-- `Add` to a timestamp, where the zero time is 0.
abbrev pub add_to : Option ℕ → ℕ → ℕ
add_to none d = d
add_to (some c) d = c + d

unfoldable pub closed_until : ℕ → Breaker → ℕ
closed_until now b =
    if leb b.limit b.cons_failed_calls then add_to b.closed_timestamp b.backoff else now

-- `Execute` of a function that runs from one time to another, alone.
unfoldable pub execute : ℕ → ℕ → Bool → M Breaker Error (Unit {0})
unfolding before_f after_f
execute now later fails = before_f now >>= λ _. after_f later fails
