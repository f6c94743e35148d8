-- ===== src/Breaker/Reopening.antt =====
-- When the breaker lets calls through.
use aicode.Prelude.{
  ℕ, suc, ◌+◌, ◌*◌, ◌≤◌, ◌<◌, ◌≡◌, ◌⊎◌, Bool, true, false, ltb, leb, if◌then◌else◌, ◌&&◌, Option,
  some, List, [], ◌∷◌,
}
use aicode.Effects.{ok, err}
use aicode.Breaker.{
  Breaker, Options, breaker_closed, or_default, minute, before_f, after_f, closed_until,
}

-- The calls of `Execute` overlap: a call begins or ends, and ends with an error or without.
pub data Event : Type 0 where
  begins : ℕ → Event
  ends : ℕ → Bool → Event

abbrev pub step : Event → Breaker → Breaker
step (begins now) b = (before_f now b).1
step (ends now fails) b = (after_f now fails b).1

abbrev pub run : List Event → Breaker → Breaker
run [] b = b
run (x ∷ xs) b = run xs (step x b)

-- When the breaker was last closed: at the end of the failing call that made the failures in a row reach the limit.
abbrev pub closing : Event → Breaker → Option ℕ → Option ℕ
closing (begins now) b last = last
closing (ends now false) b last = last
closing (ends now true) b last =
    if ltb b.cons_failed_calls b.limit && leb b.limit (suc b.cons_failed_calls)
    then some now
    else last

abbrev pub closed_at : List Event → Breaker → Option ℕ → Option ℕ
closed_at [] b last = last
closed_at (x ∷ xs) b last = closed_at xs (step x b) (closing x b last)

-- A breaker that is closed has the time of that, and waits no less than at the start and no longer than the greatest
-- backoff.
record Inv (least most : ℕ) (last : Option ℕ) (b : Breaker) : Type 0 where
  since : b.limit ≤ b.cons_failed_calls → (c : ℕ) × (b.closed_timestamp ≡ some c) × (last ≡ some c)
  started : least ≤ b.backoff
  capped : b.backoff ≤ most
  greatest : b.max_backoff ≡ most
  some_limit : 0 < b.limit

abbrev pub start_of : Options → ℕ
start_of o = or_default o.start_backoff (2 * minute)

abbrev pub greatest_of : Options → ℕ
greatest_of o = or_default o.max_backoff (60 * minute)

-- A call is refused exactly before the time that `closed_until` gives. Either this is the present, and the failures
-- are below the limit, or it is a backoff between the given ones after the time of closing.
abbrev pub Opens : ℕ → ℕ → ℕ → Option ℕ → Breaker → Type 0
Opens least most now last b =
    ((before_f now b).0 ≡ (if ltb now (closed_until now b) then err breaker_closed else ok tt))
    × (((b.cons_failed_calls < b.limit) × (closed_until now b ≡ now))
        ⊎ ((b.limit ≤ b.cons_failed_calls)
            × ((c : ℕ) × (last ≡ some c)
                × (closed_until now b ≡ c + b.backoff)
                × (least ≤ b.backoff)
                × (b.backoff ≤ most))))
