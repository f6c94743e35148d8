-- ===== src/Breaker/Examples.antt =====
-- A breaker that closes at the second failure.
use aicode.Prelude.{◌≡◌, refl, true, false, none, some, List, [], ◌∷◌}
use aicode.Effects.{ok, err}
use aicode.Breaker.{Options, breaker_closed, new_breaker, before_f, after_f, closed_until, execute}
use aicode.Breaker.Reopening.{Event, begins, ends, run, closed_at}

abbrev options : Options
options = record { limit = 2; fail_interval = 1000; start_backoff = 60; max_backoff = 100 }

-- Two calls overlap, and both fail.
abbrev overlapping : List Event
overlapping = begins 10 ∷ begins 11 ∷ ends 12 true ∷ ends 15 true ∷ []

-- The second failure closes it.
closed_by_second : closed_at overlapping (new_breaker options) none ≡ some 15
unfolding after_f before_f new_breaker
closed_by_second = refl

refused : (execute 74 80 false (run overlapping (new_breaker options))).0 ≡ err breaker_closed
unfolding execute before_f after_f new_breaker
refused = refl

let_through : (execute 75 80 false (run overlapping (new_breaker options))).0 ≡ ok tt
unfolding execute before_f after_f new_breaker
let_through = refl

-- The next time it waits longer, but no longer than the greatest backoff.
waits_longer :
    closed_until 150 (
      run
        (begins 90 ∷ begins 90 ∷ ends 95 true ∷ ends 100 true ∷ [])
        (run overlapping (new_breaker options)))
    ≡ 200
unfolding closed_until before_f after_f new_breaker
waits_longer = refl
