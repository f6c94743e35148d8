-- ===== src/Epochs/Examples.antt =====
-- A feed with a few updates.
use aicode.Prelude.{ℕ, ◌≡◌, refl, true, false, List, [], ◌∷◌, All, arith}
use aicode.Epochs.{Epoch, new_updater, update, next, advance, child_at, span}
use aicode.Epochs.Cover.{Covers}
use aicode.Epochs.Updates.{Request, stored, Apart, stored-Apart-Covers}

abbrev requests : List Request
requests = (1000, false) ∷ (1001, true) ∷ (1003, false) ∷ (5000, false) ∷ []

in_epochs : stored requests new_updater ≡ (
    (record { start = 0; level = 32 }, 1000)
    ∷ (record { start = 0; level = 31 }, 1003)
    ∷ (record { start = 0; level = 30 }, 5000)
    ∷ [])
unfolding new_updater update next advance child_at span
in_epochs = refl

-- A second update in the second of an epoch of level 0 has the level below it wrap around.
level_wraps : advance (record { start = 7; level = 0 }) 7 7 ≡ record { start = 7; level = 255 }
unfolding advance child_at span
level_wraps = refl

stored-Apart-Covers_example :
    All (λ (p : Epoch × ℕ). Covers p.0 p.1) (stored requests new_updater)
    × Apart (stored requests new_updater)
stored-Apart-Covers_example = stored-Apart-Covers requests (
  omega arith,
  omega arith,
  (omega arith, omega arith, (omega arith, omega arith, (omega arith, omega arith, tt))),
)
