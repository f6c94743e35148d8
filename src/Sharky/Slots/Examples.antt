-- ===== src/Sharky/Slots/Examples.antt =====
-- Runs of the slots of a shard on concrete files.
use aicode.Prelude.{◌≡◌, ◌≢◌, refl, Bool, true, false, ℕ, some, All, List, subst, [], ◌∷◌, arith}
use aicode.Sharky.Slots.{Slots, pop, next, load, Loop, handed, turn, react}
use aicode.Sharky.Slots.Lowest.{Inv, load-Inv}
use aicode.Sharky.Slots.Process.{Distinct, InUse, Reach, initial, starts, turns, hands}
use aicode.Sharky.Slots.Process.Safety.{handed_slot_unused}

-- The slots 0, 1 and 3 are in use.
abbrev byte : List Bool
byte = false ∷ false ∷ true ∷ false ∷ true ∷ true ∷ true ∷ true ∷ []

abbrev loaded : Slots
loaded = record { data_bits = byte; size = 8; head = 2 }

abbrev taken : Slots
taken = record {
  data_bits = false ∷ false ∷ false ∷ false ∷ true ∷ true ∷ true ∷ true ∷ [];
  size = 8;
  head = 4;
}

first_load : load byte ≡ loaded
unfolding load next
first_load = refl

popped_run : pop loaded ≡ (2, taken)
unfolding pop next
popped_run = refl

loaded-Inv : Inv loaded
loaded-Inv = subst Inv first_load (load-Inv byte (omega arith))

abbrev second_turn : Loop
second_turn = turn (react handed (turn (initial byte)))

handed_once : Reach second_turn (2 ∷ 0 ∷ 3 ∷ [])
unfolding load next turn pop react
handed_once =
    turns
      (hands 2
        (turns
          (starts byte (0 ∷ 3 ∷ []) (omega arith) ((omega arith, refl), ((omega arith, refl), tt))
            ((omega arith, tt), (tt, tt)))
          (omega arith))
        refl)
      (omega arith)

handed_slot_unused_example :
    Distinct (2 ∷ 0 ∷ 3 ∷ [])
    × All (InUse second_turn.slots) (2 ∷ 0 ∷ 3 ∷ [])
    × ((h : ℕ) → second_turn.pending ≡ some h → All (λ u. u ≢ h) (2 ∷ 0 ∷ 3 ∷ []))
handed_slot_unused_example = handed_slot_unused handed_once
