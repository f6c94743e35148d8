-- ===== src/Sharky/Slots/Process.antt =====
-- The histories of the goroutine that hands out the slots, with the slots that are in use.
pub mod Safety
use aicode.Prelude.{
  ℕ, ◌+◌, ◌^◌, ◌<◌, ◌≡◌, ◌≢◌, refl, sym, ap, subst, ◌∙◌, ◌⊎◌, inl, inr, Bool, true, false,
  Bool-cases, none, some, Option-cases, List, [], ◌∷◌, length, get_elem?, ◌==◌, if◌then◌else◌,
  arith, All, All-get, All-map,
}
use mathlib.Core.Bool.{false≢true}
use aicode.Sharky.Slots.{
  Slots, is_free, push, pop, load, Loop, released, handed, quits, turn, react,
}
use aicode.Sharky.Slots.Lowest.{Inv, load-Inv, push-Inv}
use aicode.Sharky.Slots.Popped.{pop_lowest}

abbrev pub Distinct : List ℕ → Type 0
Distinct [] = Unit {0}
Distinct (x ∷ xs) = All (λ y. y ≢ x) xs × Distinct xs

abbrev pub remove : ℕ → List ℕ → List ℕ
remove i [] = []
remove i (x ∷ xs) = let rest = remove i xs in if i == x then rest else x ∷ rest

abbrev pub InUse : Slots → ℕ → Type 0
InUse sl u = (u < sl.size) × (is_free sl u ≡ false)

abbrev pub initial : List Bool → Loop
initial bits = record { slots = load bits; pending = none; quitting = false }

-- `Reach p used`: the loop can get to `p`, where the slots `used` are in use: those of a file, and those
-- that have been handed out and not been released. Only a slot in use is released.
pub data Reach : Loop → List ℕ → Type 0 where
  starts :
      (bits : List Bool) (used : List ℕ)
      → length bits < 2 ^ 32
      → All (InUse (load bits)) used
      → Distinct used
      → Reach (initial bits) used
  turns :
      {p : Loop} {used : List ℕ} → Reach p used → p.slots.size + 8 < 2 ^ 32 → Reach (turn p) used
  hands :
      {p : Loop} {used : List ℕ} (h : ℕ)
      → Reach p used
      → p.pending ≡ some h
      → Reach (react handed p) (h ∷ used)
  releases :
      {p : Loop} {used : List ℕ} (i k : ℕ)
      → Reach p used
      → get_elem? used k ≡ some i
      → Reach (react (released i) p) (remove i used)
  closes :
      {p : Loop} {used : List ℕ} → Reach p used → p.quitting ≡ false → Reach (react quits p) used
