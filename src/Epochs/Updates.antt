-- ===== src/Epochs/Updates.antt =====
-- The updates of a feed.
use aicode.Prelude.{
  ℕ, ◌^◌, ◌≤◌, ◌<◌, ◌≡◌, ◌≢◌, ◌⊎◌, inl, inr, refl, ap, Bool, true, false, Option, none, some, List,
  [], ◌∷◌, All, arith,
}
use aicode.Effects.{Result, ok, err}
use aicode.Epochs.{Epoch, Error, next, advance, Updater, new_updater, update}
use aicode.Epochs.Cover.{Covers}
use aicode.Epochs.Advance.{advance-Covers, advance_moves}

-- The times of the updates, and whether storing them fails.
abbrev pub Request : Type 0
Request = ℕ × Bool

abbrev pub placed : Result Error Epoch → ℕ → List (Epoch × ℕ) → List (Epoch × ℕ)
placed (ok e) t rest = (e, t) ∷ rest
placed (err x) t rest = rest

-- The epochs in which the updates are stored, with their times.
abbrev pub stored : List Request → Updater → List (Epoch × ℕ)
stored [] u = []
stored ((t, put_fails) ∷ rest) u =
    placed (update put_fails t u).0 t (stored rest (update put_fails t u).1)

-- The times go up from a first one, and are below 2 ^ 32.
abbrev pub Increasing : ℕ → List Request → Type 0
Increasing last [] = Unit {0}
Increasing last ((t, put_fails) ∷ rest) = (last < t) × (t < 2 ^ 32) × Increasing t rest

abbrev pub Current : Option Epoch → ℕ → Type 0
Current none last = Unit {0}
Current (some e) last = Covers e last × (e.level ≤ 32) × (0 < last)

next-Covers :
    (o : Option Epoch) (last since t : ℕ)
    → Current o last
    → last ≤ since
    → since < t
    → t < 2 ^ 32
    → Covers (next o last t) t × ((next o last t).level ≤ 32)
unfolding next
next-Covers none last since t c h i k = (
  record { turn = 0; aligned = refl; after_start = omega arith; before_end = omega arith },
  omega arith,
)
next-Covers (some e) last since t (c, m, p) h i k =
    let low = c.after_start in
    let r =
      advance-Covers e last t c.turn c.aligned m (inl (omega arith)) k (omega arith)
        (λ z. omega arith) in
    (r.0, let l = r.1 in omega arith)

stored-Covers :
    (rs : List Request) (u : Updater) (since : ℕ)
    → Current u.epoch u.last
    → u.last ≤ since
    → Increasing since rs
    → All (λ (p : Epoch × ℕ). Covers p.0 p.1) (stored rs u)
unfolding update
stored-Covers [] u since c h i = tt
stored-Covers ((t, true) ∷ rs) u since c h (l, k, i) = stored-Covers rs u t c (omega arith) i
stored-Covers ((t, false) ∷ rs) u since c h (l, k, i) =
    let n = next-Covers u.epoch u.last since t c h l k in
    (n.0, stored-Covers rs (update false t u).1 t (n.0, n.1, omega arith) (omega arith) i)

-- Of an epoch and the time it was used for, when the last epoch is another: it is not below that one.
abbrev Clear : Epoch → Epoch → ℕ → Type 0
Clear e f since = (e.level ≤ f.level) ⊎ (since < e.start)

-- The next epoch is another one, and the old one is clear of it.
advance-Clear :
    (e f : Epoch) (last t since : ℕ)
    → Current (some e) last
    → Covers f since
    → since ≤ last
    → Clear e f since
    → last < t
    → t < 2 ^ 32
    → (f ≢ advance e last t) × Clear (advance e last t) f since
advance-Clear e f last t since (c, m, p) g h clear i k =
    let low = c.after_start in
    let start = g.after_start in
    let past : since < (advance e last t).start
        → (f ≢ advance e last t) × Clear (advance e last t) f since =
      λ d. (
        λ z.
            let s : f.start ≡ (advance e last t).start = ap (λ (x : Epoch). x.start) z in
            omega arith,
        inr d,
      ) in
    elim (advance_moves e last t c.turn c.aligned m low p i k) [
      | inl (down, right) ↦ elim clear [
        | inl deep ↦ (
          λ z.
              let s : f.level ≡ (advance e last t).level = ap (λ (x : Epoch). x.level) z in
              omega arith,
          inl (omega arith),
        )
        | inr before ↦ past (omega arith)
      ]
      | inr on ↦ past (omega arith)
    ]

later_differ :
    (rs : List Request) (e f : Epoch) (last since lately : ℕ)
    → Current (some e) last
    → Covers f since
    → since ≤ last
    → Clear e f since
    → last ≤ lately
    → Increasing lately rs
    → All (λ (q : Epoch × ℕ). f ≢ q.0) (stored rs (record { last = last; epoch = some e }))
unfolding update next
later_differ [] e f last since lately c g h clear l i = tt
later_differ ((t, true) ∷ rs) e f last since lately c g h clear l (a, b, i) =
    later_differ rs e f last since t c g h clear (omega arith) i
later_differ ((t, false) ∷ rs) e f last since lately c g h clear l (a, b, i) =
    let n = next-Covers (some e) last lately t c l a b in
    let d = advance-Clear e f last t since c g h clear (omega arith) b in
    (
      d.0,
      later_differ rs (advance e last t) f t since t (n.0, n.1, omega arith) g (omega arith) d.1
          (omega arith) i,
    )

-- No epoch twice.
abbrev pub Apart : List (Epoch × ℕ) → Type 0
Apart [] = Unit {0}
Apart ((e, t) ∷ rest) = All (λ (q : Epoch × ℕ). e ≢ q.0) rest × Apart rest

stored-Apart :
    (rs : List Request) (u : Updater) (since : ℕ)
    → Current u.epoch u.last
    → u.last ≤ since
    → Increasing since rs
    → Apart (stored rs u)
unfolding update
stored-Apart [] u since c h i = tt
stored-Apart ((t, true) ∷ rs) u since c h (l, k, i) = stored-Apart rs u t c (omega arith) i
stored-Apart ((t, false) ∷ rs) u since c h (l, k, i) =
    let n = next-Covers u.epoch u.last since t c h l k in
    let d : Current (some (next u.epoch u.last t)) t = (n.0, n.1, omega arith) in
    let e = next u.epoch u.last t in
    (
      later_differ rs e e t t t d n.0 (omega arith) (inl (omega arith)) (omega arith) i,
      stored-Apart rs (update false t u).1 t d (omega arith) i,
    )

-- The updates of a feed, of which storing some may fail, are stored in epochs that cover their times, no two in
-- the same one. The times go up, and are above 0 and below 2 ^ 32.
pub stored-Apart-Covers :
    (rs : List Request)
    → Increasing 0 rs
    → All (λ (p : Epoch × ℕ). Covers p.0 p.1) (stored rs new_updater)
      × Apart (stored rs new_updater)
unfolding new_updater
stored-Apart-Covers rs i = (
  stored-Covers rs new_updater 0 tt (omega arith) i,
  stored-Apart rs new_updater 0 tt (omega arith) i,
)
