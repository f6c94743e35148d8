-- ===== src/Epochs.antt =====
-- pkg/feeds/epochs/epoch.go and updater.go: the epochs in which the updates of a feed are stored. Times and lengths are `uint64`, a
-- level is a byte.
pub mod Cover
pub mod Advance
pub mod Updates
mod Examples
use aicode.Prelude.{
  ℕ, zero, suc, ◌+◌, ◌-◌, ◌*◌, ◌/◌, ◌%◌, ◌^◌, Bool, true, false, not, ◌||◌, ltb, ◌==◌,
  if◌then◌else◌, Option, none, some,
}
use aicode.Effects.{Result, ok, err}

pub record Epoch : Type 0 where
  pub start : ℕ
  pub level : ℕ

abbrev pub max_level : ℕ
max_level = 32

-- `length`, which is 0 from level 64 on.
unfoldable pub span : Epoch → ℕ
span e = 2 ^ e.level % 2 ^ 64

-- Whether a number has the one bit of a power of 2. It has none of 0, as a division by 0 gives 0 here.
abbrev pub has_bit : ℕ → ℕ → Bool
has_bit n p = n / p % 2 == 1

abbrev pub set_bit : ℕ → ℕ → ℕ
set_bit n p = if has_bit n p then n else n + p

unfoldable pub child_at : Epoch → ℕ → Epoch
unfolding span
child_at e t =
    let child : Epoch = record { start = e.start; level = (e.level + 255) % 256 } in
    if has_bit t (span child) then record child { start = set_bit e.start (span child) } else child

-- The loop of `lca`, with k levels left.
unfoldable pub lca_loop : ℕ → ℕ → ℕ → ℕ → ℕ → ℕ × ℕ
lca_loop zero level length t after = (level, length)
lca_loop (suc k) level length t after =
    let rest = lca_loop k (suc level) (length * 2 % 2 ^ 64) t after in
    if ltb length ((t + 2 ^ 64 - after) % 2 ^ 64) || not (t / length == after / length)
    then rest
    else (level, length)

abbrev pub epoch_of : ℕ → ℕ × ℕ → Epoch
epoch_of after (level, length) = record { start = after / length * length; level = level }

unfoldable pub lca : ℕ → ℕ → Epoch
lca t after =
    let found = lca_loop max_level 0 1 t after in
    if after == 0 then record { start = 0; level = max_level } else epoch_of after found

unfoldable pub parent : Epoch → Epoch
parent e =
    let length = span e * 2 % 2 ^ 64 in
    record { start = e.start / length * length; level = (e.level + 1) % 256 }

unfoldable pub left : Epoch → Epoch
left e = record e { start = (e.start + 2 ^ 64 - span e) % 2 ^ 64 }

unfoldable pub is_left : Epoch → Bool
is_left e = not (has_bit e.start (span e))

-- `Next`, from the last update on.
unfoldable pub advance : Epoch → ℕ → ℕ → Epoch
advance e last t =
    if ltb t ((e.start + span e) % 2 ^ 64) then child_at e t else child_at (lca t last) t

-- `next`, of no epoch or of one.
unfoldable pub next : Option Epoch → ℕ → ℕ → Epoch
next none last t = record { start = 0; level = max_level }
next (some e) last t = advance e last t

pub data Error : Type 0 where
  put_failure : Error

pub record Updater : Type 0 where
  pub last : ℕ
  pub epoch : Option Epoch

unfoldable pub new_updater : Updater
new_updater = record { last = 0; epoch = none }

-- `Update`, with the epoch that it stores the payload in.
unfoldable pub update : Bool → ℕ → Updater → Result Error Epoch × Updater
update put_fails t u =
    let e = next u.epoch u.last t in
    if put_fails then (err put_failure, u) else (ok e, record { last = t; epoch = some e })
