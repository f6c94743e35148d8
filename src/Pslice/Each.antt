-- ===== src/Pslice/Each.antt =====
-- `EachBin` and `EachBinRev`. The state is what the callback changes. A callback that fails stops.
use aicode.Prelude.{ℕ, zero, suc, ◌%◌, Bool, true, false, List, [], ◌∷◌}
use aicode.Bytes.{Bytes}
use aicode.Pslice.{PSlice}

pub data Verdict : Type 0 where
  go_on next_bin stop : Verdict

abbrev pub EachPeerFunc : Type 0 → Type 0
EachPeerFunc S = S → Bytes → ℕ → S × Verdict

module _ {S : Type 0} where
  abbrev pub heed : (S → S × Bool) → S × Verdict → S × Bool
  heed rest (t, go_on) = rest t
  heed rest (t, next_bin) = (t, false)
  heed rest (t, stop) = (t, true)

  -- The peers of one bin, and whether the callback stopped.
  unfoldable pub each_in : EachPeerFunc S → ℕ → List Bytes → S → S × Bool
  each_in f i [] s = (s, false)
  each_in f i (p ∷ ps) s = heed (each_in f i ps) (f s p i)

  abbrev pub unless_stopped : (S → S) → S × Bool → S
  unless_stopped rest (t, true) = t
  unless_stopped rest (t, false) = rest t

  -- The first n bins, from the deepest on.
  unfoldable pub each_down : EachPeerFunc S → PSlice → ℕ → S → S
  each_down f l zero s = s
  each_down f l (suc n) s = unless_stopped (each_down f l n) (each_in f (n % 256) (l.peers n) s)

  unfoldable pub each_bin : EachPeerFunc S → PSlice → S → S
  each_bin f l s = each_down f l l.max_bins s

  -- n bins from the i-th on.
  unfoldable pub each_up : EachPeerFunc S → PSlice → ℕ → ℕ → S → S
  each_up f l i zero s = s
  each_up f l i (suc n) s =
      unless_stopped (each_up f l (suc i) n) (each_in f (i % 256) (l.peers i) s)

  unfoldable pub each_bin_rev : EachPeerFunc S → PSlice → S → S
  each_bin_rev f l s = each_up f l 0 l.max_bins s
