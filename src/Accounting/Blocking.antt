-- ===== src/Accounting/Blocking.antt =====
-- `blocklist` and `blocklistUntil`: for how long a peer is shut out.
use aicode.Prelude.Int.{ℤ, pos, ◌+ℤ◌, ◌*ℤ◌, div_ℤ, to_int64, max_ℤ}
use aicode.Accounting.{Reason, blocklist_call, Result, ok, err, M, pure, ◌>>=◌, ask, emit}
use aicode.Accounting.Balances.{peer_latent_debt}

-- Seconds: the time in which refreshments cover the latent debt and a payment threshold.
unfoldable pub blocklist_until : ℤ → M ℤ
unfolding peer_latent_debt
blocklist_until multiplier = do
  c ← ask
  latent ← peer_latent_debt
  let debt = max_ℤ latent c.refresh_rate
  pure (to_int64 (div_ℤ ((debt +ℤ c.base_payment_threshold) *ℤ multiplier) c.refresh_rate))

abbrev pub seconds_or : ℤ → Result ℤ → ℤ
seconds_or default (ok seconds) = seconds
seconds_or default (err e) = default

-- The time, or a default where the store fails.
unfoldable pub block_seconds : ℤ → M ℤ
unfolding blocklist_until
block_seconds default c s = (ok (seconds_or default (blocklist_until (pos 1) c s).0), s)

-- One minute where the store fails. The error of the p2p service is dropped by every caller.
unfoldable pub blocklist : Reason → M (Unit {0})
unfolding block_seconds
blocklist reason = do seconds ← block_seconds (pos 60); emit (blocklist_call seconds reason)
