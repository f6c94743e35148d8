-- ===== src/Accounting/Refreshments/Allowance.antt =====
-- What the end of a refreshment does.
use aicode.Prelude.{◌≡◌, ◌⊎◌, ◌∷◌, inl, inr, some, Bool-cases, false, arith}
use aicode.Prelude.Int.{ℤ, pos, ◌+ℤ◌, ◌≤ℤ◌, ◌<ℤ◌, ltb_ℤ}
use aicode.Accounting.{Context, Account, peer_balance_key, allowance_expectation, blocklist_call}
use aicode.Accounting.Debit.Conservation.{get_or_zero, Works, decrease_keeps}
use aicode.Accounting.Debit.Shadow.{blocklist_lem}
use aicode.Accounting.Refreshments.{
  accepted, expected_allowance, accept_refreshment, notify_refreshment_sent,
}

abbrev pub refreshed : ℤ → Account → Account
refreshed timestamp s = record s {
  peer = record (s.peer) {
    refresh_ongoing = false;
    refresh_timestamp_milliseconds = timestamp;
    refresh_reserved_balance = pos 0;
  };
}

accept_refreshment-cases :
    (attempted amount interval : ℤ) (c : Context) (s : Account)
    → Works c
    → let t = (accept_refreshment attempted amount interval c s).1 in
      let u = record s { peer = record (s.peer) { refresh_reserved_balance = pos 0 } } in
      let least = expected_allowance attempted s.refresh_reserved_balance interval c.refresh_rate in
      (t.peer ≡ u.peer)
      × (t.stored_surplus ≡ s.stored_surplus)
      × (((amount <ℤ least)
            × (t.stored_balance ≡ s.stored_balance)
            × ((n : ℤ) × (t.effects ≡ blocklist_call n allowance_expectation ∷ s.effects)))
          ⊎ ((least ≤ℤ amount)
              × (get_or_zero t.stored_balance ≡ get_or_zero s.stored_balance +ℤ amount)
              × (t.effects ≡ s.effects)))
unfolding accept_refreshment
accept_refreshment-cases attempted amount interval c s w =
    let u = record s { peer = record (s.peer) { refresh_reserved_balance = pos 0 } } in
    let v = get_or_zero s.stored_balance +ℤ amount in
    let least = expected_allowance attempted s.refresh_reserved_balance interval c.refresh_rate in
    let (n, e) = blocklist_lem allowance_expectation c u in
    let g = w.gets peer_balance_key in
    let p = w.puts peer_balance_key in
    let k = decrease_keeps v c (record u { stored_balance = some v }) in
    elim (Bool-cases (ltb_ℤ amount least)) [
      | inl below ↦
          (ground arith, ground arith, inl (ground arith, ground arith, (n, ground arith)))
      | inr above ↦ (ground arith, ground arith, inr (ground arith, ground arith, ground arith))
    ]

-- Over a store that works, an accepted refreshment ends in one of two ways. An amount below the
-- expected allowance (the time's worth of refreshment, or the attempted amount less what was
-- reserved meanwhile, if that is less) puts the peer on the blocklist and leaves its balance; any
-- other is added to the balance. Both conclude the refreshment and reset its reserve.
pub notify_refreshment_sent-accepted :
    (attempted amount timestamp interval : ℤ) (c : Context) (s : Account)
    → Works c
    → let t = (notify_refreshment_sent attempted amount timestamp interval accepted c s).1 in
      let least = expected_allowance attempted s.refresh_reserved_balance interval c.refresh_rate in
      (t.peer ≡ (refreshed timestamp s).peer)
      × (t.stored_surplus ≡ s.stored_surplus)
      × (((amount <ℤ least)
            × (t.stored_balance ≡ s.stored_balance)
            × ((n : ℤ) × (t.effects ≡ blocklist_call n allowance_expectation ∷ s.effects)))
          ⊎ ((least ≤ℤ amount)
              × (get_or_zero t.stored_balance ≡ get_or_zero s.stored_balance +ℤ amount)
              × (t.effects ≡ s.effects)))
unfolding notify_refreshment_sent
notify_refreshment_sent-accepted attempted amount timestamp interval c s w =
    accept_refreshment-cases attempted amount interval c
      (record s {
        peer = record (s.peer) {
          refresh_ongoing = false;
          refresh_timestamp_milliseconds = timestamp;
        };
      })
      w
