-- ===== src/Accounting/Debit/Shadow.antt =====
-- What preparing, applying or cleaning up a debit action does to the shadow reserve and ghost balance.
use aicode.Prelude.{◌∷◌, ◌≡◌, ◌⊎◌, refl, ap, inl, inr, ℕ, false, Bool-cases, arith}
use aicode.Prelude.Int.{ℤ, pos, ◌+ℤ◌, ◌-ℤ◌, ◌≤ℤ◌, ◌<ℤ◌, ltb_ℤ, +ℤ_sub_cancel}
use aicode.Accounting.{Context, Account, Reason, ghost_overdraw, blocklist_call, ok}
use aicode.Accounting.Blocking.{block_seconds, blocklist, blocklist_until, seconds_or}
use aicode.Accounting.Debit.Conservation.{net}
use aicode.Accounting.Debit.{DebitAction, prepare_debit, debit_cleanup}

abbrev unshadowed : Account → ℤ → Account
unshadowed s price = record s {
  peer = record (s.peer) { shadow_reserved_balance = s.shadow_reserved_balance -ℤ price };
}

pub blocklist_lem :
    (reason : Reason) (c : Context) (s : Account)
    → (n : ℤ) × (blocklist reason c s
        ≡ (ok tt, record s { effects = blocklist_call n reason ∷ s.effects }))
unfolding blocklist block_seconds
blocklist_lem reason c s = (seconds_or (pos 60) (blocklist_until (pos 1) c s).0, refl)

abbrev ghosted : Account → ℤ → Account
ghosted s price = record s {
  peer = record (s.peer) {
    shadow_reserved_balance = s.shadow_reserved_balance -ℤ price;
    ghost_balance = s.ghost_balance +ℤ price;
  };
}

debit_cleanup_lem :
    (d : DebitAction) (c : Context) (s : Account)
    → d.applied ≡ false
    → let g = ghosted s d.price in
      ((g.ghost_balance ≤ℤ s.disconnect_limit) × (debit_cleanup d c s ≡ (ok tt, g)))
      ⊎ ((s.disconnect_limit <ℤ g.ghost_balance)
          × ((n : ℤ) × (debit_cleanup d c s
                ≡ (ok tt, record g { effects = blocklist_call n ghost_overdraw ∷ g.effects }))))
unfolding debit_cleanup
debit_cleanup_lem d c s h =
    let g = ghosted s d.price in
    let (n, e) = blocklist_lem ghost_overdraw c g in
    elim (Bool-cases (ltb_ℤ s.disconnect_limit g.ghost_balance)) [
      | inl over ↦ inr (ground arith, (n, ground arith))
      | inr under ↦ inl (ground arith, ground arith)
    ]

prepare_debit_lem :
    (price : ℕ) (d : DebitAction) (c : Context) (s : Account)
    → (prepare_debit false price c s).0 ≡ ok d
    → let t = (prepare_debit false price c s).1 in
      (d ≡ record { price = pos price; applied = false })
      × (t.shadow_reserved_balance ≡ s.shadow_reserved_balance +ℤ pos price)
      × (t.ghost_balance ≡ s.ghost_balance)
      × (t.disconnect_limit ≡ s.disconnect_limit)
      × (net t ≡ net s)
      × (t.effects ≡ s.effects)
unfolding prepare_debit
prepare_debit_lem price d c s h = ground arith

-- A debit that is prepared and given up leaves the shadow reserve as it was and adds the price to
-- the ghost balance; the peer is put on the blocklist exactly where that passes its limit.
pub prepare_debit-cleanup :
    (price : ℕ) (d : DebitAction) (c c' : Context) (s : Account)
    → (prepare_debit false price c s).0 ≡ ok d
    → let t = (debit_cleanup d c' (prepare_debit false price c s).1).1 in
      (t.shadow_reserved_balance ≡ s.shadow_reserved_balance)
      × (t.ghost_balance ≡ s.ghost_balance +ℤ pos price)
      × (net t ≡ net s)
      × (((t.ghost_balance ≤ℤ s.disconnect_limit) × (t.effects ≡ s.effects))
          ⊎ ((s.disconnect_limit <ℤ t.ghost_balance)
              × ((n : ℤ) × (t.effects ≡ blocklist_call n ghost_overdraw ∷ s.effects))))
prepare_debit-cleanup price d c c' s h =
    let t = (prepare_debit false price c s).1 in
    let (shape, shadow, ghost, limit, same, calls) = prepare_debit_lem price d c s h in
    let back : t.shadow_reserved_balance -ℤ pos price ≡ s.shadow_reserved_balance =
      rw shadow (+ℤ_sub_cancel s.shadow_reserved_balance (pos price)) in
    let ghosts = ap (λ g. g +ℤ pos price) ghost in
    rw shape (elim (debit_cleanup_lem (record { price = pos price; applied = false }) c' t refl) [
      | inl (le, e) ↦ rw e (back, ghosts, same, inl (rw limit at le, calls))
      | inr (lt, (n, e)) ↦ rw e (
        back,
        ghosts,
        same,
        inr (rw limit at lt, (n, ap (λ r. blocklist_call n ghost_overdraw ∷ r) calls)),
      )
    ])
