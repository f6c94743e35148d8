-- ===== src/Kademlia/Closest.antt =====
-- The closest peer.
use aicode.Prelude.{
  ℕ, ◌≤◌, ◌<◌, ◌≡◌, ◌⊎◌, inl, inr, refl, sym, ap, subst, ◌∙◌, Bool, true, false, not, ◌&&◌, ◌||◌,
  Bool-cases, ltb, ◌==◌, if◌then◌else◌, List, [], ◌∷◌, length, All, arith,
}
use aicode.Bytes.{Bytes, big_endian, bytes_equal, bytes_equal_sound, bytes_equal_refl}
use aicode.Effects.{Result, ok, err}
use aicode.Swarm.{xor_all}
use aicode.Swarm.Distance.{distance_cmp-order}
use aicode.Swarm.Proximity.{distance_known}
use aicode.Pslice.{size}
use aicode.Pslice.Counts.{count}
use aicode.Kademlia.{
  Kad, Failure, not_found, want_self, contains_address, is_zero, closer, closest_of, closest_peer,
}
use aicode.Kademlia.Lists.{all_peers, length-all_peers, fold, each_bin_rev-fold}

-- The distance of a peer from an address.
abbrev pub far : Bytes → Bytes → ℕ
far addr x = big_endian 0 (xor_all x addr)

closer-far :
    (addr x y : Bytes)
    → length x ≡ length addr
    → length y ≡ length addr
    → closer x addr y ≡ ltb (far addr x) (far addr y)
unfolding closer
closer-far addr x y p q =
    let i : (length x == length addr) ≡ true = ground arith in
    let j : (length y == length addr) ≡ true = ground arith in
    rw (distance_cmp-order addr x y, distance_known x addr i, distance_known y addr j)
      (ground arith)

abbrev pub eligible : (Bytes → Bool) → List Bytes → Bytes → Bool
eligible filter skip x = not (filter x || contains_address skip x)

nonzero : (x addr : Bytes) → length x ≡ length addr → 0 < length addr → is_zero x ≡ false
nonzero [] addr e h = absurd (omega arith)
nonzero (b ∷ x) addr e h = refl

no_peers : (xs : List Bytes) → length xs ≡ 0 → xs ≡ []
no_peers [] e = refl
no_peers (x ∷ xs) e = absurd (omega arith)

module _ (filter : Bytes → Bool) (skip : List Bytes) (addr : Bytes) where
  -- The peer that a search from one peer over some others ends with.
  record Best (s c : Bytes) (ps : List Bytes) : Type 0 where
    origin : (c ≡ s) ⊎ ((eligible filter skip c ≡ true) × (0 < count c ps))
    kept : is_zero s ≡ false → (is_zero c ≡ false) × (far addr c ≤ far addr s)
    best :
        All
          (λ x. eligible filter skip x ≡ true → (is_zero c ≡ false) × (far addr c ≤ far addr x))
          ps

  -- One more peer.
  choice_cases :
      (s p : Bytes)
      → length p ≡ length addr
      → 0 < length addr
      → (is_zero s ≡ true) ⊎ (length s ≡ length addr)
      → ((closest_of filter skip addr s p ≡ s)
          × (eligible filter skip p ≡ true → (is_zero s ≡ false) × (far addr s ≤ far addr p)))
        ⊎ ((closest_of filter skip addr s p ≡ p)
            × (eligible filter skip p ≡ true)
            × (is_zero s ≡ false → far addr p ≤ far addr s))
  choice_cases s p e h w = elim (Bool-cases (filter p || contains_address skip p)) [
    | inl out ↦ inl (rw out refl, λ i. absurd (ground arith))
    | inr stays ↦ elim (Bool-cases (is_zero s)) [
      | inl z ↦ inr (rw (stays, z) refl, rw stays refl, λ n. absurd (ground arith))
      | inr n ↦
          let len : length s ≡ length addr = elim w [ inl z ↦ absurd (ground arith) | inr l ↦ l ] in
          let c = closer-far addr p s e len in
          elim (Bool-cases (ltb (far addr p) (far addr s))) [
            | inl less ↦ inr (rw (stays, n, c, less) refl, rw stays refl, λ _. ground arith)
            | inr more ↦ inl (rw (stays, n, c, more) refl, λ _. (n, ground arith))
          ]
    ]
  ]

  fold-Best :
      (ps : List Bytes) (s : Bytes)
      → All (λ x. length x ≡ length addr) ps
      → 0 < length addr
      → (is_zero s ≡ true) ⊎ (length s ≡ length addr)
      → Best s (fold (closest_of filter skip addr) ps s) ps
  fold-Best [] s a h w = record { origin = inl refl; kept = λ n. (n, omega arith); best = tt }
  fold-Best (p ∷ ps) s (e, a) h w = elim (choice_cases s p e h w) [
    | inl (q, r) ↦
        let b = fold-Best ps s a h w in
        rw q (record {
          origin = elim b.origin [ inl o ↦ inl o | inr (i, m) ↦ inr (i, omega arith) ];
          kept = b.kept;
          best = (
            λ i.
                let t = r i in
                let k = b.kept t.0 in (k.0, let x = k.1 in let y = t.1 in omega arith),
            b.best,
          );
        })
    | inr (q, i, r) ↦
        let b = fold-Best ps p a h (inr e) in
        let k = b.kept (nonzero p addr e h) in
        let least = k.1 in
        rw q (record {
          origin = elim b.origin [
            | inl o ↦ inr (
              ap (eligible filter skip) o ∙ i,
              let same : bytes_equal p (fold (closest_of filter skip addr) ps p) ≡ true =
                    ap (bytes_equal p) o ∙ bytes_equal_refl p in
                  ground arith,
            )
            | inr (j, m) ↦ inr (j, omega arith)
          ];
          kept = λ n. (k.0, let x = r n in omega arith);
          best = (λ _. (k.0, least), b.best);
        })
  ]

  -- What a search tells: a peer that it may give and that is not the node, at least as close as all others
  -- that it may give and, where the node itself counts, as the node; or the node, if no peer is closer; or
  -- that there is none.
  abbrev pub Closest : Bool → Kad → Result Failure Bytes → Type 0
  Closest self k (ok p) =
      (eligible filter skip p ≡ true)
      × (0 < count p (all_peers k.connected_peers))
      × (bytes_equal p k.base ≡ false)
      × All (λ x. eligible filter skip x ≡ true → far addr p ≤ far addr x)
          (all_peers k.connected_peers)
      × (self && k.public ≡ true → far addr p ≤ far addr k.base)
  Closest self k (err e) =
      ((e ≡ want_self)
        × All (λ x. eligible filter skip x ≡ true → far addr k.base ≤ far addr x)
            (all_peers k.connected_peers))
      ⊎ ((e ≡ not_found)
          × ((all_peers k.connected_peers ≡ [])
              ⊎ ((self && k.public ≡ false)
                  × All (λ x. eligible filter skip x ≡ false) (all_peers k.connected_peers))))

  none_eligible :
      (c : Bytes) (ps : List Bytes)
      → is_zero c ≡ true
      → All
          (λ x. eligible filter skip x ≡ true → (is_zero c ≡ false) × (far addr c ≤ far addr x))
          ps
      → All (λ x. eligible filter skip x ≡ false) ps
  none_eligible c [] z a = tt
  none_eligible c (p ∷ ps) z (h, a) = (
    elim (Bool-cases (eligible filter skip p)) [
      | inl i ↦ let n = (h i).0 in absurd (ground arith)
      | inr o ↦ o
    ],
    none_eligible c ps z a,
  )

  none_closer :
      (c : Bytes) (ps : List Bytes)
      → All
          (λ x. eligible filter skip x ≡ true → (is_zero c ≡ false) × (far addr c ≤ far addr x))
          ps
      → All (λ x. eligible filter skip x ≡ true → far addr c ≤ far addr x) ps
  none_closer c [] a = tt
  none_closer c (p ∷ ps) (h, a) = (λ i. (h i).1, none_closer c ps a)

  -- An address that is neither none nor the node was found.
  not_first :
      (base c : Bytes) (ps : List Bytes) (self : Bool)
      → Best (if self then base else []) c ps
      → is_zero c ≡ false
      → bytes_equal c base ≡ false
      → (eligible filter skip c ≡ true) × (0 < count c ps)
  not_first base c ps true b n other = elim b.origin [
    | inl o ↦ let same = ap (bytes_equal c) (sym o) ∙ bytes_equal_refl c in absurd (ground arith)
    | inr f ↦ f
  ]
  not_first base c ps false b n other = elim b.origin [
    | inl o ↦ let z = ap is_zero o in absurd (ground arith)
    | inr f ↦ f
  ]

  -- The search from where it starts.
  search :
      (self : Bool) (k : Kad)
      → All (λ x. length x ≡ length addr) (all_peers k.connected_peers)
      → length k.base ≡ length addr
      → 0 < length addr
      → (size k.connected_peers == 0) ≡ false
      → Closest self k (closest_peer filter self skip addr k)
  unfolding closest_peer
  search self k a e h full =
      let ps = all_peers k.connected_peers in
      let first = if self && k.public then k.base else [] in
      let c = fold (closest_of filter skip addr) ps first in
      let run = each_bin_rev-fold (closest_of filter skip addr) k.connected_peers first in
      let start : (is_zero first ≡ true) ⊎ (length first ≡ length addr) =
        elim (Bool-cases (self && k.public)) [ inl y ↦ rw y (inr e) | inr n ↦ rw n (inl refl) ] in
      let b = fold-Best ps first a h start in
      rw (full, run)
        (elim (Bool-cases (is_zero c)) [
          | inl z ↦ rw z (
              inr (
                refl,
                inr (
                  elim (Bool-cases (self && k.public)) [
                    | inl y ↦
                        let n : is_zero first ≡ false = rw y (nonzero k.base addr e h) in
                        let m = (b.kept n).0 in absurd (ground arith)
                    | inr n ↦ n
                  ],
                  none_eligible c ps z b.best,
                ),
              ))
          | inr n ↦ elim (Bool-cases (bytes_equal c k.base)) [
            | inl same ↦
                rw (n, same)
                  (inl (
                    refl,
                    subst
                        (λ x. All (λ y. eligible filter skip y ≡ true → far addr x ≤ far addr y) ps)
                        (bytes_equal_sound c k.base same) (none_closer c ps b.best),
                  ))
            | inr other ↦
                let given = not_first k.base c ps (self && k.public) b n other in
                rw (n, other)
                  (
                    given.0,
                    given.1,
                    other,
                    none_closer c ps b.best,
                    λ y.
                        let t : first ≡ k.base = rw y refl in
                        subst (λ x. far addr c ≤ far addr x) t
                          (b.kept (ap is_zero t ∙ nonzero k.base addr e h)).1,
                  )
          ]
        ])

-- `ClosestPeer` gives a connected peer, not filtered out nor skipped and not the node itself, that is at least as
-- close to the address as every other such peer and, if the node is public and includes itself, as the node. It
-- says that the node is wanted only if no such peer is closer than the node. It says that nothing is found only
-- if there are no peers or all of them are left out and the node does not count. The peers, the node and the
-- address have one length, which is not 0.
pub closest_peer-Closest :
    (filter : Bytes → Bool) (self : Bool) (skip : List Bytes) (addr : Bytes) (k : Kad)
    → All (λ x. length x ≡ length addr) (all_peers k.connected_peers)
    → length k.base ≡ length addr
    → 0 < length addr
    → Closest filter skip addr self k (closest_peer filter self skip addr k)
unfolding closest_peer
closest_peer-Closest filter self skip addr k a e h =
    elim (Bool-cases (size k.connected_peers == 0)) [
      | inl empty ↦ rw empty (
          inr (
            refl,
            inl (
                no_peers (all_peers k.connected_peers)
                  (length-all_peers k.connected_peers ∙ ground arith)),
          ))
      | inr full ↦ search filter skip addr self k a e h full
    ]
