-- ===== src/Kademlia/Saturation.antt =====
-- The peers that count for the saturation of a bin.
use aicode.Prelude.{
  ℕ, zero, suc, ◌+◌, ◌%◌, ◌≤◌, ◌<◌, ◌≡◌, inl, inr, refl, ap, ◌∙◌, Bool, true, false, not, ◌&&◌,
  Bool-cases, ltb, leb, ◌==◌, if◌then◌else◌, Option, List, [], ◌∷◌, arith,
}
use aicode.Bytes.{Bytes}
use aicode.Pslice.{PSlice}
use aicode.Pslice.Counts.{count_if}
use aicode.Pslice.Each.{each_in, each_down, each_bin}
use aicode.Effects.{ok, err}
use aicode.Swarm.{proximity}
use aicode.Kademlia.{
  Kad, oversaturated, contains_address, count_in_bin, bin_saturated, saturated, admit,
}

module _ (filter static : Bytes → Bool) where
  abbrev pub counts : Bytes → Bool
  counts p = not (filter p) && not (static p)

  -- How many peers of a bin count.
  abbrev pub counted : PSlice → ℕ → ℕ
  counted l b = count_if counts (l.peers b)

  count_in-each_in :
      (bin i n : ℕ) (ps : List Bytes)
      → each_in (count_in_bin filter static bin) i ps n
        ≡ ((if i == bin then n + count_if counts ps else n), false)
  unfolding each_in
  count_in-each_in bin i n [] = ground arith
  count_in-each_in bin i n (p ∷ ps) = elim (Bool-cases (i == bin)) [
    | inl here ↦ elim (Bool-cases (counts p)) [
      | inl passes ↦
          let h = count_in-each_in bin i (suc n) ps in
          let e : suc n + count_if counts ps ≡ n + (1 + count_if counts ps) = omega arith in
          rw (here, passes) (h ∙ rw here (ap (λ m. (m, false)) e))
      | inr fails ↦
          let h = count_in-each_in bin i n ps in
          let e : n + count_if counts ps ≡ n + (0 + count_if counts ps) = omega arith in
          rw (here, fails) (h ∙ rw here (ap (λ m. (m, false)) e))
    ]
    | inr away ↦ let h = count_in-each_in bin i n ps in rw away (h ∙ rw away refl)
  ]

  count_in-each_down :
      (bin : ℕ) (l : PSlice) (k n : ℕ)
      → k ≤ 256
      → each_down (count_in_bin filter static bin) l k n
        ≡ (if ltb bin k then n + counted l bin else n)
  unfolding each_down
  count_in-each_down bin l zero n h = ground arith
  count_in-each_down bin l (suc k) n h =
      let small : k % 256 ≡ k = omega arith in
      let run = count_in-each_in bin k n (l.peers k) in
      elim (Bool-cases (k == bin)) [
        | inl here ↦
            let e : k ≡ bin = ground arith in
            let r = count_in-each_down bin l k (n + counted l k) (omega arith) in
            let out : ltb bin k ≡ false = ground arith in
            let in_range : ltb bin (suc k) ≡ true = ground arith in
            rw (small, run, here, in_range) (r ∙ (rw out refl ∙ ap (λ b. n + counted l b) e))
        | inr away ↦
            let r = count_in-each_down bin l k n (omega arith) in
            let same : ltb bin (suc k) ≡ ltb bin k = ground arith in rw (small, run, away, same) r
      ]

  -- A bin is saturated if as many peers of it count.
  pub bin_saturated-counted :
      (amount bin : ℕ) (l : PSlice)
      → bin < l.max_bins
      → l.max_bins ≤ 256
      → bin_saturated amount static filter bin l ≡ leb amount (counted l bin)
  unfolding bin_saturated each_bin
  bin_saturated-counted amount bin l h m =
      let r = count_in-each_down bin l l.max_bins 0 m in
      let inside : ltb bin l.max_bins ≡ true = ground arith in
      ap (leb amount) (r ∙ rw inside (omega arith))

-- A node that is no boot node lets a peer dial in that is not forced exactly if fewer peers of its bin count than
-- the over-saturation; then, as far as the check goes, nothing changes.
pub admit-counted :
    (filter : Bytes → Bool) (randomness : ℕ → Option ℕ) (a : Bytes) (k : Kad)
    → k.opt.bootnode_mode ≡ false
    → proximity k.base a < k.connected_peers.max_bins
    → k.connected_peers.max_bins ≤ 256
    → let n =
        counted filter
          (contains_address k.opt.static_nodes)
          k.connected_peers
          (proximity k.base a) in
      admit filter randomness false a k
      ≡ (if leb k.opt.over_saturation_peers n then (err oversaturated, k) else (ok tt, k))
unfolding admit saturated
admit-counted filter randomness a k normal near bins =
    let static = contains_address k.opt.static_nodes in
    let full =
      bin_saturated-counted filter static k.opt.over_saturation_peers (proximity k.base a)
        k.connected_peers near bins in
    simp (normal, full)
