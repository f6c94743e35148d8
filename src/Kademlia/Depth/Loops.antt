-- ===== src/Kademlia/Depth/Loops.antt =====
-- The loops over the bins.
use aicode.Prelude.{
  ℕ, zero, suc, ◌+◌, ◌-◌, ◌%◌, ◌≤◌, ◌<◌, ◌≡◌, ◌⊎◌, inl, inr, refl, sym, ap, subst, ◌∙◌, Bool, true,
  false, not, ◌&&◌, ◌||◌, Bool-cases, ltb, leb, ◌==◌, arith,
}
use aicode.Bytes.{Bytes}
use aicode.Pslice.{PSlice}
use aicode.Pslice.Each.{each_down, each_up, each_bin, each_bin_rev}
use aicode.Kademlia.{unsaturated_step, candidate_step}
use aicode.Kademlia.Depth.{
  live, unsaturated_here, unsaturated_short, unsaturated_full, candidate_here,
}

module _ (filter : Bytes → Bool) (l : PSlice) where
  -- The reachable peers of a bin.
  abbrev pub live_in : ℕ → ℕ
  live_in b = live filter (l.peers b)

  -- Those of the bins below one.
  abbrev pub below : ℕ → ℕ
  below zero = 0
  below (suc b) = below b + live_in b

  -- A bin other than the first may have no reachable peer at all.
  abbrev pub saturated_at : ℕ → ℕ → Bool
  saturated_at sat b = leb sat (live_in b) || (not (b == 0) && (live_in b == 0))

  pub below_mono : (m n : ℕ) → m ≤ n → below m ≤ below n
  below_mono m zero h =
      let e : m ≡ 0 = omega arith in subst (λ k. below k ≤ 0) (sym e) (omega arith)
  below_mono m (suc n) h = elim (Bool-cases (m == suc n)) [
    | inl same ↦
        let e : m ≡ suc n = ground arith in
        subst (λ k. below k ≤ below (suc n)) (sym e) (omega arith)
    | inr less ↦ let r = below_mono m n (ground arith) in omega arith
  ]

  -- Where nothing is reachable from one bin to another, the counts are the same.
  pub below_none : (m n : ℕ) → ((b : ℕ) → m ≤ b → b < n → live_in b ≡ 0) → below n ≤ below m
  below_none m zero h = omega arith
  below_none m (suc n) h = elim (Bool-cases (ltb n m)) [
    | inl less ↦ below_mono (suc n) m (ground arith)
    | inr more ↦
        let r = below_none m n (λ b i j. h b i (omega arith)) in
        let z = h n (ground arith) (omega arith) in omega arith
  ]

  -- How far the search for an unsaturated bin is, before the i-th bin.
  record Searched (sat i shallowest n : ℕ) : Type 0 where
    less : shallowest < i
    counted : n ≡ live_in shallowest
    here : (shallowest ≡ 0) ⊎ (0 < live_in shallowest)
    full : (b : ℕ) → b < shallowest → saturated_at sat b ≡ true
    rest : (b : ℕ) → shallowest < b → b < i → live_in b ≡ 0

  -- The bin that the search ends at.
  pub record Unsaturated (sat shallowest : ℕ) : Type 0 where
    pub full : (b : ℕ) → b < shallowest → saturated_at sat b ≡ true
    pub last :
        (saturated_at sat shallowest ≡ false)
        ⊎ ((b : ℕ) → shallowest < b → b < l.max_bins → live_in b ≡ 0)

  Searched-empty :
      (sat i shallowest n : ℕ)
      → Searched sat i shallowest n
      → live_in i ≡ 0
      → Searched sat (suc i) shallowest n
  Searched-empty sat i shallowest n s z = record {
    less = let h = s.less in omega arith;
    counted = s.counted;
    here = s.here;
    full = s.full;
    rest = λ b h k. elim (Bool-cases (b == i)) [
      | inl same ↦ let e : b ≡ i = ground arith in ap live_in e ∙ z
      | inr before ↦ s.rest b h (ground arith)
    ];
  }

  Searched-full :
      (sat i shallowest n : ℕ)
      → Searched sat i shallowest n
      → sat ≤ n
      → 0 < live_in i
      → Searched sat (suc i) i (live_in i)
  Searched-full sat i shallowest n s h p = record {
    less = omega arith;
    counted = refl;
    here = inr p;
    full = λ b k. elim (Bool-cases (ltb b shallowest)) [
      | inl less ↦ s.full b (ground arith)
      | inr more ↦ elim (Bool-cases (b == shallowest)) [
        | inl same ↦
            let e : shallowest ≡ b = ground arith in
            let c : n ≡ live_in b = s.counted ∙ ap live_in e in ground arith
        | inr above ↦ let z = s.rest b (ground arith) k in ground arith
      ]
    ];
    rest = λ b h k. absurd (omega arith);
  }

  stopped-Unsaturated :
      (sat i shallowest n : ℕ) → Searched sat i shallowest n → n < sat → Unsaturated sat shallowest
  stopped-Unsaturated sat i shallowest n s h = record {
    full = s.full;
    last = inl (let c = s.counted in let z = s.here in ground arith);
  }

  up_loop :
      (sat i k shallowest n : ℕ)
      → Searched sat i shallowest n
      → i + k ≡ l.max_bins
      → l.max_bins ≤ 256
      → Unsaturated sat (each_up (unsaturated_step sat filter) l i k (shallowest, n)).0
  unfolding each_up
  up_loop sat i zero shallowest n s e m = record {
    full = s.full;
    last = inr (λ b h k. s.rest b h (omega arith));
  }
  up_loop sat i (suc k) shallowest n s e m =
      let small : i % 256 ≡ i = omega arith in
      let less = s.less in
      elim (Bool-cases (ltb n sat)) [
        | inl short ↦
            let run = unsaturated_short sat filter i shallowest n (l.peers i) less (ground arith) in
            elim (Bool-cases (ltb 0 (live_in i))) [
              | inl more ↦
                  rw (small, run, more) (stopped-Unsaturated sat i shallowest n s (ground arith))
              | inr none_here ↦
                  rw (small, run, none_here)
                    (up_loop sat (suc i) k shallowest n
                      (Searched-empty sat i shallowest n s (ground arith)) (omega arith) m)
            ]
        | inr full ↦
            let run = unsaturated_full sat filter i shallowest n (l.peers i) less (ground arith) in
            elim (Bool-cases (live_in i == 0)) [
              | inl none_here ↦
                  rw (small, run, none_here)
                    (up_loop sat (suc i) k shallowest n
                      (Searched-empty sat i shallowest n s (ground arith)) (omega arith) m)
              | inr more ↦
                  rw (small, run, more)
                    (up_loop sat (suc i) k i (live_in i)
                      (Searched-full sat i shallowest n s (ground arith) (ground arith))
                      (omega arith) m)
            ]
      ]

  pub each_bin_rev-Unsaturated :
      (sat : ℕ)
      → 0 < l.max_bins
      → l.max_bins ≤ 256
      → Unsaturated sat (each_bin_rev (unsaturated_step sat filter) l (0, 0)).0
  unfolding each_bin_rev each_up
  each_bin_rev-Unsaturated sat p m =
      let k = l.max_bins - 1 in
      let e : l.max_bins ≡ suc k = omega arith in
      let first : Searched sat 1 0 (0 + live_in 0) = record {
        less = omega arith;
        counted = omega arith;
        here = inl refl;
        full = λ b h. absurd (omega arith);
        rest = λ b h j. absurd (omega arith);
      } in
      let run : each_up (unsaturated_step sat filter) l 1 k (0, 0 + live_in 0)
          ≡ each_up (unsaturated_step sat filter) l 0 (suc k) (0, 0) =
        rw (each_up, unsaturated_here sat filter 0 0 (l.peers 0)) refl in
      subst (λ j. Unsaturated sat (each_up (unsaturated_step sat filter) l 0 j (0, 0)).0) (sym e)
        (subst (λ r. Unsaturated sat r.0) run
          (up_loop sat 1 k 0 (0 + live_in 0) first (omega arith) m))

  -- The bin in which the count from the deepest on reaches the low water mark.
  pub record Candidate (low c : ℕ) : Type 0 where
    pub enough : (c ≡ 0) ⊎ (low + below c ≤ below l.max_bins)
    pub short : below l.max_bins < low + below (suc c)

  down_loop :
      (low k n : ℕ)
      → n < low
      → n + below k ≡ below l.max_bins
      → k ≤ 256
      → Candidate low (each_down (candidate_step low filter) l k (n, 0)).1
  unfolding each_down
  down_loop low zero n h e m = record { enough = inl refl; short = omega arith }
  down_loop low (suc k) n h e m =
      let small : k % 256 ≡ k = omega arith in
      let run = candidate_here low filter k n 0 (l.peers k) h in
      elim (Bool-cases (leb low (n + live_in k))) [
        | inl reached ↦
            rw (small, run, reached) (record { enough = inr (ground arith); short = omega arith })
        | inr before ↦
            rw (small, run, before)
              (down_loop low k (n + live_in k) (ground arith) (omega arith) (omega arith))
      ]

  pub each_bin-Candidate :
      (low : ℕ)
      → 1 ≤ low
      → l.max_bins ≤ 256
      → Candidate low (each_bin (candidate_step low filter) l (0, 0)).1
  unfolding each_bin
  each_bin-Candidate low p m = down_loop low l.max_bins 0 (omega arith) (omega arith) m
