-- ===== src/Kademlia/Depth/Greatest.antt =====
-- The depth against a description of it.
use aicode.Prelude.{
  ℕ, zero, suc, ◌+◌, ◌≤◌, ◌<◌, ◌≡◌, ◌⊎◌, inl, inr, refl, sym, subst, Bool, true, Bool-cases, ltb,
  leb, ◌==◌, if◌then◌else◌, Option, none, some, length, arith,
}
use aicode.Bytes.{Bytes}
use aicode.Pslice.{PSlice, size, empty_from, shallowest_empty}
use aicode.Pslice.Each.{each_bin, each_bin_rev}
use aicode.Kademlia.{unsaturated_step, candidate_step, at_most_empty, depth_of}
use aicode.Kademlia.Depth.Loops.{
  below, saturated_at, below_mono, below_none, Unsaturated, each_bin_rev-Unsaturated, Candidate,
  each_bin-Candidate,
}

-- What `empty_from` finds among k bins from the i-th on.
empty_from_cases :
    (l : PSlice) (i k : ℕ)
    → ((empty_from l i k ≡ none) × ((b : ℕ) → i ≤ b → b < i + k → 0 < length (l.peers b)))
      ⊎ ((e : ℕ) × (empty_from l i k ≡ some e)
          × (e < i + k)
          × (length (l.peers e) ≡ 0)
          × ((b : ℕ) → i ≤ b → b < e → 0 < length (l.peers b)))
empty_from_cases l i zero = inl (refl, λ b h k. absurd (omega arith))
empty_from_cases l i (suc k) = elim (Bool-cases (length (l.peers i) == 0)) [
  | inl empty ↦ inr (i, ground arith, omega arith, ground arith, λ b h j. absurd (omega arith))
  | inr full ↦
      let here : (b : ℕ) → b ≡ i → 0 < length (l.peers b) =
        λ b e. subst (λ j. 0 < length (l.peers j)) (sym e) (ground arith) in
      elim (empty_from_cases l (suc i) k) [
        | inl (e, h) ↦ inl (
          ground arith,
          λ b p q. elim (Bool-cases (b == i)) [
            | inl same ↦ here b (ground arith)
            | inr later ↦ h b (ground arith) (omega arith)
          ],
        )
        | inr (x, e, w, z, h) ↦ inr (
          x,
          ground arith,
          omega arith,
          z,
          λ b p q. elim (Bool-cases (b == i)) [
            | inl same ↦ here b (ground arith)
            | inr later ↦ h b (ground arith) q
          ],
        )
      ]
]

module _ (low sat : ℕ) (filter : Bytes → Bool) (l : PSlice) where
  -- What the node asks of a depth: each bin below it has peers, and enough reachable ones unless none of its
  -- peers are reachable; and from it on, unless it is 0, there are at least as many reachable peers as the low
  -- water mark.
  pub record IsDeep (d : ℕ) : Type 0 where
    pub occupied : (b : ℕ) → b < d → b < l.max_bins → 0 < length (l.peers b)
    pub saturated : (b : ℕ) → b < d → saturated_at filter l sat b ≡ true
    pub enough : (d ≡ 0) ⊎ (low + below filter l d ≤ below filter l l.max_bins)

  -- The greatest such depth.
  pub record IsDepth (d : ℕ) : Type 0 where
    pub deep : IsDeep d
    pub greatest : (e : ℕ) → IsDeep e → e ≤ d

  IsDeep-lower : (d e : ℕ) → e ≤ d → IsDeep d → IsDeep e
  IsDeep-lower d e h s = record {
    occupied = λ b k. s.occupied b (omega arith);
    saturated = λ b k. s.saturated b (omega arith);
    enough = elim s.enough [
      | inl z ↦ inl (omega arith)
      | inr m ↦ inr (let r = below_mono filter l e d h in omega arith)
    ];
  }

  -- A depth is the greatest if the next one is too deep.
  IsDepth-next : (d : ℕ) → IsDeep d → (IsDeep (suc d) → ⊥) → IsDepth d
  IsDepth-next d s n = record {
    deep = s;
    greatest = λ e t. elim (Bool-cases (leb e d)) [
      | inl h ↦ ground arith
      | inr h ↦ absurd (n (IsDeep-lower e (suc d) (ground arith) t))
    ];
  }

  -- What the three bounds give, and why none of them can be passed.
  module _ (u c : ℕ) (un : Unsaturated filter l sat u) (ca : Candidate filter l low c) where
    bounded-IsDeep :
        (d : ℕ)
        → d ≤ u
        → d ≤ c
        → ((b : ℕ) → b < d → b < l.max_bins → 0 < length (l.peers b))
        → IsDeep d
    bounded-IsDeep d h k o = record {
      occupied = o;
      saturated = λ b j. un.full b (omega arith);
      enough = elim ca.enough [
        | inl z ↦ inl (omega arith)
        | inr m ↦ inr (let r = below_mono filter l d c k in omega arith)
      ];
    }

    past_unsaturated : 1 ≤ low → IsDeep (suc u) → ⊥
    past_unsaturated p s = elim un.last [
      | inl n ↦ let y = s.saturated u (omega arith) in absurd (ground arith)
      | inr z ↦
          let r = below_none filter l (suc u) l.max_bins (λ b i j. z b (omega arith) j) in
          elim s.enough [ inl e ↦ absurd (omega arith) | inr m ↦ absurd (omega arith) ]
    ]

    past_candidate : IsDeep (suc c) → ⊥
    past_candidate s =
        let h = ca.short in
        elim s.enough [ inl e ↦ absurd (omega arith) | inr m ↦ absurd (omega arith) ]

    -- The depth is the least of the bounds.
    least-IsDepth :
        1 ≤ low
        → (o : Option ℕ)
        → ((o ≡ none) × ((b : ℕ) → 0 ≤ b → b < 0 + l.max_bins → 0 < length (l.peers b)))
          ⊎ ((e : ℕ) × (o ≡ some e)
              × (e < 0 + l.max_bins)
              × (length (l.peers e) ≡ 0)
              × ((b : ℕ) → 0 ≤ b → b < e → 0 < length (l.peers b)))
        → IsDepth (if ltb c (at_most_empty o u) then c else at_most_empty o u)
    least-IsDepth p o (inl (q, h)) =
        let occupied : (b : ℕ) → b < l.max_bins → 0 < length (l.peers b) =
          λ b k. h b (omega arith) (omega arith) in
        rw q (elim (Bool-cases (ltb c u)) [
          | inl less ↦ rw less (
              IsDepth-next c (bounded-IsDeep c (ground arith) (omega arith) (λ b k j. occupied b j))
                past_candidate)
          | inr more ↦ rw more (
              IsDepth-next u (bounded-IsDeep u (omega arith) (ground arith) (λ b k j. occupied b j))
                (past_unsaturated p))
        ])
    least-IsDepth p o (inr (e, q, w, z, h)) =
        let occupied : (b : ℕ) → b < e → 0 < length (l.peers b) = λ b k. h b (omega arith) k in
        let past_empty : IsDeep (suc e) → ⊥ =
          λ s. let y = s.occupied e (omega arith) (omega arith) in absurd (omega arith) in
        rw q (elim (Bool-cases (ltb e u)) [
          | inl less ↦ elim (Bool-cases (ltb c e)) [
            | inl first ↦
                rw (less, first)
                  (IsDepth-next c
                    (bounded-IsDeep c (ground arith) (omega arith)
                      (λ b k j. occupied b (ground arith)))
                    past_candidate)
            | inr after ↦
                rw (less, after)
                  (IsDepth-next e
                    (bounded-IsDeep e (ground arith) (ground arith) (λ b k j. occupied b k))
                    past_empty)
          ]
          | inr more ↦ elim (Bool-cases (ltb c u)) [
            | inl first ↦
                rw (more, first)
                  (IsDepth-next c
                    (bounded-IsDeep c (ground arith) (omega arith)
                      (λ b k j. occupied b (ground arith)))
                    past_candidate)
            | inr after ↦
                rw (more, after)
                  (IsDepth-next u
                    (bounded-IsDeep u (omega arith) (ground arith)
                      (λ b k j. occupied b (ground arith)))
                    (past_unsaturated p))
          ]
        ])

-- With more peers than the low water mark, the depth is the greatest one such that each bin below it has
-- peers and, unless its peers are all unreachable and it is not the first, as many reachable ones as the
-- saturation asks for, and, unless it is 0, such that from it on there are as many reachable peers as the low
-- water mark. With no more peers than that it is 0. The mark is at least 1, and there are from 1 to 256 bins.
pub depth_of-IsDepth :
    (low sat : ℕ) (filter : Bytes → Bool) (l : PSlice)
    → 1 ≤ low
    → 0 < l.max_bins
    → l.max_bins ≤ 256
    → ((size l ≤ low) × (depth_of low sat filter l ≡ 0))
      ⊎ ((low < size l) × IsDepth low sat filter l (depth_of low sat filter l))
unfolding depth_of shallowest_empty
depth_of-IsDepth low sat filter l p q r = elim (Bool-cases (leb (size l) low)) [
  | inl few ↦ inl (ground arith, rw few refl)
  | inr many ↦ inr (
    ground arith,
    rw many (
        least-IsDepth low sat filter l (each_bin_rev (unsaturated_step sat filter) l (0, 0)).0
          (each_bin (candidate_step low filter) l (0, 0)).1
          (each_bin_rev-Unsaturated filter l sat q r) (each_bin-Candidate filter l low p r) p
          (empty_from l 0 l.max_bins) (empty_from_cases l 0 l.max_bins)),
  )
]
