-- ===== src/Kademlia/Lists.antt =====
-- A loop over all bins that always goes on is a fold over all peers.
use aicode.Prelude.{
  ℕ, zero, suc, ◌+◌, ◌%◌, ◌≡◌, refl, sym, ap, ◌∙◌, subst, false, List, [], ◌∷◌, ◌++◌, length,
  length-append, arith,
}
use aicode.Bytes.{Bytes}
use aicode.Pslice.{PSlice, size, size_below}
use aicode.Pslice.Each.{go_on, each_in, each_up, each_bin_rev}

-- The peers of k bins from the i-th on.
abbrev pub listed : PSlice → ℕ → ℕ → List Bytes
listed l i zero = []
listed l i (suc k) = l.peers i ++ listed l (suc i) k

abbrev pub all_peers : PSlice → List Bytes
all_peers l = listed l 0 l.max_bins

length-listed :
    (l : PSlice) (i k : ℕ) → length (listed l i k) + size_below l i ≡ size_below l (i + k)
length-listed l i zero =
    let e : i + 0 ≡ i = omega arith in
    subst (λ n. 0 + size_below l i ≡ size_below l n) (sym e) (omega arith)
length-listed l i (suc k) =
    let h = length-listed l (suc i) k in
    let a = length-append (l.peers i) (listed l (suc i) k) in
    let e : i + suc k ≡ suc i + k = omega arith in
    subst (λ n. length (l.peers i ++ listed l (suc i) k) + size_below l i ≡ size_below l n) (sym e)
      (omega arith)

pub length-all_peers : (l : PSlice) → length (all_peers l) ≡ size l
unfolding size
length-all_peers l =
    let h = length-listed l 0 l.max_bins in
    let e : 0 + l.max_bins ≡ l.max_bins = omega arith in
    let f : size_below l (0 + l.max_bins) ≡ size_below l l.max_bins = ap (size_below l) e in
    omega arith

module _ {S : Type 0} (g : S → Bytes → S) where
  abbrev pub fold : List Bytes → S → S
  fold [] s = s
  fold (p ∷ ps) s = fold ps (g s p)

  fold-append : (xs ys : List Bytes) (s : S) → fold (xs ++ ys) s ≡ fold ys (fold xs s)
  fold-append [] ys s = refl
  fold-append (x ∷ xs) ys s = fold-append xs ys (g s x)

  each_in-fold :
      (i : ℕ) (ps : List Bytes) (s : S)
      → each_in (λ t p j. (g t p, go_on)) i ps s ≡ (fold ps s, false)
  unfolding each_in
  each_in-fold i [] s = refl
  each_in-fold i (p ∷ ps) s = each_in-fold i ps (g s p)

  each_up-fold :
      (l : PSlice) (i k : ℕ) (s : S)
      → each_up (λ t p j. (g t p, go_on)) l i k s ≡ fold (listed l i k) s
  unfolding each_up
  each_up-fold l i zero s = refl
  each_up-fold l i (suc k) s = rw (each_in-fold (i % 256) (l.peers i) s) (
      each_up-fold l (suc i) k (fold (l.peers i) s)
      ∙ sym (fold-append (l.peers i) (listed l (suc i) k) s))

  pub each_bin_rev-fold :
      (l : PSlice) (s : S) → each_bin_rev (λ t p j. (g t p, go_on)) l s ≡ fold (all_peers l) s
  unfolding each_bin_rev
  each_bin_rev-fold l s = each_up-fold l 0 l.max_bins s
