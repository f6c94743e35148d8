-- ===== src/Postage/Issuer/Counts.antt =====
-- What the issuer's counts bound, and that an immutable batch gives no index out twice.
use aicode.Prelude.{
  ℕ, suc, ◌+◌, ◌%◌, ◌^◌, ◌≤◌, ◌<◌, ◌≡◌, ◌≢◌, refl, sym, ap, subst, ◌∙◌, ◌⊎◌, inl, inr, Bool, true,
  false, Bool-cases, Option-cases, none, some, List, [], ◌∷◌, get_elem?, All, All-get, All-set,
  All-map, All-replicate, get_elem?-set_self, get_elem?-set_ne, ◌==◌, arith,
}
use mathlib.Core.Bool.{false≢true}
use aicode.Bytes.{Bytes}
use aicode.Postage.{Error, Result, ok, err, index_out_of_range, bucket_full}
use aicode.Postage.Stamp.{to_bucket, upper_bound}
use aicode.Postage.Issuer.{
  StampIssuer, new_stamp_issuer, bucket_upper_bound, count_up, increment_at,
}

pub record Inv (si : StampIssuer) : Type 0 where
  pub within : All (λ n. n ≤ bucket_upper_bound si) si.buckets
  pub fullest : All (λ n. n ≤ si.max_bucket_count) si.buckets
  pub capped : si.max_bucket_count ≤ bucket_upper_bound si

pub new_stamp_issuer-Inv :
    (label key id : Bytes) (amount depth bucket_depth block : ℕ) (immutable : Bool)
    → Inv (new_stamp_issuer label key id amount depth bucket_depth block immutable)
unfolding new_stamp_issuer
new_stamp_issuer-Inv label key id amount depth bucket_depth block immutable = record {
  within = All-replicate _ (2 ^ bucket_depth) 0 (omega arith);
  fullest = All-replicate _ (2 ^ bucket_depth) 0 (omega arith);
  capped = omega arith;
}

bound_lt : (si : StampIssuer) → bucket_upper_bound si < 2 ^ 32
unfolding bucket_upper_bound upper_bound
bound_lt si = omega arith

count_up-Inv :
    (si : StampIssuer) (bucket count : ℕ)
    → Inv si
    → count < bucket_upper_bound si
    → Inv (count_up si bucket count)
unfolding count_up bucket_upper_bound
count_up-Inv si bucket count v h =
    let next = (count + 1) % 2 ^ 32 in
    let small : next ≤ bucket_upper_bound si = omega (arith, bound_lt si) in
    record {
      within = All-set _ si.buckets bucket next v.within small;
      fullest =
          All-set _ si.buckets bucket next (All-map _ _ si.buckets (λ n k. ground arith) v.fullest)
            (ground arith);
      capped = ground arith;
    }

-- The ways in which a stamp is counted.
increment_at-cases :
    (si : StampIssuer) (addr : Bytes)
    → let b = to_bucket si.bucket_depth addr in
      ((get_elem? si.buckets b ≡ none) × (increment_at si addr ≡ err index_out_of_range))
      ⊎ ((n : ℕ) × (get_elem? si.buckets b ≡ some n)
          × (((n ≡ bucket_upper_bound si)
                × (((si.immutable_flag ≡ true) × (increment_at si addr ≡ err bucket_full))
                    ⊎ ((si.immutable_flag ≡ false)
                        × (increment_at si addr ≡ ok (b, 0, count_up si b 0)))))
              ⊎ ((n ≢ bucket_upper_bound si)
                  × (increment_at si addr ≡ ok (b, n, count_up si b n)))))
unfolding increment_at
increment_at-cases si addr =
    ground (arith, Option-cases (get_elem? si.buckets (to_bucket si.bucket_depth addr)))

-- An issue of a stamp keeps every bucket's count at most the batch's bound and at most the greatest
-- count, which is what the utilization reports; the index that is given out is below the bound, and
-- the bucket is the address's. The bound is taken to be positive, as it is for every batch deeper
-- than its buckets by less than 32.
pub increment_at-Inv :
    (si t : StampIssuer) (addr : Bytes) (bucket index : ℕ)
    → Inv si
    → 0 < bucket_upper_bound si
    → increment_at si addr ≡ ok (bucket, index, t)
    → Inv t × (index < bucket_upper_bound si) × (bucket ≡ to_bucket si.bucket_depth addr)
increment_at-Inv si t addr bucket index v pos e = elim (increment_at-cases si addr) [
  | inl (_, p) ↦ absurd (ground arith)
  | inr (n, q, inl (_, inl (_, p))) ↦ absurd (ground arith)
  | inr (n, q, inl (_, inr (_, p))) ↦
      let b = to_bucket si.bucket_depth addr in
      let same : count_up si b 0 ≡ t = ground arith in
      (subst Inv same (count_up-Inv si b 0 v pos), ground arith, ground arith)
  | inr (n, q, inr (more, p)) ↦
      let b = to_bucket si.bucket_depth addr in
      let low : n < bucket_upper_bound si =
        let k = All-get (λ m. m ≤ bucket_upper_bound si) si.buckets b n v.within q in omega arith in
      let same : count_up si b n ≡ t = ground arith in
      (subst Inv same (count_up-Inv si b n v low), ground arith, ground arith)
]

-- Counting changes neither the depths nor the id of the batch.
pub increment_at-batch :
    (si t : StampIssuer) (addr : Bytes) (bucket index : ℕ)
    → increment_at si addr ≡ ok (bucket, index, t)
    → (t.bucket_depth ≡ si.bucket_depth)
      × (t.batch_depth ≡ si.batch_depth)
      × (t.batch_id ≡ si.batch_id)
unfolding count_up
increment_at-batch si t addr bucket index e = elim (increment_at-cases si addr) [
  | inl (_, p) ↦ absurd (ground arith)
  | inr (n, q, inl (_, inl (_, p))) ↦ absurd (ground arith)
  | inr (n, q, inl (_, inr (_, p))) ↦ ground arith
  | inr (n, q, inr (more, p)) ↦ ground arith
]

abbrev after : StampIssuer → Result (ℕ × ℕ × StampIssuer) → StampIssuer
after si (err e) = si
after si (ok (bucket, index, t)) = t

abbrev given : Result (ℕ × ℕ × StampIssuer) → List (ℕ × ℕ) → List (ℕ × ℕ)
given (err e) rest = rest
given (ok (bucket, index, t)) rest = (bucket, index) ∷ rest

-- The buckets and indices that a sequence of addresses is given; a refused one is passed over.
unfoldable pub issue_all : StampIssuer → List Bytes → List (ℕ × ℕ)
issue_all si [] = []
issue_all si (addr ∷ addrs) = let r = increment_at si addr in given r (issue_all (after si r) addrs)

-- An index that is not yet given out: its bucket's count is at most it.
abbrev Unused : StampIssuer → ℕ × ℕ → Type 0
Unused si (b, i) = (n : ℕ) × (get_elem? si.buckets b ≡ some n) × (n ≤ i)

abbrev pub Distinct : List (ℕ × ℕ) → Type 0
Distinct [] = Unit {0}
Distinct (p ∷ ps) = All (λ q. q ≢ p) ps × Distinct ps

count_up-Unused :
    (si : StampIssuer) (b n : ℕ) (q : ℕ × ℕ)
    → n < bucket_upper_bound si
    → get_elem? si.buckets b ≡ some n
    → Unused (count_up si b n) q
    → Unused si q × (q ≢ (b, n))
unfolding count_up
count_up-Unused si b n (c, i) low e (m, h, le) =
    let next = (n + 1) % 2 ^ 32 in
    let exact : next ≡ n + 1 = omega (arith, bound_lt si) in
    elim (Bool-cases (b == c)) [
      | inl hit ↦
          let same : b ≡ c = ground arith in
          let e' = subst (λ k. get_elem? si.buckets k ≡ some n) same e in
          let s = get_elem?-set_self si.buckets c n next e' in
          let above : suc n ≤ i = ground arith in
          ((n, e', omega arith), λ p. omega (arith, ap (λ (r : ℕ × ℕ). r.1) p))
      | inr miss ↦
          let other : b ≢ c = ground arith in
          (
            (m, sym (get_elem?-set_ne si.buckets b c next other) ∙ h, le),
            λ p. other (sym (ap (λ (r : ℕ × ℕ). r.0) p)),
          )
    ]

immutable-count_up :
    (si : StampIssuer) (b n : ℕ) → (count_up si b n).immutable_flag ≡ si.immutable_flag
unfolding count_up
immutable-count_up si b n = refl

-- What an immutable batch does with an address.
immutable-cases :
    (si : StampIssuer) (addr : Bytes)
    → si.immutable_flag ≡ true
    → Inv si
    → ((e : Error) × (increment_at si addr ≡ err e))
      ⊎ ((b : ℕ) × (n : ℕ) × (n < bucket_upper_bound si)
          × (get_elem? si.buckets b ≡ some n)
          × (increment_at si addr ≡ ok (b, n, count_up si b n)))
immutable-cases si addr h v = elim (increment_at-cases si addr) [
  | inl (_, p) ↦ inl (index_out_of_range, p)
  | inr (n, q, inl (_, inl (_, p))) ↦ inl (bucket_full, p)
  | inr (n, q, inl (_, inr (f, p))) ↦ absurd (false≢true (sym f ∙ h))
  | inr (n, q, inr (more, p)) ↦
      let b = to_bucket si.bucket_depth addr in
      let k = All-get (λ m. m ≤ bucket_upper_bound si) si.buckets b n v.within q in
      inr (b, n, omega arith, q, p)
]

issue_all-Unused :
    (si : StampIssuer) (addrs : List Bytes)
    → si.immutable_flag ≡ true
    → Inv si
    → All (Unused si) (issue_all si addrs) × Distinct (issue_all si addrs)
unfolding issue_all
issue_all-Unused si [] h v = (tt, tt)
issue_all-Unused si (addr ∷ addrs) h v = elim (immutable-cases si addr h v) [
  | inl (x, p) ↦ rw (p, issue_all) (issue_all-Unused si addrs h v)
  | inr (b, n, low, q, p) ↦
      let t = count_up si b n in
      let (unused, distinct) =
        issue_all-Unused t addrs (immutable-count_up si b n ∙ h) (count_up-Inv si b n v low) in
      let both =
        All-map (Unused t) (λ r. Unused si r × (r ≢ (b, n))) _
          (λ r k. count_up-Unused si b n r low q k) unused in
      rw (p, issue_all)
        (
          ((n, q, omega arith), All-map _ (Unused si) _ (λ r k. k.0) both),
          (All-map _ (λ r. r ≢ (b, n)) _ (λ r k. k.1) both, distinct),
        )
]

-- An immutable batch gives no index of a bucket out twice, whatever addresses are stamped and in
-- whatever order.
pub issue_all-Distinct :
    (si : StampIssuer) (addrs : List Bytes)
    → si.immutable_flag ≡ true
    → Inv si
    → Distinct (issue_all si addrs)
issue_all-Distinct si addrs h v = (issue_all-Unused si addrs h v).1
