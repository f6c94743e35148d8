-- ===== src/Batches/Cleanup.antt =====
-- What a cleanup leaves of the batches, and of their keys.
pub mod Eviction
use aicode.Prelude.{
  ℕ, ◌+◌, ◌≤◌, ◌<◌, ◌≡◌, ◌≢◌, refl, sym, ap, subst, ◌∙◌, ◌⊎◌, inl, inr, Bool, true, false,
  Bool-cases, Option, none, some, Option-cases, List, [], ◌∷◌, leb, ltb, ◌==◌, ◌&&◌, ◌||◌, not,
  if◌then◌else◌, arith, All,
}
use aicode.Batches.{
  Batch, value_key, batch_key, Disk, Store, Env, Error, Result, ok, err, continue, find,
  remove_batch, remove_key, with_batches, with_keys,
}
use aicode.Batches.Writes.{evict, evict_all}

abbrev pub has_key : ℕ → ℕ → List (ℕ × ℕ) → Bool
has_key v i [] = false
has_key v i ((w, j) ∷ ks) = ((v == w) && (i == j)) || has_key v i ks

abbrev pub has_id : ℕ → List Batch → Bool
has_id i [] = false
has_id i (b ∷ bs) = (i == b.id) || has_id i bs

abbrev pub has_pair : ℕ → ℕ → List Batch → Bool
has_pair v i [] = false
has_pair v i (b ∷ bs) = ((v == b.value) && (i == b.id)) || has_pair v i bs

abbrev pub Sorted : List (ℕ × ℕ) → Type 0
Sorted [] = Unit {0}
Sorted (k ∷ ks) = All (λ q. k.0 ≤ q.0) ks × Sorted ks

find-remove_batch :
    (i j : ℕ) (bs : List Batch) → find i (remove_batch j bs) ≡ (if i == j then none else find i bs)
find-remove_batch i j [] = ground arith
find-remove_batch i j (b ∷ bs) = ground (arith, find-remove_batch i j bs)

pub has_key-remove_key :
    (v i w j : ℕ) (ks : List (ℕ × ℕ))
    → has_key v i (remove_key w j ks) ≡ (not ((v == w) && (i == j)) && has_key v i ks)
has_key-remove_key v i w j [] = ground arith
has_key-remove_key v i w j ((x, y) ∷ ks) = ground (arith, has_key-remove_key v i w j ks)

All-remove_key {ℓ} :
    (P : ℕ × ℕ → Type ℓ) (v i : ℕ) (ks : List (ℕ × ℕ)) → All P ks → All P (remove_key v i ks)
All-remove_key P v i [] h = tt
All-remove_key P v i ((w, j) ∷ ks) h = elim (Bool-cases ((v == w) && (i == j))) [
  | inl hit ↦ rw (hit, remove_key) (All-remove_key P v i ks h.1)
  | inr miss ↦ rw (miss, remove_key) (h.0, All-remove_key P v i ks h.1)
]

pub remove_key-Sorted : (v i : ℕ) (ks : List (ℕ × ℕ)) → Sorted ks → Sorted (remove_key v i ks)
remove_key-Sorted v i [] h = tt
remove_key-Sorted v i ((w, j) ∷ ks) h = elim (Bool-cases ((v == w) && (i == j))) [
  | inl hit ↦ rw (hit, remove_key) (remove_key-Sorted v i ks h.1)
  | inr miss ↦ rw (miss, remove_key) (All-remove_key _ v i ks h.0, remove_key-Sorted v i ks h.1)
]

abbrev without : Batch → Store → Store
without b s = with_batches (remove_batch b.id) (with_keys (remove_key b.value b.id) s)

evict_lem : (b : Batch) (c : Env) (s t : Store) → evict b c s ≡ (ok tt, t) → without b s ≡ t
unfolding evict
evict_lem b c s t e = ground arith

-- What an eviction of batches leaves.
pub record Evicted (ds : List Batch) (s t : Store) : Type 0 where
  pub found :
      (i : ℕ) → find i t.disk.batches ≡ (if has_id i ds then none else find i s.disk.batches)
  pub keyed :
      (v i : ℕ)
      → has_key v i t.disk.value_keys ≡ (not (has_pair v i ds) && has_key v i s.disk.value_keys)
  pub sorted : Sorted s.disk.value_keys → Sorted t.disk.value_keys
  pub same_state : t.cs ≡ s.cs

Result-tt : (r : Result (Unit {0})) → (r ≡ ok tt) ⊎ ((e : Error) × (r ≡ err e))
Result-tt (ok tt) = inl refl
Result-tt (err e) = inr (e, refl)

pub evict_all-Evicted :
    (ds : List Batch) (c : Env) (s t : Store) → evict_all ds c s ≡ (ok tt, t) → Evicted ds s t
unfolding evict_all
evict_all-Evicted [] c s t e =
    let same : s ≡ t = ground arith in
    subst (Evicted [] s) same
      (record { found = λ i. refl; keyed = λ v i. refl; sorted = λ h. h; same_state = refl })
evict_all-Evicted (d ∷ ds) c s t e = elim (Result-tt (evict d c s).0) [
  | inl p ↦
      let q : evict d c s ≡ (ok tt, (evict d c s).1) = λ k. (p k, (evict d c s).1) in
      let u = without d s in
      let first : evict d c s ≡ (ok tt, u) =
        q ∙ ap (λ (x : Store). (ok tt, x)) (sym (evict_lem d c s _ q)) in
      let r = evict_all-Evicted ds c u t (ap (continue (λ _. evict_all ds) c) (sym first) ∙ e) in
      record {
        found = λ i. r.found i ∙ ground (arith, find-remove_batch i d.id s.disk.batches);
        keyed = λ v i.
            r.keyed v i ∙ ground (arith, has_key-remove_key v i d.value d.id s.disk.value_keys);
        sorted = λ h. r.sorted (remove_key-Sorted d.value d.id _ h);
        same_state = r.same_state;
      }
  | inr (x, p) ↦
      let q : evict d c s ≡ (err x, (evict d c s).1) = λ k. (p k, (evict d c s).1) in
      let clash = sym (ap (continue (λ _. evict_all ds) c) q) ∙ e in
      let bad : err x ≡ ok tt = ap (λ (r : Result (Unit {0}) × Store). r.0) clash in cc
]
