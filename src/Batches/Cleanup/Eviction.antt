-- ===== src/Batches/Cleanup/Eviction.antt =====
-- Exactly the batches whose balance is spent are evicted.
use aicode.Prelude.{
  ℕ, ◌≤◌, ◌<◌, ◌≡◌, refl, sym, ap, subst, ◌∙◌, ◌⊎◌, inl, inr, true, false, Bool-cases, Option, none,
  some, Option-cases, List, [], ◌∷◌, leb, ◌==◌, if◌then◌else◌, arith, All,
}
use mathlib.Core.Bool.{false≢true}
use aicode.Batches.{Batch, Disk, Store, Env, Result-cases, ok, find}
use aicode.Batches.Writes.{
  get, lookup, collect, evict_all, cleanup, compute_radius, radius_of, total_commitment,
}
use aicode.Batches.Cleanup.{has_key, has_id, has_pair, Sorted, Evicted, evict_all-Evicted}

-- The keys of the values are in their order, each is the key of a batch, and each batch has its key.
pub record Inv (d : Disk) : Type 0 where
  pub sorted : Sorted d.value_keys
  pub keyed :
      (v i : ℕ)
      → has_key v i d.value_keys ≡ true
      → (b : Batch) × (find i d.batches ≡ some b) × (b.value ≡ v) × (b.id ≡ i)
  pub indexed :
      (i : ℕ) (b : Batch)
      → find i d.batches ≡ some b
      → (b.id ≡ i) × (has_key b.value i d.value_keys ≡ true)

-- A batch that has a value above the total payout, or nothing.
abbrev pub keep : ℕ → Option Batch → Option Batch
keep total none = none
keep total (some b) = if leb b.value total then none else some b

-- The batches of a list are in the store and their values are at most the total payout.
abbrev Spent : Store → List Batch → Type 0
Spent s ds = All (λ d. (d.value ≤ s.cs.total_amount) × (find d.id s.disk.batches ≡ some d)) ds

Spent-has_id :
    (s : Store) (ds : List Batch) (i : ℕ) (b : Batch)
    → Spent s ds
    → has_id i ds ≡ true
    → find i s.disk.batches ≡ some b
    → (has_pair b.value i ds ≡ true) × (b.value ≤ s.cs.total_amount)
Spent-has_id s [] i b h k e = absurd (false≢true k)
Spent-has_id s (d ∷ ds) i b h k e = elim (Bool-cases (i == d.id)) [
  | inl hit ↦
      let same : i ≡ d.id = ground arith in
      let there : find i s.disk.batches ≡ some d = ap (λ n. find n s.disk.batches) same ∙ h.0.1 in
      let eq : b ≡ d = cc in
      let value : b.value ≡ d.value = ap (λ (x : Batch). x.value) eq in
      (ground arith, omega (arith, h.0.0))
  | inr miss ↦ let (a, q) = Spent-has_id s ds i b h.1 (ground arith) e in (ground arith, q)
]

has_pair-has_id : (v i : ℕ) (ds : List Batch) → has_id i ds ≡ false → has_pair v i ds ≡ false
has_pair-has_id v i [] h = refl
has_pair-has_id v i (d ∷ ds) h = ground (arith, has_pair-has_id v i ds)

-- What the search finds: only spent batches, and every spent batch that has a key.
abbrev Complete : Store → List (ℕ × ℕ) → List Batch → Type 0
Complete s ks ds =
    Spent s ds × ((v i : ℕ) → has_key v i ks ≡ true → v ≤ s.cs.total_amount → has_id i ds ≡ true)

get_lem :
    (i : ℕ) (c : Env) (s : Store) (b : Batch)
    → (get i c s).0 ≡ ok b
    → find i s.disk.batches ≡ some b
unfolding get lookup
get_lem i c s b e = elim (Option-cases (find i s.disk.batches)) [
  | inl p ↦ absurd (ground arith)
  | inr (x, p) ↦ ground arith
]

above : (v i w : ℕ) (ks : List (ℕ × ℕ)) → All (λ q. w ≤ q.0) ks → has_key v i ks ≡ true → w ≤ v
above v i w [] h k = absurd (false≢true k)
above v i w ((x, y) ∷ ks) h k = ground (arith, above v i w ks)

abbrev Keyed : Store → List (ℕ × ℕ) → Type 0
Keyed s ks =
    (v i : ℕ)
    → has_key v i ks ≡ true
    → (b : Batch) × (find i s.disk.batches ≡ some b) × (b.value ≡ v) × (b.id ≡ i)

-- The first key is of a batch that is spent, or the search stops at it.
collect-cases :
    (c : Env) (s : Store) (v i : ℕ) (ks : List (ℕ × ℕ)) (ds : List Batch)
    → collect c s ((v, i) ∷ ks) ≡ ok ds
    → (b : Batch) × (find i s.disk.batches ≡ some b)
      × (((b.value ≤ s.cs.total_amount)
            × ((bs : List Batch) × (collect c s ks ≡ ok bs) × (b ∷ bs ≡ ds)))
          ⊎ ((s.cs.total_amount < b.value) × ([] ≡ ds)))
unfolding collect
collect-cases c s v i ks ds e = elim (Result-cases (get i c s).0) [
  | inl (b, p) ↦ elim (Result-cases (collect c s ks)) [
    | inl (bs, q) ↦ (b, get_lem i c s b p, ground arith)
    | inr (x, q) ↦ (b, get_lem i c s b p, ground arith)
  ]
  | inr (x, p) ↦ absurd (ground arith)
]

-- The first key has the least value.
first_least :
    (v i w j : ℕ) (ks : List (ℕ × ℕ))
    → All (λ q. v ≤ q.0) ks
    → has_key w j ((v, i) ∷ ks) ≡ true
    → ¬ (w < v)
first_least v i w j ks h r less = elim (Bool-cases (has_key w j ks)) [
  | inl later ↦ omega (arith, above w j v ks h later)
  | inr here ↦ absurd (ground arith)
]

collect-Complete :
    (c : Env) (s : Store) (ks : List (ℕ × ℕ)) (ds : List Batch)
    → Sorted ks
    → Keyed s ks
    → collect c s ks ≡ ok ds
    → Complete s ks ds
unfolding collect
collect-Complete c s [] ds h k e =
    let same : [] ≡ ds = ground arith in
    subst (Complete s []) same (tt, λ v i q. absurd (false≢true q))
collect-Complete c s ((v, i) ∷ ks) ds h k e =
    let (b, there, next) = collect-cases c s v i ks ds e in
    let (b', there', value, id) = k v i (ground arith) in
    let eq : b ≡ b' = cc in
    let value' : b.value ≡ v = ap (λ (x : Batch). x.value) eq ∙ value in
    let id' : b.id ≡ i = ap (λ (x : Batch). x.id) eq ∙ id in
    elim next [
      | inl (low, (bs, q, same)) ↦
          let (spent, all) = collect-Complete c s ks bs h.1 (λ w j r. k w j (ground arith)) q in
          subst (Complete s ((v, i) ∷ ks)) same (
            ((low, ap (λ n. find n s.disk.batches) id' ∙ there), spent),
            λ w j r l. ground (arith, all w j),
          )
      | inr (high, same) ↦
          subst (Complete s ((v, i) ∷ ks)) same
            (tt, λ w j r l. absurd (first_least v i w j ks h.0 r (omega arith)))
    ]

cleanup_cases :
    (c : Env) (s t : Store)
    → cleanup c s ≡ (ok tt, t)
    → (ds : List Batch) × (collect c s s.disk.value_keys ≡ ok ds) × (evict_all ds c s ≡ (ok tt, t))
unfolding cleanup
cleanup_cases c s t e = elim (Result-cases (collect c s s.disk.value_keys)) [
  | inl (ds, p) ↦ (ds, p, ground arith)
  | inr (x, p) ↦ absurd (ground arith)
]

Complete-keep :
    (s : Store) (ds : List Batch) (i : ℕ)
    → Inv s.disk
    → Complete s s.disk.value_keys ds
    → (if has_id i ds then none else find i s.disk.batches)
      ≡ keep s.cs.total_amount (find i s.disk.batches)
Complete-keep s ds i v (spent, all) = elim (Option-cases (find i s.disk.batches)) [
  | inl p ↦ rw p (ground arith)
  | inr (b, p) ↦
      let (_, key) = v.indexed i b p in
      elim (Bool-cases (has_id i ds)) [
        | inl hit ↦ let (_, low) = Spent-has_id s ds i b spent hit p in rw (p, hit) (ground arith)
        | inr miss ↦ rw (p, miss) (ground (arith, all b.value i key))
      ]
]

Evicted-keyed :
    (s t : Store) (ds : List Batch) (w i : ℕ)
    → Inv s.disk
    → Spent s ds
    → Evicted ds s t
    → has_key w i t.disk.value_keys ≡ true
    → (b : Batch) × (find i t.disk.batches ≡ some b) × (b.value ≡ w) × (b.id ≡ i)
Evicted-keyed s t ds w i v spent r k =
    let q = sym (r.keyed w i) ∙ k in
    let (b, there, value, id) = v.keyed w i (ground arith) in
    elim (Bool-cases (has_id i ds)) [
      | inl hit ↦
          let (pair, _) = Spent-has_id s ds i b spent hit there in
          let pair' : has_pair w i ds ≡ true = ap (λ n. has_pair n i ds) (sym value) ∙ pair in
          absurd (ground arith)
      | inr miss ↦ (b, r.found i ∙ rw miss there, value, id)
    ]

Evicted-indexed :
    (s t : Store) (ds : List Batch) (i : ℕ) (b : Batch)
    → Inv s.disk
    → Evicted ds s t
    → find i t.disk.batches ≡ some b
    → (b.id ≡ i) × (has_key b.value i t.disk.value_keys ≡ true)
Evicted-indexed s t ds i b v r k =
    let q = sym (r.found i) ∙ k in
    elim (Bool-cases (has_id i ds)) [
      | inl hit ↦ absurd (ground arith)
      | inr miss ↦
          let (id, key) = v.indexed i b (ground arith) in
          let other = has_pair-has_id b.value i ds miss in
          (id, r.keyed b.value i ∙ rw (other, key) refl)
    ]

-- A cleanup that succeeds, of keys that are in order and match the batches, removes exactly the batches
-- whose value is at most the total payout; the keys are in order and match the batches again.
pub cleanup_exact :
    (c : Env) (s t : Store)
    → Inv s.disk
    → cleanup c s ≡ (ok tt, t)
    → Inv t.disk
      × ((i : ℕ) → find i t.disk.batches ≡ keep s.cs.total_amount (find i s.disk.batches))
      × (t.cs ≡ s.cs)
cleanup_exact c s t v e =
    let (ds, p, q) = cleanup_cases c s t e in
    let (spent, all) = collect-Complete c s s.disk.value_keys ds v.sorted v.keyed p in
    let r = evict_all-Evicted ds c s t q in
    (
      record {
        sorted = r.sorted v.sorted;
        keyed = λ w i k. Evicted-keyed s t ds w i v spent r k;
        indexed = λ i b k. Evicted-indexed s t ds i b v r k;
      },
      λ i. r.found i ∙ Complete-keep s ds i v (spent, all),
      r.same_state,
    )

pub compute_radius_ok :
    (c : Env) (s t : Store)
    → compute_radius c s ≡ (ok tt, t)
    → (t.disk.batches ≡ s.disk.batches)
      × (t.disk.value_keys ≡ s.disk.value_keys)
      × (t.cs ≡ s.cs)
      × (t.radius ≡ radius_of c (total_commitment s.disk.batches))
      × (t.disk.reserve_radius ≡ some t.radius)
unfolding compute_radius
compute_radius_ok c s t e = ground arith
