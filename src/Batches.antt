-- ===== src/Batches.antt =====
-- pkg/postage/batchstore/store.go: the batches that the chain knows, their eviction when their balance is
-- spent, and the reserve radius. A batch id is a number. The state store is an ordered map; its keys are a
-- list of batches in the order of their ids and a list of pairs of a value and an id, in their order.
pub mod Writes
pub mod Cleanup
pub mod Saves
pub mod Additions
pub mod Totality
pub mod Updates
mod Examples
use aicode.Prelude.{
  ◌≡◌, refl, sym, ap, ◌∙◌, ◌⊎◌, inl, inr, ℕ, ◌+◌, ◌%◌, ◌^◌, Bool, true, false, Option, none, some,
  List, [], ◌∷◌, not, ltb, leb, ◌==◌, ◌&&◌, ◌||◌, if◌then◌else◌,
}
use aicode.Prelude.Int.{ℤ, pos, ◌+ℤ◌, to_int64, ltb_ℤ}

pub record Batch : Type 0 where
  pub id : ℕ
  pub value : ℕ
  pub start : ℕ
  pub owner : ℕ
  pub depth : ℕ
  pub bucket_depth : ℕ
  pub immutable : Bool

pub record ChainState : Type 0 where
  pub block : ℕ
  pub total_amount : ℕ
  pub current_price : ℕ

pub data Key : Type 0 where
  batch_key : ℕ → Key
  value_key : ℕ → ℕ → Key
  chain_state_key reserve_radius_key : Key

pub data Error : Type 0 where
  not_found already_exists store_failure expiry_failure evict_failure : Error

-- What the state store holds.
pub record Disk : Type 0 where
  pub batches : List Batch
  pub value_keys : List (ℕ × ℕ)
  pub chain_state : Option ChainState
  pub reserve_radius : Option ℕ

pub record Store : Type 0 where
  pub disk : Disk
  pub cs : ChainState
  pub radius : ℕ

-- What the store is made with: its capacity, the accesses to the state store that fail, the handlers of
-- expiry and eviction, and the ceiling of the logarithm to base 2 of a ratio, which is one of `math`.
pub record Env : Type 0 where
  pub capacity : ℤ
  pub get_fails : Key → Bool
  pub put_fails : Key → Bool
  pub delete_fails : Key → Bool
  pub iterate_fails : Bool
  pub has_expiry : Bool
  pub expiry_fails : ℕ → Bool
  pub evict_fails : ℕ → Bool
  pub ceil_log2 : ℤ → ℤ → ℕ

pub data Result (A : Type 0) : Type 0 where
  ok : A → Result A
  err : Error → Result A

pub Result-cases :
    {A : Type 0} (r : Result A) → ((a : A) × (r ≡ ok a)) ⊎ ((e : Error) × (r ≡ err e))
Result-cases (ok a) = inl (a, refl)
Result-cases (err e) = inr (e, refl)

abbrev pub M : Type 0 → Type 0
M A = Env → Store → Result A × Store

abbrev continue : {A B : Type 0} → (A → M B) → Env → Result A × Store → Result B × Store
continue f c (ok a, s) = f a c s
continue f c (err e, s) = (err e, s)

infixl 5 ◌>>=◌ ◌>>◌
abbrev pub ◌>>=◌ : {A B : Type 0} → M A → (A → M B) → M B
(m >>= f) c s = continue f c (m c s)

-- What a sequence of operations that succeeds did.
pub bind_ok :
    {A B : Type 0} (m : M A) (f : A → M B) (c : Env) (s t : Store) (b : B)
    → (m >>= f) c s ≡ (ok b, t)
    → (a : A) × (u : Store) × (m c s ≡ (ok a, u)) × (f a c u ≡ (ok b, t))
bind_ok m f c s t b e = elim (Result-cases (m c s).0) [
  | inl (a, p) ↦
      let q : m c s ≡ (ok a, (m c s).1) = λ k. (p k, (m c s).1) in
      (a, (m c s).1, q, sym (ap (continue f c) q) ∙ e)
  | inr (x, p) ↦
      let q : m c s ≡ (err x, (m c s).1) = λ k. (p k, (m c s).1) in
      let clash = sym (ap (continue f c) q) ∙ e in
      let bad : err x ≡ ok b = ap (λ r. r.0) clash in absurd cc
]

abbrev pub ◌>>◌ : {A B : Type 0} → M A → M B → M B
m >> k = m >>= λ _. k

abbrev pub pure : {A : Type 0} → A → M A
pure a c s = (ok a, s)

abbrev pub fail_if : Bool → Error → M (Unit {0})
fail_if true e c s = (err e, s)
fail_if false e c s = (ok tt, s)

abbrev pub modify : (Store → Store) → M (Unit {0})
modify f c s = (ok tt, f s)

abbrev pub find : ℕ → List Batch → Option Batch
find i [] = none
find i (b ∷ bs) = let rest = find i bs in if i == b.id then some b else rest

abbrev pub insert_batch : Batch → List Batch → List Batch
insert_batch b [] = b ∷ []
insert_batch b (x ∷ xs) =
    let rest = insert_batch b xs in
    if b.id == x.id then b ∷ xs else if ltb b.id x.id then b ∷ x ∷ xs else x ∷ rest

abbrev pub remove_batch : ℕ → List Batch → List Batch
remove_batch i [] = []
remove_batch i (b ∷ bs) = let rest = remove_batch i bs in if i == b.id then rest else b ∷ rest

abbrev pub insert_key : ℕ → ℕ → List (ℕ × ℕ) → List (ℕ × ℕ)
insert_key v i [] = (v, i) ∷ []
insert_key v i ((w, j) ∷ ks) =
    let rest = insert_key v i ks in
    if (v == w) && (i == j)
    then (w, j) ∷ ks
    else if ltb v w || ((v == w) && ltb i j)
    then (v, i) ∷ (w, j) ∷ ks
    else (w, j) ∷ rest

abbrev pub remove_key : ℕ → ℕ → List (ℕ × ℕ) → List (ℕ × ℕ)
remove_key v i [] = []
remove_key v i ((w, j) ∷ ks) =
    let rest = remove_key v i ks in if (v == w) && (i == j) then rest else (w, j) ∷ rest

abbrev pub with_batches : (List Batch → List Batch) → Store → Store
with_batches f s = record s { disk = record (s.disk) { batches = f s.disk.batches } }

abbrev pub with_keys : (List (ℕ × ℕ) → List (ℕ × ℕ)) → Store → Store
with_keys f s = record s { disk = record (s.disk) { value_keys = f s.disk.value_keys } }
