-- ===== src/Batches/Additions.antt =====
-- What a batch that is saved makes of the store of batches.
use aicode.Prelude.{
  ℕ, ◌≤◌, ◌≡◌, refl, sym, ap, ◌∙◌, inl, inr, true, Bool-cases, none, some, Option-cases, List, [],
  ◌∷◌, ltb, ◌==◌, ◌&&◌, ◌||◌, if◌then◌else◌, arith, All, All-map,
}
use aicode.Batches.{
  Batch, Disk, Store, Env, ok, ◌>>◌, find, insert_batch, insert_key, with_keys, with_batches,
  value_key,
}
use aicode.Batches.Writes.{
  cleanup, compute_radius, radius_of, total_commitment, save, save_batch, lookup,
}
use aicode.Batches.Saves.{cleanup-Settled}
use aicode.Batches.Cleanup.{has_key, Sorted}
use aicode.Batches.Cleanup.Eviction.{Inv, keep}

pub find-insert_batch :
    (i : ℕ) (b : Batch) (bs : List Batch)
    → find i (insert_batch b bs) ≡ (if i == b.id then some b else find i bs)
find-insert_batch i b [] = ground arith
find-insert_batch i b (x ∷ xs) = ground (arith, find-insert_batch i b xs)

pub has_key-insert_key :
    (v i w j : ℕ) (ks : List (ℕ × ℕ))
    → has_key v i (insert_key w j ks) ≡ (((v == w) && (i == j)) || has_key v i ks)
has_key-insert_key v i w j [] = ground arith
has_key-insert_key v i w j ((x, y) ∷ ks) = ground (arith, has_key-insert_key v i w j ks)

All-insert_key {ℓ} :
    (P : ℕ × ℕ → Type ℓ) (v i : ℕ) (ks : List (ℕ × ℕ))
    → P (v, i)
    → All P ks
    → All P (insert_key v i ks)
All-insert_key P v i [] p h = (p, tt)
All-insert_key P v i ((w, j) ∷ ks) p h = elim (Bool-cases ((v == w) && (i == j))) [
  | inl same ↦ rw (same, insert_key) h
  | inr other ↦ elim (Bool-cases (ltb v w || ((v == w) && ltb i j))) [
    | inl before ↦ rw (other, before, insert_key) (p, h)
    | inr after ↦ rw (other, after, insert_key) (h.0, All-insert_key P v i ks p h.1)
  ]
]

pub insert_key-Sorted : (v i : ℕ) (ks : List (ℕ × ℕ)) → Sorted ks → Sorted (insert_key v i ks)
insert_key-Sorted v i [] h = (tt, tt)
insert_key-Sorted v i ((w, j) ∷ ks) h = elim (Bool-cases ((v == w) && (i == j))) [
  | inl same ↦ rw (same, insert_key) h
  | inr other ↦ elim (Bool-cases (ltb v w || ((v == w) && ltb i j))) [
    | inl before ↦
        let low : v ≤ w = ground arith in
        rw (other, before, insert_key)
          ((low, All-map _ (λ q. v ≤ q.0) ks (λ q k. omega arith) h.0), h)
    | inr after ↦
        let high : w ≤ v = ground arith in
        rw (other, after, insert_key)
          (All-insert_key (λ q. w ≤ q.0) v i ks high h.0, insert_key-Sorted v i ks h.1)
  ]
]

abbrev pub added : Batch → Disk → Disk
added b d = record d {
  batches = insert_batch b d.batches;
  value_keys = insert_key b.value b.id d.value_keys;
}

added-keyed :
    (b : Batch) (d : Disk) (w i : ℕ)
    → find b.id d.batches ≡ none
    → Inv d
    → has_key w i (added b d).value_keys ≡ true
    → (x : Batch) × (find i (added b d).batches ≡ some x) × (x.value ≡ w) × (x.id ≡ i)
added-keyed b d w i new v k =
    let q = sym (has_key-insert_key w i b.value b.id d.value_keys) ∙ k in
    let f = find-insert_batch i b d.batches in
    elim (Bool-cases ((w == b.value) && (i == b.id))) [
      | inl hit ↦
          let own : (i == b.id) ≡ true = ground arith in
          (b, f ∙ rw own refl, ground arith, ground arith)
      | inr miss ↦
          let (x, there, value, id) = v.keyed w i (ground arith) in
          elim (Bool-cases (i == b.id)) [
            | inl same ↦
                let e : i ≡ b.id = ground arith in
                let gone : find i d.batches ≡ none = ap (λ n. find n d.batches) e ∙ new in absurd cc
            | inr other ↦ (x, f ∙ rw other there, value, id)
          ]
    ]

added-indexed :
    (b : Batch) (d : Disk) (i : ℕ) (x : Batch)
    → Inv d
    → find i (added b d).batches ≡ some x
    → (x.id ≡ i) × (has_key x.value i (added b d).value_keys ≡ true)
added-indexed b d i x v k =
    let q = sym (find-insert_batch i b d.batches) ∙ k in
    let h = has_key-insert_key x.value i b.value b.id d.value_keys in
    elim (Bool-cases (i == b.id)) [
      | inl hit ↦
          let e : b ≡ x = ground arith in
          let id : b.id ≡ x.id = ap (λ (y : Batch). y.id) e in
          let value : b.value ≡ x.value = ap (λ (y : Batch). y.value) e in
          (ground arith, h ∙ ground arith)
      | inr miss ↦ let (id, key) = v.indexed i x (ground arith) in (id, h ∙ ground arith)
    ]

pub added-Inv : (b : Batch) (d : Disk) → find b.id d.batches ≡ none → Inv d → Inv (added b d)
added-Inv b d new v = record {
  sorted = insert_key-Sorted b.value b.id d.value_keys v.sorted;
  keyed = λ w i k. added-keyed b d w i new v k;
  indexed = λ i x k. added-indexed b d i x v k;
}

pub save_batch_cases :
    (b : Batch) (c : Env) (s t : Store)
    → save_batch b c s ≡ (ok tt, t)
    → (cleanup >> compute_radius) c (with_keys (insert_key b.value b.id) s) ≡ (ok tt, t)
unfolding save_batch
save_batch_cases b c s t e = elim (Bool-cases (c.put_fails (value_key b.value b.id))) [
  | inl fails ↦ absurd (ground arith)
  | inr writes ↦ ground arith
]

save_cases :
    (b : Batch) (c : Env) (s t : Store)
    → save b c s ≡ (ok tt, t)
    → (find b.id s.disk.batches ≡ none)
      × (save_batch b c (with_batches (insert_batch b) s) ≡ (ok tt, t))
unfolding save lookup
save_cases b c s t e = elim (Option-cases (find b.id s.disk.batches)) [
  | inl new ↦ (new, ground arith)
  | inr (old, p) ↦ absurd (ground arith)
]

-- A batch that is saved without a failure, over keys that are in order and match the batches, was not
-- there; then it is, unless its value is at most the total payout, and the other batches are those above
-- the total payout. The keys are in order and match the batches again, and the radius is that of the
-- batches left.
pub save_exact :
    (b : Batch) (c : Env) (s t : Store)
    → Inv s.disk
    → save b c s ≡ (ok tt, t)
    → (find b.id s.disk.batches ≡ none)
      × (Inv t.disk)
      × ((i : ℕ)
          → find i t.disk.batches
            ≡ keep s.cs.total_amount (if i == b.id then some b else find i s.disk.batches))
      × ((t.radius ≡ radius_of c (total_commitment t.disk.batches))
          × (t.disk.reserve_radius ≡ some t.radius))
save_exact b c s t v e =
    let (new, p) = save_cases b c s t e in
    let q = save_batch_cases b c (with_batches (insert_batch b) s) t p in
    let r = cleanup-Settled c (record s { disk = added b s.disk }) t (added-Inv b s.disk new v) q in
    (
      new,
      r.inv,
      λ i. r.kept i ∙ ap (keep s.cs.total_amount) (find-insert_batch i b s.disk.batches),
      (r.new_radius, r.radius_stored),
    )
