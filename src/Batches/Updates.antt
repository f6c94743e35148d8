-- ===== src/Batches/Updates.antt =====
-- What a new value and depth of a batch make of the store of batches.
use aicode.Prelude.{
  ℕ, ◌≡◌, refl, sym, ap, ◌∙◌, inl, inr, true, Bool-cases, some, Option-cases, ◌==◌, ◌&&◌, ◌||◌, not,
  if◌then◌else◌, arith,
}
use aicode.Batches.{Batch, Disk, Store, Env, ok, find, insert_batch, insert_key, remove_key}
use aicode.Batches.Writes.{lookup, save_batch, update, radius_of, total_commitment}
use aicode.Batches.Cleanup.{has_key, has_key-remove_key, remove_key-Sorted}
use aicode.Batches.Cleanup.Eviction.{Inv, keep}
use aicode.Batches.Saves.{cleanup-Settled}
use aicode.Batches.Additions.{
  find-insert_batch, has_key-insert_key, insert_key-Sorted, save_batch_cases,
}

-- The disk with the key of the value `v` of the batch's id in place of that of `old`.
abbrev replaced : ℕ → Batch → Disk → Disk
replaced old b d = record d {
  batches = insert_batch b d.batches;
  value_keys = insert_key b.value b.id (remove_key old b.id d.value_keys);
}

replaced-has_key :
    (old w i : ℕ) (b : Batch) (d : Disk)
    → has_key w i (replaced old b d).value_keys ≡ (
        ((w == b.value) && (i == b.id))
        || (not ((w == old) && (i == b.id)) && has_key w i d.value_keys))
replaced-has_key old w i b d =
    has_key-insert_key w i b.value b.id (remove_key old b.id d.value_keys)
    ∙ ap (λ r. ((w == b.value) && (i == b.id)) || r) (has_key-remove_key w i old b.id d.value_keys)

replaced-keyed :
    (old w i : ℕ) (b x : Batch) (d : Disk)
    → find b.id d.batches ≡ some x
    → x.value ≡ old
    → Inv d
    → has_key w i (replaced old b d).value_keys ≡ true
    → (y : Batch) × (find i (replaced old b d).batches ≡ some y) × (y.value ≡ w) × (y.id ≡ i)
replaced-keyed old w i b x d there same v k =
    let q = sym (replaced-has_key old w i b d) ∙ k in
    let f = find-insert_batch i b d.batches in
    elim (Bool-cases ((w == b.value) && (i == b.id))) [
      | inl hit ↦
          let own : (i == b.id) ≡ true = ground arith in
          (b, f ∙ rw own refl, ground arith, ground arith)
      | inr miss ↦
          let (y, found, value, id) = v.keyed w i (ground arith) in
          elim (Bool-cases (i == b.id)) [
            | inl own ↦
                let e : i ≡ b.id = ground arith in
                let found' : find i d.batches ≡ some x = ap (λ n. find n d.batches) e ∙ there in
                let eq : y ≡ x = cc in
                let value' : w ≡ old = sym value ∙ (ap (λ (z : Batch). z.value) eq ∙ same) in
                absurd (ground arith)
            | inr other ↦ (y, f ∙ rw other found, value, id)
          ]
    ]

replaced-indexed :
    (old i : ℕ) (b y : Batch) (d : Disk)
    → Inv d
    → find i (replaced old b d).batches ≡ some y
    → (y.id ≡ i) × (has_key y.value i (replaced old b d).value_keys ≡ true)
replaced-indexed old i b y d v k =
    let q = sym (find-insert_batch i b d.batches) ∙ k in
    let h = replaced-has_key old y.value i b d in
    elim (Bool-cases (i == b.id)) [
      | inl hit ↦
          let e : b ≡ y = ground arith in
          let id : b.id ≡ y.id = ap (λ (z : Batch). z.id) e in
          let value : b.value ≡ y.value = ap (λ (z : Batch). z.value) e in
          (ground arith, h ∙ ground arith)
      | inr miss ↦ let (id, key) = v.indexed i y (ground arith) in (id, h ∙ ground arith)
    ]

abbrev changed : Batch → ℕ → ℕ → Batch
changed b value depth = record b { value = value; depth = depth }

-- The store without the old key, with the changed batch.
abbrev rewritten : Batch → ℕ → ℕ → Store → Store
rewritten b value depth s = record s {
  disk = record (s.disk) {
    batches = insert_batch (changed b value depth) s.disk.batches;
    value_keys = remove_key b.value b.id s.disk.value_keys;
  };
}

update_cases :
    (b : Batch) (value depth : ℕ) (c : Env) (s t : Store)
    → update b value depth c s ≡ (ok tt, t)
    → (x : Batch) × (find b.id s.disk.batches ≡ some x)
      × (save_batch (changed b value depth) c (rewritten b value depth s) ≡ (ok tt, t))
unfolding update lookup
update_cases b value depth c s t e = elim (Option-cases (find b.id s.disk.batches)) [
  | inl gone ↦ absurd (ground arith)
  | inr (x, p) ↦ (x, p, ground arith)
]

-- A batch of the stored value whose value and depth are changed without a failure, over keys that are in
-- order and match the batches, has the new ones, unless the new value is at most the total payout; the
-- other batches are those above the total payout. The keys are in order and match the batches again, and
-- the radius is that of the batches left.
pub update_exact :
    (b : Batch) (value depth : ℕ) (c : Env) (s t : Store)
    → Inv s.disk
    → ((x : Batch) → find b.id s.disk.batches ≡ some x → x.value ≡ b.value)
    → update b value depth c s ≡ (ok tt, t)
    → (Inv t.disk)
      × ((i : ℕ)
          → find i t.disk.batches
            ≡ keep s.cs.total_amount (
                if i == b.id
                then some (record b { value = value; depth = depth })
                else find i s.disk.batches))
      × ((t.radius ≡ radius_of c (total_commitment t.disk.batches))
          × (t.disk.reserve_radius ≡ some t.radius))
update_exact b value depth c s t v current e =
    let (x, there, p) = update_cases b value depth c s t e in
    let n = changed b value depth in
    let q = save_batch_cases n c (rewritten b value depth s) t p in
    let d = replaced b.value n s.disk in
    let inv : Inv d = record {
      sorted =
          insert_key-Sorted value b.id _
            (remove_key-Sorted b.value b.id s.disk.value_keys v.sorted);
      keyed = λ w i k. replaced-keyed b.value w i n x s.disk there (current x there) v k;
      indexed = λ i y k. replaced-indexed b.value i n y s.disk v k;
    } in
    let r = cleanup-Settled c (record s { disk = d }) t inv q in
    (
      r.inv,
      λ i. r.kept i ∙ ap (keep s.cs.total_amount) (find-insert_batch i n s.disk.batches),
      (r.new_radius, r.radius_stored),
    )
