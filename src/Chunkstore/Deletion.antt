-- ===== src/Chunkstore/Deletion.antt =====
-- Deleting a chunk, and reading it.
use aicode.Prelude.{
  ℕ, ◌+◌, ◌-◌, ◌%◌, ◌^◌, ◌≡◌, ◌⊎◌, inl, inr, refl, sym, ap, subst, ◌∙◌, fun_ext, true, false,
  Bool-cases, ltb, ◌==◌, Option, none, some, arith,
}
use aicode.Bytes.{Bytes}
use aicode.Effects.{Result, ok, err}
use aicode.Chunkstore.{
  Error, store_failure, not_found, sharky_failure, RetrievalIndexItem, Store, Surroundings, update,
  free, put_item, count_down, delete_last, drop_reference, delete, get_chunk,
}
use aicode.Chunkstore.Represents.{Stored, Chunks, fewer, Entry, Represents, Matches-cases}
use aicode.Chunkstore.Refinement.{delete_chunk, count_changed, chunk_gone}

-- How a deletion ends: the chunk counts once less; or it fails and the map is as it was; or the entry stays
-- while its slot is free.
abbrev pub DeleteOutcome : Chunks → Surroundings → ℕ → Result Error (Unit {0}) × Store → Type 0
DeleteOutcome m c a (r, t) =
    ((r ≡ ok tt) × Represents (delete_chunk a m) t)
    ⊎ (((e : Error) × (r ≡ err e)) × Represents m t)
    ⊎ ((c.delete_fails ≡ true)
        × (r ≡ err store_failure)
        × ((item : RetrievalIndexItem) × (t.index a ≡ some item)
            × (t.taken item.location.slot ≡ false)))

update_same {ℓ} : {A : Type ℓ} (a : ℕ) (v : A) (f : ℕ → A) → f a ≡ v → update a v f ≡ f
update_same a v f e = fun_ext λ i. elim (Bool-cases (a == i)) [
  | inl hit ↦ let same : a ≡ i = ground arith in rw (update, hit) (sym e ∙ ap f same)
  | inr miss ↦ rw (update, miss) refl
]

delete_last_cases :
    (m : Chunks) (s : Store) (c : Surroundings) (a : ℕ) (x : Stored) (item : RetrievalIndexItem)
    → Represents m s
    → m a ≡ some x
    → s.index a ≡ some item
    → (x.references == 1) ≡ true
    → DeleteOutcome m c a (delete_last c a item.location s)
unfolding delete_last
delete_last_cases m s c a x item r p q last = elim (Bool-cases c.release_fails) [
  | inl kept ↦
      let run : (err sharky_failure, s) ≡ delete_last c a item.location s = ground arith in
      subst (DeleteOutcome m c a) run (inr (inl ((sharky_failure, refl), r)))
  | inr freed ↦
      let t = free item.location.slot s in
      elim (Bool-cases c.delete_fails) [
        | inl fails ↦
            let run : (err store_failure, t) ≡ delete_last c a item.location s = ground arith in
            subst (DeleteOutcome m c a) run (inr (inr (fails, refl, (item, q, ground arith))))
        | inr deletes ↦
            let run : (ok tt, put_item a none t) ≡ delete_last c a item.location s = ground arith in
            let gone : fewer (m a) ≡ none = ap fewer p ∙ rw last refl in
            subst (DeleteOutcome m c a) run (
              inl (
                refl,
                subst (λ o. Represents (update a o m) (put_item a none t)) (sym gone)
                    (chunk_gone m s a item r q),
              ))
      ]
]

drop_reference_cases :
    (m : Chunks) (s : Store) (c : Surroundings) (a : ℕ) (x : Stored) (item : RetrievalIndexItem)
    → Represents m s
    → m a ≡ some x
    → s.index a ≡ some item
    → Entry x item s
    → DeleteOutcome m c a (drop_reference c a (count_down item) s)
unfolding drop_reference
drop_reference_cases m s c a x item r p q e =
    let count = e.count in
    let left = e.some_left in
    let small = e.fits in
    elim (Bool-cases (x.references == 1)) [
      | inl last ↦
          let zero_left : ltb 0 ((item.ref_cnt + 2 ^ 32 - 1) % 2 ^ 32) ≡ false = ground arith in
          let run : delete_last c a item.location s ≡ drop_reference c a (count_down item) s =
            ground arith in
          subst (DeleteOutcome m c a) run (delete_last_cases m s c a x item r p q last)
      | inr more ↦
          let some_more : ltb 0 ((item.ref_cnt + 2 ^ 32 - 1) % 2 ^ 32) ≡ true = ground arith in
          elim (Bool-cases c.put_fails) [
            | inl fails ↦
                let run : (err store_failure, s) ≡ drop_reference c a (count_down item) s =
                  ground arith in
                subst (DeleteOutcome m c a) run (inr (inl ((store_failure, refl), r)))
            | inr puts ↦
                let t = put_item a (some (count_down item)) s in
                let less = record x { references = x.references - 1 } in
                let run : (ok tt, t) ≡ drop_reference c a (count_down item) s = ground arith in
                let one_less : fewer (m a) ≡ some less = ap fewer p ∙ rw more refl in
                let down : Entry less (count_down item) s = record {
                  count = ground arith;
                  some_left = ground arith;
                  fits = omega arith;
                  is_taken = e.is_taken;
                  content = e.content;
                } in
                subst (DeleteOutcome m c a) run (
                  inl (
                    refl,
                    subst (λ o. Represents (update a o m) t) (sym one_less)
                        (count_changed m s a less item (count_down item) r q refl down),
                  ))
          ]
    ]

-- Deleting a chunk counts it out, and an absent one is not an error; or it ends in an error and the map is as
-- it was. The one other end is that the last reference's slot was released but its entry could not be deleted:
-- then the entry stays with a slot that is free.
pub delete-Represents :
    (m : Chunks) (s : Store) (c : Surroundings) (a : ℕ)
    → Represents m s
    → DeleteOutcome m c a (delete c a s)
unfolding delete
delete-Represents m s c a r = elim (Bool-cases c.get_fails) [
  | inl fails ↦
      let run : (err store_failure, s) ≡ delete c a s = ground arith in
      subst (DeleteOutcome m c a) run (inr (inl ((store_failure, refl), r)))
  | inr reads ↦ elim (Matches-cases m s a r) [
    | inl (p, q) ↦
        let run : (ok tt, s) ≡ delete c a s = ground arith in
        let same : delete_chunk a m ≡ m =
          ap (λ o. update a (fewer o) m) p ∙ update_same a none m p in
        subst (DeleteOutcome m c a) run (inl (refl, subst (λ n. Represents n s) (sym same) r))
    | inr (x, item, p, q, e) ↦
        let run : drop_reference c a (count_down item) s ≡ delete c a s = ground arith in
        subst (DeleteOutcome m c a) run (drop_reference_cases m s c a x item r p q e)
  ]
]

-- What a read gives.
abbrev pub bytes_of : Option Stored → Result Error Bytes
bytes_of none = err not_found
bytes_of (some x) = ok x.bytes

-- Where nothing fails, a read gives the bytes of the map, or that the chunk is not found, and changes nothing.
pub get_chunk-Represents :
    (m : Chunks) (s : Store) (c : Surroundings) (a : ℕ)
    → Represents m s
    → c.get_fails ≡ false
    → c.read_fails ≡ false
    → get_chunk c a s ≡ (bytes_of (m a), s)
unfolding get_chunk
get_chunk-Represents m s c a r g h = elim (Matches-cases m s a r) [
  | inl (p, q) ↦ ground arith
  | inr (x, item, p, q, e) ↦ let content = e.content in ground arith
]
