-- ===== src/Chunkstore/Refinement.antt =====
-- The operations against the map.
use aicode.Prelude.{
  ℕ, suc, ◌%◌, ◌^◌, ◌<◌, ◌≡◌, ◌⊎◌, inl, inr, refl, sym, ap, ap₂, subst, ◌∙◌, ◌++◌, true, false,
  Bool-cases, Option, none, some, length, take, drop, take_append, arith,
}
use aicode.Bytes.{Bytes}
use aicode.Effects.{Result, ok, err}
use aicode.Chunkstore.{
  Error, store_failure, sharky_failure, Location, RetrievalIndexItem, Store, Surroundings, update,
  written, free, put_item, count_up, add_reference, store_item, put_found, put,
}
use aicode.Chunkstore.Represents.{
  Stored, Chunks, more, fewer, Entry, Represents, Fresh, Matches-cases, Represents-update,
  write_cases, free_slot, Others, Kept-free, Represents-free,
}

abbrev pub put_chunk : ℕ → Bytes → Chunks → Chunks
put_chunk a bytes m = update a (more bytes (m a)) m

abbrev pub delete_chunk : ℕ → Chunks → Chunks
delete_chunk a m = update a (fewer (m a)) m

-- The count of an address stays below the greatest `uint32`.
abbrev pub Room : Option Stored → Type 0
Room none = Unit {0}
Room (some x) = suc x.references < 2 ^ 32

written-Others : (slot : ℕ) (bytes : Bytes) (s : Store) → Others slot s (written slot bytes s)
written-Others slot bytes s j n = (ground arith, ground arith)

-- The location that a write gives.
abbrev location_of : ℕ → Bytes → Location
location_of slot bytes = record { slot = slot; size = length bytes % 2 ^ 16 }

-- A chunk that is not there.
new_chunk :
    (m : Chunks) (s : Store) (a slot now : ℕ) (bytes : Bytes)
    → Represents m s
    → s.taken slot ≡ false
    → length bytes < 2 ^ 16
    → Represents (update a (some (record { references = 1; bytes = bytes })) m) (
        put_item a
          (some (record { timestamp = now; location = location_of slot bytes; ref_cnt = 1 }))
          (written slot bytes s))
new_chunk m s a slot now bytes r h short =
    let item : RetrievalIndexItem = record {
      timestamp = now;
      location = location_of slot bytes;
      ref_cnt = 1;
    } in
    let t = put_item a (some item) (written slot bytes s) in
    let len : length bytes % 2 ^ 16 ≡ length bytes = omega arith in
    let there : t.blobs slot ≡ bytes ++ drop (length bytes) (s.blobs slot) = ground arith in
    Represents-update m s t a (some (record { references = 1; bytes = bytes })) (some item) r refl
      (Kept-free m s t a slot r h (written-Others slot bytes s))
      (record {
        count = refl;
        some_left = omega arith;
        fits = omega arith;
        is_taken = ground arith;
        content = ap₂ take len there ∙ take_append bytes (drop (length bytes) (s.blobs slot));
      })
      (λ b x y p n q.
        let e : item ≡ x = cc in
        let same : slot ≡ x.location.slot = ap (λ (i : RetrievalIndexItem). i.location.slot) e in
        λ z. free_slot m s slot b y r h q (same ∙ z))

-- The entry of a chunk that is there, with another count.
pub count_changed :
    (m : Chunks) (s : Store) (a : ℕ) (x : Stored) (item new : RetrievalIndexItem)
    → Represents m s
    → s.index a ≡ some item
    → new.location.slot ≡ item.location.slot
    → Entry x new s
    → Represents (update a (some x) m) (put_item a (some new) s)
count_changed m s a x item new r p same e =
    Represents-update m s (put_item a (some new) s) a (some x) (some new) r refl
      (λ b i n q. (refl, refl))
      (record {
        count = e.count;
        some_left = e.some_left;
        fits = e.fits;
        is_taken = e.is_taken;
        content = e.content;
      })
      (λ b y z h n q w.
        let k : new ≡ y = cc in
        r.apart a b item z p q n
          (sym same ∙ (ap (λ (i : RetrievalIndexItem). i.location.slot) k ∙ w)))

-- The last reference of a chunk goes, with its slot.
pub chunk_gone :
    (m : Chunks) (s : Store) (a : ℕ) (item : RetrievalIndexItem)
    → Represents m s
    → s.index a ≡ some item
    → Represents (update a none m) (put_item a none (free item.location.slot s))
chunk_gone m s a item r p =
    Represents-update m s (put_item a none (free item.location.slot s)) a none none r refl
      (λ b i n q. let apart = r.apart a b item i p q n in (ground arith, refl)) tt
      (λ b x y h n q. absurd cc)

abbrev pub PutOutcome :
    Chunks → Surroundings → ℕ → Bytes → Store → Result Error (Unit {0}) × Store → Type 0
PutOutcome m c a bytes s (r, t) =
    ((r ≡ ok tt) × Represents (put_chunk a bytes m) t)
    ⊎ (((e : Error) × (r ≡ err e)) × Represents m t)
    ⊎ ((c.put_fails ≡ true) × ((x : Stored) × (m a ≡ some x)) × (t ≡ s))

put_new :
    (m : Chunks) (s : Store) (c : Surroundings) (a : ℕ) (bytes : Bytes)
    → Represents m s
    → Fresh c s
    → c.max_data_size < 2 ^ 16
    → m a ≡ none
    → PutOutcome m c a bytes s (put_found c a bytes none s)
unfolding store_item
put_new m s c a bytes r h small p = elim (write_cases c bytes s) [
  | inr (inl (e, w)) ↦
      let run : (err e, s) ≡ put_found c a bytes none s = ground arith in
      subst (PutOutcome m c a bytes s) run (inr (inl ((e, refl), r)))
  | inr (inr (slot, got, (n, w))) ↦
      let part = take n bytes in
      let run : (err sharky_failure, written slot part s) ≡ put_found c a bytes none s =
        ground arith in
      subst (PutOutcome m c a bytes s) run (
        inr (
          inl (
            (sharky_failure, refl),
            Represents-free m s (written slot part s) slot r (h slot got)
                (written-Others slot part s) refl,
          )))
  | inl (slot, got, fits, w) ↦
      let t = written slot bytes s in
      let loc = location_of slot bytes in
      elim (Bool-cases c.put_fails) [
        | inr puts ↦
            let new =
              put_item a (some (record { timestamp = c.now; location = loc; ref_cnt = 1 })) t in
            let run : (ok tt, new) ≡ put_found c a bytes none s = ground arith in
            let one = new_chunk m s a slot c.now bytes r (h slot got) (omega arith) in
            subst (PutOutcome m c a bytes s) run
              (inl (refl, subst (λ o. Represents (update a (more bytes o) m) new) (sym p) one))
        | inl fails ↦ elim (Bool-cases c.release_fails) [
          | inl kept ↦
              let run : (err store_failure, t) ≡ put_found c a bytes none s = ground arith in
              subst (PutOutcome m c a bytes s) run (
                inr (
                  inl (
                    (store_failure, refl),
                    Represents-free m s t slot r (h slot got) (written-Others slot bytes s) refl,
                  )))
          | inr freed ↦
              let run : (err store_failure, free slot t) ≡ put_found c a bytes none s =
                ground arith in
              subst (PutOutcome m c a bytes s) run (
                inr (
                  inl (
                    (store_failure, refl),
                    Represents-free m s (free slot t) slot r (h slot got)
                        (λ j n. (ground arith, ground arith)) refl,
                  )))
        ]
      ]
]

put_again :
    (m : Chunks) (s : Store) (c : Surroundings) (a : ℕ) (bytes : Bytes) (x : Stored)
    (item : RetrievalIndexItem)
    → Represents m s
    → Room (m a)
    → m a ≡ some x
    → s.index a ≡ some item
    → Entry x item s
    → PutOutcome m c a bytes s (put_found c a bytes (some item) s)
unfolding add_reference
put_again m s c a bytes x item r room p q e = elim (Bool-cases c.put_fails) [
  | inl fails ↦
      let run : (ok tt, s) ≡ put_found c a bytes (some item) s = ground arith in
      subst (PutOutcome m c a bytes s) run (inr (inr (fails, (x, p), refl)))
  | inr puts ↦
      let small : suc x.references < 2 ^ 32 = subst Room p room in
      let same = e.count in
      let up : Entry (record x { references = suc x.references }) (count_up item) s = record {
        count = omega arith;
        some_left = omega arith;
        fits = small;
        is_taken = e.is_taken;
        content = e.content;
      } in
      let t = put_item a (some (count_up item)) s in
      let run : (ok tt, t) ≡ put_found c a bytes (some item) s = ground arith in
      subst (PutOutcome m c a bytes s) run (
        inl (
          refl,
          subst (λ o. Represents (update a (more bytes o) m) t) (sym p)
              (count_changed m s a (record x { references = suc x.references }) item (count_up item)
                r q refl up),
        ))
]

-- Putting a chunk either counts it in, or leaves the map as it was, and then it ends in an error unless the
-- chunk was there and its count could not be stored. The shards hand out free slots of less than 2 ^ 16 bytes, and
-- the count of the chunk, if it is there, is below 2 ^ 32 - 1.
pub put-Represents :
    (m : Chunks) (s : Store) (c : Surroundings) (a : ℕ) (bytes : Bytes)
    → Represents m s
    → Fresh c s
    → c.max_data_size < 2 ^ 16
    → Room (m a)
    → PutOutcome m c a bytes s (put c a bytes s)
unfolding put
put-Represents m s c a bytes r h small room = elim (Bool-cases c.get_fails) [
  | inl fails ↦
      let run : (err store_failure, s) ≡ put c a bytes s = ground arith in
      subst (PutOutcome m c a bytes s) run (inr (inl ((store_failure, refl), r)))
  | inr reads ↦ elim (Matches-cases m s a r) [
    | inl (p, q) ↦
        let run : put_found c a bytes none s ≡ put c a bytes s = ground arith in
        subst (PutOutcome m c a bytes s) run (put_new m s c a bytes r h small p)
    | inr (x, item, p, q, e) ↦
        let run : put_found c a bytes (some item) s ≡ put c a bytes s = ground arith in
        subst (PutOutcome m c a bytes s) run (put_again m s c a bytes x item r room p q e)
  ]
]
