-- ===== src/Chunkstore/Represents.antt =====
-- The store as a map from addresses to bytes with counts of references.
use aicode.Prelude.{
  ℕ, suc, ◌-◌, ◌%◌, ◌^◌, ◌<◌, ◌≤◌, ◌≡◌, ◌≢◌, ◌⊎◌, inl, inr, refl, sym, ap, subst, ◌∙◌, true, false,
  Bool-cases, Option-cases, ltb, ◌==◌, if◌then◌else◌, Option, none, some, length, take, arith,
}
use aicode.Bytes.{Bytes}
use aicode.Effects.{Result-cases, ok, err}
use aicode.Chunkstore.{
  Error, too_long, sharky_failure, RetrievalIndexItem, Store, Surroundings, update, written, write,
}

-- What is stored for an address: how often, and its bytes.
pub record Stored : Type 0 where
  pub references : ℕ
  pub bytes : Bytes

abbrev pub Chunks : Type 0
Chunks = ℕ → Option Stored

-- The first bytes that are put for an address stay until the last reference is deleted.
abbrev pub more : Bytes → Option Stored → Option Stored
more bytes none = some (record { references = 1; bytes = bytes })
more bytes (some x) = some (record x { references = suc x.references })

abbrev pub fewer : Option Stored → Option Stored
fewer none = none
fewer (some x) =
    if x.references == 1 then none else some (record x { references = x.references - 1 })

-- An entry of the index, with its bytes in a slot that is taken.
pub record Entry (x : Stored) (item : RetrievalIndexItem) (s : Store) : Type 0 where
  pub count : item.ref_cnt ≡ x.references
  pub some_left : 0 < x.references
  pub fits : x.references < 2 ^ 32
  pub is_taken : s.taken item.location.slot ≡ true
  pub content : take item.location.size (s.blobs item.location.slot) ≡ x.bytes

abbrev pub Matches : Option Stored → Option RetrievalIndexItem → Store → Type 0
Matches none none s = Unit {0}
Matches none (some item) s = ⊥
Matches (some x) none s = ⊥
Matches (some x) (some item) s = Entry x item s

-- The store stands for the map, and no two entries share a slot.
pub record Represents (m : Chunks) (s : Store) : Type 0 where
  pub each : (a : ℕ) → Matches (m a) (s.index a) s
  pub apart :
      (a b : ℕ) (x y : RetrievalIndexItem)
      → s.index a ≡ some x
      → s.index b ≡ some y
      → a ≢ b
      → x.location.slot ≢ y.location.slot

-- The shards hand out slots that are free.
abbrev pub Fresh : Surroundings → Store → Type 0
Fresh c s = (slot : ℕ) → c.handed ≡ ok slot → s.taken slot ≡ false

-- What an address has, in both views.
pub Matches-cases :
    (m : Chunks) (s : Store) (a : ℕ)
    → Represents m s
    → ((m a ≡ none) × (s.index a ≡ none))
      ⊎ ((x : Stored) × (item : RetrievalIndexItem) × (m a ≡ some x)
          × (s.index a ≡ some item)
          × Entry x item s)
Matches-cases m s a r = go (m a) (s.index a) (r.each a)
  where
    go :
        (o : Option Stored) (i : Option RetrievalIndexItem)
        → Matches o i s
        → ((o ≡ none) × (i ≡ none))
          ⊎ ((x : Stored) × (item : RetrievalIndexItem) × (o ≡ some x)
              × (i ≡ some item)
              × Entry x item s)
    go none none h = inl (refl, refl)
    go none (some item) h = absurd h
    go (some x) none h = absurd h
    go (some x) (some item) h = inr (x, item, refl, refl, h)

-- The slots of the entries of all other addresses are left alone.
abbrev pub Kept : ℕ → Store → Store → Type 0
Kept a s t =
    (b : ℕ) (item : RetrievalIndexItem)
    → a ≢ b
    → s.index b ≡ some item
    → (t.taken item.location.slot ≡ s.taken item.location.slot)
      × (t.blobs item.location.slot ≡ s.blobs item.location.slot)

Entry-Kept :
    (x : Stored) (item : RetrievalIndexItem) (s t : Store)
    → Entry x item s
    → (t.taken item.location.slot ≡ s.taken item.location.slot)
      × (t.blobs item.location.slot ≡ s.blobs item.location.slot)
    → Entry x item t
Entry-Kept x item s t e (p, q) = record {
  count = e.count;
  some_left = e.some_left;
  fits = e.fits;
  is_taken = p ∙ e.is_taken;
  content = ap (take item.location.size) q ∙ e.content;
}

Matches-Kept :
    (m : Chunks) (s t : Store) (a b : ℕ)
    → Represents m s
    → Kept a s t
    → a ≢ b
    → Matches (m b) (s.index b) t
Matches-Kept m s t a b r k n = elim (Matches-cases m s b r) [
  | inl (p, q) ↦
      subst (λ o. Matches o (s.index b) t) (sym p) (subst (λ i. Matches none i t) (sym q) tt)
  | inr (x, item, p, q, e) ↦
      subst (λ o. Matches o (s.index b) t) (sym p)
        (subst (λ i. Matches (some x) i t) (sym q) (Entry-Kept x item s t e (k b item n q)))
]

-- The entry of one address changes, and the slots of the others are left alone.
pub Represents-update :
    (m : Chunks) (s t : Store) (a : ℕ) (o : Option Stored) (i : Option RetrievalIndexItem)
    → Represents m s
    → t.index ≡ update a i s.index
    → Kept a s t
    → Matches o i t
    → ((b : ℕ) (x y : RetrievalIndexItem)
        → i ≡ some x
        → a ≢ b
        → s.index b ≡ some y
        → x.location.slot ≢ y.location.slot)
    → Represents (update a o m) t
Represents-update m s t a o i r e k h far = record {
  each = λ b.
      subst (λ f. Matches (update a o m b) (f b) t) (sym e)
        (elim (Bool-cases (a == b)) [
          | inl hit ↦ rw (update, hit) h
          | inr miss ↦
              let n : a ≢ b = ground arith in rw (update, miss) (Matches-Kept m s t a b r k n)
        ]);
  apart = λ b c x y p q n.
      let p' : update a i s.index b ≡ some x = ap (λ f. f b) (sym e) ∙ p in
      let q' : update a i s.index c ≡ some y = ap (λ f. f c) (sym e) ∙ q in
      λ z. ground (arith, far c x y, far b y x, r.apart b c x y);
}

pub write_cases :
    (c : Surroundings) (bytes : Bytes) (s : Store)
    → ((slot : ℕ) × (c.handed ≡ ok slot)
        × (length bytes ≤ c.max_data_size)
        × (write c bytes s
            ≡ (ok (record { slot = slot; size = length bytes % 2 ^ 16 }), written slot bytes s)))
      ⊎ ((e : Error) × (write c bytes s ≡ (err e, s)))
      ⊎ ((slot : ℕ) × (c.handed ≡ ok slot)
          × ((n : ℕ) × (write c bytes s ≡ (err sharky_failure, written slot (take n bytes) s))))
unfolding write
write_cases c bytes s = elim (Bool-cases (ltb c.max_data_size (length bytes))) [
  | inl long ↦ inr (inl (too_long, ground arith))
  | inr fits ↦ elim (Result-cases c.handed) [
    | inr (e, p) ↦ inr (inl (e, ground arith))
    | inl (slot, p) ↦ elim (Option-cases c.cut) [
      | inl q ↦ inl (slot, p, ground arith, ground arith)
      | inr (n, q) ↦ inr (inr (slot, p, (n, ground arith)))
    ]
  ]
]

-- A slot that is free is no entry's.
pub free_slot :
    (m : Chunks) (s : Store) (slot b : ℕ) (item : RetrievalIndexItem)
    → Represents m s
    → s.taken slot ≡ false
    → s.index b ≡ some item
    → slot ≢ item.location.slot
free_slot m s slot b item r f p = elim (Matches-cases m s b r) [
  | inl (_, q) ↦ let clash = sym p ∙ q in absurd (ground arith)
  | inr (x, it, _, q, e) ↦
      let same : it ≡ item = let z = sym q ∙ p in cc in
      let t : s.taken item.location.slot ≡ true =
        ap (λ (i : RetrievalIndexItem). s.taken i.location.slot) (sym same) ∙ e.is_taken in
      λ z. let u : s.taken slot ≡ true = ap s.taken z ∙ t in ground arith
]

-- All slots but a free one are left alone.
abbrev pub Others : ℕ → Store → Store → Type 0
Others slot s t = (j : ℕ) → slot ≢ j → (t.taken j ≡ s.taken j) × (t.blobs j ≡ s.blobs j)

pub Kept-free :
    (m : Chunks) (s t : Store) (a slot : ℕ)
    → Represents m s
    → s.taken slot ≡ false
    → Others slot s t
    → Kept a s t
Kept-free m s t a slot r h o b item n p = o item.location.slot (free_slot m s slot b item r h p)

-- What is done to a free slot does not matter.
pub Represents-free :
    (m : Chunks) (s t : Store) (slot : ℕ)
    → Represents m s
    → s.taken slot ≡ false
    → Others slot s t
    → t.index ≡ s.index
    → Represents m t
Represents-free m s t slot r h o e = record {
  each = λ b.
      subst (λ f. Matches (m b) (f b) t) (sym e)
        (elim (Matches-cases m s b r) [
          | inl (p, q) ↦
              subst (λ x. Matches x (s.index b) t) (sym p)
                (subst (λ i. Matches none i t) (sym q) tt)
          | inr (x, item, p, q, en) ↦
              subst (λ y. Matches y (s.index b) t) (sym p)
                (subst (λ i. Matches (some x) i t) (sym q)
                  (Entry-Kept x item s t en
                    (o item.location.slot (free_slot m s slot b item r h q))))
        ]);
  apart =
      λ b c x y p q n. r.apart b c x y (ap (λ f. f b) (sym e) ∙ p) (ap (λ f. f c) (sym e) ∙ q) n;
}
