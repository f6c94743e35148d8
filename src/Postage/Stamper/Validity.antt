-- ===== src/Postage/Stamper/Validity.antt =====
-- A stamp that the stamper issues is valid for its chunk.
use aicode.Prelude.{
  ℕ, ◌^◌, ◌<◌, ◌≡◌, refl, sym, ap, ap₂, subst, ◌∙◌, inl, inr, false, Bool-cases, Option-cases, none,
  some, [], ◌∷◌, All, arith,
}
use aicode.Bytes.{Bytes, IsByte, uint32_of, bytes_equal, bytes_equal_sound, bytes_equal_refl}
use aicode.Postage.{Result-cases, ok}
use aicode.Postage.Stamp.{
  Stamp, Recover, to_bucket, index_to_bytes, bucket_index_from_bytes, upper_bound, valid,
}
use aicode.Postage.Stamp.Codec.{bucket_index-index_to_bytes}
use aicode.Postage.Issuer.{StampIssuer, bucket_upper_bound, increment_at, increment}
use aicode.Postage.Issuer.Counts.{Inv, increment_at-Inv, increment_at-batch}
use aicode.Postage.Stamper.{StampItem, Stamper, Sign, Faults, store_item, finish, stamp}

-- The item's index encodes the address's bucket and an index below the bound.
pub record Indexed (si : StampIssuer) (addr : Bytes) (item : StampItem) : Type 0 where
  pub position : ℕ
  pub low : position < bucket_upper_bound si
  pub encoded : item.batch_index ≡ index_to_bytes (to_bucket si.bucket_depth addr) position

pub record IsValid (st : Stamper) : Type 0 where
  pub counts : Inv st.issuer
  pub positive : 0 < bucket_upper_bound st.issuer
  pub indexed :
      (addr : Bytes) (item : StampItem) → st.items addr ≡ some item → Indexed st.issuer addr item

-- The signer's address is recovered from what it signs.
abbrev pub Recovers : Sign → Recover → Bytes → Type 0
Recovers sign recover owner =
    (addr id index time sig : Bytes)
    → sign addr id index time ≡ ok sig
    → recover sig addr id index time ≡ ok owner

uint32_of_lt : (bs : Bytes) → All IsByte bs → uint32_of bs < 2 ^ 32
unfolding uint32_of
uint32_of_lt [] h = omega arith
uint32_of_lt (a ∷ []) h = omega arith
uint32_of_lt (a ∷ b ∷ []) h = omega arith
uint32_of_lt (a ∷ b ∷ c ∷ []) h = omega arith
uint32_of_lt (a ∷ b ∷ c ∷ d ∷ bs) h = omega arith

to_bucket_lt : (depth : ℕ) (addr : Bytes) → All IsByte addr → to_bucket depth addr < 2 ^ 32
unfolding to_bucket
to_bucket_lt depth addr h = omega (arith, uint32_of_lt addr h)

upper_bound_lt : (d b : ℕ) → upper_bound d b < 2 ^ 32
unfolding upper_bound
upper_bound_lt d b = omega arith

Indexed-valid :
    (recover : Recover) (owner : Bytes) (si : StampIssuer) (addr : Bytes) (s : Stamp) (position : ℕ)
    → All IsByte addr
    → position < bucket_upper_bound si
    → s.index ≡ index_to_bytes (to_bucket si.bucket_depth addr) position
    → recover s.sig addr s.batch_id s.index s.timestamp ≡ ok owner
    → valid recover addr owner si.batch_depth si.bucket_depth s ≡ ok tt
unfolding valid bucket_upper_bound
Indexed-valid recover owner si addr s position bytes low e r =
    let b = to_bucket si.bucket_depth addr in
    let small : position < 2 ^ 32 = omega (arith, upper_bound_lt si.batch_depth si.bucket_depth) in
    let q : bucket_index_from_bytes s.index ≡ (b, position) =
      ap bucket_index_from_bytes e
      ∙ bucket_index-index_to_bytes b position (to_bucket_lt si.bucket_depth addr bytes) small in
    let q0 : (bucket_index_from_bytes s.index).0 ≡ b = ap (λ (r : ℕ × ℕ). r.0) q in
    let q1 : (bucket_index_from_bytes s.index).1 ≡ position = ap (λ (r : ℕ × ℕ). r.1) q in
    ground (arith, bytes_equal_refl owner)

finish_ok :
    (sign : Sign) (faults : Faults) (st t : Stamper) (addr : Bytes) (item : StampItem) (s : Stamp)
    → finish sign faults st addr item ≡ (ok s, t)
    → (sig : Bytes) × (sign addr st.issuer.batch_id item.batch_index item.batch_timestamp ≡ ok sig)
      × (s ≡ record {
        batch_id = st.issuer.batch_id;
        index = item.batch_index;
        timestamp = item.batch_timestamp;
        sig = sig;
      })
      × (t ≡ store_item st addr item)
unfolding finish
finish_ok sign faults st t addr item s e =
    let given = sign addr st.issuer.batch_id item.batch_index item.batch_timestamp in
    elim (Bool-cases faults.put_fails) [
      | inl fails ↦ absurd (ground arith)
      | inr writes ↦ elim (Result-cases given) [
        | inl (sig, p) ↦ (sig, p, ground arith, ground arith)
        | inr (x, p) ↦ absurd (ground arith)
      ]
    ]

store_item-IsValid :
    (st : Stamper) (addr : Bytes) (item : StampItem)
    → IsValid st
    → Indexed st.issuer addr item
    → IsValid (store_item st addr item)
store_item-IsValid st addr item v x = record {
  counts = v.counts;
  positive = v.positive;
  indexed = λ a i e. elim (Bool-cases (bytes_equal addr a)) [
    | inl hit ↦
        let same : item ≡ i = ground arith in
        subst (Indexed st.issuer a) same
          (subst (λ b. Indexed st.issuer b item) (bytes_equal_sound addr a hit) x)
    | inr miss ↦ v.indexed a i (ground arith)
  ];
}

-- The last step keeps the store's items indexed, and the stamp is valid.
finish-valid :
    (sign : Sign) (recover : Recover) (owner : Bytes) (faults : Faults) (st t : Stamper)
    (addr : Bytes) (item : StampItem) (s : Stamp)
    → All IsByte addr
    → Recovers sign recover owner
    → IsValid st
    → Indexed st.issuer addr item
    → finish sign faults st addr item ≡ (ok s, t)
    → IsValid t × (valid recover addr owner st.issuer.batch_depth st.issuer.bucket_depth s ≡ ok tt)
finish-valid sign recover owner faults st t addr item s bytes law v x e =
    let (sig, p, q, k) = finish_ok sign faults st t addr item s e in
    rw (q, k)
      (
        store_item-IsValid st addr item v x,
        Indexed-valid recover owner st.issuer addr _ x.position bytes x.low x.encoded
            (law _ _ _ _ _ p),
      )

Indexed-issuer :
    (si t : StampIssuer) (addr : Bytes) (item : StampItem)
    → t.bucket_depth ≡ si.bucket_depth
    → bucket_upper_bound t ≡ bucket_upper_bound si
    → Indexed si addr item
    → Indexed t addr item
Indexed-issuer si t addr item d b x = record {
  position = x.position;
  low = rw b x.low;
  encoded = rw d x.encoded;
}

bound-same :
    (si t : StampIssuer)
    → t.bucket_depth ≡ si.bucket_depth
    → t.batch_depth ≡ si.batch_depth
    → bucket_upper_bound t ≡ bucket_upper_bound si
unfolding bucket_upper_bound
bound-same si t d e = ap₂ upper_bound e d

increment_ok :
    (si t : StampIssuer) (addr now index time : Bytes)
    → increment si addr now ≡ ok (index, time, t)
    → (b n : ℕ) × (increment_at si addr ≡ ok (b, n, t)) × (index ≡ index_to_bytes b n)
unfolding increment
increment_ok si t addr now index time e = elim (Result-cases (increment_at si addr)) [
  | inl ((b, n, u), p) ↦ (b, n, ground arith, ground arith)
  | inr (x, p) ↦ absurd (ground arith)
]

-- A chunk that has no item yet: its count is taken and the item is new.
incremented-valid :
    (sign : Sign) (recover : Recover) (owner : Bytes) (faults : Faults) (st t : Stamper)
    (addr index time : Bytes) (si : StampIssuer) (b n : ℕ) (s : Stamp)
    → All IsByte addr
    → Recovers sign recover owner
    → IsValid st
    → increment_at st.issuer addr ≡ ok (b, n, si)
    → index ≡ index_to_bytes b n
    → finish sign faults
        (record st { issuer = si })
        addr
        (record { batch_index = index; batch_timestamp = time })
      ≡ (ok s, t)
    → IsValid t × (valid recover addr owner st.issuer.batch_depth st.issuer.bucket_depth s ≡ ok tt)
incremented-valid sign recover owner faults st t addr index time si b n s bytes law v p q e =
    let (counts, low, bucket) = increment_at-Inv st.issuer si addr b n v.counts v.positive p in
    let (d, depth, _) = increment_at-batch st.issuer si addr b n p in
    let same = bound-same st.issuer si d depth in
    let u : IsValid (record st { issuer = si }) = record {
      counts = counts;
      positive = rw same v.positive;
      indexed = λ a i k. Indexed-issuer st.issuer si a i d same (v.indexed a i k);
    } in
    let x : Indexed si addr (record { batch_index = index; batch_timestamp = time }) = record {
      position = n;
      low = rw same low;
      encoded = q ∙ rw (d, bucket) refl;
    } in
    let (w, ok_s) =
      finish-valid sign recover owner faults (record st { issuer = si }) t addr _ s bytes law u x
        e in
    (w, rw (← d, ← depth) ok_s)

stamp_old :
    (sign : Sign) (faults : Faults) (st : Stamper) (addr now : Bytes) (item : StampItem)
    → faults.get_fails ≡ false
    → st.items addr ≡ some item
    → stamp sign faults st addr now
      ≡ finish sign faults st addr (record item { batch_timestamp = now })
unfolding stamp
stamp_old sign faults st addr now item reads p = rw (reads, p) refl

stamp_new :
    (sign : Sign) (faults : Faults) (st : Stamper) (addr now index time : Bytes) (si : StampIssuer)
    → faults.get_fails ≡ false
    → st.items addr ≡ none
    → increment st.issuer addr now ≡ ok (index, time, si)
    → stamp sign faults st addr now
      ≡ finish sign faults
          (record st { issuer = si })
          addr
          (record { batch_index = index; batch_timestamp = time })
unfolding stamp
stamp_new sign faults st addr now index time si reads p q = rw (reads, p, q) refl

-- A stamp that the stamper issues for a chunk is valid for it, for the batch's owner and depths, and
-- the stamper's counts and items stay valid. The address consists of bytes, and the address of the
-- owner is recovered from what the signer signs.
pub stamp-valid :
    (sign : Sign) (recover : Recover) (owner : Bytes) (faults : Faults) (st t : Stamper)
    (addr now : Bytes) (s : Stamp)
    → All IsByte addr
    → Recovers sign recover owner
    → IsValid st
    → stamp sign faults st addr now ≡ (ok s, t)
    → IsValid t × (valid recover addr owner st.issuer.batch_depth st.issuer.bucket_depth s ≡ ok tt)
unfolding stamp
stamp-valid sign recover owner faults st t addr now s bytes law v e =
    elim (Bool-cases faults.get_fails) [
      | inl fails ↦ absurd (ground arith)
      | inr reads ↦ elim (Option-cases (st.items addr)) [
        | inl p ↦ elim (Result-cases (increment st.issuer addr now)) [
          | inl ((index, time, si), q) ↦
              let (b, n, k, encoded) = increment_ok st.issuer si addr now index time q in
              incremented-valid sign recover owner faults st t addr index time si b n s bytes law v
                k encoded (sym (stamp_new sign faults st addr now index time si reads p q) ∙ e)
          | inr (x, q) ↦ absurd (ground arith)
        ]
        | inr (item, p) ↦
            let x = v.indexed addr item p in
            let y : Indexed st.issuer addr (record item { batch_timestamp = now }) = record {
              position = x.position;
              low = x.low;
              encoded = x.encoded;
            } in
            finish-valid sign recover owner faults st t addr (record item { batch_timestamp = now })
              s bytes law v y (sym (stamp_old sign faults st addr now item reads p) ∙ e)
      ]
    ]
