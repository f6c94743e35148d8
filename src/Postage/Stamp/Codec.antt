-- ===== src/Postage/Stamp/Codec.antt =====
-- The encodings of a stamp and of its index.
use aicode.Prelude.{
  ℕ, ◌+◌, ◌≤◌, ◌<◌, ◌^◌, ◌≡◌, ◌≢◌, ◌*◌, ◌/◌, ◌%◌, ap, ◌∙◌, ◌⊎◌, inl, inr, ◌++◌, arith, length, take,
  drop, take-append-drop, drop-drop, take-take_self, take_all, length-take, length-drop,
}
use aicode.Bytes.{Bytes, uint64_of, put_uint32}
use aicode.Postage.{ok, err, stamp_invalid}
use aicode.Postage.Stamp.{Stamp, marshal, unmarshal, index_to_bytes, bucket_index_from_bytes}

index_value :
    (bucket index : ℕ)
    → bucket < 2 ^ 32
    → index < 2 ^ 32
    → uint64_of (index_to_bytes bucket index) ≡ bucket * 2 ^ 32 + index
unfolding index_to_bytes uint64_of put_uint32
index_value bucket index h k = omega arith

halves :
    (n a b : ℕ)
    → n ≡ a * 2 ^ 32 + b
    → a < 2 ^ 32
    → b < 2 ^ 32
    → (n / 2 ^ 32 % 2 ^ 32 ≡ a) × (n % 2 ^ 32 ≡ b)
halves n a b e h k = omega arith

-- A bucket and an index in it that fit 32 bits are read back from the 8 bytes of their encoding.
pub bucket_index-index_to_bytes :
    (bucket index : ℕ)
    → bucket < 2 ^ 32
    → index < 2 ^ 32
    → bucket_index_from_bytes (index_to_bytes bucket index) ≡ (bucket, index)
unfolding bucket_index_from_bytes
bucket_index-index_to_bytes bucket index h k =
    let (p, q) = halves _ bucket index (index_value bucket index h k) h k in λ i. (p i, q i)

parts : Bytes → Stamp
parts buf = record {
  batch_id = take 32 buf;
  index = take 8 (drop 32 buf);
  timestamp = take 8 (drop 40 buf);
  sig = drop 48 buf;
}

unmarshal_lem :
    (buf : Bytes)
    → ((length buf ≡ 113) × (unmarshal buf ≡ ok (parts buf)))
      ⊎ ((length buf ≢ 113) × (unmarshal buf ≡ err stamp_invalid))
unfolding unmarshal parts
unmarshal_lem buf = ground arith

joined :
    (buf : Bytes)
    → take 32 buf ++ (take 8 (drop 32 buf) ++ (take 8 (drop 40 buf) ++ drop 48 buf)) ≡ buf
joined buf = rw (
  ← drop-drop 8 40 buf,
  take-append-drop 8 (drop 40 buf),
  ← drop-drop 8 32 buf,
  take-append-drop 8 (drop 32 buf),
  take-append-drop 32 buf,
)

-- The conditions under which a stamp can be encoded.
abbrev Encodable : Stamp → Type 0
Encodable s =
    (length s.batch_id ≡ 32) × (8 ≤ length s.index) × (8 ≤ length s.timestamp) × (65 ≤ length s.sig)

marshal_ok :
    (s : Stamp)
    → Encodable s
    → marshal s ≡ ok (s.batch_id ++ (take 8 s.index ++ (take 8 s.timestamp ++ take 65 s.sig)))
unfolding marshal
marshal_ok s h = ground arith

parts-Encodable : (buf : Bytes) → length buf ≡ 113 → Encodable (parts buf)
unfolding parts
parts-Encodable buf h = omega (
  arith,
  length-take 32 buf,
  length-take 8 (drop 32 buf),
  length-take 8 (drop 40 buf),
  length-drop 32 buf,
  length-drop 40 buf,
  length-drop 48 buf,
)

marshal-parts : (buf : Bytes) → length buf ≡ 113 → marshal (parts buf) ≡ ok buf
marshal-parts buf h =
    marshal_ok (parts buf) (parts-Encodable buf h)
    ∙ ap ok (
        unfold parts in
        (rw
          (
            take-take_self 8 (drop 32 buf),
            take-take_self 8 (drop 40 buf),
            take_all 65 (drop 48 buf) (omega (arith, length-drop 48 buf)),
          )
          (joined buf)))

-- A buffer decodes exactly if it has 113 bytes, and the stamp that it decodes to encodes to the same
-- buffer; any other buffer is refused.
pub unmarshal-marshal :
    (buf : Bytes)
    → ((length buf ≡ 113) × ((s : Stamp) × (unmarshal buf ≡ ok s) × (marshal s ≡ ok buf)))
      ⊎ ((length buf ≢ 113) × (unmarshal buf ≡ err stamp_invalid))
unmarshal-marshal buf = elim (unmarshal_lem buf) [
  | inl (h, e) ↦ inl (h, (parts buf, e, marshal-parts buf h))
  | inr (h, e) ↦ inr (h, e)
]
