-- ===== src/Postage/Stamp.antt =====
-- pkg/postage/stamp.go and the index functions of stampissuer.go: a stamp, its encoding, and the
-- check of a stamp for a chunk. The recovery of the signer's address is a parameter.
pub mod Codec
use aicode.Prelude.{
  ℕ, ◌+◌, ◌-◌, ◌*◌, ◌/◌, ◌%◌, ◌^◌, Bool, true, false, not, List, [], ◌∷◌, ◌++◌, length, take, drop,
  leb, ltb, ◌==◌, if◌then◌else◌,
}
use aicode.Bytes.{Bytes, bytes_equal, uint32_of, uint64_of, put_uint32}
use aicode.Postage.{
  Error, invalid_batch_id, invalid_batch_index, invalid_batch_timestamp, invalid_batch_signature,
  stamp_invalid, bucket_mismatch, invalid_index, owner_mismatch, Result, ok, err, ◌>>=◌, ◌>>◌,
}

pub record Stamp : Type 0 where
  pub batch_id : Bytes
  pub index : Bytes
  pub timestamp : Bytes
  pub sig : Bytes

abbrev pub stamp_size : ℕ
stamp_size = 113

abbrev check : Bool → Error → Result (Unit {0})
check true e = ok tt
check false e = err e

-- `copy` into a field of a fixed size takes what fits, so only the batch id, which is copied into the
-- whole buffer, may not be too long. The encoding of a field is its first bytes.
unfoldable pub marshal : Stamp → Result Bytes
marshal s = do
  check (length s.batch_id == 32) invalid_batch_id
  check (leb 8 (length s.index)) invalid_batch_index
  check (leb 8 (length s.timestamp)) invalid_batch_timestamp
  check (leb 65 (length s.sig)) invalid_batch_signature
  ok (s.batch_id ++ (take 8 s.index ++ (take 8 s.timestamp ++ take 65 s.sig)))

unfoldable pub unmarshal : Bytes → Result Stamp
unmarshal buf =
    if length buf == stamp_size
    then ok (record {
      batch_id = take 32 buf;
      index = take 8 (drop 32 buf);
      timestamp = take 8 (drop 40 buf);
      sig = drop 48 buf;
    })
    else err stamp_invalid

-- A difference of two depths, which are bytes.
abbrev pub depth_difference : ℕ → ℕ → ℕ
depth_difference a b = (a + 256 - b) % 256

-- The collision bucket of an address: its first `depth` bits.
unfoldable pub to_bucket : ℕ → Bytes → ℕ
to_bucket depth addr = uint32_of addr / 2 ^ depth_difference 32 depth

unfoldable pub index_to_bytes : ℕ → ℕ → Bytes
index_to_bytes bucket index = put_uint32 bucket ++ put_uint32 index

unfoldable pub bucket_index_from_bytes : Bytes → ℕ × ℕ
bucket_index_from_bytes buf = (uint64_of buf / 2 ^ 32 % 2 ^ 32, uint64_of buf % 2 ^ 32)

-- The number of stamps of one bucket, a `uint32`.
unfoldable pub upper_bound : ℕ → ℕ → ℕ
upper_bound depth bucket_depth = 2 ^ depth_difference depth bucket_depth % 2 ^ 32

-- What crypto does: recovers the address that signed the digest of a chunk's address, a batch id, an
-- index and a timestamp, from a signature.
abbrev pub Recover : Type 0
Recover = Bytes → Bytes → Bytes → Bytes → Bytes → Result Bytes

-- `Valid`, for a chunk's address and a batch of an owner.
unfoldable pub valid : Recover → Bytes → Bytes → ℕ → ℕ → Stamp → Result (Unit {0})
valid recover addr owner depth bucket_depth s = do
  signer ← recover s.sig addr s.batch_id s.index s.timestamp
  let bucket = (bucket_index_from_bytes s.index).0
  let index = (bucket_index_from_bytes s.index).1
  check (to_bucket bucket_depth addr == bucket) bucket_mismatch
  check (ltb index (upper_bound depth bucket_depth)) invalid_index
  check (bytes_equal signer owner) owner_mismatch
