-- ===== src/Postage/Issuer.antt =====
-- pkg/postage/stampissuer.go: the issuer counts the stamps of each collision bucket of a batch. A
-- panic of Go on an index out of range is the error `index_out_of_range`. The clock is an argument.
pub mod Counts
use aicode.Prelude.{
  ℕ, suc, ◌+◌, ◌%◌, ◌^◌, Bool, true, false, Option, none, some, List, [], ◌∷◌, get_elem?, set, ltb,
  ◌==◌, ◌&&◌, not, replicate, if◌then◌else◌,
}
use aicode.Bytes.{Bytes}
use aicode.Postage.{bucket_full, index_out_of_range, Result, ok, err}
use aicode.Postage.Stamp.{to_bucket, index_to_bytes, upper_bound}

pub record StampIssuer : Type 0 where
  pub label : Bytes
  pub key_id : Bytes
  pub batch_id : Bytes
  pub batch_amount : ℕ
  pub batch_depth : ℕ
  pub bucket_depth : ℕ
  pub buckets : List ℕ
  pub max_bucket_count : ℕ
  pub block_number : ℕ
  pub immutable_flag : Bool

unfoldable pub new_stamp_issuer : Bytes → Bytes → Bytes → ℕ → ℕ → ℕ → ℕ → Bool → StampIssuer
new_stamp_issuer label key id amount depth bucket_depth block immutable = record {
  label = label;
  key_id = key;
  batch_id = id;
  batch_amount = amount;
  batch_depth = depth;
  bucket_depth = bucket_depth;
  buckets = replicate (2 ^ bucket_depth) 0;
  max_bucket_count = 0;
  block_number = block;
  immutable_flag = immutable;
}

-- `Clone` of the issuer's data, which leaves one field at its zero value.
unfoldable pub clone : StampIssuer → StampIssuer
clone si = record si { max_bucket_count = 0 }

unfoldable pub utilization : StampIssuer → ℕ
utilization si = si.max_bucket_count

unfoldable pub bucket_upper_bound : StampIssuer → ℕ
bucket_upper_bound si = upper_bound si.batch_depth si.bucket_depth

-- The issuer after a bucket's count went from `count` to the next one.
unfoldable pub count_up : StampIssuer → ℕ → ℕ → StampIssuer
count_up si bucket count =
    let next = (count + 1) % 2 ^ 32 in
    record si {
      buckets = set si.buckets bucket next;
      max_bucket_count = if ltb si.max_bucket_count next then next else si.max_bucket_count;
    }

-- A full bucket is refused in an immutable batch, and starts again in another.
unfoldable pub increment_bucket : StampIssuer → ℕ → ℕ → Result (ℕ × ℕ × StampIssuer)
unfolding count_up
increment_bucket si bucket count =
    if count == bucket_upper_bound si
    then if si.immutable_flag then err bucket_full else ok (bucket, 0, count_up si bucket 0)
    else ok (bucket, count, count_up si bucket count)

abbrev with_bucket : StampIssuer → ℕ → Option ℕ → Result (ℕ × ℕ × StampIssuer)
with_bucket si bucket none = err index_out_of_range
with_bucket si bucket (some count) = increment_bucket si bucket count

-- The bucket and the index in it that `increment` gives to a chunk, before they are encoded.
unfoldable pub increment_at : StampIssuer → Bytes → Result (ℕ × ℕ × StampIssuer)
unfolding increment_bucket
increment_at si addr =
    let bucket = to_bucket si.bucket_depth addr in
    with_bucket si bucket (get_elem? si.buckets bucket)

abbrev encode : Bytes → Result (ℕ × ℕ × StampIssuer) → Result (Bytes × Bytes × StampIssuer)
encode now (err e) = err e
encode now (ok (bucket, index, si)) = ok (index_to_bytes bucket index, now, si)

-- `increment`, with the current time as its 8 bytes.
unfoldable pub increment : StampIssuer → Bytes → Bytes → Result (Bytes × Bytes × StampIssuer)
increment si addr now = encode now (increment_at si addr)
