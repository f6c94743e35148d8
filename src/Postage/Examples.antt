-- ===== src/Postage/Examples.antt =====
-- Runs of the postage functions on concrete stamps and issuers.
use aicode.Prelude.{◌≢◌, ◌⊎◌, length, ◌<◌, ◌≡◌, refl, true, false, none, [], ◌∷◌, arith, replicate}
use aicode.Bytes.{Bytes, uint32_of}
use aicode.Postage.{ok, err, stamp_invalid}
use aicode.Postage.Stamp.{
  Stamp, Recover, upper_bound, to_bucket, marshal, unmarshal, index_to_bytes, valid,
}
use aicode.Postage.Stamp.Codec.{unmarshal-marshal}
use aicode.Postage.Issuer.{
  StampIssuer, new_stamp_issuer, bucket_upper_bound, increment_at, increment_bucket, increment,
  count_up,
}
use aicode.Postage.Issuer.Counts.{
  Inv, new_stamp_issuer-Inv, issue_all, Distinct, issue_all-Distinct,
}
use aicode.Postage.Stamper.{Stamper, StampItem, Sign, Faults, store_item, finish, stamp}
use aicode.Postage.Stamper.Validity.{IsValid, stamp-valid}

abbrev chunk : Bytes
chunk = 192 ∷ 1 ∷ 2 ∷ 3 ∷ []

abbrev batch : Bytes
batch = replicate 32 7

-- A batch of depth 3 with four buckets, of which each takes two stamps.
abbrev small : StampIssuer
small = new_stamp_issuer [] [] batch 100 3 2 5 true

small-Inv : Inv small
small-Inv = new_stamp_issuer-Inv [] [] batch 100 3 2 5 true

small-immutable : small.immutable_flag ≡ true
unfolding new_stamp_issuer
small-immutable = refl

abbrev counted : StampIssuer
counted = record small { buckets = 0 ∷ 0 ∷ 0 ∷ 1 ∷ []; max_bucket_count = 1 }

bound_small : 0 < bucket_upper_bound small
unfolding bucket_upper_bound upper_bound new_stamp_issuer
bound_small = omega arith

increment_small : increment_at small chunk ≡ ok (3, 0, counted)
unfolding increment_at increment_bucket count_up bucket_upper_bound upper_bound to_bucket uint32_of
    new_stamp_issuer
increment_small = refl

issue_all-Distinct_example : Distinct (issue_all small (chunk ∷ chunk ∷ chunk ∷ []))
issue_all-Distinct_example =
    issue_all-Distinct small (chunk ∷ chunk ∷ chunk ∷ []) small-immutable small-Inv

-- The third stamp of a full bucket is refused.
full_bucket : issue_all small (chunk ∷ chunk ∷ chunk ∷ []) ≡ (3, 0) ∷ (3, 1) ∷ []
unfolding issue_all increment_at increment_bucket count_up bucket_upper_bound upper_bound to_bucket
    uint32_of new_stamp_issuer
full_bucket = refl

abbrev sign_always : Sign
sign_always addr id index time = ok (1 ∷ 2 ∷ [])

abbrev recover_always : Recover
recover_always sig addr id index time = ok (5 ∷ [])

abbrev stamper : Stamper
stamper = record { issuer = small; items = λ _. none }

abbrev no_faults : Faults
no_faults = record { get_fails = false; put_fails = false }

abbrev item_one : StampItem
item_one = record { batch_index = index_to_bytes 3 0; batch_timestamp = 0 ∷ 9 ∷ [] }

abbrev first_stamp : Stamp
first_stamp = record {
  batch_id = batch;
  index = index_to_bytes 3 0;
  timestamp = 0 ∷ 9 ∷ [];
  sig = 1 ∷ 2 ∷ [];
}

abbrev stamper_after : Stamper
stamper_after = store_item (record { issuer = counted; items = λ _. none }) chunk item_one

stamper-IsValid : IsValid stamper
stamper-IsValid = record { counts = small-Inv; positive = bound_small; indexed = λ addr item e. cc }

stamp_small :
    stamp sign_always no_faults stamper chunk (0 ∷ 9 ∷ []) ≡ (ok first_stamp, stamper_after)
unfolding stamp finish increment increment_at increment_bucket count_up bucket_upper_bound
    upper_bound to_bucket uint32_of new_stamp_issuer
stamp_small = refl

stamp-valid_example :
    IsValid stamper_after
    × (valid recover_always chunk (5 ∷ []) small.batch_depth small.bucket_depth first_stamp ≡ ok tt)
stamp-valid_example =
    stamp-valid sign_always recover_always (5 ∷ []) no_faults stamper stamper_after chunk
      (0 ∷ 9 ∷ []) first_stamp (omega arith, (omega arith, (omega arith, (omega arith, tt))))
      (λ _ _ _ _ _ _. refl) stamper-IsValid stamp_small

abbrev buffer : Bytes
buffer = replicate 113 5

unmarshal-marshal_example :
    ((length buffer ≡ 113) × ((s : Stamp) × (unmarshal buffer ≡ ok s) × (marshal s ≡ ok buffer)))
    ⊎ ((length buffer ≢ 113) × (unmarshal buffer ≡ err stamp_invalid))
unmarshal-marshal_example = unmarshal-marshal buffer
