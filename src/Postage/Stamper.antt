-- ===== src/Postage/Stamper.antt =====
-- pkg/postage/stamper.go: issues the stamp of a chunk, and remembers the index that it was given. The
-- state store's items of the issuer's batch are a function of the chunk's address. The signer is a
-- parameter, and so are the accesses that fail.
pub mod Validity
use aicode.Prelude.{Bool, true, false, Option, none, some, if◌then◌else◌}
use aicode.Bytes.{Bytes, bytes_equal}
use aicode.Postage.{store_failure, Result, ok, err}
use aicode.Postage.Stamp.{Stamp}
use aicode.Postage.Issuer.{StampIssuer, increment}

pub record StampItem : Type 0 where
  pub batch_index : Bytes
  pub batch_timestamp : Bytes

pub record Stamper : Type 0 where
  pub issuer : StampIssuer
  pub items : Bytes → Option StampItem

-- `Sign` of the digest of a chunk's address, a batch id, an index and a timestamp.
abbrev pub Sign : Type 0
Sign = Bytes → Bytes → Bytes → Bytes → Result Bytes

-- Which accesses to the state store fail.
pub record Faults : Type 0 where
  pub get_fails : Bool
  pub put_fails : Bool

abbrev pub store_item : Stamper → Bytes → StampItem → Stamper
store_item st addr item = record st {
  items = λ a. if bytes_equal addr a then some item else st.items a;
}

abbrev signed : Bytes → StampItem → Result Bytes → Result Stamp
signed id item (err e) = err e
signed id item (ok sig) = ok (record {
  batch_id = id;
  index = item.batch_index;
  timestamp = item.batch_timestamp;
  sig = sig;
})

-- The item is stored, and then the digest is signed.
unfoldable pub finish : Sign → Faults → Stamper → Bytes → StampItem → Result Stamp × Stamper
finish sign faults st addr item = if faults.put_fails then (err store_failure, st) else (
  signed st.issuer.batch_id item
      (sign addr st.issuer.batch_id item.batch_index item.batch_timestamp),
  store_item st addr item,
)

abbrev incremented :
    Sign → Faults → Stamper → Bytes → Result (Bytes × Bytes × StampIssuer) → Result Stamp × Stamper
incremented sign faults st addr (err e) = (err e, st)
incremented sign faults st addr (ok (index, timestamp, issuer)) =
    finish sign faults (record st { issuer = issuer }) addr
      (record { batch_index = index; batch_timestamp = timestamp })

-- A chunk that has been stamped before keeps its index, and gets a new timestamp.
abbrev stamped : Sign → Faults → Stamper → Bytes → Bytes → Option StampItem → Result Stamp × Stamper
stamped sign faults st addr now (some item) =
    finish sign faults st addr (record item { batch_timestamp = now })
stamped sign faults st addr now none =
    incremented sign faults st addr (increment st.issuer addr now)

unfoldable pub stamp : Sign → Faults → Stamper → Bytes → Bytes → Result Stamp × Stamper
stamp sign faults st addr now =
    if faults.get_fails
    then (err store_failure, st)
    else stamped sign faults st addr now (st.items addr)
