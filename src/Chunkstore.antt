-- ===== src/Chunkstore.antt =====
-- pkg/storer/internal/chunkstore/chunkstore.go: the chunks by their addresses, over the blobs of pkg/sharky. An
-- address is a number, and so is a slot of any of the shards.
pub mod Represents
pub mod Refinement
pub mod Deletion
pub mod History
mod Examples
use aicode.Prelude.{
  ℕ, suc, ◌+◌, ◌-◌, ◌%◌, ◌^◌, ◌++◌, Bool, true, false, ltb, ◌==◌, if◌then◌else◌, Option, none, some,
  length, take, drop,
}
use aicode.Bytes.{Bytes}
use aicode.Effects.{Result, ok, err, M, ◌>>=◌, ◌>>◌, pure, fail, fail_if, lift, get, modify}

pub data Error : Type 0 where
  store_failure not_found too_long sharky_failure : Error

pub record Location : Type 0 where
  pub slot : ℕ
  pub size : ℕ

pub record RetrievalIndexItem : Type 0 where
  pub timestamp : ℕ
  pub location : Location
  pub ref_cnt : ℕ

-- The index, the bytes in each slot of the files, and the slots that are not free.
pub record Store : Type 0 where
  pub index : ℕ → Option RetrievalIndexItem
  pub blobs : ℕ → Bytes
  pub taken : ℕ → Bool

-- What a call finds: the clock, the size of a slot, the slot that the shards hand out, where the writing to the file
-- stops, if it does, and what fails.
pub record Surroundings : Type 0 where
  pub now : ℕ
  pub max_data_size : ℕ
  pub handed : Result Error ℕ
  pub cut : Option ℕ
  pub get_fails : Bool
  pub put_fails : Bool
  pub delete_fails : Bool
  pub read_fails : Bool
  pub release_fails : Bool

abbrev pub update {ℓ} : {A : Type ℓ} → ℕ → A → (ℕ → A) → ℕ → A
update k a f i = if k == i then a else f i

-- The bytes of an older, longer blob stay after those of the new one.
abbrev pub written : ℕ → Bytes → Store → Store
written slot bytes s = record s {
  blobs = update slot (bytes ++ drop (length bytes) (s.blobs slot)) s.blobs;
  taken = update slot true s.taken;
}

-- The writing to the file. If it stops, or the caller leaves before it is told, the slot is not given back.
abbrev pub write_at : Option ℕ → ℕ → Bytes → M Store Error Location
write_at none slot bytes s =
    (ok (record { slot = slot; size = length bytes % 2 ^ 16 }), written slot bytes s)
write_at (some n) slot bytes s = (err sharky_failure, written slot (take n bytes) s)

-- `Write` of sharky.
unfoldable pub write : Surroundings → Bytes → M Store Error Location
write c bytes = do
  fail_if (ltb c.max_data_size (length bytes)) too_long
  slot ← lift c.handed
  write_at c.cut slot bytes

unfoldable pub read : Surroundings → Location → M Store Error Bytes
read c loc = do
  fail_if c.read_fails sharky_failure
  s ← get
  pure (take loc.size (s.blobs loc.slot))

abbrev pub free : ℕ → Store → Store
free slot s = record s { taken = update slot false s.taken }

unfoldable pub release : Surroundings → Location → M Store Error (Unit {0})
release c loc = fail_if c.release_fails sharky_failure >> modify (free loc.slot)

abbrev pub put_item : ℕ → Option RetrievalIndexItem → Store → Store
put_item a item s = record s { index = update a item s.index }

-- A chunk that is found counts once more; the count is a `uint32`. That it cannot be stored is not reported.
abbrev pub count_up : RetrievalIndexItem → RetrievalIndexItem
count_up item = record item { ref_cnt = (item.ref_cnt + 1) % 2 ^ 32 }

unfoldable pub add_reference : Surroundings → ℕ → RetrievalIndexItem → M Store Error (Unit {0})
add_reference c a item s = (ok tt, if c.put_fails then s else put_item a (some (count_up item)) s)

-- The index entry of a chunk that was written. If it cannot be stored, the slot is released.
unfoldable pub store_item : Surroundings → ℕ → Location → M Store Error (Unit {0})
store_item c a loc s =
    if c.put_fails
    then (err store_failure, if c.release_fails then s else free loc.slot s)
    else (ok tt, put_item a (some (record { timestamp = c.now; location = loc; ref_cnt = 1 })) s)

abbrev pub put_found :
    Surroundings → ℕ → Bytes → Option RetrievalIndexItem → M Store Error (Unit {0})
put_found c a bytes (some item) = add_reference c a item
put_found c a bytes none = write c bytes >>= store_item c a

unfoldable pub put : Surroundings → ℕ → Bytes → M Store Error (Unit {0})
put c a bytes = do fail_if c.get_fails store_failure; s ← get; put_found c a bytes (s.index a)

abbrev pub count_down : RetrievalIndexItem → RetrievalIndexItem
count_down item = record item { ref_cnt = (item.ref_cnt + 2 ^ 32 - 1) % 2 ^ 32 }

-- The last reference: the slot is released before the entry is deleted.
unfoldable pub delete_last : Surroundings → ℕ → Location → M Store Error (Unit {0})
unfolding release
delete_last c a loc = do
  release c loc
  fail_if c.delete_fails store_failure
  modify (put_item a none)

unfoldable pub drop_reference : Surroundings → ℕ → RetrievalIndexItem → M Store Error (Unit {0})
drop_reference c a item =
    if ltb 0 item.ref_cnt
    then (fail_if c.put_fails store_failure >> modify (put_item a (some item)))
    else delete_last c a item.location

abbrev pub delete_found : Surroundings → ℕ → Option RetrievalIndexItem → M Store Error (Unit {0})
delete_found c a none = pure tt
delete_found c a (some item) = drop_reference c a (count_down item)

unfoldable pub delete : Surroundings → ℕ → M Store Error (Unit {0})
delete c a = do fail_if c.get_fails store_failure; s ← get; delete_found c a (s.index a)

abbrev pub read_found : Surroundings → Option RetrievalIndexItem → M Store Error Bytes
read_found c none = fail not_found
read_found c (some item) = read c item.location

unfoldable pub get_chunk : Surroundings → ℕ → M Store Error Bytes
unfolding read
get_chunk c a = do fail_if c.get_fails store_failure; s ← get; read_found c (s.index a)

abbrev is_some : Option RetrievalIndexItem → Bool
is_some none = false
is_some (some item) = true

unfoldable pub has : Surroundings → ℕ → M Store Error Bool
has c a = fail_if c.get_fails store_failure >> (get >>= λ s. pure (is_some (s.index a)))
