-- ===== src/Batches/Writes.antt =====
-- pkg/postage/batchstore/store.go: the operations of the store of batches, with cleanup and the radius.
use aicode.Prelude.{
  ℕ, ◌%◌, ◌^◌, Bool, true, false, Option, none, some, List, [], ◌∷◌, leb, ◌&&◌, if◌then◌else◌,
}
use aicode.Prelude.Int.{ℤ, pos, ◌+ℤ◌, to_int64, ltb_ℤ}
use aicode.Batches.{
  Batch, ChainState, batch_key, value_key, chain_state_key, reserve_radius_key, not_found,
  already_exists, store_failure, expiry_failure, evict_failure, Disk, Store, Env, Result, ok, err,
  M, ◌>>=◌, ◌>>◌, pure, fail_if, modify, find, insert_batch, remove_batch, insert_key, remove_key,
  with_batches, with_keys,
}

abbrev pub zero_chain_state : ChainState
zero_chain_state = record { block = 0; total_amount = 0; current_price = 0 }

abbrev or_zero_state : Option ChainState → ChainState
or_zero_state none = zero_chain_state
or_zero_state (some cs) = cs

abbrev or_zero_radius : Option ℕ → ℕ
or_zero_radius none = 0
or_zero_radius (some r) = r

-- `New`, over what the state store holds.
unfoldable pub new_store : Env → Disk → Option Store
new_store c d =
    if c.get_fails chain_state_key
    then none
    else if c.get_fails reserve_radius_key
    then none
    else some (record {
      disk = d;
      cs = or_zero_state d.chain_state;
      radius = or_zero_radius d.reserve_radius;
    })

-- What the state store has under the key of a batch, or that it has nothing.
unfoldable pub lookup : ℕ → M (Option Batch)
lookup i c s =
    if c.get_fails (batch_key i) then (err store_failure, s) else (ok (find i s.disk.batches), s)

abbrev required : Option Batch → M Batch
required none c s = (err not_found, s)
required (some b) c s = (ok b, s)

unfoldable pub get : ℕ → M Batch
unfolding lookup
get i = lookup i >>= required

abbrev is_some : Option Batch → Bool
is_some none = false
is_some (some b) = true

unfoldable pub exists : ℕ → M Bool
unfolding lookup
exists i = lookup i >>= λ o. pure (is_some o)

-- The batches whose value is at most the total payout: the keys are in the order of their values, and the
-- search stops at the first value above it.
abbrev also : Batch → Result (List Batch) → Result (List Batch)
also b (err e) = err e
also b (ok bs) = ok (b ∷ bs)

abbrev collected : Store → Result (List Batch) → Result Batch → Result (List Batch)
collected s more (err e) = err e
collected s more (ok b) = if leb b.value s.cs.total_amount then also b more else ok []

unfoldable pub collect : Env → Store → List (ℕ × ℕ) → Result (List Batch)
collect c s [] = ok []
collect c s ((v, i) ∷ ks) = let more = collect c s ks in collected s more (get i c s).0

unfoldable pub evict : Batch → M (Unit {0})
evict b c s =
    (fail_if (c.has_expiry && c.expiry_fails b.id) expiry_failure
        >> fail_if (c.evict_fails b.id) evict_failure
        >> fail_if (c.delete_fails (value_key b.value b.id)) store_failure
        >> modify (with_keys (remove_key b.value b.id))
        >> fail_if (c.delete_fails (batch_key b.id)) store_failure
        >> modify (with_batches (remove_batch b.id)))
      c s

unfoldable pub evict_all : List Batch → M (Unit {0})
evict_all [] = pure tt
evict_all (b ∷ bs) = evict b >> evict_all bs

abbrev evict_collected : Result (List Batch) → M (Unit {0})
evict_collected (err e) = λ c s. (err e, s)
evict_collected (ok bs) = evict_all bs

unfoldable pub cleanup : M (Unit {0})
cleanup c s =
    if c.iterate_fails
    then (err store_failure, s)
    else evict_collected (collect c s s.disk.value_keys) c s

-- `1 << e` of an `int`.
abbrev pub exp2 : ℕ → ℤ
exp2 e = to_int64 (pos (2 ^ e))

abbrev pub sum_depths : ℤ → List Batch → ℤ
sum_depths acc [] = acc
sum_depths acc (b ∷ bs) = sum_depths (to_int64 (acc +ℤ exp2 b.depth)) bs

abbrev pub total_commitment : List Batch → ℤ
total_commitment bs = sum_depths (pos 0) bs

-- `Commitment`, as the `int` that is converted to a `uint64`.
unfoldable pub commitment : M ℤ
commitment c s =
    if c.iterate_fails then (err store_failure, s) else (ok (total_commitment s.disk.batches), s)

abbrev pub radius_of : Env → ℤ → ℕ
radius_of c total = if ltb_ℤ c.capacity total then c.ceil_log2 total c.capacity % 256 else 0

-- The radius is set before it is written.
unfoldable pub compute_radius : M (Unit {0})
compute_radius c s =
    if c.iterate_fails
    then (err store_failure, s)
    else (let r = radius_of c (total_commitment s.disk.batches) in
        (modify (λ s. record s { radius = r })
            >> fail_if (c.put_fails reserve_radius_key) store_failure
            >> modify (λ s. record s { disk = record (s.disk) { reserve_radius = some r } }))
          c s)

unfoldable pub save_batch : Batch → M (Unit {0})
save_batch b c s =
    (fail_if (c.put_fails (value_key b.value b.id)) store_failure
        >> modify (with_keys (insert_key b.value b.id))
        >> cleanup
        >> compute_radius)
      c s

abbrev put_batch : Batch → M (Unit {0})
put_batch b c s =
    (fail_if (c.put_fails (batch_key b.id)) store_failure >> modify (with_batches (insert_batch b)))
      c s

abbrev save_new : Batch → Option Batch → M (Unit {0})
save_new b none = put_batch b >> save_batch b
save_new b (some old) = λ c s. (err already_exists, s)

unfoldable pub save : Batch → M (Unit {0})
save b = lookup b.id >>= save_new b

abbrev update_old : Batch → ℕ → ℕ → Option Batch → M (Unit {0})
update_old b value depth none c s = (err not_found, s)
update_old b value depth (some old) c s =
    let changed : Batch = record b { value = value; depth = depth } in
    (fail_if (c.delete_fails (value_key b.value b.id)) store_failure
        >> modify (with_keys (remove_key b.value b.id))
        >> put_batch changed
        >> save_batch changed)
      c s

-- `Update` takes the key of the value that its argument has, whatever the state store has.
unfoldable pub update : Batch → ℕ → ℕ → M (Unit {0})
update b value depth = lookup b.id >>= update_old b value depth

unfoldable pub put_chain_state : ChainState → M (Unit {0})
put_chain_state cs c s =
    (modify (λ s. record s { cs = cs })
        >> cleanup
        >> compute_radius
        >> fail_if (c.put_fails chain_state_key) store_failure
        >> modify (λ s. record s { disk = record (s.disk) { chain_state = some cs } }))
      c s
