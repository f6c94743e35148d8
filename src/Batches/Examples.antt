-- ===== src/Batches/Examples.antt =====
-- Runs of the store of batches on concrete batches.
use aicode.Prelude.{
  ap, sym, arith, ℕ, ◌≡◌, refl, true, false, none, some, [], ◌∷◌, if◌then◌else◌, ◌==◌,
}
use mathlib.Core.Bool.{false≢true}
use aicode.Prelude.Int.{pos, to_int64, ◌+ℤ◌}
use aicode.Batches.{Batch, ChainState, Disk, Store, Env, ok, find}
use aicode.Batches.Writes.{
  update, get, lookup, evict, evict_all, collect, cleanup, compute_radius, save, save_batch,
  put_chain_state, radius_of, total_commitment,
}
use aicode.Batches.Cleanup.Eviction.{Inv, keep}
use aicode.Batches.Saves.{put_chain_state_exact}
use aicode.Batches.Updates.{update_exact}
use aicode.Batches.Totality.{Works, put_chain_state_total}
use aicode.Batches.Additions.{added, added-Inv, save_exact}

abbrev env : Env
env = record {
  capacity = pos 4;
  get_fails = λ _. false;
  put_fails = λ _. false;
  delete_fails = λ _. false;
  iterate_fails = false;
  has_expiry = true;
  expiry_fails = λ _. false;
  evict_fails = λ _. false;
  ceil_log2 = λ _ _. 1;
}

abbrev poor : Batch
poor = record {
  id = 1;
  value = 10;
  start = 0;
  owner = 7;
  depth = 3;
  bucket_depth = 2;
  immutable = true;
}

abbrev rich : Batch
rich = record poor { id = 2; value = 30 }

abbrev start_state : ChainState
start_state = record { block = 1; total_amount = 5; current_price = 1 }

abbrev paid_state : ChainState
paid_state = record { block = 2; total_amount = 10; current_price = 1 }

abbrev empty_disk : Disk
empty_disk = record { batches = []; value_keys = []; chain_state = none; reserve_radius = none }

abbrev one : Store
one = record { disk = added poor empty_disk; cs = start_state; radius = 0 }

-- After the second batch.
abbrev two : Store
two = record {
  disk = record {
    batches = poor ∷ rich ∷ [];
    value_keys = (10, 1) ∷ (30, 2) ∷ [];
    chain_state = none;
    reserve_radius = some 1;
  };
  cs = start_state;
  radius = 1;
}

-- After the first batch is spent.
abbrev paid : Store
paid = record {
  disk = record {
    batches = rich ∷ [];
    value_keys = (30, 2) ∷ [];
    chain_state = some paid_state;
    reserve_radius = some 1;
  };
  cs = paid_state;
  radius = 1;
}

empty-Inv : Inv empty_disk
empty-Inv = record {
  sorted = tt;
  keyed = λ v i k. absurd (false≢true k);
  indexed = λ i b k. absurd cc;
}

one-Inv : Inv one.disk
one-Inv = added-Inv poor empty_disk refl empty-Inv

second_save : save rich env one ≡ (ok tt, two)
unfolding save save_batch lookup get cleanup collect evict evict_all compute_radius to_int64 ◌+ℤ◌
second_save = refl

save_exact_example :
    (find 2 one.disk.batches ≡ none)
    × (Inv two.disk)
    × ((i : ℕ)
        → find i two.disk.batches ≡ keep 5 (if i == 2 then some rich else find i one.disk.batches))
    × ((two.radius ≡ radius_of env (total_commitment two.disk.batches))
        × (two.disk.reserve_radius ≡ some two.radius))
save_exact_example = save_exact rich env one two one-Inv second_save

two-Inv : Inv two.disk
two-Inv = (save_exact rich env one two one-Inv second_save).1

payment : put_chain_state paid_state env two ≡ (ok tt, paid)
unfolding put_chain_state lookup get cleanup collect evict evict_all compute_radius to_int64 ◌+ℤ◌
payment = refl

put_chain_state_exact_example :
    Inv paid.disk
    × ((i : ℕ) → find i paid.disk.batches ≡ keep 10 (find i two.disk.batches))
    × ((paid.cs ≡ paid_state) × (paid.disk.chain_state ≡ some paid_state))
    × ((paid.radius ≡ radius_of env (total_commitment paid.disk.batches))
        × (paid.disk.reserve_radius ≡ some paid.radius))
put_chain_state_exact_example = put_chain_state_exact paid_state env two paid two-Inv payment

env-Works : Works env
env-Works = record {
  gets = λ k. refl;
  puts = λ k. refl;
  deletes = λ k. refl;
  iterates = refl;
  expires = λ i. refl;
  evicts = λ i. refl;
}

put_chain_state_total_example : (t : Store) × (put_chain_state paid_state env two ≡ (ok tt, t))
put_chain_state_total_example = put_chain_state_total paid_state env two env-Works two-Inv

-- The second batch with less value and more depth.
abbrev diluted : Store
diluted = record two {
  disk = record (two.disk) {
    batches = poor ∷ record rich { value = 20; depth = 4 } ∷ [];
    value_keys = (10, 1) ∷ (20, 2) ∷ [];
  };
}

dilution : update rich 20 4 env two ≡ (ok tt, diluted)
unfolding update save_batch lookup get cleanup collect evict evict_all compute_radius to_int64 ◌+ℤ◌
dilution = refl

stored_value : (x : Batch) → find 2 two.disk.batches ≡ some x → x.value ≡ 30
stored_value x e = let same : rich ≡ x = ground arith in sym (ap (λ (b : Batch). b.value) same)

update_exact_example :
    (Inv diluted.disk)
    × ((i : ℕ)
        → find i diluted.disk.batches
          ≡ keep 5 (
              if i == 2
              then some (record rich { value = 20; depth = 4 })
              else find i two.disk.batches))
    × ((diluted.radius ≡ radius_of env (total_commitment diluted.disk.batches))
        × (diluted.disk.reserve_radius ≡ some diluted.radius))
update_exact_example = update_exact rich 20 4 env two diluted two-Inv stored_value dilution
