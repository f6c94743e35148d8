-- ===== src/Chunkstore/Examples.antt =====
-- Runs of the chunk store, and the theorems at concrete inputs.
use aicode.Prelude.{ℕ, ◌≡◌, refl, true, false, List, [], ◌∷◌, none, arith}
use aicode.Effects.{ok, err}
use aicode.Chunkstore.{
  not_found, Store, Surroundings, put, delete, get_chunk, write, read, release, add_reference,
  store_item, delete_last, drop_reference,
}
use aicode.Chunkstore.Represents.{Represents, Chunks}
use aicode.Chunkstore.Refinement.{PutOutcome, put-Represents}
use aicode.Chunkstore.Deletion.{DeleteOutcome, delete-Represents, bytes_of}
use aicode.Chunkstore.History.{
  Op, putting, deleting, run, seen, AllSteady, run-Represents, get_chunk-run,
}

abbrev empty_store : Store
empty_store = record { index = λ a. none; blobs = λ i. []; taken = λ i. false }

abbrev no_chunks : Chunks
no_chunks a = none

abbrev calm : ℕ → Surroundings
calm slot = record {
  now = 7;
  max_data_size = 4104;
  handed = ok slot;
  cut = none;
  get_fails = false;
  put_fails = false;
  delete_fails = false;
  read_fails = false;
  release_fails = false;
}

abbrev stubborn : Surroundings
stubborn = record (calm 0) { delete_fails = true }

empty_pair : Represents no_chunks empty_store
empty_pair = record { each = λ a. tt; apart = λ a b x y p q n. absurd cc }

-- Two puts and a deletion of one chunk, and a second chunk.
abbrev calls : List Op
calls =
    putting (calm 3) 1 (8 ∷ 9 ∷ [])
    ∷ putting (calm 4) 2 (5 ∷ [])
    ∷ putting (calm 5) 1 (8 ∷ 9 ∷ [])
    ∷ deleting (calm 0) 1
    ∷ []

after_calls : (get_chunk (calm 0) 1 (run calls empty_store)).0 ≡ ok (8 ∷ 9 ∷ [])
unfolding put write store_item add_reference delete drop_reference get_chunk read
after_calls = refl

all_gone :
    (get_chunk (calm 0) 1 (run (deleting (calm 0) 1 ∷ []) (run calls empty_store))).0
    ≡ err not_found
unfolding put write store_item add_reference delete delete_last drop_reference release get_chunk
    read
all_gone = refl

calls_steady : AllSteady calls empty_store no_chunks
unfolding put write store_item add_reference delete drop_reference
calls_steady = (
  (λ slot e. refl, omega arith, tt, λ h. refl),
  (
    (λ slot e. ground arith, omega arith, tt, λ h. refl),
    ((λ slot e. ground arith, omega arith, omega arith, λ h. refl), (refl, tt)),
  ),
)

get_chunk-run_example :
    get_chunk (calm 0) 1 (run calls empty_store)
    ≡ (bytes_of (seen calls empty_store no_chunks 1), run calls empty_store)
get_chunk-run_example =
    get_chunk-run calls empty_store no_chunks (calm 0) 1 empty_pair calls_steady refl refl

put-Represents_example :
    PutOutcome no_chunks
      (calm 3)
      1
      (8 ∷ 9 ∷ [])
      empty_store
      (put (calm 3) 1 (8 ∷ 9 ∷ []) empty_store)
put-Represents_example =
    put-Represents no_chunks empty_store (calm 3) 1 (8 ∷ 9 ∷ []) empty_pair (λ slot e. refl)
      (omega arith) tt

-- The deletion that leaves the entry.
delete-Represents_example :
    DeleteOutcome
      (seen calls empty_store no_chunks)
      stubborn
      2
      (delete stubborn 2 (run calls empty_store))
delete-Represents_example =
    delete-Represents (seen calls empty_store no_chunks) (run calls empty_store) stubborn 2
      (run-Represents calls empty_store no_chunks empty_pair calls_steady)
