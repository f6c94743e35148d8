-- ===== src/Chunkstore/History.antt =====
-- Sequences of calls.
use aicode.Prelude.{ℕ, ◌<◌, ◌^◌, ◌≡◌, ◌⊎◌, inl, inr, sym, subst, false, List, [], ◌∷◌, some, arith}
use aicode.Bytes.{Bytes}
use aicode.Effects.{Result, ok, err}
use aicode.Chunkstore.{Error, Store, Surroundings, put, delete, get_chunk}
use aicode.Chunkstore.Represents.{Chunks, Represents, Fresh}
use aicode.Chunkstore.Refinement.{put_chunk, delete_chunk, Room, put-Represents}
use aicode.Chunkstore.Deletion.{delete-Represents, bytes_of, get_chunk-Represents}

pub data Op : Type 0 where
  putting : Surroundings → ℕ → Bytes → Op
  deleting : Surroundings → ℕ → Op

-- One call, and what it tells its caller.
abbrev pub perform : Op → Store → Result Error (Unit {0}) × Store
perform (putting c a bytes) s = put c a bytes s
perform (deleting c a) s = delete c a s

abbrev pub run : List Op → Store → Store
run [] s = s
run (op ∷ ops) s = run ops (perform op s).1

abbrev pub meaning : Op → Chunks → Chunks
meaning (putting c a bytes) m = put_chunk a bytes m
meaning (deleting c a) m = delete_chunk a m

abbrev pub if_ok : Result Error (Unit {0}) → Chunks → Chunks → Chunks
if_ok (ok u) new old = new
if_ok (err e) new old = old

-- The map as the callers see it: a call counts if it told its caller that it succeeded.
abbrev pub seen : List Op → Store → Chunks → Chunks
seen [] s m = m
seen (op ∷ ops) s m = seen ops (perform op s).1 (if_ok (perform op s).0 (meaning op m) m)

-- What a call needs: free slots of a size below 2 ^ 16, room in the count, and an index that stores the
-- counts and deletes the entries it is asked to. All else may fail.
abbrev pub Steady : Op → Store → Chunks → Type 0
Steady (putting c a bytes) s m =
    Fresh c s
    × (c.max_data_size < 2 ^ 16)
    × Room (m a)
    × (((x : _) × (m a ≡ some x)) → c.put_fails ≡ false)
Steady (deleting c a) s m = c.delete_fails ≡ false

abbrev pub AllSteady : List Op → Store → Chunks → Type 0
AllSteady [] s m = Unit {0}
AllSteady (op ∷ ops) s m =
    Steady op s m × AllSteady ops (perform op s).1 (if_ok (perform op s).0 (meaning op m) m)

counted :
    (r : Result Error (Unit {0})) (new old : Chunks) (t : Store)
    → ((r ≡ ok tt) × Represents new t) ⊎ (((e : Error) × (r ≡ err e)) × Represents old t)
    → Represents (if_ok r new old) t
counted r new old t (inl (p, h)) = subst (λ q. Represents (if_ok q new old) t) (sym p) h
counted r new old t (inr ((e, p), h)) = subst (λ q. Represents (if_ok q new old) t) (sym p) h

perform-Represents :
    (op : Op) (s : Store) (m : Chunks)
    → Represents m s
    → Steady op s m
    → Represents (if_ok (perform op s).0 (meaning op m) m) (perform op s).1
perform-Represents (putting c a bytes) s m r (fresh, small, room, keeps) =
    counted (put c a bytes s).0 (put_chunk a bytes m) m (put c a bytes s).1
      (elim (put-Represents m s c a bytes r fresh small room) [
        | inl h ↦ inl h
        | inr (inl h) ↦ inr h
        | inr (inr (fails, there, same)) ↦ let puts = keeps there in absurd (ground arith)
      ])
perform-Represents (deleting c a) s m r deletes =
    counted (delete c a s).0 (delete_chunk a m) m (delete c a s).1
      (elim (delete-Represents m s c a r) [
        | inl h ↦ inl h
        | inr (inl h) ↦ inr h
        | inr (inr (fails, _, _)) ↦ absurd (ground arith)
      ])

pub run-Represents :
    (ops : List Op) (s : Store) (m : Chunks)
    → Represents m s
    → AllSteady ops s m
    → Represents (seen ops s m) (run ops s)
run-Represents [] s m r h = r
run-Represents (op ∷ ops) s m r (h, rest) =
    run-Represents ops (perform op s).1 (if_ok (perform op s).0 (meaning op m) m)
      (perform-Represents op s m r h) rest

-- After any sequence of calls, of which some may fail, a read that meets no failure gives the bytes that a map of
-- chunks with counts has for the address after the calls that were reported to succeed, or that the chunk is not
-- found if it has none. In the map a put adds the chunk or raises its count, and a deletion of a chunk that is there
-- lowers its count and takes it away with the last. Conditions: each handed-out slot is free and smaller than 2 ^ 16 bytes, no count reaches
-- 2 ^ 32 - 1, and the index neither fails to store the count of a chunk that is there nor to delete an entry.
pub get_chunk-run :
    (ops : List Op) (s : Store) (m : Chunks) (c : Surroundings) (a : ℕ)
    → Represents m s
    → AllSteady ops s m
    → c.get_fails ≡ false
    → c.read_fails ≡ false
    → get_chunk c a (run ops s) ≡ (bytes_of (seen ops s m a), run ops s)
get_chunk-run ops s m c a r h g q =
    get_chunk-Represents (seen ops s m) (run ops s) c a (run-Represents ops s m r h) g q
