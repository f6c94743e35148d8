-- ===== src/Batches/Totality.antt =====
-- Over a state store and handlers that work, a cleanup and a new chain state do not fail.
use aicode.Prelude.{
  ℕ, ◌≡◌, refl, ap, ◌∙◌, inl, inr, true, false, Bool-cases, some, List, [], ◌∷◌, leb, arith,
}
use aicode.Batches.{
  Batch, ChainState, Key, Store, Env, Result, ok, continue, ◌>>◌, fail_if, modify, store_failure,
  find, remove_batch, remove_key, with_batches, with_keys, batch_key, value_key, chain_state_key,
  reserve_radius_key,
}
use aicode.Batches.Writes.{
  get, lookup, collect, evict, evict_all, cleanup, compute_radius, put_chain_state,
}
use aicode.Batches.Cleanup.{has_key}
use aicode.Batches.Cleanup.Eviction.{Inv}

pub record Works (c : Env) : Type 0 where
  pub gets : (k : Key) → c.get_fails k ≡ false
  pub puts : (k : Key) → c.put_fails k ≡ false
  pub deletes : (k : Key) → c.delete_fails k ≡ false
  pub iterates : c.iterate_fails ≡ false
  pub expires : (i : ℕ) → c.expiry_fails i ≡ false
  pub evicts : (i : ℕ) → c.evict_fails i ≡ false

get_succeeds :
    (c : Env) (s : Store) (i : ℕ) (b : Batch)
    → c.get_fails (batch_key i) ≡ false
    → find i s.disk.batches ≡ some b
    → (get i c s).0 ≡ ok b
unfolding get lookup
get_succeeds c s i b h e = ground arith

collect_succeeds :
    (c : Env) (s : Store) (ks : List (ℕ × ℕ))
    → Works c
    → ((v i : ℕ) → has_key v i ks ≡ true → (b : Batch) × (find i s.disk.batches ≡ some b))
    → (ds : List Batch) × (collect c s ks ≡ ok ds)
unfolding collect
collect_succeeds c s [] w k = ([], refl)
collect_succeeds c s ((v, i) ∷ ks) w k =
    let (b, there) = k v i (ground arith) in
    let p = get_succeeds c s i b (w.gets (batch_key i)) there in
    let (ds, q) = collect_succeeds c s ks w (λ v' i' h. k v' i' (ground arith)) in
    elim (Bool-cases (leb b.value s.cs.total_amount)) [
      | inl spent ↦ (b ∷ ds, ground arith)
      | inr kept ↦ ([], ground arith)
    ]

evict_succeeds :
    (b : Batch) (c : Env) (s : Store)
    → Works c
    → evict b c s
      ≡ (ok tt, with_batches (remove_batch b.id) (with_keys (remove_key b.value b.id) s))
unfolding evict
evict_succeeds b c s w = ground (
  arith,
  w.expires b.id,
  w.evicts b.id,
  w.deletes (value_key b.value b.id),
  w.deletes (batch_key b.id),
)

evict_all_succeeds :
    (ds : List Batch) (c : Env) (s : Store)
    → Works c
    → (t : Store) × (evict_all ds c s ≡ (ok tt, t))
unfolding evict_all
evict_all_succeeds [] c s w = (s, refl)
evict_all_succeeds (d ∷ ds) c s w =
    let u = with_batches (remove_batch d.id) (with_keys (remove_key d.value d.id) s) in
    let (t, q) = evict_all_succeeds ds c u w in
    (t, ap (continue (λ _. evict_all ds) c) (evict_succeeds d c s w) ∙ q)

cleanup_step :
    (c : Env) (s t : Store) (ds : List Batch)
    → c.iterate_fails ≡ false
    → collect c s s.disk.value_keys ≡ ok ds
    → evict_all ds c s ≡ (ok tt, t)
    → cleanup c s ≡ (ok tt, t)
unfolding cleanup
cleanup_step c s t ds h p q = ground arith

cleanup_succeeds :
    (c : Env) (s : Store) → Works c → Inv s.disk → (t : Store) × (cleanup c s ≡ (ok tt, t))
cleanup_succeeds c s w v =
    let (ds, p) =
      collect_succeeds c s s.disk.value_keys w
        (λ a i k. let (b, there, _, _) = v.keyed a i k in (b, there)) in
    let (t, q) = evict_all_succeeds ds c s w in (t, cleanup_step c s t ds w.iterates p q)

radius_succeeds :
    (c : Env) (s : Store) → Works c → compute_radius c s ≡ (ok tt, (compute_radius c s).1)
unfolding compute_radius
radius_succeeds c s w = ground (arith, w.iterates, w.puts reserve_radius_key)

chain_state_succeeds :
    (cs : ChainState) (c : Env) (s : Store)
    → Works c
    → (t : Store) × ((fail_if (c.put_fails chain_state_key) store_failure
            >> modify (λ s. record s { disk = record (s.disk) { chain_state = some cs } }))
          c s
        ≡ (ok tt, t))
chain_state_succeeds cs c s w = (
  record s { disk = record (s.disk) { chain_state = some cs } },
  ground (arith, w.puts chain_state_key),
)

-- Over a state store and handlers that work, with keys that match the batches, a new chain state is taken
-- in without a failure.
pub put_chain_state_total :
    (cs : ChainState) (c : Env) (s : Store)
    → Works c
    → Inv s.disk
    → (t : Store) × (put_chain_state cs c s ≡ (ok tt, t))
unfolding put_chain_state
put_chain_state_total cs c s w v =
    let (u, p) = cleanup_succeeds c (record s { cs = cs }) w v in
    let q = radius_succeeds c u w in
    let (t, r) = chain_state_succeeds cs c (compute_radius c u).1 w in
    let store = modify (λ s. record s { disk = record (s.disk) { chain_state = some cs } }) in
    let last = λ (x : Result (Unit {0}) × Store).
      continue (λ _. store) c
        (continue (λ _. fail_if (c.put_fails chain_state_key) store_failure) c x) in
    (t, ap (λ x. last (continue (λ _. compute_radius) c x)) p ∙ (ap last q ∙ r))
