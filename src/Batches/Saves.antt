-- ===== src/Batches/Saves.antt =====
-- What a new chain state and a new batch make of the store of batches.
use aicode.Prelude.{ℕ, ◌≡◌, refl, sym, ap, subst, ◌∙◌, some, arith}
use aicode.Batches.{
  ChainState, chain_state_key, Disk, Store, Env, ok, continue, ◌>>◌, bind_ok, fail_if, modify,
  store_failure, find,
}
use aicode.Batches.Writes.{cleanup, compute_radius, put_chain_state, radius_of, total_commitment}
use aicode.Batches.Cleanup.{has_key, Sorted}
use aicode.Batches.Cleanup.Eviction.{Inv, keep, cleanup_exact, compute_radius_ok}

pub same_keys-Inv :
    (d e : Disk) → e.batches ≡ d.batches → e.value_keys ≡ d.value_keys → Inv d → Inv e
same_keys-Inv d e p q v = record {
  sorted = subst Sorted (sym q) v.sorted;
  keyed = λ w i k.
      let (b, there, value, id) = v.keyed w i (sym (ap (has_key w i) q) ∙ k) in
      (b, ap (find i) p ∙ there, value, id);
  indexed = λ i b k.
      let (id, key) = v.indexed i b (sym (ap (find i) p) ∙ k) in
      (id, ap (has_key b.value i) q ∙ key);
}

-- What the store is after a cleanup and a new radius: the batches of `s` above the total payout, and the
-- radius of these.
pub record Settled (c : Env) (s t : Store) : Type 0 where
  pub inv : Inv t.disk
  pub kept : (i : ℕ) → find i t.disk.batches ≡ keep s.cs.total_amount (find i s.disk.batches)
  pub same_state : t.cs ≡ s.cs
  pub new_radius : t.radius ≡ radius_of c (total_commitment t.disk.batches)
  pub radius_stored : t.disk.reserve_radius ≡ some t.radius

pub cleanup-Settled :
    (c : Env) (s t : Store)
    → Inv s.disk
    → (cleanup >> compute_radius) c s ≡ (ok tt, t)
    → Settled c s t
cleanup-Settled c s t v e =
    let (_, u, p, q) = bind_ok cleanup (λ _. compute_radius) c s t tt e in
    let (w, exact, state) = cleanup_exact c s u v p in
    let (batches, keys, state', radius, stored) = compute_radius_ok c u t q in
    record {
      inv = same_keys-Inv u.disk t.disk batches keys w;
      kept = λ i. ap (find i) batches ∙ exact i;
      same_state = state' ∙ state;
      new_radius = radius ∙ ap (λ bs. radius_of c (total_commitment bs)) (sym batches);
      radius_stored = stored;
    }

chain_state_stored :
    (cs : ChainState) (c : Env) (w t : Store)
    → (fail_if (c.put_fails chain_state_key) store_failure
          >> modify (λ s. record s { disk = record (s.disk) { chain_state = some cs } }))
        c w
      ≡ (ok tt, t)
    → record w { disk = record (w.disk) { chain_state = some cs } } ≡ t
chain_state_stored cs c w t e = ground arith

put_chain_state_cases :
    (cs : ChainState) (c : Env) (s t : Store)
    → put_chain_state cs c s ≡ (ok tt, t)
    → (w : Store) × ((cleanup >> compute_radius) c (record s { cs = cs }) ≡ (ok tt, w))
      × (record w { disk = record (w.disk) { chain_state = some cs } } ≡ t)
unfolding put_chain_state
put_chain_state_cases cs c s t e =
    let first = modify (λ s. record s { cs = cs }) >> cleanup >> compute_radius in
    let store = modify (λ s. record s { disk = record (s.disk) { chain_state = some cs } }) in
    let (_, x, p, q) =
      bind_ok (first >> fail_if (c.put_fails chain_state_key) store_failure) (λ _. store) c s t tt
        e in
    let (_, w, p', q') =
      bind_ok first (λ _. fail_if (c.put_fails chain_state_key) store_failure) c s x tt p in
    (w, p', chain_state_stored cs c w t (ap (continue (λ _. store) c) q' ∙ q))

-- A new chain state that is taken in without a failure, over keys that are in order and match the
-- batches, removes exactly the batches whose value is at most its total payout; the keys are in order and
-- match the batches again, the chain state is stored, and the radius is that of the batches left.
pub put_chain_state_exact :
    (cs : ChainState) (c : Env) (s t : Store)
    → Inv s.disk
    → put_chain_state cs c s ≡ (ok tt, t)
    → Inv t.disk
      × ((i : ℕ) → find i t.disk.batches ≡ keep cs.total_amount (find i s.disk.batches))
      × ((t.cs ≡ cs) × (t.disk.chain_state ≡ some cs))
      × ((t.radius ≡ radius_of c (total_commitment t.disk.batches))
          × (t.disk.reserve_radius ≡ some t.radius))
put_chain_state_exact cs c s t v e =
    let (w, p, q) = put_chain_state_cases cs c s t e in
    let r = cleanup-Settled c (record s { cs = cs }) w v p in
    let done : Store = record w { disk = record (w.disk) { chain_state = some cs } } in
    subst
      (λ t.
        Inv t.disk
        × ((i : ℕ) → find i t.disk.batches ≡ keep cs.total_amount (find i s.disk.batches))
        × ((t.cs ≡ cs) × (t.disk.chain_state ≡ some cs))
        × ((t.radius ≡ radius_of c (total_commitment t.disk.batches))
            × (t.disk.reserve_radius ≡ some t.radius)))
      q
      (
        same_keys-Inv w.disk done.disk refl refl r.inv,
        r.kept,
        (r.same_state, refl),
        (r.new_radius, r.radius_stored),
      )
