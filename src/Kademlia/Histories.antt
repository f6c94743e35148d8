-- ===== src/Kademlia/Histories.antt =====
-- What the calls keep, whose parts may run between those of others.
use aicode.Prelude.{
  ℕ, zero, suc, ◌≤◌, ◌<◌, ◌≡◌, ◌⊎◌, inl, inr, refl, sym, ap, subst, ◌∙◌, Bool, true, false,
  Bool-cases, leb, ◌==◌, if◌then◌else◌, Option, List, [], ◌∷◌, arith,
}
use aicode.Bytes.{Bytes}
use aicode.Effects.{Result, ok, err}
use aicode.Swarm.{proximity}
use aicode.Pslice.{PSlice, add_one, remove, size}
use aicode.Kademlia.{
  Failure, oversaturated, KadOptions, Kad, Status, unknown_status, public_status, private_status,
  saturated, depth_of, recalc_depth, settle, joined, dialled, forgotten, random_peer, kick_out,
  admit, parted, set_try_after, reachable, update_reachability, set_storage_radius, add_peers,
}
use aicode.Kademlia.Depth.Greatest.{IsDepth, depth_of-IsDepth}

-- A part of a call: the check of `Connected`, what a call changes in the connected peers, and how it ends, with the
-- peers that are not reachable then; and the calls that do not change the connected peers.
pub data Event : Type 0 where
  checks : (Bytes → Bool) → (ℕ → Option ℕ) → Bool → Bytes → Event
  joins forgets : Bytes → Event
  dials parts : ℕ → Bytes → Event
  settles : (Bytes → Bool) → Event
  reaches : (Bytes → Bool) → Status → Event
  updates : Status → Event
  responsible : ℕ → Event
  adds : List Bytes → Event

-- The node, how many calls have changed the connected peers and not yet ended, and the peers that were not reachable
-- when the depth was computed last.
pub record World : Type 0 where
  pub kad : Kad
  pub unsettled : ℕ
  pub filter : Bytes → Bool

-- No call is under way.
abbrev pub quiet : Kad → (Bytes → Bool) → World
quiet k filter = record { kad = k; unsettled = 0; filter = filter }

abbrev pub changed : (Kad → Kad) → World → World
changed f w = record w { kad = f w.kad; unsettled = suc w.unsettled }

-- The end of one of the calls that have changed the peers.
abbrev pub ended : (Bytes → Bool) → ℕ → World → World
ended filter zero w = w
ended filter (suc n) w = record { kad = settle filter w.kad; unsettled = n; filter = filter }

abbrev pub reached : (Bytes → Bool) → Status → World → World
reached filter public_status w = record w {
  kad = reachable filter public_status w.kad;
  filter = filter;
}
reached filter private_status w = record w { kad = reachable filter private_status w.kad }
reached filter unknown_status w = record w { kad = reachable filter unknown_status w.kad }

abbrev pub step : Event → World → World
step (checks filter randomness force a) w = record w {
  kad = (admit filter randomness force a w.kad).1;
}
step (joins a) w = changed (joined a) w
step (forgets a) w = record w { kad = forgotten a w.kad }
step (dials now a) w = changed (dialled now a) w
step (parts now a) w = changed (parted now a) w
step (settles filter) w = ended filter w.unsettled w
step (reaches filter s) w = reached filter s w
step (updates s) w = record w { kad = update_reachability s w.kad }
step (responsible d) w = record w { kad = set_storage_radius d w.kad }
step (adds addrs) w = record w { kad = add_peers addrs w.kad }

abbrev pub run : List Event → World → World
run [] w = w
run (x ∷ xs) w = run xs (step x w)

remove-max_bins : (l : PSlice) (a : Bytes) → (remove l a).max_bins ≡ l.max_bins
unfolding remove
remove-max_bins l a = ground arith

add_one-max_bins : (l : PSlice) (a : Bytes) → (add_one l a).max_bins ≡ l.max_bins
unfolding add_one
add_one-max_bins l a = ground arith

-- Calls that leave the connected peers and the depth alone.
record Same (k t : Kad) : Type 0 where
  options : t.opt ≡ k.opt
  peers : t.connected_peers ≡ k.connected_peers
  depth : t.depth ≡ k.depth

abbrev kept : (k : Kad) → Same k k
kept k = record { options = refl; peers = refl; depth = refl }

kick_out-Same : (r : Result Failure Bytes) (k : Kad) → Same k (kick_out r k).1
kick_out-Same (ok peer) k = record { options = refl; peers = refl; depth = refl }
kick_out-Same (err e) k = kept k

if-Same :
    (b : Bool) (x y : Result Failure (Unit {0}) × Kad) (k : Kad)
    → Same k x.1
    → Same k y.1
    → Same k (if b then x else y).1
if-Same true x y k h i = h
if-Same false x y k h i = i

admit-Same :
    (filter : Bytes → Bool) (randomness : ℕ → Option ℕ) (force : Bool) (a : Bytes) (k : Kad)
    → Same k (admit filter randomness force a k).1
unfolding admit
admit-Same filter randomness force a k =
    let bin = proximity k.base a in
    let kicked = kick_out (random_peer randomness bin k) k in
    let asked : Result Failure (Unit {0}) × Kad =
      if force then (ok tt, k) else (err oversaturated, k) in
    let asked-Same = if-Same force (ok tt, k) (err oversaturated, k) k (kept k) (kept k) in
    if-Same (saturated filter k bin) (if k.opt.bootnode_mode then kicked else asked) (ok tt, k) k
      (if-Same k.opt.bootnode_mode kicked asked k (kick_out-Same (random_peer randomness bin k) k)
        asked-Same)
      (kept k)

set_storage_radius-Same : (d : ℕ) (k : Kad) → Same k (set_storage_radius d k)
unfolding set_storage_radius
set_storage_radius-Same d k = elim (Bool-cases (k.storage_radius == d)) [
  | inl same ↦ rw same (kept k)
  | inr new ↦ rw new (record { options = refl; peers = refl; depth = refl })
]

-- The depth is that of the connected peers, unless a call that has changed them has not yet ended.
record Inv (o : KadOptions) (w : World) : Type 0 where
  options : w.kad.opt ≡ o
  bins : w.kad.connected_peers.max_bins ≡ 32
  current :
      (0 < w.unsettled)
      ⊎ (w.kad.depth ≡ depth_of o.low_water_mark o.saturation_peers w.filter w.kad.connected_peers)

Same-Inv :
    (o : KadOptions) (w : World) (t : Kad) → Same w.kad t → Inv o w → Inv o (record w { kad = t })
Same-Inv o w t s i = record {
  options = s.options ∙ i.options;
  bins = ap (λ (l : PSlice). l.max_bins) s.peers ∙ i.bins;
  current = elim i.current [
    | inl h ↦ inl h
    | inr e ↦
        inr
          (s.depth ∙ (e ∙ ap (depth_of o.low_water_mark o.saturation_peers w.filter) (sym s.peers)))
  ];
}

-- The depth is computed again.
recalculated :
    (o : KadOptions) (filter : Bytes → Bool) (k : Kad)
    → k.opt ≡ o
    → (recalc_depth filter k).depth
      ≡ depth_of o.low_water_mark o.saturation_peers filter k.connected_peers
unfolding recalc_depth
recalculated o filter k e =
    ap (λ (p : KadOptions). depth_of p.low_water_mark p.saturation_peers filter k.connected_peers) e

ended-Inv :
    (o : KadOptions) (filter : Bytes → Bool) (n : ℕ) (w : World)
    → Inv o w
    → Inv o (ended filter n w)
unfolding settle recalc_depth
ended-Inv o filter zero w i = i
ended-Inv o filter (suc n) w i = record {
  options = i.options;
  bins = i.bins;
  current = inr (recalculated o filter w.kad i.options);
}

step-Inv : (o : KadOptions) (x : Event) (w : World) → Inv o w → Inv o (step x w)
unfolding joined dialled parted forgotten set_try_after reachable recalc_depth update_reachability
    add_peers
step-Inv o (checks filter randomness force a) w i =
    Same-Inv o w (admit filter randomness force a w.kad).1
      (admit-Same filter randomness force a w.kad) i
step-Inv o (joins a) w i = record {
  options = i.options;
  bins = add_one-max_bins w.kad.connected_peers a ∙ i.bins;
  current = inl (omega arith);
}
step-Inv o (forgets a) w i =
    Same-Inv o w (forgotten a w.kad) (record { options = refl; peers = refl; depth = refl }) i
step-Inv o (dials now a) w i = record {
  options = i.options;
  bins = add_one-max_bins w.kad.connected_peers a ∙ i.bins;
  current = inl (omega arith);
}
step-Inv o (parts now a) w i = record {
  options = i.options;
  bins = remove-max_bins w.kad.connected_peers a ∙ i.bins;
  current = inl (omega arith);
}
step-Inv o (settles filter) w i = ended-Inv o filter w.unsettled w i
step-Inv o (reaches filter public_status) w i = record {
  options = i.options;
  bins = i.bins;
  current = inr (recalculated o filter w.kad i.options);
}
step-Inv o (reaches filter private_status) w i = i
step-Inv o (reaches filter unknown_status) w i = i
step-Inv o (updates public_status) w i =
    Same-Inv o w (update_reachability public_status w.kad)
      (record { options = refl; peers = refl; depth = refl }) i
step-Inv o (updates private_status) w i =
    Same-Inv o w (update_reachability private_status w.kad)
      (record { options = refl; peers = refl; depth = refl }) i
step-Inv o (updates unknown_status) w i = i
step-Inv o (responsible d) w i =
    Same-Inv o w (set_storage_radius d w.kad) (set_storage_radius-Same d w.kad) i
step-Inv o (adds addrs) w i =
    Same-Inv o w (add_peers addrs w.kad) (record { options = refl; peers = refl; depth = refl }) i

run-Inv : (o : KadOptions) (xs : List Event) (w : World) → Inv o w → Inv o (run xs w)
run-Inv o [] w i = i
run-Inv o (x ∷ xs) w i = run-Inv o xs (step x w) (step-Inv o x w i)

few_peers :
    (low sat : ℕ) (filter : Bytes → Bool) (l : PSlice)
    → size l ≤ low
    → depth_of low sat filter l ≡ 0
unfolding depth_of
few_peers low sat filter l h = let few : leb (size l) low ≡ true = ground arith in rw few refl

-- A depth against the connected peers and those of them that are not reachable.
abbrev pub Describes : KadOptions → (Bytes → Bool) → PSlice → ℕ → Type 0
Describes o filter l depth =
    ((size l ≤ o.low_water_mark) × (depth ≡ 0))
    ⊎ ((o.low_water_mark < size l) × IsDepth o.low_water_mark o.saturation_peers filter l depth)

-- Peers dial in, are dialled, disconnect and turn out reachable in calls that may overlap: the check of a call, its
-- change of the connected peers and its end, which computes the depth, are parts between which those of others run.
-- Whenever no call is between its change and its end, the depth is 0 if there are no more peers than the low water
-- mark, and else the greatest one such that each bin below it has peers and, unless its peers are all unreachable
-- and it is not the first, as many reachable ones as the saturation asks for, and, unless it is 0, such that from it on
-- there are as many reachable peers as the low water mark. A peer counts as reachable if it was when the depth was
-- computed last. At first there are no more peers than the mark, which is at least 1, in 32 bins, and the depth is 0.
pub run-Describes :
    (xs : List Event) (filter : Bytes → Bool) (k : Kad)
    → 1 ≤ k.opt.low_water_mark
    → k.connected_peers.max_bins ≡ 32
    → size k.connected_peers ≤ k.opt.low_water_mark
    → k.depth ≡ 0
    → (run xs (quiet k filter)).unsettled ≡ 0
    → let w = run xs (quiet k filter) in Describes k.opt w.filter w.kad.connected_peers w.kad.depth
run-Describes xs filter k low bins few start over =
    let o = k.opt in
    let w = run xs (quiet k filter) in
    let none_yet = few_peers o.low_water_mark o.saturation_peers filter k.connected_peers few in
    let i =
      run-Inv o xs (quiet k filter)
        (record { options = refl; bins = bins; current = inr (start ∙ sym none_yet) }) in
    let b = i.bins in
    elim i.current [
      | inl h ↦ absurd (omega arith)
      | inr e ↦ subst (Describes o w.filter w.kad.connected_peers) (sym e) (
          depth_of-IsDepth o.low_water_mark o.saturation_peers w.filter w.kad.connected_peers low
            (omega arith) (omega arith))
    ]
