-- ===== src/Kademlia.antt =====
-- pkg/topology/kademlia/kademlia.go: the peers the node is connected to, and its depth, with
-- internal/waitnext/waitnext.go.
pub mod Depth
pub mod Lists
pub mod Closest
pub mod Saturation
pub mod Histories
mod Examples
use aicode.Prelude.{
  ℕ, zero, suc, ◌+◌, ◌%◌, Bool, true, false, not, ◌&&◌, ◌||◌, ltb, leb, ◌==◌, if◌then◌else◌, Option,
  none, some, List, [], ◌∷◌, length, get_or,
}
use aicode.Prelude.Int.{ℤ, pos, ◌==ℤ◌}
use aicode.Bytes.{Bytes, bytes_equal}
use aicode.Effects.{Result, ok, err, M, ◌>>=◌}
use aicode.Swarm.{proximity, extended_proximity, distance_cmp}
use aicode.Swarm.{Error}
use aicode.Pslice.{
  PSlice, index_of, is_some, add, add_one, remove, bin_peers, size, shallowest_empty,
}
use aicode.Pslice.Each.{Verdict, go_on, stop, each_bin, each_bin_rev}

pub data Failure : Type 0 where
  not_found want_self oversaturated empty_bin no_randomness announce_failed : Failure

pub record KadOptions : Type 0 where
  pub bootnode_mode : Bool
  pub static_nodes : List Bytes
  pub saturation_peers : ℕ
  pub over_saturation_peers : ℕ
  pub bootnode_over_saturation_peers : ℕ
  pub low_water_mark : ℕ
  pub short_retry : ℕ
  pub time_to_retry : ℕ

pub record Next : Type 0 where
  pub try_after : ℕ
  pub failed_attempts : ℕ

-- What is asked of other parts.
pub data Call : Type 0 where
  disconnect : Bytes → Call
  notify_manage notify_peers : Call

pub record Kad : Type 0 where
  pub opt : KadOptions
  pub base : Bytes
  pub connected_peers : PSlice
  pub known_peers : PSlice
  pub depth : ℕ
  pub storage_radius : ℕ
  pub public : Bool
  pub wait_next : Bytes → Option Next
  pub calls : List Call

abbrev pub call : Call → Kad → Kad
call x k = record k { calls = x ∷ k.calls }

-- `ContainsAddress`.
abbrev pub contains_address : List Bytes → Bytes → Bool
contains_address addrs a = is_some (index_of a addrs)

-- `binSaturated`: a filter tells the peers that are left out.
abbrev pub count_in_bin : (Bytes → Bool) → (Bytes → Bool) → ℕ → ℕ → Bytes → ℕ → ℕ × Verdict
count_in_bin filter static bin n peer i =
    (if (i == bin) && (not (filter peer) && not (static peer)) then suc n else n, go_on)

unfoldable pub bin_saturated : ℕ → (Bytes → Bool) → (Bytes → Bool) → ℕ → PSlice → Bool
bin_saturated amount static filter bin connected =
    leb amount (each_bin (count_in_bin filter static bin) connected 0)

-- `makeSaturationFunc`, at a bin.
unfoldable pub saturated : (Bytes → Bool) → Kad → ℕ → Bool
saturated filter k bin =
    bin_saturated
      (if k.opt.bootnode_mode
        then k.opt.bootnode_over_saturation_peers
        else k.opt.over_saturation_peers)
      (contains_address k.opt.static_nodes) filter bin k.connected_peers

-- The shallowest bin that is not saturated, with the count of its peers.
abbrev pub unsaturated_step : ℕ → (Bytes → Bool) → ℕ × ℕ → Bytes → ℕ → (ℕ × ℕ) × Verdict
unsaturated_step saturation filter (shallowest, n) peer bin =
    if filter peer
    then ((shallowest, n), go_on)
    else (if bin == shallowest
        then ((shallowest, suc n), go_on)
        else (if ltb shallowest bin && ltb n saturation
            then ((shallowest, n), stop)
            else ((bin, 1), go_on)))

-- The bin in which the deepest peers reach the low water mark.
abbrev pub candidate_step : ℕ → (Bytes → Bool) → ℕ × ℕ → Bytes → ℕ → (ℕ × ℕ) × Verdict
candidate_step low filter (n, candidate) peer bin =
    if filter peer
    then ((n, candidate), go_on)
    else (if leb low (suc n) then ((suc n, bin), stop) else ((suc n, candidate), go_on))

abbrev pub at_most_empty : Option ℕ → ℕ → ℕ
at_most_empty none depth = depth
at_most_empty (some e) depth = if ltb e depth then e else depth

-- The depth of a list of peers.
unfoldable pub depth_of : ℕ → ℕ → (Bytes → Bool) → PSlice → ℕ
depth_of low saturation filter peers =
    let shallowest = (each_bin_rev (unsaturated_step saturation filter) peers (0, 0)).0 in
    let depth = at_most_empty (shallowest_empty peers) shallowest in
    let candidate = (each_bin (candidate_step low filter) peers (0, 0)).1 in
    if leb (size peers) low then 0 else (if ltb candidate depth then candidate else depth)

-- `recalcDepth`, with the peers that are not reachable.
unfoldable pub recalc_depth : (Bytes → Bool) → Kad → Kad
recalc_depth filter k = record k {
  depth = depth_of k.opt.low_water_mark k.opt.saturation_peers filter k.connected_peers;
}

unfoldable pub pick : (Bytes → Bool) → Bool → Bytes → Kad → Bool
pick filter full_node peer k =
    if k.opt.bootnode_mode || not full_node
    then true
    else not (saturated filter k (proximity k.base peer))

abbrev pub set_next : Bytes → Option Next → Kad → Kad
set_next a info k = record k { wait_next = λ b. if bytes_equal a b then info else k.wait_next b }

-- `SetTryAfter` of waitnext.go.
abbrev pub retried : ℕ → Option Next → Next
retried t none = record { try_after = t; failed_attempts = 0 }
retried t (some info) = record info { try_after = t }

unfoldable pub set_try_after : Bytes → ℕ → Kad → Kad
set_try_after a t k = set_next a (some (retried t (k.wait_next a))) k

-- `notifyManageLoop` and `notifyPeerSig`.
abbrev pub notify : Kad → Kad
notify k = call notify_peers (call notify_manage k)

-- How the calls that change the connected peers end, with the peers that are not reachable then.
unfoldable pub settle : (Bytes → Bool) → Kad → Kad
unfolding recalc_depth
settle filter k = notify (recalc_depth filter k)

-- The changes of `onConnected`.
unfoldable pub joined : Bytes → Kad → Kad
joined a k = set_next a none (record k {
  known_peers = add_one k.known_peers a;
  connected_peers = add_one k.connected_peers a;
})

-- `onConnected`, alone, after the announcing of the peer.
unfoldable pub on_connected : (Bytes → Bool) → Bool → Bytes → M Kad Failure (Unit {0})
unfolding settle joined
on_connected filter announces a k =
    if announces then (ok tt, settle filter (joined a k)) else (err announce_failed, k)

-- The changes after the connect loop has dialled a peer: it is added whether its bin is saturated or not.
unfoldable pub dialled : ℕ → Bytes → Kad → Kad
dialled now a k =
    set_next a (some (record { try_after = now + k.opt.short_retry; failed_attempts = 0 }))
      (record k { connected_peers = add_one k.connected_peers a })

-- What the loop does with a peer that it cannot connect to for good.
unfoldable pub forgotten : Bytes → Kad → Kad
forgotten a k = set_next a none (record k { known_peers = remove k.known_peers a })

unfoldable pub connect_to : (Bytes → Bool) → ℕ → Bytes → Kad → Kad
unfolding settle dialled
connect_to filter now a k = settle filter (dialled now a k)

abbrev pub unprotected : (Bytes → Bool) → List Bytes → List Bytes
unprotected static [] = []
unprotected static (p ∷ ps) =
    let rest = unprotected static ps in if static p then rest else p ∷ rest

-- `randomPeer`. The randomness gives a place in a list of its length, or fails.
abbrev pub chosen : List Bytes → Option ℕ → Result Failure Bytes
chosen peers none = err no_randomness
chosen peers (some i) = ok (get_or peers (i % length peers) [])

unfoldable pub random_peer : (ℕ → Option ℕ) → ℕ → Kad → Result Failure Bytes
random_peer randomness bin k =
    let peers =
      unprotected (contains_address k.opt.static_nodes) (bin_peers k.connected_peers bin) in
    if length peers == 0 then err empty_bin else chosen peers (randomness (length peers))

abbrev pub kick_out : Result Failure Bytes → M Kad Failure (Unit {0})
kick_out (ok peer) k = (ok tt, call (disconnect peer) k)
kick_out (err e) k = (err e, k)

-- The check of `Connected`, before the peer is announced and added.
unfoldable pub admit : (Bytes → Bool) → (ℕ → Option ℕ) → Bool → Bytes → M Kad Failure (Unit {0})
unfolding random_peer saturated
admit filter randomness force a k =
    let bin = proximity k.base a in
    if saturated filter k bin
    then (if k.opt.bootnode_mode
        then kick_out (random_peer randomness bin k) k
        else (if force then (ok tt, k) else (err oversaturated, k)))
    else (ok tt, k)

-- `Connected`, alone.
unfoldable pub connected :
    (Bytes → Bool) → Bool → (ℕ → Option ℕ) → Bool → Bytes → M Kad Failure (Unit {0})
unfolding on_connected admit
connected filter announces randomness force a =
    admit filter randomness force a >>= λ _. on_connected filter announces a

-- The changes of `Disconnected`.
unfoldable pub parted : ℕ → Bytes → Kad → Kad
unfolding set_try_after
parted now a k =
    set_try_after a (now + k.opt.time_to_retry)
      (record k { connected_peers = remove k.connected_peers a })

-- `Disconnected`, alone.
unfoldable pub disconnected : (Bytes → Bool) → ℕ → Bytes → Kad → Kad
unfolding settle parted
disconnected filter now a k = settle filter (parted now a k)

pub data Status : Type 0 where
  unknown_status public_status private_status : Status

-- `Reachable`: the filter is the one after the status was recorded.
unfoldable pub reachable : (Bytes → Bool) → Status → Kad → Kad
unfolding recalc_depth
reachable filter public_status k = call notify_manage (recalc_depth filter k)
reachable filter private_status k = k
reachable filter unknown_status k = k

unfoldable pub update_reachability : Status → Kad → Kad
update_reachability unknown_status k = k
update_reachability public_status k = record k { public = true }
update_reachability private_status k = record k { public = false }

unfoldable pub set_storage_radius : ℕ → Kad → Kad
set_storage_radius d k =
    if k.storage_radius == d then k else notify (record k { storage_radius = d })

unfoldable pub add_peers : List Bytes → Kad → Kad
add_peers addrs k = call notify_manage (record k { known_peers = add k.known_peers addrs })

-- `Closer`, where an address of another length is not closer.
abbrev pub is_one : Result Error ℤ → Bool
is_one (ok c) = c ==ℤ pos 1
is_one (err e) = false

unfoldable pub closer : Bytes → Bytes → Bytes → Bool
closer x a y = is_one (distance_cmp a x y)

-- `IsZero`.
abbrev pub is_zero : Bytes → Bool
is_zero [] = true
is_zero (b ∷ bs) = false

-- The callback of `ClosestPeer`, under the filter of `EachConnectedPeerRev`.
abbrev pub closest_of : (Bytes → Bool) → List Bytes → Bytes → Bytes → Bytes → Bytes
closest_of filter skip addr closest peer =
    if filter peer || contains_address skip peer
    then closest
    else (if is_zero closest || closer peer addr closest then peer else closest)

abbrev pub closest_step : (Bytes → Bool) → List Bytes → Bytes → Bytes → Bytes → ℕ → Bytes × Verdict
closest_step filter skip addr closest peer bin = (closest_of filter skip addr closest peer, go_on)

unfoldable pub closest_peer :
    (Bytes → Bool) → Bool → List Bytes → Bytes → Kad → Result Failure Bytes
closest_peer filter include_self skip addr k =
    let first = if include_self && k.public then k.base else [] in
    let closest = each_bin_rev (closest_step filter skip addr) k.connected_peers first in
    if size k.connected_peers == 0
    then err not_found
    else (if is_zero closest
        then err not_found
        else (if bytes_equal closest k.base then err want_self else ok closest))

-- `nClosePeerInSlice`.
unfoldable pub n_close_peer_in_slice : List Bytes → Bytes → (Bytes → Bool) → ℕ → Option Bytes
n_close_peer_in_slice [] addr sanctioned min_po = none
n_close_peer_in_slice (p ∷ ps) addr sanctioned min_po =
    let rest = n_close_peer_in_slice ps addr sanctioned min_po in
    if sanctioned p then rest else (if leb min_po (extended_proximity p addr) then some p else rest)
