-- ===== src/Kademlia/Examples.antt =====
-- A node with a few peers.
use aicode.Prelude.{
  ◌≡◌, ◌⊎◌, ◌<◌, ◌≤◌, refl, Bool, true, false, List, [], ◌∷◌, none, ◌==◌, if◌then◌else◌, arith,
}
use aicode.Bytes.{Bytes, bytes_equal}
use aicode.Effects.{ok, err}
use aicode.Swarm.{proximity, first_difference, first_bit, xor_bits, distance_cmp, compare_bytes}
use aicode.Pslice.{PSlice, new_pslice, po, add_one, index_of, size, shallowest_empty}
use aicode.Pslice.Each.{each_in, each_up, each_down, each_bin, each_bin_rev}
use aicode.Kademlia.{
  KadOptions, Kad, public_status, oversaturated, depth_of, closest_peer, closer, connected,
  recalc_depth, settle, joined, dialled, admit, reachable, saturated, bin_saturated,
}
use aicode.Kademlia.Depth.Greatest.{IsDepth, depth_of-IsDepth}
use aicode.Kademlia.Closest.{Closest, closest_peer-Closest}
use aicode.Kademlia.Histories.{
  Event, checks, joins, dials, settles, reaches, World, quiet, run, Describes, run-Describes,
}

abbrev home : Bytes
home = 0 ∷ 0 ∷ 0 ∷ 0 ∷ []

abbrev far_peer : Bytes
far_peer = 128 ∷ 0 ∷ 0 ∷ 0 ∷ []

abbrev far_too : Bytes
far_too = 129 ∷ 0 ∷ 0 ∷ 0 ∷ []

abbrev middle : Bytes
middle = 64 ∷ 0 ∷ 0 ∷ 0 ∷ []

abbrev options : KadOptions
options = record {
  bootnode_mode = false;
  static_nodes = [];
  saturation_peers = 1;
  over_saturation_peers = 1;
  bootnode_over_saturation_peers = 1;
  low_water_mark = 1;
  short_retry = 30;
  time_to_retry = 60;
}

abbrev alone : Kad
alone = record {
  opt = options;
  base = home;
  connected_peers = new_pslice 32 home;
  known_peers = new_pslice 32 home;
  depth = 0;
  storage_radius = 0;
  public = true;
  wait_next = λ a. none;
  calls = [];
}

abbrev everyone : Bytes → Bool
everyone a = false

-- Two peers dial in at once, and both pass the check before one of them is added. A third one is dialled.
abbrev events : List Event
events =
    checks everyone (λ n. none) false far_peer
    ∷ checks everyone (λ n. none) false far_too
    ∷ joins far_peer
    ∷ joins far_too
    ∷ settles everyone
    ∷ dials 7 middle
    ∷ settles everyone
    ∷ settles everyone
    ∷ reaches everyone public_status
    ∷ []

abbrev world : World
world = run events (quiet alone everyone)

-- The check would let none of them in any more.
one_too_many : (connected everyone true (λ n. none) false far_too world.kad).0 ≡ err oversaturated
unfolding connected admit settle joined dialled recalc_depth saturated bin_saturated each_bin
    each_down each_in index_of po proximity first_difference first_bit xor_bits depth_of bytes_equal
    reachable add_one
one_too_many = refl

two_levels : world.kad.depth ≡ 1
unfolding admit settle joined dialled recalc_depth saturated bin_saturated each_bin each_down
    each_in each_bin_rev each_up index_of po proximity first_difference first_bit xor_bits depth_of
    bytes_equal size shallowest_empty reachable add_one
two_levels = refl

-- Three peers in two bins.
abbrev peers : PSlice
peers = record (new_pslice 32 home) {
  peers = λ i. if i == 0 then far_peer ∷ far_too ∷ [] else (if i == 1 then middle ∷ [] else []);
}

depth_of-IsDepth_example :
    ((size peers ≤ 1) × (depth_of 1 1 everyone peers ≡ 0))
    ⊎ ((1 < size peers) × IsDepth 1 1 everyone peers (depth_of 1 1 everyone peers))
depth_of-IsDepth_example =
    depth_of-IsDepth 1 1 everyone peers (omega arith) (omega arith) (omega arith)

nearest :
    closest_peer everyone true [] (130 ∷ 0 ∷ 0 ∷ 0 ∷ []) (record alone { connected_peers = peers })
    ≡ ok far_peer
unfolding closest_peer each_bin_rev each_up each_in size index_of closer distance_cmp compare_bytes
    xor_bits bytes_equal
nearest = refl

closest_peer-Closest_example :
    Closest everyone []
      (130 ∷ 0 ∷ 0 ∷ 0 ∷ [])
      true
      (record alone { connected_peers = peers })
      (closest_peer everyone true []
        (130 ∷ 0 ∷ 0 ∷ 0 ∷ [])
        (record alone { connected_peers = peers }))
closest_peer-Closest_example =
    closest_peer-Closest everyone true [] (130 ∷ 0 ∷ 0 ∷ 0 ∷ [])
      (record alone { connected_peers = peers }) (refl, (refl, (refl, tt))) refl (omega arith)

no_peers : size alone.connected_peers ≤ 1
unfolding size
no_peers = omega arith

run-Describes_example : Describes options world.filter world.kad.connected_peers world.kad.depth
run-Describes_example = run-Describes events everyone alone (omega arith) refl no_peers refl refl
