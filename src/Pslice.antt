-- ===== src/Pslice.antt =====
-- pkg/topology/pslice/pslice.go: the peers that are known or connected, in bins by their proximity order to the
-- node. There is at least one bin, as in all uses, and a bin out of range is never read, so that the bins are a
-- function.
pub mod Counts
pub mod Sets
pub mod Each
mod Examples
use aicode.Prelude.{
  ℕ, zero, suc, ◌+◌, ◌-◌, ◌%◌, Bool, true, false, not, ltb, ◌==◌, if◌then◌else◌, Option, none, some,
  List, [], ◌∷◌, ◌++◌, length, take, set, get_or,
}
use aicode.Bytes.{Bytes, bytes_equal}
use aicode.Swarm.{proximity}

pub record PSlice : Type 0 where
  pub peers : ℕ → List Bytes
  pub base : Bytes
  pub max_bins : ℕ

abbrev pub new_pslice : ℕ → Bytes → PSlice
new_pslice max_bins base = record { peers = λ i. []; base = base; max_bins = max_bins }

-- `uint8(maxBins) - 1` wraps around.
unfoldable pub po : PSlice → Bytes → ℕ
po s peer =
    let p = proximity s.base peer in if ltb p s.max_bins then p else (s.max_bins % 256 + 255) % 256

abbrev next_index : Option ℕ → Option ℕ
next_index none = none
next_index (some i) = some (suc i)

-- `IndexOfAddress`.
unfoldable pub index_of : Bytes → List Bytes → Option ℕ
index_of a [] = none
index_of a (x ∷ xs) =
    let rest = index_of a xs in if bytes_equal x a then some 0 else next_index rest

abbrev pub is_some : Option ℕ → Bool
is_some none = false
is_some (some i) = true

unfoldable pub exists : PSlice → Bytes → Bool
exists s a = is_some (index_of a (s.peers (po s a)))

abbrev pub put_bin : PSlice → ℕ → List Bytes → PSlice
put_bin s k bin = record s { peers = λ i. if k == i then bin else s.peers i }

abbrev pub append_to : PSlice → ℕ → Bytes → PSlice
append_to s k a = put_bin s k (s.peers k ++ (a ∷ []))

-- `Add` of one address.
unfoldable pub add_one : PSlice → Bytes → PSlice
unfolding exists
add_one s a = if exists s a then s else append_to s (po s a) a

-- `Add` of several: those that exist beforehand are skipped.
abbrev add_new : PSlice → PSlice → List Bytes → PSlice
add_new before s [] = s
add_new before s (a ∷ rest) =
    add_new before (if exists before a then s else append_to s (po s a) a) rest

unfoldable pub add : PSlice → List Bytes → PSlice
unfolding add_one exists
add s [] = s
add s (a ∷ []) = add_one s a
add s (a ∷ b ∷ rest) = add_new s s (a ∷ b ∷ rest)

-- The last element takes the place of the one that is removed.
abbrev pub remove_at : ℕ → List Bytes → List Bytes
remove_at i bin =
    let new_length = length bin - 1 in
    let cpy = take new_length bin in
    if i == new_length then cpy else set cpy i (get_or bin new_length [])

abbrev pub remove_found : PSlice → ℕ → Option ℕ → PSlice
remove_found s k none = s
remove_found s k (some i) = put_bin s k (remove_at i (s.peers k))

unfoldable pub remove : PSlice → Bytes → PSlice
remove s a = let k = po s a in remove_found s k (index_of a (s.peers k))

unfoldable pub bin_size : PSlice → ℕ → ℕ
bin_size s bin = if ltb bin s.max_bins then length (s.peers bin) else 0

unfoldable pub bin_peers : PSlice → ℕ → List Bytes
bin_peers s bin = if ltb bin s.max_bins then s.peers bin else []

-- The loop over the first n bins.
abbrev pub size_below : PSlice → ℕ → ℕ
size_below s zero = 0
size_below s (suc n) = size_below s n + length (s.peers n)

-- `Length`.
unfoldable pub size : PSlice → ℕ
size s = size_below s s.max_bins

-- The first empty one of n bins from the i-th on.
abbrev pub empty_from : PSlice → ℕ → ℕ → Option ℕ
empty_from s i zero = none
empty_from s i (suc n) =
    let rest = empty_from s (suc i) n in if length (s.peers i) == 0 then some i else rest

-- `ShallowestEmpty`, where there is none if all bins have peers.
unfoldable pub shallowest_empty : PSlice → Option ℕ
shallowest_empty s = empty_from s 0 s.max_bins
