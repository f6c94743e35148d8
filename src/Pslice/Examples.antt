-- ===== src/Pslice/Examples.antt =====
-- Peers in bins, at a concrete node.
use aicode.Prelude.{◌≡◌, refl, false, [], ◌∷◌, List, if◌then◌else◌}
use aicode.Bytes.{Bytes}
use aicode.Swarm.{proximity, first_difference, first_bit, xor_bits}
use aicode.Pslice.{new_pslice, po, index_of, exists, add, add_one, bin_size}
use aicode.Pslice.Sets.{Change, adds, removes, change, change_set, occurs, change-exists}

abbrev home : Bytes
home = 0 ∷ 0 ∷ 0 ∷ 0 ∷ []

abbrev shallow : Bytes
shallow = 128 ∷ 0 ∷ 0 ∷ 0 ∷ []

abbrev shallow_too : Bytes
shallow_too = 129 ∷ 0 ∷ 0 ∷ 0 ∷ []

abbrev deep : Bytes
deep = 0 ∷ 0 ∷ 0 ∷ 1 ∷ []

abbrev changes : List Change
changes = adds shallow ∷ adds deep ∷ adds shallow_too ∷ adds shallow ∷ removes shallow ∷ []

added_once : bin_size (add_one (add_one (new_pslice 16 home) shallow) shallow) 0 ≡ 1
unfolding bin_size index_of add_one po proximity first_difference first_bit xor_bits
    aicode.Bytes.bytes_equal
added_once = refl

-- An address that is added twice in one call stands twice.
added_twice : bin_size (add (new_pslice 16 home) (deep ∷ deep ∷ [])) 15 ≡ 2
unfolding bin_size add index_of po proximity first_difference first_bit xor_bits
added_twice = refl

change-exists_example :
    let s = change (new_pslice 16 home) changes in
    (exists s deep ≡ change_set (λ a. false) changes deep)
    × (occurs s deep ≡ (if change_set (λ a. false) changes deep then 1 else 0))
change-exists_example = change-exists 16 home changes deep
