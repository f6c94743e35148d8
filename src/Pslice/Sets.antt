-- ===== src/Pslice/Sets.antt =====
-- The peers as a set.
use aicode.Prelude.{
  ℕ, ◌+◌, ◌<◌, ◌≤◌, ◌≡◌, ◌⊎◌, inl, inr, refl, sym, ap, subst, ◌∙◌, Bool, true, false, Bool-cases,
  ◌||◌, ◌&&◌, not, ◌==◌, if◌then◌else◌, List, [], ◌∷◌, ◌++◌, length, get_or, arith,
}
use aicode.Bytes.{Bytes, bytes_equal, bytes_equal_sound}
use aicode.Pslice.{PSlice, new_pslice, po, exists, put_bin, add_one, remove_at, remove}
use aicode.Pslice.Counts.{unit, count, count_if-append, index_of_cases, count_if-remove_at}

-- How often the slice has an address, in the bin in which it belongs.
abbrev pub occurs : PSlice → Bytes → ℕ
occurs s b = count b (s.peers (po s b))

-- The slice has each address of a set once, and no others.
abbrev pub Holds : (Bytes → Bool) → PSlice → Type 0
Holds f s = (b : Bytes) → occurs s b ≡ unit (f b)

-- An address whose place is known is counted out.
removed_once :
    (a b : Bytes) (i : ℕ) (xs : List Bytes)
    → i < length xs
    → get_or xs i [] ≡ a
    → count b (remove_at i xs) + unit (bytes_equal a b) ≡ count b xs
removed_once a b i xs h g =
    let r = count_if-remove_at (λ x. bytes_equal x b) i xs h in
    let same : unit (bytes_equal (get_or xs i []) b) ≡ unit (bytes_equal a b) =
      ap (λ x. unit (bytes_equal x b)) g in
    omega arith

-- An address of another bin is another address.
other_bin : (s : PSlice) (a b : Bytes) → (po s a == po s b) ≡ false → bytes_equal a b ≡ false
other_bin s a b h = elim (Bool-cases (bytes_equal a b)) [
  | inl hit ↦ let e = ap (po s) (bytes_equal_sound a b hit) in absurd (ground arith)
  | inr miss ↦ miss
]

put_bin_cases :
    (s : PSlice) (a b : Bytes) (bin : List Bytes)
    → ((po s a ≡ po s b) × (occurs (put_bin s (po s a) bin) b ≡ count b bin))
      ⊎ ((bytes_equal a b ≡ false) × (occurs (put_bin s (po s a) bin) b ≡ occurs s b))
unfolding po
put_bin_cases s a b bin = elim (Bool-cases (po s a == po s b)) [
  | inl same ↦ inl (ground arith, rw same refl)
  | inr apart ↦ inr (other_bin s a b apart, rw apart refl)
]

same_count : (a b : Bytes) (xs : List Bytes) → bytes_equal a b ≡ true → count b xs ≡ count a xs
same_count a b xs h = ap (λ x. count x xs) (sym (bytes_equal_sound a b h))

moved_count :
    (s : PSlice) (a b : Bytes) → bytes_equal a b ≡ true → occurs s b ≡ count a (s.peers (po s a))
moved_count s a b h = ap (occurs s) (sym (bytes_equal_sound a b h))

unit_most : (b : Bool) → unit b ≤ 1
unit_most b = ground arith

one_of : (b : Bool) (n : ℕ) → n ≡ unit b → 0 < n → n ≡ 1
one_of b n e h = ground arith

add_one-Holds :
    (f : Bytes → Bool) (s : PSlice) (a : Bytes)
    → Holds f s
    → Holds (λ b. bytes_equal a b || f b) (add_one s a)
unfolding add_one
add_one-Holds f s a h b =
    let bin = s.peers (po s a) in
    elim (index_of_cases a bin) [
      | inl (e, z) ↦ elim (put_bin_cases s a b (bin ++ (a ∷ []))) [
        | inl (k, p) ↦
            let here : count b bin ≡ unit (f b) = ap (λ j. count b (s.peers j)) k ∙ h b in
            rw e (
              p
              ∙ (count_if-append (λ x. bytes_equal x b) a bin
                  ∙ elim (Bool-cases (bytes_equal a b)) [
                    | inl hit ↦ let none_yet = same_count a b bin hit in rw hit (omega arith)
                    | inr miss ↦ rw miss (omega arith)
                  ]))
        | inr (n, p) ↦ rw (e, n) (p ∙ h b)
      ]
      | inr (i, e, _, _, c) ↦ rw e (elim (Bool-cases (bytes_equal a b)) [
        | inl hit ↦
            let moved = moved_count s a b hit in
            rw hit (one_of (f b) (occurs s b) (h b) (omega arith))
        | inr miss ↦ rw miss (h b)
      ])
    ]

remove-Holds :
    (f : Bytes → Bool) (s : PSlice) (a : Bytes)
    → Holds f s
    → Holds (λ b. not (bytes_equal a b) && f b) (remove s a)
unfolding remove
remove-Holds f s a h b =
    let bin = s.peers (po s a) in
    elim (index_of_cases a bin) [
      | inl (e, z) ↦ rw e (elim (Bool-cases (bytes_equal a b)) [
        | inl hit ↦ let moved = moved_count s a b hit in rw hit (omega arith)
        | inr miss ↦ rw miss (h b)
      ])
      | inr (i, e, l, g, c) ↦ elim (put_bin_cases s a b (remove_at i bin)) [
        | inl (k, p) ↦
            let here : count b bin ≡ unit (f b) = ap (λ j. count b (s.peers j)) k ∙ h b in
            rw e (
              p ∙ elim (Bool-cases (bytes_equal a b)) [
                | inl hit ↦
                    let r =
                      subst (λ x. count b (remove_at i bin) + unit x ≡ count b bin) hit
                        (removed_once a b i bin l g) in
                    let most = unit_most (f b) in rw hit (omega arith)
                | inr miss ↦
                    let r =
                      subst (λ x. count b (remove_at i bin) + unit x ≡ count b bin) miss
                        (removed_once a b i bin l g) in
                    rw miss (omega arith)
              ])
        | inr (n, p) ↦ rw (e, n) (p ∙ h b)
      ]
    ]

-- A sequence of changes, and the set that it stands for.
pub data Change : Type 0 where
  adds removes : Bytes → Change

abbrev pub change : PSlice → List Change → PSlice
change s [] = s
change s (adds a ∷ rest) = change (add_one s a) rest
change s (removes a ∷ rest) = change (remove s a) rest

abbrev pub change_set : (Bytes → Bool) → List Change → Bytes → Bool
change_set f [] = f
change_set f (adds a ∷ rest) = change_set (λ b. bytes_equal a b || f b) rest
change_set f (removes a ∷ rest) = change_set (λ b. not (bytes_equal a b) && f b) rest

-- Any sequence of additions and removals keeps the slice a set: if it has each address of a set once and no
-- others, then afterwards it has each address of the set that is changed in the same way once, and no others.
pub change-Holds :
    (f : Bytes → Bool) (s : PSlice) (ops : List Change)
    → Holds f s
    → Holds (change_set f ops) (change s ops)
change-Holds f s [] h = h
change-Holds f s (adds a ∷ rest) h =
    change-Holds (λ b. bytes_equal a b || f b) (add_one s a) rest (add_one-Holds f s a h)
change-Holds f s (removes a ∷ rest) h =
    change-Holds (λ b. not (bytes_equal a b) && f b) (remove s a) rest (remove-Holds f s a h)

exists-Holds : (f : Bytes → Bool) (s : PSlice) (b : Bytes) → Holds f s → exists s b ≡ f b
unfolding exists
exists-Holds f s b h = elim (index_of_cases b (s.peers (po s b))) [
  | inl (e, z) ↦ let k = h b in rw e (ground arith)
  | inr (i, e, _, _, c) ↦ let k = h b in rw e (ground arith)
]

-- From a new slice on, an address exists if and only if it was added and not removed since, and then it stands
-- once in its bin.
pub change-exists :
    (max_bins : ℕ) (base : Bytes) (ops : List Change) (b : Bytes)
    → let s = change (new_pslice max_bins base) ops in
      (exists s b ≡ change_set (λ a. false) ops b)
      × (occurs s b ≡ (if change_set (λ a. false) ops b then 1 else 0))
change-exists max_bins base ops b =
    let h = change-Holds (λ a. false) (new_pslice max_bins base) ops (λ a. refl) in
    (exists-Holds (change_set (λ a. false) ops) (change (new_pslice max_bins base) ops) b h, h b)
