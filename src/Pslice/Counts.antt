-- ===== src/Pslice/Counts.antt =====
-- How often a bin has an address.
use aicode.Prelude.{
  ℕ, zero, suc, ◌+◌, ◌-◌, ◌<◌, ◌≡◌, ◌⊎◌, inl, inr, refl, ap, Bool, Bool-cases, ◌==◌, if◌then◌else◌,
  none, some, List, [], ◌∷◌, ◌++◌, length, length-take, take, set, get_or, arith,
}
use aicode.Bytes.{Bytes, bytes_equal, bytes_equal_sound}
use aicode.Pslice.{index_of, remove_at}

abbrev pub unit : Bool → ℕ
unit b = if b then 1 else 0

-- How many elements pass a test.
abbrev pub count_if : (Bytes → Bool) → List Bytes → ℕ
count_if p [] = 0
count_if p (x ∷ xs) = unit (p x) + count_if p xs

-- How often a bin has an address.
abbrev pub count : Bytes → List Bytes → ℕ
count b xs = count_if (λ x. bytes_equal x b) xs

module _ (p : Bytes → Bool) where
  pub count_if-append :
      (a : Bytes) (xs : List Bytes) → count_if p (xs ++ (a ∷ [])) ≡ count_if p xs + unit (p a)
  count_if-append a [] = omega arith
  count_if-append a (x ∷ xs) = let h = count_if-append a xs in omega arith

  count_if-set :
      (v : Bytes) (i : ℕ) (xs : List Bytes)
      → i < length xs
      → count_if p (set xs i v) + unit (p (get_or xs i [])) ≡ count_if p xs + unit (p v)
  count_if-set v i [] h = absurd (omega arith)
  count_if-set v zero (x ∷ xs) h = omega arith
  count_if-set v (suc i) (x ∷ xs) h = let r = count_if-set v i xs (omega arith) in omega arith

  count_if-take :
      (n : ℕ) (xs : List Bytes)
      → length xs ≡ suc n
      → count_if p (take n xs) + unit (p (get_or xs n [])) ≡ count_if p xs
  count_if-take n [] h = absurd (omega arith)
  count_if-take zero (x ∷ []) h = omega arith
  count_if-take zero (x ∷ y ∷ xs) h = absurd (omega arith)
  count_if-take (suc n) (x ∷ xs) h = let r = count_if-take n xs (omega arith) in omega arith

get_or-take : (i n : ℕ) (xs : List Bytes) → i < n → get_or (take n xs) i [] ≡ get_or xs i []
get_or-take i zero xs h = absurd (omega arith)
get_or-take i (suc n) [] h = refl
get_or-take zero (suc n) (x ∷ xs) h = refl
get_or-take (suc i) (suc n) (x ∷ xs) h = get_or-take i n xs (omega arith)

-- What the index says.
pub index_of_cases :
    (a : Bytes) (xs : List Bytes)
    → ((index_of a xs ≡ none) × (count a xs ≡ 0))
      ⊎ ((i : ℕ) × (index_of a xs ≡ some i)
          × (i < length xs)
          × (get_or xs i [] ≡ a)
          × (0 < count a xs))
unfolding index_of
index_of_cases a [] = inl (refl, refl)
index_of_cases a (x ∷ xs) = elim (Bool-cases (bytes_equal x a)) [
  | inl hit ↦ inr (0, ground arith, omega arith, bytes_equal_sound x a hit, ground arith)
  | inr miss ↦ elim (index_of_cases a xs) [
    | inl (e, z) ↦ inl (rw (miss, e) refl, rw miss (omega arith))
    | inr (i, e, h, g, c) ↦ inr (suc i, rw (miss, e) refl, omega arith, g, ground arith)
  ]
]

-- What is removed is counted no more.
pub count_if-remove_at :
    (p : Bytes → Bool) (i : ℕ) (xs : List Bytes)
    → i < length xs
    → count_if p (remove_at i xs) + unit (p (get_or xs i [])) ≡ count_if p xs
count_if-remove_at p i xs h =
    let n = length xs - 1 in
    let len : length xs ≡ suc n = omega arith in
    let t = count_if-take p n xs len in
    elim (Bool-cases (i == n)) [
      | inl last ↦
          let e : n ≡ i = ground arith in
          let same : unit (p (get_or xs n [])) ≡ unit (p (get_or xs i [])) =
            ap (λ j. unit (p (get_or xs j []))) e in
          rw last (omega arith)
      | inr before ↦
          let l : i < n = ground arith in
          let long : i < length (take n xs) = omega (arith, length-take n xs) in
          let s = count_if-set p (get_or xs n []) i (take n xs) long in
          let same : unit (p (get_or (take n xs) i [])) ≡ unit (p (get_or xs i [])) =
            ap (λ x. unit (p x)) (get_or-take i n xs l) in
          rw before (omega arith)
    ]
