-- ===== src/Effects.antt =====
-- State with errors, which the later components share: an operation takes the state and gives a result or
-- an error, with the state after it. An error does not undo what was done before it.
use aicode.Prelude.{◌≡◌, refl, sym, ap, ◌∙◌, ◌⊎◌, inl, inr, Bool, true, false}

pub data Result (E A : Type 0) : Type 0 where
  ok : A → Result E A
  err : E → Result E A

pub Result-cases :
    {E A : Type 0} (r : Result E A) → ((a : A) × (r ≡ ok a)) ⊎ ((e : E) × (r ≡ err e))
Result-cases (ok a) = inl (a, refl)
Result-cases (err e) = inr (e, refl)

pub Run-cases :
    {S E A : Type 0} (r : Result E A × S)
    → ((a : A) × (t : S) × (r ≡ (ok a, t))) ⊎ ((e : E) × (t : S) × (r ≡ (err e, t)))
Run-cases (ok a, t) = inl (a, t, refl)
Run-cases (err e, t) = inr (e, t, refl)

abbrev pub M : Type 0 → Type 0 → Type 0 → Type 0
M S E A = S → Result E A × S

abbrev pub continue : {S E A B : Type 0} → (A → M S E B) → Result E A × S → Result E B × S
continue f (ok a, s) = f a s
continue f (err e, s) = (err e, s)

infixl 5 ◌>>=◌ ◌>>◌
abbrev pub ◌>>=◌ : {S E A B : Type 0} → M S E A → (A → M S E B) → M S E B
(m >>= f) s = continue f (m s)

abbrev pub ◌>>◌ : {S E A B : Type 0} → M S E A → M S E B → M S E B
m >> k = m >>= λ _. k

abbrev pub pure : {S E A : Type 0} → A → M S E A
pure a s = (ok a, s)

abbrev pub fail : {S E A : Type 0} → E → M S E A
fail e s = (err e, s)

abbrev pub fail_if : {S E : Type 0} → Bool → E → M S E (Unit {0})
fail_if true e s = (err e, s)
fail_if false e s = (ok tt, s)

-- What a call of another part gave.
abbrev pub lift : {S E A : Type 0} → Result E A → M S E A
lift r s = (r, s)

abbrev pub get : {S E : Type 0} → M S E S
get s = (ok s, s)

abbrev pub modify : {S E : Type 0} → (S → S) → M S E (Unit {0})
modify f s = (ok tt, f s)

-- What a sequence of operations that succeeds did.
pub bind_ok :
    {S E A B : Type 0} (m : M S E A) (f : A → M S E B) (s t : S) (b : B)
    → (m >>= f) s ≡ (ok b, t)
    → (a : A) × (u : S) × (m s ≡ (ok a, u)) × (f a u ≡ (ok b, t))
bind_ok m f s t b e = elim (Result-cases (m s).0) [
  | inl (a, p) ↦
      let q : m s ≡ (ok a, (m s).1) = λ k. (p k, (m s).1) in
      (a, (m s).1, q, sym (ap (continue f) q) ∙ e)
  | inr (x, p) ↦
      let q : m s ≡ (err x, (m s).1) = λ k. (p k, (m s).1) in
      let clash = sym (ap (continue f) q) ∙ e in
      let bad : err x ≡ ok b = ap (λ r. r.0) clash in absurd cc
]
