-- ===== src/Sharky/Slots/Process/Safety.antt =====
-- A slot in use is never handed out.
use aicode.Prelude.{
  ℕ, ◌+◌, ◌^◌, ◌<◌, ◌≡◌, ◌≢◌, refl, sym, ap, subst, ◌∙◌, ◌⊎◌, inl, inr, true, Bool-cases, none,
  some, Option-cases, List, [], ◌∷◌, get_elem?, ◌==◌, arith, All, All-get, All-map,
}
use mathlib.Core.Bool.{false≢true}
use aicode.Sharky.Slots.{Slots, is_free, push, pop, Loop, released, handed, quits, turn, react}
use aicode.Sharky.Slots.Lowest.{Inv, load-Inv, push-Inv}
use aicode.Sharky.Slots.Popped.{pop_lowest}
use aicode.Sharky.Slots.Process.{
  Distinct, remove, InUse, Reach, starts, turns, hands, releases, closes,
}

record Sound (p : Loop) (used : List ℕ) : Type 0 where
  inv : Inv p.slots
  in_use : All (InUse p.slots) used
  distinct : Distinct used
  waiting : (h : ℕ) → p.pending ≡ some h → InUse p.slots h × All (λ u. u ≢ h) used

All-remove {ℓ} :
    (P : ℕ → Type ℓ) (i : ℕ) (xs : List ℕ) → All P xs → All (λ x. P x × (i ≢ x)) (remove i xs)
All-remove P i [] h = tt
All-remove P i (x ∷ xs) h = elim (Bool-cases (i == x)) [
  | inl hit ↦ rw (hit, remove) (All-remove _ i xs h.1)
  | inr miss ↦ rw (miss, remove) ((h.0, ground arith), All-remove _ i xs h.1)
]

All-and {ℓ κ} :
    (P : ℕ → Type ℓ) (Q : ℕ → Type κ) (xs : List ℕ) → All P xs → All Q xs → All (λ x. P x × Q x) xs
All-and P Q [] h k = tt
All-and P Q (x ∷ xs) h k = ((h.0, k.0), All-and P Q xs h.1 k.1)

Distinct-remove : (i : ℕ) (xs : List ℕ) → Distinct xs → Distinct (remove i xs)
Distinct-remove i [] h = tt
Distinct-remove i (x ∷ xs) h = elim (Bool-cases (i == x)) [
  | inl hit ↦ rw (hit, remove) (Distinct-remove i xs h.1)
  | inr miss ↦
      rw (miss, remove)
        (All-map _ (λ y. y ≢ x) _ (λ y k. k.0) (All-remove _ i xs h.0), Distinct-remove i xs h.1)
]

turn-cases :
    (p : Loop)
    → (turn p ≡ p)
      ⊎ ((h : ℕ) × (t : Slots) × (pop p.slots ≡ (h, t))
          × (turn p ≡ record p { slots = t; pending = some h }))
unfolding turn
turn-cases p = elim (Option-cases p.pending) [
  | inl none_left ↦ elim (Bool-cases p.quitting) [
    | inl closing ↦ inl (rw (none_left, closing) refl)
    | inr runs ↦ inr ((pop p.slots).0, (pop p.slots).1, refl, rw (none_left, runs) refl)
  ]
  | inr (h, e) ↦ inl (rw e refl)
]

-- A slot that is popped is none of those in use.
popped-Sound :
    (p : Loop) (used : List ℕ) (h : ℕ) (t : Slots)
    → Sound p used
    → p.slots.size + 8 < 2 ^ 32
    → pop p.slots ≡ (h, t)
    → Sound (record p { slots = t; pending = some h }) used
popped-Sound p used h t s room e =
    let (q, low, fresh) = pop_lowest p.slots t h s.inv room e in
    let apart : (u : ℕ) → InUse p.slots u → h ≢ u = λ u k same. elim fresh [
      | inl (_, free) ↦ false≢true (sym k.1 ∙ (ap (is_free p.slots) (sym same) ∙ free))
      | inr full ↦ omega (arith, k.0)
    ] in
    record {
      inv = q.inv;
      in_use =
          All-map _ _ used (λ u k. (omega (arith, k.0, q.grown), q.others u k.0 (apart u k) ∙ k.1))
            s.in_use;
      distinct = s.distinct;
      waiting = λ n k.
          let same : h ≡ n = cc in
          subst (λ m. InUse t m × All (λ u. u ≢ m) used) same
            ((q.in_range, q.in_use), All-map _ _ used (λ u w e. apart u w (sym e)) s.in_use);
    }

turn-Sound :
    (p : Loop) (used : List ℕ) → Sound p used → p.slots.size + 8 < 2 ^ 32 → Sound (turn p) used
turn-Sound p used s room = elim (turn-cases p) [
  | inl e ↦ subst (λ q. Sound q used) (sym e) s
  | inr (h, t, e, q) ↦ subst (λ q. Sound q used) (sym q) (popped-Sound p used h t s room e)
]

hands-Sound :
    (p : Loop) (used : List ℕ) (h : ℕ)
    → Sound p used
    → p.pending ≡ some h
    → Sound (react handed p) (h ∷ used)
unfolding react
hands-Sound p used h s e =
    let (k, apart) = s.waiting h e in
    record {
      inv = s.inv;
      in_use = (k, s.in_use);
      distinct = (apart, s.distinct);
      waiting = λ n q. cc;
    }

-- A push of a slot leaves the others in use.
push-InUse : (sl : Slots) (i u : ℕ) → Inv sl → InUse sl i → InUse sl u → i ≢ u → InUse (push i sl) u
unfolding push
push-InUse sl i u v h k n = let (_, _, others) = push-Inv sl i v h.0 in (k.0, others u n ∙ k.1)

releases-Sound :
    (p : Loop) (used : List ℕ) (i k : ℕ)
    → Sound p used
    → get_elem? used k ≡ some i
    → Sound (react (released i) p) (remove i used)
unfolding react
releases-Sound p used i k s e =
    let here = All-get (InUse p.slots) used k i s.in_use e in
    let (v, _, _) = push-Inv p.slots i s.inv here.0 in
    record {
      inv = v;
      in_use =
          All-map _ _ (remove i used) (λ u w. push-InUse p.slots i u s.inv here w.0 w.1)
            (All-remove _ i used s.in_use);
      distinct = Distinct-remove i used s.distinct;
      waiting = λ h q.
          let (w, apart) = s.waiting h q in
          (
            push-InUse p.slots i h s.inv here w (All-get (λ u. u ≢ h) used k i apart e),
            All-map _ (λ u. u ≢ h) (remove i used) (λ u r. r.0) (All-remove _ i used apart),
          );
    }

quits_idle : (p : Loop) → p.pending ≡ none → react quits p ≡ record p { quitting = true }
unfolding react
quits_idle p e = rw e refl

quits_waiting :
    (p : Loop) (h : ℕ)
    → p.pending ≡ some h
    → react quits p ≡ record { slots = push h p.slots; pending = none; quitting = true }
unfolding react
quits_waiting p h e = rw e refl

closes-Sound : (p : Loop) (used : List ℕ) → Sound p used → Sound (react quits p) used
closes-Sound p used s = elim (Option-cases p.pending) [
  | inl e ↦
      let t : Sound (record p { quitting = true }) used = record {
        inv = s.inv;
        in_use = s.in_use;
        distinct = s.distinct;
        waiting = s.waiting;
      } in
      subst (λ q. Sound q used) (sym (quits_idle p e)) t
  | inr (h, e) ↦
      let (k, apart) = s.waiting h e in
      let (v, _, _) = push-Inv p.slots h s.inv k.0 in
      let q : Loop = record { slots = push h p.slots; pending = none; quitting = true } in
      let both = All-and _ _ used s.in_use apart in
      let t : Sound q used = record {
        inv = v;
        in_use =
            All-map _ _ used (λ u w. push-InUse p.slots h u s.inv k w.0 (λ r. w.1 (sym r))) both;
        distinct = s.distinct;
        waiting = λ n r. cc;
      } in
      subst (λ q. Sound q used) (sym (quits_waiting p h e)) t
]

Reach-Sound : {p : Loop} {used : List ℕ} → Reach p used → Sound p used
Reach-Sound (starts bits used small in_use distinct) = record {
  inv = load-Inv bits small;
  in_use = in_use;
  distinct = distinct;
  waiting = λ h q. cc;
}
Reach-Sound (turns r room) = turn-Sound _ _ (Reach-Sound r) room
Reach-Sound (hands h r e) = hands-Sound _ _ h (Reach-Sound r) e
Reach-Sound (releases i k r e) = releases-Sound _ _ i k (Reach-Sound r) e
Reach-Sound (closes r e) = closes-Sound _ _ (Reach-Sound r)

-- In every history of the loop, the slots in use are all different, all within the size and all marked
-- as used, and the slot that waits to be handed out is none of them, if only slots in use are released
-- and the size stays below 2 ^ 32.
pub handed_slot_unused :
    {p : Loop} {used : List ℕ}
    → Reach p used
    → Distinct used
      × All (InUse p.slots) used
      × ((h : ℕ) → p.pending ≡ some h → All (λ u. u ≢ h) used)
handed_slot_unused r = let s = Reach-Sound r in (s.distinct, s.in_use, λ h e. (s.waiting h e).1)
