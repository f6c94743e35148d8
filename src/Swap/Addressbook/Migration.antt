-- ===== src/Swap/Addressbook/Migration.antt =====
-- Whose beneficiary is whose.
use aicode.Prelude.{
  ℕ, ◌≡◌, ◌≢◌, ◌⊎◌, refl, sym, ap, ◌∙◌, inl, inr, false, Bool-cases, Option, none, some,
  Option-cases, ◌==◌, arith,
}
use aicode.Effects.{ok}
use aicode.Swap.Addressbook.{
  Key, peer_beneficiary, beneficiary_peer, peer_chequebook, chequebook_peer, Faults, Book, set_key,
  migrate_peer, handshake,
}

pub record Works (c : Faults) : Type 0 where
  pub gets : (k : Key) → c.get_fails k ≡ false
  pub puts : (k : Key) → c.put_fails k ≡ false
  pub deletes : (k : Key) → c.delete_fails k ≡ false

-- Each peer that has a beneficiary has its owner's, and the two maps are each other's reverse.
pub record Inv (owner : ℕ → ℕ) (b : Book) : Type 0 where
  pub forward :
      (p a : ℕ) → b.beneficiary_of p ≡ some a → (a ≡ owner p) × (b.peer_of_beneficiary a ≡ some p)
  pub backward : (a p : ℕ) → b.peer_of_beneficiary a ≡ some p → b.beneficiary_of p ≡ some a

-- The book after a peer without a beneficiary is given one that no peer has.
abbrev assigned : ℕ → ℕ → Book → Book
assigned p a b = record b {
  beneficiary_of = set_key p (some a) b.beneficiary_of;
  peer_of_beneficiary = set_key a (some p) b.peer_of_beneficiary;
}

assigned-Inv :
    (owner : ℕ → ℕ) (b : Book) (p : ℕ)
    → b.peer_of_beneficiary (owner p) ≡ none
    → b.beneficiary_of p ≡ none
    → Inv owner b
    → Inv owner (assigned p (owner p) b)
assigned-Inv owner b p new free v = record {
  forward = λ q x e. ground (arith, v.forward q x);
  backward = λ x q e. ground (arith, v.backward x q);
}

-- The book after a beneficiary has moved from one peer to another.
abbrev moved : ℕ → ℕ → ℕ → Book → Book
moved old p a b = record b {
  beneficiary_of = set_key old none (set_key p (some a) b.beneficiary_of);
  peer_of_beneficiary = set_key a (some p) b.peer_of_beneficiary;
}

moved-Inv :
    (owner : ℕ → ℕ) (b : Book) (old p : ℕ)
    → old ≢ p
    → b.beneficiary_of old ≡ some (owner p)
    → Inv owner b
    → Inv owner (moved old p (owner p) b)
moved-Inv owner b old p other e v = record {
  forward = λ q x r. ground (arith, v.forward q x, v.forward old (owner p) e);
  backward = λ x q r. elim (Bool-cases (owner p == x)) [
    | inl own ↦ ground arith
    | inr apart ↦ ground (arith, v.backward x q, v.forward p x)
  ];
}

-- What a handshake leaves: the peer has the beneficiary, and the peers of other owners keep theirs.
pub record Settled (owner : ℕ → ℕ) (p : ℕ) (b t : Book) : Type 0 where
  pub inv : Inv owner t
  pub known : t.beneficiary_of p ≡ some (owner p)
  pub others : (q : ℕ) → owner q ≢ owner p → t.beneficiary_of q ≡ b.beneficiary_of q

assigned-Settled :
    (owner : ℕ → ℕ) (b : Book) (p : ℕ)
    → b.peer_of_beneficiary (owner p) ≡ none
    → b.beneficiary_of p ≡ none
    → Inv owner b
    → Settled owner p b (assigned p (owner p) b)
assigned-Settled owner b p new free v = record {
  inv = assigned-Inv owner b p new free v;
  known = ground arith;
  others = λ q n. elim (Bool-cases (p == q)) [
    | inl same ↦ let e : p ≡ q = ground arith in absurd (n (ap owner (sym e)))
    | inr apart ↦ ground arith
  ];
}

moved-Settled :
    (owner : ℕ → ℕ) (b : Book) (old p : ℕ)
    → old ≢ p
    → b.beneficiary_of old ≡ some (owner p)
    → Inv owner b
    → Settled owner p b (moved old p (owner p) b)
moved-Settled owner b old p other e v = record {
  inv = moved-Inv owner b old p other e v;
  known = ground arith;
  others = λ q n. elim (Bool-cases (p == q)) [
    | inl same ↦ let e : p ≡ q = ground arith in absurd (n (ap owner (sym e)))
    | inr apart ↦ elim (Bool-cases (old == q)) [
      | inl same ↦
          let own : owner p ≡ owner old = (v.forward old (owner p) e).0 in
          let q_old : old ≡ q = ground arith in absurd (n (sym (own ∙ ap owner q_old)))
      | inr further ↦ ground arith
    ]
  ];
}

-- The chequebooks do not matter.
Settled-same :
    (owner : ℕ → ℕ) (p : ℕ) (b t u : Book)
    → u.beneficiary_of ≡ t.beneficiary_of
    → u.peer_of_beneficiary ≡ t.peer_of_beneficiary
    → Settled owner p b t
    → Settled owner p b u
Settled-same owner p b t u e r h = record {
  inv = record {
    forward = λ q a k.
        let (x, y) = h.inv.forward q a (sym (ap (λ (f : ℕ → Option ℕ). f q) e) ∙ k) in
        (x, ap (λ (f : ℕ → Option ℕ). f a) r ∙ y);
    backward = λ a q k.
        ap (λ (f : ℕ → Option ℕ). f q) e
        ∙ h.inv.backward a q (sym (ap (λ (f : ℕ → Option ℕ). f a) r) ∙ k);
  };
  known = ap (λ (f : ℕ → Option ℕ). f p) e ∙ h.known;
  others = λ q n. ap (λ (f : ℕ → Option ℕ). f q) e ∙ h.others q n;
}

-- What a handshake does to the chequebooks: those of a peer from which the beneficiary moves come along, and all
-- else stays.
abbrev pub Chequebooks : ℕ → ℕ → Book → Book → Type 0
Chequebooks a p b t =
    (((old : ℕ) → old ≢ p → b.peer_of_beneficiary a ≡ some old → b.chequebook_of old ≡ none)
      × (t.chequebook_of ≡ b.chequebook_of)
      × (t.peer_of_chequebook ≡ b.peer_of_chequebook))
    ⊎ ((old : ℕ) × (x : ℕ) × (old ≢ p)
        × (b.peer_of_beneficiary a ≡ some old)
        × (b.chequebook_of old ≡ some x)
        × (t.chequebook_of ≡ set_key old none (set_key p (some x) b.chequebook_of))
        × (t.peer_of_chequebook ≡ set_key x (some p) b.peer_of_chequebook))

-- The deductions are kept.
abbrev pub Deductions : Book → Book → Type 0
Deductions b t = (t.is_deducted_for ≡ b.is_deducted_for) × (t.is_deducted_by ≡ b.is_deducted_by)

-- A migration over a store that works moves the beneficiary.
migrate_peer-moved :
    (c : Faults) (old p a : ℕ) (b : Book)
    → Works c
    → old ≢ p
    → b.beneficiary_of old ≡ some a
    → b.peer_of_beneficiary a ≡ some old
    → (t : Book) × (migrate_peer c old p b ≡ (ok tt, t))
      × (t.beneficiary_of ≡ (moved old p a b).beneficiary_of)
      × (t.peer_of_beneficiary ≡ (moved old p a b).peer_of_beneficiary)
      × Chequebooks a p b t
      × Deductions b t
unfolding migrate_peer
migrate_peer-moved c old p a b w other e found = elim (Option-cases (b.chequebook_of old)) [
  | inl r ↦ (
    moved old p a b,
    rw
        (
          w.gets (peer_beneficiary old),
          e,
          w.gets (peer_chequebook old),
          r,
          w.puts (peer_beneficiary p),
          w.puts (beneficiary_peer a),
          w.deletes (peer_beneficiary old),
        )
        refl,
    refl,
    refl,
    inl (λ q n k. let same : old ≡ q = cc in ap b.chequebook_of (sym same) ∙ r, refl, refl),
    (refl, refl),
  )
  | inr (x, r) ↦ (
    record (moved old p a b) {
      chequebook_of = set_key old none (set_key p (some x) b.chequebook_of);
      peer_of_chequebook = set_key x (some p) b.peer_of_chequebook;
    },
    rw
        (
          w.gets (peer_beneficiary old),
          e,
          w.gets (peer_chequebook old),
          r,
          w.puts (peer_beneficiary p),
          w.puts (beneficiary_peer a),
          w.deletes (peer_beneficiary old),
          w.puts (peer_chequebook p),
          w.puts (chequebook_peer x),
          w.deletes (peer_chequebook old),
        )
        refl,
    refl,
    refl,
    inr (old, x, other, found, r, refl, refl),
    (refl, refl),
  )
]

-- A handshake of a beneficiary that a peer has.
handshake_found :
    (owner : ℕ → ℕ) (c : Faults) (p old : ℕ) (b : Book)
    → Works c
    → Inv owner b
    → b.peer_of_beneficiary (owner p) ≡ some old
    → (t : Book) × (handshake c p (owner p) b ≡ (ok tt, t))
      × Settled owner p b t
      × Chequebooks (owner p) p b t
      × Deductions b t
unfolding handshake
handshake_found owner c p old b w v found =
    let a = owner p in
    let has = v.backward a old found in
    elim (Bool-cases (p == old)) [
      | inl same ↦
          let e : old ≡ p = ground arith in
          let known : b.beneficiary_of p ≡ some a = ap b.beneficiary_of (sym e) ∙ has in
          (
            b,
            rw (w.gets (beneficiary_peer a), found, same, w.gets (peer_beneficiary p), known) refl,
            record { inv = v; known = known; others = λ q n. refl },
            inl (
              λ q n k. let moved_from : old ≡ q = cc in absurd (n (sym moved_from ∙ e)),
              refl,
              refl,
            ),
            (refl, refl),
          )
      | inr other ↦
          let n : old ≢ p = ground arith in
          let (t, run, e, r, books, kept) = migrate_peer-moved c old p a b w n has found in
          (
            t,
            rw (w.gets (beneficiary_peer a), found, other) run,
            Settled-same owner p b (moved old p a b) t e r (moved-Settled owner b old p n has v),
            books,
            kept,
          )
    ]

-- A handshake of a peer that says its owner's beneficiary, over a store that works, succeeds; then the peer
-- has that beneficiary and no other peer has it, the peers of other owners keep theirs, and the two maps are
-- each other's reverse again. An owner may have had another peer before, from which the beneficiary moves; a
-- chequebook of that peer moves with it, all other chequebooks, and the deductions, stay as they were.
pub handshake-Settled :
    (owner : ℕ → ℕ) (c : Faults) (p : ℕ) (b : Book)
    → Works c
    → Inv owner b
    → (t : Book) × (handshake c p (owner p) b ≡ (ok tt, t))
      × Settled owner p b t
      × Chequebooks (owner p) p b t
      × Deductions b t
unfolding handshake
handshake-Settled owner c p b w v =
    let a = owner p in
    elim (Option-cases (b.peer_of_beneficiary a)) [
      | inl new ↦ elim (Option-cases (b.beneficiary_of p)) [
        | inl free ↦ (
          assigned p a b,
          rw
              (
                w.gets (beneficiary_peer a),
                new,
                w.gets (peer_beneficiary p),
                free,
                w.puts (peer_beneficiary p),
                w.puts (beneficiary_peer a),
              )
              refl,
          assigned-Settled owner b p new free v,
          inl (λ q n k. absurd cc, refl, refl),
          (refl, refl),
        )
        | inr (x, e) ↦
            let (own, back) = v.forward p x e in
            let clash : b.peer_of_beneficiary a ≡ some p =
              ap b.peer_of_beneficiary (sym own) ∙ back in
            absurd cc
      ]
      | inr (old, found) ↦ handshake_found owner c p old b w v found
    ]
