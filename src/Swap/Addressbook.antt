-- ===== src/Swap/Addressbook.antt =====
-- pkg/settlement/swap/addressbook.go: the beneficiaries and chequebooks of the peers, each with its reverse,
-- and the deductions. The state store's keys of each prefix are a function.
pub mod Migration
use aicode.Prelude.{ℕ, Bool, true, false, not, ◌==◌, Option, none, some, if◌then◌else◌}
use aicode.Effects.{Result, ok, err, M, ◌>>=◌, ◌>>◌, pure, fail, fail_if, get, modify}

pub data Key : Type 0 where
  peer_beneficiary beneficiary_peer peer_chequebook chequebook_peer deducted_for deducted_by :
      ℕ → Key

-- Which accesses to the state store fail.
pub record Faults : Type 0 where
  pub get_fails : Key → Bool
  pub put_fails : Key → Bool
  pub delete_fails : Key → Bool

pub record Book : Type 0 where
  pub beneficiary_of : ℕ → Option ℕ
  pub peer_of_beneficiary : ℕ → Option ℕ
  pub chequebook_of : ℕ → Option ℕ
  pub peer_of_chequebook : ℕ → Option ℕ
  pub is_deducted_for : ℕ → Bool
  pub is_deducted_by : ℕ → Bool

pub data Error : Type 0 where
  store_failure old_beneficiary_unknown : Error

abbrev pub set_key : {A : Type 0} → ℕ → A → (ℕ → A) → ℕ → A
set_key k a f i = if k == i then a else f i

abbrev reading : {A : Type 0} → Faults → Key → (Book → A) → M Book Error A
reading c k f = fail_if (c.get_fails k) store_failure >> (get >>= λ b. pure (f b))

abbrev writing : Faults → Key → (Book → Book) → M Book Error (Unit {0})
writing c k f = fail_if (c.put_fails k) store_failure >> modify f

abbrev deleting : Faults → Key → (Book → Book) → M Book Error (Unit {0})
deleting c k f = fail_if (c.delete_fails k) store_failure >> modify f

unfoldable pub beneficiary : Faults → ℕ → M Book Error (Option ℕ)
beneficiary c p = reading c (peer_beneficiary p) (λ b. b.beneficiary_of p)

unfoldable pub beneficiary_peer_of : Faults → ℕ → M Book Error (Option ℕ)
beneficiary_peer_of c a = reading c (beneficiary_peer a) (λ b. b.peer_of_beneficiary a)

unfoldable pub chequebook : Faults → ℕ → M Book Error (Option ℕ)
chequebook c p = reading c (peer_chequebook p) (λ b. b.chequebook_of p)

unfoldable pub chequebook_peer_of : Faults → ℕ → M Book Error (Option ℕ)
chequebook_peer_of c a = reading c (chequebook_peer a) (λ b. b.peer_of_chequebook a)

unfoldable pub put_beneficiary : Faults → ℕ → ℕ → M Book Error (Unit {0})
put_beneficiary c p a = do
  writing c (peer_beneficiary p)
      (λ b. record b { beneficiary_of = set_key p (some a) b.beneficiary_of })
  writing c (beneficiary_peer a)
      (λ b. record b { peer_of_beneficiary = set_key a (some p) b.peer_of_beneficiary })

unfoldable pub put_chequebook : Faults → ℕ → ℕ → M Book Error (Unit {0})
put_chequebook c p a = do
  writing c (peer_chequebook p)
      (λ b. record b { chequebook_of = set_key p (some a) b.chequebook_of })
  writing c (chequebook_peer a)
      (λ b. record b { peer_of_chequebook = set_key a (some p) b.peer_of_chequebook })

unfoldable pub add_deduction_for : Faults → ℕ → M Book Error (Unit {0})
add_deduction_for c p =
    writing c (deducted_for p)
      (λ b. record b { is_deducted_for = set_key p true b.is_deducted_for })

unfoldable pub add_deduction_by : Faults → ℕ → M Book Error (Unit {0})
add_deduction_by c p =
    writing c (deducted_by p) (λ b. record b { is_deducted_by = set_key p true b.is_deducted_by })

unfoldable pub get_deduction_for : Faults → ℕ → M Book Error Bool
get_deduction_for c p = reading c (deducted_for p) (λ b. b.is_deducted_for p)

unfoldable pub get_deduction_by : Faults → ℕ → M Book Error Bool
get_deduction_by c p = reading c (deducted_by p) (λ b. b.is_deducted_by p)

-- The last part of `MigratePeer`, for a peer that has a chequebook.
abbrev move_chequebook : Faults → ℕ → ℕ → Option ℕ → M Book Error (Unit {0})
move_chequebook c old new none = pure tt
move_chequebook c old new (some a) = do
  put_chequebook c new a
  deleting c (peer_chequebook old)
      (λ b. record b { chequebook_of = set_key old none b.chequebook_of })

abbrev migrate_from : Faults → ℕ → ℕ → Option ℕ → M Book Error (Unit {0})
migrate_from c old new none = fail old_beneficiary_unknown
migrate_from c old new (some a) = do
  cheque_book ← chequebook c old
  put_beneficiary c new a
  deleting c (peer_beneficiary old)
      (λ b. record b { beneficiary_of = set_key old none b.beneficiary_of })
  move_chequebook c old new cheque_book

unfoldable pub migrate_peer : Faults → ℕ → ℕ → M Book Error (Unit {0})
unfolding beneficiary chequebook put_beneficiary put_chequebook
migrate_peer c old new = beneficiary c old >>= migrate_from c old new

-- `Handshake` of swap.go, once the peer has said which beneficiary it has.
abbrev first_handshake : Faults → ℕ → ℕ → Option ℕ → M Book Error (Unit {0})
first_handshake c p a none = put_beneficiary c p a
first_handshake c p a (some known) = pure tt

abbrev keep_or_put : Faults → ℕ → ℕ → M Book Error (Unit {0})
keep_or_put c p a = beneficiary c p >>= first_handshake c p a

abbrev handshake_with : Faults → ℕ → ℕ → Option ℕ → M Book Error (Unit {0})
handshake_with c p a none = keep_or_put c p a
handshake_with c p a (some old) = if p == old then keep_or_put c p a else migrate_peer c old p

unfoldable pub handshake : Faults → ℕ → ℕ → M Book Error (Unit {0})
unfolding beneficiary beneficiary_peer_of put_beneficiary migrate_peer
handshake c p a = beneficiary_peer_of c a >>= handshake_with c p a
