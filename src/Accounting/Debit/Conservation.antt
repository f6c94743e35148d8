-- ===== src/Accounting/Debit/Conservation.antt =====
-- What a debit does to the net balance, the stored balance less the stored surplus.
use aicode.Prelude.{Bool-cases, ◌≡◌, ◌⊎◌, inl, inr, false, Option, none, some, arith}
use aicode.Prelude.Int.{ℤ, pos, ◌+ℤ◌, ◌-ℤ◌, ◌≤ℤ◌, ltb_ℤ, leb_ℤ, -ℤ_parts, int_laws}
use aicode.Accounting.{Key, peer_balance_key, peer_surplus_balance_key, Context, Account, ok}
use aicode.Accounting.Balances.{decrease_originated_balance_to}
use aicode.Accounting.Debit.{charge_balance, increase_balance}

abbrev pub get_or_zero : Option ℤ → ℤ
get_or_zero none = pos 0
get_or_zero (some v) = v

abbrev pub net : Account → ℤ
net s = get_or_zero s.stored_balance -ℤ get_or_zero s.stored_surplus

pub decrease_keeps :
    (limit : ℤ) (c : Context) (s : Account)
    → let t = (decrease_originated_balance_to limit c s).1 in
      (t.stored_balance ≡ s.stored_balance)
      × (t.stored_surplus ≡ s.stored_surplus)
      × (t.peer ≡ s.peer)
      × (t.effects ≡ s.effects)
      × (t.wg ≡ s.wg)
unfolding decrease_originated_balance_to
decrease_keeps limit c s = ground arith

charge_balance_lem :
    (cost v : ℤ) (c : Context) (s : Account)
    → (charge_balance cost c s).0 ≡ ok v
    → let t = (charge_balance cost c s).1 in
      (t.stored_balance ≡ some v)
      × (v ≡ get_or_zero s.stored_balance +ℤ cost)
      × (t.stored_surplus ≡ s.stored_surplus)
      × (t.peer ≡ s.peer)
unfolding charge_balance decrease_originated_balance_to
charge_balance_lem cost v c s h = ground arith

-- The price is drawn from the surplus, from both, or from the balance alone.
abbrev Drawn : ℤ → ℤ → Account → Account → Type 0
Drawn price v s t =
    let b = get_or_zero s.stored_balance in
    let a = get_or_zero s.stored_surplus in
    let a' = get_or_zero t.stored_surplus in
    ((a' ≡ a -ℤ price) × (v ≡ b))
    ⊎ ((a' ≡ pos 0) × (v ≡ b +ℤ (price -ℤ a)))
    ⊎ ((a' ≡ a) × (v ≡ b +ℤ price))

increase_balance-Drawn :
    (price v : ℤ) (c : Context) (s : Account)
    → (increase_balance price c s).0 ≡ ok v
    → let t = (increase_balance price c s).1 in
      Drawn price v s t × (t.stored_balance ≡ some v) × (t.peer ≡ s.peer)
unfolding increase_balance
increase_balance-Drawn price v c s h =
    let z : ℤ = pos 0 in
    let t = record s { stored_surplus = some z } in
    ground (
      arith,
      charge_balance_lem price v c s,
      charge_balance_lem (price -ℤ get_or_zero s.stored_surplus) v c t,
    )

net-Drawn :
    (price v : ℤ) (s t : Account)
    → Drawn price v s t
    → t.stored_balance ≡ some v
    → net t ≡ net s +ℤ price
net-Drawn price v s t (inl (p, q)) e = rw (e, p, q) (omega int_laws)
net-Drawn price v s t (inr (inl (p, q))) e = rw (e, p, q) (omega int_laws)
net-Drawn price v s t (inr (inr (p, q))) e = rw (e, p, q) (omega int_laws)

-- Where a debit of a price succeeds, the peer's net balance has grown by exactly that price, and
-- the value returned is the stored balance; the peer's in-memory entry is unchanged.
pub increase_balance-net :
    (price v : ℤ) (c : Context) (s : Account)
    → (increase_balance price c s).0 ≡ ok v
    → let t = (increase_balance price c s).1 in
      (net t ≡ net s +ℤ price) × (t.stored_balance ≡ some v) × (t.peer ≡ s.peer)
increase_balance-net price v c s h =
    let (d, e, p) = increase_balance-Drawn price v c s h in
    (net-Drawn price v s (increase_balance price c s).1 d e, e, p)

-- The store answers every read and write.
pub record Works (c : Context) : Type 0 where
  pub gets : (k : Key) → c.get_fails k ≡ false
  pub puts : (k : Key) → c.put_fails k ≡ false

charge_balance_total :
    (cost : ℤ) (c : Context) (s : Account)
    → Works c
    → (v : ℤ) × ((charge_balance cost c s).0 ≡ ok v)
unfolding charge_balance decrease_originated_balance_to
charge_balance_total cost c s w =
    let g = w.gets peer_balance_key in
    let p = w.puts peer_balance_key in (get_or_zero s.stored_balance +ℤ cost, ground arith)

-- Over a store that works, with a balance stored and a surplus that is not negative, a debit
-- succeeds.
pub increase_balance_total :
    (price b : ℤ) (c : Context) (s : Account)
    → Works c
    → s.stored_balance ≡ some b
    → pos 0 ≤ℤ get_or_zero s.stored_surplus
    → (v : ℤ) × ((increase_balance price c s).0 ≡ ok v)
unfolding increase_balance
increase_balance_total price b c s w e h =
    let rest = price -ℤ get_or_zero s.stored_surplus in
    let z : ℤ = pos 0 in
    let t = record s { stored_surplus = some z } in
    let (v, p) = charge_balance_total price c s w in
    let (v', p') = charge_balance_total rest c t w in
    let g = w.gets peer_balance_key in
    let g' = w.gets peer_surplus_balance_key in
    let q = w.puts peer_surplus_balance_key in
    elim (Bool-cases (ltb_ℤ (pos 0) (get_or_zero s.stored_surplus))) [
      | inl some_surplus ↦
          elim (Bool-cases (leb_ℤ (pos 0) (get_or_zero s.stored_surplus -ℤ price))) [
            | inl covered ↦ (b, ground arith)
            | inr short ↦ (
              v',
              ground (
                arith,
                -ℤ_parts price (get_or_zero s.stored_surplus),
                -ℤ_parts (get_or_zero s.stored_surplus) price,
              ),
            )
          ]
      | inr no_surplus ↦ (v, ground arith)
    ]
