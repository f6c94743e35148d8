-- ===== src/Accounting.antt =====
-- pkg/accounting/accounting.go: the state that accounting keeps for one peer, and the operations'
-- monad. Every operation of the source reads and writes one peer's entry of the peers map and that
-- peer's three keys of the state store, under that peer's lock: it is one atomic step on an
-- `Account`. A `*big.Int` is an integer: each one of the source is copied before it is changed,
-- or is owned by its field. Log lines and metrics are left out.
pub mod Balances
pub mod Settle
pub mod Credit
pub mod Debit
pub mod Blocking
pub mod Payments
pub mod Refreshments
pub mod Peers
pub mod Steps
mod Examples
use aicode.Prelude.{
  ◌≡◌, refl, ◌⊎◌, inl, inr, Bool, true, false, ℕ, Option, none, some, List, [], ◌∷◌, not,
  if◌then◌else◌,
}
use aicode.Prelude.Int.{ℤ, pos}

-- What `NewAccounting` computes once, and whether `SetPayFunc` was called.
pub record Config : Type 0 where
  pub base_payment_threshold : ℤ
  pub payment_tolerance : ℤ
  pub early_payment_percent : ℤ
  pub base_disconnect_limit : ℤ
  pub refresh_rate : ℤ
  pub light_refresh_rate : ℤ
  pub minimum_payment : ℤ
  pub threshold_grow_step : ℤ
  pub threshold_grow_change : ℤ
  pub light_payment_threshold : ℤ
  pub light_disconnect_limit : ℤ
  pub light_threshold_grow_step : ℤ
  pub light_threshold_grow_change : ℤ
  pub has_pay_function : Bool

-- The three keys under which the state store holds a peer's balances.
pub data Key : Type 0 where
  peer_balance_key peer_surplus_balance_key originated_balance_key : Key

-- What an operation finds around it: one reading of the clock, in milliseconds, and the keys whose
-- reading or writing fails in the state store.
pub record Context : Type 0 where
  pub config : Config
  pub open config use *
  pub now : ℤ
  pub get_fails : Key → Bool
  pub put_fails : Key → Bool

pub record AccountingPeer : Type 0 where
  pub reserved_balance : ℤ
  pub shadow_reserved_balance : ℤ
  pub refresh_reserved_balance : ℤ
  pub ghost_balance : ℤ
  pub payment_threshold : ℤ
  pub early_payment : ℤ
  pub payment_threshold_for_peer : ℤ
  pub disconnect_limit : ℤ
  pub refresh_timestamp_milliseconds : ℤ
  pub refresh_received_timestamp : ℤ
  pub payment_ongoing : Bool
  pub refresh_ongoing : Bool
  pub last_settlement_failure_timestamp : ℤ
  pub connected : Bool
  pub full_node : Bool
  pub total_debt_repay : ℤ
  pub threshold_grow_at : ℤ

pub data Reason : Type 0 where
  allowance_expectation failed_to_refresh ghost_overdraw accounting_disconnect : Reason

-- The calls that accounting makes of other parts: the settlement functions, which it starts as
-- goroutines, the p2p service with a time in seconds, and the pricing protocol.
pub data Effect : Type 0 where
  refresh_call pay_call announce : ℤ → Effect
  blocklist_call : ℤ → Reason → Effect

-- The in-memory entry of a peer, its stored balances, the calls made so far (newest first), and
-- the count of the wait group that `Close` waits on.
pub record Account : Type 0 where
  pub peer : AccountingPeer
  pub open peer use *
  pub stored_balance : Option ℤ
  pub stored_surplus : Option ℤ
  pub stored_originated : Option ℤ
  pub effects : List Effect
  pub wg : ℤ

pub data Error : Type 0 where
  store_failure peer_no_balance invalid_value fail_to_lock not_connected overdraft : Error
  sanity_check : Error
  block_peer : ℤ → Error

pub data Result (A : Type 0) : Type 0 where
  ok : A → Result A
  err : Error → Result A

pub Result-cases :
    {A : Type 0} (r : Result A) → ((a : A) × (r ≡ ok a)) ⊎ ((e : Error) × (r ≡ err e))
Result-cases (ok a) = inl (a, refl)
Result-cases (err e) = inr (e, refl)

-- A step keeps the changes that it made before it returned an error, as Go code does.
abbrev pub M : Type 0 → Type 0
M A = Context → Account → Result A × Account

abbrev pub pure : {A : Type 0} → A → M A
pure a c s = (ok a, s)

abbrev pub fail : {A : Type 0} → Error → M A
fail e c s = (err e, s)

abbrev pub continue_with :
    {A B : Type 0} → Result A → Context → Account → (A → M B) → Result B × Account
continue_with (ok a) c s f = f a c s
continue_with (err e) c s f = (err e, s)

infixl 5 ◌>>=◌ ◌>>◌
abbrev pub ◌>>=◌ : {A B : Type 0} → M A → (A → M B) → M B
◌>>=◌ m f c s = continue_with (m c s).0 c (m c s).1 f

abbrev pub ◌>>◌ : {A B : Type 0} → M A → M B → M B
m >> k = m >>= λ _. k

abbrev pub choose : {A : Type 0} → Bool → M A → M A → M A
choose true m k = m
choose false m k = k

abbrev pub guard : Bool → Error → M (Unit {0})
guard true e = pure tt
guard false e = fail e

abbrev pub ask : M Context
ask c s = (ok c, s)

abbrev pub get : M Account
get c s = (ok s, s)

abbrev pub put : Account → M (Unit {0})
put t c s = (ok tt, t)

abbrev pub modify_peer : (AccountingPeer → AccountingPeer) → M (Unit {0})
modify_peer f c s = (ok tt, record s { peer = f s.peer })

abbrev pub emit : Effect → M (Unit {0})
emit e c s = (ok tt, record s { effects = e ∷ s.effects })

-- `if err != nil { log }`: an error is logged, and the operation goes on.
abbrev pub ignore_error : {A : Type 0} → M A → M (Unit {0})
ignore_error m c s = (ok tt, (m c s).1)

-- `if err != nil && !errors.Is(err, ErrPeerNoBalance)`: a missing balance counts as `zero`, the
-- value that is returned beside that error.
abbrev pub or_zero_result : Result ℤ → Result ℤ
or_zero_result (err peer_no_balance) = ok (pos 0)
or_zero_result r = r

abbrev pub or_zero : M ℤ → M ℤ
or_zero m c s = (or_zero_result (m c s).0, (m c s).1)
