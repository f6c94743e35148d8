-- ===== src/Pseudosettle.antt =====
-- pkg/settlement/pseudosettle/pseudosettle.go: settlement by time, in which a peer's debt is forgiven at a
-- fixed rate. The state is that of one peer. A time is seconds, or milliseconds where the name says so.
pub mod Received
pub mod Sent
mod Examples
use aicode.Prelude.{ℕ, Bool, true, false, Option, none, some, ◌==◌, if◌then◌else◌}
use aicode.Prelude.Int.{ℤ, pos, ◌+ℤ◌, ◌-ℤ◌, ◌*ℤ◌, ltb_ℤ, leb_ℤ, min_ℤ, max_ℤ, ◌==ℤ◌}
use aicode.Accounting
use aicode.Accounting.{Context, Account}
use aicode.Accounting.Balances.{peer_debt}
use aicode.Accounting.Refreshments.{notify_refreshment_received}
use aicode.Effects.{Result, ok, err, M, ◌>>=◌, ◌>>◌, pure, fail, fail_if, lift, get, modify}

pub data Error : Type 0 where
  store_failure settlement_too_soon no_pseudo_settle_peer read_failure write_failure : Error
  unbooked : Accounting.Error → Error

pub record LastPayment : Type 0 where
  pub timestamp : ℤ
  pub check_timestamp : ℤ
  pub total : ℤ

-- The entry of the peer, which says whether it is a full node, the two stored entries, and its account.
pub record Service : Type 0 where
  pub full_node : Option Bool
  pub received : Option LastPayment
  pub sent : Option LastPayment
  pub account : Account

pub record Rates : Type 0 where
  pub refresh_rate : ℤ
  pub light_refresh_rate : ℤ

-- What a call of the handler finds: the request, the clock, and what fails.
pub record Surroundings : Type 0 where
  pub rates : Rates
  pub context : Context
  pub now : ℤ
  pub request : Result Error ℕ
  pub get_fails : Bool
  pub write_fails : Bool
  pub get_again_fails : Bool
  pub put_fails : Bool

-- A missing entry has total 0 and time 0.
abbrev pub or_new : Option LastPayment → LastPayment
or_new none = record { timestamp = pos 0; check_timestamp = pos 0; total = pos 0 }
or_new (some last) = last

abbrev pub rate_of : Rates → Bool → ℤ
rate_of rates full = if full then rates.refresh_rate else rates.light_refresh_rate

abbrev pub with_account :
    {A : Type 0} → Service → Accounting.Result A × Account → Result Error A × Service
with_account s (Accounting.ok a, b) = (ok a, record s { account = b })
with_account s (Accounting.err e, b) = (err (unbooked e), record s { account = b })

abbrev pub on_account : {A : Type 0} → Context → Accounting.M A → M Service Error A
on_account c m s = with_account s (m c s.account)

abbrev pub known : Option Bool → M Service Error Bool
known none = fail no_pseudo_settle_peer
known (some full) = pure full

-- The time's worth of the rate, or the debt of the peer if that is less.
unfoldable pub peer_allowance : Surroundings → Bool → M Service Error ℤ
peer_allowance c full = do
  fail_if c.get_fails store_failure
  s ← get
  let last = (or_new s.received).timestamp
  fail_if (c.now ==ℤ last) settlement_too_soon
  let most = (c.now -ℤ last) *ℤ rate_of c.rates full
  debt ← on_account c.context peer_debt
  pure (min_ℤ debt most)

-- The part of the attempted amount that is accepted.
abbrev pub payment_amount : ℕ → ℤ → ℤ
payment_amount attempted allowance = max_ℤ (min_ℤ (pos attempted) allowance) (pos 0)

abbrev pub add_received : ℤ → ℤ → Service → Service
add_received now amount s = record s {
  received =
      some (record (or_new s.received) {
        timestamp = now;
        total = (or_new s.received).total +ℤ amount;
      });
}

-- `handler`: a peer asks for a refreshment.
unfoldable pub handle : Surroundings → M Service Error (Unit {0})
unfolding peer_allowance
handle c = do
  attempted ← lift c.request
  s ← get
  full ← known s.full_node
  allowance ← peer_allowance c full
  let amount = payment_amount attempted allowance
  fail_if c.write_fails write_failure
  fail_if c.get_again_fails store_failure
  fail_if c.put_fails store_failure
  modify (add_received c.now amount)
  on_account c.context (notify_refreshment_received amount c.now)

-- `init` and `terminate`, up to their calls of the accounting.
unfoldable pub init : Bool → Service → Service
init full s = record s { full_node = keep s.full_node }
  where
    keep : Option Bool → Option Bool
    keep none = some full
    keep (some known) = some known

unfoldable pub terminate : Service → Service
terminate s = record s { full_node = none }
