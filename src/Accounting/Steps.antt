-- ===== src/Accounting/Steps.antt =====
-- The operations on a peer's account as the steps of a history.
pub mod Parts
pub mod Invariant
use aicode.Prelude.{◌≡◌, Bool, true, false, ℕ, List, [], ◌∷◌}
use aicode.Prelude.Int.{ℤ, pos}
use aicode.Accounting.{Config, Context, Account}
use aicode.Accounting.Settle.{settle}
use aicode.Accounting.Credit.{prepare_credit, credit_apply, credit_cleanup}
use aicode.Accounting.Debit.{prepare_debit, debit_apply, debit_cleanup}
use aicode.Accounting.Payments.{
  notify_payment_sent, notify_payment_threshold, notify_payment_received,
}
use aicode.Accounting.Refreshments.{
  RefreshOutcome, notify_refreshment_sent, notify_refreshment_received,
}
use aicode.Accounting.Peers.{connect, disconnect}

pub data Operation : Type 0 where
  connects : Bool → Operation
  disconnects : Operation
  prepares_credit applies_credit gives_up_credit : ℕ → Bool → Operation
  prepares_debit applies_debit gives_up_debit : ℕ → Operation
  sent_payment : ℤ → Bool → Operation
  received_payment : ℕ → Operation
  changed_threshold : ℤ → Operation
  sent_refreshment : ℤ → ℤ → ℤ → ℤ → RefreshOutcome → Operation
  received_refreshment : ℤ → ℤ → Operation

-- The state after an operation, whether it fails or not. The price of an action is a `uint64`.
pub run : Operation → Context → Account → Account
run (connects full) c s = (connect full c s).1
run disconnects c s = (disconnect c s).1
run (prepares_credit price originated) c s = (prepare_credit false price originated c s).1
run (applies_credit n o) c s =
    (credit_apply (record { price = pos n; originated = o; applied = false }) c s).2
run (gives_up_credit n o) c s =
    (credit_cleanup (record { price = pos n; originated = o; applied = false }) c s).1
run (prepares_debit price) c s = (prepare_debit false price c s).1
run (applies_debit price) c s = (debit_apply (record { price = pos price; applied = false }) c s).2
run (gives_up_debit price) c s =
    (debit_cleanup (record { price = pos price; applied = false }) c s).1
run (sent_payment amount failed) c s = (notify_payment_sent amount failed c s).1
run (received_payment amount) c s = (notify_payment_received (pos amount) c s).1
run (changed_threshold threshold) c s = (notify_payment_threshold threshold c s).1
run (sent_refreshment attempted amount time interval outcome) c s =
    (notify_refreshment_sent attempted amount time interval outcome c s).1
run (received_refreshment amount time) c s = (notify_refreshment_received amount time c s).1

-- A settlement reports the end of a payment only while one is under way.
abbrev pub Allowed : Operation → Account → Type 0
Allowed (sent_payment amount failed) s = s.payment_ongoing ≡ true
Allowed _ s = Unit {0}

pub data Reach (f : Config) (s : Account) : Account → Type 0 where
  here : Reach f s s
  next :
      {t : Account}
      → Reach f s t
      → (o : Operation) (c : Context) → c.config ≡ f
      → Allowed o t
      → Reach f s (run o c t)
