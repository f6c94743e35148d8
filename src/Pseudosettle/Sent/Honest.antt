-- ===== src/Pseudosettle/Sent/Honest.antt =====
-- How a payment ends, and that of two nodes that keep to the protocol the one that pays does not block the other.
use aicode.Prelude.{◌≡◌, ◌⊎◌, ◌∷◌}
use aicode.Prelude.Int.{ℤ, pos, ◌+ℤ◌, ◌-ℤ◌, ◌≤ℤ◌, ◌<ℤ◌, quo_ℤ}
use aicode.Accounting.{Context, allowance_expectation, blocklist_call}
use aicode.Accounting.Debit.Conservation.{get_or_zero}
use aicode.Accounting.Refreshments.{expected_allowance}
use aicode.Accounting.Refreshments.Allowance.{refreshed}
use aicode.Pseudosettle.{Service, or_new}
use aicode.Pseudosettle.Sent.{Exchange, PaymentAck, InSync, add_sent}

-- The least that the peer has to accept of an amount.
abbrev pub least : Context → Exchange → ℤ → PaymentAck → Service → ℤ
least context x amount ack s =
    expected_allowance amount s.account.refresh_reserved_balance
      (ack.timestamp -ℤ (or_new s.sent).timestamp) context.refresh_rate

-- A payment is counted with an answer that is in sync. The refreshment is over, and its amount is added to the
-- balance, unless it is below the least that the peer has to accept, for which the peer is blocked.
pub record Counted (context : Context) (x : Exchange) (amount : ℤ) (s t : Service)
    (ack : PaymentAck) : Type 0 where
  pub in_sync : InSync x amount s ack
  pub stored : t.sent ≡ (add_sent ack.amount ack.timestamp (quo_ℤ x.check_time 1000) s).sent
  pub peer : t.account.peer ≡ (refreshed x.check_time s.account).peer
  pub booked :
      ((pos ack.amount <ℤ least context x amount ack s)
        × (t.account.stored_balance ≡ s.account.stored_balance)
        × ((n : ℤ) × (t.account.effects
              ≡ blocklist_call n allowance_expectation ∷ s.account.effects)))
      ⊎ ((least context x amount ack s ≤ℤ pos ack.amount)
          × (get_or_zero t.account.stored_balance
              ≡ get_or_zero s.account.stored_balance +ℤ pos ack.amount)
          × (t.account.effects ≡ s.account.effects))
