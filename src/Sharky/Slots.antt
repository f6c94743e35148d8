-- ===== src/Sharky/Slots.antt =====
-- pkg/sharky/slots.go: which slots of a shard's file are free. The bits of `data` are a list, the lowest
-- bit of the first byte first, and a bit that is set is a free slot. Sizes and slots are `uint32`.
pub mod Lowest
pub mod Popped
pub mod Process
mod Examples
use aicode.Prelude.{
  Option, none, some, not, ℕ, zero, suc, ◌+◌, ◌-◌, ◌*◌, ◌%◌, ◌^◌, Bool, true, false, List, ◌++◌,
  length, get_or, set, replicate, ltb, ◌==◌, if◌then◌else◌,
}

pub record Slots : Type 0 where
  pub data_bits : List Bool
  pub size : ℕ
  pub head : ℕ

abbrev pub is_free : Slots → ℕ → Bool
is_free sl i = get_or sl.data_bits i false

abbrev pub next_loop : Slots → ℕ → ℕ → ℕ
next_loop sl zero i = sl.size
next_loop sl (suc k) i = let rest = next_loop sl k (suc i) in if is_free sl i then i else rest

-- The lowest free slot from `start` on, or the size.
unfoldable pub next : Slots → ℕ → ℕ
next sl start = next_loop sl (sl.size - start) start

-- The slots as they are read from a file of the bits.
unfoldable pub load : List Bool → Slots
load bits =
    let sl : Slots = record { data_bits = bits; size = length bits % 2 ^ 32; head = 0 } in
    record sl { head = next sl 0 }

-- `n` bytes of free slots are added.
unfoldable pub extend : ℕ → Slots → Slots
extend n sl = record sl {
  data_bits = sl.data_bits ++ replicate (n * 8) true;
  size = (sl.size + n * 8) % 2 ^ 32;
}

-- A slot out of the range of the bits panics in Go, and is not marked here.
unfoldable pub push : ℕ → Slots → Slots
push i sl = record sl {
  head = if ltb i sl.head then i else sl.head;
  data_bits = set sl.data_bits i true;
}

abbrev take_head : Slots → ℕ × Slots
take_head sl =
    let t = record sl { data_bits = set sl.data_bits sl.head false } in
    (sl.head, record t { head = next t ((sl.head + 1) % 2 ^ 32) })

-- The lowest free slot, of a longer file where none is free.
unfoldable pub pop : Slots → ℕ × Slots
pop sl = take_head (if sl.head == sl.size then extend 1 sl else sl)

-- The goroutine of `process`: the slot that waits to be handed out, and whether the shard is closing.
pub record Loop : Type 0 where
  pub slots : Slots
  pub pending : Option ℕ
  pub quitting : Bool

abbrev with_head : Loop → ℕ × Slots → Loop
with_head p (h, t) = record p { slots = t; pending = some h }

-- The start of a turn of the loop.
unfoldable pub turn : Loop → Loop
turn p = elim p.pending [ none ↦ if p.quitting then p else with_head p (pop p.slots) | some h ↦ p ]

pub data Event : Type 0 where
  released : ℕ → Event
  handed quits : Event

abbrev give_back : Option ℕ → Loop → Loop
give_back none p = p
give_back (some h) p = record p { slots = push h p.slots; pending = none }

-- The case of the select that is ready.
unfoldable pub react : Event → Loop → Loop
react (released i) p = record p { slots = push i p.slots }
react handed p = record p { pending = none }
react quits p = record (give_back p.pending p) { quitting = true }
