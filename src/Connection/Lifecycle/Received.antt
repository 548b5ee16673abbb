-- ===== src/Connection/Lifecycle/Received.antt =====
-- What a message can do to the connection whose task has received it.
use fitz_py.Prelude.{◌≡◌, ◌⊎◌, false, none}
use fitz_py.Prelude.Bytes.{Bytes}
use fitz_py.Connection.{Connection, disconnected}
use fitz_py.Connection.Inbound.Limits.{IsWithin}
use fitz_py.Connection.Lifecycle
use fitz_py.Connection.Lifecycle.States.{IsUp}

-- `d` is still the open connection `c`, or `c` was up and is lost: without its
-- transport.
abbrev pub IsKeptOrLost : Connection → Connection → Type 0
IsKeptOrLost c d =
    ((d.state ≡ c.state) × (d.transport ≡ c.transport))
    ⊎ (IsUp c.state × (d.state ≡ disconnected) × (d.transport ≡ none))

record IsOpen (c d : Connection) : Type 0 where
  within : IsWithin d
  still_open : d.is_closed ≡ false
  outcome : IsKeptOrLost c d

-- What a message leaves: the limits are within, the connection is as closed as before, and it is
-- kept or lost.
abbrev pub IsContained : Connection → Connection → Type 0
IsContained c d = IsWithin d × (d.is_closed ≡ c.is_closed) × IsKeptOrLost c d
