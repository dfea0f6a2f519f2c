-- ===== src/Transport.antt =====
-- web/lib/transport.ts: the store of the transport bar.
-- A meter is in a fixed unit; `lufs` is the loudness below 0, and `none` where that is -Infinity. A
-- listener is a number, and `delivered` records the calls of listeners, the latest last.
use clawhum.Prelude.{ℕ, Option, List, ◌++◌, map, ◌≡◌, refl}

pub data TransportState : Type 0 where
  stop play pause rec : TransportState

pub record Meters : Type 0 where
  pub peak : ℕ
  pub rms : ℕ
  pub lufs : Option ℕ

-- What a listener is given.
pub record Snapshot : Type 0 where
  pub state : TransportState
  pub meters : Meters

pub record Transport : Type 0 where
  pub store : Snapshot
  pub listeners : List ℕ
  pub delivered : List (ℕ × Snapshot)

-- `emit`: every listener is called with a copy of the store.
unfoldable pub emit : Transport → Transport
emit t = record t { delivered = t.delivered ++ map (λ l. (l, t.store)) t.listeners }

unfoldable pub set_transport : Transport → TransportState → Transport
unfolding emit
set_transport t s = emit (record t { store = record t.store { state = s } })

unfoldable pub set_meters : Transport → Meters → Transport
unfolding emit
set_meters t m = emit (record t { store = record t.store { meters = m } })

-- The state and the meters are set independently: the store is the same in either order.
set_meters-set_transport :
    (t : Transport) (s : TransportState) (m : Meters)
    → (set_meters (set_transport t s) m).store ≡ (set_transport (set_meters t m) s).store
unfolding set_transport set_meters
set_meters-set_transport t s m = refl
