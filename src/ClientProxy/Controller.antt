-- ===== src/ClientProxy/Controller.antt =====
-- `ProxyController` of torpc-proxy/torpc-proxy-core/src/lib.rs: `start` and `stop` as they take and
-- give back their two locks, for two calls at once.
--
-- A call's place says which locks it holds: the status lock at `asks_handle` and `holds_both`, the
-- handle lock at `holds_both`, `spawns` and `asks_again`. The task that `start` spawns is seen in
-- `report`, which writes the status when no call holds its lock.
pub mod Locks
pub mod Turns
use torpc.Common.{String, Bool, true, false, ◌||◌, List, [], ◌∷◌, Option, none, some, if◌then◌else◌}

pub data ProxyStatus : Type 0 where
  stopped : ProxyStatus
  starting : ProxyStatus
  running : ProxyStatus
  stopping : ProxyStatus
  error : String → ProxyStatus

pub data Call : Type 0 where
  start : Call
  stop : Call

pub data Place : Type 0 where
  asks_status : Call → Place
  asks_handle : Call → Place
  holds_both : Call → Place
  spawns : Place  -- in `start`, with the handle lock
  asks_again : Place  -- in `stop`, with the handle lock and for the status lock
  finished : Place

-- `handle` says whether there is a handle of a task.
pub record Controller : Type 0 where
  pub status : ProxyStatus
  pub handle : Bool
  pub first : Place
  pub second : Place

unfoldable pub holds_status : Place → Bool
holds_status (asks_handle c) = true
holds_status (holds_both c) = true
holds_status _ = false

unfoldable pub holds_handle : Place → Bool
holds_handle (holds_both c) = true
holds_handle spawns = true
holds_handle asks_again = true
holds_handle _ = false

abbrev pub is_active : ProxyStatus → Bool
is_active running = true
is_active starting = true
is_active _ = false

-- The next step of a call at its place, beside another call: none where it waits for a lock.
unfoldable pub advance : Place → Place → ProxyStatus → Bool → Option (Place × ProxyStatus × Bool)
unfolding holds_status holds_handle
advance (asks_status c) other s h = if holds_status other then none else some (asks_handle c, s, h)
advance (asks_handle c) other s h = if holds_handle other then none else some (holds_both c, s, h)
advance (holds_both start) other s h =
    if is_active s then some (finished, s, h) else some (spawns, starting, h)
advance (holds_both stop) other s h =
    if h then some (asks_again, stopping, false) else some (finished, s, h)
advance spawns other s h = some (finished, s, true)
advance asks_again other s h = if holds_status other then none else some (finished, stopped, h)
advance finished other s h = none

-- Whose turn it is.
pub data Turn : Type 0 where
  first_call : Turn
  second_call : Turn
  report : ProxyStatus → Turn

unfoldable pub take : Turn → Controller → Option Controller
unfolding advance
take first_call k = elim (advance k.first k.second k.status k.handle) [
  | none ↦ none
  | some (p, s, h) ↦ some (record { status = s; handle = h; first = p; second = k.second })
]
take second_call k = elim (advance k.second k.first k.status k.handle) [
  | none ↦ none
  | some (p, s, h) ↦ some (record { status = s; handle = h; first = k.first; second = p })
]
take (report s) k =
    if holds_status k.first || holds_status k.second then none else some (record k { status = s })

unfoldable pub run : List Turn → Controller → Option Controller
run [] k = some k
run (t ∷ ts) k = elim (take t k) [ none ↦ none | some next ↦ run ts next ]

-- Two calls that are made at the same time.
abbrev pub begin : Call → Call → ProxyStatus → Bool → Controller
begin c d s h = record { status = s; handle = h; first = asks_status c; second = asks_status d }
