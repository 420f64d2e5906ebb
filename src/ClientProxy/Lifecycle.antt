-- ===== src/ClientProxy/Lifecycle.antt =====
-- `ProxyController` of torpc-proxy/torpc-proxy-core/src/lib.rs as one caller sees it, with the task
-- that it spawns.
--
-- The desktop client keeps a mutex around the controller for the whole of a call
-- (torpc-proxy/torpc-proxy-gui/src/main.rs), so that calls do not overlap; the task goes on between
-- them. A task is its configuration and how far it is: what it writes to the status while a call
-- runs is overwritten by the call or stands as if written after it. A task whose handle `start`
-- replaces is detached: it goes on, and writes to the same status.
pub mod States
use torpc.Common.{
  ℕ, zero, suc, String, Bool, true, false, List, [], ◌∷◌, Option, none, some, if◌then◌else◌,
}
use torpc.ClientProxy.Forward.{ProxyConfig}
use torpc.ClientProxy.Controller.{ProxyStatus, stopped, starting, running, error, is_active}

pub data Phase : Type 0 where
  spawned : Phase
  begun : Phase  -- Running is written, and the listener is not bound yet
  serving : Phase
  ended : Phase

pub record Task : Type 0 where
  pub config : ProxyConfig
  pub phase : Phase

pub record ProxyController : Type 0 where
  pub config : ProxyConfig
  pub status : ProxyStatus
  pub handle : Option Task
  pub detached : List Task

unfoldable pub new : ProxyConfig → ProxyController
new config = record { config = config; status = stopped; handle = none; detached = [] }

-- The tasks without a handle, once this handle is replaced.
abbrev pub detach : Option Task → List Task → List Task
detach none tasks = tasks
detach (some task) tasks = task ∷ tasks

unfoldable pub start : ProxyController → ProxyController
start k = if is_active k.status then k else record k {
  status = starting;
  handle = some (record { config = k.config; phase = spawned });
  detached = detach k.handle k.detached;
}

-- The task is aborted and waited for.
unfoldable pub stop : ProxyController → ProxyController
stop k = elim k.handle [ none ↦ k | some task ↦ record k { status = stopped; handle = none } ]

abbrev pub is_running_status : ProxyStatus → Bool
is_running_status running = true
is_running_status _ = false

unfoldable pub is_running : ProxyController → Bool
is_running k = is_running_status k.status

unfoldable pub get_status : ProxyController → ProxyStatus
get_status k = k.status

unfoldable pub get_config : ProxyController → ProxyConfig
get_config k = k.config

unfoldable pub update_config : ProxyConfig → ProxyController → ProxyController
unfolding start stop is_running
update_config new_config k =
    if is_running k
    then start (record (stop k) { config = new_config })
    else record k { config = new_config }

-- What a task does next: it writes Running, or binds its listener, or `run` ends, with an error's
-- text or without, and the task writes that.
pub data Progress : Type 0 where
  begins : Progress
  binds : Progress
  ends : Option String → Progress

abbrev pub ended_status : Option String → ProxyStatus
ended_status none = stopped
ended_status (some e) = error e

-- How far a task is then, and the status.
abbrev pub moves : Progress → Phase → ProxyStatus → Phase × ProxyStatus
moves begins spawned s = (begun, running)
moves binds begun s = (serving, s)
moves (ends e) begun s = (ended, ended_status e)
moves (ends e) serving s = (ended, ended_status e)
moves _ phase s = (phase, s)

abbrev pub go_on : Progress → Task → ProxyController → ProxyController
go_on p task k =
    let (phase, status) = moves p task.phase k.status in
    record k { status = status; handle = some (record task { phase = phase }) }

unfoldable pub proceed : Progress → ProxyController → ProxyController
proceed p k = elim k.handle [ none ↦ k | some task ↦ go_on p task k ]

-- The same for one of the detached tasks.
unfoldable pub detached_moves : ℕ → Progress → List Task → ProxyStatus → List Task × ProxyStatus
detached_moves i p [] s = ([], s)
detached_moves zero p (task ∷ tasks) s =
    let (phase, status) = moves p task.phase s in (record task { phase = phase } ∷ tasks, status)
detached_moves (suc i) p (task ∷ tasks) s =
    let (rest, status) = detached_moves i p tasks s in (task ∷ rest, status)

unfoldable pub proceed_detached : ℕ → Progress → ProxyController → ProxyController
unfolding detached_moves
proceed_detached i p k =
    let (tasks, status) = detached_moves i p k.detached k.status in
    record k { status = status; detached = tasks }

pub data Event : Type 0 where
  starts : Event
  stops : Event
  updates : ProxyConfig → Event
  proceeds : Progress → Event
  proceeds_detached : ℕ → Progress → Event

unfoldable pub step : ProxyController → Event → ProxyController
unfolding start stop update_config proceed proceed_detached
step k starts = start k
step k stops = stop k
step k (updates c) = update_config c k
step k (proceeds p) = proceed p k
step k (proceeds_detached i p) = proceed_detached i p k

unfoldable pub run : ProxyController → List Event → ProxyController
run k [] = k
run k (e ∷ es) = run (step k e) es
