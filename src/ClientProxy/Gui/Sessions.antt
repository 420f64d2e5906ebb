-- ===== src/ClientProxy/Gui/Sessions.antt =====
-- Sessions of the desktop client: the commands of its window, the entries of its tray, and the task
-- that goes on between them.
use torpc.Common.{
  Option-cases, sym, ◌∙◌, ◌≡◌, refl, inl, inr, arith, Bool, true, false, not, ◌&&◌, ◌||◌, List, [],
  ◌∷◌, Option, none, some, Bool-cases, is_empty_text, trim, if◌then◌else◌,
}
use torpc.ClientProxy.Forward.{ProxyConfig}
use torpc.ClientProxy.Controller.{
  ProxyStatus, stopped, starting, running, stopping, error, is_active,
}
use torpc.ClientProxy.Lifecycle
use torpc.ClientProxy.Lifecycle.{
  Phase, spawned, begun, serving, ended, Task, ProxyController, Progress, begins, ends, go_on,
  proceed, is_running, get_config, is_running_status, start, stop,
}
use torpc.ClientProxy.Lifecycle.States.{IsCoherent, Agrees, step-IsCoherent}
use torpc.ClientProxy.Gui.{MenuEvent, start_proxy, stop_proxy, update_config, on_menu_event}

pub data Action : Type 0 where
  starts : Action
  stops : Action
  updates : ProxyConfig → Action
  menu : MenuEvent → Action
  proceeds : Progress → Action

unfoldable pub act : Action → ProxyController → ProxyController
unfolding start_proxy stop_proxy update_config on_menu_event
act starts k = (start_proxy k).1
act stops k = (stop_proxy k).1
act (updates c) k = (update_config c k).1
act (menu e) k = (on_menu_event e k).0
act (proceeds p) k = proceed p k

abbrev pub is_blank : ProxyConfig → Bool
is_blank c = is_empty_text (trim c.onion_endpoint)

-- The controller keeps a task that was given no endpoint.
abbrev pub lacks_endpoint : ProxyController → Bool
lacks_endpoint k = elim k.handle [ none ↦ false | some task ↦ is_blank task.config ]

-- The two ways around the check of the window's start: the tray's Start Proxy while no task is
-- active, and a new configuration while one runs.
abbrev pub goes_around : Action → ProxyController → Bool
goes_around (menu MenuEvent.start) k = not (is_active k.status) && is_blank k.config
goes_around (updates c) k = is_running_status k.status && is_blank c
goes_around _ k = false

-- Whether some state of a session has a task without an endpoint.
unfoldable pub ever_lacks : ProxyController → List Action → Bool
ever_lacks k [] = false
ever_lacks k (a ∷ more) = let rest = ever_lacks (act a k) more in lacks_endpoint (act a k) || rest

unfoldable pub ever_around : ProxyController → List Action → Bool
ever_around k [] = false
ever_around k (a ∷ more) = let rest = ever_around (act a k) more in goes_around a k || rest

act-IsCoherent : (a : Action) (k : ProxyController) → IsCoherent k → IsCoherent (act a k)
unfolding act start_proxy stop_proxy update_config on_menu_event Lifecycle.step
act-IsCoherent starts k h = elim (Bool-cases (is_blank (get_config k))) [
  | inl blank ↦ rw (act, start_proxy, blank) h
  | inr given ↦ rw (act, start_proxy, given) (step-IsCoherent k Lifecycle.starts h)
]
act-IsCoherent stops k h = step-IsCoherent k Lifecycle.stops h
act-IsCoherent (updates c) k h = step-IsCoherent k (Lifecycle.updates c) h
act-IsCoherent (menu MenuEvent.start) k h = step-IsCoherent k Lifecycle.starts h
act-IsCoherent (menu MenuEvent.stop) k h = step-IsCoherent k Lifecycle.stops h
act-IsCoherent (menu MenuEvent.settings) k h = h
act-IsCoherent (menu MenuEvent.quit) k h = step-IsCoherent k Lifecycle.stops h
act-IsCoherent (proceeds p) k h = step-IsCoherent k (Lifecycle.proceeds p) h

start-lacks :
    (k : ProxyController)
    → lacks_endpoint (start k)
      ≡ (if is_active k.status then lacks_endpoint k else is_blank k.config)
unfolding start
start-lacks k = ground arith

stop-lacks : (k : ProxyController) → lacks_endpoint k ≡ false → lacks_endpoint (stop k) ≡ false
unfolding stop
stop-lacks k fits = elim (Option-cases k.handle) [
  | inl idle ↦ ground (arith, idle, fits)
  | inr (t, busy) ↦ ground (arith, busy)
]

running_task :
    (s : ProxyStatus) (h : Option Task)
    → Agrees s h
    → is_running_status s ≡ true
    → (t : Task) × (h ≡ some t)
running_task stopped h a r = cc
running_task starting h a r = cc
running_task running h (c, inl e) r = (record { config = c; phase = begun }, e)
running_task running h (c, inr e) r = (record { config = c; phase = serving }, e)
running_task stopping h a r = absurd a
running_task (error e) h a r = cc

restart-lacks :
    (c : ProxyConfig) (k : ProxyController) (t : Task)
    → k.handle ≡ some t
    → lacks_endpoint (start (record (stop k) { config = c })) ≡ is_blank c
unfolding start stop
restart-lacks c k t busy = ground (arith, busy)

update_config-lacks :
    (c : ProxyConfig) (k : ProxyController)
    → IsCoherent k
    → lacks_endpoint k ≡ false
    → lacks_endpoint (Lifecycle.update_config c k) ≡ (is_running_status k.status && is_blank c)
unfolding Lifecycle.update_config is_running
update_config-lacks c k h fits = elim (Bool-cases (is_running_status k.status)) [
  | inl runs ↦
      let (t, busy) = running_task k.status k.handle h.0 runs in
      rw (Lifecycle.update_config, runs) (restart-lacks c k t busy)
  | inr idle ↦ rw (Lifecycle.update_config, idle) fits
]

proceed-lacks :
    (p : Progress) (k : ProxyController)
    → lacks_endpoint k ≡ false
    → lacks_endpoint (proceed p k) ≡ false
unfolding proceed
proceed-lacks p k fits = elim (Option-cases k.handle) [
  | inl idle ↦ ground (arith, idle, fits)
  | inr (t, busy) ↦
      let own : lacks_endpoint k ≡ is_blank t.config = ground (arith, busy) in
      rw (proceed, busy) (sym own ∙ fits)
]

act-lacks :
    (a : Action) (k : ProxyController)
    → IsCoherent k
    → lacks_endpoint k ≡ false
    → lacks_endpoint (act a k) ≡ goes_around a k
unfolding act start_proxy stop_proxy update_config on_menu_event get_config
act-lacks starts k h fits = ground (arith, start-lacks k)
act-lacks stops k h fits = stop-lacks k fits
act-lacks (updates c) k h fits = update_config-lacks c k h fits
act-lacks (menu MenuEvent.start) k h fits = ground (arith, start-lacks k)
act-lacks (menu MenuEvent.stop) k h fits = stop-lacks k fits
act-lacks (menu MenuEvent.settings) k h fits = fits
act-lacks (menu MenuEvent.quit) k h fits = stop-lacks k fits
act-lacks (proceeds p) k h fits = proceed-lacks p k fits

ever_lacks-around :
    (k : ProxyController) (actions : List Action)
    → IsCoherent k
    → lacks_endpoint k ≡ false
    → ever_lacks k actions ≡ ever_around k actions
unfolding ever_lacks ever_around
ever_lacks-around k [] h fits = refl
ever_lacks-around k (a ∷ more) h fits =
    let once = act-lacks a k h fits in
    elim (Bool-cases (goes_around a k)) [
      | inl around ↦ ground (arith, once)
      | inr straight ↦ ground (arith, once, ever_lacks-around (act a k) more (act-IsCoherent a k h))
    ]

-- In a session of the desktop client, from its start, the controller comes to keep a task without an
-- endpoint exactly where some action goes around the check of the window's start: Start Proxy of the
-- tray while no task is active and no endpoint is configured, or a new configuration without an
-- endpoint while a task runs. The window's own start, and the task as it goes on, never bring it
-- about.
pub ever_lacks-new :
    (config : ProxyConfig) (actions : List Action)
    → ever_lacks (Lifecycle.new config) actions ≡ ever_around (Lifecycle.new config) actions
unfolding Lifecycle.new
ever_lacks-new config actions = ever_lacks-around (Lifecycle.new config) actions (inl refl, tt) refl
