-- ===== src/ClientProxy/Lifecycle/States.antt =====
-- What the status of the controller says of its task.
use mathlib.Core.Path.{subst}
use torpc.Common.{
  ℕ, zero, suc, ap, sym, All, Bool-cases, String, ◌≡◌, refl, ◌⊎◌, inl, inr, true, false, List, [],
  ◌∷◌, Option, none, some,
}
use torpc.ClientProxy.Forward.{ProxyConfig}
use torpc.ClientProxy.Controller.{ProxyStatus, stopped, starting, running, stopping, error}
use torpc.ClientProxy.Lifecycle.{
  Phase, spawned, begun, serving, moves, binds, detach, detached_moves, proceed_detached,
  proceeds_detached, ended, Task, ProxyController, start, stop, is_running, update_config, Progress,
  begins, ends, ended_status, proceed, Event, starts, stops, updates, proceeds, step,
}

-- What a status says of the task that the controller keeps.
abbrev pub Agrees : ProxyStatus → Option Task → Type 0
Agrees stopped handle =
    (handle ≡ none) ⊎ ((c : ProxyConfig) × (handle ≡ some (record { config = c; phase = ended })))
Agrees starting handle =
    (c : ProxyConfig) × (handle ≡ some (record { config = c; phase = spawned }))
Agrees running handle =
    (c : ProxyConfig) × ((handle ≡ some (record { config = c; phase = begun }))
      ⊎ (handle ≡ some (record { config = c; phase = serving })))
Agrees stopping handle = ⊥
Agrees (error e) handle = (c : ProxyConfig) × (handle ≡ some (record { config = c; phase = ended }))

abbrev pub HasEnded : Task → Type 0
HasEnded t = t.phase ≡ ended

-- The status agrees with the task, and no other task goes on.
abbrev pub IsCoherent : ProxyController → Type 0
IsCoherent k = Agrees k.status k.handle × All HasEnded k.detached

task-HasEnded :
    (t : Task) (c : ProxyConfig) → some t ≡ some (record { config = c; phase = ended }) → HasEnded t
task-HasEnded t c e =
    let same : t ≡ record { config = c; phase = ended } = cc in ap (λ u. u.phase) same

detach-ended :
    (c : ProxyConfig) (h : Option Task) (ds : List Task)
    → h ≡ some (record { config = c; phase = ended })
    → All HasEnded ds
    → All HasEnded (detach h ds)
detach-ended c none ds e d = d
detach-ended c (some t) ds e d = (task-HasEnded t c e, d)

detach-none :
    (h : Option Task) (ds : List Task) → h ≡ none → All HasEnded ds → All HasEnded (detach h ds)
detach-none none ds e d = d
detach-none (some t) ds e d = cc

started :
    (config : ProxyConfig)
    → (s : ProxyStatus) (h : Option Task) (ds : List Task) → Agrees s h
    → All HasEnded ds
    → IsCoherent (start (record { config = config; status = s; handle = h; detached = ds }))
unfolding start
started c stopped h ds (inl e) d = ((c, refl), detach-none h ds e d)
started c stopped h ds (inr (b, e)) d = ((c, refl), detach-ended b h ds e d)
started c starting h ds a d = (a, d)
started c running h ds a d = (a, d)
started c stopping h ds a d = absurd a
started c (error x) h ds (b, e) d = ((c, refl), detach-ended b h ds e d)

halted :
    (config : ProxyConfig)
    → (s : ProxyStatus) (h : Option Task) (ds : List Task) → Agrees s h
    → All HasEnded ds
    → IsCoherent (stop (record { config = config; status = s; handle = h; detached = ds }))
unfolding stop
halted c s none ds a d = (a, d)
halted c s (some t) ds a d = (inl refl, d)

start-IsCoherent : (k : ProxyController) → IsCoherent k → IsCoherent (start k)
start-IsCoherent k a = started k.config k.status k.handle k.detached a.0 a.1

stop-IsCoherent : (k : ProxyController) → IsCoherent k → IsCoherent (stop k)
stop-IsCoherent k a = halted k.config k.status k.handle k.detached a.0 a.1

update_config-running :
    (c : ProxyConfig) (k : ProxyController)
    → is_running k ≡ true
    → update_config c k ≡ start (record (stop k) { config = c })
unfolding update_config
update_config-running c k h = rw h refl

update_config-idle :
    (c : ProxyConfig) (k : ProxyController)
    → is_running k ≡ false
    → update_config c k ≡ record k { config = c }
unfolding update_config
update_config-idle c k h = rw h refl

update_config-IsCoherent :
    (c : ProxyConfig) (k : ProxyController) → IsCoherent k → IsCoherent (update_config c k)
update_config-IsCoherent c k a = elim (Bool-cases (is_running k)) [
  | inl runs ↦
      rw (update_config-running c k runs)
        (start-IsCoherent (record (stop k) { config = c }) (stop-IsCoherent k a))
  | inr idle ↦ rw (update_config-idle c k idle) a
]

ended-Agrees :
    (e : Option String) (t : ProxyConfig)
    → Agrees (ended_status e) (some (record { config = t; phase = ended }))
ended-Agrees none t = inr (t, refl)
ended-Agrees (some e) t = (t, refl)

-- Only under Running has a task begun.
bound :
    (t : ProxyConfig) (s : ProxyStatus)
    → Agrees s (some (record { config = t; phase = begun }))
    → Agrees s (some (record { config = t; phase = serving }))
bound t stopped (inl e) = cc
bound t stopped (inr (c, e)) = absurd (cc)
bound t starting (c, e) = absurd (cc)
bound t running a = (t, inr refl)
bound t stopping a = absurd a
bound t (error x) (c, e) = absurd (cc)

moved :
    (p : Progress) (phase : Phase) (t : ProxyConfig) (s : ProxyStatus)
    → Agrees s (some (record { config = t; phase = phase }))
    → let m = moves p phase s in Agrees m.1 (some (record { config = t; phase = m.0 }))
moved begins spawned t s a = (t, inl refl)
moved begins begun t s a = a
moved begins serving t s a = a
moved begins ended t s a = a
moved binds spawned t s a = a
moved binds begun t s a = bound t s a
moved binds serving t s a = a
moved binds ended t s a = a
moved (ends e) spawned t s a = a
moved (ends e) begun t s a = ended-Agrees e t
moved (ends e) serving t s a = ended-Agrees e t
moved (ends e) ended t s a = a

proceeded :
    (p : Progress) (c : ProxyConfig) (s : ProxyStatus) (h : Option Task) (ds : List Task)
    → Agrees s h
    → All HasEnded ds
    → IsCoherent (proceed p (record { config = c; status = s; handle = h; detached = ds }))
unfolding proceed
proceeded p c s none ds a d = (a, d)
proceeded p c s (some t) ds a d = (moved p t.phase t.config s a, d)

-- A task that has ended does nothing more.
over :
    (p : Progress) (phase : Phase) (s : ProxyStatus) → phase ≡ ended → moves p phase s ≡ (ended, s)
over begins ended s e = refl
over binds ended s e = refl
over (ends x) ended s e = refl
over p spawned s e = cc
over p begun s e = cc
over p serving s e = cc

detached-quiet :
    (i : ℕ) (p : Progress) (ds : List Task) (s : ProxyStatus)
    → All HasEnded ds
    → let m = detached_moves i p ds s in (m.1 ≡ s) × All HasEnded m.0
unfolding detached_moves
detached-quiet i p [] s d = (refl, tt)
detached-quiet zero p (t ∷ ds) s (e, d) =
    let same = over p t.phase s e in (ap (λ m. m.1) same, (ap (λ m. m.0) same, d))
detached-quiet (suc i) p (t ∷ ds) s (e, d) =
    let (same, rest) = detached-quiet i p ds s d in (same, (e, rest))

proceed_detached-IsCoherent :
    (i : ℕ) (p : Progress) (k : ProxyController)
    → IsCoherent k
    → IsCoherent (proceed_detached i p k)
unfolding proceed_detached
proceed_detached-IsCoherent i p k (a, d) =
    let (same, rest) = detached-quiet i p k.detached k.status d in
    (subst (λ s. Agrees s k.handle) (sym same) a, rest)

pub step-IsCoherent : (k : ProxyController) (e : Event) → IsCoherent k → IsCoherent (step k e)
unfolding step
step-IsCoherent k starts a = start-IsCoherent k a
step-IsCoherent k stops a = stop-IsCoherent k a
step-IsCoherent k (updates c) a = update_config-IsCoherent c k a
step-IsCoherent k (proceeds p) a = proceeded p k.config k.status k.handle k.detached a.0 a.1
step-IsCoherent k (proceeds_detached i p) a = proceed_detached-IsCoherent i p k a
