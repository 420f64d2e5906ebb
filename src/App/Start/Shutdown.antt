-- ===== src/App/Start/Shutdown.antt =====
-- The end of the daemon, src/main.rs: it serves until a signal, tells both servers, and waits for
-- them.
--
-- A server is a task of tokio: it ends when axum's loop does, after the graceful shutdown or with an
-- error, or it panics. The broadcast channel, the log and the handlers of the signals are tokio's.
use torpc.Common.{
  ◌≡◌, ◌↔◌, ◌⊎◌, refl, inl, inr, arith, String, Bool, true, false, ◌||◌, List, [], ◌∷◌, Option,
  none, some, Result, ok, err, or_else, and_then, if◌then◌else◌, Option-cases,
}

-- What joining a server's task gives.
pub data Joined : Type 0 where
  ended : Result String (Unit {0}) → Joined
  panicked : Joined

pub record Serving : Type 0 where
  pub signalled : Bool
  pub public_res : Option Joined
  pub admin_res : Option Joined
  pub cleanup_runs : Bool

abbrev pub serving : Serving
serving = record { signalled = false; public_res = none; admin_res = none; cleanup_runs = true }

pub data Event : Type 0 where
  signal : Event
  public_ends : Joined → Event
  admin_ends : Joined → Event

-- A task ends once.
unfoldable pub step : Serving → Event → Serving
step s signal = record s { signalled = true; cleanup_runs = false }
step s (public_ends r) = record s { public_res = some (or_else s.public_res r) }
step s (admin_ends r) = record s { admin_res = some (or_else s.admin_res r) }

unfoldable pub run : Serving → List Event → Serving
run s [] = s
run s (e ∷ es) = run (step s e) es

-- `.context(message)??`
abbrev pub joined : String → Joined → Result String (Unit {0})
joined message (ended r) = r
joined message panicked = err message

-- How `main` returns: none while it does not.
unfoldable pub returns : Serving → Option (Result String (Unit {0}))
returns s =
    if s.signalled
    then and_then s.public_res (λ p. and_then s.admin_res (λ a.
      some (elim (joined "public server task panicked" p) as (λ _. Result String (Unit {0})) [
        | err e ↦ err e
        | ok u ↦ joined "admin server task panicked" a
      ])))
    else none

abbrev pub has_signal : List Event → Bool
has_signal [] = false
has_signal (signal ∷ es) = true
has_signal (public_ends r ∷ es) = has_signal es
has_signal (admin_ends r ∷ es) = has_signal es

-- The first end of a server among the events.
abbrev pub first_public : List Event → Option Joined
first_public [] = none
first_public (public_ends r ∷ es) = some r
first_public (signal ∷ es) = first_public es
first_public (admin_ends r ∷ es) = first_public es

abbrev pub first_admin : List Event → Option Joined
first_admin [] = none
first_admin (admin_ends r ∷ es) = some r
first_admin (signal ∷ es) = first_admin es
first_admin (public_ends r ∷ es) = first_admin es

abbrev first_of : Option Joined → Option Joined → Option Joined
first_of none later = later
first_of (some r) later = some r

run-parts :
    (es : List Event) (s : Serving)
    → ((run s es).signalled ≡ (s.signalled || has_signal es))
      × ((run s es).public_res ≡ first_of s.public_res (first_public es))
      × ((run s es).admin_res ≡ first_of s.admin_res (first_admin es))
unfolding run step
run-parts [] s = elim (Option-cases s.public_res) [
  | inl p ↦ elim (Option-cases s.admin_res) [
    | inl a ↦ ground (arith, p, a)
    | inr (x, a) ↦ ground (arith, p, a)
  ]
  | inr (y, p) ↦ elim (Option-cases s.admin_res) [
    | inl a ↦ ground (arith, p, a)
    | inr (x, a) ↦ ground (arith, p, a)
  ]
]
run-parts (signal ∷ es) s = ground (arith, run-parts es (step s signal))
run-parts (public_ends r ∷ es) s =
    let (a, b, c) = run-parts es (step s (public_ends r)) in
    elim (Option-cases s.public_res) [
      | inl p ↦ ground (arith, a, b, c, p)
      | inr (y, p) ↦ ground (arith, a, b, c, p)
    ]
run-parts (admin_ends r ∷ es) s =
    let (a, b, c) = run-parts es (step s (admin_ends r)) in
    elim (Option-cases s.admin_res) [
      | inl p ↦ ground (arith, a, b, c, p)
      | inr (y, p) ↦ ground (arith, a, b, c, p)
    ]

parts :
    (es : List Event)
    → ((run serving es).signalled ≡ has_signal es)
      × ((run serving es).public_res ≡ first_public es)
      × ((run serving es).admin_res ≡ first_admin es)
parts es = run-parts es serving

unsaid :
    (s : Serving)
    → (returns s ≡ none) ↔ ((s.signalled ≡ false) ⊎ (s.public_res ≡ none) ⊎ (s.admin_res ≡ none))
unfolding returns
unsaid s = elim (Option-cases s.public_res) [
  | inl p ↦ ground (arith, p)
  | inr (y, p) ↦ elim (Option-cases s.admin_res) [
    | inl a ↦ ground (arith, p, a)
    | inr (x, a) ↦ ground (arith, p, a)
  ]
]

abbrev pub Clean : Option Joined → Type 0
Clean o = o ≡ some (ended (ok tt))

returns-Clean :
    (b c : Bool) (p a : Option Joined)
    → returns (record { signalled = b; public_res = p; admin_res = a; cleanup_runs = c })
      ≡ some (ok tt)
    → (b ≡ true) × Clean p × Clean a
unfolding returns
returns-Clean false c p a h = absurd (ground arith)
returns-Clean true c none a h = absurd (ground arith)
returns-Clean true c (some p) none h = absurd (ground arith)
returns-Clean true c (some (ended (ok u))) (some (ended (ok v))) h = (refl, refl, refl)
returns-Clean true c (some (ended (ok u))) (some (ended (err e))) h = absurd (ground arith)
returns-Clean true c (some (ended (ok u))) (some panicked) h = absurd (ground arith)
returns-Clean true c (some (ended (err e))) (some a) h = absurd (ground arith)
returns-Clean true c (some panicked) (some a) h = absurd (ground arith)

clean :
    (s : Serving)
    → (returns s ≡ some (ok tt)) ↔ ((s.signalled ≡ true) × Clean s.public_res × Clean s.admin_res)
unfolding returns
clean s = (
  λ h. returns-Clean s.signalled s.cleanup_runs s.public_res s.admin_res h,
  λ (b, p, a). ground (arith, b, p, a),
)

-- Once it serves, the daemon goes on until both servers have ended and a signal has come, in any
-- order: without a signal it goes on also where both servers are gone. It then succeeds exactly
-- where both servers ended without an error, the first end of each being the one that counts.
pub returns_iff :
    (es : List Event)
    → ((returns (run serving es) ≡ none)
        ↔ ((has_signal es ≡ false) ⊎ (first_public es ≡ none) ⊎ (first_admin es ≡ none)))
      × ((returns (run serving es) ≡ some (ok tt))
          ↔ ((has_signal es ≡ true) × Clean (first_public es) × Clean (first_admin es)))
returns_iff es =
    let (b, p, a) = parts es in
    ground (arith, b, p, a, unsaid (run serving es), clean (run serving es))
