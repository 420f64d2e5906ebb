-- ===== src/ClientProxy/Controller/Locks.antt =====
-- What the two locks of the controller guarantee, and where they block.
use mathlib.Core.Path.{subst}
use torpc.Common.{
  Option-cases, Bool, true, false, not, ◌&&◌, ◌≡◌, refl, ◌⊎◌, inl, inr, arith, List, [], ◌∷◌, none,
  some, is_some,
}
use torpc.ClientProxy.Controller.{
  ProxyStatus, stopping, Call, start, stop, Place, asks_status, asks_handle, holds_both, asks_again,
  finished, Controller, holds_status, holds_handle, advance, Turn, first_call, second_call, report,
  take, run, begin,
}

-- No lock is held by both calls.
abbrev pub exclusive : Place → Place → Bool
exclusive p q = not (holds_status p && holds_status q) && not (holds_handle p && holds_handle q)

-- Neither call is a `stop`.
abbrev pub starts : Place → Bool
starts (asks_status c) = elim c [ start ↦ true | stop ↦ false ]
starts (asks_handle c) = elim c [ start ↦ true | stop ↦ false ]
starts (holds_both c) = elim c [ start ↦ true | stop ↦ false ]
starts asks_again = false
starts _ = true

-- No turn can be taken.
abbrev pub Deadlocked : Controller → Type 0
Deadlocked k = (t : Turn) → take t k ≡ none

advance-exclusive :
    (p q : Place) (s : ProxyStatus) (h : Bool) (p' : Place) (s' : ProxyStatus) (h' : Bool)
    → exclusive p q ≡ true
    → advance p q s h ≡ some (p', s', h')
    → exclusive p' q ≡ true
unfolding advance holds_status holds_handle
advance-exclusive p q s h p' s' h' e a = ground arith

take-exclusive :
    (t : Turn) (k n : Controller)
    → exclusive k.first k.second ≡ true
    → take t k ≡ some n
    → exclusive n.first n.second ≡ true
unfolding take
take-exclusive first_call k n e h =
    elim (Option-cases (advance k.first k.second k.status k.handle)) [
      | inl stuck ↦ ground arith
      | inr ((p, s, b), moved) ↦
          let now = advance-exclusive k.first k.second k.status k.handle p s b e moved in
          ground arith
    ]
take-exclusive second_call k n e h =
    elim (Option-cases (advance k.second k.first k.status k.handle)) [
      | inl stuck ↦ ground arith
      | inr ((p, s, b), moved) ↦
          let now =
            advance-exclusive k.second k.first k.status k.handle p s b (ground arith) moved in
          ground arith
    ]
take-exclusive (report x) k n e h = ground arith

run-holds :
    (P : Controller → Type 0)
    → ((t : Turn) (k n : Controller) → P k → take t k ≡ some n → P n)
    → (ts : List Turn) (k n : Controller) → P k
    → run ts k ≡ some n
    → P n
unfolding run
run-holds P keeps [] k n p h = subst P (ground arith) p
run-holds P keeps (t ∷ ts) k n p h = elim (Option-cases (take t k)) [
  | inl stuck ↦ ground arith
  | inr (next, moved) ↦ run-holds P keeps ts next n (keeps t k next p moved) (ground arith)
]

-- Whatever two calls are made at the same time, and in whatever order they and the proxy's task take
-- their turns, neither lock is ever held by both calls.
pub run-exclusive :
    (c d : Call) (s : ProxyStatus) (h : Bool) (ts : List Turn) (k : Controller)
    → run ts (begin c d s h) ≡ some k
    → exclusive k.first k.second ≡ true
unfolding holds_status holds_handle
run-exclusive c d s h ts k e =
    run-holds (λ k. exclusive k.first k.second ≡ true) take-exclusive ts (begin c d s h) k refl e

abbrev crossed : Call → Controller
crossed c = record { status = stopping; handle = false; first = asks_again; second = asks_handle c }

crossed-Deadlocked : (c : Call) → Deadlocked (crossed c)
unfolding take advance holds_status holds_handle
crossed-Deadlocked c first_call = refl
crossed-Deadlocked c second_call = refl
crossed-Deadlocked c (report x) = refl

-- A `stop` that finds a running task can deadlock with any other call: there is an order of turns
-- after which it holds the handle lock and waits for the status lock, which the other call holds and
-- keeps while it waits for the handle lock. From there no turn can be taken.
pub stop_deadlocks :
    (c : Call) (s : ProxyStatus)
    → (ts : List Turn) × (k : Controller) × (run ts (begin stop c s true) ≡ some k)
      × (k.first ≡ asks_again)
      × (k.second ≡ asks_handle c)
      × Deadlocked k
unfolding run take advance holds_status holds_handle
stop_deadlocks c s = (
  first_call ∷ first_call ∷ first_call ∷ second_call ∷ [],
  crossed c,
  refl,
  refl,
  refl,
  crossed-Deadlocked c,
)

-- The two locks are apart, and both calls are `start`.
abbrev TwoStarts : Controller → Type 0
TwoStarts k =
    (exclusive k.first k.second ≡ true) × (starts k.first ≡ true) × (starts k.second ≡ true)

advance-starts :
    (p q : Place) (s : ProxyStatus) (h : Bool) (p' : Place) (s' : ProxyStatus) (h' : Bool)
    → starts p ≡ true
    → advance p q s h ≡ some (p', s', h')
    → starts p' ≡ true
unfolding advance
advance-starts p q s h p' s' h' e a = ground arith

take-TwoStarts : (t : Turn) (k n : Controller) → TwoStarts k → take t k ≡ some n → TwoStarts n
unfolding take
take-TwoStarts first_call k n (e, p, q) h =
    let apart = take-exclusive first_call k n e h in
    elim (Option-cases (advance k.first k.second k.status k.handle)) [
      | inl stuck ↦ ground arith
      | inr ((p', s, b), moved) ↦
          let now = advance-starts k.first k.second k.status k.handle p' s b p moved in
          (apart, ground arith, ground arith)
    ]
take-TwoStarts second_call k n (e, p, q) h =
    let apart = take-exclusive second_call k n e h in
    elim (Option-cases (advance k.second k.first k.status k.handle)) [
      | inl stuck ↦ ground arith
      | inr ((p', s, b), moved) ↦
          let now = advance-starts k.second k.first k.status k.handle p' s b q moved in
          (apart, ground arith, ground arith)
    ]
take-TwoStarts (report x) k n (e, p, q) h = (ground arith, ground arith, ground arith)

TwoStarts-progress :
    (k : Controller)
    → TwoStarts k
    → ((k.first ≡ finished) × (k.second ≡ finished))
      ⊎ (is_some (take first_call k) ≡ true)
      ⊎ (is_some (take second_call k) ≡ true)
unfolding take advance holds_status holds_handle
TwoStarts-progress k (e, p, q) = ground arith

-- Two calls of `start` never deadlock: in whatever order they and the proxy's task take their turns,
-- both are done or one of them can go on.
pub starts_progress :
    (s : ProxyStatus) (h : Bool) (ts : List Turn) (k : Controller)
    → run ts (begin start start s h) ≡ some k
    → ((k.first ≡ finished) × (k.second ≡ finished))
      ⊎ (is_some (take first_call k) ≡ true)
      ⊎ (is_some (take second_call k) ≡ true)
unfolding holds_status holds_handle
starts_progress s h ts k e =
    TwoStarts-progress k
      (run-holds TwoStarts take-TwoStarts ts (begin start start s h) k (refl, refl, refl) e)
