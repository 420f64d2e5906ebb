-- ===== src/ClientProxy/Controller/Turns.antt =====
-- How many turns the calls of the controller take.
use torpc.Common.{ℕ, suc, ◌+◌, ◌≤◌, ◌≡◌, inl, inr, arith, Bool, List, [], ◌∷◌, some, Option-cases}
use torpc.ClientProxy.Controller.{
  ProxyStatus, Call, Place, asks_status, asks_handle, holds_both, spawns, asks_again, finished,
  Controller, Turn, first_call, second_call, report, advance, take, run, begin,
}

-- The steps that a call has before it at most.
abbrev steps_left : Place → ℕ
steps_left (asks_status c) = 4
steps_left (asks_handle c) = 3
steps_left (holds_both c) = 2
steps_left spawns = 1
steps_left asks_again = 1
steps_left finished = 0

abbrev left : Controller → ℕ
left k = steps_left k.first + steps_left k.second

-- The turns of a schedule that are a call's.
abbrev pub calls_in : List Turn → ℕ
calls_in [] = 0
calls_in (first_call ∷ ts) = suc (calls_in ts)
calls_in (second_call ∷ ts) = suc (calls_in ts)
calls_in (report s ∷ ts) = calls_in ts

advance-left :
    (p q : Place) (s : ProxyStatus) (h : Bool) (p' : Place) (s' : ProxyStatus) (h' : Bool)
    → advance p q s h ≡ some (p', s', h')
    → suc (steps_left p') ≤ steps_left p
unfolding advance
advance-left p q s h p' s' h' a = ground arith

take-left : (t : Turn) (k n : Controller) → take t k ≡ some n → calls_in (t ∷ []) + left n ≤ left k
unfolding take
take-left first_call k n h = elim (Option-cases (advance k.first k.second k.status k.handle)) [
  | inl stuck ↦ ground arith
  | inr ((p, s, b), moved) ↦
      ground (arith, advance-left k.first k.second k.status k.handle p s b moved)
]
take-left second_call k n h = elim (Option-cases (advance k.second k.first k.status k.handle)) [
  | inl stuck ↦ ground arith
  | inr ((p, s, b), moved) ↦
      ground (arith, advance-left k.second k.first k.status k.handle p s b moved)
]
take-left (report x) k n h = ground arith

calls-cons : (t : Turn) (ts : List Turn) → calls_in (t ∷ ts) ≡ calls_in (t ∷ []) + calls_in ts
calls-cons first_call ts = omega arith
calls-cons second_call ts = omega arith
calls-cons (report s) ts = omega arith

run-left : (ts : List Turn) (k n : Controller) → run ts k ≡ some n → calls_in ts + left n ≤ left k
unfolding run
run-left [] k n h = ground arith
run-left (t ∷ ts) k n h = elim (Option-cases (take t k)) [
  | inl stuck ↦ ground arith
  | inr (m, moved) ↦
      let rest : run ts m ≡ some n = ground arith in
      omega (arith, calls-cons t ts, take-left t k m moved, run-left ts m n rest)
]

-- Two calls have at most eight turns between them, in whatever order these and the writes of the
-- proxy's task come: no schedule keeps them going.
pub run-turns :
    (c d : Call) (s : ProxyStatus) (h : Bool) (ts : List Turn) (k : Controller)
    → run ts (begin c d s h) ≡ some k
    → calls_in ts ≤ 8
run-turns c d s h ts k e = omega (arith, run-left ts (begin c d s h) k e)
