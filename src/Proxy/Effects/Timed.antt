-- ===== src/Proxy/Effects/Timed.antt =====
-- Handlers that the timeout of src/security.rs may drop: their result, where they come to one, and
-- the state that they leave.
use mathlib.Core.Path.{subst}
use torpc.Common.{
  sym, ◌⊎◌, inl, inr, Bool, true, false, if◌then◌else◌, ◌≡◌, refl, ap, ◌∙◌, Option, none, some, ok,
  err,
}
use torpc.Errors.{ProxyResult}
use torpc.Proxy.Effects.{M, resume, ◌>>=◌, change}

abbrev pub Timed : Type 0 → Type 0 → Type 0
Timed S A = S → Option (ProxyResult A) × S

module _ {S : Type 0} where
  -- A handler that takes no time.
  abbrev pub whole : {A : Type 0} → M S A → Timed S A
  whole m s = (some (m s).0, (m s).1)

  abbrev pub resume_timed :
      {A B : Type 0} → Option (ProxyResult A) × S → (A → Timed S B) → Option (ProxyResult B) × S
  resume_timed (none, s) f = (none, s)
  resume_timed (some (err e), s) f = (some (err e), s)
  resume_timed (some (ok a), s) f = f a s

  -- `?` on the result of an earlier step that may be dropped.
  abbrev pub followed_by : {A B : Type 0} → Timed S A → (A → Timed S B) → Timed S B
  followed_by t f s = resume_timed (t s) f

  abbrev pub inside : {A P : Type 0} → (S → P) → (S → P → S) → Timed P A → Timed S A
  inside part put t s = let r = t (part s) in (r.0, put s r.1)

  -- Never dropped, and done as the handler without a clock.
  abbrev pub Fits : {A : Type 0} → Timed S A → M S A → Type 0
  Fits t m = (s : S) → t s ≡ whole m s

  resume-whole :
      {A B : Type 0} (r : ProxyResult A × S) (f : A → Timed S B) (g : A → M S B)
      → ((a : A) → Fits (f a) (g a))
      → resume_timed (some r.0, r.1) f ≡ (some (resume r g).0, (resume r g).1)
  resume-whole (ok a, s) f g fits = fits a s
  resume-whole (err e, s) f g fits = refl

  pub followed_by-Fits :
      {A B : Type 0} (t : Timed S A) (m : M S A) (f : A → Timed S B) (g : A → M S B)
      → Fits t m
      → ((a : A) → Fits (f a) (g a))
      → Fits (followed_by t f) (m >>= g)
  followed_by-Fits t m f g first rest s =
      ap (λ r. resume_timed r f) (first s) ∙ resume-whole (m s) f g rest

  pub inside-Fits :
      {A P : Type 0} (part : S → P) (put : S → P → S) (t : Timed P A) (m : M P A)
      → ((p : P) → t p ≡ (some (m p).0, (m p).1))
      → Fits (inside part put t) (change part put m)
  inside-Fits part put t m fits s = ap (λ r. (r.0, put s r.1)) (fits (part s))

  pub branch-Fits :
      {A : Type 0} (b : Bool) {t t' : Timed S A} {m m' : M S A}
      → Fits t m
      → Fits t' m'
      → Fits (if b then t else t') (if b then m else m')
  branch-Fits true left right = left
  branch-Fits false left right = right

  -- Done as the handler without a clock, or dropped in a state that meets the predicate.
  abbrev pub DoneOr :
      {A : Type 0} → (S → Type 0) → ProxyResult A × S → Option (ProxyResult A) × S → Type 0
  DoneOr Q done t = (t ≡ (some done.0, done.1)) ⊎ ((t.0 ≡ none) × Q t.1)

  pub drop_if-DoneOr :
      {A : Type 0} (Q : S → Type 0) (b : Bool) (done : ProxyResult A × S) (s : S)
      → (b ≡ true → Q s)
      → DoneOr Q done (if b then (none, s) else (some done.0, done.1))
  drop_if-DoneOr Q true done s q = inr (refl, q refl)
  drop_if-DoneOr Q false done s q = inl refl

  pub DoneOr-weaken :
      {A : Type 0} {Q R : S → Type 0} {done : ProxyResult A × S} {t : Option (ProxyResult A) × S}
      → ((s : S) → Q s → R s)
      → DoneOr Q done t
      → DoneOr R done t
  DoneOr-weaken weaker (inl same) = inl same
  DoneOr-weaken {t} weaker (inr (dropped, q)) = inr (dropped, weaker t.1 q)

  resume-DoneOr :
      {A B : Type 0} (Q : S → Type 0) (r : ProxyResult A × S) (f : A → Timed S B) (g : A → M S B)
      → ((a : A) → resume r g ≡ g a r.1 → DoneOr Q (g a r.1) (f a r.1))
      → DoneOr Q (resume r g) (resume_timed (some r.0, r.1) f)
  resume-DoneOr Q (ok a, s) f g rest = rest a refl
  resume-DoneOr Q (err e, s) f g rest = inl refl

  -- What a step leaves true is true in the end, where the rest keeps it.
  pub resume-keeps :
      {A B : Type 0} (Q : S → Type 0) (r : ProxyResult A × S) (g : A → M S B)
      → ((a : A) (s : S) → Q s → Q (g a s).1)
      → Q r.1
      → Q (resume r g).1
  resume-keeps Q (ok a, s) g keeps q = keeps a s q
  resume-keeps Q (err e, s) g keeps q = q

  resume-dropped :
      {A B : Type 0} (Q : S → Type 0) (r : Option (ProxyResult A) × S) (f : A → Timed S B)
      → r.0 ≡ none
      → Q r.1
      → ((resume_timed r f).0 ≡ none) × Q (resume_timed r f).1
  resume-dropped Q (none, s) f h q = (refl, q)
  resume-dropped Q (some (ok a), s) f h q = cc
  resume-dropped Q (some (err e), s) f h q = cc

  followed_by-DoneOr :
      {A B : Type 0} (Q : S → Type 0) (t : Timed S A) (m : M S A) (f : A → Timed S B)
      (g : A → M S B) (s : S)
      → DoneOr Q (m s) (t s)
      → ((a : A) → (m >>= g) s ≡ g a (m s).1 → DoneOr Q (g a (m s).1) (f a (m s).1))
      → DoneOr Q ((m >>= g) s) (followed_by t f s)
  followed_by-DoneOr Q t m f g s (inl same) rest =
      subst (λ r. DoneOr Q ((m >>= g) s) (resume_timed r f)) (sym same)
        (resume-DoneOr Q (m s) f g rest)
  followed_by-DoneOr Q t m f g s (inr (dropped, q)) rest = inr (resume-dropped Q (t s) f dropped q)

  -- From every state, done as the handler without a clock; or dropped, where the state before,
  -- the one that the handler would leave and the one that is left are as the relation says.
  abbrev pub Drops : {A : Type 0} → (S → S → S → Type 0) → Timed S A → M S A → Type 0
  Drops Q t m = (s : S) → DoneOr (Q s (m s).1) (m s) (t s)

  pub followed_by-Drops :
      {A B : Type 0} (Q : S → S → S → Type 0) (t : Timed S A) (m : M S A) (f : A → Timed S B)
      (g : A → M S B)
      → Drops Q t m
      → ((a : A) → Drops Q (f a) (g a))
      → ((s d s' : S) → Q (m s).1 d s' → Q s d s')
      → ((a : A) (s d s' : S) → Q s d s' → Q s (g a d).1 s')
      → Drops Q (followed_by t f) (m >>= g)
  followed_by-Drops Q t m f g first rest back on s =
      followed_by-DoneOr (Q s ((m >>= g) s).1) t m f g s
        (DoneOr-weaken (λ s' q. resume-keeps (λ d. Q s d s') (m s) g (λ a d. on a s d s') q)
          (first s))
        (λ a same.
          DoneOr-weaken (λ s' q. subst (λ d. Q s d.1 s') (sym same) (back s (g a (m s).1).1 s' q))
            (rest a (m s).1))

  -- A first step that takes no time.
  pub begun_by-Drops :
      {A B : Type 0} (Q : S → S → S → Type 0) (m : M S A) (f : A → Timed S B) (g : A → M S B)
      → ((a : A) → Drops Q (f a) (g a))
      → ((s d s' : S) → Q (m s).1 d s' → Q s d s')
      → Drops Q (followed_by (whole m) f) (m >>= g)
  begun_by-Drops Q m f g rest back s =
      followed_by-DoneOr (Q s ((m >>= g) s).1) (whole m) m f g s (inl refl) (λ a same.
        DoneOr-weaken (λ s' q. subst (λ d. Q s d.1 s') (sym same) (back s (g a (m s).1).1 s' q))
          (rest a (m s).1))

  -- Later steps that take no time.
  pub ended_by-Drops :
      {A B : Type 0} (Q : S → S → S → Type 0) (t : Timed S A) (m : M S A) (f : A → Timed S B)
      (g : A → M S B)
      → Drops Q t m
      → ((a : A) → Fits (f a) (g a))
      → ((a : A) (s d s' : S) → Q s d s' → Q s (g a d).1 s')
      → Drops Q (followed_by t f) (m >>= g)
  ended_by-Drops Q t m f g first rest on s =
      followed_by-DoneOr (Q s ((m >>= g) s).1) t m f g s
        (DoneOr-weaken (λ s' q. resume-keeps (λ d. Q s d s') (m s) g (λ a d. on a s d s') q)
          (first s))
        (λ a same. inl (rest a (m s).1))

  pub branch-Drops :
      {A : Type 0} (Q : S → S → S → Type 0) (b : Bool) {t t' : Timed S A} {m m' : M S A}
      → Drops Q t m
      → Drops Q t' m'
      → Drops Q (if b then t else t') (if b then m else m')
  branch-Drops Q true left right = left
  branch-Drops Q false left right = right

module _ {S P A : Type 0} (part : S → P) (put : S → P → S) where
  pub inside-Drops :
      (Q : P → P → P → Type 0) (R : S → S → S → Type 0) (t : Timed P A) (m : M P A)
      → ((s : S) (d p : P) → Q (part s) d p → R s (put s d) (put s p))
      → Drops Q t m
      → Drops R (inside part put t) (change part put m)
  inside-Drops Q R t m weaker first s = go (first (part s))
    where
      go :
          DoneOr (Q (part s) (m (part s)).1) (m (part s)) (t (part s))
          → DoneOr (R s (change part put m s).1) (change part put m s) (inside part put t s)
      go (inl same) = inl (ap (λ r. (r.0, put s r.1)) same)
      go (inr (dropped, q)) = inr (dropped, weaker s (m (part s)).1 (t (part s)).1 q)
