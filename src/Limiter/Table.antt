-- ===== src/Limiter/Table.antt =====
-- The limiter over a map that has no order: the `HashMap` of src/rate_limit.rs promises none.
--
-- A map is a table in which each key stands once, up to what is read from it.
use mathlib.Core.Quot
use mathlib.Core.Quot.{Quot, Quot-set}
use native.Mathlib.Nat.{ℕ_set}
use torpc.Common.{
  ℕ, ◌≡◌, refl, sym, ap, ◌∙◌, String, Bool, false, List, Option, some, arith, if◌then◌else◌, lookup,
  insert, IsMap, insert-IsMap, lookup-insert, str_eq, eq_iff,
}
use torpc.Limiter.{RateLimitConfig, Bucket, RateLimiter, charge, check_rate_limit}
use torpc.Limiter.Buckets.{check-IsMap}

abbrev Table : Type 0
Table = (t : List (String × Bucket)) × IsMap t

abbrev SameEntries : Table → Table → Type 0
SameEntries t u = (k : String) → lookup k t.0 ≡ lookup k u.0

abbrev pub HashMap : Type 0
HashMap = Quot SameEntries

Bucket_set : IsSet Bucket
Bucket_set = hlevel ℕ_set

pub entry_set : IsSet (Option Bucket)
entry_set = hlevel Bucket_set

unfoldable pub get : String → HashMap → Option Bucket
get k = Quot.lift entry_set (λ t. lookup k t.0) (λ t u h. h k)

unfoldable pub put : String → Bucket → HashMap → HashMap
put k b =
    Quot.lift Quot-set (λ t. Quot.mk (insert k b t.0, insert-IsMap k b t.0 t.1))
      (λ t u h. Quot.sound (λ j.
        lookup-insert k j b t.0
        ∙ ap (λ o. if str_eq k j then some b else o) (h j)
        ∙ sym (lookup-insert k j b u.0)))

get-put :
    (k j : String) (b : Bucket) (m : HashMap)
    → get j (put k b m) ≡ (if str_eq k j then some b else get j m)
unfolding get put
get-put k j b = Quot.ind (λ m. entry_set _ _) (λ t. lookup-insert k j b t.0)

-- Maps from which the same is read are the same map.
get-ext : (m n : HashMap) → ((k : String) → get k m ≡ get k n) → m ≡ n
unfolding get
get-ext =
    Quot.ind (λ m. hlevel Quot-set) (λ t. Quot.ind (λ n. hlevel Quot-set) (λ u h. Quot.sound h))

-- A call of the limiter on maps reads, charges and writes one entry.
unfoldable pub check : RateLimitConfig → HashMap → String → ℕ → HashMap × Bool
check c m identifier now =
    let (b, allowed) = charge c (get identifier m) now in (put identifier b m, allowed)

abbrev pub view : (l : RateLimiter) → IsMap l.requests → HashMap
view l m = Quot.mk (l.requests, m)

-- Writes under two names do not meet.
get-other :
    (i j : String) (b : Bucket) (m : HashMap) → str_eq i j ≡ false → get j (put i b m) ≡ get j m
get-other i j b m other = ground (arith, get-put i j b m)

put_comm :
    (i j : String) (b d : Bucket) (m : HashMap)
    → str_eq i j ≡ false
    → put j d (put i b m) ≡ put i b (put j d m)
put_comm i j b d m other = get-ext _ _ (λ k. ground (
  arith,
  get-put j k d (put i b m),
  get-put i k b m,
  get-put i k b (put j d m),
  get-put j k d m,
  eq_iff i k,
  eq_iff j k,
  eq_iff i j,
))

check_comm :
    (c : RateLimitConfig) (m : HashMap) (i j : String) (s t : ℕ)
    → str_eq i j ≡ false
    → str_eq j i ≡ false
    → let one = check c m i s in
      let two = check c m j t in
      ((check c one.0 j t).0 ≡ (check c two.0 i s).0)
      × ((check c one.0 j t).1 ≡ two.1)
      × ((check c two.0 i s).1 ≡ one.1)
unfolding check
check_comm c m i j s t other swapped =
    let b = (charge c (get i m) s).0 in
    let d = (charge c (get j m) t).0 in
    rw (get-other i j b m other, get-other j i d m swapped) (put_comm i j b d m other, refl, refl)

-- Two calls of different identifiers may come in either order, whenever they are made: each
-- has the same verdict, and the limiter is left with the same map.
pub checks_commute :
    (l : RateLimiter) (m : IsMap l.requests) (i j : String) (s t : ℕ)
    → str_eq i j ≡ false
    → let one = check_rate_limit l i s in
      let two = check_rate_limit l j t in
      let one_m = check-IsMap l i s m in
      let two_m = check-IsMap l j t m in
      (view (check_rate_limit one.0 j t).0 (check-IsMap one.0 j t one_m)
        ≡ view (check_rate_limit two.0 i s).0 (check-IsMap two.0 i s two_m))
      × ((check_rate_limit one.0 j t).1 ≡ two.1)
      × ((check_rate_limit two.0 i s).1 ≡ one.1)
unfolding check check_rate_limit get put
checks_commute l m i j s t other =
    let swapped : str_eq j i ≡ false = ground (arith, eq_iff i j, eq_iff j i) in
    let (maps, mine, theirs) = check_comm l.config (view l m) i j s t other swapped in
    (Quot.sound (λ k. refl) ∙ maps ∙ Quot.sound (λ k. refl), mine, theirs)
