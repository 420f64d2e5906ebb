-- ===== src/Mev/Auth/Messages.antt =====
-- The message that is signed says which body it is for.
use mathlib.Core.List.{append_cancel_left}
use torpc.Common.{
  ℕ, zero, suc, ◌+◌, ◌/◌, ◌%◌, ◌≤◌, ◌≡◌, refl, sym, ap, ◌∙◌, arith, List, [], ◌∷◌, ◌++◌, length,
  length-append, as_bytes, digits, join, decimal,
}
use torpc.Mev.Auth.{create_eip191_message}

length-digits_mono : (fuel n m : ℕ) → n ≤ m → length (digits 10 fuel n) ≤ length (digits 10 fuel m)
unfolding digits
length-digits_mono zero n m h = omega arith
length-digits_mono (suc fuel) n m h = ground (
  arith,
  length-digits_mono fuel (n / 10) (m / 10) (omega arith),
  length-append (digits 10 fuel (n / 10)) (n % 10 ∷ []),
  length-append (digits 10 fuel (m / 10)) (m % 10 ∷ []),
)

length-as_bytes : (ds : List ℕ) → length (as_bytes (join ds)) ≡ length ds
unfolding join
length-as_bytes [] = refl
length-as_bytes (d ∷ ds) = ap suc (length-as_bytes ds)

length-decimal_mono :
    (n m : ℕ) → n ≤ m → length (as_bytes (decimal n)) ≤ length (as_bytes (decimal m))
unfolding decimal
length-decimal_mono n m h = omega (
  arith,
  length-as_bytes (digits 10 20 n),
  length-as_bytes (digits 10 20 m),
  length-digits_mono 20 n m h,
)

abbrev prefix_of : List ℕ → List ℕ
prefix_of body =
    0x19 ∷ as_bytes "Ethereum Signed Message:" ++ 0x0a ∷ as_bytes (decimal (length body))

length-prefix_mono :
    (a b : List ℕ) → length a ≤ length b → length (prefix_of a) ≤ length (prefix_of b)
length-prefix_mono a b h = omega (arith, length-decimal_mono (length a) (length b) h)

-- Two bodies for which the same message is signed are the same body.
pub create_eip191_message_inj :
    (a b : List ℕ) → create_eip191_message a ≡ create_eip191_message b → a ≡ b
unfolding create_eip191_message
create_eip191_message_inj a b same =
    let sizes : length (prefix_of a) + length a ≡ length (prefix_of b) + length b =
      sym (length-append (prefix_of a) a) ∙ ap length same ∙ length-append (prefix_of b) b in
    let equal : length a ≡ length b =
      grind (arith, length-prefix_mono a b, length-prefix_mono b a) in
    let prefixes : prefix_of a ≡ prefix_of b =
      ap (λ n. 0x19 ∷ as_bytes "Ethereum Signed Message:" ++ 0x0a ∷ as_bytes (decimal n)) equal in
    append_cancel_left (prefix_of a) a b (same ∙ ap (λ p. p ++ b) (sym prefixes))
