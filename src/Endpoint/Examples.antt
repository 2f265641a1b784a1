-- ===== src/Endpoint/Examples.antt =====
-- The theorems on include/xcoro/net/endpoint.hpp for functions that print an address in unary, on a
-- machine whose byte order is the network's.
use xcoro.Base.{
  ℕ, zero, suc, ◌≡◌, ◌≢◌, inl, inr, refl, ap, subst, true, Option, none, some, [], ◌∷◌, arith, ◌==◌,
  replicate, if◌then◌else◌,
}
use xcoro.Endpoint.{
  String, bracket, closing, colon, any_text, any6_text, Inet, Has, InetLaws, made, same_text, ipv6,
  from_numeric_address, address_string, port,
}
use xcoro.Endpoint.RoundTrip.{view, same_text_sound, from_numeric_address-address_string}

abbrev one_more : Option ℕ → Option ℕ
one_more none = none
one_more (some n) = some (suc n)

abbrev ones : String → Option ℕ
ones [] = some 0
ones (c ∷ s) = if c == 49 then one_more (ones s) else none

abbrev read : ℕ → String → String → Option ℕ
read first any [] = none
read first any (c ∷ s) =
    if same_text (c ∷ s) any then some 0 else if c == first then one_more (ones s) else none

abbrev print : ℕ → String → ℕ → String
print first any zero = any
print first any (suc n) = first ∷ replicate n 49

abbrev unary : Inet
unary = record {
  pton = read 49 any_text;
  pton6 = read colon any6_text;
  ntop = print 49 any_text;
  ntop6 = print colon any6_text;
  htons = λ p. p;
  ntohs = λ p. p;
  inaddr_any = 0;
  in6addr_any = 0;
  to_digits = λ n. replicate n 49;
}

ones-replicate : (n : ℕ) → ones (replicate n 49) ≡ some n
ones-replicate zero = refl
ones-replicate (suc n) = ap one_more (ones-replicate n)

ones-Has : (c : ℕ) (s : String) → c ≢ 49 → Has c s → ones s ≡ none
ones-Has c [] ne h = elim h [ ]
ones-Has c (x ∷ s) ne (inl e) = ground (arith, ne, e)
ones-Has c (x ∷ s) ne (inr h) = ground (arith, ones-Has c s ne h)

read-Has :
    (first : ℕ) (any : String) (c : ℕ) (s : String)
    → c ≢ 49
    → c ≢ first
    → (Has c any → ⊥)
    → Has c s
    → read first any s ≡ none
read-Has first any c [] ne ne' lacks h = elim h [ ]
read-Has first any c (x ∷ s) ne ne' lacks (inl e) = ground (
  arith,
  λ (same : same_text (x ∷ s) any ≡ true).
      lacks (subst (Has c) (same_text_sound (x ∷ s) any same) (inl e)),
  ne',
  e,
)
read-Has first any c (x ∷ s) ne ne' lacks (inr h) = ground (
  arith,
  λ (same : same_text (x ∷ s) any ≡ true).
      lacks (subst (Has c) (same_text_sound (x ∷ s) any same) (inr h)),
  ones-Has c s ne h,
)

read-print : (a : ℕ) → read 49 any_text (print 49 any_text a) ≡ some a
unfolding same_text
read-print zero = refl
read-print (suc n) = ap one_more (ones-replicate n)

read-print6 : (a : ℕ) → read colon any6_text (print colon any6_text a) ≡ some a
unfolding same_text
read-print6 zero = refl
read-print6 (suc zero) = refl
read-print6 (suc (suc n)) = ap (λ (o : Option ℕ). one_more (one_more o)) (ones-replicate n)

read-print_other : (a : ℕ) → read 49 any_text (print colon any6_text a) ≡ none
unfolding same_text
read-print_other zero = refl
read-print_other (suc n) = refl

unary-InetLaws : InetLaws unary
unfolding same_text
unary-InetLaws = record {
  pton-ntop = read-print;
  pton6-ntop6 = read-print6;
  pton-ntop6 = read-print_other;
  pton_any = refl;
  pton6_any = refl;
  pton_empty = refl;
  pton6_empty = refl;
  pton_bracket = λ s h. elim h [
    | inl at ↦
        read-Has 49 any_text bracket s (λ e. omega arith) (λ e. omega arith)
          (λ at'. ground (arith, at')) at
    | inr at ↦
        read-Has 49 any_text closing s (λ e. omega arith) (λ e. omega arith)
          (λ at'. ground (arith, at')) at
  ];
  pton6_bracket = λ s h. elim h [
    | inl at ↦
        read-Has colon any6_text bracket s (λ e. omega arith) (λ e. omega arith)
          (λ at'. ground (arith, at')) at
    | inr at ↦
        read-Has colon any6_text closing s (λ e. omega arith) (λ e. omega arith)
          (λ at'. ground (arith, at')) at
  ];
  ntohs-htons = λ p lt. refl;
}

from_numeric_address-address_string_example :
    (from_numeric_address unary
        (view (address_string unary (ipv6 unary 80 3)))
        (port unary (ipv6 unary 80 3))
      ≡ made (ipv6 unary 80 3))
    × (port unary (ipv6 unary 80 3) ≡ 80)
unfolding from_numeric_address
from_numeric_address-address_string_example =
    from_numeric_address-address_string unary unary-InetLaws (view (colon ∷ 49 ∷ 49 ∷ [])) 80
      (ipv6 unary 80 3) (omega arith) refl
