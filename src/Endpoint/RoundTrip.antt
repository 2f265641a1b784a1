-- ===== src/Endpoint/RoundTrip.antt =====
-- An endpoint is found again from the address and the port that it shows; an address in brackets is
-- not read.
use xcoro.Base.{
  ℕ, ◌≡◌, ◌<◌, ◌⊎◌, inl, inr, refl, sym, ap, subst, ◌∙◌, Bool, true, false, ◌||◌, Option, none,
  some, [], ◌∷◌, ◌++◌, arith, append_nil, if◌then◌else◌,
}
use xcoro.Endpoint.{
  String, StringView, bracket, any_text, any6_text, Inet, Has, InetLaws, Endpoint, Made, made,
  invalid_numeric_address, invalid_sockaddr, front_is, same_text, is_empty, strip_brackets, ipv4,
  ipv6, numeric_address, from_numeric_address, address_string, port,
}

pub same_text_sound : (s t : String) → same_text s t ≡ true → s ≡ t
unfolding same_text
same_text_sound [] [] e = refl
same_text_sound [] (y ∷ t) e = absurd (ground (arith, e))
same_text_sound (x ∷ s) [] e = absurd (ground (arith, e))
same_text_sound (x ∷ s) (y ∷ t) e = ground (arith, same_text_sound s t)

front-Has : (c : ℕ) (s : String) → front_is c s ≡ true → Has c s
unfolding front_is
front-Has c [] e = absurd (ground (arith, e))
front-Has c (x ∷ s) e = inl (ground arith)

-- A text with nothing behind it, as in a `std::string`.
abbrev pub view : String → StringView
view s = record { chars = s; behind = [] }

module _ (i : Inet) (laws : InetLaws i) where
  printed-unstripped :
      (s : String) (a : ℕ)
      → (i.pton s ≡ some a) ⊎ (i.pton6 s ≡ some a)
      → strip_brackets (view s) ≡ view s
  unfolding strip_brackets
  printed-unstripped s a read =
      ground (arith, front-Has bracket s, laws.pton_bracket s, laws.pton6_bracket s)

  is_empty-unread : (s : String) → is_empty s ≡ true → (i.pton s ≡ none) × (i.pton6 s ≡ none)
  is_empty-unread [] e = (laws.pton_empty, laws.pton6_empty)
  is_empty-unread (x ∷ s) e = absurd (ground (arith, e))

  any_text-read : (s : String) → same_text s any_text ≡ true → i.pton s ≡ some i.inaddr_any
  any_text-read s e = ap i.pton (same_text_sound s any_text e) ∙ laws.pton_any

  any6_text-read : (s : String) → same_text s any6_text ≡ true → i.pton6 s ≡ some i.in6addr_any
  any6_text-read s e = ap i.pton6 (same_text_sound s any6_text e) ∙ laws.pton6_any

  numeric_address-read :
      (s : String) (a p : ℕ) → i.pton s ≡ some a → numeric_address i s s p ≡ made (ipv4 i p a)
  unfolding numeric_address
  numeric_address-read s a p e = ground (arith, e, is_empty-unread s, any_text-read s)

  numeric_address-read6 :
      (s : String) (a p : ℕ)
      → i.pton s ≡ none
      → i.pton6 s ≡ some a
      → numeric_address i s s p ≡ made (ipv6 i p a)
  unfolding numeric_address
  numeric_address-read6 s a p no4 e =
      ground (arith, e, no4, is_empty-unread s, any_text-read s, any6_text-read s)

  from_numeric_address-printed :
      (s : String) (a p : ℕ)
      → (i.pton s ≡ some a) ⊎ (i.pton6 s ≡ some a)
      → from_numeric_address i (view s) p ≡ numeric_address i s s p
  unfolding from_numeric_address
  from_numeric_address-printed s a p read =
      ap (λ (v : StringView). numeric_address i v.chars (v.chars ++ v.behind) p)
        (printed-unstripped s a read)
      ∙ ap (λ (t : String). numeric_address i s t p) (append_nil s)

  again : (a p : ℕ) → from_numeric_address i (view (i.ntop a)) p ≡ made (ipv4 i p a)
  again a p =
      from_numeric_address-printed (i.ntop a) a p (inl (laws.pton-ntop a))
      ∙ numeric_address-read (i.ntop a) a p (laws.pton-ntop a)

  again6 : (a p : ℕ) → from_numeric_address i (view (i.ntop6 a)) p ≡ made (ipv6 i p a)
  again6 a p =
      from_numeric_address-printed (i.ntop6 a) a p (inr (laws.pton6-ntop6 a))
      ∙ numeric_address-read6 (i.ntop6 a) a p (laws.pton-ntop6 a) (laws.pton6-ntop6 a)

  Reads : ℕ → String → Made → Type 0
  Reads p s m =
      ((a : ℕ) × (m ≡ made (ipv4 i p a)))
      ⊎ (((a : ℕ) × (m ≡ made (ipv6 i p a))) ⊎ (m ≡ invalid_numeric_address s))

  -- The four tests of `from_numeric_address`.
  chosen-Reads :
      (s : String) (p : ℕ) (any : Bool) (read : Option ℕ) (any6 : Bool) (read6 : Option ℕ)
      → Reads p s (
          if any then made (ipv4 i p i.inaddr_any) else elim read [
            | some a ↦ made (ipv4 i p a)
            | none ↦
                if any6
                then made (ipv6 i p i.in6addr_any)
                else elim read6 [ some a ↦ made (ipv6 i p a) | none ↦ invalid_numeric_address s ]
          ])
  unfolding Reads
  chosen-Reads s p true read any6 read6 = inl (i.inaddr_any, refl)
  chosen-Reads s p false (some a) any6 read6 = inl (a, refl)
  chosen-Reads s p false none true read6 = inr (inl (i.in6addr_any, refl))
  chosen-Reads s p false none false (some a) = inr (inl (a, refl))
  chosen-Reads s p false none false none = inr (inr refl)

  numeric_address-Reads : (s t : String) (p : ℕ) → Reads p s (numeric_address i s t p)
  unfolding numeric_address
  numeric_address-Reads s t p =
      chosen-Reads s p (is_empty s || same_text s any_text) (i.pton t) (same_text s any6_text)
        (i.pton6 t)

  endpoint_of : Made → Endpoint
  endpoint_of (made ep) = ep
  endpoint_of (invalid_numeric_address s) = ipv4 i 0 0
  endpoint_of invalid_sockaddr = ipv4 i 0 0

  is_made : Made → Bool
  is_made (made ep) = true
  is_made (invalid_numeric_address s) = false
  is_made invalid_sockaddr = false

  Shown : ℕ → Endpoint → Type 0
  Shown p ep =
      (from_numeric_address i (view (address_string i ep)) (port i ep) ≡ made ep) × (port i ep ≡ p)

  ipv4-Shown : (a p : ℕ) → p < 65536 → Shown p (ipv4 i p a)
  unfolding Shown address_string port
  ipv4-Shown a p small = (rw (laws.ntohs-htons p small) (again a p), laws.ntohs-htons p small)

  ipv6-Shown : (a p : ℕ) → p < 65536 → Shown p (ipv6 i p a)
  unfolding Shown address_string port
  ipv6-Shown a p small = (rw (laws.ntohs-htons p small) (again6 a p), laws.ntohs-htons p small)

  Reads-Shown :
      (s : String) (p : ℕ) (m : Made) (ep : Endpoint)
      → p < 65536
      → m ≡ made ep
      → Reads p s m
      → Shown p ep
  unfolding Reads endpoint_of is_made
  Reads-Shown s p m ep small e (inl (a, e')) =
      subst (Shown p) (ap endpoint_of (sym e' ∙ e)) (ipv4-Shown a p small)
  Reads-Shown s p m ep small e (inr (inl (a, e'))) =
      subst (Shown p) (ap endpoint_of (sym e' ∙ e)) (ipv6-Shown a p small)
  Reads-Shown s p m ep small e (inr (inr e')) = absurd (ground (arith, ap is_made (sym e' ∙ e)))

  -- With conversions that behave as documented, an endpoint that was made from a numeric address and a
  -- port of 16 bits, of either family and in whatever
  -- notation, is made again from the address and the port that it shows; and the port is the one it
  -- was made from.
  pub from_numeric_address-address_string :
      (v : StringView) (p : ℕ) (ep : Endpoint)
      → p < 65536
      → from_numeric_address i v p ≡ made ep
      → (from_numeric_address i (view (address_string i ep)) (port i ep) ≡ made ep)
        × (port i ep ≡ p)
  unfolding from_numeric_address Shown
  from_numeric_address-address_string v p ep small e =
      let w = strip_brackets v in
      Reads-Shown w.chars p (numeric_address i w.chars (w.chars ++ w.behind) p) ep small e
        (numeric_address-Reads w.chars (w.chars ++ w.behind) p)
