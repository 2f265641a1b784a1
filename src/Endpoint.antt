-- ===== src/Endpoint.antt =====
-- include/xcoro/net/endpoint.hpp: `endpoint`.
-- Characters are numbers. A `std::string_view` is its characters and those behind its end up to the
-- next NUL, which a reader of `data()` sees too. The functions of the C library are a parameter:
-- `Inet` has them, and `InetLaws` what their documentation says.
pub mod RoundTrip
pub mod Brackets
mod Examples
use xcoro.Base.{
  ℕ, zero, suc, ◌+◌, ◌≡◌, ◌⊎◌, ◌<◌, Bool, true, false, ◌&&◌, ◌||◌, Option, none, some, List, [],
  ◌∷◌, ◌++◌, ltb, ◌==◌, length, take, ◌-◌, if◌then◌else◌,
}

abbrev pub String : Type 0
String = List ℕ

pub record StringView : Type 0 where
  pub chars : String
  pub behind : String

-- `[`, `]`, `:`
abbrev pub bracket : ℕ
bracket = 91

abbrev pub closing : ℕ
closing = 93

abbrev pub colon : ℕ
colon = 58

-- "0.0.0.0" and "::"
abbrev pub any_text : String
any_text = 48 ∷ 46 ∷ 48 ∷ 46 ∷ 48 ∷ 46 ∷ 48 ∷ []

abbrev pub any6_text : String
any6_text = colon ∷ colon ∷ []

pub record Inet : Type 0 where
  -- `inet_pton` and `inet_ntop` for both families; `none` is a result other than 1.
  pub pton : String → Option ℕ
  pub pton6 : String → Option ℕ
  pub ntop : ℕ → String
  pub ntop6 : ℕ → String
  pub htons : ℕ → ℕ
  pub ntohs : ℕ → ℕ
  -- `htonl(INADDR_ANY)` and `in6addr_any`
  pub inaddr_any : ℕ
  pub in6addr_any : ℕ
  -- `std::to_string`
  pub to_digits : ℕ → String

abbrev pub Has : ℕ → String → Type 0
Has c [] = ⊥
Has c (x ∷ xs) = (x ≡ c) ⊎ Has c xs

-- An address is printed in a form that is read as the same address, and not as one of the other
-- family. No readable address has a bracket in it.
pub record InetLaws (i : Inet) : Type 0 where
  pub pton-ntop : (a : ℕ) → i.pton (i.ntop a) ≡ some a
  pub pton6-ntop6 : (a : ℕ) → i.pton6 (i.ntop6 a) ≡ some a
  pub pton-ntop6 : (a : ℕ) → i.pton (i.ntop6 a) ≡ none
  pub pton_any : i.pton any_text ≡ some i.inaddr_any
  pub pton6_any : i.pton6 any6_text ≡ some i.in6addr_any
  pub pton_empty : i.pton [] ≡ none
  pub pton6_empty : i.pton6 [] ≡ none
  pub pton_bracket : (s : String) → Has bracket s ⊎ Has closing s → i.pton s ≡ none
  pub pton6_bracket : (s : String) → Has bracket s ⊎ Has closing s → i.pton6 s ≡ none
  pub ntohs-htons : (p : ℕ) → p < 65536 → i.ntohs (i.htons p) ≡ p

-- What the storage holds: nothing, an address of one of the two families with its port in network
-- byte order, or one of another family.
pub data Storage : Type 0 where
  zeroed : Storage
  sockaddr_in : ℕ → ℕ → Storage
  sockaddr_in6 : ℕ → ℕ → Storage
  other : ℕ → Storage

pub record Endpoint : Type 0 where
  pub storage : Storage
  pub length : ℕ

-- How a call ends: `std::runtime_error` has two causes here.
pub data Made : Type 0 where
  made : Endpoint → Made
  invalid_numeric_address : String → Made
  invalid_sockaddr : Made

unfoldable pub front_is : ℕ → String → Bool
front_is c [] = false
front_is c (x ∷ xs) = x == c

unfoldable pub back_is : ℕ → String → Bool
back_is c [] = false
back_is c (x ∷ []) = x == c
back_is c (x ∷ y ∷ xs) = back_is c (y ∷ xs)

unfoldable pub same_text : String → String → Bool
same_text [] [] = true
same_text [] (y ∷ ys) = false
same_text (x ∷ xs) [] = false
same_text (x ∷ xs) (y ∷ ys) = (x == y) && same_text xs ys

abbrev pub is_empty : String → Bool
is_empty [] = true
is_empty (x ∷ xs) = false

-- `substr(1, size() - 2)` of a view that ends in a bracket, which is then behind its end.
unfoldable pub inner : String → String
inner [] = []
inner (x ∷ xs) = take (length xs - 1) xs

-- Of a view: the first test of `from_numeric_address`, and what follows it.
unfoldable pub strip_brackets : StringView → StringView
unfolding front_is back_is inner
strip_brackets v =
    if front_is bracket v.chars && back_is closing v.chars
    then record { chars = inner v.chars; behind = closing ∷ v.behind }
    else v

module _ (i : Inet) where
  abbrev pub ipv4 : ℕ → ℕ → Endpoint
  ipv4 port address = record { storage = sockaddr_in (i.htons port) address; length = 16 }

  abbrev pub ipv6 : ℕ → ℕ → Endpoint
  ipv6 port address = record { storage = sockaddr_in6 (i.htons port) address; length = 28 }

  -- Behind the test of the brackets; `text` is what `inet_pton` reads at `data()`.
  unfoldable pub numeric_address : String → String → ℕ → Made
  unfolding same_text
  numeric_address address text port =
      if is_empty address || same_text address any_text
      then made (ipv4 port i.inaddr_any)
      else elim (i.pton text) [
        | some a ↦ made (ipv4 port a)
        | none ↦
            if same_text address any6_text
            then made (ipv6 port i.in6addr_any)
            else elim (i.pton6 text) [
              | some a ↦ made (ipv6 port a)
              | none ↦ invalid_numeric_address address
            ]
      ]

  unfoldable pub from_numeric_address : StringView → ℕ → Made
  unfolding strip_brackets numeric_address
  from_numeric_address address port =
      let v = strip_brackets address in numeric_address v.chars (v.chars ++ v.behind) port

  unfoldable pub address_string : Endpoint → String
  address_string ep = elim ep.storage [
    | zeroed ↦ []
    | sockaddr_in port a ↦ i.ntop a
    | sockaddr_in6 port a ↦ i.ntop6 a
    | other family ↦ []
  ]

  unfoldable pub port : Endpoint → ℕ
  port ep = elim ep.storage [
    | zeroed ↦ 0
    | sockaddr_in p a ↦ i.ntohs p
    | sockaddr_in6 p a ↦ i.ntohs p
    | other family ↦ 0
  ]

  abbrev pub is_ipv6 : Storage → Bool
  is_ipv6 zeroed = false
  is_ipv6 (sockaddr_in p a) = false
  is_ipv6 (sockaddr_in6 p a) = true
  is_ipv6 (other family) = false

  unfoldable pub to_string : Endpoint → String
  unfolding address_string port
  to_string ep =
      let digits = colon ∷ i.to_digits (port ep) in
      if is_ipv6 ep.storage
      then (bracket ∷ address_string ep) ++ (closing ∷ digits)
      else address_string ep ++ digits

-- `from_sockaddr`: the storage is what the `len` bytes at the address make, with zeros behind them.
unfoldable pub from_sockaddr : Option Storage → ℕ → Made
from_sockaddr none len = invalid_sockaddr
from_sockaddr (some sa) len =
    if len == 0 || ltb 128 len
    then invalid_sockaddr
    else made (record { storage = sa; length = len })
