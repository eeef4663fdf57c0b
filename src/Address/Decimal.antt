-- ===== src/Address/Decimal.antt =====
-- `Address::to_string` (src/core/address.cpp) can be read back: the text after its last colon is the
-- port in decimal, and what stands before it the address.
use spinet.Common.{
  ℕ, suc, ◌≡◌, refl, ap, Option, none, some, [], ◌∷◌, ◌++◌, All, Text, to_decimal, ◌==◌,
  if◌then◌else◌, arith,
}
use spinet.Common.Decimal.{value, IsDigit, value-digits, digits-IsDigit}
use spinet.Address.{Address, to_string}

-- The texts before and after the last colon.
pub split_last : Text → Option (Text × Text)
split_last [] = none
split_last (c ∷ cs) = elim (split_last cs) [
  | some (before, after) ↦ some (c ∷ before, after)
  | none ↦ if c == b':' then some ([], cs) else none
]

abbrev pub read_ports : Option (Text × Text) → Option (Text × ℕ)
read_ports none = none
read_ports (some (before, after)) = some (before, value 0 after)

-- An address and a port, read from a text.
abbrev pub read_back : Text → Option (Text × ℕ)
read_back t = read_ports (split_last t)

split_last-digits : (d : Text) → All IsDigit d → split_last d ≡ none
unfolding split_last
split_last-digits [] h = refl
split_last-digits (c ∷ cs) h = rw (split_last-digits cs h.1, split_last) (ground arith)

split_last-append : (a d : Text) → split_last d ≡ none → split_last (a ++ b':' ∷ d) ≡ some (a, d)
unfolding split_last
split_last-append [] d h = rw (h, split_last)
split_last-append (c ∷ a) d h = rw (split_last-append a d h, split_last)

-- An address prints to a text from which its address and its port are read back, whatever characters
-- the address has. So addresses that print alike have the same address and the same port.
pub read_back-to_string : (a : Address) → read_back (to_string a) ≡ some (a.address, a.port)
unfolding to_string to_decimal
read_back-to_string a =
    rw (split_last-append a.address _ (split_last-digits _ (digits-IsDigit (suc a.port) a.port)))
      (ap (λ n. some (a.address, n)) (value-digits (suc a.port) a.port (omega arith)))
