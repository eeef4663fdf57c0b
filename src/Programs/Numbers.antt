-- ===== src/Programs/Numbers.antt =====
-- `std::stoi`, which `expectInt` of example/include/util.h calls: what it reads, and in which range.
use spinet.Common.{
  ℕ, zero, suc, ◌+◌, ◌-◌, ◌*◌, ◌^◌, ◌<◌, ◌≡◌, ◌≢◌, refl, ap, ◌∙◌, ◌/◌, ◌%◌, ◌++◌, if_cases, Bool,
  true, false, ◌&&◌, ◌||◌, Option, none, some, [], ◌∷◌, All, Text, to_decimal, digits_fuel, leb,
  ltb, ◌==◌, if◌then◌else◌, ℤ, pos, negsuc, neg, IsInt32, arith,
}
use spinet.Common.Decimal.{value, IsDigit, value-digits, digits-IsDigit}

is_space : ℕ → Bool
is_space c = (c == 32) || (leb 9 c && leb c 13)

skip_spaces : Text → Text
unfolding is_space
skip_spaces [] = []
skip_spaces (c ∷ t) = if is_space c then skip_spaces t else c ∷ t

is_digit : ℕ → Bool
is_digit c = leb b'0' c && leb c b'9'

-- The number that the digits in front stand for, behind those already read, if there is one.
read_digits : ℕ → (some_read : Bool) → Text → Option ℕ
unfolding is_digit
read_digits n some_read [] = if some_read then some n else none
read_digits n some_read (c ∷ t) =
    let rest = read_digits (n * 10 + (c - b'0')) true t in
    if is_digit c then rest else if some_read then some n else none

-- Numbers that an `int` does not hold are refused.
positive : Option ℕ → Option ℤ
positive none = none
positive (some n) = if ltb n (2 ^ 31) then some (pos n) else none

negative : Option ℕ → Option ℤ
negative none = none
negative (some n) = if leb n (2 ^ 31) then some (neg n) else none

read_signed : Text → Option ℤ
unfolding positive negative read_digits
read_signed [] = none
read_signed (c ∷ t) =
    if c == b'-'
    then negative (read_digits 0 false t)
    else if c == b'+'
    then positive (read_digits 0 false t)
    else positive (read_digits 0 false (c ∷ t))

-- `none` stands for its exceptions.
unfoldable pub stoi : Text → Option ℤ
unfolding read_signed skip_spaces
stoi t = read_signed (skip_spaces t)

positive-IsInt32 : (o : Option ℕ) (z : ℤ) → positive o ≡ some z → IsInt32 z
unfolding positive
positive-IsInt32 none z h = absurd (ground arith)
positive-IsInt32 (some n) (pos m) h = ground arith
positive-IsInt32 (some n) (negsuc m) h = absurd (ground arith)

negative-IsInt32 : (o : Option ℕ) (z : ℤ) → negative o ≡ some z → IsInt32 z
unfolding negative
negative-IsInt32 none z h = absurd (ground arith)
negative-IsInt32 (some zero) (pos m) h = ground arith
negative-IsInt32 (some zero) (negsuc m) h = absurd (ground arith)
negative-IsInt32 (some (suc n)) (pos m) h = absurd (ground arith)
negative-IsInt32 (some (suc n)) (negsuc m) h = ground arith

-- What `stoi` returns fits in an `int`.
pub stoi-IsInt32 : (t : Text) (z : ℤ) → stoi t ≡ some z → IsInt32 z
unfolding stoi read_signed
stoi-IsInt32 t z = go (skip_spaces t)
  where
    go : (u : Text) → read_signed u ≡ some z → IsInt32 z
    go [] h = absurd (ground arith)
    go (c ∷ u) h =
        if_cases (λ (o : Option ℤ). o ≡ some z → IsInt32 z) (c == b'-')
          (λ _. negative-IsInt32 (read_digits 0 false u) z)
          (λ _.
            if_cases (λ (o : Option ℤ). o ≡ some z → IsInt32 z) (c == b'+')
              (λ _. positive-IsInt32 (read_digits 0 false u) z)
              (λ _. positive-IsInt32 (read_digits 0 false (c ∷ u)) z))
          h

read_digits-value : (t : Text) (n : ℕ) → All IsDigit t → read_digits n true t ≡ some (value n t)
unfolding read_digits is_digit
read_digits-value [] n h = refl
read_digits-value (c ∷ t) n h = ground (arith, read_digits-value t (n * 10 + (c - b'0')) h.1)

stoi-digits :
    (t : Text) → t ≢ [] → All IsDigit t → value 0 t < 2 ^ 31 → stoi t ≡ some (pos (value 0 t))
unfolding stoi read_signed skip_spaces is_space positive read_digits is_digit
stoi-digits [] ne h fits = absurd (ne refl)
stoi-digits (c ∷ t) ne h fits = ground (arith, read_digits-value t (0 * 10 + (c - b'0')) h.1)

append-ne-nil : (t : Text) (c : ℕ) → t ++ c ∷ [] ≢ []
append-ne-nil [] c h = cc
append-ne-nil (x ∷ t) c h = cc

digits-ne-nil : (f n : ℕ) → digits_fuel (suc f) n ≢ []
unfolding digits_fuel
digits-ne-nil f n =
    if_cases (λ (t : Text). t ≢ []) (ltb n 10) (λ _ h. cc)
      (λ _. append-ne-nil (digits_fuel f (n / 10)) (b'0' + n % 10))

-- A number below 2 ^ 31 is read back from what `std::to_string` prints of it.
pub stoi-to_decimal : (n : ℕ) → n < 2 ^ 31 → stoi (to_decimal n) ≡ some (pos n)
unfolding to_decimal
stoi-to_decimal n h =
    stoi-digits (digits_fuel (suc n) n) (digits-ne-nil n n) (digits-IsDigit (suc n) n)
      (omega (arith, exact))
    ∙ ap (λ m. some (pos m)) exact
  where
    exact : value 0 (digits_fuel (suc n) n) ≡ n
    exact = value-digits (suc n) n (omega arith)
