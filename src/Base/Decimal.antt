-- ===== src/Base/Decimal.antt =====
-- Package strconv: Atoi and Itoa on 64-bit integers.
use Prim.Native.Nat.{ℕ, zero, suc, ◌+◌, ◌-◌, ◌*◌, ◌/◌, ◌%◌, ◌^◌, ◌≤◌, ◌<◌}
use mathlib.Core.Path.{◌≡◌, refl, sym, ap, ◌∙◌}
use mathlib.Core.Bool.{true, false, ◌&&◌}
use mathlib.Core.Logic.{inl, inr}
use mathlib.Core.List.{[], ◌∷◌}
use mathlib.Core.Option.{Option, none, some}
use native.Mathlib.Omega.{arith}
use labtether_linux.Base.Tests.{ltb, leb, ◌==◌, if◌then◌else◌, Bool-cases}
use labtether_linux.Base.Int.{ℤ, pos, negsuc}
use labtether_linux.Base.Text.{Text}

unfoldable pub parse_digits : ℕ → Text → Option ℕ
parse_digits v [] = some v
parse_digits v (c ∷ s) =
    let rest = parse_digits (v * 10 + (c - 48)) s in if leb 48 c && leb c 57 then rest else none

-- One digit at least.
unfoldable pub parse_nat : Text → Option ℕ
unfolding parse_digits
parse_nat [] = none
parse_nat (c ∷ s) = parse_digits 0 (c ∷ s)

abbrev pub negate : ℕ → ℤ
negate zero = pos 0
negate (suc n) = negsuc n

abbrev pub within : ℕ → (ℕ → ℤ) → Option ℕ → Option ℤ
within limit sign none = none
within limit sign (some n) = if leb n limit then some (sign n) else none

-- strconv.Atoi
unfoldable pub atoi : Text → Option ℤ
unfolding parse_nat
atoi [] = none
atoi (c ∷ s) =
    if c == b'-'
    then within (2 ^ 63) negate (parse_nat s)
    else if c == b'+'
    then within (2 ^ 63 - 1) pos (parse_nat s)
    else within (2 ^ 63 - 1) pos (parse_nat (c ∷ s))

-- The digits of a number of at most one digit more than the first argument says.
unfoldable pub digits : ℕ → ℕ → Text → Text
digits zero n s = (48 + n % 10) ∷ s
digits (suc k) n s =
    let more = digits k (n / 10) ((48 + n % 10) ∷ s) in if ltb n 10 then (48 + n) ∷ s else more

-- strconv.Itoa; an int has 19 digits at most.
unfoldable pub itoa_nat : ℕ → Text
unfolding digits
itoa_nat n = digits 18 n []

unfoldable pub itoa : ℤ → Text
unfolding itoa_nat
itoa (pos n) = itoa_nat n
itoa (negsuc n) = b'-' ∷ itoa_nat (suc n)

parse_digits-digit :
    (v n : ℕ) (s : Text) → n < 10 → parse_digits v ((48 + n) ∷ s) ≡ parse_digits (v * 10 + n) s
unfolding parse_digits
parse_digits-digit v n s h = simp (yes) (ap (λ m. parse_digits (v * 10 + m) s) (omega arith))
  where
    yes : (leb 48 (48 + n) && leb (48 + n) 57) ≡ true
    yes = ground (arith, h)

parse_digits-digits :
    (k n : ℕ) (s : Text) → n < 10 ^ suc k → parse_digits 0 (digits k n s) ≡ parse_digits n s
unfolding digits
parse_digits-digits zero n s h =
    parse_digits-digit 0 (n % 10) s (omega arith) ∙ ap (λ m. parse_digits m s) (omega (arith, h))
parse_digits-digits (suc k) n s h = elim (Bool-cases (ltb n 10)) [
  | inl one ↦
      simp one
        (parse_digits-digit 0 n s (ground (arith, one)) ∙ ap (λ m. parse_digits m s) (omega arith))
  | inr more ↦ simp more (
      parse_digits-digits k (n / 10) _ (omega (arith, h))
      ∙ parse_digits-digit (n / 10) (n % 10) s (omega arith)
      ∙ ap (λ m. parse_digits m s) (omega arith))
]

-- The first digit is no sign.
first_digit : (k n : ℕ) (s : Text) → (c : ℕ) × (t : Text) × (digits k n s ≡ c ∷ t) × (48 ≤ c)
unfolding digits
first_digit zero n s = (48 + n % 10, s, refl, omega arith)
first_digit (suc k) n s = elim (Bool-cases (ltb n 10)) [
  | inl one ↦ (48 + n, s, simp one refl, omega arith)
  | inr more ↦ simp more (first_digit k (n / 10) ((48 + n % 10) ∷ s))
]

atoi_unsigned :
    (n : ℕ) (t : Text)
    → (c : ℕ) × (s : Text) × (t ≡ c ∷ s) × (48 ≤ c)
    → parse_digits 0 t ≡ some n
    → n ≤ 2 ^ 63 - 1
    → atoi t ≡ some (pos n)
unfolding atoi parse_nat
atoi_unsigned n [] (c, s, e, b) p h = cc
atoi_unsigned n (d ∷ s') (c, s, e, b) p h = simp (minus, plus, p, room) refl
  where
    same : d ≡ c
    same = cc

    minus : (d == 45) ≡ false
    minus = ground (arith, same, b)

    plus : (d == 43) ≡ false
    plus = ground (arith, same, b)

    room : leb n (2 ^ 63 - 1) ≡ true
    room = ground (arith, h)

-- A number that fits an int is what its decimal text says.
pub atoi-itoa : (n : ℕ) → n ≤ 2 ^ 63 - 1 → atoi (itoa (pos n)) ≡ some (pos n)
unfolding itoa itoa_nat parse_digits
atoi-itoa n h =
    atoi_unsigned n (digits 18 n []) (first_digit 18 n [])
      (parse_digits-digits 18 n [] (omega (arith, h))) h

-- A number of at most nineteen digits is read back by its digits.
parse_digits-itoa_nat : (n : ℕ) → n < 10 ^ 19 → parse_digits 0 (itoa_nat n) ≡ some n
unfolding itoa_nat parse_digits
parse_digits-itoa_nat n h = parse_digits-digits 18 n [] h

itoa_nat_injective : (m n : ℕ) → m < 10 ^ 19 → n < 10 ^ 19 → itoa_nat m ≡ itoa_nat n → m ≡ n
itoa_nat_injective m n h k e =
    let same : some m ≡ some n =
      sym (parse_digits-itoa_nat m h) ∙ ap (parse_digits 0) e ∙ parse_digits-itoa_nat n k in
    cc

-- A number of an int.
abbrev pub IsInt : ℤ → Type 0
IsInt (pos n) = n < 2 ^ 63
IsInt (negsuc n) = n < 2 ^ 63

no_sign : (n : ℕ) (s : Text) → ¬ (itoa_nat n ≡ b'-' ∷ s)
unfolding itoa_nat
no_sign n s e = let (c, t, f, low) = first_digit 18 n [] in ground (arith, e, f, low)

-- Two numbers of an int with one decimal text are one number.
pub itoa_injective : (a b : ℤ) → IsInt a → IsInt b → itoa a ≡ itoa b → a ≡ b
unfolding itoa
itoa_injective (pos m) (pos n) h k e =
    ap pos (itoa_nat_injective m n (omega (arith, h)) (omega (arith, k)) e)
itoa_injective (pos m) (negsuc n) h k e = absurd (no_sign m _ e)
itoa_injective (negsuc m) (pos n) h k e = absurd (no_sign n _ (sym e))
itoa_injective (negsuc m) (negsuc n) h k e =
    let tails : itoa_nat (suc m) ≡ itoa_nat (suc n) = cc in
    let same : suc m ≡ suc n =
      itoa_nat_injective (suc m) (suc n) (omega (arith, h)) (omega (arith, k)) tails in
    ap negsuc (omega (arith, same))
