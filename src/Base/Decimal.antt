-- ===== src/Base/Decimal.antt =====
-- `strconv.FormatInt(n, 10)`: decimal text of an integer, with its reading back.
use Prim.Native.Nat.{ℕ, zero, suc, ◌+◌, ◌-◌, ◌*◌, ◌/◌, ◌%◌, ◌^◌, ◌≤◌, ◌<◌}
use mathlib.Core.Bool.{Bool, true, false, ◌&&◌}
use mathlib.Core.Option.{Option, none, some}
use mathlib.Core.Logic.{◌≢◌, ◌↔◌}
use mathlib.Core.Path.{◌≡◌, ap, sym, ◌∙◌}
use mathlib.Core.List.{[], ◌∷◌}
use native.Mathlib.Omega.{arith}
use miti99bot.Base.Tests.{ltb, leb, ◌==◌, if◌then◌else◌}
use miti99bot.Base.Lists.{All, length}
use miti99bot.Base.Bytes.{Text}

-- `negsuc n` is -(n + 1).
pub data ℤ : Type 0 where
  pos : ℕ → ℤ
  negsuc : ℕ → ℤ

-- The digits of `n` in front of `acc`; the first argument bounds their number.
digits_from : ℕ → ℕ → Text → Text
digits_from zero n acc = acc
digits_from (suc f) n acc =
    let rest = digits_from f (n / 10) ((48 + n % 10) ∷ acc) in
    if ltb n 10 then (48 + n) ∷ acc else rest

unfoldable pub format_nat : ℕ → Text
unfolding digits_from
format_nat n = digits_from (suc n) n []

unfoldable pub format_int : ℤ → Text
unfolding format_nat
format_int (pos n) = format_nat n
format_int (negsuc n) = b'-' ∷ format_nat (suc n)

-- The number that a text of digits stands for, after a number already read.
value_from : ℕ → Text → ℕ
value_from a [] = a
value_from a (c ∷ s) = value_from (a * 10 + (c - 48)) s

value_from-digits_from :
    (f n : ℕ) (acc : Text) → n < f → value_from 0 (digits_from f n acc) ≡ value_from n acc
unfolding digits_from value_from
value_from-digits_from zero n acc h = absurd (omega arith)
value_from-digits_from (suc f) n acc h =
    let e : n / 10 * 10 + (48 + n % 10 - 48) ≡ n = omega arith in
    let lead : 0 * 10 + (48 + n - 48) ≡ n = omega arith in
    ground (
      arith,
      value_from-digits_from f (n / 10) ((48 + n % 10) ∷ acc),
      ap (λ k. value_from k acc) e,
      ap (λ k. value_from k acc) lead,
    )

value_from-format_nat : (n : ℕ) → value_from 0 (format_nat n) ≡ n
unfolding format_nat value_from
value_from-format_nat n = value_from-digits_from (suc n) n [] (omega arith)

pub format_nat_injective : (m n : ℕ) → format_nat m ≡ format_nat n → m ≡ n
unfolding format_nat value_from
format_nat_injective m n h =
    sym (value_from-digits_from (suc m) m [] (omega arith))
    ∙ ap (value_from 0) h
    ∙ value_from-digits_from (suc n) n [] (omega arith)

abbrev pub IsDigits : Text → Type 0
IsDigits = All (λ c. (48 ≤ c) × (c ≤ 57))

digits_from-IsDigits : (f n : ℕ) (acc : Text) → IsDigits acc → IsDigits (digits_from f n acc)
unfolding digits_from
digits_from-IsDigits zero n acc h = h
digits_from-IsDigits (suc f) n acc h =
    ground
      (arith, digits_from-IsDigits f (n / 10) ((48 + n % 10) ∷ acc) ((omega arith, omega arith), h))

pub format_nat-IsDigits : (n : ℕ) → IsDigits (format_nat n)
unfolding format_nat
format_nat-IsDigits n = digits_from-IsDigits (suc n) n [] tt

shorter : (k n : ℕ) → n < 10 ^ suc (suc k) → n / 10 < 10 ^ suc k
shorter k n h = omega (arith, h)

digits_from-length :
    (k f n : ℕ) (acc : Text) → n < 10 ^ suc k → length (digits_from f n acc) ≤ suc k + length acc
unfolding digits_from
digits_from-length k zero n acc h = omega arith
digits_from-length zero (suc f) n acc h = ground (arith, h)
digits_from-length (suc k) (suc f) n acc h =
    ground (arith, digits_from-length k f (n / 10) ((48 + n % 10) ∷ acc) (shorter k n h))

-- A number below a power of ten has at most as many digits.
pub length-format_nat : (k n : ℕ) → n < 10 ^ suc k → length (format_nat n) ≤ suc k
unfolding format_nat
length-format_nat k n h = omega (arith, digits_from-length k (suc n) n [] h)

-- Different integers have different decimal texts.
pub format_int_injective : (m n : ℤ) → format_int m ≡ format_int n → m ≡ n
unfolding format_int
format_int_injective (pos m) (pos n) h = ap pos (format_nat_injective m n h)
format_int_injective (negsuc m) (negsuc n) h = ground (arith, format_nat_injective (suc m) (suc n))
format_int_injective (pos m) (negsuc n) h = absurd (grind (arith, format_nat-IsDigits m, h))
format_int_injective (negsuc m) (pos n) h = absurd (grind (arith, format_nat-IsDigits n, h))

-- `a == b` on integers
abbrev pub int_eq : ℤ → ℤ → Bool
int_eq (pos a) (pos b) = a == b
int_eq (negsuc a) (negsuc b) = a == b
int_eq (pos a) (negsuc b) = false
int_eq (negsuc a) (pos b) = false

-- `a < b` on integers
abbrev pub int_lt : ℤ → ℤ → Bool
int_lt (pos a) (pos b) = ltb a b
int_lt (negsuc a) (negsuc b) = ltb b a
int_lt (pos a) (negsuc b) = false
int_lt (negsuc a) (pos b) = true

-- `a + b` and `a - b` where neither overflows
abbrev int_diff : ℕ → ℕ → ℤ
int_diff a b = if leb b a then pos (a - b) else negsuc (b - a - 1)

abbrev pub int_add : ℤ → ℤ → ℤ
int_add (pos a) (pos b) = pos (a + b)
int_add (negsuc a) (negsuc b) = negsuc (a + b + 1)
int_add (pos a) (negsuc b) = int_diff a (b + 1)
int_add (negsuc a) (pos b) = int_diff b (a + 1)

abbrev pub int_sub : ℤ → ℤ → ℤ
int_sub (pos a) (pos b) = int_diff a b
int_sub (negsuc a) (negsuc b) = int_diff (b + 1) (a + 1)
int_sub (pos a) (negsuc b) = pos (a + b + 1)
int_sub (negsuc a) (pos b) = negsuc (a + b)

pub int_eq_iff : (a b : ℤ) → (int_eq a b ≡ true) ↔ (a ≡ b)
int_eq_iff (pos a) (pos b) = ((λ h. ground arith), (λ h. ground arith))
int_eq_iff (negsuc a) (negsuc b) = ((λ h. ground arith), (λ h. ground arith))
int_eq_iff (pos a) (negsuc b) = ((λ h. cc), (λ h. cc))
int_eq_iff (negsuc a) (pos b) = ((λ h. cc), (λ h. cc))

-- The number of a non-empty text of digits
unfoldable pub digits_value : Text → Option ℕ → Option ℕ
digits_value [] acc = acc
digits_value (c ∷ s) none =
    let rest = digits_value s (some (c - 48)) in if leb 48 c && leb c 57 then rest else none
digits_value (c ∷ s) (some a) =
    let rest = digits_value s (some (a * 10 + (c - 48))) in
    if leb 48 c && leb c 57 then rest else none

abbrev pub negative : ℕ → ℤ
negative zero = pos 0
negative (suc n) = negsuc n

abbrev pub as_integer : (ℕ → ℤ) → Option ℕ → Option ℤ
as_integer f none = none
as_integer f (some n) = some (f n)

-- `strconv.ParseInt(s, 10, 64)` and `strconv.Atoi`, without their bounds: a sign, and digits.
unfoldable pub parse_integer : Text → Option ℤ
unfolding digits_value
parse_integer [] = none
parse_integer (c ∷ s) =
    if c == 43
    then as_integer pos (digits_value s none)
    else if c == 45
    then as_integer negative (digits_value s none)
    else as_integer pos (digits_value (c ∷ s) none)

digits_value-IsDigits :
    (a : ℕ) (s : Text) → IsDigits s → digits_value s (some a) ≡ some (value_from a s)
unfolding digits_value value_from
digits_value-IsDigits a [] h = ground arith
digits_value-IsDigits a (c ∷ s) h =
    ground (arith, h, digits_value-IsDigits (a * 10 + (c - 48)) s h.1)

read_digits : (s : Text) → s ≢ [] → IsDigits s → parse_integer s ≡ some (pos (value_from 0 s))
unfolding parse_integer digits_value value_from
read_digits [] h k = absurd (h (λ i. []))
read_digits (c ∷ s) h k = ground (arith, k, digits_value-IsDigits (c - 48) s k.1)

digits_from-longer : (f n : ℕ) (acc : Text) → length acc ≤ length (digits_from f n acc)
unfolding digits_from
digits_from-longer zero n acc = omega arith
digits_from-longer (suc f) n acc =
    ground (arith, digits_from-longer f (n / 10) ((48 + n % 10) ∷ acc))

format_nat-nonempty : (n : ℕ) → format_nat n ≢ []
unfolding format_nat digits_from
format_nat-nonempty n e = ground (arith, e, digits_from-longer n (n / 10) ((48 + n % 10) ∷ []))

-- The decimal text of a number reads back as the number.
pub parse_integer-format_nat : (n : ℕ) → parse_integer (format_nat n) ≡ some (pos n)
parse_integer-format_nat n =
    read_digits (format_nat n) (format_nat-nonempty n) (format_nat-IsDigits n)
    ∙ ap (λ k. some (pos k)) (value_from-format_nat n)
