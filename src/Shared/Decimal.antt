-- ===== src/Shared/Decimal.antt =====
-- `strconv.FormatUint(…, 10)`, and what reading such a text gives back.
use Prim.Native.Nat.{ℕ, zero, suc, ◌+◌, ◌-◌, ◌*◌, ◌/◌, ◌%◌, ◌<◌}
use Prim.Native.Char.{Char, code}
use Prim.Native.String.{String}
use mathlib.Core.Path.{◌≡◌, refl, ap}
use mathlib.Core.Bool.{true, false}
use mathlib.Core.Option.{some}
use mathlib.Core.Logic.{◌≢◌, inl, inr}
use native.Mathlib.Omega.{arith}
use batchq.Shared.Tests.{ltb, Bool-cases}
use batchq.Shared.Text.{is_digit, digits, digits_of, trim_space, trim_left, trim_right, is_space}

digit_char : ℕ → Char
digit_char zero = "0"
digit_char (suc zero) = "1"
digit_char (suc (suc zero)) = "2"
digit_char (suc (suc (suc zero))) = "3"
digit_char (suc (suc (suc (suc zero)))) = "4"
digit_char (suc (suc (suc (suc (suc zero))))) = "5"
digit_char (suc (suc (suc (suc (suc (suc zero)))))) = "6"
digit_char (suc (suc (suc (suc (suc (suc (suc zero))))))) = "7"
digit_char (suc (suc (suc (suc (suc (suc (suc (suc zero)))))))) = "8"
digit_char (suc (suc (suc (suc (suc (suc (suc (suc (suc zero))))))))) = "9"
digit_char _ = "9"

-- The digits of `n` before a text; the fuel bounds their number.
print_before : ℕ → ℕ → String → String
unfolding digit_char
print_before zero n rest = rest
print_before (suc fuel) n rest =
    let more = String.◌∷◌ (digit_char (n % 10)) rest in
    elim (ltb n 10) [ true ↦ more | false ↦ print_before fuel (n / 10) more ]

unfoldable pub format_uint : ℕ → String
unfolding print_before
format_uint n = print_before (suc n) n ""

code-digit_char : (n : ℕ) → n < 10 → code (digit_char n) ≡ 48 + n
unfolding digit_char
code-digit_char zero h = refl
code-digit_char (suc zero) h = refl
code-digit_char (suc (suc zero)) h = refl
code-digit_char (suc (suc (suc zero))) h = refl
code-digit_char (suc (suc (suc (suc zero)))) h = refl
code-digit_char (suc (suc (suc (suc (suc zero))))) h = refl
code-digit_char (suc (suc (suc (suc (suc (suc zero)))))) h = refl
code-digit_char (suc (suc (suc (suc (suc (suc (suc zero))))))) h = refl
code-digit_char (suc (suc (suc (suc (suc (suc (suc (suc zero)))))))) h = refl
code-digit_char (suc (suc (suc (suc (suc (suc (suc (suc (suc zero))))))))) h = refl
code-digit_char (suc (suc (suc (suc (suc (suc (suc (suc (suc (suc n)))))))))) h =
    absurd (omega arith)

-- One digit read after the others.
first_digit :
    (n m : ℕ) (rest : String)
    → n ≡ m * 10 + n % 10
    → digits m (String.◌∷◌ (digit_char (n % 10)) rest) ≡ digits n rest
unfolding digits
first_digit n m rest h =
    let c = code-digit_char (n % 10) (omega arith) in
    let same : m * 10 + (code (digit_char (n % 10)) - 48) ≡ n = omega (arith, c, h) in
    ground (arith, c, ap (λ k. digits k rest) same)

print_before-last :
    (fuel n : ℕ) (rest : String)
    → ltb n 10 ≡ true
    → print_before (suc fuel) n rest ≡ String.◌∷◌ (digit_char (n % 10)) rest
unfolding print_before
print_before-last fuel n rest e = rw (e, print_before) refl

print_before-more :
    (fuel n : ℕ) (rest : String)
    → ltb n 10 ≡ false
    → print_before (suc fuel) n rest
      ≡ print_before fuel (n / 10) (String.◌∷◌ (digit_char (n % 10)) rest)
unfolding print_before
print_before-more fuel n rest e = rw (e, print_before) refl

-- The digits are read back before the rest.
digits-print_before :
    (fuel n : ℕ) (rest : String) → n < fuel → digits 0 (print_before fuel n rest) ≡ digits n rest
digits-print_before zero n rest h = elim h [ ]
digits-print_before (suc fuel) n rest h = elim (Bool-cases (ltb n 10)) [
  | inl last ↦ rw (print_before-last fuel n rest last) (first_digit n 0 rest (ground arith))
  | inr more ↦
      rw
        (
          print_before-more fuel n rest more,
          digits-print_before fuel (n / 10) (String.◌∷◌ (digit_char (n % 10)) rest) (ground arith),
        )
        (first_digit n (n / 10) rest (omega arith))
]

-- A text of digits alone.
abbrev AllDigits : String → Type 0
AllDigits String.[] = Unit
AllDigits (String.◌∷◌ c s) = (is_digit (code c) ≡ true) × AllDigits s

print_before-AllDigits :
    (fuel n : ℕ) (rest : String) → AllDigits rest → AllDigits (print_before fuel n rest)
unfolding print_before
print_before-AllDigits zero n rest h = h
print_before-AllDigits (suc fuel) n rest h =
    let digit : is_digit (code (digit_char (n % 10))) ≡ true =
      ground (arith, code-digit_char (n % 10)) in
    elim (Bool-cases (ltb n 10)) [
      | inl last ↦ rw (print_before-last fuel n rest last) (digit, h)
      | inr more ↦
          rw (print_before-more fuel n rest more)
            (print_before-AllDigits fuel (n / 10) _ (digit, h))
    ]

is_digit-not_space : (c : ℕ) → is_digit c ≡ true → is_space c ≡ false
unfolding is_space
is_digit-not_space c h = ground arith

trim_left-AllDigits : (s : String) → AllDigits s → trim_left s ≡ s
unfolding trim_left
trim_left-AllDigits String.[] h = refl
trim_left-AllDigits (String.◌∷◌ c s) h = rw (is_digit-not_space (code c) h.0) refl

trim_right-AllDigits : (s : String) → AllDigits s → trim_right s ≡ s
unfolding trim_right
trim_right-AllDigits String.[] h = refl
trim_right-AllDigits (String.◌∷◌ c s) h =
    ground (arith, is_digit-not_space (code c) h.0, trim_right-AllDigits s h.1)

trim_space-format_uint : (n : ℕ) → trim_space (format_uint n) ≡ format_uint n
unfolding format_uint trim_space
trim_space-format_uint n =
    let all = print_before-AllDigits (suc n) n "" tt in
    rw (trim_left-AllDigits (print_before (suc n) n "") all) (trim_right-AllDigits _ all)

digits_of-some : (s : String) (n : ℕ) → s ≢ "" → digits 0 s ≡ some n → digits_of s ≡ some n
unfolding digits_of
digits_of-some String.[] n nonempty h = absurd (nonempty refl)
digits_of-some (String.◌∷◌ c s) n nonempty h = h

print_before-nonempty : (fuel n : ℕ) (rest : String) → rest ≢ "" → print_before fuel n rest ≢ ""
unfolding print_before
print_before-nonempty zero n rest h = h
print_before-nonempty (suc fuel) n rest h = elim (Bool-cases (ltb n 10)) [
  | inl last ↦ rw (print_before-last fuel n rest last) (λ e. cc)
  | inr more ↦
      rw (print_before-more fuel n rest more) (print_before-nonempty fuel (n / 10) _ (λ e. cc))
]

format_uint-nonempty : (n : ℕ) → format_uint n ≢ ""
unfolding format_uint
format_uint-nonempty n = elim (Bool-cases (ltb n 10)) [
  | inl last ↦ rw (print_before-last n n "" last) (λ e. cc)
  | inr more ↦ rw (print_before-more n n "" more) (print_before-nonempty n (n / 10) _ (λ e. cc))
]

digits-format_uint : (n : ℕ) → digits 0 (format_uint n) ≡ digits n ""
unfolding format_uint
digits-format_uint n = digits-print_before (suc n) n "" (omega arith)

-- The text of a number, trimmed or not, is read back as that number.
pub digits_of-format_uint : (n : ℕ) → digits_of (trim_space (format_uint n)) ≡ some n
unfolding digits
digits_of-format_uint n =
    rw (trim_space-format_uint n)
      (digits_of-some (format_uint n) n (format_uint-nonempty n) (digits-format_uint n))
