-- ===== src/Prelude/Number.antt =====
-- atoi of the C library: white space, a sign, and digits up to the first other byte.
use Prim.Native.Nat.{ℕ, zero, suc, ◌+◌, ◌-◌, ◌*◌, ◌/◌, ◌%◌, ◌^◌, ◌≤◌, ◌<◌}
use mathlib.Core.Path.{◌≡◌, refl, ap, ◌∙◌}
use mathlib.Core.Logic.{inl, inr}
use mathlib.Core.Bool.{Bool, true, ◌&&◌, ◌||◌}
use mathlib.Core.Option.{Option, none, some}
use mathlib.Core.List.{[], ◌∷◌}
use native.Mathlib.Omega.{arith}
use shelter_server.Prelude.Tests.{ltb→lt, Bool-cases, ltb, leb, ◌==◌, if◌then◌else◌}
use shelter_server.Prelude.Int.{ℤ, pos, negsuc}
use shelter_server.Prelude.Text.{Bytes, digits, decimal, AllDigits, decimal-AllDigits}

unfoldable pub is_digit : ℕ → Bool
is_digit b = leb 48 b && ltb b 58

-- isspace in the C locale.
unfoldable pub is_space : ℕ → Bool
is_space b = b == 32 || leb 9 b && leb b 13

unfoldable pub number_from : ℕ → Bytes → ℕ
unfolding is_digit
number_from acc [] = acc
number_from acc (b ∷ bs) =
    let more = number_from (acc * 10 + (b - 48)) bs in if is_digit b then more else acc

-- `none` for a number that an `int` does not hold, which C leaves undefined.
unfoldable pub positive_int : ℕ → Option ℤ
positive_int n = if ltb n (2 ^ 31) then some (pos n) else none

unfoldable pub negative_int : ℕ → Option ℤ
negative_int zero = some (pos 0)
negative_int (suc n) = if ltb n (2 ^ 31) then some (negsuc n) else none

unfoldable pub signed_number : Bytes → Option ℤ
unfolding number_from positive_int negative_int
signed_number [] = some (pos 0)
signed_number (b ∷ bs) =
    if b == 45
    then negative_int (number_from 0 bs)
    else if b == 43
    then positive_int (number_from 0 bs)
    else positive_int (number_from 0 (b ∷ bs))

unfoldable pub atoi : Bytes → Option ℤ
unfolding signed_number is_space
atoi [] = some (pos 0)
atoi (b ∷ bs) = let rest = atoi bs in if is_space b then rest else signed_number (b ∷ bs)

first_digit :
    (a d n : ℕ) (acc : Bytes)
    → d < 10
    → a * 10 + d ≡ n
    → number_from a ((48 + d) ∷ acc) ≡ number_from n acc
unfolding number_from
first_digit a d n acc h e =
    let digit : (leb 48 (48 + d) && ltb (48 + d) 58) ≡ true = ground arith in
    let value : a * 10 + (48 + d - 48) ≡ n = omega arith in rw (digit, value) refl

number_from-digits :
    (f n : ℕ) (acc : Bytes) → n < f → number_from 0 (digits f n acc) ≡ number_from n acc
unfolding number_from digits
number_from-digits zero n acc h = absurd (omega arith)
number_from-digits (suc f) n acc h = elim (Bool-cases (ltb n 10)) [
  | inl e ↦ rw e (first_digit 0 n n acc (omega (arith, ltb→lt n 10)) (omega arith))
  | inr e ↦
      let big : 10 ≤ n = ground arith in
      rw e (
        number_from-digits f (n / 10) ((48 + n % 10) ∷ acc) (omega arith)
        ∙ first_digit (n / 10) (n % 10) n acc (omega arith) (omega arith))
]

atoi-AllDigits : (s : Bytes) → AllDigits s → atoi s ≡ positive_int (number_from 0 s)
unfolding atoi
atoi-AllDigits [] h = ground arith
atoi-AllDigits (b ∷ s) h = ground arith

-- A number that an `int` holds is read back from its digits.
pub atoi-decimal : (n : ℕ) → n < 2 ^ 31 → atoi (decimal n) ≡ some (pos n)
atoi-decimal n h =
    let value : number_from 0 (decimal n) ≡ n =
      unfold decimal number_from in number_from-digits (suc n) n [] (omega arith) in
    let small : positive_int n ≡ some (pos n) = unfold positive_int in ground arith in
    atoi-AllDigits (decimal n) (decimal-AllDigits n) ∙ ap positive_int value ∙ small
