-- ===== src/Prelude/Text.antt =====
-- C strings: the bytes before the terminating zero, and what the C library does with them.
use Prim.Native.Char.{code}
use Prim.Native.String.{String}
use Prim.Native.Nat.{ℕ, ◌≤◌, ◌<◌, zero, suc, ◌+◌, ◌-◌, ◌/◌, ◌%◌}
use mathlib.Core.Path.{◌≡◌, refl}
use mathlib.Core.Logic.{◌↔◌}
use mathlib.Core.Bool.{Bool, true, false, ◌&&◌, ◌||◌}
use mathlib.Core.List.{List, [], ◌∷◌, ◌++◌}
use native.Mathlib.Omega.{arith}
use shelter_server.Prelude.Tests.{◌==◌, leb, ltb, if◌then◌else◌}
use shelter_server.Prelude.Lists.{
  take, replicate, length, length-take, length-append, length-replicate,
}

abbrev pub Bytes : Type 0
Bytes = List ℕ

abbrev pub text : String → Bytes
text String.[] = []
text (String.◌∷◌ c s) = code c ∷ text s

-- strcmp(s, t) == 0
unfoldable pub bytes_eq : Bytes → Bytes → Bool
bytes_eq [] [] = true
bytes_eq [] (b ∷ t) = false
bytes_eq (a ∷ s) [] = false
bytes_eq (a ∷ s) (b ∷ t) = a == b && bytes_eq s t

pub bytes_eq_refl : (s : Bytes) → bytes_eq s s ≡ true
unfolding bytes_eq
bytes_eq_refl [] = refl
bytes_eq_refl (a ∷ s) = ground (arith, bytes_eq_refl s)

pub bytes_eq_iff : (s t : Bytes) → (bytes_eq s t ≡ true) ↔ (s ≡ t)
unfolding bytes_eq
bytes_eq_iff [] [] = (λ h. refl, λ h. refl)
bytes_eq_iff [] (b ∷ t) = (λ h. cc, λ h. cc)
bytes_eq_iff (a ∷ s) [] = (λ h. cc, λ h. cc)
bytes_eq_iff (a ∷ s) (b ∷ t) =
    (λ h. ground (arith, bytes_eq_iff s t), λ h. ground (arith, bytes_eq_iff s t))

-- A byte in lower case.
unfoldable pub lower : ℕ → ℕ
lower c = if leb 65 c && leb c 90 then c + 32 else c

-- Two names that differ at most in the case of their letters.
unfoldable pub same_name : Bytes → Bytes → Bool
unfolding lower
same_name [] [] = true
same_name [] (b ∷ t) = false
same_name (a ∷ s) [] = false
same_name (a ∷ s) (b ∷ t) = lower a == lower b && same_name s t

unfoldable pub is_prefix : Bytes → Bytes → Bool
is_prefix [] s = true
is_prefix (a ∷ p) [] = false
is_prefix (a ∷ p) (b ∷ s) = a == b && is_prefix p s

-- strstr(s, p) != NULL
unfoldable pub contains : Bytes → Bytes → Bool
unfolding is_prefix
contains [] p = is_prefix p []
contains (a ∷ s) p = is_prefix p (a ∷ s) || contains s p

-- snprintf into a buffer of `n` bytes, the terminating zero included.
abbrev pub snprintf : ℕ → Bytes → Bytes
snprintf n s = take (n - 1) s

-- strncpy(dst, s, n): the array of `n` bytes, padded with zeros, or cut with no zero at all.
unfoldable pub strncpy : Bytes → ℕ → Bytes
strncpy s n = take n (s ++ replicate n 0)

-- The digits of a number, by its value as fuel.
unfoldable pub digits : ℕ → ℕ → Bytes → Bytes
digits zero n acc = acc
digits (suc f) n acc =
    let more = digits f (n / 10) ((48 + n % 10) ∷ acc) in if ltb n 10 then (48 + n) ∷ acc else more

-- printf's %d of a number that is not negative.
unfoldable pub decimal : ℕ → Bytes
unfolding digits
decimal n = digits (suc n) n []

pub length-strncpy : (s : Bytes) (n : ℕ) → length (strncpy s n) ≡ n
unfolding strncpy
length-strncpy s n = omega (
  arith,
  length-take n (s ++ replicate n 0),
  length-append s (replicate n 0),
  length-replicate n (let z : ℕ = 0 in z),
)

-- A C string has no zero among its bytes.
abbrev pub IsText : Bytes → Type 0
IsText [] = Unit
IsText (b ∷ bs) = ((b == 0) ≡ false) × IsText bs

-- All bytes are digits.
abbrev pub AllDigits : Bytes → Type 0
AllDigits [] = Unit
AllDigits (b ∷ bs) = (48 ≤ b) × (b < 58) × AllDigits bs

digits-AllDigits : (f n : ℕ) (acc : Bytes) → AllDigits acc → AllDigits (digits f n acc)
unfolding digits
digits-AllDigits zero n acc h = h
digits-AllDigits (suc f) n acc h =
    ground (arith, digits-AllDigits f (n / 10) ((48 + n % 10) ∷ acc) (omega arith, omega arith, h))

pub decimal-AllDigits : (n : ℕ) → AllDigits (decimal n)
unfolding decimal
decimal-AllDigits n = digits-AllDigits (suc n) n [] tt

length-digits : (f n : ℕ) (acc : Bytes) → length (digits f n acc) ≤ f + length acc
unfolding digits
length-digits zero n acc = omega arith
length-digits (suc f) n acc = ground (arith, length-digits f (n / 10) ((48 + n % 10) ∷ acc))

pub length-decimal : (n : ℕ) → length (decimal n) ≤ suc n
unfolding decimal
length-decimal n = omega (arith, length-digits (suc n) n [])

pub digits-IsText : (s t : Bytes) → AllDigits s → IsText t → IsText (s ++ t)
digits-IsText [] t h k = k
digits-IsText (b ∷ s) t h k = (ground arith, digits-IsText s t h.2 k)

-- Digits hold no start of a pattern that starts with a byte above them.
pub contains-digits :
    (s t p : Bytes) (b : ℕ) → AllDigits s → 58 ≤ b → contains (s ++ t) (b ∷ p) ≡ contains t (b ∷ p)
unfolding contains
contains-digits [] t p b h k = refl
contains-digits (a ∷ s) t p b h k =
    let other : (b == a) ≡ false = ground arith in rw other (contains-digits s t p b h.2 k)
