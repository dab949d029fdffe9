-- ===== src/Client.antt =====
-- What src/clients/tcp_client.c and src/clients/udp_client.c have in common, and how a client's
-- code ends: with a value, by exit(EXIT_FAILURE) or exit(EXIT_SUCCESS), or in a fault, which is what C
-- leaves undefined.
pub mod CommandLine
pub mod HostName
pub mod OsRelease
pub mod Rounds
pub mod Fork
use shelter_server.Prelude.{Bool, true, false, Option, none, some, if◌then◌else◌}

pub data Run (A : Type 0) : Type 0 where
  ok : A → Run A
  exit_failure : Run A
  exit_success : Run A
  fault : Run A

infixl 5 ◌>>=◌
abbrev pub ◌>>=◌ : {A B : Type 0} → Run A → (A → Run B) → Run B
ok a >>= f = f a
exit_failure >>= f = exit_failure
exit_success >>= f = exit_success
fault >>= f = fault

-- The value that the code ends with, where it ends with one.
abbrev pub Returns : {A : Type 0} → (A → Type 0) → Run A → Type 0
Returns P (ok a) = P a
Returns P exit_failure = Unit
Returns P exit_success = Unit
Returns P fault = Unit

pub Returns-bind :
    {A B : Type 0} (P : A → Type 0) (Q : B → Type 0) (m : Run A) (f : A → Run B)
    → Returns P m
    → ((a : A) → P a → Returns Q (f a))
    → Returns Q (m >>= f)
Returns-bind P Q (ok a) f h k = k a h
Returns-bind P Q exit_failure f h k = tt
Returns-bind P Q exit_success f h k = tt
Returns-bind P Q fault f h k = tt

pub Returns-map :
    {A : Type 0} (P Q : A → Type 0) (m : Run A) → Returns P m → ((a : A) → P a → Q a) → Returns Q m
Returns-map P Q (ok a) h k = k a h
Returns-map P Q exit_failure h k = tt
Returns-map P Q exit_success h k = tt
Returns-map P Q fault h k = tt

pub Returns-any : {A : Type 0} (m : Run A) → Returns (λ a. Unit) m
Returns-any (ok a) = tt
Returns-any exit_failure = tt
Returns-any exit_success = tt
Returns-any fault = tt

pub Returns-if :
    {A : Type 0} (P : A → Type 0) (b : Bool) (m n : Run A)
    → Returns P m
    → Returns P n
    → Returns P (if b then m else n)
Returns-if P true m n h k = h
Returns-if P false m n h k = k

abbrev pub deref : {A : Type 0} → Option A → Run A
deref none = fault
deref (some a) = ok a
