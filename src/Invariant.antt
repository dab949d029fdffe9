-- ===== src/Invariant.antt =====
-- Invariants of actions: what `Keeps` says of an action, and one rule for each way to build one.
pub mod Closed
pub mod Frame
pub mod Requests
pub mod Events
pub mod Alerts
pub mod Loop
pub mod Data
pub mod Bounds
pub mod Core
pub mod Descriptors
pub mod Results
use shelter_server.Prelude.{◌≡◌, refl, Bool, true, false, Option, none, some, if◌then◌else◌}
use shelter_server.Server.{
  Server, Effect, Outcome, done, exited, fault, M, pure, exit_failure, crash, deref, emit,
  get_state, put_state, bind_outcome, ◌>>=◌, Ensures,
}

-- Started in a state with `P`, the action ends in one, normally or by `exit`.
pub record Keeps {A : Type 0} (P : Server → Type 0) (m : M A) : Type 0 where
  pub at : (s : Server) → P s → Ensures P (m s)

module _ {P : Server → Type 0} where
  pub Keeps-pure : {A : Type 0} (a : A) → Keeps P (pure a)
  Keeps-pure a = record { at = λ s h. h }

  pub Keeps-exit : {A : Type 0} → Keeps P (exit_failure {A = A})
  Keeps-exit = record { at = λ s h. h }

  pub Keeps-crash : {A : Type 0} → Keeps P (crash {A = A})
  Keeps-crash = record { at = λ s h. tt }

  pub Keeps-deref : {A : Type 0} (o : Option A) → Keeps P (deref o)
  Keeps-deref none = record { at = λ s h. tt }
  Keeps-deref (some a) = record { at = λ s h. h }

  pub Ensures-bind :
      {A B : Type 0} (o : Outcome A) (f : A → M B)
      → Ensures P o
      → ((a : A) → Keeps P (f a))
      → Ensures P (bind_outcome o f)
  Ensures-bind (done a s) f h kf = (kf a).at s h
  Ensures-bind (exited s) f h kf = h
  Ensures-bind fault f h kf = tt

  pub Keeps-bind :
      {A B : Type 0} (m : M A) (f : A → M B)
      → Keeps P m
      → ((a : A) → Keeps P (f a))
      → Keeps P (m >>= f)
  Keeps-bind m f km kf = record { at = λ s h. Ensures-bind (m s) f (km.at s h) kf }

  pub Keeps-get_state : Keeps P get_state
  Keeps-get_state = record { at = λ s h. h }

  pub Keeps-if :
      {A : Type 0} (b : Bool) (m n : M A) → Keeps P m → Keeps P n → Keeps P (if b then m else n)
  Keeps-if true m n km kn = km
  Keeps-if false m n km kn = kn

pub ruleset rules = (Keeps-pure, Keeps-exit, Keeps-deref, Keeps-bind, Keeps-if, Keeps-get_state)

-- The same with a fact about the value that the action returns.
abbrev pub EnsuresResult : {A : Type 0} → (A → Server → Type 0) → Outcome A → Type 0
EnsuresResult Q (done a s) = Q a s
EnsuresResult Q (exited s) = Unit
EnsuresResult Q fault = Unit

pub record Gives {A : Type 0} (P : Server → Type 0) (Q : A → Type 0) (m : M A) : Type 0 where
  pub state : Keeps P m
  pub result : (s : Server) → P s → EnsuresResult (λ a _. Q a) (m s)

module _ {P : Server → Type 0} {A : Type 0} {Q : A → Type 0} where
  pub Gives-pure : (a : A) → Q a → Gives P Q (pure a)
  Gives-pure a q = record { state = Keeps-pure a; result = λ s h. q }

  bind-result :
      {B : Type 0} (o : Outcome B) (f : B → M A)
      → Ensures P o
      → ((b : B) → Gives P Q (f b))
      → EnsuresResult (λ a _. Q a) (bind_outcome o f)
  bind-result (done b s) f h gf = (gf b).result s h
  bind-result (exited s) f h gf = tt
  bind-result fault f h gf = tt

  pub Gives-bind :
      {B : Type 0} (m : M B) (f : B → M A)
      → Keeps P m
      → ((b : B) → Gives P Q (f b))
      → Gives P Q (m >>= f)
  Gives-bind m f km gf = record {
    state = Keeps-bind m f km (λ b. (gf b).state);
    result = λ s h. bind-result (m s) f (km.at s h) gf;
  }

  use-result :
      {B : Type 0} (o : Outcome A) (f : A → M B)
      → Ensures P o
      → EnsuresResult (λ a _. Q a) o
      → ((a : A) → Q a → Keeps P (f a))
      → Ensures P (bind_outcome o f)
  use-result (done a s) f h q kf = (kf a q).at s h
  use-result (exited s) f h q kf = h
  use-result fault f h q kf = tt

  -- What follows may use the fact about the value.
  pub Keeps-bind-Gives :
      {B : Type 0} (m : M A) (f : A → M B)
      → Gives P Q m
      → ((a : A) → Q a → Keeps P (f a))
      → Keeps P (m >>= f)
  Keeps-bind-Gives m f gm kf = record {
    at = λ s h. use-result (m s) f (gm.state.at s h) (gm.result s h) kf;
  }

module _ {P : Server → Type 0} {A B : Type 0} (Q : B → Server → Type 0) where
  -- What holds after the first action serves for the result of the second.
  pub result-then :
      (o : Outcome A) (f : A → M B)
      → Ensures P o
      → ((a : A) (s : Server) → P s → EnsuresResult Q (f a s))
      → EnsuresResult Q (bind_outcome o f)
  result-then (done a s) f h k = k a s h
  result-then (exited s) f h k = tt
  result-then fault f h k = tt
