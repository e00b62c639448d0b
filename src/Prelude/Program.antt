-- ===== src/Prelude/Program.antt =====
-- Code that changes a state and may stop: by a call of `abort` or `assert`, or by an access outside
-- an array or through NULL.
use mathlib.Core.Bool.{Bool, true, false}
use mathlib.Core.Option.{Option, none, some}

-- `aborted` is a call of `abort` or a failed `assert`, `fault` an access outside an array or through
-- NULL, and `unfinished` the end of the fuel.
pub data Outcome (S A : Type 0) : Type 0 where
  value : A → S → Outcome S A
  aborted fault unfinished : Outcome S A

abbrev pub Program : Type 0 → Type 0 → Type 0
Program S A = S → Outcome S A

module _ {S : Type 0} where
  abbrev pub then_do : {A B : Type 0} → Outcome S A → (A → Program S B) → Outcome S B
  then_do (value a s) f = f a s
  then_do aborted f = aborted
  then_do fault f = fault
  then_do unfinished f = unfinished

  unfoldable pub pure : {A : Type 0} → A → Program S A
  pure a s = value a s

  unfoldable pub abort : {A : Type 0} → Program S A
  abort s = aborted

  unfoldable pub out_of_fuel : {A : Type 0} → Program S A
  out_of_fuel s = unfinished

  unfoldable pub get : Program S S
  get s = value s s

  unfoldable pub put : S → Program S (Unit {0})
  put s' s = value tt s'

  unfoldable pub assert : Bool → Program S (Unit {0})
  assert true s = value tt s
  assert false s = aborted

  -- An element of an array, and a fault past its end.
  unfoldable pub element : {A : Type 0} → Option A → Program S A
  element none s = fault
  element (some a) s = value a s

  -- `if` between actions. It is shut, so that a proof can tell an `if` of the code by its form.
  infix 1 when◌then◌else◌
  unfoldable pub when◌then◌else◌ : {A : Type 0} → Bool → Program S A → Program S A → Program S A
  when true then m else n = m
  when false then m else n = n

  -- To open this is to open the actions above, too.
  infixl 5 ◌>>=◌ ◌>>◌
  unfoldable pub ◌>>=◌ : {A B : Type 0} → Program S A → (A → Program S B) → Program S B
  unfolding when◌then◌else◌ pure abort out_of_fuel get put assert element
  ◌>>=◌ m f s = then_do (m s) f

  abbrev pub ◌>>◌ : {B : Type 0} → Program S (Unit {0}) → Program S B → Program S B
  m >> k = m >>= λ _. k
