-- ===== src/Base/Outcomes.antt =====
-- What holds of the result of a chain of steps each of which may fault, where there is one.
use mathlib.Core.Path.{◌≡◌, refl}
use mathlib.Core.Bool.{Bool, true, false}
use mathlib.Core.Option.{Option, none, some}
use native.Mathlib.Omega.{arith}
use servo_assistant.Base.Tests.{if◌then◌else◌, ◌>>=◌}

pub record Gives {A : Type 0} (Q : A → Type 0) (m : Option A) : Type 0 where
  pub at : (a : A) → m ≡ some a → Q a

module _ {A : Type 0} {Q : A → Type 0} where
  pub Gives-none : Gives Q none
  Gives-none = record { at = λ a e. cc }

  pub Gives-some : (a : A) → Q a → Gives Q (some a)
  Gives-some a q = record { at = λ b e. ground arith }

  pub Gives-if : (b : Bool) (m n : Option A) → Gives Q m → Gives Q n → Gives Q (if b then m else n)
  Gives-if true m n km kn = km
  Gives-if false m n km kn = kn

  -- Where the test says more.
  pub Gives-test :
      (b : Bool) (m n : Option A)
      → (b ≡ true → Gives Q m)
      → (b ≡ false → Gives Q n)
      → Gives Q (if b then m else n)
  Gives-test true m n km kn = km refl
  Gives-test false m n km kn = kn refl

module _ {A B : Type 0} {Q : B → Type 0} where
  -- A step of whose result nothing is used, and one whose result has a property.
  pub Gives-step : (m : Option A) (f : A → Option B) → ((a : A) → Gives Q (f a)) → Gives Q (m >>= f)
  Gives-step none f k = Gives-none
  Gives-step (some a) f k = k a

  pub Gives-bind :
      {P : A → Type 0} (m : Option A) (f : A → Option B)
      → Gives P m
      → ((a : A) → P a → Gives Q (f a))
      → Gives Q (m >>= f)
  Gives-bind none f km kf = Gives-none
  Gives-bind (some a) f km kf = kf a (km.at a refl)
