-- ===== src/Base/Text.antt =====
-- C strings: bytes up to a terminating zero, and the functions of <string.h> that the code calls.
use Prim.Native.Nat.{ℕ, zero, suc, ◌-◌, ◌≤◌, ◌<◌}
use mathlib.Core.Path.{◌≡◌, refl, ap}
use mathlib.Core.Logic.{inl, inr}
use mathlib.Core.List.{List, [], ◌∷◌, ◌++◌}
use native.Mathlib.Omega.{arith}
use servo_assistant.Base.Tests.{◌==◌, if◌then◌else◌, Bool-cases}
use servo_assistant.Base.Lists.{length, take, set, replicate}

-- The bytes before the first zero.
pub c_string : List ℕ → List ℕ
c_string [] = []
c_string (c ∷ cs) = if c == 0 then [] else c ∷ c_string cs

pub length-c_string : (cs : List ℕ) → length (c_string cs) ≤ length cs
unfolding c_string
length-c_string [] = omega arith
length-c_string (c ∷ cs) = ground (arith, length-c_string cs)

-- What `strncpy` of `n` bytes leaves, with a zero put behind them, is a string of `n` bytes at most.
pub c_string-set :
    (n : ℕ) (src rest : List ℕ)
    → 0 < length rest
    → (let s = take n (c_string src) in
        c_string (set (s ++ replicate (n - length s) 0 ++ rest) n 0) ≡ s)
unfolding c_string
c_string-set zero src [] h = absurd (omega arith)
c_string-set zero src (x ∷ rest) h = refl
c_string-set (suc n) [] rest h = let a : suc n - 0 ≡ suc n = omega arith in rw a refl
c_string-set (suc n) (c ∷ cs) rest h =
    let a : suc n - 0 ≡ suc n = omega arith in
    let s = take n (c_string cs) in
    let less : suc n - suc (length s) ≡ n - length s = omega arith in
    elim (Bool-cases (c == 0)) [
      | inl e ↦ rw (e, a) refl
      | inr e ↦ rw (e, less, e) (ap (λ t. c ∷ t) (c_string-set n cs rest h))
    ]
