-- ===== src/Bridge/Report/Errors.antt =====
-- `sa_error` of bridge.c empties SOEM's list of errors into one bounded text.
use servo_assistant.Base.{
  ℕ, zero, suc, ◌+◌, ◌-◌, ◌≤◌, ◌<◌, ◌≡◌, ◌∙◌, refl, ap, some, List, [], ◌++◌, length, take, arith,
  c_string, take-append_le, take-append_ge, take_of_length_le, length-take, length-append,
  append_assoc, append-nil, if◌then◌else◌, ltb, lt→ltb, le→ltb, sym,
}
use native.Mathlib.Decide.{dec_lt, dec_le}
use servo_assistant.Bridge.Soem.{Soem, DrainsErrors}
use servo_assistant.Bridge.Report.{append_message, sa_error_loop, sa_error}

-- How many bytes of a message of length `n` are kept after `used` bytes.
abbrev kept : ℕ → ℕ → ℕ → ℕ
kept room used n = if ltb n (suc room - used) then n else suc room - used - 1

take-kept :
    (room used : ℕ) (m : List ℕ)
    → used < room
    → (take (kept room used (length m)) m ≡ take (room - used) m)
      × (kept room used (length m) ≡ length (take (room - used) m))
take-kept room used m h = elim (dec_le (length m) (room - used)) [
  | yes fits ↦
      let short : kept room used (length m) ≡ length m = ground arith in
      (
        rw short (
            take_of_length_le (length m) m (omega arith)
            ∙ sym (take_of_length_le (room - used) m fits)),
        rw (short, take_of_length_le (room - used) m fits),
      )
  | no long ↦
      let cut : kept room used (length m) ≡ room - used = ground arith in
      (rw cut, rw cut (omega (arith, length-take (room - used) m)))
]

-- One message after a text of which what fits is already out: what fits of both is out.
append_message_lem :
    (room : ℕ) (pre message : List ℕ)
    → append_message (suc room) (length (take room pre)) (take room pre) message
      ≡ (length (take room (pre ++ c_string message)), take room (pre ++ c_string message))
unfolding append_message
append_message_lem room pre message = elim (dec_lt (length pre) room) [
  | yes fits ↦
      let m = c_string message in
      let whole = take_of_length_le room pre (omega arith) in
      let both = take-append_ge room pre m (omega arith) in
      rw
        (
          whole,
          both,
          length-append pre (take (room - length pre) m),
          lt→ltb (length pre + 1) (suc room) (omega arith),
          (take-kept room (length pre) m fits).0,
        )
        (ap (λ k. (length pre + k, pre ++ take (room - length pre) m))
          (take-kept room (length pre) m fits).1)
  | no full ↦
      let same = take-append_le room pre (c_string message) (omega arith) in
      let size : length (take room pre) ≡ room = omega (arith, length-take room pre) in
      rw (same, size, le→ltb (room + 1) (suc room) (omega arith))
]

module _ {I : Type 0} (S : Soem I) where
  -- The texts of the next `n` errors, in the order in which they are taken out.
  unfoldable pub messages : ℕ → I → List ℕ
  messages zero i = []
  messages (suc n) i = let (message, i1) = S.ec_elist2string i in c_string message ++ messages n i1

  module _ (E : DrainsErrors S) where
    open E use {waiting, iserror_zero, iserror_suc, takes_one}

    sa_error_loop_lem :
        (n fuel room : ℕ) (pre : List ℕ) (i : I)
        → waiting i ≡ n
        → n < fuel
        → let t = take room (pre ++ messages n i) in
          (i' : I) × (sa_error_loop S fuel (suc room) (length (take room pre)) (take room pre) i
            ≡ some (length t, t, i'))
          × (waiting i' ≡ 0)
    unfolding sa_error_loop messages
    sa_error_loop_lem n zero room pre i w f = absurd (omega arith)
    sa_error_loop_lem zero (suc fuel) room pre i w f = (i, rw (iserror_zero i w, append-nil pre), w)
    sa_error_loop_lem (suc n) (suc fuel) room pre i w f =
        let m = (S.ec_elist2string i).0 in
        let (i', e, done) =
          sa_error_loop_lem n fuel room (pre ++ c_string m) (S.ec_elist2string i).1 (takes_one i w)
            (omega arith) in
        (i', rw (iserror_suc i w, append_message_lem room pre m, e, append_assoc), done)

    -- With a room of at least one byte, and more fuel than errors wait, `sa_error` ends; no error
    -- waits then, and `out` holds the texts of all errors in their order, cut to the room that the
    -- terminating zero leaves. The result is the length of that text.
    pub sa_error_lem :
        (fuel room : ℕ) (i : I)
        → waiting i < fuel
        → let t = take room (messages (waiting i) i) in
          (i' : I) × (sa_error S fuel (suc room) i ≡ some (length t, t, i'))
          × (waiting i' ≡ 0)
          × (length t ≤ room)
    unfolding sa_error
    sa_error_lem fuel room i f =
        let (i', e, done) = sa_error_loop_lem (waiting i) fuel room [] i refl f in
        (
          i',
          rw (take_of_length_le {A = ℕ} room [] (omega arith)) at e,
          done,
          omega (arith, length-take room (messages (waiting i) i)),
        )
