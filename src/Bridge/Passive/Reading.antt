-- ===== src/Bridge/Passive/Reading.antt =====
-- What is read from a passive handle.
use servo_assistant.Base.{
  ℕ, ◌≤◌, ◌<◌, ◌≡◌, ◌≢◌, ◌⊎◌, refl, inl, inr, pos, as_int, minus_one, minus_two, is_one, is_zero,
  none, some, length, take_of_length_le, ltb, arith, Bool-cases,
}
use servo_assistant.Bridge.Npcap.{Npcap, DeliversWhole}
use servo_assistant.Bridge.Shim.{stamp_of}
use servo_assistant.Bridge.Passive.{sa_capture_next}
use servo_assistant.Nic.Bridged.{is_one-pos}

module _ {D : Type 0} (N : Npcap D) (whole : DeliversWhole N) where
  -- One packet at most is taken from the driver. If it delivers one for which the caller has room, its
  -- bytes are written, all of them and no others, with its time and its length on the wire, and their
  -- number is returned as an `int`; if the room is too small, nothing is written, and -2 returned. If it delivers
  -- none, nothing is written either, and the result is 0 where the driver had only to wait, else -1.
  pub sa_capture_next_lem :
      (h capacity : ℕ) (d : D)
      → (let (result, p, d1) = N.p_next h d in
          let (n, out, d2) = sa_capture_next N h capacity d in
          (d2 ≡ d1)
          × (((result ≡ pos 1)
                × (length p.bytes ≤ capacity)
                × (n ≡ as_int (length p.bytes))
                × (out ≡ some (record { bytes = p.bytes; stamp = stamp_of p; original = p.len })))
              ⊎ ((result ≡ pos 1) × (capacity < length p.bytes) × (n ≡ minus_two) × (out ≡ none))
              ⊎ ((result ≡ pos 0) × (n ≡ pos 0) × (out ≡ none))
              ⊎ ((result ≢ pos 1) × (result ≢ pos 0) × (n ≡ minus_one) × (out ≡ none))))
  unfolding sa_capture_next
  sa_capture_next_lem h capacity d =
      let p = (N.p_next h d).1 in
      elim (Bool-cases (is_one (N.p_next h d).0)) [
        | inl one ↦
            (let result = is_one-pos _ one in
              let size = whole.captured h d result in
              let all = take_of_length_le p.caplen p.bytes (omega (arith, size)) in
              elim (Bool-cases (ltb capacity p.caplen)) [
                | inl small ↦
                    rw (sa_capture_next, one, small)
                      (refl, inr (inl (result, ground (arith, size), refl, refl)))
                | inr fits ↦
                    rw (sa_capture_next, one, fits, all)
                      (refl, inl (result, ground (arith, size), rw size refl, refl))
              ])
        | inr other ↦ elim (Bool-cases (is_zero (N.p_next h d).0)) [
          | inl zero ↦
              rw (sa_capture_next, other, zero) (refl, inr (inr (inl (ground arith, refl, refl))))
          | inr failed ↦
              rw (sa_capture_next, other, failed)
                (refl, inr (inr (inr (λ e. ground arith, λ e. ground arith, refl, refl))))
        ]
      ]
