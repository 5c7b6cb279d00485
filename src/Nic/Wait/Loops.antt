-- ===== src/Nic/Wait/Loops.antt =====
-- The loops that wait for a frame end when their timer expires, if not before.
use servo_assistant.Base.{
  ℕ, zero, suc, ◌<◌, ◌≡◌, ◌≢◌, inl, inr, ℤ, is_negative, ◌||◌, false, some, ◌==◌, arith, Bool-cases,
}
use servo_assistant.Nic.{Port}
use servo_assistant.Nic.Pcap.{Pcap, Osal, DeliversFrames, Expires}
use servo_assistant.Nic.Frames.Bounds.{IsResult}
use servo_assistant.Nic.Wait.{read_side, read_second, wait_both, wait_second}
use servo_assistant.Nic.Wait.Live.{
  IsLive, IsLater, IsLater-refl, IsLater-trans, Returns, inframe-main, inframe-second,
}

module _ {I : Type 0} (P : Pcap I) (O : Osal I) (D : DeliversFrames P) (E : Expires P O)
    (idx k : ℕ) where
  read_main-Returns :
      (wkc : ℤ) (p : Port) (i : I)
      → IsLive idx k p
      → IsResult wkc
      → Returns P O D E idx k IsResult i (read_side P O false idx wkc p i)
  unfolding read_side
  read_main-Returns wkc p i w r = elim (Bool-cases (is_negative wkc)) [
    | inl n ↦
        (let (v, p1, i1, e, x, q, l) = inframe-main P O D E idx k p w i in
          (v, p1, i1, rw (read_side, n, e), x, q, l))
    | inr n ↦ (wkc, p, i, rw (read_side, n), w, r, IsLater-refl P O D E idx k i)
  ]

  read_second-Returns :
      (wkc : ℤ) (p : Port) (i : I)
      → IsLive idx k p
      → IsResult wkc
      → Returns P O D E idx k IsResult i (read_second P O idx wkc p i)
  unfolding read_second read_side
  read_second-Returns wkc p i w r = elim (Bool-cases (p.redstate == 0)) [
    | inl single ↦ (wkc, p, i, rw (read_second, single), w, r, IsLater-refl P O D E idx k i)
    | inr double ↦ elim (Bool-cases (is_negative wkc)) [
      | inl n ↦
          (let (v, p1, i1, e, x, q, l) =
              inframe-second P O D E idx k p w i (λ z. ground (arith, w.state)) in
            (v, p1, i1, rw (read_second, double, n, e), x, q, l))
      | inr n ↦ (wkc, p, i, rw (read_second, double, n), w, r, IsLater-refl P O D E idx k i)
    ]
  ]

  pub polled : (timer : ℕ) (i : I) → IsLater P O D E idx k i (O.timer_is_expired timer i).1
  polled timer i = record { left = λ t. E.poll_keeps t timer i }

  -- Enough fuel: more than the number of times that the timer is found running.
  pub wait_both-some :
      (fuel timer : ℕ) (wkc wkc2 : ℤ) (p : Port) (i : I)
      → E.left timer i < fuel
      → IsLive idx k p
      → IsResult wkc
      → IsResult wkc2
      → (v1 v2 : ℤ) × (p1 : Port) × (i1 : I) × (wait_both P O fuel timer idx wkc wkc2 p i
          ≡ some (v1, v2, p1, i1))
        × IsLive idx k p1
        × IsResult v1
        × IsResult v2
        × IsLater P O D E idx k i i1
  unfolding wait_both
  wait_both-some zero timer wkc wkc2 p i h w r s = absurd (omega arith)
  wait_both-some (suc fuel) timer wkc wkc2 p i h w r s =
      let (v1, p1, i1, e, w1, r1, l1) = read_main-Returns wkc p i w r in
      let (v2, p2, i2, f, w2, s2, l2) = read_second-Returns wkc2 p1 i1 w1 s in
      let i3 = (O.timer_is_expired timer i2).1 in
      let l = IsLater-trans P O D E idx k i i1 i2 l1 l2 in
      let m = IsLater-trans P O D E idx k i i2 i3 l (polled timer i2) in
      elim (Bool-cases (is_negative v1 || is_negative v2)) [
        | inr done ↦ (v1, v2, p2, i2, rw (wait_both, e, f, done), w2, r1, s2, l)
        | inl waits ↦ elim (Bool-cases (O.timer_is_expired timer i2).0) [
          | inl over ↦ (v1, v2, p2, i3, rw (wait_both, e, f, waits, over), w2, r1, s2, m)
          | inr runs ↦
              (let (u1, u2, p4, i4, g, w4, r4, s4, l4) =
                  wait_both-some fuel timer v1 v2 p2 i3
                    (omega (arith, E.runs timer i2 runs, l.left timer)) w2 r1 s2 in
                (
                  u1,
                  u2,
                  p4,
                  i4,
                  rw (wait_both, e, f, waits, runs) g,
                  w4,
                  r4,
                  s4,
                  IsLater-trans P O D E idx k i i3 i4 m l4,
                ))
        ]
      ]

  pub wait_second-Returns :
      (fuel timer : ℕ) (p : Port) (i : I)
      → E.left timer i < fuel
      → IsLive idx k p
      → k ≢ 0
      → Returns P O D E idx k IsResult i (wait_second P O fuel timer idx p i)
  unfolding wait_second
  wait_second-Returns zero timer p i h w d = absurd (omega arith)
  wait_second-Returns (suc fuel) timer p i h w d =
      let (v, p1, i1, e, w1, r, l) = inframe-second P O D E idx k p w i d in
      let i2 = (O.timer_is_expired timer i1).1 in
      let m = IsLater-trans P O D E idx k i i1 i2 l (polled timer i1) in
      elim (Bool-cases (is_negative v)) [
        | inr done ↦ (v, p1, i1, rw (wait_second, e, done), w1, r, l)
        | inl waits ↦ elim (Bool-cases (O.timer_is_expired timer i1).0) [
          | inl over ↦ (v, p1, i2, rw (wait_second, e, waits, over), w1, r, m)
          | inr runs ↦
              (let (u, p3, i3, g, w3, r3, l3) =
                  wait_second-Returns fuel timer p1 i2
                    (omega (arith, E.runs timer i1 runs, l.left timer)) w1 d in
                (
                  u,
                  p3,
                  i3,
                  rw (wait_second, e, waits, runs) g,
                  w3,
                  r3,
                  IsLater-trans P O D E idx k i i2 i3 m l3,
                ))
        ]
      ]
