-- ===== src/Nic/Wait/Confirm.antt =====
-- The blocking calls of a port end.
use servo_assistant.Base.{
  ℕ, zero, suc, ◌<◌, ◌≡◌, ◌≢◌, inl, inr, refl, ℤ, pos, is_negative, true, false, Option, some, ltb,
  ◌==◌, if◌then◌else◌, arith, Bool-cases,
}
use servo_assistant.Nic.{Port}
use servo_assistant.Nic.Pcap.{Pcap, Osal, DeliversFrames, Expires}
use servo_assistant.Nic.Frames.{no_frame}
use servo_assistant.Nic.Frames.Bounds.{IsResult}
use servo_assistant.Nic.Wait.{
  timeout_ret, redundancy, waitinframe_red, waitinframe, confirm, srconfirm,
}
use servo_assistant.Nic.Wait.Live.{IsLive, IsLater, IsLater-refl, IsLater-trans, Returns}
use servo_assistant.Nic.Wait.Sending.{outframe_red-Returns}
use servo_assistant.Nic.Wait.Loops.{wait_both-some, polled}
use servo_assistant.Nic.Wait.Laws.{Resent, redundancy_lem}

module _ {I : Type 0} (P : Pcap I) (O : Osal I) (D : DeliversFrames P) (E : Expires P O)
    (idx k : ℕ) where
  Resent-Returns :
      (fuel : ℕ) (wkc : ℤ) (p : Port) (i : I) (o : Option (ℤ × Port × I))
      → Resent P O D E idx k fuel wkc p i o
      → IsResult wkc
      → Returns P O D E idx k IsResult i o
  Resent-Returns fuel wkc p i o r a = elim r.result [
    | inl (n, e, w) ↦ (wkc, r.port2, r.io3, e, w, a, r.time)
    | inr (v, p3, q, m, e, w, x) ↦ (pos v, p3, r.io3, e, w, inr (inr (v, refl, m)), r.time)
  ]

  redundancy-Returns :
      (fuel : ℕ) (wkc wkc2 : ℤ) (p : Port) (i : I)
      → E.polls timeout_ret < fuel
      → IsLive idx k p
      → k ≢ 0
      → IsResult wkc
      → IsResult wkc2
      → Returns P O D E idx k IsResult i (redundancy P O fuel idx wkc wkc2 p i)
  redundancy-Returns fuel wkc wkc2 p i h w d a b =
      let (r, q, outcome) = redundancy_lem P O D E idx k fuel wkc wkc2 p i h w d in
      elim outcome [
        | inl (e, f, (p1, g, w1, x)) ↦ (wkc2, p1, i, g, w1, b, IsLater-refl P O D E idx k i)
        | inr (inl (f, inl (absent, again))) ↦ Resent-Returns fuel wkc p i _ again a
        | inr (inl (f, inr (partial, (buf, y, again)))) ↦ Resent-Returns fuel wkc _ i _ again a
        | inr (inr (e, f, g)) ↦ (wkc, p, i, g, w, a, IsLater-refl P O D E idx k i)
      ]

  waitinframe_red-Returns :
      (fuel timer : ℕ) (p : Port) (i : I)
      → E.left timer i < fuel
      → E.polls timeout_ret < fuel
      → IsLive idx k p
      → Returns P O D E idx k IsResult i (waitinframe_red P O fuel idx timer p i)
  unfolding waitinframe_red
  waitinframe_red-Returns fuel timer p i h m w = elim (Bool-cases (p.redstate == 0)) [
    | inl single ↦
        (let (v1, v2, p1, i1, e, w1, r1, r2, l) =
            wait_both-some P O D E idx k fuel timer no_frame (pos 0) p i h w (inl refl)
              (inr (inr (0, refl, omega arith))) in
          let still : (p1.redstate == 0) ≡ true = ground (arith, w.state, w1.state) in
          (v1, p1, i1, rw (waitinframe_red, single, e, still), w1, r1, l))
    | inr double ↦
        (let (v1, v2, p1, i1, e, w1, r1, r2, l1) =
            wait_both-some P O D E idx k fuel timer no_frame no_frame p i h w (inl refl)
              (inl refl) in
          let (v, p2, i2, f, w2, r, l2) =
            redundancy-Returns fuel v1 v2 p1 i1 m w1 (λ z. ground (arith, w.state)) r1 r2 in
          let still : (p1.redstate == 0) ≡ false = ground (arith, w.state, w1.state) in
          (
            v,
            p2,
            i2,
            rw (waitinframe_red, double, e, still, f),
            w2,
            r,
            IsLater-trans P O D E idx k i i1 i2 l1 l2,
          ))
  ]

  confirm-Returns :
      (rounds fuel timer1 timeout : ℕ) (p : Port) (i : I)
      → E.left timer1 i < rounds
      → E.polls timeout < fuel
      → E.polls timeout_ret < fuel
      → IsLive idx k p
      → Returns P O D E idx k IsResult i (confirm P O rounds fuel timer1 idx timeout p i)
  unfolding confirm
  confirm-Returns zero fuel timer1 timeout p i h a b w = absurd (omega arith)
  confirm-Returns (suc rounds) fuel timer1 timeout p i h a b w =
      let (rval, p1, i1, e, w1, u, l1) = outframe_red-Returns P O D E idx k p w i in
      let us : ℕ = if ltb timeout timeout_ret then timeout else timeout_ret in
      let timer2 = (O.timer_start us i1).0 in
      let i2 = (O.timer_start us i1).1 in
      let l2 : IsLater P O D E idx k i1 i2 = record { left = λ t. E.start_keeps t us i1 } in
      let short : E.polls us < fuel = elim (Bool-cases (ltb timeout timeout_ret)) [
        | inl c ↦ rw c a
        | inr c ↦ rw c b
      ] in
      let (v, p2, i3, f, w2, r, l3) =
        waitinframe_red-Returns fuel timer2 p1 i2 (omega (arith, E.starts us i1, short)) b w1 in
      let i4 = (O.timer_is_expired timer1 i3).1 in
      let l = IsLater-trans P O D E idx k i i1 i3 l1 (IsLater-trans P O D E idx k i1 i2 i3 l2 l3) in
      let m = IsLater-trans P O D E idx k i i3 i4 l (polled P O D E idx k timer1 i3) in
      elim (Bool-cases (is_negative v)) [
        | inr done ↦ (v, p2, i3, rw (confirm, e, f, done), w2, r, l)
        | inl again ↦ elim (Bool-cases (O.timer_is_expired timer1 i3).0) [
          | inl over ↦ (v, p2, i4, rw (confirm, e, f, again, over), w2, r, m)
          | inr runs ↦
              (let (x, p5, i5, g, w5, r5, l5) =
                  confirm-Returns rounds fuel timer1 timeout p2 i4
                    (omega (arith, E.runs timer1 i3 runs, l.left timer1)) a b w2 in
                (
                  x,
                  p5,
                  i5,
                  rw (confirm, e, f, again, runs) g,
                  w5,
                  r5,
                  IsLater-trans P O D E idx k i i4 i5 m l5,
                ))
        ]
      ]

  -- On a live port, a call that waits for a frame returns, with fuel for the polls of its timer and of
  -- that for a frame sent again: a work counter, or that no frame, or another one, came. The port
  -- stays live, and no access leaves a buffer.
  waitinframe_total :
      (fuel timeout : ℕ) (p : Port) (i : I)
      → E.polls timeout < fuel
      → E.polls timeout_ret < fuel
      → IsLive idx k p
      → (wkc : ℤ) × (p1 : Port) × (i1 : I) × (waitinframe P O fuel idx timeout p i
          ≡ some (wkc, p1, i1))
        × IsLive idx k p1
        × IsResult wkc
  unfolding waitinframe
  waitinframe_total fuel timeout p i a b w =
      let (timer, i1) = O.timer_start timeout i in
      let (v, p1, i2, e, w1, r, l) =
        waitinframe_red-Returns fuel timer p i1 (omega (arith, E.starts timeout i)) b w in
      (v, p1, i2, e, w1, r)

  -- On a live port, a call that sends a frame, waits for it, and sends it again while time is left,
  -- returns, with fuel for the polls of its timer and of that for one try: a work counter, or that no
  -- frame, or another one, came. The port stays live, and no access leaves a buffer.
  pub srconfirm_total :
      (fuel timeout : ℕ) (p : Port) (i : I)
      → E.polls timeout < fuel
      → E.polls timeout_ret < fuel
      → IsLive idx k p
      → (wkc : ℤ) × (p1 : Port) × (i1 : I) × (srconfirm P O fuel idx timeout p i
          ≡ some (wkc, p1, i1))
        × IsLive idx k p1
        × IsResult wkc
  unfolding srconfirm
  srconfirm_total fuel timeout p i a b w =
      let (timer, i1) = O.timer_start timeout i in
      let (v, p1, i2, e, w1, r, l) =
        confirm-Returns fuel fuel timer timeout p i1 (omega (arith, E.starts timeout i)) a b w in
      (v, p1, i2, e, w1, r)
