-- ===== src/Nic/Wait/Laws.antt =====
-- The blocking calls end, and what the redundant mode decides.
use servo_assistant.Base.{
  ℕ, ◌^◌, pos, List, drop, ◌<◌, ◌≡◌, ◌≢◌, ◌⊎◌, inl, inr, ℤ, is_negative, ◌&&◌, true, false, Option,
  some, [], get_or, set, length, ◌==◌, if◌then◌else◌, arith, Bool-cases, get_elem?-eq-get_or,
}
use servo_assistant.Nic.{Stack, Port}
use servo_assistant.Nic.Pcap.{Pcap, Osal, DeliversFrames, Expires}
use servo_assistant.Nic.Frames.{stack_of, outframe}
use servo_assistant.Nic.Frames.Bounds.{IsResult}
use servo_assistant.Nic.Wait.{
  timeout_ret, rx_prim, rx_sec, source_of, is_crossed, is_broken, wait_second, resend, redundancy,
}
use servo_assistant.Nic.Wait.Live.{IsLive, IsLive-second_stack, IsLater, IsLater-trans}
use servo_assistant.Nic.Wait.Sending.{outframe-second}
use servo_assistant.Nic.Wait.Loops.{wait_second-Returns}
use servo_assistant.Nic.Wait.Copies.{HasPayload, take_secondary-some, primary_to_tx-some}

-- The source of the frame of an index on one socket, 0 where none has arrived.
abbrev pub route : ℤ → Stack → ℕ → ℕ
route wkc st idx = if is_negative wkc then 0 else get_or st.rxsa idx 0

second_stack : (p : Port) (r : Stack) → p.red ≡ some r → stack_of true p ≡ some r
unfolding stack_of
second_stack p r e = e

source_of_lem :
    (wkc : ℤ) (st : Stack) (idx : ℕ)
    → idx < length st.rxsa
    → source_of wkc st.rxsa idx ≡ some (route wkc st idx)
unfolding source_of
source_of_lem wkc st idx h = elim (Bool-cases (is_negative wkc)) [
  | inl n ↦ rw (source_of, n)
  | inr n ↦ rw (source_of, n) (get_elem?-eq-get_or st.rxsa idx 0 h)
]

crossed_routes :
    (primrx secrx : ℕ) → is_crossed primrx secrx ≡ true → (primrx ≡ rx_sec) × (secrx ≡ rx_prim)
unfolding is_crossed
crossed_routes primrx secrx e = (ground arith, ground arith)

broken_routes :
    (primrx secrx : ℕ)
    → is_broken primrx secrx ≡ true
    → ((primrx ≡ 0) ⊎ (primrx ≡ rx_prim)) × (secrx ≡ rx_sec)
unfolding is_broken
broken_routes primrx secrx e = (ground arith, ground arith)

other_routes :
    (primrx secrx : ℕ)
    → is_crossed primrx secrx ≡ false
    → is_broken primrx secrx ≡ false
    → ((primrx ≢ rx_sec) ⊎ (secrx ≢ rx_prim))
      × ((secrx ≢ rx_sec) ⊎ ((primrx ≢ 0) × (primrx ≢ rx_prim)))
unfolding is_crossed is_broken
other_routes primrx secrx e f = (
  elim (Bool-cases (primrx == rx_sec)) [
    | inl a ↦ inr (λ q. ground arith)
    | inr a ↦ inl (λ q. ground arith)
  ],
  elim (Bool-cases (secrx == rx_sec)) [
    | inl a ↦ inr ((λ q. ground arith), (λ q. ground arith))
    | inr a ↦ inl (λ q. ground arith)
  ],
)

-- The primary buffer of an index holds what the secondary one does.
pub record HasSecondary (idx : ℕ) (p : Port) : Type 0 where
  pub second : Stack
  pub found : p.red ≡ some second
  pub payload :
      HasPayload
        (get_or p.txbuflength idx 0)
        (get_or second.rxbuf idx [])
        (get_or p.prim.rxbuf idx [])

module _ {I : Type 0} (P : Pcap I) (O : Osal I) (D : DeliversFrames P) (E : Expires P O)
    (idx k : ℕ) where
  -- The frame of a live port is sent through the second socket, and its answer waited for: the
  -- result is the work counter of the answer, which is then in the primary buffer, or, if none came,
  -- the one that was given.
  pub record Resent (fuel : ℕ) (wkc : ℤ) (p0 : Port) (i : I) (o : Option (ℤ × Port × I))
      : Type 0 where
    pub sent : ℤ
    pub answer : ℤ
    pub port1 : Port
    pub port2 : Port
    pub io2 : I
    pub io3 : I
    pub sends : outframe P p0 idx true (O.timer_start timeout_ret i).1 ≡ some (sent, port1, io2)
    pub waits :
        wait_second P O fuel (O.timer_start timeout_ret i).0 idx port1 io2
        ≡ some (answer, port2, io3)
    pub result :
        ((is_negative answer ≡ true) × (o ≡ some (wkc, port2, io3)) × IsLive idx k port2)
        ⊎ ((v : ℕ) × (port3 : Port) × (answer ≡ pos v)
            × (v < 2 ^ 16)
            × (o ≡ some (pos v, port3, io3))
            × IsLive idx k port3
            × HasSecondary idx port3)
    pub time : IsLater P O D E idx k i io3

  not_negative : (v : ℤ) → IsResult v → is_negative v ≡ false → (n : ℕ) × (v ≡ pos n) × (n < 2 ^ 16)
  not_negative v (inl e) n = ground arith
  not_negative v (inr (inl e)) n = ground arith
  not_negative v (inr (inr h)) n = h

  resend-Resent :
      (fuel : ℕ) (wkc : ℤ) (p : Port) (i : I)
      → E.polls timeout_ret < fuel
      → IsLive idx k p
      → k ≢ 0
      → Resent fuel wkc p i (resend P O fuel idx wkc p i)
  unfolding resend
  resend-Resent fuel wkc p i h w d =
      let (timer, i1) = O.timer_start timeout_ret i in
      let started : IsLater P O D E idx k i i1 = record {
        left = λ t. E.start_keeps t timeout_ret i;
      } in
      let (rval, p1, i2, e, w1, u, l1) = outframe-second P O D E idx k p w i1 d in
      let (v, p2, i3, f, w2, r, l2) =
        wait_second-Returns P O D E idx k fuel timer p1 i2
          (omega (arith, E.starts timeout_ret i, l1.left timer)) w1 d in
      let l =
        IsLater-trans P O D E idx k i i1 i3 started (IsLater-trans P O D E idx k i1 i2 i3 l1 l2) in
      record {
        sent = rval;
        answer = v;
        port1 = p1;
        port2 = p2;
        io2 = i2;
        io3 = i3;
        sends = e;
        waits = f;
        time = l;
        result = elim (Bool-cases (is_negative v)) [
          | inl n ↦ inl (n, rw (resend, e, f, n), w2)
          | inr n ↦
              (let (red, q, x) = IsLive-second_stack idx k p2 w2 d in
                let (b, y, g, w3) = take_secondary-some idx k p2 w2 red q x in
                let (c, s, m) = not_negative v r n in
                inr (
                  c,
                  _,
                  s,
                  m,
                  rw (resend, e, f, n, g, s),
                  w3,
                  record { second = red; found = q; payload = y },
                ))
        ];
      }

  -- What is sent again: the frame of the port, where none came back on the first socket; and where one
  -- came back to its own, a frame that holds what that one did behind the Ethernet header.
  abbrev pub SendsAgain : ℕ → ℤ → Port → I → ℕ → Option (ℤ × Port × I) → Type 0
  SendsAgain fuel wkc p i primrx o =
      ((primrx ≡ 0) × Resent fuel wkc p i o)
      ⊎ ((primrx ≡ rx_prim)
          × ((b : List ℕ) × HasPayload (get_or p.txbuflength idx 0) (get_or p.prim.rxbuf idx [])
                (drop 14 (get_or (set p.txbuf idx b) idx []))
              × Resent fuel wkc (record p { txbuf = set p.txbuf idx b }) i o))

  -- The decision of the redundant mode, on a live port with two sockets, and with fuel for the polls
  -- of its timer, by the sockets that the two frames came from. Each came back on the other one: the
  -- result is that of the second frame, and nothing is sent. That of the second socket came back to
  -- it, and that of the first not at all: it is sent again through the second socket. So it is if
  -- that of the first also came back to its own, and then with what that one brought back behind the
  -- Ethernet header. What is sent again is waited for, and the result is the work counter of the
  -- answer, if there is one. Otherwise the result stays. Where the second result is taken, its frame
  -- is in the primary buffer.
  pub redundancy_lem :
      (fuel : ℕ) (wkc wkc2 : ℤ) (p : Port) (i : I)
      → E.polls timeout_ret < fuel
      → IsLive idx k p
      → k ≢ 0
      → (r : Stack) × (p.red ≡ some r)
        × (let primrx = route wkc p.prim idx in
            let secrx = route wkc2 r idx in
            let result = redundancy P O fuel idx wkc wkc2 p i in
            ((primrx ≡ rx_sec)
              × (secrx ≡ rx_prim)
              × ((p1 : Port) × (result ≡ some (wkc2, p1, i))
                  × IsLive idx k p1
                  × HasSecondary idx p1))
            ⊎ (((secrx ≡ rx_sec) × SendsAgain fuel wkc p i primrx result)
                ⊎ (((primrx ≢ rx_sec) ⊎ (secrx ≢ rx_prim))
                    × ((secrx ≢ rx_sec) ⊎ ((primrx ≢ 0) × (primrx ≢ rx_prim)))
                    × (result ≡ some (wkc, p, i)))))
  unfolding redundancy
  redundancy_lem fuel wkc wkc2 p i h w d =
      let (r, q, x) = IsLive-second_stack idx k p w d in
      let primrx = route wkc p.prim idx in
      let secrx = route wkc2 r idx in
      let a = source_of_lem wkc p.prim idx (omega (arith, w.main.stack.sources, w.index)) in
      let b = source_of_lem wkc2 r idx (omega (arith, x.stack.sources, w.index)) in
      let c = second_stack p r q in
      (
        r,
        q,
        elim (Bool-cases (is_crossed primrx secrx)) [
          | inl crossed ↦
              (let (e, f) = crossed_routes primrx secrx crossed in
                let (buf, y, g, w1) = take_secondary-some idx k p w r q x in
                inl (
                  e,
                  f,
                  (
                    _,
                    rw (redundancy, a, c, b, crossed, g),
                    w1,
                    record { second = r; found = q; payload = y },
                  ),
                ))
          | inr straight ↦ elim (Bool-cases (is_broken primrx secrx)) [
            | inl broken ↦
                (let (e, f) = broken_routes primrx secrx broken in
                  elim (Bool-cases (primrx == rx_prim && secrx == rx_sec)) [
                    | inl partial ↦
                        (let (buf, y, g, w1) = primary_to_tx-some idx k p w in
                          let again =
                            resend-Resent fuel wkc (record p { txbuf = set p.txbuf idx buf }) i h w1
                              d in
                          inr (
                            inl (
                              f,
                              rw (redundancy, a, c, b, straight, broken, partial, g)
                                  (inr (ground arith, (buf, y, again))),
                            )))
                    | inr missing ↦
                        (let again = resend-Resent fuel wkc p i h w d in
                          let absent : primrx ≡ 0 = ground arith in
                          inr (
                            inl (
                              f,
                              rw (redundancy, a, c, b, straight, broken, missing)
                                  (inl (absent, again)),
                            )))
                  ])
            | inr fine ↦
                (let (e, f) = other_routes primrx secrx straight fine in
                  inr (inr (e, f, rw (redundancy, a, c, b, straight, fine))))
          ]
        ],
      )
