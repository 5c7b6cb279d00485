-- ===== src/Nic/Wait/Live.antt =====
-- A port whose sockets are open stays so under every call that sends or receives, and each returns.
use servo_assistant.Base.{
  ℕ, ◌≤◌, ◌<◌, ◌≡◌, ◌≢◌, ◌⊎◌, inl, inr, refl, ℤ, true, false, Option, some, List, [], set, length,
  get_or, ◌==◌, arith, Bool-cases, length-set, get_or-set_self, get_or-set_ne,
}
use mathlib.Core.Path.{subst}
use servo_assistant.Nic.{Stack, Port, max_buf, buf_size}
use servo_assistant.Nic.Pcap.{Pcap, Osal, DeliversFrames, Expires}
use servo_assistant.Nic.Invariant.{IsSendable, IsStack}
use servo_assistant.Nic.Frames.{stack_of, socket_of, with_stack, inframe}
use servo_assistant.Nic.Frames.Bounds.{IsResult}
use servo_assistant.Nic.Frames.Receive.{inframe-some}

pub record IsOpenStack (lens : List ℕ) (st : Stack) : Type 0 where
  pub stack : IsStack lens st
  pub handle : ℕ
  pub opened : socket_of st ≡ some handle

-- A port that is open, with the redundancy `k`, where the frame of an index can be sent.
pub record IsLive (idx k : ℕ) (p : Port) : Type 0 where
  pub main : IsOpenStack p.txbuflength p.prim
  pub second : (k ≡ 0) ⊎ ((r : Stack) × (p.red ≡ some r) × IsOpenStack p.txbuflength r)
  pub state : p.redstate ≡ k
  pub lengths : length p.txbuflength ≡ max_buf
  pub index : idx < max_buf
  pub sendable : IsSendable (get_or p.txbuflength idx 0)
  pub tx_count : length p.txbuf ≡ max_buf
  pub tx_each : (j : ℕ) → j < max_buf → length (get_or p.txbuf j []) ≡ buf_size
  pub spare : length p.txbuf2 ≡ buf_size
  pub spare_length : p.txbuflength2 ≤ buf_size
  pub rx : p.rx_mutex ≡ true
  pub tx : p.tx_mutex ≡ true

module _ (idx k : ℕ) (p : Port) (w : IsLive idx k p) where
  pub IsLive-main :
      (st : Stack) (n : ℕ)
      → IsOpenStack p.txbuflength st
      → IsLive idx k (record p { prim = st; tempinbufs = n })
  IsLive-main st n x = record {
    main = x;
    second = w.second;
    state = w.state;
    lengths = w.lengths;
    index = w.index;
    sendable = w.sendable;
    tx_count = w.tx_count;
    tx_each = w.tx_each;
    spare = w.spare;
    spare_length = w.spare_length;
    rx = w.rx;
    tx = w.tx;
  }

  pub IsLive-second :
      (st : Stack) (n : ℕ) (spare : List ℕ)
      → IsOpenStack p.txbuflength st
      → length spare ≡ buf_size
      → IsLive idx k (record p { red = some st; tempinbufs = n; txbuf2 = spare })
  IsLive-second st n spare x l = record {
    main = w.main;
    second = inr (st, refl, x);
    state = w.state;
    lengths = w.lengths;
    index = w.index;
    sendable = w.sendable;
    tx_count = w.tx_count;
    tx_each = w.tx_each;
    spare = l;
    spare_length = w.spare_length;
    rx = w.rx;
    tx = w.tx;
  }

  pub IsLive-tx :
      (b : List ℕ) → length b ≡ buf_size → IsLive idx k (record p { txbuf = set p.txbuf idx b })
  IsLive-tx b l = record {
    main = w.main;
    second = w.second;
    state = w.state;
    lengths = w.lengths;
    index = w.index;
    sendable = w.sendable;
    tx_count = omega (arith, length-set p.txbuf idx b, w.tx_count);
    tx_each = λ j h. elim (Bool-cases (idx == j)) [
      | inl same ↦
          (let q : idx ≡ j = ground arith in
            subst (λ m. length (get_or (set p.txbuf idx b) m []) ≡ buf_size) q
              (rw (get_or-set_self p.txbuf idx b [] (omega (arith, w.tx_count, w.index))) l))
      | inr other ↦
          (let n : idx ≢ j = ground arith in rw (get_or-set_ne p.txbuf b [] n) (w.tx_each j h))
    ];
    spare = w.spare;
    spare_length = w.spare_length;
    rx = w.rx;
    tx = w.tx;
  }

  pub IsLive-second_stack : k ≢ 0 → (r : Stack) × (p.red ≡ some r) × IsOpenStack p.txbuflength r
  IsLive-second_stack n = elim w.second [ inl z ↦ absurd (n z) | inr x ↦ x ]

module _ {I : Type 0} (P : Pcap I) (O : Osal I) (D : DeliversFrames P) (E : Expires P O)
    (idx k : ℕ) where
  -- No timer has gained by a step.
  pub record IsLater (i j : I) : Type 0 where
    pub left : (t : ℕ) → E.left t j ≤ E.left t i

  -- A step returns, and the port stays live.
  abbrev pub Returns : (ℤ → Type 0) → I → Option (ℤ × Port × I) → Type 0
  Returns W i o =
      (wkc : ℤ) × (p1 : Port) × (i1 : I) × (o ≡ some (wkc, p1, i1))
      × IsLive idx k p1
      × W wkc
      × IsLater i i1

  pub IsLater-refl : (i : I) → IsLater i i
  IsLater-refl i = record { left = λ t. omega arith }

  pub IsLater-trans : (i j l : I) → IsLater i j → IsLater j l → IsLater i l
  IsLater-trans i j l a b = record { left = λ t. omega (arith, a.left t, b.left t) }

  IsLater-next :
      (h : ℕ) (i i1 : I)
      → (i1 ≡ i) ⊎ ((r : ℤ) × (pkt : _) × (P.next_packet h i ≡ some (r, pkt, i1)))
      → IsLater i i1
  IsLater-next h i i1 x = elim x [
    | inl q ↦ record { left = λ t. rw q (omega arith) }
    | inr (r, pkt, e) ↦ record { left = λ t. E.next_keeps t h i e }
  ]

  module _ (p : Port) (w : IsLive idx k p) where
    pub inframe-main : (i : I) → Returns IsResult i (inframe P p idx false i)
    unfolding stack_of with_stack
    inframe-main i =
        let x = w.main in
        let (wkc, st, n, i1, e, s, o, r, q) =
          inframe-some P D false p p.prim refl x.handle x.opened x.stack idx i w.rx w.lengths
            w.index w.sendable in
        (
          wkc,
          record p { prim = st; tempinbufs = n },
          i1,
          e,
          IsLive-main idx k p w st n (record { stack = s; handle = x.handle; opened = o }),
          r,
          IsLater-next x.handle i i1 q,
        )

    pub inframe-second : (i : I) → k ≢ 0 → Returns IsResult i (inframe P p idx true i)
    unfolding stack_of with_stack
    inframe-second i d =
        let (red, f, x) = IsLive-second_stack idx k p w d in
        let (wkc, st, n, i1, e, s, o, r, q) =
          inframe-some P D true p red f x.handle x.opened x.stack idx i w.rx w.lengths w.index
            w.sendable in
        (
          wkc,
          record p { red = some st; tempinbufs = n },
          i1,
          e,
          IsLive-second idx k p w st n p.txbuf2
              (record { stack = s; handle = x.handle; opened = o }) w.spare,
          r,
          IsLater-next x.handle i i1 q,
        )
