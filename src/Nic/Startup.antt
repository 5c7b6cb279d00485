-- ===== src/Nic/Startup.antt =====
-- A port that was set up can send and receive.
mod Tests
use servo_assistant.Base.{
  ℕ, ◌+◌, ◌-◌, ◌≤◌, ◌<◌, ◌≡◌, ◌∙◌, refl, ap, inl, ℤ, minus_one, Bool, true, false, Option, none,
  some, List, [], ◌∷◌, ◌++◌, length, get_or, drop, replicate, zero, suc, arith, length-drop,
  length-replicate, get_or-replicate,
}
use servo_assistant.Nic.{Stack, Port, max_buf, buf_size, buf_empty}
use servo_assistant.Nic.Pcap.{Pcap, Osal, DeliversFrames, Expires}
use servo_assistant.Nic.Invariant.{IsBuffer, IsSendable, IsStack}
use servo_assistant.Nic.Frames.{socket_of}
use servo_assistant.Nic.Frames.Bounds.{IsResult}
use servo_assistant.Nic.Setup.{
  clear_rxbufstat, setupheader, setup_headers, prepare, open_flags, setup_primary, setupnic,
}
use servo_assistant.Nic.Sections.{is_open, IsPaired, initialize_sections_lem, with_sections}
use servo_assistant.Nic.Wait.{timeout_ret, srconfirm}
use servo_assistant.Nic.Wait.Live.{IsOpenStack, IsLive}
use servo_assistant.Nic.Wait.Confirm.{srconfirm_total}

-- The arrays of a port as C declares them, and receive buffers whose first bytes, all zero at the
-- start of the program, are a length that fits.
pub record IsSized (p : Port) : Type 0 where
  pub temp : length p.prim.tempbuf ≡ buf_size
  pub buffers : length p.prim.rxbuf ≡ max_buf
  pub sources : length p.prim.rxsa ≡ max_buf
  pub each : (j : ℕ) → j < max_buf → IsBuffer (get_or p.prim.rxbuf j [])
  pub spare : length p.txbuf2 ≡ buf_size
  pub spare_length : p.txbuflength2 ≤ buf_size

-- Frames as the caller builds them: 16 buffers, and a length for each.
pub record AreFrames (idx : ℕ) (lens : List ℕ) (txs : List (List ℕ)) : Type 0 where
  pub lengths : length lens ≡ max_buf
  pub count : length txs ≡ max_buf
  pub each : (j : ℕ) → j < max_buf → length (get_or txs j []) ≡ buf_size
  pub index : idx < max_buf
  pub sendable : IsSendable (get_or lens idx 0)

length-setupheader : (b : List ℕ) → length b ≡ buf_size → length (setupheader b) ≡ buf_size
unfolding setupheader
length-setupheader b l = omega (arith, length-drop 14 b)

-- After a clearing, no index is that of a frame on the wire.
cleared : (n j : ℕ) → get_or (replicate {A = ℕ} n 0) j 0 ≡ 0
cleared zero j = refl
cleared (suc n) zero = refl
cleared (suc n) (suc j) = cleared n j

fresh-IsStack :
    (lens : List ℕ) (p : Port) (h : ℕ)
    → IsSized p
    → IsOpenStack lens (clear_rxbufstat (record p.prim { sock = some h }))
unfolding clear_rxbufstat socket_of
fresh-IsStack lens p h w = record {
  stack = record {
    temp = w.temp;
    buffers = w.buffers;
    states = length-replicate {A = ℕ} max_buf buf_empty;
    sources = w.sources;
    each = w.each;
    sent = λ j e. absurd (ground (arith, cleared 16 j));
  };
  handle = h;
  opened = refl;
}

module _ {I : Type 0} (P : Pcap I) where
  -- The port that a set-up leaves, and frames in its transmit buffers.
  pub setupnic-IsLive :
      (name : List ℕ) (p : Port) (i i1 : I) (h : ℕ)
      → IsSized p
      → IsPaired p
      → socket_of p.prim ≡ none
      → P.open_socket name 65536 open_flags minus_one i ≡ (some h, i1)
      → (p1 : Port) × (setupnic P name false p i ≡ some (1, p1, i1))
        × ((idx : ℕ) (lens : List ℕ) (txs : List (List ℕ))
            → AreFrames idx lens txs
            → IsLive idx 0 (record p1 { txbuf = txs; txbuflength = lens }))
  unfolding setupnic setup_primary prepare clear_rxbufstat
  setupnic-IsLive name p i i1 h z w e o =
      let shut : is_open (socket_of p.prim) ≡ false = ap is_open e in
      let init = initialize_sections_lem p (w.getindex ∙ shut) (w.tx ∙ shut) (w.rx ∙ shut) in
      let p2 : Port = record (with_sections true p) {
        prim = clear_rxbufstat (record p.prim { sock = some h });
        lastidx = 0;
        redstate = 0;
      } in
      (
        prepare p2,
        rw (setup_primary, init, o, o),
        λ idx lens txs f. record {
          main = fresh-IsStack lens p h z;
          second = inl refl;
          state = refl;
          lengths = f.lengths;
          index = f.index;
          sendable = f.sendable;
          tx_count = f.count;
          tx_each = f.each;
          spare = length-setupheader p.txbuf2 z.spare;
          spare_length = z.spare_length;
          rx = refl;
          tx = refl;
        },
      )

-- Let a closed port be set up, and let the adapter open. Then the set-up succeeds, and for any frame of
-- 16 to 1518 bytes that the caller puts in a transmit buffer, the call that sends it and waits for the
-- answer returns, with a work counter, or with the news that no frame, or another one, came.
pub started_confirms :
    {I : Type 0} (P : Pcap I) (O : Osal I) (D : DeliversFrames P) (E : Expires P O) (name : List ℕ)
    (p : Port) (i i1 : I) (h idx : ℕ) (lens : List ℕ) (txs : List (List ℕ)) (fuel timeout : ℕ)
    → IsSized p
    → IsPaired p
    → socket_of p.prim ≡ none
    → P.open_socket name 65536 open_flags minus_one i ≡ (some h, i1)
    → AreFrames idx lens txs
    → E.polls timeout < fuel
    → E.polls timeout_ret < fuel
    → (p1 p2 : Port) × (i2 : I) × (wkc : ℤ) × (setupnic P name false p i ≡ some (1, p1, i1))
      × (srconfirm P O fuel idx timeout (record p1 { txbuf = txs; txbuflength = lens }) i1
          ≡ some (wkc, p2, i2))
      × IsResult wkc
started_confirms P O D E name p i i1 h idx lens txs fuel timeout z w e o f a b =
    let (p1, g, live) = setupnic-IsLive P name p i i1 h z w e o in
    let (wkc, p2, i2, s, l, r) =
      srconfirm_total P O D E idx 0 fuel timeout (record p1 { txbuf = txs; txbuflength = lens }) i1
        a b (live idx lens txs f) in
    (p1, p2, i2, wkc, g, s, r)
