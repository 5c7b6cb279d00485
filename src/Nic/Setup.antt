-- ===== src/Nic/Setup.antt =====
-- Opening and closing the sockets of a port. `none` is the initialising of an initialised critical
-- section, or the deleting of another: both are undefined.
use servo_assistant.Base.{
  ℕ, minus_one, Bool, true, false, Option, none, some, List, [], ◌∷◌, ◌++◌, replicate, drop,
  if◌then◌else◌, ◌>>=◌,
}
use servo_assistant.Nic.{Stack, Port, max_buf, buf_empty}
use servo_assistant.Nic.Pcap.{Pcap}
use servo_assistant.Nic.Frames.{socket_of}

unfoldable pub initialize_section : Bool → Option Bool
initialize_section initialised = if initialised then none else some true

unfoldable pub delete_section : Bool → Option Bool
delete_section initialised = if initialised then some false else none

unfoldable pub initialize_sections : Port → Option Port
initialize_sections p = do
  getindex ← initialize_section p.getindex_mutex
  tx ← initialize_section p.tx_mutex
  rx ← initialize_section p.rx_mutex
  some (record p { getindex_mutex = getindex; tx_mutex = tx; rx_mutex = rx })

unfoldable pub delete_sections : Port → Option Port
delete_sections p = do
  getindex ← delete_section p.getindex_mutex
  tx ← delete_section p.tx_mutex
  rx ← delete_section p.rx_mutex
  some (record p { getindex_mutex = getindex; tx_mutex = tx; rx_mutex = rx })

-- `ecx_clear_rxbufstat`
unfoldable pub clear_rxbufstat : Stack → Stack
clear_rxbufstat st = record st { rxbufstat = replicate max_buf buf_empty }

-- `ec_setupheader`: broadcast, the primary source address, and the type of EtherCAT.
unfoldable pub setupheader : List ℕ → List ℕ
setupheader p =
    (0xff ∷ 0xff ∷ 0xff ∷ 0xff ∷ 0xff ∷ 0xff ∷ 1 ∷ 1 ∷ 1 ∷ 1 ∷ 1 ∷ 1 ∷ 0x88 ∷ 0xa4 ∷ [])
    ++ drop 14 p

-- Of each transmit buffer.
unfoldable pub setup_headers : List (List ℕ) → List (List ℕ)
setup_headers [] = []
setup_headers (p ∷ ps) = setupheader p ∷ setup_headers ps

-- The end of `ecx_setupnic`, where a socket is open.
unfoldable pub prepare : Port → Port
prepare p = record p {
  txbuf = setup_headers p.txbuf;
  prim = clear_rxbufstat p.prim;
  txbuf2 = setupheader p.txbuf2;
}

-- PCAP_OPENFLAG_PROMISCUOUS | PCAP_OPENFLAG_MAX_RESPONSIVENESS | PCAP_OPENFLAG_NOCAPTURE_LOCAL
abbrev pub open_flags : ℕ
open_flags = 25

module _ {I : Type 0} (P : Pcap I) where
  unfoldable pub setup_primary : List ℕ → Port → I → Option (ℕ × Port × I)
  setup_primary name p i = do
    p1 ← initialize_sections p
    let p2 : Port = record p1 {
      prim = clear_rxbufstat (record p1.prim { sock = none });
      lastidx = 0;
      redstate = 0;
    }
    let (socket, i1) = P.open_socket name 65536 open_flags minus_one i
    elim socket [
      | none ↦ (do p3 ← delete_sections p2; some (0, p3, i1))
      | some h ↦ some (1, prepare (record p2 { prim = record p2.prim { sock = some h } }), i1)
    ]

  unfoldable pub setup_secondary : List ℕ → Stack → Port → I → ℕ × Port × I
  setup_secondary name red p i =
      let red1 = clear_rxbufstat (record red { sock = none }) in
      let (socket, i1) = P.open_socket name 65536 open_flags minus_one i in
      elim socket [
        | none ↦ (0, record p { redstate = 1; red = some red1 }, i1)
        | some h ↦
            (1, prepare (record p { redstate = 1; red = some (record red1 { sock = some h }) }), i1)
      ]

  -- `ecx_setupnic`
  unfoldable pub setupnic : List ℕ → Bool → Port → I → Option (ℕ × Port × I)
  setupnic name secondary p i =
      if secondary
      then elim p.red [ none ↦ some (0, p, i) | some red ↦ some (setup_secondary name red p i) ]
      else setup_primary name p i

  unfoldable pub close_primary : Port → I → Option (Port × I)
  close_primary p i = elim (socket_of p.prim) [
    | none ↦ some (p, i)
    | some h ↦ (do
      p1 ← delete_sections p
      some (record p1 { prim = record p1.prim { sock = none } }, P.close_socket h i))
  ]

  unfoldable pub close_secondary : Option Stack → I → Option Stack × I
  close_secondary red i = elim red [
    | none ↦ (none, i)
    | some r ↦ elim (socket_of r) [
      | none ↦ (some r, i)
      | some h ↦ (some (record r { sock = none }), P.close_socket h i)
    ]
  ]

  -- `ecx_closenic`, which always returns 0
  unfoldable pub closenic : Port → I → Option (Port × I)
  closenic p i = do
    (p1, i1) ← close_primary p i
    let (red, i2) = close_secondary p1.red i1
    some (record p1 { red = red }, i2)
