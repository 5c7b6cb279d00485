-- ===== src/Bridge/Shim.antt =====
-- The pcap functions that bridge.c offers to SOEM in place of the driver's, and the loading of the
-- driver. `capture` is the static callback: whether one is set.
pub mod Laws
use servo_assistant.Base.{
  ℕ, ◌+◌, ◌*◌, ◌%◌, ◌^◌, ℤ, pos, minus_one, is_negative, is_zero, is_one, Bool, true, false, not,
  ◌||◌, ◌&&◌, Option, none, some, List, [], ◌∷◌, ◌++◌, ltb, leb, ◌==◌, if◌then◌else◌, ◌>>=◌,
}
use servo_assistant.Bridge.Npcap.{
  Packet, Device, Symbol, open_fn, close_fn, send_fn, next_fn, find_fn, free_fn, stats_fn, link_fn,
  nonblock_fn, Npcap, Observation, Io,
}
use servo_assistant.Bridge.Frame.{screen}

-- MAX_PATH of <windows.h>
abbrev pub max_path : ℕ
max_path = 260

-- The text that a failed call leaves in `error`; `from_driver` is what Npcap wrote there.
pub data Message : Type 0 where
  restart_needed unavailable ethernet_required from_driver : Message

-- A returned handle, or NULL and the text.
pub data Opened : Type 0 where
  handle : ℕ → Opened
  null : Message → Opened

abbrev pub symbols : List Symbol
symbols =
    open_fn ∷ close_fn ∷ send_fn ∷ next_fn ∷ find_fn ∷ free_fn ∷ stats_fn ∷ link_fn ∷ nonblock_fn
    ∷ []

-- `pcap_t *` comparison
abbrev pub same_handle : ℕ → Option ℕ → Bool
same_handle p none = false
same_handle p (some q) = p == q

-- `(uint64_t)tv_sec * 1000000 + tv_usec`
abbrev pub stamp_of : Packet → ℕ
stamp_of p = (p.seconds * 1_000_000 + p.micros) % 2 ^ 64

abbrev pub received : Packet → Observation
received p = record { direction = 2; bytes = p.bytes; size = p.caplen; stamp = stamp_of p }

module _ {D : Type 0} (N : Npcap D) where
  -- The LOAD lines: the first name that is missing frees the library and stops.
  unfoldable pub load_symbols : List Symbol → Io D → Io D
  load_symbols [] io = io
  load_symbols (f ∷ fs) io =
      let rest = load_symbols fs io in
      if N.get_proc_address f io.driver
      then rest
      else record io { pcap_module = false; references = 0 }

  unfoldable pub load_pcap : Io D → Io D
  load_pcap io =
      let size = N.system_directory io.driver in
      if size == 0 || leb max_path (size + 18)
      then io
      else if N.load_library io.driver
      then load_symbols symbols (record io { pcap_module = true; references = 1 })
      else io

  -- InitOnceExecuteOnce runs `load_pcap` in the first call only.
  unfoldable pub sa_available : Io D → Bool × Io D
  sa_available io =
      let io' = if io.once then io else record (load_pcap io) { once = true } in
      (io'.pcap_module, io')

  -- The checks that a new handle must pass: an Ethernet link, then non-blocking mode.
  unfoldable pub accept_handle : ℕ → D → Bool × D
  accept_handle p d =
      if N.p_link p d == 1
      then (let (r, d') = N.p_nonblock p d in (not (is_negative r), d'))
      else (false, d)

  unfoldable pub pcap_open : List ℕ → ℕ → ℕ → ℤ → Io D → Opened × Io D
  pcap_open name snap flags timeout io =
      let (available, io1) = sa_available io in
      if available
      then (let (p, d1) = N.p_open name snap flags timeout io1.driver in
          elim p [
            | none ↦ (null from_driver, record io1 { driver = d1; master_socket = none })
            | some h ↦
                (let (good, d2) = accept_handle h d1 in
                  if good
                  then (handle h, record io1 { driver = d2; master_socket = some h })
                  else (null from_driver, record io1 { driver = N.p_close h d2 }))
          ])
      else (null restart_needed, io1)

  unfoldable pub pcap_close : Option ℕ → Io D → Io D
  pcap_close none io = io
  pcap_close (some h) io =
      let io1 = record io { driver = N.p_close h io.driver } in
      if same_handle h io.master_socket then record io1 { master_socket = none } else io1

  -- Both results of a send are recorded: direction 1 is sent, 3 is failed.
  unfoldable pub pcap_sendpacket : Bool → ℕ → List ℕ → ℕ → Io D → ℤ × Io D
  pcap_sendpacket capture h bytes size io =
      let (result, d) = N.p_send h bytes size io.driver in
      let seen : Observation = record {
        direction = if is_zero result then 1 else 3;
        bytes = bytes;
        size = size;
        stamp = 0;
      } in
      if capture && ltb 0 size
      then (result, record io { driver = d; recorded = io.recorded ++ (seen ∷ []) })
      else (result, record io { driver = d })

  -- Result 1 is a frame. It is recorded before it is checked, and one that fails the check is
  -- reported as "no frame". `none` is a read outside the captured bytes.
  unfoldable pub pcap_next_ex : Bool → ℕ → Io D → Option (ℤ × Packet × Io D)
  pcap_next_ex capture h io =
      let (result, p, d) = N.p_next h io.driver in
      let io1 = record io { driver = d } in
      if is_one result
      then (do
        passed ← screen p.bytes p.caplen p.len
        some (
          if passed then pos 1 else pos 0,
          p,
          if capture then record io1 { recorded = io.recorded ++ (received p ∷ []) } else io1,
        ))
      else some (result, p, io1)

  unfoldable pub pcap_findalldevs : Io D → ℤ × List Device × Message × Io D
  pcap_findalldevs io =
      let (available, io1) = sa_available io in
      if available
      then (let (r, ds, d) = N.p_find io1.driver in (r, ds, from_driver, record io1 { driver = d }))
      else (minus_one, [], unavailable, io1)

  -- NULL is the empty list of devices.
  unfoldable pub pcap_freealldevs : List Device → Io D → Io D
  pcap_freealldevs [] io = io
  pcap_freealldevs (x ∷ xs) io = record io { driver = N.p_free io.driver }
