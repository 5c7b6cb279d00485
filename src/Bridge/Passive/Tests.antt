-- ===== src/Bridge/Passive/Tests.antt =====
-- Handles of a driver that keeps a list of them.
use servo_assistant.Base.{
  as_int, ℕ, ◌≤◌, ◌<◌, ◌≡◌, ◌≢◌, ◌⊎◌, refl, pos, minus_one, minus_two, true, false, none, some,
  List, [], ◌∷◌, length, arith,
}
use servo_assistant.Bridge.Npcap.{Packet, Npcap, DeliversWhole, Io}
use servo_assistant.Bridge.Shim.{Message, handle, null, stamp_of, pcap_open, pcap_close}
use servo_assistant.Bridge.Passive.{sa_capture_open, sa_capture_next, sa_capture_close}
use servo_assistant.Bridge.Passive.Handles.{
  KeepsHandles, erase, next_packet, drops, asking, sa_capture_open_lem, pcap_open_lem,
}
use servo_assistant.Bridge.Passive.Reading.{sa_capture_next_lem}

abbrev packet : Packet
packet = record { bytes = 1 ∷ 2 ∷ 3 ∷ []; caplen = 3; len = 60; seconds = 1; micros = 2 }

-- The state is the list of handles. Every adapter can be opened.
abbrev driver : Npcap (List ℕ)
driver = record {
  system_directory = λ d. 19;
  load_library = λ d. true;
  get_proc_address = λ f d. true;
  p_open = λ name snap flags timeout d. (some (length d), length d ∷ d);
  p_close = λ h d. erase h d;
  p_send = λ h bytes size d. (pos 0, d);
  p_next = λ h d. (pos 1, packet, d);
  p_find = λ d. (pos 0, [], d);
  p_free = λ d. d;
  p_stats = λ h d. (pos 0, 0, d);
  p_link = λ h d. 1;
  p_nonblock = λ h d. (pos 0, d);
}

driver-KeepsHandles : KeepsHandles driver
driver-KeepsHandles = record {
  handles = λ d. d;
  opens = λ name snap flags timeout d {h} e. ground arith;
  refuses = λ name snap flags timeout d e. ground arith;
  closes = λ h d. refl;
  unblocks = λ h d. refl;
  reads = λ h d. refl;
  counts = λ h d. refl;
}

driver-DeliversWhole : DeliversWhole driver
driver-DeliversWhole = record { captured = λ h d e. refl }

abbrev fresh : Io (List ℕ)
fresh = record {
  once = false;
  pcap_module = false;
  references = 0;
  master_socket = none;
  recorded = [];
  driver = [];
}

sa_capture_next_lem_example :
    (let (result, p, d1) = driver.p_next 0 (0 ∷ []) in
      let (n, out, d2) = sa_capture_next driver 0 65536 (0 ∷ []) in
      (d2 ≡ d1)
      × (((result ≡ pos 1)
            × (length p.bytes ≤ 65536)
            × (n ≡ as_int (length p.bytes))
            × (out ≡ some (record { bytes = p.bytes; stamp = stamp_of p; original = p.len })))
          ⊎ ((result ≡ pos 1) × (65536 < length p.bytes) × (n ≡ minus_two) × (out ≡ none))
          ⊎ ((result ≡ pos 0) × (n ≡ pos 0) × (out ≡ none))
          ⊎ ((result ≢ pos 1) × (result ≢ pos 0) × (n ≡ minus_one) × (out ≡ none))))
sa_capture_next_lem_example = sa_capture_next_lem driver driver-DeliversWhole 0 65536 (0 ∷ [])

sa_capture_open_lem_example :
    (let (o, io1) = sa_capture_open driver (b'a' ∷ []) fresh in
      (io1.master_socket ≡ none)
      × (io1.recorded ≡ [])
      × (((m : Message) × (o ≡ null m) × (io1.driver ≡ []))
          ⊎ ((h : ℕ) × (o ≡ handle h)
              × (io1.driver ≡ h ∷ [])
              × (sa_capture_close driver h
                    (asking driver h (next_packet 1500 ∷ drops ∷ []) io1.driver)
                  ≡ []))))
unfolding driver-KeepsHandles
sa_capture_open_lem_example =
    sa_capture_open_lem driver driver-KeepsHandles (b'a' ∷ []) (next_packet 1500 ∷ drops ∷ []) fresh

pcap_open_lem_example :
    (let (o, io1) = pcap_open driver (b'a' ∷ []) 65536 1 (pos 50) fresh in
      (io1.recorded ≡ [])
      × (((m : Message) × (o ≡ null m) × (io1.driver ≡ []))
          ⊎ ((h : ℕ) × (o ≡ handle h)
              × (io1.master_socket ≡ some h)
              × (io1.driver ≡ h ∷ [])
              × ((pcap_close driver (some h) io1).driver ≡ [])
              × ((pcap_close driver (some h) io1).master_socket ≡ none))))
unfolding driver-KeepsHandles
pcap_open_lem_example = pcap_open_lem driver driver-KeepsHandles (b'a' ∷ []) 65536 1 (pos 50) fresh
