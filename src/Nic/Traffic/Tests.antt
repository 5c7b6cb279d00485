-- ===== src/Nic/Traffic/Tests.antt =====
-- What the recorder is told when a frame is sent and a packet received.
use servo_assistant.Base.{
  ℕ, ◌+◌, ◌≡◌, refl, ℤ, pos, true, false, none, some, [], ◌∷◌, replicate, take,
}
use servo_assistant.Bridge.Npcap.{Packet, Npcap, Io}
use servo_assistant.Bridge.Frame.{screen, walk, datagram, word_at}
use servo_assistant.Bridge.Shim.{pcap_sendpacket, pcap_next_ex}
use servo_assistant.Nic.{Port, enter, set_status}
use servo_assistant.Nic.Pcap.{Osal}
use servo_assistant.Nic.Bridged.{shim_pcap}
use servo_assistant.Nic.Frames.{
  stack_of, socket_of, with_stack, is_inside, outframe, recvpkt, inframe,
}
use servo_assistant.Nic.Simulation.{blank, port}
use servo_assistant.Nic.Traffic.Calls.{Calls, none_yet, and_outframe, and_inframe}
use servo_assistant.Nic.Traffic.Calls.Recorded.{timers, IsRecorded, Calls-IsRecorded}

-- A short packet that is no EtherCAT frame.
abbrev noise : Packet
noise = record { bytes = replicate 20 7; caplen = 20; len = 20; seconds = 1; micros = 2 }

-- A driver that counts what is sent, and delivers the same packet over and over.
abbrev counter : Npcap ℕ
counter = record {
  system_directory = λ d. 19;
  load_library = λ d. true;
  get_proc_address = λ f d. true;
  p_open = λ name snap flags timeout d. (some 1, d);
  p_close = λ h d. d;
  p_send = λ h bytes size d. (pos 0, d + 1);
  p_next = λ h d. (pos 1, noise, d);
  p_find = λ d. (pos 0, [], d);
  p_free = λ d. d;
  p_stats = λ h d. (pos 0, 0, d);
  p_link = λ h d. 1;
  p_nonblock = λ h d. (pos 0, d);
}

abbrev still : Osal ℕ
still = record { timer_start = λ us d. (us, d); timer_is_expired = λ t d. (true, d) }

abbrev linked : Io ℕ
linked = record {
  once = true;
  pcap_module = true;
  references = 1;
  master_socket = some 1;
  recorded = [];
  driver = 0;
}

sent : ℤ × Port × Io ℕ
unfolding outframe
sent = elim (outframe (shim_pcap counter true) (port 0) 3 false linked) [
  | none ↦ (pos 0, port 0, linked)
  | some result ↦ result
]

sends_it : outframe (shim_pcap counter true) (port 0) 3 false linked ≡ some sent
unfolding sent outframe stack_of socket_of set_status is_inside shim_pcap pcap_sendpacket with_stack
sends_it = refl

got : ℤ × Port × Io ℕ
unfolding inframe
got = elim (inframe (shim_pcap counter true) (port 0) 3 false sent.2) [
  | none ↦ (pos 0, port 0, linked)
  | some result ↦ result
]

gets_it : inframe (shim_pcap counter true) (port 0) 3 false sent.2 ≡ some got
unfolding got inframe stack_of socket_of recvpkt shim_pcap pcap_next_ex screen walk datagram word_at
    enter
gets_it = refl

both : Calls (shim_pcap counter true) (timers still) linked got.2
both = and_inframe (port 0) 3 false (and_outframe (port 0) 3 false none_yet sends_it) gets_it

Calls-IsRecorded_example : IsRecorded counter still true linked got.2
Calls-IsRecorded_example = Calls-IsRecorded counter still true both

-- Both are in the recording.
both_recorded :
    got.2.recorded
    ≡ record { direction = 1; bytes = take 64 blank; size = 64; stamp = 0 }
      ∷ record { direction = 2; bytes = noise.bytes; size = 20; stamp = 1_000_002 }
      ∷ []
unfolding got sent inframe outframe stack_of socket_of set_status is_inside recvpkt shim_pcap
    pcap_sendpacket pcap_next_ex screen walk datagram word_at with_stack enter
both_recorded = refl
