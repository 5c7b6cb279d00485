-- ===== src/Bridge/Tests.antt =====
-- The theorems about bridge.c at concrete inputs, and runs of its functions.
use servo_assistant.Base.{
  ℕ, ◌-◌, ◌≤◌, ◌≡◌, ◌↔◌, ◌⊎◌, refl, ℤ, pos, minus_one, minus_two, true, false, none, some, List, [],
  ◌∷◌, ◌++◌, length, replicate, take, arith, ltb, get_elem?, if◌then◌else◌,
}
use servo_assistant.Bridge.Npcap.{Packet, Device, Npcap, DeliversWhole, Io}
use servo_assistant.Bridge.Frame.{screen, walk, datagram, word_at}
use servo_assistant.Bridge.Frame.Layout.{IsWellFormed}
use servo_assistant.Bridge.Frame.Accept.{screen_iff}
use servo_assistant.Bridge.Shim.{
  sa_available, load_pcap, load_symbols, pcap_open, pcap_next_ex, handle, accept_handle,
  pcap_findalldevs, pcap_freealldevs, received,
}
use servo_assistant.Bridge.Shim.Laws.{pcap_next_ex-frame}
use servo_assistant.Bridge.Soem.{Slave, Soem, Coe, DrainsErrors}
use servo_assistant.Nic.Pcap.{DeliversFrames}
use servo_assistant.Nic.Bridged.{ReturnsOne, shim_pcap, shim_pcap-DeliversFrames}
use servo_assistant.Coe.Tables.{OdList, OeList}
use servo_assistant.Bridge.Master.{Bridge, sa_open, sa_close, sa_slaves, slave_info, slave_infos}
use servo_assistant.Bridge.Dictionary.{
  sa_od_item, sa_od_entries, od_entry, od_entries_from, entry_count,
}
use servo_assistant.Bridge.Report.{sa_error, sa_adapters}
use servo_assistant.Bridge.Report.Errors.{messages, sa_error_lem}
use servo_assistant.Bridge.Report.Adapters.{listing, sa_adapters_lem}
use servo_assistant.Bridge.Session.{
  open_master, close_master, sdo_read, od_count, call, session, results,
}
use servo_assistant.Bridge.Session.Modes.{Mode, open_with, Runs, Shows, session-Runs}
use servo_assistant.Bridge.Session.Tables.{sa_slaves_lem}

-- A frame with one datagram without data, and one that announces a second datagram.
abbrev frame : List ℕ
frame = replicate 12 0 ++ (0x88 ∷ 0xa4 ∷ 12 ∷ 0x10 ∷ replicate 12 0)

abbrev broken_frame : List ℕ
broken_frame =
    replicate 12 0 ++ (0x88 ∷ 0xa4 ∷ 12 ∷ 0x10 ∷ (replicate 7 0 ++ (0x80 ∷ replicate 4 0)))

frame_accepted : screen frame 28 28 ≡ some true
unfolding screen walk datagram word_at
frame_accepted = refl

frame_rejected : screen broken_frame 28 28 ≡ some false
unfolding screen walk datagram word_at
frame_rejected = refl

-- A capture that was cut short is rejected.
frame_truncated : screen frame 28 60 ≡ some false
unfolding screen walk datagram word_at
frame_truncated = refl

screen_iff_example : (screen frame 28 28 ≡ some true) ↔ IsWellFormed frame 28
screen_iff_example = screen_iff frame 28

abbrev packet : Packet
packet = record { bytes = frame; caplen = 28; len = 28; seconds = 1; micros = 2 }

-- A machine with Npcap that has one adapter, whose link is the machine's state, and which delivers
-- `packet` over and over.
abbrev npcap : Npcap ℕ
npcap = record {
  system_directory = λ d. 19;
  load_library = λ d. true;
  get_proc_address = λ f d. true;
  p_open = λ name snap flags timeout d. (some 7, d);
  p_close = λ h d. d;
  p_send = λ h bytes size d. (pos 0, d);
  p_next = λ h d. (pos 1, packet, d);
  p_find = λ d. (pos 0, record { name = b'a' ∷ []; description = none } ∷ [], d);
  p_free = λ d. d;
  p_stats = λ h d. (pos 0, 3, d);
  p_link = λ h d. d;
  p_nonblock = λ h d. (pos 0, d);
}

npcap-DeliversWhole : DeliversWhole npcap
npcap-DeliversWhole = record { captured = λ h d e. refl }

abbrev fresh_on : ℕ → Io ℕ
fresh_on link = record {
  once = false;
  pcap_module = false;
  references = 0;
  master_socket = none;
  recorded = [];
  driver = link;
}

abbrev used_on : ℕ → Io ℕ
used_on link = record (fresh_on link) { once = true; pcap_module = true; references = 1 }

opens :
    pcap_open npcap [] 65536 25 minus_one (used_on 1)
    ≡ (handle 7, record (used_on 1) { master_socket = some 7 })
unfolding pcap_open sa_available load_pcap load_symbols accept_handle
opens = refl

pcap_next_ex-frame_example :
    (r : ℤ) × (pcap_next_ex npcap true 7 (used_on 1)
      ≡ some (r, packet, record (used_on 1) { recorded = received packet ∷ [] }))
    × ((r ≡ pos 1) ↔ IsWellFormed frame 28)
    × ((r ≡ pos 1) ⊎ (r ≡ pos 0))
pcap_next_ex-frame_example = pcap_next_ex-frame npcap npcap-DeliversWhole 7 (used_on 1) refl

npcap-ReturnsOne : ReturnsOne npcap
npcap-ReturnsOne = record { only = λ h d e. refl }

shim_pcap-DeliversFrames_example : DeliversFrames (shim_pcap npcap false)
shim_pcap-DeliversFrames_example =
    shim_pcap-DeliversFrames npcap npcap-DeliversWhole npcap-ReturnsOne false

abbrev one_adapter : List Device
one_adapter = record { name = b'a' ∷ []; description = none } ∷ []

sa_adapters_lem_example : sa_adapters npcap 100 (used_on 1) ≡ (
    let all = listing one_adapter in
    if ltb (length all) 100
    then (pos (length all), all, pcap_freealldevs npcap one_adapter (used_on 1))
    else (minus_two, [], pcap_freealldevs npcap one_adapter (used_on 1)))
unfolding pcap_findalldevs sa_available
sa_adapters_lem_example = sa_adapters_lem npcap 100 (used_on 1) (omega arith) refl refl

abbrev drive : Slave
drive = record {
  configadr = 4097;
  eep_man = 1;
  eep_id = 2;
  eep_rev = 3;
  state = 2;
  al_status_code = 0;
  mbx_wo = 4096;
  mbx_ro = 4608;
  mbx_proto = 4;
  name = b'd' ∷ 0 ∷ [];
  active_ports = 1;
  parent_port = 0;
  entry_port = 0;
  dc_active = 0;
  dc_next = 0;
}

-- A master with one slave, whose state is the number of errors that wait, each with the text "e".
abbrev soem : Soem ℕ
soem = record {
  ec_init = λ c name i. (pos 1, i);
  ec_close = λ c i. i;
  ec_config_init = λ c i. (pos 1, i);
  ec_statecheck = λ c s st t i. i;
  ec_readstate = λ c i. (2, i);
  ec_slavecount = λ i. 1;
  ec_slave = λ i s. drive;
  ec_fprd = λ c a r n t i. (pos 1, replicate n 0, i);
  ec_iserror = λ i. ltb 0 i;
  ec_elist2string = λ i. (b'e' ∷ 0 ∷ [], i - 1);
}

soem-DrainsErrors : DrainsErrors soem
soem-DrainsErrors = record {
  waiting = λ i. i;
  iserror_zero = λ i h. ground arith;
  iserror_suc = λ i {n} h. ground arith;
  takes_one = λ i {n} h. omega arith;
}

abbrev objects : OdList
objects = record {
  slave = 1;
  entries = 1;
  index = 0x1000 ∷ [];
  data_type = 7 ∷ [];
  object_code = 7 ∷ [];
  max_sub = 1 ∷ [];
  name = (b'o' ∷ 0 ∷ []) ∷ [];
}

abbrev entries : OeList
entries = record {
  entries = 2;
  value_info = 0 ∷ 0 ∷ [];
  data_type = 5 ∷ 7 ∷ [];
  bit_length = 8 ∷ 32 ∷ [];
  obj_access = 7 ∷ 7 ∷ [];
  name = (b'n' ∷ 0 ∷ []) ∷ (b'v' ∷ 0 ∷ []) ∷ [];
}

abbrev services : Coe ℕ
services = record {
  ec_read_od_list = λ c s l i. (pos 1, objects, i);
  ec_read_od_description = λ c k l i. (pos 1, l, i);
  ec_read_oe = λ c k l e i. (pos 1, entries, i);
  ec_sdo_read = λ c s x j ca n t i. (pos 1, 1, 1 ∷ [], i);
  ec_sdo_write = λ c s x j ca d t i. (pos 1, i);
}

abbrev closed : Bridge ℕ
closed = record { opened = false; capture = none; od_list = objects; od_entries = entries; io = 2 }

abbrev running : Bridge ℕ
running = record closed { opened = true; capture = some 5 }

opens_and_closes :
    session soem services
      (open_master [] (some 5) ∷ sdo_read 1 0x1000 0 4 ∷ close_master ∷ [])
      closed
    ≡ closed
unfolding session call sa_open sa_close servo_assistant.Bridge.Dictionary.sa_sdo_read
opens_and_closes = refl

session-Runs_example :
    (m : Mode) × Runs
      (close_master ∷ open_master [] none ∷ od_count 1 ∷ [])
      (results soem services (close_master ∷ open_master [] none ∷ od_count 1 ∷ []) running)
      (open_with (some 5))
      m
    × Shows (session soem services (close_master ∷ open_master [] none ∷ od_count 1 ∷ []) running) m
session-Runs_example =
    session-Runs soem services (close_master ∷ open_master [] none ∷ od_count 1 ∷ []) running
      (open_with (some 5)) (refl, refl)

sa_error_lem_example :
    let t = take 1 (messages soem 2 2) in
    (i' : ℕ) × (sa_error soem 3 2 2 ≡ some (length t, t, i')) × (i' ≡ 0) × (length t ≤ 1)
unfolding soem-DrainsErrors
sa_error_lem_example = sa_error_lem soem soem-DrainsErrors 3 1 2 (omega arith)

sa_slaves_lem_example :
    (◌≡◌ {A = ℕ} 1 1)
    × (1 ≤ 200)
    × (◌≡◌ {A = ℕ} 1 1)
    × (get_elem? (slave_info drive 1 ∷ []) 0
        ≡ (if ltb 0 1 then some (slave_info drive 1) else none))
unfolding sa_slaves slave_infos
sa_slaves_lem_example =
    sa_slaves_lem soem 200 running {n = 1} {out = slave_info drive 1 ∷ []} {b' = running} 0 refl
