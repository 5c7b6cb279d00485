-- ===== src/Bridge/Npcap.antt =====
-- The Npcap driver and the loader of Windows, which bridge.c only calls: an interface that the
-- model takes as a parameter, over an unknown state `D` of the machine. With it stand the static
-- variables of bridge.c that SOEM reaches through the pcap functions.
use servo_assistant.Base.{ℕ, ℤ, Bool, Option, List, length, ◌≡◌, pos}

-- `struct pcap_pkthdr` with the bytes that it describes
pub record Packet : Type 0 where
  pub bytes : List ℕ
  pub caplen : ℕ
  pub len : ℕ
  pub seconds : ℕ
  pub micros : ℕ

-- a node of `pcap_if_t`
pub record Device : Type 0 where
  pub name : List ℕ
  pub description : Option (List ℕ)

-- the functions that `load_pcap` looks up, in its order
pub data Symbol : Type 0 where
  open_fn close_fn send_fn next_fn find_fn free_fn stats_fn link_fn nonblock_fn : Symbol

-- A handle is a pointer other than NULL.
pub record Npcap (D : Type 0) : Type 0 where
  -- GetSystemDirectoryW, LoadLibraryExW and GetProcAddress
  pub system_directory : D → ℕ
  pub load_library : D → Bool
  pub get_proc_address : Symbol → D → Bool
  -- the driver's functions; `p_open` takes the adapter, snap length, flags and timeout
  pub p_open : List ℕ → ℕ → ℕ → ℤ → D → Option ℕ × D
  pub p_close : ℕ → D → D
  pub p_send : ℕ → List ℕ → ℕ → D → ℤ × D
  pub p_next : ℕ → D → ℤ × Packet × D
  pub p_find : D → ℤ × List Device × D
  pub p_free : D → D
  pub p_stats : ℕ → D → ℤ × ℕ × D
  pub p_link : ℕ → D → ℕ
  pub p_nonblock : ℕ → D → ℤ × D

-- What pcap_next_ex documents of a result of 1: the data holds `caplen` bytes.
pub record DeliversWhole {D : Type 0} (N : Npcap D) : Type 0 where
  pub captured :
      (h : ℕ) (d : D)
      → (N.p_next h d).0 ≡ pos 1
      → length (N.p_next h d).1.bytes ≡ (N.p_next h d).1.caplen

-- A call of the recorder's callback: direction, bytes, their number and the time stamp.
pub record Observation : Type 0 where
  pub direction : ℕ
  pub bytes : List ℕ
  pub size : ℕ
  pub stamp : ℕ

-- The statics `pcap_once`, `pcap_module` and `master_socket`, what the callback has been given so
-- far, the number of references held on the DLL, and the machine.
pub record Io (D : Type 0) : Type 0 where
  pub once : Bool
  pub pcap_module : Bool
  pub references : ℕ
  pub master_socket : Option ℕ
  pub recorded : List Observation
  pub driver : D
