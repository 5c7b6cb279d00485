-- ===== src/Lib.antt =====
-- A model of the native EtherCAT back end of the servo assistant: src-tauri/native/bridge.c and the
-- files of SOEM that the project patches.
--
-- The program. Rust code calls the entry points `sa_…` of bridge.c, one at a time under a mutex.
-- They call SOEM, an EtherCAT master, which talks to the network by the pcap functions that
-- bridge.c defines; those forward to Npcap, hand each frame to a recorder's callback, and check
-- received frames before SOEM sees them. SOEM's CoE services read and write objects of a slave
-- through its mailbox.
--
-- The files.
-- Base: numbers, lists, C strings and signed results.
-- Bridge/Npcap: the driver and loader as an interface, and the statics that SOEM reaches.
-- Bridge/Frame: the check of a received frame in `pcap_next_ex`; Frame/Layout describes well-formed
--   frames on its own terms, Frame/Accept compares the two.
-- Bridge/Shim: `load_pcap`, `sa_available` and the pcap functions; laws in Shim/Laws.
-- Bridge/Soem: SOEM and its CoE services as the bridge sees them, as interfaces.
-- Bridge/Master, Bridge/Dictionary: `sa_open`, `sa_close`, `sa_slaves`, `sa_slave_diagnostics`;
--   `sa_od_count`, `sa_od_item`, `sa_od_entries`, `sa_sdo_read`, `sa_sdo_write`.
-- Bridge/Report: `sa_adapters`, `sa_error`, `sa_drops`.
-- Bridge/Passive: the passive capture handle; Passive/Handles is about the handles that are taken from
--   the driver, by `pcap_open` too, Passive/Reading about what is read.
-- Bridge/Session: calls in any order; laws in Session/Lifecycle and Session/Tables,
--   and in Session/Modes the master as its callers see it.
-- Bridge/Services: the `ec_…` functions of ethercatcoe.c that bridge.c calls, which fill the interface
--   of Bridge/Soem with the functions below Coe; Services/Laws is about both together,
--   Services/Browsing about a list of objects over the calls that use it, Services/Inside about the
--   arrays of that list, Services/Entries about the entries of an object, with its table in
--   Services/Place and Services/Table.
-- Coe: src-tauri/native/soem/soem/ethercatcoe.c. Coe/Mailbox is the interface to the rest of SOEM
--   with the error reports, Coe/Layout the bytes of a mailbox, Coe/Exchange one request and its
--   answer, Coe/Upload `ecx_SDOread`. Upload/Bounds is about memory, Upload/Served describes a slave
--   that follows the protocol, Upload/Delivery says what is read from it.
-- Coe/Download: `ecx_SDOwrite`. Download/Requests and Download/First say what its requests carry,
--   Download/Segments follows the loop over the segments, Download/Delivery the whole download;
--   Download/Simulation is a slave for the tests.
-- Coe/Tables, Coe/Dictionary: `ec_ODlistt` and `ec_OElistt`; `ecx_readODlist`,
--   `ecx_readODdescription`, `ecx_readOEsingle` and `ecx_readOE`. Dictionary/Lists,
--   Dictionary/Reads and Dictionary/Contents are about the list of objects, Dictionary/Entries
--   and Dictionary/Filled about an object.
-- Coe/Pdo: `ecx_RxPDO` (Pdo/Sending), `ecx_TxPDO` and `ecx_readPDOassign` (Pdo/Laws).
-- Coe/Mapping: `ecx_readPDOmap`, the sync managers of a slave; laws in Mapping/Laws.
-- Coe/Complete: `ecx_readPDOassignCA` and `ecx_readPDOmapCA`; laws in Complete/Laws and
--   Complete/Kinds.
-- Nic: src-tauri/native/soem/oshw/win32/nicdrv.c: the port and its frame indexes, with laws in
--   Nic/Laws. Nic/Pcap is the interface to the pcap functions and the timers, Nic/Bridged fills it
--   with those of bridge.c, Nic/Invariant says what a well-formed port is.
-- Nic/Setup: `ecx_setupnic` and `ecx_closenic`; Nic/Sections is about the critical sections,
--   Nic/Startup about a port that was set up.
-- Nic/Frames: `ecx_outframe`, `ecx_outframe_red`, `ecx_recvpkt` and `ecx_inframe`. Frames/Bounds and
--   Frames/Receive are about memory, Frames/Kept and Frames/Order about frames out of order,
--   Frames/Stale about a reply that is too long.
-- Nic/Wait: `ecx_waitinframe` with the redundant mode, and `ecx_srconfirm`. Wait/Live says which
--   ports can send and receive, Wait/Sending, Wait/Loops and Wait/Copies follow the steps,
--   Wait/Laws the decision tree, Wait/Confirm the whole calls, Wait/Answered a reply in time. Wait/Held
--   says what the calls that block keep, Wait/Stored and Wait/Interleaved follow a reply that waits
--   while other indexes are served.
-- Nic/Traffic: what the functions of nicdrv.c do to the state outside, whatever it is; Traffic/Calls
--   follows those that block, Calls/Recorded what the recorder is told of them.
-- Nic/Simulation: a line, and a port on it, for the tests.
-- The modules named Tests, with the slaves of Coe/Simulation and Download/Simulation and the master
--   of Services/Simulation: the theorems at concrete inputs, and runs.
--
-- State is passed explicitly. A C function that writes through pointers returns what it wrote. A
-- pointer that may be NULL is an option or a Boolean; a `uint16_t` or `int` is a number or a ℤ, with
-- its wrap-around written out where the code can wrap. `none` is a read outside a buffer, or fuel
-- that ran out, or another step that C leaves undefined.
--
-- Fuel. The loop over a frame's datagrams takes the end position, more than the rounds at 12 bytes
-- each. The loop over SDO segments takes the announced size and one more: each segment but the last
-- has a byte or more. The loop over the segments of a download takes the size of the parameter and
-- one more, and the loop over an object list the 129 rounds that the code allows. The loop over a
-- PDO assign object is given its fuel: two more than the number of PDOs suffices, and where there is
-- no such number, none does. `sa_error` takes more than the number of waiting errors. The
-- loops of nicdrv.c take one number for all: more than the polls after which a timer of the call, and
-- one of 2000 microseconds, is found expired. In each case it is proved that the fuel suffices.
--
-- Not modelled: the unchanged files of SOEM, Npcap and Windows, which are parameters (records of
-- functions, with documented behaviour as named hypotheses); the wrappers in nicdrv.c that pass
-- the global context on, and those in ethercatcoe.c that bridge.c does not call; threads in
-- nicdrv.c, whose calls run one at a time, as the bridge's mutex has it (a critical section is
-- initialised or not); negative indexes, lengths and timeouts there, which no caller passes; what a
-- failed call leaves in a text buffer; the Rust side. The number of bits of a mapping is not wrapped: it
-- leaves an `int` only with more PDOs than the theorem about it allows.
pub mod Base
pub mod Bridge
pub mod Coe
pub mod Nic
