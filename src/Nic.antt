-- ===== src/Nic.antt =====
-- soem/oshw/win32/nicdrv.c, the driver that sends frames and matches what comes back: the port with
-- its two stacks, and which frame index is in use. The children model the rest of the file.
pub mod Pcap
pub mod Invariant
pub mod Laws
pub mod Frames
pub mod Wait
pub mod Traffic
pub mod Setup
pub mod Sections
pub mod Startup
pub mod Bridged
mod Simulation
mod Tests
use servo_assistant.Base.{
  ℕ, zero, suc, ◌+◌, Bool, true, false, ◌≡◌, refl, Option, none, some, List, set, get_or, length,
  ltb, leb, ◌==◌, if◌then◌else◌, ◌>>=◌, Gives, Gives-none,
}

-- EC_MAXBUF
abbrev pub max_buf : ℕ
max_buf = 16

-- EC_BUFSIZE
abbrev pub buf_size : ℕ
buf_size = 1518

-- EC_BUF_EMPTY, EC_BUF_ALLOC, EC_BUF_TX, EC_BUF_RCVD and EC_BUF_COMPLETE
abbrev pub buf_empty : ℕ
buf_empty = 0

abbrev pub buf_alloc : ℕ
buf_alloc = 1

abbrev pub buf_tx : ℕ
buf_tx = 2

abbrev pub buf_rcvd : ℕ
buf_rcvd = 3

abbrev pub buf_complete : ℕ
buf_complete = 4

-- What an `ec_stackT` points to that is not shared: the socket, where NULL is `none`, `tempbuf`,
-- and the receive buffers with their states and source addresses.
pub record Stack : Type 0 where
  pub sock : Option ℕ
  pub tempbuf : List ℕ
  pub rxbuf : List (List ℕ)
  pub rxbufstat : List ℕ
  pub rxsa : List ℕ

-- An `ecx_portt`. `prim` is its own stack and `red` that of `redport`, where there is one. Each
-- critical section is initialised or not.
pub record Port : Type 0 where
  pub prim : Stack
  pub red : Option Stack
  pub tempinbufs : ℕ
  pub txbuf : List (List ℕ)
  pub txbuflength : List ℕ
  pub txbuf2 : List ℕ
  pub txbuflength2 : ℕ
  pub lastidx : ℕ
  pub redstate : ℕ
  pub getindex_mutex : Bool
  pub tx_mutex : Bool
  pub rx_mutex : Bool

-- `rxbufstat[idx] = bufstat`
unfoldable pub set_status : ℕ → ℕ → Stack → Option Stack
set_status idx bufstat st =
    if ltb idx (length st.rxbufstat)
    then some (record st { rxbufstat = set st.rxbufstat idx bufstat })
    else none

-- `ecx_setbufstat`
unfoldable pub setbufstat : ℕ → ℕ → Port → Option Port
setbufstat idx bufstat p = do
  prim ← set_status idx bufstat p.prim
  if p.redstate == 0 then some (record p { prim = prim }) else (do
    red ← p.red
    red1 ← set_status idx bufstat red
    some (record p { prim = prim; red = some red1 }))

-- The next index, around the buffers.
unfoldable pub next_index : ℕ → ℕ
next_index idx = if leb max_buf (idx + 1) then 0 else idx + 1

-- `while (…)`, with `k` rounds left until `cnt` is EC_MAXBUF.
unfoldable pub find_index : ℕ → List ℕ → ℕ → ℕ
find_index zero stat idx = idx
find_index (suc k) stat idx =
    let further = find_index k stat (next_index idx) in
    if get_or stat idx 0 == buf_empty then idx else further

-- A section is entered. If it is not initialised, that is undefined, `none`.
unfoldable pub enter {ℓ} : {A : Type ℓ} → Bool → Option A → Option A
enter mutex rest = if mutex then rest else none

pub enter-true {ℓ} :
    {A : Type ℓ} {mutex : Bool} (rest : Option A) → mutex ≡ true → enter mutex rest ≡ rest
unfolding enter
enter-true rest e = rw e

pub Gives-enter :
    {A : Type 0} {Q : A → Type 0} (b : Bool) (m : Option A) → Gives Q m → Gives Q (enter b m)
unfolding enter
Gives-enter true m km = km
Gives-enter false m km = Gives-none

-- `ecx_getindex`
unfoldable pub getindex : Port → Option (ℕ × Port)
getindex p =
    let idx = find_index max_buf p.prim.rxbufstat (next_index p.lastidx) in
    enter p.getindex_mutex
      (do p1 ← setbufstat idx buf_alloc p; some (idx, record p1 { lastidx = idx }))
