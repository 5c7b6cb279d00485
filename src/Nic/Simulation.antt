-- ===== src/Nic/Simulation.antt =====
-- A line with two sockets and a clock, and a port on it, for the tests.
use servo_assistant.Base.{
  ℕ, zero, suc, ◌+◌, ◌-◌, ◌/◌, ◌≤◌, ◌<◌, ◌^◌, drop, ◌≡◌, refl, inr, ℤ, pos, true, Option, none,
  some, List, [], ◌∷◌, ◌++◌, length, replicate, get_or, leb, ◌==◌, if◌then◌else◌, arith,
  get_or-replicate, min,
}
use mathlib.Core.Path.{subst}
use servo_assistant.Bridge.Npcap.{Packet}
use servo_assistant.Nic.{Stack, Port}
use servo_assistant.Nic.Pcap.{Pcap, Osal, DeliversFrames, Expires}
use servo_assistant.Nic.Invariant.{ecat_length, IsStack, IsPort}
use servo_assistant.Nic.Frames.{socket_of, frame_length}
use servo_assistant.Nic.Frames.Kept.{IsReply}
use servo_assistant.Nic.Wait.Live.{IsOpenStack, IsLive}

-- The packets that wait at the two sockets, and the time in milliseconds.
pub record Line : Type 0 where
  pub first : List (List ℕ)
  pub second : List (List ℕ)
  pub clock : ℕ

abbrev pub packet_of : List ℕ → Packet
packet_of b = record {
  bytes = b;
  caplen = length b;
  len = min (length b) 65536;
  seconds = 0;
  micros = 0;
}

abbrev pub head : List (List ℕ) → List ℕ
head [] = []
head (b ∷ bs) = b

abbrev pub kind : List (List ℕ) → ℤ
kind [] = pos 0
kind (b ∷ bs) = pos 1

-- A packet of the queue of a socket.
abbrev pub pull : ℕ → Line → ℤ × Packet × Line
pull h i =
    let queue = if h == 1 then i.first else i.second in
    (
      kind queue,
      packet_of (head queue),
      record i {
        first = if h == 1 then drop 1 i.first else i.first;
        second = if h == 1 then i.second else drop 1 i.second;
      },
    )

abbrev pub line : Pcap Line
line = record {
  open_socket = λ name snap flags timeout i. (some 1, i);
  close_socket = λ h i. i;
  send_packet = λ h bytes n i. (pos 0, i);
  next_packet = λ h i. some (pull h i);
}

-- A timer is its deadline. Each look at one takes a millisecond.
abbrev pub clock : Osal Line
clock = record {
  timer_start = λ us i. (i.clock + us / 1000, i);
  timer_is_expired = λ t i. (leb t i.clock, record i { clock = i.clock + 1 });
}

-- What a pulled packet is like, and that no time passes.
Pulled : ℕ → Option (ℤ × Packet × Line) → Type 0
Pulled t none = Unit {0}
Pulled t (some (r, p, j)) = (p.len ≤ length p.bytes) × (p.len < 2 ^ 31) × (j.clock ≡ t)

next-Pulled : (h : ℕ) (i : Line) → Pulled i.clock (line.next_packet h i)
unfolding Pulled
next-Pulled h i = (omega arith, omega arith, refl)

pub line-DeliversFrames : DeliversFrames line
unfolding Pulled
line-DeliversFrames = record {
  returns = λ h i. (pull h i, refl);
  whole =
      λ h i {r} {p} {j} e x. (let (a, b, c) = subst (Pulled i.clock) e (next-Pulled h i) in (a, b));
}

pub clock-Expires : Expires line clock
unfolding Pulled
clock-Expires = record {
  left = λ t i. t - i.clock;
  polls = λ us. us / 1000;
  starts = λ us i. omega arith;
  runs = λ t i e. ground arith;
  poll_keeps = λ t u i. omega arith;
  start_keeps = λ t us i. omega arith;
  send_keeps = λ t h n b i. omega arith;
  next_keeps = λ t h i {r} {p} {j} e.
      (let (a, b, c) = subst (Pulled i.clock) e (next-Pulled h i) in omega (arith, c));
}

pub clock-Expires-polls : (us : ℕ) → clock-Expires.polls us ≡ us / 1000
unfolding clock-Expires
clock-Expires-polls us = refl

abbrev pub blank : List ℕ
blank = replicate 1518 0

abbrev pub buffers : List (List ℕ)
buffers = replicate 16 blank

abbrev pub lengths : List ℕ
lengths = replicate 16 64

-- The frame of index 3 is on the wire.
abbrev pub stack_at : ℕ → ℕ → Stack
stack_at h source = record {
  sock = some h;
  tempbuf = replicate 1518 0;
  rxbuf = buffers;
  rxbufstat = 0 ∷ 0 ∷ 0 ∷ 2 ∷ replicate 12 0;
  rxsa = replicate 16 source;
}

abbrev pub port : ℕ → Port
port k = record {
  prim = stack_at 1 0x0404;
  red = some (stack_at 2 0x0101);
  tempinbufs = 0;
  txbuf = buffers;
  txbuflength = lengths;
  txbuf2 = replicate 1518 0;
  txbuflength2 = 64;
  lastidx = 2;
  redstate = k;
  getindex_mutex = true;
  tx_mutex = true;
  rx_mutex = true;
}

-- A state other than the empty one stands inside the list.
inside : (xs : List ℕ) (j v : ℕ) → get_or xs j 0 ≡ suc v → j < length xs
inside [] j v e = ground arith
inside (x ∷ xs) zero v e = omega arith
inside (x ∷ xs) (suc j) v e = omega (arith, inside xs j v e)

pub stack_at-IsStack : (h source : ℕ) → IsStack lengths (stack_at h source)
unfolding ecat_length
stack_at-IsStack h source = record {
  temp = refl;
  buffers = refl;
  states = refl;
  sources = refl;
  each = λ j b. rw (get_or-replicate 16 blank j [] b) (refl, omega arith);
  sent = λ j e.
      (let b = inside (0 ∷ 0 ∷ 0 ∷ 2 ∷ replicate 12 0) j 1 e in
        rw (get_or-replicate {A = ℕ} 16 64 j 0 b) (omega arith, omega arith));
}

pub stack_at-IsOpen : (h source : ℕ) → IsOpenStack lengths (stack_at h source)
unfolding socket_of
stack_at-IsOpen h source = record { stack = stack_at-IsStack h source; handle = h; opened = refl }

pub port-IsPort : (k : ℕ) → IsPort (port k)
port-IsPort k = record {
  primary = stack_at-IsStack 1 0x0404;
  secondary = inr (stack_at 2 0x0101, refl, stack_at-IsStack 2 0x0101);
  lengths = refl;
  tx_count = refl;
  tx_each = λ j b. rw (get_or-replicate 16 blank j [] b) refl;
  tx_spare = refl;
  tx_spare_length = omega arith;
}

pub port-IsLive : (k : ℕ) → IsLive 3 k (port k)
port-IsLive k = record {
  main = stack_at-IsOpen 1 0x0404;
  second = inr (stack_at 2 0x0101, refl, stack_at-IsOpen 2 0x0101);
  state = refl;
  lengths = refl;
  index = omega arith;
  sendable = (omega arith, omega arith);
  tx_count = refl;
  tx_each = λ j b. rw (get_or-replicate 16 blank j [] b) refl;
  spare = refl;
  spare_length = omega arith;
  rx = refl;
  tx = refl;
}

-- A frame of 64 bytes for index 3.
abbrev pub header : ℕ → List ℕ
header size = replicate 6 255 ++ (1 ∷ 1 ∷ 4 ∷ 4 ∷ 1 ∷ 1 ∷ 0x88 ∷ 0xa4 ∷ size ∷ 0x10 ∷ 7 ∷ 3 ∷ [])

abbrev pub frame : List ℕ
frame = header 48 ++ replicate 46 1

abbrev pub one_packet : List ℕ → Line
one_packet b = record { first = b ∷ []; second = []; clock = 0 }

abbrev pub quiet : Line
quiet = record { first = []; second = []; clock = 0 }

pub main_socket : socket_of (stack_at 1 0x0404) ≡ some 1
unfolding socket_of
main_socket = refl

pub frame-IsReply : IsReply lengths 3 (packet_of frame)
unfolding frame_length
frame-IsReply = record {
  whole = omega arith;
  minimal = omega arith;
  maximal = omega arith;
  type_high = refl;
  type_low = refl;
  index = refl;
  datagrams = omega arith;
  sent = omega arith;
}
