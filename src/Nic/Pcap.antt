-- ===== src/Nic/Pcap.antt =====
-- What nicdrv.c uses of other files, over an unknown state `I`: the pcap functions, which bridge.c
-- defines, and the timers of osal.c.
use servo_assistant.Base.{
  ℕ, ◌^◌, ◌≤◌, ◌<◌, ◌≡◌, ℤ, is_positive, Bool, true, false, Option, some, List, length,
}
use servo_assistant.Bridge.Npcap.{Packet}

-- A handle is a pointer other than NULL. A function that faults is `none`.
pub record Pcap (I : Type 0) : Type 0 where
  -- adapter, snap length, flags and timeout
  pub open_socket : List ℕ → ℕ → ℕ → ℤ → I → Option ℕ × I
  pub close_socket : ℕ → I → I
  pub send_packet : ℕ → List ℕ → ℕ → I → ℤ × I
  pub next_packet : ℕ → I → Option (ℤ × Packet × I)

-- A timer is the value that `osal_timer_start` leaves in an `osal_timert`.
pub record Osal (I : Type 0) : Type 0 where
  pub timer_start : ℕ → I → ℕ × I
  pub timer_is_expired : ℕ → I → Bool × I

-- A call for a packet does not fault, and where it gives one, the data holds the bytes that the
-- header announces, no more of them than a frame of the wire can have.
pub record DeliversFrames {I : Type 0} (P : Pcap I) : Type 0 where
  pub returns : (h : ℕ) (i : I) → (v : ℤ × Packet × I) × (P.next_packet h i ≡ some v)
  pub whole :
      (h : ℕ) (i : I) {r : ℤ} {p : Packet} {j : I}
      → P.next_packet h i ≡ some (r, p, j)
      → is_positive r ≡ true
      → (p.len ≤ length p.bytes) × (p.len < 2 ^ 31)

-- A timer is found running only a number of times: `left` says how often yet, `polls` bounds it
-- when a timer of some microseconds starts, and nothing else makes it more.
pub record Expires {I : Type 0} (P : Pcap I) (O : Osal I) : Type 0 where
  pub left : ℕ → I → ℕ
  pub polls : ℕ → ℕ
  pub starts : (us : ℕ) (i : I) → left (O.timer_start us i).0 (O.timer_start us i).1 ≤ polls us
  pub runs :
      (t : ℕ) (i : I)
      → (O.timer_is_expired t i).0 ≡ false
      → left t (O.timer_is_expired t i).1 < left t i
  pub poll_keeps : (t u : ℕ) (i : I) → left t (O.timer_is_expired u i).1 ≤ left t i
  pub start_keeps : (t us : ℕ) (i : I) → left t (O.timer_start us i).1 ≤ left t i
  pub send_keeps : (t h n : ℕ) (b : List ℕ) (i : I) → left t (P.send_packet h b n i).1 ≤ left t i
  pub next_keeps :
      (t h : ℕ) (i : I) {r : ℤ} {p : Packet} {j : I}
      → P.next_packet h i ≡ some (r, p, j)
      → left t j ≤ left t i
