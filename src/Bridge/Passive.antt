-- ===== src/Bridge/Passive.antt =====
-- The passive capture handle of bridge.c, which one worker owns and which SOEM never sees.
pub mod Handles
pub mod Reading
mod Tests
use servo_assistant.Base.{
  as_int, ℕ, ℤ, pos, minus_one, minus_two, is_zero, is_one, Option, none, some, List, ltb,
  if◌then◌else◌, take,
}
use servo_assistant.Bridge.Npcap.{Npcap, Io}
use servo_assistant.Bridge.Shim.{
  Opened, handle, null, unavailable, ethernet_required, from_driver, sa_available, accept_handle,
  stamp_of,
}
use servo_assistant.Bridge.Report.{drops_of}

-- PCAP_OPENFLAG_PROMISCUOUS | PCAP_OPENFLAG_MAX_RESPONSIVENESS
abbrev pub passive_flags : ℕ
passive_flags = 17

-- What is written through `out`, `stamp` and `original`, if anything.
pub record Captured : Type 0 where
  pub bytes : List ℕ
  pub stamp : ℕ
  pub original : ℕ

module _ {D : Type 0} (N : Npcap D) where
  unfoldable pub sa_capture_open : List ℕ → Io D → Opened × Io D
  sa_capture_open adapter io =
      let (available, io1) = sa_available N io in
      if available
      then (let (p, d1) = N.p_open adapter 65536 passive_flags (pos 50) io1.driver in
          elim p [
            | none ↦ (null from_driver, record io1 { driver = d1 })
            | some h ↦
                (let (good, d2) = accept_handle N h d1 in
                  if good
                  then (handle h, record io1 { driver = d2 })
                  else (null ethernet_required, record io1 { driver = N.p_close h d2 }))
          ])
      else (null unavailable, io1)

  unfoldable pub sa_capture_next : ℕ → ℕ → D → ℤ × Option Captured × D
  sa_capture_next h capacity d =
      let (result, p, d1) = N.p_next h d in
      if is_one result
      then if ltb capacity p.caplen then (minus_two, none, d1) else (
        as_int p.caplen,
        some (record { bytes = take p.caplen p.bytes; stamp = stamp_of p; original = p.len }),
        d1,
      )
      else (if is_zero result then pos 0 else minus_one, none, d1)

  unfoldable pub sa_capture_drops : ℕ → D → ℤ × D
  sa_capture_drops h d = drops_of N h d

  unfoldable pub sa_capture_close : ℕ → D → D
  sa_capture_close h d = N.p_close h d
