-- ===== src/Nic/Bridged.antt =====
-- The pcap functions of bridge.c under nicdrv.c.
use servo_assistant.Base.{
  ℕ, ◌^◌, ◌≤◌, ◌<◌, ◌≡◌, sym, inl, inr, ℤ, pos, negsuc, ap, is_positive, is_one, Bool, true, false,
  Option, none, some, length, if◌then◌else◌, arith, Bool-cases, Option-cases,
}
use mathlib.Core.Path.{subst}
use servo_assistant.Bridge.Npcap.{Npcap, DeliversWhole, Packet, Io}
use servo_assistant.Bridge.Frame.{screen}
use servo_assistant.Bridge.Frame.Accept.{screen_total, screen_iff}
use servo_assistant.Bridge.Shim.{
  Opened, handle, null, pcap_open, pcap_close, pcap_sendpacket, pcap_next_ex,
}
use servo_assistant.Nic.Pcap.{Pcap, DeliversFrames}

abbrev handle_of : Opened → Option ℕ
handle_of (handle h) = some h
handle_of (null m) = none

-- The functions that nicdrv.c is linked with; `capture` says whether the recorder has a callback.
unfoldable pub shim_pcap : {D : Type 0} → Npcap D → Bool → Pcap (Io D)
shim_pcap N capture = record {
  open_socket = λ name snap flags timeout io.
      (let (o, io1) = pcap_open N name snap flags timeout io in (handle_of o, io1));
  close_socket = λ h io. pcap_close N (some h) io;
  send_packet = pcap_sendpacket N capture;
  next_packet = pcap_next_ex N capture;
}

-- What pcap_next_ex documents of its results: 1 is a packet, and no other is positive.
pub record ReturnsOne {D : Type 0} (N : Npcap D) : Type 0 where
  pub only : (h : ℕ) (d : D) → is_positive (N.p_next h d).0 ≡ true → (N.p_next h d).0 ≡ pos 1

pub is_one-pos : (r : ℤ) → is_one r ≡ true → r ≡ pos 1
is_one-pos (pos n) e = ap pos (ground arith)
is_one-pos (negsuc n) e = ground arith

module _ {D : Type 0} (N : Npcap D) (whole : DeliversWhole N) (one : ReturnsOne N)
    (capture : Bool) where
  Sound : Option (ℤ × Packet × Io D) → Type 0
  Sound none = ⊥
  Sound (some (r, p, io)) = is_positive r ≡ true → (p.len ≤ length p.bytes) × (p.len < 2 ^ 31)

  -- A packet that the check passes on has the bytes that its header announces.
  passed :
      (p : Packet) (v : Bool)
      → screen p.bytes (length p.bytes) p.len ≡ some v
      → is_positive (if v then pos 1 else pos 0) ≡ true
      → (p.len ≤ length p.bytes) × (p.len < 2 ^ 31)
  passed p true c h =
      let w = (screen_iff p.bytes p.len).0 c in
      (omega (arith, w.whole), omega (arith, w.whole, w.maximal))
  passed p false c h = ground arith

  next-Sound : (h : ℕ) (io : Io D) → Sound (pcap_next_ex N capture h io)
  unfolding pcap_next_ex Sound
  next-Sound h io =
      let p = (N.p_next h io.driver).1 in
      elim (Bool-cases (is_one (N.p_next h io.driver).0)) [
        | inl packet ↦
            (let q = is_one-pos (N.p_next h io.driver).0 packet in
              let size = whole.captured h io.driver q in
              let (v, c) = screen_total p.bytes p.len in rw (packet, sym size, c) (passed p v c))
        | inr other ↦ rw other (λ x. absurd (ground (arith, one.only h io.driver x)))
      ]

  -- Over a driver that behaves as it documents, the pcap functions of bridge.c are what nicdrv.c
  -- needs: a call for a packet returns, and a packet that is delivered has all the bytes that its
  -- header announces.
  pub shim_pcap-DeliversFrames : DeliversFrames (shim_pcap N capture)
  unfolding shim_pcap Sound
  shim_pcap-DeliversFrames = record {
    returns = λ h io. elim (Option-cases (pcap_next_ex N capture h io)) [
      | inl e ↦ absurd (subst Sound e (next-Sound h io))
      | inr found ↦ found
    ];
    whole = λ h io {r} {p} {j} e x. subst Sound e (next-Sound h io) x;
  }
