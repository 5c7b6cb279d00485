-- ===== src/Nic/Tests.antt =====
-- The theorems about nicdrv.c at concrete inputs, and runs.
use servo_assistant.Base.{
  ℕ, ◌+◌, ◌<◌, ◌≤◌, ◌≡◌, ◌≢◌, ◌⊎◌, refl, ℤ, pos, is_negative, true, false, none, some, List, [],
  ◌∷◌, ◌++◌, get_or, set, take, drop, replicate, if◌then◌else◌, arith,
}
use servo_assistant.Bridge.Npcap.{Packet}
use servo_assistant.Nic.{Stack, Port, enter, getindex}
use servo_assistant.Nic.Invariant.{IsPort, IsStack}
use servo_assistant.Nic.Laws.{getindex_free}
use servo_assistant.Nic.Setup.{setupnic, closenic}
use servo_assistant.Nic.Sections.{IsPaired, IsClosed, is_open, stop, sections-IsPaired}
use servo_assistant.Nic.Frames.{
  other_frame, stack_of, socket_of, with_stack, frame_length, is_ethercat, recvpkt, dispatch,
  inframe,
}
use servo_assistant.Nic.Frames.Bounds.{IsResult, wkc_of}
use servo_assistant.Nic.Frames.Receive.{inframe-some}
use servo_assistant.Nic.Frames.Kept.{IsReply}
use servo_assistant.Nic.Frames.Order.{reordered}
use servo_assistant.Nic.Frames.Stale.{stale_counter}
use servo_assistant.Nic.Wait.{redundancy, waitinframe, srconfirm, rx_prim, rx_sec}
use servo_assistant.Nic.Wait.Live.{IsLive}
use servo_assistant.Nic.Wait.Laws.{route, HasSecondary, SendsAgain, redundancy_lem}
use servo_assistant.Nic.Wait.Confirm.{srconfirm_total}
use servo_assistant.Nic.Wait.Answered.{HoldsReply, Pending, now, later, waitinframe_answered}
use servo_assistant.Nic.Simulation.{
  header, frame, one_packet, quiet, main_socket, frame-IsReply, Line, line, clock, packet_of,
  lengths, blank, stack_at, port, line-DeliversFrames, clock-Expires, clock-Expires-polls,
  stack_at-IsStack, port-IsPort, port-IsLive,
}

getindex_free_example :
    (idx : ℕ) × (p1 : Port) × (getindex (port 0) ≡ some (idx, p1))
    × (idx < 16)
    × (get_or (port 0).prim.rxbufstat idx 0 ≡ 0)
    × (p1.prim.rxbufstat ≡ set (port 0).prim.rxbufstat idx 1)
    × (p1.lastidx ≡ idx)
    × IsPort p1
getindex_free_example = getindex_free (port 0) 5 (port-IsPort 0) refl (omega arith) refl

-- A frame of 100 bytes for index 3.
abbrev long_frame : List ℕ
long_frame = header 84 ++ replicate 82 1

main_stack : stack_of false (port 0) ≡ some (stack_at 1 0x0404)
unfolding stack_of
main_stack = refl

long_frame-IsReply : IsReply lengths 3 (packet_of long_frame)
unfolding frame_length
long_frame-IsReply = record {
  whole = omega arith;
  minimal = omega arith;
  maximal = omega arith;
  type_high = refl;
  type_low = refl;
  index = refl;
  datagrams = omega arith;
  sent = omega arith;
}

longer : get_or lengths 3 0 ≤ frame_length (packet_of long_frame).bytes + 14
unfolding frame_length
longer = omega arith

inframe-some_example :
    (wkc : ℤ) × (st1 : Stack) × (n : ℕ) × (i1 : Line) × (inframe line
        (port 0)
        3
        false
        (one_packet frame)
      ≡ some (wkc, record (with_stack false st1 (port 0)) { tempinbufs = n }, i1))
    × IsStack lengths st1
    × (socket_of st1 ≡ some 1)
    × IsResult wkc
    × ((i1 ≡ one_packet frame)
        ⊎ ((r : ℤ) × (pkt : Packet) × (line.next_packet 1 (one_packet frame) ≡ some (r, pkt, i1))))
inframe-some_example =
    inframe-some line line-DeliversFrames false (port 0) (stack_at 1 0x0404) main_stack 1
      main_socket (stack_at-IsStack 1 0x0404) 3 (one_packet frame) refl refl (omega arith)
      (omega arith, omega arith)

reordered_example :
    (wkc : ℕ) × (direct between : Port) × (final : Stack) × (inframe line
        (port 0)
        3
        false
        (one_packet frame)
      ≡ some (pos wkc, direct, quiet))
    × (inframe line (port 0) 5 false (one_packet frame) ≡ some (other_frame, between, quiet))
    × (inframe line between 3 false quiet ≡ some (pos wkc, direct, quiet))
    × (stack_of false direct ≡ some final)
    × (take 50 (get_or final.rxbuf 3 []) ≡ take 50 (drop 14 frame))
reordered_example =
    reordered line false (port 0) (stack_at 1 0x0404) 1 5 3 (packet_of frame) (one_packet frame)
      quiet quiet main_stack main_socket (stack_at-IsStack 1 0x0404) refl refl (omega arith)
      (λ e. ground arith) refl (λ e. ground arith) refl frame-IsReply

stale_counter_example :
    (after : Port) × (inframe line (port 0) 3 false (one_packet long_frame)
      ≡ some (pos (wkc_of (frame_length long_frame) blank), after, quiet))
stale_counter_example =
    stale_counter line false (port 0) (stack_at 1 0x0404) 1 3 (packet_of long_frame)
      (one_packet long_frame) quiet main_stack main_socket (stack_at-IsStack 1 0x0404) refl refl
      (omega arith) refl refl long_frame-IsReply longer

redundancy_lem_example :
    (r : Stack) × (some (stack_at 2 0x0101) ≡ some r)
    × (let primrx = route (pos 1) (port 1).prim 3 in
        let secrx = route (pos 2) r 3 in
        let result = redundancy line clock 4 3 (pos 1) (pos 2) (port 1) quiet in
        ((primrx ≡ rx_sec)
          × (secrx ≡ rx_prim)
          × ((p1 : Port) × (result ≡ some (pos 2, p1, quiet)) × IsLive 3 1 p1 × HasSecondary 3 p1))
        ⊎ (((secrx ≡ rx_sec)
              × SendsAgain line clock line-DeliversFrames clock-Expires 3 1 4
                  (pos 1)
                  (port 1)
                  quiet
                  primrx
                  result)
            ⊎ (((primrx ≢ rx_sec) ⊎ (secrx ≢ rx_prim))
                × ((secrx ≢ rx_sec) ⊎ ((primrx ≢ 0) × (primrx ≢ rx_prim)))
                × (result ≡ some (pos 1, port 1, quiet)))))
redundancy_lem_example =
    redundancy_lem line clock line-DeliversFrames clock-Expires 3 1 4 (pos 1) (pos 2) (port 1) quiet
      (omega (arith, clock-Expires-polls 2000)) (port-IsLive 1) (λ z. ground arith)

-- A frame of another protocol, and then the reply.
abbrev two_packets : Line
two_packets = record { first = replicate 60 0 ∷ frame ∷ []; second = []; clock = 0 }

abbrev tick : Line
tick = record { first = []; second = []; clock = 1 }

first_poll : ℤ × Port × Line
unfolding inframe
first_poll = elim (inframe line (port 0) 3 false two_packets) [
  | none ↦ (pos 0, port 0, quiet)
  | some result ↦ result
]

polls_first : inframe line (port 0) 3 false two_packets ≡ some first_poll
unfolding first_poll inframe stack_of socket_of recvpkt with_stack dispatch is_ethercat enter
polls_first = refl

polls_other : is_negative first_poll.0 ≡ true
unfolding first_poll inframe stack_of socket_of recvpkt with_stack dispatch is_ethercat enter
polls_other = refl

frame_arrives : Pending line clock 3 2 (packet_of frame) (port 0) two_packets tick
unfolding first_poll inframe stack_of socket_of recvpkt with_stack dispatch is_ethercat enter
frame_arrives = later polls_first polls_other refl (now 1 refl refl refl frame-IsReply)

waitinframe_answered_example :
    (wkc : ℕ) × (p1 : Port) × (waitinframe line clock 4 3 2000 (port 0) two_packets
      ≡ some (pos wkc, p1, tick))
    × HoldsReply 3 (packet_of frame) p1
waitinframe_answered_example =
    waitinframe_answered line clock line-DeliversFrames clock-Expires 3 2 (packet_of frame) 4 2000
      (port 0) two_packets (omega (arith, clock-Expires-polls 2000)) (port-IsLive 0) refl
      frame_arrives

srconfirm_total_example :
    (wkc : ℤ) × (p1 : Port) × (i1 : Line) × (srconfirm line clock 21 3 20000 (port 1) quiet
      ≡ some (wkc, p1, i1))
    × IsLive 3 1 p1
    × IsResult wkc
srconfirm_total_example =
    srconfirm_total line clock line-DeliversFrames clock-Expires 3 1 21 20000 (port 1) quiet
      (omega (arith, clock-Expires-polls 20000)) (omega (arith, clock-Expires-polls 2000))
      (port-IsLive 1)

port-IsPaired : IsPaired (port 1)
unfolding socket_of
port-IsPaired = record { getindex = refl; tx = refl; rx = refl }

sections-IsPaired_example :
    IsPaired (port 1)
    × ((p2 : Port) × (i2 : Line) × (closenic line (port 1) quiet ≡ some (p2, i2))
        × IsClosed p2
        × ((r : ℕ) × (p3 : Port) × (i3 : Line) × (setupnic line (b'a' ∷ []) false p2 i2
              ≡ some (r, p3, i3))
            × IsPaired p3
            × (r ≡ (if is_open (socket_of p3.prim) then 1 else 0))))
sections-IsPaired_example = sections-IsPaired line (b'a' ∷ []) stop port-IsPaired
