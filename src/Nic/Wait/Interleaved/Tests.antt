-- ===== src/Nic/Wait/Interleaved/Tests.antt =====
-- A reply that arrives while another index is polled, and is asked for after other calls.
use servo_assistant.Base.{
  ℕ, ◌+◌, ◌≤◌, ◌≡◌, refl, ℤ, pos, false, none, some, [], get_or, take, drop, arith,
}
use servo_assistant.Nic.{Port, enter, set_status, setbufstat, getindex, find_index, next_index}
use servo_assistant.Nic.Frames.{
  stack_of, socket_of, with_stack, copy_frame, is_ethercat, frame_index, frame_length, frame_source,
  store, is_unfit, dispatch, is_inside, outframe, recvpkt, inframe,
}
use servo_assistant.Nic.Frames.Bounds.{wkc_of}
use servo_assistant.Nic.Simulation.{
  Line, line, clock, packet_of, frame, one_packet, quiet, port, stack_at-IsStack, main_socket,
  frame-IsReply,
}
use servo_assistant.Nic.Wait.Interleaved.{Others, no_more, takes_index, sends, interleaved_lem}

-- A call for index 5 reads the reply to index 3.
polled : ℤ × Port × Line
unfolding inframe
polled = elim (inframe line (port 0) 5 false (one_packet frame)) [
  | none ↦ (pos 0, port 0, quiet)
  | some result ↦ result
]

polls_it : inframe line (port 0) 5 false (one_packet frame) ≡ some (polled.0, polled.1, quiet)
unfolding polled inframe stack_of socket_of recvpkt with_stack dispatch is_ethercat is_unfit
    frame_index frame_length store copy_frame frame_source set_status enter
polls_it = refl

-- Then an index is taken, its frame is sent, and no packet is found for it.
taken : ℕ × Port
unfolding getindex
taken = elim (getindex polled.1) [ none ↦ (0, port 0) | some result ↦ result ]

takes_it : getindex polled.1 ≡ some taken
unfolding taken polled getindex find_index next_index setbufstat enter inframe stack_of socket_of
    recvpkt with_stack dispatch is_ethercat is_unfit frame_index frame_length store copy_frame
    frame_source set_status
takes_it = refl

takes_four : taken.0 ≡ 4
unfolding taken polled getindex find_index next_index setbufstat enter inframe stack_of socket_of
    recvpkt with_stack dispatch is_ethercat is_unfit frame_index frame_length store copy_frame
    frame_source set_status
takes_four = refl

sent : ℤ × Port × Line
unfolding outframe
sent = elim (outframe line taken.1 4 false quiet) [
  | none ↦ (pos 0, port 0, quiet)
  | some result ↦ result
]

sends_it : outframe line taken.1 4 false quiet ≡ some sent
unfolding sent taken polled outframe is_inside getindex find_index next_index setbufstat enter
    inframe stack_of socket_of recvpkt with_stack dispatch is_ethercat is_unfit frame_index
    frame_length store copy_frame frame_source set_status
sends_it = refl

others : Others line clock 3 polled.1 quiet sent.1 sent.2
others =
    sends 4 false (takes_index no_more (λ e. omega (arith, takes_four)) takes_it) (λ e. omega arith)
      sends_it

frame_fits : frame_length frame + 16 ≤ 64
unfolding frame_length
frame_fits = omega arith

interleaved_lem_example :
    (q1 : Port) × (inframe line sent.1 3 false quiet
      ≡ some (pos (wkc_of (frame_length frame) (drop 14 frame)), q1, quiet))
    × (take 50 (get_or q1.prim.rxbuf 3 []) ≡ take 50 (drop 14 frame))
interleaved_lem_example =
    interleaved_lem line clock 1 5 3 (port 0) (packet_of frame) (one_packet frame) quiet sent.2
      quiet main_socket (stack_at-IsStack 1 0x0404) refl refl (omega arith) (λ e. omega arith) refl
      (λ e. ground arith) refl frame-IsReply frame_fits polls_it others
