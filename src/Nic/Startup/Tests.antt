-- ===== src/Nic/Startup/Tests.antt =====
-- A port set up and used, at a concrete input.
use servo_assistant.Base.{◌≡◌, refl, ℤ, false, none, some, [], ◌∷◌, arith}
use servo_assistant.Nic.{Port}
use servo_assistant.Nic.Setup.{setupnic}
use servo_assistant.Nic.Sections.{IsPaired}
use servo_assistant.Nic.Frames.{socket_of}
use servo_assistant.Nic.Frames.Bounds.{IsResult}
use servo_assistant.Nic.Wait.{srconfirm}
use servo_assistant.Nic.Startup.{IsSized, AreFrames, started_confirms}
use servo_assistant.Nic.Simulation.{
  Line, line, clock, lengths, buffers, stack_at, port, line-DeliversFrames, clock-Expires,
  clock-Expires-polls, stack_at-IsStack, port-IsLive,
}

abbrev quiet : Line
quiet = record { first = []; second = []; clock = 0 }

-- The port before it is set up.
abbrev idle_port : Port
idle_port = record (port 0) {
  prim = record (stack_at 1 0) { sock = none };
  getindex_mutex = false;
  tx_mutex = false;
  rx_mutex = false;
}

idle_port-IsSized : IsSized idle_port
idle_port-IsSized = record {
  temp = refl;
  buffers = refl;
  sources = refl;
  each = (stack_at-IsStack 1 0).each;
  spare = refl;
  spare_length = omega arith;
}

idle_port-IsPaired : IsPaired idle_port
unfolding socket_of
idle_port-IsPaired = record { getindex = refl; tx = refl; rx = refl }

idle_socket : socket_of idle_port.prim ≡ none
unfolding socket_of
idle_socket = refl

frames-AreFrames : AreFrames 3 lengths buffers
frames-AreFrames = record {
  lengths = refl;
  count = refl;
  each = (port-IsLive 0).tx_each;
  index = omega arith;
  sendable = (omega arith, omega arith);
}

started_confirms_example :
    (p1 p2 : Port) × (i2 : Line) × (wkc : ℤ) × (setupnic line (b'a' ∷ []) false idle_port quiet
      ≡ some (1, p1, quiet))
    × (srconfirm line clock 4 3 2000 (record p1 { txbuf = buffers; txbuflength = lengths }) quiet
        ≡ some (wkc, p2, i2))
    × IsResult wkc
started_confirms_example =
    started_confirms line clock line-DeliversFrames clock-Expires (b'a' ∷ []) idle_port quiet quiet
      1 3 lengths buffers 4 2000 idle_port-IsSized idle_port-IsPaired idle_socket refl
      frames-AreFrames (omega (arith, clock-Expires-polls 2000))
      (omega (arith, clock-Expires-polls 2000))
