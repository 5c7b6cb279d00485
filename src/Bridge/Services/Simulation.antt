-- ===== src/Bridge/Services/Simulation.antt =====
-- A master with one slave, for the tests.
use servo_assistant.Base.{ℕ, pos, true, false, Option, none, some, List, [], ◌∷◌}
use servo_assistant.Bridge.Soem.{Slave, Soem}
use servo_assistant.Bridge.Master.{Bridge}
use servo_assistant.Bridge.Dictionary.{zero_od_list, zero_oe_list}

abbrev drive : Slave
drive = record {
  configadr = 4097;
  eep_man = 1;
  eep_id = 2;
  eep_rev = 3;
  state = 2;
  al_status_code = 0;
  mbx_wo = 4096;
  mbx_ro = 4608;
  mbx_proto = 4;
  name = 0 ∷ [];
  active_ports = 1;
  parent_port = 0;
  entry_port = 0;
  dc_active = 0;
  dc_next = 0;
}

-- A master with one slave.
abbrev pub soem : {I : Type 0} → Soem (Option I)
soem = record {
  ec_init = λ c name i. (pos 1, i);
  ec_close = λ c i. i;
  ec_config_init = λ c i. (pos 1, i);
  ec_statecheck = λ c s st t i. i;
  ec_readstate = λ c i. (2, i);
  ec_slavecount = λ i. 1;
  ec_slave = λ i s. drive;
  ec_fprd = λ c a r n t i. (pos 1, [], i);
  ec_iserror = λ i. false;
  ec_elist2string = λ i. ([], i);
}

abbrev pub running : Bridge (Option ℕ)
running = record {
  opened = true;
  capture = none;
  od_list = zero_od_list;
  od_entries = zero_oe_list;
  io = some 0;
}

-- A response that lists two objects.
abbrev pub list_response : List ℕ
list_response =
    12 ∷ 0 ∷ 0 ∷ 0 ∷ 0 ∷ 0x13 ∷ 0 ∷ 0x80 ∷ 2 ∷ 0 ∷ 0 ∷ 0 ∷ 1 ∷ 0 ∷ 0 ∷ 0x10 ∷ 0x18 ∷ 0x10 ∷ []
