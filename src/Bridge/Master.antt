-- ===== src/Bridge/Master.antt =====
-- The master's entry points of bridge.c: opening, closing, the slave table and diagnostics. The
-- mutex of the Rust side runs one at a time, so each is a function from state to state.
use servo_assistant.Base.{
  ℕ, zero, suc, ◌+◌, ◌%◌, ◌^◌, ℤ, pos, minus_one, minus_two, minus_three, is_positive, is_zero,
  Bool, true, false, not, ◌||◌, Option, none, some, List, [], ◌∷◌, ltb, ◌==◌, if◌then◌else◌, take,
}
use servo_assistant.Bridge.Soem.{Slave, Soem}
use servo_assistant.Coe.Tables.{max_name, OdList, OeList}

-- The statics of bridge.c that SOEM does not reach, and the state that it works on.
pub record Bridge (I : Type 0) : Type 0 where
  pub opened : Bool
  pub capture : Option ℕ
  pub od_list : OdList
  pub od_entries : OeList
  pub io : I

-- `sa_slave`
pub record SlaveInfo : Type 0 where
  pub vendor : ℕ
  pub product : ℕ
  pub revision : ℕ
  pub position : ℕ
  pub station : ℕ
  pub state : ℕ
  pub al_code : ℕ
  pub mailbox_out : ℕ
  pub mailbox_in : ℕ
  pub mailbox_protocols : ℕ
  pub name : List ℕ

-- `sa_slave_diag`
pub record SlaveDiag : Type 0 where
  pub active_ports : ℕ
  pub parent_port : ℕ
  pub entry_port : ℕ
  pub dc_active : ℕ
  pub errors_valid : ℕ
  pub dc_next : ℕ
  pub al_code : ℕ
  pub error_counters : List ℕ

abbrev pub state_none : ℕ
state_none = 0

abbrev pub state_pre_op : ℕ
state_pre_op = 2

-- EC_TIMEOUTSTATE, EC_TIMEOUTRXM, ECT_REG_RXERR, EC_MAXNAME
abbrev pub timeout_state : ℕ
timeout_state = 2_000_000

abbrev pub timeout_rxm : ℕ
timeout_rxm = 700_000

abbrev pub reg_rxerr : ℕ
reg_rxerr = 0x300

-- `s->… = ec_slave[i].…`, one entry of the table that is handed out
unfoldable pub slave_info : Slave → ℕ → SlaveInfo
slave_info s i = record {
  vendor = s.eep_man;
  product = s.eep_id;
  revision = s.eep_rev;
  position = i % 2 ^ 16;
  station = s.configadr;
  state = s.state;
  al_code = s.al_status_code;
  mailbox_out = s.mbx_wo;
  mailbox_in = s.mbx_ro;
  mailbox_protocols = s.mbx_proto;
  name = take (max_name + 1) s.name;
}

-- `for (i = 1; i <= count; i++)`, with `n` rounds left from `i`: what the rounds write to `out`
unfoldable pub slave_infos : ℕ → ℕ → (ℕ → Slave) → List SlaveInfo
slave_infos zero i table = []
slave_infos (suc n) i table = slave_info (table i) i ∷ slave_infos n (i + 1) table

module _ {I : Type 0} (S : Soem I) where
  unfoldable pub sa_close : Bridge I → Bridge I
  sa_close b =
      if b.opened
      then record b { io = S.ec_close b.capture b.io; opened = false; capture = none }
      else record b { capture = none }

  -- The slaves stay in PRE-OP: no outputs are mapped and no operation is requested.
  unfoldable pub sa_open : List ℕ → Option ℕ → Bridge I → ℤ × Bridge I
  sa_open adapter callback b =
      if b.opened
      then (minus_two, b)
      else (let (started, i1) = S.ec_init callback adapter b.io in
          if is_zero started
          then (minus_one, record b { io = i1; capture = none })
          else (let (n, i2) = S.ec_config_init callback i1 in
              if is_positive n
              then (
                n,
                record b {
                  opened = true;
                  capture = callback;
                  io = S.ec_statecheck callback 0 state_pre_op timeout_state i2;
                },
              )
              else (pos 0, sa_close (record b { opened = true; capture = callback; io = i2 }))))

  -- The list is what is written to `out`, from its first place on.
  unfoldable pub sa_slaves : ℕ → Bridge I → ℤ × List SlaveInfo × Bridge I
  sa_slaves capacity b =
      if not b.opened
      then (minus_one, [], b)
      else (let (lowest, i1) = S.ec_readstate b.capture b.io in
          let b1 = record b { io = i1 } in
          let count = S.ec_slavecount i1 in
          if lowest == state_none
          then (minus_two, [], b1)
          else if ltb capacity count
          then (minus_three, [], b1)
          else (pos count, slave_infos count 1 (S.ec_slave i1), b1))

  -- `!opened || slave < 1 || slave > ec_slavecount`
  abbrev pub is_absent : ℕ → Bridge I → Bool
  is_absent slave b = not b.opened || ltb slave 1 || ltb (S.ec_slavecount b.io) slave

  -- `writable` is `out != NULL`. The counters are what the register read leaves in their zeroed bytes.
  unfoldable pub sa_slave_diagnostics : Bool → ℕ → Bridge I → ℤ × Option SlaveDiag × Bridge I
  sa_slave_diagnostics writable slave b =
      if not b.opened || not writable || ltb slave 1 || ltb (S.ec_slavecount b.io) slave
      then (minus_one, none, b)
      else (let s = S.ec_slave b.io slave in
          let (wkc, bytes, i1) = S.ec_fprd b.capture s.configadr reg_rxerr 18 timeout_rxm b.io in
          let read = is_positive wkc in
          (
            pos 0,
            some (record {
              active_ports = s.active_ports;
              parent_port = s.parent_port;
              entry_port = s.entry_port;
              dc_active = s.dc_active;
              errors_valid = if read then 1 else 0;
              dc_next = s.dc_next;
              al_code = s.al_status_code;
              error_counters = bytes;
            }),
            record b { io = i1 },
          ))
