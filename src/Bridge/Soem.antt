-- ===== src/Bridge/Soem.antt =====
-- SOEM as bridge.c sees it: the fields of its tables, and its functions as an interface over the
-- state `I` that they work on. Each function is given the static callback, which reaches it through
-- the pcap functions; no function of SOEM reaches the other statics of bridge.c.
use servo_assistant.Coe.Tables.{OdList, OeList}
use servo_assistant.Base.{ℕ, suc, ℤ, Bool, true, false, Option, List, ◌≡◌}

-- what bridge.c reads of an `ec_slavet`
pub record Slave : Type 0 where
  pub configadr : ℕ
  pub eep_man : ℕ
  pub eep_id : ℕ
  pub eep_rev : ℕ
  pub state : ℕ
  pub al_status_code : ℕ
  pub mbx_wo : ℕ
  pub mbx_ro : ℕ
  pub mbx_proto : ℕ
  pub name : List ℕ
  pub active_ports : ℕ
  pub parent_port : ℕ
  pub entry_port : ℕ
  pub dc_active : ℕ
  pub dc_next : ℕ

-- The master: start-up, the slave table, registers, and the list of errors.
pub record Soem (I : Type 0) : Type 0 where
  pub ec_init : Option ℕ → List ℕ → I → ℤ × I
  pub ec_close : Option ℕ → I → I
  pub ec_config_init : Option ℕ → I → ℤ × I
  pub ec_statecheck : Option ℕ → ℕ → ℕ → ℕ → I → I
  pub ec_readstate : Option ℕ → I → ℕ × I
  pub ec_slavecount : I → ℕ
  pub ec_slave : I → ℕ → Slave
  -- work counter and the bytes read, for a station address, a register and a number of bytes
  pub ec_fprd : Option ℕ → ℕ → ℕ → ℕ → ℕ → I → ℤ × List ℕ × I
  pub ec_iserror : I → Bool
  pub ec_elist2string : I → List ℕ × I

-- The CoE services. A read returns the work counter, `*psize` and the bytes that it left in the
-- buffer; `*psize` before the call is the capacity of the buffer.
pub record Coe (I : Type 0) : Type 0 where
  pub ec_read_od_list : Option ℕ → ℕ → OdList → I → ℤ × OdList × I
  pub ec_read_od_description : Option ℕ → ℕ → OdList → I → ℤ × OdList × I
  pub ec_read_oe : Option ℕ → ℕ → OdList → OeList → I → ℤ × OeList × I
  pub ec_sdo_read : Option ℕ → ℕ → ℕ → ℕ → Bool → ℕ → ℕ → I → ℤ × ℕ × List ℕ × I
  pub ec_sdo_write : Option ℕ → ℕ → ℕ → ℕ → Bool → List ℕ → ℕ → I → ℤ × I

-- The list of errors is a ring of finitely many: a number of errors waits, `ec_iserror` says
-- whether there are any, and `ec_elist2string` takes one out.
pub record DrainsErrors {I : Type 0} (S : Soem I) : Type 0 where
  pub waiting : I → ℕ
  pub iserror_zero : (i : I) → waiting i ≡ 0 → S.ec_iserror i ≡ false
  pub iserror_suc : (i : I) {n : ℕ} → waiting i ≡ suc n → S.ec_iserror i ≡ true
  pub takes_one : (i : I) {n : ℕ} → waiting i ≡ suc n → waiting (S.ec_elist2string i).1 ≡ n
