-- ===== src/Bridge/Session.antt =====
-- The calls that the Rust side makes of the master, in any order, as bridge.c answers them. Rust's
-- mutex serialises them, so a session is a list of calls.
pub mod Lifecycle
pub mod Tables
pub mod Modes
use servo_assistant.Base.{ℕ, ℤ, pos, Bool, true, false, Option, List, [], ◌∷◌}
use servo_assistant.Bridge.Soem.{Soem, Coe}
use servo_assistant.Bridge.Master.{Bridge, sa_open, sa_close, sa_slaves, sa_slave_diagnostics}
use servo_assistant.Bridge.Dictionary.{
  sa_od_count, sa_od_item, sa_od_entries, sa_sdo_read, sa_sdo_write,
}

pub data Call : Type 0 where
  open_master : List ℕ → Option ℕ → Call
  close_master : Call
  slaves : ℕ → Call
  diagnostics : Bool → ℕ → Call
  od_count : ℕ → Call
  od_item : ℕ → ℕ → Bool → Call
  od_entries : ℕ → ℕ → Bool → ℤ → Call
  sdo_read : ℕ → ℕ → ℕ → ℕ → Call
  sdo_write : ℕ → ℕ → ℕ → List ℕ → ℤ → Call

-- All but opening and closing work on an open master.
abbrev pub needs_open : Call → Bool
needs_open (open_master a c) = false
needs_open close_master = false
needs_open (slaves n) = true
needs_open (diagnostics w s) = true
needs_open (od_count s) = true
needs_open (od_item s i w) = true
needs_open (od_entries s i w n) = true
needs_open (sdo_read s i j n) = true
needs_open (sdo_write s i j d n) = true

-- The slave that a call is about.
abbrev pub target : Call → Option ℕ
target (open_master a c) = Option.none
target close_master = Option.none
target (slaves n) = Option.none
target (diagnostics w s) = Option.some s
target (od_count s) = Option.some s
target (od_item s i w) = Option.some s
target (od_entries s i w n) = Option.some s
target (sdo_read s i j n) = Option.some s
target (sdo_write s i j d n) = Option.some s

module _ {I : Type 0} (S : Soem I) (C : Coe I) where
  -- The result code and the state after a call. `sa_close` returns nothing.
  unfoldable pub call : Call → Bridge I → ℤ × Bridge I
  call (open_master adapter callback) b = sa_open S adapter callback b
  call close_master b = (pos 0, sa_close S b)
  call (slaves capacity) b = let (r, out, b') = sa_slaves S capacity b in (r, b')
  call (diagnostics writable slave) b =
      let (r, out, b') = sa_slave_diagnostics S writable slave b in (r, b')
  call (od_count slave) b = sa_od_count S C slave b
  call (od_item slave item writable) b =
      let (r, out, b') = sa_od_item S C slave item writable b in (r, b')
  call (od_entries slave item writable capacity) b =
      let (r, out, b') = sa_od_entries S C slave item writable capacity b in (r, b')
  call (sdo_read slave index sub capacity) b =
      let (r, size, out, b') = sa_sdo_read S C slave index sub capacity b in (r, b')
  call (sdo_write slave index sub bytes size) b = sa_sdo_write S C slave index sub bytes size b

  unfoldable pub session : List Call → Bridge I → Bridge I
  session [] b = b
  session (c ∷ cs) b = session cs (call c b).1

  -- The result codes of the calls.
  unfoldable pub results : List Call → Bridge I → List ℤ
  results [] b = []
  results (c ∷ cs) b = let (r, b1) = call c b in r ∷ results cs b1
