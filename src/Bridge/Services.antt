-- ===== src/Bridge/Services.antt =====
-- The CoE services that bridge.c calls, as ethercatcoe.c has them: the wrappers `ec_…` pass the global
-- context on. The state is an option: `none` is a program that a fault has ended, and then what a
-- call returns is not looked at. The mailbox is reached through the pcap functions, and so depends
-- on the callback.
pub mod Laws
pub mod Browsing
pub mod Inside
pub mod Place
pub mod Table
pub mod Entries
pub mod Simulation
mod Tests
use servo_assistant.Base.{ℕ, ℤ, pos, Bool, Option, none, some, List, []}
use servo_assistant.Bridge.Soem.{Coe}
use servo_assistant.Coe.Tables.{OdList, OeList}
use servo_assistant.Coe.Mailbox.{Mailbox}
use servo_assistant.Coe.Upload.{sdo_read}
use servo_assistant.Coe.Download.{sdo_write}
use servo_assistant.Coe.Dictionary.{read_od_list, read_od_description, read_oe}

-- The result of a function that changes a table, which is kept where it faults.
abbrev pub settle : {I A : Type 0} → A → Option (ℤ × A × I) → ℤ × A × Option I
settle a none = (pos 0, a, none)
settle a (some (wkc, a1, i)) = (wkc, a1, some i)

module _ {I : Type 0} (M : Option ℕ → Mailbox I) where
  unfoldable pub ec_read_od_list : Option ℕ → ℕ → OdList → Option I → ℤ × OdList × Option I
  ec_read_od_list capture slave l none = (pos 0, l, none)
  ec_read_od_list capture slave l (some i) = settle l (read_od_list (M capture) slave l i)

  unfoldable pub ec_read_od_description : Option ℕ → ℕ → OdList → Option I → ℤ × OdList × Option I
  ec_read_od_description capture item l none = (pos 0, l, none)
  ec_read_od_description capture item l (some i) =
      settle l (read_od_description (M capture) item l i)

  unfoldable pub ec_read_oe : Option ℕ → ℕ → OdList → OeList → Option I → ℤ × OeList × Option I
  ec_read_oe capture item od oe none = (pos 0, oe, none)
  ec_read_oe capture item od oe (some i) = settle oe (read_oe (M capture) item od oe i)

  unfoldable pub ec_sdo_read :
      Option ℕ → ℕ → ℕ → ℕ → Bool → ℕ → ℕ → Option I → ℤ × ℕ × List ℕ × Option I
  ec_sdo_read capture slave index sub ca capacity timeout none = (pos 0, capacity, [], none)
  ec_sdo_read capture slave index sub ca capacity timeout (some i) =
      elim (sdo_read (M capture) slave index sub ca capacity timeout i) [
        | none ↦ (pos 0, capacity, [], none)
        | some u ↦ (u.wkc, u.size, u.bytes, some u.io)
      ]

  unfoldable pub ec_sdo_write : Option ℕ → ℕ → ℕ → ℕ → Bool → List ℕ → ℕ → Option I → ℤ × Option I
  ec_sdo_write capture slave index sub ca payload timeout none = (pos 0, none)
  ec_sdo_write capture slave index sub ca payload timeout (some i) =
      elim (sdo_write (M capture) slave index sub ca payload timeout i) [
        | none ↦ (pos 0, none)
        | some (wkc, j) ↦ (wkc, some j)
      ]

  -- What bridge.c is linked with.
  unfoldable pub coe_services : Coe (Option I)
  coe_services = record {
    ec_read_od_list = ec_read_od_list;
    ec_read_od_description = ec_read_od_description;
    ec_read_oe = ec_read_oe;
    ec_sdo_read = ec_sdo_read;
    ec_sdo_write = ec_sdo_write;
  }
