-- ===== src/Coe/Tables.antt =====
-- The tables of ethercatcoe.h that the object dictionary services fill.
use servo_assistant.Base.{ℕ, List}

-- EC_MAXODLIST, EC_MAXOELIST and EC_MAXNAME
abbrev pub max_od_list : ℕ
max_od_list = 1024

abbrev pub max_oe_list : ℕ
max_oe_list = 256

abbrev pub max_name : ℕ
max_name = 40

-- `ec_ODlistt`, an object dictionary; its arrays have 1024 places
pub record OdList : Type 0 where
  pub slave : ℕ
  pub entries : ℕ
  pub index : List ℕ
  pub data_type : List ℕ
  pub object_code : List ℕ
  pub max_sub : List ℕ
  pub name : List (List ℕ)

-- `ec_OElistt`, the entries of an object; its arrays have 256 places
pub record OeList : Type 0 where
  pub entries : ℕ
  pub value_info : List ℕ
  pub data_type : List ℕ
  pub bit_length : List ℕ
  pub obj_access : List ℕ
  pub name : List (List ℕ)
