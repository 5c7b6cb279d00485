-- ===== src/Coe/Dictionary/Entries.antt =====
-- The description of an object, and its entries.
use servo_assistant.Base.{
  ℕ, zero, suc, ◌+◌, ◌≤◌, ◌≡◌, ◌≢◌, refl, ◌∙◌, ltb, ℤ, pos, is_positive, Option, none, some, List,
  [], ◌∷◌, ◌/◌, ◌%◌, get_or, get_or-set_ne, arith, inl, inr, Bool-cases,
}
use mathlib.Core.Path.{subst}
use servo_assistant.Coe.Mailbox.{Mailbox, next_count}
use servo_assistant.Coe.Exchange.{exchange}
use servo_assistant.Coe.Layout.{clear_mbx}
use servo_assistant.Coe.Tables.{max_od_list, OdList, OeList}
use servo_assistant.Coe.Dictionary.{
  info_request, is_info_response, timeout_rxm, clear_description, put_description, put_entry,
  read_od_description, read_oe_single, read_oe_from, read_oe,
}

-- What a call for one object leaves of the others: the indexes, and the descriptions.
pub record SameBut (item : ℕ) (l l' : OdList) : Type 0 where
  pub slave : l'.slave ≡ l.slave
  pub entries : l'.entries ≡ l.entries
  pub index : l'.index ≡ l.index
  pub data_type : (j : ℕ) → item ≢ j → get_or l'.data_type j 0 ≡ get_or l.data_type j 0
  pub object_code : (j : ℕ) → item ≢ j → get_or l'.object_code j 0 ≡ get_or l.object_code j 0
  pub max_sub : (j : ℕ) → item ≢ j → get_or l'.max_sub j 0 ≡ get_or l.max_sub j 0
  pub name : (j : ℕ) → item ≢ j → get_or l'.name j [] ≡ get_or l.name j []

clear_description-SameBut : (item : ℕ) (l : OdList) → SameBut item l (clear_description item l)
unfolding clear_description
clear_description-SameBut item l = record {
  slave = refl;
  entries = refl;
  index = refl;
  data_type = λ j n. get_or-set_ne l.data_type 0 0 n;
  object_code = λ j n. get_or-set_ne l.object_code 0 0 n;
  max_sub = λ j n. get_or-set_ne l.max_sub 0 0 n;
  name = λ j n. get_or-set_ne l.name _ [] n;
}

put_description-SameBut :
    (item : ℕ) (r : List ℕ) (l l0 : OdList)
    → SameBut item l0 l
    → SameBut item l0 (put_description item r l)
unfolding put_description
put_description-SameBut item r l l0 h = record {
  slave = h.slave;
  entries = h.entries;
  index = h.index;
  data_type = λ j n. get_or-set_ne l.data_type _ 0 n ∙ h.data_type j n;
  object_code = λ j n. get_or-set_ne l.object_code _ 0 n ∙ h.object_code j n;
  max_sub = λ j n. get_or-set_ne l.max_sub _ 0 n ∙ h.max_sub j n;
  name = λ j n. get_or-set_ne l.name _ [] n ∙ h.name j n;
}

abbrev Describes : {I : Type 0} → ℕ → OdList → Option (ℤ × OdList × I) → Type 0
Describes item l none = Unit
Describes item l (some (wkc, l', i)) = SameBut item l l'

read_od_description-Describes :
    {I : Type 0} (M : Mailbox I) (item : ℕ) (l : OdList) (i : I)
    → Describes item l (read_od_description M item l i)
unfolding read_od_description
read_od_description-Describes M item l i =
    let k = clear_description-SameBut item l in
    let index = get_or l.index item 0 in
    let (cnt, i2) = next_count M l.slave (M.mbxreceive l.slave clear_mbx 0 i).2 in
    let (wkc, r, i3) =
      exchange M l.slave (info_request 8 cnt 3 (index % 256 ∷ index / 256 ∷ [])) timeout_rxm i2 in
    elim (Bool-cases (ltb item max_od_list)) [
      | inr e ↦ rw (read_od_description, e) tt
      | inl e ↦ elim (Bool-cases (is_positive wkc)) [
        | inr f ↦ rw (read_od_description, e, f) k
        | inl f ↦ elim (Bool-cases (is_info_response r 4)) [
          | inr g ↦ rw (read_od_description, e, f, g) k
          | inl g ↦
              rw (read_od_description, e, f, g)
                (put_description-SameBut item r (clear_description item l) l k)
        ]
      ]
    ]

-- The reading of an object's description, however it ends, leaves the list's owner, its length, its
-- indexes and the descriptions of all other objects as they were.
pub read_od_description_frame :
    {I : Type 0} (M : Mailbox I) (item : ℕ) (l l' : OdList) (i i' : I) (wkc : ℤ)
    → read_od_description M item l i ≡ some (wkc, l', i')
    → SameBut item l l'
read_od_description_frame M item l l' i i' wkc e =
    subst (Describes item l) e (read_od_description-Describes M item l i)

read_oe_single_count :
    {I : Type 0} (M : Mailbox I) (item sub : ℕ) (od : OdList) (oe : OeList) (i : I)
    → (read_oe_single M item sub od oe i).1.entries ≤ oe.entries + 1
unfolding read_oe_single put_entry
read_oe_single_count M item sub od oe i = ground arith

read_oe_from_count :
    {I : Type 0} (M : Mailbox I) (k item sub : ℕ) (od : OdList) (wkc : ℤ) (oe : OeList) (i : I)
    → (read_oe_from M k item sub od wkc oe i).1.entries ≤ oe.entries + k
unfolding read_oe_from
read_oe_from_count M zero item sub od wkc oe i = omega arith
read_oe_from_count M (suc k) item sub od wkc oe i =
    let (wkc1, oe1, i1) = read_oe_single M item sub od oe i in
    omega (
      arith,
      read_oe_single_count M item sub od oe i,
      read_oe_from_count M k item (sub + 1) od wkc1 oe1 i1,
    )

abbrev Counts : {I : Type 0} → ℕ → Option (ℤ × OeList × I) → Type 0
Counts n none = Unit
Counts n (some (wkc, oe, i)) = oe.entries ≤ n

read_oe-Counts :
    {I : Type 0} (M : Mailbox I) (item : ℕ) (od : OdList) (oe : OeList) (i : I)
    → Counts (get_or od.max_sub item 0 + 1) (read_oe M item od oe i)
unfolding read_oe
read_oe-Counts M item od oe i = elim (Bool-cases (ltb item max_od_list)) [
  | inr e ↦ rw (read_oe, e) tt
  | inl e ↦
      (let k = suc (get_or od.max_sub item 0) in
        rw (read_oe, e)
          (omega (arith, read_oe_from_count M k item 0 od (pos 0) (record oe { entries = 0 }) i)))
]

-- At most as many entries are read of an object as it has subindexes, which are one more than the
-- largest of them.
pub read_oe_bounded :
    {I : Type 0} (M : Mailbox I) (item : ℕ) (od : OdList) (oe oe' : OeList) (i i' : I) (wkc : ℤ)
    → read_oe M item od oe i ≡ some (wkc, oe', i')
    → oe'.entries ≤ get_or od.max_sub item 0 + 1
read_oe_bounded M item od oe oe' i i' wkc e =
    subst (Counts (get_or od.max_sub item 0 + 1)) e (read_oe-Counts M item od oe i)
