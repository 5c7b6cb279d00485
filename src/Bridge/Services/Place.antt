-- ===== src/Bridge/Services/Place.antt =====
-- One place of the table of an object's entries: what a description writes to it, and what bridge.c
-- makes of it.
use servo_assistant.Base.{
  ℕ, ◌+◌, ◌-◌, ◌%◌, ◌^◌, ◌≤◌, ◌<◌, ◌≡◌, ◌≢◌, ◌∙◌, refl, List, [], ◌++◌, length, take, drop,
  replicate, get_or, c_string, c_string-set, arith, length-set, get_or-set_self, get_or-set_ne,
  get_or-replicate, length-take, length-drop, take_of_length_le,
}
use servo_assistant.Coe.Tables.{OeList}
use servo_assistant.Coe.Layout.{word_at}
use servo_assistant.Coe.Dictionary.{entry_name_size, put_name, put_entry}
use servo_assistant.Bridge.Dictionary.{OdEntry, zero_oe_list, copy_name, od_entry}

-- What a response says of the entry that was asked for.
abbrev pub said : ℕ → List ℕ → OdEntry
said sub r = record {
  data_type = word_at r 16;
  bit_length = word_at r 18;
  access = word_at r 20;
  sub_index = sub % 2 ^ 8;
  name =
      let s = take (entry_name_size r) (c_string (drop 22 r)) in s ++ replicate (64 - length s) 0;
}

-- An entry of which nothing is known.
abbrev pub unread : ℕ → OdEntry
unread sub = record {
  data_type = 0;
  bit_length = 0;
  access = 0;
  sub_index = sub % 2 ^ 8;
  name = replicate 64 0;
}

-- Nothing stands at a place of the table.
pub record IsUnread (oe : OeList) (k : ℕ) : Type 0 where
  data_type : get_or oe.data_type k 0 ≡ 0
  bit_length : get_or oe.bit_length k 0 ≡ 0
  obj_access : get_or oe.obj_access k 0 ≡ 0
  name : get_or oe.name k [] ≡ replicate 41 0

-- From the place `sub` on, nothing is in the table, whose arrays have their size.
pub record IsBlank (sub : ℕ) (oe : OeList) : Type 0 where
  data_type : length oe.data_type ≡ 256
  bit_length : length oe.bit_length ≡ 256
  obj_access : length oe.obj_access ≡ 256
  name : length oe.name ≡ 256
  pub blank : (k : ℕ) → sub ≤ k → k < 256 → IsUnread oe k

entry_name_size-fits : (r : List ℕ) → entry_name_size r ≤ 40
unfolding entry_name_size
entry_name_size-fits r = ground arith

copy_name-put_name :
    (n : ℕ) (src : List ℕ)
    → n ≤ 40
    → copy_name (put_name n src (replicate 41 0))
      ≡ (let s = take n (c_string src) in s ++ replicate (64 - length s) 0)
unfolding copy_name put_name
copy_name-put_name n src b =
    let s = take n (c_string src) in
    let rest : 0 < length (drop n (replicate {A = ℕ} 41 0)) =
      omega (arith, length-drop n (replicate {A = ℕ} 41 0)) in
    let short : length s ≤ 63 = omega (arith, length-take n (c_string src)) in
    rw
      (
        copy_name,
        put_name,
        c_string-set n src (drop n (replicate {A = ℕ} 41 0)) rest,
        take_of_length_le 63 s short,
      )
      refl

pub put_entry-IsBlank :
    (sub : ℕ) (r : List ℕ) (oe : OeList) → IsBlank sub oe → IsBlank (sub + 1) (put_entry sub r oe)
unfolding put_entry
put_entry-IsBlank sub r oe h = record {
  data_type = length-set oe.data_type sub _ ∙ h.data_type;
  bit_length = length-set oe.bit_length sub _ ∙ h.bit_length;
  obj_access = length-set oe.obj_access sub _ ∙ h.obj_access;
  name = length-set oe.name sub _ ∙ h.name;
  blank = λ k l b.
      (let apart : sub ≢ k = λ e. omega arith in
        let u = h.blank k (omega arith) b in
        record {
          data_type = get_or-set_ne oe.data_type _ 0 apart ∙ u.data_type;
          bit_length = get_or-set_ne oe.bit_length _ 0 apart ∙ u.bit_length;
          obj_access = get_or-set_ne oe.obj_access _ 0 apart ∙ u.obj_access;
          name = get_or-set_ne oe.name _ [] apart ∙ u.name;
        });
}

pub IsBlank-skip : (sub : ℕ) (oe : OeList) → IsBlank sub oe → IsBlank (sub + 1) oe
IsBlank-skip sub oe h = record {
  data_type = h.data_type;
  bit_length = h.bit_length;
  obj_access = h.obj_access;
  name = h.name;
  blank = λ k l b. h.blank k (omega arith) b;
}

copy_name-blank : copy_name (replicate 41 0) ≡ replicate 64 0
unfolding put_name
copy_name-blank = copy_name-put_name 0 [] (omega arith)

pub od_entry-unread : (sub : ℕ) (oe : OeList) → IsUnread oe sub → od_entry oe sub ≡ unread sub
unfolding od_entry
od_entry-unread sub oe u =
    rw (u.data_type, u.bit_length, u.obj_access, u.name, copy_name-blank) refl

pub od_entry-put_entry :
    (sub : ℕ) (r : List ℕ) (oe : OeList)
    → IsBlank sub oe
    → sub < 256
    → od_entry (put_entry sub r oe) sub ≡ said sub r
unfolding od_entry put_entry
od_entry-put_entry sub r oe h b =
    rw
      (
        get_or-set_self oe.data_type sub (word_at r 16) 0 (omega (arith, h.data_type)),
        get_or-set_self oe.bit_length sub (word_at r 18) 0 (omega (arith, h.bit_length)),
        get_or-set_self oe.obj_access sub (word_at r 20) 0 (omega (arith, h.obj_access)),
        get_or-set_self oe.name sub
            (put_name (entry_name_size r) (drop 22 r) (get_or oe.name sub [])) []
            (omega (arith, h.name)),
        (h.blank sub (omega arith) b).name,
        copy_name-put_name (entry_name_size r) (drop 22 r) (entry_name_size-fits r),
      )
      refl

pub od_entry-other :
    (sub k : ℕ) (r : List ℕ) (oe : OeList)
    → k < sub
    → od_entry (put_entry sub r oe) k ≡ od_entry oe k
unfolding od_entry put_entry
od_entry-other sub k r oe b =
    let apart : sub ≢ k = λ e. omega arith in
    rw
      (
        get_or-set_ne oe.data_type (word_at r 16) 0 apart,
        get_or-set_ne oe.bit_length (word_at r 18) 0 apart,
        get_or-set_ne oe.obj_access (word_at r 20) 0 apart,
        get_or-set_ne oe.name (put_name (entry_name_size r) (drop 22 r) (get_or oe.name sub [])) []
            apart,
      )
      refl

pub zero_oe_list-IsBlank : IsBlank 0 (record zero_oe_list { entries = 0 })
unfolding zero_oe_list
zero_oe_list-IsBlank = record {
  data_type = refl;
  bit_length = refl;
  obj_access = refl;
  name = refl;
  blank = λ k l b. record {
    data_type = get_or-replicate {A = ℕ} 256 0 k 0 b;
    bit_length = get_or-replicate {A = ℕ} 256 0 k 0 b;
    obj_access = get_or-replicate {A = ℕ} 256 0 k 0 b;
    name = get_or-replicate 256 (replicate 41 0) k [] b;
  };
}
