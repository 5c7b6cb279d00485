-- ===== src/Bridge/Services/Inside.antt =====
-- No call of the object dictionary leaves the arrays of its list.
use servo_assistant.Base.{
  ℕ, ◌%◌, ◌/◌, get_or, ◌≤◌, ◌<◌, ◌≡◌, refl, inl, inr, ℤ, is_positive, Bool, true, false, Option,
  none, some, List, [], ◌∷◌, leb, ltb, lt→ltb, arith, Bool-cases, Option-cases, length-replicate,
}
use servo_assistant.Bridge.Soem.{Soem}
use servo_assistant.Coe.Tables.{OdList, OeList, max_od_list}
use servo_assistant.Coe.Mailbox.{Mailbox, next_count}
use servo_assistant.Coe.Layout.{clear_mbx}
use servo_assistant.Coe.Exchange.{exchange}
use servo_assistant.Coe.Dictionary.{
  read_od_list, read_od_description, read_oe, info_request, is_info_response, timeout_rxm,
}
use servo_assistant.Coe.Dictionary.Lists.{read_od_list_inside}
use servo_assistant.Bridge.Master.{Bridge}
use servo_assistant.Bridge.Dictionary.{
  zero_od_list, zero_oe_list, sa_od_count, sa_od_item, sa_od_entries,
}
use servo_assistant.Bridge.Session.{Call, od_count, call, session}
use servo_assistant.Bridge.Services.{
  coe_services, ec_read_od_list, ec_read_od_description, ec_read_oe,
}
use servo_assistant.Bridge.Services.Browsing.{call-SameList}

-- No fault has ended the program.
abbrev pub is_running : {I : Type 0} → Option I → Bool
is_running none = false
is_running (some _) = true

module _ {I : Type 0} (M : Option ℕ → Mailbox I) (S : Soem (Option I)) where
  -- A list is no longer than its arrays.
  abbrev pub IsInside : Bridge (Option I) → Type 0
  IsInside b = b.od_list.entries ≤ 1024

  ec_read_od_list-fits :
      (capture : Option ℕ) (slave : ℕ) (io : Option I)
      → (ec_read_od_list M capture slave zero_od_list io).1.entries ≤ 1024
  unfolding ec_read_od_list zero_od_list
  ec_read_od_list-fits capture slave none = omega arith
  ec_read_od_list-fits capture slave (some i) =
      elim (Option-cases (read_od_list (M capture) slave zero_od_list i)) [
        | inl e ↦ rw e (omega arith)
        | inr ((wkc, l, j), e) ↦
            (let (owner, fits, places) =
                read_od_list_inside (M capture) slave zero_od_list l i j wkc
                  (length-replicate {A = ℕ} max_od_list 0) e in
              rw e fits)
      ]

  call-IsInside :
      (c : Call) (b : Bridge (Option I)) → IsInside b → IsInside (call S (coe_services M) c b).1
  unfolding call sa_od_count coe_services
  call-IsInside (od_count s) b h = ground (arith, ec_read_od_list-fits b.capture s b.io)
  call-IsInside c b h = omega (arith, (call-SameList M S c b refl).entries)

  session-IsInside :
      (cs : List Call) (b : Bridge (Option I))
      → IsInside b
      → IsInside (session S (coe_services M) cs b)
  unfolding session
  session-IsInside [] b h = h
  session-IsInside (c ∷ cs) b h =
      session-IsInside cs (call S (coe_services M) c b).1 (call-IsInside c b h)

  description_returns :
      (capture : Option ℕ) (item : ℕ) (l : OdList) (io : Option I)
      → item < 1024
      → is_running (ec_read_od_description M capture item l io).2 ≡ is_running io
  unfolding ec_read_od_description read_od_description
  description_returns capture item l none b = refl
  description_returns capture item l (some i) b =
      let inside : ltb item max_od_list ≡ true = lt→ltb _ _ b in
      let index = get_or l.index item 0 in
      let (cnt, i2) =
        next_count (M capture) l.slave ((M capture).mbxreceive l.slave clear_mbx 0 i).2 in
      let (wkc, r, i3) =
        exchange (M capture) l.slave (info_request 8 cnt 3 (index % 256 ∷ index / 256 ∷ []))
          timeout_rxm i2 in
      elim (Bool-cases (is_positive wkc)) [
        | inr f ↦ rw (ec_read_od_description, read_od_description, inside, f) refl
        | inl f ↦ elim (Bool-cases (is_info_response r 4)) [
          | inr g ↦ rw (ec_read_od_description, read_od_description, inside, f, g) refl
          | inl g ↦ rw (ec_read_od_description, read_od_description, inside, f, g) refl
        ]
      ]

  entries_return :
      (capture : Option ℕ) (item : ℕ) (od : OdList) (oe : OeList) (io : Option I)
      → item < 1024
      → is_running (ec_read_oe M capture item od oe io).2 ≡ is_running io
  unfolding ec_read_oe read_oe
  entries_return capture item od oe none b = refl
  entries_return capture item od oe (some i) b =
      let inside : ltb item max_od_list ≡ true = lt→ltb _ _ b in
      rw (ec_read_oe, read_oe, inside) refl

  item_returns :
      (slave item : ℕ) (writable : Bool) (b : Bridge (Option I))
      → IsInside b
      → is_running (sa_od_item S (coe_services M) slave item writable b).2.io ≡ is_running b.io
  unfolding sa_od_item coe_services
  item_returns slave item writable b h = elim (Bool-cases (leb b.od_list.entries item)) [
    | inl refused ↦ ground arith
    | inr low ↦
        (let inside : item < b.od_list.entries = ground arith in
          let k = description_returns b.capture item b.od_list b.io (omega arith) in ground arith)
  ]

  entry_returns :
      (slave item : ℕ) (writable : Bool) (capacity : ℤ) (b : Bridge (Option I))
      → IsInside b
      → is_running (sa_od_entries S (coe_services M) slave item writable capacity b).2.io
        ≡ is_running b.io
  unfolding sa_od_entries coe_services
  entry_returns slave item writable capacity b h = elim (Bool-cases (leb b.od_list.entries item)) [
    | inl refused ↦ ground arith
    | inr low ↦
        (let inside : item < b.od_list.entries = ground arith in
          let k = entries_return b.capture item b.od_list zero_oe_list b.io (omega arith) in
          ground arith)
  ]

  -- Let the list of the bridge be inside its arrays of 1024 objects, as after `sa_open` or
  -- `sa_od_count`, and let then any calls be made, with whatever objects and slaves their callers name
  -- and whatever the slaves answer. Then the list is still inside its arrays, and if none of the calls
  -- has faulted, neither `sa_od_item` nor `sa_od_entries` does, whatever object it is called with.
  pub od_session_lem :
      (cs : List Call) (slave item : ℕ) (writable : Bool) (capacity : ℤ) (b : Bridge (Option I))
      → b.od_list.entries ≤ 1024
      → (let b1 = session S (coe_services M) cs b in
          (b1.od_list.entries ≤ 1024)
          × (is_running (sa_od_item S (coe_services M) slave item writable b1).2.io
              ≡ is_running b1.io)
          × (is_running (sa_od_entries S (coe_services M) slave item writable capacity b1).2.io
              ≡ is_running b1.io))
  od_session_lem cs slave item writable capacity b h =
      let k = session-IsInside cs b h in
      let b1 = session S (coe_services M) cs b in
      (k, item_returns slave item writable b1 k, entry_returns slave item writable capacity b1 k)
