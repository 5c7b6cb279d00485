-- ===== src/Bridge/Services/Browsing.antt =====
-- Browsing an object dictionary by the entry points of bridge.c: the list of objects is read by one
-- call, and its objects are read by later ones.
mod Tests
use servo_assistant.Base.{
  ℕ, ◌<◌, ◌≡◌, ◌⊎◌, ◌∙◌, refl, ap, inl, inr, ℤ, pos, minus_two, is_positive, Bool, true, false,
  Option, none, some, List, [], ◌∷◌, length, get_or, arith, ◌==◌, eq→==, leb, lt→leb, Bool-cases,
  Option-cases, length-replicate,
}
use servo_assistant.Bridge.Soem.{Soem, Coe}
use servo_assistant.Coe.Tables.{OdList, max_od_list}
use servo_assistant.Coe.Mailbox.{Mailbox}
use servo_assistant.Coe.Dictionary.{read_od_list, read_od_description}
use servo_assistant.Coe.Dictionary.Entries.{SameBut, read_od_description_frame}
use servo_assistant.Coe.Dictionary.Lists.{read_od_list_inside}
use servo_assistant.Bridge.Master.{
  Bridge, is_absent, sa_open, sa_close, sa_slaves, sa_slave_diagnostics,
}
use servo_assistant.Bridge.Dictionary.{
  OdItem, zero_od_list, od_item, sa_od_count, sa_od_item, sa_od_entries, sa_sdo_read, sa_sdo_write,
}
use servo_assistant.Bridge.Session.{
  Call, open_master, close_master, slaves, diagnostics, od_count, sdo_read, sdo_write, call,
  session,
}
use servo_assistant.Bridge.Services.{coe_services, ec_read_od_list, ec_read_od_description}

-- The same slave's list of the same objects; what is known of each of them may differ.
pub record SameList (l l' : OdList) : Type 0 where
  pub slave : l'.slave ≡ l.slave
  pub entries : l'.entries ≡ l.entries
  pub index : l'.index ≡ l.index

SameList-refl : (l : OdList) → SameList l l
SameList-refl l = record { slave = refl; entries = refl; index = refl }

SameList-trans : {l m n : OdList} → SameList l m → SameList m n → SameList l n
SameList-trans a b = record {
  slave = b.slave ∙ a.slave;
  entries = b.entries ∙ a.entries;
  index = b.index ∙ a.index;
}

-- Only `sa_od_count` reads a list.
abbrev pub reads_list : Call → Bool
reads_list (od_count s) = true
reads_list _ = false

abbrev pub ReadsNoList : List Call → Type 0
ReadsNoList [] = Unit
ReadsNoList (c ∷ cs) = (reads_list c ≡ false) × ReadsNoList cs

module _ {I : Type 0} (M : Option ℕ → Mailbox I) (S : Soem (Option I)) where
  ec_read_od_description-SameList :
      (capture : Option ℕ) (item : ℕ) (l : OdList) (io : Option I)
      → SameList l (ec_read_od_description M capture item l io).1
  unfolding ec_read_od_description
  ec_read_od_description-SameList capture item l none = SameList-refl l
  ec_read_od_description-SameList capture item l (some i) =
      elim (Option-cases (read_od_description (M capture) item l i)) [
        | inl e ↦ rw e (SameList-refl l)
        | inr ((wkc, l', j), e) ↦
            (let k = read_od_description_frame (M capture) item l l' i j wkc e in
              rw e (record { slave = k.slave; entries = k.entries; index = k.index }))
      ]

  sa_od_item-SameList :
      (slave item : ℕ) (writable : Bool) (b : Bridge (Option I))
      → SameList b.od_list (sa_od_item S (coe_services M) slave item writable b).2.od_list
  unfolding sa_od_item coe_services
  sa_od_item-SameList slave item writable b =
      let k = ec_read_od_description-SameList b.capture item b.od_list b.io in
      let refused = SameList-refl b.od_list in ground arith

  pub call-SameList :
      (c : Call) (b : Bridge (Option I))
      → reads_list c ≡ false
      → SameList b.od_list (call S (coe_services M) c b).1.od_list
  unfolding call sa_open sa_close sa_slaves sa_slave_diagnostics sa_od_entries sa_sdo_read
      sa_sdo_write
  call-SameList (Call.od_item s i w) b n = sa_od_item-SameList s i w b
  call-SameList (od_count s) b n = cc
  call-SameList _ b n = ground arith

  session-SameList :
      (cs : List Call) (b : Bridge (Option I))
      → ReadsNoList cs
      → SameList b.od_list (session S (coe_services M) cs b).od_list
  unfolding session
  session-SameList [] b n = SameList-refl b.od_list
  session-SameList (c ∷ cs) b n =
      SameList-trans (call-SameList c b n.0)
        (session-SameList cs (call S (coe_services M) c b).1 n.1)

  Owned : ℕ → ℤ × OdList × Option I → Type 0
  Owned slave (wkc, l, io) = (is_positive wkc ≡ true) → l.slave ≡ slave

  ec_read_od_list-Owned :
      (capture : Option ℕ) (slave : ℕ) (io : Option I)
      → Owned slave (ec_read_od_list M capture slave zero_od_list io)
  unfolding ec_read_od_list Owned zero_od_list
  ec_read_od_list-Owned capture slave none = λ p. ground arith
  ec_read_od_list-Owned capture slave (some i) =
      elim (Option-cases (read_od_list (M capture) slave zero_od_list i)) [
        | inl e ↦ rw e (λ p. ground arith)
        | inr ((wkc, l, j), e) ↦
            (let (owner, fits, places) =
                read_od_list_inside (M capture) slave zero_od_list l i j wkc
                  (length-replicate {A = ℕ} max_od_list 0) e in
              rw e (λ p. owner))
      ]

  counted :
      (slave : ℕ) (b b1 : Bridge (Option I)) {n : ℕ}
      → sa_od_count S (coe_services M) slave b ≡ (pos n, b1)
      → (b1.od_list.slave ≡ slave) × (b1.od_list.entries ≡ n)
  unfolding sa_od_count coe_services Owned
  counted slave b b1 e =
      let k = ec_read_od_list-Owned b.capture slave b.io in
      elim (Bool-cases (is_positive (ec_read_od_list M b.capture slave zero_od_list b.io).0)) [
        | inl good ↦ (let owner = k good in ground arith)
        | inr bad ↦ ground arith
      ]

  answered :
      (slave item : ℕ) (b : Bridge (Option I))
      → is_absent S slave b ≡ false
      → (b.od_list.slave == slave) ≡ true
      → leb b.od_list.entries item ≡ false
      → (let (result, out, b1) = sa_od_item S (coe_services M) slave item true b in
          (result ≡ minus_two)
          ⊎ ((d : OdItem) × (result ≡ pos 0)
              × (out ≡ some d)
              × (d.index ≡ get_or b.od_list.index item 0)))
  unfolding sa_od_item coe_services od_item
  answered slave item b present own low =
      let same = ec_read_od_description-SameList b.capture item b.od_list b.io in
      let (wkc, l, io) = ec_read_od_description M b.capture item b.od_list b.io in
      elim (Bool-cases (is_positive wkc)) [
        | inl good ↦ inr (
          od_item l item,
          rw (sa_od_item, present, own, low, good),
          rw (sa_od_item, present, own, low, good),
          ap (λ t. get_or t item 0) same.index,
        )
        | inr bad ↦ inl (rw (sa_od_item, present, own, low, bad))
      ]

  -- Let `sa_od_count` have returned the number `n` for a slave, and let then any calls be made, none
  -- of them `sa_od_count`. On an open master that has the slave, an item below `n` is not refused:
  -- either its description cannot be read, or the description that is handed out carries the index
  -- that the list had at its place when it was read. The list is still that of the slave.
  pub browsing_lem :
      (slave item : ℕ) (cs : List Call) (b b1 : Bridge (Option I)) {n : ℕ}
      → sa_od_count S (coe_services M) slave b ≡ (pos n, b1)
      → ReadsNoList cs
      → item < n
      → is_absent S slave (session S (coe_services M) cs b1) ≡ false
      → (let (result, out, b3) =
            sa_od_item S (coe_services M) slave item true (session S (coe_services M) cs b1) in
          ((result ≡ minus_two)
            ⊎ ((d : OdItem) × (result ≡ pos 0)
                × (out ≡ some d)
                × (d.index ≡ get_or b1.od_list.index item 0)))
          × SameList b1.od_list b3.od_list)
  browsing_lem slave item cs b b1 {n} e q l present =
      let b2 = session S (coe_services M) cs b1 in
      let (owner, count) = counted slave b b1 e in
      let same = session-SameList cs b1 q in
      let kept = sa_od_item-SameList slave item true b2 in
      let own : (b2.od_list.slave == slave) ≡ true = eq→== _ _ (same.slave ∙ owner) in
      let low : leb b2.od_list.entries item ≡ false =
        lt→leb _ _ (omega (arith, same.entries, count)) in
      let answer = answered slave item b2 present own low in
      let index : get_or b2.od_list.index item 0 ≡ get_or b1.od_list.index item 0 =
        ap (λ t. get_or t item 0) same.index in
      (
        elim answer [ inl f ↦ inl f | inr (d, f, g, h) ↦ inr (d, f, g, h ∙ index) ],
        SameList-trans same kept,
      )
