-- ===== src/Bridge/Services/Entries.antt =====
-- The entries of an object that bridge.c hands out, by what the slave answers about each.
mod Tests
use servo_assistant.Base.{
  if◌then◌else◌, minus_two, ℕ, zero, suc, ◌+◌, ◌-◌, ◌%◌, ◌^◌, ◌≤◌, ◌<◌, ◌≡◌, ◌≢◌, ◌∙◌, refl, sym,
  ap, min, ℤ, pos, pos_part, is_positive, Bool, true, false, not, ◌||◌, Option, none, some, List,
  [], ◌∷◌, ◌++◌, length, take, drop, replicate, set, get_or, c_string, c_string-set, leb, lt→leb,
  ◌==◌, eq→==, arith, length-set, get_or-set_self, get_or-set_ne, length-replicate,
  get_or-replicate, length-take, length-drop, take_of_length_le,
}
use servo_assistant.Bridge.Soem.{Soem}
use servo_assistant.Coe.Tables.{OdList, OeList, max_oe_list, max_name}
use servo_assistant.Coe.Layout.{byte_at, word_at}
use servo_assistant.Coe.Mailbox.{Mailbox}
use servo_assistant.Coe.Dictionary.{entry_name_size, put_name, put_entry}
use servo_assistant.Coe.Dictionary.Filled.{
  ends_described, Answers-last, fill, Answers, read_oe-fill,
}
use servo_assistant.Bridge.Master.{Bridge, is_absent}
use servo_assistant.Bridge.Dictionary.{
  OdEntry, zero_oe_list, copy_name, od_entry, od_entries_from, entry_count, sa_od_entries,
}
use servo_assistant.Bridge.Session.Tables.{entry_count-eq-min}
use servo_assistant.Bridge.Services.{coe_services, ec_read_oe}
use servo_assistant.Bridge.Services.Table.{said_from, described_count, handed_out}

module _ {I : Type 0} (M : Option ℕ → Mailbox I) (S : Soem (Option I)) where
  ec_read_oe-fill :
      (capture : Option ℕ) (item : ℕ) (od : OdList) (oe : OeList) (rs : List (Option (List ℕ)))
      (i : I) {last : ℤ} {j : I}
      → item < 1024
      → length rs ≡ suc (get_or od.max_sub item 0)
      → Answers (M capture) item od 0 (pos 0) rs i last j
      → ec_read_oe M capture item od oe (some i)
        ≡ (last, fill 0 rs (record oe { entries = 0 }), some j)
  unfolding ec_read_oe
  ec_read_oe-fill capture item od oe rs i b n d =
      let e = read_oe-fill (M capture) item od rs oe i b n d in rw e refl

  -- On an open master that has the slave, for an item of the list that was read for it, which is
  -- inside its arrays, with room for one entry or more: let the slave be asked for each subindex of
  -- the object, 256 at most, and answer some of the questions with a description. If the last one is
  -- among them, `sa_od_entries` hands out as many entries as were described, or as 16 bits hold of
  -- the caller's room, whichever is less. They are those of the first subindexes: place `k` holds what
  -- the description of subindex `k` says, or an empty entry if there was none. If the last one is not
  -- described, the result is -2, and nothing is handed out.
  pub sa_od_entries_delivers :
      (slave item : ℕ) (capacity : ℤ) (b : Bridge (Option I)) (rs : List (Option (List ℕ))) (i : I)
      {last : ℤ} {j : I}
      → is_absent S slave b ≡ false
      → b.od_list.slave ≡ slave
      → item < b.od_list.entries
      → b.od_list.entries ≤ 1024
      → is_positive capacity ≡ true
      → b.io ≡ some i
      → length rs ≡ suc (get_or b.od_list.max_sub item 0)
      → length rs ≤ 256
      → Answers (M b.capture) item b.od_list 0 (pos 0) rs i last j
      → (let n = min (described_count rs) (pos_part capacity % 2 ^ 16) in
          (b1 : Bridge (Option I)) × (sa_od_entries S (coe_services M) slave item true capacity b
            ≡ (if ends_described false rs
                then (pos n, take n (said_from 0 rs), b1)
                else (minus_two, [], b1)))
          × (b1.io ≡ some j))
  unfolding sa_od_entries coe_services
  sa_od_entries_delivers slave item capacity b rs i {last} {j} present owner low inside room io n
        fits d =
      let l = fill 0 rs (record zero_oe_list { entries = 0 }) in
      let read = ec_read_oe-fill b.capture item b.od_list zero_oe_list rs i (omega arith) n d in
      let positive : is_positive last ≡ ends_described false rs =
        Answers-last (M b.capture) item b.od_list rs 0 (pos 0) i d in
      let own : (b.od_list.slave == slave) ≡ true = eq→== _ _ owner in
      let above : leb b.od_list.entries item ≡ false = lt→leb _ _ low in
      let (count, table) = handed_out capacity rs fits in
      (
        record b { od_entries = l; io = some j },
        rw (sa_od_entries, present, own, above, room, io, read, positive, count, table) refl,
        refl,
      )
