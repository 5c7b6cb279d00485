-- ===== src/Bridge/Services/Table.antt =====
-- The table of an object's entries after the slave was asked for each, and what is handed out of it.
use servo_assistant.Base.{
  ℕ, zero, suc, ◌+◌, ◌%◌, ◌^◌, ◌≤◌, ◌<◌, ◌≡◌, ◌∙◌, refl, sym, ap, min, ℤ, pos_part, Option, none,
  some, List, [], ◌∷◌, length, take, arith,
}
use servo_assistant.Coe.Tables.{OeList}
use servo_assistant.Coe.Dictionary.{put_entry}
use servo_assistant.Coe.Dictionary.Filled.{fill}
use servo_assistant.Bridge.Dictionary.{
  OdEntry, zero_oe_list, od_entry, od_entries_from, entry_count,
}
use servo_assistant.Bridge.Session.Tables.{entry_count-eq-min}
use servo_assistant.Bridge.Services.Place.{
  IsBlank, put_entry-IsBlank, IsBlank-skip, od_entry-unread, od_entry-put_entry, od_entry-other,
  zero_oe_list-IsBlank, said, unread,
}

abbrev pub said_from : ℕ → List (Option (List ℕ)) → List OdEntry
said_from sub [] = []
said_from sub (some r ∷ rs) = said sub r ∷ said_from (sub + 1) rs
said_from sub (none ∷ rs) = unread sub ∷ said_from (sub + 1) rs

abbrev pub described_count : List (Option (List ℕ)) → ℕ
described_count [] = 0
described_count (some r ∷ rs) = suc (described_count rs)
described_count (none ∷ rs) = described_count rs

described_count-fits : (rs : List (Option (List ℕ))) → described_count rs ≤ length rs
described_count-fits [] = omega arith
described_count-fits (some r ∷ rs) = omega (arith, described_count-fits rs)
described_count-fits (none ∷ rs) = omega (arith, described_count-fits rs)

od_entry-fill :
    (sub k : ℕ) (rs : List (Option (List ℕ))) (oe : OeList)
    → k < sub
    → od_entry (fill sub rs oe) k ≡ od_entry oe k
unfolding fill
od_entry-fill sub k [] oe b = refl
od_entry-fill sub k (some r ∷ rs) oe b =
    od_entry-fill (sub + 1) k rs (put_entry sub r oe) (omega arith) ∙ od_entry-other sub k r oe b
od_entry-fill sub k (none ∷ rs) oe b = od_entry-fill (sub + 1) k rs oe (omega arith)

fill-entries :
    (sub : ℕ) (rs : List (Option (List ℕ))) (oe : OeList)
    → oe.entries + described_count rs < 2 ^ 16
    → (fill sub rs oe).entries ≡ oe.entries + described_count rs
unfolding fill put_entry
fill-entries sub [] oe b = omega arith
fill-entries sub (some r ∷ rs) oe b =
    fill-entries (sub + 1) rs (put_entry sub r oe) (omega arith) ∙ omega arith
fill-entries sub (none ∷ rs) oe b = fill-entries (sub + 1) rs oe b

od_entries_from-fill :
    (sub : ℕ) (rs : List (Option (List ℕ))) (oe : OeList)
    → IsBlank sub oe
    → sub + length rs ≤ 256
    → od_entries_from (length rs) sub (fill sub rs oe) ≡ said_from sub rs
unfolding od_entries_from fill
od_entries_from-fill sub [] oe h b = refl
od_entries_from-fill sub (some r ∷ rs) oe h b =
    let oe1 = put_entry sub r oe in
    let head =
      od_entry-fill (sub + 1) sub rs oe1 (omega arith)
      ∙ od_entry-put_entry sub r oe h (omega arith) in
    let tail = od_entries_from-fill (sub + 1) rs oe1 (put_entry-IsBlank sub r oe h) (omega arith) in
    rw (od_entries_from, fill, head, tail) refl
od_entries_from-fill sub (none ∷ rs) oe h b =
    let head =
      od_entry-fill (sub + 1) sub rs oe (omega arith)
      ∙ od_entry-unread sub oe (h.blank sub (omega arith) (omega arith)) in
    let tail = od_entries_from-fill (sub + 1) rs oe (IsBlank-skip sub oe h) (omega arith) in
    rw (od_entries_from, fill, head, tail) refl

take-od_entries_from :
    (n m i : ℕ) (l : OeList) → n ≤ m → take n (od_entries_from m i l) ≡ od_entries_from n i l
unfolding od_entries_from
take-od_entries_from zero m i l h = refl
take-od_entries_from (suc n) zero i l h = absurd (omega arith)
take-od_entries_from (suc n) (suc m) i l h =
    ap (λ t. od_entry l i ∷ t) (take-od_entries_from n m (i + 1) l (omega arith))

-- What is handed out of a table that was filled from the first subindex on.
pub handed_out :
    (capacity : ℤ) (rs : List (Option (List ℕ)))
    → length rs ≤ 256
    → (let l = fill 0 rs (record zero_oe_list { entries = 0 }) in
        let n = min (described_count rs) (pos_part capacity % 2 ^ 16) in
        (entry_count capacity l ≡ n) × (od_entries_from n 0 l ≡ take n (said_from 0 rs)))
handed_out capacity rs b =
    let few = described_count-fits rs in
    let l = fill 0 rs (record zero_oe_list { entries = 0 }) in
    let n = min (described_count rs) (pos_part capacity % 2 ^ 16) in
    let filled : l.entries ≡ described_count rs =
      omega (arith, fill-entries 0 rs (record zero_oe_list { entries = 0 }) (omega arith)) in
    (
      entry_count-eq-min capacity l ∙ ap (λ k. min k (pos_part capacity % 2 ^ 16)) filled,
      sym (take-od_entries_from n (length rs) 0 l (omega arith))
          ∙ ap (take n) (
              od_entries_from-fill 0 rs (record zero_oe_list { entries = 0 }) zero_oe_list-IsBlank
                (omega arith)),
    )
