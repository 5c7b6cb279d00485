-- ===== src/Coe/Dictionary/Reads.antt =====
-- When the list of objects is read inside the mailbox buffer, and when not.
use servo_assistant.Base.{
  ℕ, suc, ◌+◌, ◌*◌, ◌≤◌, ◌≡◌, ◌≢◌, refl, inl, inr, ◌∙◌, ℤ, is_positive, Bool, true, false, none,
  some, List, [], ◌∷◌, ◌++◌, length, take, drop, arith, Option-cases, if◌then◌else◌,
}
use mathlib.Core.Path.{subst}
use servo_assistant.Coe.Mailbox.{Mailbox, KeepsSize, mbx_size, next_count, timeout_txm}
use servo_assistant.Coe.Exchange.{length-clear_mbx}
use servo_assistant.Coe.Layout.{mbx_length, clear_mbx}
use servo_assistant.Coe.Tables.{OdList, max_od_list}
use servo_assistant.Coe.Dictionary.{
  words_from, words, index_count, is_too_many, trimmed, put_words, add_fragment, od_rounds,
  read_od_list, is_info_response, info_request, timeout_rxm,
}
use servo_assistant.Coe.Dictionary.Lists.{
  IsList, trimmed_lem, length-words_from, Lists, read_od_list-Lists, read_od_list_inside,
}

-- The length field of each response that is received is not shorter than the headers, and not
-- longer than the buffer.
pub record SaysItsLength {I : Type 0} (M : Mailbox I) : Type 0 where
  pub low :
      (slave timeout : ℕ) (i : I)
      → is_positive (M.mbxreceive slave clear_mbx timeout i).0 ≡ true
      → 8 ≤ mbx_length (M.mbxreceive slave clear_mbx timeout i).1
  pub high :
      (slave timeout : ℕ) (i : I)
      → is_positive (M.mbxreceive slave clear_mbx timeout i).0 ≡ true
      → mbx_length (M.mbxreceive slave clear_mbx timeout i).1 ≤ 1480

pub trimmed_le : (sp n : ℕ) → sp ≤ max_od_list → trimmed sp sp n ≤ n
unfolding trimmed is_too_many
trimmed_le sp n h = ground arith

pub index_count_le :
    (first : Bool) (r : List ℕ)
    → 8 ≤ mbx_length r
    → (if first then 14 else 12) + 2 * index_count first r ≤ mbx_length r + 6
unfolding index_count
index_count_le true r h = ground arith
index_count_le false r h = ground arith

pub words-eq : (r : List ℕ) (k n : ℕ) → k + 2 * n ≤ length r → words r k n ≡ some (words_from r k n)
unfolding words
words-eq r k n h = ground arith

pub put_words-eq :
    (sp : ℕ) (ws index : List ℕ)
    → sp + length ws ≤ length index
    → put_words sp ws index ≡ some (take sp index ++ (ws ++ drop (sp + length ws) index))
unfolding put_words
put_words-eq sp ws index h = ground arith

-- Of such a response, all that is taken is inside the buffer.
add_fragment-reads :
    (first : Bool) (slave sp : ℕ) (r : List ℕ) (l : OdList)
    → IsList slave sp l
    → length r ≡ mbx_size
    → 8 ≤ mbx_length r
    → mbx_length r ≤ 1480
    → add_fragment first sp r l ≢ none
unfolding add_fragment
add_fragment-reads first slave sp r l h s a b =
    let c = index_count first r in
    let n = trimmed sp sp c in
    let at = if first then 14 else 12 in
    let ws = words_from r at n in
    rw
      (
        add_fragment,
        h.counted,
        words-eq r at n (omega (arith, trimmed_le sp c h.fits, index_count_le first r a)),
        put_words-eq sp ws l.index
            (omega (arith, length-words_from r at n, trimmed_lem sp c h.fits, h.places)),
      )
      (λ e. ground arith)

-- If the length field of each response is not shorter than the headers and not longer than the
-- buffer, the reading of a list ends, without a read or write outside an array, however many
-- fragments are announced. The list that is read has at most 1024 entries, all of them inside its
-- array, which keeps its size, and it carries the slave's number.
pub read_od_list_total :
    {I : Type 0} (M : Mailbox I)
    → KeepsSize M
    → SaysItsLength M
    → (slave : ℕ) (l : OdList) (i : I) → length l.index ≡ max_od_list
    → (wkc : ℤ) × (l' : OdList) × (j : I) × (read_od_list M slave l i ≡ some (wkc, l', j))
      × (l'.slave ≡ slave)
      × (l'.entries ≤ max_od_list)
      × (length l'.index ≡ max_od_list)
read_od_list_total M K L slave l i h = elim (Option-cases (read_od_list M slave l i)) [
  | inl e ↦ absurd (
      subst (Lists ⊥ slave) e (
        read_od_list-Lists M slave ⊥
          (λ first sp l0 j k p q.
            add_fragment-reads first slave sp (M.mbxreceive slave clear_mbx timeout_rxm j).1 l0 k
              (K.size slave clear_mbx timeout_rxm j ∙ length-clear_mbx)
              (L.low slave timeout_rxm j p) (L.high slave timeout_rxm j p) q)
          l i h))
  | inr ((wkc, l', j), e) ↦
      (let (owner, fits, places) = read_od_list_inside M slave l l' i j wkc h e in
        (wkc, l', j, e, owner, fits, places))
]

add_fragment-faults :
    (r : List ℕ) (l : OdList)
    → l.entries ≡ 0
    → length r ≡ mbx_size
    → mbx_length r ≤ 6
    → add_fragment true 0 r l ≡ none
unfolding add_fragment words trimmed is_too_many index_count
add_fragment-faults r l e s b = ground arith

od_rounds-faults :
    {I : Type 0} (M : Mailbox I) (slave fuel x sp : ℕ) (first : Bool) (l : OdList) (i : I)
    → is_positive (M.mbxreceive slave clear_mbx timeout_rxm i).0 ≡ true
    → is_info_response (M.mbxreceive slave clear_mbx timeout_rxm i).1 2 ≡ true
    → add_fragment first sp (M.mbxreceive slave clear_mbx timeout_rxm i).1 l ≡ none
    → od_rounds M (suc fuel) slave x sp first l i ≡ none
unfolding od_rounds
od_rounds-faults M slave fuel x sp first l i p a e = rw (od_rounds, p, a, e)

-- A slave that answers with a list whose length field is 6 or less makes the reading run past the
-- end of the mailbox buffer.
pub read_od_list_overread :
    {I : Type 0} (M : Mailbox I)
    → KeepsSize M
    → (slave : ℕ) (l : OdList) (i : I)
    → ((request : List ℕ) (timeout : ℕ) (j : I)
        → is_positive (M.mbxsend slave request timeout j).0 ≡ true)
    → ((timeout : ℕ) (j : I) → is_positive (M.mbxreceive slave clear_mbx timeout j).0 ≡ true)
    → ((timeout : ℕ) (j : I) → is_info_response (M.mbxreceive slave clear_mbx timeout j).1 2 ≡ true)
    → ((timeout : ℕ) (j : I) → mbx_length (M.mbxreceive slave clear_mbx timeout j).1 ≤ 6)
    → read_od_list M slave l i ≡ none
unfolding read_od_list
read_od_list_overread M K slave l i s p a b =
    let i1 = (M.mbxreceive slave clear_mbx 0 i).2 in
    let (cnt, i2) = next_count M slave i1 in
    let i3 = (M.mbxsend slave (info_request 8 cnt 1 (1 ∷ 0 ∷ [])) timeout_txm i2).1 in
    rw (read_od_list, s (info_request 8 cnt 1 (1 ∷ 0 ∷ [])) timeout_txm i2)
      (od_rounds-faults M slave 128 0 0 true (record l { slave = slave; entries = 0 }) i3
        (p timeout_rxm i3) (a timeout_rxm i3)
        (add_fragment-faults (M.mbxreceive slave clear_mbx timeout_rxm i3).1
          (record l { slave = slave; entries = 0 }) refl
          (K.size slave clear_mbx timeout_rxm i3 ∙ length-clear_mbx) (b timeout_rxm i3)))
