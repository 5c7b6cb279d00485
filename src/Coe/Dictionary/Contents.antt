-- ===== src/Coe/Dictionary/Contents.antt =====
-- What the list of objects holds: the indexes of the fragments, in order, as far as there is room.
use servo_assistant.Base.{
  ℕ, zero, suc, ◌+◌, ◌-◌, ◌%◌, ◌^◌, ◌≤◌, ◌≡◌, sym, ap, ◌∙◌, Bool, some, List, ◌∷◌, ◌++◌, length,
  take, drop, min, arith, length-take, if◌then◌else◌, take-append_ge, take-append_le,
  take_of_length_le,
}
use servo_assistant.Coe.Mailbox.{mbx_size}
use servo_assistant.Coe.Layout.{mbx_length, word_at}
use servo_assistant.Coe.Tables.{OdList, max_od_list}
use servo_assistant.Coe.Dictionary.{words_from, index_count, is_too_many, trimmed, add_fragment}
use servo_assistant.Coe.Dictionary.Lists.{IsList, trimmed_lem, length-words_from}
use servo_assistant.Coe.Dictionary.Reads.{words-eq, put_words-eq, trimmed_le, index_count_le}

-- What is taken is what there is room for.
trimmed-min : (sp n : ℕ) → sp ≤ max_od_list → trimmed sp sp n ≡ min n (max_od_list - sp)
unfolding trimmed is_too_many
trimmed-min sp n h = ground arith

take-words_from :
    (m : ℕ) (r : List ℕ) (k n : ℕ) → take m (words_from r k n) ≡ words_from r k (min n m)
take-words_from zero r k n = let e : 0 ≡ min n 0 = omega arith in ap (words_from r k) e
take-words_from (suc m) r k zero = let e : 0 ≡ min 0 (suc m) = omega arith in ap (words_from r k) e
take-words_from (suc m) r k (suc n) =
    let e : suc (min n m) ≡ min (suc n) (suc m) = omega arith in
    ap (λ t. word_at r k ∷ t) (take-words_from m r (k + 2) n) ∙ ap (words_from r k) e

-- Words put behind a prefix make a longer one.
take-put :
    (sp n : ℕ) (ws index rest : List ℕ)
    → sp ≤ length index
    → length ws ≡ n
    → take (sp + n) (take sp index ++ (ws ++ rest)) ≡ take sp index ++ ws
take-put sp n ws index rest h e =
    let l : length (take sp index) ≡ sp = omega (arith, length-take sp index) in
    take-append_ge (sp + n) (take sp index) (ws ++ rest) (omega arith)
    ∙ ap (λ t. take sp index ++ t)
        (ap (λ k. take k (ws ++ rest)) (omega arith)
          ∙ take-append_le n ws rest (omega arith)
          ∙ take_of_length_le n ws (omega arith))

-- A fragment's indexes are cut where the list is full.
cut_words :
    (sp c : ℕ) (r : List ℕ) (k : ℕ) (index : List ℕ)
    → sp ≤ max_od_list
    → length index ≡ max_od_list
    → take sp index ++ words_from r k (trimmed sp sp c)
      ≡ take max_od_list (take sp index ++ words_from r k c)
cut_words sp c r k index h p =
    let l : length (take sp index) ≡ sp = omega (arith, length-take sp index) in
    sym (
      take-append_ge max_od_list (take sp index) (words_from r k c) (omega arith)
      ∙ ap (λ t. take sp index ++ t)
          (take-words_from (max_od_list - length (take sp index)) r k c
            ∙ ap (words_from r k) (ap (λ m. min c (max_od_list - m)) l ∙ sym (trimmed-min sp c h))))

-- A response whose length field is not shorter than the headers and not longer than the buffer adds
-- its indexes to the list, behind those that it has, and what does not fit 1024 places is cut off.
pub add_fragment_lem :
    (first : Bool) (slave sp : ℕ) (r : List ℕ) (l : OdList)
    → IsList slave sp l
    → length r ≡ mbx_size
    → 8 ≤ mbx_length r
    → mbx_length r ≤ 1480
    → (l' : OdList) × (add_fragment first sp r l ≡ some (l'.entries, l'))
      × (take l'.entries l'.index
          ≡ take max_od_list
              (take sp l.index ++ words_from r (if first then 14 else 12) (index_count first r)))
unfolding add_fragment
add_fragment_lem first slave sp r l h s a b =
    let c = index_count first r in
    let n = trimmed sp sp c in
    let at : ℕ = if first then 14 else 12 in
    let ws : List ℕ = words_from r at n in
    let w : length ws ≡ n = length-words_from r at n in
    let rest = drop (sp + length ws) l.index in
    let e : (sp + n) % 2 ^ 16 ≡ sp + n = omega (arith, trimmed_lem sp c h.fits, h.fits) in
    (
      record l { entries = (sp + n) % 2 ^ 16; index = take sp l.index ++ (ws ++ rest) },
      rw (
        add_fragment,
        h.counted,
        words-eq r at n (omega (arith, trimmed_le sp c h.fits, index_count_le first r a)),
        put_words-eq sp ws l.index (omega (arith, w, trimmed_lem sp c h.fits, h.places)),
        h.counted,
      ),
      rw e (
          take-put sp n ws l.index rest (omega (arith, h.fits, h.places)) w
          ∙ cut_words sp c r at l.index h.fits h.places),
    )
