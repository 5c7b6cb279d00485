-- ===== src/Coe/Dictionary/Lists.antt =====
-- The list of objects that is read from a slave stays inside its arrays.
use servo_assistant.Base.{
  ℕ, zero, suc, ◌+◌, ◌%◌, ◌≤◌, ◌≡◌, refl, ap, inl, inr, ◌∙◌, ℤ, is_positive, Bool, true, false,
  Option, none, some, List, [], ◌∷◌, ◌++◌, ◌&&◌, ltb, leb, length, take, drop, arith, length-append,
  length-take, length-drop, Bool-cases, Option-cases, if◌then◌else◌,
}
use mathlib.Core.Path.{subst}
use servo_assistant.Coe.Mailbox.{Mailbox, next_count, sdoinfo_error_report, timeout_txm}
use servo_assistant.Coe.Layout.{clear_mbx}
use servo_assistant.Coe.Tables.{OdList, max_od_list}
use servo_assistant.Coe.Dictionary.{
  words_from, words, index_count, is_too_many, trimmed, put_words, add_fragment, od_rounds,
  read_od_list, is_info_response, info_request, fragments, timeout_rxm,
}

-- A list under construction: `sp` is the number of entries, which fit the array.
pub record IsList (slave sp : ℕ) (l : OdList) : Type 0 where
  pub owner : l.slave ≡ slave
  pub counted : l.entries ≡ sp
  pub fits : sp ≤ max_od_list
  pub places : length l.index ≡ max_od_list

-- What is taken of a response fits.
pub trimmed_lem : (sp n : ℕ) → sp ≤ max_od_list → sp + trimmed sp sp n ≤ max_od_list
unfolding trimmed is_too_many
trimmed_lem sp n h = ground arith

pub length-words_from : (r : List ℕ) (k n : ℕ) → length (words_from r k n) ≡ n
length-words_from r k zero = refl
length-words_from r k (suc n) = ap suc (length-words_from r (k + 2) n)

words-some : (r : List ℕ) (k n : ℕ) (ws : List ℕ) → words r k n ≡ some ws → ws ≡ words_from r k n
unfolding words
words-some r k n ws e = ground arith

put_words-some :
    (sp : ℕ) (ws index index' : List ℕ)
    → put_words sp ws index ≡ some index'
    → (sp + length ws ≤ length index)
      × (index' ≡ take sp index ++ (ws ++ drop (sp + length ws) index))
unfolding put_words
put_words-some sp ws index index' e = ground arith

length-put_words :
    (sp : ℕ) (ws index index' : List ℕ)
    → put_words sp ws index ≡ some index'
    → length index' ≡ length index
length-put_words sp ws index index' e =
    let (b, q) = put_words-some sp ws index index' e in
    ap length q
    ∙ omega (
      arith,
      length-append (take sp index) (ws ++ drop (sp + length ws) index),
      length-append ws (drop (sp + length ws) index),
      length-take sp index,
      length-drop (sp + length ws) index,
    )

abbrev Adds : ℕ → ℕ → Option (ℕ × OdList) → Type 0
Adds slave sp none = Unit
Adds slave sp (some (sp', l')) = IsList slave sp' l'

add_fragment-Adds :
    (first : Bool) (slave sp : ℕ) (r : List ℕ) (l : OdList)
    → IsList slave sp l
    → Adds slave sp (add_fragment first sp r l)
unfolding add_fragment
add_fragment-Adds first slave sp r l h =
    let n = trimmed sp l.entries (index_count first r) in
    elim (Option-cases (words r (if first then 14 else 12) n)) [
      | inl e ↦ rw (add_fragment, e) tt
      | inr (ws, e) ↦ elim (Option-cases (put_words sp ws l.index)) [
        | inl q ↦ rw (add_fragment, e, q) tt
        | inr (index, q) ↦
            rw (add_fragment, e, q)
              (record {
                owner = h.owner;
                counted = ap (λ k. (k + n) % 65536) h.counted;
                fits = omega (
                  arith,
                  trimmed_lem sp (index_count first r) h.fits,
                  ap (λ k. trimmed sp k (index_count first r)) h.counted,
                );
                places = length-put_words sp ws l.index index q ∙ h.places;
              })
      ]
    ]

-- A call's result: a list of the slave with at most 1024 entries, in an array of 1024; or a fault,
-- which has the consequence `P`.
abbrev pub Lists : {I : Type 0} → Type 0 → ℕ → Option (ℤ × OdList × I) → Type 0
Lists P slave none = P
Lists P slave (some (wkc, l, i)) = IsList slave l.entries l

counted-IsList : (slave sp : ℕ) (l : OdList) → IsList slave sp l → IsList slave l.entries l
counted-IsList slave sp l h = record {
  owner = h.owner;
  counted = refl;
  fits = omega (arith, h.counted, h.fits);
  places = h.places;
}

continue-Lists :
    {I : Type 0} (P : Type 0) (slave : ℕ) (a b : Bool) (x y : Option (ℤ × OdList × I))
    → (a ≡ true → Lists P slave x)
    → Lists P slave y
    → Lists P slave (if a && b then x else y)
continue-Lists P slave true true x y f g = f refl
continue-Lists P slave true false x y f g = g
continue-Lists P slave false b x y f g = g

module _ {I : Type 0} (M : Mailbox I) (slave : ℕ) (P : Type 0)
    (faults : (first : Bool) (sp : ℕ) (l : OdList) (i : I)
      → IsList slave sp l
      → is_positive (M.mbxreceive slave clear_mbx timeout_rxm i).0 ≡ true
      → add_fragment first sp (M.mbxreceive slave clear_mbx timeout_rxm i).1 l ≡ none
      → P) where
  od_rounds-Lists :
      (fuel x sp : ℕ) (first : Bool) (l : OdList) (i : I)
      → x ≤ 128
      → x + fuel ≡ 129
      → IsList slave sp l
      → Lists P slave (od_rounds M fuel slave x sp first l i)
  unfolding od_rounds
  od_rounds-Lists zero x sp first l i a b h = absurd (omega arith)
  od_rounds-Lists (suc fuel) x sp first l i a b h =
      let (wkc, r, i1) = M.mbxreceive slave clear_mbx timeout_rxm i in
      let i2 : I =
        if is_too_many sp (index_count first r)
        then sdoinfo_error_report M slave 0 0 0xf00_0000 i1
        else i1 in
      elim (Bool-cases (is_positive wkc)) [
        | inr e ↦ rw (od_rounds, e) (counted-IsList slave sp l h)
        | inl e ↦ elim (Bool-cases (is_info_response r 2)) [
          | inr f ↦ rw (od_rounds, e, f) (counted-IsList slave sp l h)
          | inl f ↦ elim (Option-cases (add_fragment first sp r l)) [
            | inl q ↦ rw (od_rounds, e, f, q) (faults first sp l i h e q)
            | inr ((sp1, l1), q) ↦
                (let k : IsList slave sp1 l1 =
                    subst (Adds slave sp) q (add_fragment-Adds first slave sp r l h) in
                  rw (od_rounds, e, f, q)
                    (continue-Lists P slave (leb (x + 1) 128) (ltb 0 (fragments r)) _ _
                      (λ c.
                        od_rounds-Lists fuel (x + 1) sp1 false l1 i2 (ground arith) (omega arith) k)
                      (counted-IsList slave sp1 l1 k)))
          ]
        ]
      ]

  pub read_od_list-Lists :
      (l : OdList) (i : I) → length l.index ≡ max_od_list → Lists P slave (read_od_list M slave l i)
  unfolding read_od_list
  read_od_list-Lists l i h =
      let l0 : OdList = record l { slave = slave; entries = 0 } in
      let k : IsList slave 0 l0 = record {
        owner = refl;
        counted = refl;
        fits = omega arith;
        places = h;
      } in
      let i1 = (M.mbxreceive slave clear_mbx 0 i).2 in
      let (cnt, i2) = next_count M slave i1 in
      let (wkc, i3) = M.mbxsend slave (info_request 8 cnt 1 (1 ∷ 0 ∷ [])) timeout_txm i2 in
      elim (Bool-cases (is_positive wkc)) [
        | inl e ↦
            rw (read_od_list, e) (od_rounds-Lists 129 0 0 true l0 i3 (omega arith) (omega arith) k)
        | inr e ↦ rw (read_od_list, e) k
      ]

-- Where the reading of a list returns, the list has at most 1024 entries, all of them inside its
-- array, which keeps its size, and it carries the slave's number.
pub read_od_list_inside :
    {I : Type 0} (M : Mailbox I) (slave : ℕ) (l l' : OdList) (i i' : I) (wkc : ℤ)
    → length l.index ≡ max_od_list
    → read_od_list M slave l i ≡ some (wkc, l', i')
    → (l'.slave ≡ slave) × (l'.entries ≤ max_od_list) × (length l'.index ≡ max_od_list)
read_od_list_inside M slave l l' i i' wkc h e =
    let k : IsList slave l'.entries l' =
      subst (Lists Unit slave) e
        (read_od_list-Lists M slave Unit (λ first sp l i a b c. tt) l i h) in
    (k.owner, k.fits, k.places)
