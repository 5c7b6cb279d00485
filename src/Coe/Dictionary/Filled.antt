-- ===== src/Coe/Dictionary/Filled.antt =====
-- What `ecx_readOE` leaves in the table of entries, by the slave's answers.
use servo_assistant.Base.{
  Option, zero, ◌∙◌, ℕ, suc, ◌+◌, ◌%◌, ◌/◌, ◌≡◌, refl, inl, inr, Bool, false, none, Bool-cases, sym,
  ap, ℤ, pos, is_positive, true, some, List, [], ◌∷◌, length, get_or, ltb, ◌<◌, lt→ltb, arith,
}
use servo_assistant.Coe.Tables.{OdList, OeList, max_od_list}
use servo_assistant.Coe.Mailbox.{Mailbox, next_count}
use servo_assistant.Coe.Layout.{clear_mbx}
use servo_assistant.Coe.Exchange.{exchange}
use servo_assistant.Coe.Dictionary.{
  info_request, is_info_response, put_entry, info_unexpected, timeout_rxm, read_oe_single,
  read_oe_from, read_oe,
}

-- The table when the slave has described each subindex from `sub` on, or has not.
unfoldable pub fill : ℕ → List (Option (List ℕ)) → OeList → OeList
fill sub [] oe = oe
fill sub (some r ∷ rs) oe = fill (sub + 1) rs (put_entry sub r oe)
fill sub (none ∷ rs) oe = fill (sub + 1) rs oe

-- The last subindex is described; `v` is the answer for none.
abbrev pub ends_described : Bool → List (Option (List ℕ)) → Bool
ends_described v [] = v
ends_described v (some r ∷ rs) = ends_described true rs
ends_described v (none ∷ rs) = ends_described false rs

module _ {I : Type 0} (M : Mailbox I) (item : ℕ) (od : OdList) where
  -- The slave's answer to the question for a subindex.
  unfoldable pub asked : ℕ → I → ℤ × List ℕ × I
  asked sub i =
      let index = get_or od.index item 0 in
      let (cnt, i2) = next_count M od.slave (M.mbxreceive od.slave clear_mbx 0 i).2 in
      exchange M od.slave (info_request 10 cnt 5 (index % 256 ∷ index / 256 ∷ sub ∷ 7 ∷ []))
        timeout_rxm i2

  -- From the state `i` and the work counter `wkc` on, the slave answers the questions for the
  -- subindexes from `sub` on: each is described by a response of `rs`, or it is not, because no
  -- response comes or another one does.
  pub data Answers : ℕ → ℤ → List (Option (List ℕ)) → I → ℤ → I → Type 0 where
    done : {sub : ℕ} {wkc : ℤ} {i : I} → Answers sub wkc [] i wkc i
    described :
        {sub : ℕ} {wkc wkc1 last : ℤ} {r : List ℕ} {rs : List (Option (List ℕ))} {i i1 j : I}
        → asked sub i ≡ (wkc1, r, i1)
        → is_positive wkc1 ≡ true
        → is_info_response r 6 ≡ true
        → Answers (sub + 1) wkc1 rs i1 last j
        → Answers sub wkc (some r ∷ rs) i last j
    silent :
        {sub : ℕ} {wkc wkc1 last : ℤ} {r : List ℕ} {rs : List (Option (List ℕ))} {i i1 j : I}
        → asked sub i ≡ (wkc1, r, i1)
        → is_positive wkc1 ≡ false
        → Answers (sub + 1) wkc1 rs i1 last j
        → Answers sub wkc (none ∷ rs) i last j
    refused :
        {sub : ℕ} {wkc wkc1 last : ℤ} {r : List ℕ} {rs : List (Option (List ℕ))} {i i1 j : I}
        → asked sub i ≡ (wkc1, r, i1)
        → is_positive wkc1 ≡ true
        → is_info_response r 6 ≡ false
        → Answers
            (sub + 1)
            (pos 0)
            rs
            (info_unexpected M od.slave (get_or od.index item 0) sub r i1)
            last
            j
        → Answers sub wkc (none ∷ rs) i last j

  -- Whatever the slave does is one of these.
  answers_exist :
      (k sub : ℕ) (wkc : ℤ) (i : I)
      → (rs : List (Option (List ℕ))) × (last : ℤ) × (j : I) × Answers sub wkc rs i last j
        × (length rs ≡ k)
  answers_exist zero sub wkc i = ([], wkc, i, done, refl)
  answers_exist (suc k) sub wkc i =
      let (wkc1, r, i1) = asked sub i in
      elim (Bool-cases (is_positive wkc1)) [
        | inr p ↦
            (let (rs, last, j, a, n) = answers_exist k (sub + 1) wkc1 i1 in
              (none ∷ rs, last, j, silent refl p a, ap suc n))
        | inl p ↦ elim (Bool-cases (is_info_response r 6)) [
          | inr q ↦
              (let (rs, last, j, a, n) =
                  answers_exist k (sub + 1) (pos 0)
                    (info_unexpected M od.slave (get_or od.index item 0) sub r i1) in
                (none ∷ rs, last, j, refused refl p q a, ap suc n))
          | inl q ↦
              (let (rs, last, j, a, n) = answers_exist k (sub + 1) wkc1 i1 in
                (some r ∷ rs, last, j, described refl p q a, ap suc n))
        ]
      ]

  read_oe_single-described :
      (sub : ℕ) (oe : OeList) (i : I) {wkc : ℤ} {r : List ℕ} {i1 : I}
      → asked sub i ≡ (wkc, r, i1)
      → is_positive wkc ≡ true
      → is_info_response r 6 ≡ true
      → read_oe_single M item sub od oe i ≡ (wkc, put_entry sub r oe, i1)
  unfolding read_oe_single asked
  read_oe_single-described sub oe i {wkc} {r} e p k = ground arith

  read_oe_single-silent :
      (sub : ℕ) (oe : OeList) (i : I) {wkc : ℤ} {r : List ℕ} {i1 : I}
      → asked sub i ≡ (wkc, r, i1)
      → is_positive wkc ≡ false
      → read_oe_single M item sub od oe i ≡ (wkc, oe, i1)
  unfolding read_oe_single asked
  read_oe_single-silent sub oe i {wkc} {r} e p = ground arith

  read_oe_single-refused :
      (sub : ℕ) (oe : OeList) (i : I) {wkc : ℤ} {r : List ℕ} {i1 : I}
      → asked sub i ≡ (wkc, r, i1)
      → is_positive wkc ≡ true
      → is_info_response r 6 ≡ false
      → read_oe_single M item sub od oe i
        ≡ (pos 0, oe, info_unexpected M od.slave (get_or od.index item 0) sub r i1)
  unfolding read_oe_single asked
  read_oe_single-refused sub oe i {wkc} {r} e p k = ground arith

  read_oe_from-fill :
      (rs : List (Option (List ℕ))) (sub : ℕ) (wkc : ℤ) (oe : OeList) (i : I) {last : ℤ} {j : I}
      → Answers sub wkc rs i last j
      → read_oe_from M (length rs) item sub od wkc oe i ≡ (last, fill sub rs oe, j)
  unfolding read_oe_from fill
  read_oe_from-fill [] sub wkc oe i done = refl
  read_oe_from-fill (some r ∷ rs) sub wkc oe i (described {wkc1 = wkc1} {i1 = i1} e p k rest) =
      rw (read_oe_from, read_oe_single-described sub oe i e p k)
        (read_oe_from-fill rs (sub + 1) wkc1 (put_entry sub r oe) i1 rest)
  read_oe_from-fill (none ∷ rs) sub wkc oe i (silent {wkc1 = wkc1} {i1 = i1} e p rest) =
      rw (read_oe_from, read_oe_single-silent sub oe i e p)
        (read_oe_from-fill rs (sub + 1) wkc1 oe i1 rest)
  read_oe_from-fill (none ∷ rs) sub wkc oe i (refused {r = r} {i1 = i1} e p k rest) =
      rw (read_oe_from, read_oe_single-refused sub oe i e p k)
        (read_oe_from-fill rs (sub + 1) (pos 0) oe
          (info_unexpected M od.slave (get_or od.index item 0) sub r i1) rest)

  -- The last work counter is positive exactly if the last subindex was described.
  pub Answers-last :
      (rs : List (Option (List ℕ))) (sub : ℕ) (wkc : ℤ) (i : I) {last : ℤ} {j : I}
      → Answers sub wkc rs i last j
      → is_positive last ≡ ends_described (is_positive wkc) rs
  Answers-last [] sub wkc i done = refl
  Answers-last (some r ∷ rs) sub wkc i (described {wkc1 = wkc1} {i1 = i1} e p k rest) =
      Answers-last rs (sub + 1) wkc1 i1 rest ∙ ap (λ v. ends_described v rs) p
  Answers-last (none ∷ rs) sub wkc i (silent {wkc1 = wkc1} {i1 = i1} e p rest) =
      Answers-last rs (sub + 1) wkc1 i1 rest ∙ ap (λ v. ends_described v rs) p
  Answers-last (none ∷ rs) sub wkc i (refused {r = r} {i1 = i1} e p k rest) =
      Answers-last rs (sub + 1) (pos 0)
        (info_unexpected M od.slave (get_or od.index item 0) sub r i1) rest

  -- The table is filled by the slave's answers about each of the subindexes of an object.
  pub read_oe-fill :
      (rs : List (Option (List ℕ))) (oe : OeList) (i : I) {last : ℤ} {j : I}
      → item < 1024
      → length rs ≡ suc (get_or od.max_sub item 0)
      → Answers 0 (pos 0) rs i last j
      → read_oe M item od oe i ≡ some (last, fill 0 rs (record oe { entries = 0 }), j)
  unfolding read_oe
  read_oe-fill rs oe i b n d =
      let inside : ltb item max_od_list ≡ true = lt→ltb _ _ b in
      rw (read_oe, inside, sym n)
        (ap some (read_oe_from-fill rs 0 (pos 0) (record oe { entries = 0 }) i d))
