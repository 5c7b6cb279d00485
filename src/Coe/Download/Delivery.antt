-- ===== src/Coe/Download/Delivery.antt =====
-- An SDO download hands the slave its data, and ends.
use servo_assistant.Base.{
  ℕ, suc, ◌+◌, ◌-◌, ◌%◌, ◌≤◌, ◌<◌, ◌≡◌, inl, inr, sym, ap, ◌∙◌, ℤ, is_positive, Bool, not, true,
  Option, none, some, List, [], ◌∷◌, ◌++◌, length, take, drop, arith, length-drop, Bool-cases,
  Option-cases, append_assoc, append-nil, take_of_length_le, take_append_drop, leb, if◌then◌else◌,
  ◌&&◌,
}
use mathlib.Core.Path.{subst}
use servo_assistant.Coe.Mailbox.{Mailbox, mbx_size, next_count}
use servo_assistant.Coe.Layout.{clear_mbx}
use servo_assistant.Coe.Exchange.{exchange}
use servo_assistant.Coe.Upload.{access_sub}
use servo_assistant.Coe.Download.First.{
  delivered, expedited_request-delivers, large-delivers, first_size_lem,
}
use servo_assistant.Coe.Download.Segments.{LogsRequests, Tries, round-Tries, Sent, segments-Sent}
use servo_assistant.Coe.Download.{
  with_data, first_size, needs_segments, download_header, is_download_response, download_segments,
  acknowledged, write_small, write_large, sdo_write,
}

-- The mailbox of a slave that has one: it has room for the header of a request, and fits the buffer.
pub record HasMailbox {I : Type 0} (M : Mailbox I) (slave : ℕ) : Type 0 where
  pub low : (i : I) → 16 ≤ M.mbx_l slave i
  pub high : (i : I) → M.mbx_l slave i ≤ mbx_size

module _ {I : Type 0} (M : Mailbox I) (L : LogsRequests M) (slave index sub timeout : ℕ) where
  -- The same for a whole download.
  abbrev Delivered : List ℕ → I → Option (ℤ × I) → Type 0
  Delivered payload i none = ⊥
  Delivered payload i (some (wkc, i')) =
      is_positive wkc ≡ true
      → (L.failed i ≤ L.failed i')
        × (L.failed i' ≡ L.failed i
            → (sent : List (List ℕ)) × (L.log i' ≡ L.log i ++ sent) × (delivered sent ≡ payload))

  acknowledged-Delivered :
      (request_sub : ℕ) (payload : List ℕ) (i : I) (wkc : ℤ) (r : List ℕ) (j : I)
      (rest : Option (ℤ × I))
      → Delivered payload i rest
      → Delivered payload i (acknowledged M slave index sub timeout request_sub wkc r j rest)
  unfolding acknowledged
  acknowledged-Delivered request_sub payload i wkc r j rest h =
      elim (Bool-cases (is_positive wkc)) [
        | inl p ↦ elim (Bool-cases (is_download_response r index request_sub)) [
          | inl good ↦ rw (acknowledged, p, good) h
          | inr bad ↦ rw (acknowledged, p, bad) (λ q. ground arith)
        ]
        | inr n ↦ rw (acknowledged, n) (λ q. ground arith)
      ]

  whole-Delivered :
      (payload request : List ℕ) (wkc : ℤ) (i j : I)
      → Tries M L slave index sub timeout request i j
      → delivered (request ∷ []) ≡ payload
      → Delivered payload i (some (wkc, j))
  whole-Delivered payload request wkc i j l c = λ p. (l.later, λ e. (request ∷ [], l.placed e, c))

  rest-Delivered :
      (n : ℕ) (payload request : List ℕ) (i j : I) (result : Option (ℤ × I))
      → Tries M L slave index sub timeout request i j
      → delivered (request ∷ []) ≡ take n payload
      → Sent M L slave index sub timeout (drop n payload) j result
      → Delivered payload i result
  rest-Delivered n payload request i j none l c h = absurd h
  rest-Delivered n payload request i j (some (wkc, k)) l c h = λ p.
      let (later, rest) = h p in
      (
        omega (arith, l.later, later),
        λ e.
            let (sent, a, b) = rest (omega (arith, l.later, later, e)) in
            (
              request ∷ sent,
              a
                  ∙ ap (λ t. t ++ sent) (l.placed (omega (arith, l.later, later, e)))
                  ∙ append_assoc (L.log i) (request ∷ []) sent,
              rw (sym (append-nil _) ∙ c, b) (take_append_drop n payload),
            ),
      )

  small-Delivered :
      (payload : List ℕ) (i : I)
      → 0 < length payload
      → length payload ≤ 4
      → Delivered payload i (write_small M slave index sub timeout payload i)
  unfolding write_small
  small-Delivered payload i a b =
      let (request, q, c) =
        expedited_request-delivers (next_count M slave i).0 index sub payload a b in
      let (wkc, r, j) = exchange M slave request timeout (next_count M slave i).1 in
      rw (write_small, q)
        (acknowledged-Delivered sub payload i wkc r j _ (
          whole-Delivered payload request wkc i j
            (round-Tries M L slave index sub timeout request i) c))

  -- A first request that carries the first `n` bytes is followed by what is left.
  request-Delivered :
      (ca : Bool) (payload : List ℕ) (n : ℕ) (i : I) (request : List ℕ)
      → first_size (length payload) (M.mbx_l slave i) ≡ n
      → with_data
          (download_header
            ((10 + n) % 65536)
            (next_count M slave i).0
            (if ca then 0x31 else 0x21)
            index
            (access_sub ca sub)
            (length payload))
          payload
          n
          clear_mbx
        ≡ some request
      → (let (wkc, r, j) = exchange M slave request timeout (next_count M slave i).1 in
          Delivered payload i (
            if needs_segments (length payload) (M.mbx_l slave i)
            then download_segments M slave index sub timeout
                (suc (length payload))
                (M.mbx_l slave i - 9)
                0
                request
                (drop n payload)
                j
            else some (wkc, j)))
      → Delivered payload i (write_large M slave index sub timeout ca payload i)
  unfolding write_large
  request-Delivered ca payload n i request f q h =
      let (wkc, r, j) = exchange M slave request timeout (next_count M slave i).1 in
      rw (write_large, f, q, f) (acknowledged-Delivered (access_sub ca sub) payload i wkc r j _ h)

  large-Delivered :
      (ca : Bool) (payload : List ℕ) (i : I)
      → 16 ≤ M.mbx_l slave i
      → M.mbx_l slave i ≤ mbx_size
      → length payload < 65536
      → Delivered payload i (write_large M slave index sub timeout ca payload i)
  large-Delivered ca payload i a b s =
      let cnt = (next_count M slave i).0 in
      let m = M.mbx_l slave i in
      elim (first_size_lem (length payload) m a s b) [
        | inl (e, f, left) ↦
            (let (request, q, c) =
                large-delivers (m - 16) cnt index (access_sub ca sub) (length payload) ca payload
                  (omega arith) (omega arith) in
              let (wkc, r, j) = exchange M slave request timeout (next_count M slave i).1 in
              request-Delivered ca payload (m - 16) i request f q (
                rw e (
                  rest-Delivered (m - 16) payload request i j _
                    (round-Tries M L slave index sub timeout request i) c
                    (segments-Sent M L slave index sub timeout (suc (length payload)) (m - 9) 0
                      request (drop (m - 16) payload) j (omega arith) (omega arith) (omega arith)
                      (omega (arith, length-drop (m - 16) payload))
                      (omega (arith, length-drop (m - 16) payload))))))
        | inr (e, f, fits) ↦
            (let n = length payload in
              let (request, q, c) =
                large-delivers n cnt index (access_sub ca sub) n ca payload (omega arith)
                  (omega arith) in
              let (wkc, r, j) = exchange M slave request timeout (next_count M slave i).1 in
              request-Delivered ca payload n i request f q (
                rw e (
                  whole-Delivered payload request wkc i j
                    (round-Tries M L slave index sub timeout request i)
                    (c ∙ take_of_length_le n payload (omega arith)))))
      ]

  moved-Delivered :
      (payload : List ℕ) (i j : I)
      → L.log j ≡ L.log i
      → L.failed j ≡ L.failed i
      → (result : Option (ℤ × I)) → Delivered payload j result
      → Delivered payload i result
  moved-Delivered payload i j l f none h = h
  moved-Delivered payload i j l f (some (wkc, k)) h = λ p.
      let (later, rest) = h p in
      (
        omega (arith, later, f),
        λ e. let (sent, a, b) = rest (e ∙ sym f) in (sent, a ∙ ap (λ t. t ++ sent) l, b),
      )

  write-Delivered :
      HasMailbox M slave
      → (ca : Bool) (payload : List ℕ) (i : I) → 0 < length payload
      → length payload < 65536
      → Delivered payload i (sdo_write M slave index sub ca payload timeout i)
  unfolding sdo_write
  write-Delivered H ca payload i a b =
      let i1 = (M.mbxreceive slave clear_mbx 0 i).2 in
      let moved : (result : Option (ℤ × I))
          → Delivered payload i1 result
          → Delivered payload i result =
        moved-Delivered payload i i1 (L.receives slave clear_mbx 0 i)
          (L.receives_failed slave clear_mbx 0 i) in
      elim (Bool-cases (leb (length payload) 4 && not ca)) [
        | inl small ↦ rw (sdo_write, small) (moved _ (small-Delivered payload i1 a (ground arith)))
        | inr large ↦
            rw (sdo_write, large) (moved _ (large-Delivered ca payload i1 (H.low i1) (H.high i1) b))
      ]

-- A download of a non-empty parameter of less than 65536 bytes, to a slave whose mailbox has between
-- 16 and 1487 bytes, ends, and no copy on the way leaves the mailbox buffer or the parameter.
pub sdo_write_total :
    {I : Type 0} (M : Mailbox I) (L : LogsRequests M) (slave index sub : ℕ)
    → HasMailbox M slave
    → (ca : Bool) (payload : List ℕ) (timeout : ℕ) (i : I) → 0 < length payload
    → length payload < 65536
    → (result : ℤ × I) × (sdo_write M slave index sub ca payload timeout i ≡ some result)
sdo_write_total M L slave index sub H ca payload timeout i a b =
    elim (Option-cases (sdo_write M slave index sub ca payload timeout i)) [
      | inl e ↦ absurd (
          subst (Delivered M L slave index sub timeout payload i) e
            (write-Delivered M L slave index sub timeout H ca payload i a b))
      | inr (result, e) ↦ (result, e)
    ]

-- A download of a non-empty parameter of less than 65536 bytes, to a slave whose mailbox has between
-- 16 and 1487 bytes, that returns success, and of whose sends none failed, has placed requests in the
-- slave's mailbox whose data, as a slave reads it, is the parameter: all its bytes, in order, each
-- once.
pub sdo_write_delivers :
    {I : Type 0} (M : Mailbox I) (L : LogsRequests M) (slave index sub : ℕ)
    → HasMailbox M slave
    → (ca : Bool) (payload : List ℕ) (timeout : ℕ) (i i' : I) (wkc : ℤ) → 0 < length payload
    → length payload < 65536
    → sdo_write M slave index sub ca payload timeout i ≡ some (wkc, i')
    → is_positive wkc ≡ true
    → L.failed i' ≡ L.failed i
    → (sent : List (List ℕ)) × (L.log i' ≡ L.log i ++ sent) × (delivered sent ≡ payload)
sdo_write_delivers M L slave index sub H ca payload timeout i i' wkc a b e p f =
    let (later, data_sent) =
      subst (Delivered M L slave index sub timeout payload i) e
        (write-Delivered M L slave index sub timeout H ca payload i a b) p in
    data_sent f

-- A download of more than 4 bytes to a slave whose mailbox has less than 16 bytes, as one without a
-- mailbox has, faults: a copy leaves the mailbox buffer or the parameter.
pub sdo_write_overflow :
    {I : Type 0} (M : Mailbox I) (slave index sub : ℕ) (ca : Bool) (payload : List ℕ) (timeout : ℕ)
    (i : I)
    → ((j : I) → M.mbx_l slave j < 16)
    → 4 < length payload
    → sdo_write M slave index sub ca payload timeout i ≡ none
unfolding sdo_write write_large with_data first_size download_header
sdo_write_overflow M slave index sub ca payload timeout i h b =
    ground (arith, h (M.mbxreceive slave clear_mbx 0 i).2)
