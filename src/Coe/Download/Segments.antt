-- ===== src/Coe/Download/Segments.antt =====
-- The segments of an SDO download carry the data, and end.
use servo_assistant.Base.{
  ℕ, zero, suc, ◌-◌, ◌≤◌, ◌<◌, ◌≡◌, ◌⊎◌, inl, inr, sym, ap, Bool-cases, ◌∙◌, ℤ, pos, is_positive,
  Bool, not, true, false, Option, none, some, List, [], ◌∷◌, ◌++◌, length, take, drop, arith,
  length-drop, append_assoc, append-nil, take_of_length_le, take_append_drop, if◌then◌else◌, ◌&&◌,
}
use native.Mathlib.Decide.{dec_lt}
use servo_assistant.Coe.Mailbox.{Mailbox, next_count, timeout_txm}
use servo_assistant.Coe.Layout.{copy_from, clear_mbx}
use servo_assistant.Coe.Exchange.{exchange}
use servo_assistant.Coe.Upload.{unexpected, segment_size}
use servo_assistant.Coe.Download.Requests.{segment_request-carries, segment_request-some}
use servo_assistant.Coe.Download.{chunk, is_segment_response, segment_request, download_segments}

-- A log in the state holds the requests that were placed in a slave's mailbox, in order, and a number
-- counts the sends that failed, which place nothing; what else a transfer does leaves both alone.
pub record LogsRequests {I : Type 0} (M : Mailbox I) : Type 0 where
  pub log : I → List (List ℕ)
  pub failed : I → ℕ
  pub sends :
      (slave : ℕ) (request : List ℕ) (timeout : ℕ) (i : I)
      → (let (sent, j) = M.mbxsend slave request timeout i in
          if is_positive sent
          then (log j ≡ log i ++ (request ∷ [])) × (failed j ≡ failed i)
          else (log j ≡ log i) × (failed j ≡ suc (failed i)))
  pub receives :
      (slave : ℕ) (buf : List ℕ) (timeout : ℕ) (i : I)
      → log (M.mbxreceive slave buf timeout i).2 ≡ log i
  pub receives_failed :
      (slave : ℕ) (buf : List ℕ) (timeout : ℕ) (i : I)
      → failed (M.mbxreceive slave buf timeout i).2 ≡ failed i
  pub counts : (slave cnt : ℕ) (i : I) → log (M.set_mbx_cnt slave cnt i) ≡ log i
  pub counts_failed : (slave cnt : ℕ) (i : I) → failed (M.set_mbx_cnt slave cnt i) ≡ failed i

-- A slave takes from each segment the bytes that its size says.
abbrev pub segment_data : List (List ℕ) → List ℕ
segment_data [] = []
segment_data (r ∷ rs) = copy_from r 9 (segment_size r) ++ segment_data rs

-- A segment is all that is left, or as much as there is room for.
chunk_lem :
    (room size : ℕ)
    → size < 65536
    → ((chunk room size ≡ (size, true)) × (size ≤ room))
      ⊎ ((chunk room size ≡ (room, false)) × (room < size))
unfolding chunk
chunk_lem room size h = elim (dec_lt room size) [
  | yes l ↦ inr (ground arith, l)
  | no l ↦ inl (ground arith, omega arith)
]

module _ {I : Type 0} (M : Mailbox I) (L : LogsRequests M) (slave index sub timeout : ℕ) where
  -- From one state to another, a request was placed in the mailbox, or a send failed.
  pub record Tries (request : List ℕ) (i j : I) : Type 0 where
    pub later : L.failed i ≤ L.failed j
    pub placed : L.failed j ≡ L.failed i → L.log j ≡ L.log i ++ (request ∷ [])

  exchange-Tries :
      (request : List ℕ) (i : I) → Tries request i (exchange M slave request timeout i).2
  unfolding exchange
  exchange-Tries request i =
      let (wkc, j) = M.mbxsend slave request timeout_txm i in
      let log = L.receives slave clear_mbx timeout j in
      let failed = L.receives_failed slave clear_mbx timeout j in
      elim (Bool-cases (is_positive wkc)) [
        | inl p ↦
            (let (a, b) = rw p at (L.sends slave request timeout_txm i) in
              rw (exchange, p) (record { later = omega (arith, failed, b); placed = λ e. log ∙ a }))
        | inr n ↦
            (let (a, b) = rw n at (L.sends slave request timeout_txm i) in
              rw (exchange, n)
                (record { later = omega (arith, b); placed = λ e. absurd (omega (arith, b)) }))
      ]

  -- The result of a transfer of the bytes: it has one, and where it succeeds and no send failed, the
  -- requests that were placed in the mailbox hold the bytes.
  abbrev pub Sent : List ℕ → I → Option (ℤ × I) → Type 0
  Sent payload i none = ⊥
  Sent payload i (some (wkc, i')) =
      is_positive wkc ≡ true
      → (L.failed i ≤ L.failed i')
        × (L.failed i' ≡ L.failed i
            → (sent : List (List ℕ)) × (L.log i' ≡ L.log i ++ sent) × (segment_data sent ≡ payload))

  last-Sent :
      (payload request : List ℕ) (wkc : ℤ) (i i' : I)
      → Tries request i i'
      → copy_from request 9 (segment_size request) ≡ payload
      → Sent payload i (some (wkc, i'))
  last-Sent payload request wkc i i' l c =
      λ p. (l.later, λ e. (request ∷ [], l.placed e, append-nil _ ∙ c))

  more-Sent :
      (n : ℕ) (payload request : List ℕ) (i i' : I) (result : Option (ℤ × I))
      → Tries request i i'
      → copy_from request 9 (segment_size request) ≡ take n payload
      → Sent (drop n payload) i' result
      → Sent payload i result
  more-Sent n payload request i i' none l c h = absurd h
  more-Sent n payload request i i' (some (wkc, i'')) l c h = λ p.
      let (later, rest) = h p in
      (
        omega (arith, l.later, later),
        λ e.
            let (sent, a, b) = rest (omega (arith, l.later, later, e)) in
            (
              request ∷ sent,
              a
                  ∙ ap (λ t. t ++ sent) (l.placed (omega (arith, l.later, later, e)))
                  ∙ append_assoc (L.log i) (request ∷ []) sent,
              rw (c, b) (take_append_drop n payload),
            ),
      )

  -- A response that refuses the transfer is no success.
  refused-Sent :
      (payload : List ℕ) (i : I) (refused : Bool) (j : I) (result : Option (ℤ × I))
      → Sent payload i result
      → Sent payload i (if refused then some (pos 0, j) else result)
  refused-Sent payload i true j result h = λ p. ground arith
  refused-Sent payload i false j result h = h

  pub round-Tries :
      (request : List ℕ) (i : I)
      → Tries request i (exchange M slave request timeout (next_count M slave i).1).2
  unfolding next_count
  round-Tries request i =
      let cnt = (next_count M slave i).0 in
      let j = (next_count M slave i).1 in
      let k = exchange-Tries request j in
      let log : L.log j ≡ L.log i = L.counts slave cnt i in
      let failed : L.failed j ≡ L.failed i = L.counts_failed slave cnt i in
      record {
        later = omega (arith, k.later, failed);
        placed = λ e. k.placed (e ∙ sym failed) ∙ ap (λ t. t ++ (request ∷ [])) log;
      }

  -- A round goes on with what is left, or ends, unless its response refuses the transfer.
  round-Sent :
      (fuel room toggle n : ℕ) (last : Bool) (buf payload request : List ℕ) (i : I)
      → chunk room (length payload) ≡ (n, last)
      → segment_request (next_count M slave i).0 toggle n last payload buf ≡ some request
      → (let (wkc, r, j) = exchange M slave request timeout (next_count M slave i).1 in
          Sent payload i (
            if last
            then some (wkc, j)
            else download_segments M slave index sub timeout fuel room
                (1 - toggle)
                request
                (drop n payload)
                j))
      → Sent payload i
          (download_segments M slave index sub timeout (suc fuel) room toggle buf payload i)
  unfolding download_segments
  round-Sent fuel room toggle n last buf payload request i e q h =
      let (wkc, r, j) = exchange M slave request timeout (next_count M slave i).1 in
      rw (download_segments, e, q, e)
        (refused-Sent payload i (is_positive wkc && not (is_segment_response r))
          (unexpected M slave index sub r j) _ h)

  pub segments-Sent :
      (fuel room toggle : ℕ) (buf payload : List ℕ) (i : I)
      → 7 ≤ room
      → room ≤ 1478
      → toggle ≤ 1
      → length payload < 65536
      → length payload < fuel
      → Sent payload i (download_segments M slave index sub timeout fuel room toggle buf payload i)
  unfolding download_segments
  segments-Sent zero room toggle buf payload i a b t s f = absurd (omega arith)
  segments-Sent (suc fuel) room toggle buf payload i a b t s f =
      let cnt = (next_count M slave i).0 in
      elim (chunk_lem room (length payload) s) [
        | inl (e, fits) ↦
            (let n = length payload in
              let (request, q) =
                segment_request-some cnt toggle n true payload buf (omega arith) (omega arith) in
              let (wkc, r, j) = exchange M slave request timeout (next_count M slave i).1 in
              round-Sent fuel room toggle n true buf payload request i e q (
                last-Sent payload request wkc i j (round-Tries request i) (
                  segment_request-carries cnt toggle n true payload buf request t (omega arith) q
                  ∙ take_of_length_le n payload (omega arith))))
        | inr (e, left) ↦
            (let (request, q) =
                segment_request-some cnt toggle room false payload buf (omega arith)
                  (omega arith) in
              round-Sent fuel room toggle room false buf payload request i e q (
                more-Sent room payload request i _ _ (round-Tries request i)
                  (segment_request-carries cnt toggle room false payload buf request t (omega arith)
                    q)
                  (segments-Sent fuel room (1 - toggle) request (drop room payload) _ a b
                    (omega arith) (omega (arith, length-drop room payload))
                    (omega (arith, length-drop room payload)))))
      ]
