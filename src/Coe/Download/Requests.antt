-- ===== src/Coe/Download/Requests.antt =====
-- What the requests of an SDO download say and carry.
use servo_assistant.Base.{
  ℕ, ◌+◌, ◌-◌, ◌*◌, ◌≤◌, ◌<◌, ◌≡◌, ◌∙◌, Bool, true, false, some, List, [], ◌∷◌, ◌++◌, length, take,
  drop, arith, length-take, lt→ltb, le→ltb, le→leb, take_of_length_le, take-append_le,
}
use native.Mathlib.Decide.{dec_lt}
use servo_assistant.Coe.Mailbox.{mbx_size}
use servo_assistant.Coe.Layout.{copy_from, request_header}
use servo_assistant.Coe.Upload.{segment_size}
use servo_assistant.Coe.Download.{with_data, segment_request}

pub take_whole : (n : ℕ) (xs ys : List ℕ) → n ≤ length xs → take n (take n xs ++ ys) ≡ take n xs
take_whole n xs ys h =
    take-append_le n (take n xs) ys (omega (arith, length-take n xs))
    ∙ take_of_length_le n (take n xs) (omega (arith, length-take n xs))

pub with_data-some :
    (before payload : List ℕ) (n : ℕ) (buf request : List ℕ)
    → with_data before payload n buf ≡ some request
    → (n ≤ length payload) × (request ≡ before ++ (take n payload ++ drop (length before + n) buf))
unfolding with_data
with_data-some before payload n buf request e = ground arith

-- The bytes of a segment's request say how many of them are data.
segment_size_padded :
    (cnt toggle n : ℕ) (tail : List ℕ)
    → n < 7
    → toggle ≤ 1
    → segment_size (request_header 10 cnt ++ ((1 + (7 - n) * 2 + toggle * 16) ∷ tail)) ≡ n
unfolding segment_size
segment_size_padded cnt toggle n tail b t = ground arith

segment_size_last :
    (cnt toggle n : ℕ) (tail : List ℕ)
    → 7 ≤ n
    → n ≤ 1500
    → toggle ≤ 1
    → segment_size (request_header (n + 3) cnt ++ ((1 + toggle * 16) ∷ tail)) ≡ n
unfolding segment_size
segment_size_last cnt toggle n tail a b t = ground arith

segment_size_more :
    (cnt toggle n : ℕ) (tail : List ℕ)
    → n ≤ 1500
    → toggle ≤ 1
    → segment_size (request_header (n + 3) cnt ++ ((0 + toggle * 16) ∷ tail)) ≡ n
unfolding segment_size
segment_size_more cnt toggle n tail b t = ground arith

-- A request whose bytes say the size of its data carries them.
carries :
    (size cnt cmd n : ℕ) (payload buf request : List ℕ)
    → segment_size (request_header size cnt ++ (cmd ∷ (take n payload ++ drop (9 + n) buf))) ≡ n
    → with_data (request_header size cnt ++ (cmd ∷ [])) payload n buf ≡ some request
    → copy_from request 9 (segment_size request) ≡ take n payload
carries size cnt cmd n payload buf request h e =
    let (b, q) = with_data-some (request_header size cnt ++ (cmd ∷ [])) payload n buf request e in
    rw (q, h) (take_whole n payload (drop (9 + n) buf) b)

pub segment_request-carries :
    (cnt toggle n : ℕ) (last : Bool) (payload buf request : List ℕ)
    → toggle ≤ 1
    → n ≤ 1500
    → segment_request cnt toggle n last payload buf ≡ some request
    → copy_from request 9 (segment_size request) ≡ take n payload
unfolding segment_request
segment_request-carries cnt toggle n false payload buf request t b e =
    carries (n + 3) cnt (0 + toggle * 16) n payload buf request
      (segment_size_more cnt toggle n _ b t) e
segment_request-carries cnt toggle n true payload buf request t b e = elim (dec_lt n 7) [
  | yes h ↦
      carries 10 cnt (1 + (7 - n) * 2 + toggle * 16) n payload buf request
        (segment_size_padded cnt toggle n _ h t) (rw (lt→ltb n 7 h) at e)
  | no h ↦
      carries (n + 3) cnt (1 + toggle * 16) n payload buf request
        (segment_size_last cnt toggle n _ (omega arith) b t) (rw (le→ltb n 7 (omega arith)) at e)
]

pub with_data-eq :
    (before payload : List ℕ) (n : ℕ) (buf : List ℕ)
    → n ≤ length payload
    → length before + n ≤ mbx_size
    → with_data before payload n buf
      ≡ some (before ++ (take n payload ++ drop (length before + n) buf))
unfolding with_data
with_data-eq before payload n buf h b =
    rw (le→leb n (length payload) h, le→leb (length before + n) mbx_size b)

pub segment_request-some :
    (cnt toggle n : ℕ) (last : Bool) (payload buf : List ℕ)
    → n ≤ length payload
    → n ≤ 1478
    → (request : List ℕ) × (segment_request cnt toggle n last payload buf ≡ some request)
unfolding segment_request
segment_request-some cnt toggle n last payload buf h b =
    (_, with_data-eq _ payload n buf h (omega arith))
