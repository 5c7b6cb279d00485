-- ===== src/Coe/Upload/Bounds.antt =====
-- An SDO upload ends, and writes inside the caller's buffer.
use servo_assistant.Base.{
  ℕ, zero, suc, ◌+◌, ◌-◌, ◌*◌, ◌≤◌, ◌<◌, ◌≡◌, inl, inr, refl, ℤ, is_positive, Bool, true, Option,
  none, some, List, length, arith, length-append, length-take, length-drop, Bool-cases, drop,
  lt→ltb, le→ltb, if◌then◌else◌,
}
use native.Mathlib.Decide.{dec_lt}
use servo_assistant.Coe.Mailbox.{Mailbox, KeepsSize, mbx_size, next_count}
use servo_assistant.Coe.Layout.{copy_from, mbx_length, upload_request, first_long}
use servo_assistant.Coe.Exchange.{length-clear_mbx, length-exchange}
use servo_assistant.Coe.Upload.{
  Upload, final, partial, judge, grown, poll, segment_size, is_good_segment, fits, segments,
  respond, sdo_read, is_expedited, expedited_size, is_admissible, is_upload_response, begun,
  checked, first_response, access_sub,
}

length-copy_from : (r : List ℕ) (k n : ℕ) → k + n ≤ length r → length (copy_from r k n) ≡ n
length-copy_from r k n h = omega (arith, length-take n (drop k r), length-drop k r)

-- At most `total` bytes are written, and `*psize` counts them.
pub record IsFilled {I : Type 0} (total : ℕ) (u : Upload I) : Type 0 where
  pub within : u.size ≤ total
  pub counted : length u.bytes ≡ u.size

abbrev Ends : {I : Type 0} → ℕ → Option (Upload I) → Type 0
Ends total none = ⊥
Ends total (some u) = IsFilled total u

-- What a response says of the size of the object.
abbrev pub announced : List ℕ → ℕ
announced r = if is_expedited r then expedited_size r else first_long r

-- What a call may do to a buffer of `capacity` bytes, however it ends; and a call that succeeds has
-- written as many bytes as were announced.
pub record IsSound {I : Type 0} (capacity size : ℕ) (u : Upload I) : Type 0 where
  pub room : u.size ≤ capacity
  pub inside : length u.bytes ≤ u.size
  pub complete : is_positive u.wkc ≡ true → (u.size ≡ size) × (length u.bytes ≡ u.size)

abbrev Answers : {I : Type 0} → ℕ → ℕ → Option (Upload I) → Type 0
Answers capacity size none = ⊥
Answers capacity size (some u) = IsSound capacity size u

-- A segment that is taken lies in the buffer, and one that others follow has data.
judge_final :
    (r : List ℕ) (capacity total toggle size : ℕ)
    → judge r capacity total toggle size ≡ final
    → (segment_size r ≤ 1477) × (segment_size r ≤ total - size)
unfolding judge is_good_segment fits segment_size
judge_final r capacity total toggle size e = ground arith

judge_partial :
    (r : List ℕ) (capacity total toggle size : ℕ)
    → judge r capacity total toggle size ≡ partial
    → (segment_size r ≤ 1477) × (segment_size r ≤ total - size) × (0 < segment_size r)
unfolding judge is_good_segment fits segment_size
judge_partial r capacity total toggle size e = ground arith

size-grown :
    {I : Type 0} (u : Upload I) (wkc : ℤ) (r : List ℕ) (i : I)
    → (grown u wkc r i).size ≡ u.size + segment_size r
unfolding grown
size-grown u wkc r i = refl

grown-IsFilled :
    {I : Type 0} (u : Upload I) (wkc : ℤ) (r : List ℕ) (i : I) (total : ℕ)
    → IsFilled total u
    → length r ≡ mbx_size
    → segment_size r ≤ 1477
    → segment_size r ≤ total - u.size
    → IsFilled total (grown u wkc r i)
unfolding grown
grown-IsFilled u wkc r i total h l a b = omega (
  arith,
  length-append u.bytes (copy_from r 9 (segment_size r)),
  length-copy_from r 9 (segment_size r) (omega arith),
)

length-first_response :
    {I : Type 0} (M : Mailbox I) (K : KeepsSize M) (slave index sub : ℕ) (ca : Bool) (timeout : ℕ)
    (i : I)
    → length (first_response M slave index sub ca timeout i).1 ≡ mbx_size
unfolding first_response
length-first_response M K slave index sub ca timeout i = length-exchange M K slave _ timeout _

module _ {I : Type 0} (M : Mailbox I) (K : KeepsSize M) (slave index sub : ℕ) where
  length-poll :
      (timeout timer toggle : ℕ) (i : I)
      → length (poll M slave index sub timeout timer toggle i).1 ≡ mbx_size
  unfolding poll
  length-poll timeout timer toggle i =
      let (expired, i0) = M.timer_is_expired timer i in
      let (cnt, i1) = next_count M slave i0 in
      ground (
        arith,
        length-clear_mbx,
        length-exchange M K slave (upload_request cnt (0x60 + toggle * 16) index sub) timeout i1,
      )

  segments-Ends :
      (fuel capacity total timeout timer toggle : ℕ) (u : Upload I)
      → total < fuel + u.size
      → IsFilled total u
      → Ends total (segments M slave index sub fuel capacity total timeout timer toggle u)
  unfolding segments
  segments-Ends zero capacity total timeout timer toggle u f h = absurd (omega arith)
  segments-Ends (suc fuel) capacity total timeout timer toggle u f h =
      let (wkc, r, i) = poll M slave index sub timeout timer toggle u.io in
      let l : length r ≡ mbx_size = length-poll timeout timer toggle u.io in
      ground (
        arith,
        judge_final r capacity total toggle u.size,
        judge_partial r capacity total toggle u.size,
        grown-IsFilled u wkc r i total h l,
        size-grown u wkc r i,
        segments-Ends fuel capacity total timeout timer (1 - toggle) (grown u wkc r i),
      )

  begun-IsFilled :
      (wkc : ℤ) (r : List ℕ) (i : I) (total : ℕ)
      → length r ≡ mbx_size
      → is_upload_response r index sub ≡ true
      → mbx_length r - 10 < total
      → IsFilled total (begun wkc r i)
  unfolding is_upload_response begun
  begun-IsFilled wkc r i total l a lt = ground (arith, length-copy_from r 16 (mbx_length r - 10))

  begun_size : (wkc : ℤ) (r : List ℕ) (i : I) → (begun wkc r i).size ≡ mbx_length r - 10
  unfolding begun
  begun_size wkc r i = refl

  response_room : (r : List ℕ) → is_upload_response r index sub ≡ true → mbx_length r ≤ 1480
  unfolding is_upload_response
  response_room r a = ground arith

  segmented-Answers :
      (capacity timeout timer : ℕ) (wkc : ℤ) (r : List ℕ) (i : I) (total : ℕ)
      → length r ≡ mbx_size
      → is_upload_response r index sub ≡ true
      → mbx_length r - 10 < total
      → total ≤ capacity
      → Answers capacity total
          (elim (segments M slave index sub
            (suc total)
            capacity
            total
            timeout
            timer
            0
            (begun wkc r i)) [ none ↦ none | some u ↦ some (checked total u) ])
  segmented-Answers capacity timeout timer wkc r i total l a lt le = ground (
    arith,
    segments-Ends (suc total) capacity total timeout timer 0 (begun wkc r i) (omega arith)
        (begun-IsFilled wkc r i total l a lt),
  )

  respond-Answers :
      (capacity timeout timer : ℕ) (wkc : ℤ) (r : List ℕ) (i : I)
      → length r ≡ mbx_size
      → Answers capacity (announced r) (respond M slave index sub capacity timeout timer wkc r i)
  unfolding respond
  respond-Answers capacity timeout timer wkc r i l =
      elim (Bool-cases (is_upload_response r index sub)) [
        | inr other ↦ rw other (ground arith)
        | inl a ↦ elim (Bool-cases (is_expedited r)) [
          | inl x ↦ rw (a, x) (ground (arith, length-copy_from r 12 (expedited_size r)))
          | inr x ↦ elim (Bool-cases (is_admissible capacity (first_long r))) [
            | inr over ↦ rw (a, x, over) (ground arith)
            | inl room ↦ elim (dec_lt (mbx_length r - 10) (first_long r)) [
              | yes lt ↦
                  rw (a, x, room, lt→ltb (mbx_length r - 10) (first_long r) lt)
                    (segmented-Answers capacity timeout timer wkc r i (first_long r) l a lt
                      (ground arith))
              | no ge ↦
                  rw (a, x, room, le→ltb (mbx_length r - 10) (first_long r) (omega arith))
                    (ground (arith, response_room r a, length-copy_from r 16 (first_long r)))
            ]
          ]
        ]
      ]

-- The response that a call gets to its first request.
abbrev pub reply : {I : Type 0} → Mailbox I → ℕ → ℕ → ℕ → Bool → ℕ → I → List ℕ
reply M slave index subindex ca timeout i =
    (first_response M slave index (access_sub ca subindex) ca timeout
      (M.timer_start 2_000_000 i).1).1

sdo_read-Answers :
    {I : Type 0} (M : Mailbox I)
    → KeepsSize M
    → (slave index subindex : ℕ) (ca : Bool) (capacity timeout : ℕ) (i : I)
    → Answers capacity
        (announced (reply M slave index subindex ca timeout i))
        (sdo_read M slave index subindex ca capacity timeout i)
unfolding sdo_read
sdo_read-Answers M K slave index subindex ca capacity timeout i =
    let (timer, i0) = M.timer_start 2_000_000 i in
    let sub = access_sub ca subindex in
    let (wkc, r, i1) = first_response M slave index sub ca timeout i0 in
    elim (Bool-cases (is_positive wkc)) [
      | inl good ↦ rw good (
          respond-Answers M K slave index sub capacity timeout timer wkc r i1
            (length-first_response M K slave index sub ca timeout i0))
      | inr bad ↦ rw bad (ground arith)
    ]

answered :
    {I : Type 0} {capacity size : ℕ} (o : Option (Upload I))
    → Answers capacity size o
    → (u : Upload I) × (o ≡ some u) × IsSound capacity size u
answered none h = absurd h
answered (some u) h = (u, refl, h)

-- For a mailbox that keeps the size of its buffers: a call always ends, and however it ends, it has
-- written no more bytes than the caller's buffer holds, and `*psize` is no more than that.
pub sdo_read_total :
    {I : Type 0} (M : Mailbox I)
    → KeepsSize M
    → (slave index subindex : ℕ) (ca : Bool) (capacity timeout : ℕ) (i : I)
    → (u : Upload I) × (sdo_read M slave index subindex ca capacity timeout i ≡ some u)
      × (u.size ≤ capacity)
      × (length u.bytes ≤ capacity)
sdo_read_total M K slave index subindex ca capacity timeout i =
    let (u, e, h) =
      answered (sdo_read M slave index subindex ca capacity timeout i)
        (sdo_read-Answers M K slave index subindex ca capacity timeout i) in
    (u, e, h.room, omega arith)

-- A call that succeeds has written exactly `*psize` bytes, as many as the response to its first
-- request announced; a transfer in segments that stops short does not succeed.
pub sdo_read_complete :
    {I : Type 0} (M : Mailbox I)
    → KeepsSize M
    → (slave index subindex : ℕ) (ca : Bool) (capacity timeout : ℕ) (i : I) (u : Upload I)
    → sdo_read M slave index subindex ca capacity timeout i ≡ some u
    → is_positive u.wkc ≡ true
    → (length u.bytes ≡ u.size) × (u.size ≡ announced (reply M slave index subindex ca timeout i))
sdo_read_complete M K slave index subindex ca capacity timeout i u e good =
    let h : IsSound capacity (announced (reply M slave index subindex ca timeout i)) u =
      rw e at (sdo_read-Answers M K slave index subindex ca capacity timeout i) in
    ((h.complete good).1, (h.complete good).0)
