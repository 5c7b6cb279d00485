-- ===== src/Coe/Upload/Delivery.antt =====
-- An upload from a slave that follows the protocol delivers the object.
use servo_assistant.Base.{
  ℕ, zero, suc, ◌+◌, ◌-◌, ◌/◌, ◌%◌, ◌^◌, ◌≤◌, ◌<◌, ◌≡◌, ◌∙◌, ◌⊎◌, inl, inr, refl, sym, ap, ℤ,
  is_positive, Bool, true, false, some, List, ◌++◌, length, arith, length-append, append_assoc,
  if◌then◌else◌, ◌==◌, ◌&&◌, lt→ltb, le→ltb, le→leb, eq→==,
}
use servo_assistant.Coe.Mailbox.{Mailbox}
use servo_assistant.Coe.Layout.{mbx_length, command, copy_from, is_sdo_response}
use servo_assistant.Coe.Upload.{
  Upload, final, partial, judge, grown, segment_size, is_good_segment, fits, segments, respond,
  sdo_read, is_upload_response, begun, is_last, first_response, access_sub, is_expedited,
  is_admissible,
}
use servo_assistant.Coe.Upload.Served.{
  IsSdoResponse, IsUploadResponse, IsSegment, Served, closing, more, Delivers, expedited, whole,
  segmented,
}

segment_size-IsSegment :
    {toggle last : ℕ} {d r : List ℕ}
    → toggle < 2
    → last < 2
    → IsSegment toggle last d r
    → segment_size r ≡ length d
unfolding segment_size
segment_size-IsSegment t l s = elim s.sized [
  | inl (a, b) ↦ ground (arith, s.command_byte)
  | inr (a, b, c) ↦ ground (arith, s.command_byte)
]

sdo-IsSdoResponse : (r : List ℕ) → IsSdoResponse r → is_sdo_response r ≡ true
sdo-IsSdoResponse r s = rw (s.protocol, s.service)

is_good_segment-IsSegment :
    {toggle last : ℕ} {d r : List ℕ}
    → toggle < 2
    → last < 2
    → IsSegment toggle last d r
    → is_good_segment r toggle ≡ true
unfolding is_good_segment
is_good_segment-IsSegment t l s = elim s.sized [
  | inl (a, b) ↦ ground (arith, s.command_byte, s.room)
  | inr (a, b, c) ↦ ground (arith, s.command_byte, s.room)
]

fits-true :
    (r : List ℕ) (capacity total size : ℕ)
    → segment_size r ≤ capacity - size
    → segment_size r ≤ total - size
    → (0 < segment_size r) ⊎ (is_last r ≡ true)
    → fits r capacity total size ≡ true
unfolding fits
fits-true r capacity total size a b p = elim p [
  | inl q ↦ ground arith
  | inr q ↦ rw (fits, q) (ground arith)
]

command-IsSegment :
    {toggle last : ℕ} {d r : List ℕ}
    → toggle < 2
    → last < 2
    → IsSegment toggle last d r
    → (command r / 32 % 8 ≡ 0) × (command r % 2 ≡ last)
command-IsSegment t l s = elim s.sized [
  | inl (a, b) ↦ (omega (arith, s.command_byte), omega (arith, s.command_byte))
  | inr (a, b, c) ↦ (omega (arith, s.command_byte), omega (arith, s.command_byte))
]

-- What the code makes of a sound segment.
judge-IsSegment :
    (capacity total size : ℕ) {toggle last : ℕ} {d r : List ℕ}
    → toggle < 2
    → last < 2
    → IsSegment toggle last d r
    → (0 < length d) ⊎ (last ≡ 1)
    → length d ≤ capacity - size
    → length d ≤ total - size
    → judge r capacity total toggle size ≡ (if last == 1 then final else partial)
unfolding judge
judge-IsSegment capacity total size {toggle} {last} {d} {r} t l s p a b =
    let n = segment_size-IsSegment t l s in
    let (specifier, end) = command-IsSegment t l s in
    let sound : (is_good_segment r toggle && fits r capacity total size) ≡ true = rw (
      is_good_segment-IsSegment t l s,
      fits-true r capacity total size (omega (arith, n)) (omega (arith, n))
          (elim p [ inl q ↦ inl (omega (arith, n)) | inr q ↦ inr (rw end (ground arith)) ]),
    ) in
    let response : (is_sdo_response r && command r / 32 % 8 == 0) ≡ true =
      rw (sdo-IsSdoResponse r s.sdo, specifier) in
    rw (judge, response, sound, end)

delivered : {I : Type 0} → ℤ → List ℕ → I → Upload I
delivered wkc all j = record { wkc = wkc; size = length all; bytes = all; io = j }

-- The data of a segment behind what is there.
grown-IsSegment :
    {I : Type 0} {toggle last : ℕ} {d r : List ℕ} (u : Upload I) (wkc : ℤ) (i : I)
    → toggle < 2
    → last < 2
    → IsSegment toggle last d r
    → grown u wkc r i ≡ record { wkc = wkc; size = u.size + length d; bytes = u.bytes ++ d; io = i }
unfolding grown
grown-IsSegment u wkc i t l s = rw (grown, segment_size-IsSegment t l s, s.carries)

module _ {I : Type 0} (M : Mailbox I) (slave index sub timeout timer : ℕ) where
  segments-delivered :
      (fuel capacity total toggle : ℕ) (u : Upload I) {rest : List ℕ} {wkc : ℤ} {j : I}
      → toggle < 2
      → u.size + length rest ≡ total
      → total ≤ capacity
      → length rest < fuel
      → Served M slave index sub timeout timer toggle u.io rest wkc j
      → segments M slave index sub fuel capacity total timeout timer toggle u
        ≡ some (record { wkc = wkc; size = total; bytes = u.bytes ++ rest; io = j })
  unfolding segments
  segments-delivered zero capacity total toggle u t n c f s = absurd (omega arith)
  segments-delivered (suc fuel) capacity total toggle u {rest} {wkc} {j} t n c f
        (closing {r = r} e p s) =
      let verdict =
        judge-IsSegment capacity total u.size t (omega arith) s (inr refl) (omega arith)
          (omega arith) in
      rw (segments, e, p, verdict, e, grown-IsSegment u wkc j t (omega arith) s)
        (ap (λ z. some (record { wkc = wkc; size = z; bytes = u.bytes ++ rest; io = j })) n)
  segments-delivered (suc fuel) capacity total toggle u {rest} {wkc} {j} t n c f
        (more {k = k} {d = d} {r = r} {rest = others} {v = v} e p s m q next) =
      let size : length rest ≡ length d + length others = ap length q ∙ length-append d others in
      let verdict =
        judge-IsSegment capacity total u.size t (omega arith) s (inl m) (omega arith)
          (omega arith) in
      let u1 : Upload I = record {
        wkc = v;
        size = u.size + length d;
        bytes = u.bytes ++ d;
        io = k;
      } in
      rw (segments, e, p, verdict, e, grown-IsSegment u v k t (omega arith) s)
        (segments-delivered fuel capacity total (1 - toggle) u1 (omega arith) (omega arith) c
            (omega arith) next
          ∙ ap (λ z. some (record { wkc = wkc; size = total; bytes = z; io = j }))
              (append_assoc u.bytes d others ∙ ap (λ z. u.bytes ++ z) (sym q)))

  Served-positive :
      {toggle : ℕ} {i j : I} {rest : List ℕ} {wkc : ℤ}
      → Served M slave index sub timeout timer toggle i rest wkc j
      → is_positive wkc ≡ true
  Served-positive (closing e p s) = p
  Served-positive (more e p s m q next) = Served-positive next

  Delivers-positive :
      {i j : I} {v wkc : ℤ} {r all : List ℕ}
      → is_positive v ≡ true
      → Delivers M slave index sub timeout timer r i v all wkc j
      → is_positive wkc ≡ true
  Delivers-positive p (expedited x l q) = p
  Delivers-positive p (whole x t l q) = p
  Delivers-positive p (segmented x t q l z m w) = Served-positive w

  is_upload_response-true :
      (r : List ℕ) → IsUploadResponse index sub r → is_upload_response r index sub ≡ true
  unfolding is_upload_response
  is_upload_response-true r s = rw (
    is_upload_response,
    le→leb 10 (mbx_length r) s.minimal,
    le→leb (mbx_length r) 1480 s.maximal,
    sdo-IsSdoResponse r s.sdo,
    s.object,
    s.subindex,
    s.specifier,
    eq→== index index refl,
    eq→== sub sub refl,
  )

  admissible-true :
      (capacity total : ℕ) → total ≤ capacity → total < 2 ^ 31 → is_admissible capacity total ≡ true
  admissible-true capacity total a b = ground arith

  begun-segmented :
      (wkc : ℤ) (r part : List ℕ) (i : I)
      → copy_from r 16 (mbx_length r - 10) ≡ part
      → length part ≡ mbx_length r - 10
      → begun wkc r i ≡ record { wkc = wkc; size = length part; bytes = part; io = i }
  unfolding begun
  begun-segmented wkc r part i e l =
      rw (begun, e) (ap (λ z. record { wkc = wkc; size = z; bytes = part; io = i }) (sym l))

  respond-delivered :
      (capacity : ℕ) (v : ℤ) (r : List ℕ) (i : I) {all : List ℕ} {wkc : ℤ} {j : I}
      → IsUploadResponse index sub r
      → length all ≤ capacity
      → length all < 2 ^ 31
      → Delivers M slave index sub timeout timer r i v all wkc j
      → respond M slave index sub capacity timeout timer v r i ≡ some (delivered wkc all j)
  unfolding respond delivered
  respond-delivered capacity v r i {all} {wkc} {j} s a b (expedited x l q) =
      let good = is_upload_response-true r s in
      let quick : is_expedited r ≡ true = ground arith in
      rw (respond, good, quick, sym l, le→leb (length all) capacity a, q)
  respond-delivered capacity v r i {all} {wkc} {j} s a b (whole x t l q) =
      let good = is_upload_response-true r s in
      let slow : is_expedited r ≡ false = ground arith in
      rw (
        respond,
        good,
        slow,
        t,
        admissible-true capacity (length all) a b,
        le→ltb (mbx_length r - 10) (length all) l,
        q,
      )
  respond-delivered capacity v r i {all} {wkc} {j} s a b
        (segmented {part = part} {rest = rest} x t q l z m w) =
      let good = is_upload_response-true r s in
      let slow : is_expedited r ≡ false = ground arith in
      let size : length all ≡ length part + length rest = ap length z ∙ length-append part rest in
      let start : Upload I = record { wkc = v; size = length part; bytes = part; io = i } in
      let run =
        segments-delivered (suc (length all)) capacity (length all) 0 start (omega arith) (sym size)
          a (omega arith) w in
      rw
        (
          respond,
          good,
          slow,
          t,
          admissible-true capacity (length all) a b,
          lt→ltb (mbx_length r - 10) (length all) (omega (arith, size)),
          begun-segmented v r part i q l,
          run,
          t,
          eq→== (length all) (length all) refl,
        )
        (ap (λ y. some (record { wkc = wkc; size = length all; bytes = y; io = j })) (sym z))

-- Let a slave answer the first request with a response to it, and deliver an object of less than
-- 2 ^ 31 bytes by the protocol: in 4 bytes or less, whole, or begun and then continued in segments of
-- its choice, all before the transfer's time is over. If the caller's buffer has room for it, the
-- upload succeeds, and has written exactly the object.
pub sdo_read-Delivers :
    {I : Type 0} (M : Mailbox I) (slave index subindex : ℕ) (ca : Bool) (capacity timeout : ℕ)
    (i i1 : I) {v wkc : ℤ} {r all : List ℕ} {j : I}
    → (let (timer, i0) = M.timer_start 2_000_000 i in
        first_response M slave index (access_sub ca subindex) ca timeout i0 ≡ (v, r, i1))
    → is_positive v ≡ true
    → IsUploadResponse index (access_sub ca subindex) r
    → length all ≤ capacity
    → length all < 2 ^ 31
    → Delivers M slave index
        (access_sub ca subindex)
        timeout
        (M.timer_start 2_000_000 i).0
        r
        i1
        v
        all
        wkc
        j
    → (sdo_read M slave index subindex ca capacity timeout i
        ≡ some (record { wkc = wkc; size = length all; bytes = all; io = j }))
      × (is_positive wkc ≡ true)
unfolding sdo_read delivered
sdo_read-Delivers M slave index subindex ca capacity timeout i i1 {v} {wkc} {r} {all} {j} e p s a b
      d =
    let timer = (M.timer_start 2_000_000 i).0 in
    (
      rw (sdo_read, e, p)
          (respond-delivered M slave index (access_sub ca subindex) timeout timer capacity v r i1 s
            a b d),
      Delivers-positive M slave index (access_sub ca subindex) timeout timer p d,
    )
