-- ===== src/Bridge/Services/Laws.antt =====
-- The entry points of bridge.c on top of the CoE services of ethercatcoe.c.
use servo_assistant.Base.{
  ℕ, ◌≤◌, ◌<◌, ◌^◌, ◌≡◌, ◌≢◌, ◌==◌, ◌⊎◌, refl, inl, inr, ℤ, pos, negsuc, minus_two, is_positive,
  true, false, Option, some, List, ◌++◌, take, length, ltb, pos_part, minus_one, arith, Bool-cases,
  length-replicate, length-take,
}
use servo_assistant.Bridge.Soem.{Soem}
use servo_assistant.Coe.Tables.{OdList, max_od_list}
use servo_assistant.Coe.Mailbox.{Mailbox, KeepsSize}
use servo_assistant.Coe.Upload.{first_response}
use servo_assistant.Coe.Upload.Served.{IsUploadResponse, Delivers}
use servo_assistant.Coe.Upload.Delivery.{sdo_read-Delivers}
use servo_assistant.Coe.Dictionary.Reads.{SaysItsLength, read_od_list_total}
use servo_assistant.Coe.Download.Segments.{LogsRequests}
use servo_assistant.Coe.Download.First.{delivered}
use servo_assistant.Coe.Download.Delivery.{HasMailbox, sdo_write_total, sdo_write_delivers}
use servo_assistant.Bridge.Master.{Bridge, is_absent}
use servo_assistant.Bridge.Dictionary.{
  sdo_timeout, zero_od_list, sa_od_count, sa_sdo_read, sa_sdo_write,
}
use servo_assistant.Bridge.Services.{coe_services, ec_sdo_read, ec_sdo_write, ec_read_od_list}

-- On an open master that has the slave: if the slave delivers an object for which the caller has room
-- by the protocol, `sa_sdo_read` returns a positive number and has written exactly the object, and its
-- size; no variable of the bridge changes.
pub sa_sdo_read-Delivers :
    {I : Type 0} (M : Option ℕ → Mailbox I) (S : Soem (Option I)) (b : Bridge (Option I))
    (slave index sub capacity : ℕ) (i i1 : I) {v wkc : ℤ} {r all : List ℕ} {j : I}
    → b.io ≡ some i
    → is_absent S slave b ≡ false
    → (let (timer, i0) = (M b.capture).timer_start 2_000_000 i in
        first_response (M b.capture) slave index sub false sdo_timeout i0 ≡ (v, r, i1))
    → is_positive v ≡ true
    → IsUploadResponse index sub r
    → length all ≤ capacity
    → length all < 2 ^ 31
    → Delivers
        (M b.capture)
        slave
        index
        sub
        sdo_timeout
        ((M b.capture).timer_start 2_000_000 i).0
        r
        i1
        v
        all
        wkc
        j
    → (sa_sdo_read S (coe_services M) slave index sub capacity b
        ≡ (wkc, length all, all, record b { io = some j }))
      × (is_positive wkc ≡ true)
unfolding sa_sdo_read coe_services ec_sdo_read
sa_sdo_read-Delivers M S b slave index sub capacity i i1 e present f p s a c d =
    let (g, good) =
      sdo_read-Delivers (M b.capture) slave index sub false capacity sdo_timeout i i1 f p s a c d in
    (rw (sa_sdo_read, present, e, ec_sdo_read, g), good)

-- On an open master that has the slave: if the responses have a length that fits, `sa_od_count`
-- returns, and no access leaves an array. The result is -2, or the number of entries of the list that
-- was read for the slave, at most 1024.
pub sa_od_count_lem :
    {I : Type 0} (M : Option ℕ → Mailbox I) (S : Soem (Option I)) (b : Bridge (Option I))
    (slave : ℕ) (i : I)
    → KeepsSize (M b.capture)
    → SaysItsLength (M b.capture)
    → b.io ≡ some i
    → is_absent S slave b ≡ false
    → (result : ℤ) × (l : OdList) × (j : I) × (sa_od_count S (coe_services M) slave b
        ≡ (result, record b { od_list = l; io = some j }))
      × (l.slave ≡ slave)
      × (l.entries ≤ 1024)
      × ((result ≡ minus_two) ⊎ (result ≡ pos l.entries))
unfolding sa_od_count coe_services ec_read_od_list zero_od_list
sa_od_count_lem M S b slave i K L e present =
    let full : length zero_od_list.index ≡ max_od_list = length-replicate {A = ℕ} max_od_list 0 in
    let (wkc, l, j, f, owner, fits, places) =
      read_od_list_total (M b.capture) K L slave zero_od_list i full in
    elim (Bool-cases (is_positive wkc)) [
      | inl good ↦ (
        pos l.entries,
        l,
        j,
        rw (sa_od_count, present, e, ec_read_od_list, f, good),
        owner,
        fits,
        inr refl,
      )
      | inr bad ↦ (
        minus_two,
        l,
        j,
        rw (sa_od_count, present, e, ec_read_od_list, f, bad),
        owner,
        fits,
        inl refl,
      )
    ]

is_positive-pos_part : (z : ℤ) → is_positive z ≡ true → 0 < pos_part z
is_positive-pos_part (pos n) h = ground arith
is_positive-pos_part (negsuc n) h = ground arith

-- On an open master that has the slave, whose mailbox has between 16 and 1487 bytes: `sa_sdo_write`
-- refuses a size outside of 1 to 4096, and changes nothing. With another size, of bytes that the
-- caller has, it returns, and no copy leaves a buffer. If the result is positive, either one of the
-- sends has failed on the way, which the result does not tell, or requests were placed in the slave's
-- mailbox whose data, as a slave reads it, is as many bytes as the size says, in order. No variable
-- of the bridge changes.
pub sa_sdo_write_lem :
    {I : Type 0} (M : Option ℕ → Mailbox I) (S : Soem (Option I)) (b : Bridge (Option I))
    (L : LogsRequests (M b.capture)) (slave index sub : ℕ) (bytes : List ℕ) (size : ℤ) (i : I)
    → HasMailbox (M b.capture) slave
    → b.io ≡ some i
    → is_absent S slave b ≡ false
    → pos_part size ≤ length bytes
    → (let result = sa_sdo_write S (coe_services M) slave index sub bytes size b in
        (((is_positive size ≡ false) ⊎ (4096 < pos_part size)) × (result ≡ (minus_one, b)))
        ⊎ ((wkc : ℤ) × (j : I) × (is_positive size ≡ true)
            × (pos_part size ≤ 4096)
            × (result ≡ (wkc, record b { io = some j }))
            × ((is_positive wkc ≡ false)
                ⊎ ((L.failed j ≢ L.failed i)
                    ⊎ ((sent : List (List ℕ)) × (L.log j ≡ L.log i ++ sent)
                        × (delivered sent ≡ take (pos_part size) bytes))))))
unfolding sa_sdo_write coe_services ec_sdo_write
sa_sdo_write_lem M S b L slave index sub bytes size i H e present room =
    let payload = take (pos_part size) bytes in
    elim (Bool-cases (is_positive size)) [
      | inr none_given ↦ inl (inl none_given, rw (sa_sdo_write, present, none_given))
      | inl given ↦ elim (Bool-cases (ltb 4096 (pos_part size))) [
        | inl over ↦ inl (inr (ground arith), rw (sa_sdo_write, present, given, over))
        | inr under ↦
            (let small : pos_part size ≤ 4096 = ground arith in
              let n : length payload ≡ pos_part size =
                omega (arith, length-take (pos_part size) bytes) in
              let low : 0 < length payload = omega (arith, is_positive-pos_part size given) in
              let high : length payload < 65536 = omega arith in
              let ((wkc, j), f) =
                sdo_write_total (M b.capture) L slave index sub H false payload sdo_timeout i low
                  high in
              let g : sa_sdo_write S (coe_services M) slave index sub bytes size b
                  ≡ (wkc, record b { io = some j }) =
                rw (sa_sdo_write, present, given, under, e, ec_sdo_write, f) in
              inr (
                wkc,
                j,
                given,
                small,
                g,
                elim (Bool-cases (is_positive wkc)) [
                  | inr bad ↦ inl bad
                  | inl good ↦ inr (elim (Bool-cases (L.failed j == L.failed i)) [
                    | inl whole ↦ inr (
                        sdo_write_delivers (M b.capture) L slave index sub H false payload
                          sdo_timeout i j wkc low high f good (ground arith))
                    | inr lost ↦ inl (λ q. ground arith)
                  ])
                ],
              ))
      ]
    ]
