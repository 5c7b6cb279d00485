-- ===== src/Nic/Wait/Copies.antt =====
-- The copies of the redundant mode stay inside their buffers, on a live port.
use servo_assistant.Base.{
  ℕ, zero, suc, refl, ◌∷◌, ◌+◌, ◌-◌, ◌≤◌, ◌<◌, ◌≡◌, ◌∙◌, some, List, [], ◌++◌, set, length, get_or,
  get_elem?, take, drop, arith, length-set, length-append, length-take, length-drop,
  get_or-append_left, get_or-take, get_or-set_self, take-append_le, take_of_length_le,
  get_elem?-eq-get_or,
}
use servo_assistant.Nic.{Stack, Port, buf_size}
use servo_assistant.Nic.Invariant.{ecat_length, IsBuffer, IsSendable}
use servo_assistant.Nic.Frames.{socket_of}
use servo_assistant.Nic.Frames.Bounds.{set-IsBuffer}
use servo_assistant.Nic.Wait.{copy_part, take_secondary, primary_to_tx}
use servo_assistant.Nic.Wait.Live.{IsOpenStack, IsLive, IsLive-main, IsLive-tx}

-- A buffer holds what another does, as far as a frame of a length goes.
abbrev pub HasPayload : ℕ → List ℕ → List ℕ → Type 0
HasPayload n src b = take (n - 14) b ≡ take (n - 14) src

abbrev pub part : ℕ → List ℕ → List ℕ → List ℕ
part n src dst = take (n - 14) src ++ drop (n - 14) dst

length-part :
    (n : ℕ) (src dst : List ℕ)
    → n ≤ length src + 14
    → n ≤ length dst + 14
    → length (part n src dst) ≡ length dst
length-part n src dst a b = omega (
  arith,
  length-append (take (n - 14) src) (drop (n - 14) dst),
  length-take (n - 14) src,
  length-drop (n - 14) dst,
)

-- What is copied.
pub take-part :
    (n : ℕ) (src dst : List ℕ)
    → n ≤ length src + 14
    → take (n - 14) (part n src dst) ≡ take (n - 14) src
take-part n src dst a =
    take-append_le (n - 14) (take (n - 14) src) (drop (n - 14) dst)
      (omega (arith, length-take (n - 14) src))
    ∙ take_of_length_le (n - 14) (take (n - 14) src) (omega (arith, length-take (n - 14) src))

copy_part_lem :
    (n : ℕ) (src dst : List ℕ)
    → 14 ≤ n
    → n ≤ length src + 14
    → n ≤ length dst + 14
    → copy_part n src dst ≡ some (part n src dst)
unfolding copy_part
copy_part_lem n src dst m a b = ground arith

part-IsBuffer :
    (n : ℕ) (src dst : List ℕ)
    → IsSendable n
    → IsBuffer src
    → IsBuffer dst
    → IsBuffer (part n src dst)
unfolding ecat_length
part-IsBuffer n src dst s x y =
    let byte : (m : ℕ) → m < 2 → get_or (part n src dst) m 0 ≡ get_or src m 0 = λ m b.
      get_or-append_left (take (n - 14) src) (drop (n - 14) dst) m 0
        (omega (arith, length-take (n - 14) src))
      ∙ get_or-take (n - 14) src m 0 (omega arith) in
    (
      omega (arith, length-part n src dst (omega arith) (omega arith)),
      omega (arith, byte 0 (omega arith), byte 1 (omega arith)),
    )

drop-take_append : (n : ℕ) (xs ys : List ℕ) → n ≤ length xs → drop n (take n xs ++ ys) ≡ ys
drop-take_append zero xs ys h = refl
drop-take_append (suc n) [] ys h = absurd (omega arith)
drop-take_append (suc n) (x ∷ xs) ys h = drop-take_append n xs ys (omega arith)

module _ (idx k : ℕ) (p : Port) (w : IsLive idx k p) where
  payload_size : ℕ
  payload_size = get_or p.txbuflength idx 0

  size_found : get_elem? p.txbuflength idx ≡ some payload_size
  unfolding payload_size
  size_found = get_elem?-eq-get_or p.txbuflength idx 0 (omega (arith, w.lengths, w.index))

  buffer_found :
      (st : Stack)
      → IsOpenStack p.txbuflength st
      → get_elem? st.rxbuf idx ≡ some (get_or st.rxbuf idx [])
  buffer_found st x = get_elem?-eq-get_or st.rxbuf idx [] (omega (arith, x.stack.buffers, w.index))

  -- The primary buffer then holds what the secondary one does.
  pub take_secondary-some :
      (r : Stack)
      → p.red ≡ some r
      → IsOpenStack p.txbuflength r
      → (b : List ℕ) × HasPayload
          (get_or p.txbuflength idx 0)
          (get_or r.rxbuf idx [])
          (get_or (set p.prim.rxbuf idx b) idx [])
        × (take_secondary idx p
            ≡ some (record p { prim = record p.prim { rxbuf = set p.prim.rxbuf idx b } }))
        × IsLive idx k (record p { prim = record p.prim { rxbuf = set p.prim.rxbuf idx b } })
  unfolding take_secondary socket_of payload_size
  take_secondary-some r f x =
      let n = get_or p.txbuflength idx 0 in
      let st = p.prim in
      let src = get_or r.rxbuf idx [] in
      let dst = get_or st.rxbuf idx [] in
      let a = x.stack.each idx w.index in
      let c = w.main.stack.each idx w.index in
      let s = w.sendable in
      let y = w.main.stack in
      (
        part n src dst,
        rw (get_or-set_self st.rxbuf idx (part n src dst) [] (omega (arith, y.buffers, w.index)))
            (take-part n src dst (omega arith)),
        rw (
          take_secondary,
          f,
          size_found,
          buffer_found r x,
          buffer_found p.prim w.main,
          copy_part_lem n src dst (omega arith) (omega arith) (omega arith),
        ),
        IsLive-main idx k p w (record st { rxbuf = set st.rxbuf idx (part n src dst) }) p.tempinbufs
            (record {
              stack = record {
                temp = y.temp;
                buffers = omega (arith, length-set st.rxbuf idx (part n src dst), y.buffers);
                states = y.states;
                sources = y.sources;
                each =
                    set-IsBuffer p.txbuflength st y idx (part n src dst)
                      (part-IsBuffer n src dst s a c);
                sent = y.sent;
              };
              handle = w.main.handle;
              opened = w.main.opened;
            }),
      )

  -- The transmit buffer then holds, behind its Ethernet header, what the primary buffer does.
  pub primary_to_tx-some :
      (b : List ℕ) × HasPayload
        (get_or p.txbuflength idx 0)
        (get_or p.prim.rxbuf idx [])
        (drop 14 (get_or (set p.txbuf idx b) idx []))
      × (primary_to_tx idx p ≡ some (record p { txbuf = set p.txbuf idx b }))
      × IsLive idx k (record p { txbuf = set p.txbuf idx b })
  unfolding primary_to_tx payload_size
  primary_to_tx-some =
      let n = get_or p.txbuflength idx 0 in
      let src = get_or p.prim.rxbuf idx [] in
      let dst = get_or p.txbuf idx [] in
      let t = w.tx_each idx w.index in
      let c = w.main.stack.each idx w.index in
      let s = w.sendable in
      let rest : length (drop 14 dst) ≡ buf_size - 14 = omega (arith, length-drop 14 dst) in
      let b = take 14 dst ++ part n src (drop 14 dst) in
      let size : length b ≡ buf_size = omega (
        arith,
        rest,
        length-append (take 14 dst) (part n src (drop 14 dst)),
        length-take 14 dst,
        length-part n src (drop 14 dst) (omega arith) (omega arith),
      ) in
      let behind : drop 14 b ≡ part n src (drop 14 dst) =
        drop-take_append 14 dst (part n src (drop 14 dst)) (omega arith) in
      (
        b,
        rw (get_or-set_self p.txbuf idx b [] (omega (arith, w.tx_count, w.index)), behind)
            (take-part n src (drop 14 dst) (omega arith)),
        rw (
          primary_to_tx,
          size_found,
          buffer_found p.prim w.main,
          get_elem?-eq-get_or p.txbuf idx [] (omega (arith, w.tx_count, w.index)),
          copy_part_lem n src (drop 14 dst) (omega arith) (omega arith) (omega arith),
        ),
        IsLive-tx idx k p w b size,
      )
