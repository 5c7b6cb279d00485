-- ===== src/Nic/Frames/Bounds.antt =====
-- What is stored of a received frame fits, and the port stays well formed.
use servo_assistant.Base.{
  ℕ, ◌+◌, ◌-◌, ◌*◌, ◌^◌, ◌≤◌, ◌<◌, ◌≡◌, ◌≢◌, ◌⊎◌, ◌∙◌, inl, inr, refl, sym, ap, ℤ, pos, false, not,
  ◌||◌, Option, some, List, [], ◌++◌, length, get_or, get_elem?, set, take, drop, ◌==◌, arith,
  Bool-cases, length-set, length-append, length-take, length-drop, get_or-set_self, get_or-set_ne,
  get_or-append_left, get_or-take, get_or-drop, get_elem?-eq-get_or, lt→ltb,
}
use servo_assistant.Nic.{Stack, max_buf, buf_size, buf_tx, buf_rcvd, buf_complete}
use servo_assistant.Nic.Invariant.{
  byte_at, ecat_length, IsBuffer, IsSendable, IsStack, set_status-IsStack, with_status,
}
use servo_assistant.Nic.Frames.{
  no_frame, other_frame, socket_of, copy_frame, wkc_at, frame_length, frame_index, frame_source,
  store, dispatch, collect, is_unfit, is_ethercat,
}

-- What a receive function returns: that there is no frame, or another one, or a work counter.
abbrev pub IsResult : ℤ → Type 0
IsResult w = (w ≡ no_frame) ⊎ ((w ≡ other_frame) ⊎ ((v : ℕ) × (w ≡ pos v) × (v < 2 ^ 16)))

unfoldable pub copied : List ℕ → ℕ → List ℕ → List ℕ
copied temp n buf = take (n - 14) (drop 14 temp) ++ drop (n - 14) buf

pub length-copied :
    (temp buf : List ℕ) (n : ℕ)
    → length temp ≡ buf_size
    → length buf ≡ buf_size
    → IsSendable n
    → length (copied temp n buf) ≡ buf_size
unfolding copied
length-copied temp buf n t b s = omega (
  arith,
  length-append (take (n - 14) (drop 14 temp)) (drop (n - 14) buf),
  length-take (n - 14) (drop 14 temp),
  length-drop 14 temp,
  length-drop (n - 14) buf,
)

pub copied_byte :
    (temp buf : List ℕ) (n k : ℕ)
    → length temp ≡ buf_size
    → n ≤ buf_size
    → k + 14 < n
    → get_or (copied temp n buf) k 0 ≡ get_or temp (14 + k) 0
unfolding copied
copied_byte temp buf n k t s h =
    get_or-append_left (take (n - 14) (drop 14 temp)) (drop (n - 14) buf) k 0
      (omega (arith, length-take (n - 14) (drop 14 temp), length-drop 14 temp))
    ∙ get_or-take (n - 14) (drop 14 temp) k 0 (omega arith)
    ∙ get_or-drop 14 temp k 0

pub ecat_length-copied :
    (temp buf : List ℕ) (n : ℕ)
    → length temp ≡ buf_size
    → IsSendable n
    → ecat_length (copied temp n buf) ≡ frame_length temp
unfolding ecat_length frame_length
ecat_length-copied temp buf n t s = omega (
  arith,
  copied_byte temp buf n 0 t s.1 (omega arith),
  copied_byte temp buf n 1 t s.1 (omega arith),
)

pub copy_frame_lem :
    (temp buf : List ℕ) (n : ℕ)
    → length temp ≡ buf_size
    → length buf ≡ buf_size
    → IsSendable n
    → copy_frame temp n buf ≡ some (copied temp n buf)
unfolding copy_frame copied
copy_frame_lem temp buf n t b s = ground arith

abbrev pub wkc_of : ℕ → List ℕ → ℕ
wkc_of l buf = byte_at buf l + 256 * byte_at buf (l + 1)

pub wkc_at-some :
    (l : ℕ) (buf : List ℕ) → l + 2 ≤ length buf → wkc_at l buf ≡ some (pos (wkc_of l buf))
unfolding wkc_at
wkc_at-some l buf h = rw (
  wkc_at,
  get_elem?-eq-get_or buf l 0 (omega arith),
  get_elem?-eq-get_or buf (l + 1) 0 (omega arith),
)

-- A stack in which the frame of `tempbuf` is stored for an index.
unfoldable pub with_frame : ℕ → ℕ → List ℕ → Stack → Stack
with_frame idx v lens st = record st {
  rxbuf = set st.rxbuf idx (copied st.tempbuf (get_or lens idx 0) (get_or st.rxbuf idx []));
  rxbufstat = set st.rxbufstat idx v;
  rxsa = set st.rxsa idx (frame_source st.tempbuf);
}

module _ (lens : List ℕ) (st : Stack) (w : IsStack lens st) where
  pub set-IsBuffer :
      (idx : ℕ) (b : List ℕ)
      → IsBuffer b
      → (j : ℕ) → j < max_buf
      → IsBuffer (get_or (set st.rxbuf idx b) j [])
  set-IsBuffer idx b ok j h = elim (Bool-cases (idx == j)) [
    | inl same ↦
        (let q : idx ≡ j = ground arith in
          rw (sym q, get_or-set_self st.rxbuf idx b [] (omega (arith, w.buffers))) ok)
    | inr other ↦
        (let n : idx ≢ j = ground arith in rw (get_or-set_ne st.rxbuf b [] n) (w.each j h))
  ]

  pub store-IsStack :
      (idx v : ℕ)
      → length lens ≡ max_buf
      → idx < max_buf
      → IsSendable (get_or lens idx 0)
      → frame_length st.tempbuf + 2 ≤ buf_size
      → (store idx v lens st ≡ some (with_frame idx v lens st))
        × IsStack lens (with_frame idx v lens st)
  unfolding store with_frame
  store-IsStack idx v l h s f =
      let n = get_or lens idx 0 in
      let old = get_or st.rxbuf idx [] in
      let t = w.temp in
      let (b, x) = w.each idx h in
      let new : IsBuffer (copied st.tempbuf n old) = (
        length-copied st.tempbuf old n t b s,
        omega (arith, ecat_length-copied st.tempbuf old n t s),
      ) in
      let st1 : Stack = record st { rxbuf = set st.rxbuf idx (copied st.tempbuf n old) } in
      let w1 : IsStack lens st1 = record {
        temp = t;
        buffers = omega (arith, length-set st.rxbuf idx (copied st.tempbuf n old), w.buffers);
        states = w.states;
        sources = w.sources;
        each = set-IsBuffer idx (copied st.tempbuf n old) new;
        sent = w.sent;
      } in
      let (e, w2) = set_status-IsStack lens st1 idx v w1 h (inr s) in
      (
        rw (
          store,
          get_elem?-eq-get_or lens idx 0 (omega arith),
          get_elem?-eq-get_or st.rxbuf idx [] (omega (arith, w.buffers)),
          copy_frame_lem st.tempbuf old n t b s,
          e,
          lt→ltb idx (length st.rxsa) (omega (arith, w.sources)),
        ),
        record {
          temp = t;
          buffers = w2.buffers;
          states = w2.states;
          sources = omega (arith, length-set st.rxsa idx (frame_source st.tempbuf), w.sources);
          each = w2.each;
          sent = w2.sent;
        },
      )

  -- The buffer that is stored, as it is read again.
  pub with_frame_buffer :
      (idx v : ℕ)
      → idx < max_buf
      → get_elem? (with_frame idx v lens st).rxbuf idx
        ≡ some (copied st.tempbuf (get_or lens idx 0) (get_or st.rxbuf idx []))
  unfolding with_frame
  with_frame_buffer idx v h =
      let b = copied st.tempbuf (get_or lens idx 0) (get_or st.rxbuf idx []) in
      get_elem?-eq-get_or (set st.rxbuf idx b) idx []
        (omega (arith, length-set st.rxbuf idx b, w.buffers))
      ∙ ap some (get_or-set_self st.rxbuf idx b [] (omega (arith, w.buffers)))

-- A frame that is not dropped fits.
pub frame_fits :
    (lens temp : List ℕ) (count : ℕ)
    → (not (is_ethercat temp) || is_unfit lens temp count) ≡ false
    → (frame_index temp < max_buf)
      × (frame_length temp + 16 ≤ count)
      × (get_or lens (frame_index temp) 0 ≤ count)
      × (frame_length temp + 2 ≤ buf_size)
unfolding is_unfit
frame_fits lens temp count e = (ground arith, ground arith, ground arith, ground arith)

-- A step on a stack returns, keeps it well formed and its socket.
abbrev pub Received : List ℕ → Stack → Option (ℤ × Stack) → Type 0
Received lens st o =
    (wkc : ℤ) × (st1 : Stack) × (o ≡ some (wkc, st1))
    × IsStack lens st1
    × (socket_of st1 ≡ socket_of st)
    × IsResult wkc

module _ (lens : List ℕ) (l : length lens ≡ max_buf) (st : Stack) (w : IsStack lens st) (idx : ℕ)
    (h : idx < max_buf) where
  pub dispatch-Received :
      (count : ℕ) → IsSendable (get_or lens idx 0) → Received lens st (dispatch idx lens count st)
  unfolding dispatch with_frame socket_of
  dispatch-Received count s =
      elim (Bool-cases (not (is_ethercat st.tempbuf) || is_unfit lens st.tempbuf count)) [
        | inl bad ↦ (other_frame, st, rw (dispatch, bad), w, refl, inr (inl refl))
        | inr good ↦
            (let (a, b, c, f) = frame_fits lens st.tempbuf count good in
              elim (Bool-cases (frame_index st.tempbuf == idx)) [
                | inl same ↦
                    (let (e, x) = store-IsStack lens st w idx buf_complete l h s f in
                      let buf = copied st.tempbuf (get_or lens idx 0) (get_or st.rxbuf idx []) in
                      let size : length buf ≡ buf_size =
                        length-copied st.tempbuf (get_or st.rxbuf idx []) (get_or lens idx 0) w.temp
                          (w.each idx h).0 s in
                      let z = wkc_at-some (frame_length st.tempbuf) buf (omega arith) in
                      (
                        pos (wkc_of (frame_length st.tempbuf) buf),
                        with_frame idx buf_complete lens st,
                        rw (
                          dispatch,
                          good,
                          same,
                          e,
                          with_frame_buffer lens st w idx buf_complete h,
                          z,
                        ),
                        x,
                        refl,
                        inr (inr (wkc_of (frame_length st.tempbuf) buf, refl, omega arith)),
                      ))
                | inr other ↦
                    elim (Bool-cases (get_or st.rxbufstat (frame_index st.tempbuf) 0 == buf_tx)) [
                      | inl sent ↦
                          (let t = w.sent (frame_index st.tempbuf) (ground arith) in
                            let (e, x) =
                              store-IsStack lens st w (frame_index st.tempbuf) buf_rcvd l a t f in
                            (
                              other_frame,
                              with_frame (frame_index st.tempbuf) buf_rcvd lens st,
                              rw (dispatch, good, other, sent, e),
                              x,
                              refl,
                              inr (inl refl),
                            ))
                      | inr unsent ↦ (
                        other_frame,
                        st,
                        rw (dispatch, good, other, unsent),
                        w,
                        refl,
                        inr (inl refl),
                      )
                    ]
              ])
      ]

  pub collect-Received : Received lens st (collect idx st)
  unfolding collect socket_of
  collect-Received =
      let buf = get_or st.rxbuf idx [] in
      let (b, f) = w.each idx h in
      let (e, x) = set_status-IsStack lens st idx buf_complete w h (inl (λ n. ground arith)) in
      let z = wkc_at-some (ecat_length buf) buf (omega arith) in
      (
        pos (wkc_of (ecat_length buf) buf),
        with_status idx buf_complete st,
        rw (collect, get_elem?-eq-get_or st.rxbuf idx [] (omega (arith, w.buffers)), z, e),
        x,
        refl,
        inr (inr (wkc_of (ecat_length buf) buf, refl, omega arith)),
      )
