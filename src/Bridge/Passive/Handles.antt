-- ===== src/Bridge/Passive/Handles.antt =====
-- The handles that bridge.c takes from the driver, and gives back.
use servo_assistant.Base.{
  ℕ, ◌≡◌, ◌⊎◌, ◌∙◌, refl, inl, inr, ap, ℤ, pos, none, some, List, [], ◌∷◌, ◌==◌, if◌then◌else◌,
  arith, Bool-cases, Option-cases,
}
use servo_assistant.Bridge.Npcap.{Npcap, Io}
use servo_assistant.Bridge.Shim.{
  Message, handle, null, unavailable, from_driver, ethernet_required, restart_needed, sa_available,
  accept_handle, pcap_open, pcap_close,
}
use servo_assistant.Bridge.Shim.Laws.{load_pcap-cases}
use servo_assistant.Bridge.Report.{drops_of}
use servo_assistant.Bridge.Passive.{
  passive_flags, sa_capture_open, sa_capture_next, sa_capture_drops, sa_capture_close,
}

-- A list without one occurrence of a number.
abbrev pub erase : ℕ → List ℕ → List ℕ
erase h [] = []
erase h (x ∷ xs) = if x == h then xs else x ∷ erase h xs

-- What Npcap documents of its handles: `p_open` gives a new one, `p_close` takes it back, and no
-- other function makes or takes any.
pub record KeepsHandles {D : Type 0} (N : Npcap D) : Type 0 where
  pub handles : D → List ℕ
  pub opens :
      (name : List ℕ) (snap flags : ℕ) (timeout : ℤ) (d : D) {h : ℕ}
      → (N.p_open name snap flags timeout d).0 ≡ some h
      → handles (N.p_open name snap flags timeout d).1 ≡ h ∷ handles d
  pub refuses :
      (name : List ℕ) (snap flags : ℕ) (timeout : ℤ) (d : D)
      → (N.p_open name snap flags timeout d).0 ≡ none
      → handles (N.p_open name snap flags timeout d).1 ≡ handles d
  pub closes : (h : ℕ) (d : D) → handles (N.p_close h d) ≡ erase h (handles d)
  pub unblocks : (h : ℕ) (d : D) → handles (N.p_nonblock h d).1 ≡ handles d
  pub reads : (h : ℕ) (d : D) → handles (N.p_next h d).2 ≡ handles d
  pub counts : (h : ℕ) (d : D) → handles (N.p_stats h d).2 ≡ handles d

-- What the owner of a passive handle asks for.
pub data Ask : Type 0 where
  next_packet : ℕ → Ask
  drops : Ask

module _ {D : Type 0} (N : Npcap D) where
  abbrev pub asking : ℕ → List Ask → D → D
  asking h [] d = d
  asking h (next_packet capacity ∷ asks) d = asking h asks (sa_capture_next N h capacity d).2
  asking h (drops ∷ asks) d = asking h asks (sa_capture_drops N h d).1

module _ {D : Type 0} (N : Npcap D) (K : KeepsHandles N) where
  erase_first : (h : ℕ) (xs : List ℕ) → erase h (h ∷ xs) ≡ xs
  erase_first h xs = ground arith

  asking-handles : (h : ℕ) (asks : List Ask) (d : D) → K.handles (asking N h asks d) ≡ K.handles d
  unfolding sa_capture_next sa_capture_drops drops_of
  asking-handles h [] d = refl
  asking-handles h (next_packet capacity ∷ asks) d =
      asking-handles h asks (sa_capture_next N h capacity d).2 ∙ ground (arith, K.reads h d)
  asking-handles h (drops ∷ asks) d =
      asking-handles h asks (sa_capture_drops N h d).1 ∙ ground (arith, K.counts h d)

  accept_handle-handles : (h : ℕ) (d : D) → K.handles (accept_handle N h d).1 ≡ K.handles d
  unfolding accept_handle
  accept_handle-handles h d = ground (arith, K.unblocks h d)

  sa_available_rest :
      (io : Io D)
      → (let io1 = (sa_available N io).1 in
          (io1.driver ≡ io.driver)
          × (io1.master_socket ≡ io.master_socket)
          × (io1.recorded ≡ io.recorded))
  unfolding sa_available
  sa_available_rest io = elim (load_pcap-cases N io) [
    | inl (w, e) ↦ ground arith
    | inr (inl e) ↦ ground arith
    | inr (inr e) ↦ ground arith
  ]

  -- The driver's open, the checks of the new handle, and its closing where it fails them.
  opened_cases :
      (name : List ℕ) (snap flags : ℕ) (timeout : ℤ) (d : D)
      → (let (p, d1) = N.p_open name snap flags timeout d in
          ((p ≡ none) × (K.handles d1 ≡ K.handles d))
          ⊎ ((h : ℕ) × (p ≡ some h)
              × (K.handles (accept_handle N h d1).1 ≡ h ∷ K.handles d)
              × (K.handles (N.p_close h (accept_handle N h d1).1) ≡ K.handles d)))
  opened_cases name snap flags timeout d =
      let (p, d1) = N.p_open name snap flags timeout d in
      elim (Option-cases p) [
        | inl e ↦ inl (e, K.refuses name snap flags timeout d e)
        | inr (h, e) ↦
            (let held = accept_handle-handles h d1 ∙ K.opens name snap flags timeout d e in
              inr (
                h,
                e,
                held,
                K.closes h (accept_handle N h d1).1
                    ∙ ap (erase h) held
                    ∙ erase_first h (K.handles d),
              ))
      ]

  closed :
      (h : ℕ) (asks : List Ask) (d : D) {hs : List ℕ}
      → K.handles d ≡ h ∷ hs
      → K.handles (N.p_close h (asking N h asks d)) ≡ hs
  closed h asks d {hs} held =
      K.closes h (asking N h asks d)
      ∙ ap (erase h) (asking-handles h asks d ∙ held)
      ∙ erase_first h hs

  -- Opening a passive handle touches neither the master's socket nor the recording. It ends with no
  -- handle more than before, where it fails, or with one more, which is returned; then whatever is
  -- asked of it, closing it leaves the handles that there were.
  pub sa_capture_open_lem :
      (adapter : List ℕ) (asks : List Ask) (io : Io D)
      → (let (o, io1) = sa_capture_open N adapter io in
          (io1.master_socket ≡ io.master_socket)
          × (io1.recorded ≡ io.recorded)
          × (((m : Message) × (o ≡ null m) × (K.handles io1.driver ≡ K.handles io.driver))
              ⊎ ((h : ℕ) × (o ≡ handle h)
                  × (K.handles io1.driver ≡ h ∷ K.handles io.driver)
                  × (K.handles (sa_capture_close N h (asking N h asks io1.driver))
                      ≡ K.handles io.driver))))
  unfolding sa_capture_open sa_capture_close
  sa_capture_open_lem adapter asks io =
      let (driver, socket, recorded) = sa_available_rest io in
      let io0 = (sa_available N io).1 in
      let opening = opened_cases adapter 65536 passive_flags (pos 50) io0.driver in
      elim (Bool-cases (sa_available N io).0) [
        | inr absent ↦
            rw (sa_capture_open, absent)
              (socket, recorded, inl (unavailable, refl, ap K.handles driver))
        | inl there ↦ elim opening [
          | inl (e, same) ↦
              rw (sa_capture_open, there, e)
                (socket, recorded, inl (from_driver, refl, same ∙ ap K.handles driver))
          | inr (h, e, held, back) ↦
              elim (Bool-cases
                (accept_handle N h
                  (N.p_open adapter 65536 passive_flags (pos 50) io0.driver).1).0) [
                    | inl good ↦
                        (let more = held ∙ ap (λ d. h ∷ K.handles d) driver in
                          rw (sa_capture_open, there, e, good)
                            (socket, recorded, inr (h, refl, more, closed h asks _ more)))
                    | inr bad ↦
                        rw (sa_capture_open, there, e, bad)
                          (
                            socket,
                            recorded,
                            inl (ethernet_required, refl, back ∙ ap K.handles driver),
                          )
                  ]
        ]
      ]

  master_closed :
      (h : ℕ) (io : Io D)
      → io.master_socket ≡ some h
      → ((pcap_close N (some h) io).driver ≡ N.p_close h io.driver)
        × ((pcap_close N (some h) io).master_socket ≡ none)
  unfolding pcap_close
  master_closed h io e = ground arith

  -- Opening the master's socket ends with no handle more than before, where it fails, or with one
  -- more, which is returned and is then the master's socket; closing it leaves the handles that there
  -- were, and no socket. The recording is not touched.
  pub pcap_open_lem :
      (name : List ℕ) (snap flags : ℕ) (timeout : ℤ) (io : Io D)
      → (let (o, io1) = pcap_open N name snap flags timeout io in
          (io1.recorded ≡ io.recorded)
          × (((m : Message) × (o ≡ null m) × (K.handles io1.driver ≡ K.handles io.driver))
              ⊎ ((h : ℕ) × (o ≡ handle h)
                  × (io1.master_socket ≡ some h)
                  × (K.handles io1.driver ≡ h ∷ K.handles io.driver)
                  × (K.handles (pcap_close N (some h) io1).driver ≡ K.handles io.driver)
                  × ((pcap_close N (some h) io1).master_socket ≡ none))))
  unfolding pcap_open
  pcap_open_lem name snap flags timeout io =
      let (driver, socket, recorded) = sa_available_rest io in
      let io0 = (sa_available N io).1 in
      let opening = opened_cases name snap flags timeout io0.driver in
      elim (Bool-cases (sa_available N io).0) [
        | inr absent ↦
            rw (pcap_open, absent) (recorded, inl (restart_needed, refl, ap K.handles driver))
        | inl there ↦ elim opening [
          | inl (e, same) ↦
              rw (pcap_open, there, e)
                (recorded, inl (from_driver, refl, same ∙ ap K.handles driver))
          | inr (h, e, held, back) ↦
              (let d1 = (N.p_open name snap flags timeout io0.driver).1 in
                let more = held ∙ ap (λ d. h ∷ K.handles d) driver in
                elim (Bool-cases (accept_handle N h d1).0) [
                  | inl good ↦
                      rw (pcap_open, there, e, good)
                        (let (given_back, none_left) =
                            master_closed h
                              (record io0 {
                                driver = (accept_handle N h d1).1;
                                master_socket = some h;
                              })
                              refl in
                          (
                            recorded,
                            inr (
                              h,
                              refl,
                              refl,
                              more,
                              ap K.handles given_back ∙ closed h [] _ more,
                              none_left,
                            ),
                          ))
                  | inr bad ↦
                      rw (pcap_open, there, e, bad)
                        (recorded, inl (from_driver, refl, back ∙ ap K.handles driver))
                ])
        ]
      ]
