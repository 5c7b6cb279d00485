-- ===== src/Bridge/Shim/Laws.antt =====
-- What SOEM and the recorder can rely on of the pcap functions in bridge.c.
use servo_assistant.Base.{
  ℕ, ◌+◌, ◌<◌, ◌≡◌, ◌≢◌, ◌↔◌, ◌⊎◌, inl, inr, refl, ℤ, pos, is_negative, Bool, true, false, some,
  List, [], ◌∷◌, ◌++◌, length, arith, Bool-cases, if◌then◌else◌, ◌||◌, leb, ◌==◌,
}
use servo_assistant.Bridge.Npcap.{
  Symbol, open_fn, close_fn, send_fn, next_fn, find_fn, free_fn, stats_fn, link_fn, nonblock_fn,
  Npcap, DeliversWhole, Packet, Io,
}
use servo_assistant.Bridge.Frame.{screen}
use servo_assistant.Bridge.Frame.Layout.{IsWellFormed}
use servo_assistant.Bridge.Frame.Accept.{screen_total, screen_iff}
use servo_assistant.Bridge.Shim.{
  max_path, symbols, load_symbols, load_pcap, sa_available, handle, null, from_driver,
  accept_handle, pcap_open, pcap_next_ex, received,
}

module _ {D : Type 0} (N : Npcap D) where
  -- What must be on the machine for the driver to be used.
  pub record IsInstalled (d : D) : Type 0 where
    pub directory : N.system_directory d ≢ 0
    pub short : N.system_directory d + 18 < max_path
    pub library : N.load_library d ≡ true
    pub exports : (f : Symbol) → N.get_proc_address f d ≡ true

  AllExported : D → List Symbol → Type 0
  AllExported d [] = Unit {0}
  AllExported d (f ∷ fs) = (N.get_proc_address f d ≡ true) × AllExported d fs

  -- The module is held exactly while the DLL is referenced, once.
  pub record IsBalanced (io : Io D) : Type 0 where
    pub counted : io.references ≡ (if io.pcap_module then 1 else 0)

  -- Loading runs once: another call gives the same answer and changes nothing.
  pub available_again : (io : Io D) → sa_available N (sa_available N io).1 ≡ sa_available N io
  unfolding sa_available
  available_again io = ground arith

  -- Every export resolves: the module is kept; one is missing: it is given back.
  load_symbols_all :
      (fs : List Symbol) (io : Io D) → AllExported io.driver fs → load_symbols N fs io ≡ io
  unfolding load_symbols AllExported
  load_symbols_all [] io h = refl
  load_symbols_all (f ∷ fs) io h = ground (arith, load_symbols_all fs io h.1)

  load_symbols_some :
      (fs : List Symbol) (io : Io D)
      → (AllExported io.driver fs × (load_symbols N fs io ≡ io))
        ⊎ (load_symbols N fs io ≡ record io { pcap_module = false; references = 0 })
  unfolding load_symbols AllExported
  load_symbols_some [] io = inl (tt, refl)
  load_symbols_some (f ∷ fs) io = elim (Bool-cases (N.get_proc_address f io.driver)) [
    | inl found ↦ elim (load_symbols_some fs io) [
      | inl (all, e) ↦ inl ((found, all), rw (found, e))
      | inr e ↦ inr (rw (found, e))
    ]
    | inr missing ↦ inr (rw missing)
  ]

  AllExported-iff : (d : D) → AllExported d symbols ↔ ((f : Symbol) → N.get_proc_address f d ≡ true)
  unfolding AllExported
  AllExported-iff d = (all, each)
    where
      all : AllExported d symbols → (f : Symbol) → N.get_proc_address f d ≡ true
      all h open_fn = h.0
      all h close_fn = h.1.0
      all h send_fn = h.1.1.0
      all h next_fn = h.1.1.1.0
      all h find_fn = h.1.1.1.1.0
      all h free_fn = h.1.1.1.1.1.0
      all h stats_fn = h.1.1.1.1.1.1.0
      all h link_fn = h.1.1.1.1.1.1.1.0
      all h nonblock_fn = h.1.1.1.1.1.1.1.1.0

      each : ((f : Symbol) → N.get_proc_address f d ≡ true) → AllExported d symbols
      each h = (
        h open_fn,
        (
          h close_fn,
          (
            h send_fn,
            (h next_fn, (h find_fn, (h free_fn, (h stats_fn, (h link_fn, (h nonblock_fn, tt)))))),
          ),
        ),
      )

  abbrev loaded : Io D → Io D
  loaded io = record io { pcap_module = true; references = 1 }

  -- the directory has no name, or one too long to append the library's path
  abbrev no_path : Npcap D → D → Bool
  no_path M d = M.system_directory d == 0 || leb max_path (M.system_directory d + 18)

  -- How a load may end.
  pub load_pcap-cases :
      (io : Io D)
      → (IsInstalled io.driver
          × (load_pcap N io ≡ record io { pcap_module = true; references = 1 }))
        ⊎ (load_pcap N io ≡ io)
        ⊎ (load_pcap N io ≡ record io { pcap_module = false; references = 0 })
  unfolding load_pcap
  load_pcap-cases io = elim (Bool-cases (no_path N io.driver)) [
    | inl bad ↦ inr (inl (rw bad))
    | inr good ↦ elim (Bool-cases (N.load_library io.driver)) [
      | inr missing ↦ inr (inl (rw (good, missing)))
      | inl found ↦ elim (load_symbols_some symbols (loaded io)) [
        | inl (all, e) ↦ inl (
          record {
            directory = ground arith;
            short = ground arith;
            library = found;
            exports = (AllExported-iff io.driver).0 all;
          },
          rw (good, found, e),
        )
        | inr e ↦ inr (inr (rw (good, found, e)))
      ]
    ]
  ]

  load_pcap-installed :
      (io : Io D)
      → IsInstalled io.driver
      → load_pcap N io ≡ record io { pcap_module = true; references = 1 }
  unfolding load_pcap
  load_pcap-installed io w =
      ground (arith, load_symbols_all symbols (loaded io) ((AllExported-iff io.driver).1 w.exports))

  -- Before the first use the driver is available exactly if it is installed with every function
  -- that is called.
  available_iff :
      (io : Io D)
      → io.once ≡ false
      → io.pcap_module ≡ false
      → ((sa_available N io).0 ≡ true) ↔ IsInstalled io.driver
  unfolding sa_available
  available_iff io fresh empty = (
    λ h. elim (load_pcap-cases io) [
      | inl (w, e) ↦ w
      | inr (inl e) ↦ ground arith
      | inr (inr e) ↦ ground arith
    ],
    λ w. ground (arith, load_pcap-installed io w),
  )

  -- A load leaves one reference on the DLL if the module is held, and none if it is not.
  pub available-IsBalanced : (io : Io D) → IsBalanced io → IsBalanced (sa_available N io).1
  unfolding sa_available
  available-IsBalanced io h = elim (load_pcap-cases io) [
    | inl (w, e) ↦ ground arith
    | inr (inl e) ↦ ground arith
    | inr (inr e) ↦ ground arith
  ]

  -- A handle that `pcap_open` returns is that of an Ethernet adapter in non-blocking mode, and it is
  -- the one that `sa_drops` asks; the driver is then available.
  pub pcap_open-handle :
      (name : List ℕ) (snap flags : ℕ) (timeout : ℤ) (io : Io D) {h : ℕ} {io' : Io D}
      → pcap_open N name snap flags timeout io ≡ (handle h, io')
      → let d = (sa_available N io).1.driver in
        let (p, d1) = N.p_open name snap flags timeout d in
        ((sa_available N io).0 ≡ true)
        × (p ≡ some h)
        × (N.p_link h d1 ≡ 1)
        × (is_negative (N.p_nonblock h d1).0 ≡ false)
        × (io'.master_socket ≡ some h)
        × (io'.driver ≡ (N.p_nonblock h d1).1)
  unfolding pcap_open accept_handle
  pcap_open-handle name snap flags timeout io e = ground arith

  -- A handle that the driver gives and that is not Ethernet, or cannot be made non-blocking, is
  -- closed again; the caller gets NULL and the master's handle stays as it was.
  pub pcap_open-refused :
      (name : List ℕ) (snap flags : ℕ) (timeout : ℤ) (io : Io D) {h : ℕ} {d1 d2 : D}
      → (sa_available N io).0 ≡ true
      → N.p_open name snap flags timeout (sa_available N io).1.driver ≡ (some h, d1)
      → accept_handle N h d1 ≡ (false, d2)
      → let (r, io') = pcap_open N name snap flags timeout io in
        (r ≡ null from_driver)
        × (io'.driver ≡ N.p_close h d2)
        × (io'.master_socket ≡ (sa_available N io).1.master_socket)
  unfolding pcap_open
  pcap_open-refused name snap flags timeout io a o x = ground arith

  next_ex_at :
      (h : ℕ) (io : Io D) {p : Packet} {d : D} (v : Bool)
      → N.p_next h io.driver ≡ (pos 1, p, d)
      → screen p.bytes p.caplen p.len ≡ some v
      → pcap_next_ex N true h io
        ≡ some (
          if v then pos 1 else pos 0,
          p,
          record io { driver = d; recorded = io.recorded ++ (received p ∷ []) },
        )
  unfolding pcap_next_ex
  next_ex_at h io v e c = rw (e, c)

  -- A frame that the driver delivers is recorded as it was captured, whatever the check says, and
  -- SOEM gets it exactly if it is well formed; else SOEM is told that there is no frame. No byte
  -- outside the captured ones is read.
  pub pcap_next_ex-frame :
      DeliversWhole N
      → (h : ℕ) (io : Io D) {p : Packet} {d : D} → N.p_next h io.driver ≡ (pos 1, p, d)
      → (r : ℤ) × (pcap_next_ex N true h io
          ≡ some (r, p, record io { driver = d; recorded = io.recorded ++ (received p ∷ []) }))
        × ((r ≡ pos 1) ↔ IsWellFormed p.bytes p.len)
        × ((r ≡ pos 1) ⊎ (r ≡ pos 0))
  pcap_next_ex-frame whole h io {p} {d} e =
      let (v, checked) = screen_total p.bytes p.len in
      let sized : length p.bytes ≡ p.caplen = ground (arith, whole.captured h io.driver) in
      (
        if v then pos 1 else pos 0,
        next_ex_at h io v e (rw sized at checked),
        one_iff v checked,
        ground arith,
      )
    where
      one_iff :
          (v : Bool)
          → screen p.bytes (length p.bytes) p.len ≡ some v
          → ((if v then pos 1 else pos 0) ≡ pos 1) ↔ IsWellFormed p.bytes p.len
      one_iff true c = (λ _. (screen_iff p.bytes p.len).0 c, λ _. refl)
      one_iff false c = (λ f. cc, λ w. cc ((screen_iff p.bytes p.len).1 w))
