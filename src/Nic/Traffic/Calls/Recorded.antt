-- ===== src/Nic/Traffic/Calls/Recorded.antt =====
-- The recorder sees the traffic: nicdrv.c over the pcap functions of bridge.c.
use servo_assistant.Base.{
  ℕ, ◌≡◌, ◌≢◌, refl, ap, sym, ◌∙◌, ℤ, pos, is_zero, is_one, Bool, true, false, List, [], ◌∷◌, ◌++◌,
  inl, inr, append_assoc, append-nil, ltb, if◌then◌else◌, arith, Bool-cases, Option-cases,
  Gives-some, Gives-none,
}
use mathlib.Core.Path.{subst}
use servo_assistant.Bridge.Npcap.{Npcap, Observation, Io}
use servo_assistant.Bridge.Frame.{screen}
use servo_assistant.Bridge.Shim.{received, pcap_sendpacket, pcap_next_ex}
use servo_assistant.Nic.Pcap.{Osal}
use servo_assistant.Nic.Bridged.{is_one-pos, shim_pcap}
use servo_assistant.Nic.Traffic.{Ends, IsKept}
use servo_assistant.Nic.Traffic.Calls.{Calls, Calls-kept}

-- The timers, which do not reach the statics of bridge.c.
abbrev pub timers : {D : Type 0} → Osal D → Osal (Io D)
timers O = record {
  timer_start = λ us io. (let (t, d) = O.timer_start us io.driver in (t, record io { driver = d }));
  timer_is_expired =
      λ t io. (let (x, d) = O.timer_is_expired t io.driver in (x, record io { driver = d }));
}

-- A frame that is handed to the driver, as the recorder is told of it: direction 1 if the driver took
-- it, else 3. An empty one is no frame.
abbrev pub outgoing : ℤ → List ℕ → ℕ → List Observation
outgoing result bytes n =
    if ltb 0 n
    then record { direction = if is_zero result then 1 else 3; bytes = bytes; size = n; stamp = 0 }
      ∷ []
    else []

module _ {D : Type 0} (N : Npcap D) (O : Osal D) where
  -- What passes between SOEM and the driver, from one state of the machine to another: the frames
  -- that were handed to it and those that it delivered, in their order.
  pub data Wire (d : D) : List Observation → D → Type 0 where
    quiet : Wire d [] d
    starts :
        {es : List Observation} {e : D} (us : ℕ) → Wire d es e → Wire d es (O.timer_start us e).1
    polls :
        {es : List Observation} {e : D} (t : ℕ) → Wire d es e → Wire d es (O.timer_is_expired t e).1
    sends :
        {es : List Observation} {e : D} (h n : ℕ) (b : List ℕ)
        → Wire d es e
        → Wire d (es ++ outgoing (N.p_send h b n e).0 b n) (N.p_send h b n e).1
    arrives :
        {es : List Observation} {e : D} (h : ℕ)
        → Wire d es e
        → (N.p_next h e).0 ≡ pos 1
        → Wire d (es ++ (received (N.p_next h e).1 ∷ [])) (N.p_next h e).2
    finds_none :
        {es : List Observation} {e : D} (h : ℕ)
        → Wire d es e
        → (N.p_next h e).0 ≢ pos 1
        → Wire d es (N.p_next h e).2

  recast : {a c : D} {es fs : List Observation} → es ≡ fs → Wire a es c → Wire a fs c
  recast {a} {c} q w = subst (λ t. Wire a t c) q w

  Wire-join :
      {a b c : D} {es fs : List Observation} → Wire a es b → Wire b fs c → Wire a (es ++ fs) c
  Wire-join {es = es} w quiet = recast (sym (append-nil es)) w
  Wire-join w (starts us x) = starts us (Wire-join w x)
  Wire-join w (polls t x) = polls t (Wire-join w x)
  Wire-join {es = es} w (sends {es = fs} h n b x) =
      recast (append_assoc es fs _) (sends h n b (Wire-join w x))
  Wire-join {es = es} w (arrives {es = fs} h x p) =
      recast (append_assoc es fs _) (arrives h (Wire-join w x) p)
  Wire-join w (finds_none h x p) = finds_none h (Wire-join w x) p

  -- Without a callback nothing is told.
  abbrev pub told : Bool → List Observation → List Observation
  told capture es = if capture then es else []

  told-append :
      (capture : Bool) (es fs : List Observation)
      → told capture (es ++ fs) ≡ told capture es ++ told capture fs
  told-append true es fs = refl
  told-append false es fs = refl

  told-nil : (capture : Bool) → [] ≡ told capture []
  told-nil true = refl
  told-nil false = refl

  -- From one state of bridge.c's statics to another: what the recorder was told in between is what
  -- passed between SOEM and the driver, in its order, if there is a callback, and else nothing. The
  -- statics of the loader and the socket are left alone.
  pub record IsRecorded (capture : Bool) (i j : Io D) : Type 0 where
    pub traffic : List Observation
    pub wire : Wire i.driver traffic j.driver
    pub log : j.recorded ≡ i.recorded ++ told capture traffic
    pub once : j.once ≡ i.once
    pub pcap_module : j.pcap_module ≡ i.pcap_module
    pub references : j.references ≡ i.references
    pub master_socket : j.master_socket ≡ i.master_socket

  module _ (capture : Bool) where
    silent :
        {i : Io D} {d : D} → Wire i.driver [] d → IsRecorded capture i (record i { driver = d })
    silent {i} w = record {
      traffic = [];
      wire = w;
      log = sym (append-nil i.recorded) ∙ ap (λ t. i.recorded ++ t) (told-nil capture);
      once = refl;
      pcap_module = refl;
      references = refl;
      master_socket = refl;
    }

    IsRecorded-join :
        {i j k : Io D} → IsRecorded capture i j → IsRecorded capture j k → IsRecorded capture i k
    IsRecorded-join {i} a b = record {
      traffic = a.traffic ++ b.traffic;
      wire = Wire-join a.wire b.wire;
      log =
          b.log
          ∙ ap (λ t. t ++ told capture b.traffic) a.log
          ∙ append_assoc i.recorded _ _
          ∙ ap (λ t. i.recorded ++ t) (sym (told-append capture a.traffic b.traffic));
      once = b.once ∙ a.once;
      pcap_module = b.pcap_module ∙ a.pcap_module;
      references = b.references ∙ a.references;
      master_socket = b.master_socket ∙ a.master_socket;
    }

    heard :
        {i : Io D} {es : List Observation} {d : D}
        → Wire i.driver es d
        → IsRecorded capture i (record i { driver = d; recorded = i.recorded ++ told capture es })
    heard {es = es} w = record {
      traffic = es;
      wire = w;
      log = refl;
      once = refl;
      pcap_module = refl;
      references = refl;
      master_socket = refl;
    }

  arrived_told :
      (capture : Bool) (h : ℕ) (i : Io D)
      → (N.p_next h i.driver).0 ≡ pos 1
      → (let i1 = record i { driver = (N.p_next h i.driver).2 } in
          IsRecorded capture i (
            if capture
            then record i1 { recorded = i.recorded ++ (received (N.p_next h i.driver).1 ∷ []) }
            else i1))
  arrived_told true h i one = heard true (arrives h quiet one)
  arrived_told false h i one = record {
    traffic = received (N.p_next h i.driver).1 ∷ [];
    wire = arrives h quiet one;
    log = sym (append-nil i.recorded);
    once = refl;
    pcap_module = refl;
    references = refl;
    master_socket = refl;
  }

  module _ (capture : Bool) where
    send_told :
        (h n : ℕ) (b : List ℕ) (i : Io D)
        → (pcap_sendpacket N capture h b n i).1 ≡ record i {
          driver = (N.p_send h b n i.driver).1;
          recorded = i.recorded ++ told capture (outgoing (N.p_send h b n i.driver).0 b n);
        }
    unfolding pcap_sendpacket
    send_told h n b i = elim (Bool-cases capture) [
      | inl c ↦ elim (Bool-cases (ltb 0 n)) [
        | inl l ↦ rw (pcap_sendpacket, c, l)
        | inr l ↦ rw (pcap_sendpacket, c, l, append-nil)
      ]
      | inr c ↦ rw (pcap_sendpacket, c, append-nil)
    ]

    send-IsRecorded :
        (h n : ℕ) (b : List ℕ) (i : Io D)
        → IsRecorded capture i (pcap_sendpacket N capture h b n i).1
    send-IsRecorded h n b i =
        subst (IsRecorded capture i) (sym (send_told h n b i)) (heard capture (sends h n b quiet))

    next-Ends :
        (h : ℕ) (i : Io D) → Ends (IsRecorded capture) (λ x. x.2) i (pcap_next_ex N capture h i)
    unfolding pcap_next_ex
    next-Ends h i =
        let p = (N.p_next h i.driver).1 in
        elim (Bool-cases (is_one (N.p_next h i.driver).0)) [
          | inr other ↦
              rw (pcap_next_ex, other)
                (Gives-some _ (silent capture (finds_none h quiet (λ e. ground arith))))
          | inl one ↦ elim (Option-cases (screen p.bytes p.caplen p.len)) [
            | inl e ↦ rw (pcap_next_ex, one, e) Gives-none
            | inr (v, e) ↦
                rw (pcap_next_ex, one, e)
                  (Gives-some _ (arrived_told capture h i (is_one-pos _ one)))
          ]
        ]

    shim-IsKept : IsKept (shim_pcap N capture) (timers O) (IsRecorded capture)
    unfolding shim_pcap
    shim-IsKept = record {
      same = λ i. silent capture quiet;
      join = λ a b. IsRecorded-join capture a b;
      sends = λ h n b i. send-IsRecorded h n b i;
      takes = λ h i. next-Ends h i;
      polls = λ t i. silent capture (polls t quiet);
      starts = λ us i. silent capture (starts us quiet);
    }

    -- After any calls of nicdrv.c that send or receive, made over the pcap functions of bridge.c in
    -- any order, and of ports in any state: with a callback the recorder has been told of exactly the
    -- frames that went to the driver and those that came from it, each once and in their order,
    -- those that the check rejected among them; without a callback it has been told of none. The
    -- statics of the loader and the socket are as they were.
    pub Calls-IsRecorded :
        {i j : Io D} → Calls (shim_pcap N capture) (timers O) i j → IsRecorded capture i j
    Calls-IsRecorded c =
        Calls-kept (shim_pcap N capture) (timers O) (IsRecorded capture) shim-IsKept c
