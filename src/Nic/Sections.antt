-- ===== src/Nic/Sections.antt =====
-- The critical sections of a port live as long as its socket.
use servo_assistant.Base.{
  ℕ, ◌≡◌, ◌∙◌, refl, sym, ap, inl, inr, Bool, true, false, Option, none, some, List, Option-cases,
  if◌then◌else◌, minus_one,
}
use mathlib.Core.Path.{subst}
use servo_assistant.Nic.{Stack, Port}
use servo_assistant.Nic.Pcap.{Pcap}
use servo_assistant.Nic.Frames.{socket_of}
use servo_assistant.Nic.Setup.{
  initialize_section, delete_section, initialize_sections, delete_sections, clear_rxbufstat,
  prepare, open_flags, setup_primary, setup_secondary, setupnic, close_primary, close_secondary,
  closenic,
}

abbrev pub is_open : Option ℕ → Bool
is_open none = false
is_open (some h) = true

-- Each section of the port is initialised exactly if the primary socket is open.
pub record IsPaired (p : Port) : Type 0 where
  pub getindex : p.getindex_mutex ≡ is_open (socket_of p.prim)
  pub tx : p.tx_mutex ≡ is_open (socket_of p.prim)
  pub rx : p.rx_mutex ≡ is_open (socket_of p.prim)

initialize_section-false : {m : Bool} → m ≡ false → initialize_section m ≡ some true
unfolding initialize_section
initialize_section-false e = rw e

delete_section-true : {m : Bool} → m ≡ true → delete_section m ≡ some false
unfolding delete_section
delete_section-true e = rw e

abbrev pub with_sections : Bool → Port → Port
with_sections m p = record p { getindex_mutex = m; tx_mutex = m; rx_mutex = m }

pub initialize_sections_lem :
    (p : Port)
    → p.getindex_mutex ≡ false
    → p.tx_mutex ≡ false
    → p.rx_mutex ≡ false
    → initialize_sections p ≡ some (with_sections true p)
unfolding initialize_sections
initialize_sections_lem p a b c = rw (
  initialize_sections,
  initialize_section-false a,
  initialize_section-false b,
  initialize_section-false c,
)

delete_sections_lem :
    (p : Port)
    → p.getindex_mutex ≡ true
    → p.tx_mutex ≡ true
    → p.rx_mutex ≡ true
    → delete_sections p ≡ some (with_sections false p)
unfolding delete_sections
delete_sections_lem p a b c =
    rw (delete_sections, delete_section-true a, delete_section-true b, delete_section-true c)

-- A closed port has no section and no primary socket.
pub record IsClosed (p : Port) : Type 0 where
  pub socket : socket_of p.prim ≡ none
  pub getindex : p.getindex_mutex ≡ false
  pub tx : p.tx_mutex ≡ false
  pub rx : p.rx_mutex ≡ false

IsClosed-port :
    (p : Port) → IsClosed (record (with_sections false p) { prim = record p.prim { sock = none } })
unfolding socket_of
IsClosed-port p = record { socket = refl; getindex = refl; tx = refl; rx = refl }

closed-IsPaired : (p : Port) (red : Option Stack) → IsClosed p → IsPaired (record p { red = red })
closed-IsPaired p red c =
    let shut : is_open (socket_of p.prim) ≡ false = ap is_open c.socket in
    record { getindex = c.getindex ∙ sym shut; tx = c.tx ∙ sym shut; rx = c.rx ∙ sym shut }

module _ {I : Type 0} (P : Pcap I) where
  -- How a set-up of the primary socket ends: the result is 1 exactly if the socket is open.
  setup_primary-some :
      (name : List ℕ) (p : Port) (i : I)
      → IsPaired p
      → socket_of p.prim ≡ none
      → (r : ℕ) × (p1 : Port) × (i1 : I) × (setup_primary P name p i ≡ some (r, p1, i1))
        × IsPaired p1
        × (r ≡ (if is_open (socket_of p1.prim) then 1 else 0))
  unfolding setup_primary socket_of prepare clear_rxbufstat
  setup_primary-some name p i w e =
      let shut : is_open (socket_of p.prim) ≡ false = ap is_open e in
      let init = initialize_sections_lem p (w.getindex ∙ shut) (w.tx ∙ shut) (w.rx ∙ shut) in
      let (socket, i1) = P.open_socket name 65536 open_flags minus_one i in
      let p2 : Port = record (with_sections true p) {
        prim = clear_rxbufstat (record p.prim { sock = none });
        lastidx = 0;
        redstate = 0;
      } in
      elim (Option-cases socket) [
        | inl closed ↦ (
          0,
          with_sections false p2,
          i1,
          rw (setup_primary, init, closed, delete_sections_lem p2 refl refl refl),
          record { getindex = refl; tx = refl; rx = refl },
          refl,
        )
        | inr (h, opened) ↦ (
          1,
          prepare (record p2 { prim = record p2.prim { sock = some h } }),
          i1,
          rw (setup_primary, init, opened),
          record { getindex = refl; tx = refl; rx = refl },
          refl,
        )
      ]

  close_primary-some :
      (p : Port) (i : I)
      → IsPaired p
      → (p1 : Port) × (i1 : I) × (close_primary P p i ≡ some (p1, i1)) × IsClosed p1
  unfolding close_primary
  close_primary-some p i w = elim (Option-cases (socket_of p.prim)) [
    | inl e ↦
        (let shut : is_open (socket_of p.prim) ≡ false = ap is_open e in
          (
            p,
            i,
            rw (close_primary, e),
            record { socket = e; getindex = w.getindex ∙ shut; tx = w.tx ∙ shut; rx = w.rx ∙ shut },
          ))
    | inr (h, e) ↦
        (let held : is_open (socket_of p.prim) ≡ true = ap is_open e in
          (
            record (with_sections false p) { prim = record p.prim { sock = none } },
            P.close_socket h i,
            rw (
              close_primary,
              e,
              delete_sections_lem p (w.getindex ∙ held) (w.tx ∙ held) (w.rx ∙ held),
            ),
            IsClosed-port p,
          ))
  ]

  setup_secondary-IsPaired :
      (name : List ℕ) (red : Stack) (p : Port) (i : I)
      → IsPaired p
      → IsPaired (setup_secondary P name red p i).1
  unfolding setup_secondary prepare clear_rxbufstat socket_of
  setup_secondary-IsPaired name red p i w =
      elim (Option-cases (P.open_socket name 65536 open_flags minus_one i).0) [
        | inl e ↦ rw (setup_secondary, e) (record { getindex = w.getindex; tx = w.tx; rx = w.rx })
        | inr (h, e) ↦
            rw (setup_secondary, e) (record { getindex = w.getindex; tx = w.tx; rx = w.rx })
      ]

  -- A closing of a well-kept port returns; everything is then closed.
  closenic-some :
      (p : Port) (i : I)
      → IsPaired p
      → (p1 : Port) × (i1 : I) × (closenic P p i ≡ some (p1, i1)) × IsPaired p1 × IsClosed p1
  unfolding closenic
  closenic-some p i w =
      let (p1, i1, e, c) = close_primary-some p i w in
      (
        record p1 { red = (close_secondary P p1.red i1).0 },
        (close_secondary P p1.red i1).1,
        rw (closenic, e),
        closed-IsPaired p1 (close_secondary P p1.red i1).0 c,
        record { socket = c.socket; getindex = c.getindex; tx = c.tx; rx = c.rx },
      )

  -- A call that opens or closes. The primary socket is only set up while it is closed.
  pub data NicStep : Port → I → Port → I → Type 0 where
    first :
        {p p1 : Port} {i i1 : I} {r : ℕ} (name : List ℕ)
        → socket_of p.prim ≡ none
        → setupnic P name false p i ≡ some (r, p1, i1)
        → NicStep p i p1 i1
    second :
        {p p1 : Port} {i i1 : I} {r : ℕ} (name : List ℕ)
        → setupnic P name true p i ≡ some (r, p1, i1)
        → NicStep p i p1 i1
    close : {p p1 : Port} {i i1 : I} → closenic P p i ≡ some (p1, i1) → NicStep p i p1 i1

  pub data NicSteps : Port → I → Port → I → Type 0 where
    stop : {p : Port} {i : I} → NicSteps p i p i
    step :
        {p p1 p2 : Port} {i i1 i2 : I}
        → NicStep p i p1 i1
        → NicSteps p1 i1 p2 i2
        → NicSteps p i p2 i2

  LeavesPaired : Option (ℕ × Port × I) → Type 0
  LeavesPaired none = Unit {0}
  LeavesPaired (some (r, p, i)) = IsPaired p

  second-LeavesPaired :
      (name : List ℕ) (p : Port) (i : I) (red : Option Stack)
      → IsPaired p
      → LeavesPaired
          (elim red [ none ↦ some (0, p, i) | some r ↦ some (setup_secondary P name r p i) ])
  unfolding LeavesPaired
  second-LeavesPaired name p i none w = w
  second-LeavesPaired name p i (some r) w = setup_secondary-IsPaired name r p i w

  step-IsPaired : {p p1 : Port} {i i1 : I} → NicStep p i p1 i1 → IsPaired p → IsPaired p1
  unfolding setupnic LeavesPaired
  step-IsPaired {p} {p1} {i} {i1} (first name shut e) w =
      let (r, q, j, f, x, c) = setup_primary-some name p i w shut in
      subst LeavesPaired (sym f ∙ e) x
  step-IsPaired {p} {p1} {i} {i1} (second name e) w =
      subst LeavesPaired e (second-LeavesPaired name p i p.red w)
  step-IsPaired {p} {p1} {i} {i1} (close e) w =
      let (q, j, f, x, c) = closenic-some p i w in subst Closed (sym f ∙ e) x
    where
      Closed : Option (Port × I) → Type 0
      Closed none = Unit {0}
      Closed (some (q, j)) = IsPaired q

  -- After any calls that open and close, where the primary socket is only set up while it is closed,
  -- the critical sections are initialised exactly if the primary socket is open. So closing then
  -- does not fault, and leaves no section and no socket; and from there the primary socket can be
  -- set up, whose result is 1 exactly if it is then open.
  pub sections-IsPaired :
      {p p1 : Port} {i i1 : I} (name : List ℕ)
      → NicSteps p i p1 i1
      → IsPaired p
      → IsPaired p1
        × ((p2 : Port) × (i2 : I) × (closenic P p1 i1 ≡ some (p2, i2))
            × IsClosed p2
            × ((r : ℕ) × (p3 : Port) × (i3 : I) × (setupnic P name false p2 i2 ≡ some (r, p3, i3))
                × IsPaired p3
                × (r ≡ (if is_open (socket_of p3.prim) then 1 else 0))))
  unfolding setupnic
  sections-IsPaired {p} {p1} {i} {i1} name stop w =
      let (p2, i2, e, x, c) = closenic-some p i w in
      (w, (p2, i2, e, c, setup_primary-some name p2 i2 x c.socket))
  sections-IsPaired name (step s rest) w = sections-IsPaired name rest (step-IsPaired s w)
