-- ===== src/Bridge/Frame/Accept.antt =====
-- The check of bridge.c accepts exactly the well-formed frames, and never reads outside one.
use servo_assistant.Base.{
  ℕ, zero, suc, ◌+◌, ◌≤◌, ◌<◌, ◌≡◌, ◌↔◌, ◌⊎◌, inl, inr, ◌≢◌, ◌∙◌, refl, Bool, true, false, none,
  some, List, length, ltb, lt→ltb, le→ltb, if◌then◌else◌, not, ◌/◌, ◌%◌, ◌||◌, ◌==◌,
  get_elem?-eq-get_or, arith, Bool-cases, Option-cases,
}
use native.Mathlib.Numerals.{add-one}
use native.Mathlib.Decide.{ℕ_discrete, dec_lt}
use mathlib.Core.Path.{subst, sym}
use servo_assistant.Bridge.Frame.{walk, screen, max_ecat_frame}
use servo_assistant.Bridge.Frame.Layout.{
  Chain, last, next, answer, datagram_lem, data_length, follows, IsWellFormed, byte, end_of,
  word_at-eq-word,
}

module _ (b : List ℕ) (end : ℕ) (fits : end ≤ length b) where
  -- the loop with its reads known to be inside the frame
  walk_step :
      (fuel pos : ℕ)
      → walk (suc fuel) b end pos ≡ (elim (ltb pos end) [
        | true ↦ elim (answer b end pos) [ none ↦ some false | some q ↦ walk fuel b end q ]
        | false ↦ some true
      ])
  unfolding walk
  walk_step fuel pos = rw (datagram_lem b end pos fits) (ground arith)

  walk-zero : (pos : ℕ) → walk zero b end pos ≡ none
  unfolding walk
  walk-zero pos = refl

  walk_stop :
      (fuel pos : ℕ) → pos < end → answer b end pos ≡ none → walk (suc fuel) b end pos ≡ some false
  walk_stop fuel pos lt e = rw (walk_step fuel pos, lt→ltb pos end lt, e)

  walk_go :
      (fuel pos : ℕ) {q : ℕ}
      → pos < end
      → answer b end pos ≡ some q
      → walk (suc fuel) b end pos ≡ walk fuel b end q
  walk_go fuel pos lt e = rw (walk_step fuel pos, lt→ltb pos end lt, e)

  walk_end : (fuel pos : ℕ) → end ≤ pos → walk (suc fuel) b end pos ≡ some true
  walk_end fuel pos le = rw (walk_step fuel pos, le→ltb pos end le)

  -- A round that goes on moves forward by 12 bytes or more, and stays at or before the end.
  answer_advances : (pos q : ℕ) → answer b end pos ≡ some q → (pos + 12 ≤ q) × (q ≤ end)
  answer_advances pos q h = ground arith

  -- Where another datagram is announced, a round goes on to it exactly if it begins before the end.
  answer-follows :
      (pos q : ℕ)
      → follows b pos ≡ 1
      → answer b end pos ≡ some q
      → (pos + 12 + data_length b pos < end) × (q ≡ pos + 12 + data_length b pos)
  answer-follows pos q more h = ground arith

  answer_final :
      (pos q : ℕ)
      → follows b pos ≢ 1
      → answer b end pos ≡ some q
      → (pos + 12 + data_length b pos ≡ end) × (q ≡ end)
  answer_final pos q final h = ground arith

  -- What a round accepts is a datagram of a chain.
  answer-Chain :
      (pos q : ℕ) → answer b end pos ≡ some q → (q ≡ end) ⊎ Chain b end q → Chain b end pos
  answer-Chain pos q h rest = elim (ℕ_discrete (follows b pos) 1) [
    | yes more ↦ elim rest [
      | inl done ↦ absurd (omega (arith, answer-follows pos q more h))
      | inr chain ↦
          next (answer-follows pos q more h).0 more
            (subst (Chain b end) (answer-follows pos q more h).1 chain)
    ]
    | no final ↦ last (answer_final pos q final h).0 final
  ]

  -- The loop comes to a verdict, with a fuel above the distance to the end, and reads in range.
  pub walk_total :
      (fuel pos : ℕ) → pos ≤ end → end < fuel + pos → (v : Bool) × (walk fuel b end pos ≡ some v)
  walk_total zero pos le h = absurd (omega arith)
  walk_total (suc fuel) pos le h = elim (dec_lt pos end) [
    | yes lt ↦ elim (Option-cases (answer b end pos)) [
      | inl stop ↦ (false, walk_stop fuel pos lt stop)
      | inr (q, e) ↦
          rw (walk_go fuel pos lt e)
            (walk_total fuel q (answer_advances pos q e).1 (omega (arith, answer_advances pos q e)))
    ]
    | no ge ↦ (true, walk_end fuel pos (omega arith))
  ]

  -- What the loop accepts is a chain of datagrams, or nothing at all.
  pub walk_sound :
      (fuel pos : ℕ) → pos ≤ end → walk fuel b end pos ≡ some true → (pos ≡ end) ⊎ Chain b end pos
  walk_sound zero pos le h = cc (walk-zero pos)
  walk_sound (suc fuel) pos le h = elim (dec_lt pos end) [
    | yes lt ↦ elim (Option-cases (answer b end pos)) [
      | inl stop ↦ cc (walk_stop fuel pos lt stop)
      | inr (q, e) ↦ inr (
          answer-Chain pos q e
            (walk_sound fuel q (answer_advances pos q e).1 (sym (walk_go fuel pos lt e) ∙ h)))
    ]
    | no ge ↦ inl (omega arith)
  ]

  answer_last :
      (pos : ℕ)
      → pos + 12 + data_length b pos ≡ end
      → follows b pos ≢ 1
      → answer b end pos ≡ some end
  answer_last pos e final = ground arith

  answer_next :
      (pos : ℕ)
      → pos + 12 + data_length b pos < end
      → follows b pos ≡ 1
      → answer b end pos ≡ some (pos + 12 + data_length b pos)
  answer_next pos lt more = ground arith

  -- A chain of datagrams is accepted.
  pub walk_complete :
      (fuel : ℕ) {pos : ℕ} → end < fuel + pos → Chain b end pos → walk fuel b end pos ≡ some true
  walk_complete zero h (last e final) = absurd (omega arith)
  walk_complete zero h (next lt more c) = absurd (omega arith)
  walk_complete (suc zero) h (last e final) = absurd (omega arith)
  walk_complete (suc (suc fuel)) {pos} h (last e final) =
      walk_go (suc fuel) pos (omega arith) (answer_last pos e final)
      ∙ walk_end fuel end (omega arith)
  walk_complete (suc fuel) {pos} h (next lt more c) =
      walk_go fuel pos (omega arith) (answer_next pos lt more) ∙ walk_complete fuel (omega arith) c

-- the tests before the loop, for a frame of minimal size
abbrev is_misfit : List ℕ → ℕ → Bool
is_misfit b len =
    (not (length b == len) || ltb max_ecat_frame (length b))
    || (not (byte b 12 == 0x88)
        || not (byte b 13 == 0xa4)
        || ltb (length b) (end_of b)
        || not (byte b 15 / 16 == 1)
        || byte b 15 / 8 % 2 == 1)

-- The verdict on a frame of minimal size.
screen_lem :
    (b : List ℕ) (len : ℕ)
    → 28 ≤ length b
    → screen b (length b) len
      ≡ (if is_misfit b len then some false else walk (end_of b + 1) b (end_of b) 16)
unfolding screen
screen_lem b len h = ground (
  arith,
  get_elem?-eq-get_or b 12 0 (omega arith),
  get_elem?-eq-get_or b 13 0 (omega arith),
  get_elem?-eq-get_or b 15 0 (omega arith),
  word_at-eq-word b 14 (omega arith),
)

screen_short : (b : List ℕ) (len : ℕ) → length b < 28 → screen b (length b) len ≡ some false
unfolding screen
screen_short b len h = rw (lt→ltb (length b) 28 h)

-- For every frame the check comes to a verdict: its loop ends, and it reads no byte outside the
-- captured ones.
pub screen_total : (b : List ℕ) (len : ℕ) → (v : Bool) × (screen b (length b) len ≡ some v)
screen_total b len = elim (dec_lt (length b) 28) [
  | yes short ↦ (false, screen_short b len short)
  | no long ↦ elim (Bool-cases (is_misfit b len)) [
    | inl bad ↦ (false, screen_lem b len (omega arith) ∙ rw bad)
    | inr good ↦
        rw (screen_lem b len (omega arith), good)
          (walk_total b (end_of b) (ground arith) (end_of b + 1) 16 (omega arith) (omega arith))
  ]
]

-- The check passes a frame on exactly if it is well formed: a whole EtherCAT frame of at most
-- `max_ecat_frame` bytes whose chain of datagrams, where it has one, ends where its header says.
pub screen_iff : (b : List ℕ) (len : ℕ) → (screen b (length b) len ≡ some true) ↔ IsWellFormed b len
screen_iff b len = (sound, complete)
  where
    loop :
        screen b (length b) len ≡ some true
        → 28 ≤ length b
        → is_misfit b len ≡ false
        → walk (end_of b + 1) b (end_of b) 16 ≡ some true
    loop h long good = rw (screen_lem b len long, good) at h

    accepted : screen b (length b) len ≡ some true → (28 ≤ length b) × (is_misfit b len ≡ false)
    accepted h = elim (dec_lt (length b) 28) [
      | yes short ↦ cc (screen_short b len short)
      | no long ↦ (omega arith, ground (arith, screen_lem b len (omega arith)))
    ]

    sound : screen b (length b) len ≡ some true → IsWellFormed b len
    sound h =
        let (long, good) = accepted h in
        record {
          minimal = long;
          maximal = ground arith;
          whole = ground arith;
          ethertype = ground arith;
          fits = ground arith;
          command_type = ground arith;
          datagrams =
              elim (walk_sound b (end_of b) (ground arith) (end_of b + 1) 16 (omega arith)
                (loop h long good)) [
                  | inl none_at_all ↦ inl (sym none_at_all)
                  | inr chain ↦ inr chain
                ];
        }

    good_header : IsWellFormed b len → is_misfit b len ≡ false
    good_header w = ground arith

    complete : IsWellFormed b len → screen b (length b) len ≡ some true
    complete w =
        rw (screen_lem b len w.minimal, good_header w)
          (elim w.datagrams [
            | inl empty ↦ rw (add-one, walk_end b (end_of b) w.fits (end_of b) 16 (omega arith))
            | inr chain ↦ walk_complete b (end_of b) w.fits (end_of b + 1) (omega arith) chain
          ])
