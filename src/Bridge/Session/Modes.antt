-- ===== src/Bridge/Session/Modes.antt =====
-- The master as its callers see it: closed, or open with a callback.
use servo_assistant.Base.{
  ℕ, ◌≡◌, ◌≢◌, ◌∙◌, refl, inl, inr, ℤ, pos, minus_one, minus_two, is_positive, true, false, Option,
  none, List, [], ◌∷◌, arith,
}
use servo_assistant.Bridge.Soem.{Soem, Coe}
use servo_assistant.Bridge.Master.{Bridge, sa_open, sa_close}
use servo_assistant.Bridge.Session.{
  Call, open_master, close_master, needs_open, call, session, results,
}
use servo_assistant.Bridge.Session.Lifecycle.{closed_refuses, open_stays, sa_open_lem}

pub data Mode : Type 0 where
  closed : Mode
  open_with : Option ℕ → Mode

-- How a call, with its result, may lead from one mode to another.
pub data Moves : Call → ℤ → Mode → Mode → Type 0 where
  opens :
      {adapter : List ℕ} {callback : Option ℕ} {n : ℤ}
      → is_positive n ≡ true
      → Moves (open_master adapter callback) n closed (open_with callback)
  fails :
      {adapter : List ℕ} {callback : Option ℕ} {n : ℤ}
      → is_positive n ≡ false
      → Moves (open_master adapter callback) n closed closed
  is_open_already :
      {adapter : List ℕ} {callback k : Option ℕ}
      → Moves (open_master adapter callback) minus_two (open_with k) (open_with k)
  closes : {m : Mode} → Moves close_master (pos 0) m closed
  is_refused : {c : Call} → needs_open c ≡ true → Moves c minus_one closed closed
  works :
      {c : Call} {n : ℤ} {k : Option ℕ}
      → needs_open c ≡ true
      → Moves c n (open_with k) (open_with k)

-- Calls with their results, from one mode to another.
pub data Runs : List Call → List ℤ → Mode → Mode → Type 0 where
  stays : {m : Mode} → Runs [] [] m m
  goes :
      {c : Call} {cs : List Call} {n : ℤ} {ns : List ℤ} {m m1 m2 : Mode}
      → Moves c n m m1
      → Runs cs ns m1 m2
      → Runs (c ∷ cs) (n ∷ ns) m m2

-- The mode that the statics show.
abbrev pub Shows : {I : Type 0} → Bridge I → Mode → Type 0
Shows b closed = (b.opened ≡ false) × (b.capture ≡ none)
Shows b (open_with k) = (b.opened ≡ true) × (b.capture ≡ k)

module _ {I : Type 0} (S : Soem I) (C : Coe I) where
  Moved : Call → Mode → ℤ × Bridge I → Type 0
  Moved c m (n, b) = (m1 : Mode) × Moves c n m m1 × Shows b m1

  refused-Moved :
      (c : Call) (b : Bridge I)
      → needs_open c ≡ true
      → Shows b closed
      → Moved c closed (call S C c b)
  unfolding Moved
  refused-Moved c b n s = rw (closed_refuses S C c b s.0 n) (closed, is_refused n, s)

  worked-Moved :
      (c : Call) (b : Bridge I) {k : Option ℕ}
      → needs_open c ≡ true
      → c ≢ close_master
      → Shows b (open_with k)
      → Moved c (open_with k) (call S C c b)
  unfolding Moved
  worked-Moved c b {k} n d s =
      let (opened, kept) = open_stays S C c b s.0 d in (open_with k, works n, (opened, kept ∙ s.1))

  open-Moved :
      (adapter : List ℕ) (callback : Option ℕ) (b : Bridge I) (m : Mode)
      → Shows b m
      → Moved (open_master adapter callback) m (sa_open S adapter callback b)
  unfolding Moved
  open-Moved adapter callback b closed s = elim (sa_open_lem S adapter callback b) [
    | inl (o, n, e) ↦ absurd (ground arith)
    | inr (inl (o, n, o1, k)) ↦ (open_with callback, opens n, (o1, k))
    | inr (inr (o, n, o1, k)) ↦ (closed, fails n, (o1, k))
  ]
  open-Moved adapter callback b (open_with k) s = elim (sa_open_lem S adapter callback b) [
    | inl (o, n, e) ↦ rw (n, e) (open_with k, is_open_already, s)
    | inr (inl (o, n, o1, q)) ↦ absurd (ground arith)
    | inr (inr (o, n, o1, q)) ↦ absurd (ground arith)
  ]

  close-Moved : (b : Bridge I) (m : Mode) → Moved close_master m (pos 0, sa_close S b)
  unfolding Moved sa_close
  close-Moved b m = (closed, closes, ground arith)

  call-Moved : (c : Call) (b : Bridge I) (m : Mode) → Shows b m → Moved c m (call S C c b)
  unfolding call
  call-Moved (open_master adapter callback) b m s = open-Moved adapter callback b m s
  call-Moved close_master b m s = close-Moved b m
  call-Moved c b closed s = refused-Moved c b refl s
  call-Moved c b (open_with k) s = worked-Moved c b refl (λ e. cc) s

  -- Any calls, with the results that they return, take the master, from the mode that its statics
  -- show, through a run of the modes: it opens exactly by a positive result, with the callback that
  -- was given, an open one is not opened twice, which returns -2, only closing closes it, other calls
  -- return -1 while it is closed, and leave the mode alone. The statics show the mode at the end; a
  -- closed master has no callback.
  pub session-Runs :
      (cs : List Call) (b : Bridge I) (m : Mode)
      → Shows b m
      → (m1 : Mode) × Runs cs (results S C cs b) m m1 × Shows (session S C cs b) m1
  unfolding session results Moved
  session-Runs [] b m s = (m, stays, s)
  session-Runs (c ∷ cs) b m s =
      let (m1, move, s1) = call-Moved c b m s in
      let (m2, run, s2) = session-Runs cs (call S C c b).1 m1 s1 in (m2, goes move run, s2)
