-- ===== src/Bridge/Session/Lifecycle.antt =====
-- The master of bridge.c over its life: opening, refusing while closed, closing.
use servo_assistant.Base.{
  ℕ, ◌<◌, ◌≡◌, ◌≢◌, ◌⊎◌, refl, minus_one, minus_two, is_positive, true, false, Option, none, some,
  List, [], ◌∷◌, arith,
}
use servo_assistant.Bridge.Soem.{Soem, Coe}
use servo_assistant.Bridge.Master.{Bridge, sa_open, sa_close, sa_slaves, sa_slave_diagnostics}
use servo_assistant.Bridge.Dictionary.{
  sa_od_count, sa_od_item, sa_od_entries, sa_sdo_read, sa_sdo_write,
}
use servo_assistant.Bridge.Session.{
  Call, open_master, close_master, needs_open, target, call, session,
}

-- A closed master has no callback.
pub record IsSilent {I : Type 0} (b : Bridge I) : Type 0 where
  pub silent : (b.opened ≡ true) ⊎ (b.capture ≡ none)

module _ {I : Type 0} (S : Soem I) (C : Coe I) where
  -- A call that works on an open master is refused with -1 while it is closed, and changes nothing.
  pub closed_refuses :
      (c : Call) (b : Bridge I)
      → b.opened ≡ false
      → needs_open c ≡ true
      → call S C c b ≡ (minus_one, b)
  unfolding call sa_slaves sa_slave_diagnostics sa_od_count sa_od_item sa_od_entries sa_sdo_read
      sa_sdo_write
  closed_refuses (open_master a k) b closed n = cc
  closed_refuses _ b closed n = ground arith

  -- So is a call about a slave whose number is 0 or above the number of slaves.
  pub absent_refuses :
      (c : Call) (b : Bridge I) {s : ℕ}
      → target c ≡ some s
      → (s ≡ 0) ⊎ (S.ec_slavecount b.io < s)
      → call S C c b ≡ (minus_one, b)
  unfolding call sa_slaves sa_slave_diagnostics sa_od_count sa_od_item sa_od_entries sa_sdo_read
      sa_sdo_write
  absent_refuses (open_master a k) b t r = cc
  absent_refuses _ b t r = ground arith

  pub call-IsSilent : (c : Call) (b : Bridge I) → IsSilent b → IsSilent (call S C c b).1
  unfolding call sa_open sa_close sa_slaves sa_slave_diagnostics sa_od_count sa_od_item
      sa_od_entries sa_sdo_read sa_sdo_write
  call-IsSilent (open_master a k) b h = ground arith
  call-IsSilent _ b h = ground arith

  -- After any calls, a closed master has no callback.
  pub session-IsSilent : (cs : List Call) (b : Bridge I) → IsSilent b → IsSilent (session S C cs b)
  unfolding session
  session-IsSilent [] b h = h
  session-IsSilent (c ∷ cs) b h = session-IsSilent cs (call S C c b).1 (call-IsSilent c b h)

  -- While the master is open, no call but `sa_close` closes it or changes its callback.
  pub open_stays :
      (c : Call) (b : Bridge I)
      → b.opened ≡ true
      → c ≢ close_master
      → let b' = (call S C c b).1 in (b'.opened ≡ true) × (b'.capture ≡ b.capture)
  unfolding call sa_open sa_close sa_slaves sa_slave_diagnostics sa_od_count sa_od_item
      sa_od_entries sa_sdo_read sa_sdo_write
  open_stays (open_master a k) b h n = ground arith
  open_stays close_master b h n = absurd (n refl)
  open_stays _ b h n = ground arith

-- How opening ends. An open master is not opened twice: -2, and nothing changes. Otherwise the
-- result is positive, the number of slaves, exactly if the master is open afterwards, with the
-- callback that was given; else it is closed and has no callback.
pub sa_open_lem :
    {I : Type 0} (S : Soem I) (adapter : List ℕ) (callback : Option ℕ) (b : Bridge I)
    → let (n, b') = sa_open S adapter callback b in
      ((b.opened ≡ true) × (n ≡ minus_two) × (b' ≡ b))
      ⊎ ((b.opened ≡ false) × (is_positive n ≡ true) × (b'.opened ≡ true) × (b'.capture ≡ callback))
      ⊎ ((b.opened ≡ false) × (is_positive n ≡ false) × (b'.opened ≡ false) × (b'.capture ≡ none))
unfolding sa_open sa_close
sa_open_lem S adapter callback b = ground arith

-- Closing twice is closing once.
pub sa_close_twice :
    {I : Type 0} (S : Soem I) (b : Bridge I) → sa_close S (sa_close S b) ≡ sa_close S b
unfolding sa_close
sa_close_twice S b = ground arith
