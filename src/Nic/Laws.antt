-- ===== src/Nic/Laws.antt =====
-- The allocation of a frame index.
use servo_assistant.Base.{
  ℕ, zero, suc, ◌+◌, ◌-◌, ◌%◌, ◌<◌, ◌≡◌, ◌≢◌, ◌⊎◌, ◌∙◌, ap, inl, inr, refl, List, get_or, set, none,
  some, sym, true, get_or-set_ne, ◌==◌, arith, Bool-cases,
}
use servo_assistant.Nic.Invariant.{IsPort, IsPort-stacks, with_status, setbufstat-IsPort}
use servo_assistant.Nic.{
  Stack, Port, max_buf, buf_empty, buf_alloc, next_index, find_index, getindex, enter-true,
}

next_index_mod : (idx : ℕ) → idx < max_buf → next_index idx ≡ (idx + 1) % 16
unfolding next_index
next_index_mod idx h = ground arith

next_index_lt : (idx : ℕ) → next_index idx < max_buf
unfolding next_index
next_index_lt idx = ground arith

-- The search ends at an empty buffer, or has seen `k` that are not.
find_index_lem :
    (k : ℕ) (stat : List ℕ) (idx : ℕ)
    → idx < max_buf
    → (find_index k stat idx < max_buf)
      × ((get_or stat (find_index k stat idx) 0 ≡ buf_empty)
          ⊎ ((m : ℕ) → m < k → get_or stat ((idx + m) % 16) 0 ≢ buf_empty))
unfolding find_index
find_index_lem zero stat idx h = (h, inr (λ m l. absurd (omega arith)))
find_index_lem (suc k) stat idx h = elim (Bool-cases (get_or stat idx 0 == buf_empty)) [
  | inl e ↦ rw (find_index, e) (h, inl (ground arith))
  | inr e ↦
      (let (a, b) = find_index_lem k stat (next_index idx) (next_index_lt idx) in
        rw (find_index, e)
          (a, elim b [ inl f ↦ inl f | inr f ↦ inr (busy k stat idx h (ground arith) f) ]))
]
  where
    busy :
        (k : ℕ) (stat : List ℕ) (idx : ℕ)
        → idx < max_buf
        → get_or stat idx 0 ≢ buf_empty
        → ((m : ℕ) → m < k → get_or stat ((next_index idx + m) % 16) 0 ≢ buf_empty)
        → (m : ℕ) → m < suc k
        → get_or stat ((idx + m) % 16) 0 ≢ buf_empty
    busy k stat idx h n f zero l q = n (ap (λ j. get_or stat j 0) (omega arith) ∙ q)
    busy k stat idx h n f (suc m) l q =
        f m (omega arith) (ap (λ j. get_or stat j 0) (omega (arith, next_index_mod idx h)) ∙ q)

-- Where a buffer of a well-formed port is empty, an index below 16 is given whose buffer was empty;
-- it is marked as allocated and is the last index, no other buffer's state changes in the primary
-- stack, and the port stays well formed.
pub getindex_free :
    (p : Port) (j : ℕ)
    → IsPort p
    → p.getindex_mutex ≡ true
    → j < max_buf
    → get_or p.prim.rxbufstat j 0 ≡ buf_empty
    → (idx : ℕ) × (p1 : Port) × (getindex p ≡ some (idx, p1))
      × (idx < max_buf)
      × (get_or p.prim.rxbufstat idx 0 ≡ buf_empty)
      × (p1.prim.rxbufstat ≡ set p.prim.rxbufstat idx buf_alloc)
      × (p1.lastidx ≡ idx)
      × IsPort p1
unfolding getindex
getindex_free p j w mutex h e =
    let start = next_index p.lastidx in
    let b : start < 16 = next_index_lt p.lastidx in
    let idx = find_index max_buf p.prim.rxbufstat start in
    let (a, c) = find_index_lem 16 p.prim.rxbufstat start b in
    let free : get_or p.prim.rxbufstat idx 0 ≡ buf_empty = elim c [
      | inl f ↦ f
      | inr f ↦ absurd (
          f ((j + 16 - start) % 16) (omega arith)
            (ap (λ k. get_or p.prim.rxbufstat k 0) (omega (arith, b)) ∙ e))
    ] in
    let (red, f, v) = setbufstat-IsPort p idx buf_alloc w a (λ x. ground arith) in
    (
      idx,
      record p { prim = with_status idx buf_alloc p.prim; red = red; lastidx = idx },
      rw (getindex, enter-true _ mutex, f),
      a,
      free,
      refl,
      refl,
      IsPort-stacks p (with_status idx buf_alloc p.prim) red p.tempinbufs idx w v.primary
          v.secondary,
    )

-- The allocation of an index in a well-formed port leaves the state of every other buffer as it was.
pub getindex_others :
    (p : Port) (j idx : ℕ) (p1 : Port)
    → IsPort p
    → p.getindex_mutex ≡ true
    → getindex p ≡ some (idx, p1)
    → idx ≢ j
    → get_or p1.prim.rxbufstat j 0 ≡ get_or p.prim.rxbufstat j 0
unfolding getindex
getindex_others p j idx p1 w mutex e n =
    let k = find_index max_buf p.prim.rxbufstat (next_index p.lastidx) in
    let (a, c) =
      find_index_lem 16 p.prim.rxbufstat (next_index p.lastidx) (next_index_lt p.lastidx) in
    let (red, f, v) = setbufstat-IsPort p k buf_alloc w a (λ x. ground arith) in
    let r : getindex p
        ≡ some (k, record p { prim = with_status k buf_alloc p.prim; red = red; lastidx = k }) =
      rw (getindex, enter-true _ mutex, f) in
    let same : some (k, record p { prim = with_status k buf_alloc p.prim; red = red; lastidx = k })
        ≡ some (idx, p1) =
      sym r ∙ e in
    let ki : k ≡ idx = ap (λ o. elim o [ none ↦ 0 | some (x, y) ↦ x ]) same in
    let pi : with_status k buf_alloc p.prim ≡ p1.prim =
      ap (λ o. elim o [ none ↦ p.prim | some (x, y) ↦ y.prim ]) same in
    ap (λ (s : Stack). get_or s.rxbufstat j 0) (sym pi)
    ∙ get_or-set_ne p.prim.rxbufstat buf_alloc 0 (λ z. n (sym ki ∙ z))
