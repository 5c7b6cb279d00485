-- ===== src/Nic/Invariant.antt =====
-- What holds of a port between the calls: its arrays have their sizes, the EtherCAT header in each
-- receive buffer has a length that fits it, and an index whose frame is on the wire has one that
-- fits the buffers.
use servo_assistant.Base.{
  ℕ, ◌+◌, ◌*◌, ◌%◌, ◌≤◌, ◌<◌, ◌≡◌, ◌≢◌, ◌⊎◌, inl, inr, refl, ap, Option, some, List, [], length,
  get_or, set, sym, ◌∙◌, ◌==◌, arith, Bool-cases, length-set, get_or-set_self, get_or-set_ne,
  lt→ltb,
}
use mathlib.Core.Path.{subst}
use servo_assistant.Nic.{Stack, Port, max_buf, buf_size, buf_tx, set_status, setbufstat}

-- An array element as a `uint8`.
abbrev pub byte_at : List ℕ → ℕ → ℕ
byte_at b k = get_or b k 0 % 256

-- The length in the EtherCAT header at the start of a receive buffer.
unfoldable pub ecat_length : List ℕ → ℕ
ecat_length b = byte_at b 0 + 256 * (byte_at b 1 % 16)

abbrev pub IsBuffer : List ℕ → Type 0
IsBuffer b = (length b ≡ buf_size) × (ecat_length b + 2 ≤ buf_size)

-- A frame of this length can be sent, and its reply stored.
abbrev pub IsSendable : ℕ → Type 0
IsSendable n = (16 ≤ n) × (n ≤ buf_size)

pub record IsStack (lens : List ℕ) (st : Stack) : Type 0 where
  pub temp : length st.tempbuf ≡ buf_size
  pub buffers : length st.rxbuf ≡ max_buf
  pub states : length st.rxbufstat ≡ max_buf
  pub sources : length st.rxsa ≡ max_buf
  pub each : (j : ℕ) → j < max_buf → IsBuffer (get_or st.rxbuf j [])
  pub sent : (j : ℕ) → get_or st.rxbufstat j 0 ≡ buf_tx → IsSendable (get_or lens j 0)

-- There is no redundancy, or there is a second stack.
abbrev pub IsRedundant : Port → Type 0
IsRedundant p = (p.redstate ≡ 0) ⊎ ((r : Stack) × (p.red ≡ some r) × IsStack p.txbuflength r)

pub record IsPort (p : Port) : Type 0 where
  pub primary : IsStack p.txbuflength p.prim
  pub secondary : IsRedundant p
  pub lengths : length p.txbuflength ≡ max_buf
  pub tx_count : length p.txbuf ≡ max_buf
  pub tx_each : (j : ℕ) → j < max_buf → length (get_or p.txbuf j []) ≡ buf_size
  pub tx_spare : length p.txbuf2 ≡ buf_size
  pub tx_spare_length : p.txbuflength2 ≤ buf_size

abbrev pub with_status : ℕ → ℕ → Stack → Stack
with_status idx v st = record st { rxbufstat = set st.rxbufstat idx v }

-- Another state for one index, which is not that of a frame on the wire unless its length allows.
pub set_status-IsStack :
    (lens : List ℕ) (st : Stack) (idx v : ℕ)
    → IsStack lens st
    → idx < max_buf
    → (v ≢ buf_tx) ⊎ IsSendable (get_or lens idx 0)
    → (set_status idx v st ≡ some (with_status idx v st)) × IsStack lens (with_status idx v st)
unfolding set_status
set_status-IsStack lens st idx v w h ok = (
  rw (set_status, lt→ltb idx (length st.rxbufstat) (omega (arith, w.states))),
  record {
    temp = w.temp;
    buffers = w.buffers;
    states = omega (arith, length-set st.rxbufstat idx v, w.states);
    sources = w.sources;
    each = w.each;
    sent = λ j e. elim (Bool-cases (idx == j)) [
      | inl same ↦
          (let q : idx ≡ j = ground arith in
            let x : get_or (set st.rxbufstat idx v) idx 0 ≡ v =
              get_or-set_self st.rxbufstat idx v 0 (omega (arith, w.states)) in
            elim ok [
              | inl n ↦ absurd (n (sym x ∙ ap (λ k. get_or (set st.rxbufstat idx v) k 0) q ∙ e))
              | inr s ↦ subst (λ k. IsSendable (get_or lens k 0)) q s
            ])
      | inr other ↦
          (let n : idx ≢ j = ground arith in w.sent j (sym (get_or-set_ne st.rxbufstat v 0 n) ∙ e))
    ];
  },
)

-- The stacks are replaced, and what a call leaves beside them.
pub IsPort-stacks :
    (p : Port) (st : Stack) (red : Option Stack) (n last : ℕ)
    → IsPort p
    → IsStack p.txbuflength st
    → IsRedundant (record p { red = red })
    → IsPort (record p { prim = st; red = red; tempinbufs = n; lastidx = last })
IsPort-stacks p st red n last w x y = record {
  primary = x;
  secondary = y;
  lengths = w.lengths;
  tx_count = w.tx_count;
  tx_each = w.tx_each;
  tx_spare = w.tx_spare;
  tx_spare_length = w.tx_spare_length;
}

-- The state of an index in both stacks.
pub setbufstat-IsPort :
    (p : Port) (idx v : ℕ)
    → IsPort p
    → idx < max_buf
    → v ≢ buf_tx
    → (red : Option Stack) × (setbufstat idx v p
        ≡ some (record p { prim = with_status idx v p.prim; red = red }))
      × IsPort (record p { prim = with_status idx v p.prim; red = red })
unfolding setbufstat
setbufstat-IsPort p idx v w h n =
    let (e, w1) = set_status-IsStack p.txbuflength p.prim idx v w.primary h (inl n) in
    elim (Bool-cases (p.redstate == 0)) [
      | inl single ↦ (
        p.red,
        rw (setbufstat, e, single),
        IsPort-stacks p (with_status idx v p.prim) p.red p.tempinbufs p.lastidx w w1 w.secondary,
      )
      | inr double ↦ elim w.secondary [
        | inl single ↦ absurd (ground arith)
        | inr (r, f, x) ↦
            (let (g, x1) = set_status-IsStack p.txbuflength r idx v x h (inl n) in
              (
                some (with_status idx v r),
                rw (setbufstat, e, double, f, g),
                IsPort-stacks p (with_status idx v p.prim) (some (with_status idx v r)) p.tempinbufs
                    p.lastidx w w1 (inr (with_status idx v r, refl, x1)),
              ))
      ]
    ]
