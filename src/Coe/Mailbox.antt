-- ===== src/Coe/Mailbox.antt =====
-- What ethercatcoe.c calls of the rest of SOEM, whose files are those of the upstream project: the
-- mailbox, the list of errors, the slave table and the timers, over an unknown state `I`. And the
-- error reports that ethercatcoe.c makes with them.
use servo_assistant.Base.{ℕ, ℤ, Bool, List, length, ◌≡◌}

-- EC_MAXMBX, and the size of an `ec_mbxbuft`
abbrev pub max_mbx : ℕ
max_mbx = 1486

abbrev pub mbx_size : ℕ
mbx_size = 1487

-- EC_TIMEOUTTXM
abbrev pub timeout_txm : ℕ
timeout_txm = 20_000

-- the `ec_err_type` values that this file uses
pub data ErrorType : Type 0 where
  sdo_error sdoinfo_error : ErrorType

-- the fields of an `ec_errort` that this file sets
pub record ErrorRecord : Type 0 where
  pub time : ℕ
  pub slave : ℕ
  pub index : ℕ
  pub sub_idx : ℕ
  pub etype : ErrorType
  pub abort_code : ℕ

pub record Mailbox (I : Type 0) : Type 0 where
  -- `ecx_mbxreceive` of a slave into a buffer, with a time-out; `ecx_mbxsend` of a buffer
  pub mbxreceive : ℕ → List ℕ → ℕ → I → ℤ × List ℕ × I
  pub mbxsend : ℕ → List ℕ → ℕ → I → ℤ × I
  -- slave, index, subindex, error code
  pub packeterror : ℕ → ℕ → ℕ → ℕ → I → I
  pub pusherror : ErrorRecord → I → I
  pub set_ecaterror : I → I
  pub current_time : I → ℕ
  -- the slave table's `mbx_cnt` and `mbx_l`, and `ec_nextmbxcnt`
  pub mbx_cnt : ℕ → I → ℕ
  pub set_mbx_cnt : ℕ → ℕ → I → I
  pub mbx_l : ℕ → I → ℕ
  pub nextmbxcnt : ℕ → ℕ
  -- `osal_timer_start` gives the moment at which the timer expires
  pub timer_start : ℕ → I → ℕ × I
  pub timer_is_expired : ℕ → I → Bool × I

-- A mailbox buffer is an array: what is received into one has its size.
pub record KeepsSize {I : Type 0} (M : Mailbox I) : Type 0 where
  pub size :
      (slave : ℕ) (buf : List ℕ) (timeout : ℕ) (i : I)
      → length (M.mbxreceive slave buf timeout i).1 ≡ length buf

module _ {I : Type 0} (M : Mailbox I) where
  unfoldable pub sdo_error_report : ℕ → ℕ → ℕ → ℕ → I → I
  sdo_error_report slave index sub_idx abort_code i =
      let ec : ErrorRecord = record {
        time = M.current_time i;
        slave = slave;
        index = index;
        sub_idx = sub_idx;
        etype = ErrorType.sdo_error;
        abort_code = abort_code;
      } in
      M.pusherror ec (M.set_ecaterror i)

  -- This one leaves the time at zero.
  unfoldable pub sdoinfo_error_report : ℕ → ℕ → ℕ → ℕ → I → I
  sdoinfo_error_report slave index sub_idx abort_code i =
      let ec : ErrorRecord = record {
        time = 0;
        slave = slave;
        index = index;
        sub_idx = sub_idx;
        etype = ErrorType.sdoinfo_error;
        abort_code = abort_code;
      } in
      M.pusherror ec (M.set_ecaterror i)

  -- `cnt = ec_nextmbxcnt(…mbx_cnt); ….mbx_cnt = cnt;`
  unfoldable pub next_count : ℕ → I → ℕ × I
  next_count slave i =
      let cnt = M.nextmbxcnt (M.mbx_cnt slave i) in (cnt, M.set_mbx_cnt slave cnt i)
