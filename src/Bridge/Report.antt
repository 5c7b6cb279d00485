-- ===== src/Bridge/Report.antt =====
-- Texts that bridge.c hands out: the list of adapters, and SOEM's list of errors. A C string stands
-- for its bytes; `used` counts the bytes in `out`.
pub mod Errors
pub mod Adapters
use servo_assistant.Base.{
  as_int, ℕ, zero, suc, ◌+◌, ◌-◌, ℤ, pos, minus_one, minus_two, is_negative, is_zero, Bool, true,
  false, Option, none, some, List, [], ◌∷◌, ◌++◌, length, take, ltb, leb, if◌then◌else◌, c_string,
}
use servo_assistant.Bridge.Npcap.{Device, Npcap, Io}
use servo_assistant.Bridge.Shim.{pcap_findalldevs, pcap_freealldevs}
use servo_assistant.Bridge.Soem.{Soem}

-- "%s\t%s\n" of the name and the description, or the name again
unfoldable pub adapter_line : Device → List ℕ
adapter_line d =
    c_string d.name
    ++ (9
        ∷ (elim d.description [ none ↦ c_string d.name | some text ↦ c_string text ] ++ (10 ∷ [])))

-- The loop over the devices: `none` where a line does not fit with its terminating zero.
unfoldable pub adapter_lines : ℕ → ℕ → List ℕ → List Device → Option (ℕ × List ℕ)
adapter_lines capacity used out [] = some (used, out)
adapter_lines capacity used out (d ∷ ds) =
    let n = length (adapter_line d) in
    let rest = adapter_lines capacity (used + n) (out ++ adapter_line d) ds in
    if leb capacity (used + n) then none else rest

module _ {D : Type 0} (N : Npcap D) where
  unfoldable pub sa_adapters : ℕ → Io D → ℤ × List ℕ × Io D
  sa_adapters capacity io =
      let (r, ds, m, io1) = pcap_findalldevs N io in
      if is_negative r then (minus_one, [], io1) else elim (adapter_lines capacity 0 [] ds) [
        | none ↦ (minus_two, [], pcap_freealldevs N ds io1)
        | some (used, out) ↦ (pos used, out, pcap_freealldevs N ds io1)
      ]

  -- The counter of dropped packets of a handle, -1 where it cannot be read.
  unfoldable pub drops_of : ℕ → D → ℤ × D
  drops_of h d =
      let (r, dropped, d') = N.p_stats h d in (if is_zero r then as_int dropped else minus_one, d')

  unfoldable pub sa_drops : Io D → ℤ × Io D
  sa_drops io = elim io.master_socket [
    | none ↦ (minus_one, io)
    | some h ↦ (let (r, d) = drops_of h io.driver in (r, record io { driver = d }))
  ]

-- `snprintf(out + used, capacity - used, "%s", message)`, where there is room: the bytes that
-- stay, and how many.
unfoldable pub append_message : ℕ → ℕ → List ℕ → List ℕ → ℕ × List ℕ
append_message capacity used out message =
    let n = length (c_string message) in
    let kept = if ltb n (capacity - used) then n else capacity - used - 1 in
    if ltb (used + 1) capacity
    then (used + kept, out ++ take kept (c_string message))
    else (used, out)

module _ {I : Type 0} (S : Soem I) where
  -- `while (ec_iserror()) { … }`, on fuel; `none` where the fuel ran out.
  unfoldable pub sa_error_loop : ℕ → ℕ → ℕ → List ℕ → I → Option (ℕ × List ℕ × I)
  sa_error_loop zero capacity used out i = none
  sa_error_loop (suc fuel) capacity used out i =
      let (message, i1) = S.ec_elist2string i in
      let (used', out') = append_message capacity used out message in
      let rest = sa_error_loop fuel capacity used' out' i1 in
      if S.ec_iserror i then rest else some (used, out, i)

  unfoldable pub sa_error : ℕ → ℕ → I → Option (ℕ × List ℕ × I)
  sa_error fuel capacity i = sa_error_loop fuel capacity 0 [] i
