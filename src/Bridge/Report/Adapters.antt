-- ===== src/Bridge/Report/Adapters.antt =====
-- `sa_adapters` of bridge.c writes one line for each adapter, all of them or none.
use servo_assistant.Base.{
  ℕ, ◌+◌, ◌≤◌, ◌<◌, ◌≡◌, ◌∙◌, inl, inr, ap, ℤ, pos, minus_two, false, is_negative, none, some, List,
  [], ◌∷◌, ◌++◌, length, arith, length-append, append_assoc, append-nil, if◌then◌else◌, leb, ltb,
  lt→leb, Bool-cases,
}
use native.Mathlib.Decide.{dec_lt}
use servo_assistant.Bridge.Npcap.{Device, Npcap, Io}
use servo_assistant.Bridge.Shim.{Message, pcap_findalldevs, pcap_freealldevs}
use servo_assistant.Bridge.Report.{adapter_line, adapter_lines, sa_adapters}

-- the whole listing
unfoldable pub listing : List Device → List ℕ
listing [] = []
listing (d ∷ ds) = adapter_line d ++ listing ds

-- The loop gives the whole listing if it fits with its terminating zero, and fails if it does not.
adapter_lines_fit :
    (capacity used : ℕ) (out : List ℕ) (ds : List Device)
    → used + length (listing ds) < capacity
    → adapter_lines capacity used out ds ≡ some (used + length (listing ds), out ++ listing ds)
unfolding adapter_lines listing
adapter_lines_fit capacity used out [] h = ground (arith, append-nil out)
adapter_lines_fit capacity used out (d ∷ ds) h =
    let line = adapter_line d in
    let size = length-append line (listing ds) in
    rw
      (
        lt→leb capacity (used + length line) (omega (arith, size)),
        adapter_lines_fit capacity (used + length line) (out ++ line) ds (omega (arith, size)),
        append_assoc,
      )
      (ap (λ k. some (k, out ++ (line ++ listing ds))) (omega (arith, size)))

adapter_lines_overflow :
    (capacity used : ℕ) (out : List ℕ) (ds : List Device)
    → used < capacity
    → capacity ≤ used + length (listing ds)
    → adapter_lines capacity used out ds ≡ none
unfolding adapter_lines listing
adapter_lines_overflow capacity used out [] s h = absurd (omega arith)
adapter_lines_overflow capacity used out (d ∷ ds) s h =
    let line = adapter_line d in
    let size = length-append line (listing ds) in
    elim (Bool-cases (leb capacity (used + length line))) [
      | inl over ↦ rw over
      | inr fits ↦ rw fits (
          adapter_lines_overflow capacity (used + length line) (out ++ line) ds (ground arith)
            (omega (arith, size)))
    ]

adapter_lines_all :
    (capacity : ℕ) (ds : List Device)
    → length (listing ds) < capacity
    → adapter_lines capacity 0 [] ds ≡ some (length (listing ds), listing ds)
adapter_lines_all capacity ds h =
    adapter_lines_fit capacity 0 [] ds (omega arith) ∙ ap (λ k. some (k, listing ds)) (omega arith)

module _ {D : Type 0} (N : Npcap D) where
  -- For a buffer of some capacity, and a driver that lists its devices: `sa_adapters` writes the line
  -- of every device, in order, and returns their total length, if that leaves room for a terminating
  -- zero, and else returns -2. Either way it gives the list of devices back.
  pub sa_adapters_lem :
      (capacity : ℕ) (io : Io D) {r : ℤ} {ds : List Device} {m : Message} {io1 : Io D}
      → 0 < capacity
      → pcap_findalldevs N io ≡ (r, ds, m, io1)
      → is_negative r ≡ false
      → sa_adapters N capacity io ≡ (
          let all = listing ds in
          let freed = pcap_freealldevs N ds io1 in
          if ltb (length all) capacity
          then (pos (length all), all, freed)
          else (minus_two, [], freed))
  unfolding sa_adapters
  sa_adapters_lem capacity io {ds = ds} room found good =
      elim (dec_lt (length (listing ds)) capacity) [
        | yes fits ↦ ground (arith, adapter_lines_all capacity ds fits)
        | no over ↦ ground (arith, adapter_lines_overflow capacity 0 [] ds room (omega arith))
      ]
