-- ===== src/Coe/Complete/Kinds.antt =====
-- The types of sync managers that outputs and inputs come from.
use servo_assistant.Base.{
  ℕ, ◌≢◌, ◌∙◌, List, arith, ◌≤◌, ◌+◌, ◌%◌, ◌^◌, ◌<◌, ◌≡◌, ◌⊎◌, inl, inr, true, ◌||◌, ◌==◌,
  Bool-cases, if◌then◌else◌,
}
use native.Mathlib.Decide.{dec_lt}
use servo_assistant.Coe.Mailbox.{Mailbox}
use servo_assistant.Coe.Layout.{byte_at}
use servo_assistant.Coe.Mapping.{SyncManagers, Mapped, max_sm, type_bug, add_mapping}
use servo_assistant.Coe.Mapping.Laws.{add_mapping-kinds}

-- The table says of a sync manager that it has a type, or the one before it, for slaves that count
-- from 0.
abbrev pub HasType : List ℕ → ℕ → Type 0
HasType comm type =
    (sm : ℕ) × (sm < max_sm)
    × ((byte_at comm (2 + sm) % 2 ^ 8 ≡ type) ⊎ (byte_at comm (2 + sm) % 2 ^ 8 + 1 ≡ type))

-- There are outputs only by a sync manager for outputs, and inputs only by one for inputs.
pub record Explained {I : Type 0} (comm : List ℕ) (m : Mapped I) : Type 0 where
  pub outputs : (m.osize ≡ 0) ⊎ HasType comm 3
  pub inputs : (m.isize ≡ 0) ⊎ HasType comm 4
  pub bug : m.bug ≤ 1

pub type_bug_le : (sm t bug : ℕ) → bug ≤ 1 → type_bug sm t bug ≤ 1
unfolding type_bug
type_bug_le sm t bug h = ground arith

used_type :
    (comm : List ℕ) (sm bug type : ℕ)
    → sm < max_sm
    → bug ≤ 1
    → 0 < type
    → (let t = byte_at comm (2 + sm) in if t == 0 then t else (t + bug) % 2 ^ 8) ≡ type
    → HasType comm type
used_type comm sm bug type h b p e = elim (Bool-cases (byte_at comm (2 + sm) == 0)) [
  | inl z ↦ absurd (ground arith)
  | inr n ↦
      (let q : (byte_at comm (2 + sm) + bug) % 2 ^ 8 ≡ type = ground arith in
        (
          sm,
          h,
          elim (dec_lt 0 bug) [ yes one ↦ inr (omega arith) | no none_added ↦ inl (omega arith) ],
        ))
]

four : (used : ℕ) → (used == 3 || used == 4) ≡ true → used ≢ 3 → used ≡ 4
four used p n = ground arith

pub mapped-Explained :
    {I : Type 0} (M : Mailbox I) (S : SyncManagers I) (slave sm size : ℕ) (comm : List ℕ)
    (m : Mapped I) (io : I)
    → sm < max_sm
    → Explained comm m
    → (let t = byte_at comm (2 + sm) in
        let bug = type_bug sm t m.bug in
        let used = if t == 0 then t else (t + bug) % 2 ^ 8 in
        (used == 3 || used == 4) ≡ true
        → Explained comm (add_mapping M S slave sm used size (record m { bug = bug; io = io })))
mapped-Explained M S slave sm size comm m io h x = λ p.
    let t = byte_at comm (2 + sm) in
    let bug = type_bug sm t m.bug in
    let used : ℕ = if t == 0 then t else (t + bug) % 2 ^ 8 in
    let low = type_bug_le sm t m.bug x.bug in
    let (o, n, b) = add_mapping-kinds M S slave sm used size (record m { bug = bug; io = io }) in
    record {
      outputs = elim o [
        | inl three ↦ inr (used_type comm sm bug 3 h low (omega arith) three)
        | inr same ↦ elim x.outputs [ inl z ↦ inl (same ∙ z) | inr q ↦ inr q ]
      ];
      inputs = elim n [
        | inl other ↦ inr (used_type comm sm bug 4 h low (omega arith) (four used p other))
        | inr same ↦ elim x.inputs [ inl z ↦ inl (same ∙ z) | inr q ↦ inr q ]
      ];
      bug = omega (arith, b, low);
    }
