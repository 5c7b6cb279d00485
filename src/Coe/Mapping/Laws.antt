-- ===== src/Coe/Mapping/Laws.antt =====
-- The mapping of a slave's sync managers is found, and the types that slaves get wrong.
use servo_assistant.Base.{
  ℕ, ◌≢◌, ◌+◌, ◌≤◌, ◌<◌, ◌≡◌, ◌⊎◌, inl, inr, ℤ, ◌||◌, some, ltb, ◌==◌, arith, Bool-cases,
  if◌then◌else◌,
}
use servo_assistant.Coe.Mailbox.{Mailbox}
use servo_assistant.Coe.Pdo.{read_number}
use servo_assistant.Coe.Mapping.{SyncManagers, Mapped, type_bug, corrected_type, add_mapping}

-- The types of sync managers 2 and 3: the right ones are kept, and those of slaves that count from 0,
-- or leave them at 0, become outputs and inputs.
pub corrected_types :
    (t2 t3 : ℕ)
    → ((t2 ≡ 3) × (t3 ≡ 4)) ⊎ (((t2 ≡ 2) × (t3 ≡ 3)) ⊎ ((t2 ≡ 0) × (t3 ≡ 0)))
    → (corrected_type 2 t2 (type_bug 2 t2 0) ≡ 3)
      × (corrected_type 3 t3 (type_bug 3 t3 (type_bug 2 t2 0)) ≡ 4)
unfolding corrected_type type_bug
corrected_types t2 t3 h = (ground arith, ground arith)

-- No PDO assign object of the slave says that it has more than 5000 PDOs.
pub record CountsPdos {I : Type 0} (M : Mailbox I) (slave : ℕ) : Type 0 where
  pub bound :
      (assign : ℕ) (i : I) (wkc : ℤ) (count : ℕ) (j : I)
      → read_number M slave assign 0 2 i ≡ some (wkc, count, j)
      → count ≤ 5000

-- The bits of outputs and inputs together.
abbrev pub bits : {I : Type 0} → Mapped I → ℕ
bits m = m.osize + m.isize

pub add_mapping-bits :
    {I : Type 0} (M : Mailbox I) (S : SyncManagers I) (slave sm t size : ℕ) (m : Mapped I)
    → bits (add_mapping M S slave sm t size m) ≡ bits m + size
unfolding add_mapping
add_mapping-bits M S slave sm t size m = ground arith

-- Type 3 adds to the outputs only, and other types to the inputs only.
pub add_mapping-kinds :
    {I : Type 0} (M : Mailbox I) (S : SyncManagers I) (slave sm t size : ℕ) (m : Mapped I)
    → (let m1 = add_mapping M S slave sm t size m in
        ((t ≡ 3) ⊎ (m1.osize ≡ m.osize)) × ((t ≢ 3) ⊎ (m1.isize ≡ m.isize)) × (m1.bug ≡ m.bug))
unfolding add_mapping
add_mapping-kinds M S slave sm t size m = elim (Bool-cases (t == 3)) [
  | inl e ↦ (inl (ground arith), inr (ground arith), ground arith)
  | inr e ↦ (inr (ground arith), inl (λ q. ground arith), ground arith)
]

abbrev pub found : {I : Type 0} → Mapped I → ℕ
found m = if ltb 0 m.isize || ltb 0 m.osize then 1 else 0

pub found_lem :
    {I : Type 0} (m : Mapped I)
    → ((found m ≡ 1) × (0 < m.osize + m.isize)) ⊎ ((found m ≡ 0) × (m.osize + m.isize ≡ 0))
found_lem m = ground arith
