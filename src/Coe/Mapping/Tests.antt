-- ===== src/Coe/Mapping/Tests.antt =====
-- The theorems about `ecx_readPDOmap` at concrete inputs.
use servo_assistant.Base.{ℕ, List, [], ◌∷◌}

-- A slave with three sync managers, whose types cannot be read.
abbrev managers_response : List ℕ
managers_response = 10 ∷ 0 ∷ 0 ∷ 0 ∷ 0 ∷ 0x13 ∷ 0 ∷ 0x30 ∷ 0x4f ∷ 0 ∷ 0x1c ∷ 0 ∷ 3 ∷ []
