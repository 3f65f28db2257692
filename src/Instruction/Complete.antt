-- ===== src/Instruction/Complete.antt =====
-- Where the validation of instructions and entries reads through no NULL pointer.
use rofl_fork.Base.{
  ℕ, ◌+◌, ◌%◌, ◌^◌, ◌≡◌, refl, true, List, [], ◌∷◌, Option, is_some, All, arith, Option-cases, inl,
  inr,
}
use rofl_fork.Group.Table.{GroupTable}
use rofl_fork.Instruction.{Instruction, InstructionGroup, InstructionType}
use rofl_fork.Instruction.Validate.{validate_slot, validate_slots, validate_instructions}

-- An instruction to apply actions has a list of them, and one to write actions has a set.
abbrev pub IsComplete : Instruction → Type 0
IsComplete i =
    (i.type ≡ InstructionType.apply_actions → is_some i.apply_actions ≡ true)
    × (i.type ≡ InstructionType.write_actions → is_some i.write_actions ≡ true)

validate_slot-some :
    (version : ℕ) (gt : Option GroupTable) (i : Instruction)
    → IsComplete i
    → is_some (validate_slot version gt i) ≡ true
unfolding validate_slot
validate_slot-some version gt i (a, w) = ground arith

validate_slots-some :
    (version : ℕ) (gt : Option GroupTable) (xs : List Instruction) (n : ℕ)
    → All IsComplete xs
    → is_some (validate_slots version gt xs n) ≡ true
unfolding validate_slots
validate_slots-some version gt [] n c = refl
validate_slots-some version gt (i ∷ xs) n (c, cs) =
    elim (Option-cases (validate_slot version gt i)) [
      | inl e ↦ ground (arith, validate_slot-some version gt i c)
      | inr (o, e) ↦
          let h = validate_slots-some version gt xs ((n + o.outputs) % 2 ^ 32) cs in
          ground (arith, h)
    ]

pub validate_instructions-some :
    (version : ℕ) (gt : Option GroupTable) (g : InstructionGroup)
    → All IsComplete g.instructions
    → is_some (validate_instructions version gt g) ≡ true
unfolding validate_instructions
validate_instructions-some version gt g c =
    ground (arith, validate_slots-some version gt g.instructions 0 c)
