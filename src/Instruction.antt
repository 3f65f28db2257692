-- ===== src/Instruction.antt =====
-- of1x_instruction.c and of1x_instruction.h: the instructions of a flow entry. The array of a group
-- has one slot for each kind, at its number less one (OF1X_SAFE_IT_TYPE_INDEX).
pub mod Validate
pub mod Complete
use rofl_fork.Base.{
  ℕ, zero, suc, ◌+◌, ◌-◌, ◌%◌, ◌^◌, Bool, ◌&&◌, ◌||◌, not, List, [], ◌∷◌, Option, none, some, ltb,
  ◌==◌, if◌then◌else◌, set,
}
use rofl_fork.Action.{ActionGroup, WriteActions, write_actions_has, apply_actions_has, repeat}
use rofl_fork.Action.Types.{ActionType}

pub data InstructionType : Type 0 where
  no_instruction apply_actions clear_actions write_actions write_metadata experimenter goto_table :
      InstructionType
  meter : InstructionType

abbrev pub instruction_code : InstructionType → ℕ
instruction_code no_instruction = 0
instruction_code apply_actions = 1
instruction_code clear_actions = 2
instruction_code write_actions = 3
instruction_code write_metadata = 4
instruction_code experimenter = 5
instruction_code goto_table = 6
instruction_code meter = 7

-- OF1X_IT_MAX.
abbrev pub it_max : ℕ
it_max = 7

pub record WriteMetadata : Type 0 where
  pub metadata : ℕ
  pub metadata_mask : ℕ

pub record Instruction : Type 0 where
  pub type : InstructionType
  pub apply_actions : Option ActionGroup
  pub write_actions : Option WriteActions
  pub write_metadata : WriteMetadata
  pub go_to_table : ℕ

-- A slot that memset has cleared.
abbrev pub empty_instruction : Instruction
empty_instruction = record {
  type = no_instruction;
  apply_actions = none;
  write_actions = none;
  write_metadata = record { metadata = 0; metadata_mask = 0 };
  go_to_table = 0;
}

pub record InstructionGroup : Type 0 where
  pub num_of_instructions : ℕ
  pub instructions : List Instruction
  pub num_of_outputs : ℕ

unfoldable pub init_instruction_group : InstructionGroup
init_instruction_group = record {
  num_of_instructions = 0;
  instructions = repeat it_max empty_instruction;
  num_of_outputs = 0;
}

-- The slot at an index; the code never reads another.
abbrev pub instruction_at : List Instruction → ℕ → Instruction
instruction_at [] i = empty_instruction
instruction_at (x ∷ xs) zero = x
instruction_at (x ∷ xs) (suc i) = instruction_at xs i

-- The slot of a kind, which is not OF1X_IT_NO_INSTRUCTION.
abbrev pub slot : InstructionGroup → InstructionType → Instruction
slot g t = instruction_at g.instructions (instruction_code t - 1)

abbrev pub set_slot : InstructionGroup → InstructionType → Instruction → InstructionGroup
set_slot g t i = record g { instructions = set g.instructions (instruction_code t - 1) i }

abbrev pub is_instruction : InstructionType → Instruction → Bool
is_instruction t i = instruction_code i.type == instruction_code t

-- __of1x_init_instruction on the slot as it was.
unfoldable pub init_instruction :
    Instruction
    → InstructionType
    → Option ActionGroup
    → Option WriteActions
    → Option WriteMetadata
    → ℕ
    → Instruction
init_instruction i no_instruction apply write metadata table = i
init_instruction i type apply write metadata table = record {
  type = type;
  apply_actions = apply;
  write_actions = write;
  write_metadata = elim metadata [ none ↦ i.write_metadata | some m ↦ m ];
  go_to_table = if instruction_code type == 6 then table else i.go_to_table;
}

-- The action list and set of the slot are freed; the slot keeps its kind and its pointers.
unfoldable pub remove_instruction_from_the_group :
    InstructionGroup → InstructionType → InstructionGroup
remove_instruction_from_the_group g t = record g {
  num_of_instructions = (g.num_of_instructions + (2 ^ 32 - 1)) % 2 ^ 32;
}

unfoldable pub add_instruction_to_group :
    InstructionGroup
    → InstructionType
    → Option ActionGroup
    → Option WriteActions
    → Option WriteMetadata
    → ℕ
    → InstructionGroup
unfolding init_instruction remove_instruction_from_the_group
add_instruction_to_group g t apply write metadata table =
    let h =
      if not (is_instruction no_instruction (slot g t))
      then remove_instruction_from_the_group g t
      else g in
    let i = init_instruction (slot h t) t apply write metadata table in
    record (set_slot h t i) { num_of_instructions = (h.num_of_instructions + 1) % 2 ^ 32 }

-- The groups after the update: the one that is updated, and the new one, which gives its actions away.
unfoldable pub update_instructions :
    InstructionGroup → InstructionGroup → InstructionGroup × InstructionGroup
update_instructions g new =
    let apply = record (slot g apply_actions) {
      apply_actions = (slot new apply_actions).apply_actions;
    } in
    let g1 = set_slot g apply_actions apply in
    let new1 = set_slot new apply_actions empty_instruction in
    let write = record (slot g1 write_actions) {
      write_actions = (slot new1 write_actions).write_actions;
    } in
    let g2 = set_slot g1 write_actions write in
    let new2 = set_slot new1 write_actions empty_instruction in
    let g3 = set_slot g2 clear_actions (slot new2 clear_actions) in
    let g4 = set_slot g3 goto_table (slot new2 goto_table) in
    (record g4 { num_of_instructions = new2.num_of_instructions }, new2)

unfoldable pub instruction_has : InstructionGroup → ActionType → ℕ → Bool
instruction_has g type value =
    write_actions_has (slot g write_actions).write_actions type value
    || apply_actions_has (slot g apply_actions).apply_actions type value

unfoldable pub process_instructions_must_replicate : InstructionGroup → Bool
process_instructions_must_replicate g =
    let has_goto = is_instruction goto_table (slot g goto_table) in
    (g.num_of_outputs == 1 && has_goto) || ltb 1 g.num_of_outputs
