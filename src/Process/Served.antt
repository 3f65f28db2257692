-- ===== src/Process/Served.antt =====
-- Flow entries that serve each packet to an end, and what the tables do with a packet then.
use rofl_fork.Action.{Action, ActionGroup, clear_write_actions}
use rofl_fork.Base.{
  ◌∙◌, Gives, Gives-bind, Gives-map, all, ℕ, ◌≡◌, ◌⊎◌, refl, Bool, true, false, ◌&&◌, ◌||◌, not,
  List, [], ◌∷◌, ◌++◌, Option, none, some, ltb, ◌==◌, if◌then◌else◌, arith, Option-cases,
  Bool-cases, inl, inr,
}
use rofl_fork.FlowEntry.{FlowEntry}
use rofl_fork.Instruction.{
  Instruction, InstructionType, is_instruction, process_instructions_must_replicate,
}
use rofl_fork.Packet.{Platform}
use rofl_fork.Process.{Run, Switch}
use rofl_fork.Process.Delivery.{
  IsReady, Keeps, Keeps-trans, Ends, Ends-after, is_quiet, is_last, actions-Keeps, last-Ends,
}
use rofl_fork.Process.Instructions.{process_instruction, process_instruction_slots}
use rofl_fork.Process.Tables.{max_flowtables}

abbrev quiet_list : Switch → Bool → Option ActionGroup → Bool
quiet_list sw replicate none = false
quiet_list sw replicate (some g) = all (is_quiet sw replicate) g.actions

-- The instruction does not give the packet away, and writes no actions.
abbrev pub is_quiet_slot : Switch → Bool → Instruction → Bool
is_quiet_slot sw replicate i =
    not (is_instruction InstructionType.write_actions i)
    && (not (is_instruction InstructionType.apply_actions i)
        || quiet_list sw replicate i.apply_actions)

-- The table that the instructions go to, 0 if to none.
abbrev pub goto_of : List Instruction → ℕ
goto_of [] = 0
goto_of (i ∷ is) = if is_instruction InstructionType.goto_table i then i.go_to_table else goto_of is

-- The loop over the tables goes on from the table `i` with the table `n`.
abbrev pub goes_on : ℕ → ℕ → Bool
goes_on i n = ltb i n && ltb n max_flowtables

-- An instruction that does not look at the packet's actions.
abbrev pub is_idle : Instruction → Bool
is_idle i =
    not (is_instruction InstructionType.write_actions i)
    && not (is_instruction InstructionType.apply_actions i)
    && not (is_instruction InstructionType.goto_table i)

-- Instructions of which one slot applies a list that ends with an output.
pub record IsEnding (sw : Switch) (is : List Instruction) : Type 0 where
  pub before : List Instruction
  pub slot : Instruction
  pub after : List Instruction
  pub quiet : List Action
  pub last : Action
  pub group : ActionGroup
  pub parts : is ≡ before ++ slot ∷ after
  pub before_quiet : all (is_quiet_slot sw false) before ≡ true
  pub before_stays : all (λ i. not (is_instruction InstructionType.goto_table i)) before ≡ true
  pub slot_applies : slot.type ≡ InstructionType.apply_actions
  pub slot_group : slot.apply_actions ≡ some group
  pub group_actions : group.actions ≡ quiet ++ last ∷ []
  pub actions_quiet : all (is_quiet sw false) quiet ≡ true
  pub last_sends : is_last sw last ≡ true
  pub after_idle : all is_idle after ≡ true

abbrev pub replicates : FlowEntry → Bool
replicates e = process_instructions_must_replicate e.inst_grp

-- Either the packet stays in hand, and is dropped at the end or goes on to a table, or the entry has
-- one output, by which the packet leaves.
abbrev pub IsServed : Switch → ℕ → FlowEntry → Type 0
IsServed sw i e =
    ((all (is_quiet_slot sw (replicates e)) e.inst_grp.instructions ≡ true)
      × ((not (e.inst_grp.num_of_outputs == 1) || goes_on i (goto_of e.inst_grp.instructions))
          ≡ true))
    ⊎ ((replicates e ≡ false)
        × ((e.inst_grp.num_of_outputs == 1) ≡ true)
        × IsEnding sw e.inst_grp.instructions)

module _ {D : Type 0} (platform : Platform D) (sw : Switch) (table_id : ℕ) where
  slot-Keeps :
      (replicate : Bool) (i : Instruction) (r : Run D)
      → IsReady r
      → is_quiet_slot sw replicate i ≡ true
      → Gives (Keeps r) (process_instruction platform sw table_id replicate i i.type r)
  unfolding process_instruction
  slot-Keeps replicate i r p q =
      elim (Bool-cases (is_instruction InstructionType.apply_actions i)) [
        | inl y ↦ elim (Option-cases i.apply_actions) [
          | inl e ↦ ground arith
          | inr (g, e) ↦
              let k = actions-Keeps platform sw table_id replicate g.actions r p in
              ground (arith, k)
        ]
        | inr m ↦ ground arith
      ]

  pub slots-Keeps :
      (replicate : Bool) (is : List Instruction) (r : Run D)
      → IsReady r
      → all (is_quiet_slot sw replicate) is ≡ true
      → Gives
          (λ o. (o.0 ≡ goto_of is) × Keeps r o.1)
          (process_instruction_slots platform sw table_id replicate is r)
  unfolding process_instruction_slots
  slots-Keeps replicate [] r p q = (refl, (p, refl))
  slots-Keeps replicate (i ∷ is) r p q =
      elim (Bool-cases (is_instruction InstructionType.goto_table i)) [
        | inl y ↦ rw y (refl, (p, refl))
        | inr m ↦ rw m (
            Gives-bind (Keeps r) _ _ _ (slot-Keeps replicate i r p (ground arith)) (λ s f.
              Gives-map (λ o. (o.0 ≡ goto_of is) × Keeps s o.1) _ _
                (slots-Keeps replicate is s f.0 (ground arith))
                (λ o g. (g.0, Keeps-trans r s o.1 f g.1))))
      ]

  -- What idle instructions leave of a packet that is gone.
  abbrev IsGone : Run D → Run D → Type 0
  IsGone r s =
      (s.released ≡ r.released)
      × (s.pkt.write_actions ≡ clear_write_actions)
      × (s.history ≡ r.history)

  idle-IsGone :
      (i : Instruction) (r : Run D)
      → r.pkt.write_actions ≡ clear_write_actions
      → is_idle i ≡ true
      → Gives (IsGone r) (process_instruction platform sw table_id false i i.type r)
  unfolding process_instruction
  idle-IsGone i r w q = ground arith

  idle_slots-IsGone :
      (is : List Instruction) (r : Run D)
      → r.pkt.write_actions ≡ clear_write_actions
      → all is_idle is ≡ true
      → Gives
          (λ o. (o.0 ≡ 0) × IsGone r o.1)
          (process_instruction_slots platform sw table_id false is r)
  unfolding process_instruction_slots
  idle_slots-IsGone [] r w q = (refl, (refl, w, refl))
  idle_slots-IsGone (i ∷ is) r w q =
      let m : is_instruction InstructionType.goto_table i ≡ false = ground arith in
      rw m (
        Gives-bind (IsGone r) _ _ _ (idle-IsGone i r w (ground arith)) (λ s f.
          Gives-map (λ o. (o.0 ≡ 0) × IsGone s o.1) _ _ (idle_slots-IsGone is s f.1 (ground arith))
            (λ o g. (g.0, (g.1.0 ∙ f.0, g.1.1, g.1.2 ∙ f.2)))))

  pub sending_slot-Ends :
      (i : Instruction) (g : ActionGroup) (quiet : List Action) (a : Action) (r : Run D)
      → IsReady r
      → i.type ≡ InstructionType.apply_actions
      → i.apply_actions ≡ some g
      → g.actions ≡ quiet ++ a ∷ []
      → all (is_quiet sw false) quiet ≡ true
      → is_last sw a ≡ true
      → Gives (Ends r) (process_instruction platform sw table_id false i i.type r)
  unfolding process_instruction
  sending_slot-Ends i g quiet a r p t e l q s =
      rw (t, e, l) (last-Ends platform sw table_id quiet a r p q s)

  -- The rest of the slots, once the packet is gone.
  after-Ends :
      (is : List Instruction) (r s : Run D)
      → Ends r s
      → all is_idle is ≡ true
      → Gives
          (λ o. (o.0 ≡ 0) × Ends r o.1)
          (process_instruction_slots platform sw table_id false is s)
  after-Ends is r s f q =
      Gives-map (λ o. (o.0 ≡ 0) × IsGone s o.1) _ _ (idle_slots-IsGone is s f.1 q)
        (λ o g. (g.0, (g.1.0 ∙ f.0, g.1.1, rw g.1.2 (f.2))))

  pub ending-Ends :
      (before : List Instruction) (i : Instruction) (after : List Instruction) (r : Run D)
      → IsReady r
      → all (is_quiet_slot sw false) before ≡ true
      → all (λ x. not (is_instruction InstructionType.goto_table x)) before ≡ true
      → i.type ≡ InstructionType.apply_actions
      → ((s : Run D)
          → IsReady s
          → Gives (Ends s) (process_instruction platform sw table_id false i i.type s))
      → all is_idle after ≡ true
      → Gives
          (λ o. (o.0 ≡ 0) × Ends r o.1)
          (process_instruction_slots platform sw table_id false (before ++ i ∷ after) r)
  unfolding process_instruction_slots
  ending-Ends [] i after r p q m t f a =
      let n : is_instruction InstructionType.goto_table i ≡ false = ground arith in
      rw n (Gives-bind (Ends r) _ _ _ (f r p) (λ s g. after-Ends after r s g a))
  ending-Ends (x ∷ xs) i after r p q m t f a =
      let n : is_instruction InstructionType.goto_table x ≡ false = ground arith in
      rw n (
        Gives-bind (Keeps r) _ _ _ (slot-Keeps false x r p (ground arith)) (λ s g.
          Gives-map (λ o. (o.0 ≡ 0) × Ends s o.1) _ _
            (ending-Ends xs i after s g.0 (ground arith) (ground arith) t f a)
            (λ o h. (h.0, Ends-after r s o.1 g h.1))))
