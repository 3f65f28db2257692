-- ===== src/Process/Liveness.antt =====
-- In tables whose entries serve each packet to an end, the way of a packet has an outcome: the platform
-- gets it back exactly once, as it does each replica.
use rofl_fork.Action.{no_action, WriteActions, clear_write_actions, repeat}
use rofl_fork.Action.Types.{at_number, action_code}
use rofl_fork.Base.{
  Gives, Gives-bind, Gives-map, Gives-some, All, All-find_first, ℕ, zero, suc, ◌+◌, ◌≡◌, ◌∙◌, ap,
  refl, Bool, true, false, List, [], ◌∷◌, Option, some, ltb, ◌==◌, arith, Option-cases, Bool-cases,
  inl, inr,
}
use rofl_fork.FlowEntry.{FlowEntry}
use rofl_fork.FlowTable.{stats_table_lookup_inc}
use rofl_fork.Loop.{Table, TableMiss, drop, to_controller, continue}
use rofl_fork.Loop.Lookup.{find_best_match_loop, entry_matches}
use rofl_fork.Packet.{Packet, Platform, PacketInReason}
use rofl_fork.Process.{Run, Switch, drop_packet, process_slots, process_write_actions}
use rofl_fork.Process.Balance.{replicas, releases}
use rofl_fork.Process.Delivery.{IsReady, Keeps, Ends, Ends-after}
use rofl_fork.Process.Instructions.{process_instructions, process_instruction_slots}
use rofl_fork.Process.Served.{
  IsServed, IsEnding, replicates, goes_on, goto_of, slots-Keeps, ending-Ends, sending_slot-Ends,
}
use rofl_fork.Process.Tables.{
  to_packet_in, process_miss, process_match, finish, process_tables, ended, with_table, init_run,
  process_packet_pipeline, count_match,
}

-- All entries of the tables, which stand from the number `i` on, are served.
abbrev pub AreServed : Switch → ℕ → List Table → Type 0
AreServed sw i [] = Unit
AreServed sw i (t ∷ ts) = All (IsServed sw i) t.entries × AreServed sw (i + 1) ts

module _ {D : Type 0} where
  drop_packet-Ends : (r : Run D) → IsReady r → Gives (Ends r) (drop_packet r)
  unfolding releases replicas
  drop_packet-Ends r p = ground arith

  to_packet_in-Ends :
      (i : ℕ) (r : Run D) → IsReady r → Gives (Ends r) (to_packet_in i PacketInReason.no_match r)
  unfolding to_packet_in releases replicas
  to_packet_in-Ends i r p = ground arith

  ended-Ends :
      (ts : List Table) (r : Run D) (o : Option (Run D))
      → Gives (Ends r) o
      → Gives (λ x. Ends r x.1) (ended ts o)
  ended-Ends ts r o f = Gives-bind (Ends r) (λ x. Ends r x.1) o _ f (λ s p. p)

  with_table-Ends :
      (t : Table) (r : Run D) (o : Option (List Table × Run D))
      → Gives (λ x. Ends r x.1) o
      → Gives (λ x. Ends r x.1) (with_table t o)
  with_table-Ends t r o f = Gives-bind (λ x. Ends r x.1) (λ x. Ends r x.1) o _ f (λ x q. q)

module _ {D : Type 0} (platform : Platform D) (sw : Switch) (now : ℕ) where
  -- A packet without actions to write.
  empty_slots :
      (i n : ℕ) (replicate : Bool) (r : Run D)
      → process_slots platform sw i (repeat n no_action) replicate r ≡ some r
  unfolding process_slots action_code
  empty_slots i zero replicate r = refl
  empty_slots i (suc n) replicate r = empty_slots i n replicate r

  write_nothing :
      (i : ℕ) (replicate : Bool) (r : Run D)
      → r.pkt.write_actions ≡ clear_write_actions
      → process_write_actions platform sw i replicate r ≡ some r
  unfolding process_write_actions clear_write_actions
  write_nothing i replicate r w =
      let e = ap (λ (x : WriteActions). x.write_actions) w in
      ap (λ xs. process_slots platform sw i xs replicate r) e ∙ empty_slots i at_number replicate r

  finish-drops :
      (i : ℕ) (e : FlowEntry) (r : Run D)
      → IsReady r
      → (e.inst_grp.num_of_outputs == 1) ≡ false
      → Gives (Ends r) (finish platform sw now i e r)
  unfolding finish
  finish-drops i e r p n = rw (write_nothing i (replicates e) r p.1, n) (drop_packet-Ends r p)

  finish-rests :
      (i : ℕ) (e : FlowEntry) (r : Run D)
      → r.pkt.write_actions ≡ clear_write_actions
      → (e.inst_grp.num_of_outputs == 1) ≡ true
      → finish platform sw now i e r ≡ some r
  unfolding finish
  finish-rests i e r w n = rw (write_nothing i (replicates e) r w, n)

  leaves :
      (i : ℕ) (e : FlowEntry) (r : Run D)
      → IsReady r
      → replicates e ≡ false
      → IsEnding sw e.inst_grp.instructions
      → Gives
          (λ o. (o.0 ≡ 0) × Ends r o.1)
          (process_instruction_slots platform sw i (replicates e) e.inst_grp.instructions r)
  leaves i e r p q h =
      rw (q, h.parts)
        (ending-Ends platform sw i h.before h.slot h.after r p h.before_quiet h.before_stays
          h.slot_applies
          (λ s q.
            sending_slot-Ends platform sw i h.slot h.group h.quiet h.last s q h.slot_applies
              h.slot_group h.group_actions h.actions_quiet h.last_sends)
          h.after_idle)

  match-Ends :
      (i : ℕ) (t : Table) (ts : List Table) (e : FlowEntry)
      (next : ℕ → Run D → Option (List Table × Run D)) (r : Run D)
      → IsReady r
      → IsServed sw i e
      → ((n : ℕ) (s : Run D) → IsReady s → Gives (λ x. Ends s x.1) (next n s))
      → Gives (λ x. Ends r x.1) (process_match platform sw now i t ts e next r)
  unfolding process_match process_instructions
  match-Ends i t ts e next r p (inl (q, g)) f =
      let u = count_match now r.pkt.matches.pkt_size_bytes e t in
      Gives-bind (λ o. (o.0 ≡ goto_of e.inst_grp.instructions) × Keeps r o.1) _ _ _
        (slots-Keeps platform sw i (replicates e) e.inst_grp.instructions r p q)
        (λ o k. elim (Bool-cases (goes_on i o.0)) [
          | inl y ↦ rw y (
              with_table-Ends u r (next o.0 o.1) (
                Gives-map (λ x. Ends o.1 x.1) _ _ (f o.0 o.1 k.1.0)
                  (λ x h. Ends-after r o.1 x.1 k.1 h)))
          | inr m ↦ rw m (
              let n : (e.inst_grp.num_of_outputs == 1) ≡ false = ground (arith, k.0) in
              ended-Ends (u ∷ ts) r (finish platform sw now i e o.1) (
                Gives-map (Ends o.1) _ _ (finish-drops i e o.1 k.1.0 n)
                  (λ s h. Ends-after r o.1 s k.1 h)))
        ])
  match-Ends i t ts e next r p (inr (q, n, h)) f =
      let u = count_match now r.pkt.matches.pkt_size_bytes e t in
      Gives-bind (λ o. (o.0 ≡ 0) × Ends r o.1) _ _ _ (leaves i e r p q h)
        (λ o k.
          let m : goes_on i o.0 ≡ false = ground (arith, k.0) in
          rw m (
            ended-Ends (u ∷ ts) r (finish platform sw now i e o.1)
              (rw (finish-rests i e o.1 k.1.1 n) k.1)))

  miss-Ends :
      (i : ℕ) (t : Table) (ts : List Table) (next : ℕ → Run D → Option (List Table × Run D))
      (r : Run D)
      → IsReady r
      → ((n : ℕ) (s : Run D) → IsReady s → Gives (λ x. Ends s x.1) (next n s))
      → Gives (λ x. Ends r x.1) (process_miss i t ts next r)
  unfolding process_miss
  miss-Ends i t ts next r p f = miss (stats_table_lookup_inc t) t.default_action
    where
      miss :
          (u : Table) (d : TableMiss)
          → Gives
              (λ x. Ends r x.1)
              (elim d [
                | drop ↦ ended (u ∷ ts) (drop_packet r)
                | to_controller ↦ ended (u ∷ ts) (to_packet_in i PacketInReason.no_match r)
                | continue ↦ with_table u (next (i + 1) r)
              ])
      miss u drop = ended-Ends (u ∷ ts) r (drop_packet r) (drop_packet-Ends r p)
      miss u to_controller =
          ended-Ends (u ∷ ts) r (to_packet_in i PacketInReason.no_match r) (to_packet_in-Ends i r p)
      miss u continue = with_table-Ends u r (next (i + 1) r) (f (i + 1) r p)

  tables-Ends :
      (i go : ℕ) (ts : List Table) (r : Run D)
      → AreServed sw i ts
      → IsReady r
      → Gives (λ x. Ends r x.1) (process_tables platform sw now i go ts r)
  unfolding process_tables find_best_match_loop
  tables-Ends i go [] r a p = ended-Ends [] r (drop_packet r) (drop_packet-Ends r p)
  tables-Ends i go (t ∷ ts) r a p =
      let next = λ (n : ℕ) (s : Run D). process_tables platform sw now (i + 1) n ts s in
      let f = λ (n : ℕ) (s : Run D) (q : IsReady s). tables-Ends (i + 1) n ts s a.1 q in
      elim (Bool-cases (ltb i go)) [
        | inl y ↦ rw y (with_table-Ends t r (next go r) (f go r p))
        | inr m ↦ rw m (elim (Option-cases (find_best_match_loop t r.pkt.matches)) [
          | inl e ↦ rw e (miss-Ends i t ts next r p f)
          | inr (e, q) ↦
              let served =
                All-find_first (IsServed sw i) (entry_matches r.pkt.matches) t.entries e a.0 q in
              rw q (match-Ends i t ts e next r p served f)
        ])
      ]

  -- In tables whose entries are all served, the way of a packet through the tables has an outcome:
  -- no NULL pointer is read, no assertion fails, and no action finds the packet released. In the end
  -- the packet has been released, and as many packets as came in or were replicated.
  pub process_packet_pipeline-Ends :
      (pkt : Packet D)
      → AreServed sw 0 sw.pipeline.tables
      → (ts : List Table) × (r : Run D) × (process_packet_pipeline platform sw now pkt
          ≡ some (ts, r))
        × (r.released ≡ true)
        × (releases r.history ≡ replicas r.history + 1)
  unfolding process_packet_pipeline init_run releases replicas
  process_packet_pipeline-Ends pkt a =
      let start = init_run platform sw now pkt in
      let p = Gives-some _ _ (tables-Ends 0 0 sw.pipeline.tables start a (refl, refl)) in
      (p.0.0, p.0.1, p.1, p.2.0, omega (arith, p.2.2))
