-- ===== src/Process/Tables.antt =====
-- of1x_pipeline.c: a packet goes through the flow tables, and a packet that the controller sends
-- through a list of actions.
use rofl_fork.Action.{ActionGroup, clear_write_actions}
use rofl_fork.Action.Validate.{validate_action_group}
use rofl_fork.Base.{
  ◌>>=◌, ℕ, ◌+◌, ◌%◌, ◌^◌, true, false, ◌&&◌, List, [], ◌∷◌, Option, none, some, ltb, ◌==◌,
  if◌then◌else◌,
}
use rofl_fork.FlowEntry.{FlowEntry}
use rofl_fork.FlowTable.{stats_table_lookup_inc, stats_table_matches_inc}
use rofl_fork.Instruction.{process_instructions_must_replicate}
use rofl_fork.Loop.{Table, to_controller, continue, drop, has_addr}
use rofl_fork.Loop.Lookup.{find_best_match_loop}
use rofl_fork.Packet.{Packet, Platform, PacketInReason, packet_in}
use rofl_fork.Packet.Matches.{init_packet_matches}
use rofl_fork.Process.{Run, Switch, drop_packet, process_apply_actions, process_write_actions}
use rofl_fork.Process.Instructions.{process_instructions}

-- OF1X_MAX_FLOWTABLES.
abbrev pub max_flowtables : ℕ
max_flowtables = 255

-- __of1x_stats_flow_update_match.
unfoldable pub stats_flow_update_match : ℕ → FlowEntry → FlowEntry
stats_flow_update_match bytes e = record e {
  stats = record e.stats {
    packet_count = (e.stats.packet_count + 1) % 2 ^ 64;
    byte_count = (e.stats.byte_count + bytes) % 2 ^ 64;
  };
}

-- __of1x_timer_update_entry, at the time that the clock shows.
unfoldable pub timer_update_entry : ℕ → FlowEntry → FlowEntry
timer_update_entry now e =
    if e.timer_info.idle_timeout == 0
    then e
    else record e { timer_info = record e.timer_info { time_last_update = now } }

-- The object at an address is changed.
unfoldable pub update_at : (FlowEntry → FlowEntry) → ℕ → List FlowEntry → List FlowEntry
update_at f addr [] = []
update_at f addr (e ∷ es) =
    let rest = update_at f addr es in if has_addr addr e then f e ∷ es else e ∷ rest

-- The table after it gave the entry to a packet.
unfoldable pub count_match : ℕ → ℕ → FlowEntry → Table → Table
unfolding stats_table_matches_inc stats_flow_update_match timer_update_entry update_at
count_match now bytes e t =
    let counted = stats_table_matches_inc t in
    record counted {
      entries =
          update_at (λ x. timer_update_entry now (stats_flow_update_match bytes x)) e.addr
            t.entries;
    }

module _ {D : Type 0} where
  -- The packet has been processed, and the tables from the present one on are these.
  abbrev pub ended : List Table → Option (Run D) → Option (List Table × Run D)
  ended ts o = do r ← o; some (ts, r)

  abbrev pub with_table : Table → Option (List Table × Run D) → Option (List Table × Run D)
  with_table t o = do x ← o; some (t ∷ x.0, x.1)

  -- The packet goes to the controller.
  unfoldable pub to_packet_in : ℕ → PacketInReason → Run D → Option (Run D)
  to_packet_in i cause r =
      if r.released
      then none
      else some (record r { released = true; history = packet_in i r.pkt cause ∷ r.history })

  -- No entry matches; `next` goes on with the following table.
  unfoldable pub process_miss :
      ℕ
      → Table
      → List Table
      → (ℕ → Run D → Option (List Table × Run D))
      → Run D
      → Option (List Table × Run D)
  unfolding stats_table_lookup_inc to_packet_in
  process_miss i t ts next r =
      let u = stats_table_lookup_inc t in
      elim t.default_action [
        | drop ↦ ended (u ∷ ts) (drop_packet r)
        | to_controller ↦ ended (u ∷ ts) (to_packet_in i PacketInReason.no_match r)
        | continue ↦ with_table u (next (i + 1) r)
      ]

module _ {D : Type 0} (platform : Platform D) (sw : Switch) (now : ℕ) where
  -- The packet leaves the tables at the entry.
  unfoldable pub finish : ℕ → FlowEntry → Run D → Option (Run D)
  unfolding process_write_actions process_instructions_must_replicate
  finish i e r =
      let replicate = process_instructions_must_replicate e.inst_grp in
      do
        s ← process_write_actions platform sw i replicate r
        if e.inst_grp.num_of_outputs == 1 then some s else drop_packet s

  -- The entry matches; `next` goes on with the table of a number.
  unfoldable pub process_match :
      ℕ
      → Table
      → List Table
      → FlowEntry
      → (ℕ → Run D → Option (List Table × Run D))
      → Run D
      → Option (List Table × Run D)
  unfolding count_match process_instructions finish
  process_match i t ts e next r =
      let u = count_match now r.pkt.matches.pkt_size_bytes e t in
      do
        (table_to_go, s) ← process_instructions platform sw i e.inst_grp r
        if ltb i table_to_go && ltb table_to_go max_flowtables
            then with_table u (next table_to_go s)
            else ended (u ∷ ts) (finish i e s)

  -- The loop over the tables, which stand from the number `i` on; those before `go` are passed over.
  unfoldable pub process_tables : ℕ → ℕ → List Table → Run D → Option (List Table × Run D)
  unfolding find_best_match_loop process_miss process_match
  process_tables i go [] r = ended [] (drop_packet r)
  process_tables i go (t ∷ ts) r =
      let next = λ (n : ℕ) (s : Run D). process_tables (i + 1) n ts s in
      if ltb i go then with_table t (next go r) else elim (find_best_match_loop t r.pkt.matches) [
        | none ↦ process_miss i t ts next r
        | some e ↦ process_match i t ts e next r
      ]

  unfoldable pub init_run : Packet D → Run D
  unfolding init_packet_matches clear_write_actions
  init_run pkt = record {
    pkt = record (init_packet_matches platform pkt) { write_actions = clear_write_actions };
    released = false;
    history = [];
  }

  -- The tables afterwards, and what became of the packet.
  unfoldable pub process_packet_pipeline : Packet D → Option (List Table × Run D)
  unfolding process_tables init_run
  process_packet_pipeline pkt = process_tables 0 0 sw.pipeline.tables (init_run pkt)

  -- The packet of a PACKET_OUT message. The verdict of the validation is not looked at.
  unfoldable pub process_packet_out_pipeline : ActionGroup → Packet D → Option (Run D)
  unfolding init_run process_apply_actions validate_action_group
  process_packet_out_pipeline actions pkt =
      let g = (validate_action_group (some sw.pipeline.groups) actions).1 in
      let several = ltb 1 g.num_of_output_actions in
      if g.num_of_output_actions == 0 then drop_packet (init_run pkt) else do
        r ← process_apply_actions platform sw 0 g.actions several (init_run pkt)
        if several then drop_packet r else some r
