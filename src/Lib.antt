-- ===== src/Lib.antt =====
-- The OpenFlow 1.x software pipeline of src/rofl/datapath/pipeline: flow tables, the matching algorithm
-- `loop`, the group table, and the data that they work on, with the switch around it. All paths below
-- are under src/rofl/datapath/pipeline, and those without openflow/, common/ or platform/ in front under
-- openflow/openflow1x/pipeline.
--
-- A packet's header fields are matched against the entries of a flow table, which are sorted by
-- priority. The first entry that matches gives the instructions to run. Flow modifications validate
-- an entry against the version of the switch and against the group table, and then have the matching
-- algorithm add, modify or remove entries. The deletion of groups removes the entries that use them.
-- The instructions of an entry apply actions to the packet, which change its header, send it or name
-- groups, write actions for the end, and go on to another table. Timers remove entries in time.
--
-- The files, each with the code that it models:
--   Base       shared types, Boolean tests, lists and bits of native numbers.
--   Ternary    common/ternary_fields.c: values with a mask. Ternary/Contained has what containment
--              decides.
--   Match      of1x_match.c, of1x_match.h, of1x_packet_matches.h: the kinds of matches (Types), their
--              constructors of1x_init_*_match (Init), copies (Copy), header fields (Packet) and the
--              test __of1x_check_match (Check). Subsume has what submatches mean for packets.
--   Action     of1x_action.c: lists and sets of actions, their creation (Init, and Width for what is
--              kept of a value), and their validation (Validate).
--   Packet     platform/packet.h: the platform's calls on packets, a parameter; of1x_packet_matches.c
--              is in Packet/Matches.
--   Instruction  of1x_instruction.c: the slots of an entry's instructions, and their validation
--              (Validate), which Complete shows to read through no NULL.
--   FlowEntry  of1x_flow_entry.c: entries, their comparisons, and their validation.
--   Loop       matching_algorithms/loop/of1x_loop_match.c: addition and removal, modification (Modify),
--              lookup and statistics (Lookup). The theory: Order, Invariant, Add, Remove, Best, Keep
--              (modifications), Contained (what containment means for packets), Aggregate, OutPort, and
--              Refine, where the sorted list implements a set of rules (Members).
--   Group      of1x_group_table.c: the table of groups. Parameters, Invariant and Search hold the
--              theory.
--   Pipeline   of1x_flow_table.c: the operations on the tables of a pipeline, the addition's theory in
--              Add; of1x_group_delete is in Delete, its theory in Users. of1x_pipeline.c: the creation,
--              destruction, purge and reset of a pipeline are in Manage, their theory in Create and Purge.
--   FlowTable  of1x_flow_table.c: the defaults of the tables for the versions, and their counters.
--   Process    the processing of packets: __of1x_process_packet_action and what it calls (of1x_action.c),
--              with the cases that edit the header in Header; __of1x_process_instructions
--              (of1x_instruction.c) in Instructions; __of1x_process_packet_pipeline (of1x_pipeline.c) in
--              Tables. Balance counts replicas and releases; Delivery, Served and Liveness
--              say when the processing ends well; Depth bounds the recursion through groups.
--   Switch     openflow/openflow1x/of1x_switch.c, openflow/of_switch.c: the ports of a logical switch, with
--              their theory in Ports, Attach, Return and Retire, and the change of the version, with
--              its theory in Reset.
--   Timers     of1x_timers.c: the ring of slots. Slots has the times of expiration, Ring the order of
--              the slots. What the expiration of a slot does to the entries is in Expiry, with its theory
--              in Clears (the removal of timers), Visit (one timer), Sweep (a whole group and the rotation),
--              Stale (a read of freed memory) and Until (the loop over the slots that are over).
--   Statistics of1x_statistics.c, and of1x_get_flow_stats_loop of the algorithm: the messages of flow
--              statistics (Messages), with the copies that they hold (Copies), the aggregate over tables
--              (Aggregates) and the statistics of groups (Groups). Flows, Reports and Answers show what
--              the messages list.
--   Physical   physical_switch.c: the registry of ports and logical switches, and the attachment of ports
--              through it. The theory: Arrays and Distinct (arrays of pointers), Names (strncmp), Ports,
--              Lookup, Invariant and Manage. switch_port.c and port_queue.c are in Port, with their
--              theory in Queues.
--
-- How state is modelled. A doubly linked list is a list, in the order of its links; a pointer to an
-- entry or a group is its address, a number. An object that one pointer owns (a list of actions, a
-- bucket list) stands in its owner. Calls of the platform's hooks, notifications, frees and the starts
-- of timers are events in the trace of a table, the latest first. Every operation runs under the lock
-- that the code takes, so operations are sequential. A read through NULL or out of bounds is the outcome
-- `none`. FlowEntry.compare_entries has it too, but flow_entry_check_equal, which gives its callers a
-- Boolean, counts it as a difference; it does not occur where the counts of matches are right.
-- Ports, which the physical switch shares, are in a store, a function of their addresses. The
-- results of memory allocation are arguments. Fixed-width counters wrap as in C; the number of entries
-- of a table cannot, since an addition is refused at 0xFFFFFFFF.
--
-- The platform's functions on packets are a record of functions, an argument of the processing. What is
-- done to packets is a history of events: a replica, a drop, an output, a message to the controller, and
-- the updates of the counters of groups. An action on a packet that has been given back to the platform
-- has no outcome; the memory of such a packet is taken to stay as it was for reads that come after. A
-- failing assertion has no outcome either.
--
-- Fuel is used in four places. Pipeline.Delete.remove_users, the loop that removes the users of a group,
-- gets the number of entries of the table. Process.process_packet_action, which calls itself through
-- groups, gets 2, since a bucket of a valid group names no group. Timers.Expiry.visit_from, the loop over
-- the timers of a group, gets their number, and Timers.Expiry.rotate_until, the loop over the slots, as
-- many rounds as there are slots up to the time. The lemmas show these to be enough, for visit_from where
-- the timers of the group are those of distinct entries. The loop
-- over the tables is a recursion on the list of tables, in which the target of a GOTO_TABLE is the number
-- below which tables are passed over.
--
-- Not modelled: the creation and destruction of switches, and the destruction of ports; the meta ports;
-- the printing of tables; locks, atomics and memory, which belong to the platform. The C++ library and
-- the drivers are other programs.
pub mod Base
pub mod Ternary
pub mod Match
pub mod Action
pub mod Group
pub mod Instruction
pub mod FlowEntry
pub mod Loop
pub mod Pipeline
pub mod Packet
pub mod FlowTable
pub mod Process
pub mod Switch
pub mod Physical
pub mod Statistics
pub mod Timers
