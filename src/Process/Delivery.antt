-- ===== src/Process/Delivery.antt =====
-- Where the processing of a packet ends, with the packet given back to the platform once.
use rofl_fork.Action.{Action, is_action, clear_write_actions}
use rofl_fork.Action.Types.{ActionType, action_code}
use rofl_fork.Base.{
  Gives, Gives-bind, Gives-map, all, ◌++◌, ℕ, ◌+◌, ◌≡◌, refl, Bool, true, false, ◌&&◌, ◌||◌, not,
  List, [], ◌∷◌, some, is_some, ◌==◌, arith, Option-cases, Bool-cases, inl, inr,
}
use rofl_fork.Packet.{Packet, Platform, PacketEvent, replicated}
use rofl_fork.Process.{
  Run, Switch, attached_port, send, port_flood, port_all, port_normal, port_controller,
  port_in_port, is_output_port, process_output, process_packet_action, process_case, depth,
  each_action, process_apply_actions,
}
use rofl_fork.Process.Header.{process_header, process_other}
use rofl_fork.Process.Balance.{replicas, releases}
use rofl_fork.Ternary.{Wrap, u32}

-- The port is attached, or is one of the ports with a meaning of their own.
abbrev pub can_send : Switch → ℕ → Bool
can_send sw n =
    is_some (attached_port sw n)
    || n == port_flood
    || n == port_controller
    || n == port_normal
    || n == port_all
    || n == port_in_port

-- The action neither names a group nor gives the packet away: an output sends a replica.
abbrev pub is_quiet : Switch → Bool → Action → Bool
is_quiet sw replicate a =
    not (is_action ActionType.no_action a)
    && not (is_action ActionType.group a)
    && (not (is_action ActionType.output a) || (replicate && can_send sw (u32 a.field)))

-- An output that gives the packet away.
abbrev pub is_last : Switch → Action → Bool
is_last sw a =
    is_action ActionType.output a && is_output_port (u32 a.field) && can_send sw (u32 a.field)

module _ {D : Type 0} where
  -- The packet is in hand, and has no actions to write.
  abbrev pub IsReady : Run D → Type 0
  IsReady r = (r.released ≡ false) × (r.pkt.write_actions ≡ clear_write_actions)

  -- All replicas that were made on the way have been released.
  abbrev pub Keeps : Run D → Run D → Type 0
  Keeps r s =
      IsReady s
      × (releases s.history + replicas r.history ≡ releases r.history + replicas s.history)

  abbrev pub Ends : Run D → Run D → Type 0
  Ends r s =
      (s.released ≡ true)
      × (s.pkt.write_actions ≡ clear_write_actions)
      × (releases s.history + replicas r.history ≡ releases r.history + 1 + replicas s.history)

  send-Gives :
      (sw : Switch) (i port_in n : ℕ) (pkt : Packet D) (h : List (PacketEvent D))
      → can_send sw n ≡ true
      → Gives
          (λ e. (releases (e ∷ h) ≡ releases h + 1) × (replicas (e ∷ h) ≡ replicas h))
          (send sw i port_in n pkt)
  unfolding send releases replicas
  send-Gives sw i port_in n pkt h e = ground arith

  process_other-write_actions :
      (platform : Platform D) (v : ℕ) (type : ActionType) (w : Wrap) (pkt : Packet D)
      → (process_other platform v type w pkt).write_actions ≡ pkt.write_actions
  unfolding process_other
  process_other-write_actions platform v type w pkt = ground arith

  process_header-write_actions :
      (platform : Platform D) (v : ℕ) (type : ActionType) (w : Wrap) (pkt : Packet D)
      → (process_header platform v type w pkt).write_actions ≡ pkt.write_actions
  unfolding process_header
  process_header-write_actions platform v type w pkt =
      ground (arith, process_other-write_actions platform v type w pkt)

  pub Keeps-trans : (r s t : Run D) → Keeps r s → Keeps s t → Keeps r t
  Keeps-trans r s t p q = (q.0, omega (arith, p.1, q.1))

  pub Ends-after : (r s t : Run D) → Keeps r s → Ends s t → Ends r t
  Ends-after r s t p q = (q.0, q.1, omega (arith, p.1, q.2))

module _ {D : Type 0} (platform : Platform D) (sw : Switch) (table_id : ℕ) where
  replica-Keeps :
      (n : ℕ) (r : Run D)
      → IsReady r
      → can_send sw n ≡ true
      → Gives (Keeps r) (process_output platform sw table_id n true r)
  unfolding process_output replicas releases
  replica-Keeps n r p c = elim (Bool-cases (is_output_port n)) [
    | inr m ↦ rw (m) (p, refl)
    | inl y ↦
        rw (y, p.0)
          (elim (Option-cases (platform.replicate r.history r.pkt)) [
            | inl e ↦ rw e (p, refl)
            | inr (q, e) ↦ rw e (
                Gives-bind _ (Keeps r) (send sw table_id r.pkt.matches.port_in n q) _
                  (send-Gives sw table_id r.pkt.matches.port_in n q (replicated q ∷ r.history) c)
                  (λ a f. (p, omega (arith, f.0, f.1))))
          ])
  ]

  -- The packet itself is sent.
  packet-Ends :
      (n : ℕ) (r : Run D)
      → IsReady r
      → is_output_port n ≡ true
      → can_send sw n ≡ true
      → Gives (Ends r) (process_output platform sw table_id n false r)
  unfolding process_output
  packet-Ends n r p y c =
      rw (y, p.0)
        (Gives-bind _ (Ends r) (send sw table_id r.pkt.matches.port_in n r.pkt) _
          (send-Gives sw table_id r.pkt.matches.port_in n r.pkt r.history c)
          (λ a f. (refl, p.1, omega (arith, f.0, f.1))))

  quiet-Keeps :
      (replicate : Bool) (a : Action) (r : Run D)
      → IsReady r
      → is_quiet sw replicate a ≡ true
      → Gives (Keeps r) (process_packet_action platform sw table_id depth replicate a r)
  unfolding process_packet_action process_case
  quiet-Keeps replicate a r p q =
      let header = process_header-write_actions platform sw.pipeline.of_ver a.type a.field r.pkt in
      elim (Bool-cases (is_action ActionType.output a)) [
        | inl y ↦ ground (arith, replica-Keeps (u32 a.field) r p)
        | inr m ↦ ground (arith, header)
      ]

  pub actions-Keeps :
      (replicate : Bool) (xs : List Action) (r : Run D)
      → IsReady r
      → all (is_quiet sw replicate) xs ≡ true
      → Gives (Keeps r) (process_apply_actions platform sw table_id xs replicate r)
  unfolding process_apply_actions each_action
  actions-Keeps replicate [] r p q = (p, refl)
  actions-Keeps replicate (a ∷ xs) r p q =
      Gives-bind (Keeps r) (Keeps r) _ _ (quiet-Keeps replicate a r p (ground arith)) (λ s f.
        Gives-map (Keeps s) (Keeps r) _ (actions-Keeps replicate xs s f.0 (ground arith))
          (λ t g. Keeps-trans r s t f g))

  -- The case of an output.
  output-step :
      (a : Action) (r : Run D)
      → is_action ActionType.output a ≡ true
      → process_packet_action platform sw table_id depth false a r
        ≡ process_output platform sw table_id (u32 a.field) false r
  unfolding process_packet_action process_case action_code
  output-step a r e = ground arith

  output-Ends :
      (a : Action) (r : Run D)
      → IsReady r
      → is_last sw a ≡ true
      → Gives (Ends r) (process_packet_action platform sw table_id depth false a r)
  output-Ends a r p e =
      rw (output-step a r (ground arith))
        (packet-Ends (u32 a.field) r p (ground arith) (ground arith))

  -- An output that is not replicated ends the list.
  pub last-Ends :
      (xs : List Action) (a : Action) (r : Run D)
      → IsReady r
      → all (is_quiet sw false) xs ≡ true
      → is_last sw a ≡ true
      → Gives (Ends r) (process_apply_actions platform sw table_id (xs ++ a ∷ []) false r)
  unfolding process_apply_actions each_action
  last-Ends [] a r p q e =
      Gives-bind (Ends r) (Ends r) (process_packet_action platform sw table_id depth false a r) some
        (output-Ends a r p e) (λ s f. f)
  last-Ends (x ∷ xs) a r p q e =
      Gives-bind (Keeps r) (Ends r) _ _ (quiet-Keeps false x r p (ground arith)) (λ s f.
        Gives-map (Ends s) (Ends r) _ (last-Ends xs a s f.0 (ground arith) e)
          (λ t g. Ends-after r s t f g))
