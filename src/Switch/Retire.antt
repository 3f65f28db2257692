-- ===== src/Switch/Retire.antt =====
-- A switch whose ports were all detached.
use rofl_fork.Base.{
  ◌≢◌, ◌<◌, length, ℕ, zero, suc, ◌+◌, ◌≡◌, refl, false, Bool-cases, inl, inr, List, [], ◌∷◌,
  Option, none, some, get_elem?, arith, ◌==◌, leb, ◌||◌, Option-cases, failure, is_some,
}
use rofl_fork.Switch.{
  max_log_ports, LogicalPort, Attachments, is_free, first_slot, free_slot, all_detached,
  attach_port_to_switch_at_port_num, attach_port_to_switch, detach_all_ports_from_switch,
}

first_slot-all_detached :
    (i : ℕ) (ls : List LogicalPort) → first_slot is_free i (all_detached ls) ≡ none
unfolding first_slot all_detached
first_slot-all_detached i [] = refl
first_slot-all_detached i (l ∷ ls) = first_slot-all_detached (i + 1) ls

free_slot-all_detached : (ls : List LogicalPort) → free_slot (all_detached ls) ≡ none
unfolding free_slot all_detached
free_slot-all_detached [] = refl
free_slot-all_detached (l ∷ ls) = first_slot-all_detached 1 ls

get-all_detached :
    (ls : List LogicalPort) (n : ℕ) (l : LogicalPort)
    → get_elem? (all_detached ls) n ≡ some l
    → is_free l ≡ false
unfolding all_detached
get-all_detached [] n l q = ground arith
get-all_detached (x ∷ ls) zero l q = ground arith
get-all_detached (x ∷ ls) (suc n) l q = get-all_detached ls n l q

get-below-all_detached :
    (ls : List LogicalPort) (n : ℕ) → n < length ls → get_elem? (all_detached ls) n ≢ none
unfolding all_detached
get-below-all_detached [] n h = ground arith
get-below-all_detached (x ∷ ls) zero h = λ z. ground arith
get-below-all_detached (x ∷ ls) (suc n) h = get-below-all_detached ls n (omega (arith, h))

-- After the detachment of all ports, the switch, of an array of the fixed size, takes no port any more,
-- neither at a number nor at any free one.
pub detach_all-refuses :
    (sw : Attachments) (port : Option ℕ) (n : ℕ)
    → length sw.logical_ports ≡ max_log_ports
    → ((attach_port_to_switch (detach_all_ports_from_switch sw).1 port).0.0 ≡ failure)
      × (attach_port_to_switch_at_port_num (detach_all_ports_from_switch sw).1 n port
          ≡ some (failure, (detach_all_ports_from_switch sw).1))
unfolding attach_port_to_switch attach_port_to_switch_at_port_num detach_all_ports_from_switch
detach_all-refuses sw none n h = (refl, refl)
detach_all-refuses sw (some a) n h =
    let f = free_slot-all_detached sw.logical_ports in
    let w = (detach_all_ports_from_switch sw).1 in
    (
      elim (Bool-cases (is_some (w.store a).attached_sw)) [
        | inl y ↦ rw y refl
        | inr m ↦ rw (m, f) refl
      ],
      elim (Bool-cases (n == 0 || leb max_log_ports n)) [
        | inl y ↦ rw y refl
        | inr m ↦ elim (Option-cases (get_elem? (all_detached sw.logical_ports) n)) [
          | inl q ↦
              let below : n < length sw.logical_ports = ground arith in
              absurd (get-below-all_detached sw.logical_ports n below q)
          | inr (l, q) ↦ rw (m, q, get-all_detached sw.logical_ports n l q) refl
        ]
      ],
    )
