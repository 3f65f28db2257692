-- ===== src/Physical/Ports.antt =====
-- The ports of the system: what an addition and a removal do to the names.
use rofl_fork.Base.{
  ℕ, ◌≡◌, ◌⊎◌, ap, sym, ◌∙◌, refl, Bool, false, inl, inr, List, ◌++◌, Option, none, some, length,
  Option-cases, RoflResult, success, failure,
}
use rofl_fork.Physical.{
  SystemPort, PortType, invalid, physical, virtual, tunnel, meta_flood, meta_in_port, meta_all,
  PhysicalSwitch, max_len_name, is_named, find_in, put_in, clear_in, or_else, get_port_by_name,
  place_port, add_port, remove_port,
}
use rofl_fork.Physical.Arrays.{
  Every, Changes, Changes-append, Changes-prepend, Changes-length, put_in-Changes, clear_in-Changes,
  find_in-append, find_in-none,
}
use rofl_fork.Physical.Names.{same_up_to_sym}

-- The names of two ports agree.
abbrev pub same_name : SystemPort → SystemPort → Bool
same_name p q = is_named q.name p

pub same_name-sym : (p q : SystemPort) → same_name p q ≡ same_name q p
same_name-sym p q = same_up_to_sym max_len_name p.name q.name

-- The ports in the order in which they are searched.
abbrev pub all_ports : PhysicalSwitch → List (Option SystemPort)
all_ports ps = ps.physical_ports ++ (ps.virtual_ports ++ ps.tunnel_ports)

pub get_port_by_name-all :
    (ps : PhysicalSwitch) (name : List ℕ)
    → get_port_by_name ps name ≡ find_in (is_named name) (all_ports ps)
unfolding get_port_by_name
get_port_by_name-all ps name =
    let p = is_named name in
    sym (
      find_in-append p ps.physical_ports (ps.virtual_ports ++ ps.tunnel_ports)
      ∙ ap (or_else (find_in p ps.physical_ports))
          (find_in-append p ps.virtual_ports ps.tunnel_ports))

-- The logical switches and the sizes of the arrays are as they were.
abbrev pub SameRest : PhysicalSwitch → PhysicalSwitch → Type 0
SameRest ps qs =
    (qs.logical_switches ≡ ps.logical_switches)
    × (qs.num_of_logical_switches ≡ ps.num_of_logical_switches)
    × (length qs.physical_ports ≡ length ps.physical_ports)
    × (length qs.virtual_ports ≡ length ps.virtual_ports)
    × (length qs.tunnel_ports ≡ length ps.tunnel_ports)

abbrev pub Changed :
    Option SystemPort → Option SystemPort → PhysicalSwitch → PhysicalSwitch → Type 0
Changed x y ps qs = Changes x y (all_ports ps) (all_ports qs) × SameRest ps qs

-- One place of the arrays changes, or the operation fails and changes nothing.
abbrev pub PortOutcome :
    Option SystemPort → Option SystemPort → PhysicalSwitch → RoflResult × PhysicalSwitch → Type 0
PortOutcome x y ps r = (r ≡ (failure, ps)) ⊎ ((r.0 ≡ success) × Changed x y ps r.1)

module _ (ps : PhysicalSwitch) (x y : Option SystemPort) where
  in_physical :
      (xs : List (Option SystemPort))
      → Changes x y ps.physical_ports xs
      → Changed x y ps (record ps { physical_ports = xs })
  in_physical xs c = (
    Changes-append (ps.virtual_ports ++ ps.tunnel_ports) x y ps.physical_ports xs c,
    (refl, refl, Changes-length x y ps.physical_ports xs c, refl, refl),
  )

  in_virtual :
      (xs : List (Option SystemPort))
      → Changes x y ps.virtual_ports xs
      → Changed x y ps (record ps { virtual_ports = xs })
  in_virtual xs c = (
    Changes-prepend ps.physical_ports x y (ps.virtual_ports ++ ps.tunnel_ports)
        (xs ++ ps.tunnel_ports) (Changes-append ps.tunnel_ports x y ps.virtual_ports xs c),
    (refl, refl, refl, Changes-length x y ps.virtual_ports xs c, refl),
  )

  in_tunnel :
      (xs : List (Option SystemPort))
      → Changes x y ps.tunnel_ports xs
      → Changed x y ps (record ps { tunnel_ports = xs })
  in_tunnel xs c = (
    Changes-prepend ps.physical_ports x y (ps.virtual_ports ++ ps.tunnel_ports)
        (ps.virtual_ports ++ xs) (Changes-prepend ps.virtual_ports x y ps.tunnel_ports xs c),
    (refl, refl, refl, refl, Changes-length x y ps.tunnel_ports xs c),
  )

place_port-PortOutcome :
    (ps : PhysicalSwitch) (p : SystemPort) (y : PortType)
    → PortOutcome none (some p) ps (place_port ps p y)
unfolding place_port
place_port-PortOutcome ps p invalid = inl refl
place_port-PortOutcome ps p physical = elim (Option-cases (put_in p ps.physical_ports)) [
  | inl n ↦ rw n (inl refl)
  | inr (xs, q) ↦
      rw q (inr (refl, in_physical ps none (some p) xs (put_in-Changes p ps.physical_ports xs q)))
]
place_port-PortOutcome ps p virtual = elim (Option-cases (put_in p ps.virtual_ports)) [
  | inl n ↦ rw n (inl refl)
  | inr (xs, q) ↦
      rw q (inr (refl, in_virtual ps none (some p) xs (put_in-Changes p ps.virtual_ports xs q)))
]
place_port-PortOutcome ps p tunnel = elim (Option-cases (put_in p ps.tunnel_ports)) [
  | inl n ↦ rw n (inl refl)
  | inr (xs, q) ↦
      rw q (inr (refl, in_tunnel ps none (some p) xs (put_in-Changes p ps.tunnel_ports xs q)))
]
place_port-PortOutcome ps p meta_flood = inl refl
place_port-PortOutcome ps p meta_in_port = inl refl
place_port-PortOutcome ps p meta_all = inl refl

-- An addition that succeeds had no port of the name to find.
pub add_port-PortOutcome :
    (ps : PhysicalSwitch) (p : SystemPort)
    → (add_port ps (some p) ≡ (failure, ps))
      ⊎ (Every (λ b. same_name b p ≡ false) (all_ports ps)
          × PortOutcome none (some p) ps (add_port ps (some p)))
unfolding add_port
add_port-PortOutcome ps p = elim (Option-cases (get_port_by_name ps p.name)) [
  | inr (b, q) ↦ inl (rw q refl)
  | inl n ↦
      let free =
        find_in-none (is_named p.name) (all_ports ps) (sym (get_port_by_name-all ps p.name) ∙ n) in
      inr (free, rw n (place_port-PortOutcome ps p p.type))
]

-- A removal takes the port out that the search by the name finds; without one, it fails.
pub remove_port-PortOutcome :
    (ps : PhysicalSwitch) (name : List ℕ)
    → ((find_in (is_named name) (all_ports ps) ≡ none)
        × (remove_port ps (some name) ≡ (failure, ps)))
      ⊎ ((p : SystemPort) × (find_in (is_named name) (all_ports ps) ≡ some p)
          × ((remove_port ps (some name)).0 ≡ success)
          × Changed (some p) none ps (remove_port ps (some name)).1)
unfolding remove_port
remove_port-PortOutcome ps name =
    let q = is_named name in
    let outer = find_in-append q ps.physical_ports (ps.virtual_ports ++ ps.tunnel_ports) in
    let inner = find_in-append q ps.virtual_ports ps.tunnel_ports in
    elim (Option-cases (find_in q ps.physical_ports)) [
      | inr (p, y) ↦
          let found =
            outer ∙ ap (λ o. or_else o (find_in q (ps.virtual_ports ++ ps.tunnel_ports))) y in
          inr (
            p,
            found,
            rw (remove_port, y) refl,
            rw (remove_port, y)
                (in_physical ps (some p) none (clear_in q ps.physical_ports)
                  (clear_in-Changes q ps.physical_ports p y)),
          )
      | inl m ↦
          let rest =
            outer ∙ ap (λ o. or_else o (find_in q (ps.virtual_ports ++ ps.tunnel_ports))) m in
          elim (Option-cases (find_in q ps.virtual_ports)) [
            | inr (p, y) ↦
                let found = rest ∙ inner ∙ ap (λ o. or_else o (find_in q ps.tunnel_ports)) y in
                inr (
                  p,
                  found,
                  rw (remove_port, m, y) refl,
                  rw (remove_port, m, y)
                      (in_virtual ps (some p) none (clear_in q ps.virtual_ports)
                        (clear_in-Changes q ps.virtual_ports p y)),
                )
            | inl n ↦
                let last = rest ∙ inner ∙ ap (λ o. or_else o (find_in q ps.tunnel_ports)) n in
                elim (Option-cases (find_in q ps.tunnel_ports)) [
                  | inr (p, y) ↦ inr (
                    p,
                    last ∙ y,
                    rw (remove_port, m, n, y) refl,
                    rw (remove_port, m, n, y)
                        (in_tunnel ps (some p) none (clear_in q ps.tunnel_ports)
                          (clear_in-Changes q ps.tunnel_ports p y)),
                  )
                  | inl o ↦ inl (last ∙ o, rw (remove_port, m, n, o) refl)
                ]
          ]
    ]
