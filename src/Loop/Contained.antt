-- ===== src/Loop/Contained.antt =====
-- What __of1x_flow_entry_check_contained means for packets.
mod Tests
use rofl_fork.Base.{
  ◌≡◌, ◌≢◌, refl, Bool, true, false, not, List, [], ◌∷◌, All, any, Bool-cases, inl, inr, arith, ℕ,
  ◌&&◌, ◌||◌,
}
use rofl_fork.FlowEntry.{FlowEntry, each_of_kind, each_pair, flow_entry_check_contained}
use rofl_fork.Loop.Lookup.{matches_all, entry_matches}
use rofl_fork.Match.{Match, same_type, is_submatch}
use rofl_fork.Match.Check.{check_match}
use rofl_fork.Match.Packet.{PacketMatches}
use rofl_fork.Match.Subsume.{compared_type, check_match-is_submatch}
use rofl_fork.Match.Types.{MatchType}

-- The match is not on the VLAN identifier, its value has the type that the test of its kind compares,
-- and the list has a match of its kind.
abbrev pub IsShared : List Match → Match → Type 0
IsShared os m =
    (m.type ≢ MatchType.vlan_vid)
    × (m.value.type ≡ compared_type m.type)
    × (any (same_type m) os ≡ true)

kind_met :
    (pkt : PacketMatches) (m : Match) (os : List Match)
    → m.type ≢ MatchType.vlan_vid
    → m.value.type ≡ compared_type m.type
    → any (same_type m) os ≡ true
    → each_of_kind is_submatch m os ≡ true
    → matches_all pkt os ≡ true
    → check_match pkt m ≡ true
unfolding each_of_kind matches_all
kind_met pkt m [] d p a h c = ground arith
kind_met pkt m (o ∷ os) d p a h c = elim (Bool-cases (same_type m o)) [
  | inl y ↦ check_match-is_submatch pkt m o d p (ground arith) (ground arith)
  | inr n ↦ kind_met pkt m os d p (ground arith) (ground arith) (ground arith)
]

each_met :
    (pkt : PacketMatches) (ms os : List Match)
    → All (IsShared os) ms
    → each_pair is_submatch ms os ≡ true
    → matches_all pkt os ≡ true
    → matches_all pkt ms ≡ true
unfolding each_pair matches_all
each_met pkt [] os s h c = refl
each_met pkt (m ∷ ms) os ((d, p, a), s) h c =
    let x = kind_met pkt m os d p a (ground arith) c in
    let y = each_met pkt ms os s (ground arith) c in ground arith

-- Where an entry is reported to be contained in a request, and has a match of every kind that the
-- request has, every packet that meets the entry meets the request. The request must have no VLAN
-- identifiers, and its values must have the types that the tests of their kinds compare. That leaves
-- out the type and the code of ICMPv6 as the program builds them, with 8 bits, of which 64 are compared.
pub check_contained-entry_matches :
    (original request : FlowEntry) (check_priority check_cookie : Bool) (out_port out_group : ℕ)
    (reverse : Bool) (pkt : PacketMatches)
    → All (IsShared original.matches.elements) request.matches.elements
    → flow_entry_check_contained original request check_priority check_cookie out_port out_group
        reverse
      ≡ true
    → entry_matches pkt original ≡ true
    → entry_matches pkt request ≡ true
unfolding flow_entry_check_contained entry_matches
check_contained-entry_matches original request check_priority check_cookie out_port out_group
      reverse pkt s h c =
    let w : each_pair is_submatch request.matches.elements original.matches.elements ≡ true =
      ground arith in
    each_met pkt request.matches.elements original.matches.elements s w c
