-- ===== src/Match.antt =====
-- of1x_match.c and of1x_match.h: the match fields of a flow entry, and groups of them.
pub mod Types
pub mod Masks
pub mod Init
pub mod Copy
pub mod Packet
pub mod Check
pub mod Subsume
pub mod Tests
use rofl_fork.Base.{
  ℕ, ◌+◌, ◌%◌, ◌^◌, Bool, true, false, ◌&&◌, ◌||◌, not, List, [], ◌∷◌, ◌++◌, ltb, ◌==◌,
  if◌then◌else◌,
}
use rofl_fork.Ternary.{Utern, utern_equals, utern_is_contained}
use Types.{MatchType, match_code}

-- of_version_t of of_switch.h.
abbrev pub of_version_10 : ℕ
of_version_10 = 1

abbrev pub of_version_12 : ℕ
of_version_12 = 3

abbrev pub of_version_13 : ℕ
of_version_13 = 4

-- OF1X_MIN_VERSION and OF1X_MAX_VERSION.
abbrev pub min_version : ℕ
min_version = of_version_10

abbrev pub max_version : ℕ
max_version = of_version_13

-- The versions that a match or an action needs.
pub record VerReq : Type 0 where
  pub min_ver : ℕ
  pub max_ver : ℕ

pub record Match : Type 0 where
  pub type : MatchType
  pub value : Utern
  pub ver_req : VerReq
  pub has_wildcard : Bool

abbrev pub new_match : MatchType → Utern → ℕ → ℕ → Bool → Match
new_match ty v lo hi wild = record {
  type = ty;
  value = v;
  ver_req = record { min_ver = lo; max_ver = hi };
  has_wildcard = wild;
}

pub record MatchGroup : Type 0 where
  pub elements : List Match
  pub num_elements : ℕ
  pub ver_req : VerReq
  pub has_wildcard : Bool

unfoldable pub init_match_group : MatchGroup
init_match_group = record {
  elements = [];
  num_elements = 0;
  ver_req = record { min_ver = min_version; max_ver = max_version };
  has_wildcard = false;
}

-- The versions that both need: the later minimum and the earlier maximum.
abbrev pub narrow : VerReq → VerReq → VerReq
narrow g m = record {
  min_ver = if ltb g.min_ver m.min_ver then m.min_ver else g.min_ver;
  max_ver = if ltb m.max_ver g.max_ver then m.max_ver else g.max_ver;
}

-- The match is unlinked first, so that the loop runs once.
unfoldable pub match_group_push_back : MatchGroup → Match → MatchGroup
match_group_push_back g m = record {
  elements = g.elements ++ m ∷ [];
  num_elements = (g.num_elements + 1) % 2 ^ 32;
  ver_req = narrow g.ver_req m.ver_req;
  has_wildcard = if m.has_wildcard then true else g.has_wildcard;
}

abbrev pub same_type : Match → Match → Bool
same_type a b = match_code a.type == match_code b.type

unfoldable pub equal_matches : Match → Match → Bool
equal_matches a b = if not (same_type a b) then false else utern_equals a.value b.value

unfoldable pub is_submatch : Match → Match → Bool
is_submatch sub m = if not (same_type m sub) then false else utern_is_contained sub.value m.value
