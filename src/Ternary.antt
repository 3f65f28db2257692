-- ===== src/Ternary.antt =====
-- src/rofl/datapath/pipeline/common/ternary_fields.c: values with a mask, of five widths.
-- `Wrap` is the union wrap_uint_t (wrap_types.h) on a little-endian machine: `hi` is its first
-- eight bytes, which .u64 and UINT128__T_HI read, and `lo` the last eight.
pub mod Contained
mod Tests
use rofl_fork.Base.{
  ℕ, ◌+◌, ◌*◌, ◌/◌, ◌%◌, ◌^◌, bit_and, bit_xor, Bool, true, false, ◌&&◌, ◌||◌, Option, none, some,
  ltb, ◌==◌, if◌then◌else◌,
}

pub data UternType : Type 0 where
  utern8_t utern16_t utern32_t utern64_t utern128_t : UternType

pub record Wrap : Type 0 where
  pub hi : ℕ
  pub lo : ℕ

abbrev pub u8 : Wrap → ℕ
u8 w = w.hi % 2 ^ 8

abbrev pub u16 : Wrap → ℕ
u16 w = w.hi % 2 ^ 16

abbrev pub u32 : Wrap → ℕ
u32 w = w.hi % 2 ^ 32

abbrev pub u64 : Wrap → ℕ
u64 w = w.hi % 2 ^ 64

abbrev pub low64 : Wrap → ℕ
low64 w = w.lo % 2 ^ 64

-- A write of the first `k` bits of the union leaves its other bytes as they were.
abbrev pub write_bits : ℕ → Wrap → ℕ → Wrap
write_bits k raw v = record raw { hi = raw.hi / 2 ^ k * 2 ^ k + v % 2 ^ k }

pub record Utern : Type 0 where
  pub type : UternType
  pub value : Wrap
  pub mask : Wrap

-- The contents of a new block, before it is filled in.
abbrev pub Raw : Type 0
Raw = Wrap × Wrap

-- What platform_malloc_shared gives: NULL, or a block.
abbrev pub Block : Type 0
Block = Option Raw

-- A utern in the block, the first `k` bits of both fields set.
abbrev pub new_bits : ℕ → UternType → Raw → ℕ → ℕ → Utern
new_bits k ty (v, m) value mask = record {
  type = ty;
  value = write_bits k v value;
  mask = write_bits k m mask;
}

abbrev init_bits : ℕ → UternType → Block → ℕ → ℕ → Option Utern
init_bits k ty none value mask = none
init_bits k ty (some raw) value mask = some (new_bits k ty raw value mask)

unfoldable pub init_utern8 : Block → ℕ → ℕ → Option Utern
init_utern8 = init_bits 8 utern8_t

unfoldable pub init_utern16 : Block → ℕ → ℕ → Option Utern
init_utern16 = init_bits 16 utern16_t

unfoldable pub init_utern32 : Block → ℕ → ℕ → Option Utern
init_utern32 = init_bits 32 utern32_t

unfoldable pub init_utern64 : Block → ℕ → ℕ → Option Utern
init_utern64 = init_bits 64 utern64_t

unfoldable pub init_utern128 : Block → Wrap → Wrap → Option Utern
init_utern128 none value mask = none
init_utern128 (some raw) value mask =
    some (record { type = utern128_t; value = value; mask = mask })

-- The test of one word: equal under the mask.
abbrev pub word_compare : ℕ → ℕ → ℕ → Bool
word_compare v m x = bit_and v m == bit_and x m

unfoldable pub utern_compare8 : Utern → ℕ → Bool
utern_compare8 t x = word_compare (u8 t.value) (u8 t.mask) (x % 2 ^ 8)

unfoldable pub utern_compare16 : Utern → ℕ → Bool
utern_compare16 t x = word_compare (u16 t.value) (u16 t.mask) (x % 2 ^ 16)

unfoldable pub utern_compare32 : Utern → ℕ → Bool
utern_compare32 t x = word_compare (u32 t.value) (u32 t.mask) (x % 2 ^ 32)

unfoldable pub utern_compare64 : Utern → ℕ → Bool
utern_compare64 t x = word_compare (u64 t.value) (u64 t.mask) (x % 2 ^ 64)

unfoldable pub utern_compare128 : Utern → Wrap → Bool
utern_compare128 t x =
    word_compare (u64 t.value) (u64 t.mask) (u64 x)
    && word_compare (low64 t.value) (low64 t.mask) (low64 x)

-- A bit that the first mask sets is missing in the second.
abbrev pub word_looser : ℕ → ℕ → Bool
word_looser em tm = ltb 0 (bit_and (bit_xor em tm) em)

-- The values agree under the first mask.
abbrev pub word_agrees : ℕ → ℕ → ℕ → Bool
word_agrees ev em tv = bit_and ev em == bit_and tv em

-- One case of the switch in __utern_is_contained, at the words of its width.
unfoldable pub word_contained : ℕ → ℕ → ℕ → ℕ → Bool
word_contained ev em tv tm = if word_looser em tm then false else word_agrees ev em tv

unfoldable pub utern_is_contained : Utern → Utern → Bool
unfolding word_contained
utern_is_contained e t = elim e.type [
  | utern8_t ↦ word_contained (u8 e.value) (u8 e.mask) (u8 t.value) (u8 t.mask)
  | utern16_t ↦ word_contained (u16 e.value) (u16 e.mask) (u16 t.value) (u16 t.mask)
  | utern32_t ↦ word_contained (u32 e.value) (u32 e.mask) (u32 t.value) (u32 t.mask)
  | utern64_t ↦ word_contained (u64 e.value) (u64 e.mask) (u64 t.value) (u64 t.mask)
  | utern128_t ↦
      if word_looser (low64 e.mask) (low64 t.mask) || word_looser (u64 e.mask) (u64 t.mask)
      then false
      else word_agrees (low64 e.value) (low64 e.mask) (low64 t.value)
        && word_agrees (u64 e.value) (u64 e.mask) (u64 t.value)
]

unfoldable pub utern_equals : Utern → Utern → Bool
utern_equals a b = elim a.type [
  | utern8_t ↦ (u8 a.value == u8 b.value) && (u8 a.mask == u8 b.mask)
  | utern16_t ↦ (u16 a.value == u16 b.value) && (u16 a.mask == u16 b.mask)
  | utern32_t ↦ (u32 a.value == u32 b.value) && (u32 a.mask == u32 b.mask)
  | utern64_t ↦ (u64 a.value == u64 b.value) && (u64 a.mask == u64 b.mask)
  | utern128_t ↦
      (low64 a.value == low64 b.value)
      && (low64 a.mask == low64 b.mask)
      && (u64 a.value == u64 b.value)
      && (u64 a.mask == u64 b.mask)
]
