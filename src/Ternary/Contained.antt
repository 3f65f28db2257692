-- ===== src/Ternary/Contained.antt =====
-- What __utern_is_contained decides: that every value which meets the narrow field meets the wide.
use mathlib.Core.Path.{subst}
use rofl_fork.Base.{
  ℕ, ◌%◌, ◌^◌, ◌<◌, ◌≡◌, ◌↔◌, ap, sym, bit_and, bit_or, bit_xor, Bool, true, arith, ==_iff, ◌&&◌,
}
use rofl_fork.Base.Bits.{
  bit, bits, bit_ext, bit_ext_below, ones, ones-lt, bit-ones, bit_and-lt_right, bit_or-lt,
  bit_xor-lt,
}
use rofl_fork.Ternary.{
  Utern, UternType, Wrap, utern8_t, utern16_t, utern32_t, utern64_t, utern128_t, u8, u16, u32, u64,
  low64, word_compare, word_contained, utern_compare8, utern_compare16, utern_compare32,
  utern_compare64, utern_compare128, utern_is_contained,
}

module _ (ev em tv tm : ℕ) where
  word_contained_iff_agree :
      (word_contained ev em tv tm ≡ true)
      ↔ ((bit_and (bit_xor em tm) em ≡ 0) × (bit_and ev em ≡ bit_and tv em))
  unfolding word_contained
  word_contained_iff_agree = (λ h. ground arith, λ h. ground arith)

  pub word_contained_sound :
      (x : ℕ)
      → word_contained ev em tv tm ≡ true
      → word_compare tv tm x ≡ true
      → word_compare ev em x ≡ true
  word_contained_sound x h c =
      let (loose, same) = word_contained_iff_agree.0 h in
      let met : bit_and tv tm ≡ bit_and x tm = (==_iff _ _).0 c in
      (==_iff _ _).1 (
        bit_ext _ _ (λ i.
          omega (bits, ap (λ n. bit n i) loose, ap (λ n. bit n i) same, ap (λ n. bit n i) met)))

  -- Two values that meet the narrow field: its own bits, with the free bits at 0 and at 1.
  low : ℕ
  low = bit_and tv tm

  high : ℕ → ℕ
  high w = bit_or (bit_and tv tm) (bit_xor (ones w) tm)

  low_meets : word_compare tv tm low ≡ true
  unfolding low
  low_meets = (==_iff _ _).1 (bit_ext _ _ (λ i. omega bits))

  high_meets : (w : ℕ) → tm < 2 ^ w → word_compare tv tm (high w) ≡ true
  unfolding high
  high_meets w h = (==_iff _ _).1 (
      bit_ext_below w _ _ (bit_and-lt_right w _ tm h) (bit_and-lt_right w _ tm h)
        (λ i l. omega (bits, bit-ones w i l)))

  word_contained_complete :
      (w : ℕ)
      → em < 2 ^ w
      → tm < 2 ^ w
      → word_compare ev em low ≡ true
      → word_compare ev em (high w) ≡ true
      → word_contained ev em tv tm ≡ true
  unfolding low high
  word_contained_complete w he ht a b =
      let p = (==_iff _ _).0 a in
      let q = (==_iff _ _).0 b in
      let loose : bit_and (bit_xor em tm) em ≡ 0 =
        bit_ext_below w _ _ (bit_and-lt_right w _ em he) (omega (arith, ones-lt w))
          (λ i l. omega (bits, bit-ones w i l, ap (λ n. bit n i) p, ap (λ n. bit n i) q)) in
      word_contained_iff_agree.1
        (loose, bit_ext _ _ (λ i. omega (bits, ap (λ n. bit n i) p, ap (λ n. bit n i) loose)))

-- A value meets a field: the comparison of the field's width.
unfoldable pub utern_compare : Utern → Wrap → Bool
unfolding utern_compare8 utern_compare16 utern_compare32 utern_compare64 utern_compare128
utern_compare t x = elim t.type [
  | utern8_t ↦ utern_compare8 t (u8 x)
  | utern16_t ↦ utern_compare16 t (u16 x)
  | utern32_t ↦ utern_compare32 t (u32 x)
  | utern64_t ↦ utern_compare64 t (u64 x)
  | utern128_t ↦ utern_compare128 t x
]

module _ (w ev em tv tm : ℕ) (he : em < 2 ^ w) (ht : tm < 2 ^ w) where
  -- One word is contained in another just when the words of `w` bits that meet it meet the other.
  word_contained_iff :
      (word_contained ev em tv tm ≡ true)
      ↔ ((x : ℕ) → x < 2 ^ w → word_compare tv tm x ≡ true → word_compare ev em x ≡ true)
  unfolding low high
  word_contained_iff = (
    λ h x l c. word_contained_sound ev em tv tm x h c,
    λ all.
        word_contained_complete ev em tv tm w he ht
          (all _ (bit_and-lt_right w tv tm ht) (low_meets ev em tv tm))
          (all _ (bit_or-lt w _ _ (bit_and-lt_right w tv tm ht) (bit_xor-lt w _ _ (ones-lt w) ht))
            (high_meets ev em tv tm w ht)),
  )

abbrev utern : UternType → Wrap → Wrap → Utern
utern ty v m = record { type = ty; value = v; mask = m }

abbrev word : ℕ → Wrap
word x = record { hi = x; lo = 0 }

abbrev IsWider : Utern → Utern → Type 0
IsWider e t = (x : Wrap) → utern_compare t x ≡ true → utern_compare e x ≡ true

and_iff : {a b : Bool} → ((a && b) ≡ true) ↔ ((a ≡ true) × (b ≡ true))
and_iff = (λ h. ground arith, λ h. ground arith)

module _ (ev em tv tm : Wrap) where
  pair_contained_iff :
      (utern_is_contained (utern utern128_t ev em) (utern utern128_t tv tm) ≡ true) ↔ (
        (word_contained (u64 ev) (u64 em) (u64 tv) (u64 tm) ≡ true)
        × (word_contained (low64 ev) (low64 em) (low64 tv) (low64 tm) ≡ true))
  unfolding utern_is_contained
  pair_contained_iff = (λ h. ground arith, λ h. ground arith)

-- Both halves of an address.
abbrev both : ℕ → ℕ → Wrap
both x y = record { hi = x; lo = y }

both_iff :
    (v m : Wrap) (x y : ℕ)
    → x < 2 ^ 64
    → y < 2 ^ 64
    → (utern_compare (utern utern128_t v m) (both x y) ≡ true)
      ↔ ((word_compare (u64 v) (u64 m) x ≡ true) × (word_compare (low64 v) (low64 m) y ≡ true))
unfolding utern_compare
both_iff v m x y p q =
    let e : x % 2 ^ 64 ≡ x = omega arith in
    let f : y % 2 ^ 64 ≡ y = omega arith in rw (e, f) and_iff

below64 : (a b : ℕ) → bit_and a (b % 2 ^ 64) < 2 ^ 64
below64 a b = bit_and-lt_right 64 a (b % 2 ^ 64) (omega arith)

iff_at :
    (ty : UternType) (ev em tv tm : Wrap)
    → (utern_is_contained (utern ty ev em) (utern ty tv tm) ≡ true)
      ↔ IsWider (utern ty ev em) (utern ty tv tm)
unfolding utern_is_contained utern_compare low
iff_at utern8_t ev em tv tm =
    let it = word_contained_iff 8 (u8 ev) (u8 em) (u8 tv) (u8 tm) (omega arith) (omega arith) in
    (
      λ h x. it.0 h _ (omega arith),
      λ all. it.1 (λ x l. let e : x % 2 ^ 8 % 2 ^ 8 ≡ x = omega arith in rw e at (all (word x))),
    )
iff_at utern16_t ev em tv tm =
    let it =
      word_contained_iff 16 (u16 ev) (u16 em) (u16 tv) (u16 tm) (omega arith) (omega arith) in
    (
      λ h x. it.0 h _ (omega arith),
      λ all. it.1 (λ x l. let e : x % 2 ^ 16 % 2 ^ 16 ≡ x = omega arith in rw e at (all (word x))),
    )
iff_at utern32_t ev em tv tm =
    let it =
      word_contained_iff 32 (u32 ev) (u32 em) (u32 tv) (u32 tm) (omega arith) (omega arith) in
    (
      λ h x. it.0 h _ (omega arith),
      λ all. it.1 (λ x l. let e : x % 2 ^ 32 % 2 ^ 32 ≡ x = omega arith in rw e at (all (word x))),
    )
iff_at utern64_t ev em tv tm =
    let it =
      word_contained_iff 64 (u64 ev) (u64 em) (u64 tv) (u64 tm) (omega arith) (omega arith) in
    (
      λ h x. it.0 h _ (omega arith),
      λ all. it.1 (λ x l. let e : x % 2 ^ 64 % 2 ^ 64 ≡ x = omega arith in rw e at (all (word x))),
    )
iff_at utern128_t ev em tv tm =
    let hi =
      word_contained_iff 64 (u64 ev) (u64 em) (u64 tv) (u64 tm) (omega arith) (omega arith) in
    let lo =
      word_contained_iff 64 (low64 ev) (low64 em) (low64 tv) (low64 tm) (omega arith)
        (omega arith) in
    (
      λ h x c.
          let (a, b) = (pair_contained_iff ev em tv tm).0 h in
          let (p, q) = and_iff.0 c in
          and_iff.1 (hi.0 a (u64 x) (omega arith) p, lo.0 b (low64 x) (omega arith) q),
      λ all. (pair_contained_iff ev em tv tm).1 (
        hi.1 (λ x l c.
            ((both_iff ev em x (bit_and (low64 tv) (low64 tm)) l (below64 _ _)).0
              (all _ ((both_iff tv tm x _ l (below64 _ _)).1 (c, low_meets 0 0 _ _)))).0),
        lo.1 (λ y l c.
            ((both_iff ev em (bit_and (u64 tv) (u64 tm)) y (below64 _ _) l).0
              (all _ ((both_iff tv tm _ y (below64 _ _) l).1 (low_meets 0 0 _ _, c)))).1),
      ),
    )

-- Of two fields of one type the first is reported to contain the second exactly when every value
-- that meets the second meets the first, on each of the five widths.
pub utern_is_contained_iff :
    (e t : Utern)
    → t.type ≡ e.type
    → (utern_is_contained e t ≡ true)
      ↔ ((x : Wrap) → utern_compare t x ≡ true → utern_compare e x ≡ true)
utern_is_contained_iff e t same =
    subst
      (λ ty.
        (utern_is_contained e (utern ty t.value t.mask) ≡ true)
        ↔ IsWider e (utern ty t.value t.mask))
      (sym same) (iff_at e.type e.value e.mask t.value t.mask)
