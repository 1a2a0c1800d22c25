-- ===== src/Thinking/Suffix/Printed.antt =====
-- internal/thinking/suffix.go: ParseSuffix against the printing of a suffix.
use cpa_github_copilot.Common.{
  ℕ, ◌≡◌, refl, ◌↔◌, true, false, ◌||◌, none, some, Option-cases, inl, inr, [], ◌∷◌, ◌++◌, arith,
  Bytes, has_byte,
}
use cpa_github_copilot.Thinking.Suffix.{SuffixResult, cut_last, cut_end, parse_suffix}

abbrev pub suffixed : Bytes → Bytes → SuffixResult
suffixed name raw = record { model_name = name; has_suffix = true; raw_suffix = raw }

-- `name(raw)`.
pub print_suffix : Bytes → Bytes → Bytes
print_suffix name raw = name ++ (40 ∷ raw ++ (41 ∷ []))

cut_last-none : (b : ℕ) (s : Bytes) → has_byte b s ≡ false → cut_last b s ≡ none
unfolding cut_last has_byte
cut_last-none b [] h = refl
cut_last-none b (c ∷ s) h = rw (cut_last-none b s (ground (arith, h))) (ground (arith, h))

cut_last-print :
    (b : ℕ) (name s : Bytes) → has_byte b s ≡ false → cut_last b (name ++ (b ∷ s)) ≡ some (name, s)
unfolding cut_last
cut_last-print b [] s h = rw (cut_last-none b s h) (ground arith)
cut_last-print b (c ∷ name) s h = rw (cut_last-print b name s h) refl

cut_end-print : (b : ℕ) (s : Bytes) → cut_end b (s ++ (b ∷ [])) ≡ some s
unfolding cut_end
cut_end-print b [] = ground arith
cut_end-print b (c ∷ []) = ground arith
cut_end-print b (c ∷ d ∷ s) = rw (cut_end-print b (d ∷ s)) refl

has_byte-append : (b : ℕ) (s t : Bytes) → has_byte b (s ++ t) ≡ (has_byte b s || has_byte b t)
unfolding has_byte
has_byte-append b [] t = refl
has_byte-append b (c ∷ s) t = ground (arith, has_byte-append b s t)

closed : (raw : Bytes) → has_byte 40 raw ≡ false → has_byte 40 (raw ++ (41 ∷ [])) ≡ false
unfolding has_byte
closed raw h = rw (has_byte-append 40 raw (41 ∷ []), h) refl

cut_last-inverse :
    (b : ℕ) (s before after : Bytes)
    → cut_last b s ≡ some (before, after)
    → s ≡ before ++ (b ∷ after)
unfolding cut_last
cut_last-inverse b [] before after h = absurd (ground (arith, h))
cut_last-inverse b (c ∷ s) before after h = elim (Option-cases (cut_last b s)) [
  | inl e ↦ ground (arith, h, e)
  | inr ((before', after'), e) ↦ ground (arith, h, e, cut_last-inverse b s before' after' e)
]

cut_end-inverse : (b : ℕ) (s rest : Bytes) → cut_end b s ≡ some rest → s ≡ rest ++ (b ∷ [])
unfolding cut_end
cut_end-inverse b [] rest h = absurd (ground (arith, h))
cut_end-inverse b (c ∷ []) rest h = ground (arith, h)
cut_end-inverse b (c ∷ d ∷ s) rest h = elim (Option-cases (cut_end b (d ∷ s))) [
  | inl e ↦ absurd (ground (arith, h, e))
  | inr (rest', e) ↦ ground (arith, h, e, cut_end-inverse b (d ∷ s) rest' e)
]

parse_suffix-inverse :
    (model name raw : Bytes)
    → parse_suffix model ≡ suffixed name raw
    → model ≡ print_suffix name raw
unfolding parse_suffix print_suffix
parse_suffix-inverse model name raw h = elim (Option-cases (cut_last 40 model)) [
  | inl e ↦ absurd (ground (arith, h, e))
  | inr ((before, after), e) ↦ elim (Option-cases (cut_end 41 after)) [
    | inl f ↦ absurd (ground (arith, h, e, f))
    | inr (rest, f) ↦
        ground (
          arith,
          h,
          e,
          f,
          cut_last-inverse 40 model before after e,
          cut_end-inverse 41 after rest f,
        )
  ]
]

-- For a suffix without an opening parenthesis, a model parses into a name and that suffix exactly
-- if it is the name, followed by the suffix in parentheses.
pub parse_suffix-print_suffix :
    (model name raw : Bytes)
    → has_byte 40 raw ≡ false
    → (parse_suffix model ≡ suffixed name raw) ↔ (model ≡ print_suffix name raw)
unfolding parse_suffix print_suffix
parse_suffix-print_suffix model name raw h = (
  parse_suffix-inverse model name raw,
  λ e.
      rw
        (
          e,
          parse_suffix,
          cut_last-print 40 name (raw ++ (41 ∷ [])) (closed raw h),
          cut_end-print 41 raw,
        )
        refl,
)
