-- ===== src/Copilot/Framer/Conserve.antt =====
-- internal/copilot/stream_sse.go: where the two kinds of boundary cut a buffer.
use cpa_github_copilot.Common.{
  ℕ, suc, ◌+◌, ◌≤◌, ◌≡◌, refl, subst, ◌∙◌, inl, inr, Bool, true, false, not, ◌&&◌, ◌||◌, some, List,
  [], ◌∷◌, ◌++◌, arith, if◌then◌else◌, ltb, length, take, drop, keep_if, Bool-cases, Option-cases,
  Bytes, is_space, trim_left, trim_right, trim_cons, trim_space, has_prefix, split, join,
  join-split,
}
use cpa_github_copilot.Copilot.Framer.{
  Boundary, newline, lf_lf, crlf_crlf, data_prefix, index_of, next_sse_separator, scan_lines,
  next_complete_sse_data_line, next_boundary, is_last, is_complete_stream_data,
}

-- The bytes that are not white space.
abbrev pub squeeze : Bytes → Bytes
squeeze s = keep_if (λ c. not (is_space c)) s

squeeze-trim_left : (s : Bytes) → squeeze (trim_left s) ≡ squeeze s
unfolding trim_left
squeeze-trim_left [] = refl
squeeze-trim_left (c ∷ s) = ground (arith, squeeze-trim_left s)

squeeze-trim_cons : (c : ℕ) (s : Bytes) → squeeze (trim_cons c s) ≡ squeeze (c ∷ s)
unfolding trim_cons
squeeze-trim_cons c [] = ground arith
squeeze-trim_cons c (d ∷ s) = refl

squeeze-trim_right : (s : Bytes) → squeeze (trim_right s) ≡ squeeze s
unfolding trim_right
squeeze-trim_right [] = refl
squeeze-trim_right (c ∷ s) =
    ground (arith, squeeze-trim_cons c (trim_right s), squeeze-trim_right s)

pub squeeze-trim_space : (s : Bytes) → squeeze (trim_space s) ≡ squeeze s
unfolding trim_space
squeeze-trim_space s = squeeze-trim_right (trim_left s) ∙ squeeze-trim_left s

-- A boundary within `s` that takes something off it, and separates by white space alone.
unfoldable pub Cuts : Bytes → Boundary → Type 0
Cuts s (end, size) =
    (end + size ≤ length s)
    × (1 ≤ end + size)
    × (squeeze s ≡ squeeze (take end s) ++ squeeze (drop (end + size) s))

drop-suc : (c : ℕ) (s : Bytes) (m k : ℕ) → m ≡ suc k → drop m (c ∷ s) ≡ drop k s
drop-suc c s m k h = rw h refl

Cuts-cons : (c : ℕ) (s : Bytes) (end size : ℕ) → Cuts s (end, size) → Cuts (c ∷ s) (suc end, size)
unfolding Cuts
Cuts-cons c s end size (bound, some', same) =
    let later : drop (suc end + size) (c ∷ s) ≡ drop (end + size) s =
      drop-suc c s (suc end + size) (end + size) (omega arith) in
    (omega arith, omega arith, ground (arith, same, later))

Cuts-lf_lf : (s : Bytes) → has_prefix lf_lf s ≡ true → Cuts s (0, 2)
unfolding Cuts has_prefix
Cuts-lf_lf [] h = absurd (ground (arith, h))
Cuts-lf_lf (a ∷ []) h = absurd (ground (arith, h))
Cuts-lf_lf (a ∷ b ∷ s) h = (omega arith, omega arith, ground (arith, h))

Cuts-crlf_crlf : (s : Bytes) → has_prefix crlf_crlf s ≡ true → Cuts s (0, 4)
unfolding Cuts has_prefix
Cuts-crlf_crlf [] h = absurd (ground (arith, h))
Cuts-crlf_crlf (a ∷ []) h = absurd (ground (arith, h))
Cuts-crlf_crlf (a ∷ b ∷ []) h = absurd (ground (arith, h))
Cuts-crlf_crlf (a ∷ b ∷ c ∷ []) h = absurd (ground (arith, h))
Cuts-crlf_crlf (a ∷ b ∷ c ∷ d ∷ s) h = (omega arith, omega arith, ground (arith, h))

index_of-Cuts :
    (pattern' : Bytes) (size : ℕ)
    → ((s : Bytes) → has_prefix pattern' s ≡ true → Cuts s (0, size))
    → (s : Bytes) (i : ℕ) → index_of pattern' s ≡ some i
    → Cuts s (i, size)
unfolding index_of
index_of-Cuts pattern' size h [] i e = elim (Bool-cases (has_prefix pattern' [])) [
  | inl p ↦ subst (λ n. Cuts [] (n, size)) (ground (arith, rw p at e)) (h [] p)
  | inr p ↦ absurd (ground (arith, rw p at e))
]
index_of-Cuts pattern' size h (c ∷ s) i e = elim (Bool-cases (has_prefix pattern' (c ∷ s))) [
  | inl p ↦ subst (λ n. Cuts (c ∷ s) (n, size)) (ground (arith, rw p at e)) (h (c ∷ s) p)
  | inr p ↦ elim (Option-cases (index_of pattern' s)) [
    | inl q ↦ absurd (ground (arith, rw (p, q) at e))
    | inr (j, q) ↦
        subst (λ n. Cuts (c ∷ s) (n, size)) (ground (arith, rw (p, q) at e))
          (Cuts-cons c s j size (index_of-Cuts pattern' size h s j q))
  ]
]

next_sse_separator-Cuts : (s : Bytes) (b : Boundary) → next_sse_separator s ≡ some b → Cuts s b
unfolding next_sse_separator
next_sse_separator-Cuts s b e =
    let lf = index_of-Cuts lf_lf 2 Cuts-lf_lf s in
    let crlf = index_of-Cuts crlf_crlf 4 Cuts-crlf_crlf s in
    elim (Option-cases (index_of lf_lf s)) [
      | inl p ↦ elim (Option-cases (index_of crlf_crlf s)) [
        | inl q ↦ absurd (ground (arith, rw (next_sse_separator, p, q) at e))
        | inr (j, q) ↦
            subst (Cuts s) (ground (arith, rw (next_sse_separator, p, q) at e)) (crlf j q)
      ]
      | inr (i, p) ↦ elim (Option-cases (index_of crlf_crlf s)) [
        | inl q ↦ subst (Cuts s) (ground (arith, rw (next_sse_separator, p, q) at e)) (lf i p)
        | inr (j, q) ↦ elim (Bool-cases (ltb i j)) [
          | inl r ↦ subst (Cuts s) (ground (arith, rw (next_sse_separator, p, q, r) at e)) (lf i p)
          | inr r ↦
              subst (Cuts s) (ground (arith, rw (next_sse_separator, p, q, r) at e)) (crlf j q)
        ]
      ]
    ]

Cuts-shift : (l s : Bytes) (k size : ℕ) → Cuts s (k, size) → Cuts (l ++ s) (length l + k, size)
Cuts-shift [] s k size h = subst (λ n. Cuts s (n, size)) (omega arith) h
Cuts-shift (c ∷ l) s k size h =
    subst (λ n. Cuts (c ∷ l ++ s) (n, size)) (omega arith)
      (Cuts-cons c (l ++ s) (length l + k) size (Cuts-shift l s k size h))

Cuts-newline : (s : Bytes) → Cuts (newline ∷ s) (0, 1)
unfolding Cuts
Cuts-newline s = (omega arith, omega arith, refl)

Cuts-one : (c : ℕ) → Cuts (c ∷ []) (1, 0)
unfolding Cuts
Cuts-one c = (omega arith, omega arith, ground arith)

Cuts-whole : (l : Bytes) → 1 ≤ length l → Cuts l (length l, 0)
Cuts-whole [] h = absurd (omega arith)
Cuts-whole (c ∷ []) h = Cuts-one c
Cuts-whole (c ∷ d ∷ l) h = Cuts-cons c (d ∷ l) (length (d ∷ l)) 0 (Cuts-whole (d ∷ l) (omega arith))

Cuts-line :
    (l : Bytes) (lines : List Bytes)
    → 1 ≤ length l
    → Cuts (join newline (l ∷ lines)) (length l, if is_last lines then 0 else 1)
unfolding join is_last
Cuts-line l [] h = Cuts-whole l h
Cuts-line l (m ∷ lines) h =
    let rest = newline ∷ join newline (m ∷ lines) in
    subst (λ n. Cuts (l ++ rest) (n, 1)) (omega arith)
      (Cuts-shift l rest 0 1 (Cuts-newline (join newline (m ∷ lines))))

data_line-nonempty : (l : Bytes) → has_prefix data_prefix (trim_space l) ≡ true → 1 ≤ length l
unfolding trim_space trim_left trim_right has_prefix
data_line-nonempty [] h = absurd (ground (arith, h))
data_line-nonempty (c ∷ l) h = omega arith

module _ (json_valid : Bytes → Bool) where
  later_Cuts :
      (start : ℕ) (seen : Bool) (l : Bytes) (lines : List Bytes) (e n : ℕ)
      → scan_lines json_valid (suc (start + length l)) seen lines ≡ some (e, n)
      → (k : ℕ) × (e ≡ suc (start + length l) + k) × Cuts (join newline lines) (k, n)
      → (k : ℕ) × (e ≡ start + k) × Cuts (join newline (l ∷ lines)) (k, n)
  unfolding scan_lines join
  later_Cuts start seen l [] e n h (k, same, cut) = absurd (ground (arith, h))
  later_Cuts start seen l (m ∷ lines) e n h (k, same, cut) =
      let rest = join newline (m ∷ lines) in
      (
        length l + suc k,
        omega (arith, same),
        Cuts-shift l (newline ∷ rest) (suc k) n (Cuts-cons newline rest k n cut),
      )

  scan_lines-Cuts :
      (start : ℕ) (seen : Bool) (lines : List Bytes) (e n : ℕ)
      → scan_lines json_valid start seen lines ≡ some (e, n)
      → (k : ℕ) × (e ≡ start + k) × Cuts (join newline lines) (k, n)
  unfolding scan_lines
  scan_lines-Cuts start seen [] e n h = absurd (ground (arith, h))
  scan_lines-Cuts start seen (l ∷ lines) e n h =
      let is_data = has_prefix data_prefix (trim_space l) in
      let complete = is_complete_stream_data json_valid (trim_space (drop 5 (trim_space l))) in
      elim (Bool-cases (is_data && seen)) [
        | inl a ↦ absurd (ground (arith, rw (scan_lines, a) at h))
        | inr a ↦ elim (Bool-cases (is_data && complete)) [
          | inl b ↦
              let size : ℕ = if is_last lines then 0 else 1 in
              let here : some (start + length l, size) ≡ some (e, n) = rw (scan_lines, a, b) at h in
              (
                length l,
                ground (arith, here),
                subst (λ z. Cuts (join newline (l ∷ lines)) (length l, z)) (ground (arith, here))
                    (Cuts-line l lines (data_line-nonempty l (ground (arith, b)))),
              )
          | inr b ↦ later_Cuts start (seen || is_data) l lines e n (rw (scan_lines, a, b) at h) (
              scan_lines-Cuts (suc (start + length l)) (seen || is_data) lines e n
                (rw (scan_lines, a, b) at h))
        ]
      ]

  line_Cuts :
      (s : Bytes) (b : Boundary) → next_complete_sse_data_line json_valid s ≡ some b → Cuts s b
  unfolding next_complete_sse_data_line
  line_Cuts s (e, n) h =
      let (k, same, cut) = scan_lines-Cuts 0 false (split newline s) e n h in
      let whole = subst (λ t. Cuts t (k, n)) (join-split newline s) cut in
      subst (λ z. Cuts s (z, n)) (ground (arith, same)) whole

  pub next_boundary-Cuts :
      (s : Bytes) (b : Boundary) → next_boundary json_valid s ≡ some b → Cuts s b
  unfolding next_boundary next_complete_sse_data_line
  next_boundary-Cuts s b h = elim (Option-cases (next_complete_sse_data_line json_valid s)) [
    | inl p ↦ next_sse_separator-Cuts s b (rw (next_boundary, p) at h)
    | inr (line, p) ↦
        let cut : Cuts s line = line_Cuts s line p in
        elim (Option-cases (next_sse_separator s)) [
          | inl q ↦ subst (Cuts s) (ground (arith, rw (next_boundary, p, q) at h)) cut
          | inr (sep, q) ↦ elim (Bool-cases (ltb line.0 sep.0)) [
            | inl r ↦ subst (Cuts s) (ground (arith, rw (next_boundary, p, q, r) at h)) cut
            | inr r ↦
                subst (Cuts s) (ground (arith, rw (next_boundary, p, q, r) at h))
                  (next_sse_separator-Cuts s sep q)
          ]
        ]
  ]
