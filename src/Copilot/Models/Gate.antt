-- ===== src/Copilot/Models/Gate.antt =====
-- internal/copilot/models.go: the version gate on GPT IDs.
use cpa_github_copilot.Common.{
  ℕ, ◌≤◌, ◌≡◌, refl, ◌∙◌, true, false, not, ◌&&◌, some, [], ◌∷◌, ◌++◌, arith, leb, Bytes, Bytes_eq,
  bytes_eq, ◌==◌, is_digit, cut_prefix, has_prefix, to_lower, trim_space,
}
use cpa_github_copilot.Copilot.Models.{
  leading_number, starts_with_digit, is_supported_copilot_model_id, is_copilot_gpt,
  accepts_gpt_version, ends_gpt_major, ends_part, claude_prefix, gpt_prefix,
}
use cpa_github_copilot.Copilot.Models.Numbers.{Digits, value, leading_number_lem}

cut_prefix-append : (p s : Bytes) → cut_prefix p (p ++ s) ≡ some s
unfolding cut_prefix
cut_prefix-append [] s = refl
cut_prefix-append (c ∷ p) s = ground (arith, cut_prefix-append p s)

has_prefix-append : (p s : Bytes) → has_prefix p (p ++ s) ≡ true
unfolding has_prefix
has_prefix-append [] s = refl
has_prefix-append (c ∷ p) s = ground (arith, has_prefix-append p s)

gpt_not_claude : (s : Bytes) → has_prefix claude_prefix (gpt_prefix ++ s) ≡ false
unfolding has_prefix
gpt_not_claude s = refl

ends_gpt_major-digit : (rest : Bytes) → ends_gpt_major rest ≡ true → starts_with_digit rest ≡ false
unfolding ends_gpt_major starts_with_digit is_digit
ends_gpt_major-digit [] h = refl
ends_gpt_major-digit (c ∷ rest) h = ground arith

ends_part-digit : (rest : Bytes) → ends_part rest ≡ true → starts_with_digit rest ≡ false
unfolding ends_part starts_with_digit is_digit
ends_part-digit [] h = refl
ends_part-digit (c ∷ rest) h = ground arith

accepts_gpt_version_lem :
    (d : ℕ) (ds rest : Bytes)
    → Digits (d ∷ ds)
    → starts_with_digit rest ≡ false
    → value (d ∷ ds) ≤ 1000000
    → accepts_gpt_version (d ∷ ds ++ rest) ≡ (leb 6 (value (d ∷ ds)) && ends_gpt_major rest)
unfolding accepts_gpt_version
accepts_gpt_version_lem d ds rest h k small =
    let read : leading_number (d ∷ ds ++ rest) ≡ some (value (d ∷ ds), rest) =
      ground (arith, leading_number_lem d ds rest h k) in
    rw (read, accepts_gpt_version) refl

-- An ID that is lowered and trimmed already.
abbrev pub Normal : Bytes → Type 0
Normal id = to_lower (trim_space id) ≡ id

is_copilot_gpt_lem :
    (id version : Bytes)
    → Normal id
    → id ≡ gpt_prefix ++ version
    → is_copilot_gpt id ≡ (not (version == []) && accepts_gpt_version version)
unfolding is_copilot_gpt bytes_eq
is_copilot_gpt_lem id version n shape =
    let cut : cut_prefix gpt_prefix (to_lower (trim_space id)) ≡ some version =
      rw (n, shape) (cut_prefix-append gpt_prefix version) in
    rw (is_copilot_gpt, cut) refl

supported_gpt_lem :
    (id version : Bytes)
    → Normal id
    → id ≡ gpt_prefix ++ version
    → is_supported_copilot_model_id id ≡ is_copilot_gpt id
unfolding is_supported_copilot_model_id is_copilot_gpt
supported_gpt_lem id version n shape =
    let other : has_prefix claude_prefix id ≡ false = rw shape (gpt_not_claude version) in
    let own : has_prefix gpt_prefix id ≡ true = rw shape (has_prefix-append gpt_prefix version) in
    rw (is_supported_copilot_model_id, n, other, own) refl

-- A GPT ID in lower case and without white space around it, "gpt-" and a version number of at most
-- a million with whatever follows its digits, is supported exactly from version 6 on, and if
-- nothing follows or what follows begins with "." or "-".
gpt_gate :
    (id : Bytes) (d : ℕ) (ds rest : Bytes)
    → Normal id
    → id ≡ gpt_prefix ++ d ∷ ds ++ rest
    → Digits (d ∷ ds)
    → starts_with_digit rest ≡ false
    → value (d ∷ ds) ≤ 1000000
    → is_supported_copilot_model_id id ≡ (leb 6 (value (d ∷ ds)) && ends_gpt_major rest)
unfolding bytes_eq
gpt_gate id d ds rest n shape h k small =
    supported_gpt_lem id (d ∷ ds ++ rest) n shape
    ∙ is_copilot_gpt_lem id (d ∷ ds ++ rest) n shape
    ∙ accepts_gpt_version_lem d ds rest h k small
