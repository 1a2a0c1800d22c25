-- ===== src/Copilot/Catalog/Discovered.antt =====
-- internal/copilot/models.go: which models `parseDiscoveredModels` keeps.
use cpa_github_copilot.Common.{
  ◌≡◌, refl, sym, ap, ◌∙◌, ◌≢◌, inl, inr, Bool, true, false, ◌&&◌, ◌||◌, Option, none, some, List,
  [], ◌∷◌, ◌++◌, arith, if◌then◌else◌, any, keep_if, keep_if-append, append_assoc, All, All-keep_if,
  All-append, All-sort, Bool-cases, Bytes, Bytes_eq, bytes_eq_iff, ◌==◌, eq_self, trim_space, sort,
  place,
}
use cpa_github_copilot.Copilot.Models.{
  Format, unknown, openai, openai_response, claude, same_format, is_supported_copilot_model_id,
  select_model_format,
}
use cpa_github_copilot.Copilot.Catalog.{
  RemoteModel, StoredModel, is_eligible, trim_id, eligible, is_picked, is_enabled, selected_models,
  stored_model, store_models, id_less, parse_discovered_models,
}

any-place :
    (p : StoredModel → Bool) (a : StoredModel) (bs : List StoredModel)
    → any p (place id_less a bs) ≡ any p (a ∷ bs)
unfolding place
any-place p a [] = refl
any-place p a (b ∷ bs) = ground (arith, any-place p a bs)

any-sort : (p : StoredModel → Bool) (ms : List StoredModel) → any p (sort id_less ms) ≡ any p ms
unfolding sort
any-sort p [] = refl
any-sort p (m ∷ ms) = ground (arith, any-place p m (sort id_less ms), any-sort p ms)

-- Whether a model with that ID is listed.
abbrev pub lists : Bytes → List StoredModel → Bool
lists id ms = any (λ m. m.id == id) ms

-- No two models have the same ID.
abbrev pub Distinct : List StoredModel → Type 0
Distinct [] = Unit
Distinct (m ∷ ms) = (lists m.id ms ≡ false) × Distinct ms

Distinct-place :
    (a : StoredModel) (bs : List StoredModel)
    → lists a.id bs ≡ false
    → Distinct bs
    → Distinct (place id_less a bs)
unfolding place
Distinct-place a [] h k = (refl, tt)
Distinct-place a (b ∷ bs) h k =
    let other = any-place (λ m. m.id == b.id) a bs in
    ground (arith, Distinct-place a bs, k, other, bytes_eq_iff a.id b.id, bytes_eq_iff b.id a.id)

Distinct-sort : (ms : List StoredModel) → Distinct ms → Distinct (sort id_less ms)
unfolding sort
Distinct-sort [] h = tt
Distinct-sort (m ∷ ms) h =
    Distinct-place m (sort id_less ms) (any-sort (λ s. s.id == m.id) ms ∙ h.0)
      (Distinct-sort ms h.1)

same_format_iff : (f : Format) → same_format f unknown ≡ false → f ≢ unknown
unfolding same_format
same_format_iff unknown h k = ground arith
same_format_iff openai h k = ground arith
same_format_iff openai_response h k = ground arith
same_format_iff claude h k = ground arith

same_format→path : (f : Format) → same_format f unknown ≡ true → f ≡ unknown
unfolding same_format
same_format→path unknown h = refl
same_format→path openai h = absurd (ground (arith, h))
same_format→path openai_response h = absurd (ground (arith, h))
same_format→path claude h = absurd (ground (arith, h))

lists-seen :
    (id : Bytes) (seen : List Bytes) (ms : List RemoteModel)
    → any (λ s. s == id) seen ≡ true
    → lists id (store_models seen ms) ≡ false
unfolding store_models stored_model
lists-seen id seen [] h = refl
lists-seen id seen (m ∷ ms) h =
    ground (arith, lists-seen id seen ms, lists-seen id (m.id ∷ seen) ms, bytes_eq_iff m.id id)

-- What each stored model satisfies.
pub Usable : StoredModel → Type 0
Usable m = (is_supported_copilot_model_id m.id ≡ true) × (m.id ≢ []) × (m.format ≢ unknown)

Acceptable : RemoteModel → Type 0
Acceptable m = is_eligible m ≡ true

store_models-Usable :
    (seen : List Bytes) (ms : List RemoteModel)
    → All Acceptable ms
    → All Usable (store_models seen ms)
unfolding store_models stored_model Usable Acceptable is_eligible
store_models-Usable seen [] h = tt
store_models-Usable seen (m ∷ ms) h =
    let f = select_model_format m.id m.supported_endpoints in
    ground (
      arith,
      store_models-Usable seen ms h.1,
      store_models-Usable (m.id ∷ seen) ms h.1,
      h.0,
      same_format_iff f,
      bytes_eq_iff m.id [],
    )

store_models-Distinct :
    (seen : List Bytes) (ms : List RemoteModel) → Distinct (store_models seen ms)
unfolding store_models stored_model
store_models-Distinct seen [] = tt
store_models-Distinct seen (m ∷ ms) = ground (
  arith,
  store_models-Distinct seen ms,
  store_models-Distinct (m.id ∷ seen) ms,
  lists-seen m.id (m.id ∷ seen) ms,
  eq_self m.id,
)

-- A model with a format is stored, or its ID was before.
store_models-lists :
    (seen : List Bytes) (before : List RemoteModel) (m : RemoteModel) (after : List RemoteModel)
    → select_model_format m.id m.supported_endpoints ≢ unknown
    → (any (λ s. s == m.id) seen || lists m.id (store_models seen (before ++ m ∷ after))) ≡ true
unfolding store_models stored_model same_format
store_models-lists seen [] m after known =
    ground (
      arith,
      known,
      eq_self m.id,
      same_format→path (select_model_format m.id m.supported_endpoints),
    )
store_models-lists seen (b ∷ before) m after known = ground (
  arith,
  store_models-lists seen before m after known,
  store_models-lists (b.id ∷ seen) before m after known,
)

eligible-Acceptable : (data' : List (Option RemoteModel)) → All Acceptable (eligible data')
unfolding eligible Acceptable
eligible-Acceptable [] = tt
eligible-Acceptable (none ∷ data') = eligible-Acceptable data'
eligible-Acceptable (some m ∷ data') = ground (arith, eligible-Acceptable data')

selected_models-Acceptable :
    (models : List RemoteModel) (include : Bool)
    → All Acceptable models
    → All Acceptable (selected_models models include)
unfolding selected_models
selected_models-Acceptable models true h =
    All-append Acceptable (keep_if is_picked models) (keep_if is_enabled models)
      (All-keep_if Acceptable is_picked models h) (All-keep_if Acceptable is_enabled models h)
selected_models-Acceptable models false h =
    All-append Acceptable (keep_if is_picked models) [] (All-keep_if Acceptable is_picked models h)
      tt

-- Of whatever the service answers, each model of the catalog has a supported ID that is not empty,
-- and an upstream format, and no two of them have the same ID.
pub parse_discovered_models-Usable :
    (data' : List (Option RemoteModel)) (include : Bool)
    → All Usable (parse_discovered_models data' include)
      × Distinct (parse_discovered_models data' include)
unfolding parse_discovered_models
parse_discovered_models-Usable data' include =
    let models = selected_models (eligible data') include in
    (
      All-sort id_less Usable (store_models [] models) (
          store_models-Usable [] models
            (selected_models-Acceptable (eligible data') include (eligible-Acceptable data'))),
      Distinct-sort (store_models [] models) (store_models-Distinct [] models),
    )

eligible-append :
    (before after : List (Option RemoteModel)) (m : RemoteModel)
    → is_eligible (trim_id m) ≡ true
    → eligible (before ++ some m ∷ after) ≡ eligible before ++ trim_id m ∷ eligible after
unfolding eligible
eligible-append [] after m h = ground (arith, h)
eligible-append (none ∷ before) after m h = eligible-append before after m h
eligible-append (some b ∷ before) after m h = ground (arith, eligible-append before after m h)

keep_if-at :
    (p : RemoteModel → Bool) (before after : List RemoteModel) (m : RemoteModel)
    → p m ≡ true
    → keep_if p (before ++ m ∷ after) ≡ keep_if p before ++ m ∷ keep_if p after
keep_if-at p before after m h =
    keep_if-append p before (m ∷ after)
    ∙ ap (λ b. keep_if p before ++ (if b then m ∷ keep_if p after else keep_if p after)) h

enabled_at :
    (before after : List RemoteModel) (m : RemoteModel) (include : Bool)
    → include ≡ true
    → is_enabled m ≡ true
    → selected_models (before ++ m ∷ after) include
      ≡ keep_if is_picked (before ++ m ∷ after)
        ++ keep_if is_enabled before
        ++ (m ∷ keep_if is_enabled after)
unfolding selected_models
enabled_at before after m include asked e =
    rw (asked, keep_if-at is_enabled before after m e)
      (sym (
        append_assoc (keep_if is_picked (before ++ m ∷ after)) (keep_if is_enabled before)
          (m ∷ keep_if is_enabled after)))

selected_models-at :
    (before after : List RemoteModel) (m : RemoteModel) (include : Bool)
    → (is_picked m || (include && is_enabled m)) ≡ true
    → (xs : List RemoteModel) × (ys : List RemoteModel) × (selected_models
          (before ++ m ∷ after)
          include
        ≡ xs ++ m ∷ ys)
unfolding selected_models
selected_models-at before after m include k =
    let all = before ++ m ∷ after in
    let enabled : List RemoteModel = if include then keep_if is_enabled all else [] in
    elim (Bool-cases (is_picked m)) [
      | inl picked ↦ (
        keep_if is_picked before,
        keep_if is_picked after ++ enabled,
        ap (λ l. l ++ enabled) (keep_if-at is_picked before after m picked)
            ∙ append_assoc (keep_if is_picked before) (m ∷ keep_if is_picked after) enabled,
      )
      | inr other ↦ (
        keep_if is_picked all ++ keep_if is_enabled before,
        keep_if is_enabled after,
        enabled_at before after m include (ground (arith, k, other)) (ground (arith, k, other)),
      )
    ]

-- A model is in the catalog if it decodes, passes the guard, is picked or (where those are asked
-- for) enabled by its policy, and has a format.
parse_discovered_models-lists :
    (before after : List (Option RemoteModel)) (m : RemoteModel) (include : Bool)
    → is_eligible (trim_id m) ≡ true
    → (is_picked (trim_id m) || (include && is_enabled (trim_id m))) ≡ true
    → select_model_format (trim_space m.id) m.supported_endpoints ≢ unknown
    → lists (trim_space m.id) (parse_discovered_models (before ++ some m ∷ after) include) ≡ true
unfolding parse_discovered_models trim_id
parse_discovered_models-lists before after m include h k known =
    let id = trim_space m.id in
    let (xs, ys, shape) =
      selected_models-at (eligible before) (eligible after) (trim_id m) include k in
    let models = selected_models (eligible (before ++ some m ∷ after)) include in
    any-sort (λ s. s.id == id) (store_models [] models)
    ∙ ap (λ l. lists id (store_models [] l))
        (ap (λ l. selected_models l include) (eligible-append before after m h) ∙ shape)
    ∙ store_models-lists [] xs (trim_id m) ys known
