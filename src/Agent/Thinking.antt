-- ===== src/Agent/Thinking.antt =====
-- Thinking levels: daemon/pkg/agent/thinking.go, with the types and claude's catalogue of
-- daemon/pkg/agent/models.go. What `claude --help` lists is an argument, as is strings.Title.
use meowth.Prelude.{
  ◌≡◌, refl, Bool, true, false, not, ◌&&◌, ◌||◌, List, [], ◌∷◌, Option, none, some, String, str_eq,
  if◌then◌else◌, map, every, arith, lookup, contains,
}

pub record ThinkingLevel : Type 0 where
  pub value : String
  pub label : String
  pub description : String

pub record ModelThinking : Type 0 where
  pub supported_levels : List ThinkingLevel
  pub default_level : String

pub record Model : Type 0 where
  pub id : String
  pub is_default : Bool
  pub thinking : Option ModelThinking

claude_effort_label : List (String × String)
claude_effort_label =
    ("low", "Low")
    ∷ ("medium", "Medium")
    ∷ ("high", "High")
    ∷ ("xhigh", "Extra high")
    ∷ ("max", "Max")
    ∷ []

claude_static_effort_fallback : List String
claude_static_effort_fallback = "low" ∷ "medium" ∷ "high" ∷ []

claude_static_effort_full_superset : List String
claude_static_effort_full_superset = "low" ∷ "medium" ∷ "high" ∷ "xhigh" ∷ "max" ∷ []

claude_model_effort_allow : List (String × List String)
unfolding claude_static_effort_full_superset claude_static_effort_fallback
claude_model_effort_allow =
    ("claude-opus-4-8", claude_static_effort_full_superset)
    ∷ ("claude-opus-4-7", claude_static_effort_full_superset)
    ∷ ("claude-opus-4-6", claude_static_effort_full_superset)
    ∷ ("claude-sonnet-4-6", "low" ∷ "medium" ∷ "high" ∷ "max" ∷ [])
    ∷ ("claude-sonnet-4-5", "low" ∷ "medium" ∷ "high" ∷ "max" ∷ [])
    ∷ ("claude-haiku-4-5-20251001", claude_static_effort_fallback)
    ∷ []

-- The ids of `claudeStaticModels`.
unfoldable pub claude_static_models : List String
claude_static_models =
    "claude-sonnet-4-6" ∷ "claude-fable-5" ∷ "claude-opus-4-8" ∷ "claude-opus-4-7"
    ∷ "claude-haiku-4-5-20251001" ∷ "claude-opus-4-6" ∷ "claude-sonnet-4-5" ∷ []

-- `claudeEffortSuperset`, of the levels in the help text, or none where the command fails.
unfoldable pub claude_effort_superset : Option (List String) → List String
unfolding claude_static_effort_fallback claude_static_effort_full_superset
claude_effort_superset none = claude_static_effort_fallback
claude_effort_superset (some []) = claude_static_effort_full_superset
claude_effort_superset (some (level ∷ levels)) = level ∷ levels

allows : Option (List String) → String → Bool
allows none level = true
allows (some levels) level = contains level levels

or_title : (String → String) → Option String → String → String
or_title title none value = title value
or_title title (some label) value = label

module _ (title : String → String) where
  -- `projectClaudeLevels`
  unfoldable pub project_claude_levels : List String → Option (List String) → List ThinkingLevel
  unfolding allows or_title claude_effort_label
  project_claude_levels [] allow = []
  project_claude_levels (level ∷ levels) allow =
      let rest = project_claude_levels levels allow in
      if allows allow level
      then record {
        value = level;
        label = or_title title (lookup level claude_effort_label) level;
        description = "";
      }
        ∷ rest
      else rest

  with_levels :
      String → List ThinkingLevel → List (String × ModelThinking) → List (String × ModelThinking)
  with_levels id [] rest = rest
  with_levels id (l ∷ ls) rest =
      (id, record { supported_levels = l ∷ ls; default_level = "medium" }) ∷ rest

  -- `loadClaudeThinkingByModel`, behind its cache.
  unfoldable pub claude_thinking : List String → List String → List (String × ModelThinking)
  unfolding with_levels claude_model_effort_allow
  claude_thinking superset [] = []
  claude_thinking superset (id ∷ ids) =
      with_levels id (project_claude_levels superset (lookup id claude_model_effort_allow))
        (claude_thinking superset ids)

  codex_effort_label : List (String × String)
  codex_effort_label =
      ("none", "None")
      ∷ ("minimal", "Minimal")
      ∷ ("low", "Low")
      ∷ ("medium", "Medium")
      ∷ ("high", "High")
      ∷ ("xhigh", "Extra high")
      ∷ []

  codex_levels : List (String × String) → List ThinkingLevel
  unfolding or_title codex_effort_label
  codex_levels [] = []
  codex_levels ((effort, description) ∷ es) =
      let rest = codex_levels es in
      if str_eq effort ""
      then rest
      else record {
        value = effort;
        label = or_title title (lookup effort codex_effort_label) effort;
        description = description;
      }
        ∷ rest

  with_codex_levels :
      String
      → String
      → List ThinkingLevel
      → List (String × ModelThinking)
      → List (String × ModelThinking)
  with_codex_levels slug level [] rest = rest
  with_codex_levels slug level (l ∷ ls) rest =
      (slug, record { supported_levels = l ∷ ls; default_level = level }) ∷ rest

  -- `parseCodexDebugModels` of the decoded models: slug, default level, and efforts with descriptions. Of
  -- two models of one slug the later counts.
  unfoldable pub parse_codex_debug_models :
      List (String × String × List (String × String)) → List (String × ModelThinking)
  unfolding codex_levels with_codex_levels
  parse_codex_debug_models [] = []
  parse_codex_debug_models ((slug, level, efforts) ∷ ms) =
      let rest = parse_codex_debug_models ms in
      if str_eq slug "" then rest else with_codex_levels slug level (codex_levels efforts) rest

-- `annotateClaudeThinking` and `annotateCodexThinking`.
unfoldable pub annotate : List (String × ModelThinking) → List Model → List Model
annotate mapping models =
    map
      (λ (m : Model). elim (lookup m.id mapping) [
        | none ↦ m
        | some t ↦ record m { thinking = some t }
      ])
      models

default_model : List Model → String
default_model [] = ""
default_model (m ∷ ms) = if m.is_default then m.id else default_model ms

has_level : String → List ThinkingLevel → Bool
has_level value [] = false
has_level value (l ∷ ls) = str_eq l.value value || has_level value ls

thinks : String → Option ModelThinking → Bool
unfolding has_level
thinks value none = false
thinks value (some t) = has_level value t.supported_levels

supports : String → String → List Model → Bool
unfolding thinks
supports target value [] = false
supports target value (m ∷ ms) =
    if str_eq m.id target then thinks value m.thinking else supports target value ms

-- `ValidateThinkingLevel`; none where the models cannot be listed.
unfoldable pub validate_thinking_level : Option (List Model) → String → String → Option Bool
unfolding default_model supports
validate_thinking_level models model value =
    let target : List Model → String = λ ms. if str_eq model "" then default_model ms else model in
    let answer : Option Bool = elim models [
      | none ↦ none
      | some ms ↦ some (not (str_eq (target ms) "") && supports (target ms) value ms)
    ] in
    if str_eq value "" then some true else answer

-- `IsKnownThinkingValue`
unfoldable pub is_known_thinking_value : String → String → Bool
unfolding claude_static_effort_full_superset
is_known_thinking_value provider value =
    str_eq value ""
    || (str_eq provider "claude" && contains value claude_static_effort_full_superset)
    || (str_eq provider "codex"
        && contains value ("none" ∷ "minimal" ∷ "low" ∷ "medium" ∷ "high" ∷ "xhigh" ∷ []))

all_known : List ThinkingLevel → Bool
all_known [] = true
all_known (l ∷ ls) = is_known_thinking_value "claude" l.value && all_known ls

-- A level that the table of a model allows is known.
Permitted : List String → Type 0
Permitted allow =
    (level : String) → contains level allow ≡ true → is_known_thinking_value "claude" level ≡ true

projected :
    (title : String → String) (superset allow : List String)
    → Permitted allow
    → all_known (project_claude_levels title superset (some allow)) ≡ true
unfolding project_claude_levels all_known allows Permitted
projected title [] allow h = refl
projected title (level ∷ levels) allow h = ground (arith, h level, projected title levels allow h)

full-Permitted : Permitted claude_static_effort_full_superset
unfolding Permitted is_known_thinking_value contains
full-Permitted level h = ground (arith, h)

max-Permitted : Permitted ("low" ∷ "medium" ∷ "high" ∷ "max" ∷ [])
unfolding Permitted is_known_thinking_value claude_static_effort_full_superset contains
max-Permitted level h = ground (arith, h)

fallback-Permitted : Permitted claude_static_effort_fallback
unfolding Permitted is_known_thinking_value claude_static_effort_full_superset
    claude_static_effort_fallback contains
fallback-Permitted level h = ground (arith, h)

-- Whatever `claude --help` lists, the levels that are offered for a model with a table of its own are
-- levels that IsKnownThinkingValue accepts.
offered_known :
    (title : String → String) (superset : List String)
    → every
        (λ (row : String × List String).
          all_known (project_claude_levels title superset (some row.1)))
        claude_model_effort_allow
      ≡ true
unfolding claude_model_effort_allow
offered_known title superset =
    let full = projected title superset _ full-Permitted in
    let most = projected title superset _ max-Permitted in
    let few = projected title superset _ fallback-Permitted in ground (arith, full, most, few)
