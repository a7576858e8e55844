-- ===== src/Permission.antt =====
-- permission/_types.py, permission/_context.py and permission/_engine.py
-- (src/ftre_agent_core/permission): the rules and the pure decision engine.
-- `re.fullmatch` and `str` are Python's and enter as the parameter `PyText`.
pub mod Laws
mod Tests
use ftre_agent_core.Prelude.{
  String, Option, none, some, Bool, true, false, ◌&&◌, ◌||◌, List, [], ◌∷◌, ◌==◌, ◌<>◌,
  if◌then◌else◌, keep, any, map, length, ltb,
}
use ftre_agent_core.Prelude.Int.{ℤ, ltb_ℤ, eqb_ℤ}
use ftre_agent_core.Json.{Json, Fields, get}

pub data PermissionBehavior : Type 0 where
  allow deny ask : PermissionBehavior

abbrev pub same_behavior : PermissionBehavior → PermissionBehavior → Bool
same_behavior allow allow = true
same_behavior deny deny = true
same_behavior ask ask = true
same_behavior _ _ = false

pub record PermissionRequest : Type 0 where
  pub tool_name : String
  pub arguments : Fields

pub record PermissionRule : Type 0 where
  pub id : String
  pub tool_name : String
  pub argument_regex : List (String × String)
  pub behavior : PermissionBehavior
  pub priority : ℤ
  pub enabled : Bool

pub record PermissionDecision : Type 0 where
  pub behavior : PermissionBehavior
  pub reason : String
  pub rule_id : Option String

pub record PermissionContext : Type 0 where
  pub permission_rules : List PermissionRule
  pub default_behavior : PermissionBehavior

-- `str(value)`, and `re.fullmatch(pattern, text) is not None`; `none` is a raised `re.error`.
pub record PyText : Type 0 where
  pub text_of : Json → String
  pub fullmatch : String → String → Option Bool

-- The `try` around `re.fullmatch`: a pattern that does not compile does not match.
abbrev pub passes : Option Bool → Bool
passes none = false
passes (some found) = found

-- The largest of `best` and the list.
unfoldable pub max_from : ℤ → List ℤ → ℤ
max_from best [] = best
max_from best (p ∷ ps) = max_from (if ltb_ℤ best p then p else best) ps

-- `{rule.behavior for rule in candidates}`, as a list without repetitions.
unfoldable pub behavior_set : List PermissionBehavior → List PermissionBehavior
behavior_set [] = []
behavior_set (b ∷ bs) =
    let rest = behavior_set bs in if any (same_behavior b) rest then rest else b ∷ rest

module _ (py : PyText) where
  argument_matches : String → Option Json → Bool
  argument_matches pattern none = false
  argument_matches pattern (some value) = passes (py.fullmatch pattern (py.text_of value))

  unfoldable pub arguments_match : List (String × String) → Fields → Bool
  unfolding argument_matches get
  arguments_match [] arguments = true
  arguments_match ((name, pattern) ∷ more) arguments =
      argument_matches pattern (get name arguments) && arguments_match more arguments

  unfoldable pub matches : PermissionRequest → PermissionRule → Bool
  unfolding arguments_match
  matches request rule =
      rule.enabled
      && (rule.tool_name == "*" || rule.tool_name == request.tool_name)
      && arguments_match rule.argument_regex request.arguments

  -- Steps 4 and 5 of `evaluate`, on the candidates.
  unfoldable pub settle : PermissionBehavior → List PermissionRule → PermissionDecision
  settle default_behavior [] = record {
    behavior = default_behavior;
    reason = "No permission rule matched";
    rule_id = none;
  }
  settle default_behavior (rule ∷ more) =
      if ltb 1 (length (behavior_set (map (λ (r : PermissionRule). r.behavior) (rule ∷ more))))
      then record {
        behavior = deny;
        reason = "Conflicting permission rules at the same priority";
        rule_id = none;
      }
      else record {
        behavior = rule.behavior;
        reason = "Matched permission rule: " <> rule.id;
        rule_id = some rule.id;
      }

  abbrev pub candidates_of : List PermissionRule → List PermissionRule
  candidates_of [] = []
  candidates_of (first ∷ more) =
      let highest_priority =
        max_from first.priority (map (λ (r : PermissionRule). r.priority) more) in
      keep (λ r. eqb_ℤ r.priority highest_priority) (first ∷ more)

  -- With no rule matched there is no candidate, and `settle` gives the default.
  unfoldable pub evaluate :
      PermissionRequest → List PermissionRule → PermissionBehavior → PermissionDecision
  unfolding matches settle keep max_from behavior_set any
  evaluate request rules default_behavior =
      settle default_behavior (candidates_of (keep (matches request) rules))
