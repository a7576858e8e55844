-- ===== src/Permission/Tests.antt =====
-- The permission engine on concrete rules.
use ftre_agent_core.Prelude.{◌≡◌, refl, some, true, List, [], ◌∷◌, Memᴰ, ◌==◌, arith}
use ftre_agent_core.Prelude.Int.{pos}
use ftre_agent_core.Json.{str, end, field}
use ftre_agent_core.Permission.{
  allow, deny, ask, PermissionRequest, PermissionRule, PyText, matches, evaluate,
}
use ftre_agent_core.Permission.Laws.{Decides, IsTop, evaluate-Decides, deny_is_final}

-- Patterns without regular-expression syntax: `fullmatch` is equality.
abbrev literal_text : PyText
literal_text = record {
  text_of = λ v. elim v [ str s ↦ s | _ ↦ "" ];
  fullmatch = λ pattern text. some (pattern == text);
}

abbrev remove_file : PermissionRequest
remove_file = record { tool_name = "rm"; arguments = field "path" (str "/etc") end }

abbrev open_rule : PermissionRule
open_rule = record {
  id = "open";
  tool_name = "*";
  argument_regex = [];
  behavior = allow;
  priority = pos 0;
  enabled = true;
}

abbrev guard_rule : PermissionRule
guard_rule = record {
  id = "guard";
  tool_name = "rm";
  argument_regex = ("path", "/etc") ∷ [];
  behavior = deny;
  priority = pos 5;
  enabled = true;
}

abbrev rules : List PermissionRule
rules = open_rule ∷ guard_rule ∷ []

guarded : (evaluate literal_text remove_file rules ask).rule_id ≡ some "guard"
unfolding evaluate
guarded = refl

evaluate-Decides_example :
    Decides literal_text remove_file rules ask (evaluate literal_text remove_file rules ask)
evaluate-Decides_example = evaluate-Decides literal_text remove_file rules ask

guard_rule-IsTop : IsTop literal_text remove_file rules guard_rule
unfolding matches
guard_rule-IsTop = record {
  listed = Memᴰ.tail (Memᴰ.head refl);
  matched = refl;
  highest = ((λ _. omega arith), ((λ _. omega arith), tt));
}

deny_is_final_example : (evaluate literal_text remove_file rules allow).behavior ≡ deny
deny_is_final_example =
    deny_is_final literal_text remove_file rules allow guard_rule guard_rule-IsTop refl
