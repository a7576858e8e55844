-- ===== src/Normalize/Answers.antt =====
-- The test of complete pairs of src/ftre_agent_core/llm/wire/normalize.py, against what it means.
use ftre_agent_core.Prelude.{
  String, ◌≡◌, refl, some, true, List, [], ◌∷◌, all, ◌==◌, inl, inr, Bool-cases, Option-cases, All,
  Memᴰ, arith, eq_iff,
}
use ftre_agent_core.Json.{Json, Fields}
use ftre_agent_core.Normalize.{texts_under, holds, as_json, is_within, ids_match, is_complete}
use ftre_agent_core.Normalize.Shape.{IsAnswered}

mem_of_holds : (s : String) (ss : List String) → holds s ss ≡ true → Memᴰ s ss
unfolding holds
mem_of_holds s [] h = absurd (ground (arith, h))
mem_of_holds s (t ∷ ts) h = elim (Bool-cases (t == s)) [
  | inl e ↦ Memᴰ.head (ground (arith, e, eq_iff t s))
  | inr e ↦ Memᴰ.tail (mem_of_holds s ts (ground (arith, e, h)))
]

holds_of_mem : (s : String) (ss : List String) → Memᴰ s ss → holds s ss ≡ true
unfolding holds
holds_of_mem s [] m = elim m [ ]
holds_of_mem s (t ∷ ts) (Memᴰ.head e) = ground (arith, e, eq_iff t s)
holds_of_mem s (t ∷ ts) (Memᴰ.tail m) = ground (arith, holds_of_mem s ts m)

module _ (ts : List String) where
  All-of_within : (ss : List String) → is_within ss ts ≡ true → All (λ s. Memᴰ s ts) ss
  unfolding all
  All-of_within [] h = tt
  All-of_within (s ∷ ss) h =
      (mem_of_holds s ts (ground (arith, h)), All-of_within ss (ground (arith, h)))

  within_of_All : (ss : List String) → All (λ s. Memᴰ s ts) ss → is_within ss ts ≡ true
  unfolding all
  within_of_All [] h = refl
  within_of_All (s ∷ ss) h = ground (arith, holds_of_mem s ts h.0, within_of_All ss h.1)

module _ (calls : List Json) (results : List Fields) where
  IsAnswered-if :
      (call_ids result_ids : List String)
      → texts_under "id" calls ≡ some call_ids
      → texts_under "tool_call_id" (as_json results) ≡ some result_ids
      → ids_match call_ids result_ids ≡ true
      → IsAnswered calls results
  unfolding ids_match
  IsAnswered-if call_ids result_ids e f h = record {
    call_ids = call_ids;
    result_ids = result_ids;
    of_calls = e;
    of_results = f;
    distinct = ground (arith, h);
    as_many = ground (arith, h);
    only_calls = All-of_within call_ids result_ids (ground (arith, h));
    every_call = All-of_within result_ids call_ids (ground (arith, h));
  }

  pub is_complete-IsAnswered : is_complete calls results ≡ true → IsAnswered calls results
  unfolding is_complete
  is_complete-IsAnswered h = elim (Option-cases (texts_under "id" calls)) [
    | inl e ↦ absurd (ground (arith, rw (is_complete, e) at h))
    | inr (call_ids, e) ↦ elim (Option-cases (texts_under "tool_call_id" (as_json results))) [
      | inl f ↦ absurd (ground (arith, rw (is_complete, e, f) at h))
      | inr (result_ids, f) ↦ IsAnswered-if call_ids result_ids e f (rw (is_complete, e, f) at h)
    ]
  ]

  pub IsAnswered-is_complete : IsAnswered calls results → is_complete calls results ≡ true
  unfolding is_complete ids_match
  IsAnswered-is_complete p =
      rw (is_complete, p.of_calls, p.of_results)
        (ground (
          arith,
          p.distinct,
          p.as_many,
          within_of_All p.call_ids p.result_ids p.only_calls,
          within_of_All p.result_ids p.call_ids p.every_call,
        ))
