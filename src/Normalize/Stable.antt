-- ===== src/Normalize/Stable.antt =====
-- Normalisation of normalised messages (src/ftre_agent_core/llm/wire/normalize.py).
use ftre_agent_core.Prelude.{
  zero, String, ◌≡◌, refl, ap, ◌∙◌, some, Bool, List, [], ◌∷◌, ◌++◌, length, ◌==◌, inl, inr,
  Bool-cases, All, arith, eq_iff,
}
use ftre_agent_core.Json.{Json, str, Fields, get, put, end, field}
use ftre_agent_core.Normalize.{
  is_empty_content, normalize_content, following, normalize_from, normalize_messages,
}
use ftre_agent_core.Normalize.Shape.{
  IsOf, HasContent, IsPlain, IsPair, IsNormal, nil, other, plain, pair,
}
use ftre_agent_core.Normalize.Steps.{other_step, plain_step, pair_step}
use ftre_agent_core.Normalize.Answers.{IsAnswered-is_complete}

put-same : (k : String) (v : Json) (d : Fields) → get k d ≡ some v → put k v d ≡ d
unfolding get put
put-same k v end h = absurd (ground (arith, h))
put-same k v (field i w d) h = elim (Bool-cases (i == k)) [
  | inl e ↦ ground (arith, e, h, eq_iff i k)
  | inr e ↦ ground (arith, e, put-same k v d (ground (arith, e, h)))
]

normalize_content-same : (m : Fields) → HasContent m → normalize_content m ≡ m
unfolding normalize_content
normalize_content-same m h = elim (Bool-cases (is_empty_content (some h.content))) [
  | inl e ↦ rw (h.is_there, e) (put-same "content" (str "") m (h.is_there ∙ ap some (h.if_empty e)))
  | inr e ↦ rw (h.is_there, e) refl
]

following-append :
    (results ms : List Fields)
    → All (IsOf "tool") results
    → following ms ≡ []
    → following (results ++ ms) ≡ results
unfolding following
following-append [] ms h e = e
following-append (r ∷ results) ms h e = rw (h.0, following-append results ms h.1 e) refl

skip_results :
    (preserve : Bool) (results ms : List Fields)
    → normalize_from preserve (length results) (results ++ ms) ≡ normalize_from preserve zero ms
unfolding normalize_from
skip_results preserve [] ms = refl
skip_results preserve (r ∷ results) ms = skip_results preserve results ms

IsNormal-following : {preserve : Bool} (ms : List Fields) → IsNormal preserve ms → following ms ≡ []
unfolding following
IsNormal-following _ nil = refl
IsNormal-following _ (other t a h) = rw t refl
IsNormal-following _ (plain p h) = rw p.of_assistant refl
IsNormal-following _ (pair p h) = rw p.of_assistant refl

module _ (preserve : Bool) where
  plain-same :
      (m : Fields) (ms : List Fields)
      → IsPlain preserve m
      → normalize_from preserve zero (m ∷ ms) ≡ m ∷ normalize_from preserve zero ms
  plain-same m ms p =
      let e = normalize_content-same m p.has_content in
      plain_step preserve m ms (rw p.of_assistant refl) (rw p.of_assistant refl) (rw e p.no_calls)
      ∙ rw (e, p.payload) refl

  pair-same :
      (m : Fields) (results ms : List Fields)
      → IsPair m results
      → following ms ≡ []
      → normalize_from preserve zero (m ∷ (results ++ ms))
        ≡ m ∷ (results ++ normalize_from preserve zero ms)
  pair-same m results ms p e =
      let c = normalize_content-same m p.has_content in
      let f = following-append results ms p.of_tool e in
      pair_step preserve m (results ++ ms) (rw p.of_assistant refl) (rw p.of_assistant refl) p.call
        p.calls (rw c p.has_calls)
        (rw f (IsAnswered-is_complete (p.call ∷ p.calls) results p.answered))
      ∙ rw (c, f, skip_results preserve results ms) refl

  IsNormal-same : (ms : List Fields) → IsNormal preserve ms → normalize_from preserve zero ms ≡ ms
  unfolding normalize_from
  IsNormal-same _ nil = refl
  IsNormal-same _ (other {m} {ms} t a h) =
      other_step preserve m ms t a ∙ ap (λ l. m ∷ l) (IsNormal-same ms h)
  IsNormal-same _ (plain {m} {ms} p h) = plain-same m ms p ∙ ap (λ l. m ∷ l) (IsNormal-same ms h)
  IsNormal-same _ (pair {m} {results} {ms} p h) =
      pair-same m results ms p (IsNormal-following ms h)
      ∙ ap (λ l. m ∷ (results ++ l)) (IsNormal-same ms h)

  -- Messages that keep the protocol are not changed by normalisation.
  pub normalize_messages-same :
      (ms : List Fields) → IsNormal preserve ms → normalize_messages preserve ms ≡ ms
  unfolding normalize_messages
  normalize_messages-same ms h = IsNormal-same ms h
