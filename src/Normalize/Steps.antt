-- ===== src/Normalize/Steps.antt =====
-- One turn of the loop of _normalize_chat_messages (src/ftre_agent_core/llm/wire/normalize.py), by the
-- kind of the message.
use ftre_agent_core.Prelude.{zero, ◌≡◌, Bool, true, false, List, [], ◌∷◌, ◌++◌, length, ◌==◌}
use ftre_agent_core.Json.{Json, Fields, get, remove}
use ftre_agent_core.Normalize.{
  role_of, normalize_content, call_list, following, is_complete, if_payload, normalize_from,
}

module _ (preserve : Bool) (m : Fields) (ms : List Fields) where
  pub tool_step :
      (role_of m == "tool") ≡ true
      → normalize_from preserve zero (m ∷ ms) ≡ normalize_from preserve zero ms
  unfolding normalize_from
  tool_step t = rw (normalize_from, t)

  module _ (t : (role_of m == "tool") ≡ false) where
    pub other_step :
        (role_of m == "assistant") ≡ false
        → normalize_from preserve zero (m ∷ ms) ≡ m ∷ normalize_from preserve zero ms
    unfolding normalize_from
    other_step a = rw (normalize_from, t, a)

    module _ (a : (role_of m == "assistant") ≡ true) where
      pub plain_step :
          call_list (get "tool_calls" (normalize_content m)) ≡ []
          → normalize_from preserve zero (m ∷ ms)
            ≡ if_payload preserve (normalize_content m) (normalize_from preserve zero ms)
      unfolding normalize_from
      plain_step c = rw (normalize_from, t, a, c)

      module _ (call : Json) (calls : List Json)
          (c : call_list (get "tool_calls" (normalize_content m)) ≡ call ∷ calls) where
        pub pair_step :
            is_complete (call ∷ calls) (following ms) ≡ true
            → normalize_from preserve zero (m ∷ ms)
              ≡ normalize_content m
                ∷ (following ms ++ normalize_from preserve (length (following ms)) ms)
        unfolding normalize_from
        pair_step e = rw (normalize_from, t, a, c, e)

        pub strip_step :
            is_complete (call ∷ calls) (following ms) ≡ false
            → normalize_from preserve zero (m ∷ ms)
              ≡ if_payload preserve
                  (remove "tool_calls" (normalize_content m))
                  (normalize_from preserve zero ms)
        unfolding normalize_from
        strip_step e = rw (normalize_from, t, a, c, e)
