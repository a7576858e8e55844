-- ===== src/Context/Replies.antt =====
-- Where append_reply_blocks writes (src/ftre_agent_core/message_context.py).
use ftre_agent_core.Prelude.{
  String, ◌≡◌, ◌≢◌, All, cons-ne-nil, eq_iff, refl, sym, ap, subst, ◌∙◌, none, some, true, false,
  List, [], ◌∷◌, ◌++◌, is_empty, append-nil, append_assoc, eq_refl, inl, inr, Bool-cases,
  Option-cases, arith, if◌then◌else◌,
}
use ftre_agent_core.Message.{ContentBlock, Msg, Role, is_assistant, assistant}
use ftre_agent_core.Context.{Context, is_reply, new_msg, extend_last, append_reply_blocks}

is_assistant_eq : (r : Role) → is_assistant r ≡ true → r ≡ assistant
is_assistant_eq r h = ground (arith, h)

module _ (id : String) where
  -- All that the assistant messages with an id hold, in order.
  unfoldable pub reply_blocks : Context → List ContentBlock
  reply_blocks [] = []
  reply_blocks (m ∷ rest) =
      let more = reply_blocks rest in if is_reply id m then m.content ++ more else more

  -- The other messages.
  unfoldable pub others : Context → Context
  others [] = []
  others (m ∷ rest) = let more = others rest in if is_reply id m then more else m ∷ more

  abbrev pub IsReply : Msg → Type 0
  IsReply m = (m.role ≡ assistant) × (m.id ≡ id)

  -- The blocks are at the end of the last assistant message with the id.
  pub record IsAtLast (blocks : List ContentBlock) (before after : Context) : Type 0 where
    pub earlier : Context
    pub later : Context
    pub target : Msg
    pub is_target : IsReply target
    pub is_last : All (λ n. ¬ IsReply n) later
    pub was : before ≡ earlier ++ target ∷ later
    pub became : after ≡ earlier ++ record target { content = target.content ++ blocks } ∷ later

  -- Where the blocks have gone: nowhere if there are none, to the end of the last assistant message
  -- with the id, or into a new one at the end if there was none.
  pub data IsPlaced (blocks : List ContentBlock) (before after : Context) : Type 0 where
    nothing : blocks ≡ [] → after ≡ before → IsPlaced blocks before after
    at_last : blocks ≢ [] → IsAtLast blocks before after → IsPlaced blocks before after
    as_new :
        blocks ≢ []
        → All (λ n. ¬ IsReply n) before
        → after ≡ before ++ new_msg id assistant blocks ∷ []
        → IsPlaced blocks before after

  -- What `after` has over `before`: the blocks at the end of the reply, and no other change.
  pub record IsGrown (blocks : List ContentBlock) (before after : Context) : Type 0 where
    pub extended : reply_blocks after ≡ reply_blocks before ++ blocks
    pub same_others : others after ≡ others before

  pub record IsExtended (blocks : List ContentBlock) (before after : Context) : Type 0 where
    pub grown : IsGrown blocks before after
    pub place : IsPlaced blocks before after

  IsReply-of_test : (m : Msg) → is_reply id m ≡ true → IsReply m
  IsReply-of_test m h =
      (is_assistant_eq m.role (ground (arith, h)), (eq_iff m.id id).0 (ground (arith, h)))

  test-of_IsReply : (m : Msg) → is_reply id m ≡ false → ¬ IsReply m
  test-of_IsReply m h r = absurd (ground (arith, h, (eq_iff m.id id).1 r.1, ap is_assistant r.0))

  module _ (blocks : List ContentBlock) where
    none_fits : (c : Context) → extend_last id blocks c ≡ none → reply_blocks c ≡ []
    unfolding extend_last reply_blocks
    none_fits [] h = refl
    none_fits (m ∷ rest) h = elim (Option-cases (extend_last id blocks rest)) [
      | inl miss ↦ elim (Bool-cases (is_reply id m)) [
        | inl t ↦ absurd (ground (arith, (rw (miss, t) at h)))
        | inr t ↦ rw t (none_fits rest miss)
      ]
      | inr (rest', found) ↦ absurd (ground (arith, (rw found at h)))
    ]

    extend_cons :
        (m : Msg) (rest rest' : Context)
        → IsGrown blocks rest rest'
        → IsGrown blocks (m ∷ rest) (m ∷ rest')
    unfolding reply_blocks others
    extend_cons m rest rest' h = elim (Bool-cases (is_reply id m)) [
      | inl t ↦ record {
        extended = rw (t, h.extended) (sym (append_assoc m.content (reply_blocks rest) blocks));
        same_others = rw (t, h.same_others) refl;
      }
      | inr t ↦ record {
        extended = rw (t, h.extended) refl;
        same_others = rw (t, h.same_others) refl;
      }
    ]

    extend_head :
        (m : Msg) (rest : Context)
        → is_reply id m ≡ true
        → reply_blocks rest ≡ []
        → IsGrown blocks (m ∷ rest) (record m { content = m.content ++ blocks } ∷ rest)
    unfolding reply_blocks others
    extend_head m rest t h = record {
      extended =
          rw (t, h)
            (append-nil (m.content ++ blocks)
              ∙ ap (λ (l : List ContentBlock). l ++ blocks) (sym (append-nil m.content)));
      same_others = rw t refl;
    }

    some_inj : {A : Type 0} (a b : A) → some a ≡ some b → a ≡ b
    some_inj a b h = ap (λ o. elim o [ none ↦ a | some x ↦ x ]) h

    IsGrown-last : (c c' : Context) → extend_last id blocks c ≡ some c' → IsGrown blocks c c'
    unfolding extend_last
    IsGrown-last [] c' h = absurd (ground (arith, h))
    IsGrown-last (m ∷ rest) c' h = elim (Option-cases (extend_last id blocks rest)) [
      | inl miss ↦ elim (Bool-cases (is_reply id m)) [
        | inl t ↦
            let same = some_inj _ c' (rw (miss, t) at h) in
            subst (IsGrown blocks (m ∷ rest)) same (extend_head m rest t (none_fits rest miss))
        | inr t ↦ absurd (ground (arith, (rw (miss, t) at h)))
      ]
      | inr (rest', found) ↦
          let same = some_inj (m ∷ rest') c' (rw found at h) in
          subst (IsGrown blocks (m ∷ rest)) same
            (extend_cons m rest rest' (IsGrown-last rest rest' found))
    ]

    -- The new message that is added when no message fits.
    IsGrown-new : (c : Context) → IsGrown blocks c (c ++ new_msg id assistant blocks ∷ [])
    unfolding reply_blocks others
    IsGrown-new [] = record {
      extended = rw (eq_refl id) (append-nil blocks);
      same_others = rw (eq_refl id) refl;
    }
    IsGrown-new (m ∷ rest) =
        extend_cons m rest (rest ++ new_msg id assistant blocks ∷ []) (IsGrown-new rest)

  unchanged :
      (blocks : List ContentBlock) (c : Context) → is_empty blocks ≡ true → IsGrown blocks c c
  unchanged [] c h = record { extended = sym (append-nil (reply_blocks c)); same_others = refl }
  unchanged (b ∷ bs) c h = absurd (ground (arith, h))

  append_reply_blocks-IsGrown :
      (c : Context) (blocks : List ContentBlock)
      → IsGrown blocks c (append_reply_blocks c id blocks)
  unfolding append_reply_blocks
  append_reply_blocks-IsGrown c blocks = elim (Bool-cases (is_empty blocks)) [
    | inl t ↦ rw t (unchanged blocks c t)
    | inr t ↦ elim (Option-cases (extend_last id blocks c)) [
      | inl miss ↦ rw (t, miss) (IsGrown-new blocks c)
      | inr (c', found) ↦ rw (t, found) (IsGrown-last blocks c c' found)
    ]
  ]

  module _ (blocks : List ContentBlock) where
    none-IsReply : (c : Context) → extend_last id blocks c ≡ none → All (λ n. ¬ IsReply n) c
    unfolding extend_last
    none-IsReply [] h = tt
    none-IsReply (m ∷ rest) h = elim (Option-cases (extend_last id blocks rest)) [
      | inl miss ↦ elim (Bool-cases (is_reply id m)) [
        | inl t ↦ absurd (ground (arith, (rw (miss, t) at h)))
        | inr t ↦ (test-of_IsReply m t, none-IsReply rest miss)
      ]
      | inr (rest', found) ↦ absurd (ground (arith, (rw found at h)))
    ]

    cons-IsAtLast :
        (m : Msg) (rest rest' : Context)
        → IsAtLast blocks rest rest'
        → IsAtLast blocks (m ∷ rest) (m ∷ rest')
    cons-IsAtLast m rest rest' h = record {
      earlier = m ∷ h.earlier;
      later = h.later;
      target = h.target;
      is_target = h.is_target;
      is_last = h.is_last;
      was = ap (λ ys. m ∷ ys) h.was;
      became = ap (λ ys. m ∷ ys) h.became;
    }

    last-IsAtLast : (c c' : Context) → extend_last id blocks c ≡ some c' → IsAtLast blocks c c'
    unfolding extend_last
    last-IsAtLast [] c' h = absurd (ground (arith, h))
    last-IsAtLast (m ∷ rest) c' h = elim (Option-cases (extend_last id blocks rest)) [
      | inl miss ↦ elim (Bool-cases (is_reply id m)) [
        | inl t ↦ record {
          earlier = [];
          later = rest;
          target = m;
          is_target = IsReply-of_test m t;
          is_last = none-IsReply rest miss;
          was = refl;
          became = sym (some_inj blocks _ c' (rw (miss, t) at h));
        }
        | inr t ↦ absurd (ground (arith, (rw (miss, t) at h)))
      ]
      | inr (rest', found) ↦
          subst (IsAtLast blocks (m ∷ rest)) (some_inj blocks (m ∷ rest') c' (rw found at h))
            (cons-IsAtLast m rest rest' (last-IsAtLast rest rest' found))
    ]

  append_reply_blocks-IsPlaced :
      (c : Context) (blocks : List ContentBlock)
      → IsPlaced blocks c (append_reply_blocks c id blocks)
  unfolding append_reply_blocks
  append_reply_blocks-IsPlaced c [] = nothing refl refl
  append_reply_blocks-IsPlaced c (b ∷ bs) = elim (Option-cases (extend_last id (b ∷ bs) c)) [
    | inl miss ↦ rw miss (as_new cons-ne-nil (none-IsReply (b ∷ bs) c miss) refl)
    | inr (c', found) ↦ rw found (at_last cons-ne-nil (last-IsAtLast (b ∷ bs) c c' found))
  ]

  -- append_reply_blocks puts the blocks, in their order, after all that the assistant messages with
  -- the id hold, and leaves every other message as it was. They go to the end of the last of these
  -- messages; if there is none, into a new one at the end of the context. No blocks change nothing.
  pub append_reply_blocks-IsExtended :
      (c : Context) (blocks : List ContentBlock)
      → IsExtended blocks c (append_reply_blocks c id blocks)
  append_reply_blocks-IsExtended c blocks = record {
    grown = append_reply_blocks-IsGrown c blocks;
    place = append_reply_blocks-IsPlaced c blocks;
  }
