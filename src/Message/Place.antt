-- ===== src/Message/Place.antt =====
-- A block of a message is found by its type and id, which no change of it touches
-- (src/ftre_agent_core/message/_msg.py).
use ftre_agent_core.Prelude.{
  String, ◌≡◌, refl, sym, subst, ◌∙◌, Option, none, some, true, false, ◌&&◌, List, [], ◌∷◌, ◌++◌,
  ◌==◌, inl, inr, Bool-cases, Option-cases, arith, eq_iff,
}
use ftre_agent_core.Json.{Fields}
use ftre_agent_core.Message.{
  DataBlock, ContentBlock, text, thinking, binary, hint, tool_call, tool_result, Msg, Part, Source,
  base64, url, ToolCallState, ToolResultState, ToolResultBlock,
}
use ftre_agent_core.Message.Blocks.{
  block_type, block_id, is_at, find_block, set_block, alter, finish_at, add_text, add_thinking,
  set_state, set_arguments, end_result, set_output, add_output, add_data_output,
}
use ftre_agent_core.Message.Rebuild.{Library, data_on, with_data, add_data}

abbrev pub IfSome : {A : Type 0} → (A → Type 0) → Option A → Type 0
IfSome P none = Unit
IfSome P (some a) = P a

pub IfSome-bind :
    {A B : Type 0} (P : A → Type 0) (Q : B → Type 0) (f : A → Option B) (o : Option A)
    → IfSome P o
    → ((a : A) → P a → IfSome Q (f a))
    → IfSome Q (elim o [ none ↦ none | some a ↦ f a ])
IfSome-bind P Q f none h k = tt
IfSome-bind P Q f (some a) h k = k a h

pub IfSome-at : {A : Type 0} (P : A → Type 0) (o : Option A) (a : A) → IfSome P o → o ≡ some a → P a
IfSome-at P none a h e = absurd (ground (arith, e))
IfSome-at P (some b) a h e = subst P (ground (arith, e)) h

module _ (type id : String) where
  pub at-find_block :
      (b : ContentBlock) (bs : List ContentBlock)
      → find_block type id bs ≡ some b
      → is_at type id b ≡ true
  unfolding find_block
  at-find_block b [] h = absurd (ground (arith, h))
  at-find_block b (c ∷ bs) h = elim (Bool-cases (is_at type id c)) [
    | inl e ↦ ground (arith, rw e at h, e)
    | inr e ↦ at-find_block b bs (rw e at h)
  ]

  not_at :
      (t i : String) (b : ContentBlock)
      → is_at t i b ≡ true
      → (t == type && i == id) ≡ false
      → is_at type id b ≡ false
  not_at t i b h n = ground (
    arith,
    h,
    n,
    eq_iff (block_type b) t,
    eq_iff (block_id b) i,
    eq_iff (block_type b) type,
    eq_iff (block_id b) id,
  )

  pub find_block-append :
      (b : ContentBlock) (bs cs : List ContentBlock)
      → find_block type id bs ≡ some b
      → find_block type id (bs ++ cs) ≡ some b
  unfolding find_block
  find_block-append b [] cs h = absurd (ground (arith, h))
  find_block-append b (c ∷ bs) cs h = elim (Bool-cases (is_at type id c)) [
    | inl e ↦ rw e (rw e at h)
    | inr e ↦ rw e (find_block-append b bs cs (rw e at h))
  ]

  pub find_block-set_block :
      (b new : ContentBlock) (bs : List ContentBlock)
      → find_block type id bs ≡ some b
      → is_at type id new ≡ true
      → find_block type id (set_block type id new bs) ≡ some new
  unfolding find_block set_block
  find_block-set_block b new [] h n = absurd (ground (arith, h))
  find_block-set_block b new (c ∷ bs) h n = elim (Bool-cases (is_at type id c)) [
    | inl e ↦ rw (e, n) refl
    | inr e ↦ rw (e, e) (find_block-set_block b new bs (rw e at h) n)
  ]

  pub find_block-set_other :
      (t i : String) (new : ContentBlock) (bs : List ContentBlock)
      → is_at t i new ≡ true
      → (t == type && i == id) ≡ false
      → find_block type id (set_block t i new bs) ≡ find_block type id bs
  unfolding find_block set_block
  find_block-set_other t i new [] h n = refl
  find_block-set_other t i new (c ∷ bs) h n = elim (Bool-cases (is_at t i c)) [
    | inl e ↦ rw (e, not_at t i new h n, not_at t i c e n) refl
    | inr e ↦ elim (Bool-cases (is_at type id c)) [
      | inl f ↦ rw (e, f) refl
      | inr f ↦ rw (e, f) (find_block-set_other t i new bs h n)
    ]
  ]

abbrev pub place : ContentBlock → String × String
place b = (block_type b, block_id b)

-- A change keeps the type and the id of the block.
abbrev pub InPlace : (ContentBlock → Option ContentBlock) → Type 0
InPlace change = (b : ContentBlock) → IfSome (λ new. place new ≡ place b) (change b)

pub finish_at-InPlace : (time : String) → InPlace (λ b. some (finish_at time b))
finish_at-InPlace time (text b) = refl
finish_at-InPlace time (thinking b) = refl
finish_at-InPlace time (binary b) = refl
finish_at-InPlace time (hint b) = refl
finish_at-InPlace time (tool_call b) = refl
finish_at-InPlace time (tool_result b) = refl

pub add_text-InPlace : (delta : String) → InPlace (λ b. some (add_text delta b))
add_text-InPlace delta (text b) = refl
add_text-InPlace delta (thinking b) = refl
add_text-InPlace delta (binary b) = refl
add_text-InPlace delta (hint b) = refl
add_text-InPlace delta (tool_call b) = refl
add_text-InPlace delta (tool_result b) = refl

pub add_thinking-InPlace : (delta : String) → InPlace (λ b. some (add_thinking delta b))
add_thinking-InPlace delta (text b) = refl
add_thinking-InPlace delta (thinking b) = refl
add_thinking-InPlace delta (binary b) = refl
add_thinking-InPlace delta (hint b) = refl
add_thinking-InPlace delta (tool_call b) = refl
add_thinking-InPlace delta (tool_result b) = refl

pub set_state-InPlace : (state : ToolCallState) → InPlace (λ b. some (set_state state b))
set_state-InPlace state (text b) = refl
set_state-InPlace state (thinking b) = refl
set_state-InPlace state (binary b) = refl
set_state-InPlace state (hint b) = refl
set_state-InPlace state (tool_call b) = refl
set_state-InPlace state (tool_result b) = refl

pub set_arguments-InPlace : (arguments : Fields) → InPlace (λ b. some (set_arguments arguments b))
set_arguments-InPlace arguments (text b) = refl
set_arguments-InPlace arguments (thinking b) = refl
set_arguments-InPlace arguments (binary b) = refl
set_arguments-InPlace arguments (hint b) = refl
set_arguments-InPlace arguments (tool_call b) = refl
set_arguments-InPlace arguments (tool_result b) = refl

pub set_call-InPlace :
    (time : String) (arguments : Fields)
    → InPlace (λ b. some (finish_at time (set_arguments arguments b)))
set_call-InPlace time arguments b =
    finish_at-InPlace time (set_arguments arguments b) ∙ set_arguments-InPlace arguments b

pub set_result-InPlace :
    (time : String) (state : ToolResultState) (metadata : Fields)
    → InPlace (λ b. some (finish_at time (end_result state metadata b)))
set_result-InPlace time state metadata (tool_result b) = refl
set_result-InPlace time state metadata (text b) = refl
set_result-InPlace time state metadata (thinking b) = refl
set_result-InPlace time state metadata (binary b) = refl
set_result-InPlace time state metadata (hint b) = refl
set_result-InPlace time state metadata (tool_call b) = refl

set_output-InPlace :
    (b : ToolResultBlock) (o : Option (List Part))
    → IfSome (λ new. place new ≡ place (tool_result b)) (set_output b o)
set_output-InPlace b none = tt
set_output-InPlace b (some ps) = refl

pub add_output-InPlace : (id delta : String) → InPlace (add_output id delta)
unfolding add_output
add_output-InPlace id delta (tool_result b) = set_output-InPlace b _
add_output-InPlace id delta (text b) = refl
add_output-InPlace id delta (thinking b) = refl
add_output-InPlace id delta (binary b) = refl
add_output-InPlace id delta (hint b) = refl
add_output-InPlace id delta (tool_call b) = refl

pub add_data_output-InPlace :
    (id block : String) (source : Source) → InPlace (λ b. some (add_data_output id block source b))
add_data_output-InPlace id block source (tool_result b) = refl
add_data_output-InPlace id block source (text b) = refl
add_data_output-InPlace id block source (thinking b) = refl
add_data_output-InPlace id block source (binary b) = refl
add_data_output-InPlace id block source (hint b) = refl
add_data_output-InPlace id block source (tool_call b) = refl

module _ (lib : Library) where
  with_data-InPlace :
      (b : DataBlock) (media_type : String) (o : Option String)
      → IfSome (λ new. place new ≡ place (binary b)) (with_data lib b media_type o)
  with_data-InPlace b media_type none = tt
  with_data-InPlace b media_type (some data') = refl

  data_on-InPlace :
      (b : DataBlock) (new : String) (source : Source)
      → IfSome (λ new. place new ≡ place (binary b)) (data_on lib b new source)
  unfolding data_on
  data_on-InPlace b new (base64 old media_type) = with_data-InPlace b media_type _
  data_on-InPlace b new (url link media_type) = tt

  pub add_data-InPlace : (new : String) → InPlace (add_data lib new)
  unfolding add_data
  add_data-InPlace new (binary b) = elim (Bool-cases (new == "")) [
    | inl e ↦ rw e refl
    | inr e ↦ rw e (data_on-InPlace b new b.source)
  ]
  add_data-InPlace new (text b) = refl
  add_data-InPlace new (thinking b) = refl
  add_data-InPlace new (hint b) = refl
  add_data-InPlace new (tool_call b) = refl
  add_data-InPlace new (tool_result b) = refl

module _ (m : Msg) (type id : String) where
  pub place-is_at :
      (b c : ContentBlock) → place c ≡ place b → is_at type id b ≡ true → is_at type id c ≡ true
  place-is_at b c e h = subst (λ p. (p.0 == type && p.1 == id) ≡ true) (sym e) h

  -- What holds of the blocks holds after a change when it holds with the changed block set.
  pub alter-content :
      (P : List ContentBlock → Type 0) (change : ContentBlock → Option ContentBlock)
      → P m.content
      → ((b new : ContentBlock)
          → find_block type id m.content ≡ some b
          → change b ≡ some new
          → P (set_block type id new m.content))
      → IfSome (λ m'. (m'.id ≡ m.id) × P m'.content) (alter type id change m)
  unfolding alter
  alter-content P change p f = elim (Option-cases (find_block type id m.content)) [
    | inl e ↦ rw (alter, e) (refl, p)
    | inr (b, e) ↦ elim (Option-cases (change b)) [
      | inl g ↦ rw (alter, e, g) tt
      | inr (new, g) ↦ rw (alter, e, g) (refl, f b new e g)
    ]
  ]
