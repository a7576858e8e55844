-- ===== src/Llm/Completions/Types.antt =====
-- BlockAssembler (src/ftre_agent_core/llm/block_assembler.py) seen from an adapter: the next index, and
-- which indices are open with which type.
use ftre_agent_core.Prelude.{
  ℕ, ◌+◌, String, ◌≡◌, refl, sym, ap, ◌∙◌, Option, none, some, true, false, List, [], ◌∷◌, ◌++◌,
  ◌<>◌, eqb, inl, inr, Option-cases, arith, eq_iff, if◌then◌else◌,
}
use ftre_agent_core.Json.{Fields, get}
use ftre_agent_core.Llm.{
  Usage, Chunk, block_start, text_delta, reasoning_delta, tool_call_delta, block_end, usage_chunk,
}
use ftre_agent_core.Llm.Assembler.{
  Fed, err, ok, OpenBlock, find, set, drop, Assembler, feed_start, feed_delta, feed_tool_delta,
  feed_end, feed, feed_all, is_block_type, wire_type, text_at, or_keep, finalize_block,
}
use ftre_agent_core.Llm.Assembler.Order.{fresh_block}

module _ {V : Type 0} where
  pub find-set :
      (n i : ℕ) (v : V) (xs : List (ℕ × V))
      → find i (set n v xs) ≡ (if eqb n i then some v else find i xs)
  unfolding find set
  find-set n i v [] = ground arith
  find-set n i v ((k, w) ∷ xs) = ground (arith, find-set n i v xs)

  pub find-drop :
      (n i : ℕ) (xs : List (ℕ × V)) → find i (drop n xs) ≡ (if eqb n i then none else find i xs)
  unfolding find drop
  find-drop n i [] = ground arith
  find-drop n i ((k, w) ∷ xs) = ground (arith, find-drop n i xs)

-- The types of the open indices.
abbrev pub Types : Type 0
Types = ℕ → Option String

abbrev pub type_of : Option OpenBlock → Option String
type_of none = none
type_of (some b) = some b.block_type

abbrev pub opened_at : Assembler → Types
opened_at a i = type_of (find i a.opened)

abbrev pub with_type : ℕ → Option String → Types → Types
with_type n o f i = if eqb n i then o else f i

pub record View (n : ℕ) (f : Types) (a : Assembler) : Type 0 where
  pub next : a.next_index ≡ n
  pub going : a.finished ≡ false
  pub types : (i : ℕ) → opened_at a i ≡ f i

-- An assembler with the first view accepts the chunks, and has the second view then.
abbrev pub Accepts : ℕ → Types → List Chunk → ℕ → Types → Type 0
Accepts n f chunks n' f' =
    (a : Assembler) → View n f a → (a' : Assembler) × (feed_all a chunks ≡ ok a') × View n' f' a'

-- The same of one chunk.
abbrev pub AcceptsOne : ℕ → Types → Chunk → ℕ → Types → Type 0
AcceptsOne n f chunk n' f' =
    (a : Assembler) → View n f a → (a' : Assembler) × (feed a chunk ≡ ok a') × View n' f' a'

feed_cons-append :
    (a a' : Assembler) (c : Chunk) (cs ds : List Chunk) (r : Fed Assembler)
    → feed a c ≡ r
    → ((b : Assembler) → feed_all b cs ≡ ok a' → feed_all b (cs ++ ds) ≡ feed_all a' ds)
    → feed_all a (c ∷ cs) ≡ ok a'
    → feed_all a (c ∷ (cs ++ ds)) ≡ feed_all a' ds
unfolding feed_all
feed_cons-append a a' c cs ds (err e) r ih h = absurd (ground (arith, rw (feed_all, r) at h))
feed_cons-append a a' c cs ds (ok b) r ih h = rw (feed_all, r) (ih b (rw (feed_all, r) at h))

pub feed_all-append :
    (a a' : Assembler) (cs ds : List Chunk)
    → feed_all a cs ≡ ok a'
    → feed_all a (cs ++ ds) ≡ feed_all a' ds
unfolding feed_all
feed_all-append a a' [] ds h = ap (λ b. feed_all b ds) (ground (arith, h))
feed_all-append a a' (c ∷ cs) ds h =
    feed_cons-append a a' c cs ds (feed a c) refl (λ b. feed_all-append b a' cs ds) h

pub Accepts-nil : (n : ℕ) (f : Types) → Accepts n f [] n f
unfolding feed_all
Accepts-nil n f a v = (a, refl, v)

pub Accepts-cons :
    {n n' n'' : ℕ} {f f' f'' : Types} (c : Chunk) (cs : List Chunk)
    → AcceptsOne n f c n' f'
    → Accepts n' f' cs n'' f''
    → Accepts n f (c ∷ cs) n'' f''
unfolding feed_all
Accepts-cons c cs p q a v =
    let (b, e, w) = p a v in let (d, g, z) = q b w in (d, rw (feed_all, e) g, z)

pub Accepts-append :
    {n n' n'' : ℕ} {f f' f'' : Types} (cs ds : List Chunk)
    → Accepts n f cs n' f'
    → Accepts n' f' ds n'' f''
    → Accepts n f (cs ++ ds) n'' f''
Accepts-append cs ds p q a v =
    let (b, e, w) = p a v in let (d, g, z) = q b w in (d, feed_all-append a b cs ds e ∙ g, z)

module _ {n : ℕ} {f : Types} where
  pub start-Accepts :
      (type : String)
      → is_block_type type ≡ true
      → AcceptsOne n f (block_start n type) (n + 1) (with_type n (some type) f)
  unfolding feed feed_start
  start-Accepts type t a v = (
    record a {
      opened = set n (fresh_block n type) a.opened;
      pending = set n tt a.pending;
      next_index = a.next_index + 1;
    },
    ground (arith, v.going, v.next, t),
    record {
      next = ap (λ k. k + 1) v.next;
      going = v.going;
      types = λ i. ground (arith, find-set n i (fresh_block n type) a.opened, v.types i);
    },
  )

  -- A block changed in place.
  changed-View :
      (i : ℕ) (a : Assembler) (b b' : OpenBlock)
      → find i a.opened ≡ some b
      → b'.block_type ≡ b.block_type
      → View n f a
      → View n f (record a { opened = set i b' a.opened })
  changed-View i a b b' at same v = record {
    next = v.next;
    going = v.going;
    types = λ j. ground (arith, find-set i j b' a.opened, v.types j, at, same);
  }

  -- A block of the type is open at an index.
  block_at :
      (i : ℕ) (type : String) (a : Assembler)
      → f i ≡ some type
      → View n f a
      → (b : OpenBlock) × (find i a.opened ≡ some b) × (b.block_type ≡ type)
  block_at i type a e v = elim (Option-cases (find i a.opened)) [
    | inl miss ↦ absurd (ground (arith, v.types i, miss, e))
    | inr (b, at) ↦ (b, at, ground (arith, v.types i, at, e))
  ]

  pub text-Accepts : (i : ℕ) (s : String) → f i ≡ some "text" → AcceptsOne n f (text_delta i s) n f
  unfolding feed feed_delta
  text-Accepts i s e a v =
      let (b, at, t) = block_at i "text" a e v in
      let b' : OpenBlock = record b { text = b.text <> s } in
      (
        record a { opened = set i b' a.opened },
        ground (arith, v.going, at, t, eq_iff b.block_type "text"),
        changed-View i a b b' at refl v,
      )

  pub reasoning-Accepts :
      (i : ℕ) (s : String) → f i ≡ some "reasoning" → AcceptsOne n f (reasoning_delta i s) n f
  unfolding feed feed_delta
  reasoning-Accepts i s e a v =
      let (b, at, t) = block_at i "reasoning" a e v in
      let b' : OpenBlock = record b { text = b.text <> s } in
      (
        record a { opened = set i b' a.opened },
        ground (arith, v.going, at, t, eq_iff b.block_type "reasoning"),
        changed-View i a b b' at refl v,
      )

  pub tool-Accepts :
      (i : ℕ) (call_id name delta : String)
      → f i ≡ some "tool-call"
      → AcceptsOne n f (tool_call_delta i call_id name delta) n f
  unfolding feed feed_tool_delta
  tool-Accepts i call_id name delta e a v =
      let (b, at, t) = block_at i "tool-call" a e v in
      let b' : OpenBlock = record b {
        call_id = or_keep call_id b.call_id;
        name = or_keep name b.name;
        arguments = b.arguments <> delta;
      } in
      (
        record a { opened = set i b' a.opened },
        ground (arith, v.going, at, t, eq_iff b.block_type "tool-call"),
        changed-View i a b b' at refl v,
      )

  pub end-Accepts :
      (i : ℕ) (type : String) (d : Fields)
      → f i ≡ some type
      → text_at (get "type" d) ≡ wire_type type
      → AcceptsOne n f (block_end i d) n (with_type i none f)
  unfolding feed feed_end
  end-Accepts i type d e same a v =
      let (b, at, t) = block_at i type a e v in
      let matches : wire_type b.block_type ≡ text_at (get "type" d) = ap wire_type t ∙ sym same in
      (
        record a {
          opened = drop i a.opened;
          pending = drop i a.pending;
          closed = set i (finalize_block b) a.closed;
        },
        ground
            (arith, v.going, at, matches, eq_iff (wire_type b.block_type) (text_at (get "type" d))),
        record {
          next = v.next;
          going = v.going;
          types = λ j. ground (arith, find-drop i j a.opened, v.types j);
        },
      )

  pub usage-Accepts : (u : Option Usage) → AcceptsOne n f (usage_chunk u) n f
  unfolding feed
  usage-Accepts u a v = (
    record a { usage = u },
    ground (arith, v.going),
    record { next = v.next; going = v.going; types = v.types },
  )
