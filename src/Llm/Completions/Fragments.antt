-- ===== src/Llm/Completions/Fragments.antt =====
-- The fragments that _ToolCallAccumulator (src/ftre_agent_core/llm/adapters/openai_completions.py) gives.
use Prim.Native.String.{len, slice}
use package.text.Mathlib.TextLemmas.{append-nil, nil-append, append_assoc}
use package.text.Mathlib.TextPositions.{len-append, slice-append_right, slice_all, slice-zero-zero}
use ftre_agent_core.Prelude.{
  ℕ, ◌+◌, String, ◌≡◌, refl, sym, ap, subst, ◌∙◌, Option, none, some, Bool, true, false, List, [],
  not, ◌&&◌, ◌||◌, ◌∷◌, ◌==◌, ◌<>◌, eqb, inl, inr, Bool-cases, arith, if◌then◌else◌,
}
use ftre_agent_core.Llm.Assembler.{find, set}
use ftre_agent_core.Llm.Completions.Turn.{
  ToolDelta, Entry, new_entry, Fragment, entry_of, fill, unsent, can_send, index_in, accumulate,
  or_old,
}
use ftre_agent_core.Llm.Completions.Types.{find-set}

-- `feed` of a list of deltas: the entries after it, and the fragments.
unfoldable pub accumulate_all : List (ℕ × Entry) → List ToolDelta → List (ℕ × Entry) × List Fragment
unfolding accumulate
accumulate_all items [] = (items, [])
accumulate_all items (d ∷ ds) =
    let r = accumulate items d in
    let rest = accumulate_all r.0 ds in (rest.0, elim r.1 [ none ↦ rest.1 | some f ↦ f ∷ rest.1 ])

-- The arguments in the fragments of a wire index.
unfoldable pub sent_to : ℕ → List Fragment → String
sent_to w [] = ""
sent_to w (f ∷ fs) = if eqb f.wire_index w then f.arguments <> sent_to w fs else sent_to w fs

-- What the deltas bring for a wire index: the pieces of arguments, in order, and whether an id is
-- among them. A delta without an index is for the one that the accumulator gives it.
pub received : ℕ → List (ℕ × Entry) → List ToolDelta → String
received w items [] = ""
received w items (d ∷ ds) =
    (if eqb (index_in items d.index) w then d.arguments else "")
    <> received w (accumulate items d).0 ds

abbrev pub is_named : ToolDelta → Bool
is_named d = not (d.id == "")

pub has_id : ℕ → List (ℕ × Entry) → List ToolDelta → Bool
has_id w items [] = false
has_id w items (d ∷ ds) =
    (eqb (index_in items d.index) w && is_named d) || has_id w (accumulate items d).0 ds

-- What has been sent of an entry is a first part of its arguments, all of them once it has an id
-- and nothing before.
record IsSent (e : Entry) (sent : String) : Type 0 where
  rest : String
  parts : e.arguments ≡ sent <> rest
  emitted : e.emitted_length ≡ len sent
  all_sent : (e.id == "") ≡ false → rest ≡ ""
  none_sent : (e.id == "") ≡ true → sent ≡ ""

new_entry-IsSent : IsSent new_entry ""
new_entry-IsSent = record {
  rest = "";
  parts = refl;
  emitted = refl;
  all_sent = λ h. refl;
  none_sent = λ h. refl;
}

len_zero : (s : String) → len s ≡ 0 → s ≡ ""
len_zero s h = sym (slice_all s) ∙ ap (λ n. slice s 0 n) h ∙ slice-zero-zero s

module _ (d : ToolDelta) (e : Entry) (sent : String) (h : IsSent e sent) where
  abbrev filled : Entry
  filled = fill d e

  abbrev left : String
  left = h.rest <> d.arguments

  filled_parts : filled.arguments ≡ sent <> left
  filled_parts = ap (λ s. s <> d.arguments) h.parts ∙ append_assoc sent h.rest d.arguments

  filled_length : len filled.arguments ≡ len sent + len left
  filled_length = ap len filled_parts ∙ len-append sent left

  unsent-filled : unsent filled ≡ left
  unsent-filled = rw (filled_length, h.emitted, filled_parts) (slice-append_right sent left)

  send-IsSent :
      can_send filled ≡ true
      → IsSent (record filled { emitted_length = len filled.arguments }) (sent <> unsent filled)
  send-IsSent c = record {
    rest = "";
    parts = filled_parts ∙ ap (λ s. sent <> s) (sym unsent-filled) ∙ sym (append-nil _);
    emitted = ap len (filled_parts ∙ ap (λ s. sent <> s) (sym unsent-filled));
    all_sent = λ n. refl;
    none_sent = λ n. absurd (ground (arith, c, n));
  }

  -- An entry keeps its id until another one comes.
  unnamed : (filled.id == "") ≡ true → (e.id == "") ≡ true
  unnamed n = elim (Bool-cases (d.id == "")) [
    | inl t ↦ rw t at n
    | inr t ↦ absurd (ground (arith, t, (rw t at n)))
  ]

  hold-IsSent : can_send filled ≡ false → IsSent filled sent
  hold-IsSent c = record {
    rest = left;
    parts = filled_parts;
    emitted = h.emitted;
    all_sent = λ n. len_zero left (ground (arith, c, n, filled_length, h.emitted));
    none_sent = λ n. h.none_sent (unnamed n);
  }

-- Every entry is sent as far as the fragments say.
abbrev AllSent : List (ℕ × Entry) → (ℕ → String) → Type 0
AllSent items sent = (w : ℕ) → IsSent (entry_of (find w items)) (sent w)

abbrev sent_with : Option Fragment → (ℕ → String) → ℕ → String
sent_with none sent w = sent w
sent_with (some f) sent w = if eqb f.wire_index w then sent w <> f.arguments else sent w

at_set :
    (items : List (ℕ × Entry)) (i w : ℕ) (e : Entry) (s s' : String)
    → (i ≡ w → IsSent e s)
    → IsSent (entry_of (find w items)) s'
    → IsSent (entry_of (find w (set i e items))) (if eqb i w then s else s')
at_set items i w e s s' f h = elim (Bool-cases (eqb i w)) [
  | inl same ↦ rw (find-set i w e items, same) (f (ground (arith, same)))
  | inr other ↦ rw (find-set i w e items, other) h
]

if_same : (b : Bool) (s : String) → (if b then s else s) ≡ s
if_same true s = refl
if_same false s = refl

accumulate-AllSent :
    (items : List (ℕ × Entry)) (d : ToolDelta) (sent : ℕ → String)
    → AllSent items sent
    → AllSent (accumulate items d).0 (sent_with (accumulate items d).1 sent)
unfolding accumulate
accumulate-AllSent items d sent h w =
    let i = index_in items d.index in
    let e = entry_of (find i items) in
    elim (Bool-cases (can_send (fill d e))) [
      | inl c ↦
          rw (accumulate, c)
            (at_set items i w _ (sent w <> unsent (fill d e)) (sent w)
              (λ same.
                subst
                  (λ k.
                    IsSent (record (fill d e) { emitted_length = len (fill d e).arguments })
                      (sent k <> unsent (fill d e)))
                  same (send-IsSent d e (sent i) (h i) c))
              (h w))
      | inr c ↦
          rw (accumulate, c)
            (subst (λ s. IsSent (entry_of (find w (set i (fill d e) items))) s)
              (if_same (eqb i w) (sent w))
              (at_set items i w (fill d e) (sent w) (sent w)
                (λ same.
                  subst (λ k. IsSent (fill d e) (sent k)) same (hold-IsSent d e (sent i) (h i) c))
                (h w)))
    ]

sent_more :
    (o : Option Fragment) (fs : List Fragment) (sent : ℕ → String) (w : ℕ)
    → sent_with o sent w <> sent_to w fs
      ≡ sent w <> sent_to w (elim o [ none ↦ fs | some f ↦ f ∷ fs ])
unfolding sent_to
sent_more none fs sent w = refl
sent_more (some f) fs sent w = elim (Bool-cases (eqb f.wire_index w)) [
  | inl e ↦ rw e (append_assoc (sent w) f.arguments (sent_to w fs))
  | inr e ↦ rw e refl
]

accumulate_all-AllSent :
    (items : List (ℕ × Entry)) (ds : List ToolDelta) (sent : ℕ → String)
    → AllSent items sent
    → (w : ℕ)
    → IsSent
        (entry_of (find w (accumulate_all items ds).0))
        (sent w <> sent_to w (accumulate_all items ds).1)
unfolding accumulate_all sent_to
accumulate_all-AllSent items [] sent h w =
    subst (λ s. IsSent (entry_of (find w items)) s) (sym (append-nil (sent w))) (h w)
accumulate_all-AllSent items (d ∷ ds) sent h w =
    let r = accumulate items d in
    subst (λ s. IsSent (entry_of (find w (accumulate_all r.0 ds).0)) s)
      (sent_more r.1 (accumulate_all r.0 ds).1 sent w)
      (accumulate_all-AllSent r.0 ds (sent_with r.1 sent) (accumulate-AllSent items d sent h) w)

or_old-IsNamed :
    (new old : String) → not (or_old new old == "") ≡ (not (new == "") || not (old == ""))
or_old-IsNamed new old = elim (Bool-cases (new == "")) [
  | inl t ↦ rw t refl
  | inr t ↦ rw t (rw t refl)
]

-- An entry `new` after what was brought for `old`.
record HasGot (old new : Entry) (pieces : String) (id_came : Bool) : Type 0 where
  arguments : new.arguments ≡ old.arguments <> pieces
  named : not (new.id == "") ≡ (id_came || not (old.id == ""))

same-HasGot : (e : Entry) → HasGot e e "" false
same-HasGot e = record { arguments = sym (append-nil e.arguments); named = refl }

fill-HasGot : (d : ToolDelta) (e : Entry) → HasGot e (fill d e) d.arguments (is_named d)
fill-HasGot d e = record { arguments = refl; named = or_old-IsNamed d.id e.id }

trans-HasGot :
    (a b c : Entry) (p q : String) (m n : Bool)
    → HasGot a b p m
    → HasGot b c q n
    → HasGot a c (p <> q) (m || n)
trans-HasGot a b c p q m n h k = record {
  arguments = k.arguments ∙ ap (λ s. s <> q) h.arguments ∙ append_assoc a.arguments p q;
  named = k.named ∙ ground (arith, h.named);
}

set-HasGot :
    (items : List (ℕ × Entry)) (i w : ℕ) (e : Entry) (pieces : String) (id_came : Bool)
    → HasGot (entry_of (find i items)) e pieces id_came
    → HasGot
        (entry_of (find w items))
        (entry_of (find w (set i e items)))
        (if eqb i w then pieces else "")
        (eqb i w && id_came)
set-HasGot items i w e pieces id_came h = elim (Bool-cases (eqb i w)) [
  | inl same ↦
      rw (find-set i w e items, same)
        (subst (λ k. HasGot (entry_of (find k items)) e pieces id_came) (ground (arith, same)) h)
  | inr other ↦ rw (find-set i w e items, other) (same-HasGot (entry_of (find w items)))
]

accumulate-HasGot :
    (items : List (ℕ × Entry)) (d : ToolDelta) (w : ℕ)
    → HasGot
        (entry_of (find w items))
        (entry_of (find w (accumulate items d).0))
        (if eqb (index_in items d.index) w then d.arguments else "")
        (eqb (index_in items d.index) w && is_named d)
unfolding accumulate
accumulate-HasGot items d w =
    let i = index_in items d.index in
    let old = entry_of (find i items) in
    let h = fill-HasGot d old in
    elim (Bool-cases (can_send (fill d old))) [
      | inl c ↦
          rw (accumulate, c)
            (set-HasGot items i w
              (record (fill d old) { emitted_length = len (fill d old).arguments }) d.arguments
              (is_named d) (record { arguments = h.arguments; named = h.named }))
      | inr c ↦ rw (accumulate, c) (set-HasGot items i w (fill d old) d.arguments (is_named d) h)
    ]

accumulate_all-HasGot :
    (items : List (ℕ × Entry)) (ds : List ToolDelta) (w : ℕ)
    → HasGot
        (entry_of (find w items))
        (entry_of (find w (accumulate_all items ds).0))
        (received w items ds)
        (has_id w items ds)
unfolding accumulate_all received has_id
accumulate_all-HasGot items [] w = same-HasGot (entry_of (find w items))
accumulate_all-HasGot items (d ∷ ds) w =
    let r = (accumulate items d).0 in
    trans-HasGot (entry_of (find w items)) (entry_of (find w r))
      (entry_of (find w (accumulate_all r ds).0)) _ _ _ _ (accumulate-HasGot items d w)
      (accumulate_all-HasGot r ds w)

-- In whatever order the id, the name and the pieces of the arguments of a tool call arrive, the
-- fragments for its wire index, put together, are the pieces that arrived for it, put together in
-- their order, if an id is among what arrived for it: none is lost, and none is sent twice. Without
-- an id nothing is sent.
pub sent_to-accumulate_all :
    (ds : List ToolDelta) (w : ℕ)
    → sent_to w (accumulate_all [] ds).1 ≡ (if has_id w [] ds then received w [] ds else "")
unfolding find
sent_to-accumulate_all ds w =
    let h = accumulate_all-AllSent [] ds (λ w. "") (λ w. new_entry-IsSent) w in
    let g = accumulate_all-HasGot [] ds w in
    elim (Bool-cases (has_id w [] ds)) [
      | inl e ↦ rw e (
          sym (
            h.parts
            ∙ ap (λ s. ("" <> sent_to w (accumulate_all [] ds).1) <> s)
                (h.all_sent (ground (arith, g.named, e)))
            ∙ append-nil _
            ∙ nil-append _)
          ∙ g.arguments
          ∙ nil-append _)
      | inr e ↦ rw e (sym (nil-append _) ∙ h.none_sent (ground (arith, g.named, e)))
    ]
