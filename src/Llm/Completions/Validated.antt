-- ===== src/Llm/Completions/Validated.antt =====
-- Streams of llm/adapters/openai_completions.py (src/ftre_agent_core) that BlockAssembler validates.
use ftre_agent_core.Prelude.{
  ℕ, ◌≡◌, refl, ◌∙◌, none, some, is_some, is_empty, true, false, List, [], ◌∷◌, ◌++◌, ltb, inl, inr,
  Bool-cases, Option-cases, arith, Memᴰ,
}
use ftre_agent_core.Llm.Assembler.{ok, find, place, sorted, Assembler, init, feed_all, validate}
use ftre_agent_core.Llm.Assembler.Order.{has, feed_all-IsOrdered, init-IsOrdered}
use ftre_agent_core.Llm.Completions.Turn.{Entry, Turn, new_turn, Wire}
use ftre_agent_core.Llm.Completions.Stream.{loop, end_tools, is_nameless, Library, close, stream}
use ftre_agent_core.Llm.Completions.Types.{opened_at}
use ftre_agent_core.Llm.Completions.Whole.{Ends-after, end_turn, init-View, looped, closed}

module _ {V : Type 0} where
  swap : {x a b : ℕ × V} {xs : List (ℕ × V)} → Memᴰ x (a ∷ b ∷ xs) → Memᴰ x (b ∷ a ∷ xs)
  swap (Memᴰ.head p) = Memᴰ.tail (Memᴰ.head p)
  swap (Memᴰ.tail (Memᴰ.head p)) = Memᴰ.head p
  swap (Memᴰ.tail (Memᴰ.tail m)) = Memᴰ.tail (Memᴰ.tail m)

  over :
      {x b : ℕ × V} {xs ys : List (ℕ × V)}
      → (Memᴰ x xs → Memᴰ x ys)
      → Memᴰ x (b ∷ xs)
      → Memᴰ x (b ∷ ys)
  over f (Memᴰ.head p) = Memᴰ.head p
  over f (Memᴰ.tail m) = Memᴰ.tail (f m)

  mem_of_place :
      (x : ℕ × V) (i : ℕ) (v : V) (xs : List (ℕ × V)) → Memᴰ x (place i v xs) → Memᴰ x ((i, v) ∷ xs)
  unfolding place
  mem_of_place x i v [] m = m
  mem_of_place x i v ((k, w) ∷ xs) m = elim (Bool-cases (ltb i k)) [
    | inl e ↦ rw (place, e) at m
    | inr e ↦ swap (over (mem_of_place x i v xs) (rw (place, e) at m))
  ]

  place_of_mem :
      (x : ℕ × V) (i : ℕ) (v : V) (xs : List (ℕ × V)) → Memᴰ x ((i, v) ∷ xs) → Memᴰ x (place i v xs)
  unfolding place
  place_of_mem x i v [] m = m
  place_of_mem x i v ((k, w) ∷ xs) m = elim (Bool-cases (ltb i k)) [
    | inl e ↦ rw e m
    | inr e ↦ rw e (over (place_of_mem x i v xs) (swap m))
  ]

  mem_of_sorted : (x : ℕ × V) (xs : List (ℕ × V)) → Memᴰ x (sorted xs) → Memᴰ x xs
  unfolding sorted
  mem_of_sorted x [] m = m
  mem_of_sorted x ((k, w) ∷ xs) m = over (mem_of_sorted x xs) (mem_of_place x k w (sorted xs) m)

  sorted_of_mem : (x : ℕ × V) (xs : List (ℕ × V)) → Memᴰ x xs → Memᴰ x (sorted xs)
  unfolding sorted
  sorted_of_mem x [] m = m
  sorted_of_mem x ((k, w) ∷ xs) (Memᴰ.head p) = place_of_mem x k w (sorted xs) (Memᴰ.head p)
  sorted_of_mem x ((k, w) ∷ xs) (Memᴰ.tail m) =
      place_of_mem x k w (sorted xs) (Memᴰ.tail (sorted_of_mem x xs m))

  empty_if : (xs : List (ℕ × V)) → ((i : ℕ) → has i xs ≡ false) → is_empty xs ≡ true
  unfolding find
  empty_if [] h = refl
  empty_if ((k, w) ∷ xs) h = absurd (ground (arith, h k))

-- At its end every tool call whose block was started has an id and a name, and the block of every
-- call with an id and a name was started.
pub record IsComplete (t : Turn) : Type 0 where
  pub named :
      (w i : ℕ)
      → find w t.tool_block_index ≡ some i
      → (e : Entry) × Memᴰ (w, e) t.items × (is_nameless e ≡ false)
  pub started :
      (w : ℕ) (e : Entry)
      → Memᴰ (w, e) t.items
      → is_nameless e ≡ false
      → is_some (find w t.tool_block_index) ≡ true

nothing_missing :
    (index : List (ℕ × ℕ)) (es : List (ℕ × Entry))
    → ((w : ℕ) (e : Entry) → Memᴰ (w, e) es → is_nameless e ≡ false → is_some (find w index) ≡ true)
    → (end_tools index es).1 ≡ none
unfolding end_tools
nothing_missing index [] h = refl
nothing_missing index ((w, e) ∷ es) h = elim (Bool-cases (is_nameless e)) [
  | inl t ↦ rw (end_tools, t) (nothing_missing index es (λ v d m. h v d (Memᴰ.tail m)))
  | inr t ↦ elim (Option-cases (find w index)) [
    | inl f ↦ absurd (ground (arith, f, h w e (Memᴰ.head refl) t))
    | inr (i, f) ↦ rw (end_tools, t, f) (nothing_missing index es (λ v d m. h v d (Memᴰ.tail m)))
  ]
]

module _ (lib : Library) (wires : List Wire) where
  nothing_left : IsComplete (end_turn lib wires) → (i : ℕ) → (closed lib wires).left i ≡ none
  nothing_left c i = elim (Option-cases ((closed lib wires).left i)) [
    | inl n ↦ n
    | inr (type, e) ↦
        let t = end_turn lib wires in
        let missing =
          nothing_missing t.tool_block_index (sorted t.items)
            (λ w e m. c.started w e (mem_of_sorted (w, e) t.items m)) in
        let (w, at, l) = (closed lib wires).of_nameless missing i (ground (arith, e)) in
        let (d, m, named) = c.named w i at in
        absurd (l w d (sorted_of_mem (w, d) t.items m) named at)
  ]

  stream_ended :
      (loop wires new_turn).1 ≡ none
      → stream lib wires ≡ (loop wires new_turn).0.1 ++ close lib (end_turn lib wires)
  unfolding stream
  stream_ended e = rw (stream, e) refl

  not_pending :
      (a : Assembler) (i : ℕ)
      → has i a.pending ≡ has i a.opened
      → opened_at a i ≡ none
      → has i a.pending ≡ false
  not_pending a i same e = elim (Option-cases (find i a.opened)) [
    | inl f ↦ ground (arith, same, f)
    | inr (b, f) ↦ absurd (ground (arith, e, f))
  ]

  valid_if : (a : Assembler) → a.finished ≡ true → is_empty a.pending ≡ true → validate a ≡ ok tt
  unfolding validate
  valid_if a done e = ground (arith, done, e)

  -- When a stream came to its end without a failure, and every tool call of it has an id and a name
  -- exactly if its block was started, then BlockAssembler accepts and validates what the adapter makes
  -- of it.
  pub stream-validated :
      (loop wires new_turn).1 ≡ none
      → IsComplete (end_turn lib wires)
      → (a : Assembler) × (feed_all init (stream lib wires) ≡ ok a) × (validate a ≡ ok tt)
  unfolding stream validate
  stream-validated ok_end c =
      let (a, e, done, l) =
        Ends-after (loop wires new_turn).0.1 _ (looped lib wires).1 (closed lib wires).ends init
          (init-View lib wires) in
      let chunks = stream_ended ok_end in
      let ordered = feed_all-IsOrdered init a (stream lib wires) init-IsOrdered (rw chunks e) in
      (
        a,
        rw chunks e,
        valid_if a done
            (empty_if a.pending λ i. not_pending a i (ordered.same i) (l i ∙ nothing_left c i)),
      )
