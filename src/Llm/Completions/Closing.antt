-- ===== src/Llm/Completions/Closing.antt =====
-- The whole stream of llm/adapters/openai_completions.py (src/ftre_agent_core) is one that
-- BlockAssembler accepts.
use ftre_agent_core.Prelude.{
  ℕ, suc, ◌≤◌, String, ◌≡◌, refl, ap, ◌∙◌, Option, none, some, is_some, true, false, List, [], ◌∷◌,
  ◌==◌, eqb, inl, inr, Bool-cases, Option-cases, arith, eq_iff, Memᴰ,
}
use ftre_agent_core.Json.{get}
use ftre_agent_core.Llm.Assembler.{find}
use ftre_agent_core.Llm.Assembler.Order.{IsAscending}
use ftre_agent_core.Llm.Completions.Turn.{Entry, Turn, Wire, item, cancelled, failed, on_item}
use ftre_agent_core.Llm.Completions.Stream.{
  loop, end_reasoning, end_text, end_tools, is_nameless, tool_dict,
}
use ftre_agent_core.Llm.Completions.Types.{
  Types, with_type, Accepts, Accepts-nil, Accepts-cons, Accepts-append, end-Accepts,
}
use ftre_agent_core.Llm.Completions.Accepted.{Fits, Sends, Sends-nothing, on_item-Sends}

pub loop-Sends :
    (f : Types) (t : Turn) → Fits f t → (wires : List Wire) → Sends f t (loop wires t).0
unfolding loop
loop-Sends f t h [] = Sends-nothing f t h
loop-Sends f t h (cancelled ∷ rest) = Sends-nothing f t h
loop-Sends f t h (failed e ∷ rest) = Sends-nothing f t h
loop-Sends f t h (item i ∷ rest) =
    let (f', a, k) = on_item-Sends f t h i in
    let (f'', b, l) = loop-Sends f' (on_item i t).0 k rest in
    (f'', Accepts-append (on_item i t).1 (loop rest (on_item i t).0).0.1 a b, l)

-- The types without the one at an index.
abbrev pub without : Option ℕ → Types → Types
without none f = f
without (some i) f = with_type i none f

pub without-other :
    (o : Option ℕ) (f : Types) (kind type : String) (j : ℕ)
    → ((i : ℕ) → o ≡ some i → f i ≡ some kind)
    → (kind == type) ≡ false
    → f j ≡ some type
    → without o f j ≡ some type
without-other none f kind type j h n e = e
without-other (some i) f kind type j h n e = ground (arith, h i refl, n, e, eq_iff kind type)

module _ (f : Types) (t : Turn) (h : Fits f t) where
  pub end_reasoning-Accepts :
      (n : ℕ) → Accepts n f (end_reasoning t) n (without t.reasoning_index f)
  unfolding end_reasoning get
  end_reasoning-Accepts n = by_index t.reasoning_index h.reasoning
    where
      by_index :
          (o : Option ℕ)
          → ((i : ℕ) → o ≡ some i → f i ≡ some "reasoning")
          → Accepts n f (end_reasoning (record t { reasoning_index = o })) n (without o f)
      by_index none k = Accepts-nil n f
      by_index (some i) k =
          Accepts-cons _ _ (end-Accepts i "reasoning" _ (k i refl) refl) (Accepts-nil _ _)

pub end_text-Accepts :
    (n : ℕ) (f : Types) (t : Turn)
    → ((i : ℕ) → t.text_index ≡ some i → f i ≡ some "text")
    → Accepts n f (end_text t) n (without t.text_index f)
unfolding end_text get
end_text-Accepts n f t h = by_index t.text_index h
  where
    by_index :
        (o : Option ℕ)
        → ((i : ℕ) → o ≡ some i → f i ≡ some "text")
        → Accepts n f (end_text (record t { text_index = o })) n (without o f)
    by_index none k = Accepts-nil n f
    by_index (some i) k =
        Accepts-cons _ _ (end-Accepts i "text" _ (k i refl) refl) (Accepts-nil _ _)

-- No entry that is closed has the block index.
abbrev pub IsLeft : List (ℕ × ℕ) → List (ℕ × Entry) → ℕ → Type 0
IsLeft index es i =
    (w : ℕ) (e : Entry) → Memᴰ (w, e) es → is_nameless e ≡ false → find w index ≡ some i → ⊥

-- Closing the entries is accepted. If no wire index was missing, then what is still open had been and
-- is of no entry that has an id and a name.
pub record Closes (n : ℕ) (f : Types) (index : List (ℕ × ℕ)) (es : List (ℕ × Entry)) : Type 0 where
  pub types : Types
  pub accepts : Accepts n f (end_tools index es).0 n types
  pub left :
      (end_tools index es).1 ≡ none
      → (i : ℕ) → is_some (types i) ≡ true
      → (is_some (f i) ≡ true) × IsLeft index es i

module _ (index : List (ℕ × ℕ))
    (apart : (w w' i : ℕ) → find w index ≡ some i → find w' index ≡ some i → w ≡ w') (n : ℕ) where
  IsLeft-nameless :
      (w i : ℕ) (e : Entry) (es : List (ℕ × Entry))
      → is_nameless e ≡ true
      → IsLeft index es i
      → IsLeft index ((w, e) ∷ es) i
  IsLeft-nameless w i e es t l v d (Memᴰ.head p) u k =
      absurd (ground (arith, t, u, ap (λ (q : ℕ × Entry). is_nameless q.1) p))
  IsLeft-nameless w i e es t l v d (Memᴰ.tail m) u k = l v d m u k

  IsLeft-closed :
      (w i j : ℕ) (e : Entry) (es : List (ℕ × Entry))
      → find w index ≡ some j
      → (eqb j i) ≡ false
      → IsLeft index es i
      → IsLeft index ((w, e) ∷ es) i
  IsLeft-closed w i j e es at ne l v d (Memᴰ.head p) u k =
      absurd (ground (arith, at, ne, k, ap (λ (q : ℕ × Entry). find q.0 index) p))
  IsLeft-closed w i j e es at ne l v d (Memᴰ.tail m) u k = l v d m u k

  Closes-nameless :
      (f : Types) (w : ℕ) (e : Entry) (es : List (ℕ × Entry))
      → is_nameless e ≡ true
      → Closes n f index es
      → Closes n f index ((w, e) ∷ es)
  unfolding end_tools
  Closes-nameless f w e es t c = record {
    types = c.types;
    accepts = rw (end_tools, t) c.accepts;
    left = λ m i k.
        let (a, l) = c.left (rw (end_tools, t) at m) i k in (a, IsLeft-nameless w i e es t l);
  }

  Closes-missing :
      (f : Types) (w : ℕ) (e : Entry) (es : List (ℕ × Entry))
      → is_nameless e ≡ false
      → find w index ≡ none
      → Closes n f index ((w, e) ∷ es)
  unfolding end_tools
  Closes-missing f w e es t m = record {
    types = f;
    accepts = rw (end_tools, t, m) (Accepts-nil n f);
    left = λ q. absurd (ground (arith, rw (end_tools, t, m) at q));
  }

  Closes-one :
      (f : Types) (w j : ℕ) (e : Entry) (es : List (ℕ × Entry))
      → is_nameless e ≡ false
      → find w index ≡ some j
      → f j ≡ some "tool-call"
      → Closes n (with_type j none f) index es
      → Closes n f index ((w, e) ∷ es)
  unfolding end_tools get
  Closes-one f w j e es t m h c = record {
    types = c.types;
    accepts =
        rw (end_tools, t, m)
          (Accepts-cons _ _ (end-Accepts j "tool-call" (tool_dict e) h refl) c.accepts);
    left = λ q i k.
        let (a, l) = c.left (rw (end_tools, t, m) at q) i k in
        elim (Bool-cases (eqb j i)) [
          | inl same ↦ absurd (ground (arith, a, same))
          | inr other ↦ (ground (arith, a, other), IsLeft-closed w i j e es m other l)
        ];
  }

  -- Another entry's block is still open.
  later_tool :
      (f : Types) (w j low v i : ℕ)
      → find w index ≡ some j
      → suc w ≤ v
      → find v index ≡ some i
      → f i ≡ some "tool-call"
      → with_type j none f i ≡ some "tool-call"
  later_tool f w j low v i m le k h = elim (Bool-cases (eqb j i)) [
    | inl same ↦ absurd (omega (arith, le, apart w v i (m ∙ ap some (ground (arith, same))) k))
    | inr other ↦ rw other h
  ]

  pub end_tools-Closes :
      (f : Types) (low : ℕ) (es : List (ℕ × Entry))
      → IsAscending low es
      → ((w i : ℕ) → low ≤ w → find w index ≡ some i → f i ≡ some "tool-call")
      → Closes n f index es
  unfolding end_tools
  end_tools-Closes f low [] asc h = record {
    types = f;
    accepts = Accepts-nil n f;
    left = λ q i k. (k, λ v d m. elim m [ ]);
  }
  end_tools-Closes f low ((w, e) ∷ es) asc h = elim (Bool-cases (is_nameless e)) [
    | inl t ↦
        Closes-nameless f w e es t
          (end_tools-Closes f (suc w) es asc.1 (λ v i le. h v i (omega (arith, le, asc.0))))
    | inr t ↦ elim (Option-cases (find w index)) [
      | inl m ↦ Closes-missing f w e es t m
      | inr (j, m) ↦ Closes-one f w j e es t m (h w j asc.0 m) (
          end_tools-Closes (with_type j none f) (suc w) es asc.1
            λ v i le k. later_tool f w j low v i m le k (h v i (omega (arith, le, asc.0)) k))
    ]
  ]
