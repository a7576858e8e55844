-- ===== src/Llm/Assembler/Order.antt =====
-- The indices of BlockAssembler (src/ftre_agent_core/llm/block_assembler.py): which blocks are open,
-- which are closed, and what a validated stream has assembled.
use ftre_agent_core.Prelude.{
  ℕ, zero, suc, ◌+◌, ◌≤◌, ◌<◌, String, ◌≡◌, refl, sym, ap, subst, ◌∙◌, is_some, Bool, true, false,
  not, ◌&&◌, ◌||◌, List, [], ◌∷◌, map, arith, ◌<>◌, leb, ltb, eqb, inl, inr, Bool-cases,
  Option-cases, is_empty, if◌then◌else◌,
}
use ftre_agent_core.Json.{Fields}
use ftre_agent_core.Llm.{
  Chunk, block_start, text_delta, reasoning_delta, tool_call_delta, block_end, usage_chunk,
  finish_chunk, unknown,
}
use ftre_agent_core.Llm.Assembler.{
  Fed, ok, err, OpenBlock, Block, find, set, drop, place, sorted, Assembler, init, feed_start,
  feed_delta, feed_tool_delta, feed_end, feed_open, feed, finalize_block, or_keep, validate,
  feed_all,
}

module _ {ℓ} {V : Type ℓ} where
  abbrev pub has : ℕ → List (ℕ × V) → Bool
  has i xs = is_some (find i xs)

  abbrev pub NoRepeat : List (ℕ × V) → Type 0
  NoRepeat [] = Unit
  NoRepeat (e ∷ rest) = (has e.0 rest ≡ false) × NoRepeat rest

  pub has-set : (i j : ℕ) (v : V) (xs : List (ℕ × V)) → has j (set i v xs) ≡ eqb i j || has j xs
  unfolding find set
  has-set i j v [] = ground arith
  has-set i j v ((k, w) ∷ xs) = ground (arith, has-set i j v xs)

  pub has-drop : (i j : ℕ) (xs : List (ℕ × V)) → has j (drop i xs) ≡ not (eqb i j) && has j xs
  unfolding find drop
  has-drop i j [] = ground arith
  has-drop i j ((k, w) ∷ xs) = ground (arith, has-drop i j xs)

  pub NoRepeat-set : (i : ℕ) (v : V) (xs : List (ℕ × V)) → NoRepeat xs → NoRepeat (set i v xs)
  unfolding set find
  NoRepeat-set i v [] h = (refl, tt)
  NoRepeat-set i v ((k, w) ∷ xs) h = elim (Bool-cases (eqb k i)) [
    | inl e ↦ rw e h
    | inr e ↦ rw e (ground (arith, has-set i k v xs), NoRepeat-set i v xs h.1)
  ]

  has-place : (i j : ℕ) (v : V) (xs : List (ℕ × V)) → has j (place i v xs) ≡ eqb i j || has j xs
  unfolding find place
  has-place i j v [] = ground arith
  has-place i j v ((k, w) ∷ xs) = ground (arith, has-place i j v xs)

  has-sorted : (j : ℕ) (xs : List (ℕ × V)) → has j (sorted xs) ≡ has j xs
  unfolding sorted find
  has-sorted j [] = refl
  has-sorted j ((k, w) ∷ xs) = ground (arith, has-place k j w (sorted xs), has-sorted j xs)

  -- The keys grow strictly, from `low` on.
  abbrev pub IsAscending : ℕ → List (ℕ × V) → Type 0
  IsAscending low [] = Unit
  IsAscending low (e ∷ rest) = (low ≤ e.0) × IsAscending (suc e.0) rest

  place-IsAscending :
      (low i : ℕ) (v : V) (xs : List (ℕ × V))
      → IsAscending low xs
      → low ≤ i
      → has i xs ≡ false
      → IsAscending low (place i v xs)
  unfolding place find
  place-IsAscending low i v [] h le new = (le, tt)
  place-IsAscending low i v ((k, w) ∷ xs) h le new = elim (Bool-cases (ltb i k)) [
    | inl e ↦ rw e (le, (ground arith, h.1))
    | inr e ↦ rw e (h.0, place-IsAscending (suc k) i v xs h.1 (ground arith) (ground arith))
  ]

  pub sorted-IsAscending : (xs : List (ℕ × V)) → NoRepeat xs → IsAscending 0 (sorted xs)
  unfolding sorted
  sorted-IsAscending [] h = tt
  sorted-IsAscending ((k, w) ∷ xs) h =
      place-IsAscending 0 k w (sorted xs) (sorted-IsAscending xs h.1) (omega arith)
        (has-sorted k xs ∙ h.0)

  abbrev pub key_of : ℕ × V → ℕ
  key_of e = e.0

-- low, low + 1, …, `n` numbers
abbrev pub count_from : ℕ → ℕ → List ℕ
count_from low zero = []
count_from low (suc n) = low ∷ count_from (suc low) n

module _ {ℓ} {V : Type ℓ} where
  has-below : (low i : ℕ) (xs : List (ℕ × V)) → IsAscending low xs → i < low → has i xs ≡ false
  unfolding find
  has-below low i [] h lt = refl
  has-below low i ((k, w) ∷ xs) h lt = ground (arith, has-below (suc k) i xs h.1)

  keys-exact :
      (low n : ℕ) (xs : List (ℕ × V))
      → IsAscending low xs
      → ((i : ℕ) → has i xs ≡ leb low i && ltb i (low + n))
      → map key_of xs ≡ count_from low n
  unfolding find
  keys-exact low zero [] asc h = refl
  keys-exact low zero ((k, w) ∷ xs) asc h = absurd (ground (arith, h k))
  keys-exact low (suc n) [] asc h = absurd (ground (arith, h low))
  keys-exact low (suc n) ((k, w) ∷ xs) asc h =
      let same : k ≡ low = ground (arith, h low, has-below (suc k) low xs asc.1) in
      rw same (
        ap (λ ks. low ∷ ks)
          (keys-exact (suc low) n xs (rw same at asc.1)
            (λ i. ground (arith, h i, has-below (suc k) i xs asc.1))))

if_false {ℓ} : {A : Type ℓ} {b : Bool} (x y : A) → b ≡ false → (if b then x else y) ≡ y
if_false x y e = rw e

abbrev pub fresh_block : ℕ → String → OpenBlock
fresh_block index t = record {
  index = index;
  block_type = t;
  text = "";
  call_id = "";
  name = "";
  arguments = "";
}

-- What holds after every prefix of a stream: each index handed out is open or closed and no other
-- is, the pending indices are the open ones, and no index is closed twice.
pub record IsOrdered (a : Assembler) : Type 0 where
  pub cover : (i : ℕ) → has i a.opened || has i a.closed ≡ ltb i a.next_index
  pub same : (i : ℕ) → has i a.pending ≡ has i a.opened
  pub once : NoRepeat a.closed

module _ {a : Assembler} (h : IsOrdered a) where
  -- An open block is changed in place.
  reopen-IsOrdered :
      (index : ℕ) (b : OpenBlock)
      → has index a.opened ≡ true
      → IsOrdered (record a { opened = set index b a.opened })
  reopen-IsOrdered index b at = record {
    cover = λ i. ground (arith, h.cover i, h.cover index, has-set index i b a.opened);
    same = λ i. ground (arith, h.same i, h.same index, has-set index i b a.opened);
    once = h.once;
  }

  -- An open block is closed.
  close-IsOrdered :
      (index : ℕ) (b : Block)
      → has index a.opened ≡ true
      → IsOrdered (record a {
        opened = drop index a.opened;
        pending = drop index a.pending;
        closed = set index b a.closed;
      })
  close-IsOrdered index b at = record {
    cover = λ i.
        ground
          (arith, h.cover i, h.cover index, has-drop index i a.opened, has-set index i b a.closed);
    same = λ i. ground (arith, h.same i, has-drop index i a.opened, has-drop index i a.pending);
    once = NoRepeat-set index b a.closed h.once;
  }

module _ {a a' : Assembler} (h : IsOrdered a) where
  start-IsOrdered : (index : ℕ) (t : String) → feed_start a index t ≡ ok a' → IsOrdered a'
  unfolding feed_start
  start-IsOrdered index t e = record {
    cover = λ i.
        ground (arith, h.cover i, h.cover index, has-set index i (fresh_block index t) a.opened);
    same = λ i. ground (
      arith,
      h.same i,
      has-set index i (fresh_block index t) a.opened,
      has-set index i tt a.pending,
    );
    once = ground (arith, h.once);
  }

  delta-IsOrdered : (index : ℕ) (t s : String) → feed_delta a index t s ≡ ok a' → IsOrdered a'
  unfolding feed_delta
  delta-IsOrdered index t s e = elim (Option-cases (find index a.opened)) [
    | inl miss ↦ absurd (ground (arith, miss))
    | inr (b, at) ↦
        let b' : OpenBlock = record b { text = b.text <> s } in
        subst IsOrdered (ground (arith, at)) (reopen-IsOrdered h index b' (ground (arith, at)))
  ]

  tool_delta-IsOrdered :
      (index : ℕ) (call_id name delta : String)
      → feed_tool_delta a index call_id name delta ≡ ok a'
      → IsOrdered a'
  unfolding feed_tool_delta
  tool_delta-IsOrdered index call_id name delta e = elim (Option-cases (find index a.opened)) [
    | inl miss ↦ absurd (ground (arith, miss))
    | inr (b, at) ↦
        let b' : OpenBlock = record b {
          call_id = or_keep call_id b.call_id;
          name = or_keep name b.name;
          arguments = b.arguments <> delta;
        } in
        subst IsOrdered (ground (arith, at)) (reopen-IsOrdered h index b' (ground (arith, at)))
  ]

  end-IsOrdered : (index : ℕ) (block : Fields) → feed_end a index block ≡ ok a' → IsOrdered a'
  unfolding feed_end
  end-IsOrdered index block e = elim (Option-cases (find index a.opened)) [
    | inl miss ↦ absurd (ground (arith, miss))
    | inr (b, at) ↦
        subst IsOrdered (ground (arith, at))
          (close-IsOrdered h index (finalize_block b) (ground (arith, at)))
  ]

  feed-IsOrdered : (chunk : Chunk) → feed a chunk ≡ ok a' → IsOrdered a'
  unfolding feed
  feed-IsOrdered chunk e = elim (Bool-cases a.finished) [
    | inl done ↦ absurd (ground (arith, done))
    | inr more ↦ by_chunk chunk (sym (if_false _ _ more) ∙ e)
  ]
    where
      by_chunk : (c : Chunk) → feed_open a c ≡ ok a' → IsOrdered a'
      by_chunk (block_start index t) q = start-IsOrdered index t q
      by_chunk (text_delta index s) q = delta-IsOrdered index "text" s q
      by_chunk (reasoning_delta index s) q = delta-IsOrdered index "reasoning" s q
      by_chunk (tool_call_delta index id name s) q = tool_delta-IsOrdered index id name s q
      by_chunk (block_end index block) q = end-IsOrdered index block q
      by_chunk (usage_chunk u) q = record {
        cover = λ i. ground (arith, h.cover i);
        same = λ i. ground (arith, h.same i);
        once = ground (arith, h.once);
      }
      by_chunk (finish_chunk r) q = record {
        cover = λ i. ground (arith, h.cover i);
        same = λ i. ground (arith, h.same i);
        once = ground (arith, h.once);
      }
      by_chunk (unknown name) q = absurd (ground arith)

pub feed_all-IsOrdered :
    (a a' : Assembler) (chunks : List Chunk)
    → IsOrdered a
    → feed_all a chunks ≡ ok a'
    → IsOrdered a'
unfolding feed_all
feed_all-IsOrdered a a' [] h e = subst IsOrdered (cc) h
feed_all-IsOrdered a a' (chunk ∷ chunks) h e =
    split (feed a chunk) refl (λ b h'. feed_all-IsOrdered b a' chunks h')
  where
    split :
        (r : Fed Assembler)
        → feed a chunk ≡ r
        → ((b : Assembler) → IsOrdered b → feed_all b chunks ≡ ok a' → IsOrdered a')
        → IsOrdered a'
    split (err x) q rest = absurd (ground (arith, q))
    split (ok b) q rest = rest b (feed-IsOrdered h chunk q) (ground (arith, q))

pub init-IsOrdered : IsOrdered init
unfolding find
init-IsOrdered = record { cover = λ i. ground arith; same = λ i. refl; once = tt }

none_left {ℓ} : {V : Type ℓ} (i : ℕ) (xs : List (ℕ × V)) → is_empty xs ≡ true → has i xs ≡ false
unfolding find
none_left i [] h = refl
none_left i (x ∷ xs) h = cc

-- The stream is fed from the start without an error and validated: it has had its finish chunk, no
-- block is left open, and the closed blocks, in the order in which `blocks` lists them, have the
-- indices 0, 1, … up to the number of blocks started, each once.
pub validated_stream :
    (chunks : List Chunk) (a : Assembler)
    → feed_all init chunks ≡ ok a
    → validate a ≡ ok tt
    → (a.finished ≡ true)
      × ((i : ℕ) → has i a.opened ≡ false)
      × (map key_of (sorted a.closed) ≡ count_from 0 a.next_index)
unfolding validate
validated_stream chunks a fed valid =
    let h = feed_all-IsOrdered init a chunks init-IsOrdered fed in
    let shut : (i : ℕ) → has i a.pending ≡ false = λ i. none_left i a.pending (ground arith) in
    (
      ground arith,
      λ i. sym (h.same i) ∙ shut i,
      keys-exact 0 a.next_index (sorted a.closed) (sorted-IsAscending a.closed h.once)
          (λ i. ground (arith, has-sorted i a.closed, h.cover i, h.same i, shut i)),
    )
