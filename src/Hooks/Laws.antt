-- ===== src/Hooks/Laws.antt =====
-- Which hook specs of hooks.py (src/ftre_agent_core) are accepted.
use Prim.Native.Char.{Char, code}
use Prim.Native.String.append
use Prim.Native.String.{◌∷◌}
use package.text.Mathlib.TextEquality.{Char-path}
use ftre_agent_core.Prelude.{
  String, ◌≡◌, ◌↔◌, refl, sym, ap, subst, ◌∙◌, none, true, false, not, ◌&&◌, ◌||◌, ◌==◌, ◌<>◌, eqb,
  inl, inr, Bool-cases, arith, eq_iff, if◌then◌else◌, is_some,
}
use ftre_agent_core.Convert.{before_char, is_prefix, contains}
use ftre_agent_core.Hooks.{HookSpec, is_waterfall, has_slash, post_init}

has_slash_cons : (d : Char) (s : String) → has_slash (d ∷ s) ≡ (eqb (code d) 47 || has_slash s)
unfolding contains is_prefix
has_slash_cons d s = ground arith

before_cons :
    (d : Char) (s : String)
    → before_char 47 (d ∷ s) ≡ (if eqb (code d) 47 then "" else d ∷ before_char 47 s)
unfolding before_char
before_cons d s = refl

abbrev slash : Char
slash = "/"

-- A slash and what follows.
slash_front : (s : String) → "/" <> s ≡ slash ∷ s
slash_front s = append.cons slash "" s ∙ ap (λ t. slash ∷ t) (append.nil s)

slash_cons : (c : Char) (s : String) → eqb (code c) 47 ≡ true → c ∷ s ≡ "/" <> s
slash_cons c s e = ap (λ b. b ∷ s) (Char-path c slash (ground (arith, e))) ∙ sym (slash_front s)

-- A text with a slash is what stands before the first one, the slash and a rest.
split_slash :
    (s : String) → has_slash s ≡ true → (rest : String) × (s ≡ before_char 47 s <> ("/" <> rest))
unfolding contains is_prefix
split_slash String.[] h = absurd (ground (arith, h))
split_slash (d ∷ s) h = elim (Bool-cases (eqb (code d) 47)) [
  | inl e ↦ (s, rw (before_cons, e) (slash_cons d s e ∙ sym (append.nil ("/" <> s))))
  | inr e ↦
      let r = split_slash s (ground (arith, has_slash_cons d s, h, e)) in
      (
        r.0,
        rw (before_cons, e)
            (ap (λ t. d ∷ t) r.1 ∙ sym (append.cons d (before_char 47 s) ("/" <> r.0))),
      )
]

-- What stands before the first slash, when the text begins with one without.
before_slash : (d rest : String) → has_slash d ≡ false → before_char 47 (d <> ("/" <> rest)) ≡ d
before_slash String.[] rest h =
    ap (before_char 47) (append.nil ("/" <> rest) ∙ slash_front rest) ∙ before_cons slash rest
before_slash (c ∷ d) rest h =
    ap (before_char 47) (append.cons c d _)
    ∙ (let e : eqb (code c) 47 ≡ false = ground (arith, has_slash_cons c d, h) in
        let g : has_slash d ≡ false = ground (arith, has_slash_cons c d, h) in
        rw (before_cons, e) (ap (λ t. c ∷ t) (before_slash d rest g)))

slash-in : (d rest : String) → has_slash (d <> ("/" <> rest)) ≡ true
slash-in String.[] rest =
    ap (contains "/") (append.nil ("/" <> rest) ∙ slash_front rest) ∙ has_slash_cons slash rest
slash-in (c ∷ d) rest =
    ap (contains "/") (append.cons c d _) ∙ rw (has_slash_cons, slash-in d rest) (ground arith)

slash-not_empty : (s : String) → has_slash s ≡ true → (s == "") ≡ false
unfolding contains is_prefix
slash-not_empty s h = elim (Bool-cases (s == "")) [
  | inl e ↦
      let k : has_slash "" ≡ true = subst (λ t. has_slash t ≡ true) ((eq_iff s "").0 e) h in
      absurd (ground (arith, k))
  | inr e ↦ e
]

module _ {V : Type 0} where
  -- A domain without a slash, a name that is the domain, a slash and more, and a default where the
  -- listeners form a waterfall.
  pub record IsSound (s : HookSpec V) : Type 0 where
    pub has_domain : (s.domain == "") ≡ false
    pub is_simple : has_slash s.domain ≡ false
    pub is_in_domain : (rest : String) × (s.name ≡ s.domain <> ("/" <> rest))
    pub has_default : (is_waterfall s.mode && not (is_some s.default)) ≡ false

  -- A hook spec is accepted exactly if its domain is not empty and has no slash, its name is the
  -- domain, a slash and any text, and a waterfall has a default.
  pub post_init-accepts : (s : HookSpec V) → (post_init s ≡ none) ↔ IsSound s
  unfolding post_init
  post_init-accepts s = (to, from)
    where
      to : post_init s ≡ none → IsSound s
      to h =
          let k : has_slash s.name ≡ true = ground (arith, h) in
          let d : before_char 47 s.name == s.domain ≡ true = ground (arith, h) in
          let r = split_slash s.name k in
          record {
            has_domain = ground (arith, h);
            is_simple = ground (arith, h);
            is_in_domain = (r.0, subst (λ t. s.name ≡ t <> ("/" <> r.0)) ((eq_iff _ _).0 d) r.1);
            has_default = ground (arith, h);
          }

      from : IsSound s → post_init s ≡ none
      from h =
          let p = h.is_in_domain.1 in
          let k = ap has_slash p ∙ slash-in s.domain h.is_in_domain.0 in
          let d = ap (before_char 47) p ∙ before_slash s.domain h.is_in_domain.0 h.is_simple in
          let n = slash-not_empty s.name k in
          let e = (eq_iff _ _).1 d in
          let g = h.has_domain in
          let i = h.is_simple in let j = h.has_default in rw (k, n, e, g, i, j) refl
