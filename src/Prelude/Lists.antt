-- ===== src/Prelude/Lists.antt =====
-- Lists filtered and measured by Boolean tests and native numbers, and predicates on their items.
use Prim.Native.Nat.{ℕ, suc, ◌+◌}
use mathlib.Core.Path.{◌≡◌, refl, sym, ap, ◌∙◌, subst}
use mathlib.Core.Logic.{inl, inr}
use mathlib.Core.Bool.{Bool, true, false, ◌&&◌, ◌||◌}
use mathlib.Core.List.{List, [], ◌∷◌, ◌++◌, map, Memᴰ}
use native.Mathlib.Omega.{arith}
use ftre_agent_core.Prelude.Tests.{if◌then◌else◌, Bool-cases}

module _ {ℓ} {A : Type ℓ} where
  abbrev pub length : List A → ℕ
  length [] = 0
  length (x ∷ xs) = suc (length xs)

  abbrev pub is_empty : List A → Bool
  is_empty [] = true
  is_empty (x ∷ xs) = false

  pub cons-ne-nil : {x : A} {xs : List A} → x ∷ xs ≡ [] → ⊥
  cons-ne-nil h = cc

  -- `[x for x in xs if p(x)]`
  unfoldable pub keep : (A → Bool) → List A → List A
  keep p [] = []
  keep p (x ∷ xs) = let rest = keep p xs in if p x then x ∷ rest else rest

  unfoldable pub any : (A → Bool) → List A → Bool
  any p [] = false
  any p (x ∷ xs) = p x || any p xs

  unfoldable pub all : (A → Bool) → List A → Bool
  all p [] = true
  all p (x ∷ xs) = p x && all p xs

  pub length-append : (xs ys : List A) → length (xs ++ ys) ≡ length xs + length ys
  length-append [] ys = omega arith
  length-append (x ∷ xs) ys = omega (arith, length-append xs ys)

  mem_of_keep_cons :
      (p : A → Bool) (a x : A) (xs : List A)
      → p x ≡ true
      → (Memᴰ a (keep p xs) → Memᴰ a xs × (p a ≡ true))
      → Memᴰ a (x ∷ keep p xs)
      → Memᴰ a (x ∷ xs) × (p a ≡ true)
  mem_of_keep_cons p a x xs e ih (Memᴰ.head q) = (Memᴰ.head q, ap p q ∙ e)
  mem_of_keep_cons p a x xs e ih (Memᴰ.tail m) = let (h, k) = ih m in (Memᴰ.tail h, k)

  pub mem_of_keep :
      (p : A → Bool) (a : A) (xs : List A) → Memᴰ a (keep p xs) → Memᴰ a xs × (p a ≡ true)
  unfolding keep
  mem_of_keep p a [] m = elim m [ ]
  mem_of_keep p a (x ∷ xs) m = elim (Bool-cases (p x)) [
    | inl e ↦ mem_of_keep_cons p a x xs e (mem_of_keep p a xs) (rw (e, keep) at m)
    | inr e ↦ let (h, k) = mem_of_keep p a xs (rw (e, keep) at m) in (Memᴰ.tail h, k)
  ]

module _ {ℓ κ} {A : Type ℓ} (P : A → Type κ) where
  abbrev pub All : List A → Type κ
  All [] = Unit
  All (x ∷ xs) = P x × All xs

  -- Of every item that passes the test.
  abbrev pub AllIf : (A → Bool) → List A → Type κ
  AllIf p [] = Unit
  AllIf p (x ∷ xs) = (p x ≡ true → P x) × AllIf p xs

  pub All-append : (xs ys : List A) → All xs → All ys → All (xs ++ ys)
  All-append [] ys hx hy = hy
  All-append (x ∷ xs) ys hx hy = (hx.0, All-append xs ys hx.1 hy)

  pub All-of_keep : (p : A → Bool) (xs : List A) → All (keep p xs) → AllIf p xs
  unfolding keep
  All-of_keep p [] h = tt
  All-of_keep p (x ∷ xs) h = elim (Bool-cases (p x)) [
    | inl e ↦ let (a, b) = rw (e, keep) at h in ((λ _. a), All-of_keep p xs b)
    | inr e ↦ ((λ f. cc), All-of_keep p xs (rw (e, keep) at h))
  ]

module _ {ℓ} {A : Type ℓ} (p : A → Bool) where
  pub keep-nil : (xs : List A) → keep p xs ≡ [] → All (λ x. p x ≡ false) xs
  unfolding keep
  keep-nil [] h = tt
  keep-nil (x ∷ xs) h = elim (Bool-cases (p x)) [
    | inl e ↦ absurd (cons-ne-nil (rw (e, keep) at h))
    | inr e ↦ (e, keep-nil xs (rw (e, keep) at h))
  ]

  -- The first item that is kept, among the items.
  pub keep-head :
      (xs : List A) (c : A) (cs : List A)
      → keep p xs ≡ c ∷ cs
      → (before : List A) × (after : List A) × (xs ≡ before ++ c ∷ after)
        × All (λ x. p x ≡ false) before
  unfolding keep
  keep-head [] c cs h = absurd (cons-ne-nil (sym h))
  keep-head (x ∷ xs) c cs h = elim (Bool-cases (p x)) [
    | inl e ↦
        let same : x ∷ keep p xs ≡ c ∷ cs = rw (e, keep) at h in ([], xs, ap (λ y. y ∷ xs) (cc), tt)
    | inr e ↦
        let (before, after, place, missed) = keep-head xs c cs (rw (e, keep) at h) in
        (x ∷ before, after, ap (λ ys. x ∷ ys) place, (e, missed))
  ]

  pub keep-keep : (q : A → Bool) (xs : List A) → keep p (keep q xs) ≡ keep (λ x. q x && p x) xs
  unfolding keep
  keep-keep q [] = refl
  keep-keep q (x ∷ xs) = elim (Bool-cases (q x)) [
    | inl e ↦ elim (Bool-cases (p x)) [
      | inl f ↦ rw (e, keep, f, keep-keep q xs) refl
      | inr f ↦ rw (e, keep, f, keep-keep q xs) refl
    ]
    | inr e ↦ rw (e, keep-keep q xs) refl
  ]

module _ {ℓ κ} {A : Type ℓ} {B : Type κ} (f : A → B) where
  pub mem_of_map : (b : B) (xs : List A) → Memᴰ b (map f xs) → (a : A) × Memᴰ a xs × (b ≡ f a)
  mem_of_map b [] m = elim m [ ]
  mem_of_map b (x ∷ xs) (Memᴰ.head e) = (x, Memᴰ.head refl, e)
  mem_of_map b (x ∷ xs) (Memᴰ.tail m) = let (a, h, e) = mem_of_map b xs m in (a, Memᴰ.tail h, e)

module _ {ℓ κ} {A : Type ℓ} (P : A → Type κ) where
  pub All-mem : (a : A) (xs : List A) → All P xs → Memᴰ a xs → P a
  All-mem a [] h m = elim m [ ]
  All-mem a (x ∷ xs) h (Memᴰ.head e) = subst P (sym e) h.0
  All-mem a (x ∷ xs) h (Memᴰ.tail m) = All-mem a xs h.1 m

module _ {ℓ κ μ} {A : Type ℓ} (P : A → Type κ) (Q : A → Type μ) where
  pub All-mono : (xs : List A) → ((x : A) → P x → Q x) → All P xs → All Q xs
  All-mono [] f h = tt
  All-mono (x ∷ xs) f h = (f x h.0, All-mono xs f h.1)

module _ {ℓ κ μ} {A : Type ℓ} {B : Type κ} (P : B → Type μ) (f : A → B) where
  pub All-of_map : (xs : List A) → All P (map f xs) → All (λ x. P (f x)) xs
  All-of_map [] h = tt
  All-of_map (x ∷ xs) h = (h.0, All-of_map xs h.1)

module _ {ℓ κ μ} {A : Type ℓ} (P : A → Type κ) (Q : A → Type μ) (p : A → Bool) where
  pub AllIf-mono : (xs : List A) → ((x : A) → P x → Q x) → AllIf P p xs → AllIf Q p xs
  AllIf-mono [] f h = tt
  AllIf-mono (x ∷ xs) f h = ((λ t. f x (h.0 t)), AllIf-mono xs f h.1)

module _ {ℓ κ} {A : Type ℓ} (P : A → Type κ) (p : A → Bool) where
  pub All-of_AllIf : (xs : List A) → AllIf P p xs → All (λ x. p x ≡ true → P x) xs
  All-of_AllIf [] h = tt
  All-of_AllIf (x ∷ xs) h = (h.0, All-of_AllIf xs h.1)

  pub AllIf-of_All : (xs : List A) → All (λ x. p x ≡ true → P x) xs → AllIf P p xs
  AllIf-of_All [] h = tt
  AllIf-of_All (x ∷ xs) h = (h.0, AllIf-of_All xs h.1)

  pub AllIf-mem : (a : A) (xs : List A) → AllIf P p xs → Memᴰ a xs → p a ≡ true → P a
  AllIf-mem a xs h m = All-mem (λ x. p x ≡ true → P x) a xs (All-of_AllIf xs h) m
