-- ===== src/Permission/Laws.antt =====
-- What a decision of the permission engine (src/ftre_agent_core/permission/_engine.py) rests on.
use ftre_agent_core.Prelude.{
  ◌≡◌, refl, sym, ap, subst, ◌∙◌, ◌&&◌, ◌++◌, keep-head, keep-keep, AllIf-of_All, All-mono, ◌≢◌,
  inl, inr, none, some, Bool, true, false, List, [], ◌∷◌, Memᴰ, arith, keep, any, map, All, AllIf,
  All-of_keep, mem_of_keep, Bool-cases, keep-nil, mem_of_map, All-of_map, All-of_AllIf, AllIf-mem,
  AllIf-mono, All-mem, cons-ne-nil,
}
use ftre_agent_core.Prelude.Int.{ℤ, ◌≤ℤ◌, ltb_ℤ, eqb_ℤ, eq_of_parts}
use ftre_agent_core.Permission.{
  PermissionBehavior, deny, same_behavior, PermissionRequest, PermissionRule, PermissionDecision,
  PyText, max_from, behavior_set, matches, settle, candidates_of, evaluate,
}

max_from-ge :
    (best : ℤ) (ps : List ℤ) (m : ℤ) → max_from best ps ≡ m → (best ≤ℤ m) × All (λ p. p ≤ℤ m) ps
unfolding max_from
max_from-ge best [] m e = (ground arith, tt)
max_from-ge best (p ∷ ps) m e = elim (Bool-cases (ltb_ℤ best p)) [
  | inl t ↦ let (a, b) = max_from-ge p ps m (rw (t, max_from) at e) in (ground arith, (a, b))
  | inr t ↦ let (a, b) = max_from-ge best ps m (rw (t, max_from) at e) in (a, (ground arith, b))
]

max_from-mem : (best : ℤ) (ps : List ℤ) → Memᴰ (max_from best ps) (best ∷ ps)
unfolding max_from
max_from-mem best [] = Memᴰ.head refl
max_from-mem best (p ∷ ps) = elim (Bool-cases (ltb_ℤ best p)) [
  | inl t ↦ rw t (Memᴰ.tail (max_from-mem p ps))
  | inr t ↦ rw t (skip (max_from-mem best ps))
]
  where
    skip : {x : ℤ} → Memᴰ x (best ∷ ps) → Memᴰ x (best ∷ p ∷ ps)
    skip (Memᴰ.head e) = Memᴰ.head e
    skip (Memᴰ.tail m) = Memᴰ.tail (Memᴰ.tail m)

eq_of_same : (a b : PermissionBehavior) → same_behavior a b ≡ true → a ≡ b
eq_of_same a b h = ground arith

ne_of_not_same : (a b : PermissionBehavior) → same_behavior a b ≡ false → a ≢ b
ne_of_not_same a b h = ground arith

module _ (c : PermissionBehavior) where
  behavior_set-mem : (bs zs : List PermissionBehavior) → behavior_set bs ≡ c ∷ zs → Memᴰ c bs
  unfolding behavior_set
  behavior_set-mem [] zs h = absurd (cons-ne-nil (sym h))
  behavior_set-mem (b ∷ bs) zs h = elim (Bool-cases (any (same_behavior b) (behavior_set bs))) [
    | inl t ↦ Memᴰ.tail (behavior_set-mem bs zs (rw (t, behavior_set) at h))
    | inr t ↦ Memᴰ.head (sym (cc (rw (t, behavior_set) at h)))
  ]

behavior_set-nil : (bs : List PermissionBehavior) → behavior_set bs ≡ [] → bs ≡ []
unfolding behavior_set any
behavior_set-nil [] h = refl
behavior_set-nil (b ∷ bs) h = elim (Bool-cases (any (same_behavior b) (behavior_set bs))) [
  | inl t ↦ absurd (ground arith)
  | inr t ↦ absurd (cons-ne-nil (rw (t, behavior_set) at h))
]

behavior_set-one :
    (c : PermissionBehavior) (bs : List PermissionBehavior)
    → behavior_set bs ≡ c ∷ []
    → All (λ b. b ≡ c) bs
unfolding behavior_set any
behavior_set-one c [] h = tt
behavior_set-one c (b ∷ bs) h = elim (Bool-cases (any (same_behavior b) (behavior_set bs))) [
  | inl t ↦
      let rest : behavior_set bs ≡ c ∷ [] = rw (t, behavior_set) at h in
      (ground (arith, eq_of_same b c), behavior_set-one c bs rest)
  | inr t ↦
      let all : b ∷ behavior_set bs ≡ c ∷ [] = rw (t, behavior_set) at h in
      (cc, rw (behavior_set-nil bs (cc)) tt)
]

behavior_set-two :
    (x y : PermissionBehavior) (bs zs : List PermissionBehavior)
    → behavior_set bs ≡ x ∷ y ∷ zs
    → Memᴰ x bs × Memᴰ y bs × (x ≢ y)
unfolding behavior_set any
behavior_set-two x y [] zs h = absurd (cons-ne-nil (sym h))
behavior_set-two x y (b ∷ bs) zs h = elim (Bool-cases (any (same_behavior b) (behavior_set bs))) [
  | inl t ↦
      let (mx, my, ne) = behavior_set-two x y bs zs (rw (t, behavior_set) at h) in
      (Memᴰ.tail mx, Memᴰ.tail my, ne)
  | inr t ↦
      let all : b ∷ behavior_set bs ≡ x ∷ y ∷ zs = rw (t, behavior_set) at h in
      (
        Memᴰ.head (cc),
        Memᴰ.tail (behavior_set-mem y bs zs (cc)),
        ground (arith, ne_of_not_same x y),
      )
]

abbrev priority_of : PermissionRule → ℤ
priority_of r = r.priority

abbrev behavior_of : PermissionRule → PermissionBehavior
behavior_of r = r.behavior

abbrev top_of : PermissionRule → List PermissionRule → ℤ
top_of first more = max_from first.priority (map priority_of more)

eq_of_eqb : (a b : ℤ) → eqb_ℤ a b ≡ true → a ≡ b
eq_of_eqb a b h = eq_of_parts a b (ground arith)

eqb_of_eq : (a b : ℤ) → a ≡ b → eqb_ℤ a b ≡ true
eqb_of_eq a b h = rw h (ground arith)

-- No matched rule is above the highest priority, and one of them has it.
top_of-ge :
    (first : PermissionRule) (more : List PermissionRule)
    → All (λ r. r.priority ≤ℤ top_of first more) (first ∷ more)
top_of-ge first more =
    let (a, b) = max_from-ge first.priority (map priority_of more) (top_of first more) refl in
    (a, All-of_map (λ p. p ≤ℤ top_of first more) priority_of more b)

candidates_of-ne-nil :
    (py : PyText) (first : PermissionRule) (more : List PermissionRule)
    → candidates_of py (first ∷ more) ≢ []
candidates_of-ne-nil py first more e =
    let (r, m, same) =
      mem_of_map priority_of (top_of first more) (first ∷ more)
        (max_from-mem first.priority (map priority_of more)) in
    let miss : eqb_ℤ r.priority (top_of first more) ≡ false =
      All-mem (λ (s : PermissionRule). eqb_ℤ s.priority (top_of first more) ≡ false) r
        (first ∷ more)
        (keep-nil (λ (s : PermissionRule). eqb_ℤ s.priority (top_of first more)) (first ∷ more) e)
        m in
    cc (miss, eqb_of_eq r.priority (top_of first more) (sym same))

module _ (py : PyText) (request : PermissionRequest) (rules : List PermissionRule) where
  -- A listed rule that matches, with the highest priority of all that match.
  pub record IsTop (rule : PermissionRule) : Type 0 where
    pub listed : Memᴰ rule rules
    pub matched : matches py request rule ≡ true
    pub highest : AllIf (λ r. r.priority ≤ℤ rule.priority) (matches py request) rules

  -- No rule that is listed before it matches with its priority.
  pub record IsFirst (rule : PermissionRule) : Type 0 where
    pub before : List PermissionRule
    pub after : List PermissionRule
    pub place : rules ≡ before ++ rule ∷ after
    pub others : AllIf (λ r. r.priority ≢ rule.priority) (matches py request) before

  -- The three ways to decide, stated without the engine's own filters.
  pub data Decides (default_behavior : PermissionBehavior) (d : PermissionDecision) : Type 0 where
    by_default :
        All (λ r. matches py request r ≡ false) rules
        → d.behavior ≡ default_behavior
        → d.rule_id ≡ none
        → Decides default_behavior d
    by_rule :
        (rule : PermissionRule)
        → IsTop rule
        → IsFirst rule
        → AllIf
            (λ r. r.priority ≡ rule.priority → r.behavior ≡ rule.behavior)
            (matches py request)
            rules
        → d.behavior ≡ rule.behavior
        → d.rule_id ≡ some rule.id
        → Decides default_behavior d
    by_conflict :
        (r s : PermissionRule)
        → IsTop r
        → IsTop s
        → r.behavior ≢ s.behavior
        → d.behavior ≡ deny
        → d.rule_id ≡ none
        → Decides default_behavior d

  module _ (first : PermissionRule) (more : List PermissionRule)
      (is_matched : keep (matches py request) rules ≡ first ∷ more) where
    candidate-IsTop : (r : PermissionRule) → Memᴰ r (candidates_of py (first ∷ more)) → IsTop r
    candidate-IsTop r m =
        let (among, same) =
          mem_of_keep (λ (s : PermissionRule). eqb_ℤ s.priority (top_of first more)) r
            (first ∷ more) m in
        let (listed, matched) = mem_of_keep (matches py request) r rules (rw is_matched among) in
        record {
          listed = listed;
          matched = matched;
          highest = rw (eq_of_eqb r.priority (top_of first more) same) (
              All-of_keep (λ s. s.priority ≤ℤ top_of first more) (matches py request) rules
                (rw is_matched (top_of-ge first more)));
        }

    -- What holds of every candidate holds of every matched rule of the same priority.
    candidates-cover :
        (P : PermissionRule → Type 0) (r : PermissionRule)
        → Memᴰ r (candidates_of py (first ∷ more))
        → All P (candidates_of py (first ∷ more))
        → AllIf (λ s. s.priority ≡ r.priority → P s) (matches py request) rules
    candidates-cover P r m h =
        let at_top : PermissionRule → Bool = λ s. eqb_ℤ s.priority (top_of first more) in
        let (_, same) = mem_of_keep at_top r (first ∷ more) m in
        let matched : All (λ s. at_top s ≡ true → P s) (first ∷ more) =
          All-of_AllIf P at_top (first ∷ more) (All-of_keep P at_top (first ∷ more) h) in
        AllIf-mono (λ s. at_top s ≡ true → P s) (λ s. s.priority ≡ r.priority → P s)
          (matches py request) rules
          (λ s f e. f (
            eqb_of_eq s.priority (top_of first more)
              (e ∙ eq_of_eqb r.priority (top_of first more) same)))
          (All-of_keep (λ s. at_top s ≡ true → P s) (matches py request) rules
            (rw is_matched matched))

    candidate-IsFirst :
        (c : PermissionRule) (cs : List PermissionRule)
        → candidates_of py (first ∷ more) ≡ c ∷ cs
        → IsFirst c
    candidate-IsFirst c cs e =
        let at_top : PermissionRule → Bool = λ s. eqb_ℤ s.priority (top_of first more) in
        let (before, after, place, missed) =
          keep-head (λ r. matches py request r && at_top r) rules c cs
            (sym (keep-keep at_top (matches py request) rules) ∙ ap (keep at_top) is_matched ∙ e) in
        let (_, c_top) =
          mem_of_keep at_top c (first ∷ more) (rw e (Memᴰ.head {x = c} {xs = cs} refl)) in
        record {
          before = before;
          after = after;
          place = place;
          others =
              AllIf-of_All (λ r. r.priority ≢ c.priority) (matches py request) before
                (All-mono (λ r. (matches py request r && at_top r) ≡ false)
                  (λ r. matches py request r ≡ true → r.priority ≢ c.priority) before
                  (λ r miss hit same.
                    let top =
                      eqb_of_eq r.priority (top_of first more)
                        (same ∙ eq_of_eqb c.priority (top_of first more) c_top) in
                    absurd (ground (arith, miss, hit, top)))
                  missed);
        }

    settle-Decides :
        (default_behavior : PermissionBehavior) (cs : List PermissionRule)
        → candidates_of py (first ∷ more) ≡ cs
        → Decides default_behavior (settle py default_behavior cs)
    unfolding settle
    settle-Decides d [] e = absurd (candidates_of-ne-nil py first more e)
    settle-Decides d (c ∷ cs) e = split (behavior_set (map behavior_of (c ∷ cs))) refl
      where
        split :
            (bs : List PermissionBehavior)
            → behavior_set (map behavior_of (c ∷ cs)) ≡ bs
            → Decides d (settle py d (c ∷ cs))
        split [] q = absurd (cons-ne-nil (behavior_set-nil (map behavior_of (c ∷ cs)) q))
        split (b ∷ []) q =
            let same = behavior_set-one b (map behavior_of (c ∷ cs)) q in
            by_rule c (candidate-IsTop c (rw e (Memᴰ.head refl))) (candidate-IsFirst c cs e)
              (candidates-cover (λ s. s.behavior ≡ c.behavior) c (rw e (Memᴰ.head refl))
                (rw e (
                  All-of_map (λ x. x ≡ c.behavior) behavior_of (c ∷ cs)
                    (subst (λ x. All (λ z. z ≡ x) (map behavior_of (c ∷ cs))) (sym same.0) same))))
              (rw q) (rw q)
        split (x ∷ y ∷ zs) q =
            let (mx, my, ne) = behavior_set-two x y (map behavior_of (c ∷ cs)) zs q in
            let (r, r_in, rx) = mem_of_map behavior_of x (c ∷ cs) mx in
            let (s, s_in, sy) = mem_of_map behavior_of y (c ∷ cs) my in
            by_conflict r s (candidate-IsTop r (rw e r_in)) (candidate-IsTop s (rw e s_in))
              (λ same. ne (rx ∙ same ∙ sym sy)) (rw q (ground arith)) (rw q (ground arith))

-- Every decision is made in one of three ways. With no enabled rule that matches the tool name and
-- the arguments, it is the caller's default. With a matching rule of the highest priority among
-- the matching ones, whose behaviour all matching rules of that priority share, it is that rule's
-- behaviour, under the id of the first listed one of them. With two matching rules of the highest priority and different
-- behaviours it is DENY, under no rule's id.
pub evaluate-Decides :
    (py : PyText) (request : PermissionRequest) (rules : List PermissionRule)
    (default_behavior : PermissionBehavior)
    → Decides py request rules default_behavior (evaluate py request rules default_behavior)
unfolding evaluate
evaluate-Decides py request rules d = split (keep (matches py request) rules) refl
  where
    split :
        (matched : List PermissionRule)
        → keep (matches py request) rules ≡ matched
        → Decides py request rules d (settle py d (candidates_of py matched))
    split [] e = unfold settle in by_default (keep-nil (matches py request) rules e) refl refl
    split (first ∷ more) e =
        settle-Decides py request rules first more e d (candidates_of py (first ∷ more)) refl

-- A DENY rule that matches with the highest priority among the matching rules is always obeyed:
-- no other rule and no default can allow the call or ask for it.
pub deny_is_final :
    (py : PyText) (request : PermissionRequest) (rules : List PermissionRule)
    (default_behavior : PermissionBehavior) (rule : PermissionRule)
    → IsTop py request rules rule
    → rule.behavior ≡ deny
    → (evaluate py request rules default_behavior).behavior ≡ deny
deny_is_final py request rules d rule top denies = obey (evaluate-Decides py request rules d)
  where
    obey :
        Decides py request rules d (evaluate py request rules d)
        → (evaluate py request rules d).behavior ≡ deny
    obey (by_default missed _ _) =
        let miss = All-mem (λ r. matches py request r ≡ false) rule rules missed top.listed in
        cc (miss, top.matched)
    obey (by_rule c c_top _ shared same _) =
        let below =
          AllIf-mem (λ r. r.priority ≤ℤ c.priority) (matches py request) rule rules c_top.highest
            top.listed top.matched in
        let above =
          AllIf-mem (λ r. r.priority ≤ℤ rule.priority) (matches py request) c rules top.highest
            c_top.listed c_top.matched in
        let agree =
          AllIf-mem (λ r. r.priority ≡ c.priority → r.behavior ≡ c.behavior) (matches py request)
            rule rules shared top.listed top.matched
            (eq_of_parts rule.priority c.priority (omega arith)) in
        cc
    obey (by_conflict _ _ _ _ _ denied _) = denied
