-- ===== src/Cancellation/Laws.antt =====
-- The callbacks of a token (src/ftre_agent_core/tool/cancellation.py).
use ftre_agent_core.Prelude.{
  ℕ, suc, ◌+◌, ◌≤◌, String, ◌≡◌, refl, Bool, true, false, not, List, [], ◌∷◌, ◌++◌, map, keep, eqb,
  length, length-append, All, All-append, arith, subst, if◌then◌else◌,
}
use ftre_agent_core.Cancellation.{
  Token, new_token, cancel, on_cancel, unregister, Operation, cancelling, registering,
  unregistering, step, run_all,
}

-- The number of registrations in a sequence of calls.
abbrev pub registrations : List Operation → ℕ
registrations [] = 0
registrations (registering callback ∷ os) = suc (registrations os)
registrations (cancelling reason ∷ os) = registrations os
registrations (unregistering id ∷ os) = registrations os

-- No call before the cancellation, all calls with the reason of the token, and no more calls than
-- there have been registrations, at most `n`.
pub record IsFair (n : ℕ) (t : Token) : Type 0 where
  pub silent : t.is_set ≡ false → t.calls ≡ []
  pub one_reason : All (λ (c : ℕ × String). c.1 ≡ t.reason) t.calls
  pub waiting : t.is_set ≡ false → length t.callbacks ≤ n
  pub called : length t.calls ≤ n

length-keep : (p : ℕ × ℕ → Bool) (l : List (ℕ × ℕ)) → length (keep p l) ≤ length l
unfolding keep
length-keep p [] = omega arith
length-keep p (x ∷ l) = ground (arith, length-keep p l)

abbrev told : String → List (ℕ × ℕ) → List (ℕ × String)
told reason l = map (λ (e : ℕ × ℕ). (e.1, reason)) l

length-map_calls : (reason : String) (l : List (ℕ × ℕ)) → length (told reason l) ≡ length l
length-map_calls reason [] = refl
length-map_calls reason (x ∷ l) = ground (arith, length-map_calls reason l)

one_reason-map :
    (reason : String) (l : List (ℕ × ℕ))
    → All (λ (c : ℕ × String). c.1 ≡ reason) (map (λ (e : ℕ × ℕ). (e.1, reason)) l)
one_reason-map reason [] = tt
one_reason-map reason (x ∷ l) = (refl, one_reason-map reason l)

IsFair-if :
    (n : ℕ) (b : Bool) (x y : Token)
    → (b ≡ true → IsFair n x)
    → (b ≡ false → IsFair n y)
    → IsFair n (if b then x else y)
IsFair-if n true x y fx fy = fx refl
IsFair-if n false x y fx fy = fy refl

true_ne_false : {P : Type 0} (b : Bool) → b ≡ true → b ≡ false → P
true_ne_false b h k = absurd (cc)

module _ (n : ℕ) (t : Token) (h : IsFair n t) where
  cancel-IsFair : (reason : String) → IsFair n (cancel reason t)
  unfolding cancel
  cancel-IsFair reason =
      IsFair-if n t.is_set _ _ (λ set. h)
        λ unset.
          let none_yet = h.silent unset in
          let fair : IsFair n (record t {
            reason = reason;
            is_set = true;
            calls = t.calls ++ map (λ (e : ℕ × ℕ). (e.1, reason)) t.callbacks;
          }) =
            record {
              silent = λ k. absurd (ground (arith, k));
              one_reason = rw none_yet (one_reason-map reason t.callbacks);
              waiting = λ k. absurd (ground (arith, k));
              called =
                  rw none_yet (omega (arith, length-map_calls reason t.callbacks, h.waiting unset));
            } in
          fair

  on_cancel-IsFair : (callback : ℕ) → IsFair (suc n) (on_cancel callback t)
  unfolding on_cancel
  on_cancel-IsFair callback =
      IsFair-if (suc n) t.is_set _ _
        (λ set.
          let fair : IsFair (suc n) (record t { calls = t.calls ++ (callback, t.reason) ∷ [] }) =
            record {
              silent = λ k. true_ne_false t.is_set set k;
              one_reason =
                  All-append (λ (c : ℕ × String). c.1 ≡ t.reason) t.calls
                    ((callback, t.reason) ∷ []) h.one_reason (refl, tt);
              waiting = λ k. true_ne_false t.is_set set k;
              called = omega (arith, length-append t.calls ((callback, t.reason) ∷ []), h.called);
            } in
          fair)
        λ unset.
          let new : List (ℕ × ℕ) = (t.next_callback_id, callback) ∷ [] in
          let fair : IsFair (suc n) (record t {
            callbacks = t.callbacks ++ (t.next_callback_id, callback) ∷ [];
            next_callback_id = t.next_callback_id + 1;
          }) =
            record {
              silent = h.silent;
              one_reason = h.one_reason;
              waiting = λ k. omega (arith, length-append t.callbacks new, h.waiting unset);
              called = omega (arith, h.called);
            } in
          fair

  unregister-IsFair : (id : ℕ) → IsFair n (unregister id t)
  unfolding unregister
  unregister-IsFair id = record {
    silent = h.silent;
    one_reason = h.one_reason;
    waiting =
        λ k. omega (arith, h.waiting k, length-keep (λ (e : ℕ × ℕ). not (eqb e.0 id)) t.callbacks);
    called = h.called;
  }

run_all-IsFair_from :
    (n : ℕ) (os : List Operation) (t : Token)
    → IsFair n t
    → IsFair (n + registrations os) (run_all os t)
unfolding run_all step
run_all-IsFair_from n [] t h = subst (λ k. IsFair k t) (omega arith) h
run_all-IsFair_from n (cancelling reason ∷ os) t h =
    run_all-IsFair_from n os (cancel reason t) (cancel-IsFair n t h reason)
run_all-IsFair_from n (registering callback ∷ os) t h =
    subst (λ k. IsFair k (run_all os (on_cancel callback t))) (omega arith)
      (run_all-IsFair_from (suc n) os (on_cancel callback t) (on_cancel-IsFair n t h callback))
run_all-IsFair_from n (unregistering id ∷ os) t h =
    run_all-IsFair_from n os (unregister id t) (unregister-IsFair n t h id)

-- Whatever the order of registering, unregistering and cancelling: no callback is called before the
-- token is cancelled, all callbacks get one and the same reason, that of the token, and there are at
-- most as many calls as registrations.
pub run_all-IsFair : (os : List Operation) → IsFair (registrations os) (run_all os new_token)
run_all-IsFair os =
    subst (λ k. IsFair k (run_all os new_token)) (omega arith)
      (run_all-IsFair_from 0 os new_token (record {
        silent = λ h. refl;
        one_reason = tt;
        waiting = λ h. omega arith;
        called = omega arith;
      }))
