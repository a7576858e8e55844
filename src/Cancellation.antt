-- ===== src/Cancellation.antt =====
-- class CancellationToken of tool/cancellation.py (src/ftre_agent_core): a token as a record, with
-- the calls of its callbacks so far. A callback is a number, and one that raises is
-- left out: `cancel` swallows what it raises, `on_cancel` passes it on. Each method is one step: the callbacks that `cancel` has copied under the
-- lock are called before any other method acts.
pub mod Laws
mod Tests
use ftre_agent_core.Prelude.{
  ℕ, zero, suc, ◌+◌, String, Bool, true, false, not, List, [], ◌∷◌, ◌++◌, map, keep, eqb,
  if◌then◌else◌,
}

pub record Token : Type 0 where
  pub is_set : Bool
  pub callbacks : List (ℕ × ℕ)
  pub next_callback_id : ℕ
  pub reason : String
  pub calls : List (ℕ × String)

-- CancellationToken.__init__
abbrev pub new_token : Token
new_token = record {
  is_set = false;
  callbacks = [];
  next_callback_id = 0;
  reason = "cancelled";
  calls = [];
}

unfoldable pub cancel : String → Token → Token
cancel reason t = if t.is_set then t else record t {
  reason = reason;
  is_set = true;
  calls = t.calls ++ map (λ (e : ℕ × ℕ). (e.1, reason)) t.callbacks;
}

-- on_cancel; the function that it returns is `unregister` of the id it used
unfoldable pub on_cancel : ℕ → Token → Token
on_cancel callback t =
    if t.is_set then record t { calls = t.calls ++ (callback, t.reason) ∷ [] } else record t {
      callbacks = t.callbacks ++ (t.next_callback_id, callback) ∷ [];
      next_callback_id = t.next_callback_id + 1;
    }

unfoldable pub unregister : ℕ → Token → Token
unregister id t = record t { callbacks = keep (λ (e : ℕ × ℕ). not (eqb e.0 id)) t.callbacks }

pub data Operation : Type 0 where
  cancelling : String → Operation
  registering unregistering : ℕ → Operation

unfoldable pub step : Operation → Token → Token
unfolding cancel on_cancel unregister
step (cancelling reason) t = cancel reason t
step (registering callback) t = on_cancel callback t
step (unregistering id) t = unregister id t

-- The methods called one after the other.
unfoldable pub run_all : List Operation → Token → Token
unfolding step
run_all [] t = t
run_all (o ∷ os) t = run_all os (step o t)
