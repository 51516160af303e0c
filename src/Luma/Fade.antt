-- ===== src/Luma/Fade.antt =====
-- The fade from one set of levels to another, by aquaOneLuma/src/core/TransitionEngine.cpp and .h. Levels are
-- the list of the values of the channels.
pub mod Target
use aqua_one.Base.{
  ℕ, Bool, true, false, not, ◌==◌, leb, if◌then◌else◌, List, [], ◌∷◌, Option, none, some, elapsed,
}
use aqua_one.Luma.Floats.{Floats, clamp}

pub record Transition (F : Type 0) : Type 0 where
  pub from : List F
  pub to : List F
  pub current : List F
  pub start_ms : ℕ
  pub duration_ms : ℕ
  pub active : Bool

module _ {F : Type 0} (f : Floats F) where
  open f use {add, sub, mul, div, of_word, zero_f, one_f, two_f, three_f}

  -- smoothstep(t).
  unfoldable pub smoothstep : F → F
  smoothstep v = (let t = clamp f v zero_f one_f in mul (mul t t) (sub three_f (mul two_f t)))

  -- The loop over the channels.
  unfoldable pub blend : F → List F → List F → List F
  blend s [] ts = []
  blend s (a ∷ as') [] = []
  blend s (a ∷ as') (b ∷ bs) = add a (mul (sub b a) s) ∷ blend s as' bs

  -- start(from, to, durationMs, nowMs).
  unfoldable pub start : List F → List F → ℕ → ℕ → Transition F
  start a b duration now = record {
    from = a;
    to = b;
    current = if duration == 0 then b else a;
    start_ms = now;
    duration_ms = duration;
    active = not (duration == 0);
  }

  -- update(nowMs), which returns the current levels.
  unfoldable pub update : ℕ → Transition F → Transition F
  update now t =
      let passed = elapsed now t.start_ms in
      let s = smoothstep (clamp f (div (of_word passed) (of_word t.duration_ms)) zero_f one_f) in
      if not t.active
      then t
      else if leb t.duration_ms passed
      then record t { current = t.to; active = false }
      else record t { current = blend s t.from t.to }

  -- update(nowMs, target).
  unfoldable pub update_target : ℕ → List F → Transition F → Transition F
  unfolding update
  update_target now target t = update now (if t.active then record t { to = target } else t)

  -- cancel().
  unfoldable pub cancel : Transition F → Transition F
  cancel t = record t { active = false }
