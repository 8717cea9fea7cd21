-- ===== src/App/Streaming/Idle.antt =====
-- src/app/ViewerWindow.cpp, the end of `pumpStreaming`: when the streaming stops, and when it stops again.
use scrollviewer.Base.{
  ℕ, ◌+◌, ◌≡◌, ◌↔◌, ◌≤◌, refl, sym, ap, ◌∙◌, inl, inr, Bool, true, false, not, List, ltb,
  if◌then◌else◌, arith, Bool-cases,
}
use scrollviewer.Data.Volume.{Volume}
use scrollviewer.Data.Pipeline.{FloatOrder, BrickRequest}
use scrollviewer.App.Streaming.{
  Viewer, Tick, pump_main, pump_overlay, ask, is_busy, converge, replan, is_replanned, count_tick,
  pump_streaming,
}

true-false : true ≡ false → ⊥
true-false h = cc

module _ {P : Type 0} ⦃f : FloatOrder P⦄ (vol ov_vol : Volume)
    (nearest : List (BrickRequest P) → List (BrickRequest P)) where
  ask-streaming :
      (t : Tick P) (v : Viewer P)
      → ((ask vol ov_vol nearest t v).streaming_active ≡ v.streaming_active)
        × ((ask vol ov_vol nearest t v).converged_ticks ≡ v.converged_ticks)
  unfolding ask pump_main pump_overlay
  ask-streaming t v = elim (Bool-cases v.has_overlay) [
    | inl e ↦ rw (ask, pump_main, pump_overlay, e) (refl, refl)
    | inr e ↦ rw (ask, pump_main, pump_overlay, e) (refl, refl)
  ]

  -- The tick plans, and finds nothing missing and nothing under way.
  abbrev pub IsQuiet : Tick P → Viewer P → Type 0
  IsQuiet t v =
      (is_replanned vol ov_vol nearest t (count_tick vol ov_vol nearest v) ≡ true)
      × (is_busy vol ov_vol nearest t (count_tick vol ov_vol nearest v) ≡ false)

  module _ (t : Tick P) (v : Viewer P) (on : v.streaming_active ≡ true) where
    abbrev plans : Bool
    plans = is_replanned vol ov_vol nearest t (count_tick vol ov_vol nearest v)

    abbrev busy : Bool
    busy = is_busy vol ov_vol nearest t (count_tick vol ov_vol nearest v)

    abbrev asked : Viewer P
    asked = ask vol ov_vol nearest t (count_tick vol ov_vol nearest v)

    pump_streaming_active :
        pump_streaming vol ov_vol nearest t v
        ≡ (if plans then converge busy asked else count_tick vol ov_vol nearest v)
    unfolding pump_streaming replan
    pump_streaming_active =
        ap
          (λ b.
            if not b
            then v
            else if plans
            then converge busy asked
            else count_tick vol ov_vol nearest v)
          on

    asked_ticks : asked.converged_ticks ≡ v.converged_ticks
    asked_ticks = (ask-streaming t (count_tick vol ov_vol nearest v)).1

    asked_active : asked.streaming_active ≡ true
    asked_active = (ask-streaming t (count_tick vol ov_vol nearest v)).0 ∙ on

    stays : (plans ≡ false) → (pump_streaming vol ov_vol nearest t v).streaming_active ≡ true
    stays e =
        ap Viewer.streaming_active (
          pump_streaming_active
          ∙ ap (λ b. if b then converge busy asked else count_tick vol ov_vol nearest v) e)
        ∙ on

    planned : (plans ≡ true) → pump_streaming vol ov_vol nearest t v ≡ converge busy asked
    planned e =
        pump_streaming_active
        ∙ ap (λ b. if b then converge busy asked else count_tick vol ov_vol nearest v) e

  converge_active :
      (b : Bool) (v : Viewer P)
      → ((converge b v).streaming_active ≡ (
          if b
          then v.streaming_active
          else if ltb (v.converged_ticks + 1) 40
          then v.streaming_active
          else false))
        × ((converge b v).converged_ticks ≡ (if b then 0 else v.converged_ticks + 1))
  unfolding converge
  converge_active true v = (refl, refl)
  converge_active false v = elim (Bool-cases (ltb (v.converged_ticks + 1) 40)) [
    | inl e ↦ rw (converge, e) (refl, refl)
    | inr e ↦ rw (converge, e) (refl, refl)
  ]

  converge_iff :
      (r b active : Bool) (n m : ℕ)
      → active ≡ true
      → n ≡ m
      → r ≡ (if b then active else if ltb (n + 1) 40 then active else false)
      → (r ≡ false) ↔ ((b ≡ false) × (39 ≤ m))
  converge_iff r b active n m on same e = (ground arith, ground arith)

  -- While it is active, the streaming stops exactly at a tick that plans and finds nothing missing
  -- and nothing under way, when the streak of such ticks has reached 39 before.
  pub pump_streaming_stops :
      (t : Tick P) (v : Viewer P)
      → v.streaming_active ≡ true
      → ((pump_streaming vol ov_vol nearest t v).streaming_active ≡ false)
        ↔ (IsQuiet t v × (39 ≤ v.converged_ticks))
  pump_streaming_stops t v on = elim (Bool-cases (plans t v on)) [
    | inr e ↦ (
      λ h. absurd (true-false (sym (stays t v on e) ∙ h)),
      λ h. absurd (true-false (sym h.0.0 ∙ e)),
    )
    | inl e ↦
        let w = asked t v on in
        let b = busy t v on in
        let same = ap Viewer.streaming_active (planned t v on e) in
        let fields = (converge_active b w).0 in
        let core =
          converge_iff _ b w.streaming_active w.converged_ticks v.converged_ticks
            (asked_active t v on) (asked_ticks t v on) (same ∙ fields) in
        (λ h. ((e, (core.0 h).0), (core.0 h).1), λ h. core.1 (h.0.1, h.1))
  ]
