-- ===== src/Ingest/Window.antt =====
-- What CheckReplayWindow accepts.
use gontext.Base.{ℕ, ◌+◌, ◌-◌, ◌≤◌, ◌<◌}
use gontext.Base.{String, string_eq, ◌==◌, trim_space}
use gontext.Base.{◌≡◌, refl, sym, subst, ◌∙◌, ◌↔◌, ◌⊎◌, inl, inr}
use gontext.Base.{false, some}
use gontext.Base.{arith, ltb, Bool-cases, Option-cases}
use mathlib.Core.Option.{some-injective}
use gontext.Platform.{ok}
use gontext.Ingest.{Codec, distance, max_duration, is_outside, check_replay_window}

is_outside_lem :
    (window now t : ℕ)
    → window < max_duration
    → (is_outside window now t ≡ false) ↔ ((distance now t ≤ window) ⊎ (now + max_duration < t))
unfolding is_outside distance
is_outside_lem window now t small = elim (Bool-cases (ltb max_duration (t - now))) [
  | inl far ↦ (λ h. inr (ground arith), λ h. ground arith)
  | inr near ↦
      (λ h. inl (ground arith), λ h. elim h [ inl d ↦ ground arith | inr d ↦ ground arith ])
]

-- For a window that is below the largest duration, CheckReplayWindow accepts exactly a timestamp
-- that is not blank and that can be read as a time whose distance from now is within the window, or
-- as a time more than the largest duration, some 292 years, ahead: their difference overflows.
pub check_replay_window_iff :
    (codec : Codec) (ts : String) (now window : ℕ)
    → window < max_duration
    → (check_replay_window codec ts now window ≡ ok tt) ↔ (
        ((trim_space ts == "") ≡ false)
        × (t : ℕ) × (codec.read_timestamp ts ≡ some t)
        × ((distance now t ≤ window) ⊎ (now + max_duration < t)))
unfolding check_replay_window
check_replay_window_iff codec ts now window small = elim (Bool-cases (trim_space ts == "")) [
  | inl y ↦ (
    λ h. absurd (cc (rw (y, check_replay_window) at h)),
    λ (n, t, r, within). absurd (ground arith),
  )
  | inr n ↦ elim (Option-cases (codec.read_timestamp ts)) [
    | inl e ↦ (
      λ h. absurd (cc (rw (n, e, check_replay_window) at h)),
      λ (m, t, r, within). absurd (cc (e, r)),
    )
    | inr (t, e) ↦ elim (Bool-cases (is_outside window now t)) [
      | inl out ↦ (
        λ h. absurd (cc (rw (n, e, out, check_replay_window) at h)),
        λ (m, x, r, within). absurd (
            cc (
              out,
              (is_outside_lem window now t small).1 (
                  subst (λ z. (distance now z ≤ window) ⊎ (now + max_duration < z))
                    (some-injective x t (sym r ∙ e)) within),
            )),
      )
      | inr inside ↦ (
        λ h. (n, t, e, (is_outside_lem window now t small).0 inside),
        λ q. rw (n, e, inside, check_replay_window) refl,
      )
    ]
  ]
]
