-- ===== src/Reminders/Missed.antt =====
-- Reminders that no run of the loop sends.
use vpn_suite.Prelude.{
  ℕ, ◌+◌, ◌≤◌, String, Bool, true, false, Option, some, List, [], ◌∷◌, string_eq, if◌then◌else◌,
  not, is_some, ◌==◌, Bool-cases, inl, inr, map, filter, All, ◌≡◌, refl, ap, ◌∙◌, ◌⊎◌, arith, ltb,
  ◌&&◌,
}
use vpn_suite.Reminders.Rows.{Subscription}
use vpn_suite.Reminders.Task.{
  hours, is_between, text_3d, text_1d, is_due_1d, is_due_3d, remind_3d, remind_1d,
  run_subscription_reminder_check, reminder_runs,
}

-- The subscription ends more than 73 hours after a time, and less than 77.
abbrev pub ends_between : ℕ → Subscription → Bool
ends_between t s = ltb (t + hours 73) s.valid_until && ltb s.valid_until (t + hours 77)

abbrev pub marks_of : ℕ → List Subscription → List (Option ℕ)
marks_of t subs = map (λ (s : Subscription). s.reminder_3d_sent_at) (filter (ends_between t) subs)

not_between :
    (t now v : ℕ)
    → (now ≤ t) ⊎ (t + hours 6 ≤ now)
    → (ltb (t + hours 73) v && ltb v (t + hours 77)) ≡ true
    → is_between (now + hours 71) (now + hours 73) v ≡ false
not_between t now v (inl early) h = ground arith
not_between t now v (inr late) h = ground arith

is_due_3d-false :
    (t now : ℕ) (s : Subscription)
    → (now ≤ t) ⊎ (t + hours 6 ≤ now)
    → ends_between t s ≡ true
    → is_due_3d now s ≡ false
unfolding is_due_3d
is_due_3d-false t now s apart h =
    rw (not_between t now s.valid_until apart h)
      (and-false (s.status == "active") (not (is_some s.reminder_3d_sent_at)))
  where
    and-false : (a b : Bool) → (a && false && b) ≡ false
    and-false true b = refl
    and-false false b = refl

if-same : {A B : Type 0} (f : A → B) (b : Bool) (x y : A) → f x ≡ f y → f (if b then x else y) ≡ f y
if-same f true x y same = same
if-same f false x y same = refl

module _ (sent : ℕ → String → Bool) (t now : ℕ) (apart : (now ≤ t) ⊎ (t + hours 6 ≤ now)) where
  -- What a run makes of a subscription.
  abbrev reminded : Subscription → Subscription
  reminded s = remind_1d sent now (remind_3d sent now s)

  reminded-ends : (s : Subscription) → (reminded s).valid_until ≡ s.valid_until
  unfolding remind_1d remind_3d
  reminded-ends s =
      if-same (λ (s : Subscription). s.valid_until)
        (is_due_1d now (remind_3d sent now s) && sent (remind_3d sent now s).user_id text_1d) _
        (remind_3d sent now s) refl
      ∙ if-same (λ (s : Subscription). s.valid_until) (is_due_3d now s && sent s.user_id text_3d) _
          s refl

  reminded-mark :
      (s : Subscription)
      → ends_between t s ≡ true
      → (reminded s).reminder_3d_sent_at ≡ s.reminder_3d_sent_at
  unfolding remind_1d remind_3d
  reminded-mark s inside =
      if-same (λ (s : Subscription). s.reminder_3d_sent_at)
        (is_due_1d now (remind_3d sent now s) && sent (remind_3d sent now s).user_id text_1d) _
        (remind_3d sent now s) refl
      ∙ ap
          (λ b.
            (if b && sent s.user_id text_3d
              then record s { reminder_3d_sent_at = some now }
              else s).reminder_3d_sent_at)
          (is_due_3d-false t now s apart inside)

  run-marks :
      (subs : List Subscription)
      → marks_of t (run_subscription_reminder_check sent now subs).2 ≡ marks_of t subs
  unfolding run_subscription_reminder_check
  run-marks [] = refl
  run-marks (s ∷ subs) = elim (Bool-cases (ends_between t s)) [
    | inl inside ↦ ground (arith, reminded-ends s, reminded-mark s inside, run-marks subs)
    | inr outside ↦ ground (arith, reminded-ends s, run-marks subs)
  ]

-- The loop wakes every six hours, and looks two hours wide. Whatever is sent, a subscription that
-- ends more than 73 and less than 77 hours after a time `t` is never marked as reminded three days
-- before its end by runs of which none is within the six hours after `t`: the run at `t` comes too
-- early for it, and the next too late.
pub reminder_missed :
    (sent : ℕ → ℕ → String → Bool) (t : ℕ) (times : List ℕ) (subs : List Subscription)
    → All (λ now. (now ≤ t) ⊎ (t + hours 6 ≤ now)) times
    → marks_of t (reminder_runs sent times subs) ≡ marks_of t subs
unfolding reminder_runs
reminder_missed sent t [] subs apart = refl
reminder_missed sent t (now ∷ times) subs apart =
    reminder_missed sent t times (run_subscription_reminder_check (sent now) now subs).2 apart.1
    ∙ run-marks (sent now) t now apart.0 subs
