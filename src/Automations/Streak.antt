-- ===== src/Automations/Streak.antt =====
-- A tick whose every attempt fails, and ticks that fail one after another.
use agent_studio.Shared.{
  ℕ, zero, suc, ◌+◌, Bool, true, false, not, ◌&&◌, Option, none, some, List, [], ◌∷◌, ◌++◌, ◌≡◌,
  refl, arith, Option-cases, inl, inr, length, subst, ltb, leb, if◌then◌else◌,
}
use native.Mathlib.Numerals.{unary_clauses}
use agent_studio.Automations.Policy.{
  AutomationRunTrigger, schedule, manual, monitor, automation_trigger_policy,
  automation_disable_after_failures, should_retry_automation, compute_retry_backoff_ms,
  should_disable_after_failures,
}
use agent_studio.Automations.Failure.{
  AutomationRow, Effect, retry_job, World, FailureOutcome, not_retried, retrying, advance,
  switch_off, record_terminal_automation_failure, give_up, handle_automation_run_failure,
}

-- The attempts of a tick, as long as one queues the next, which it can; each fails when it runs. On fuel: the
-- number of attempts that may be made.
unfoldable pub fail_tick :
    (fuel : ℕ) → (ℕ → Option ℕ) → AutomationRunTrigger → ℕ → ℕ → World → World × FailureOutcome
fail_tick zero next_run trigger attempt now w = (w, not_retried)
fail_tick (suc fuel) next_run trigger attempt now w =
    let (after, outcome) = handle_automation_run_failure true next_run trigger attempt now w in
    elim outcome [
      | retrying next run_at backoff ↦ fail_tick fuel next_run trigger next run_at after
      | other ↦ (after, other)
    ]

-- A give-up is final.
third_attempt :
    (fuel : ℕ) (next_run : ℕ → Option ℕ) (t : AutomationRunTrigger) (now : ℕ)
    (m : Option AutomationRow) (es : List Effect)
    → (automation_trigger_policy t).escalate_failures ≡ true
    → fail_tick (suc fuel) next_run t 3 now (record { automation = m; effects = es })
      ≡ give_up next_run t now (record { automation = m; effects = es })
unfolding fail_tick handle_automation_run_failure give_up record_terminal_automation_failure
    should_retry_automation
third_attempt fuel next_run manual now m es e = absurd (ground arith)
third_attempt fuel next_run schedule now none es e = refl
third_attempt fuel next_run schedule now (some a) es e = refl
third_attempt fuel next_run monitor now none es e = refl
third_attempt fuel next_run monitor now (some a) es e = refl

-- An unattended tick whose every attempt fails, and each of whose retries can be queued, makes three
-- attempts, the second a minute after the first and the third five minutes after that, and then gives
-- up once, for whatever fuel there is beyond the three.
pub fail_tick_lem :
    (fuel : ℕ) (next_run : ℕ → Option ℕ) (t : AutomationRunTrigger) (now : ℕ) (w : World)
    → (automation_trigger_policy t).escalate_failures ≡ true
    → let retried : World = record w {
      effects =
          (w.effects ++ retry_job 2 (now + 60000) t ∷ [])
          ++ retry_job 3 (now + 60000 + 300000) t ∷ [];
    } in
      fail_tick (suc (suc (suc fuel))) next_run t 1 now w
      ≡ give_up next_run t (now + 60000 + 300000) retried
unfolding fail_tick handle_automation_run_failure should_retry_automation compute_retry_backoff_ms
fail_tick_lem fuel next_run manual now w e = absurd (ground arith)
fail_tick_lem fuel next_run schedule now w e =
    third_attempt fuel next_run schedule (now + 60000 + 300000) w.automation
      ((w.effects ++ retry_job 2 (now + 60000) schedule ∷ [])
        ++ retry_job 3 (now + 60000 + 300000) schedule ∷ [])
      e
fail_tick_lem fuel next_run monitor now w e =
    third_attempt fuel next_run monitor (now + 60000 + 300000) w.automation
      ((w.effects ++ retry_job 2 (now + 60000) monitor ∷ [])
        ++ retry_job 3 (now + 60000 + 300000) monitor ∷ [])
      e

-- The automation after so many ticks that gave up, one after another, each at its time.
unfoldable pub after_give_ups : (ℕ → Option ℕ) → AutomationRunTrigger → List ℕ → World → World
after_give_ups next_run t [] w = w
after_give_ups next_run t (now ∷ times) w =
    after_give_ups next_run t times (give_up next_run t now w).0

-- The streak and the switch of whatever automation there is.
abbrev pub HasStreak : World → ℕ → Bool → Type 0
HasStreak w n on = elim w.automation [ none ↦ ⊥ | some a ↦ (a.failures ≡ n) × (a.enabled ≡ on) ]

advanced-HasStreak :
    (next_run : ℕ → Option ℕ) (now : ℕ) (a : AutomationRow) (es : List Effect) (n : ℕ) (on : Bool)
    → HasStreak (record { automation = some a; effects = es }) n on
    → HasStreak (record { automation = advance next_run now (some a); effects = es }) n on
advanced-HasStreak next_run now a es n on h = elim (Option-cases (next_run now)) [
  | inl wrong ↦ rw (wrong, advance) h
  | inr (next, e) ↦ rw (e, advance) h
]

scheduled-HasStreak :
    (next_run : ℕ → Option ℕ) (moves : Bool) (now : ℕ) (a : AutomationRow) (es : List Effect)
    (n : ℕ) (on : Bool)
    → HasStreak (record { automation = some a; effects = es }) n on
    → HasStreak
        (record {
          automation = if moves then advance next_run now (some a) else some a;
          effects = es;
        })
        n
        on
scheduled-HasStreak next_run true now a es n on h = advanced-HasStreak next_run now a es n on h
scheduled-HasStreak next_run false now a es n on h = h

switched-HasStreak :
    (off : Bool) (now : ℕ) (m : Option AutomationRow) (es : List Effect) (n : ℕ) (on : Bool)
    → HasStreak (record { automation = m; effects = es }) n on
    → HasStreak
        (record { automation = if off then switch_off now m else m; effects = es })
        n
        (not off && on)
switched-HasStreak true now none es n on h = absurd h
switched-HasStreak true now (some a) es n on (f, e) = (f, refl)
switched-HasStreak false now m es n on h = h

still_on :
    (enabled : Bool) (failures n : ℕ)
    → failures ≡ n
    → enabled ≡ ltb n 5
    → (not (enabled && leb 5 (failures + 1)) && ltb n 5) ≡ ltb (n + 1) 5
still_on enabled failures n f e = ground arith

give_up-HasStreak :
    (next_run : ℕ → Option ℕ) (t : AutomationRunTrigger) (now : ℕ) (m : Option AutomationRow)
    (es : List Effect) (n : ℕ)
    → HasStreak (record { automation = m; effects = es }) n (ltb n 5)
    → HasStreak
        (give_up next_run t now (record { automation = m; effects = es })).0
        (n + 1)
        (ltb (n + 1) 5)
unfolding give_up record_terminal_automation_failure should_disable_after_failures
give_up-HasStreak next_run t now none es n h = absurd h
give_up-HasStreak next_run t now (some a) es n (f, e) =
    let bumped = record a { failures = a.failures + 1; updated_at = now } in
    let off = a.enabled && leb 5 (a.failures + 1) in
    let moves = not (automation_trigger_policy t).preserve_schedule in
    let after = (give_up next_run t now (record { automation = some a; effects = es })).0 in
    subst (λ b. HasStreak after (n + 1) b) (still_on a.enabled a.failures n f e)
      (switched-HasStreak off now
        (if moves then advance next_run now (some bumped) else some bumped) after.effects (n + 1)
        (ltb n 5)
        (scheduled-HasStreak next_run moves now bumped after.effects (n + 1) (ltb n 5)
          (omega arith, e)))

after-HasStreak :
    (next_run : ℕ → Option ℕ) (t : AutomationRunTrigger) (times : List ℕ) (w : World) (n : ℕ)
    → HasStreak w n (ltb n 5)
    → HasStreak (after_give_ups next_run t times w) (n + length times) (ltb (n + length times) 5)
unfolding after_give_ups
after-HasStreak next_run t [] w n h = simp unary_clauses h
after-HasStreak next_run t (now ∷ times) w n h =
    let w' = (give_up next_run t now w).0 in
    let moved : n + 1 + length times ≡ n + suc (length times) = omega arith in
    subst (λ k. HasStreak (after_give_ups next_run t times w') k (ltb k 5)) moved
      (after-HasStreak next_run t times w' (n + 1)
        (give_up-HasStreak next_run t now w.automation w.effects n h))

-- An automation that is switched on and has not failed is, after any number of ticks that gave up one
-- after another, switched off exactly when there were at least five of them, and each tick counts
-- once; this is so whether or not the ticks move its schedule, and whether or not they can.
pub after_give_ups-HasStreak :
    (next_run : ℕ → Option ℕ) (t : AutomationRunTrigger) (times : List ℕ) (a : AutomationRow)
    (es : List Effect)
    → a.failures ≡ 0
    → a.enabled ≡ true
    → HasStreak
        (after_give_ups next_run t times (record { automation = some a; effects = es }))
        (length times)
        (ltb (length times) automation_disable_after_failures)
after_give_ups-HasStreak next_run t times a es f e =
    let w : World = record { automation = some a; effects = es } in
    let counted : 0 + length times ≡ length times = omega arith in
    subst (λ k. HasStreak (after_give_ups next_run t times w) k (ltb k 5)) counted
      (after-HasStreak next_run t times w 0 (f, e))
