-- ===== src/Monitors/Cancels.antt =====
-- What becomes of a monitor after a cancel.
use agent_studio.Shared.{
  ℕ, Bool, true, false, Option, none, some, List, [], ◌∷◌, ◌≡◌, refl, ap, ◌∙◌, subst, arith, ◌==◌,
  Bool-cases, Option-cases, inl, inr,
}
use agent_studio.Monitors.Run.{
  active, canceled, paused, MonitorRow, Evaluation, Effect, World, is_active, check_row,
  run_monitor_check,
}
use agent_studio.Monitors.Manage.{
  claim_monitor_for_check, expire_overdue, cancel_monitor, set_monitor_paused, ExtendMonitorInput,
  extend_monitor, UpdateMonitorSettingsInput, update_monitor_settings, is_canceled, update_error,
}
use agent_studio.Monitors.Events.{
  Event, check, claim, expire, cancel, pause, extend, update, manage, apply, run_events,
}

-- A canceled monitor with these effects and this many checks.
abbrev pub IsCanceledWith : World → ℕ → List Effect → Type 0
IsCanceledWith w n es = elim w.monitor [
  | none ↦ ⊥
  | some m ↦ (m.status ≡ canceled) × (m.check_count ≡ n) × (w.effects ≡ es)
]

check_canceled :
    (evaluate : MonitorRow → ℕ → Evaluation) (dispatch : MonitorRow → Bool) (now : ℕ)
    (m : MonitorRow) (es : List Effect)
    → m.status ≡ canceled
    → IsCanceledWith
        (run_monitor_check evaluate dispatch
          (λ v. v)
          now
          (record { monitor = some m; effects = es })).0
        m.check_count
        es
unfolding run_monitor_check
check_canceled evaluate dispatch now m es h =
    let ended : is_active m.status ≡ false = rw h refl in
    unfold check_row in rw (ended, check_row) (h, refl, refl)

extend_canceled :
    (user_id : ℕ) (input : ExtendMonitorInput) (now : ℕ) (m : MonitorRow)
    → m.status ≡ canceled
    → (extend_monitor user_id input now (λ r. r) m).0 ≡ m
unfolding extend_monitor
extend_canceled user_id input now m h =
    let over : is_canceled m.status ≡ true = rw h refl in
    elim (Bool-cases (m.user_id == user_id)) [
      | inl own ↦ rw (own, extend_monitor) (rw over refl)
      | inr foreign ↦ rw (foreign, extend_monitor) refl
    ]

update_canceled :
    (owned : ℕ → ℕ → Bool) (user_id : ℕ) (input : UpdateMonitorSettingsInput) (now : ℕ)
    (m : MonitorRow)
    → m.status ≡ canceled
    → let after = (update_monitor_settings owned user_id input now m).0 in
      (after.status ≡ canceled) × (after.check_count ≡ m.check_count)
unfolding update_monitor_settings
update_canceled owned user_id input now m h = elim (Bool-cases (m.user_id == user_id)) [
  | inr foreign ↦ rw (foreign, update_monitor_settings) (h, refl)
  | inl own ↦ elim (Option-cases (update_error owned user_id input m)) [
    | inl fine ↦ rw (own, update_monitor_settings) (rw fine (h, refl))
    | inr (e, wrong) ↦ rw (own, update_monitor_settings) (rw wrong (h, refl))
  ]
]

manage_canceled :
    (owned : ℕ → ℕ → Bool) (now : ℕ) (event : Event) (m : MonitorRow)
    → m.status ≡ canceled
    → ((manage owned now event m).status ≡ canceled)
      × ((manage owned now event m).check_count ≡ m.check_count)
unfolding manage
manage_canceled owned now (check evaluate) m h = (h, refl)
manage_canceled owned now (claim server_now) m h =
    unfold claim_monitor_for_check in
    let ended : is_active m.status ≡ false = rw h refl in
    rw (ended, claim_monitor_for_check) (h, refl)
manage_canceled owned now expire m h = unfold expire_overdue in ground arith
manage_canceled owned now (cancel user_id) m h = unfold cancel_monitor in ground arith
manage_canceled owned now (pause user_id true) m h = unfold set_monitor_paused in ground arith
manage_canceled owned now (pause user_id false) m h = unfold set_monitor_paused in ground arith
manage_canceled owned now (extend user_id input) m h =
    let same = extend_canceled user_id input now m h in
    (ap (λ r. r.status) same ∙ h, ap (λ r. r.check_count) same)
manage_canceled owned now (update user_id input) m h = update_canceled owned user_id input now m h

apply_canceled :
    (owned : ℕ → ℕ → Bool) (dispatch : MonitorRow → Bool) (now : ℕ) (event : Event) (m : MonitorRow)
    (es : List Effect)
    → m.status ≡ canceled
    → IsCanceledWith
        (apply owned dispatch now event (record { monitor = some m; effects = es }))
        m.check_count
        es
unfolding apply
apply_canceled owned dispatch now (check evaluate) m es h =
    check_canceled evaluate dispatch now m es h
apply_canceled owned dispatch now event m es h =
    let (s, n) = manage_canceled owned now event m h in (s, n, refl)

-- Once a monitor is canceled it stays canceled along every sequence of checks and operations that
-- follow one another, and there are no more checks that count and nothing is done or reported.
pub run_events_canceled :
    (owned : ℕ → ℕ → Bool) (dispatch : MonitorRow → Bool) (events : List (ℕ × Event)) (w : World)
    (n : ℕ) (es : List Effect)
    → IsCanceledWith w n es
    → IsCanceledWith (run_events owned dispatch events w) n es
unfolding run_events
run_events_canceled owned dispatch [] w n es h = h
run_events_canceled owned dispatch ((now, event) ∷ rest) w n es h =
    run_events_canceled owned dispatch rest (apply owned dispatch now event w) n es
      (step w.monitor w.effects h)
  where
    step :
        (m : Option MonitorRow) (fs : List Effect)
        → IsCanceledWith (record { monitor = m; effects = fs }) n es
        → IsCanceledWith
            (apply owned dispatch now event (record { monitor = m; effects = fs }))
            n
            es
    step none fs h = absurd h
    step (some m) fs (s, c, e) =
        let after = apply owned dispatch now event (record { monitor = some m; effects = fs }) in
        subst (λ k. IsCanceledWith after k es) c
          (subst (λ ds. IsCanceledWith after m.check_count ds) e
            (apply_canceled owned dispatch now event m fs s))

-- A resume that reads a paused monitor writes after a cancel that falls in between, and the monitor
-- is active again and due at once.
pub resume-cancel_undone :
    (user_id now later : ℕ) (m : MonitorRow)
    → m.user_id ≡ user_id
    → m.status ≡ paused
    → let meanwhile = λ (r : MonitorRow). (cancel_monitor user_id now r).0 in
      let after = set_monitor_paused user_id false later meanwhile m in
      ((meanwhile m).status ≡ canceled) × (after.status ≡ active) × (after.next_check_at ≡ later)
unfolding set_monitor_paused cancel_monitor
resume-cancel_undone user_id now later m own p = ground arith
