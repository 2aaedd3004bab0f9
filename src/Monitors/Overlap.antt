-- ===== src/Monitors/Overlap.antt =====
-- Two checks of one monitor that overlap: how often its action runs between them.
use agent_studio.Shared.{
  ℕ, ◌+◌, ◌≤◌, Bool, true, false, ◌&&◌, some, List, [], ◌∷◌, ◌++◌, ◌≡◌, refl, arith, leb, ◌==◌,
  Bool-cases, Option-cases, ◌⊎◌, inl, inr,
}
use agent_studio.Monitors.Text.{Text}
use agent_studio.Monitors.Limits.{should_fire}
use agent_studio.Monitors.Run.{
  MonitorStatus, MonitorObservation, MonitorRow, Evaluation, blocked, error, observed, Effect,
  action, lifecycle_review, budget_review, metric_blocked, metric_observed, metric_fired, World,
  superseded, is_active, commit_if_unchanged, expire_check, exhaust_check, blocked_check,
  error_check, error_status, error_row, blocked_row, observed_row, error_effects, observed_check,
  record_observation, conclude, check_row, run_monitor_check,
}
use agent_studio.Monitors.Caps.{actions, actions-append, commit_alone, actions-error_effects}
use agent_studio.Monitors.Races.{is_unmoved, commit-effects, conclude_of_moved}

-- A discarded check, and one that was committed with these effects.
actions-superseded : (w : World) → actions (superseded w).0.effects ≡ actions w.effects
actions-superseded w = elim (Option-cases w.monitor) [
  | inl e ↦ rw (e, superseded) refl
  | inr (row, e) ↦ rw (e, superseded) refl
]

actions-committed :
    (read : MonitorRow) (patch : MonitorRow → MonitorRow) (w committed : World) (es : List Effect)
    → commit_if_unchanged read patch w ≡ some committed
    → actions (committed.effects ++ es) ≡ actions w.effects + actions es
actions-committed read patch w committed es e =
    rw (commit-effects read patch w committed e) (actions-append w.effects es)

blocked_check-le :
    (read : MonitorRow) (now : ℕ) (message : Text) (w : World)
    → actions (blocked_check read now message w).0.effects ≤ actions w.effects + 1
unfolding blocked_check
blocked_check-le read now message w =
    elim (Option-cases (commit_if_unchanged read (blocked_row read now message) w)) [
      | inl e ↦ rw (e, blocked_check) (omega (arith, actions-superseded w))
      | inr (committed, e) ↦
          rw (e, blocked_check)
            (omega (
              arith,
              actions-committed read (blocked_row read now message) w committed
                  (budget_review ∷ metric_blocked ∷ []) e,
            ))
    ]

error_check-le :
    (read : MonitorRow) (now : ℕ) (message : Text) (w : World)
    → actions (error_check read now message w).0.effects ≤ actions w.effects + 1
unfolding error_check
error_check-le read now message w =
    elim (Option-cases (commit_if_unchanged read (error_row read now message) w)) [
      | inl e ↦ rw (e, error_check) (omega (arith, actions-superseded w))
      | inr (committed, e) ↦
          rw (e, error_check)
            (omega (
              arith,
              actions-error_effects (error_status read),
              actions-committed read (error_row read now message) w committed
                  (error_effects (error_status read)) e,
            ))
    ]

record_observation-le :
    (dispatch : MonitorRow → Bool) (read : MonitorRow) (now : ℕ) (o : MonitorObservation)
    (met fire : Bool) (w : World)
    → actions (record_observation dispatch read now o met fire w).0.effects ≤ actions w.effects + 1
unfolding record_observation
record_observation-le dispatch read now o met true w =
    let fired_monitor = record read {
      fire_count = read.fire_count + 1;
      last_observation = some o;
    } in
    elim (Option-cases (commit_if_unchanged read (observed_row read now o met true) w)) [
      | inl e ↦ rw (e, record_observation) (omega (arith, actions-superseded w))
      | inr (committed, e) ↦
          rw (e, record_observation)
            (omega (
              arith,
              actions-append (committed.effects ++ metric_fired ∷ []) (action fired_monitor o ∷ []),
              actions-committed read (observed_row read now o met true) w committed
                  (metric_fired ∷ []) e,
            ))
    ]
record_observation-le dispatch read now o met false w =
    elim (Option-cases (commit_if_unchanged read (observed_row read now o met false) w)) [
      | inl e ↦ rw (e, record_observation) (omega (arith, actions-superseded w))
      | inr (committed, e) ↦
          rw (e, record_observation)
            (omega (
              arith,
              actions-committed read (observed_row read now o met false) w committed
                  (metric_observed ∷ []) e,
            ))
    ]

-- One conclusion runs the action at most once.
actions-conclude-le :
    (dispatch : MonitorRow → Bool) (read : MonitorRow) (now : ℕ) (e : Evaluation) (w : World)
    → actions (conclude dispatch read now e w).0.effects ≤ actions w.effects + 1
unfolding conclude
actions-conclude-le dispatch read now (blocked message) w = blocked_check-le read now message w
actions-conclude-le dispatch read now (error message) w = error_check-le read now message w
actions-conclude-le dispatch read now (observed o met) w =
    unfold observed_check in
    record_observation-le dispatch read now o met (should_fire met read.condition_met) w

counted : (b : Bool) (n : ℕ) → (b && n + 1 == n) ≡ false
counted b n = ground arith

-- Concluding on the row as it was read leaves it moved, or runs no action.
own_conclude :
    (dispatch : MonitorRow → Bool) (row : MonitorRow) (now : ℕ) (e : Evaluation) (es : List Effect)
    → is_active row.status ≡ true
    → let v = (conclude dispatch row now e (record { monitor = some row; effects = es })).0 in
      (actions v.effects ≡ actions es) ⊎ (is_unmoved row v ≡ false)
unfolding conclude
own_conclude dispatch row now (blocked message) es a =
    unfold blocked_check in
    rw (commit_alone row _ es a, blocked_check)
      (inl (omega (arith, actions-append es (budget_review ∷ metric_blocked ∷ []))))
own_conclude dispatch row now (error message) es a =
    unfold error_check in
    rw (commit_alone row _ es a, error_check)
      (inl (
        omega (
          arith,
          actions-append es (error_effects (error_status row)),
          actions-error_effects (error_status row),
        )))
own_conclude dispatch row now (observed o met) es a =
    unfold observed_check record_observation in
    rw (commit_alone row _ es a, record_observation)
      (elim (Bool-cases (should_fire met row.condition_met)) [
        | inl fire ↦ rw fire (inr (counted _ row.check_count))
        | inr still ↦ rw still (inl (omega (arith, actions-append es (metric_observed ∷ []))))
      ])

-- A check of an active row does at once what it does on its own row: it runs no action, or one and
-- the row is moved.
own_check :
    (evaluate : MonitorRow → ℕ → Evaluation) (dispatch : MonitorRow → Bool) (now : ℕ)
    (row : MonitorRow) (es : List Effect)
    → is_active row.status ≡ true
    → let w : World = record { monitor = some row; effects = es } in
      let v = (check_row evaluate dispatch (λ u. u) now row w).0 in
      (actions v.effects ≡ actions es)
      ⊎ ((actions v.effects ≤ actions es + 1) × (is_unmoved row v ≡ false))
unfolding check_row
own_check evaluate dispatch now row es a = elim (Bool-cases (leb row.deadline_at now)) [
  | inl late ↦
      rw (a, check_row)
        (rw late (unfold expire_check in rw (commit_alone row _ es a, expire_check) (inl refl)))
  | inr early ↦ elim (Bool-cases (leb row.max_checks row.check_count)) [
    | inl spent ↦
        rw (a, check_row)
          (rw early (
            rw spent (
              unfold exhaust_check in
              rw (commit_alone row _ es a, exhaust_check)
                (inl (
                  omega
                    (arith, actions-append es (lifecycle_review MonitorStatus.exhausted ∷ [])))))))
    | inr left ↦
        rw (a, check_row)
          (rw early (
            rw left (elim (own_conclude dispatch row now (evaluate row now) es a) [
              | inl same ↦ inl same
              | inr moved ↦ inr (
                actions-conclude-le dispatch row now (evaluate row now)
                    (record { monitor = some row; effects = es }),
                moved,
              )
            ])))
  ]
]

-- A conclusion after the other check of the same row.
conclude_after-le :
    (dispatch : MonitorRow → Bool) (row : MonitorRow) (now : ℕ) (e : Evaluation) (v : World) (n : ℕ)
    → (actions v.effects ≡ n) ⊎ ((actions v.effects ≤ n + 1) × (is_unmoved row v ≡ false))
    → actions (conclude dispatch row now e v).0.effects ≤ n + 1
conclude_after-le dispatch row now e v n (inl same) =
    omega (arith, actions-conclude-le dispatch row now e v)
conclude_after-le dispatch row now e v n (inr (le, moved)) =
    rw (conclude_of_moved dispatch row now e v moved) (omega (arith, actions-superseded v))

-- A check that is not over before it evaluates.
check_row_of_open :
    (evaluate : MonitorRow → ℕ → Evaluation) (dispatch : MonitorRow → Bool)
    (meanwhile : World → World) (now : ℕ) (row : MonitorRow) (w : World)
    → is_active row.status ≡ true
    → leb row.deadline_at now ≡ false
    → leb row.max_checks row.check_count ≡ false
    → check_row evaluate dispatch meanwhile now row w
      ≡ conclude dispatch row now (evaluate row now) (meanwhile w)
unfolding check_row
check_row_of_open evaluate dispatch meanwhile now row w a d b = rw (a, check_row) (rw d (rw b refl))

-- Two checks of one monitor that overlap, so that the second runs as a whole while the first
-- evaluates, run its action at most once between them, whatever the two evaluate to.
pub overlapping_checks :
    (evaluate_a evaluate_b : MonitorRow → ℕ → Evaluation) (dispatch : MonitorRow → Bool)
    (now_a now_b : ℕ) (row : MonitorRow) (es : List Effect)
    → let meanwhile = λ (v : World). (run_monitor_check evaluate_b dispatch (λ u. u) now_b v).0 in
      actions
        (run_monitor_check evaluate_a dispatch meanwhile now_a
          (record { monitor = some row; effects = es })).0.effects
      ≤ actions es + 1
unfolding run_monitor_check
overlapping_checks evaluate_a evaluate_b dispatch now_a now_b row es =
    elim (Bool-cases (is_active row.status)) [
      | inr ended ↦ unfold check_row in rw (ended, check_row) (omega arith)
      | inl a ↦ elim (Bool-cases (leb row.deadline_at now_a)) [
        | inl late ↦
            unfold check_row in
            rw (a, check_row)
              (rw late
                (unfold expire_check in rw (commit_alone row _ es a, expire_check) (omega arith)))
        | inr early ↦ elim (Bool-cases (leb row.max_checks row.check_count)) [
          | inl spent ↦
              unfold check_row in
              rw (a, check_row)
                (rw early (
                  rw spent (
                    unfold exhaust_check in
                    rw (commit_alone row _ es a, exhaust_check)
                      (omega (
                        arith,
                        actions-append es (lifecycle_review MonitorStatus.exhausted ∷ []),
                      )))))
          | inr left ↦ rw (check_row_of_open evaluate_a dispatch _ now_a row _ a early left) (
              conclude_after-le dispatch row now_a (evaluate_a row now_a) _ (actions es)
                (own_check evaluate_b dispatch now_b row es a))
        ]
      ]
    ]
