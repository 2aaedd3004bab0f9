-- ===== src/Chat/Displaying.antt =====
-- The messages on the page, and drafts that the database has.
use agent_studio.Shared.{
  ℕ, Bool, not, List, [], ◌∷◌, ◌≡◌, refl, ap, any, filter, Bool-cases, inl, inr,
}
use agent_studio.Chat.Drafts.{
  Message, Pending, unconfirmed_users, confirms_user, build_displayed_messages, keeps_draft,
  reconcile_pending_drafts,
}

filter_again : {A : Type 0} (p : A → Bool) (xs : List A) → filter p (filter p xs) ≡ filter p xs
filter_again p [] = refl
filter_again p (x ∷ xs) = elim (Bool-cases (p x)) [
  | inl kept ↦ rw kept (rw kept (ap (λ ys. x ∷ ys) (filter_again p xs)))
  | inr dropped ↦ rw dropped (filter_again p xs)
]

-- When the page drops the drafts that the database has, it shows the user's drafts as before, and of
-- the assistant's drafts it shows exactly those that stay.
pub reconcile_pending_drafts_shown :
    (remote : List Message) (users assistants : List Pending) (now : ℕ)
    → let kept = reconcile_pending_drafts assistants users remote now in
      (unconfirmed_users remote kept.1 ≡ unconfirmed_users remote users)
      × (build_displayed_messages remote users kept.0
          ≡ build_displayed_messages remote kept.1 kept.0)
      × (reconcile_pending_drafts kept.0 kept.1 remote now ≡ kept)
unfolding reconcile_pending_drafts build_displayed_messages
reconcile_pending_drafts_shown remote users assistants now =
    let u = filter_again (λ draft. not (any (confirms_user draft) remote)) users in
    let a = filter_again (keeps_draft remote now) assistants in (u, rw u refl, rw (a, u) refl)
