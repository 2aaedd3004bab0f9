-- ===== src/Runs/Cutting.antt =====
-- The frames of a run's stream, split into blocks again, also where the stream is cut.
use agent_studio.Shared.{All, List, [], ◌∷◌, ◌++◌, Option, ◌≡◌, refl, ap, sym, ◌∙◌, map}
use agent_studio.Shared.Text.{Text}
use agent_studio.Runs.Consumer.{split_blocks}
use agent_studio.Runs.Splitting.{with_blocks, split_blocks-append}
use agent_studio.Runs.Frames.{OneLine, IsName, body, split_blocks-frame}
use agent_studio.Runs.Loose.{loose_body, split_blocks-loose_frame}
use agent_studio.Runs.Stream.{Sent, numbered, loose, name_of_sent, sent_frame, sent_frames}

-- A list whose image is cut in two.
map_cut {ℓ κ} :
    {A : Type ℓ} {B : Type κ} (f : A → B) (es : List A) (xs ys : List B)
    → map f es ≡ xs ++ ys
    → (a : List A) × (b : List A) × (es ≡ a ++ b) × (map f a ≡ xs)
map_cut f es [] ys h = ([], es, refl, refl)
map_cut f [] (x ∷ xs) ys h = absurd (cc h)
map_cut f (e ∷ es) (x ∷ xs) ys h =
    let (a, b, cut, same) = map_cut f es xs ys (cc h) in
    (e ∷ a, b, ap (λ l. e ∷ l) cut, cc (h, same))

module _ {P : Type 0} where
  abbrev pub AreNamedSent : List (Sent P) → Type 0
  AreNamedSent sent = All (λ s. IsName (name_of_sent s)) sent

module _ {P : Type 0} (stringify : P → Text) where
  abbrev pub sent_body : Sent P → Text
  sent_body (numbered e) = body stringify e
  sent_body (loose name payload) = loose_body stringify name payload

  abbrev pub bodies : List (Sent P) → List Text
  bodies sent = map sent_body sent

module _ {P : Type 0} (stringify : P → Text) (parse : Text → Option P)
    (one_line : (p : P) → OneLine (stringify p)) where
  split_blocks-sent_frame :
      (s : Sent P)
      → IsName (name_of_sent s)
      → split_blocks (sent_frame stringify s) ≡ (sent_body stringify s ∷ [], [])
  split_blocks-sent_frame (numbered e) n = split_blocks-frame stringify parse one_line e n
  split_blocks-sent_frame (loose name payload) n =
      split_blocks-loose_frame stringify parse one_line name payload n

  pub split_blocks-sent_frames :
      (sent : List (Sent P))
      → AreNamedSent sent
      → split_blocks (sent_frames stringify sent) ≡ (bodies stringify sent, [])
  split_blocks-sent_frames [] n = unfold split_blocks in refl
  split_blocks-sent_frames (s ∷ sent) n =
      split_blocks-append (sent_frame stringify s) (sent_frames stringify sent)
      ∙ ap
          (λ (p : List Text × Text).
            with_blocks p.0 (split_blocks (p.1 ++ sent_frames stringify sent)))
          (split_blocks-sent_frame s n.0)
      ∙ ap (with_blocks (sent_body stringify s ∷ [])) (split_blocks-sent_frames sent n.1)

  -- What is complete in a stream that is cut anywhere are the blocks of its first frames.
  pub cut_frames :
      (sent : List (Sent P)) (text cut : Text)
      → AreNamedSent sent
      → text ++ cut ≡ sent_frames stringify sent
      → (a : List (Sent P)) × (b : List (Sent P)) × (sent ≡ a ++ b)
        × (bodies stringify a ≡ (split_blocks text).0)
  cut_frames sent text cut n h =
      map_cut (sent_body stringify) sent (split_blocks text).0
        (split_blocks ((split_blocks text).1 ++ cut)).0
        (ap (λ (p : List Text × Text). p.0)
          (sym (split_blocks-sent_frames sent n)
            ∙ ap split_blocks (sym h)
            ∙ split_blocks-append text cut))
