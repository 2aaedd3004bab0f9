-- ===== src/Runs/Stream.antt =====
-- The stream of a run, from the frames that src/lib/runtime/sse-codec.ts writes to the events that
-- src/lib/chat/sse-consumer.ts yields, over readers that are cut short and resumed.
use agent_studio.Shared.{
  ℕ, ◌<◌, ◌≤◌, Bool, true, false, List, [], ◌∷◌, ◌++◌, Option, none, some, is_some, ◌≡◌, refl, ap,
  sym, ◌∙◌, arith, ltb, filter, All, map, if◌then◌else◌,
}
use agent_studio.Shared.Text.{Text}
use agent_studio.Runs.Codec.{Event}
use agent_studio.Runs.Consumer.{SseEvent, Consumed, Reader}
use agent_studio.Runs.Splitting.{joined}
use agent_studio.Runs.Frames.{IsName, frame}
use agent_studio.Runs.Loose.{loose_frame}

module _ {P : Type 0} where
  -- Sequence numbers that grow, from the one after `since`.
  abbrev pub Follows : ℕ → List (Event P) → Type 0
  Follows since [] = Unit
  Follows since (e ∷ es) = (since < e.seq) × Follows e.seq es

  abbrev pub last_of : ℕ → List (Event P) → ℕ
  last_of since [] = since
  last_of since (e ∷ es) = last_of e.seq es

  abbrev pub AreNamed : List (Event P) → Type 0
  AreNamed es = All (λ e. IsName e.name) es

  -- What the server has past a sequence number.
  abbrev pub newer : ℕ → List (Event P) → List (Event P)
  newer since es = filter (λ e. ltb since e.seq) es

  abbrev pub received : Event P → SseEvent P
  received e = record { id = some e.seq; event = e.name; payload = e.payload }

  pub last_of_grows :
      (since : ℕ) (es rest : List (Event P)) → Follows since (es ++ rest) → since ≤ last_of since es
  last_of_grows since [] rest h = omega arith
  last_of_grows since (e ∷ es) rest h = omega (arith, h.0, last_of_grows e.seq es rest h.1)

  pub newer_all :
      (m since : ℕ) (es : List (Event P)) → m ≤ since → Follows since es → newer m es ≡ es
  newer_all m since [] le h = refl
  newer_all m since (e ∷ es) le h = ground (arith, h.0, newer_all m e.seq es)

  -- Past what was seen last the server has exactly the rest.
  pub newer_rest :
      (since : ℕ) (es rest : List (Event P))
      → Follows since (es ++ rest)
      → newer (last_of since es) (es ++ rest) ≡ rest
  newer_rest since [] rest h = newer_all since since rest (omega arith) h
  newer_rest since (e ∷ es) rest h =
      ground (arith, last_of_grows e.seq es rest h.1, newer_rest e.seq es rest h.1)

  pub Follows-rest :
      (since : ℕ) (es rest : List (Event P))
      → Follows since (es ++ rest)
      → Follows (last_of since es) rest
  Follows-rest since [] rest h = h
  Follows-rest since (e ∷ es) rest h = Follows-rest e.seq es rest h.1

  pub last_of-append :
      (since : ℕ) (a b : List (Event P)) → last_of since (a ++ b) ≡ last_of (last_of since a) b
  last_of-append since [] b = refl
  last_of-append since (e ∷ a) b = last_of-append e.seq a b

module _ {P : Type 0} (stringify : P → Text) where
  abbrev pub frames : List (Event P) → Text
  frames es = joined (map (frame stringify) es)

  -- A reader of the events past some number, cut anywhere.
  abbrev pub Delivers : List (Event P) → ℕ → Reader Text → Type 0
  Delivers run since reader =
      (cut : Text) × (joined reader.chunks ++ cut ≡ frames (newer since run))

-- A frame of a stream: an event of the run, or one that is not stored and has no number.
pub data Sent (P : Type 0) : Type 0 where
  numbered : Event P → Sent P
  loose : Text → P → Sent P

module _ {P : Type 0} where
  abbrev pub name_of_sent : Sent P → Text
  name_of_sent (numbered e) = e.name
  name_of_sent (loose name payload) = name

  -- The events of the run among the frames.
  abbrev pub events_of : List (Sent P) → List (Event P)
  events_of [] = []
  events_of (numbered e ∷ sent) = e ∷ events_of sent
  events_of (loose name payload ∷ sent) = events_of sent

  abbrev pub received_sent : Sent P → SseEvent P
  received_sent (numbered e) = received e
  received_sent (loose name payload) = record { id = none; event = name; payload = payload }

  abbrev pub is_numbered : SseEvent P → Bool
  is_numbered e = is_some e.id

  -- The events of the run among those that are yielded.
  abbrev pub of_run : List (SseEvent P) → List (SseEvent P)
  of_run es = filter is_numbered es

  pub of_run-received_sent :
      (sent : List (Sent P)) → of_run (map received_sent sent) ≡ map received (events_of sent)
  of_run-received_sent [] = refl
  of_run-received_sent (numbered e ∷ sent) = ap (λ l. received e ∷ l) (of_run-received_sent sent)
  of_run-received_sent (loose name payload ∷ sent) = of_run-received_sent sent

  if_cons :
      (t : Bool) (x : SseEvent P) (xs ys : List (SseEvent P))
      → (if t then x ∷ (xs ++ ys) else (xs ++ ys)) ≡ (if t then x ∷ xs else xs) ++ ys
  if_cons true x xs ys = refl
  if_cons false x xs ys = refl

  pub of_run-append : (a b : List (SseEvent P)) → of_run (a ++ b) ≡ of_run a ++ of_run b
  of_run-append [] b = refl
  of_run-append (e ∷ a) b = rw (of_run-append a b) (if_cons (is_numbered e) e (of_run a) (of_run b))

  pub events_of-append : (a b : List (Sent P)) → events_of (a ++ b) ≡ events_of a ++ events_of b
  events_of-append [] b = refl
  events_of-append (numbered e ∷ a) b = ap (λ l. e ∷ l) (events_of-append a b)
  events_of-append (loose name payload ∷ a) b = events_of-append a b

module _ {P : Type 0} (stringify : P → Text) where
  abbrev pub sent_frame : Sent P → Text
  sent_frame (numbered e) = frame stringify e
  sent_frame (loose name payload) = loose_frame stringify name payload

  abbrev pub sent_frames : List (Sent P) → Text
  sent_frames sent = joined (map sent_frame sent)

  -- Texts that bring the events past some number in order, with frames that have no number between
  -- them, up to some point, also inside a frame.
  abbrev pub Brings : List (Event P) → ℕ → List Text → Type 0
  Brings run since texts =
      (sent : List (Sent P)) × (cut : Text) × All (λ s. IsName (name_of_sent s)) sent
      × (events_of sent ≡ newer since run)
      × (joined texts ++ cut ≡ sent_frames sent)

  -- Texts that bring all of them.
  abbrev pub BringsAll : List (Event P) → ℕ → List Text → Type 0
  BringsAll run since texts =
      (sent : List (Sent P)) × All (λ s. IsName (name_of_sent s)) sent
      × (events_of sent ≡ newer since run)
      × (joined texts ≡ sent_frames sent)

  events_of-numbered : (es : List (Event P)) → events_of (map numbered es) ≡ es
  events_of-numbered [] = refl
  events_of-numbered (e ∷ es) = ap (λ l. e ∷ l) (events_of-numbered es)

  numbered-AreNamed :
      (es : List (Event P)) → AreNamed es → All (λ s. IsName (name_of_sent s)) (map numbered es)
  numbered-AreNamed [] n = tt
  numbered-AreNamed (e ∷ es) n = (n.0, numbered-AreNamed es n.1)

  sent_frames-numbered : (es : List (Event P)) → sent_frames (map numbered es) ≡ frames stringify es
  sent_frames-numbered [] = refl
  sent_frames-numbered (e ∷ es) = ap (λ t. frame stringify e ++ t) (sent_frames-numbered es)

  -- The frames that the replay writes, with numbers on every one, are such a text.
  pub Delivers-Brings :
      (run : List (Event P)) (since : ℕ) (texts : List Text)
      → AreNamed (newer since run)
      → (cut : Text) × (joined texts ++ cut ≡ frames stringify (newer since run))
      → Brings run since texts
  Delivers-Brings run since texts n (cut, e) =
      let es = newer since run in
      (
        map numbered es,
        cut,
        numbered-AreNamed es n,
        events_of-numbered es,
        e ∙ sym (sent_frames-numbered es),
      )

  pub Delivers-BringsAll :
      (run : List (Event P)) (since : ℕ) (texts : List Text)
      → AreNamed (newer since run)
      → joined texts ≡ frames stringify (newer since run)
      → BringsAll run since texts
  Delivers-BringsAll run since texts n e =
      let es = newer since run in
      (
        map numbered es,
        numbered-AreNamed es n,
        events_of-numbered es,
        e ∙ sym (sent_frames-numbered es),
      )

module _ {P : Type 0} (parse : Text → Option P) where
  -- The consumer has the first events of the run, each once, and no other of the run.
  abbrev pub IsUpTo : List (Event P) → Consumed parse → Type 0
  IsUpTo run st =
      (sent : List (Event P)) × (left : List (Event P)) × (run ≡ sent ++ left)
      × (of_run st.yielded ≡ map received sent)
      × (st.last_seen ≡ last_of 0 sent)

pub All-front {ℓ κ} : {A : Type ℓ} (Q : A → Type κ) (a b : List A) → All Q (a ++ b) → All Q a
All-front Q [] b h = tt
All-front Q (x ∷ a) b h = (h.0, All-front Q a b h.1)

pub All-back {ℓ κ} : {A : Type ℓ} (Q : A → Type κ) (a b : List A) → All Q (a ++ b) → All Q b
All-back Q [] b h = h
All-back Q (x ∷ a) b h = All-back Q a b h.1
