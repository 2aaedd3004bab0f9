-- ===== src/Runs/Reading.antt =====
-- What the consumer of src/lib/chat/sse-consumer.ts takes from one reader of a run's events.
use agent_studio.Shared.{
  ℕ, Bool, false, List, [], ◌∷◌, ◌++◌, Option, some, ◌≡◌, refl, ap, sym, subst, ◌∙◌, inl, inr,
  Bool-cases, map,
}
use agent_studio.Shared.Text.{Text}
use mathlib.Core.List.{append_assoc, append-nil, map-append}
use agent_studio.Runs.Codec.{Event}
use agent_studio.Runs.Consumer.{
  split_blocks, parse_sse_event, Consumed, yield_event, polled, take_blocks, read_chunks,
}
use agent_studio.Runs.Splitting.{
  joined, read_chunks_whole, take_blocks_step, take_blocks_stop, yield_event-stopped,
}
use agent_studio.Runs.Frames.{OneLine, IsName, body, parse_sse_event-body}
use agent_studio.Runs.Loose.{loose_body, parse_sse_event-loose_body}
use agent_studio.Runs.Stream.{
  All-front, Brings, BringsAll, Follows, Follows-rest, IsUpTo, Sent, numbered, loose, events_of,
  events_of-append, last_of, last_of-append, name_of_sent, newer, newer_rest, of_run, of_run-append,
  of_run-received_sent, received, received_sent,
}
use agent_studio.Runs.Cutting.{
  AreNamedSent, sent_body, bodies, split_blocks-sent_frames, cut_frames,
}

module _ {P : Type 0} (stringify : P → Text) (parse : Text → Option P)
    (one_line : (p : P) → OneLine (stringify p)) (back : (p : P) → parse (stringify p) ≡ some p)
    (should_stop : ℕ → Bool) where
  -- What a consumer has after some frames: those, and the last number among them.
  abbrev Took : Consumed parse → List (Sent P) → Consumed parse → Type 0
  Took st sent st' =
      (st'.yielded ≡ st.yielded ++ map received_sent sent)
      × (st'.last_seen ≡ last_of st.last_seen (events_of sent))

  -- Some of the frames, from the first on, are taken; all of them, unless it is asked to stop.
  abbrev Progress : Consumed parse → List (Sent P) → Consumed parse → Type 0
  Progress st sent st' =
      (a : List (Sent P)) × (b : List (Sent P)) × (sent ≡ a ++ b)
      × Took st a st'
      × (st'.stopped ≡ false → b ≡ [])

  abbrev taken : Consumed parse → Sent P → Consumed parse
  taken st s = yield_event parse (polled parse should_stop st) (some (received_sent s))

  take_body :
      (s : Sent P) (sent : List (Sent P)) (st : Consumed parse)
      → IsName (name_of_sent s)
      → Follows st.last_seen (events_of (s ∷ sent))
      → should_stop st.polls ≡ false
      → take_blocks parse should_stop (bodies stringify (s ∷ sent)) st
        ≡ take_blocks parse should_stop (bodies stringify sent) (taken st s)
  take_body (numbered e) sent st n f go =
      take_blocks_step parse should_stop (body stringify e) (bodies stringify sent) st go
      ∙ ap
          (λ o.
            take_blocks parse should_stop (bodies stringify sent)
              (yield_event parse (polled parse should_stop st) o))
          (parse_sse_event-body stringify parse one_line e st.last_seen n (back e.payload) f.0)
  take_body (loose name payload) sent st n f go =
      take_blocks_step parse should_stop (loose_body stringify name payload) (bodies stringify sent)
        st go
      ∙ ap
          (λ o.
            take_blocks parse should_stop (bodies stringify sent)
              (yield_event parse (polled parse should_stop st) o))
          (parse_sse_event-loose_body stringify parse one_line name payload st.last_seen n
            (back payload))

  last_seen_taken :
      (st : Consumed parse) (s : Sent P) (sent : List (Sent P))
      → last_of (taken st s).last_seen (events_of sent)
        ≡ last_of st.last_seen (events_of (s ∷ sent))
  last_seen_taken st (numbered e) sent = refl
  last_seen_taken st (loose name payload) sent = refl

  Follows-taken :
      (st : Consumed parse) (s : Sent P) (sent : List (Sent P))
      → Follows st.last_seen (events_of (s ∷ sent))
      → Follows (taken st s).last_seen (events_of sent)
  Follows-taken st (numbered e) sent f = f.1
  Follows-taken st (loose name payload) sent f = f

  take_bodies :
      (sent : List (Sent P)) (st : Consumed parse)
      → AreNamedSent sent
      → Follows st.last_seen (events_of sent)
      → st.stopped ≡ false
      → Progress st sent (take_blocks parse should_stop (bodies stringify sent) st)
  take_bodies [] st n f h =
      unfold take_blocks in ([], [], refl, (sym (append-nil st.yielded), refl), λ _. refl)
  take_bodies (s ∷ sent) st n f h = elim (Bool-cases (should_stop st.polls)) [
    | inl stop ↦
        subst (Progress st (s ∷ sent))
          (sym (
            take_blocks_stop parse should_stop (sent_body stringify s) (bodies stringify sent) st
              stop))
          ([], s ∷ sent, refl, (sym (append-nil st.yielded), refl), λ c. cc c)
    | inr go ↦
        let (a, b, cut, (ys, last), whole) =
          take_bodies sent (taken st s) n.1 (Follows-taken st s sent f) h in
        subst (Progress st (s ∷ sent)) (sym (take_body s sent st n.0 f go)) (
          s ∷ a,
          b,
          ap (λ l. s ∷ l) cut,
          (
            ys ∙ append_assoc st.yielded (received_sent s ∷ []) (map received_sent a),
            last ∙ last_seen_taken st s a,
          ),
          whole,
        )
  ]

  Follows-front : (since : ℕ) (a b : List (Event P)) → Follows since (a ++ b) → Follows since a
  Follows-front since [] b f = tt
  Follows-front since (e ∷ a) b f = (f.0, Follows-front e.seq a b f.1)

  abbrev pub after_chunks : List Text → Consumed parse → Consumed parse
  after_chunks texts st = read_chunks parse should_stop texts [] st

  pub read_events :
      (texts : List Text) (sent : List (Sent P)) (st : Consumed parse)
      → bodies stringify sent ≡ (split_blocks (joined texts)).0
      → AreNamedSent sent
      → Follows st.last_seen (events_of sent)
      → st.stopped ≡ false
      → Progress st sent (after_chunks texts st)
  read_events texts sent st e n f h =
      subst (Progress st sent)
        (sym (
          read_chunks_whole parse should_stop texts [] st h (unfold split_blocks in refl)
          ∙ ap (λ bs. take_blocks parse should_stop bs st) (sym e)))
        (take_bodies sent st n f h)

  pub newer_left :
      (run sent left : List (Event P)) (since : ℕ)
      → Follows 0 run
      → run ≡ sent ++ left
      → since ≡ last_of 0 sent
      → (newer since run ≡ left) × Follows since left
  newer_left run sent left since f whole last =
      let f' = subst (Follows 0) whole f in
      rw (last, whole) (newer_rest 0 sent left f', Follows-rest 0 sent left f')

  -- The events of the run that are yielded, with the frames that were taken.
  of_run-Took :
      (st st' : Consumed parse) (sent : List (Event P)) (a : List (Sent P))
      → of_run st.yielded ≡ map received sent
      → Took st a st'
      → of_run st'.yielded ≡ map received (sent ++ events_of a)
  of_run-Took st st' sent a ys (ys', _) =
      ap of_run ys'
      ∙ of_run-append st.yielded (map received_sent a)
      ∙ ap (λ l. l ++ of_run (map received_sent a)) ys
      ∙ ap (λ l. map received sent ++ l) (of_run-received_sent a)
      ∙ sym (map-append received sent (events_of a))

  more_sent :
      (run sent left : List (Event P)) (a b : List (Sent P)) (st st' : Consumed parse)
      → run ≡ sent ++ left
      → left ≡ events_of a ++ events_of b
      → of_run st.yielded ≡ map received sent
      → st.last_seen ≡ last_of 0 sent
      → Took st a st'
      → IsUpTo parse run st'
  more_sent run sent left a b st st' whole cut ys last took = (
    sent ++ events_of a,
    events_of b,
    whole ∙ ap (λ l. sent ++ l) cut ∙ sym (append_assoc sent (events_of a) (events_of b)),
    of_run-Took st st' sent a ys took,
    took.1 ∙ ap (λ k. last_of k (events_of a)) last ∙ sym (last_of-append 0 sent (events_of a)),
  )

  pub read_reader :
      (run : List (Event P)) (texts : List Text) (st : Consumed parse)
      → Follows 0 run
      → Brings stringify run st.last_seen texts
      → st.stopped ≡ false
      → IsUpTo parse run st
      → IsUpTo parse run (after_chunks texts st)
  read_reader run texts st f (items, cut, named, events, e) h (sent, left, whole, ys, last) =
      let (rest, later) = newer_left run sent left st.last_seen f whole last in
      let (a, b, parts, same) =
        cut_frames stringify parse one_line items (joined texts) cut named e in
      let later' : Follows st.last_seen (events_of a ++ events_of b) =
        subst (Follows st.last_seen)
          (sym rest ∙ sym events ∙ ap events_of parts ∙ events_of-append a b) later in
      let (a', b', parts', took, _) =
        read_events texts a st same (All-front _ a b (subst AreNamedSent parts named))
          (Follows-front st.last_seen (events_of a) (events_of b) later') h in
      more_sent run sent left a' (b' ++ b) st (after_chunks texts st) whole
        (sym rest
          ∙ sym events
          ∙ ap events_of (parts ∙ ap (λ l. l ++ b) parts' ∙ append_assoc a' b' b)
          ∙ events_of-append a' (b' ++ b))
        ys last took

  module _ (never : (k : ℕ) → should_stop k ≡ false) where
    take_blocks_going :
        (blocks : List Text) (st : Consumed parse)
        → (take_blocks parse should_stop blocks st).stopped ≡ st.stopped
    take_blocks_going [] st = unfold take_blocks in refl
    take_blocks_going (raw ∷ blocks) st =
        ap (λ (x : Consumed parse). x.stopped)
          (take_blocks_step parse should_stop raw blocks st (never st.polls))
        ∙ take_blocks_going blocks _
        ∙ yield_event-stopped parse should_stop (parse_sse_event parse raw st.last_seen)
            (polled parse should_stop st)

    pub read_going :
        (texts : List Text) (st : Consumed parse)
        → st.stopped ≡ false
        → (after_chunks texts st).stopped ≡ false
    read_going texts st h =
        ap (λ (x : Consumed parse). x.stopped)
          (read_chunks_whole parse should_stop texts [] st h (unfold split_blocks in refl))
        ∙ take_blocks_going (split_blocks (joined texts)).0 st
        ∙ h

    -- A reader that is not cut gives all that was left.
    pub read_whole :
        (run : List (Event P)) (texts : List Text) (st : Consumed parse)
        → Follows 0 run
        → BringsAll stringify run st.last_seen texts
        → st.stopped ≡ false
        → IsUpTo parse run st
        → of_run (after_chunks texts st).yielded ≡ map received run
    read_whole run texts st f (items, named, events, e) h (sent, left, whole, ys, last) =
        let (rest, later) = newer_left run sent left st.last_seen f whole last in
        let blocks =
          ap (λ (p : List Text × Text). p.0)
            (ap split_blocks e ∙ split_blocks-sent_frames stringify parse one_line items named) in
        let (a, b, parts, took, all) =
          read_events texts items st (sym blocks) named
            (subst (Follows st.last_seen) (sym (events ∙ rest)) later) h in
        let a_items = parts ∙ ap (λ l. a ++ l) (all (read_going texts st h)) ∙ append-nil a in
        of_run-Took st (after_chunks texts st) sent a ys took
        ∙ ap (λ l. map received (sent ++ l)) (ap events_of (sym a_items) ∙ events ∙ rest)
        ∙ ap (map received) (sym whole)
