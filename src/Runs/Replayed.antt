-- ===== src/Runs/Replayed.antt =====
-- src/lib/runs/run-replay-stream.ts gives the consumer what it relies on.
use agent_studio.Shared.{
  ℕ, ◌≤◌, Bool, true, false, List, [], ◌∷◌, ◌++◌, Option, none, some, ◌≡◌, refl, ap, sym, subst,
  ◌∙◌, inl, inr, Bool-cases, arith, ltb, ltb→lt, All, map,
}
use agent_studio.Shared.Text.{Text}
use mathlib.Core.List.{append_assoc, append-nil, map-append}
use agent_studio.Runs.Codec.{Event}
use agent_studio.Runs.Consumer.{ReaderEnd}
use agent_studio.Runs.Frames.{frame}
use agent_studio.Runs.Splitting.{joined}
use agent_studio.Runs.Stream.{
  Follows, last_of_grows, newer, last_of, newer_all, newer_rest, frames, Delivers,
}
use agent_studio.Runs.Replay.{
  Round, StreamEnd, forward, drain, round_end, after_query, follow, last_seq, after_replay,
  create_run_replay_stream,
}

joined-append : (a b : List Text) → joined (a ++ b) ≡ joined a ++ joined b
joined-append [] b = refl
joined-append (t ∷ a) b =
    ap (λ r. t ++ r) (joined-append a b) ∙ sym (append_assoc t (joined a) (joined b))

below : (a b : ℕ) → ltb a b ≡ true → a ≤ b
below a b h = ground arith

module _ {P : Type 0} where
  last_seq-last_of : (last : ℕ) (es : List (Event P)) → last_seq last es ≡ last_of last es
  last_seq-last_of last [] = refl
  last_seq-last_of last (e ∷ es) = last_seq-last_of e.seq es

  newer-newer : (a b : ℕ) (es : List (Event P)) → a ≤ b → newer b (newer a es) ≡ newer b es
  newer-newer a b [] h = refl
  newer-newer a b (e ∷ es) h = ground (arith, newer-newer a b es)

  newer-Follows : (k a : ℕ) (es : List (Event P)) → Follows k es → Follows a (newer a es)
  newer-Follows k a [] f = tt
  newer-Follows k a (e ∷ es) f = elim (Bool-cases (ltb a e.seq)) [
    | inl later ↦ rw later (
      ltb→lt a e.seq later,
      subst (Follows e.seq) (sym (newer_all a e.seq es (below a e.seq later) f.1)) f.1,
    )
    | inr seen ↦ rw seen (newer-Follows e.seq a es f.1)
  ]

  -- Past what a query gave, the run has the rest.
  newer_past :
      (run es more : List (Event P)) (since : ℕ)
      → Follows 0 run
      → newer since run ≡ es ++ more
      → newer (last_seq since es) run ≡ more
  newer_past run es more since f e =
      let f' = subst (Follows since) e (newer-Follows 0 since run f) in
      rw (last_seq-last_of since es) (
        sym (newer-newer since (last_of since es) run (last_of_grows since es more f'))
        ∙ ap (newer (last_of since es)) e
        ∙ newer_rest since es more f')

module _ {P : Type 0} (stringify : P → Text) (run : List (Event P)) (ordered : Follows 0 run) where
  -- A query of the events past a number gives the first of them, those that are stored by then.
  abbrev pub Reads : (ℕ → Option (List (Event P))) → Type 0
  Reads query =
      (last : ℕ) (es : List (Event P))
      → query last ≡ some es
      → (more : List (Event P)) × (newer last run ≡ es ++ more)

  -- Chunks that are the start of what the run has past a number.
  abbrev IsStart : List Text → ℕ → Type 0
  IsStart chunks last = (cut : Text) × (joined chunks ++ cut ≡ frames stringify (newer last run))

  nothing_sent : (last : ℕ) → IsStart [] last
  nothing_sent last = (frames stringify (newer last run), refl)

  -- What a query may answer at a number.
  abbrev pub ReadAt : ℕ → Option (List (Event P)) → Type 0
  ReadAt last answer =
      (es : List (Event P))
      → answer ≡ some es
      → (more : List (Event P)) × (newer last run ≡ es ++ more)

  forward_then :
      (es more : List (Event P)) (last : ℕ) (chunks : List Text)
      → newer last run ≡ es ++ more
      → IsStart chunks (last_seq last es)
      → IsStart (forward stringify true es ++ chunks) last
  unfolding forward
  forward_then es more last chunks e (cut, sent) =
      let now = map (frame stringify) es in
      (
        cut,
        ap (λ t. t ++ cut) (joined-append now chunks)
            ∙ append_assoc (joined now) (joined chunks) cut
            ∙ ap (λ t. joined now ++ t)
                (sent ∙ ap (frames stringify) (newer_past run es more last ordered e))
            ∙ sym (joined-append now (map (frame stringify) more))
            ∙ sym (ap joined (map-append (frame stringify) es more))
            ∙ sym (ap (frames stringify) e),
      )

  drain-IsStart :
      (there connected : Bool) (answer : Option (List (Event P))) (last : ℕ)
      → ReadAt last answer
      → IsStart (drain stringify there connected answer).0 last
  unfolding forward
  drain-IsStart false connected answer last h = nothing_sent last
  drain-IsStart true connected none last h = nothing_sent last
  drain-IsStart true false (some es) last h = nothing_sent last
  drain-IsStart true true (some es) last h =
      let (more, e) = h es refl in
      subst (λ chunks. IsStart chunks last) (append-nil (map (frame stringify) es))
        (forward_then es more last [] e (nothing_sent (last_seq last es)))

  round_end-IsStart :
      (active : Option Bool) (connected : Bool) (later drained : List Text × StreamEnd) (last : ℕ)
      → IsStart later.0 last
      → IsStart drained.0 last
      → IsStart (round_end active connected later drained).0 last
  round_end-IsStart none connected later drained last h d = nothing_sent last
  round_end-IsStart (some true) true later drained last h d = h
  round_end-IsStart (some true) false later drained last h d = nothing_sent last
  round_end-IsStart (some false) connected later drained last h d = d

  after_query-IsStart :
      (connected : Bool) (answer : Option (List (Event P))) (last : ℕ)
      (later : ℕ → List Text × StreamEnd)
      → ReadAt last answer
      → ((now : ℕ) → IsStart (later now).0 now)
      → IsStart (after_query stringify connected answer last later).0 last
  after_query-IsStart connected none last later h k = nothing_sent last
  after_query-IsStart true (some es) last later h k =
      let (more, e) = h es refl in
      forward_then es more last (later (last_seq last es)).0 e (k (last_seq last es))
  after_query-IsStart false (some es) last later h k = nothing_sent last

  follow-IsStart :
      (rounds : List (Round P)) (last : ℕ)
      → All (λ (r : Round P). Reads r.events_after × Reads r.drained_after) rounds
      → IsStart (follow stringify rounds last).0 last
  unfolding follow
  follow-IsStart [] last h = nothing_sent last
  follow-IsStart (r ∷ rounds) last ((h, d), hs) =
      after_query-IsStart r.connected (r.events_after last) last _ (h last) (λ now.
        round_end-IsStart r.is_active r.connected_at_end (follow stringify rounds now) _ now
          (follow-IsStart rounds now hs)
          (drain-IsStart r.connected_to_drain r.connected_at_end (r.drained_after now) now (d now)))

  after_replay-IsStart :
      (failed terminal : P) (connected : Bool) (rounds : List (Round P)) (last : ℕ)
      → All (λ (r : Round P). Reads r.events_after × Reads r.drained_after) rounds
      → IsStart (after_replay stringify failed terminal true connected rounds last).0 last
  after_replay-IsStart failed terminal true rounds last h = follow-IsStart rounds last h
  after_replay-IsStart failed terminal false rounds last h = nothing_sent last

  -- The body of a resume of a live run, as a reader: the frames of the events past the number that was
  -- asked for, in order and each once, up to some point, whatever the polls find, also a query that
  -- throws after the first, and whenever the client goes away, where the numbers of the run grow and a
  -- query gives the first of the events past a number.
  pub create_run_replay_stream-Delivers :
      (failed terminal : P) (since : ℕ) (es : List (Event P)) (connected : Bool)
      (rounds : List (Round P)) (ending : ReaderEnd)
      → ReadAt since (some es)
      → All (λ (r : Round P). Reads r.events_after × Reads r.drained_after) rounds
      → Delivers stringify run since (record {
        chunks =
            (create_run_replay_stream stringify failed terminal since true
              (some es)
              connected
              rounds).0;
        ending = ending;
      })
  unfolding create_run_replay_stream
  create_run_replay_stream-Delivers failed terminal since es true rounds ending first h =
      let (more, e) = first es refl in
      forward_then es more since _ e
        (after_replay-IsStart failed terminal true rounds (last_seq since es) h)
  create_run_replay_stream-Delivers failed terminal since es false rounds ending first h =
      nothing_sent since
