-- ===== src/Runs/Replay.antt =====
-- src/lib/runs/run-replay-stream.ts: the body of a resume, as its chunks. A round is one turn of the
-- loop, with what the database, the run and the connection answer in it; a query that throws has no
-- answer. JSON is a parameter.
use agent_studio.Shared.{
  ℕ, Bool, true, false, List, [], ◌∷◌, ◌++◌, Option, none, some, if◌then◌else◌, map,
}
use agent_studio.Shared.Text.{Text, units}
use agent_studio.Runs.Codec.{Event, encode_sse_frame}

pub record Round (P : Type 0) : Type 0 where
  pub events_after : ℕ → Option (List (Event P))
  pub connected : Bool
  pub is_active : Option Bool
  pub connected_to_drain : Bool
  pub drained_after : ℕ → Option (List (Event P))
  pub connected_at_end : Bool

-- The stream is closed, errored, left by its client, or still followed when the rounds are over.
pub data StreamEnd : Type 0 where
  closed errored left followed : StreamEnd

abbrev pub after_chunks : {A : Type 0} → List A → List A × StreamEnd → List A × StreamEnd
after_chunks more (chunks, ending) = (more ++ chunks, ending)

abbrev pub last_seq : {P : Type 0} → ℕ → List (Event P) → ℕ
last_seq last [] = last
last_seq last (e ∷ es) = last_seq e.seq es

-- How a round goes on once its events are forwarded.
abbrev pub round_end :
    Option Bool → Bool → List Text × StreamEnd → List Text × StreamEnd → List Text × StreamEnd
round_end none connected later drained = ([], errored)
round_end (some true) true later drained = later
round_end (some true) false later drained = ([], left)
round_end (some false) connected later drained = drained

module _ {P : Type 0} (stringify : P → Text) where
  -- `forward`, while the client is there.
  unfoldable pub forward : Bool → List (Event P) → List Text
  forward connected es =
      if connected
      then map (λ e. encode_sse_frame stringify e.name e.payload (some e.seq)) es
      else []

  -- What landed between the last poll and the end of the run.
  abbrev pub drain : Bool → Bool → Option (List (Event P)) → List Text × StreamEnd
  drain false connected answer = ([], left)
  drain true connected none = ([], errored)
  drain true connected (some es) = (forward connected es, if connected then closed else left)

  abbrev pub after_query :
      Bool → Option (List (Event P)) → ℕ → (ℕ → List Text × StreamEnd) → List Text × StreamEnd
  after_query connected none last later = ([], errored)
  after_query true (some es) last later = after_chunks (forward true es) (later (last_seq last es))
  after_query false (some es) last later = ([], left)

  unfoldable pub follow : List (Round P) → ℕ → List Text × StreamEnd
  unfolding forward
  follow [] last = ([], followed)
  follow (r ∷ rounds) last = after_query r.connected (r.events_after last) last (λ now.
      round_end r.is_active r.connected_at_end (follow rounds now)
        (drain r.connected_to_drain r.connected_at_end (r.drained_after now)))

  module _ (done_failed done_terminal : P) where
    abbrev pub done_frame : P → Text
    done_frame payload = encode_sse_frame stringify (units "done") payload none

    abbrev pub after_replay : Bool → Bool → List (Round P) → ℕ → List Text × StreamEnd
    after_replay true connected rounds last = if connected then follow rounds last else ([], left)
    after_replay false connected rounds last =
        if connected then (done_frame done_terminal ∷ [], closed) else ([], left)

    -- The stream, with the answer to its first query and whether the client is there after it.
    unfoldable pub create_run_replay_stream :
        ℕ → Bool → Option (List (Event P)) → Bool → List (Round P) → List Text × StreamEnd
    unfolding follow
    create_run_replay_stream since active_at_start none connected rounds =
        if connected then (done_frame done_failed ∷ [], closed) else ([], left)
    create_run_replay_stream since active_at_start (some es) connected rounds =
        after_chunks (forward connected es)
          (after_replay active_at_start connected rounds (last_seq since es))
