-- ===== src/Runs/Tests.antt =====
-- The theorems on the event stream of a run, at inputs.
use agent_studio.Shared.{
  ℕ, zero, suc, Bool, true, false, List, [], ◌∷◌, ◌++◌, Option, some, ◌≡◌, refl, sym, ap, subst,
  ◌∙◌, take, drop, arith, map, ◌+◌, ◌*◌, ◌/◌, ◌%◌, none, All, ltb, if◌then◌else◌,
}
use agent_studio.Shared.Text.{Text, units, trim}
use mathlib.Core.List.{append-nil}
use agent_studio.Runs.Codec.{digits_onto, Event, show_ℕ, encode_sse_frame}
use agent_studio.Runs.Consumer.{
  Reader, nothing_consumed, decoded, take_blocks, split_blocks, read_chunks, consume_sse_stream,
  finished, broke, parse_int, parse_sse_event,
}
use agent_studio.Runs.Splitting.{joined, with_blocks, read_chunks_whole}
use agent_studio.Runs.Numbers.{parse_int-show_ℕ, show_ℕ-one_line}
use agent_studio.Runs.Frames.{IsName, parse_frame, frame}
use agent_studio.Runs.Stream.{
  newer, Delivers, AreNamed, Follows, frames, received, Sent, numbered, loose, name_of_sent,
  sent_frames, of_run, BringsAll, Delivers-Brings, Delivers-BringsAll,
}
use agent_studio.Runs.Replay.{Round, create_run_replay_stream}
use agent_studio.Runs.Replayed.{Reads, create_run_replay_stream-Delivers}
use agent_studio.Runs.Resumes.{
  Gives, Answers, Recovers, consume_sse_stream_prefix, consume_sse_stream_all,
}

abbrev first : Event ℕ
first = record { seq = 1; name = units "delta"; payload = 7 }

abbrev run : List (Event ℕ)
run = first ∷ record { seq = 12; name = units "done"; payload = 30 } ∷ []

delta_named : IsName (units "delta")
unfolding trim
delta_named = ((λ e. cc e), refl, (refl, (refl, (refl, (refl, (refl, tt))))))

run_named : AreNamed run
unfolding trim
run_named = (delta_named, (((λ e. cc e), refl, (refl, (refl, (refl, (refl, tt))))), tt))

run_ordered : Follows 0 run
run_ordered = omega arith

abbrev whole_text : Text
whole_text = frames show_ℕ run

abbrev never : ℕ → Bool
never k = false

-- A decoder of two bytes a character, which keeps the first of them.
abbrev decode : Option ℕ → Text → Text × Option ℕ
decode d [] = ([], d)
decode none (b ∷ bytes) = decode (some b) bytes
decode (some low) (b ∷ bytes) = let (text, d) = decode none bytes in ((low + 256 * b) ∷ text, d)

abbrev encode : Text → Text
encode [] = []
encode (c ∷ s) = (c % 256) ∷ (c / 256) ∷ encode s

decode-encode : (s : Text) → decode none (encode s) ≡ (s, none)
decode-encode [] = refl
decode-encode (c ∷ s) = rw (decode-encode s) (ap (λ k. (k ∷ s, none)) (two_bytes c))
  where
    two_bytes : (c : ℕ) → c % 256 + 256 * (c / 256) ≡ c
    two_bytes c = omega arith

-- The first stream has a frame with no number before the run's.
abbrev first_frames : List (Sent ℕ)
first_frames = loose (units "beat") 3 ∷ map numbered run

first_named : All (λ s. IsName (name_of_sent s)) first_frames
unfolding trim
first_named =
    (((λ e. cc e), refl, (refl, (refl, (refl, (refl, tt))))), (run_named.0, (run_named.1.0, tt)))

abbrev first_text : Text
first_text = sent_frames show_ℕ first_frames

-- The first reader breaks inside the second frame, and one of its chunks ends inside a character.
abbrev cut_reader : Reader Text
cut_reader = record {
  chunks = take 5 (encode first_text) ∷ drop 5 (take 80 (encode first_text)) ∷ [];
  ending = broke;
}

abbrev newer_reader : ℕ → Reader Text
newer_reader since = record {
  chunks = encode (frames show_ℕ (newer since run)) ∷ [];
  ending = finished;
}

abbrev resume : ℕ → ℕ → Option (Reader Text)
resume left since = some (newer_reader since)

newer_reader-decoded :
    (since : ℕ)
    → decoded decode none (newer_reader since).chunks ≡ (frames show_ℕ (newer since run) ∷ [], none)
unfolding decoded
newer_reader-decoded since = rw (decode-encode (frames show_ℕ (newer since run))) refl

if_all :
    (t : Bool) (e : Event ℕ) (es : List (Event ℕ))
    → IsName e.name
    → AreNamed es
    → AreNamed (if t then e ∷ es else es)
if_all true e es n ns = (n, ns)
if_all false e es n ns = ns

newer-AreNamed : (since : ℕ) (es : List (Event ℕ)) → AreNamed es → AreNamed (newer since es)
newer-AreNamed since [] n = tt
newer-AreNamed since (e ∷ es) n =
    if_all (ltb since e.seq) e (newer since es) n.0 (newer-AreNamed since es n.1)

newer_reader_named : (since : ℕ) → AreNamed (newer since run)
newer_reader_named since = newer-AreNamed since run run_named

frames_all : (since : ℕ) → BringsAll show_ℕ run since (frames show_ℕ (newer since run) ∷ [])
frames_all since =
    Delivers-BringsAll show_ℕ run since (frames show_ℕ (newer since run) ∷ [])
      (newer_reader_named since) (append-nil (frames show_ℕ (newer since run)))

newer_reader-Gives : (since : ℕ) → Gives show_ℕ run decode none since (newer_reader since)
newer_reader-Gives since = rw (newer_reader-decoded since) (
  Delivers-Brings show_ℕ run since (frames show_ℕ (newer since run) ∷ []) (newer_reader_named since)
      ([], append-nil _ ∙ append-nil (frames show_ℕ (newer since run))),
  refl,
)

resume-Answers : Answers show_ℕ run decode none resume
resume-Answers left since r e =
    subst (Gives show_ℕ run decode none since) (the_answer e) (newer_reader-Gives since)
  where
    the_answer : {r s : Reader Text} → some r ≡ some s → r ≡ s
    the_answer e = cc e

newer_reader-Recovers :
    (left since : ℕ) → Recovers show_ℕ run decode none resume left since (newer_reader since)
newer_reader-Recovers zero since = rw (newer_reader-decoded since) (frames_all since)
newer_reader-Recovers (suc left) since = (
  newer_reader-Gives since,
  (λ e. cc e),
  λ since'. (newer_reader since', refl, newer_reader-Recovers left since'),
)

cut_reader-Gives : Gives show_ℕ run decode none 0 cut_reader
unfolding encode_sse_frame digits_onto decoded
cut_reader-Gives = ((first_frames, drop 40 first_text, first_named, refl, refl), refl)

consume_sse_stream_prefix_example :
    (sent : List (Event ℕ)) × (left : List (Event ℕ)) × (run ≡ sent ++ left)
    × (of_run (consume_sse_stream parse_int never decode none resume cut_reader).0.yielded
        ≡ map received sent)
consume_sse_stream_prefix_example =
    consume_sse_stream_prefix show_ℕ parse_int show_ℕ-one_line parse_int-show_ℕ never run decode
      none resume run_ordered resume-Answers cut_reader cut_reader-Gives

consume_sse_stream_all_example :
    of_run (consume_sse_stream parse_int never decode none resume cut_reader).0.yielded
    ≡ map received run
consume_sse_stream_all_example =
    consume_sse_stream_all show_ℕ parse_int show_ℕ-one_line parse_int-show_ℕ never run decode none
      resume run_ordered (λ k. refl) cut_reader
      (
        cut_reader-Gives,
        (λ e. cc e),
        λ since. (newer_reader since, refl, newer_reader-Recovers 2 since),
      )

read_chunks_whole_example :
    read_chunks parse_int never
      (take 5 whole_text ∷ drop 5 whole_text ∷ [])
      []
      (nothing_consumed parse_int)
    ≡ take_blocks parse_int never
        (split_blocks (joined (take 5 whole_text ∷ drop 5 whole_text ∷ []))).0
        (nothing_consumed parse_int)
read_chunks_whole_example =
    read_chunks_whole parse_int never (take 5 whole_text ∷ drop 5 whole_text ∷ []) []
      (nothing_consumed parse_int) refl no_block
  where
    no_block : (split_blocks []).0 ≡ []
    no_block = unfold split_blocks in refl

parse_frame_example :
    (raw : Text) × (split_blocks (frame show_ℕ first ++ units "id: 1")
      ≡ with_blocks (raw ∷ []) (split_blocks (units "id: 1")))
    × (parse_sse_event parse_int raw 0 ≡ some (received first))
parse_frame_example =
    parse_frame show_ℕ parse_int show_ℕ-one_line first 0 (units "id: 1") delta_named
      (parse_int-show_ℕ 7) (omega arith)

-- A round that finds the whole run in the table, and the run over.
abbrev last_round : Round ℕ
last_round = record {
  events_after = λ last. some (newer last run);
  connected = true;
  is_active = some false;
  connected_to_drain = true;
  drained_after = λ last. some (newer last run);
  connected_at_end = true;
}

whole_table :
    (last : ℕ) (es : List (Event ℕ)) → some (newer last run) ≡ some es → newer last run ≡ es
whole_table last es e = cc e

table-Reads : Reads show_ℕ run run_ordered (λ last. some (newer last run))
table-Reads last es e = ([], whole_table last es e ∙ sym (append-nil es))

create_run_replay_stream-Delivers_example : Delivers show_ℕ run 0 (record {
  chunks =
      (create_run_replay_stream show_ℕ 0 0 0 true (some (first ∷ [])) true (last_round ∷ [])).0;
  ending = finished;
})
create_run_replay_stream-Delivers_example =
    create_run_replay_stream-Delivers show_ℕ run run_ordered 0 0 0 (first ∷ []) true
      (last_round ∷ []) finished (λ es e. (drop 1 run, first_of e)) ((table-Reads, table-Reads), tt)
  where
    the_list : {es : List (Event ℕ)} → some (first ∷ []) ≡ some es → first ∷ [] ≡ es
    the_list e = cc e

    first_of : {es : List (Event ℕ)} → some (first ∷ []) ≡ some es → newer 0 run ≡ es ++ drop 1 run
    first_of e = ap (λ l. l ++ drop 1 run) (the_list e)
