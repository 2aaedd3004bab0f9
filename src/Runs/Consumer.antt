-- ===== src/Runs/Consumer.antt =====
-- src/lib/chat/sse-consumer.ts: chunks of a stream to events, with its resumes. A reader is the
-- chunks of bytes that it gives and how it ends; `parse` is the engine's JSON.parse, `decode` its
-- TextDecoder, which keeps what a chunk left unfinished.
use agent_studio.Shared.{
  ℕ, zero, suc, ◌+◌, ◌*◌, ◌-◌, Bool, true, false, ◌&&◌, Option, none, some, List, [], ◌∷◌, ◌++◌,
  ltb, leb, ◌==◌, or_else, drop, if◌then◌else◌,
}
use agent_studio.Shared.Text.{Text, units, is_prefix, split_by, trim}

-- `buffer.split('\n\n')`: the blocks that are complete, and what is left.
abbrev pub onto_block : ℕ → List Text × Text → List Text × Text
onto_block c ([], rest) = ([], c ∷ rest)
onto_block c (block ∷ blocks, rest) = ((c ∷ block) ∷ blocks, rest)

abbrev pub new_block : List Text × Text → List Text × Text
new_block (blocks, rest) = ([] ∷ blocks, rest)

unfoldable pub split_blocks : Text → List Text × Text
split_blocks [] = ([], [])
split_blocks (c ∷ []) = ([], c ∷ [])
split_blocks (c ∷ d ∷ s) = elim (c == 10 && d == 10) [
  | true ↦ new_block (split_blocks s)
  | false ↦ onto_block c (split_blocks (d ∷ s))
]

abbrev pub is_digit : ℕ → Bool
is_digit c = leb b'0' c && leb c b'9'

-- The number that digits at the start of a text stand for, after one that is read.
unfoldable pub int_from : ℕ → Text → ℕ
int_from acc [] = acc
int_from acc (c ∷ s) =
    let more = int_from (acc * 10 + (c - b'0')) s in if is_digit c then more else acc

-- `Number.parseInt(s, 10)` for a trimmed text; none for NaN and for what is negative, which is never
-- past a sequence number.
unfoldable pub parse_int : Text → Option ℕ
unfolding int_from
parse_int [] = none
parse_int (c ∷ s) = if is_digit c then some (int_from 0 (c ∷ s)) else plus_sign c s
  where
    plus_sign : ℕ → Text → Option ℕ
    plus_sign c [] = none
    plus_sign c (d ∷ s) = if c == b'+' && is_digit d then some (int_from 0 (d ∷ s)) else none

-- What the lines of a block have given so far.
pub record Found : Type 0 where
  pub id : Option ℕ
  pub event : Option Text
  pub data_line : Option Text

abbrev pub nothing_found : Found
nothing_found = record { id = none; event = none; data_line = none }

abbrev pub id_after : ℕ → Option ℕ → Option ℕ → Option ℕ
id_after prev_seq old none = old
id_after prev_seq old (some n) = if ltb prev_seq n then some n else old

unfoldable pub read_line : ℕ → Found → Text → Found
unfolding is_prefix parse_int trim
read_line prev_seq f line =
    if is_prefix (units "id: ") line
    then record f { id = id_after prev_seq f.id (parse_int (trim (drop 4 line))) }
    else if is_prefix (units "event: ") line
    then record f { event = some (trim (drop 7 line)) }
    else if is_prefix (units "data: ") line
    then record f { data_line = some (drop 6 line) }
    else f

unfoldable pub read_lines : ℕ → Found → List Text → Found
unfolding read_line
read_lines prev_seq f [] = f
read_lines prev_seq f (line ∷ lines) = read_lines prev_seq (read_line prev_seq f line) lines

pub record SseEvent (P : Type 0) : Type 0 where
  pub id : Option ℕ
  pub event : Text
  pub payload : P

pub data ReaderEnd : Type 0 where
  finished broke aborted : ReaderEnd

pub record Reader (B : Type 0) : Type 0 where
  pub chunks : List B
  pub ending : ReaderEnd

-- The texts that the chunks of a reader decode to, and what the decoder keeps after them.
unfoldable pub decoded : {D B : Type 0} → (D → B → Text × D) → D → List B → List Text × D
decoded decode d [] = ([], d)
decoded decode d (chunk ∷ chunks) =
    let (text, d') = decode d chunk in
    let (texts, last) = decoded decode d' chunks in (text ∷ texts, last)

pub data Ending : Type 0 where
  returned threw : Ending

module _ {P : Type 0} (parse : Text → Option P) where
  abbrev pub event_of : Option ℕ → Option Text → Option Text → Option (SseEvent P)
  event_of id (some (c ∷ name)) (some line) = elim (parse line) [
    | none ↦ none
    | some payload ↦ some (record { id = id; event = c ∷ name; payload = payload })
  ]
  event_of id _ _ = none

  unfoldable pub parse_sse_event : Text → ℕ → Option (SseEvent P)
  unfolding read_lines split_by
  parse_sse_event raw prev_seq =
      let f = read_lines prev_seq nothing_found (split_by 10 raw) in
      event_of f.id f.event f.data_line

  -- What the consumer has yielded, the last sequence number that it saw, how often it asked
  -- whether to stop, and whether it returned between two events.
  pub record Consumed : Type 0 where
    pub yielded : List (SseEvent P)
    pub last_seen : ℕ
    pub polls : ℕ
    pub stopped : Bool

  abbrev pub nothing_consumed : Consumed
  nothing_consumed = record { yielded = []; last_seen = 0; polls = 0; stopped = false }

  abbrev pub yield_event : Consumed → Option (SseEvent P) → Consumed
  yield_event st none = st
  yield_event st (some e) = record st {
    yielded = st.yielded ++ e ∷ [];
    last_seen = or_else e.id st.last_seen;
  }

  -- `shouldStop` is the page's: its answer at each time that it is asked.
  module _ (should_stop : ℕ → Bool) where
    abbrev pub polled : Consumed → Consumed
    polled st = record st { polls = st.polls + 1 }

    unfoldable pub take_blocks : List Text → Consumed → Consumed
    unfolding parse_sse_event
    take_blocks [] st = st
    take_blocks (raw ∷ blocks) st = elim (should_stop st.polls) [
      | true ↦ record st { polls = st.polls + 1; stopped = true }
      | false ↦ take_blocks blocks (yield_event (polled st) (parse_sse_event raw st.last_seen))
    ]

    unfoldable pub read_chunks : List Text → Text → Consumed → Consumed
    unfolding take_blocks split_blocks
    read_chunks [] buffer st = st
    read_chunks (chunk ∷ chunks) buffer st =
        let (blocks, rest) = split_blocks (buffer ++ chunk) in
        let st' = take_blocks blocks st in
        let later = read_chunks chunks rest st' in if st'.stopped then st' else later

    -- `tryResume`, then the loop with the reader that it gives; with none, the loop ends so.
    abbrev pub try_resume :
        {B : Type 0}
        → (ℕ → Option (Reader B))
        → (Reader B → Consumed → Consumed × Ending)
        → Ending
        → Consumed
        → Consumed × Ending
    try_resume offer again ending st = elim (should_stop st.polls) [
      | true ↦ (polled st, ending)
      | false ↦ elim (offer st.last_seen) [
        | none ↦ (polled st, ending)
        | some reader ↦ again reader (polled st)
      ]
    ]

    abbrev pub after_reader :
        {B : Type 0}
        → (ℕ → Option (Reader B))
        → (Reader B → Consumed → Consumed × Ending)
        → ReaderEnd
        → Consumed
        → Consumed × Ending
    after_reader offer again aborted st = (st, threw)
    after_reader offer again broke st = try_resume offer again threw st
    after_reader offer again finished st = elim (should_stop st.polls) [
      | true ↦ (polled st, returned)
      | false ↦ try_resume offer again returned (polled st)
    ]

    -- The loop with so many resumes left: `resume left last_seen` is the server's answer, none where
    -- it refuses or the request fails. A resume empties the buffer, but the decoder goes on.
    module _ {D B : Type 0} (decode : D → B → Text × D) (start : D)
        (resume : ℕ → ℕ → Option (Reader B)) where
      unfoldable pub consume : ℕ → D → Reader B → Consumed → Consumed × Ending
      unfolding read_chunks decoded
      consume zero d reader st =
          let st' = read_chunks (decoded decode d reader.chunks).0 [] st in
          let more = after_reader {B = B} (λ _. none) (λ _ st. (st, threw)) reader.ending st' in
          if st'.stopped then (st', returned) else more
      consume (suc left) d reader st =
          let (texts, d') = decoded decode d reader.chunks in
          let st' = read_chunks texts [] st in
          let more = after_reader (resume left) (consume left d') reader.ending st' in
          if st'.stopped then (st', returned) else more

      abbrev pub consume_sse_stream : Reader B → Consumed × Ending
      consume_sse_stream reader = consume 3 start reader nothing_consumed
