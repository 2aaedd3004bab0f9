-- ===== src/Runs/Resumes.antt =====
-- src/lib/chat/sse-consumer.ts over its resumes: which events of a run it yields, and when all.
use agent_studio.Shared.{
  ℕ, zero, suc, ◌+◌, Bool, true, false, List, [], ◌++◌, Option, none, some, ◌≡◌, ◌≢◌, refl, ap, ◌∙◌,
  inl, inr, Bool-cases, Option-cases, if◌then◌else◌, map,
}
use agent_studio.Shared.Text.{Text}
use agent_studio.Runs.Codec.{Event}
use agent_studio.Runs.Consumer.{
  Consumed, nothing_consumed, read_chunks, Reader, ReaderEnd, finished, broke, aborted, Ending,
  returned, threw, try_resume, after_reader, consume, consume_sse_stream, decoded,
}
use agent_studio.Runs.Frames.{OneLine}
use agent_studio.Runs.Stream.{received, Follows, Brings, BringsAll, IsUpTo, of_run}
use agent_studio.Runs.Reading.{read_going, read_whole, read_reader}

module _ {P D B : Type 0} (stringify : P → Text) (run : List (Event P)) (decode : D → B → Text × D)
    (start : D) where
  -- What a reader's chunks decode to brings the events past a number, cut off anywhere between two
  -- characters: the decoder is left as it was at the start.
  abbrev pub Gives : ℕ → Reader B → Type 0
  Gives since reader =
      Brings stringify run since (decoded decode start reader.chunks).0
      × ((decoded decode start reader.chunks).1 ≡ start)

  module _ (resume : ℕ → ℕ → Option (Reader B)) where
    -- What the server answers to a resume: the events past a number.
    abbrev pub Answers : Type 0
    Answers = (left since : ℕ) (r : Reader B) → resume left since ≡ some r → Gives since r

    -- With so many resumes left: readers that may be cut while a resume is left, none of them ended
    -- by the page, and a last one that gives all that it is asked for.
    abbrev pub Recovers : ℕ → ℕ → Reader B → Type 0
    Recovers zero since reader =
        BringsAll stringify run since (decoded decode start reader.chunks).0
    Recovers (suc left) since reader =
        Gives since reader
        × (reader.ending ≢ aborted)
        × ((since : ℕ) → (r : Reader B) × (resume left since ≡ some r) × Recovers left since r)

going_on {ℓ} : {A : Type ℓ} (b : Bool) (x y : A) → b ≡ false → (if b then x else y) ≡ y
going_on b x y h = rw h refl

module _ {P : Type 0} (stringify : P → Text) (parse : Text → Option P)
    (one_line : (p : P) → OneLine (stringify p)) (back : (p : P) → parse (stringify p) ≡ some p)
    (should_stop : ℕ → Bool) (run : List (Event P)) {D B : Type 0} (decode : D → B → Text × D)
    (start : D) where
  stop_or :
      (b : Bool) (st : Consumed parse) (more : Consumed parse × Ending)
      → IsUpTo parse run st
      → (b ≡ false → IsUpTo parse run more.0)
      → IsUpTo parse run (if b then (st, returned) else more).0
  stop_or true st more p q = p
  stop_or false st more p q = q refl

  abbrev no_reader : ℕ → Option (Reader B)
  no_reader since = none

  try_resume_keeps :
      (offer : ℕ → Option (Reader B)) (again : Reader B → Consumed parse → Consumed parse × Ending)
      (ending : Ending) (st : Consumed parse) (k : ℕ)
      → IsUpTo parse run st
      → ((r : Reader B) (k : ℕ)
          → offer st.last_seen ≡ some r
          → IsUpTo parse run (again r (record st { polls = k })).0)
      → IsUpTo parse run
          (try_resume parse should_stop offer again ending (record st { polls = k })).0
  try_resume_keeps offer again ending st k up go = elim (Bool-cases (should_stop k)) [
    | inl e ↦ rw (e, try_resume) up
    | inr e ↦ elim (Option-cases (offer st.last_seen)) [
      | inl e' ↦ rw (e, e', try_resume) up
      | inr (r, e') ↦ rw (e, e', try_resume) (go r (k + 1) e')
    ]
  ]

  after_reader_keeps :
      (offer : ℕ → Option (Reader B)) (again : Reader B → Consumed parse → Consumed parse × Ending)
      (ending : ReaderEnd) (st : Consumed parse)
      → IsUpTo parse run st
      → ((r : Reader B) (k : ℕ)
          → offer st.last_seen ≡ some r
          → IsUpTo parse run (again r (record st { polls = k })).0)
      → IsUpTo parse run (after_reader parse should_stop offer again ending st).0
  after_reader_keeps offer again aborted st up go = up
  after_reader_keeps offer again broke st up go =
      try_resume_keeps offer again threw st st.polls up go
  after_reader_keeps offer again finished st up go = elim (Bool-cases (should_stop st.polls)) [
    | inl e ↦ rw (e, after_reader) up
    | inr e ↦ rw (e, after_reader) (try_resume_keeps offer again returned st (st.polls + 1) up go)
  ]

  -- What one reader adds, with the decoder as it was at the start.
  read_reader_keeps :
      Follows 0 run
      → (d : D) (reader : Reader B) (st : Consumed parse) → d ≡ start
      → Brings stringify run st.last_seen (decoded decode start reader.chunks).0
      → st.stopped ≡ false
      → IsUpTo parse run st
      → IsUpTo parse run (read_chunks parse should_stop (decoded decode d reader.chunks).0 [] st)
  read_reader_keeps ordered d reader st e brings h up = rw e (
      read_reader stringify parse one_line back should_stop run
        (decoded decode start reader.chunks).0 st ordered brings h up)

  decoder_after :
      (d : D) (chunks : List B)
      → d ≡ start
      → (decoded decode start chunks).1 ≡ start
      → (decoded decode d chunks).1 ≡ start
  decoder_after d chunks e e' = rw e e'

  module _ (resume : ℕ → ℕ → Option (Reader B)) (ordered : Follows 0 run) where
    consume_keeps :
        Answers stringify run decode start resume
        → (left : ℕ) (d : D) (reader : Reader B) (st : Consumed parse) → d ≡ start
        → Gives stringify run decode start st.last_seen reader
        → st.stopped ≡ false
        → IsUpTo parse run st
        → IsUpTo parse run (consume parse should_stop decode start resume left d reader st).0
    unfolding consume
    consume_keeps answers zero d reader st e (brings, _) h up =
        let st' : Consumed parse =
          read_chunks parse should_stop (decoded decode d reader.chunks).0 [] st in
        let up' = read_reader_keeps ordered d reader st e brings h up in
        let again : Reader B → Consumed parse → Consumed parse × Ending = λ _ st. (st, threw) in
        stop_or st'.stopped st' (after_reader parse should_stop no_reader again reader.ending st')
          up'
          (λ _.
            after_reader_keeps no_reader again reader.ending st' up'
              (λ r k (e : no_reader 0 ≡ some r). cc e))
    consume_keeps answers (suc left) d reader st e (brings, whole) h up =
        let d' = (decoded decode d reader.chunks).1 in
        let st' : Consumed parse =
          read_chunks parse should_stop (decoded decode d reader.chunks).0 [] st in
        let up' = read_reader_keeps ordered d reader st e brings h up in
        let again = consume parse should_stop decode start resume left d' in
        stop_or st'.stopped st'
          (after_reader parse should_stop (resume left) again reader.ending st') up'
          (λ going. after_reader_keeps (resume left) again reader.ending st' up' (λ r k e'.
            consume_keeps answers left d' r (record st' { polls = k })
              (decoder_after d reader.chunks e whole) (answers left st'.last_seen r e') going up'))

    -- Where what the first reader and every reader that a resume gives decodes to brings the events
    -- past the last number seen in order, with frames that have no number anywhere between them, cut
    -- into chunks anywhere and cut off anywhere between two characters, and the numbers of the run
    -- grow, the events of the run that are yielded are its first ones, each once and in order,
    -- whenever the consumer is asked to stop and however the readers end. JSON prints on one line and
    -- parses back, and a frame's name is on one line, trimmed and not empty.
    pub consume_sse_stream_prefix :
        Answers stringify run decode start resume
        → (reader : Reader B) → Gives stringify run decode start 0 reader
        → (sent : List (Event P)) × (left : List (Event P)) × (run ≡ sent ++ left)
          × (of_run (consume_sse_stream parse should_stop decode start resume reader).0.yielded
              ≡ map received sent)
    consume_sse_stream_prefix answers reader gives =
        let (sent, left, whole, ys, _) =
          consume_keeps answers 3 start reader (nothing_consumed parse) refl gives refl
            ([], run, refl, refl, refl) in
        (sent, left, whole, ys)

    module _ (never : (k : ℕ) → should_stop k ≡ false) where
      resumed :
          (offer : ℕ → Option (Reader B))
          (again : Reader B → Consumed parse → Consumed parse × Ending) (ending : ReaderEnd)
          (st : Consumed parse) (r : Reader B)
          → ending ≢ aborted
          → offer st.last_seen ≡ some r
          → (k : ℕ) × (after_reader parse should_stop offer again ending st
              ≡ again r (record st { polls = k }))
      resumed offer again aborted st r h e = absurd (h refl)
      resumed offer again broke st r h e =
          (st.polls + 1, rw (after_reader, try_resume, never st.polls, e) refl)
      resumed offer again finished st r h e = (
        st.polls + 1 + 1,
        rw (after_reader, try_resume, never st.polls, never (st.polls + 1), e) refl,
      )

      no_more :
          (ending : ReaderEnd) (st : Consumed parse)
          → (after_reader parse should_stop no_reader (λ _ st. (st, threw)) ending st).0.yielded
            ≡ st.yielded
      no_more aborted st = refl
      no_more broke st = rw (after_reader, try_resume, never st.polls) refl
      no_more finished st = rw (after_reader, try_resume, never st.polls, never (st.polls + 1)) refl

      consume_all :
          (left : ℕ) (d : D) (reader : Reader B) (st : Consumed parse)
          → d ≡ start
          → Recovers stringify run decode start resume left st.last_seen reader
          → st.stopped ≡ false
          → IsUpTo parse run st
          → of_run (consume parse should_stop decode start resume left d reader st).0.yielded
            ≡ map received run
      unfolding consume
      consume_all zero d reader st e all h up =
          let texts = (decoded decode d reader.chunks).0 in
          let st' : Consumed parse = read_chunks parse should_stop texts [] st in
          let going = read_going stringify parse one_line back should_stop never texts st h in
          let again : Reader B → Consumed parse → Consumed parse × Ending = λ _ st. (st, threw) in
          ap (λ (x : Consumed parse × Ending). of_run x.0.yielded)
            (going_on st'.stopped (st', returned)
              (after_reader parse should_stop no_reader again reader.ending st') going)
          ∙ ap of_run (no_more reader.ending st')
          ∙ read_whole stringify parse one_line back should_stop never run texts st ordered
              (rw e all) h up
      consume_all (suc left) d reader st e ((brings, whole), ends, more) h up =
          let (texts, d') = decoded decode d reader.chunks in
          let st' : Consumed parse = read_chunks parse should_stop texts [] st in
          let going = read_going stringify parse one_line back should_stop never texts st h in
          let up' = read_reader_keeps ordered d reader st e brings h up in
          let again = consume parse should_stop decode start resume left d' in
          let (r, e', rest) = more st'.last_seen in
          let (k, e'') = resumed (resume left) again reader.ending st' r ends e' in
          ap (λ (x : Consumed parse × Ending). of_run x.0.yielded)
            (going_on st'.stopped (st', returned)
                (after_reader parse should_stop (resume left) again reader.ending st') going
              ∙ e'')
          ∙ consume_all left d' r (record st' { polls = k }) (decoder_after d reader.chunks e whole)
              rest going up'

      -- Where nobody asks to stop, every reader but the last brings the events past the last number
      -- seen in order, with frames that have no number between them, cut off anywhere between two
      -- characters but not aborted, every resume is answered and the reader of the third gives all
      -- that it is asked for, every event of the run is yielded, once and in order. JSON prints on
      -- one line and parses back, a frame's name is on one line, trimmed and not empty, and the
      -- numbers of the run grow.
      pub consume_sse_stream_all :
          (reader : Reader B)
          → Recovers stringify run decode start resume 3 0 reader
          → of_run (consume_sse_stream parse should_stop decode start resume reader).0.yielded
            ≡ map received run
      consume_sse_stream_all reader recovers =
          consume_all 3 start reader (nothing_consumed parse) refl recovers refl
            ([], run, refl, refl, refl)
