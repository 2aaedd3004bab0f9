-- ===== src/Runs/Frames.antt =====
-- A frame of src/lib/runtime/sse-codec.ts, read again by src/lib/chat/sse-consumer.ts.
use agent_studio.Shared.{
  ℕ, ◌<◌, false, ◌&&◌, List, [], ◌∷◌, ◌++◌, Option, some, ◌≡◌, ◌≢◌, refl, ap, ◌∙◌, arith, ◌==◌,
  lt→ltb, All,
}
use agent_studio.Shared.Text.{Text, units, trim, split_by, is_prefix}
use mathlib.Core.List.{append_assoc, append-nil}
use agent_studio.Runs.Codec.{show_ℕ, Event, encode_sse_frame}
use agent_studio.Runs.Consumer.{
  onto_block, new_block, split_blocks, read_line, read_lines, nothing_found, Found, parse_sse_event,
  event_of,
}
use agent_studio.Runs.Splitting.{
  with_blocks, split_blocks-append, split_blocks_new, split_blocks_step,
}
use agent_studio.Runs.Numbers.{parse_int-show_ℕ, trim-show_ℕ, show_ℕ-one_line}

abbrev pub OneLine : Text → Type 0
OneLine s = All (λ c. (c == 10) ≡ false) s

abbrev pub onto_text : Text → List Text × Text → List Text × Text
onto_text [] p = p
onto_text (c ∷ s) p = onto_block c (onto_text s p)

pub onto_text_cons :
    (s b : Text) (bs : List Text) (r : Text) → onto_text s (b ∷ bs, r) ≡ ((s ++ b) ∷ bs, r)
onto_text_cons [] b bs r = refl
onto_text_cons (c ∷ s) b bs r = rw (onto_text_cons s b bs r) refl

not_gap : (c d : ℕ) → (c == 10) ≡ false → (c == 10 && d == 10) ≡ false
not_gap c d h = rw h refl

not_gap_after : (c d : ℕ) → (d == 10) ≡ false → (c == 10 && d == 10) ≡ false
not_gap_after c d h = ground (arith, h)

split_blocks_onto :
    (l : Text) (d : ℕ) (s : Text)
    → OneLine l
    → split_blocks (l ++ d ∷ s) ≡ onto_text l (split_blocks (d ∷ s))
split_blocks_onto [] d s h = refl
split_blocks_onto (c ∷ []) d s h = split_blocks_step c d s (not_gap c d h.0)
split_blocks_onto (c ∷ e ∷ l) d s h =
    split_blocks_step c e (l ++ d ∷ s) (not_gap c e h.0)
    ∙ ap (onto_block c) (split_blocks_onto (e ∷ l) d s h.1)

-- A line that another follows, and the last line of a block.
pub split_blocks_line :
    (l : Text) (c : ℕ) (s : Text)
    → OneLine l
    → (c == 10) ≡ false
    → split_blocks (l ++ 10 ∷ c ∷ s) ≡ onto_text l (onto_block 10 (split_blocks (c ∷ s)))
split_blocks_line l c s h e =
    split_blocks_onto l 10 (c ∷ s) h
    ∙ ap (onto_text l) (split_blocks_step 10 c s (not_gap_after 10 c e))

pub split_blocks_last :
    (l s : Text)
    → OneLine l
    → split_blocks (l ++ 10 ∷ 10 ∷ s) ≡ onto_text l (new_block (split_blocks s))
split_blocks_last l s h =
    split_blocks_onto l 10 (10 ∷ s) h ∙ ap (onto_text l) (split_blocks_new 10 10 s refl)

pub split_by_line : (l s : Text) → OneLine l → split_by 10 (l ++ 10 ∷ s) ≡ l ∷ split_by 10 s
unfolding split_by
split_by_line [] s h = refl
split_by_line (c ∷ l) s h = rw (split_by_line l s h.1, h.0) refl

pub split_by_end : (l : Text) → OneLine l → split_by 10 l ≡ l ∷ []
unfolding split_by
split_by_end [] h = refl
split_by_end (c ∷ l) h = rw (split_by_end l h.1, h.0) refl

read_id :
    (prev n : ℕ) (f : Found)
    → prev < n
    → read_line prev f (units "id: " ++ show_ℕ n) ≡ record f { id = some n }
unfolding read_line is_prefix
read_id prev n f h = rw (trim-show_ℕ n, parse_int-show_ℕ n, lt→ltb prev n h) refl

pub read_event :
    (prev : ℕ) (name : Text) (f : Found)
    → trim name ≡ name
    → read_line prev f (units "event: " ++ name) ≡ record f { event = some name }
unfolding read_line is_prefix
read_event prev name f h = rw h refl

pub read_data :
    (prev : ℕ) (line : Text) (f : Found)
    → read_line prev f (units "data: " ++ line) ≡ record f { data_line = some line }
unfolding read_line is_prefix
read_data prev line f = refl

pub last_line : (d : Text) → onto_text d (new_block (split_blocks [])) ≡ (d ∷ [], [])
unfolding split_blocks
last_line d = rw (onto_text_cons d [] [] [], append-nil d) refl

-- A name with no line end and no white space at its ends.
abbrev pub IsName : Text → Type 0
IsName name = (name ≢ []) × (trim name ≡ name) × OneLine name

-- The lines of a frame of a run's event.
abbrev pub id_part : ℕ → Text
id_part seq = units "id: " ++ show_ℕ seq

abbrev pub event_part : Text → Text
event_part name = units "event: " ++ name

module _ {P : Type 0} (stringify : P → Text) where
  abbrev pub data_part : P → Text
  data_part payload = units "data: " ++ stringify payload

  abbrev pub body : Event P → Text
  body e = id_part e.seq ++ 10 ∷ (event_part e.name ++ 10 ∷ data_part e.payload)

  abbrev pub frame : Event P → Text
  frame e = encode_sse_frame stringify e.name e.payload (some e.seq)

  frame-body :
      (e : Event P)
      → frame e
        ≡ id_part e.seq ++ 10 ∷ (event_part e.name ++ 10 ∷ (data_part e.payload ++ 10 ∷ 10 ∷ []))
  unfolding encode_sse_frame
  frame-body e = rw (append_assoc (show_ℕ e.seq) (10 ∷ [])) refl

module _ {P : Type 0} (stringify : P → Text) (parse : Text → Option P) where
  read_body :
      (e : Event P) (prev_seq : ℕ)
      → trim e.name ≡ e.name
      → prev_seq < e.seq
      → read_lines prev_seq nothing_found
          (id_part e.seq ∷ event_part e.name ∷ data_part stringify e.payload ∷ [])
        ≡ record { id = some e.seq; event = some e.name; data_line = some (stringify e.payload) }
  unfolding read_lines
  read_body e prev_seq trimmed later =
      let f = nothing_found in
      let g = record f { id = some e.seq } in
      let h = record g { event = some e.name } in
      ap
        (λ (x : Found).
          read_line prev_seq (read_line prev_seq x (event_part e.name))
            (data_part stringify e.payload))
        (read_id prev_seq e.seq f later)
      ∙ ap (λ (x : Found). read_line prev_seq x (data_part stringify e.payload))
          (read_event prev_seq e.name g trimmed)
      ∙ read_data prev_seq (stringify e.payload) h

  id_part-OneLine : (seq : ℕ) → OneLine (id_part seq)
  id_part-OneLine seq = (refl, (refl, (refl, (refl, show_ℕ-one_line seq))))

  pub event_part-OneLine : (name : Text) → OneLine name → OneLine (event_part name)
  event_part-OneLine name h = (refl, (refl, (refl, (refl, (refl, (refl, (refl, h)))))))

  pub data_part-OneLine : (p : P) → OneLine (stringify p) → OneLine (data_part stringify p)
  data_part-OneLine p h = (refl, (refl, (refl, (refl, (refl, (refl, h))))))

  pub parse_sse_event_fields :
      (raw : Text) (prev_seq : ℕ)
      → parse_sse_event parse raw prev_seq ≡ (
          let f = read_lines prev_seq nothing_found (split_by 10 raw) in
          event_of parse f.id f.event f.data_line)
  unfolding parse_sse_event
  parse_sse_event_fields raw prev_seq = refl

  pub event_of_named :
      (id : Option ℕ) (name line : Text) (payload : P)
      → name ≢ []
      → parse line ≡ some payload
      → event_of parse id (some name) (some line)
        ≡ some (record { id = id; event = name; payload = payload })
  event_of_named id [] line payload ne back = absurd (ne refl)
  event_of_named id (c ∷ name) line payload ne back = rw (back, event_of) refl

  module _ (one_line : (p : P) → OneLine (stringify p)) where
    body_lines :
        (e : Event P)
        → OneLine e.name
        → split_by 10 (body stringify e)
          ≡ id_part e.seq ∷ event_part e.name ∷ data_part stringify e.payload ∷ []
    body_lines e ol =
        let d = data_part stringify e.payload in
        let v = event_part e.name in
        split_by_line (id_part e.seq) (v ++ 10 ∷ d) (id_part-OneLine e.seq)
        ∙ ap (λ ls. id_part e.seq ∷ ls)
            (split_by_line v d (event_part-OneLine e.name ol)
              ∙ ap (λ ls. v ∷ ls)
                  (split_by_end d (data_part-OneLine e.payload (one_line e.payload))))

    -- A frame is one complete block, and nothing is left of it.
    pub split_blocks-frame :
        (e : Event P)
        → IsName e.name
        → split_blocks (frame stringify e) ≡ (body stringify e ∷ [], [])
    split_blocks-frame e (_, _, ol) =
        let d = data_part stringify e.payload in
        let v = event_part e.name in
        let i = id_part e.seq in
        ap split_blocks (frame-body stringify e)
        ∙ split_blocks_line i b'e' _ (id_part-OneLine e.seq) refl
        ∙ ap (λ p. onto_text i (onto_block 10 p))
            (split_blocks_line v b'd' _ (event_part-OneLine e.name ol) refl
              ∙ ap (λ p. onto_text v (onto_block 10 p))
                  (split_blocks_last d [] (data_part-OneLine e.payload (one_line e.payload))
                    ∙ last_line d)
              ∙ onto_text_cons v (10 ∷ d) [] [])
        ∙ onto_text_cons i (10 ∷ (v ++ 10 ∷ d)) [] []

    pub parse_sse_event-body :
        (e : Event P) (prev_seq : ℕ)
        → IsName e.name
        → parse (stringify e.payload) ≡ some e.payload
        → prev_seq < e.seq
        → parse_sse_event parse (body stringify e) prev_seq
          ≡ some (record { id = some e.seq; event = e.name; payload = e.payload })
    parse_sse_event-body e prev_seq (ne, trimmed, ol) back later =
        parse_sse_event_fields (body stringify e) prev_seq
        ∙ ap (λ (f : Found). event_of parse f.id f.event f.data_line)
            (ap (read_lines prev_seq nothing_found) (body_lines e ol)
              ∙ read_body e prev_seq trimmed later)
        ∙ event_of_named (some e.seq) e.name (stringify e.payload) e.payload ne back

    -- A frame at the start of what was read is one block, which parses to the event, and what follows
    -- is split as if it stood alone, where every payload prints on one line, this one parses back, the
    -- name is trimmed, on one line and not empty, and the number is past the last one seen.
    pub parse_frame :
        (e : Event P) (prev_seq : ℕ) (rest : Text)
        → IsName e.name
        → parse (stringify e.payload) ≡ some e.payload
        → prev_seq < e.seq
        → (raw : Text) × (split_blocks (frame stringify e ++ rest)
            ≡ with_blocks (raw ∷ []) (split_blocks rest))
          × (parse_sse_event parse raw prev_seq
              ≡ some (record { id = some e.seq; event = e.name; payload = e.payload }))
    parse_frame e prev_seq rest n back later = (
      body stringify e,
      split_blocks-append (frame stringify e) rest
          ∙ ap (λ (p : List Text × Text). with_blocks p.0 (split_blocks (p.1 ++ rest)))
              (split_blocks-frame e n),
      parse_sse_event-body e prev_seq n back later,
    )
