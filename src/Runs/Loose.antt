-- ===== src/Runs/Loose.antt =====
-- A frame of src/lib/runtime/sse-codec.ts that has no sequence number, read again by
-- src/lib/chat/sse-consumer.ts.
use agent_studio.Shared.{ℕ, [], ◌∷◌, ◌++◌, Option, none, some, ◌≡◌, refl, ap, ◌∙◌}
use agent_studio.Shared.Text.{Text, trim, split_by}
use agent_studio.Runs.Codec.{encode_sse_frame}
use agent_studio.Runs.Consumer.{
  onto_block, split_blocks, read_line, read_lines, nothing_found, Found, parse_sse_event, event_of,
}
use agent_studio.Runs.Frames.{
  OneLine, IsName, onto_text, onto_text_cons, split_blocks_line, split_blocks_last, last_line,
  split_by_line, split_by_end, event_part, data_part, event_part-OneLine, data_part-OneLine,
  read_event, read_data, parse_sse_event_fields, event_of_named,
}

module _ {P : Type 0} (stringify : P → Text) where
  abbrev pub loose_body : Text → P → Text
  loose_body name payload = event_part name ++ 10 ∷ data_part stringify payload

  abbrev pub loose_frame : Text → P → Text
  loose_frame name payload = encode_sse_frame stringify name payload none

  loose_frame-body :
      (name : Text) (payload : P)
      → loose_frame name payload
        ≡ event_part name ++ 10 ∷ (data_part stringify payload ++ 10 ∷ 10 ∷ [])
  unfolding encode_sse_frame
  loose_frame-body name payload = refl

module _ {P : Type 0} (stringify : P → Text) (parse : Text → Option P)
    (one_line : (p : P) → OneLine (stringify p)) where
  -- A frame with no number is one complete block too, and nothing is left of it.
  pub split_blocks-loose_frame :
      (name : Text) (payload : P)
      → IsName name
      → split_blocks (loose_frame stringify name payload)
        ≡ (loose_body stringify name payload ∷ [], [])
  split_blocks-loose_frame name payload (_, _, ol) =
      let d = data_part stringify payload in
      let v = event_part name in
      ap split_blocks (loose_frame-body stringify name payload)
      ∙ split_blocks_line v b'd' _ (event_part-OneLine stringify parse name ol) refl
      ∙ ap (λ p. onto_text v (onto_block 10 p))
          (split_blocks_last d [] (data_part-OneLine stringify parse payload (one_line payload))
            ∙ last_line d)
      ∙ onto_text_cons v (10 ∷ d) [] []

  loose_body_lines :
      (name : Text) (payload : P)
      → OneLine name
      → split_by 10 (loose_body stringify name payload)
        ≡ event_part name ∷ data_part stringify payload ∷ []
  loose_body_lines name payload ol =
      let d = data_part stringify payload in
      let v = event_part name in
      split_by_line v d (event_part-OneLine stringify parse name ol)
      ∙ ap (λ ls. v ∷ ls)
          (split_by_end d (data_part-OneLine stringify parse payload (one_line payload)))

  read_loose_body :
      (name : Text) (payload : P) (prev_seq : ℕ)
      → trim name ≡ name
      → read_lines prev_seq nothing_found (event_part name ∷ data_part stringify payload ∷ [])
        ≡ record { id = none; event = some name; data_line = some (stringify payload) }
  unfolding read_lines
  read_loose_body name payload prev_seq trimmed =
      ap (λ (x : Found). read_line prev_seq x (data_part stringify payload))
        (read_event prev_seq name nothing_found trimmed)
      ∙ read_data prev_seq (stringify payload) (record nothing_found { event = some name })

  pub parse_sse_event-loose_body :
      (name : Text) (payload : P) (prev_seq : ℕ)
      → IsName name
      → parse (stringify payload) ≡ some payload
      → parse_sse_event parse (loose_body stringify name payload) prev_seq
        ≡ some (record { id = none; event = name; payload = payload })
  parse_sse_event-loose_body name payload prev_seq (ne, trimmed, ol) back =
      parse_sse_event_fields stringify parse (loose_body stringify name payload) prev_seq
      ∙ ap (λ (f : Found). event_of parse f.id f.event f.data_line)
          (ap (read_lines prev_seq nothing_found) (loose_body_lines name payload ol)
            ∙ read_loose_body name payload prev_seq trimmed)
      ∙ event_of_named stringify parse none name (stringify payload) payload ne back
