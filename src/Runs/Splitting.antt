-- ===== src/Runs/Splitting.antt =====
-- src/lib/chat/sse-consumer.ts: where the chunks of a stream are cut does not matter.
use agent_studio.Shared.{
  ℕ, ◌+◌, Bool, true, false, ◌&&◌, List, [], ◌∷◌, ◌++◌, Option, none, some, ◌≡◌, refl, ap, sym, ◌∙◌,
  inl, inr, Bool-cases, arith, length, length-append, ◌==◌, if◌then◌else◌,
}
use agent_studio.Shared.Text.{Text}
use mathlib.Core.List.{append_assoc, append-nil}
use agent_studio.Runs.Consumer.{
  onto_block, new_block, split_blocks, Consumed, take_blocks, read_chunks, parse_sse_event,
  yield_event, polled, SseEvent,
}

abbrev pub with_blocks : List Text → List Text × Text → List Text × Text
with_blocks more (blocks, rest) = (more ++ blocks, rest)

onto_no_block :
    (c : ℕ) (p : List Text × Text)
    → (onto_block c p).0 ≡ []
    → (p.0 ≡ []) × ((onto_block c p).1 ≡ c ∷ p.1)
onto_no_block c ([], rest) h = (refl, refl)
onto_no_block c (b ∷ bs, rest) h = cc

pub split_blocks_new :
    (c d : ℕ) (s : Text)
    → (c == 10 && d == 10) ≡ true
    → split_blocks (c ∷ d ∷ s) ≡ new_block (split_blocks s)
unfolding split_blocks
split_blocks_new c d s e = ground arith

pub split_blocks_step :
    (c d : ℕ) (s : Text)
    → (c == 10 && d == 10) ≡ false
    → split_blocks (c ∷ d ∷ s) ≡ onto_block c (split_blocks (d ∷ s))
unfolding split_blocks
split_blocks_step c d s e = ground arith

-- A text with no complete block is left whole.
pub no_block_rest : (s : Text) → (split_blocks s).0 ≡ [] → (split_blocks s).1 ≡ s
no_block_rest [] h = unfold split_blocks in refl
no_block_rest (c ∷ []) h = unfold split_blocks in refl
no_block_rest (c ∷ d ∷ s) h = elim (Bool-cases (c == 10 && d == 10)) [
  | inl e ↦ cc (h, ap (λ (p : List Text × Text). p.0) (split_blocks_new c d s e))
  | inr e ↦
      let step = split_blocks_step c d s e in
      let (none_left, whole) = onto_no_block c (split_blocks (d ∷ s)) (rw (← step) h) in
      rw (step, whole, no_block_rest (d ∷ s) none_left) refl
]

onto_with :
    (c : ℕ) (t : Text) (p : List Text × Text)
    → (p.0 ≡ [] → onto_block c (split_blocks (p.1 ++ t)) ≡ split_blocks (c ∷ p.1 ++ t))
    → onto_block c (with_blocks p.0 (split_blocks (p.1 ++ t)))
      ≡ with_blocks (onto_block c p).0 (split_blocks ((onto_block c p).1 ++ t))
onto_with c t ([], rest) h = h refl
onto_with c t (b ∷ bs, rest) h = refl

-- The blocks of a text that goes on are those of its start, then those of what was left of it and
-- what comes.
pub split_blocks-append :
    (s t : Text)
    → split_blocks (s ++ t)
      ≡ with_blocks (split_blocks s).0 (split_blocks ((split_blocks s).1 ++ t))
split_blocks-append [] t = unfold split_blocks in refl
split_blocks-append (c ∷ []) t = unfold split_blocks in refl
split_blocks-append (c ∷ d ∷ s) t = elim (Bool-cases (c == 10 && d == 10)) [
  | inl e ↦
      rw (split_blocks_new c d s e, split_blocks_new c d (s ++ t) e, split_blocks-append s t) refl
  | inr e ↦
      rw
        (split_blocks_step c d s e, split_blocks_step c d (s ++ t) e, split_blocks-append (d ∷ s) t)
        (onto_with c t (split_blocks (d ∷ s))
          (λ h. rw (no_block_rest (d ∷ s) h) (sym (split_blocks_step c d (s ++ t) e))))
]

empty_of_length {ℓ} : {A : Type ℓ} (xs : List A) → length xs ≡ 0 → xs ≡ []
empty_of_length [] h = refl
empty_of_length (x ∷ xs) h = absurd (omega (arith, h))

-- What is left over has no complete block.
pub rest_again : (s : Text) → (split_blocks (split_blocks s).1).0 ≡ []
rest_again s =
    let r = split_blocks s in
    let e = split_blocks-append s [] in
    let e' = rw (append-nil s, append-nil r.1) at e in
    let blocks = ap (λ (p : List Text × Text). length p.0) e' in
    empty_of_length (split_blocks r.1).0
      (omega (arith, blocks, length-append r.0 (split_blocks r.1).0))

same_else {ℓ} :
    {A : Type ℓ} (b : Bool) (x y z : A)
    → (b ≡ false → y ≡ z)
    → (if b then x else y) ≡ (if b then x else z)
same_else true x y z h = refl
same_else false x y z h = h refl

abbrev pub joined : List Text → Text
joined [] = []
joined (s ∷ more) = s ++ joined more

module _ {P : Type 0} (parse : Text → Option P) (should_stop : ℕ → Bool) where
  pub take_blocks_step :
      (raw : Text) (blocks : List Text) (st : Consumed parse)
      → should_stop st.polls ≡ false
      → take_blocks parse should_stop (raw ∷ blocks) st
        ≡ take_blocks parse should_stop blocks (
            yield_event parse
              (polled parse should_stop st)
              (parse_sse_event parse raw st.last_seen))
  unfolding take_blocks
  take_blocks_step raw blocks st e = rw (e, take_blocks) refl

  pub take_blocks_stop :
      (raw : Text) (blocks : List Text) (st : Consumed parse)
      → should_stop st.polls ≡ true
      → take_blocks parse should_stop (raw ∷ blocks) st
        ≡ record st { polls = st.polls + 1; stopped = true }
  unfolding take_blocks
  take_blocks_stop raw blocks st e = rw (e, take_blocks) refl

  pub yield_event-stopped :
      (o : Option (SseEvent P)) (st : Consumed parse)
      → (yield_event parse st o).stopped ≡ st.stopped
  yield_event-stopped none st = refl
  yield_event-stopped (some e) st = refl

  -- What is taken of two runs of blocks: the second only if the first did not stop.
  pub take_blocks-append :
      (a b : List Text) (st : Consumed parse)
      → st.stopped ≡ false
      → take_blocks parse should_stop (a ++ b) st ≡ (
          let st' = take_blocks parse should_stop a st in
          if st'.stopped then st' else take_blocks parse should_stop b st')
  take_blocks-append [] b st h = unfold take_blocks in rw h refl
  take_blocks-append (raw ∷ a) b st h = elim (Bool-cases (should_stop st.polls)) [
    | inl e ↦ rw (take_blocks_stop raw (a ++ b) st e, take_blocks_stop raw a st e) refl
    | inr e ↦
        rw (take_blocks_step raw (a ++ b) st e, take_blocks_step raw a st e)
          (take_blocks-append a b _ (
            yield_event-stopped (parse_sse_event parse raw st.last_seen)
              (polled parse should_stop st)
            ∙ h))
  ]

  read_chunks_cons :
      (chunk : Text) (chunks : List Text) (buffer : Text) (st : Consumed parse)
      → read_chunks parse should_stop (chunk ∷ chunks) buffer st ≡ (
          let p = split_blocks (buffer ++ chunk) in
          let st' = take_blocks parse should_stop p.0 st in
          if st'.stopped then st' else read_chunks parse should_stop chunks p.1 st')
  unfolding read_chunks
  read_chunks_cons chunk chunks buffer st = refl

  -- Where a reader's text is cut into chunks does not matter: the consumer takes the blocks that are
  -- complete in all that it reads, for whatever times it is asked to stop, from a state that has not
  -- stopped and a leftover with no complete block.
  pub read_chunks_whole :
      (chunks : List Text) (buffer : Text) (st : Consumed parse)
      → st.stopped ≡ false
      → (split_blocks buffer).0 ≡ []
      → read_chunks parse should_stop chunks buffer st
        ≡ take_blocks parse should_stop (split_blocks (buffer ++ joined chunks)).0 st
  read_chunks_whole [] buffer st h e =
      rw (append-nil buffer, e) (unfold read_chunks take_blocks in refl)
  read_chunks_whole (chunk ∷ chunks) buffer st h e =
      let p = split_blocks (buffer ++ chunk) in
      let st' = take_blocks parse should_stop p.0 st in
      rw
        (
          read_chunks_cons chunk chunks buffer st,
          ← append_assoc buffer chunk (joined chunks),
          split_blocks-append (buffer ++ chunk) (joined chunks),
          take_blocks-append p.0 (split_blocks (p.1 ++ joined chunks)).0 st h,
        )
        (same_else st'.stopped st' _ _
          (λ e'. read_chunks_whole chunks p.1 st' e' (rest_again (buffer ++ chunk))))
