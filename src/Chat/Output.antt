-- ===== src/Chat/Output.antt =====
-- The card of a background command and the output of the command.
use agent_studio.Shared.{
  ℕ, zero, suc, ◌-◌, ◌≤◌, ◌<◌, max, min, String, Bool, true, false, not, ◌&&◌, ◌||◌, some, List, [],
  ◌∷◌, ◌++◌, ◌≡◌, refl, sym, ap, ◌∙◌, subst, arith, map, ltb, leb, length, length-append, take,
  drop, get_elem?, or_else, str_eq, Bool-cases, inl, inr,
}
use agent_studio.Shared.Text.{Text}
use agent_studio.Chat.Blocks.{
  shell_running, ShellDetails, shell, ToolBlock, StreamingBlock, tool, on_tools,
}
use agent_studio.Chat.Shell.{
  max_stream_chars, append_stream_tail, OutputPayload, is_settled, added_part, take_output,
  output_to, apply_shell_output,
}
use agent_studio.Chat.Tail.{
  drop-drop, length-drop, length-take, take-drop_append, tail, tail-append, length-tail, appended,
  or_false,
}

-- The card holds the tail of the first `n` units of the output and is open for more.
abbrev pub HasOutput : String → Text → ℕ → ToolBlock → Type 0
HasOutput id output n t =
    (d : ShellDetails) × (t.details ≡ some (shell d))
    × (str_eq t.id id ≡ true)
    × (or_else t.shell_streamed 0 ≡ n)
    × (d.stdout ≡ tail (take n output))
    × (d.truncated ≡ ltb max_stream_chars n)
    × (is_settled d.background ≡ false)
    × (n ≤ length output)

-- The frame, live or a checkpoint, of a piece of the output.
abbrev pub piece : String → Text → ℕ × ℕ → OutputPayload
piece id output (from, to) = record {
  id = id;
  chunk = drop from (take to output);
  reset = false;
  truncated = false;
  from = some from;
  to = some to;
}

module _ (id : String) (output : Text) where
  -- The part of a piece that is new is what the output has behind the first `n` units.
  added_piece :
      (from to n : ℕ)
      → from ≤ n
      → n < to
      → to ≤ length output
      → added_part (piece id output (from, to)) n ≡ drop n (take to output)
  added_piece from to n near new in_output =
      let size : length (drop from (take to output)) ≡ to - from =
        length-drop from (take to output) ∙ ap (λ k. k - from) (length-take to output in_output) in
      let no_gap : ltb n from ≡ false = ground (arith, near) in
      rw no_gap (
        ap (λ k. drop k (drop from (take to output))) (ap (λ k. k - (to - n)) size)
        ∙ drop-drop (to - from - (to - n)) from (take to output)
        ∙ ap (λ k. drop k (take to output)) (omega arith))

  pieces_joined :
      (n to : ℕ)
      → n ≤ to
      → tail (tail (take n output) ++ drop n (take to output)) ≡ tail (take to output)
  pieces_joined n to le =
      tail-append (take n output) (drop n (take to output))
      ∙ ap tail (take-drop_append n to output le)

  flag_joined :
      (n to : ℕ)
      → n < to
      → to ≤ length output
      → (ltb max_stream_chars (length (tail (take n output) ++ drop n (take to output)))
          || ltb max_stream_chars n)
        ≡ ltb max_stream_chars to
  flag_joined n to new in_output =
      let a : length (tail (take n output)) ≡ min n max_stream_chars =
        length-tail (take n output)
        ∙ ap (λ k. min k max_stream_chars) (length-take n output (omega arith)) in
      let b : length (drop n (take to output)) ≡ to - n =
        length-drop n (take to output) ∙ ap (λ k. k - n) (length-take to output in_output) in
      let c = length-append (tail (take n output)) (drop n (take to output)) in
      ground (arith, a, b, c)

  grown : ToolBlock → ShellDetails → ℕ → Text → Bool → ToolBlock
  grown t d to s cut = record t {
    shell_streamed = some to;
    details =
        some (shell (record d { stdout = s; truncated = cut; background = some shell_running }));
  }

  output_to-shell :
      (p : OutputPayload) (t : ToolBlock) (d : ShellDetails)
      → str_eq t.id p.id ≡ true
      → t.details ≡ some (shell d)
      → output_to p t ≡ take_output p t d
  output_to-shell p t d its details = rw its (rw details refl)

  take_output_old :
      (from to n : ℕ) (t : ToolBlock) (d : ShellDetails)
      → or_else t.shell_streamed 0 ≡ n
      → leb to n ≡ true
      → take_output (piece id output (from, to)) t d ≡ t
  unfolding take_output
  take_output_old from to n t d have old =
      let reached : leb to (or_else t.shell_streamed 0) ≡ true = ap (leb to) have ∙ old in
      let stays : (is_settled d.background || (not false && leb to (or_else t.shell_streamed 0)))
          ≡ true =
        ground (arith, reached) in
      rw (stays, take_output) refl

  take_output_new :
      (from to n : ℕ) (t : ToolBlock) (d : ShellDetails)
      → or_else t.shell_streamed 0 ≡ n
      → leb to n ≡ false
      → ltb n from ≡ false
      → is_settled d.background ≡ false
      → let next = append_stream_tail d.stdout (added_part (piece id output (from, to)) n) in
        take_output (piece id output (from, to)) t d
        ≡ grown t d to next.text (next.truncated || false || false || d.truncated)
  unfolding take_output grown
  take_output_new from to n t d have new no_gap unsettled =
      rw (have, take_output) (rw (unsettled, take_output) (rw new (rw no_gap refl)))

  grown-HasOutput :
      (t : ToolBlock) (d : ShellDetails) (to : ℕ) (s : Text) (cut : Bool)
      → str_eq t.id id ≡ true
      → s ≡ tail (take to output)
      → cut ≡ ltb max_stream_chars to
      → to ≤ length output
      → HasOutput id output to (grown t d to s cut)
  unfolding grown
  grown-HasOutput t d to s cut its e f le = (
    record d { stdout = s; truncated = cut; background = some shell_running },
    refl,
    its,
    refl,
    e,
    f,
    refl,
    le,
  )

  -- A piece that starts where the card is or before brings the card to the end of the piece, or
  -- leaves it where it is.
  take_piece :
      (from to n : ℕ) (t : ToolBlock)
      → from ≤ n
      → to ≤ length output
      → HasOutput id output n t
      → HasOutput id output (max n to) (output_to (piece id output (from, to)) t)
  unfolding take_output
  take_piece from to n t near in_output (d, details, its, have, out, flag, unsettled, within) =
      elim (Bool-cases (leb to n)) [
        | inl old ↦
            let same : max n to ≡ n = ground (arith, old) in
            subst (λ k. HasOutput id output k (output_to (piece id output (from, to)) t)) (sym same)
              (subst (HasOutput id output n)
                (sym (
                  output_to-shell (piece id output (from, to)) t d its details
                  ∙ take_output_old from to n t d have old))
                (d, details, its, have, out, flag, unsettled, within))
        | inr new ↦
            let same : max n to ≡ to = ground (arith, new) in
            let no_gap : ltb n from ≡ false = ground (arith, near) in
            let further : n < to = ground (arith, new) in
            let next = append_stream_tail d.stdout (added_part (piece id output (from, to)) n) in
            let joined : d.stdout ++ added_part (piece id output (from, to)) n
                ≡ tail (take n output) ++ drop n (take to output) =
              ap (λ s. s ++ added_part (piece id output (from, to)) n) out
              ∙ ap (λ s. tail (take n output) ++ s)
                  (added_piece from to n near further in_output) in
            let (e, f) = appended d.stdout (added_part (piece id output (from, to)) n) in
            subst (λ k. HasOutput id output k (output_to (piece id output (from, to)) t)) (sym same)
              (subst (HasOutput id output to)
                (sym (
                  output_to-shell (piece id output (from, to)) t d its details
                  ∙ take_output_new from to n t d have new no_gap unsettled))
                (grown-HasOutput t d to next.text (next.truncated || false || false || d.truncated)
                  its (e ∙ ap tail joined ∙ pieces_joined n to (omega arith))
                  (or_false next.truncated d.truncated
                    ∙ rw (f, joined, flag) (flag_joined n to further in_output))
                  in_output))
      ]

  -- The pieces in the order in which they arrive: none leaves a gap. And how far they go.
  abbrev pub Follow : ℕ → List (ℕ × ℕ) → Type 0
  Follow n [] = Unit
  Follow n ((from, to) ∷ pieces) = (from ≤ n) × (to ≤ length output) × Follow (max n to) pieces

  abbrev pub reached : ℕ → List (ℕ × ℕ) → ℕ
  reached n [] = n
  reached n ((from, to) ∷ pieces) = reached (max n to) pieces

  abbrev pub deliver : List (ℕ × ℕ) → List StreamingBlock → List StreamingBlock
  deliver [] blocks = blocks
  deliver (p ∷ pieces) blocks = deliver pieces (apply_shell_output blocks (piece id output p))

  get_elem-map :
      (f : StreamingBlock → StreamingBlock) (blocks : List StreamingBlock) (i : ℕ)
      (b : StreamingBlock)
      → get_elem? blocks i ≡ some b
      → get_elem? (map f blocks) i ≡ some (f b)
  get_elem-map f [] i b h = ground (arith, h)
  get_elem-map f (c ∷ blocks) zero b h = ap (λ o. some (f (or_else o b))) h
  get_elem-map f (c ∷ blocks) (suc i) b h = get_elem-map f blocks i b h

  -- The frames of one output, live ones and checkpoints, overlapping or delivered twice, in any order
  -- that leaves no gap: the card ends with the tail of the output as far as the frames went, marked as
  -- cut exactly where that is longer than what a card keeps.
  pub apply_shell_output-HasOutput :
      (pieces : List (ℕ × ℕ)) (blocks : List StreamingBlock) (i n : ℕ) (t : ToolBlock)
      → get_elem? blocks i ≡ some (tool t)
      → HasOutput id output n t
      → Follow n pieces
      → (u : ToolBlock) × (get_elem? (deliver pieces blocks) i ≡ some (tool u))
        × HasOutput id output (reached n pieces) u
  unfolding apply_shell_output
  apply_shell_output-HasOutput [] blocks i n t e h f = (t, e, h)
  apply_shell_output-HasOutput ((from, to) ∷ pieces) blocks i n t e h (near, in_output, later) =
      apply_shell_output-HasOutput pieces (apply_shell_output blocks (piece id output (from, to))) i
        (max n to) (output_to (piece id output (from, to)) t)
        (get_elem-map (on_tools (output_to (piece id output (from, to)))) blocks i (tool t) e)
        (take_piece from to n t near in_output h) later
