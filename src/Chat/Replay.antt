-- ===== src/Chat/Replay.antt =====
-- Frames that a resumed stream delivers again.
use agent_studio.Shared.{
  String, Bool, true, false, Option, none, some, List, [], ◌∷◌, ◌++◌, ◌≡◌, refl, sym, ap, ◌∙◌,
  subst, arith, map, any, All, str_eq_refl, Bool-cases, Option-cases, inl, inr,
}
use agent_studio.Chat.Blocks.{
  ToolBlock, StreamingBlock, text, tool, thinking, subagent, notice, collapse, is_tool, on_tools,
  if_given, find_first, on_first,
}
use agent_studio.Chat.Tools.{
  ResultPayload, land, orphan, is_waiting_card, wants_card, ask_user_card, result_by_id,
  apply_tool_result,
}

if_given_twice :
    {A : Type 0} (new old : Option A) → if_given new (if_given new old) ≡ if_given new old
if_given_twice none old = refl
if_given_twice (some a) old = refl

if_given_self : {A : Type 0} (new : Option A) → if_given new new ≡ new
if_given_self none = refl
if_given_self (some a) = refl

land_twice :
    (p : ResultPayload) (id : String) (t : ToolBlock) → land p id (land p id t) ≡ land p id t
land_twice p id t =
    ap (λ d. record (land p id t) { details = d }) (if_given_twice p.details t.details)

find-any :
    (q : StreamingBlock → Bool) (bs : List StreamingBlock) (b : StreamingBlock)
    → find_first q bs ≡ some b
    → any q bs ≡ true
unfolding find_first
find-any q [] b h = ground (arith, h)
find-any q (c ∷ bs) b h = elim (Bool-cases (q c)) [
  | inl here ↦ rw here refl
  | inr other ↦ ground (arith, other, find-any q bs b (rw (other, find_first) at h))
]

find-none :
    (q : StreamingBlock → Bool) (bs : List StreamingBlock)
    → find_first q bs ≡ none
    → any q bs ≡ false
unfolding find_first
find-none q [] h = refl
find-none q (c ∷ bs) h = elim (Bool-cases (q c)) [
  | inl here ↦ ground (arith, rw (here, find_first) at h)
  | inr other ↦ ground (arith, other, find-none q bs (rw (other, find_first) at h))
]

module _ (p q : StreamingBlock → Bool) (f g : ToolBlock → ToolBlock)
    (marks : (b : StreamingBlock) → p b ≡ true → q (on_tools f b) ≡ true)
    (settled : (t : ToolBlock) → g (f t) ≡ f t) where
  on_tools_settled : (b : StreamingBlock) → on_tools g (on_tools f b) ≡ on_tools f b
  on_tools_settled (text t) = refl
  on_tools_settled (tool t) = ap tool (settled t)
  on_tools_settled (thinking t) = refl
  on_tools_settled (subagent t) = refl
  on_tools_settled (notice t) = refl

  -- What changed the first block with a mark is found under the other mark, and changes no more.
  on_first_again :
      (bs : List StreamingBlock) (b : StreamingBlock)
      → All (λ c. p c ≡ false → q c ≡ false) bs
      → find_first p bs ≡ some b
      → ((c : StreamingBlock) × (find_first q (on_first p f bs) ≡ some c))
        × (on_first q g (on_first p f bs) ≡ on_first p f bs)
  unfolding find_first on_first
  on_first_again [] b h e = ground (arith, e)
  on_first_again (c ∷ bs) b (h, k) e = elim (Bool-cases (p c)) [
    | inl here ↦
        let there : q (on_tools f c) ≡ true = marks c here in
        rw (here, on_first)
          (
            (on_tools f c, rw (there, find_first) refl),
            rw (there, on_first) (ap (λ x. x ∷ bs) (on_tools_settled c)),
          )
    | inr other ↦
        let not_there : q c ≡ false = h other in
        let ((d, i), j) = on_first_again bs b k (rw (other, find_first) at e) in
        rw (other, on_first)
          ((d, rw (not_there, find_first) i), rw (not_there, on_first) (ap (λ xs. c ∷ xs) j))
  ]

same_marks :
    (q : StreamingBlock → Bool) (bs : List StreamingBlock) → All (λ c. q c ≡ false → q c ≡ false) bs
same_marks q [] = tt
same_marks q (c ∷ bs) = ((λ h. h), same_marks q bs)

none_there :
    (p q : StreamingBlock → Bool) (bs : List StreamingBlock)
    → any q bs ≡ false
    → All (λ c. p c ≡ false → q c ≡ false) bs
none_there p q [] h = tt
none_there p q (c ∷ bs) h = ((λ _. ground (arith, h)), none_there p q bs (ground (arith, h)))

is_tool_marks :
    (p : ResultPayload) (b : StreamingBlock)
    → is_tool p.id b ≡ true
    → is_tool p.id (on_tools (λ t. land p t.id t) b) ≡ true
is_tool_marks p (tool t) h = h
is_tool_marks p (text t) h = h
is_tool_marks p (thinking t) h = h
is_tool_marks p (subagent t) h = h
is_tool_marks p (notice t) h = h

card_marks :
    (p : ResultPayload) (b : StreamingBlock)
    → is_waiting_card b ≡ true
    → is_tool p.id (on_tools (land p p.id) b) ≡ true
card_marks p (tool t) h = str_eq_refl p.id
card_marks p (text t) h = h
card_marks p (thinking t) h = h
card_marks p (subagent t) h = h
card_marks p (notice t) h = h

is_tool-collapse : (id : String) (b : StreamingBlock) → is_tool id (collapse b) ≡ is_tool id b
is_tool-collapse id (tool t) = refl
is_tool-collapse id (text t) = refl
is_tool-collapse id (thinking t) = refl
is_tool-collapse id (subagent t) = refl
is_tool-collapse id (notice t) = refl

-- A result whose call is in no block.
orphan_found :
    (p : ResultPayload) (bs : List StreamingBlock)
    → find_first (is_tool p.id) bs ≡ none
    → let once = map collapse bs ++ tool (orphan p) ∷ [] in
      (find_first (is_tool p.id) once ≡ some (tool (orphan p)))
      × (on_first (is_tool p.id) (λ t. land p t.id t) once ≡ once)
unfolding find_first on_first
orphan_found p [] e =
    let there : is_tool p.id (tool (orphan p)) ≡ true = str_eq_refl p.id in
    (
      rw (there, find_first) refl,
      rw (there, on_first)
          (ap (λ d. tool (record (orphan p) { details = d }) ∷ []) (if_given_self p.details)),
    )
orphan_found p (c ∷ bs) e = elim (Bool-cases (is_tool p.id c)) [
  | inl here ↦ ground (arith, rw (here, find_first) at e)
  | inr other ↦
      let still : is_tool p.id (collapse c) ≡ false = is_tool-collapse p.id c ∙ other in
      let (i, j) = orphan_found p bs (rw (other, find_first) at e) in
      (rw (still, find_first) i, rw (still, on_first) (ap (λ xs. collapse c ∷ xs) j))
]

-- A result that changes nothing and has its call.
abbrev pub IsSettledBy : ResultPayload → List StreamingBlock → Type 0
IsSettledBy p blocks =
    ((apply_tool_result blocks p).blocks ≡ blocks) × ((apply_tool_result blocks p).missing ≡ false)

card_unwanted :
    (bs : List StreamingBlock) (p : ResultPayload)
    → any (is_tool p.id) bs ≡ true
    → ask_user_card bs p ≡ none
unfolding ask_user_card
card_unwanted bs p present =
    let unwanted : wants_card bs p ≡ false = ground (arith, present) in
    rw (unwanted, ask_user_card) refl

-- Where a call has the id, the result goes there.
result_found :
    (bs : List StreamingBlock) (p : ResultPayload) (b : StreamingBlock)
    → find_first (is_tool p.id) bs ≡ some b
    → on_first (is_tool p.id) (λ t. land p t.id t) bs ≡ bs
    → IsSettledBy p bs
unfolding apply_tool_result
result_found bs p b e h =
    let no_card = card_unwanted bs p (find-any (is_tool p.id) bs b e) in
    rw (no_card, apply_tool_result) (rw (e, result_by_id) (h, refl))

card_wanted :
    (bs : List StreamingBlock) (p : ResultPayload) (card : StreamingBlock)
    → ask_user_card bs p ≡ some card
    → (any (is_tool p.id) bs ≡ false) × (find_first is_waiting_card bs ≡ some card)
unfolding ask_user_card
card_wanted bs p card h = elim (Bool-cases (wants_card bs p)) [
  | inl wanted ↦ (ground (arith, wanted), rw (wanted, ask_user_card) at h)
  | inr other ↦ ground (arith, rw (other, ask_user_card) at h)
]

result_to_orphan :
    (bs : List StreamingBlock) (p : ResultPayload)
    → ask_user_card bs p ≡ none
    → find_first (is_tool p.id) bs ≡ none
    → (apply_tool_result bs p).blocks ≡ map collapse bs ++ tool (orphan p) ∷ []
unfolding apply_tool_result
result_to_orphan bs p no_card absent =
    rw (no_card, apply_tool_result) (rw (absent, result_by_id) refl)

result_to_call :
    (bs : List StreamingBlock) (p : ResultPayload) (b : StreamingBlock)
    → ask_user_card bs p ≡ none
    → find_first (is_tool p.id) bs ≡ some b
    → (apply_tool_result bs p).blocks ≡ on_first (is_tool p.id) (λ t. land p t.id t) bs
unfolding apply_tool_result
result_to_call bs p b no_card e = rw (no_card, apply_tool_result) (rw (e, result_by_id) refl)

result_to_card :
    (bs : List StreamingBlock) (p : ResultPayload) (card : StreamingBlock)
    → ask_user_card bs p ≡ some card
    → (apply_tool_result bs p).blocks ≡ on_first is_waiting_card (land p p.id) bs
unfolding apply_tool_result
result_to_card bs p card e = rw (e, apply_tool_result) refl

-- A result that is delivered again finds its call and changes nothing more, also where it went to a
-- question card or had no call the first time.
pub apply_tool_result_replayed :
    (blocks : List StreamingBlock) (p : ResultPayload)
    → let once = (apply_tool_result blocks p).blocks in
      ((apply_tool_result once p).blocks ≡ once) × ((apply_tool_result once p).missing ≡ false)
apply_tool_result_replayed blocks p =
    let its = is_tool p.id in
    let update : ToolBlock → ToolBlock = λ t. land p t.id t in
    elim (Option-cases (ask_user_card blocks p)) [
      | inl no_card ↦ elim (Option-cases (find_first its blocks)) [
        | inl absent ↦
            let (i, j) = orphan_found p blocks absent in
            subst (IsSettledBy p) (sym (result_to_orphan blocks p no_card absent))
              (result_found (map collapse blocks ++ tool (orphan p) ∷ []) p (tool (orphan p)) i j)
        | inr (b, e) ↦
            let ((c, i), j) =
              on_first_again its its update update (is_tool_marks p) (λ t. land_twice p t.id t)
                blocks b (same_marks its blocks) e in
            subst (IsSettledBy p) (sym (result_to_call blocks p b no_card e))
              (result_found (on_first its update blocks) p c i j)
      ]
      | inr (card, e) ↦
          let (absent, found_card) = card_wanted blocks p card e in
          let ((c, i), j) =
            on_first_again is_waiting_card its (land p p.id) update (card_marks p)
              (λ t. land_twice p p.id t) blocks card (none_there is_waiting_card its blocks absent)
              found_card in
          subst (IsSettledBy p) (sym (result_to_card blocks p card e))
            (result_found (on_first is_waiting_card (land p p.id) blocks) p c i j)
    ]
