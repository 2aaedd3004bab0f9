-- ===== src/Chat/Tail.antt =====
-- The tail of a text, which is what appendStreamTail keeps.
use agent_studio.Shared.{
  ℕ, zero, suc, ◌+◌, ◌-◌, ◌≤◌, min, Bool, true, false, ◌||◌, [], ◌∷◌, ◌++◌, ◌≡◌, refl, sym, ap, ◌∙◌,
  arith, ltb, leb, length, length-append, take, drop, Bool-cases, inl, inr,
}
use agent_studio.Shared.Text.{Text}
use agent_studio.Chat.Shell.{max_stream_chars, clip_tail, append_stream_tail}

pub drop-append : (n : ℕ) (s t : Text) → n ≤ length s → drop n s ++ t ≡ drop n (s ++ t)
drop-append zero s t h = refl
drop-append (suc n) [] t h = absurd (omega (arith, h))
drop-append (suc n) (c ∷ s) t h = drop-append n s t (omega (arith, h))

pub drop-nil : (n : ℕ) → drop {A = ℕ} n [] ≡ []
drop-nil zero = refl
drop-nil (suc n) = refl

pub drop-drop : (m n : ℕ) (s : Text) → drop m (drop n s) ≡ drop (n + m) s
drop-drop m zero s = ap (λ k. drop k s) (omega arith)
drop-drop m (suc n) [] = drop-nil m ∙ sym (drop-nil (suc n + m))
drop-drop m (suc n) (c ∷ s) =
    let e : suc (n + m) ≡ suc n + m = omega arith in drop-drop m n s ∙ ap (λ k. drop k (c ∷ s)) e

pub length-drop : (n : ℕ) (s : Text) → length (drop n s) ≡ length s - n
length-drop zero s = omega arith
length-drop (suc n) [] = omega arith
length-drop (suc n) (c ∷ s) = length-drop n s ∙ omega arith

pub length-take : (n : ℕ) (s : Text) → n ≤ length s → length (take n s) ≡ n
length-take zero s h = refl
length-take (suc n) [] h = absurd (omega (arith, h))
length-take (suc n) (c ∷ s) h = ap suc (length-take n s (omega (arith, h)))

pub take-drop_append : (m n : ℕ) (s : Text) → m ≤ n → take m s ++ drop m (take n s) ≡ take n s
take-drop_append zero n s h = refl
take-drop_append (suc m) zero s h = absurd (omega (arith, h))
take-drop_append (suc m) (suc n) [] h = refl
take-drop_append (suc m) (suc n) (c ∷ s) h =
    ap (λ t. c ∷ t) (take-drop_append m n s (omega (arith, h)))

-- What a card keeps of an output.
unfoldable pub tail : Text → Text
tail s = drop (length s - max_stream_chars) s

pub clip_tail-tail :
    (s : Text)
    → ((clip_tail s).text ≡ tail s) × ((clip_tail s).truncated ≡ ltb max_stream_chars (length s))
unfolding clip_tail tail
clip_tail-tail s = elim (Bool-cases (leb (length s) max_stream_chars)) [
  | inl short ↦
      let e : length s - max_stream_chars ≡ 0 = ground (arith, short) in
      rw (short, clip_tail) (rw e refl, ground (arith, short))
  | inr long ↦ rw (long, clip_tail) (refl, ground (arith, long))
]

pub or_false : (a b : Bool) → (a || false || false || b) ≡ (a || b)
or_false true b = refl
or_false false b = refl

pub appended :
    (s t : Text)
    → ((append_stream_tail s t).text ≡ tail (s ++ t))
      × ((append_stream_tail s t).truncated ≡ ltb max_stream_chars (length (s ++ t)))
unfolding append_stream_tail
appended s t = clip_tail-tail (s ++ t)

-- The tail of a tail with more behind it.
pub tail-append : (s t : Text) → tail (tail s ++ t) ≡ tail (s ++ t)
unfolding tail
tail-append s t =
    let n : ℕ = length s - max_stream_chars in
    let m : ℕ = length (s ++ t) - n - max_stream_chars in
    let whole : length (s ++ t) ≡ length s + length t = length-append s t in
    let at : drop n s ++ t ≡ drop n (s ++ t) = drop-append n s t (omega arith) in
    let size : length (drop n (s ++ t)) ≡ length (s ++ t) - n = length-drop n (s ++ t) in
    ap tail at
    ∙ ap (λ k. drop (k - max_stream_chars) (drop n (s ++ t))) size
    ∙ drop-drop m n (s ++ t)
    ∙ ap (λ k. drop k (s ++ t)) (omega (arith, whole))

pub length-tail : (s : Text) → length (tail s) ≡ min (length s) max_stream_chars
unfolding tail
length-tail s = length-drop (length s - max_stream_chars) s ∙ omega arith
