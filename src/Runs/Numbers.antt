-- ===== src/Runs/Numbers.antt =====
-- The sequence number of a frame, printed by src/lib/runtime/sse-codec.ts and read again by
-- src/lib/chat/sse-consumer.ts.
use agent_studio.Shared.{
  ℕ, zero, suc, ◌+◌, ◌*◌, ◌-◌, ◌/◌, ◌%◌, ◌<◌, true, false, [], ◌∷◌, some, ◌≡◌, ◌≢◌, refl, ap, ◌∙◌,
  inl, inr, Bool-cases, arith, ◌==◌, ltb, All,
}
use agent_studio.Shared.Text.{Text, is_space, trim, trim_start}
use mathlib.Core.List.{reverse, reverse_aux, reverse-reverse}
use agent_studio.Runs.Codec.{digits_onto, show_ℕ}
use agent_studio.Runs.Consumer.{is_digit, int_from, parse_int}

abbrev pub IsDigit : ℕ → Type 0
IsDigit c = is_digit c ≡ true

pub digits_onto-IsDigit :
    (f n : ℕ) (rest : Text) → All IsDigit rest → All IsDigit (digits_onto f n rest)
unfolding digits_onto
digits_onto-IsDigit zero n rest h = h
digits_onto-IsDigit (suc f) n rest h = elim (Bool-cases (ltb n 10)) [
  | inl e ↦ rw e (ground arith, h)
  | inr e ↦ rw e (digits_onto-IsDigit f (n / 10) _ (ground arith, h))
]

int_from_step :
    (acc c : ℕ) (s : Text)
    → is_digit c ≡ true
    → int_from acc (c ∷ s) ≡ int_from (acc * 10 + (c - b'0')) s
unfolding int_from
int_from_step acc c s h = rw h refl

int_from-digits_onto :
    (f n : ℕ) (rest : Text) → n < f → int_from 0 (digits_onto f n rest) ≡ int_from n rest
unfolding digits_onto
int_from-digits_onto zero n rest h = absurd (omega arith)
int_from-digits_onto (suc f) n rest h = elim (Bool-cases (ltb n 10)) [
  | inl e ↦
      rw (e, int_from_step 0 (b'0' + n) rest (ground arith))
        (ap (λ (k : ℕ). int_from k rest) (omega arith))
  | inr e ↦
      rw
        (
          e,
          int_from-digits_onto f (n / 10) ((b'0' + n % 10) ∷ rest) (ground arith),
          int_from_step (n / 10) (b'0' + n % 10) rest (ground arith),
        )
        (ap (λ (k : ℕ). int_from k rest) (omega arith))
]

parse_int_digits : (s : Text) → s ≢ [] → All IsDigit s → parse_int s ≡ some (int_from 0 s)
unfolding parse_int
parse_int_digits [] h d = absurd (h refl)
parse_int_digits (c ∷ s) h d = rw d.0 refl

digits_onto-ne_nil : (f n : ℕ) (rest : Text) → rest ≢ [] → digits_onto f n rest ≢ []
unfolding digits_onto
digits_onto-ne_nil zero n rest h = h
digits_onto-ne_nil (suc f) n rest h = elim (Bool-cases (ltb n 10)) [
  | inl e ↦ rw e (λ p. cc p)
  | inr e ↦ rw e (digits_onto-ne_nil f (n / 10) _ (λ p. cc p))
]

show_ℕ-ne_nil : (n : ℕ) → show_ℕ n ≢ []
unfolding digits_onto
show_ℕ-ne_nil n = elim (Bool-cases (ltb n 10)) [
  | inl e ↦ rw e (λ p. cc p)
  | inr e ↦ rw e (digits_onto-ne_nil n (n / 10) _ (λ p. cc p))
]

-- What is printed of a number is read as the number.
pub parse_int-show_ℕ : (n : ℕ) → parse_int (show_ℕ n) ≡ some n
parse_int-show_ℕ n =
    parse_int_digits (show_ℕ n) (show_ℕ-ne_nil n) (digits_onto-IsDigit (suc n) n [] tt)
    ∙ ap (λ (k : ℕ). some k)
        (int_from-digits_onto (suc n) n [] (omega arith) ∙ unfold int_from in refl)

-- A text with no white space at its ends is left by `trim`.
trim_start_id : (c : ℕ) (s : Text) → is_space c ≡ false → trim_start (c ∷ s) ≡ c ∷ s
unfolding trim_start
trim_start_id c s h = rw h refl

All-reverse {ℓ} :
    (P : ℕ → Type ℓ) (s done : Text) → All P s → All P done → All P (reverse_aux s done)
All-reverse P [] done h k = k
All-reverse P (c ∷ s) done h k = All-reverse P s (c ∷ done) h.1 (h.0, k)

trim_start_clean : (s : Text) → All (λ c. is_space c ≡ false) s → trim_start s ≡ s
trim_start_clean [] h = unfold trim_start in refl
trim_start_clean (c ∷ s) h = trim_start_id c s h.0

pub trim_clean : (s : Text) → All (λ c. is_space c ≡ false) s → trim s ≡ s
unfolding trim
trim_clean s h =
    rw
      (
        trim_start_clean s h,
        trim_start_clean (reverse s) (All-reverse _ s [] h tt),
        reverse-reverse s,
      )
      refl

All-digits {ℓ} :
    (P : ℕ → Type ℓ) → ((c : ℕ) → IsDigit c → P c) → (s : Text) → All IsDigit s → All P s
All-digits P h [] d = tt
All-digits P h (c ∷ s) d = (h c d.0, All-digits P h s d.1)

digit_not_space : (c : ℕ) → IsDigit c → is_space c ≡ false
unfolding is_space
digit_not_space c h = ground arith

pub trim-show_ℕ : (n : ℕ) → trim (show_ℕ n) ≡ show_ℕ n
trim-show_ℕ n =
    trim_clean (show_ℕ n) (All-digits _ digit_not_space _ (digits_onto-IsDigit (suc n) n [] tt))

digit_not_newline : (c : ℕ) → IsDigit c → (c == 10) ≡ false
digit_not_newline c h = ground arith

-- No digit is the end of a line.
pub show_ℕ-one_line : (n : ℕ) → All (λ c. (c == 10) ≡ false) (show_ℕ n)
show_ℕ-one_line n = All-digits _ digit_not_newline _ (digits_onto-IsDigit (suc n) n [] tt)
