-- ===== src/Runs/Codec.antt =====
-- src/lib/runtime/sse-codec.ts: the frames of a stream, as text. `stringify` is the engine's.
use agent_studio.Shared.{
  ℕ, zero, suc, ◌+◌, ◌/◌, ◌%◌, Option, none, some, [], ◌∷◌, ◌++◌, ltb, if◌then◌else◌,
}
use agent_studio.Shared.Text.{Text, units}

-- The decimal digits of a number, on fuel; a number has no more digits than its own value and one.
unfoldable pub digits_onto : ℕ → ℕ → Text → Text
digits_onto zero n rest = rest
digits_onto (suc fuel) n rest =
    let more = digits_onto fuel (n / 10) ((b'0' + n % 10) ∷ rest) in
    if ltb n 10 then (b'0' + n) ∷ rest else more

abbrev pub show_ℕ : ℕ → Text
show_ℕ n = digits_onto (suc n) n []

pub record Event (P : Type 0) : Type 0 where
  pub seq : ℕ
  pub name : Text
  pub payload : P

module _ {P : Type 0} (stringify : P → Text) where
  abbrev pub id_line : Option ℕ → Text
  id_line none = []
  id_line (some seq) = units "id: " ++ (show_ℕ seq ++ 10 ∷ [])

  unfoldable pub encode_sse_frame : Text → P → Option ℕ → Text
  unfolding digits_onto
  encode_sse_frame name payload seq =
      id_line seq
      ++ (units "event: " ++ (name ++ 10 ∷ (units "data: " ++ (stringify payload ++ 10 ∷ 10 ∷ []))))

  unfoldable pub encode_sse_data : P → Text
  encode_sse_data payload = units "data: " ++ (stringify payload ++ 10 ∷ 10 ∷ [])
