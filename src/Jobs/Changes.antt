-- ===== src/Jobs/Changes.antt =====
-- What one operation may do to the `jobs` table, and the invariant that every such change keeps.
use agent_studio.Shared.{
  max, ◌+◌, ◌≤◌, String, Bool, true, false, ◌&&◌, none, some, List, [], ◌∷◌, ◌≡◌, arith, All,
  str_eq, eq_iff, Bool-cases, inl, inr, if◌then◌else◌,
}
use agent_studio.Jobs.Schema.{JobStatus, pending, leased, retry_wait, JobRow}
use agent_studio.Jobs.Table.{update_rows, find_row, conflicts, index_holds}
use agent_studio.Jobs.Rows.{
  HasDistinctIds, HasDistinctIds-update_rows, IsIndexSafe, index_holds-update_rows,
}

-- The statuses in which a further attempt is still to come.
abbrev pub is_waiting : JobStatus → Bool
is_waiting pending = true
is_waiting leased = true
is_waiting retry_wait = true
is_waiting _ = false

-- A job has made at most its allowed attempts (one, where none are allowed), and one fewer while it
-- waits for another.
abbrev pub IsPaced : JobRow → Type 0
IsPaced r =
    (if is_waiting r.status then r.attempt_count + 1 else r.attempt_count) ≤ max 1 r.max_attempts

-- A set of the row with the id, in a table, keeps its pace.
abbrev pub KeepsPace : String → (JobRow → Bool) → (JobRow → JobRow) → List JobRow → Type 0
KeepsPace id guard set rows =
    (r : JobRow) → find_row id rows ≡ some r → guard r ≡ true → IsPaced r → IsPaced (set r)

abbrev pub KeepsId : (JobRow → JobRow) → Type 0
KeepsId set = (r : JobRow) → (set r).id ≡ r.id

pub data Change (from : List JobRow) : List JobRow → Type 0 where
  same : Change from from
  inserted :
      (row : JobRow)
      → find_row row.id from ≡ none
      → conflicts row from ≡ false
      → IsPaced row
      → Change from (row ∷ from)
  updated :
      (id : String) (guard : JobRow → Bool) (set : JobRow → JobRow)
      → KeepsId set
      → IsIndexSafe guard set
      → KeepsPace id guard set from
      → Change from (update_rows id guard set from).0
  checked :
      (id : String) (guard : JobRow → Bool) (set : JobRow → JobRow)
      → KeepsId set
      → index_holds (update_rows id guard set from).0 ≡ true
      → KeepsPace id guard set from
      → Change from (update_rows id guard set from).0

pub record Inv (rows : List JobRow) : Type 0 where
  pub distinct : HasDistinctIds rows
  pub unique : index_holds rows ≡ true
  pub paced : All IsPaced rows

tail_pace :
    (id : String) (guard : JobRow → Bool) (set : JobRow → JobRow) (r : JobRow) (rows : List JobRow)
    → find_row r.id rows ≡ none
    → KeepsPace id guard set (r ∷ rows)
    → KeepsPace id guard set rows
unfolding find_row
tail_pace id guard set r rows fresh keep x e = elim (Bool-cases (str_eq r.id id)) [
  | inl hit ↦ absurd (ground (arith, (eq_iff r.id id).0 hit))
  | inr miss ↦ keep x (rw miss e)
]

IsPaced-update_rows :
    (id : String) (guard : JobRow → Bool) (set : JobRow → JobRow) (rows : List JobRow)
    → HasDistinctIds rows
    → KeepsPace id guard set rows
    → All IsPaced rows
    → All IsPaced (update_rows id guard set rows).0
unfolding update_rows
IsPaced-update_rows id guard set [] d keep p = tt
IsPaced-update_rows id guard set (r ∷ rows) d keep p =
    let rest =
      IsPaced-update_rows id guard set rows d.1 (tail_pace id guard set r rows d.0 keep) p.1 in
    elim (Bool-cases (str_eq r.id id && guard r)) [
      | inl hit ↦ rw hit (keep r (unfold find_row in ground arith) (ground arith) p.0, p.1)
      | inr miss ↦ rw miss (p.0, rest)
    ]

pub Change-Inv : {from to : List JobRow} → Change from to → Inv from → Inv to
Change-Inv same i = i
Change-Inv (inserted row fresh free pace) i = record {
  distinct = (fresh, i.distinct);
  unique = unfold index_holds in rw (free, i.unique);
  paced = (pace, i.paced);
}
Change-Inv {from} (updated id guard set keeps safe pace) i = record {
  distinct = HasDistinctIds-update_rows id guard set keeps from i.distinct;
  unique = index_holds-update_rows id guard set safe from i.unique;
  paced = IsPaced-update_rows id guard set from i.distinct pace i.paced;
}
Change-Inv {from} (checked id guard set keeps holds pace) i = record {
  distinct = HasDistinctIds-update_rows id guard set keeps from i.distinct;
  unique = holds;
  paced = IsPaced-update_rows id guard set from i.distinct pace i.paced;
}
