-- ===== src/Jobs/Table.antt =====
-- The statements that src/lib/jobs/jobs.server.ts makes on the `jobs` table, over lists of rows:
-- the partial unique index `jobs_type_dedupe_active_uidx`, `update … where id = … returning`,
-- and a search for the newest row.
use agent_studio.Shared.{
  String, Bool, false, true, not, ◌&&◌, Option, none, some, List, [], ◌∷◌, ltb, str_eq, any,
  if◌then◌else◌,
}
use agent_studio.Jobs.Schema.{JobRow, is_active}

-- Two keys that the unique index takes for one: SQL's null is equal to nothing.
abbrev pub same_key : Option String → Option String → Bool
same_key (some a) (some b) = str_eq a b
same_key _ _ = false

-- Two rows that the partial unique index does not allow together.
unfoldable pub collides : JobRow → JobRow → Bool
collides a b =
    is_active a.status
    && is_active b.status
    && str_eq a.type b.type
    && same_key a.dedupe_key b.dedupe_key

-- `update jobs set … where id = … and …`, `returning` the changed row. `id` is the primary key.
unfoldable pub update_rows :
    String → (JobRow → Bool) → (JobRow → JobRow) → List JobRow → List JobRow × Option JobRow
update_rows id guard set [] = ([], none)
update_rows id guard set (row ∷ rows) =
    let (rest, changed) = update_rows id guard set rows in
    if str_eq row.id id && guard row
    then (set row ∷ rows, some (set row))
    else (row ∷ rest, changed)

-- The guard of an update by `id` alone.
abbrev pub any_row : JobRow → Bool
any_row row = true

-- `select … where id = … limit 1`.
unfoldable pub find_row : String → List JobRow → Option JobRow
find_row id [] = none
find_row id (row ∷ rows) = if str_eq row.id id then some row else find_row id rows

-- `select … where … order by created_at desc limit 1`.
unfoldable pub newest : (JobRow → Bool) → List JobRow → Option JobRow
newest test [] = none
newest test (row ∷ rows) =
    let later = newest test rows in
    if test row
    then elim later [
      | none ↦ some row
      | some other ↦ if ltb row.created_at other.created_at then some other else some row
    ]
    else later

-- Whether the index refuses the row beside the others.
unfoldable pub conflicts : JobRow → List JobRow → Bool
conflicts row rows = any (collides row) rows

-- The partial unique index holds of the whole table.
unfoldable pub index_holds : List JobRow → Bool
index_holds [] = true
index_holds (row ∷ rows) = not (conflicts row rows) && index_holds rows
