-- ===== src/Jobs/Rows.antt =====
-- Lemmas on the statements of Jobs/Table: what an update leaves, and what it finds.
use agent_studio.Shared.{
  String, Bool, true, false, ◌&&◌, none, some, List, [], ◌∷◌, ◌≡◌, refl, arith, any, All, str_eq,
}
use agent_studio.Jobs.Schema.{JobRow, is_active}
use agent_studio.Jobs.Table.{any_row, collides, update_rows, find_row, conflicts, index_holds}

-- The ids of the rows are distinct: `id` is the primary key.
abbrev pub HasDistinctIds : List JobRow → Type 0
HasDistinctIds [] = Unit
HasDistinctIds (row ∷ rows) = (find_row row.id rows ≡ none) × HasDistinctIds rows

module _ (id : String) (guard : JobRow → Bool) (set : JobRow → JobRow) where
  -- Where the row that is found passes the guard, it is the one that is set and returned.
  pub update_rows_of_found :
      (rows : List JobRow) (row : JobRow)
      → find_row id rows ≡ some row
      → guard row ≡ true
      → (update_rows id guard set rows).1 ≡ some (set row)
  unfolding find_row update_rows
  update_rows_of_found [] row h g = ground arith
  update_rows_of_found (r ∷ rows) row h g = ground (arith, update_rows_of_found rows row)

  -- Where no row of that id passes the guard, nothing changes.
  pub update_rows_of_unheld :
      (rows : List JobRow)
      → any (λ r. str_eq r.id id && guard r) rows ≡ false
      → update_rows id guard set rows ≡ (rows, none)
  unfolding update_rows
  update_rows_of_unheld [] h = refl
  update_rows_of_unheld (r ∷ rows) h = ground (arith, update_rows_of_unheld rows)

  -- What holds of every row before holds after, if setting a row that passes keeps it.
  pub All-update_rows :
      (P : JobRow → Type 0) (rows : List JobRow)
      → ((r : JobRow) → str_eq r.id id ≡ true → guard r ≡ true → P r → P (set r))
      → All P rows
      → All P (update_rows id guard set rows).0
  unfolding update_rows
  All-update_rows P [] keep h = tt
  All-update_rows P (r ∷ rows) keep h = ground (arith, keep r, All-update_rows P rows keep h.1)

module _ (id : String) (guard : JobRow → Bool) (set : JobRow → JobRow)
    (keeps_id : (r : JobRow) → (set r).id ≡ r.id) where
  -- An update neither adds nor removes an id.
  pub find_row-update_rows-none :
      (j : String) (rows : List JobRow)
      → find_row j rows ≡ none
      → find_row j (update_rows id guard set rows).0 ≡ none
  unfolding find_row update_rows
  find_row-update_rows-none j [] h = refl
  find_row-update_rows-none j (r ∷ rows) h =
      ground (arith, keeps_id r, find_row-update_rows-none j rows)

  pub HasDistinctIds-update_rows :
      (rows : List JobRow) → HasDistinctIds rows → HasDistinctIds (update_rows id guard set rows).0
  unfolding update_rows
  HasDistinctIds-update_rows [] h = tt
  HasDistinctIds-update_rows (r ∷ rows) h =
      ground (
        arith,
        keeps_id r,
        find_row-update_rows-none r.id rows,
        HasDistinctIds-update_rows rows h.1,
      )

  -- The row that is found and passes is found again as it was set.
  pub find_row-update_rows :
      (rows : List JobRow) (row : JobRow)
      → find_row id rows ≡ some row
      → guard row ≡ true
      → find_row id (update_rows id guard set rows).0 ≡ some (set row)
  unfolding find_row update_rows
  find_row-update_rows [] row h g = ground arith
  find_row-update_rows (r ∷ rows) row h g =
      ground (arith, keeps_id r, find_row-update_rows rows row)

-- An update by id alone is one with any guard that the found row passes.
pub update_rows_narrow :
    (id : String) (guard : JobRow → Bool) (set : JobRow → JobRow) (rows : List JobRow) (c : JobRow)
    → find_row id rows ≡ some c
    → guard c ≡ true
    → update_rows id any_row set rows ≡ update_rows id guard set rows
unfolding find_row update_rows
update_rows_narrow id guard set [] c e g = refl
update_rows_narrow id guard set (r ∷ rows) c e g =
    ground (arith, update_rows_narrow id guard set rows c)

-- A set that changes neither type nor key and wakes no inactive row keeps the unique index.
pub record IsIndexSafe (guard : JobRow → Bool) (set : JobRow → JobRow) : Type 0 where
  pub type_kept : (r : JobRow) → (set r).type ≡ r.type
  pub key_kept : (r : JobRow) → (set r).dedupe_key ≡ r.dedupe_key
  pub not_woken :
      (r : JobRow) → guard r ≡ true → is_active (set r).status ≡ true → is_active r.status ≡ true

module _ (id : String) (guard : JobRow → Bool) (set : JobRow → JobRow)
    (safe : IsIndexSafe guard set) where
  collides-set_left :
      (r s : JobRow) → guard r ≡ true → collides r s ≡ false → collides (set r) s ≡ false
  unfolding collides
  collides-set_left r s g h =
      rw (safe.type_kept r, safe.key_kept r) (ground (arith, safe.not_woken r g))

  collides-set_right :
      (r s : JobRow) → guard s ≡ true → collides r s ≡ false → collides r (set s) ≡ false
  unfolding collides
  collides-set_right r s g h =
      rw (safe.type_kept s, safe.key_kept s) (ground (arith, safe.not_woken s g))

  conflicts-update_rows :
      (r : JobRow) (rows : List JobRow)
      → conflicts r rows ≡ false
      → conflicts r (update_rows id guard set rows).0 ≡ false
  unfolding conflicts update_rows
  conflicts-update_rows r [] h = refl
  conflicts-update_rows r (s ∷ rows) h =
      ground (arith, collides-set_right r s, conflicts-update_rows r rows)

  conflicts-set :
      (r : JobRow) (rows : List JobRow)
      → guard r ≡ true
      → conflicts r rows ≡ false
      → conflicts (set r) rows ≡ false
  unfolding conflicts
  conflicts-set r [] g h = refl
  conflicts-set r (s ∷ rows) g h = ground (arith, collides-set_left r s g, conflicts-set r rows g)

  pub index_holds-update_rows :
      (rows : List JobRow)
      → index_holds rows ≡ true
      → index_holds (update_rows id guard set rows).0 ≡ true
  unfolding index_holds update_rows
  index_holds-update_rows [] h = refl
  index_holds-update_rows (r ∷ rows) h =
      ground
        (arith, conflicts-set r rows, conflicts-update_rows r rows, index_holds-update_rows rows)
