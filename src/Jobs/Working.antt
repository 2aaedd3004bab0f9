-- ===== src/Jobs/Working.antt =====
-- A turn of the worker consists of the queue's operations.
use agent_studio.Shared.{ℕ, String, Bool, true, false, Option, none, some, List, [], ◌∷◌, ◌≡◌}
use agent_studio.Jobs.Schema.{JobRow, Db, leased}
use agent_studio.Jobs.Table.{find_row}
use agent_studio.Jobs.Steps.{Reach}
use agent_studio.Jobs.Worker.{Handler, work_on}

-- While every handler runs, only operations of the queue change the database.
abbrev pub AreSteps : List (String × Handler) → Type 0
AreSteps [] = Unit
AreSteps ((t, h) ∷ rest) = ((job : JobRow) (db : Db) → Reach db (h job db).0) × AreSteps rest

abbrev IsStep : Option Handler → Type 0
IsStep none = Unit
IsStep (some h) = (job : JobRow) (db : Db) → Reach db (h job db).0

-- What others do keeps the job that was claimed leased.
abbrev pub KeepsLeased : (Db → Db) → Db → Option JobRow → Type 0
KeepsLeased meanwhile claimed none = Unit
KeepsLeased meanwhile claimed (some job) =
    find_row job.id claimed.jobs ≡ some job
    → job.status ≡ leased
    → (stored : JobRow) × (stored.status ≡ leased)
      × (find_row job.id (meanwhile claimed).jobs ≡ some stored)

-- The database after the rest of a turn, with what it claimed.
abbrev rest_of_turn : (Db → Db) → List (String × Handler) → ℕ → ℕ → Db × Option JobRow → Db × Bool
rest_of_turn meanwhile handlers now later (claimed, none) = (claimed, false)
rest_of_turn meanwhile handlers now later (claimed, some job) =
    (work_on handlers now later job (meanwhile claimed), true)
