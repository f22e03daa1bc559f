-- ===== src/Orchestration/Store/Works.antt =====
-- src/domains/orchestration/sqlite-store.ts: `getImportedWork` and `getWork`.
use mathlib.Core.Option
use agent_pool.Prelude.{ℕ, Bool, Option, Text, text_eq, select_one}
use agent_pool.Orchestration.Store.Schema.{Db, WorkRecord}

abbrev pub work_at : Text → WorkRecord → Bool
work_at w r = text_eq r.work_id w

unfoldable pub find_work : Db → Text → Option WorkRecord
find_work db w = select_one (work_at w) db.works

pub record ImportedWork : Type 0 where
  pub work_id : Text
  pub version : ℕ

unfoldable pub get_imported_work : Db → Text → Option ImportedWork
unfolding find_work
get_imported_work db w =
    Option.map (λ r. record { work_id = r.work_id; version = r.version }) (find_work db w)

pub record WorkTarget : Type 0 where
  pub repo : Text
  pub branch : Text

unfoldable pub get_work : Db → Text → Option WorkTarget
unfolding find_work
get_work db w = Option.map (λ r. record { repo = r.repo; branch = r.branch }) (find_work db w)
