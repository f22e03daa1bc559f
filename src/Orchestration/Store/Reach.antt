-- ===== src/Orchestration/Store/Reach.antt =====
-- Databases that a history of calls of the store reaches.
use agent_pool.Prelude.{◌≡◌, refl, ap, ◌∙◌, List, [], ◌∷◌, ◌++◌, Text}
use agent_pool.Orchestration.Store.Schema.{Db}
use agent_pool.Orchestration.Store.Calls.{Call, step, run}

module _ (digest : Text → Text) where
  -- What is reached by calls of the store.
  abbrev pub Reaches : Db → Db → Type 0
  Reaches db db' = (cs : List Call) × (run digest db cs ≡ db')

  pub Reaches-refl : (db : Db) → Reaches db db
  unfolding run
  Reaches-refl db = ([], refl)

  run-append :
      (cs ds : List Call) (db : Db) → run digest db (cs ++ ds) ≡ run digest (run digest db cs) ds
  unfolding run
  run-append [] ds db = refl
  run-append (c ∷ cs) ds db = run-append cs ds (step digest db c)

  pub Reaches-trans : (a b c : Db) → Reaches a b → Reaches b c → Reaches a c
  Reaches-trans a b c (cs, p) (ds, q) =
      (cs ++ ds, run-append cs ds a ∙ (ap (λ x. run digest x ds) p ∙ q))

  pub Reaches-call : (db : Db) (c : Call) → Reaches db (step digest db c)
  unfolding run
  Reaches-call db c = (c ∷ [], refl)
