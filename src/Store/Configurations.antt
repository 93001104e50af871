-- ===== src/Store/Configurations.antt =====
-- RunConfigurationRepositoryImpl and ForkRelationRepositoryImpl of infrastructure/db/repositories.py.
use workspace.Base.{
  ◌==◌, true, false, Option, List, [], ◌∷◌, text_leb, find?, filter, update_first, not,
  if◌then◌else◌, Result, ok, err, modify,
}
use workspace.Domain.Errors.{ObjectId, DomainError}
use workspace.Domain.Models.{RunConfiguration, ForkRelation}
use workspace.Store.{World, Op, insert_row}

unfoldable pub with_configurations :
    World → Result DomainError (List RunConfiguration) → Result DomainError (Unit {0} × World)
with_configurations w (ok rows) = ok (tt, record w { run_configurations = rows })
with_configurations w (err e) = err e

unfoldable pub configuration_add : RunConfiguration → Op (Unit {0})
unfolding with_configurations insert_row
configuration_add c w =
    with_configurations w (insert_row (λ r. r.id == c.id) (λ _. false) c w.run_configurations)

-- A configuration stays in its project.
unfoldable pub write_configuration : RunConfiguration → World → World
write_configuration c w = record w {
  run_configurations =
      update_first (λ r. r.id == c.id) (λ r. record c { id = r.id; project_id = r.project_id })
        w.run_configurations;
}

unfoldable pub configuration_update : RunConfiguration → Op (Unit {0})
configuration_update c = modify (write_configuration c)

unfoldable pub configuration_delete : ObjectId → World → World
configuration_delete i w = record w {
  run_configurations = filter (λ r. not (r.id == i)) w.run_configurations;
}

-- Puts a row in its place by the order of the names.
unfoldable pub insert_by_name : RunConfiguration → List RunConfiguration → List RunConfiguration
insert_by_name c [] = c ∷ []
insert_by_name c (d ∷ ds) = if text_leb c.name d.name then c ∷ d ∷ ds else d ∷ insert_by_name c ds

unfoldable pub sort_by_name : List RunConfiguration → List RunConfiguration
unfolding insert_by_name
sort_by_name [] = []
sort_by_name (c ∷ cs) = insert_by_name c (sort_by_name cs)

-- `WHERE project_id = … ORDER BY name`
unfoldable pub configuration_list_for_project : ObjectId → World → List RunConfiguration
unfolding sort_by_name
configuration_list_for_project project w =
    sort_by_name (filter (λ r. r.project_id == project) w.run_configurations)

unfoldable pub with_relations :
    World → Result DomainError (List ForkRelation) → Result DomainError (Unit {0} × World)
with_relations w (ok rows) = ok (tt, record w { fork_relations = rows })
with_relations w (err e) = err e

-- A taken key is an `IntegrityError`, which no rule translates.
unfoldable pub relation_add : ForkRelation → Op (Unit {0})
unfolding with_relations insert_row
relation_add f w = with_relations w (
    insert_row (λ r. if r.id == f.id then true else r.project_id == f.project_id) (λ _. false) f
      w.fork_relations)

unfoldable pub relation_get_for_project : ObjectId → World → Option ForkRelation
relation_get_for_project project w = find? (λ r. r.project_id == project) w.fork_relations
