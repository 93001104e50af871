-- ===== src/Projects/Configurations/Deletion.antt =====
-- The deletion of a run configuration in application/run_configuration_service.py, and the rule about
-- defaults.
use workspace.Base.{
  ◌≡◌, refl, sym, ◌∙◌, subst, ◌==◌, ==_refl, true, false, not, Option, none, some, List, [], ◌∷◌,
  text_leb, All, All-map, All-both, filter, find?-passes, find?-count, count-filter_le, on_if,
  arith, ◌>>=◌, Ensures, Ensures-bind, after_gets, skip_reads, gets, after_or_raise, ends_pure,
  ends_modify, learn,
}
use workspace.Domain.Errors.{ObjectId}
use workspace.Domain.Models.{Project, RunConfiguration}
use workspace.Store.{World, Op}
use workspace.Store.Projects.{project_get, write_project, project_update, configuration_get}
use workspace.Store.Configurations.{
  configuration_delete, configuration_list_for_project, sort_by_name, insert_by_name,
}
use workspace.Projects.Configurations.{
  get_configuration, first_id, is_default, replace_default, delete_configuration,
}
use workspace.Projects.Configurations.Defaults.{
  has_row, OwnDefault, IsConsistent, Avoids, AvoidsElsewhere, has_row-filter, none-Avoids,
  kept-Avoids, update_first-Avoids, elsewhere,
}
use workspace.Projects.Configurations.Calls.{project_update-IsConsistent}

pub project_get-id : (i : ObjectId) (w : World) (p : Project) → project_get i w ≡ some p → p.id ≡ i
unfolding project_get
project_get-id i w p h = let e = find?-passes (λ r. r.id == i) w.projects p h in ground (arith)

configuration_get-id :
    (i : ObjectId) (w : World) (c : RunConfiguration) → configuration_get i w ≡ some c → c.id ≡ i
unfolding configuration_get
configuration_get-id i w c h =
    let e = find?-passes (λ r. r.id == i) w.run_configurations c h in ground (arith)

pub get_configuration-found :
    (user i : ObjectId)
    → Ensures IsConsistent
        (get_configuration user i)
        (λ c w. IsConsistent w × (configuration_get i w ≡ some c))
unfolding get_configuration
get_configuration-found user i = after_gets _ _ λ found.
    after_or_raise _ _ _ λ c e. skip_reads _ _ λ access. ends_pure c (λ w k. (k.0, k.1 ∙ e))

-- The first that is left is not the one that goes.
first_id-avoids :
    (i : ObjectId) (cs : List RunConfiguration)
    → is_default i (first_id (filter (λ c. not (c.id == i)) cs)) ≡ false
first_id-avoids i [] = refl
first_id-avoids i (c ∷ cs) = let rest = first_id-avoids i cs in ground (arith)

-- Rows of a table that belong to a project.
abbrev Rows : List RunConfiguration → ObjectId → List RunConfiguration → Type 0
Rows rows project = All (λ c. has_row c.id project rows ≡ true)

own_rows : (rows : List RunConfiguration) → All (λ c. has_row c.id c.project_id rows ≡ true) rows
own_rows [] = tt
own_rows (c ∷ rows) = (
  (let e = ==_refl c.id in let e1 = ==_refl c.project_id in ground (arith)),
  All-map (λ r h. ground (arith)) rows (own_rows rows),
)

filter-Rows :
    (rows : List RunConfiguration) (project : ObjectId) (cs : List RunConfiguration)
    → All (λ c. has_row c.id c.project_id rows ≡ true) cs
    → Rows rows project (filter (λ c. c.project_id == project) cs)
filter-Rows rows project [] h = tt
filter-Rows rows project (c ∷ cs) (h, hs) =
    on_if (Rows rows project) (c.project_id == project)
      (λ e. (
        let same : c.project_id ≡ project = ground (arith) in
            subst (λ x. has_row c.id x rows ≡ true) same h,
        filter-Rows rows project cs hs,
      ))
      (λ _. filter-Rows rows project cs hs)

insert_by_name-Rows :
    (rows : List RunConfiguration) (project : ObjectId) (c : RunConfiguration)
    (cs : List RunConfiguration)
    → has_row c.id project rows ≡ true
    → Rows rows project cs
    → Rows rows project (insert_by_name c cs)
unfolding insert_by_name
insert_by_name-Rows rows project c [] n h = (n, tt)
insert_by_name-Rows rows project c (d ∷ ds) n (h, hs) =
    on_if (Rows rows project) (text_leb c.name d.name) (λ _. (n, (h, hs)))
      (λ _. (h, insert_by_name-Rows rows project c ds n hs))

sort_by_name-Rows :
    (rows : List RunConfiguration) (project : ObjectId) (cs : List RunConfiguration)
    → Rows rows project cs
    → Rows rows project (sort_by_name cs)
unfolding sort_by_name
sort_by_name-Rows rows project [] h = tt
sort_by_name-Rows rows project (c ∷ cs) (h, hs) =
    insert_by_name-Rows rows project c (sort_by_name cs) h (sort_by_name-Rows rows project cs hs)

listed-Rows :
    (project : ObjectId) (w : World)
    → Rows w.run_configurations project (configuration_list_for_project project w)
unfolding configuration_list_for_project
listed-Rows project w =
    sort_by_name-Rows w.run_configurations project _ (
      filter-Rows w.run_configurations project w.run_configurations (own_rows w.run_configurations))

first_id-OwnDefault :
    (rows : List RunConfiguration) (project i : ObjectId) (cs : List RunConfiguration)
    → Rows rows project cs
    → OwnDefault rows project (first_id (filter (λ c. not (c.id == i)) cs))
first_id-OwnDefault rows project i [] h = tt
first_id-OwnDefault rows project i (c ∷ cs) (h, hs) =
    on_if (λ t. OwnDefault rows project (first_id t)) (not (c.id == i)) (λ _. h)
      (λ _. first_id-OwnDefault rows project i cs hs)

-- A default that is to go is replaced by one of the project's own, or by none.
replaced :
    (i : ObjectId) (c : RunConfiguration) (p : Project) (w : World)
    → IsConsistent w
    → configuration_get i w ≡ some c
    → p.id ≡ c.project_id
    → (IsConsistent (
        write_project
          (record p {
            default_run_configuration_id =
                first_id (filter (λ c. not (c.id == i)) (configuration_list_for_project p.id w));
          })
          w))
      × Avoids i (
          (write_project
            (record p {
              default_run_configuration_id =
                  first_id (filter (λ c. not (c.id == i)) (configuration_list_for_project p.id w));
            })
            w).projects)
unfolding write_project configuration_get
replaced i c p w k e same = (
  project_update-IsConsistent
      (record p {
        default_run_configuration_id =
            first_id (filter (λ c. not (c.id == i)) (configuration_list_for_project p.id w));
      })
      w (first_id-OwnDefault w.run_configurations p.id i _ (listed-Rows p.id w)) k,
  update_first-Avoids i p.id _ w.projects
      (λ q. first_id-avoids i (configuration_list_for_project p.id w))
      (subst (λ home. AvoidsElsewhere i home w.projects) (sym same)
        (elsewhere i c w.run_configurations w.projects (k.configurations i) e k.defaults))
      (k.projects p.id),
)

-- Nobody's default is the configuration that is about to go.
abbrev IsFree : ObjectId → World → Type 0
IsFree i w = IsConsistent w × Avoids i w.projects

-- What the deletion knows when it looks at the project.
abbrev Knows : ObjectId → RunConfiguration → Option Project → World → Type 0
Knows i c found w =
    (IsConsistent w × (configuration_get i w ≡ some c)) × (project_get c.project_id w ≡ found)

elsewhere_of :
    (i : ObjectId) (c : RunConfiguration) (w : World)
    → IsConsistent w
    → configuration_get i w ≡ some c
    → AvoidsElsewhere i c.project_id w.projects
unfolding configuration_get
elsewhere_of i c w k e =
    elsewhere i c w.run_configurations w.projects (k.configurations i) e k.defaults

none-IsFree : (i : ObjectId) (c : RunConfiguration) (w : World) → Knows i c none w → IsFree i w
unfolding project_get
none-IsFree i c w ((k, e), e1) = (
  k,
  none-Avoids i c.project_id w.projects (elsewhere_of i c w k e)
      (find?-count (λ r. r.id == c.project_id) w.projects e1),
)

kept-IsFree :
    (i : ObjectId) (c : RunConfiguration) (p : Project) (w : World)
    → is_default i p.default_run_configuration_id ≡ false
    → Knows i c (some p) w
    → IsFree i w
unfolding project_get
kept-IsFree i c p w other ((k, e), e1) = (
  k,
  kept-Avoids i c.project_id p w.projects (elsewhere_of i c w k e) (k.projects c.project_id) e1
      other,
)

drop_default :
    (i : ObjectId) (c : RunConfiguration) (p : Project)
    → Ensures
        (Knows i c (some p))
        (gets (configuration_list_for_project p.id) >>= λ listed. project_update (record p {
          default_run_configuration_id = first_id (filter (λ c. not (c.id == i)) listed);
        }))
        (λ _. IsFree i)
unfolding project_update
drop_default i c p = after_gets _ _ λ listed. ends_modify _ (λ w k.
    let ((consistent, e), e1) = k.0 in
    subst
      (λ cs. IsFree i (
        write_project
          (record p { default_run_configuration_id = first_id (filter (λ c. not (c.id == i)) cs) })
          w))
      k.1 (replaced i c p w consistent e (project_get-id c.project_id w p e1)))

replace_default-IsFree :
    (i : ObjectId) (c : RunConfiguration) (found : Option Project)
    → Ensures (Knows i c found) (replace_default i found) (λ _. IsFree i)
unfolding replace_default project_update
replace_default-IsFree i c none = ends_pure tt (none-IsFree i c)
replace_default-IsFree i c (some p) =
    on_if {A = Op (Unit {0})} (λ m. Ensures (Knows i c (some p)) m (λ _. IsFree i))
      (not (is_default i p.default_run_configuration_id))
      (λ other. ends_pure {R = λ _. IsFree i} tt (λ w k. kept-IsFree i c p w (ground (arith)) k))
      (λ hit. drop_default i c p)

left :
    (i : ObjectId) (rows : List RunConfiguration) (p : Project)
    → OwnDefault rows p.id p.default_run_configuration_id
      × (is_default i p.default_run_configuration_id ≡ false)
    → OwnDefault (filter (λ c. not (c.id == i)) rows) p.id p.default_run_configuration_id
left i rows p (h, n) = by_default p.default_run_configuration_id h n
  where
    by_default :
        (d : Option ObjectId)
        → OwnDefault rows p.id d
        → is_default i d ≡ false
        → OwnDefault (filter (λ c. not (c.id == i)) rows) p.id d
    by_default none h n = tt
    by_default (some d) h n = has_row-filter d i p.id rows n h

configuration_delete-IsConsistent :
    (i : ObjectId) (w : World) → IsFree i w → IsConsistent (configuration_delete i w)
unfolding configuration_delete
configuration_delete-IsConsistent i w (k, free) = record {
  defaults = All-map (left i w.run_configurations) w.projects (
      All-both (λ p. OwnDefault w.run_configurations p.id p.default_run_configuration_id)
        (λ p. is_default i p.default_run_configuration_id ≡ false) w.projects k.defaults free);
  projects = k.projects;
  configurations = λ j.
      let fewer = count-filter_le (λ r. r.id == j) (λ r. not (r.id == i)) w.run_configurations in
      let one = k.configurations j in ground (arith);
}

pub delete_configuration-IsConsistent :
    (user i : ObjectId) → Ensures IsConsistent (delete_configuration user i) (λ _. IsConsistent)
unfolding delete_configuration
delete_configuration-IsConsistent user i = Ensures-bind _ _ _ (get_configuration-found user i) λ c.
    learn (c.id ≡ i) (λ w k. configuration_get-id i w c k.1)
      λ same. skip_reads _ _ λ access. after_gets _ _ λ found.
        Ensures-bind (λ _. IsFree i) _ _
          (subst (λ x. Ensures (Knows i c found) (replace_default x found) (λ _. IsFree i))
            (sym same) (replace_default-IsFree i c found))
          λ _. ends_modify _ (configuration_delete-IsConsistent i)
