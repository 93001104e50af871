-- ===== src/Projects/Configurations/Defaults.antt =====
-- The default configuration of a project is one of its own, whatever application/run_configuration_service.py
-- does.
use workspace.Base.{
  ◌≤◌, ◌≡◌, refl, ap, ◌∙◌, subst, ◌==◌, ==_refl, Bool, true, false, ◌&&◌, not, Option, none, some,
  List, [], ◌∷◌, ◌++◌, All, any, find?, filter, count, update_first, on_if, Bool-cases, inl, inr,
  arith,
}
use workspace.Domain.Errors.{ObjectId}
use workspace.Domain.Models.{Project, RunConfiguration}
use workspace.Store.{World}
use workspace.Projects.Configurations.{is_default}

-- A configuration of this identifier and this project is in the table.
abbrev pub has_row : ObjectId → ObjectId → List RunConfiguration → Bool
has_row i project rows = any (λ c. (c.id == i) && (c.project_id == project)) rows

abbrev pub OwnDefault : List RunConfiguration → ObjectId → Option ObjectId → Type 0
OwnDefault rows project none = Unit
OwnDefault rows project (some i) = has_row i project rows ≡ true

-- Each project's default is a configuration of its own, and identifiers are single.
pub record IsConsistent (w : World) : Type 0 where
  pub defaults :
      All (λ p. OwnDefault w.run_configurations p.id p.default_run_configuration_id) w.projects
  pub projects : (i : ObjectId) → count (λ p. p.id == i) w.projects ≤ 1
  pub configurations : (i : ObjectId) → count (λ c. c.id == i) w.run_configurations ≤ 1

-- What is known of the tables while the configurations only grow.
module _ (rows rows' : List RunConfiguration) where
  pub grown :
      ((i project : ObjectId) → has_row i project rows ≡ true → has_row i project rows' ≡ true)
      → (p : Project) → OwnDefault rows p.id p.default_run_configuration_id
      → OwnDefault rows' p.id p.default_run_configuration_id
  grown keep p h = by_default p.default_run_configuration_id h
    where
      by_default : (d : Option ObjectId) → OwnDefault rows p.id d → OwnDefault rows' p.id d
      by_default none h = tt
      by_default (some i) h = keep i p.id h

-- Writing the row of a project whose new default is its own.
module _ (rows : List RunConfiguration) (q : Project)
    (own : OwnDefault rows q.id q.default_run_configuration_id) where
  pub written :
      (ps : List Project)
      → All (λ p. OwnDefault rows p.id p.default_run_configuration_id) ps
      → All
          (λ p. OwnDefault rows p.id p.default_run_configuration_id)
          (update_first
            (λ r. r.id == q.id)
            (λ r. record r {
              name = q.name;
              description = q.description;
              status = q.status;
              environment_version_id = q.environment_version_id;
              default_run_configuration_id = q.default_run_configuration_id;
              updated_at = q.updated_at;
            })
            ps)
  written [] h = tt
  written (p ∷ ps) (h, hs) =
      on_if (All (λ p. OwnDefault rows p.id p.default_run_configuration_id)) (p.id == q.id)
        (λ e. (
          let same : q.id ≡ p.id = ground (arith) in
              subst (λ i. OwnDefault rows i q.default_run_configuration_id) same own,
          hs,
        ))
        (λ _. (h, written ps hs))

pub has_row-snoc :
    (i project : ObjectId) (c : RunConfiguration) (rows : List RunConfiguration)
    → has_row i project rows ≡ true
    → has_row i project (rows ++ c ∷ []) ≡ true
has_row-snoc i project c [] h = cc
has_row-snoc i project c (r ∷ rows) h = let rest = has_row-snoc i project c rows in ground (arith)

pub has_row-last :
    (c : RunConfiguration) (rows : List RunConfiguration)
    → has_row c.id c.project_id (rows ++ c ∷ []) ≡ true
has_row-last c [] = let e = ==_refl c.id in let e1 = ==_refl c.project_id in ground (arith)
has_row-last c (r ∷ rows) = let rest = has_row-last c rows in ground (arith)

-- A rewriting that the test does not see.
pub has_row-update_first :
    (i project : ObjectId) (q : RunConfiguration → Bool) (f : RunConfiguration → RunConfiguration)
    → ((r : RunConfiguration) → ((f r).id ≡ r.id) × ((f r).project_id ≡ r.project_id))
    → (rows : List RunConfiguration)
    → has_row i project (update_first q f rows) ≡ has_row i project rows
has_row-update_first i project q f same [] = refl
has_row-update_first i project q f same (r ∷ rows) =
    let (e, e1) = same r in
    let e2 : (((f r).id == i) && ((f r).project_id == project))
        ≡ ((r.id == i) && (r.project_id == project)) =
      cc in
    let rest = has_row-update_first i project q f same rows in ground (arith)

pub has_row-filter :
    (i gone project : ObjectId) (rows : List RunConfiguration)
    → (i == gone) ≡ false
    → has_row i project rows ≡ true
    → has_row i project (filter (λ c. not (c.id == gone)) rows) ≡ true
has_row-filter i gone project [] n h = cc
has_row-filter i gone project (r ∷ rows) n h =
    elim (Bool-cases ((r.id == i) && (r.project_id == project))) [
      | inl e ↦ let kept : (r.id == gone) ≡ false = ground (arith) in ground (arith)
      | inr e ↦ let rest = has_row-filter i gone project rows n (ground (arith)) in ground (arith)
    ]

has_row-count :
    (i project : ObjectId) (rows : List RunConfiguration)
    → has_row i project rows ≡ true
    → 1 ≤ count (λ c. c.id == i) rows
has_row-count i project [] h = cc
has_row-count i project (r ∷ rows) h = let rest = has_row-count i project rows in ground (arith)

sole_here :
    (i project : ObjectId) (r : RunConfiguration) (rows : List RunConfiguration)
    → (r.id == i) ≡ true
    → count (λ x. x.id == i) rows ≡ 0
    → has_row i project (r ∷ rows) ≡ true
    → project ≡ r.project_id
sole_here i project r rows k none_behind h = elim (Bool-cases (r.project_id == project)) [
  | inl e ↦ ground (arith)
  | inr e ↦ let counted = has_row-count i project rows (ground (arith)) in absurd (ground (arith))
]

-- The one row of an identifier tells its project.
sole_project :
    (i project : ObjectId) (c : RunConfiguration) (rows : List RunConfiguration)
    → count (λ r. r.id == i) rows ≤ 1
    → find? (λ r. r.id == i) rows ≡ some c
    → has_row i project rows ≡ true
    → project ≡ c.project_id
sole_project i project c [] one e h = cc
sole_project i project c (r ∷ rows) one e h = elim (Bool-cases (r.id == i)) [
  | inl k ↦
      let same : r ≡ c = ground (arith) in
      let here : project ≡ r.project_id = sole_here i project r rows k (ground (arith)) h in
      here ∙ ap (λ x. x.project_id) same
  | inr k ↦ sole_project i project c rows (ground (arith)) (ground (arith)) (ground (arith))
]

-- No default is `i`.
abbrev pub Avoids : ObjectId → List Project → Type 0
Avoids i = All (λ p. is_default i p.default_run_configuration_id ≡ false)

-- Outside the project of a configuration, no default is that configuration.
abbrev pub AvoidsElsewhere : ObjectId → ObjectId → List Project → Type 0
AvoidsElsewhere i home =
    All (λ p. (p.id == home) ≡ false → is_default i p.default_run_configuration_id ≡ false)

pub none-Avoids :
    (i home : ObjectId) (ps : List Project)
    → AvoidsElsewhere i home ps
    → count (λ p. p.id == home) ps ≡ 0
    → Avoids i ps
none-Avoids i home [] h c = tt
none-Avoids i home (p ∷ ps) (h, hs) c =
    (h (ground (arith)), none-Avoids i home ps hs (ground (arith)))

pub kept-Avoids :
    (i home : ObjectId) (q : Project) (ps : List Project)
    → AvoidsElsewhere i home ps
    → count (λ p. p.id == home) ps ≤ 1
    → find? (λ p. p.id == home) ps ≡ some q
    → is_default i q.default_run_configuration_id ≡ false
    → Avoids i ps
kept-Avoids i home q [] h c e k = tt
kept-Avoids i home q (p ∷ ps) (h, hs) c e k = elim (Bool-cases (p.id == home)) [
  | inl here ↦
      let same : q ≡ p = ground (arith) in
      (
        subst (λ x. is_default i x.default_run_configuration_id ≡ false) same k,
        none-Avoids i home ps hs (ground (arith)),
      )
  | inr there ↦ (h there, kept-Avoids i home q ps hs (ground (arith)) (ground (arith)) k)
]

pub update_first-Avoids :
    (i home : ObjectId) (f : Project → Project) (ps : List Project)
    → ((p : Project) → is_default i (f p).default_run_configuration_id ≡ false)
    → AvoidsElsewhere i home ps
    → count (λ p. p.id == home) ps ≤ 1
    → Avoids i (update_first (λ p. p.id == home) f ps)
update_first-Avoids i home f [] k h c = tt
update_first-Avoids i home f (p ∷ ps) k (h, hs) c =
    on_if (Avoids i) (p.id == home) (λ here. (k p, none-Avoids i home ps hs (ground (arith))))
      (λ there. (h there, update_first-Avoids i home f ps k hs (ground (arith))))

pub elsewhere :
    (i : ObjectId) (c : RunConfiguration) (rows : List RunConfiguration) (ps : List Project)
    → count (λ r. r.id == i) rows ≤ 1
    → find? (λ r. r.id == i) rows ≡ some c
    → All (λ p. OwnDefault rows p.id p.default_run_configuration_id) ps
    → AvoidsElsewhere i c.project_id ps
elsewhere i c rows [] one e h = tt
elsewhere i c rows (p ∷ ps) one e (h, hs) = (not_there p h, elsewhere i c rows ps one e hs)
  where
    by_default :
        (id : ObjectId) (d : Option ObjectId)
        → OwnDefault rows id d
        → (id == c.project_id) ≡ false
        → is_default i d ≡ false
    by_default id none h n = refl
    by_default id (some d) h n = elim (Bool-cases (d == i)) [
      | inl k ↦
          let same : d ≡ i = ground (arith) in
          let home =
            sole_project i id c rows one e (subst (λ x. has_row x id rows ≡ true) same h) in
          absurd (ground (arith))
      | inr k ↦ k
    ]

    not_there :
        (p : Project)
        → OwnDefault rows p.id p.default_run_configuration_id
        → (p.id == c.project_id) ≡ false
        → is_default i p.default_run_configuration_id ≡ false
    not_there p h n = by_default p.id p.default_run_configuration_id h n
