-- ===== src/Runs/Ended/Launch.antt =====
-- `create`, `rerun` and `cancel` (application/run_service.py) and the row of an ended run.
use workspace.Base.{◌≡◌, ◌==◌, true, false, subst, sym}
use workspace.Domain.Errors.{ObjectId}
use workspace.Domain.Enums.{is_terminal}
use workspace.Domain.Models.{Run}
use workspace.Runs.Rows.{RowLaw}
use workspace.Runs.Ended.{
  IsRow, IsRow-same, Apart, Apart-same, write_run-IsRow, run_add-Apart, open_run-Apart,
}

module _ (i : ObjectId) (r : Run) (over : is_terminal r.status ≡ true) where
  pub IsRow-RowLaw : RowLaw (IsRow i r) (Apart i r)
  IsRow-RowLaw = record {
    same = IsRow-same i r;
    same_at = Apart-same i r;
    forgets = λ run w p. p.0;
    added = λ run w w' h q p. run_add-Apart i r run w w' h p;
    written = λ run new w same fair p.
        write_run-IsRow i r new w (p.0, subst (λ j. (j == i) ≡ false) (sym same) p.1);
    opened = λ j run w p found open_run. open_run-Apart i j r run w p over found open_run;
  }
