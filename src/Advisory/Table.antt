-- ===== src/Advisory/Table.antt =====
-- internal/advisory/decision_table.json: the embedded table, in the order of the file.
mod General
mod WarningIndicator
mod WarningOverdue
mod WarningUnknown
mod CriticalIndicator
pub mod Coverage
use audiax_backend.Common.{List, ◌++◌}
use audiax_backend.Advisory.{Cell}
use General.{general}
use WarningIndicator.{warning_indicator}
use WarningOverdue.{warning_overdue}
use WarningUnknown.{warning_unknown}
use CriticalIndicator.{critical_indicator}

-- `table.Cells` after the package has been initialised
unfoldable pub decision_table : List Cell
unfolding general warning_indicator warning_overdue warning_unknown critical_indicator
decision_table =
    general ++ (warning_indicator ++ (warning_overdue ++ (warning_unknown ++ (critical_indicator))))
