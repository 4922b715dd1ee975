-- ===== src/Tables/Body.antt =====
-- ui/src/features/shared-components/table/data-table.tsx: the table.
use wgpanelne.Prelude.{Bool, Option, none, some, List, [], ◌∷◌, length, ℕ}
use wgpanelne.Js.Strings.{Text}
use wgpanelne.Tables.Badges.{TableType, servers, interfaces, pools, peers}

-- The four arrays of columns, which the code tells apart by identity.
pub data ColumnsOf : Type 0 where
  server_columns interface_columns pool_columns other_columns : ColumnsOf

-- The `type` of the toolbar.
abbrev pub toolbar_type : ColumnsOf → TableType
toolbar_type server_columns = servers
toolbar_type interface_columns = interfaces
toolbar_type pool_columns = pools
toolbar_type other_columns = peers

-- `header.column.columnDef.meta?.className ?? ''`
abbrev pub class_name : Option (Option Text) → Text
class_name none = []
class_name (some none) = []
class_name (some (some t)) = t

-- A cell: its class, and what its column draws.
pub record TableCell : Type 0 where
  pub class : Text
  pub content : Text

pub record TableRow : Type 0 where
  pub is_selected : Bool
  pub row_cells : List TableCell

-- The body: the rows of the page, or a note across all columns.
pub data TableBody : Type 0 where
  table_rows : List TableRow → TableBody
  no_results : ℕ → TableBody

unfoldable pub table_body : List Text → List TableRow → TableBody
table_body columns [] = no_results (length columns)
table_body columns (r ∷ rs) = table_rows (r ∷ rs)
