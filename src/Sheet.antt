-- ===== src/Sheet.antt =====
-- lib/sheet: the spreadsheet documents. Strings are lists of bytes in these modules, since the code
-- takes their length in bytes and searches them with ASCII patterns only.
pub mod Maps
pub mod Cell
pub mod Style
pub mod Ops
pub mod Props
pub mod Validate
pub mod Grid
pub mod Transform
pub mod Workbook
pub mod Apply
pub mod Document
