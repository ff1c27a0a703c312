-- ===== src/Storage.antt =====
-- storage.rs and storage/: the columnar store. `Dictionary` is storage/dictionary.rs.
pub mod Dictionary
pub mod Column
pub mod Coerce
pub mod Store
pub mod Table
pub mod NullRows
pub mod Push
pub mod PushRow
pub mod Kinds
pub mod Created
pub mod Lookup
pub mod Sort
pub mod Sorted
pub mod ZoneEnds
pub mod Permuted
pub mod Places
pub mod MovedNulls
pub mod Codes
pub mod RowCodes
pub mod Rebuilt
pub mod Reordered
pub mod Keys
pub mod KeyCells
pub mod SortBy
