-- ===== src/Sorting.antt =====
-- The part of Go's `sort` package that dht/table.go uses: `sort.Search` and `sort.Slice`, and the
-- insertion and the removal that the table makes at the place which `sort.Search` returns.
pub mod Search
pub mod Ordered
pub mod Counts
pub mod Edits
pub mod Removal
pub mod Slice
