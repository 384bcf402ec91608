-- ===== src/Views.antt =====
-- The lazy views of src/core/ranges: `split` and `split_if` (split.hpp), `trim` and `trim_if`
-- (trim.hpp). An iterator is the part of its range from it on, so `b == e` compares lengths.
pub mod Split
pub mod Trim
pub mod Subst
