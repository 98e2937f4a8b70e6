-- ===== src/Trivials.antt =====
-- The programs of trivials: one module for each that is modelled.
pub mod StockTree
pub mod UnionFind
pub mod SplitFile
