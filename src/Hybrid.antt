-- ===== src/Hybrid.antt =====
-- The hybrid index of src/hybrid_index.cpp, which serves every weighting of two distances: skyline
-- layers of candidates, and the ranges of weights in which an edge is used. A float here is not
-- negative and not NaN, and stands as its bit pattern, which has the order of the float.
pub mod Skyline
pub mod Ranges
pub mod Link
pub mod Picking
pub mod Queue
pub mod Build
mod Tests
