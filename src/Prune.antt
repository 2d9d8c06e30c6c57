-- ===== src/Prune.antt =====
-- The pruning of out-neighbours in src/utils/prune_neighbors.cpp. A float here is not negative and
-- not NaN, and stands as its bit pattern, which has the order of the float; division of floats, the
-- product-quantization distance and the step of alpha are parameters.
pub mod Delta
pub mod Occlude
mod Tests
