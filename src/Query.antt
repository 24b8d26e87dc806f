-- ===== src/Query.antt =====
-- internal/hnsw/query.go: the 5-nearest query over a loaded graph.
pub mod Heap
pub mod Slot
pub mod Top
pub mod Search
pub mod Near
pub mod Climb
pub mod Descent
pub mod Results
pub mod Admit
pub mod Visit
pub mod Start
pub mod Expand
pub mod Layer0
pub mod Pick
pub mod Nearest
pub mod Answer
pub mod Twin
pub mod TwinSteps
pub mod TwinSearch
pub mod Independent
pub mod Tests
