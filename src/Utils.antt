-- ===== src/Utils.antt =====
-- pkg/utils: the containers of types.go and set.go.
-- A mutex-guarded operation is one step; the maps are association lists.
pub mod Containers
pub mod Counting
pub mod Chunks
mod Tests
