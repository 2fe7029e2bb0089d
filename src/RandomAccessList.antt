-- ===== src/RandomAccessList.antt =====
-- random_access_list.hpp above its tree: the nodes behind their addresses, and the container.
pub mod Stump
pub mod Container
pub mod Iterators
pub mod Merge
pub mod Moving
pub mod Filtering
pub mod Allocation
pub mod Assigning
pub mod Tests
