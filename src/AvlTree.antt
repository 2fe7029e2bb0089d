-- ===== src/AvlTree.antt =====
-- `container_detail::avl_tree_stump` of random_access_list.hpp.
pub mod Nodes
pub mod Balance
pub mod Walk
pub mod Edit
pub mod Index
pub mod Vine
pub mod Tests
