-- ===== src/Lib.antt =====
-- The containers of this repository and its blocking queue, modelled from their headers.
--
-- random_access_list.hpp has two layers. `container_detail::avl_tree_stump` is a binary tree whose
-- nodes cache their height and size; `random_access_list` is a list on top of it, in which a
-- position is found by the sizes. AvlTree models the tree by its shape: AvlTree/Nodes the nodes
-- (`TAvlTreeNode`) and the path that a parent chain is, AvlTree/Balance the caches and rotations,
-- AvlTree/Walk `forward` and `backward`, AvlTree/Edit the links that `insert_before` and `delete_`
-- change, AvlTree/Index `getIndex`, `getByIndex`, `go_to` and `distance`. RandomAccessList/Stump
-- puts the addresses in: the state of `avl_tree_stump` is its root, the gap nodes `_before_begin`
-- and `_end`, `_begin`, and what the `_value` of each node holds. RandomAccessList/Container has
-- the operations of `random_access_list`, whose iterators are node addresses, and
-- RandomAccessList/Iterators the moves of these. AvlTree/Vine is how `moveNodes` unrolls the tree
-- into a chain, and RandomAccessList/Moving what is built on it: `splice`, `merge`, `reverse` and
-- `sort`, with RandomAccessList/Merge for the loop of `merge_private` on its two lists of nodes.
-- RandomAccessList/Filtering has `unique`, `remove_if`, `front` and `back`, and
-- RandomAccessList/Assigning the constructors, `assign`, `resize` and `swap`. The sort of the
-- intrusive list is the library's, and a parameter.
--
-- containers_utility.hpp constructs and destroys values in raw memory. ContainersUtility models
-- memory as an array of cells, each raw or holding a value, in which construction over a value and
-- destruction of raw memory are undefined.
--
-- inplace_fixed_deque.hpp is a ring of fixed capacity in such memory, which calls
-- containers_utility.hpp in its `assign_internal`. InplaceFixedDeque models it, and
-- InplaceFixedDeque/Iterators its iterators, which are indices.
--
-- UnboundedQueue.hpp is a blocking queue for any number of threads. UnboundedQueue has its critical
-- sections as functions, with the condition variable as the counts of threads that sleep on it and
-- that it has let go; UnboundedQueue/Steps has the runs of the threads as a step relation, in which
-- threads wake without a cause and time out at any moment.
--
-- MemoryPoolInternalClasses.h lays the items of a memory pool out in bytes: a signature, void bytes,
-- the value or the link to the next free item, void bytes. MemoryPool/Bytes is the memory,
-- MemoryPool/FreeItem and MemoryPool/AllocatedItem are the maps that check for corruption,
-- MemoryPool/Unchecked those that do not, and MemoryPool/Strategy is what they take from elsewhere:
-- the alignment strategy of MemoryAligment.h and the values of `TPoolChekingConsts`, both of which
-- the repository only declares. An `ASSERT` that fails is `none`.
--
-- mp/g/LowestLevelAllocator.h is a draft of an allocator of pages. PageAllocator has its alignment,
-- its access of pages and `TAreaHeader`; the page size and the operating system's reservation of
-- addresses are parameters. Tx/PplxSchedulers/LimitedScheduler.cpp runs tasks of two levels on a
-- limited number of threads. LimitedScheduler has its state and what `schedule`, `addThread` and
-- `makeThread` do to it, and LimitedScheduler/Steps the runs of callers, workers and `close` as a step
-- relation: a worker that waits goes on at any moment at which its predicate holds, and one thread
-- closes at a time.
--
-- RandomAccessList/Allocation is the memory below all this: how the container gets its nodes, gap
-- nodes and implementation from the allocator and gives them back after an exception.
-- allocator_from_pool_for_node_bassed_containers.h is an allocator for such a container whose copies
-- share one pool by the intrusive count of intrusive_ptr_support_stateless_allocators.h: PoolAllocator
-- has the counts and the operations on allocators. immutable_data_debug_allocator.h keeps a list of
-- the blocks that it has from the operating system: DebugAllocator. BitsAlgorithms.h has templates
-- for powers of two, in 32 bits: BitsAlgorithms.
--
-- Tx/StackWalker/ExceptionsUtils logs the exceptions of a process. ExceptionTracker has its handlers,
-- which exceptions that are raised in them enter again, and ExceptionTracker/Installing how they
-- are put into the process and taken out. The stack walker and the operating system are parameters.
--
-- Conventions: `none` is undefined behaviour, or a loop whose fuel runs out, and a theorem with
-- `some` in its conclusion says that there is neither. The loop of `remove_if` keeps the two
-- apart. An exception is the outcome `throws` with the state that it leaves. What the element
-- type's constructors do is given with each new value, and which addresses an allocator gives out
-- is given with each new node, under the hypothesis that they are not in use. `size_t` has 64
-- bits, and its wrap-around is written out in the tree's indices and sizes. The loops over a range
-- of nodes run on fuel. One round more than there are nodes is shown to be enough. Two rounds for
-- each node are shown to be enough for `moveNodes`.
--
-- Not modelled: the comparison and hash of lists, which hand their ranges to Boost; the pools
-- themselves, whose realization is not in the repository; and the other headers and programs of the
-- repository, among them assoc_list.hpp, the class that mp/g/LowestLevelAllocator.h leaves
-- unfinished, and the other code under Tx.
pub mod Prelude
pub mod AvlTree
pub mod RandomAccessList
pub mod ContainersUtility
pub mod InplaceFixedDeque
pub mod UnboundedQueue
pub mod MemoryPool
pub mod PageAllocator
pub mod LimitedScheduler
pub mod BitsAlgorithms
pub mod DebugAllocator
pub mod PoolAllocator
pub mod ExceptionTracker
