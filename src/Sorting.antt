-- ===== src/Sorting.antt =====
-- The sorting programs of soft: soft/insertsort.c, soft/bubsort.c and soft/mergesort.c. An array of `int` is
-- the list of the bit patterns of its elements.
pub mod Orders
pub mod Insertion
pub mod Bubble
pub mod Merge
