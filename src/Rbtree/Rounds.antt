-- ===== src/Rbtree/Rounds.antt =====
-- The rounds of the loop of `rb_erase_color` of rbtree.c: with a black sibling the loop climbs or breaks off;
-- a red sibling is lifted first.
-- the code calls a side by where the sibling stands; the names here by where `x` does
pub mod Left
pub mod Right
