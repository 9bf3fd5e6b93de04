-- ===== src/Kv.antt =====
-- internal/engine/sql/kv: the B+ tree on the pager's pages. A key is its Bytes(), by which alone the
-- store compares keys and writes them.
pub mod Order
pub mod Node
pub mod Pages
pub mod Store
pub mod Search
pub mod Route
pub mod Rewrite
pub mod Lookup
pub mod Chain
pub mod Queries
pub mod Range
pub mod Runs
pub mod NodeRuns
pub mod Leaves
pub mod Set
pub mod Delete
pub mod Scan
pub mod Check
pub mod Free
pub mod Compact
use plomvix.Base.{
  ℕ, zero, suc, ◌*◌, Bool, true, false, List, [], ◌∷◌, length, ltb, if◌then◌else◌, ◌&&◌,
}
use plomvix.Base.Bytes.Order.{compare_bytes}
use Prim.Native.Nat.{Ordering}
use plomvix.Pager

abbrev pub Bytes : Type 0
Bytes = List ℕ

abbrev pub max_key_size : ℕ
max_key_size = 63

abbrev pub max_val_size : ℕ
max_val_size = 512

abbrev pub max_leaf_keys : ℕ
max_leaf_keys = 7

abbrev pub max_internal_keys : ℕ
max_internal_keys = 56

abbrev pub leaf_slot_size : ℕ
leaf_slot_size = 580

abbrev pub internal_slot_size : ℕ
internal_slot_size = 72

abbrev pub max_val_size_enterprise : ℕ
max_val_size_enterprise = 16 * 1024 * 1024

abbrev pub max_overflow_chain_len : ℕ
max_overflow_chain_len = 5000

abbrev pub node_type_leaf : ℕ
node_type_leaf = 1

abbrev pub node_type_internal : ℕ
node_type_internal = 2

abbrev pub node_type_meta : ℕ
node_type_meta = 3

abbrev pub node_type_overflow : ℕ
node_type_overflow = 4

-- MetaPageID, the pager's first data page.
abbrev pub meta_page_id : ℕ
meta_page_id = 2

-- The sentinel errors, and an error of the pager. Two are no errors of the code: `stuck`, the rounds of
-- a loop over the tree are used up, and `panicked`, an index or a slice is out of range.
pub data Error : Type 0 where
  stuck key_not_found key_too_large value_too_large tree_corrupt not_open closed panicked : Error
  pager : Pager.Error → Error

-- a.Compare(b) < 0 and a.Compare(b) == 0
abbrev pub less : Bytes → Bytes → Bool
less a b = elim (compare_bytes a b) [ Ordering.lt ↦ true | _ ↦ false ]

abbrev pub same : Bytes → Bytes → Bool
same a b = elim (compare_bytes a b) [ Ordering.eq ↦ true | _ ↦ false ]

-- The check that keys are strictly ascending.
abbrev pub ascending : List Bytes → Bool
ascending [] = true
ascending (a ∷ []) = true
ascending (a ∷ (b ∷ ks)) = less a b && ascending (b ∷ ks)
