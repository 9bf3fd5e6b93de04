-- ===== src/Kv/NodeRuns.antt =====
-- More theorems of the store at concrete inputs: nodes, large values, scans.
use plomvix.Base.{
  ℕ, zero, suc, ◌+◌, ◌<◌, ◌≡◌, ◌≢◌, refl, true, false, List, [], ◌∷◌, ◌++◌, map, length, arith, All,
  none, some, ok, ◌==◌, if◌then◌else◌, replicate, length-replicate,
}
use plomvix.Base.Bytes.Order.{compare_bytes}
use plomvix.Base.Bytes.{put_be}
use plomvix.Pager.{body_size, sentinel}
use plomvix.Pager.FilePager.{FilePager, read_page}
use plomvix.Pager.FilePager.Reads.{IsInUse}
use plomvix.Kv.{Bytes, less, same, max_val_size, node_type_internal}
use plomvix.Kv.Node.{
  LeafValueRef, first_byte, fill, encode_leaf_node, decode_leaf_node, encode_internal_node,
  decode_internal_node, encode_overflow_page, decode_overflow_page, overflow_chunk_size,
}
use plomvix.Kv.Node.Slot.{ref_of, ref_entry}
use plomvix.Kv.Node.Internal.{decode-encode_internal_node}
use plomvix.Kv.Node.Overflow.{decode-encode_overflow_page}
use plomvix.Kv.Node.Large.{reread, decode_leaf_node-large}
use plomvix.Kv.Search.{find, get, read_overflow_value, upper_bound, upper_bound_idx}
use plomvix.Kv.Leaves.{insert_entry, merge_entry, halves, insert_route, InternalSplit, split_routes}
use plomvix.Kv.Leaves.Sorted.{IsSorted, ascending-IsSorted, merge_entry-insert_entry}
use plomvix.Kv.Leaves.Split.{halves-find}
use plomvix.Kv.Leaves.Routes.{insert_route-upper_bound, split_routes-upper_bound}
use plomvix.Kv.Set.{num_overflow, write_overflow_chain}
use plomvix.Kv.Scan.{scan, scan_leaf}
use plomvix.Kv.Chain.{IsFree, write_overflow_chain-read_overflow_value}
use plomvix.Kv.Queries.{queries-keep}
use plomvix.Kv.Range.{within, joined, scan_leaf-select}
use plomvix.Kv.Runs.{
  sum_crc, sum_fits, one_by_one, some_entries, some_entries-IsLeaf, leaf_body,
  leaf_body-IsSmallLeaf, leaf_pages, leaf_here, leaf_store,
}

abbrev full_leaf : List (Bytes × Bytes)
full_leaf = one_by_one (1 ∷ 3 ∷ 5 ∷ 7 ∷ 9 ∷ 11 ∷ 13 ∷ [])

full_leaf-IsSorted : IsSorted full_leaf
unfolding compare_bytes
full_leaf-IsSorted = ascending-IsSorted full_leaf refl

absent_6 : find (6 ∷ []) full_leaf ≡ none
unfolding compare_bytes
absent_6 = refl

halves-find_example :
    (left : List (Bytes × Bytes)) × (sep : Bytes) × (w : Bytes) × (right : List (Bytes × Bytes))
    × (halves (merge_entry (6 ∷ []) (0 ∷ []) full_leaf) ≡ (left, (sep, w) ∷ right))
    × (length left ≡ 4)
    × (length right ≡ 3)
    × IsSorted left
    × IsSorted ((sep, w) ∷ right)
    × ((j : Bytes)
        → (if less j sep then find j left else find j ((sep, w) ∷ right))
          ≡ (if same (6 ∷ []) j then some (0 ∷ []) else find j full_leaf))
halves-find_example = halves-find (6 ∷ []) (0 ∷ []) full_leaf refl full_leaf-IsSorted absent_6

merge_entry-insert_entry_example :
    merge_entry (6 ∷ []) (0 ∷ []) full_leaf ≡ insert_entry (6 ∷ []) (0 ∷ []) full_leaf
merge_entry-insert_entry_example = merge_entry-insert_entry (6 ∷ []) (0 ∷ []) full_leaf absent_6

-- Routes by keys of one byte, from the last to the first.
abbrev routes_below : ℕ → List (Bytes × ℕ) → List (Bytes × ℕ)
routes_below zero behind = behind
routes_below (suc n) behind = routes_below n ((n ∷ [], n) ∷ behind)

abbrev some_routes : List (Bytes × ℕ)
some_routes = routes_below 3 []

insert_route-upper_bound_example :
    upper_bound
      ((insert_route
        (upper_bound_idx some_routes (1 ∷ 5 ∷ []))
        20
        (1 ∷ 5 ∷ [])
        21
        (9, some_routes)).0)
      ((insert_route
        (upper_bound_idx some_routes (1 ∷ 5 ∷ []))
        20
        (1 ∷ 5 ∷ [])
        21
        (9, some_routes)).1)
      (1 ∷ 7 ∷ [])
    ≡ (if upper_bound_idx some_routes (1 ∷ 7 ∷ []) == upper_bound_idx some_routes (1 ∷ 5 ∷ [])
        then (if less (1 ∷ 7 ∷ []) (1 ∷ 5 ∷ []) then 20 else 21)
        else upper_bound 9 some_routes (1 ∷ 7 ∷ []))
insert_route-upper_bound_example =
    insert_route-upper_bound 20 (1 ∷ 5 ∷ []) 21 9 some_routes (1 ∷ 7 ∷ [])

abbrev full_routes : List (Bytes × ℕ)
full_routes = routes_below 57 []

full_routes-IsSorted : IsSorted full_routes
unfolding compare_bytes
full_routes-IsSorted = ascending-IsSorted full_routes refl

split_routes-upper_bound_example :
    (h : InternalSplit) × (split_routes full_routes ≡ some h)
    × (length h.left_entries ≡ 28)
    × (length h.right_entries ≡ 28)
    × IsSorted h.left_entries
    × IsSorted h.right_entries
    × ((j : Bytes)
        → (if less j h.middle_key
            then upper_bound 99 h.left_entries j
            else upper_bound h.right_first h.right_entries j)
          ≡ upper_bound 99 full_routes j)
split_routes-upper_bound_example = split_routes-upper_bound 99 full_routes refl full_routes-IsSorted

decode-encode_internal_node_example :
    (body : Bytes) × (encode_internal_node 9 some_routes ≡ ok body)
    × (length body ≡ body_size)
    × (first_byte body ≡ node_type_internal)
    × (decode_internal_node body ≡ ok (9, some_routes))
decode-encode_internal_node_example = decode-encode_internal_node 9 some_routes (record {
  few = omega arith;
  sorted = (unfold compare_bytes in refl);
  routes =
      ((omega arith, omega arith), ((omega arith, omega arith), ((omega arith, omega arith), tt)));
  first_fits = omega arith;
})

decode-encode_overflow_page_example :
    (body : Bytes) × (encode_overflow_page 7 (1 ∷ 2 ∷ []) ≡ ok body)
    × (length body ≡ body_size)
    × (decode_overflow_page body ≡ ok (7, fill overflow_chunk_size (1 ∷ 2 ∷ [])))
decode-encode_overflow_page_example =
    decode-encode_overflow_page 7 (1 ∷ 2 ∷ []) (omega arith) (omega arith)

decode_leaf_node-large_example :
    (body : Bytes) × (encode_leaf_node some_entries sentinel ≡ ok body)
    × (decode_leaf_node body ≡ ok (map (λ e. (e.0, reread (e.1))) some_entries, sentinel))
    × ((v : Bytes)
        → max_val_size + 8 < length v
        → ((ref_of v).has_overflow ≡ true)
          × ((ref_of (reread v)).has_overflow ≡ false)
          × ((ref_of (reread v)).total_len ≡ 512))
decode_leaf_node-large_example = decode_leaf_node-large some_entries sentinel some_entries-IsLeaf

abbrev chain_pages : List ℕ
chain_pages = 3 ∷ []

-- A value of 600 bytes, whose chain is one page.
abbrev long_value : Bytes
long_value = replicate 600 1

long_value_size : length long_value ≡ 600
long_value_size = length-replicate 600 1

one_page : length chain_pages ≡ num_overflow long_value
unfolding num_overflow
one_page = omega (arith, long_value_size)

three-IsFree : IsFree leaf_pages chain_pages
three-IsFree = (
  (
    record {
      opened = refl;
      is_data = omega arith;
      counted = omega arith;
      not_free = refl;
      in_file = omega arith;
    },
    omega arith,
  ),
  tt,
  tt,
)

write_overflow_chain-read_overflow_value_example :
    (q : FilePager) × (write_overflow_chain sum_crc none chain_pages long_value leaf_pages
      ≡ (q, ok tt))
    × (q.in_txn ≡ false)
    × (read_overflow_value sum_crc none (ref_of (put_be 8 3 ++ long_value)) q ≡ (q, ok long_value))
    × ((j : ℕ)
        → All (λ id. id ≢ j) chain_pages
        → IsInUse leaf_pages j
        → (read_page sum_crc none q j).1 ≡ (read_page sum_crc none leaf_pages j).1)
write_overflow_chain-read_overflow_value_example =
    write_overflow_chain-read_overflow_value sum_crc sum_fits long_value chain_pages leaf_pages
      (omega (arith, long_value_size)) (omega (arith, long_value_size)) one_page three-IsFree

-- The pager once the chain is written, and the slot that leads to it.
abbrev chain_pager : FilePager
chain_pager =
    (write_overflow_chain-read_overflow_value sum_crc sum_fits long_value chain_pages leaf_pages
      (omega (arith, long_value_size)) (omega (arith, long_value_size)) one_page three-IsFree).0

abbrev chain_ref : LeafValueRef
chain_ref = ref_of (put_be 8 3 ++ long_value)

queries-keep_example :
    ((get sum_crc none 3 leaf_store (5 ∷ [])).0 ≡ leaf_store)
    × ((scan sum_crc none 3 leaf_store (1 ∷ []) (9 ∷ [])).0 ≡ leaf_store)
queries-keep_example = queries-keep sum_crc none 3 leaf_store (5 ∷ []) (1 ∷ []) (9 ∷ [])

some_entries-IsSorted : IsSorted (some_entries ++ [])
unfolding compare_bytes
some_entries-IsSorted = ascending-IsSorted (some_entries ++ []) refl

scan_leaf-select_example :
    scan_leaf sum_crc none 1 3 (2 ∷ []) [] leaf_pages
    ≡ (leaf_pages, ok (within (2 ∷ []) [] (joined (some_entries ∷ []))))
scan_leaf-select_example =
    scan_leaf-select sum_crc (2 ∷ []) [] leaf_pages 1 3 (some_entries ∷ [])
      (
        refl,
        leaf_body,
        sentinel,
        leaf_here,
        map ref_entry some_entries,
        leaf_body-IsSmallLeaf.decodes,
        (refl, refl, (refl, refl, tt)),
        refl,
      )
      some_entries-IsSorted (omega arith)
