-- ===== src/Kv/Runs.antt =====
-- The store's theorems at concrete inputs: small nodes, and files of a few pages.
use plomvix.Base.{
  inr, ℕ, suc, ◌+◌, ◌%◌, ◌≡◌, refl, ap, ◌∙◌, inl, true, false, List, [], ◌∷◌, map, length, arith,
  none, some, ok, if◌then◌else◌,
}
use plomvix.Base.Bytes.Order.{compare_bytes}
use plomvix.Base.Int.{pos}
use plomvix.Pager.{page_size, body_size, sentinel, IsCrc32}
use plomvix.Pager.Page.{zeros, encode_data_page-total}
use plomvix.Pager.Disk.{read_body_unchecked}
use plomvix.Pager.FilePager.{FilePager, is_open, allocate_page}
use plomvix.Pager.FilePager.Reads.{reads_outside}
use plomvix.Pager.FilePager.Extend.{IsExtended, allocate_page-extends}
use plomvix.Kv.{Bytes, same, node_type_leaf}
use plomvix.Kv.Node.{first_byte, encode_leaf_node, decode_leaf_node_refs}
use plomvix.Kv.Node.Slot.{ref_entry}
use plomvix.Kv.Node.Leaf.{IsLeaf, decode-encode_leaf_node}
use plomvix.Kv.Store.{body_at}
use plomvix.Kv.Search.{BtreeStore, find, get, read_meta}
use plomvix.Kv.Set.{set}
use plomvix.Kv.Delete.{delete}
use plomvix.Kv.Route.{at_leaf}
use plomvix.Kv.Rewrite.{ok-body_at}
use plomvix.Kv.Lookup.{found, IsSmallLeaf, IsReady, IsUpdated}
use plomvix.Kv.Lookup.Calls.{set-get, delete-get}
use plomvix.Kv.Lookup.Empty.{IsEmpty, set_in_empty-get}

-- A stand-in for the checksum: the sum of the bytes as a uint32.
abbrev sum_of : List ℕ → ℕ
sum_of [] = 0
sum_of (b ∷ bs) = b + sum_of bs

abbrev pub sum_crc : List ℕ → ℕ
sum_crc bs = sum_of bs % 0x1_0000_0000

pub sum_fits : IsCrc32 sum_crc
sum_fits = record { fits = λ bs. omega arith }

-- Keys and values of one byte.
abbrev pub one_by_one : List ℕ → List (Bytes × Bytes)
one_by_one [] = []
one_by_one (n ∷ ns) = (n ∷ [], n ∷ []) ∷ one_by_one ns

abbrev pub some_entries : List (Bytes × Bytes)
some_entries = one_by_one (1 ∷ 5 ∷ [])

pub some_entries-IsLeaf : IsLeaf some_entries sentinel
unfolding compare_bytes
some_entries-IsLeaf = record {
  few = omega arith;
  sorted = refl;
  stored = (
    record { key_fits = omega arith; value_fits = inl (omega arith) },
    (record { key_fits = omega arith; value_fits = inl (omega arith) }, tt),
  );
  next_fits = omega arith;
}

decode-encode_leaf_node_example :
    (body : Bytes) × (encode_leaf_node some_entries sentinel ≡ ok body)
    × (length body ≡ body_size)
    × (first_byte body ≡ node_type_leaf)
    × (decode_leaf_node_refs body ≡ ok (map ref_entry some_entries, sentinel))
decode-encode_leaf_node_example = decode-encode_leaf_node some_entries sentinel some_entries-IsLeaf

abbrev pub leaf_body : Bytes
leaf_body = (decode-encode_leaf_node some_entries sentinel some_entries-IsLeaf).0

pub leaf_body-IsSmallLeaf : IsSmallLeaf leaf_body some_entries sentinel
leaf_body-IsSmallLeaf =
    let (body, e, size, t, d) = decode-encode_leaf_node some_entries sentinel some_entries-IsLeaf in
    record {
      is_leaf = some_entries-IsLeaf;
      small = (omega arith, (omega arith, tt));
      tagged = t;
      decodes = d;
    }

abbrev leaf_image : List ℕ
leaf_image =
    (encode_data_page-total sum_crc sum_fits leaf_body
      ((decode-encode_leaf_node some_entries sentinel some_entries-IsLeaf).2)).0

-- Two headers and the pages given.
abbrev pub with_pages : List (List ℕ) → FilePager
with_pages pages = record {
  checkpoint_threshold = pos 0;
  main_file = zeros page_size ∷ zeros page_size ∷ pages;
  wal_file = [];
  state = is_open;
  page_count = 2 + length pages;
  free_list_head = sentinel;
  free_count = 0;
  free_set = [];
  in_txn = false;
  next_txn_id = 0;
  current_txn = 0;
  txn_buffer = [];
  wal_size = 0;
}

-- A blank meta page and a leaf.
abbrev pub leaf_pages : FilePager
leaf_pages = with_pages (zeros page_size ∷ leaf_image ∷ [])

pub leaf_here : body_at sum_crc leaf_pages 3 ≡ ok leaf_body
unfolding read_body_unchecked
leaf_here = ok-body_at sum_crc leaf_pages 3 leaf_body (
    ap (λ o. o.1)
      (reads_outside sum_crc leaf_pages 3 refl (record {
        opened = refl;
        is_data = omega arith;
        counted = omega arith;
        not_free = refl;
        in_file = omega arith;
      }))
    ∙ (encode_data_page-total sum_crc sum_fits leaf_body
        ((decode-encode_leaf_node some_entries sentinel some_entries-IsLeaf).2)).3)

abbrev pub leaf_store : BtreeStore
leaf_store = record { pg = leaf_pages; is_open = true; is_closed = false; root_page_id = 3 }

leaf_store-IsReady : IsReady leaf_store
leaf_store-IsReady = record {
  opened = refl;
  not_closed = refl;
  rooted = λ e. omega (arith, e);
  outside = refl;
  has_room = inr (refl, omega arith);
}

set-get_example :
    (t : BtreeStore) × (set sum_crc none 1 leaf_store (3 ∷ []) (9 ∷ []) ≡ (t, ok tt))
    × IsUpdated sum_crc leaf_store t 0 3 leaf_body
        (λ j. if same (3 ∷ []) j then some (9 ∷ []) else find j some_entries)
set-get_example =
    set-get sum_crc sum_fits 0 leaf_store leaf_store-IsReady 3 leaf_body some_entries sentinel
      leaf_body-IsSmallLeaf leaf_here (3 ∷ []) (9 ∷ []) (omega arith) (omega arith)
      (inl (omega arith)) (at_leaf 0 leaf_here (leaf_body-IsSmallLeaf.tagged))

delete-get_example :
    (t : BtreeStore) × (delete sum_crc none 1 leaf_store (5 ∷ []) ≡ (t, ok tt))
    × IsUpdated sum_crc leaf_store t 0 3 leaf_body
        (λ j. if same (5 ∷ []) j then none else find j some_entries)
delete-get_example =
    delete-get sum_crc sum_fits 0 leaf_store leaf_store-IsReady 3 leaf_body some_entries sentinel
      leaf_body-IsSmallLeaf leaf_here (5 ∷ []) (at_leaf 0 leaf_here (leaf_body-IsSmallLeaf.tagged))

-- A blank meta page, and no tree.
abbrev empty_store : BtreeStore
empty_store = record {
  pg = with_pages (zeros page_size ∷ []);
  is_open = true;
  is_closed = false;
  root_page_id = sentinel;
}

empty_store-IsEmpty : IsEmpty empty_store
empty_store-IsEmpty = record {
  opened = refl;
  not_closed = refl;
  no_root = refl;
  outside = refl;
  meta = record {
    opened = refl;
    is_data = omega arith;
    counted = omega arith;
    not_free = refl;
    in_file = omega arith;
  };
  no_free = refl;
  not_free = refl;
  whole = omega arith;
  few = omega arith;
  has_room = inr (refl, omega arith);
}

set_in_empty-get_example :
    (t : BtreeStore) × (set sum_crc none 1 empty_store (3 ∷ []) (9 ∷ []) ≡ (t, ok tt))
    × (read_meta sum_crc none t.pg ≡ (t.pg, ok t.root_page_id))
    × ((m : ℕ) (j : Bytes)
        → get sum_crc none (suc m) t j
          ≡ (t, found (if same (3 ∷ []) j then some (9 ∷ []) else none)))
set_in_empty-get_example =
    set_in_empty-get sum_crc sum_fits 1 empty_store (3 ∷ []) (9 ∷ []) empty_store-IsEmpty
      (omega arith) (omega arith)

allocate_page-extends_example :
    (q : FilePager) × (allocate_page sum_crc none leaf_pages ≡ (q, ok 4))
    × IsExtended sum_crc leaf_pages q 4
allocate_page-extends_example =
    allocate_page-extends sum_crc sum_fits leaf_pages refl refl refl (omega arith) (omega arith)
      refl
