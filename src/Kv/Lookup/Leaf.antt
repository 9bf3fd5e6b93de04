-- ===== src/Kv/Lookup/Leaf.antt =====
-- Set and Delete at a leaf that need not be split.
use plomvix.Base.{
  ℕ, ◌≤◌, ◌<◌, ◌≡◌, ap, ◌∙◌, ◌⊎◌, true, List, [], length, arith, All, Option, none, some, ok, ltb,
  if◌then◌else◌, Option-cases, inl, inr,
}
use mathlib.Core.Path.{subst}
use plomvix.Pager.{IsCrc32}
use plomvix.Pager.FilePager.{FilePager}
use plomvix.Kv.{Bytes, same, max_key_size, max_val_size, max_leaf_keys}
use plomvix.Kv.Node.{encode_leaf_node}
use plomvix.Kv.Node.Slot.{IsStored}
use plomvix.Kv.Node.Leaf.{IsLeaf}
use plomvix.Kv.Pages.{and_then, lift, write, in_tx}
use plomvix.Kv.Store.{body_at}
use plomvix.Kv.Search.{BtreeStore, find}
use plomvix.Kv.Leaves.{insert_entry, merge_entry, halves, update_entry, delete_entry}
use plomvix.Kv.Leaves.Sorted.{
  ascending-IsSorted, IsSorted-ascending, All-insert_entry, insert_entry-IsSorted,
  update_entry-IsSorted, delete_entry-IsSorted, All-delete_entry, All-update_entry,
  length-insert_entry, length-update_entry, length-delete_entry,
}
use plomvix.Kv.Leaves.Find.{find-insert_entry, find-update_entry}
use plomvix.Kv.Set.{set_in_entries, store_leaf, split_leaf, PathEntry}
use plomvix.Kv.Rewrite.{in_tx-IsRewritten, Route-rewritten, Route-other}
use plomvix.Kv.Lookup.{
  IsSmall, IsSmallLeaf, encode_small, IsReady, IsUpdated, get-Route, with_pager,
}

pub IsStored-small :
    (k v : Bytes) → length k ≤ max_key_size → length v ≤ max_val_size → IsStored (k, v)
IsStored-small k v hk hv = record { key_fits = hk; value_fits = inl hv }

-- A leaf with a new entry, with another value for a key, and without one.
insert-IsLeaf :
    (k v : Bytes) (entries : List (Bytes × Bytes)) (next_leaf : ℕ)
    → length k ≤ max_key_size
    → length v ≤ max_val_size
    → length entries < max_leaf_keys
    → find k entries ≡ none
    → IsLeaf entries next_leaf
    → IsLeaf (insert_entry k v entries) next_leaf
insert-IsLeaf k v entries next_leaf hk hv room absent l = record {
  few = omega (arith, length-insert_entry k v entries, room);
  sorted =
      IsSorted-ascending (insert_entry k v entries)
        (insert_entry-IsSorted k v entries (ascending-IsSorted entries l.sorted) absent);
  stored = All-insert_entry IsStored k v entries (IsStored-small k v hk hv) l.stored;
  next_fits = l.next_fits;
}

update-IsLeaf :
    (k v : Bytes) (entries : List (Bytes × Bytes)) (next_leaf : ℕ)
    → length v ≤ max_val_size
    → IsLeaf entries next_leaf
    → IsLeaf (update_entry k v entries) next_leaf
update-IsLeaf k v entries next_leaf hv l = record {
  few = omega (arith, length-update_entry k v entries, l.few);
  sorted =
      IsSorted-ascending (update_entry k v entries)
        (update_entry-IsSorted k v entries (ascending-IsSorted entries l.sorted));
  stored =
      All-update_entry IsStored k v entries (λ e h. IsStored-small (e.0) v h.key_fits hv) l.stored;
  next_fits = l.next_fits;
}

pub delete-IsLeaf :
    (k : Bytes) (entries : List (Bytes × Bytes)) (next_leaf : ℕ)
    → IsLeaf entries next_leaf
    → IsLeaf (delete_entry k entries) next_leaf
delete-IsLeaf k entries next_leaf l = record {
  few = omega (arith, length-delete_entry k entries, l.few);
  sorted =
      IsSorted-ascending (delete_entry k entries)
        (delete_entry-IsSorted k entries (ascending-IsSorted entries l.sorted));
  stored = All-delete_entry IsStored k entries l.stored;
  next_fits = l.next_fits;
}

module _ (crc32 : List ℕ → ℕ) (crc : IsCrc32 crc32) (n : ℕ) (s : BtreeStore) (r : IsReady s)
    (leaf : ℕ) (old : Bytes) (entries : List (Bytes × Bytes)) (next_leaf : ℕ)
    (l : IsSmallLeaf old entries next_leaf) (here : body_at crc32 s.pg leaf ≡ ok old) where
  -- The leaf's new entries are encoded and written.
  pub leaf_written :
      (new : List (Bytes × Bytes))
      → IsLeaf new next_leaf
      → All IsSmall new
      → (body : Bytes) × (q : FilePager) × (encode_leaf_node new next_leaf ≡ ok body)
        × (in_tx crc32 none (write crc32 none leaf body) s.pg ≡ (q, ok tt))
        × IsUpdated crc32 s (with_pager s q) n leaf old (λ j. find j new)
  leaf_written new is_leaf small =
      let (body, e, size, nl) = encode_small new next_leaf is_leaf small in
      let (q, run, w) =
        in_tx-IsRewritten crc32 crc s.pg leaf old body r.outside r.has_room here size in
      (
        body,
        q,
        e,
        run,
        record {
          looks_up = λ j route.
              get-Route crc32 n (with_pager s q) j leaf body new next_leaf r.opened r.not_closed
                r.rooted
                (Route-rewritten crc32 s.pg q leaf old body w here l.tagged nl.tagged j n
                  s.root_page_id route)
                nl;
          others = λ j other b ne route.
              Route-other crc32 s.pg q leaf old body w here l.tagged nl.tagged j other b ne n
                s.root_page_id route;
        },
      )

  store_leaf-written :
      (new : List (Bytes × Bytes)) (packed : Bytes)
      → IsLeaf new next_leaf
      → All IsSmall new
      → (q : FilePager) × (store_leaf crc32 none leaf new next_leaf [] packed s.pg ≡ (q, ok 0))
        × IsUpdated crc32 s (with_pager s q) n leaf old (λ j. find j new)
  unfolding store_leaf
  store_leaf-written new packed is_leaf small =
      let (body, q, e, run, u) = leaf_written new is_leaf small in
      (
        q,
        ap
              (λ b. and_then (lift b s.pg) (λ x pg.
                and_then (in_tx crc32 none (write crc32 none leaf x) pg) (λ u y. (y, ok 0))))
              e
            ∙ ap (λ o. and_then o (λ u y. (y, ok 0))) run,
        u,
      )

  pub put-Route :
      (k v : Bytes)
      → length k ≤ max_key_size
      → length v ≤ max_val_size
      → (length entries < max_leaf_keys) ⊎ ((w : Bytes) × (find k entries ≡ some w))
      → (way : List PathEntry)
      → (q : FilePager) × (set_in_entries crc32 none leaf way entries next_leaf k [] v
            (find k entries)
            s.pg
          ≡ (q, ok 0))
        × IsUpdated crc32 s
            (with_pager s q)
            n
            leaf
            old
            (λ j. if same k j then some v else find j entries)
  unfolding set_in_entries
  put-Route k v hk hv room way = elim (Option-cases (find k entries)) [
    | inl e ↦
        (let fits : length entries < max_leaf_keys = space e room in
          let (q, run, u) =
            store_leaf-written (insert_entry k v entries) v
              (insert-IsLeaf k v entries next_leaf hk hv fits e l.is_leaf)
              (All-insert_entry IsSmall k v entries hv l.small) in
          (
            q,
            ap (λ o. set_in_entries crc32 none leaf way entries next_leaf k [] v o s.pg) e
                ∙ ap
                    (λ b.
                      (if b
                          then store_leaf crc32 none leaf (insert_entry k v entries) next_leaf [] v
                          else split_leaf crc32 none leaf way (halves (merge_entry k v entries))
                              next_leaf [] v)
                        s.pg)
                    (below fits)
                ∙ run,
            looked (λ i j. find-insert_entry k v entries j i) u,
          ))
    | inr (w, e) ↦
        (let (q, run, u) =
            store_leaf-written (update_entry k v entries) v
              (update-IsLeaf k v entries next_leaf hv l.is_leaf)
              (All-update_entry IsSmall k v entries (λ x h. hv) l.small) in
          (
            q,
            ap (λ o. set_in_entries crc32 none leaf way entries next_leaf k [] v o s.pg) e ∙ run,
            looked (λ i j. find-update_entry k v w entries j e i) u,
          ))
  ]
    where
      space :
          find k entries ≡ none
          → (length entries < max_leaf_keys) ⊎ ((w : Bytes) × (find k entries ≡ some w))
          → length entries < max_leaf_keys
      space e (inl h) = h
      space e (inr (w, h)) = cc

      below : length entries < max_leaf_keys → ltb (length entries) max_leaf_keys ≡ true
      below h = ground arith

      looked :
          {t : BtreeStore} {f g : Bytes → Option Bytes}
          → f ≡ g
          → IsUpdated crc32 s t n leaf old f
          → IsUpdated crc32 s t n leaf old g
      looked {t} p u = subst (λ f. IsUpdated crc32 s t n leaf old f) p u
