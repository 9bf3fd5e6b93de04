-- ===== src/Kv/Lookup/Calls.antt =====
-- Set and Delete of a store, then Get.
use plomvix.Base.{
  ℕ, suc, ◌≤◌, ◌<◌, ◌≡◌, refl, sym, ap, ◌∙◌, ◌⊎◌, false, List, [], length, arith, none, some,
  Result, ok, ◌==◌, ltb, if◌then◌else◌, Bool-cases, Option-cases, inl, inr, ==_ne, if_false,
}
use mathlib.Core.Path.{subst}
use plomvix.Pager.{sentinel, IsCrc32}
use plomvix.Pager.FilePager.{FilePager}
use plomvix.Kv.{
  Bytes, Error, same, max_key_size, max_val_size, max_leaf_keys, max_val_size_enterprise,
}
use plomvix.Kv.Order.{same-eq}
use plomvix.Kv.Pages.{and_then, done, lift, write, in_tx}
use plomvix.Kv.Store.{body_at}
use plomvix.Kv.Search.{BtreeStore, find, with_pages, with_root}
use plomvix.Kv.Leaves.{delete_entry}
use plomvix.Kv.Leaves.Sorted.{ascending-IsSorted, All-delete_entry}
use plomvix.Kv.Leaves.Find.{find-delete_entry}
use plomvix.Kv.Set.{
  set, set_in_tree, set_in_leaf, set_in_entries, set_from, prepare_overflow, PathEntry,
}
use plomvix.Kv.Delete.{delete, delete_from_leaf, delete_from_entries}
use plomvix.Kv.Route.{Route, set_from-Route, delete_from_tree-Route}
use plomvix.Kv.Lookup.{
  found, IsSmall, IsSmallLeaf, decode_small, not_large, IsReady, IsUpdated, check_open-pass,
  get-Route, with_pager,
}
use plomvix.Kv.Lookup.Leaf.{leaf_written, put-Route, delete-IsLeaf}

module _ (crc32 : List ℕ → ℕ) (crc : IsCrc32 crc32) (n : ℕ) (s : BtreeStore) (r : IsReady s)
    (leaf : ℕ) (old : Bytes) (entries : List (Bytes × Bytes)) (next_leaf : ℕ)
    (l : IsSmallLeaf old entries next_leaf) (here : body_at crc32 s.pg leaf ≡ ok old) where
  set_in_tree-Route :
      (k v : Bytes)
      → length v ≤ max_val_size
      → Route crc32 s.pg k leaf old n s.root_page_id
      → (way : List PathEntry) × (set_in_tree crc32 none (suc n) s.root_page_id k v s.pg
          ≡ set_in_entries crc32 none leaf way entries next_leaf k [] v (find k entries) s.pg)
  unfolding set_in_tree set_in_leaf
  set_in_tree-Route k v hv route =
      let (way, e) = set_from-Route crc32 s.pg k leaf old [] v n s.root_page_id [] route in
      (
        way,
        ap
              (λ m.
                and_then (m s.pg)
                  (λ p. set_from crc32 none (suc n) [] s.root_page_id k (p.0) (p.1)))
              (if_false _ (prepare_overflow crc32 none v) (done ([], v)) (not_large (length v) hv))
            ∙ e
            ∙ ap
                (λ x.
                  and_then (lift x s.pg)
                    (λ f. set_in_entries crc32 none leaf way (f.0) (f.1) k [] v (find k (f.0))))
                (decode_small old entries next_leaf l),
      )

  -- In a store that is open and outside a transaction, with a log that is empty, whatever the checkpoint
  -- threshold, in a file of no more pages than ids, or with one below a positive threshold by more than one
  -- page and a marker, Set of a key of at most 63 bytes and a value of at most 512, where the leaf that the
  -- key routes to has it or has room for it and all the values of that leaf are stored in it, succeeds. Get
  -- then gives the new value at the key, and at every other key of that leaf what Get gave before; all other
  -- leaves stay, and so do the ways to them.
  pub set-get :
      (k v : Bytes)
      → length k ≤ max_key_size
      → length v ≤ max_val_size
      → (length entries < max_leaf_keys) ⊎ ((w : Bytes) × (find k entries ≡ some w))
      → Route crc32 s.pg k leaf old n s.root_page_id
      → (t : BtreeStore) × (set crc32 none (suc n) s k v ≡ (t, ok tt))
        × IsUpdated crc32 s t n leaf old (λ j. if same k j then some v else find j entries)
  unfolding set
  set-get k v hk hv room route =
      let (way, e) = set_in_tree-Route k v hv route in
      let (q, run, u) =
        put-Route crc32 crc n s r leaf old entries next_leaf l here k v hk hv room way in
      let answer : FilePager × Result Error ℕ → BtreeStore × Result Error (Unit {0}) =
        λ o. with_root s (and_then o (λ root. done (if root == 0 then s.root_page_id else root))) in
      (
        with_pager s q,
        if_false _ _ _ (in_key (length k) hk)
            ∙ if_false _ _ _ (in_value (length v) hv)
            ∙ check_open-pass s _ r.opened r.not_closed
            ∙ ap (with_root s) (if_false _ _ _ (==_ne s.root_page_id sentinel r.rooted))
            ∙ ap answer (e ∙ run),
        u,
      )
    where
      in_key : (m : ℕ) → m ≤ max_key_size → ltb max_key_size m ≡ false
      in_key m h = ground arith

      in_value : (m : ℕ) → m ≤ max_val_size → ltb max_val_size_enterprise m ≡ false
      in_value m h = ground arith

  delete_entries-Route :
      (k : Bytes)
      → (q : FilePager) × (delete_from_entries crc32 none leaf entries next_leaf k
            (find k entries)
            s.pg
          ≡ (q, ok tt))
        × IsUpdated crc32 s
            (with_pager s q)
            n
            leaf
            old
            (λ j. if same k j then none else find j entries)
  unfolding delete_from_entries
  delete_entries-Route k = elim (Option-cases (find k entries)) [
    | inl e ↦ (
      s.pg,
      ap (λ o. delete_from_entries crc32 none leaf entries next_leaf k o s.pg) e,
      record {
        looks_up = λ j route.
            get-Route crc32 n s j leaf old entries next_leaf r.opened r.not_closed r.rooted route l
            ∙ ap (λ o. (s, found o)) (absent j e);
        others = λ j other body ne route. route;
      },
    )
    | inr (w, e) ↦
        (let new : List (Bytes × Bytes) = delete_entry k entries in
          let (body, q, enc, run, u) =
            leaf_written crc32 crc n s r leaf old entries next_leaf l here new
              (delete-IsLeaf k entries next_leaf l.is_leaf)
              (All-delete_entry IsSmall k entries l.small) in
          (
            q,
            ap (λ o. delete_from_entries crc32 none leaf entries next_leaf k o s.pg) e
                ∙ ap (λ x. and_then (lift x s.pg) (λ b. in_tx crc32 none (write crc32 none leaf b)))
                    enc
                ∙ run,
            subst (λ f. IsUpdated crc32 s (with_pager s q) n leaf old f)
                (λ i j.
                  find-delete_entry k entries j (ascending-IsSorted entries l.is_leaf.sorted) i)
                u,
          ))
  ]
    where
      absent :
          (j : Bytes)
          → find k entries ≡ none
          → find j entries ≡ (if same k j then none else find j entries)
      absent j e = elim (Bool-cases (same k j)) [
        | inl f ↦ rw f (ap (λ x. find x entries) (sym (same-eq k j f)) ∙ e)
        | inr f ↦ rw f refl
      ]

  delete_leaf-Route :
      (k : Bytes)
      → (q : FilePager) × (delete_from_leaf crc32 none leaf old k s.pg ≡ (q, ok tt))
        × IsUpdated crc32 s
            (with_pager s q)
            n
            leaf
            old
            (λ j. if same k j then none else find j entries)
  unfolding delete_from_leaf
  delete_leaf-Route k =
      let (q, run, u) = delete_entries-Route k in
      (
        q,
        ap
              (λ x.
                and_then (lift x s.pg)
                  (λ f. delete_from_entries crc32 none leaf (f.0) (f.1) k (find k (f.0))))
              (decode_small old entries next_leaf l)
            ∙ run,
        u,
      )

  -- In a store that is open and outside a transaction, with a log that is empty, whatever the checkpoint
  -- threshold, in a file of no more pages than ids, or with one below a positive threshold by more than one
  -- page and a marker, Delete of a key succeeds, whether the key is there or not, where all the values of the
  -- leaf that it routes to are stored in it. Get then finds no value at the key, and at every other key of
  -- that leaf what Get gave before; all other leaves stay, and so do the ways to them.
  pub delete-get :
      (k : Bytes)
      → Route crc32 s.pg k leaf old n s.root_page_id
      → (t : BtreeStore) × (delete crc32 none (suc n) s k ≡ (t, ok tt))
        × IsUpdated crc32 s t n leaf old (λ j. if same k j then none else find j entries)
  unfolding delete
  delete-get k route =
      let (q, run, u) = delete_leaf-Route k in
      (
        with_pager s q,
        check_open-pass s _ r.opened r.not_closed
            ∙ if_false _ _ _ (==_ne s.root_page_id sentinel r.rooted)
            ∙ ap (with_pages s)
                (delete_from_tree-Route crc32 s.pg k leaf old n s.root_page_id route ∙ run),
        u,
      )
