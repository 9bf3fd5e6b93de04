-- ===== src/Kv/Lookup/Empty.antt =====
-- The first Set of an empty store, then Get.
use plomvix.Base.{
  ◌⊎◌, inl, inr, ℕ, suc, ◌+◌, ◌≤◌, ◌<◌, ◌≡◌, ◌≢◌, refl, sym, ap, ◌∙◌, true, false, List, [], ◌∷◌,
  length, drop, ◌*◌, arith, none, some, ok, ◌==◌, ltb, if◌then◌else◌, if_true, if_false,
}
use plomvix.Base.Int.{pos_part}
use plomvix.Pager.{body_size, sentinel, IsCrc32}
use plomvix.Pager.Disk.{put}
use plomvix.Pager.FilePager.{FilePager, contains, read_page}
use plomvix.Pager.FilePager.Reads.{IsInUse, lookup-put, lookup-put_other}
use plomvix.Pager.FilePager.Buffers.{over}
use plomvix.Pager.FilePager.Commit.{HasRoom, transaction-commit}
use plomvix.Pager.FilePager.Extend.{allocate_page-extends}
use plomvix.Kv.{Bytes, same, max_key_size, max_val_size, max_val_size_enterprise, meta_page_id}
use plomvix.Kv.Node.{encode_leaf_node, encode_meta_page, decode_meta_page}
use plomvix.Kv.Node.Fill.{length-fill}
use plomvix.Kv.Node.Leaf.{IsLeaf}
use plomvix.Kv.Node.Overflow.{decode-encode_meta_page}
use plomvix.Kv.Pages.{M, and_then, wrap, done, lift, ◌>>=◌, ◌>>◌, write, allocate, in_tx}
use plomvix.Kv.Store.{body_at, read-body_at, write_all, in_tx-transaction}
use plomvix.Kv.Search.{BtreeStore, get, read_meta, with_root}
use plomvix.Kv.Set.{set, set_in_empty, prepare_overflow, write_chunks}
use plomvix.Kv.Route.{at_leaf}
use plomvix.Kv.Rewrite.{ok-body_at, one_write}
use plomvix.Kv.Lookup.{found, encode_small, not_large, check_open-pass, get-Route}
use plomvix.Kv.Lookup.Leaf.{IsStored-small}

-- A store with no tree yet: its meta page is in use, the file is whole, the free list is empty, and the log
-- is empty or has room for the two pages that the first Set writes.
pub record IsEmpty (s : BtreeStore) : Type 0 where
  pub opened : s.is_open ≡ true
  pub not_closed : s.is_closed ≡ false
  pub no_root : s.root_page_id ≡ sentinel
  pub outside : s.pg.in_txn ≡ false
  pub meta : IsInUse s.pg meta_page_id
  pub no_free : s.pg.free_list_head ≡ sentinel
  pub not_free : contains s.pg.page_count s.pg.free_set ≡ false
  pub whole : s.pg.page_count ≤ length s.pg.main_file
  pub few : s.pg.page_count < sentinel
  pub has_room :
      (s.pg.wal_size + 2 * 4108 + 24 < pos_part s.pg.checkpoint_threshold)
      ⊎ (s.pg.wal_size ≡ 0) × (length s.pg.main_file < sentinel)

one_entry-IsLeaf :
    (k v : Bytes)
    → length k ≤ max_key_size
    → length v ≤ max_val_size
    → IsLeaf ((k, v) ∷ []) sentinel
one_entry-IsLeaf k v hk hv = record {
  few = omega arith;
  sorted = refl;
  stored = (IsStored-small k v hk hv, tt);
  next_fits = omega arith;
}

module _ (crc32 : List ℕ → ℕ) (crc : IsCrc32 crc32) where
  -- The writes of setInEmpty, one after the other.
  first_writes :
      (leaf : ℕ) (k v body meta : Bytes) (pg : FilePager)
      → encode_leaf_node ((k, v) ∷ []) sentinel ≡ ok body
      → (write_chunks crc32 none [] (drop 504 v)
            >> (lift (encode_leaf_node ((k, v) ∷ []) sentinel) >>= λ b.
                write crc32 none leaf b >> write crc32 none meta_page_id meta))
          pg
        ≡ write_all crc32 ((leaf, body) ∷ (meta_page_id, meta) ∷ []) pg
  unfolding write_chunks write_all
  first_writes leaf k v body meta pg e =
      ap
        (λ x.
          and_then (lift x pg) (λ b. write crc32 none leaf b >> write crc32 none meta_page_id meta))
        e
      ∙ ap (λ (m : M (Unit {0})). and_then (write crc32 none leaf body pg) (λ u. m))
          (λ i x. sym (one_write crc32 crc meta_page_id meta x) i)

  -- The leaf and the meta page of the first Set are written.
  first_leaf :
      (p : FilePager) (leaf : ℕ) (body meta : Bytes)
      → p.in_txn ≡ false
      → IsInUse p leaf
      → IsInUse p meta_page_id
      → meta_page_id ≢ leaf
      → length body ≡ body_size
      → length meta ≡ body_size
      → HasRoom p 2
      → (q : FilePager) × (in_tx crc32 none
            (write_all crc32 ((leaf, body) ∷ (meta_page_id, meta) ∷ []))
            p
          ≡ (q, ok tt))
        × (body_at crc32 q leaf ≡ ok body)
        × (body_at crc32 q meta_page_id ≡ ok meta)
  first_leaf p leaf body meta out u m ne size size2 short =
      let ws : List (ℕ × Bytes) = (leaf, body) ∷ (meta_page_id, meta) ∷ [] in
      let (q, run, outside, reads) =
        transaction-commit crc32 crc p ws u.opened out ((u, size), ((m, size2), tt)) short in
      (
        q,
        in_tx-transaction crc32 ws p q run,
        ok-body_at crc32 q leaf body (
            reads leaf u
            ∙ ap (λ o. over o ((read_page crc32 none p leaf).1))
                (lookup-put_other meta_page_id leaf meta (put leaf body []) ne
                  ∙ lookup-put leaf body [])),
        ok-body_at crc32 q meta_page_id meta (
            reads meta_page_id m
            ∙ ap (λ o. over o ((read_page crc32 none p meta_page_id).1))
                (lookup-put meta_page_id meta (put leaf body []))),
      )

  -- setInEmpty, its calls one after the other.
  set_in_empty-steps :
      (k v body : Bytes) (p q r : FilePager) (leaf : ℕ)
      → length v ≤ max_val_size
      → allocate crc32 none p ≡ (q, ok leaf)
      → encode_leaf_node ((k, v) ∷ []) sentinel ≡ ok body
      → in_tx crc32 none
          (write_all crc32 ((leaf, body) ∷ (meta_page_id, encode_meta_page leaf) ∷ []))
          q
        ≡ (r, ok tt)
      → set_in_empty crc32 none k v p ≡ (r, ok leaf)
  unfolding set_in_empty
  set_in_empty-steps k v body p q r leaf hv a e run =
      let after : ℕ → M ℕ = λ id.
        in_tx crc32 none (
          write_chunks crc32 none [] (drop 504 v)
          >> (lift (encode_leaf_node ((k, v) ∷ []) sentinel) >>= λ b.
              write crc32 none id b >> write crc32 none meta_page_id (encode_meta_page id)))
        >> done id in
      ap
        (λ (m : M (List ℕ × Bytes)). and_then (m p) (λ x. allocate crc32 none >>= λ id.
          in_tx crc32 none (
            write_chunks crc32 none (x.0) (drop 504 v)
            >> (lift (encode_leaf_node ((k, x.1) ∷ []) sentinel) >>= λ b.
                write crc32 none id b >> write crc32 none meta_page_id (encode_meta_page id)))
          >> done id))
        (if_false _ (prepare_overflow crc32 none v) (done ([], v)) (not_large (length v) hv))
      ∙ ap (λ o. and_then o after) a
      ∙ ap (λ m. (in_tx crc32 none m >> done leaf) q)
          (λ i pg. first_writes leaf k v body (encode_meta_page leaf) pg e i)
      ∙ ap (λ o. and_then o (λ u. done leaf)) run

  -- In a store with no tree that is open and outside a transaction, with an empty free list, a whole file and
  -- its meta page in use, with a log that is empty, whatever the checkpoint threshold, in a file of fewer
  -- pages than ids, or with one below a positive threshold by more than two pages and a marker, Set of a key
  -- of at most 63 bytes and a value of at most 512 succeeds: its leaf is the root, which the meta page names,
  -- Get of the key gives the value, and no other key is found.
  pub set_in_empty-get :
      (n : ℕ) (s : BtreeStore) (k v : Bytes)
      → IsEmpty s
      → length k ≤ max_key_size
      → length v ≤ max_val_size
      → (t : BtreeStore) × (set crc32 none n s k v ≡ (t, ok tt))
        × (read_meta crc32 none t.pg ≡ (t.pg, ok t.root_page_id))
        × ((m : ℕ) (j : Bytes)
            → get crc32 none (suc m) t j ≡ (t, found (if same k j then some v else none)))
  unfolding set
  set_in_empty-get n s k v h hk hv =
      let leaf : ℕ = s.pg.page_count in
      let (q, alloc, x) =
        allocate_page-extends crc32 crc s.pg h.meta.opened h.outside h.no_free
          (omega (arith, h.meta.counted)) h.whole h.not_free in
      let (body, e, size, l) =
        encode_small ((k, v) ∷ []) sentinel (one_entry-IsLeaf k v hk hv) (hv, tt) in
      let (r, run, here, meta) =
        first_leaf q leaf body (encode_meta_page leaf) x.outside x.fresh
          (x.in_use meta_page_id h.meta) (λ e2. omega (arith, e2, h.meta.counted)) size
          (unfold encode_meta_page in length-fill body_size _)
          (elim (h.has_room) [
            | inl short ↦ inl (omega (arith, short, x.log.0, ap pos_part (x.log.1)))
            | inr (no_log, some_left) ↦
                inr (omega (arith, no_log, x.log.0), omega (arith, some_left, x.grown))
          ]) in
      let t : BtreeStore = record s { pg = r; root_page_id = leaf } in
      (
        t,
        if_false _ _ _ (in_key (length k) hk)
            ∙ if_false _ _ _ (in_value (length v) hv)
            ∙ check_open-pass s _ h.opened h.not_closed
            ∙ ap (with_root s) (
                if_true _ _ _ (ap (λ i. i == sentinel) h.no_root)
                ∙ set_in_empty-steps k v body s.pg q r leaf hv (ap wrap alloc) e run),
        ap (λ o. and_then o (λ b. lift (decode_meta_page b)))
              (read-body_at crc32 r meta_page_id ∙ ap (λ y. (r, y)) meta)
            ∙ ap (λ y. (r, y)) (decode-encode_meta_page leaf (omega (arith, h.few))),
        λ m j.
            get-Route crc32 m t j leaf body ((k, v) ∷ []) sentinel h.opened h.not_closed
              (λ e2. omega (arith, e2, h.few)) (at_leaf m here (l.tagged)) l,
      )
    where
      in_key : (m : ℕ) → m ≤ max_key_size → ltb max_key_size m ≡ false
      in_key m h = ground arith

      in_value : (m : ℕ) → m ≤ max_val_size → ltb max_val_size_enterprise m ≡ false
      in_value m h = ground arith
