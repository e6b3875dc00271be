-- ===== src/Cbs/Interrupted.antt =====
-- A crash between the stores with which write_req updates a request to persistent memory.
use pmem_program.Base.{
  ℕ, zero, suc, ◌+◌, ◌-◌, ◌*◌, ◌^◌, ◌≤◌, ◌<◌, ◌≡◌, ◌≢◌, ◌⊎◌, inl, inr, refl, ap, ◌∙◌, true, false,
  ◌==◌, arith, some,
}
use pmem_program.Cbs.{
  Image, Cache, done, put, used_id, valid_of, with_sn, req_of, next_word, page_meta_from_id,
  put_meta, put_page, reset_sn, page_from_meta, magic_number, replace_page, with_free, slot_of,
  page_id_from_meta,
}
use pmem_program.Base.Words.{u32}
use pmem_program.Cbs.Words.{next_word_fields, page_from_id, slot_of_lem}
use pmem_program.Cbs.Init.{Start, meta_at, cbs_init}
use pmem_program.Cbs.Recovery.{AllOk}
use pmem_program.Cbs.Crash.{Agrees, recovery_lem, k_idle}
use pmem_program.Cbs.Valid.{Owner, spare, Describes, IsValid, put_self, put_other, lookup}

with_sn_fields :
    (word : ℕ)
    → (valid_of (with_sn word 0) ≡ valid_of word) × (req_of (with_sn word 0) ≡ req_of word)
unfolding with_sn valid_of req_of
with_sn_fields word = omega arith

module _ {Page : Type 0} where
  -- The image after some of the stores of write_req where one page holds the request: none, the old
  -- meta's sn, a part of the page (`torn` is what the page then has), the page and its meta.
  unfoldable pub update_stores : ℕ → ℕ → Page → Page → ℕ → ℕ → ℕ → Image Page → Image Page
  unfolding reset_sn put_page put_meta next_word page_from_meta
  update_stores zero req_id torn content page_address page_old page_new image = image
  update_stores (suc zero) req_id torn content page_address page_old page_new image =
      reset_sn page_old image
  update_stores (suc (suc zero)) req_id torn content page_address page_old page_new image =
      put_page (page_from_meta page_address page_new) torn (reset_sn page_old image)
  update_stores (suc (suc (suc n))) req_id torn content page_address page_old page_new image =
      put_meta page_new (next_word req_id 1)
        (put_page (page_from_meta page_address page_new) content (reset_sn page_old image))

  -- replace_page makes all of the stores, and then frees the old page's meta.
  replace_page-update_stores :
      (r : ℕ) (torn content : Page) (c : Cache Page)
      → 0 < c.free_num
      → (c' : Cache Page) × (replace_page r content c ≡ done c')
        × (c'.image
            ≡ put_meta (page_meta_from_id (used_id (c.disk r))) 0 (
                update_stores 3 r torn content c.page_address
                  (page_meta_from_id (used_id (c.disk r)))
                  (c.free_list (c.free_num - 1))
                  c.image))
  unfolding replace_page with_free update_stores
  replace_page-update_stores r torn content c some_free = (
    record c {
      image = put_meta (page_meta_from_id (used_id (c.disk (slot_of r)))) 0 (
          update_stores 3 r torn content c.page_address
            (page_meta_from_id (used_id (c.disk (slot_of r)))) (c.free_list (c.free_num - 1))
            c.image);
      disk = put c.disk (slot_of r) (record {
        page_id1 = 0;
        page_id2 = u32 (page_id_from_meta (c.free_list (c.free_num - 1)));
      });
      free_list =
          put c.free_list (c.free_num - 1) (page_meta_from_id (used_id (c.disk (slot_of r))));
    },
    (let e : (c.free_num == 0) ≡ false = ground arith in rw e refl),
    ap
        (λ t. put_meta (page_meta_from_id (used_id (c.disk t))) 0 (
          update_stores 3 r torn content c.page_address (page_meta_from_id (used_id (c.disk t)))
            (c.free_list (c.free_num - 1)) c.image))
        (slot_of_lem r),
  )

  reset_sn_fields :
      (old meta : ℕ) (image : Image Page)
      → (valid_of ((reset_sn old image).metas meta) ≡ valid_of (image.metas meta))
        × (req_of ((reset_sn old image).metas meta) ≡ req_of (image.metas meta))
  unfolding reset_sn put_meta
  reset_sn_fields old meta image = let f = with_sn_fields (image.metas old) in ground arith

  reset_sn_keeps :
      (old : ℕ) (image : Image Page)
      → ((reset_sn old image).pages ≡ image.pages)
        × ((reset_sn old image).page_offset ≡ image.page_offset)
        × ((reset_sn old image).magic ≡ image.magic)
  unfolding reset_sn put_meta
  reset_sn_keeps old image = ground arith

  update_stores-magic :
      (steps r : ℕ) (torn content : Page) (address old new : ℕ) (image : Image Page)
      → (update_stores steps r torn content address old new image).magic ≡ image.magic
  unfolding update_stores put_page put_meta
  update_stores-magic zero r torn content address old new image = refl
  update_stores-magic (suc zero) r torn content address old new image = (reset_sn_keeps old image).2
  update_stores-magic (suc (suc zero)) r torn content address old new image =
      (reset_sn_keeps old image).2
  update_stores-magic (suc (suc (suc n))) r torn content address old new image =
      (reset_sn_keeps old image).2

  module _ (n : ℕ) (owner : ℕ → Owner) (c : Cache Page) (valid : Describes n owner c) (r : ℕ)
      (r_few : r < 2 ^ 30) (torn content : Page) (k : ℕ) (k1 : 1 ≤ k) (kn : k ≤ n)
      (k_spare : owner k ≡ spare (c.free_num - 1)) (old : ℕ) where
    abbrev page_place : ℕ
    page_place = c.page_address + 4096 * (k - 1)

    abbrev base : Image Page
    base = reset_sn old c.image

    base_idle : valid_of (base.metas (meta_at (k - 1))) ≡ 0
    base_idle =
        (reset_sn_fields old (meta_at (k - 1)) c.image).0
        ∙ k_idle n owner c valid r r_few content k k1 kn k_spare

    torn-Agrees :
        Agrees n owner c valid r r_few content k k1 kn k_spare (put_page page_place torn base)
    unfolding put_page
    torn-Agrees = record {
      offset = (reset_sn_keeps old c.image).1 ∙ valid.placed;
      pages = λ id i1 ne.
          put_other base.pages page_place torn _ (λ e. ne (omega (arith, e, k1, i1)))
          ∙ ap (λ f. f (c.page_address + 4096 * (id - 1))) (reset_sn_keeps old c.image).0;
      words = λ i ne. reset_sn_fields old (meta_at i) c.image;
      new = inl base_idle;
    }

    reset-Agrees : Agrees n owner c valid r r_few content k k1 kn k_spare base
    reset-Agrees = record {
      offset = (reset_sn_keeps old c.image).1 ∙ valid.placed;
      pages =
          λ id i1 ne. ap (λ f. f (c.page_address + 4096 * (id - 1))) (reset_sn_keeps old c.image).0;
      words = λ i ne. reset_sn_fields old (meta_at i) c.image;
      new = inl base_idle;
    }

    start-Agrees : Agrees n owner c valid r r_few content k k1 kn k_spare c.image
    start-Agrees = record {
      offset = valid.placed;
      pages = λ id i1 ne. refl;
      words = λ i ne. (refl, refl);
      new = inl (k_idle n owner c valid r r_few content k k1 kn k_spare);
    }

    abbrev both : Image Page
    both = put_meta (page_meta_from_id k) (next_word r 1) (put_page page_place content base)

    both-Agrees : Agrees n owner c valid r r_few content k k1 kn k_spare both
    unfolding put_page put_meta page_meta_from_id
    both-Agrees = record {
      offset = (reset_sn_keeps old c.image).1 ∙ valid.placed;
      pages = λ id i1 ne.
          put_other base.pages page_place content _ (λ e. ne (omega (arith, e, k1, i1)))
          ∙ ap (λ f. f (c.page_address + 4096 * (id - 1))) (reset_sn_keeps old c.image).0;
      words = λ i ne.
          let w =
            put_other base.metas (meta_at (k - 1)) (next_word r 1) (meta_at i)
              (λ e. ne (omega (arith, e, k1))) in
          let (v, q) = reset_sn_fields old (meta_at i) c.image in
          (ap valid_of w ∙ v, ap req_of w ∙ q);
      new =
          let w = put_self base.metas (meta_at (k - 1)) (next_word r 1) in
          let (v, s, q) = next_word_fields r 1 (omega (arith, r_few)) (omega arith) in
          inr (ap valid_of w ∙ v, ap req_of w ∙ q, put_self base.pages page_place content);
    }

    stores_agree :
        (steps new : ℕ)
        → new ≡ page_meta_from_id k
        → Agrees n owner c valid r r_few content k k1 kn k_spare
            (update_stores steps r torn content c.page_address old new c.image)
    unfolding update_stores
    stores_agree zero new e = start-Agrees
    stores_agree (suc zero) new e = reset-Agrees
    stores_agree (suc (suc zero)) new e = rw (e, page_from_id c.page_address k k1) torn-Agrees
    stores_agree (suc (suc (suc m))) new e = rw (e, page_from_id c.page_address k k1) both-Agrees

-- A crash after some of the stores up to the new meta with which write_req updates a request that
-- a page of a valid cache holds, where a page is free and that page may be torn while it is not in
-- use: cbs_init over the mapping, when all that it asks for is granted, ends without an access out
-- of bounds in a cache in which read_req finds for every request of the disk what it found before,
-- or the new content for the one that was updated.
pub write_req_interrupted :
    {Page : Type 0} (n : ℕ) (c : Cache Page) (r : ℕ) (torn content : Page) (steps : ℕ)
    (start : Start) (malloced : ℕ → ℕ)
    → AllOk start
    → IsValid n c
    → r < 2 ^ 30
    → used_id (c.disk r) ≢ 0
    → 0 < c.free_num
    → (c' : Cache Page) × (cbs_init n start malloced (
          update_stores steps r torn content c.page_address
            (page_meta_from_id (used_id (c.disk r)))
            (c.free_list (c.free_num - 1))
            c.image)
        ≡ done (some c'))
      × ((q : ℕ)
          → q < 2 ^ 30
          → (lookup q c' ≡ lookup q c) ⊎ ((q ≡ r) × (lookup q c' ≡ done (some content))))
unfolding cbs_init
write_req_interrupted n c r torn content steps start malloced (map_ok, disk_ok, pages_ok, list_ok)
      (owner, valid) few something some_free =
    let (k, k1, kn, list, own) = valid.listed (c.free_num - 1) (omega (arith, some_free)) in
    let old = page_meta_from_id (used_id (c.disk r)) in
    let image =
      update_stores steps r torn content c.page_address old (c.free_list (c.free_num - 1))
        c.image in
    let agrees =
      stores_agree n owner c valid r few torn content k k1 kn own old steps
        (c.free_list (c.free_num - 1)) list in
    let (c', run, all) =
      recovery_lem n owner c valid r few content k k1 kn own image agrees malloced in
    let m : (image.magic == magic_number) ≡ true =
      let e : image.magic ≡ magic_number =
        update_stores-magic steps r torn content c.page_address old (c.free_list (c.free_num - 1))
          c.image
        ∙ valid.magic in
      ground arith in
    (c', rw (map_ok, disk_ok, pages_ok, list_ok, m, run) refl, all)
