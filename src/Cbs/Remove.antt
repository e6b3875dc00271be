-- ===== src/Cbs/Remove.antt =====
-- delete_page and get_cached_count of the page cache.
use pmem_program.Base.{ℕ, zero, suc, ◌+◌, ltb, ◌==◌, not, ◌&&◌, ◌||◌, if◌then◌else◌}
use pmem_program.Base.Words.{u32}
use pmem_program.Cbs.{
  Cache, Attempt, done, put, no_entry, slot_of, guarded, page_meta_from_id, sn_of, put_meta,
}

module _ {Page : Type 0} where
  -- delete_page where one page holds the request, and where two do
  unfoldable pub delete_one : ℕ → Cache Page → Cache Page
  unfolding put_meta page_meta_from_id slot_of
  delete_one req_id c =
      let entry = c.disk (slot_of req_id) in
      let first = not (entry.page_id1 == 0) in
      let page_meta = page_meta_from_id (if first then entry.page_id1 else entry.page_id2) in
      record c {
        image = put_meta page_meta 0 c.image;
        disk =
            put c.disk (slot_of req_id)
              (if first then record entry { page_id1 = 0 } else record entry { page_id2 = 0 });
        free_num = c.free_num + 1;
        free_list = put c.free_list c.free_num page_meta;
      }

  unfoldable pub delete_two : ℕ → Cache Page → Cache Page
  unfolding put_meta page_meta_from_id slot_of sn_of
  delete_two req_id c =
      let entry = c.disk (slot_of req_id) in
      let page1_meta = page_meta_from_id entry.page_id1 in
      let page2_meta = page_meta_from_id entry.page_id2 in
      record c {
        image =
            (if ltb (sn_of (c.image.metas page1_meta)) (sn_of (c.image.metas page2_meta))
              then put_meta page2_meta 0 (put_meta page1_meta 0 c.image)
              else put_meta page1_meta 0 (put_meta page2_meta 0 c.image));
        disk = put c.disk (slot_of req_id) no_entry;
        free_num = c.free_num + 2;
        free_list = put (put c.free_list c.free_num page1_meta) (c.free_num + 1) page2_meta;
      }

  -- delete_page
  unfoldable pub delete_page : ℕ → Cache Page → Attempt (Cache Page)
  unfolding guarded delete_one delete_two
  delete_page req_id c =
      let entry = c.disk (slot_of req_id) in
      guarded req_id c (
        done (
          if entry.page_id1 == 0 && entry.page_id2 == 0
          then c
          else (if entry.page_id1 == 0 || entry.page_id2 == 0
              then delete_one req_id c
              else delete_two req_id c)))

  -- get_cached_count, over the first n blocks; the sum is an int's bit pattern.
  unfoldable pub get_cached_count : ℕ → Cache Page → ℕ
  get_cached_count zero c = 0
  get_cached_count (suc n) c = u32 (get_cached_count n c + c.cached n)
