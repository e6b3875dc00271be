-- ===== src/Cbs.antt =====
-- cbs_req/cbs_req_pmem.cpp: a cache of a disk's 4K pages in persistent memory.
-- A pointer into the mapping is its offset from pmem_base, and a 4K page one value of the type
-- `Page`. An access below or beyond the arrays of blocks and
-- below the list of free pages is the result `out_of_bounds`; the end of that list is not checked.
-- The number of pages, PMEM_PAGE_NUMBERS, is an argument where a loop runs to it.
pub mod Init
pub mod Words
pub mod Remove
pub mod Valid
pub mod Add
pub mod Replace
pub mod Delete
pub mod Write
pub mod Scan
pub mod Recovery
pub mod Restart
pub mod Layout
pub mod Fresh
pub mod Crash
pub mod Interrupted
use pmem_program.Base.{
  ℕ, ◌+◌, ◌-◌, ◌*◌, ◌/◌, ◌%◌, ◌^◌, bit_and, bit_or, Option, none, some, ltb, leb, ◌==◌, ◌&&◌, ◌||◌,
  if◌then◌else◌,
}
use pmem_program.Base.Words.{u32, u64, ◌<<<◌, ◌>>>◌}

-- REQ_BLOCK, REQ_PAGE, BLOCK_PAGE_NUM, DISK_BLOCK_NUM and MAGIC_NUMBER
abbrev pub req_block : ℕ
req_block = 10

abbrev pub req_page : ℕ
req_page = 0x3ff

abbrev pub block_page_num : ℕ
block_page_num = 1024

abbrev pub disk_block_num : ℕ
disk_block_num = 1048576

abbrev pub magic_number : ℕ
magic_number = 0xabcdabcd

-- PAGE_SIZE, PMEM_META_SIZE and MAGIC_NUM_SIZE
abbrev pub page_size : ℕ
page_size = 4096

abbrev pub meta_size : ℕ
meta_size = 64

abbrev pub layout_size : ℕ
layout_size = 64

-- page_meta_t: the fields valid, sn and req_id of its first eight bytes, which are one word.
unfoldable pub valid_of : ℕ → ℕ
valid_of word = word % 2

unfoldable pub sn_of : ℕ → ℕ
sn_of word = word / 2 % 2 ^ 31

unfoldable pub req_of : ℕ → ℕ
req_of word = word / 2 ^ 32 % 2 ^ 32

-- `meta->sn = sn`
unfoldable pub with_sn : ℕ → ℕ → ℕ
with_sn word sn = word / 2 ^ 32 * 2 ^ 32 + sn % 2 ^ 31 * 2 + word % 2

-- `req_id<<32|1`, and `req_id<<32|sn<<1|1`
unfoldable pub first_word : ℕ → ℕ
first_word req_id = bit_or (u64 (req_id <<< 32)) 1

unfoldable pub next_word : ℕ → ℕ → ℕ
next_word req_id sn = bit_or (bit_or (u64 (req_id <<< 32)) (u64 (sn <<< 1))) 1

-- PAGE_ID_FROM_META, PAGE_META_FROM_ID and PAGE_FROM_META
unfoldable pub page_id_from_meta : ℕ → ℕ
page_id_from_meta meta = (meta - layout_size) / meta_size + 1

unfoldable pub page_meta_from_id : ℕ → ℕ
page_meta_from_id id = layout_size + (id - 1) * meta_size

unfoldable pub page_from_meta : ℕ → ℕ → ℕ
page_from_meta page_address meta = page_address + page_size * ((meta - layout_size) / meta_size)

-- What the mapping holds: pmem_layout_t, the words of the page metas and the pages, by offset.
pub record Image (Page : Type 0) : Type 0 where
  pub magic : ℕ
  pub page_offset : ℕ
  pub metas : ℕ → ℕ
  pub pages : ℕ → Page

-- block_page_t
pub record Entry : Type 0 where
  pub page_id1 : ℕ
  pub page_id2 : ℕ

-- The globals. `disk` has the entry of page p of block b at 1024 * b + p, and `cached` the
-- cached_pages_cnt of a block.
pub record Cache (Page : Type 0) : Type 0 where
  pub image : Image Page
  pub page_address : ℕ
  pub disk : ℕ → Entry
  pub cached : ℕ → ℕ
  pub free_num : ℕ
  pub free_list : ℕ → ℕ

pub data Attempt (A : Type 0) : Type 0 where
  done : A → Attempt A
  out_of_bounds : Attempt A

abbrev pub put {ℓ} : {A : Type ℓ} → (ℕ → A) → ℕ → A → ℕ → A
put f i a j = if i == j then a else f j

abbrev pub no_entry : Entry
no_entry = record { page_id1 = 0; page_id2 = 0 }

-- The place of `disk->blocks[req_id >> 10].pages[req_id & 0x3ff]`
unfoldable pub slot_of : ℕ → ℕ
slot_of req_id = (req_id >>> req_block) * block_page_num + bit_and req_id req_page

-- The id of the one page that an entry has.
unfoldable pub used_id : Entry → ℕ
used_id e = if e.page_id1 == 0 then e.page_id2 else e.page_id1

-- The guard of the three operations on a request: outside of the disk they return at once with
-- `refused`; the guard lets the first block behind the disk through, which is no block of the array.
unfoldable pub guarded : {R : Type 0} → ℕ → R → Attempt R → Attempt R
guarded req_id refused run =
    let block_id = req_id >>> req_block in
    if ltb disk_block_num block_id
    then done refused
    else (if leb disk_block_num block_id then out_of_bounds else run)

module _ {Page : Type 0} where
  -- pmem_memcpy_persist to a meta and to a page
  unfoldable pub put_meta : ℕ → ℕ → Image Page → Image Page
  put_meta meta word image = record image { metas = put image.metas meta word }

  unfoldable pub put_page : ℕ → Page → Image Page → Image Page
  put_page page content image = record image { pages = put image.pages page content }

  -- The free_list[free_num-1], if there is one.
  unfoldable pub with_free : Cache Page → (ℕ → Attempt (Cache Page)) → Attempt (Cache Page)
  with_free c use_page =
      if c.free_num == 0 then out_of_bounds else use_page (c.free_list (c.free_num - 1))

  -- write_req where no page holds the request
  unfoldable pub add_page : ℕ → Page → Cache Page → Attempt (Cache Page)
  unfolding with_free put_meta put_page first_word slot_of page_id_from_meta page_from_meta
  add_page req_id content c = with_free c (λ page_new.
      let entry = c.disk (slot_of req_id) in
      let block_id = req_id >>> req_block in
      done (record c {
        image =
            put_meta page_new (first_word req_id)
              (put_page (page_from_meta c.page_address page_new) content c.image);
        free_num = c.free_num - 1;
        disk =
            put c.disk (slot_of req_id)
              (record entry { page_id1 = u32 (page_id_from_meta page_new) });
        cached = put c.cached block_id (u32 (c.cached block_id + 1));
      }))

  -- `if(page_old->sn!=0) page_old->sn=0`
  unfoldable pub reset_sn : ℕ → Image Page → Image Page
  unfolding put_meta with_sn sn_of
  reset_sn page_old image =
      if sn_of (image.metas page_old) == 0
      then image
      else put_meta page_old (with_sn (image.metas page_old) 0) image

  -- write_req where one page holds the request
  unfoldable pub replace_page : ℕ → Page → Cache Page → Attempt (Cache Page)
  unfolding with_free put_meta put_page next_word slot_of page_id_from_meta page_from_meta
      page_meta_from_id used_id reset_sn
  replace_page req_id content c = with_free c (λ page_new.
      let entry = c.disk (slot_of req_id) in
      let page_old = page_meta_from_id (used_id entry) in
      done (record c {
        image = put_meta page_old 0 (
            put_meta page_new (next_word req_id 1) (
              put_page (page_from_meta c.page_address page_new) content
                (reset_sn page_old c.image)));
        disk =
            put c.disk (slot_of req_id)
              (record { page_id1 = 0; page_id2 = u32 (page_id_from_meta page_new) });
        free_list = put c.free_list (c.free_num - 1) page_old;
      }))

  -- write_req where two pages hold the request
  unfoldable pub overwrite_older : ℕ → Page → Cache Page → Attempt (Cache Page)
  unfolding put_meta put_page next_word slot_of page_from_meta page_meta_from_id sn_of with_sn
  overwrite_older req_id content c =
      let entry = c.disk (slot_of req_id) in
      let page1_meta = page_meta_from_id entry.page_id1 in
      let page2_meta = page_meta_from_id entry.page_id2 in
      let word1 = c.image.metas page1_meta in
      let word2 = c.image.metas page2_meta in
      if ltb (sn_of word1) (sn_of word2)
      then done (record c {
        image = put_meta page2_meta 0 (
            put_meta page1_meta (next_word req_id (sn_of word2)) (
              put_meta page2_meta (with_sn word2 (sn_of word2 + 1))
                (put_page (page_from_meta c.page_address page1_meta) content c.image)));
        disk = put c.disk (slot_of req_id) (record entry { page_id2 = 0 });
        free_num = c.free_num + 1;
        free_list = put c.free_list c.free_num page2_meta;
      })
      else done (record c {
        image = put_meta page2_meta 0 (
            put_meta page2_meta (next_word req_id (sn_of word1)) (
              put_meta page1_meta (with_sn word1 (sn_of word1 + 1))
                (put_page (page_from_meta c.page_address page2_meta) content c.image)));
        disk = put c.disk (slot_of req_id) (record entry { page_id1 = 0 });
        free_num = c.free_num + 1;
        free_list = put c.free_list c.free_num page1_meta;
      })

  -- write_req, without its return value: -1 for a request that the guard refuses, and 0 otherwise
  unfoldable pub write_req : ℕ → Page → Cache Page → Attempt (Cache Page)
  unfolding guarded add_page replace_page overwrite_older
  write_req req_id content c =
      let entry = c.disk (slot_of req_id) in
      guarded req_id c (
        if entry.page_id1 == 0 && entry.page_id2 == 0
        then add_page req_id content c
        else (if entry.page_id1 == 0 || entry.page_id2 == 0
            then replace_page req_id content c
            else overwrite_older req_id content c))

  -- The page that read_req chooses in an entry.
  unfoldable pub chosen_page : Cache Page → Entry → Option ℕ
  unfolding used_id page_from_meta page_meta_from_id sn_of
  chosen_page c entry =
      if entry.page_id1 == 0 && entry.page_id2 == 0
      then none
      else (if entry.page_id1 == 0 || entry.page_id2 == 0
          then some (page_from_meta c.page_address (page_meta_from_id (used_id entry)))
          else (let page1_meta = page_meta_from_id entry.page_id1 in
              let page2_meta = page_meta_from_id entry.page_id2 in
              if ltb (sn_of (c.image.metas page1_meta)) (sn_of (c.image.metas page2_meta))
              then some (page_from_meta c.page_address page2_meta)
              else some (page_from_meta c.page_address page1_meta)))

  -- read_req
  unfoldable pub read_req : ℕ → Cache Page → Attempt (Option ℕ)
  unfolding guarded chosen_page slot_of
  read_req req_id c = guarded req_id none (done (chosen_page c (c.disk (slot_of req_id))))
