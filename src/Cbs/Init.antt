-- ===== src/Cbs/Init.antt =====
-- cbs_init: map the memory, and set it up or recover the disk and the free list from it.
use pmem_program.Base.{
  ℕ, zero, suc, ◌+◌, ◌-◌, ◌*◌, ◌/◌, bit_and, Bool, ltb, leb, ◌==◌, not, ◌&&◌, if◌then◌else◌, Option,
  none, some,
}
use pmem_program.Base.Words.{u32, u64}
use pmem_program.Cbs.{
  req_block, disk_block_num, magic_number, page_size, meta_size, layout_size, valid_of, req_of,
  page_id_from_meta, Image, Entry, Cache, Attempt, done, out_of_bounds, put, no_entry, slot_of,
}
use pmem_program.Base.Words.{◌>>>◌}

-- PMEM_PAGE_NUMBERS
abbrev pub pmem_page_numbers : ℕ
pmem_page_numbers = (100 * 1024 * 1024 * 1024 - layout_size) / (page_size + meta_size) - 1

-- How the calls of cbs_init end: the mapping, at its address, and the three allocations.
pub record Start : Type 0 where
  pub map_ok : Bool
  pub pmem_base : ℕ
  pub disk_ok : Bool
  pub free_pages_ok : Bool
  pub free_list_ok : Bool

-- The variables of the loop over the metas in use: the disk, its counts, the list and its length j.
pub record Scan : Type 0 where
  pub disk : ℕ → Entry
  pub cached : ℕ → ℕ
  pub free_list : ℕ → ℕ
  pub j : ℕ

-- The meta of the i-th turn.
abbrev pub meta_at : ℕ → ℕ
meta_at i = layout_size + i * meta_size

-- The body of the recovery loop.
unfoldable pub scan_meta : ℕ → ℕ → Scan → Attempt Scan
unfolding valid_of req_of slot_of page_id_from_meta
scan_meta meta word s =
    let req_id = req_of word in
    let block_id = req_id >>> req_block in
    let entry = s.disk (slot_of req_id) in
    if valid_of word == 0
    then done (record s { free_list = put s.free_list s.j meta; j = s.j + 1 })
    else (if leb disk_block_num block_id
        then out_of_bounds
        else done (record s {
          disk =
              put s.disk (slot_of req_id)
                (record entry { page_id1 = u32 (page_id_from_meta meta) });
          cached =
              (if entry.page_id1 == 0
                then put s.cached block_id (u32 (s.cached block_id + 1))
                else s.cached);
        }))

-- The loop's first n turns; `malloced` is what the new list holds before.
unfoldable pub scan_metas : ℕ → (ℕ → ℕ) → (ℕ → ℕ) → Attempt Scan
unfolding scan_meta
scan_metas zero metas malloced =
    done (record { disk = λ r. no_entry; cached = λ b. 0; free_list = malloced; j = 0 })
scan_metas (suc n) metas malloced = elim (scan_metas n metas malloced) [
  | done s ↦ scan_meta (meta_at n) (metas (meta_at n)) s
  | out_of_bounds ↦ out_of_bounds
]

-- The loop that lists every meta as free, and the memset of the metas.
unfoldable pub list_metas : ℕ → (ℕ → ℕ) → ℕ → ℕ
list_metas zero malloced = malloced
list_metas (suc n) malloced = put (list_metas n malloced) n (meta_at n)

unfoldable pub clear_metas : ℕ → (ℕ → ℕ) → ℕ → ℕ
clear_metas n metas meta = if leb layout_size meta && ltb meta (meta_at n) then 0 else metas meta

module _ {Page : Type 0} where
  -- The branch without the magic number: the whole memory is free.
  unfoldable pub set_up : ℕ → Start → (ℕ → ℕ) → Image Page → Cache Page
  unfolding list_metas clear_metas
  set_up n start malloced image =
      let page_offset =
        bit_and (u64 (start.pmem_base + meta_at n + page_size)) 0xfffffffffffff000
        - start.pmem_base in
      record {
        image = record image {
          magic = magic_number;
          page_offset = page_offset;
          metas = clear_metas n image.metas;
        };
        page_address = page_offset;
        disk = λ r. no_entry;
        cached = λ b. 0;
        free_num = n;
        free_list = list_metas n malloced;
      }

  -- The branch with it.
  unfoldable pub recover_disk : ℕ → (ℕ → ℕ) → Image Page → Attempt (Cache Page)
  unfolding scan_metas
  recover_disk n malloced image = elim (scan_metas n image.metas malloced) [
    | done s ↦ done (record {
      image = image;
      page_address = image.page_offset;
      disk = s.disk;
      cached = s.cached;
      free_num = s.j;
      free_list = s.free_list;
    })
    | out_of_bounds ↦ out_of_bounds
  ]

  -- cbs_init: `none` for -1. The list is stored through the first allocation before that is tested.
  unfoldable pub cbs_init : ℕ → Start → (ℕ → ℕ) → Image Page → Attempt (Option (Cache Page))
  unfolding set_up recover_disk
  cbs_init n start malloced image =
      if not (start.map_ok && start.disk_ok)
      then done none
      else (if not start.free_pages_ok
          then out_of_bounds
          else (if not start.free_list_ok
              then done none
              else (if image.magic == magic_number
                  then elim (recover_disk n malloced image) [
                    | done c ↦ done (some c)
                    | out_of_bounds ↦ out_of_bounds
                  ]
                  else done (some (set_up n start malloced image)))))
