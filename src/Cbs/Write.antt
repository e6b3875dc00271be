-- ===== src/Cbs/Write.antt =====
-- write_req, read_req and delete_page as operations on a partial map from requests to pages.
use pmem_program.Base.{
  ℕ, ◌-◌, ◌^◌, ◌≤◌, ◌<◌, ◌≡◌, ◌≢◌, ◌⊎◌, inl, inr, ◌∙◌, ◌==◌, ◌&&◌, ◌||◌, if◌then◌else◌, arith, none,
  some,
}
use pmem_program.Cbs.{
  Cache, done, used_id, slot_of, add_page, replace_page, overwrite_older, write_req,
}
use pmem_program.Cbs.Remove.{delete_one, delete_two, delete_page}
use pmem_program.Cbs.Words.{slot_of_lem}
use pmem_program.Cbs.Valid.{IsValid, contents, lookup, lookup_lem, guarded_lem}
use pmem_program.Cbs.Add.{add_page_lem}
use pmem_program.Cbs.Replace.{replace_page_lem}
use pmem_program.Cbs.Delete.{delete_one_lem}

module _ {Page : Type 0} where
  -- In a valid cache an entry has one page at most, so that write_req takes its first or second branch.
  write_req-cases :
      (n : ℕ) (c : Cache Page) (r : ℕ) (content : Page)
      → IsValid n c
      → r < 2 ^ 30
      → ((write_req r content c ≡ add_page r content c)
          × ((c.disk r).page_id1 ≡ 0)
          × ((c.disk r).page_id2 ≡ 0))
        ⊎ ((write_req r content c ≡ replace_page r content c) × (used_id (c.disk r) ≢ 0))
  unfolding write_req used_id
  write_req-cases n c r content (owner, valid) h =
      let e = slot_of_lem r in
      let s = valid.single r in
      let g =
        guarded_lem r c
          (if (c.disk (slot_of r)).page_id1 == 0 && (c.disk (slot_of r)).page_id2 == 0
            then add_page r content c
            else (if (c.disk (slot_of r)).page_id1 == 0 || (c.disk (slot_of r)).page_id2 == 0
                then replace_page r content c
                else overwrite_older r content c))
          h in
      ground arith

  -- write_req
  pub write_req-contents :
      (n : ℕ) (c : Cache Page) (r : ℕ) (content : Page)
      → IsValid n c
      → r < 2 ^ 30
      → 0 < c.free_num
      → (c' : Cache Page) × (write_req r content c ≡ done c')
        × IsValid n c'
        × (c.free_num - 1 ≤ c'.free_num)
        × ((q : ℕ) → contents c' q ≡ (if q == r then some content else contents c q))
  write_req-contents n c r content (owner, valid) h some_free =
      elim (write_req-cases n c r content (owner, valid) h) [
        | inl (e, none1, none2) ↦
            let (c', run, ok, free, all) =
              add_page_lem n owner c valid r h content some_free (none1, none2) in
            (c', e ∙ run, ok, omega (arith, free), all)
        | inr (e, something) ↦
            let (c', run, ok, free, all) =
              replace_page_lem n owner c valid r h content some_free something in
            (c', e ∙ run, ok, omega (arith, free), all)
      ]

  -- write_req of a request of the disk to a valid cache with a free page ends without an access
  -- out of bounds in a valid cache with one free page fewer at most, in which read_req finds the
  -- new content for the request and what it found before for every other one.
  pub write_req-lookup :
      (n : ℕ) (c : Cache Page) (r : ℕ) (content : Page)
      → IsValid n c
      → r < 2 ^ 30
      → 0 < c.free_num
      → (c' : Cache Page) × (write_req r content c ≡ done c')
        × IsValid n c'
        × (c.free_num - 1 ≤ c'.free_num)
        × ((q : ℕ)
            → q < 2 ^ 30
            → lookup q c' ≡ (if q == r then done (some content) else lookup q c))
  write_req-lookup n c r content valid h some_free =
      let (c', run, valid', free, all) = write_req-contents n c r content valid h some_free in
      (
        c',
        run,
        valid',
        free,
        λ q few.
            let e = all q in
            let l = lookup_lem n c q valid few in
            let l' = lookup_lem n c' q valid' few in ground arith,
      )

  pub contents-none : (c : Cache Page) (r : ℕ) → used_id (c.disk r) ≡ 0 → contents c r ≡ none
  unfolding contents
  contents-none c r h = ground arith

  -- In a valid cache delete_page leaves a request without a page as it is, and frees the one page otherwise.
  delete_page-cases :
      (n : ℕ) (c : Cache Page) (r : ℕ)
      → IsValid n c
      → r < 2 ^ 30
      → ((delete_page r c ≡ done c) × (used_id (c.disk r) ≡ 0))
        ⊎ ((delete_page r c ≡ done (delete_one r c)) × (used_id (c.disk r) ≢ 0))
  unfolding delete_page used_id
  delete_page-cases n c r (owner, valid) h =
      let e = slot_of_lem r in
      let s = valid.single r in
      let g =
        guarded_lem r c
          (done (
            if (c.disk (slot_of r)).page_id1 == 0 && (c.disk (slot_of r)).page_id2 == 0
            then c
            else (if (c.disk (slot_of r)).page_id1 == 0 || (c.disk (slot_of r)).page_id2 == 0
                then delete_one r c
                else delete_two r c)))
          h in
      ground arith

  -- delete_page of a request of the disk from a valid cache ends without an access out of bounds
  -- in a valid cache with no fewer free pages, in which read_req finds nothing for the request and
  -- what it found before for every other one.
  pub delete_page-lookup :
      (n : ℕ) (c : Cache Page) (r : ℕ)
      → IsValid n c
      → r < 2 ^ 30
      → (c' : Cache Page) × (delete_page r c ≡ done c')
        × IsValid n c'
        × (c.free_num ≤ c'.free_num)
        × ((q : ℕ) → q < 2 ^ 30 → lookup q c' ≡ (if q == r then done none else lookup q c))
  delete_page-lookup n c r (owner, valid) h = elim (delete_page-cases n c r (owner, valid) h) [
    | inl (run, nothing) ↦ (
      c,
      run,
      (owner, valid),
      omega arith,
      λ q few.
          let l = lookup_lem n c q (owner, valid) few in
          let e : contents c r ≡ none = contents-none c r nothing in ground arith,
    )
    | inr (run, something) ↦
        let (valid', free, all) = delete_one_lem n owner c valid r something in
        (
          delete_one r c,
          run,
          valid',
          omega (arith, free),
          λ q few.
              let e = all q in
              let l = lookup_lem n c q (owner, valid) few in
              let l' = lookup_lem n (delete_one r c) q valid' few in ground arith,
        )
  ]
