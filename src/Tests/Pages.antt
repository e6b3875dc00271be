-- ===== src/Tests/Pages.antt =====
-- A page cache of three pages, from an empty mapping on.
use pmem_program.Base.{
  ℕ, ◌-◌, ◌^◌, ◌≤◌, ◌<◌, ◌≡◌, ◌≢◌, ◌⊎◌, sym, ap, ◌∙◌, refl, true, arith, none, some, ◌==◌,
  if◌then◌else◌,
}
use pmem_program.Cbs.{
  used_id, page_meta_from_id, Image, Cache, done, magic_number, first_word, next_word, valid_of,
  sn_of, req_of, write_req,
}
use pmem_program.Cbs.Remove.{delete_page}
use pmem_program.Cbs.Init.{Start, cbs_init}
use pmem_program.Cbs.Valid.{IsValid, lookup, lookup_lem}
use pmem_program.Cbs.Interrupted.{update_stores, write_req_interrupted}
use pmem_program.Cbs.Write.{contents-none, write_req-lookup, delete_page-lookup}
use pmem_program.Cbs.Restart.{cbs_init_recovers}
use pmem_program.Cbs.Fresh.{cbs_init_empty}
use pmem_program.Cbs.Layout.{PagesFit}

abbrev blank : Image ℕ
blank = record { magic = 0; page_offset = 0; metas = λ i. 7; pages = λ i. 0 }

abbrev all_ok : Start
all_ok = record {
  map_ok = true;
  pmem_base = 8192;
  disk_ok = true;
  free_pages_ok = true;
  free_list_ok = true;
}

blank_is_new : blank.magic ≢ magic_number
blank_is_new h = omega (arith, h)

cbs_init_empty_example :
    (c : Cache ℕ) × (cbs_init 3 all_ok (λ i. 0) blank ≡ done (some c))
    × IsValid 3 c
    × PagesFit 3 8192 c.page_address
    × (c.free_num ≡ 3)
    × ((q : ℕ) → q < 2 ^ 30 → lookup q c ≡ done none)
cbs_init_empty_example =
    cbs_init_empty 3 all_ok (λ i. 0) blank (refl, refl, refl, refl) (omega arith) (omega arith)
      blank_is_new

-- The cache after cbs_init, and after a write of content 42 to request 5.
abbrev empty : (c : Cache ℕ) × IsValid 3 c × (c.free_num ≡ 3)
empty =
    let (c, run, valid, fit, free, all) =
      cbs_init_empty 3 all_ok (λ i. 0) blank (refl, refl, refl, refl) (omega arith) (omega arith)
        blank_is_new in
    (c, valid, free)

abbrev written : (c : Cache ℕ) × IsValid 3 c × (2 ≤ c.free_num) × (lookup 5 c ≡ done (some 42))
written =
    let (c, run, valid, free, all) =
      write_req-lookup 3 empty.0 5 42 empty.1 (omega arith) (omega (arith, empty.2)) in
    (c, valid, omega (arith, free, empty.2), all 5 (omega arith))

has_page : used_id (written.0.disk 5) ≢ 0
has_page z = nothing (
    sym (ap done (contents-none written.0 5 z))
    ∙ sym (lookup_lem 3 written.0 5 written.1 (omega arith))
    ∙ written.3)
  where
    nothing : {A : Type 0} {a : A} → done none ≡ done (some a) → ⊥
    nothing h = cc

write_req_interrupted_example :
    (c' : Cache ℕ) × (cbs_init 3 all_ok
        (λ i. 1)
        (update_stores 3 5 41 43 written.0.page_address
          (page_meta_from_id (used_id (written.0.disk 5)))
          (written.0.free_list (written.0.free_num - 1))
          written.0.image)
      ≡ done (some c'))
    × ((q : ℕ)
        → q < 2 ^ 30
        → (lookup q c' ≡ lookup q written.0) ⊎ ((q ≡ 5) × (lookup q c' ≡ done (some 43))))
write_req_interrupted_example =
    write_req_interrupted 3 written.0 5 41 43 3 all_ok (λ i. 1) (refl, refl, refl, refl) written.1
      (omega arith) has_page (omega (arith, written.2))

write_req-lookup_example :
    (c' : Cache ℕ) × (write_req 5 43 written.0 ≡ done c')
    × IsValid 3 c'
    × (written.0.free_num - 1 ≤ c'.free_num)
    × ((q : ℕ) → q < 2 ^ 30 → lookup q c' ≡ (if q == 5 then done (some 43) else lookup q written.0))
write_req-lookup_example =
    write_req-lookup 3 written.0 5 43 written.1 (omega arith) (omega (arith, written.2))

delete_page-lookup_example :
    (c' : Cache ℕ) × (delete_page 5 written.0 ≡ done c')
    × IsValid 3 c'
    × (written.0.free_num ≤ c'.free_num)
    × ((q : ℕ) → q < 2 ^ 30 → lookup q c' ≡ (if q == 5 then done none else lookup q written.0))
delete_page-lookup_example = delete_page-lookup 3 written.0 5 written.1 (omega arith)

cbs_init_recovers_example :
    (c' : Cache ℕ) × (cbs_init 3 all_ok (λ i. 1) written.0.image ≡ done (some c'))
    × IsValid 3 c'
    × ((q : ℕ) → q < 2 ^ 30 → lookup q c' ≡ lookup q written.0)
cbs_init_recovers_example =
    cbs_init_recovers 3 all_ok (λ i. 1) written.0 (refl, refl, refl, refl) written.1

-- The fields of the words that write_req stores for request 5.
word_fields :
    (valid_of (next_word 5 1) ≡ 1) × (sn_of (next_word 5 1) ≡ 1) × (req_of (first_word 5) ≡ 5)
unfolding valid_of sn_of req_of next_word first_word
word_fields = (refl, refl, refl)
