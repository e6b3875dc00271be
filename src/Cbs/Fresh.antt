-- ===== src/Cbs/Fresh.antt =====
-- cbs_init over a new mapping.
use pmem_program.Base.{
  ℕ, zero, suc, ◌+◌, ◌-◌, ◌^◌, ◌<◌, ◌≤◌, ◌≡◌, ◌≢◌, inl, refl, sym, ap, ◌∙◌, ltb, leb, ◌==◌, arith,
  true, false, ℕ_discrete, none, some,
}
use pmem_program.Cbs.{
  Image, Cache, done, used_id, valid_of, page_meta_from_id, magic_number, layout_size,
}
use pmem_program.Cbs.Init.{
  Start, meta_at, list_metas, clear_metas, set_up, pmem_page_numbers, cbs_init,
}
use pmem_program.Cbs.Layout.{mapped_size, PagesFit, set_up-PagesFit}
use pmem_program.Cbs.Recovery.{AllOk}
use pmem_program.Cbs.Valid.{
  spare, put_self, put_other, IsValid, spare-injective, spare-holds, contents, lookup, lookup_lem,
}

list_metas_lem : (n : ℕ) (malloced : ℕ → ℕ) (i : ℕ) → i < n → list_metas n malloced i ≡ meta_at i
unfolding list_metas
list_metas_lem zero malloced i h = absurd (omega (arith, h))
list_metas_lem (suc n) malloced i h = elim (ℕ_discrete n i) [
  | yes e ↦
      ap (list_metas (suc n) malloced) (sym e)
      ∙ put_self (list_metas n malloced) n (meta_at n)
      ∙ ap meta_at e
  | no ne ↦
      put_other (list_metas n malloced) n (meta_at n) i ne
      ∙ list_metas_lem n malloced i (omega (arith, h, ne))
]

clear_metas_lem : (n : ℕ) (metas : ℕ → ℕ) (i : ℕ) → i < n → clear_metas n metas (meta_at i) ≡ 0
unfolding clear_metas
clear_metas_lem n metas i h =
    let a : leb layout_size (meta_at i) ≡ true = ground arith in
    let b : ltb (meta_at i) (meta_at n) ≡ true = ground arith in rw (a, b) refl

module _ {Page : Type 0} (n : ℕ) (few : n < 2 ^ 32) (start : Start) (malloced : ℕ → ℕ)
    (image : Image Page) where
  pub set_up-IsValid : IsValid n (set_up n start malloced image)
  unfolding set_up page_meta_from_id valid_of used_id
  set_up-IsValid = (
    λ id. spare (id - 1),
    record {
      few = few;
      magic = refl;
      placed = refl;
      inside = λ r h. absurd (h refl);
      single = λ r. inl refl;
      held = λ r h. absurd (h refl);
      holder = λ id r i1 ik h. absurd (spare-holds h);
      listed = λ i h.
          let p : i + 1 - 1 ≡ i = omega arith in
          (i + 1, omega arith, omega (arith, h), rw p (list_metas_lem n malloced i h), rw p refl);
      idle = λ id i i1 ik h.
          let e : id - 1 ≡ i = spare-injective h in
          let below : i < n = omega (arith, e, i1, ik) in
          (
            below,
            rw e (list_metas_lem n malloced i below),
            rw (e, clear_metas_lem n image.metas i below) refl,
          );
    },
  )

  set_up_free : (set_up n start malloced image).free_num ≡ n
  unfolding set_up
  set_up_free = refl

  set_up-none : (q : ℕ) → contents (set_up n start malloced image) q ≡ none
  unfolding set_up contents used_id
  set_up-none q = refl

-- cbs_init over a mapping without the magic number, for at most PMEM_PAGE_NUMBERS pages, when all
-- that it asks for is granted and the addresses of the mapping are below 2^64, ends in a valid
-- cache with all pages free in which read_req finds nothing for any request of the disk. Its pages
-- are on page boundaries, behind the metas and before the end of the mapping.
pub cbs_init_empty :
    {Page : Type 0} (n : ℕ) (start : Start) (malloced : ℕ → ℕ) (image : Image Page)
    → AllOk start
    → n ≤ pmem_page_numbers
    → start.pmem_base + mapped_size < 2 ^ 64
    → image.magic ≢ magic_number
    → (c : Cache Page) × (cbs_init n start malloced image ≡ done (some c))
      × IsValid n c
      × PagesFit n start.pmem_base c.page_address
      × (c.free_num ≡ n)
      × ((q : ℕ) → q < 2 ^ 30 → lookup q c ≡ done none)
unfolding cbs_init
cbs_init_empty n start malloced image (map_ok, disk_ok, pages_ok, list_ok) few small new =
    let m : (image.magic == magic_number) ≡ false = ground arith in
    let few32 : n < 2 ^ 32 = omega arith in
    let valid = set_up-IsValid n few32 start malloced image in
    (
      set_up n start malloced image,
      rw (map_ok, disk_ok, pages_ok, list_ok, m) refl,
      valid,
      set_up-PagesFit n start malloced image few small,
      set_up_free n few32 start malloced image,
      λ q on_disk.
          lookup_lem n (set_up n start malloced image) q valid on_disk
          ∙ ap done (set_up-none n few32 start malloced image q),
    )
