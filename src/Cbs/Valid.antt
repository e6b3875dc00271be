-- ===== src/Cbs/Valid.antt =====
-- The invariant of the page cache: what the disk's entries, the free list and the metas say of a
-- page agree. Every page has one owner in the proofs: a place of the free list, or a request.
use pmem_program.Base.{
  ℕ, ◌+◌, ◌-◌, ◌*◌, ◌^◌, ◌≤◌, ◌<◌, ◌≡◌, ◌≢◌, ◌⊎◌, inl, inr, refl, false, ltb, leb, ◌==◌,
  if◌then◌else◌, arith, Option, none, some, ap, ◌∙◌,
}
use pmem_program.Cbs.{
  Image, Entry, Cache, Attempt, done, out_of_bounds, put, used_id, valid_of, req_of, slot_of,
  page_meta_from_id, page_from_meta, put_meta, read_req, chosen_page, guarded, disk_block_num,
  req_block, magic_number,
}
use pmem_program.Base.Words.{◌>>>◌}
use pmem_program.Cbs.Words.{slot_of_lem}

pub data Owner : Type 0 where
  spare : ℕ → Owner
  holds : ℕ → Owner

-- The meta's word of a page.
abbrev pub word_of : {Page : Type 0} → Image Page → ℕ → ℕ
word_of image id = image.metas (page_meta_from_id id)

pub record Describes {Page : Type 0} (n : ℕ) (owner : ℕ → Owner) (c : Cache Page) : Type 0 where
  pub few : n < 2 ^ 32
  pub magic : c.image.magic ≡ magic_number
  pub placed : c.image.page_offset ≡ c.page_address
  pub inside : (r : ℕ) → used_id (c.disk r) ≢ 0 → r < 2 ^ 30
  pub single : (r : ℕ) → ((c.disk r).page_id1 ≡ 0) ⊎ ((c.disk r).page_id2 ≡ 0)
  pub held :
      (r : ℕ)
      → used_id (c.disk r) ≢ 0
      → (used_id (c.disk r) ≤ n) × (owner (used_id (c.disk r)) ≡ holds r)
  pub holder :
      (id r : ℕ)
      → 1 ≤ id
      → id ≤ n
      → owner id ≡ holds r
      → (used_id (c.disk r) ≡ id)
        × (valid_of (word_of c.image id) ≡ 1)
        × (req_of (word_of c.image id) ≡ r)
  pub listed :
      (i : ℕ)
      → i < c.free_num
      → (id : ℕ) × (1 ≤ id)
        × (id ≤ n)
        × (c.free_list i ≡ page_meta_from_id id)
        × (owner id ≡ spare i)
  pub idle :
      (id i : ℕ)
      → 1 ≤ id
      → id ≤ n
      → owner id ≡ spare i
      → (i < c.free_num)
        × (c.free_list i ≡ page_meta_from_id id)
        × (valid_of (word_of c.image id) ≡ 0)

abbrev pub IsValid : {Page : Type 0} → ℕ → Cache Page → Type 0
IsValid n c = (owner : ℕ → Owner) × Describes n owner c

pub put_self : {A : Type 0} (f : ℕ → A) (i : ℕ) (a : A) → put f i a i ≡ a
put_self f i a = ground arith

pub put_other : {A : Type 0} (f : ℕ → A) (i : ℕ) (a : A) (j : ℕ) → i ≢ j → put f i a j ≡ f j
put_other f i a j ne = ground arith

pub spare-injective : {i j : ℕ} → spare i ≡ spare j → i ≡ j
spare-injective {i} h = ap (λ o. elim o [ spare k ↦ k | _ ↦ i ]) h

pub holds-injective : {i j : ℕ} → holds i ≡ holds j → i ≡ j
holds-injective {i} h = ap (λ o. elim o [ holds k ↦ k | _ ↦ i ]) h

pub spare-holds : {i j : ℕ} → spare i ≢ holds j
spare-holds h = cc

pub page_meta_from_id-injective :
    (a b : ℕ) → 1 ≤ a → 1 ≤ b → page_meta_from_id a ≡ page_meta_from_id b → a ≡ b
unfolding page_meta_from_id
page_meta_from_id-injective a b ha hb e = omega arith

-- A request of the disk passes the guard.
pub guarded_lem :
    {R : Type 0} (r : ℕ) (refused : R) (run : Attempt R) → r < 2 ^ 30 → guarded r refused run ≡ run
unfolding guarded
guarded_lem r refused run h =
    let e : ltb disk_block_num (r >>> req_block) ≡ false = ground arith in
    let f : leb disk_block_num (r >>> req_block) ≡ false = ground arith in rw e (rw f refl)

module _ {Page : Type 0} where
  pub word_of-put_meta_self :
      (id word : ℕ) (image : Image Page)
      → word_of (put_meta (page_meta_from_id id) word image) id ≡ word
  unfolding put_meta
  word_of-put_meta_self id word image = put_self image.metas (page_meta_from_id id) word

  pub word_of-put_meta_other :
      (id other word : ℕ) (image : Image Page)
      → 1 ≤ id
      → 1 ≤ other
      → id ≢ other
      → word_of (put_meta (page_meta_from_id id) word image) other ≡ word_of image other
  unfolding put_meta
  word_of-put_meta_other id other word image hi ho ne =
      put_other image.metas (page_meta_from_id id) word (page_meta_from_id other)
        (λ e. ne (page_meta_from_id-injective id other hi ho e))

  -- What the cache has for a request, by its entry alone.
  abbrev pub page_at : Cache Page → ℕ → Page
  page_at c id = c.image.pages (c.page_address + 4096 * (id - 1))

  unfoldable pub contents : Cache Page → ℕ → Option Page
  contents c r = if used_id (c.disk r) == 0 then none else some (page_at c (used_id (c.disk r)))

  -- What a reader finds behind read_req's pointer.
  unfoldable pub lookup : ℕ → Cache Page → Attempt (Option Page)
  lookup r c = elim (read_req r c) [
    | done none ↦ done none
    | done (some page) ↦ done (some (c.image.pages page))
    | out_of_bounds ↦ out_of_bounds
  ]

  -- read_req's choice in an entry with at most one page.
  pub chosen_page_lem :
      (c : Cache Page) (entry : Entry)
      → (entry.page_id1 ≡ 0) ⊎ (entry.page_id2 ≡ 0)
      → chosen_page c entry
        ≡ (if used_id entry == 0 then none else some (c.page_address + 4096 * (used_id entry - 1)))
  unfolding chosen_page used_id page_from_meta page_meta_from_id
  chosen_page_lem c entry (inl none1) = ground arith
  chosen_page_lem c entry (inr none2) = ground arith

  -- What a reader finds is decided by the entry, where no entry has two pages.
  pub lookup_single :
      (c : Cache Page) (r : ℕ)
      → ((c.disk r).page_id1 ≡ 0) ⊎ ((c.disk r).page_id2 ≡ 0)
      → r < 2 ^ 30
      → lookup r c ≡ done (contents c r)
  unfolding lookup contents read_req
  lookup_single c r single h =
      let e : read_req r c
          ≡ done (
              if used_id (c.disk r) == 0
              then none
              else some (c.page_address + 4096 * (used_id (c.disk r) - 1))) =
        guarded_lem r none (done (chosen_page c (c.disk (slot_of r)))) h
        ∙ ap (λ s. done (chosen_page c (c.disk s))) (slot_of_lem r)
        ∙ ap done (chosen_page_lem c (c.disk r) single) in
      ground arith

  pub lookup_lem :
      (n : ℕ) (c : Cache Page) (r : ℕ) → IsValid n c → r < 2 ^ 30 → lookup r c ≡ done (contents c r)
  lookup_lem n c r (owner, valid) h = lookup_single c r (valid.single r) h
