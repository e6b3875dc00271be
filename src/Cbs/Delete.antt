-- ===== src/Cbs/Delete.antt =====
-- delete_page of a valid cache: the invariant, and what the cache then holds.
use pmem_program.Base.{
  ℕ, ◌+◌, ◌^◌, ◌≤◌, ◌<◌, ◌≡◌, ◌≢◌, ◌⊎◌, refl, sym, ap, ◌∙◌, not, ◌==◌, if◌then◌else◌, arith, none,
  ℕ_discrete,
}
use pmem_program.Cbs.{
  Entry, Cache, put, used_id, magic_number, valid_of, req_of, no_entry, page_meta_from_id, put_meta,
}
use pmem_program.Cbs.Remove.{delete_one}
use pmem_program.Cbs.Words.{slot_of_lem}
use pmem_program.Cbs.Valid.{
  Owner, spare, holds, word_of, Describes, IsValid, put_other, spare-injective, holds-injective,
  spare-holds, word_of-put_meta_self, word_of-put_meta_other, contents,
}

module _ {Page : Type 0} (n : ℕ) (owner : ℕ → Owner) (c : Cache Page) (valid : Describes n owner c)
    (r : ℕ) (something : used_id (c.disk r) ≢ 0) where
  -- The page that the request has.
  abbrev old : ℕ
  old = used_id (c.disk r)

  -- The cache after the deletion.
  abbrev deleted : Cache Page
  deleted = record c {
    image = put_meta (page_meta_from_id old) 0 c.image;
    disk = put c.disk r no_entry;
    free_num = c.free_num + 1;
    free_list = put c.free_list c.free_num (page_meta_from_id old);
  }

  -- The page that delete_one frees, and the entry that it leaves.
  freed_id :
      (entry : Entry)
      → (if not (entry.page_id1 == 0) then entry.page_id1 else entry.page_id2) ≡ used_id entry
  unfolding used_id
  freed_id entry = ground arith

  left_entry :
      (entry : Entry)
      → (entry.page_id1 ≡ 0) ⊎ (entry.page_id2 ≡ 0)
      → used_id entry ≢ 0
      → (if not (entry.page_id1 == 0)
          then record entry { page_id1 = 0 }
          else record entry { page_id2 = 0 })
        ≡ no_entry
  unfolding used_id
  left_entry entry single some_page = ground arith

  deleted_lem : delete_one r c ≡ deleted
  unfolding delete_one
  deleted_lem =
      rw (slot_of_lem r, freed_id (c.disk r), left_entry (c.disk r) (valid.single r) something) refl

  abbrev owner_after : ℕ → Owner
  owner_after = put owner old (spare c.free_num)

  o1 : 1 ≤ old
  o1 = omega (arith, something)

  old_held : (old ≤ n) × (owner old ≡ holds r)
  old_held = valid.held r something

  abbrev page_word : (id : ℕ) → ℕ
  page_word id = word_of deleted.image id

  old_word : page_word old ≡ 0
  old_word = word_of-put_meta_self old _ _

  other_word : (id : ℕ) → 1 ≤ id → old ≢ id → page_word id ≡ word_of c.image id
  other_word id i1 ne = word_of-put_meta_other old id _ _ o1 i1 ne

  deleted-single : (q : ℕ) → ((deleted.disk q).page_id1 ≡ 0) ⊎ ((deleted.disk q).page_id2 ≡ 0)
  deleted-single q = let s = valid.single q in ground arith

  used_own : used_id (deleted.disk r) ≡ 0
  unfolding used_id
  used_own = ground arith

  used_other : (q : ℕ) → r ≢ q → used_id (deleted.disk q) ≡ used_id (c.disk q)
  used_other q ne = ap used_id (put_other c.disk r _ q ne)

  deleted-held :
      (q : ℕ)
      → used_id (deleted.disk q) ≢ 0
      → (used_id (deleted.disk q) ≤ n) × (owner_after (used_id (deleted.disk q)) ≡ holds q)
  deleted-held q h = elim (ℕ_discrete r q) [
    | yes e ↦ let u = used_own in ground arith
    | no ne ↦
        let u = used_other q ne in
        let s = valid.held q in
        let o = old_held in let g : holds r ≡ holds q → r ≡ q = holds-injective in ground arith
  ]

  deleted-holder :
      (id q : ℕ)
      → 1 ≤ id
      → id ≤ n
      → owner_after id ≡ holds q
      → (used_id (deleted.disk q) ≡ id)
        × (valid_of (page_word id) ≡ 1)
        × (req_of (page_word id) ≡ q)
  deleted-holder id q i1 ik h = elim (ℕ_discrete old id) [
    | yes e ↦ let f : spare c.free_num ≢ holds q = spare-holds in absurd (ground arith)
    | no off ↦
        let s = valid.holder id q i1 ik (ground arith) in
        let w = other_word id i1 off in
        let u = used_other q (λ e. off (ap (λ t. used_id (c.disk t)) e ∙ s.0)) in ground arith
  ]

  deleted-listed :
      (i : ℕ)
      → i < c.free_num + 1
      → (id : ℕ) × (1 ≤ id)
        × (id ≤ n)
        × (deleted.free_list i ≡ page_meta_from_id id)
        × (owner_after id ≡ spare i)
  deleted-listed i h = elim (ℕ_discrete c.free_num i) [
    | yes e ↦ (old, o1, old_held.0, ground arith, ground arith)
    | no ne ↦
        let (id, i1, ik, list, own) = valid.listed i (omega (arith, h, ne)) in
        let g : spare i ≢ holds r = spare-holds in
        let o = old_held in (id, i1, ik, ground arith, ground arith)
  ]

  deleted-idle :
      (id i : ℕ)
      → 1 ≤ id
      → id ≤ n
      → owner_after id ≡ spare i
      → (i < c.free_num + 1)
        × (deleted.free_list i ≡ page_meta_from_id id)
        × (valid_of (page_word id) ≡ 0)
  unfolding valid_of
  deleted-idle id i i1 ik h = elim (ℕ_discrete old id) [
    | yes e ↦
        let f : spare c.free_num ≡ spare i → (c.free_num ≡ i) = spare-injective in
        let w : page_word id ≡ 0 = ap page_word (sym e) ∙ old_word in ground arith
    | no off ↦
        let (below, list, word) = valid.idle id i i1 ik (ground arith) in
        let w = other_word id i1 off in (omega (arith, below), ground arith, ap valid_of w ∙ word)
  ]

  deleted-placed : (deleted).image.page_offset ≡ c.page_address
  unfolding put_meta
  deleted-placed = valid.placed

  deleted-magic : (deleted).image.magic ≡ magic_number
  unfolding put_meta
  deleted-magic = valid.magic

  deleted-inside : (q : ℕ) → used_id ((deleted).disk q) ≢ 0 → q < 2 ^ 30
  unfolding used_id
  deleted-inside q h = let s = valid.inside q in ground arith

  deleted-Describes : Describes n owner_after deleted
  deleted-Describes = record {
    few = valid.few;
    magic = deleted-magic;
    placed = deleted-placed;
    inside = deleted-inside;
    single = deleted-single;
    held = deleted-held;
    holder = deleted-holder;
    listed = deleted-listed;
    idle = deleted-idle;
  }

  contents-deleted : (q : ℕ) → contents deleted q ≡ (if q == r then none else contents c q)
  unfolding contents put_meta
  contents-deleted q = elim (ℕ_discrete r q) [
    | yes e ↦ let u = used_own in ground arith
    | no ne ↦ let u = used_other q ne in ground arith
  ]

  -- delete_page of a request with a page ends in a valid cache that differs at the request alone.
  pub delete_one_lem :
      IsValid n (delete_one r c)
      × ((delete_one r c).free_num ≡ c.free_num + 1)
      × ((q : ℕ) → contents (delete_one r c) q ≡ (if q == r then none else contents c q))
  delete_one_lem =
      let e = deleted_lem in rw e ((owner_after, deleted-Describes), refl, contents-deleted)
