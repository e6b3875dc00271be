-- ===== src/Cbs/Add.antt =====
-- write_req where no page holds the request: the invariant, and what the cache then holds.
use pmem_program.Base.{
  ℕ, ◌+◌, ◌-◌, ◌*◌, ◌^◌, ◌≤◌, ◌<◌, ◌≡◌, ◌≢◌, ◌⊎◌, refl, sym, ap, ◌∙◌, false, ◌==◌, if◌then◌else◌,
  arith, some, ℕ_discrete,
}
use pmem_program.Cbs.{
  Cache, done, put, used_id, magic_number, valid_of, req_of, first_word, page_meta_from_id,
  put_meta, put_page, with_free, add_page, req_block,
}
use pmem_program.Base.Words.{u32, ◌>>>◌}
use pmem_program.Cbs.Words.{slot_of_lem, page_from_id, page_id_of_id, first_word_fields}
use pmem_program.Cbs.Valid.{
  Owner, spare, holds, word_of, Describes, IsValid, put_self, put_other, spare-injective,
  holds-injective, spare-holds, word_of-put_meta_self, word_of-put_meta_other, contents, page_at,
  page_meta_from_id-injective,
}

module _ {Page : Type 0} (n : ℕ) (owner : ℕ → Owner) (c : Cache Page) (valid : Describes n owner c)
    (r : ℕ) (r_few : r < 2 ^ 30) (content : Page) where
  -- The cache after add_page with page k.
  abbrev added : ℕ → Cache Page
  added k = record c {
    image =
        put_meta (page_meta_from_id k) (first_word r)
          (put_page (c.page_address + 4096 * (k - 1)) content c.image);
    free_num = c.free_num - 1;
    disk = put c.disk r (record (c.disk r) { page_id1 = k });
    cached = put c.cached (r >>> req_block) (u32 (c.cached (r >>> req_block) + 1));
  }

  added_lem :
      (k : ℕ)
      → 0 < c.free_num
      → 1 ≤ k
      → k ≤ n
      → c.free_list (c.free_num - 1) ≡ page_meta_from_id k
      → add_page r content c ≡ done (added k)
  unfolding add_page with_free
  added_lem k some_free k1 kn list =
      let e : (c.free_num == 0) ≡ false = ground arith in
      rw
        (
          e,
          list,
          slot_of_lem r,
          page_id_of_id k k1 (omega (arith, kn, valid.few)),
          page_from_id c.page_address k k1,
        )
        refl

  module _ (k : ℕ) (k1 : 1 ≤ k) (kn : k ≤ n) (k_spare : owner k ≡ spare (c.free_num - 1))
      (some_free : 0 < c.free_num) (k_listed : c.free_list (c.free_num - 1) ≡ page_meta_from_id k)
      (nothing : ((c.disk r).page_id1 ≡ 0) × ((c.disk r).page_id2 ≡ 0)) where
    abbrev page_word : (id : ℕ) → ℕ
    page_word id = word_of (added k).image id

    other_word : (id : ℕ) → 1 ≤ id → k ≢ id → page_word id ≡ word_of c.image id
    unfolding put_page
    other_word id i1 ne = word_of-put_meta_other k id _ _ k1 i1 ne

    own_word : page_word k ≡ first_word r
    own_word = word_of-put_meta_self k _ _

    added-single : (q : ℕ) → (((added k).disk q).page_id1 ≡ 0) ⊎ (((added k).disk q).page_id2 ≡ 0)
    added-single q = let s = valid.single q in ground arith

    added-held :
        (q : ℕ)
        → used_id ((added k).disk q) ≢ 0
        → (used_id ((added k).disk q) ≤ n)
          × (put owner k (holds r) (used_id ((added k).disk q)) ≡ holds q)
    unfolding used_id
    added-held q h =
        let s = valid.held q in
        let ne : spare (c.free_num - 1) ≢ holds q = spare-holds in ground arith

    added-holder :
        (id q : ℕ)
        → 1 ≤ id
        → id ≤ n
        → put owner k (holds r) id ≡ holds q
        → (used_id ((added k).disk q) ≡ id)
          × (valid_of (page_word id) ≡ 1)
          × (req_of (page_word id) ≡ q)
    unfolding used_id
    added-holder id q i1 ik h = elim (ℕ_discrete k id) [
      | yes e ↦
          let s = first_word_fields r (omega (arith, r_few)) in
          let f = holds-injective {i = r} {j = q} in
          let w : page_word id ≡ first_word r = ap page_word (sym e) ∙ own_word in ground arith
      | no ne ↦ let s = valid.holder id q i1 ik in let w = other_word id i1 ne in ground arith
    ]

    added-listed :
        (i : ℕ)
        → i < c.free_num - 1
        → (id : ℕ) × (1 ≤ id)
          × (id ≤ n)
          × (c.free_list i ≡ page_meta_from_id id)
          × (put owner k (holds r) id ≡ spare i)
    added-listed i h =
        let (id, i1, ik, list, own) = valid.listed i (omega (arith, h)) in
        let f : spare (c.free_num - 1) ≡ spare i → (c.free_num - 1 ≡ i) = spare-injective in
        (id, i1, ik, list, ground arith)

    added-idle :
        (id i : ℕ)
        → 1 ≤ id
        → id ≤ n
        → put owner k (holds r) id ≡ spare i
        → (i < c.free_num - 1)
          × (c.free_list i ≡ page_meta_from_id id)
          × (valid_of (page_word id) ≡ 0)
    added-idle id i i1 ik h = elim (ℕ_discrete k id) [
      | yes e ↦ let f : spare i ≢ holds r = spare-holds in absurd (ground arith)
      | no ne ↦
          let (below, list, word) = valid.idle id i i1 ik (ground arith) in
          let w = other_word id i1 ne in
          let last : (c.free_num - 1) ≢ i = λ e.
            ne (page_meta_from_id-injective k id k1 i1 (sym k_listed ∙ ap c.free_list e ∙ list)) in
          (omega (arith, below, last), list, ap valid_of w ∙ word)
    ]

    added-placed : (added k).image.page_offset ≡ c.page_address
    unfolding put_meta put_page
    added-placed = valid.placed

    added-magic : (added k).image.magic ≡ magic_number
    unfolding put_meta put_page
    added-magic = valid.magic

    added-inside : (q : ℕ) → used_id ((added k).disk q) ≢ 0 → q < 2 ^ 30
    unfolding used_id
    added-inside q h = let s = valid.inside q in ground arith

    added-Describes : Describes n (put owner k (holds r)) (added k)
    added-Describes = record {
      few = valid.few;
      magic = added-magic;
      placed = added-placed;
      inside = added-inside;
      single = added-single;
      held = added-held;
      holder = added-holder;
      listed = added-listed;
      idle = added-idle;
    }

    own_page : page_at (added k) k ≡ content
    unfolding put_meta put_page
    own_page = put_self c.image.pages _ content

    other_page : (id : ℕ) → 1 ≤ id → k ≢ id → page_at (added k) id ≡ page_at c id
    unfolding put_meta put_page
    other_page id i1 ne =
        put_other c.image.pages (c.page_address + 4096 * (k - 1)) content _
          (λ e. ne (omega (arith, e, k1, i1)))

    contents-added :
        (q : ℕ) → contents (added k) q ≡ (if q == r then some content else contents c q)
    unfolding contents used_id
    contents-added q = elim (ℕ_discrete r q) [
      | yes e ↦ let w : page_at (added k) k ≡ content = own_page in ground arith
      | no ne ↦
          let s = valid.held q in
          let f : spare (c.free_num - 1) ≢ holds q = spare-holds in
          let w = other_page (used_id (c.disk q)) in ground arith
    ]

  -- With a free page, add_page ends in a valid cache that differs at the request alone.
  pub add_page_lem :
      0 < c.free_num
      → ((c.disk r).page_id1 ≡ 0) × ((c.disk r).page_id2 ≡ 0)
      → (c' : Cache Page) × (add_page r content c ≡ done c')
        × IsValid n c'
        × (c'.free_num ≡ c.free_num - 1)
        × ((q : ℕ) → contents c' q ≡ (if q == r then some content else contents c q))
  add_page_lem some_free nothing =
      let (k, k1, kn, list, own) = valid.listed (c.free_num - 1) (omega (arith, some_free)) in
      (
        added k,
        added_lem k some_free k1 kn list,
        (put owner k (holds r), added-Describes k k1 kn own some_free list nothing),
        refl,
        contents-added k k1 kn own some_free list nothing,
      )
