-- ===== src/Cbs/Replace.antt =====
-- write_req where one page holds the request: the invariant, and what the cache then holds.
use pmem_program.Base.{
  ℕ, ◌+◌, ◌-◌, ◌*◌, ◌^◌, ◌≤◌, ◌<◌, ◌≡◌, ◌≢◌, ◌⊎◌, refl, sym, ap, ◌∙◌, false, ◌==◌, if◌then◌else◌,
  arith, some, ℕ_discrete,
}
use pmem_program.Cbs.{
  Image, Cache, done, put, used_id, magic_number, valid_of, req_of, next_word, page_meta_from_id,
  put_meta, put_page, with_free, replace_page, reset_sn, with_sn,
}
use pmem_program.Cbs.Words.{slot_of_lem, page_from_id, page_id_of_id, next_word_fields}
use pmem_program.Cbs.Valid.{
  Owner, spare, holds, word_of, Describes, IsValid, put_self, put_other, spare-injective,
  holds-injective, spare-holds, word_of-put_meta_self, word_of-put_meta_other, contents, page_at,
  page_meta_from_id-injective,
}

module _ {Page : Type 0} (n : ℕ) (owner : ℕ → Owner) (c : Cache Page) (valid : Describes n owner c)
    (r : ℕ) (r_few : r < 2 ^ 30) (content : Page) where
  -- The page that the request has.
  abbrev old : ℕ
  old = used_id (c.disk r)

  abbrev before : ℕ → Image Page
  before k =
      put_page (c.page_address + 4096 * (k - 1)) content (reset_sn (page_meta_from_id old) c.image)

  -- The cache after replace_page with page k.
  abbrev replaced : ℕ → Cache Page
  replaced k = record c {
    image =
        put_meta (page_meta_from_id old) 0
          (put_meta (page_meta_from_id k) (next_word r 1) (before k));
    disk = put c.disk r (record { page_id1 = 0; page_id2 = k });
    free_list = put c.free_list (c.free_num - 1) (page_meta_from_id old);
  }

  replaced_lem :
      (k : ℕ)
      → 0 < c.free_num
      → 1 ≤ k
      → k ≤ n
      → c.free_list (c.free_num - 1) ≡ page_meta_from_id k
      → replace_page r content c ≡ done (replaced k)
  unfolding replace_page with_free
  replaced_lem k some_free k1 kn list =
      let e : (c.free_num == 0) ≡ false = ground arith in
      rw
        (
          e,
          list,
          slot_of_lem r,
          page_id_of_id k k1 (omega (arith, kn, valid.few)),
          page_from_id c.page_address k k1,
        )
        refl

  -- The meta of the old page, whatever reset_sn does to it, is the only one it touches.
  reset_word :
      (id : ℕ)
      → 1 ≤ old
      → 1 ≤ id
      → old ≢ id
      → word_of (reset_sn (page_meta_from_id old) c.image) id ≡ word_of c.image id
  unfolding reset_sn
  reset_word id o1 i1 ne =
      let w = word_of-put_meta_other old id (with_sn (word_of c.image old) 0) c.image o1 i1 ne in
      ground arith

  reset_pages :
      (page : ℕ) → (reset_sn (page_meta_from_id old) c.image).pages page ≡ c.image.pages page
  unfolding reset_sn put_meta
  reset_pages page = ground arith

  module _ (k : ℕ) (k1 : 1 ≤ k) (kn : k ≤ n) (k_spare : owner k ≡ spare (c.free_num - 1))
      (some_free : 0 < c.free_num) (k_listed : c.free_list (c.free_num - 1) ≡ page_meta_from_id k)
      (something : used_id (c.disk r) ≢ 0) where
    abbrev owner_after : ℕ → Owner
    owner_after = put (put owner k (holds r)) old (spare (c.free_num - 1))

    o1 : 1 ≤ old
    o1 = omega (arith, something)

    old_held : (old ≤ n) × (owner old ≡ holds r)
    old_held = valid.held r something

    apart : old ≢ k
    apart e = spare-holds (sym k_spare ∙ ap owner (sym e) ∙ old_held.1)

    abbrev page_word : (id : ℕ) → ℕ
    page_word id = word_of (replaced k).image id

    old_word : page_word old ≡ 0
    old_word = word_of-put_meta_self old _ _

    own_word : page_word k ≡ next_word r 1
    own_word = word_of-put_meta_other old k _ _ o1 k1 apart ∙ word_of-put_meta_self k _ _

    other_word : (id : ℕ) → 1 ≤ id → k ≢ id → old ≢ id → page_word id ≡ word_of c.image id
    unfolding put_page
    other_word id i1 ne no_old =
        word_of-put_meta_other old id _ _ o1 i1 no_old
        ∙ word_of-put_meta_other k id _ _ k1 i1 ne
        ∙ reset_word id o1 i1 no_old

    replaced-single :
        (q : ℕ) → (((replaced k).disk q).page_id1 ≡ 0) ⊎ (((replaced k).disk q).page_id2 ≡ 0)
    replaced-single q = let s = valid.single q in ground arith

    used_own : used_id ((replaced k).disk r) ≡ k
    unfolding used_id
    used_own = ground arith

    used_other : (q : ℕ) → r ≢ q → used_id ((replaced k).disk q) ≡ used_id (c.disk q)
    used_other q ne = ap used_id (put_other c.disk r _ q ne)

    replaced-held :
        (q : ℕ)
        → used_id ((replaced k).disk q) ≢ 0
        → (used_id ((replaced k).disk q) ≤ n)
          × (owner_after (used_id ((replaced k).disk q)) ≡ holds q)
    replaced-held q h = elim (ℕ_discrete r q) [
      | yes e ↦ let u = used_own in let a = apart in ground arith
      | no ne ↦
          let u = used_other q ne in
          let s = valid.held q in
          let f : spare (c.free_num - 1) ≢ holds q = spare-holds in
          let o = old_held in let g : holds r ≡ holds q → r ≡ q = holds-injective in ground arith
    ]

    replaced-holder :
        (id q : ℕ)
        → 1 ≤ id
        → id ≤ n
        → owner_after id ≡ holds q
        → (used_id ((replaced k).disk q) ≡ id)
          × (valid_of (page_word id) ≡ 1)
          × (req_of (page_word id) ≡ q)
    replaced-holder id q i1 ik h = elim (ℕ_discrete old id) [
      | yes e ↦ let f : spare (c.free_num - 1) ≢ holds q = spare-holds in absurd (ground arith)
      | no off ↦ elim (ℕ_discrete k id) [
        | yes e ↦
            let s = next_word_fields r 1 (omega (arith, r_few)) (omega arith) in
            let f : holds r ≡ holds q → r ≡ q = holds-injective in
            let w : page_word id ≡ next_word r 1 = ap page_word (sym e) ∙ own_word in
            let u = used_own in ground arith
        | no ne ↦
            let s = valid.holder id q i1 ik (ground arith) in
            let w = other_word id i1 ne off in
            let u = used_other q (λ e. off (ap (λ t. used_id (c.disk t)) e ∙ s.0)) in ground arith
      ]
    ]

    replaced-listed :
        (i : ℕ)
        → i < c.free_num
        → (id : ℕ) × (1 ≤ id)
          × (id ≤ n)
          × ((replaced k).free_list i ≡ page_meta_from_id id)
          × (owner_after id ≡ spare i)
    replaced-listed i h = elim (ℕ_discrete (c.free_num - 1) i) [
      | yes e ↦ (old, o1, old_held.0, ground arith, ground arith)
      | no ne ↦
          let (id, i1, ik, list, own) = valid.listed i (omega (arith, h)) in
          let f : spare (c.free_num - 1) ≡ spare i → (c.free_num - 1 ≡ i) = spare-injective in
          let g : spare i ≢ holds r = spare-holds in
          let o = old_held in (id, i1, ik, ground arith, ground arith)
    ]

    replaced-idle :
        (id i : ℕ)
        → 1 ≤ id
        → id ≤ n
        → owner_after id ≡ spare i
        → (i < c.free_num)
          × ((replaced k).free_list i ≡ page_meta_from_id id)
          × (valid_of (page_word id) ≡ 0)
    unfolding valid_of
    replaced-idle id i i1 ik h = elim (ℕ_discrete old id) [
      | yes e ↦
          let f : spare (c.free_num - 1) ≡ spare i → (c.free_num - 1 ≡ i) = spare-injective in
          let w : page_word id ≡ 0 = ap page_word (sym e) ∙ old_word in ground arith
      | no off ↦ elim (ℕ_discrete k id) [
        | yes e ↦ let f : spare i ≢ holds r = spare-holds in absurd (ground arith)
        | no ne ↦
            let (below, list, word) = valid.idle id i i1 ik (ground arith) in
            let w = other_word id i1 ne off in
            let last : (c.free_num - 1) ≢ i = λ e.
              ne
                (page_meta_from_id-injective k id k1 i1 (sym k_listed ∙ ap c.free_list e ∙ list)) in
            (below, ground arith, ap valid_of w ∙ word)
      ]
    ]

    replaced-placed : (replaced k).image.page_offset ≡ c.page_address
    unfolding put_meta put_page reset_sn
    replaced-placed = let e = valid.placed in ground arith

    replaced-magic : (replaced k).image.magic ≡ magic_number
    unfolding put_meta put_page reset_sn
    replaced-magic = let e = valid.magic in ground arith

    replaced-inside : (q : ℕ) → used_id ((replaced k).disk q) ≢ 0 → q < 2 ^ 30
    unfolding used_id
    replaced-inside q h = let s = valid.inside q in ground arith

    replaced-Describes : Describes n owner_after (replaced k)
    replaced-Describes = record {
      few = valid.few;
      magic = replaced-magic;
      placed = replaced-placed;
      inside = replaced-inside;
      single = replaced-single;
      held = replaced-held;
      holder = replaced-holder;
      listed = replaced-listed;
      idle = replaced-idle;
    }

    own_page : page_at (replaced k) k ≡ content
    unfolding put_meta put_page
    own_page =
        put_self (reset_sn (page_meta_from_id old) c.image).pages (c.page_address + 4096 * (k - 1))
          content

    other_page : (id : ℕ) → 1 ≤ id → k ≢ id → page_at (replaced k) id ≡ page_at c id
    unfolding put_meta put_page
    other_page id i1 ne =
        put_other (reset_sn (page_meta_from_id old) c.image).pages (c.page_address + 4096 * (k - 1))
          content _ (λ e. ne (omega (arith, e, k1, i1)))
        ∙ reset_pages _

    contents-replaced :
        (q : ℕ) → contents (replaced k) q ≡ (if q == r then some content else contents c q)
    unfolding contents
    contents-replaced q = elim (ℕ_discrete r q) [
      | yes e ↦ let w = own_page in let u = used_own in ground arith
      | no ne ↦
          let u = used_other q ne in
          let s = valid.held q in
          let f : spare (c.free_num - 1) ≢ holds q = spare-holds in
          let w = other_page (used_id (c.disk q)) in ground arith
    ]

  -- With a free page, replace_page ends in a valid cache that differs at the request alone.
  pub replace_page_lem :
      0 < c.free_num
      → used_id (c.disk r) ≢ 0
      → (c' : Cache Page) × (replace_page r content c ≡ done c')
        × IsValid n c'
        × (c'.free_num ≡ c.free_num)
        × ((q : ℕ) → contents c' q ≡ (if q == r then some content else contents c q))
  replace_page_lem some_free something =
      let (k, k1, kn, list, own) = valid.listed (c.free_num - 1) (omega (arith, some_free)) in
      (
        replaced k,
        replaced_lem k some_free k1 kn list,
        (
          owner_after k k1 kn own some_free list something,
          replaced-Describes k k1 kn own some_free list something,
        ),
        refl,
        contents-replaced k k1 kn own some_free list something,
      )
