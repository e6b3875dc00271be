-- ===== src/Cbs/Crash.antt =====
-- A crash between the stores of write_req to persistent memory, and the cbs_init after it.
use pmem_program.Base.{
  ℕ, zero, suc, ◌+◌, ◌-◌, ◌*◌, ◌^◌, ◌≤◌, ◌<◌, ◌≡◌, ◌≢◌, ◌⊎◌, inl, inr, refl, sym, ap, ap₂, ◌∙◌,
  Bool, true, false, ◌==◌, ◌&&◌, not, if◌then◌else◌, arith, some, ℕ_discrete, Bool-cases,
}
use pmem_program.Cbs.{Image, Cache, done, used_id, valid_of, req_of, page_meta_from_id}
use pmem_program.Cbs.Init.{Scan, meta_at, recover_disk}
use pmem_program.Cbs.Scan.{last_valid, Scanned, InDisk, scan_metas-Scanned}
use pmem_program.Cbs.Recovery.{last_valid_sound, last_valid_found}
use pmem_program.Cbs.Restart.{in_use, valid-last_valid}
use pmem_program.Cbs.Valid.{
  Owner, spare, Describes, contents, lookup, lookup_lem, lookup_single, spare-holds, page_at,
}

true_ne_false : true ≢ false
true_ne_false h = cc

-- A meta in use that names the request.
abbrev hit : (ℕ → ℕ) → ℕ → ℕ → Bool
hit metas r i = not (valid_of (metas (meta_at i)) == 0) && (req_of (metas (meta_at i)) == r)

last_valid-hit :
    (n : ℕ) (metas metas' : ℕ → ℕ) (r : ℕ)
    → ((i : ℕ) → i < n → hit metas' r i ≡ hit metas r i)
    → last_valid n metas' r ≡ last_valid n metas r
unfolding last_valid
last_valid-hit zero metas metas' r same = refl
last_valid-hit (suc n) metas metas' r same =
    let ih = last_valid-hit n metas metas' r (λ i h. same i (omega (arith, h))) in
    ap₂ (λ b t. if b then n + 1 else t) (same n (omega arith)) ih

hit-false : (metas : ℕ → ℕ) (r i : ℕ) → valid_of (metas (meta_at i)) ≡ 0 → hit metas r i ≡ false
hit-false metas r i h = ground arith

hit_other : (metas : ℕ → ℕ) (r i : ℕ) → req_of (metas (meta_at i)) ≢ r → hit metas r i ≡ false
hit_other metas r i h = ground arith

hit_names : (metas : ℕ → ℕ) (r i : ℕ) → hit metas r i ≡ true → req_of (metas (meta_at i)) ≡ r
hit_names metas r i h = ground arith

module _ {Page : Type 0} (n : ℕ) (owner : ℕ → Owner) (c : Cache Page) (valid : Describes n owner c)
    (r : ℕ) (r_few : r < 2 ^ 30) (content : Page) (k : ℕ) (k1 : 1 ≤ k) (kn : k ≤ n)
    (k_spare : owner k ≡ spare (c.free_num - 1)) where
  -- An image that agrees with the cache's, but for the free page k, whose meta is not in use or
  -- names the request and then stands for a page with the new content.
  pub record Agrees (image : Image Page) : Type 0 where
    pub offset : image.page_offset ≡ c.page_address
    pub pages :
        (id : ℕ) → 1 ≤ id → k ≢ id → image.pages (c.page_address + 4096 * (id - 1)) ≡ page_at c id
    pub words :
        (i : ℕ)
        → k ≢ i + 1
        → (valid_of (image.metas (meta_at i)) ≡ valid_of (c.image.metas (meta_at i)))
          × (req_of (image.metas (meta_at i)) ≡ req_of (c.image.metas (meta_at i)))
    pub new :
        (valid_of (image.metas (meta_at (k - 1))) ≡ 0)
        ⊎ ((valid_of (image.metas (meta_at (k - 1))) ≡ 1)
            × (req_of (image.metas (meta_at (k - 1))) ≡ r)
            × (image.pages (c.page_address + 4096 * (k - 1)) ≡ content))

  pub k_idle : valid_of (c.image.metas (meta_at (k - 1))) ≡ 0
  unfolding page_meta_from_id
  k_idle = (valid.idle k (c.free_num - 1) k1 kn k_spare).2

  not_k : (q : ℕ) → used_id (c.disk q) ≢ 0 → k ≢ used_id (c.disk q)
  not_k q some_page e = spare-holds (sym k_spare ∙ ap owner e ∙ (valid.held q some_page).1)

  module _ (image : Image Page) (agrees : Agrees image) where
    agrees-InDisk : InDisk n image.metas
    agrees-InDisk i h v = elim (ℕ_discrete k (i + 1)) [
      | yes same ↦
          let at : k - 1 ≡ i = omega (arith, same) in
          elim agrees.new [
            | inl idle ↦ absurd (v (ap (λ t. valid_of (image.metas (meta_at t))) (sym at) ∙ idle))
            | inr (one, names, page) ↦
                omega (arith, r_few, names, ap (λ t. req_of (image.metas (meta_at t))) at)
          ]
      | no ne ↦
          let (v', e) = agrees.words i ne in
          let inside = valid.inside (req_of (c.image.metas (meta_at i))) in
          let u = in_use n owner c valid i h (λ z. v (v' ∙ z)) in
          omega (arith, e, inside (λ z. omega (arith, u, z)))
    ]

    -- Where the new meta does not name the request that is looked for, the same page is found.
    same_page :
        (q : ℕ)
        → hit image.metas q (k - 1) ≡ false
        → last_valid n image.metas q ≡ used_id (c.disk q)
    same_page q off =
        last_valid-hit n c.image.metas image.metas q (λ i h. elim (ℕ_discrete k (i + 1)) [
          | yes same ↦
              let at : k - 1 ≡ i = omega (arith, same) in
              ap (hit image.metas q) (sym at)
              ∙ off
              ∙ sym (hit-false c.image.metas q (k - 1) k_idle)
              ∙ ap (hit c.image.metas q) at
          | no ne ↦ let (v, e) = agrees.words i ne in ap₂ (λ a b. not (a == 0) && (b == q)) v e
        ])
        ∙ valid-last_valid n owner c valid q

    abbrev after : Scan → Cache Page
    after s = record {
      image = image;
      page_address = image.page_offset;
      disk = s.disk;
      cached = s.cached;
      free_num = s.j;
      free_list = s.free_list;
    }

    module _ (s : Scan) (scanned : Scanned n image.metas s) where
      used_after : (q : ℕ) → used_id (s.disk q) ≡ last_valid n image.metas q
      unfolding used_id
      used_after q = let e = scanned.entry1 q in let f = scanned.entry2 q in ground arith

      found_same :
          (q : ℕ)
          → last_valid n image.metas q ≡ used_id (c.disk q)
          → contents (after s) q ≡ contents c q
      unfolding contents
      found_same q e =
          let u = used_after q ∙ e in
          let o = agrees.offset in
          let p = agrees.pages (used_id (c.disk q)) in
          let ne = not_k q in
          elim (ℕ_discrete (used_id (c.disk q)) 0) [
            | yes z ↦ ground arith
            | no some_page ↦
                let same = p (omega (arith, some_page)) (ne some_page) in rw (u, o, same) refl
          ]

      found_new :
          (q : ℕ)
          → last_valid n image.metas q ≡ k
          → image.pages (c.page_address + 4096 * (k - 1)) ≡ content
          → contents (after s) q ≡ some content
      unfolding contents
      found_new q e page =
          let u = used_after q ∙ e in
          let o = agrees.offset in
          let z : (k == 0) ≡ false = ground arith in rw (u, o, z, page) refl

      either :
          (q : ℕ)
          → (contents (after s) q ≡ contents c q)
            ⊎ ((q ≡ r) × (contents (after s) q ≡ some content))
      either q = elim (Bool-cases (hit image.metas q (k - 1))) [
        | inr off ↦ inl (found_same q (same_page q off))
        | inl on ↦ elim agrees.new [
          | inl idle ↦ absurd (true_ne_false (sym on ∙ hit-false image.metas q (k - 1) idle))
          | inr (one, names, page) ↦
              let same : r ≡ q = sym names ∙ hit_names image.metas q (k - 1) on in
              elim (ℕ_discrete (last_valid n image.metas q) k) [
                | yes new ↦ inr (sym same, found_new q new page)
                | no other ↦ inl (found_same q (older q same other one names))
              ]
        ]
      ]
        where
          older :
              (q : ℕ)
              → r ≡ q
              → last_valid n image.metas q ≢ k
              → valid_of (image.metas (meta_at (k - 1))) ≡ 1
              → req_of (image.metas (meta_at (k - 1))) ≡ r
              → last_valid n image.metas q ≡ used_id (c.disk q)
          older q same other one names =
              let found =
                last_valid_found n image.metas q (k - 1) (omega (arith, k1, kn))
                  (omega (arith, one)) (names ∙ same) in
              let (le, v, e) = last_valid_sound n image.metas q found in
              let (v', e') =
                agrees.words (last_valid n image.metas q - 1)
                  (λ z. other (omega (arith, z, found))) in
              let u =
                in_use n owner c valid (last_valid n image.metas q - 1) (omega (arith, le, found))
                  (λ z. v (v' ∙ z)) in
              omega (arith, u, found, ap (λ t. used_id (c.disk t)) (sym e' ∙ e))

    -- cbs_init's recovery from the image.
    pub recovery_lem :
        (malloced : ℕ → ℕ)
        → (c' : Cache Page) × (recover_disk n malloced image ≡ done c')
          × ((q : ℕ)
              → q < 2 ^ 30
              → (lookup q c' ≡ lookup q c) ⊎ ((q ≡ r) × (lookup q c' ≡ done (some content))))
    unfolding recover_disk
    recovery_lem malloced =
        let (s, run, scanned) = scan_metas-Scanned n image.metas malloced valid.few agrees-InDisk in
        let found =
          λ (q : ℕ) (few : q < 2 ^ 30). lookup_single (after s) q (inr (scanned.entry2 q)) few in
        (
          after s,
          rw (recover_disk, run) refl,
          λ q few. elim (either s scanned q) [
            | inl same ↦
                inl (found q few ∙ ap done same ∙ sym (lookup_lem n c q (owner, valid) few))
            | inr (here, new) ↦ inr (here, found q few ∙ ap done new)
          ],
        )
