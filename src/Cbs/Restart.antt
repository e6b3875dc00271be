-- ===== src/Cbs/Restart.antt =====
-- cbs_init over the mapping that a valid cache has left behind.
use pmem_program.Base.{
  ℕ, ◌+◌, ◌-◌, ◌^◌, ◌<◌, ◌≡◌, ◌≢◌, ◌⊎◌, inl, inr, refl, sym, ap, ◌∙◌, ◌==◌, arith, true, ℕ_discrete,
  some,
}
use pmem_program.Cbs.{Cache, done, used_id, valid_of, req_of, page_meta_from_id, magic_number}
use pmem_program.Cbs.Init.{Start, meta_at, recover_disk, cbs_init}
use pmem_program.Cbs.Scan.{last_valid, InDisk}
use pmem_program.Cbs.Recovery.{Once, AllOk, last_valid_sound, last_valid_once, recover_disk_lem}
use pmem_program.Cbs.Valid.{
  Owner, spare, holds, word_of, Describes, IsValid, contents, lookup, lookup_lem,
}

Owner-cases : (o : Owner) → ((i : ℕ) × (o ≡ spare i)) ⊎ ((r : ℕ) × (o ≡ holds r))
Owner-cases (spare i) = inl (i, refl)
Owner-cases (holds r) = inr (r, refl)

contents_same :
    {Page : Type 0} (c' c : Cache Page) (r : ℕ)
    → used_id (c'.disk r) ≡ used_id (c.disk r)
    → c'.page_address ≡ c.page_address
    → c'.image.pages ≡ c.image.pages
    → contents c' r ≡ contents c r
unfolding contents
contents_same c' c r u a p = rw (u, a, p) refl

module _ {Page : Type 0} (n : ℕ) (owner : ℕ → Owner) (c : Cache Page)
    (valid : Describes n owner c) where
  -- A meta in use names the request that its page belongs to.
  pub in_use :
      (i : ℕ)
      → i < n
      → valid_of (c.image.metas (meta_at i)) ≢ 0
      → used_id (c.disk (req_of (c.image.metas (meta_at i)))) ≡ i + 1
  unfolding page_meta_from_id
  in_use i h v =
      let w : word_of c.image (i + 1) ≡ c.image.metas (meta_at i) =
        ap (λ t. c.image.metas (meta_at t)) (let p : i + 1 - 1 ≡ i = omega arith in p) in
      elim (Owner-cases (owner (i + 1))) [
        | inl (k, own) ↦
            let (below, list, z) = valid.idle (i + 1) k (omega arith) (omega (arith, h)) own in
            absurd (v (sym (ap valid_of w) ∙ z))
        | inr (r, own) ↦
            let (u, one, e) = valid.holder (i + 1) r (omega arith) (omega (arith, h)) own in
            ap (λ t. used_id (c.disk (req_of t))) (sym w) ∙ ap (λ t. used_id (c.disk t)) e ∙ u
      ]

  pub valid-InDisk : InDisk n c.image.metas
  valid-InDisk i h v = valid.inside _ (λ z. omega (arith, in_use i h v, z))

  valid-Once : Once n c.image.metas
  valid-Once i j hi hj vi vj e =
      let same = ap (λ r. used_id (c.disk r)) e in
      omega (arith, in_use i hi vi, in_use j hj vj, same)

  pub valid-last_valid : (r : ℕ) → last_valid n c.image.metas r ≡ used_id (c.disk r)
  unfolding page_meta_from_id
  valid-last_valid r = elim (ℕ_discrete (used_id (c.disk r)) 0) [
    | yes z ↦ elim (ℕ_discrete (last_valid n c.image.metas r) 0) [
      | yes z' ↦ z' ∙ sym z
      | no found ↦
          let (le, v, e) = last_valid_sound n c.image.metas r found in
          let u = in_use (last_valid n c.image.metas r - 1) (omega (arith, le, found)) v in
          absurd (omega (arith, u, ap (λ r. used_id (c.disk r)) e, z))
    ]
    | no some_page ↦
        let (le, own) = valid.held r some_page in
        let (u, v, e) = valid.holder (used_id (c.disk r)) r (omega (arith, some_page)) le own in
        let l =
          last_valid_once n c.image valid.few valid.magic valid-InDisk valid-Once
            (used_id (c.disk r) - 1) (omega (arith, le, some_page)) (omega (arith, v)) in
        ap (last_valid n c.image.metas) (sym e) ∙ omega (arith, l, some_page)
  ]

  -- A cache recovered from the image of a valid one has the same pages.
  restarted_lem :
      (malloced : ℕ → ℕ)
      → (c' : Cache Page) × (recover_disk n malloced c.image ≡ done c')
        × IsValid n c'
        × ((r : ℕ) → contents c' r ≡ contents c r)
  restarted_lem malloced =
      let (c', run, (owner', valid'), same, used) =
        recover_disk_lem n c.image valid.few valid.magic valid-InDisk valid-Once malloced in
      (
        c',
        run,
        (owner', valid'),
        λ r.
            let u = used r in
            let l = valid-last_valid r in
            let a : c'.page_address ≡ c.page_address =
              sym valid'.placed ∙ ap (λ t. t.page_offset) same ∙ valid.placed in
            let p : c'.image.pages ≡ c.image.pages = ap (λ t. t.pages) same in
            contents_same c' c r (u ∙ l) a p,
      )

-- cbs_init over the mapping that a valid cache has left, when all that it asks for is granted,
-- ends without an access out of bounds in a valid cache in which read_req finds the same page for
-- every request of the disk.
pub cbs_init_recovers :
    {Page : Type 0} (n : ℕ) (start : Start) (malloced : ℕ → ℕ) (c : Cache Page)
    → AllOk start
    → IsValid n c
    → (c' : Cache Page) × (cbs_init n start malloced c.image ≡ done (some c'))
      × IsValid n c'
      × ((q : ℕ) → q < 2 ^ 30 → lookup q c' ≡ lookup q c)
unfolding cbs_init
cbs_init_recovers n start malloced c (map_ok, disk_ok, pages_ok, list_ok) (owner, valid) =
    let (c', run, valid', all) = restarted_lem n owner c valid malloced in
    let m : (c.image.magic == magic_number) ≡ true = let e = valid.magic in ground arith in
    (
      c',
      rw (map_ok, disk_ok, pages_ok, list_ok, m, run) refl,
      valid',
      λ q few.
          lookup_lem n c' q valid' few
          ∙ ap done (all q)
          ∙ sym (lookup_lem n c q (owner, valid) few),
    )
