-- ===== src/Cbs/Recovery.antt =====
-- The recovery of cbs_init over metas of which no two in use name the same request.
use pmem_program.Base.{
  ℕ, zero, suc, ◌+◌, ◌-◌, ◌%◌, ◌^◌, ◌≤◌, ◌<◌, ◌≡◌, ◌≢◌, ◌⊎◌, inl, inr, refl, sym, ap, ◌∙◌, ◌==◌,
  if◌then◌else◌, arith, true, ℕ_discrete,
}
use pmem_program.Cbs.{
  Image, Cache, done, used_id, valid_of, req_of, page_meta_from_id, magic_number,
}
use pmem_program.Cbs.Init.{Start, Scan, meta_at, recover_disk}
use pmem_program.Cbs.Scan.{rank, rank_lt, last_valid, Scanned, InDisk, scan_metas-Scanned}
use pmem_program.Cbs.Valid.{
  Owner, spare, holds, word_of, Describes, IsValid, spare-injective, holds-injective, spare-holds,
}

-- No two metas in use name the same request.
abbrev pub Once : ℕ → (ℕ → ℕ) → Type 0
Once n metas =
    (i j : ℕ)
    → i < n
    → j < n
    → valid_of (metas (meta_at i)) ≢ 0
    → valid_of (metas (meta_at j)) ≢ 0
    → req_of (metas (meta_at i)) ≡ req_of (metas (meta_at j))
    → i ≡ j

-- All that cbs_init asks for is granted.
abbrev pub AllOk : Start → Type 0
AllOk start =
    (start.map_ok ≡ true)
    × (start.disk_ok ≡ true)
    × (start.free_pages_ok ≡ true)
    × (start.free_list_ok ≡ true)

pub valid_of-cases : (word : ℕ) → (valid_of word ≡ 0) ⊎ (valid_of word ≡ 1)
unfolding valid_of
valid_of-cases word = elim (ℕ_discrete (word % 2) 0) [
  | yes e ↦ inl e
  | no e ↦ inr (omega (arith, e))
]

pub last_valid_sound :
    (n : ℕ) (metas : ℕ → ℕ) (r : ℕ)
    → last_valid n metas r ≢ 0
    → (last_valid n metas r ≤ n)
      × (valid_of (metas (meta_at (last_valid n metas r - 1))) ≢ 0)
      × (req_of (metas (meta_at (last_valid n metas r - 1))) ≡ r)
unfolding last_valid
last_valid_sound zero metas r h = absurd (h refl)
last_valid_sound (suc n) metas r h = elim (turn) [
  | inl l ↦
      let (le, v, e) = last_valid_sound n metas r (λ z. h (l ∙ z)) in rw l (omega (arith, le), v, e)
  | inr (l, v, e) ↦ let p : n + 1 - 1 ≡ n = omega arith in rw (l, p) (omega arith, v, e)
]
  where
    turn :
        (last_valid (suc n) metas r ≡ last_valid n metas r)
        ⊎ ((last_valid (suc n) metas r ≡ n + 1)
            × (valid_of (metas (meta_at n)) ≢ 0)
            × (req_of (metas (meta_at n)) ≡ r))
    turn = ground arith

pub last_valid_found :
    (n : ℕ) (metas : ℕ → ℕ) (r i : ℕ)
    → i < n
    → valid_of (metas (meta_at i)) ≢ 0
    → req_of (metas (meta_at i)) ≡ r
    → last_valid n metas r ≢ 0
unfolding last_valid
last_valid_found zero metas r i h v e = absurd (omega (arith, h))
last_valid_found (suc n) metas r i h v e = elim (ℕ_discrete i n) [
  | yes same ↦
      let v' : valid_of (metas (meta_at n)) ≢ 0 = rw (← same) v in
      let e' : req_of (metas (meta_at n)) ≡ r = rw (← same) e in ground arith
  | no ne ↦ let ih = last_valid_found n metas r i (omega (arith, h, ne)) v e in ground arith
]

module _ {Page : Type 0} (n : ℕ) (image : Image Page) (few : n < 2 ^ 32)
    (magic : image.magic ≡ magic_number) (inside : InDisk n image.metas)
    (once : Once n image.metas) where
  abbrev owner_of : ℕ → Owner
  owner_of id =
      let word = image.metas (meta_at (id - 1)) in
      if valid_of word == 0 then spare (rank (id - 1) image.metas) else holds (req_of word)

  pub last_valid_once :
      (i : ℕ)
      → i < n
      → valid_of (image.metas (meta_at i)) ≢ 0
      → last_valid n image.metas (req_of (image.metas (meta_at i))) ≡ i + 1
  last_valid_once i h v =
      let r = req_of (image.metas (meta_at i)) in
      let found = last_valid_found n image.metas r i h v refl in
      let (le, v', e) = last_valid_sound n image.metas r found in
      omega
        (arith, once (last_valid n image.metas r - 1) i (omega (arith, le, found)) h v' v e, found)

  -- The cache after the loop.
  abbrev recovered : Scan → Cache Page
  recovered s = record {
    image = image;
    page_address = image.page_offset;
    disk = s.disk;
    cached = s.cached;
    free_num = s.j;
    free_list = s.free_list;
  }

  module _ (s : Scan) (scanned : Scanned n image.metas s) where
    used_lem : (r : ℕ) → used_id (s.disk r) ≡ last_valid n image.metas r
    unfolding used_id
    used_lem r = let e = scanned.entry1 r in let f = scanned.entry2 r in ground arith

    recovered-held :
        (r : ℕ)
        → used_id (s.disk r) ≢ 0
        → (used_id (s.disk r) ≤ n) × (owner_of (used_id (s.disk r)) ≡ holds r)
    recovered-held r h =
        let e = used_lem r in
        let q = last_valid_sound n image.metas r (λ z. h (e ∙ z)) in ground arith

    recovered-inside : (r : ℕ) → used_id (s.disk r) ≢ 0 → r < 2 ^ 30
    recovered-inside r h =
        let e = used_lem r in
        let nz : last_valid n image.metas r ≢ 0 = λ z. h (e ∙ z) in
        let (le, v, q) = last_valid_sound n image.metas r nz in
        omega (arith, inside (last_valid n image.metas r - 1) (omega (arith, le, nz)) v, q)

    recovered-holder :
        (id r : ℕ)
        → 1 ≤ id
        → id ≤ n
        → owner_of id ≡ holds r
        → (used_id (s.disk r) ≡ id)
          × (valid_of (word_of image id) ≡ 1)
          × (req_of (word_of image id) ≡ r)
    unfolding page_meta_from_id
    recovered-holder id r i1 ik h = elim (valid_of-cases (image.metas (meta_at (id - 1)))) [
      | inl z ↦
          let f : spare (rank (id - 1) image.metas) ≢ holds r = spare-holds in absurd (ground arith)
      | inr v ↦
          let e : req_of (image.metas (meta_at (id - 1))) ≡ r = holds-injective (ground arith) in
          let u = used_lem r in
          let l = last_valid_once (id - 1) (omega (arith, i1, ik)) (omega (arith, v)) in
          (u ∙ ap (last_valid n image.metas) (sym e) ∙ omega (arith, l, i1), v, e)
    ]

    recovered-listed :
        (i : ℕ)
        → i < s.j
        → (id : ℕ) × (1 ≤ id)
          × (id ≤ n)
          × (s.free_list i ≡ page_meta_from_id id)
          × (owner_of id ≡ spare i)
    unfolding page_meta_from_id
    recovered-listed i h =
        let (m, below, v, e) = scanned.source i h in
        let l = scanned.free m below v in
        let p : m + 1 - 1 ≡ m = omega arith in
        (
          m + 1,
          omega arith,
          omega (arith, below),
          rw p (ap s.free_list (sym e) ∙ l),
          rw p (ground arith),
        )

    recovered-idle :
        (id i : ℕ)
        → 1 ≤ id
        → id ≤ n
        → owner_of id ≡ spare i
        → (i < s.j) × (s.free_list i ≡ page_meta_from_id id) × (valid_of (word_of image id) ≡ 0)
    unfolding page_meta_from_id
    recovered-idle id i i1 ik h = elim (valid_of-cases (image.metas (meta_at (id - 1)))) [
      | inl z ↦
          let e : rank (id - 1) image.metas ≡ i = spare-injective (ground arith) in
          let l = rank_lt n image.metas (id - 1) (omega (arith, i1, ik)) z in
          (
            omega (arith, l, e, scanned.count),
            ap s.free_list (sym e) ∙ scanned.free (id - 1) (omega (arith, i1, ik)) z,
            z,
          )
      | inr v ↦
          let f : spare i ≢ holds (req_of (image.metas (meta_at (id - 1)))) = spare-holds in
          absurd (ground arith)
    ]

    recovered-Describes : Describes n owner_of (recovered s)
    recovered-Describes = record {
      few = few;
      magic = magic;
      placed = refl;
      inside = recovered-inside;
      single = λ r. inr (scanned.entry2 r);
      held = recovered-held;
      holder = recovered-holder;
      listed = recovered-listed;
      idle = recovered-idle;
    }

  pub recover_disk_lem :
      (malloced : ℕ → ℕ)
      → (c : Cache Page) × (recover_disk n malloced image ≡ done c)
        × IsValid n c
        × (c.image ≡ image)
        × ((r : ℕ) → used_id (c.disk r) ≡ last_valid n image.metas r)
  unfolding recover_disk
  recover_disk_lem malloced =
      let (s, run, scanned) = scan_metas-Scanned n image.metas malloced few inside in
      (
        recovered s,
        rw (recover_disk, run) refl,
        (owner_of, recovered-Describes s scanned),
        refl,
        used_lem s scanned,
      )
