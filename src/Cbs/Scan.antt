-- ===== src/Cbs/Scan.antt =====
-- The recovery loop of cbs_init: the entries and the list of free pages that it ends with.
use pmem_program.Base.{
  ℕ, zero, suc, ◌+◌, ◌-◌, ◌^◌, ◌<◌, ◌≡◌, ◌≢◌, refl, sym, ap, ◌∙◌, leb, ◌==◌, ◌&&◌, if◌then◌else◌,
  arith, true, false, not, ℕ_discrete,
}
use pmem_program.Cbs.{
  done, put, valid_of, req_of, page_id_from_meta, disk_block_num, no_entry, req_block,
}
use pmem_program.Base.Words.{u32, ◌>>>◌}
use pmem_program.Cbs.Words.{slot_of_lem}
use pmem_program.Cbs.Init.{Scan, meta_at, scan_meta, scan_metas}

-- How many of the first n metas are not in use.
unfoldable pub rank : ℕ → (ℕ → ℕ) → ℕ
rank zero metas = 0
rank (suc n) metas = if valid_of (metas (meta_at n)) == 0 then rank n metas + 1 else rank n metas

-- The page of the last of the first n metas that is in use for a request, 0 if there is none.
unfoldable pub last_valid : ℕ → (ℕ → ℕ) → ℕ → ℕ
last_valid zero metas r = 0
last_valid (suc n) metas r =
    let word = metas (meta_at n) in
    let earlier = last_valid n metas r in
    if not (valid_of word == 0) && (req_of word == r) then n + 1 else earlier

pub record Scanned (n : ℕ) (metas : ℕ → ℕ) (s : Scan) : Type 0 where
  pub entry1 : (r : ℕ) → (s.disk r).page_id1 ≡ last_valid n metas r
  pub entry2 : (r : ℕ) → (s.disk r).page_id2 ≡ 0
  pub count : s.j ≡ rank n metas
  pub free :
      (i : ℕ) → i < n → valid_of (metas (meta_at i)) ≡ 0 → s.free_list (rank i metas) ≡ meta_at i
  pub source :
      (k : ℕ)
      → k < s.j
      → (i : ℕ) × (i < n) × (valid_of (metas (meta_at i)) ≡ 0) × (rank i metas ≡ k)

-- The requests that the metas in use name are in the disk.
abbrev pub InDisk : ℕ → (ℕ → ℕ) → Type 0
InDisk n metas =
    (i : ℕ) → i < n → valid_of (metas (meta_at i)) ≢ 0 → req_of (metas (meta_at i)) < 2 ^ 30

pub rank_lt :
    (n : ℕ) (metas : ℕ → ℕ) (i : ℕ)
    → i < n
    → valid_of (metas (meta_at i)) ≡ 0
    → rank i metas < rank n metas
unfolding rank
rank_lt zero metas i h v = omega (arith, h)
rank_lt (suc n) metas i h v = elim (ℕ_discrete i n) [
  | yes e ↦ let w : valid_of (metas (meta_at n)) ≡ 0 = rw (← e) v in ground arith
  | no ne ↦ let ih = rank_lt n metas i (omega (arith, h, ne)) v in ground arith
]

page_id_at : (n : ℕ) → n < 2 ^ 32 - 1 → u32 (page_id_from_meta (meta_at n)) ≡ n + 1
unfolding page_id_from_meta
page_id_at n h = omega arith

module _ (n : ℕ) (metas : ℕ → ℕ) (s : Scan) (scanned : Scanned n metas s)
    (n_few : n < 2 ^ 32 - 1) where
  -- A turn with a meta that is not in use lists it.
  abbrev listing : Scan
  listing = record s { free_list = put s.free_list s.j (meta_at n); j = s.j + 1 }

  listing-Scanned : valid_of (metas (meta_at n)) ≡ 0 → Scanned (suc n) metas listing
  unfolding rank last_valid
  listing-Scanned v = record {
    entry1 = λ r. let e = scanned.entry1 r in ground arith;
    entry2 = scanned.entry2;
    count = let e = scanned.count in ground arith;
    free = λ i h w. elim (ℕ_discrete i n) [
      | yes e ↦
          let c = scanned.count in
          let l : rank i metas ≡ rank n metas = ap (λ t. rank t metas) e in ground arith
      | no ne ↦
          let f = scanned.free i (omega (arith, h, ne)) w in
          let c = scanned.count in
          let below = rank_lt n metas i (omega (arith, h, ne)) w in ground arith
    ];
    source = λ k h. elim (ℕ_discrete k s.j) [
      | yes e ↦ (n, omega arith, v, sym (e ∙ scanned.count))
      | no ne ↦
          let (i, below, w, e) = scanned.source k (omega (arith, h, ne)) in
          (i, omega (arith, below), w, e)
    ];
  }

  -- A turn with a meta in use makes its page the request's.
  abbrev binding : Scan
  binding =
      let req_id = req_of (metas (meta_at n)) in
      record s {
        disk = put s.disk req_id (record (s.disk req_id) { page_id1 = n + 1 });
        cached =
            (if (s.disk req_id).page_id1 == 0
              then put s.cached (req_id >>> req_block) (u32 (s.cached (req_id >>> req_block) + 1))
              else s.cached);
      }

  binding-Scanned : valid_of (metas (meta_at n)) ≢ 0 → Scanned (suc n) metas binding
  unfolding rank last_valid
  binding-Scanned v = record {
    entry1 = λ r. let e = scanned.entry1 r in ground arith;
    entry2 = λ r.
        let e = scanned.entry2 r in
        let f = scanned.entry2 (req_of (metas (meta_at n))) in ground arith;
    count = let e = scanned.count in ground arith;
    free = λ i h w.
        scanned.free i
          (omega (arith, h, λ (e : i ≡ n). v (ap (λ t. valid_of (metas (meta_at t))) (sym e) ∙ w)))
          w;
    source = λ k h. let (i, below, w, e) = scanned.source k h in (i, omega (arith, below), w, e);
  }

  -- A turn of the loop.
  scan_meta-Scanned :
      (valid_of (metas (meta_at n)) ≢ 0 → req_of (metas (meta_at n)) < 2 ^ 30)
      → (s' : Scan) × (scan_meta (meta_at n) (metas (meta_at n)) s ≡ done s')
        × Scanned (suc n) metas s'
  unfolding scan_meta
  scan_meta-Scanned inside = elim (ℕ_discrete (valid_of (metas (meta_at n))) 0) [
    | yes v ↦
        let e : (valid_of (metas (meta_at n)) == 0) ≡ true = ground arith in
        (listing, rw e refl, listing-Scanned v)
    | no v ↦
        let e : (valid_of (metas (meta_at n)) == 0) ≡ false = ground arith in
        let g : leb disk_block_num (req_of (metas (meta_at n)) >>> req_block) ≡ false =
          let i = inside v in ground arith in
        (
          binding,
          rw (e, slot_of_lem (req_of (metas (meta_at n))), g, page_id_at n n_few) refl,
          binding-Scanned v,
        )
  ]

-- The recovery loop of cbs_init over n metas, where those in use name requests of the disk, ends
-- without an access out of bounds; it binds each request to the page of the last meta in use that names it, and
-- lists the metas not in use in their order.
pub scan_metas-Scanned :
    (n : ℕ) (metas malloced : ℕ → ℕ)
    → n < 2 ^ 32
    → InDisk n metas
    → (s : Scan) × (scan_metas n metas malloced ≡ done s) × Scanned n metas s
unfolding scan_metas rank last_valid
scan_metas-Scanned zero metas malloced few inside = (
  record { disk = λ r. no_entry; cached = λ b. 0; free_list = malloced; j = 0 },
  refl,
  record {
    entry1 = λ r. refl;
    entry2 = λ r. refl;
    count = refl;
    free = λ i h v. absurd (omega (arith, h));
    source = λ k h. absurd (omega (arith, h));
  },
)
scan_metas-Scanned (suc n) metas malloced few inside =
    let (s, run, scanned) =
      scan_metas-Scanned n metas malloced (omega (arith, few))
        (λ i h. inside i (omega (arith, h))) in
    let (s', turn, scanned') =
      scan_meta-Scanned n metas s scanned (omega (arith, few)) (inside n (omega arith)) in
    (s', rw run turn, scanned')
