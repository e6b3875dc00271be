-- ===== src/Aofguard/Durability.antt =====
-- aofguard_write that is acknowledged, a crash, and aofguard_init.
use pmem_program.Base.{
  ℕ, zero, suc, ◌+◌, ◌*◌, ◌/◌, ◌^◌, ◌≤◌, ◌<◌, ◌≡◌, refl, ap, ◌∙◌, sym, true, false, some, List, [],
  ◌∷◌, ◌++◌, length, take, arith,
}
use mathlib.Core.Path.{subst}
use pmem_program.Aofguard.{block_size, Os, Aofguard, done}
use pmem_program.Aofguard.Ops.{Sems, aofguard_write}
use pmem_program.Aofguard.Init.{Setup, map_ok, aofguard_init}
use pmem_program.Aofguard.Slices.{CopyLaws}
use pmem_program.Aofguard.Invariant.{OsLaws, DurableLaws, Synced, IsValid, HoldsLog}
use pmem_program.Aofguard.Ensures.{Failure, Ensures}
use pmem_program.Aofguard.Log.{Appended, aofguard_write-Ensures}
use pmem_program.Aofguard.Recovery.{aofguard_init-Restored}

take-take : (m n : ℕ) (xs : List ℕ) → m ≤ n → take m (take n xs) ≡ take m xs
take-take zero n xs h = refl
take-take (suc m) zero xs h = absurd (omega arith)
take-take (suc m) (suc n) [] h = refl
take-take (suc m) (suc n) (x ∷ xs) h = ap (λ r. x ∷ r) (take-take m n xs (omega arith))

-- Lists with the same first n bytes have the same first m of them.
pub shorter_take :
    (m n : ℕ) (xs ys : List ℕ) → m ≤ n → take n xs ≡ take n ys → take m xs ≡ take m ys
shorter_take m n xs ys h e = sym (take-take m n xs h) ∙ ap (take m) e ∙ take-take m n ys h

module _ {File : Type 0} (os : Os File) (content : File → List ℕ) (durable : File → ℕ)
    (laws : OsLaws os content) (safe : DurableLaws os content durable)
    (writes : (f : File) (xs : List ℕ) → (os.write f xs).1 ≡ length xs)
    (truncates : (f : File) (n : ℕ) → (os.ftruncate f n).1 ≡ true)
    (memcpy : (ℕ → ℕ) → ℕ → List ℕ → ℕ → ℕ) (copy_laws : CopyLaws memcpy) (setup : Setup)
    (nvm_size : ℕ) (mapped : map_ok setup (nvm_size / block_size) ≡ true)
    (exists : setup.nvm_file_exist ≡ true) (sems_ok : setup.sems_ok ≡ true)
    (thread_ok : setup.thread_ok ≡ true) (a : Aofguard File) (v : IsValid a)
    (log : HoldsLog content a) (synced : Synced durable a)
    (same_size : nvm_size / block_size * block_size ≡ a.capacity) (file : File) (size : ℕ)
    (stat : os.fstat file ≡ some size) where
  -- Let aofguard_write return 1 on a valid guard that holds its log and whose first fsync_len
  -- bytes of the file are on stable storage, for fewer than 2^63 bytes and offsets below 2^48,
  -- with a ring that is not exactly full then. If a crash leaves a file that has the bytes that
  -- were on stable storage, and any others behind them, then aofguard_init on the existing memory
  -- file of that size, whose calls succeed, returns 1, and the file has its old bytes and then the
  -- written ones.
  pub acknowledged_write_survives :
      (sems : Sems) (xs : List ℕ) (b : Aofguard File)
      → length xs < 2 ^ 63
      → a.fsync_len + a.len + length xs < 2 ^ 48
      → aofguard_write os memcpy sems xs a ≡ done b
      → b.len < b.capacity
      → durable b.file ≤ size
      → take (durable b.file) (content file) ≡ take (durable b.file) (content b.file)
      → (c : Aofguard File) × (aofguard_init os setup b.nvm nvm_size false file ≡ done c)
        × (content c.file ≡ content a.file ++ xs)
  acknowledged_write_survives sems xs b small offsets wrote not_full long kept =
      let p : Appended os content durable laws safe memcpy copy_laws sems xs a v log b =
        subst
          (Ensures (Appended os content durable laws safe memcpy copy_laws sems xs a v log)
            (Failure os sems a xs))
          wrote
          (aofguard_write-Ensures os content durable laws safe memcpy copy_laws sems xs a v log
            small offsets) in
      let s = p.new_synced synced in
      let (c, opened, r) =
        aofguard_init-Restored os content laws writes truncates b p.valid p.new_log file size stat
          (omega (arith, s, long))
          (shorter_take b.fsync_len (durable b.file) (content file) (content b.file) s kept) setup
          nvm_size mapped exists sems_ok thread_ok (same_size ∙ sym p.same_capacity) not_full in
      (c, opened, r.same_content ∙ p.new_content)
