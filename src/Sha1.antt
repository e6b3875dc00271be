-- ===== src/Sha1.antt =====
-- wal_accel/src/sha1.h and sha1.c: SHA-1, which names the memory files.
-- A 32-bit word is a number, cut by `% 2 ^ 32` where the C type does; arrays are lists. The code
-- is the one for a little-endian machine, on which memcpy fills a word from its lowest byte on. The
-- data of one sha1_update are taken to be shorter than 2 ^ 32 - 64 bytes, so that the 32-bit index
-- into them does not wrap.
pub mod Padding
use pmem_program.Base.{
  ◌^◌, ℕ, zero, suc, ◌+◌, ◌-◌, ◌*◌, bit_and, bit_or, bit_xor, Bool, true, false, List, [], ◌∷◌,
  ◌++◌, none, some, length, get_elem?, set, take, drop, replicate, ltb, leb, ◌==◌, if◌then◌else◌,
}
use pmem_program.Base.Words.{u32, u64, ◌<<<◌, ◌>>>◌}

-- The word at an index that lies in the array.
abbrev word_at : List ℕ → ℕ → ℕ
word_at xs i = elim (get_elem? xs i) [ none ↦ 0 | some x ↦ x ]

-- rol
unfoldable pub rol : ℕ → ℕ → ℕ
rol value bits = bit_or (u32 (value <<< bits)) (value >>> (32 - bits))

-- The value that blk0(i) puts into the block: its word with the bytes turned.
unfoldable pub blk0 : List ℕ → ℕ → ℕ
unfolding rol
blk0 block i =
    bit_or (bit_and (rol (word_at block i) 24) 0xff00ff00)
      (bit_and (rol (word_at block i) 8) 0x00ff00ff)

-- The value that blk(i) puts into the block at i & 15.
unfoldable pub blk : List ℕ → ℕ → ℕ
unfolding rol
blk block i =
    rol
      (bit_xor
        (bit_xor
          (bit_xor (word_at block (bit_and (i + 13) 15)) (word_at block (bit_and (i + 8) 15)))
          (word_at block (bit_and (i + 2) 15)))
        (word_at block (bit_and i 15)))
      1

-- The block and the five variables in the order of a round's arguments v, w, x, y and z.
pub record Round : Type 0 where
  pub block : List ℕ
  pub v : ℕ
  pub w : ℕ
  pub x : ℕ
  pub y : ℕ
  pub z : ℕ

-- One of R0 to R4 with index i, and the variables renamed for the next: the five names go round.
unfoldable pub sha1_round : ℕ → Round → Round
unfolding rol blk0 blk
sha1_round i r =
    let choose = bit_xor (bit_and r.w (bit_xor r.x r.y)) r.y in
    let parity = bit_xor (bit_xor r.w r.x) r.y in
    let majority = bit_or (bit_and (bit_or r.w r.x) r.y) (bit_and r.w r.x) in
    let word = (if ltb i 16 then blk0 r.block i else blk r.block i) in
    let mixed : ℕ =
      (if ltb i 20
        then choose + word + 0x5a827999
        else (if ltb i 40
            then parity + word + 0x6ed9eba1
            else (if ltb i 60
                then majority + word + 0x8f1bbcdc
                else parity + word + 0xca62c1d6))) in
    record {
      block = set r.block (bit_and i 15) word;
      v = u32 (r.z + mixed + rol r.v 5);
      w = r.v;
      x = rol r.w 30;
      y = r.x;
      z = r.y;
    }

unfoldable pub sha1_rounds : ℕ → ℕ → Round → Round
unfolding sha1_round
sha1_rounds zero i r = r
sha1_rounds (suc n) i r = sha1_rounds n (i + 1) (sha1_round i r)

-- memcpy(block, buffer, 64) into an array of words.
unfoldable pub words_of : ℕ → List ℕ → List ℕ
words_of zero bytes = []
words_of (suc n) bytes =
    (word_at bytes 0
      + word_at bytes 1 * 2 ^ 8
      + word_at bytes 2 * 2 ^ 16
      + word_at bytes 3 * 2 ^ 24)
    ∷ words_of n (drop 4 bytes)

-- sha1_transform
unfoldable pub sha1_transform : List ℕ → List ℕ → List ℕ
unfolding sha1_rounds words_of
sha1_transform state buffer =
    let r = sha1_rounds 80 0 (record {
      block = words_of 16 buffer;
      v = word_at state 0;
      w = word_at state 1;
      x = word_at state 2;
      y = word_at state 3;
      z = word_at state 4;
    }) in
    u32 (word_at state 0 + r.v)
    ∷ u32 (word_at state 1 + r.w)
    ∷ u32 (word_at state 2 + r.x)
    ∷ u32 (word_at state 3 + r.y)
    ∷ u32 (word_at state 4 + r.z)
    ∷ []

-- struct sha1_context
pub record Sha1Context : Type 0 where
  pub state : List ℕ
  pub count0 : ℕ
  pub count1 : ℕ
  pub buffer : List ℕ

-- sha1_init, which leaves the buffer as it is.
unfoldable pub sha1_init : List ℕ → Sha1Context
sha1_init buffer = record {
  state = 0x67452301 ∷ 0xefcdab89 ∷ 0x98badcfe ∷ 0x10325476 ∷ 0xc3d2e1f0 ∷ [];
  count0 = 0;
  count1 = 0;
  buffer = buffer;
}

-- memcpy into the buffer from index j on.
unfoldable pub put_bytes : List ℕ → ℕ → List ℕ → List ℕ
put_bytes buffer j bytes = take j buffer ++ bytes ++ drop (j + length bytes) buffer

-- `for(; i + 63 < len; i += 64)` on the data from i on: the state, and the data left.
unfoldable pub transform_blocks : ℕ → List ℕ → List ℕ → List ℕ × List ℕ
unfolding sha1_transform
transform_blocks zero state bytes = (state, bytes)
transform_blocks (suc n) state bytes = elim (leb 64 (length bytes)) [
  | true ↦ transform_blocks n (sha1_transform state (take 64 bytes)) (drop 64 bytes)
  | false ↦ (state, bytes)
]

-- sha1_update
unfoldable pub sha1_update : Sha1Context → List ℕ → Sha1Context
unfolding put_bytes transform_blocks
sha1_update c bytes =
    let len = length bytes in
    let count0 = u32 (c.count0 + u64 (len <<< 3)) in
    let carry = (if ltb count0 c.count0 then 1 else 0) in
    let count1 = u32 (c.count1 + carry + (len >>> 29)) in
    let j = bit_and (c.count0 >>> 3) 63 in
    let i = 64 - j in
    let filled = put_bytes c.buffer j (take i bytes) in
    let rest = transform_blocks len (sha1_transform c.state filled) (drop i bytes) in
    elim (ltb 63 (j + len)) [
      | true ↦ record {
        state = rest.0;
        count0 = count0;
        count1 = count1;
        buffer = put_bytes filled 0 rest.1;
      }
      | false ↦ record {
        state = c.state;
        count0 = count0;
        count1 = count1;
        buffer = put_bytes c.buffer j bytes;
      }
    ]

-- `while((context->count[0] & 504) != 448)`, on fuel: each turn adds a byte.
unfoldable pub pad : ℕ → Sha1Context → Sha1Context
unfolding sha1_update
pad zero c = c
pad (suc n) c = elim (bit_and c.count0 504 == 448) [
  | true ↦ c
  | false ↦ pad n (sha1_update c (0 ∷ []))
]

-- The bytes of a word, the highest first.
unfoldable pub word_bytes : ℕ → List ℕ
word_bytes word =
    bit_and (word >>> 24) 255
    ∷ bit_and (word >>> 16) 255
    ∷ bit_and (word >>> 8) 255
    ∷ bit_and word 255
    ∷ []

-- The five words of the digest.
unfoldable pub digest_of : List ℕ → List ℕ
unfolding word_bytes
digest_of [] = []
digest_of (word ∷ rest) = word_bytes word ++ digest_of rest

-- sha1_final: the digest.
unfoldable pub sha1_final : Sha1Context → List ℕ
unfolding pad digest_of
sha1_final c =
    let finalcount = word_bytes c.count1 ++ word_bytes c.count0 in
    digest_of (sha1_update (pad 64 (sha1_update c (128 ∷ []))) finalcount).state

-- The calls of get_nvm_file_name on a file's name.
unfoldable pub sha1_of : List ℕ → List ℕ
unfolding sha1_final sha1_init
sha1_of name = sha1_final (sha1_update (sha1_init (replicate 64 0)) name)
