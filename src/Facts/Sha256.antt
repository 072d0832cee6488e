-- ===== src/Facts/Sha256.antt =====
-- SHA-256 (class Sha256 of src/analysis_facts.cpp). The words are numbers below 2 ^ 32, with the
-- wrap-around of their sums written out; the block is the list of the bytes it holds so far.
use viy.Base.{
  ℕ, zero, suc, ◌+◌, ◌-◌, ◌*◌, ◌/◌, ◌%◌, ◌^◌, min, bit_and, bit_or, bit_xor, List, [], ◌∷◌, ◌++◌,
  length, take, drop, ltb, ◌==◌, if◌then◌else◌,
}
use viy.Facts.Bytes.{write_be}

abbrev to_u32 : ℕ → ℕ
to_u32 n = n % 2 ^ 32

abbrev rotr : ℕ → ℕ → ℕ
rotr value count = bit_or (value / 2 ^ count) (to_u32 (value * 2 ^ (32 - count)))

abbrev round_constants : List ℕ
round_constants =
    0x428a2f98 ∷ 0x71374491 ∷ 0xb5c0fbcf ∷ 0xe9b5dba5 ∷ 0x3956c25b ∷ 0x59f111f1 ∷ 0x923f82a4
    ∷ 0xab1c5ed5 ∷ 0xd807aa98 ∷ 0x12835b01 ∷ 0x243185be ∷ 0x550c7dc3 ∷ 0x72be5d74 ∷ 0x80deb1fe
    ∷ 0x9bdc06a7 ∷ 0xc19bf174 ∷ 0xe49b69c1 ∷ 0xefbe4786 ∷ 0x0fc19dc6 ∷ 0x240ca1cc ∷ 0x2de92c6f
    ∷ 0x4a7484aa ∷ 0x5cb0a9dc ∷ 0x76f988da ∷ 0x983e5152 ∷ 0xa831c66d ∷ 0xb00327c8 ∷ 0xbf597fc7
    ∷ 0xc6e00bf3 ∷ 0xd5a79147 ∷ 0x06ca6351 ∷ 0x14292967 ∷ 0x27b70a85 ∷ 0x2e1b2138 ∷ 0x4d2c6dfc
    ∷ 0x53380d13 ∷ 0x650a7354 ∷ 0x766a0abb ∷ 0x81c2c92e ∷ 0x92722c85 ∷ 0xa2bfe8a1 ∷ 0xa81a664b
    ∷ 0xc24b8b70 ∷ 0xc76c51a3 ∷ 0xd192e819 ∷ 0xd6990624 ∷ 0xf40e3585 ∷ 0x106aa070 ∷ 0x19a4c116
    ∷ 0x1e376c08 ∷ 0x2748774c ∷ 0x34b0bcb5 ∷ 0x391c0cb3 ∷ 0x4ed8aa4a ∷ 0x5b9cca4f ∷ 0x682e6ff3
    ∷ 0x748f82ee ∷ 0x78a5636f ∷ 0x84c87814 ∷ 0x8cc70208 ∷ 0x90befffa ∷ 0xa4506ceb ∷ 0xbef9a3f7
    ∷ 0xc67178f2 ∷ []

-- The eight words of the state.
pub record ShaState : Type 0 where
  pub a : ℕ
  pub b : ℕ
  pub c : ℕ
  pub d : ℕ
  pub e : ℕ
  pub f : ℕ
  pub g : ℕ
  pub h : ℕ

-- The word at an index, or 0 behind the end.
abbrev word_at : ℕ → List ℕ → ℕ
word_at i [] = 0
word_at zero (w ∷ words) = w
word_at (suc i) (w ∷ words) = word_at i words

-- The words of a block.
unfoldable pub block_words : List ℕ → List ℕ
block_words [] = []
block_words (b0 ∷ []) = []
block_words (b0 ∷ b1 ∷ []) = []
block_words (b0 ∷ b1 ∷ b2 ∷ []) = []
block_words (b0 ∷ b1 ∷ b2 ∷ b3 ∷ block) =
    (b0 * 2 ^ 24 + b1 * 2 ^ 16 + b2 * 2 ^ 8 + b3) ∷ block_words block

-- The next word of the schedule, from the words so far, the newest first.
abbrev next_word : List ℕ → ℕ
next_word newest =
    let w15 = word_at 14 newest in
    let w2 = word_at 1 newest in
    let s0 = bit_xor (bit_xor (rotr w15 7) (rotr w15 18)) (w15 / 2 ^ 3) in
    let s1 = bit_xor (bit_xor (rotr w2 17) (rotr w2 19)) (w2 / 2 ^ 10) in
    to_u32 (word_at 15 newest + s0 + word_at 6 newest + s1)

unfoldable pub extend : ℕ → List ℕ → List ℕ
extend zero newest = newest
extend (suc count) newest = extend count (next_word newest ∷ newest)

unfoldable pub backwards : List ℕ → List ℕ → List ℕ
backwards [] done = done
backwards (x ∷ xs) done = backwards xs (x ∷ done)

unfoldable pub schedule : List ℕ → List ℕ
unfolding extend backwards block_words
schedule block = backwards (extend 48 (backwards (block_words block) [])) []

unfoldable pub round : ℕ → ℕ → ShaState → ShaState
round k w s =
    let s1 = bit_xor (bit_xor (rotr s.e 6) (rotr s.e 11)) (rotr s.e 25) in
    let ch = bit_xor (bit_and s.e s.f) (bit_and (2 ^ 32 - 1 - s.e) s.g) in
    let temp1 = to_u32 (s.h + s1 + ch + k + w) in
    let s0 = bit_xor (bit_xor (rotr s.a 2) (rotr s.a 13)) (rotr s.a 22) in
    let maj = bit_xor (bit_xor (bit_and s.a s.b) (bit_and s.a s.c)) (bit_and s.b s.c) in
    let temp2 = to_u32 (s0 + maj) in
    record {
      a = to_u32 (temp1 + temp2);
      b = s.a;
      c = s.b;
      d = s.c;
      e = to_u32 (s.d + temp1);
      f = s.e;
      g = s.f;
      h = s.g;
    }

unfoldable pub rounds : List ℕ → List ℕ → ShaState → ShaState
unfolding round
rounds [] words s = s
rounds (k ∷ constants) [] s = s
rounds (k ∷ constants) (w ∷ words) s = rounds constants words (round k w s)

unfoldable pub transform : List ℕ → ShaState → ShaState
unfolding rounds schedule
transform block s =
    let r : ShaState = rounds round_constants (schedule block) s in
    record {
      a = to_u32 (s.a + r.a);
      b = to_u32 (s.b + r.b);
      c = to_u32 (s.c + r.c);
      d = to_u32 (s.d + r.d);
      e = to_u32 (s.e + r.e);
      f = to_u32 (s.f + r.f);
      g = to_u32 (s.g + r.g);
      h = to_u32 (s.h + r.h);
    }

abbrev pub initial_state : ShaState
initial_state = record {
  a = 0x6a09e667;
  b = 0xbb67ae85;
  c = 0x3c6ef372;
  d = 0xa54ff53a;
  e = 0x510e527f;
  f = 0x9b05688c;
  g = 0x1f83d9ab;
  h = 0x5be0cd19;
}

-- A full block is transformed.
unfoldable pub flush : ShaState → List ℕ → ShaState × List ℕ
unfolding transform
flush state block = if length block == 64 then (transform block state, []) else (state, block)

-- The loop of update. Each round takes a byte at least, so the number of bytes is fuel enough.
unfoldable pub update_loop : ℕ → List ℕ → ShaState × List ℕ → ShaState × List ℕ
unfolding flush
update_loop zero bytes (state, block) = (state, block)
update_loop (suc fuel) [] (state, block) = (state, block)
update_loop (suc fuel) (b ∷ bytes) (state, block) =
    let count = min (length (b ∷ bytes)) (64 - length block) in
    update_loop fuel (drop count (b ∷ bytes)) (flush state (block ++ take count (b ∷ bytes)))

unfoldable pub zeros : ℕ → List ℕ
zeros zero = []
zeros (suc n) = 0 ∷ zeros n

-- The block with the end mark, when it has no room for the length.
unfoldable pub finish_block : ShaState × List ℕ → ShaState × List ℕ
unfolding transform zeros
finish_block (state, block) =
    if ltb 56 (length block)
    then (transform (block ++ zeros (64 - length block)) state, [])
    else (state, block)

unfoldable pub state_bytes : ShaState → List ℕ
unfolding write_be
state_bytes s = write_be 4 s.a (
    write_be 4 s.b (
      write_be 4 s.c
        (write_be 4 s.d (write_be 4 s.e (write_be 4 s.f (write_be 4 s.g (write_be 4 s.h [])))))))

unfoldable pub finish_digest : ℕ → ShaState × List ℕ → List ℕ
unfolding finish_block state_bytes zeros write_be transform
finish_digest total_bytes (state, block) =
    let last : ShaState × List ℕ = finish_block (state, block ++ 0x80 ∷ []) in
    state_bytes (
      transform ((last.1) ++ zeros (56 - length (last.1)) ++ write_be 8 (total_bytes * 8) [])
        (last.0))

-- digest_bytes
unfoldable pub sha256_bytes : List ℕ → List ℕ
unfolding update_loop finish_digest
sha256_bytes bytes =
    finish_digest (length bytes) (update_loop (length bytes) bytes (initial_state, []))
