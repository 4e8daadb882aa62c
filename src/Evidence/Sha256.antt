-- ===== src/Evidence/Sha256.antt =====
-- sha256_hex of src/evidence/evidence_store.cpp. A uint32_t is a number below 2 ^ 32; a sum of
-- uint32_t is taken modulo 2 ^ 32 once, at its end.
pub mod Laws
use Prim.Native.Nat.{bit_and, bit_or, bit_xor}
use gdb_cli_tools.Prelude.{
  ℕ, zero, suc, ◌+◌, ◌-◌, ◌*◌, ◌/◌, ◌%◌, ◌^◌, List, [], ◌∷◌, ◌++◌, ◌==◌, if◌then◌else◌, length,
  is_empty, take, drop, Bytes,
}
use gdb_cli_tools.Replay.Fingerprint.{hex}

unfoldable pub rotr : ℕ → ℕ → ℕ
rotr value count = bit_or (value / 2 ^ count) ((value * 2 ^ (32 - count)) % 2 ^ 32)

abbrev pub not32 : ℕ → ℕ
not32 value = 2 ^ 32 - 1 - value

abbrev pub round_constants : List ℕ
round_constants =
    0x428a2f98 ∷ 0x71374491 ∷ 0xb5c0fbcf ∷ 0xe9b5dba5 ∷ 0x3956c25b ∷ 0x59f111f1 ∷ 0x923f82a4
    ∷ 0xab1c5ed5 ∷ 0xd807aa98 ∷ 0x12835b01 ∷ 0x243185be ∷ 0x550c7dc3 ∷ 0x72be5d74 ∷ 0x80deb1fe
    ∷ 0x9bdc06a7 ∷ 0xc19bf174 ∷ 0xe49b69c1 ∷ 0xefbe4786 ∷ 0x0fc19dc6 ∷ 0x240ca1cc ∷ 0x2de92c6f
    ∷ 0x4a7484aa ∷ 0x5cb0a9dc ∷ 0x76f988da ∷ 0x983e5152 ∷ 0xa831c66d ∷ 0xb00327c8 ∷ 0xbf597fc7
    ∷ 0xc6e00bf3 ∷ 0xd5a79147 ∷ 0x06ca6351 ∷ 0x14292967 ∷ 0x27b70a85 ∷ 0x2e1b2138 ∷ 0x4d2c6dfc
    ∷ 0x53380d13 ∷ 0x650a7354 ∷ 0x766a0abb ∷ 0x81c2c92e ∷ 0x92722c85 ∷ 0xa2bfe8a1 ∷ 0xa81a664b
    ∷ 0xc24b8b70 ∷ 0xc76c51a3 ∷ 0xd192e819 ∷ 0xd6990624 ∷ 0xf40e3585 ∷ 0x106aa070 ∷ 0x19a4c116
    ∷ 0x1e376c08 ∷ 0x2748774c ∷ 0x34b0bcb5 ∷ 0x391c0cb3 ∷ 0x4ed8aa4a ∷ 0x5b9cca4f ∷ 0x682e6ff3
    ∷ 0x748f82ee ∷ 0x78a5636f ∷ 0x84c87814 ∷ 0x8cc70208 ∷ 0x90befffa ∷ 0xa4506ceb ∷ 0xbef9a3f7
    ∷ 0xc67178f2 ∷ []

-- The working variables a to h.
pub record Hash : Type 0 where
  pub a : ℕ
  pub b : ℕ
  pub c : ℕ
  pub d : ℕ
  pub e : ℕ
  pub f : ℕ
  pub g : ℕ
  pub hh : ℕ

abbrev pub initial_hash : Hash
initial_hash = record {
  a = 0x6a09e667;
  b = 0xbb67ae85;
  c = 0x3c6ef372;
  d = 0xa54ff53a;
  e = 0x510e527f;
  f = 0x9b05688c;
  g = 0x1f83d9ab;
  hh = 0x5be0cd19;
}

-- while ((data.size() % 64) != 56) data.push_back('\0'): the zero bytes for a given size.
unfoldable pub zeros : ℕ → ℕ → Bytes
zeros zero size = []
zeros (suc fuel) size = if size % 64 == 56 then [] else 0 ∷ zeros fuel (size + 1)

-- The last `n` bytes of a number, the highest first.
unfoldable pub big_endian : ℕ → ℕ → Bytes
big_endian zero value = []
big_endian (suc n) value = (value / 2 ^ (n * 8)) % 256 ∷ big_endian n value

unfoldable pub padded : Bytes → Bytes
unfolding zeros big_endian
padded input =
    input ++ 0x80 ∷ (zeros 64 (length input + 1) ++ big_endian 8 (length input * 8 % 2 ^ 64))

-- The words of a chunk.
unfoldable pub words_of : Bytes → List ℕ
words_of (p ∷ q ∷ r ∷ s ∷ rest) =
    bit_or (bit_or (bit_or (p * 2 ^ 24) (q * 2 ^ 16)) (r * 2 ^ 8)) s ∷ words_of rest
words_of _ = []

-- w[i - k] for the words before w[i], the latest first.
unfoldable pub back : ℕ → List ℕ → ℕ
back k [] = 0
back zero (w ∷ ws) = 0
back (suc zero) (w ∷ ws) = w
back (suc (suc k)) (w ∷ ws) = back (suc k) ws

unfoldable pub next_word : List ℕ → ℕ
unfolding rotr back
next_word ws =
    let s0 = bit_xor (bit_xor (rotr (back 15 ws) 7) (rotr (back 15 ws) 18)) (back 15 ws / 2 ^ 3) in
    let s1 = bit_xor (bit_xor (rotr (back 2 ws) 17) (rotr (back 2 ws) 19)) (back 2 ws / 2 ^ 10) in
    (back 16 ws + s0 + back 7 ws + s1) % 2 ^ 32

unfoldable pub extend : ℕ → List ℕ → List ℕ
unfolding next_word
extend zero ws = ws
extend (suc n) ws = extend n (next_word ws ∷ ws)

unfoldable pub reverse_onto : List ℕ → List ℕ → List ℕ
reverse_onto [] out = out
reverse_onto (w ∷ ws) out = reverse_onto ws (w ∷ out)

unfoldable pub schedule : Bytes → List ℕ
unfolding words_of extend reverse_onto
schedule chunk = reverse_onto (extend 48 (reverse_onto (words_of chunk) [])) []

unfoldable pub round : ℕ → ℕ → Hash → Hash
unfolding rotr
round k w v =
    let s1 = bit_xor (bit_xor (rotr v.e 6) (rotr v.e 11)) (rotr v.e 25) in
    let ch = bit_xor (bit_and v.e v.f) (bit_and (not32 v.e) v.g) in
    let temp1 = (v.hh + s1 + ch + k + w) % 2 ^ 32 in
    let s0 = bit_xor (bit_xor (rotr v.a 2) (rotr v.a 13)) (rotr v.a 22) in
    let maj = bit_xor (bit_xor (bit_and v.a v.b) (bit_and v.a v.c)) (bit_and v.b v.c) in
    let temp2 = (s0 + maj) % 2 ^ 32 in
    record {
      a = (temp1 + temp2) % 2 ^ 32;
      b = v.a;
      c = v.b;
      d = v.c;
      e = (v.d + temp1) % 2 ^ 32;
      f = v.e;
      g = v.f;
      hh = v.g;
    }

unfoldable pub rounds : List ℕ → List ℕ → Hash → Hash
unfolding round
rounds (k ∷ ks) (w ∷ ws) v = rounds ks ws (round k w v)
rounds _ _ v = v

-- h[i] += the working variable.
unfoldable pub add_hash : Hash → Hash → Hash
add_hash h v = record {
  a = (h.a + v.a) % 2 ^ 32;
  b = (h.b + v.b) % 2 ^ 32;
  c = (h.c + v.c) % 2 ^ 32;
  d = (h.d + v.d) % 2 ^ 32;
  e = (h.e + v.e) % 2 ^ 32;
  f = (h.f + v.f) % 2 ^ 32;
  g = (h.g + v.g) % 2 ^ 32;
  hh = (h.hh + v.hh) % 2 ^ 32;
}

unfoldable pub compress : Bytes → Hash → Hash
unfolding schedule rounds add_hash
compress chunk h = add_hash h (rounds round_constants (schedule chunk) h)

-- The loop over the chunks; each unit of fuel is a chunk.
unfoldable pub compress_all : ℕ → Bytes → Hash → Hash
unfolding compress
compress_all zero data_left h = h
compress_all (suc fuel) data_left h =
    if is_empty data_left
    then h
    else compress_all fuel (drop 64 data_left) (compress (take 64 data_left) h)

unfoldable pub hash_text : Hash → Bytes
unfolding hex
hash_text h =
    hex 8 h.a
    ++ (hex 8 h.b
        ++ (hex 8 h.c ++ (hex 8 h.d ++ (hex 8 h.e ++ (hex 8 h.f ++ (hex 8 h.g ++ hex 8 h.hh))))))

unfoldable pub sha256_hex : Bytes → Bytes
unfolding padded compress_all hash_text
sha256_hex input = hash_text (compress_all (length (padded input) / 64) (padded input) initial_hash)
