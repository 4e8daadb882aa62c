-- ===== src/Evidence/Sha256/Laws.antt =====
-- The padding, the loop over the chunks and the shape of the digest of sha256_hex.
use gdb_cli_tools.Prelude.{
  List, ℕ, zero, suc, ◌+◌, ◌-◌, ◌*◌, ◌/◌, ◌%◌, ◌^◌, ◌<◌, ◌≡◌, refl, ap, inl, inr, Bool, true, ◌&&◌,
  ◌||◌, [], ◌∷◌, ◌++◌, arith, leb, Bool-cases, length, length-append, every, Bytes, is_digit,
}
use gdb_cli_tools.Replay.Fingerprint.{hex, hex_byte}
use gdb_cli_tools.Evidence.Sha256.{
  Hash, initial_hash, zeros, big_endian, padded, compress, compress_all, hash_text, sha256_hex,
}

-- The zeros bring the size to 56 modulo 64, when there is fuel for them.
zeros_lem :
    (fuel size : ℕ) → (120 - size % 64) % 64 < fuel → (size + length (zeros fuel size)) % 64 ≡ 56
unfolding zeros
zeros_lem zero size h = absurd (omega arith)
zeros_lem (suc fuel) size h = ground (arith, zeros_lem fuel (size + 1))

pad_lem :
    (s z e : Bytes)
    → (length s + 1 + length z) % 64 ≡ 56
    → length e ≡ 8
    → length (s ++ 0x80 ∷ (z ++ e)) % 64 ≡ 0
pad_lem s z e h k = omega (arith, length-append s (0x80 ∷ (z ++ e)), length-append z e)

length-big_endian : (n value : ℕ) → length (big_endian n value) ≡ n
unfolding big_endian
length-big_endian zero value = refl
length-big_endian (suc n) value = ap suc (length-big_endian n value)

-- The loop that appends zero bytes ends, and the padded text is a whole number of chunks.
pub length-padded : (input : Bytes) → length (padded input) % 64 ≡ 0
unfolding padded
length-padded input =
    pad_lem input (zeros 64 (length input + 1)) (big_endian 8 (length input * 8 % 2 ^ 64))
      (zeros_lem 64 (length input + 1) (omega arith))
      (length-big_endian 8 (length input * 8 % 2 ^ 64))

abbrev pub zero_bytes : ℕ → Bytes
zero_bytes zero = []
zero_bytes (suc n) = 0 ∷ zero_bytes n

abbrev pub IsBlock : Bytes → Type 0
IsBlock block = length block ≡ 64

-- The compression of blocks, one after the other.
abbrev pub compress_blocks : List Bytes → Hash → Hash
compress_blocks [] h = h
compress_blocks (block ∷ blocks) h = compress_blocks blocks (compress block h)

length-hex : (n value : ℕ) → length (hex n value) ≡ n
unfolding hex
length-hex zero value = refl
length-hex (suc n) value = omega (
  arith,
  length-append (hex n (value / 16)) (hex_byte (value % 16) ∷ []),
  length-hex n (value / 16),
)

abbrev pub is_hex : ℕ → Bool
is_hex c = is_digit c || (leb 97 c && leb c 102)

hex_byte-is_hex : (d : ℕ) → d < 16 → is_hex (hex_byte d) ≡ true
unfolding hex_byte
hex_byte-is_hex d h = ground arith

every-append :
    (p : ℕ → Bool) (s t : Bytes) → every p s ≡ true → every p t ≡ true → every p (s ++ t) ≡ true
every-append p [] t h k = k
every-append p (c ∷ s) t h k = elim (Bool-cases (p c)) [
  | inl e ↦ rw e (every-append p s t (rw e at h) k)
  | inr e ↦ cc (rw e at h)
]

hex-is_hex : (n value : ℕ) → every is_hex (hex n value) ≡ true
unfolding hex
hex-is_hex zero value = refl
hex-is_hex (suc n) value =
    every-append is_hex (hex n (value / 16)) (hex_byte (value % 16) ∷ [])
      (hex-is_hex n (value / 16)) (rw (hex_byte-is_hex (value % 16) (omega arith)))

record IsDigits (n : ℕ) (t : Bytes) : Type 0 where
  size : length t ≡ n
  digits : every is_hex t ≡ true

-- A word in front of the words that follow it.
hex-IsDigits : (n value : ℕ) (t : Bytes) → IsDigits n t → IsDigits (8 + n) (hex 8 value ++ t)
hex-IsDigits n value t h = record {
  size = omega (arith, length-append (hex 8 value) t, length-hex 8 value, h.size);
  digits = every-append is_hex (hex 8 value) t (hex-is_hex 8 value) h.digits;
}

hash_text-IsDigits : (h : Hash) → IsDigits 64 (hash_text h)
unfolding hash_text
hash_text-IsDigits h = hex-IsDigits 56 h.a _ (
    hex-IsDigits 48 h.b _ (
      hex-IsDigits 40 h.c _ (
        hex-IsDigits 32 h.d _ (
          hex-IsDigits 24 h.e _ (
            hex-IsDigits 16 h.f _ (
              hex-IsDigits 8 h.g _
                (record { size = length-hex 8 h.hh; digits = hex-is_hex 8 h.hh })))))))

-- A digest is 64 hexadecimal digits, whatever the input is.
pub sha256_hex-is_hex :
    (input : Bytes) → (length (sha256_hex input) ≡ 64) × (every is_hex (sha256_hex input) ≡ true)
unfolding sha256_hex
sha256_hex-is_hex input =
    let h =
      hash_text-IsDigits (compress_all (length (padded input) / 64) (padded input) initial_hash) in
    (h.size, h.digits)
