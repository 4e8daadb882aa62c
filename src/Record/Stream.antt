-- ===== src/Record/Stream.antt =====
-- write_u32, read_u32, write_string and read_string of src/replay/record_store.cpp. A stream that is
-- read is the bytes that are left; a writer gives the bytes that it appends. `none` is an exception.
pub mod Laws
use gdb_cli_tools.Prelude.{
  ℕ, zero, suc, ◌+◌, ◌-◌, ◌*◌, ◌/◌, ◌%◌, ◌^◌, Option, none, some, [], ◌∷◌, ◌++◌, ltb, if◌then◌else◌,
  length, Bytes,
}

abbrev pub Reader {ℓ} : Type ℓ → Type ℓ
Reader A = Bytes → Option (A × Bytes)

module _ {ℓ κ} {A : Type ℓ} {B : Type κ} where
  infixl 5 ◌>>=◌
  abbrev pub ◌>>=◌ : Reader A → (A → Reader B) → Reader B
  ◌>>=◌ r k s = elim (r s) [ none ↦ none | some (a, rest) ↦ k a rest ]

abbrev pub pure {ℓ} : {A : Type ℓ} → A → Reader A
pure a s = some (a, s)

abbrev pub refuse {ℓ} : {A : Type ℓ} → Reader A
refuse s = none

-- in.read(data, n): too few bytes set the stream's failure, which the code turns into an exception.
unfoldable pub read_bytes : ℕ → Reader Bytes
read_bytes zero s = some ([], s)
read_bytes (suc n) [] = none
read_bytes (suc n) (c ∷ s) = elim (read_bytes n s) [ none ↦ none | some (t, r) ↦ some (c ∷ t, r) ]

abbrev pub u32_max : ℕ
u32_max = 2 ^ 32 - 1

-- The four bytes of a uint32_t, the lowest first.
unfoldable pub write_u32 : ℕ → Bytes
write_u32 value =
    value % 256 ∷ value / 2 ^ 8 % 256 ∷ value / 2 ^ 16 % 256 ∷ value / 2 ^ 24 % 256 ∷ []

-- The bytes do not overlap once they are shifted, so `|` is `+`.
unfoldable pub read_u32 : Reader ℕ
read_u32 (b₀ ∷ b₁ ∷ b₂ ∷ b₃ ∷ s) = some (b₀ + b₁ * 2 ^ 8 + b₂ * 2 ^ 16 + b₃ * 2 ^ 24, s)
read_u32 _ = none

unfoldable pub write_string : Bytes → Option Bytes
unfolding write_u32
write_string value =
    if ltb u32_max (length value) then none else some (write_u32 (length value) ++ value)

unfoldable pub read_string : Reader Bytes
unfolding read_u32 read_bytes
read_string = do size ← read_u32; read_bytes size
