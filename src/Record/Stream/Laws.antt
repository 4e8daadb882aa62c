-- ===== src/Record/Stream/Laws.antt =====
-- A reader is exact on a text when it reads the text off any stream that begins with it, and refuses
-- every stream that is cut inside it. Exact readers compose.
use gdb_cli_tools.Prelude.{
  ℕ, zero, suc, ◌-◌, ◌^◌, ◌≤◌, ◌<◌, ◌≡◌, refl, ap, ◌∙◌, subst, inl, inr, Option, none, some, [],
  ◌∷◌, ◌++◌, append_assoc, arith, ltb, Bool-cases, length, take, length-append, Bytes,
}
use mathlib.Core.Option.{some-injective}
use native.Mathlib.Decide.{dec_lt}
use gdb_cli_tools.Record.Stream.{
  Reader, ◌>>=◌, pure, read_bytes, u32_max, write_u32, read_u32, write_string, read_string,
}

pub record Exact {ℓ} {A : Type ℓ} (r : Reader A) (text : Bytes) (a : A) : Type ℓ where
  pub reads : (rest : Bytes) → r (text ++ rest) ≡ some (a, rest)
  pub refuses : (n : ℕ) → n < length text → r (take n text) ≡ none

take-append_left : (n : ℕ) (s t : Bytes) → n < length s → take n (s ++ t) ≡ take n s
take-append_left zero s t h = refl
take-append_left (suc n) [] t h = absurd (omega arith)
take-append_left (suc n) (c ∷ s) t h = ap (λ l. c ∷ l) (take-append_left n s t (omega arith))

take-append_right :
    (n : ℕ) (s t : Bytes) → length s ≤ n → take n (s ++ t) ≡ s ++ take (n - length s) t
take-append_right n [] t h = ap (λ m. take m t) (omega arith)
take-append_right zero (c ∷ s) t h = absurd (omega arith)
take-append_right (suc n) (c ∷ s) t h =
    ap (λ l. c ∷ l) (take-append_right n s t (omega arith) ∙ ap (λ m. s ++ take m t) (omega arith))

module _ {ℓ κ} {A : Type ℓ} {B : Type κ} (r : Reader A) (k : A → Reader B) where
  bind_some : (s : Bytes) {a : A} {rest : Bytes} → r s ≡ some (a, rest) → (r >>= k) s ≡ k a rest
  bind_some s e = ap {B = Option (B × Bytes)} (λ o. elim o [ none ↦ none | some (a, t) ↦ k a t ]) e

  bind_none : (s : Bytes) → r s ≡ none → (r >>= k) s ≡ none
  bind_none s e = ap {B = Option (B × Bytes)} (λ o. elim o [ none ↦ none | some (a, t) ↦ k a t ]) e

  pub Exact-bind :
      (s t : Bytes) {a : A} {b : B} → Exact r s a → Exact (k a) t b → Exact (r >>= k) (s ++ t) b
  Exact-bind s t {a} {b} x y = record { reads = whole; refuses = cut }
    where
      whole : (rest : Bytes) → (r >>= k) ((s ++ t) ++ rest) ≡ some (b, rest)
      whole rest =
          ap (r >>= k) (append_assoc s t rest) ∙ bind_some _ (x.reads (t ++ rest)) ∙ y.reads rest

      cut : (n : ℕ) → n < length (s ++ t) → (r >>= k) (take n (s ++ t)) ≡ none
      cut n h = elim (dec_lt n (length s)) [
        | yes p ↦ ap (r >>= k) (take-append_left n s t p) ∙ bind_none _ (x.refuses n p)
        | no p ↦
            ap (r >>= k) (take-append_right n s t (omega arith))
            ∙ bind_some _ (x.reads (take (n - length s) t))
            ∙ y.refuses (n - length s) (omega (arith, length-append s t))
      ]

pub Exact-pure {ℓ} : {A : Type ℓ} (a : A) → Exact (pure a) [] a
Exact-pure a = record { reads = λ rest. refl; refuses = λ n h. absurd (omega arith) }

read_bytes-cons :
    (c : ℕ) (s : Bytes)
    → Exact (read_bytes (length s)) s s
    → Exact (read_bytes (suc (length s))) (c ∷ s) (c ∷ s)
unfolding read_bytes
read_bytes-cons c s x = record { reads = λ rest. rw (x.reads rest, read_bytes); refuses = cut }
  where
    cut : (n : ℕ) → n < suc (length s) → read_bytes (suc (length s)) (take n (c ∷ s)) ≡ none
    cut zero h = refl
    cut (suc n) h = rw (x.refuses n (omega arith), read_bytes)

pub read_bytes-Exact : (s : Bytes) → Exact (read_bytes (length s)) s s
unfolding read_bytes
read_bytes-Exact [] = record { reads = λ rest. refl; refuses = λ n h. absurd (omega arith) }
read_bytes-Exact (c ∷ s) = read_bytes-cons c s (read_bytes-Exact s)

pub read_u32-Exact : (n : ℕ) → n < 2 ^ 32 → Exact read_u32 (write_u32 n) n
unfolding read_u32 write_u32
read_u32-Exact n h = record {
  reads = λ rest. ap (λ m. some (m, rest)) (omega arith);
  refuses = cut;
}
  where
    cut : (m : ℕ) → m < 4 → read_u32 (take m (write_u32 n)) ≡ none
    cut zero lt = refl
    cut (suc zero) lt = refl
    cut (suc (suc zero)) lt = refl
    cut (suc (suc (suc zero))) lt = refl
    cut (suc (suc (suc (suc m)))) lt = absurd (omega arith)

-- What write_string writes of a text, read_string reads back; and it writes every text below 4 GiB.
pub read_string-Exact : (s : Bytes) {t : Bytes} → write_string s ≡ some t → Exact read_string t s
unfolding write_string read_string
read_string-Exact s {t} e = elim (Bool-cases (ltb u32_max (length s))) [
  | inl h ↦ absurd (ground arith)
  | inr h ↦
      subst (λ u. Exact (read_u32 >>= read_bytes) u s) (cc (some-injective _ _ (rw h at e)))
        (Exact-bind read_u32 read_bytes (write_u32 (length s)) s
          (read_u32-Exact (length s) (ground arith)) (read_bytes-Exact s))
]
