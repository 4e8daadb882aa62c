-- ===== src/Evidence/Text/Bounds.antt =====
-- The limit on a summary in src/evidence/evidence_store.cpp.
use gdb_cli_tools.Prelude.{
  ℕ, zero, suc, ◌+◌, ◌≤◌, ◌<◌, ◌≡◌, refl, ap, inl, inr, Bool, true, false, [], ◌∷◌, ◌++◌, arith,
  leb, leb→le, leb→gt, Bool-cases, length, take, length-append, length-take, Bytes,
}
use gdb_cli_tools.Evidence.Text.{max_summary_bytes, truncation_mark, truncate_summary}

-- What is kept of a summary: the whole of one within the limit, the first bytes and the mark of a
-- longer one.
abbrev pub IsCut : Bytes → Bytes × Bool → Type 0
IsCut summary (kept, true) =
    (max_summary_bytes < length summary)
    × (take max_summary_bytes kept ≡ take max_summary_bytes summary)
IsCut summary (kept, false) = (length summary ≤ max_summary_bytes) × (kept ≡ summary)

cut_again : (n : ℕ) (s t : Bytes) → n ≤ length s → take n (take n s ++ t) ≡ take n s
cut_again zero s t h = refl
cut_again (suc n) [] t h = absurd (omega arith)
cut_again (suc n) (c ∷ s) t h = ap (λ l. c ∷ l) (cut_again n s t (omega arith))

-- A summary is kept in at most 65536 bytes and the 50 bytes of the mark; it counts as truncated
-- where it is longer than 65536 bytes, and then its first 65536 bytes are kept; else it is kept as
-- it is.
pub truncate_summary-IsCut :
    (summary : Bytes)
    → (length ((truncate_summary summary).0) ≤ 65536 + length truncation_mark)
      × IsCut summary (truncate_summary summary)
unfolding truncate_summary
truncate_summary-IsCut summary = elim (Bool-cases (leb (length summary) max_summary_bytes)) [
  | inl e ↦
      rw e (omega (arith, leb→le (length summary) 65536 e), (leb→le (length summary) 65536 e, refl))
  | inr e ↦ rw e (
    omega (arith, length-append (take 65536 summary) truncation_mark, length-take 65536 summary),
    (
      leb→gt (length summary) 65536 e,
      cut_again 65536 summary truncation_mark (omega (arith, leb→gt (length summary) 65536 e)),
    ),
  )
]
