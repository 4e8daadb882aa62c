-- ===== src/Mi/Summary/Bounds.antt =====
-- The bound on the parts of a summary.
use gdb_cli_tools.Prelude.{
  ℕ, ◌-◌, ◌<◌, min, ◌≡◌, refl, ◌⊎◌, inl, inr, arith, leb, leb→le, leb→gt, Bool-cases, length, take,
  length-append, length-take, Bytes, codes,
}
use gdb_cli_tools.Mi.Summary.{limit_summary}

-- A limited text is no longer than the limit; a text within the limit is left as it is, and a longer
-- one becomes as long as the limit exactly.
pub length-limit_summary :
    (s : Bytes) (max_size : ℕ)
    → (length (limit_summary s max_size) ≡ min (length s) max_size)
      × ((limit_summary s max_size ≡ s) ⊎ (max_size < length s))
unfolding limit_summary
length-limit_summary s max_size = elim (Bool-cases (leb (length s) max_size)) [
  | inl e ↦ rw e (omega (arith, leb→le (length s) max_size e), inl refl)
  | inr e ↦ elim (Bool-cases (leb max_size 4)) [
    | inl f ↦
        rw (e, f)
          (
            omega (arith, length-take max_size s, leb→gt (length s) max_size e),
            inr (leb→gt (length s) max_size e),
          )
    | inr f ↦
        rw (e, f)
          (
            omega (
              arith,
              length-append (take (max_size - 4) s) (codes " ..."),
              length-take (max_size - 4) s,
              leb→gt (length s) max_size e,
              leb→gt max_size 4 f,
            ),
            inr (leb→gt (length s) max_size e),
          )
  ]
]
