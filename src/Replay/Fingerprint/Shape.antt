-- ===== src/Replay/Fingerprint/Shape.antt =====
-- The shape of a problem's summary.
use gdb_cli_tools.Prelude.{
  ℕ, zero, suc, ◌≤◌, ◌≡◌, refl, inl, inr, Bool, true, false, not, ◌&&◌, [], ◌∷◌, arith, ltb, ◌==◌,
  if◌then◌else◌, Bool-cases, length, take, length-take, Bytes, is_space,
}
use gdb_cli_tools.Text.{trim}
use gdb_cli_tools.Replay.Fingerprint.{compact_loop, summarize_problem}

-- White space is single blanks: no other space, and no two in a row. `blank` says that one stands before.
abbrev pub is_compact : Bool → Bytes → Bool
is_compact blank [] = true
is_compact blank (c ∷ s) =
    if is_space c then c == 32 && (not blank && is_compact true s) else is_compact false s

compact_loop-is_compact :
    (blank : Bool) (s : Bytes) → is_compact blank (compact_loop blank s) ≡ true
unfolding compact_loop
compact_loop-is_compact blank [] = refl
compact_loop-is_compact true (c ∷ s) = elim (Bool-cases (is_space c)) [
  | inl e ↦ rw e (compact_loop-is_compact true s)
  | inr e ↦ rw (e, e) (compact_loop-is_compact false s)
]
compact_loop-is_compact false (c ∷ s) = elim (Bool-cases (is_space c)) [
  | inl e ↦ rw e (compact_loop-is_compact true s)
  | inr e ↦ rw (e, e) (compact_loop-is_compact false s)
]

take-is_compact :
    (n : ℕ) (blank : Bool) (s : Bytes)
    → is_compact blank s ≡ true
    → is_compact blank (take n s) ≡ true
take-is_compact zero blank s h = refl
take-is_compact (suc n) blank [] h = refl
take-is_compact (suc n) blank (c ∷ s) h =
    ground (arith, take-is_compact n true s, take-is_compact n false s)

-- The summary of a problem, which the fingerprint is made of, has at most 160 bytes, and its only
-- white space is single blanks, whatever the task file says.
pub summarize_problem-is_compact :
    (problem : Bytes)
    → (length (summarize_problem problem) ≤ 160)
      × (is_compact false (summarize_problem problem) ≡ true)
unfolding summarize_problem
summarize_problem-is_compact problem =
    let s = compact_loop false (trim problem) in
    elim (Bool-cases (ltb 160 (length s))) [
      | inl e ↦ rw e (
        omega (arith, length-take 160 s),
        take-is_compact 160 false s (compact_loop-is_compact false (trim problem)),
      )
      | inr e ↦ rw e (ground arith, compact_loop-is_compact false (trim problem))
    ]
