-- ===== src/Evidence/Store/Ids.antt =====
-- The ids of the evidence in a store that is reached by any calls.
use gdb_cli_tools.Prelude.{
  ℕ, zero, suc, ◌+◌, ◌≤◌, ◌<◌, ◌≡◌, refl, sym, ap, ◌∙◌, subst, inl, inr, Bool, Option, none, some,
  List, [], ◌∷◌, ◌++◌, arith, ltb, Bool-cases, if_both, length, get_elem?, Bytes,
}
use gdb_cli_tools.Gdb.Decimal.{to_string, value_from, value_from-to_string}
use gdb_cli_tools.Record.Files.{Files}
use gdb_cli_tools.Mi.Escape.{joined_raw}
use gdb_cli_tools.Evidence.{Evidence}
use gdb_cli_tools.Evidence.Store.{
  EvidenceStore, Source, fill_zeros, evidence_id, keep, index_path, new_store, evidence_of,
  text_evidence_of, add, add_text,
}
use gdb_cli_tools.Evidence.Store.Laws.{Keeps, keep-Keeps}

-- The number behind the E of an id.
abbrev number_of : Bytes → ℕ
number_of [] = 0
number_of (c ∷ digits) = value_from 0 digits

value_from-fill_zeros :
    (fuel : ℕ) (digits : Bytes) → value_from 0 (fill_zeros fuel digits) ≡ value_from 0 digits
unfolding fill_zeros
value_from-fill_zeros zero digits = refl
value_from-fill_zeros (suc fuel) digits =
    if_both (λ t. value_from 0 t ≡ value_from 0 digits) (ltb (length digits) 4)
      (fill_zeros fuel (b'0' ∷ digits)) digits (λ e. value_from-fill_zeros fuel (b'0' ∷ digits))
      (λ e. refl)

evidence_id-number_of : (n : ℕ) → number_of (evidence_id n) ≡ n
unfolding evidence_id
evidence_id-number_of n = value_from-fill_zeros 4 (to_string n) ∙ value_from-to_string n

-- Ids of numbers above `low` that grow along the list and end at most at `high`.
abbrev pub Numbered : ℕ → List Evidence → ℕ → Type 0
Numbered low [] high = low ≤ high
Numbered low (ev ∷ evidence) high =
    (k : ℕ) × ((low < k) × ((ev.id ≡ evidence_id k) × Numbered k evidence high))

Numbered-mono :
    (low : ℕ) (evidence : List Evidence) (high higher : ℕ)
    → high ≤ higher
    → Numbered low evidence high
    → Numbered low evidence higher
Numbered-mono low [] high higher le h = omega arith
Numbered-mono low (ev ∷ evidence) high higher le (k, (lt, (e, h))) =
    (k, (lt, (e, Numbered-mono k evidence high higher le h)))

Numbered-append :
    (low : ℕ) (evidence : List Evidence) (high : ℕ) (ev : Evidence)
    → ev.id ≡ evidence_id (high + 1)
    → Numbered low evidence high
    → Numbered low (evidence ++ ev ∷ []) (high + 1)
Numbered-append low [] high ev e h = (high + 1, (omega arith, (e, omega arith)))
Numbered-append low (x ∷ evidence) high ev e (k, (lt, (d, h))) =
    (k, (lt, (d, Numbered-append k evidence high ev e h)))

abbrev number_at : Option Evidence → ℕ
number_at none = 0
number_at (some ev) = number_of ev.id

-- The number of the evidence at a place, above the bound that its list has.
Numbered-get_elem? :
    (low : ℕ) (evidence : List Evidence) (high i : ℕ) (ev : Evidence)
    → Numbered low evidence high
    → get_elem? evidence i ≡ some ev
    → low < number_of ev.id
Numbered-get_elem? low [] high i ev h e = cc
Numbered-get_elem? low (x ∷ evidence) high zero ev (k, (lt, (d, h))) e =
    omega (arith, ap number_of d, evidence_id-number_of k, ap number_at e)
Numbered-get_elem? low (x ∷ evidence) high (suc i) ev (k, (lt, (d, h))) e =
    omega (arith, Numbered-get_elem? k evidence high i ev h e)

Numbered-unique :
    (low : ℕ) (evidence : List Evidence) (high i j : ℕ) (x y : Evidence)
    → Numbered low evidence high
    → get_elem? evidence i ≡ some x
    → get_elem? evidence j ≡ some y
    → x.id ≡ y.id
    → i ≡ j
Numbered-unique low [] high i j x y h p q e = cc
Numbered-unique low (ev ∷ evidence) high zero zero x y h p q e = refl
Numbered-unique low (ev ∷ evidence) high zero (suc j) x y (k, (lt, (d, h))) p q e = absurd (
    omega (
      arith,
      ap number_of d,
      evidence_id-number_of k,
      ap number_at p,
      ap number_of e,
      Numbered-get_elem? k evidence high j y h q,
    ))
Numbered-unique low (ev ∷ evidence) high (suc i) zero x y (k, (lt, (d, h))) p q e = absurd (
    omega (
      arith,
      ap number_of d,
      evidence_id-number_of k,
      ap number_at q,
      ap number_of e,
      Numbered-get_elem? k evidence high i x h p,
    ))
Numbered-unique low (ev ∷ evidence) high (suc i) (suc j) x y (k, (lt, (d, h))) p q e =
    ap suc (Numbered-unique k evidence high i j x y h p q e)

module _ (join : Bytes → Bytes → Bytes) (normal : Bytes → Bytes) (opens : Bytes → Bool)
    (assets : Bytes) (sanitize_output : Bytes → Bytes) where
  -- The stores that the constructor and calls of add and add_text lead to, whichever of them throw.
  pub data IsReachable : EvidenceStore → Type 0 where
    started : (files : Files) → IsReachable (new_store join normal opens assets files).0
    added :
        {store : EvidenceStore} (source : Source) (raw_lines : List Bytes)
        (backtrace_summary : Bool) (included : List ℕ) (now : Bytes)
        → IsReachable store
        → IsReachable
            (add join normal opens assets sanitize_output source raw_lines backtrace_summary
              included now store).0
    text_added :
        {store : EvidenceStore} (source : Source) (text now : Bytes)
        → IsReachable store
        → IsReachable (add_text join normal opens assets sanitize_output source text now store).0

  abbrev IsNumbered : EvidenceStore → Type 0
  IsNumbered store = Numbered 0 store.evidence store.counter

  kept_IsNumbered :
      (ev : Evidence) (store after : EvidenceStore) (ok : Bool)
      → ev.id ≡ evidence_id (store.counter + 1)
      → IsNumbered store
      → Keeps join normal opens assets ev (record store { counter = store.counter + 1 }) (after, ok)
      → IsNumbered after
  kept_IsNumbered ev store after ok e h (c, inl ((same_list, shut), fails)) =
      subst (λ n. Numbered 0 after.evidence n) (sym c)
        (subst (λ l. Numbered 0 l (store.counter + 1)) (sym same_list)
          (Numbered-mono 0 store.evidence store.counter (store.counter + 1) (omega arith) h))
  kept_IsNumbered ev store after ok e h (c, inr ((longer, full), index)) =
      subst (λ n. Numbered 0 after.evidence n) (sym c)
        (subst (λ l. Numbered 0 l (store.counter + 1)) (sym longer)
          (Numbered-append 0 store.evidence store.counter ev e h))

  kept_lem :
      (ev : Evidence) (raw : Bytes) (store : EvidenceStore)
      → ev.id ≡ evidence_id (store.counter + 1)
      → IsNumbered store
      → IsNumbered
          (keep join normal opens assets ev raw (record store { counter = store.counter + 1 })).0
  kept_lem ev raw store e h =
      let counted = record store { counter = store.counter + 1 } in
      let r = keep join normal opens assets ev raw counted in
      kept_IsNumbered ev store r.0 r.1 e h (keep-Keeps join normal opens assets ev raw counted)

  added_id :
      (source : Source) (raw_lines : List Bytes) (b : Bool) (included : List ℕ) (now : Bytes)
      (counter : ℕ)
      → (evidence_of join normal opens assets sanitize_output source raw_lines b included now
          counter).id
        ≡ evidence_id counter
  unfolding evidence_of
  added_id source raw_lines b included now counter = refl

  text_added_id :
      (source : Source) (text now : Bytes) (counter : ℕ)
      → (text_evidence_of join normal opens assets sanitize_output source text now counter).id
        ≡ evidence_id counter
  unfolding text_evidence_of
  text_added_id source text now counter = refl

  reachable_IsNumbered : (store : EvidenceStore) → IsReachable store → IsNumbered store
  unfolding new_store add add_text
  reachable_IsNumbered _ (IsReachable.started files) =
      elim (Bool-cases (opens (index_path join normal opens assets))) [
        | inl o ↦ rw o (omega arith)
        | inr o ↦ rw o (omega arith)
      ]
  reachable_IsNumbered _ (IsReachable.added {store} source raw_lines b included now h) =
      kept_lem
        (evidence_of join normal opens assets sanitize_output source raw_lines b included now
          (store.counter + 1))
        (joined_raw raw_lines) store (added_id source raw_lines b included now (store.counter + 1))
        (reachable_IsNumbered store h)
  reachable_IsNumbered _ (IsReachable.text_added {store} source text now h) =
      kept_lem
        (text_evidence_of join normal opens assets sanitize_output source text now
          (store.counter + 1))
        text store (text_added_id source text now (store.counter + 1))
        (reachable_IsNumbered store h)

  -- In a store that is reached from the constructor by any calls of add and add_text, those that
  -- throw included, two pieces of evidence with the same id are the same one.
  pub ids_unique :
      (store : EvidenceStore) (i j : ℕ) (x y : Evidence)
      → IsReachable store
      → get_elem? store.evidence i ≡ some x
      → get_elem? store.evidence j ≡ some y
      → x.id ≡ y.id
      → i ≡ j
  ids_unique store i j x y h =
      Numbered-unique 0 store.evidence store.counter i j x y (reachable_IsNumbered store h)
