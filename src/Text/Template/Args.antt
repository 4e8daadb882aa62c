-- ===== src/Text/Template/Args.antt =====
-- The arguments of a template, joined and split.
use gdb_cli_tools.Prelude.{
  ltb, ℕ, suc, false, ◌||◌, ◌==◌, arith, ◌≡◌, refl, sym, ap, ◌∙◌, inl, inr, Bool, true, not, ◌&&◌,
  List, [], ◌∷◌, ◌++◌, append_assoc, append-nil, Bool-cases, All, Bytes, codes,
}
use gdb_cli_tools.Text.{trim, trim_front}
use gdb_cli_tools.Text.Template.{
  Depth, top, is_top, cuts, scan, open_angle, close_angle, split_loop, split_template_args,
  join_template_args,
}

-- The depth behind a text.
abbrev pub runs : Depth → Bytes → Depth
runs d [] = d
runs d (c ∷ s) = runs (scan d c) s

-- No comma of the text stands at the top.
abbrev pub holds : Depth → Bytes → Bool
holds d [] = true
holds d (c ∷ s) = not (cuts d c) && holds (scan d c) s

-- A byte that is neither a bracket nor a comma.
abbrev pub is_plain : ℕ → Bool
is_plain c = not (c == b'<' || (c == b'>' || (c == b'(' || (c == b')' || c == b','))))

-- A text whose angle brackets and parentheses are closed in turn; `inside` says whether it stands in
-- one of them, where it may have commas.
pub data Nested : Bool → Bytes → Type 0 where
  nothing : {inside : Bool} → Nested inside []
  byte :
      {inside : Bool} (c : ℕ) {s : Bytes}
      → is_plain c ≡ true
      → Nested inside s
      → Nested inside (c ∷ s)
  comma : {s : Bytes} → Nested true s → Nested true (b',' ∷ s)
  angles :
      {inside : Bool} {t s : Bytes}
      → Nested true t
      → Nested inside s
      → Nested inside (b'<' ∷ (t ++ b'>' ∷ s))
  parens :
      {inside : Bool} {t s : Bytes}
      → Nested true t
      → Nested inside s
      → Nested inside (b'(' ∷ (t ++ b')' ∷ s))

-- An argument: a nested text without commas outside of its brackets, which neither begins nor ends
-- with white space.
pub record IsArg (arg : Bytes) : Type 0 where
  pub nested : Nested false arg
  pub trimmed : trim arg ≡ arg

abbrev at : ℕ → ℕ → Depth
at depth paren_depth = record { depth = depth; below = 0; paren_depth = paren_depth }

-- A text is passed over: the depth is as before, and no comma of it cuts.
record IsPassed (d : Depth) (s : Bytes) : Type 0 where
  same_depth : runs d s ≡ d
  uncut : holds d s ≡ true

runs-append : (d : Depth) (s t : Bytes) → runs d (s ++ t) ≡ runs (runs d s) t
runs-append d [] t = refl
runs-append d (c ∷ s) t = runs-append (scan d c) s t

holds-append :
    (d : Depth) (s t : Bytes)
    → holds d s ≡ true
    → holds (runs d s) t ≡ true
    → holds d (s ++ t) ≡ true
holds-append d [] t h k = k
holds-append d (c ∷ s) t h k = elim (Bool-cases (cuts d c)) [
  | inl e ↦ cc (rw e at h)
  | inr e ↦ rw e (holds-append (scan d c) s t (rw e at h) k)
]

scan-plain : (d : Depth) (c : ℕ) → is_plain c ≡ true → (scan d c ≡ d) × (cuts d c ≡ false)
unfolding scan
scan-plain d c h =
    let lt : (c == b'<') ≡ false = ground arith in
    let gt : (c == b'>') ≡ false = ground arith in
    let opening : (c == b'(') ≡ false = ground arith in
    let closing : (c == b')') ≡ false = ground arith in
    let not_comma : (c == b',') ≡ false = ground arith in
    (rw (lt, gt, opening, closing) refl, rw not_comma refl)

-- Brackets `l` and `r` around a text that is passed over behind the first of them.
around-IsPassed :
    (d inner : Depth) (l r : ℕ) (t s : Bytes)
    → scan d l ≡ inner
    → scan inner r ≡ d
    → cuts d l ≡ false
    → cuts inner r ≡ false
    → IsPassed inner t
    → IsPassed d s
    → IsPassed d (l ∷ (t ++ r ∷ s))
around-IsPassed d inner l r t s e f cl cr ht hs = record {
  same_depth =
      ap (λ x. runs x (t ++ r ∷ s)) e
      ∙ runs-append inner t (r ∷ s)
      ∙ ap (λ x. runs (scan x r) s) ht.same_depth
      ∙ ap (λ x. runs x s) f
      ∙ hs.same_depth;
  uncut = rw (cl, e) (holds-append inner t (r ∷ s) ht.uncut (rw (ht.same_depth, cr, f) hs.uncut));
}

-- Into a bracket, and out of it.
scan-brackets :
    (a p : ℕ)
    → (scan (at a p) b'<' ≡ at (suc a) p)
      × ((scan (at (suc a) p) b'>' ≡ at a p)
          × ((scan (at a p) b'(' ≡ at a (suc p)) × (scan (at a (suc p)) b')' ≡ at a p)))
unfolding scan open_angle close_angle
scan-brackets a p =
    let deep : (suc a == 0) ≡ false = ground arith in
    let full : ltb 0 (suc p) ≡ true = ground arith in
    (
      ap (λ n. at n p) (omega arith),
      (
        rw deep (ap (λ n. at n p) (omega arith)),
        (ap (at a) (omega arith), rw full (ap (at a) (omega arith))),
      ),
    )

inside-is_top : (a p : ℕ) → (is_top (at (suc a) p) ≡ false) × (is_top (at a (suc p)) ≡ false)
inside-is_top a p = (ground arith, ground arith)

Nested-IsPassed :
    {inside : Bool} {s : Bytes}
    → Nested inside s
    → (depth paren_depth : ℕ) → (inside ≡ true → is_top (at depth paren_depth) ≡ false)
    → IsPassed (at depth paren_depth) s
unfolding scan
Nested-IsPassed nothing a p h = record { same_depth = refl; uncut = refl }
Nested-IsPassed (byte c {s} k n) a p h =
    let (same_depth, uncut) = scan-plain (at a p) c k in
    let rest = Nested-IsPassed n a p h in
    record {
      same_depth = ap (λ x. runs x s) same_depth ∙ rest.same_depth;
      uncut = rw (uncut, same_depth) rest.uncut;
    }
Nested-IsPassed (comma {s} n) a p h =
    let rest = Nested-IsPassed n a p h in
    record { same_depth = rest.same_depth; uncut = rw (h refl) rest.uncut }
Nested-IsPassed (angles {t = t} {s = s} nt ns) a p h =
    around-IsPassed (at a p) (at (suc a) p) b'<' b'>' t s (scan-brackets a p).0
      (scan-brackets a p).1.0 refl refl (Nested-IsPassed nt (suc a) p (λ e. (inside-is_top a p).0))
      (Nested-IsPassed ns a p h)
Nested-IsPassed (parens {t = t} {s = s} nt ns) a p h =
    around-IsPassed (at a p) (at a (suc p)) b'(' b')' t s (scan-brackets a p).1.1.0
      (scan-brackets a p).1.1.1 refl refl
      (Nested-IsPassed nt a (suc p) (λ e. (inside-is_top a p).1)) (Nested-IsPassed ns a p h)

split_loop-append :
    (d : Depth) (current s rest : Bytes)
    → holds d s ≡ true
    → split_loop d current (s ++ rest) ≡ split_loop (runs d s) (current ++ s) rest
unfolding split_loop
split_loop-append d current [] rest h = ap (λ t. split_loop d t rest) (sym (append-nil current))
split_loop-append d current (c ∷ s) rest h = elim (Bool-cases (cuts d c)) [
  | inl e ↦ cc (rw e at h)
  | inr e ↦ rw e (
      split_loop-append (scan d c) (current ++ c ∷ []) s rest (rw e at h)
      ∙ ap (λ t. split_loop (runs (scan d c) s) t rest) (append_assoc current (c ∷ []) s))
]

split_loop-arg :
    (current arg rest : Bytes)
    → IsArg arg
    → split_loop top current (arg ++ rest) ≡ split_loop top (current ++ arg) rest
split_loop-arg current arg rest h =
    let passed = Nested-IsPassed h.nested 0 0 (λ e. absurd (cc)) in
    split_loop-append top current arg rest passed.uncut
    ∙ ap (λ d. split_loop d (current ++ arg) rest) passed.same_depth

trim-blank : (s : Bytes) → trim (32 ∷ s) ≡ trim s
unfolding trim trim_front
trim-blank s = refl

split_loop-join_template_args :
    (current arg : Bytes) (args : List Bytes)
    → trim (current ++ arg) ≡ arg
    → IsArg arg
    → All IsArg args
    → split_loop top current (join_template_args (arg ∷ args)) ≡ arg ∷ args
unfolding join_template_args
split_loop-join_template_args current arg [] t h k =
    ap (split_loop top current) (sym (append-nil arg))
    ∙ split_loop-arg current arg [] h
    ∙ unfold split_loop in ap (λ s. s ∷ []) t
split_loop-join_template_args current arg (next ∷ args) t h (k, ks) =
    split_loop-arg current arg (codes ", " ++ join_template_args (next ∷ args)) h
    ∙ comma_step (current ++ arg) (join_template_args (next ∷ args))
    ∙ ap (λ s. s ∷ split_loop top (32 ∷ []) (join_template_args (next ∷ args))) t
    ∙ ap (λ l. arg ∷ l)
        (split_loop-join_template_args (32 ∷ []) next args (trim-blank next ∙ k.trimmed) k ks)
  where
    comma_step :
        (s rest : Bytes)
        → split_loop top s (codes ", " ++ rest) ≡ trim s ∷ split_loop top (32 ∷ []) rest
    comma_step s rest = unfold split_loop scan in refl

-- Template arguments that are joined are split into the same arguments. Each argument is a text whose
-- angle brackets and parentheses are closed in turn, to any depth, whose commas stand inside of them,
-- and which neither begins nor ends with white space.
pub split_template_args-join_template_args :
    (arg : Bytes) (args : List Bytes)
    → All IsArg (arg ∷ args)
    → split_template_args (join_template_args (arg ∷ args)) ≡ arg ∷ args
unfolding split_template_args
split_template_args-join_template_args arg args (h, hs) =
    split_loop-join_template_args [] arg args h.trimmed h hs
