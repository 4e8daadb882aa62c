-- ===== src/Json/Dump/Order.antt =====
-- The order of an object's members: putting them into an empty object one by one, in ascending
-- order of the keys, gives the object.
use gdb_cli_tools.Prelude.{◌≡◌, refl, ap, ◌∙◌, true, false, [], ◌∷◌, arith, Bytes, same}
use gdb_cli_tools.Json.Value.{Json, Members, no_members, member, less, emplace}

less_asym : (s t : Bytes) → less s t ≡ true → (same t s ≡ false) × (less t s ≡ false)
unfolding less
less_asym [] [] h = absurd (cc)
less_asym [] (d ∷ t) h = (refl, refl)
less_asym (c ∷ s) [] h = absurd (cc)
less_asym (c ∷ s) (d ∷ t) h = ground (arith, less_asym s t)

module _ {N : Type 0} where
  abbrev pub append : Members N → Members N → Members N
  append no_members n = n
  append (member k v m) n = member k v (append m n)

  -- Every key of the first is below the key.
  abbrev pub Below : Members N → Bytes → Type 0
  Below no_members k = Unit
  Below (member j w m) k = (less j k ≡ true) × Below m k

  -- Every key of the members is above the key.
  abbrev pub Above : Bytes → Members N → Type 0
  Above k no_members = Unit
  Above k (member j w m) = (less k j ≡ true) × Above k m

  abbrev pub Ascending : Members N → Type 0
  Ascending no_members = Unit
  Ascending (member k v m) = Above k m × Ascending m

  abbrev Before : Members N → Members N → Type 0
  Before m no_members = Unit
  Before m (member k v n) = Below m k × Before m n

  abbrev pub emplace_all : Members N → Members N → Members N
  emplace_all m no_members = m
  emplace_all m (member k v n) = emplace_all (emplace k v m) n

  emplace-Below :
      (k : Bytes) (v : Json N) (m : Members N)
      → Below m k
      → emplace k v m ≡ append m (member k v no_members)
  unfolding emplace
  emplace-Below k v no_members h = refl
  emplace-Below k v (member j w m) (h, hs) =
      let (p, q) = less_asym j k h in rw (p, q) (ap (member j w) (emplace-Below k v m hs))

  Below-append :
      (m : Members N) (k j : Bytes) (v : Json N)
      → Below m j
      → less k j ≡ true
      → Below (append m (member k v no_members)) j
  Below-append no_members k j v h e = (e, tt)
  Below-append (member i w m) k j v (h, hs) e = (h, Below-append m k j v hs e)

  Before-append :
      (m n : Members N) (k : Bytes) (v : Json N)
      → Before m n
      → Above k n
      → Before (append m (member k v no_members)) n
  Before-append m no_members k v h a = tt
  Before-append m (member j w n) k v (h, hs) (e, a) =
      (Below-append m k j v h e, Before-append m n k v hs a)

  append_member :
      (m n : Members N) (k : Bytes) (v : Json N)
      → append (append m (member k v no_members)) n ≡ append m (member k v n)
  append_member no_members n k v = refl
  append_member (member j w m) n k v = ap (member j w) (append_member m n k v)

  emplace_all-append : (m n : Members N) → Before m n → Ascending n → emplace_all m n ≡ append m n
  emplace_all-append m no_members h a = nil m
    where
      nil : (l : Members N) → l ≡ append l no_members
      nil no_members = refl
      nil (member k v l) = ap (member k v) (nil l)
  emplace_all-append m (member k v n) (h, hs) (above, a) = rw (emplace-Below k v m h) (
      emplace_all-append (append m (member k v no_members)) n (Before-append m n k v hs above) a
      ∙ append_member m n k v)

  Before-no_members : (n : Members N) → Before no_members n
  Before-no_members no_members = tt
  Before-no_members (member k v n) = (tt, Before-no_members n)

  pub emplace_all-Ascending : (m : Members N) → Ascending m → emplace_all no_members m ≡ m
  emplace_all-Ascending m a = emplace_all-append no_members m (Before-no_members m) a
