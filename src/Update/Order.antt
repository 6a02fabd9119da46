-- ===== src/Update/Order.antt =====
-- apps/shell/src/main/updater.ts: `isNewerVersion` is a strict order.
use deepseek_harness.Common.{
  Text, text_eq, text_beq_iff, ℕ, Bool, true, false, Option, none, some, List, [], ◌∷◌, ◌≡◌, refl,
  nat_eq, arith, not_true,
}
use deepseek_harness.Update.Version.{
  Version, newer_numbers, text_lt, newer_part, newer_parts, newer_prerelease, newer_version, both,
  is_newer_version, parse, text_of,
}

-- The outcome of a comparison over two steps of which neither goes down.
abbrev join : Option Bool → Option Bool → Option Bool
join none b = b
join (some r) b = some r

abbrev IsUp : Option Bool → Type 0
IsUp none = Unit
IsUp (some r) = r ≡ true

newer_numbers_join :
    (xs ys zs : List ℕ)
    → IsUp (newer_numbers xs ys)
    → IsUp (newer_numbers ys zs)
    → newer_numbers xs zs ≡ join (newer_numbers xs ys) (newer_numbers ys zs)
unfolding newer_numbers
newer_numbers_join [] [] [] h k = refl
newer_numbers_join [] [] (z ∷ zs) h k = ground (arith, newer_numbers_join [] [] zs h)
newer_numbers_join [] (y ∷ ys) [] h k = ground (arith, newer_numbers_join [] ys [])
newer_numbers_join [] (y ∷ ys) (z ∷ zs) h k = ground (arith, newer_numbers_join [] ys zs)
newer_numbers_join (x ∷ xs) [] [] h k = ground (arith, newer_numbers_join xs [] [])
newer_numbers_join (x ∷ xs) [] (z ∷ zs) h k = ground (arith, newer_numbers_join xs [] zs)
newer_numbers_join (x ∷ xs) (y ∷ ys) [] h k = ground (arith, newer_numbers_join xs ys [])
newer_numbers_join (x ∷ xs) (y ∷ ys) (z ∷ zs) h k = ground (arith, newer_numbers_join xs ys zs)

text_lt_irrefl : (xs : Text) → text_lt xs xs ≡ false
unfolding text_lt
text_lt_irrefl [] = refl
text_lt_irrefl (x ∷ xs) = ground (arith, text_lt_irrefl xs)

text_lt_trans :
    (xs ys zs : Text) → text_lt xs ys ≡ true → text_lt ys zs ≡ true → text_lt xs zs ≡ true
unfolding text_lt
text_lt_trans [] [] zs h k = absurd (cc h)
text_lt_trans (x ∷ xs) [] zs h k = absurd (cc h)
text_lt_trans [] (y ∷ ys) [] h k = absurd (cc k)
text_lt_trans (x ∷ xs) (y ∷ ys) [] h k = absurd (cc k)
text_lt_trans [] (y ∷ ys) (z ∷ zs) h k = refl
text_lt_trans (x ∷ xs) (y ∷ ys) (z ∷ zs) h k = ground (arith, text_lt_trans xs ys zs)

newer_part_irrefl : (x : Text) → newer_part x x ≡ false
unfolding newer_part
newer_part_irrefl x = ground (arith, text_lt_irrefl x)

newer_part_trans :
    (x y z : Text) → newer_part x y ≡ true → newer_part y z ≡ true → newer_part x z ≡ true
unfolding newer_part
newer_part_trans x y z h k = ground (arith, text_lt_trans x y z)

newer_parts_irrefl : (xs : List Text) → newer_parts xs xs ≡ false
unfolding newer_parts
newer_parts_irrefl [] = refl
newer_parts_irrefl (x ∷ xs) = rw ((text_beq_iff x x).1 refl) (newer_parts_irrefl xs)

newer_parts_trans :
    (xs ys zs : List Text)
    → newer_parts xs ys ≡ true
    → newer_parts ys zs ≡ true
    → newer_parts xs zs ≡ true
unfolding newer_parts
newer_parts_trans [] [] zs h k = absurd (cc h)
newer_parts_trans (x ∷ xs) [] zs h k = absurd (cc h)
newer_parts_trans [] (y ∷ ys) [] h k = absurd (cc k)
newer_parts_trans (x ∷ xs) (y ∷ ys) [] h k = absurd (cc k)
newer_parts_trans [] (y ∷ ys) (z ∷ zs) h k = refl
newer_parts_trans (x ∷ xs) (y ∷ ys) (z ∷ zs) h k = ground (
  arith,
  newer_parts_trans xs ys zs,
  newer_part_trans x y z,
  newer_part_irrefl x,
  text_beq_iff x y,
  text_beq_iff y z,
  text_beq_iff x z,
)

newer_prerelease_irrefl : (p : Option (List Text)) → newer_prerelease p p ≡ false
unfolding newer_prerelease
newer_prerelease_irrefl none = refl
newer_prerelease_irrefl (some xs) = newer_parts_irrefl xs

newer_prerelease_trans :
    (p q r : Option (List Text))
    → newer_prerelease p q ≡ true
    → newer_prerelease q r ≡ true
    → newer_prerelease p r ≡ true
unfolding newer_prerelease
newer_prerelease_trans none none r h k = absurd (cc h)
newer_prerelease_trans none (some ys) r h k = absurd (cc h)
newer_prerelease_trans (some xs) none none h k = absurd (cc k)
newer_prerelease_trans (some xs) none (some zs) h k = absurd (cc k)
newer_prerelease_trans (some xs) (some ys) none h k = refl
newer_prerelease_trans (some xs) (some ys) (some zs) h k = newer_parts_trans xs ys zs h k

newer_numbers_irrefl : (xs : List ℕ) → newer_numbers xs xs ≡ none
unfolding newer_numbers
newer_numbers_irrefl [] = refl
newer_numbers_irrefl (x ∷ xs) = ground (arith, newer_numbers_irrefl xs)

newer_version_irrefl : (v : Version) → newer_version v v ≡ false
unfolding newer_version
newer_version_irrefl v =
    rw (newer_numbers_irrefl v.numbers, newer_version) (newer_prerelease_irrefl v.prerelease)

newer_version_trans :
    (u v w : Version)
    → newer_version u v ≡ true
    → newer_version v w ≡ true
    → newer_version u w ≡ true
unfolding newer_version
newer_version_trans u v w h k = ground (
  arith,
  newer_numbers_join u.numbers v.numbers w.numbers,
  newer_prerelease_trans u.prerelease v.prerelease w.prerelease,
)

both_irrefl : (v : Option Version) → both v v ≡ false
unfolding both
both_irrefl none = refl
both_irrefl (some v) = newer_version_irrefl v

both_trans : (u v w : Option Version) → both u v ≡ true → both v w ≡ true → both u w ≡ true
unfolding both
both_trans none v w h k = absurd (cc h)
both_trans (some u) none w h k = absurd (cc h)
both_trans (some u) (some v) none h k = absurd (cc k)
both_trans (some u) (some v) (some w) h k = newer_version_trans u v w h k

-- `isNewerVersion` is transitive, and of two versions each is not newer than the other: an updater
-- that only goes to newer versions comes to none a second time.
pub is_newer_version_trans :
    (u v w : Option Text)
    → is_newer_version u v ≡ true
    → is_newer_version v w ≡ true
    → (is_newer_version u w ≡ true)
      × (is_newer_version v u ≡ false)
      × (is_newer_version u u ≡ false)
unfolding is_newer_version
is_newer_version_trans u v w h k =
    let a = parse (text_of u) in
    let b = parse (text_of v) in
    (
      both_trans a b (parse (text_of w)) h k,
      not_true (both b a) (λ back. cc (both_trans a b a h back, both_irrefl a)),
      both_irrefl a,
    )
