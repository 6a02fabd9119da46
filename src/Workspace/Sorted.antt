-- ===== src/Workspace/Sorted.antt =====
-- packages/workspace-bridge/src/bridge.ts: the sort by time, and what is taken of it.
use mathlib.Core.List.{Perm, perm_middle}
use mathlib.Core.List.Perm
use deepseek_harness.Common.{
  text_eq, ℕ, zero, suc, ◌≤◌, Bool, true, false, List, [], ◌∷◌, ◌≡◌, inl, inr, refl, arith, sym, ap,
  filter, take, leb, length, All, Bool-cases, nat_eq, not, ◌++◌, subst,
}
use deepseek_harness.Workspace.Folder.{ImportableChat, insert, sort_recent}

abbrev pub NotLater : ℕ → ImportableChat → Type 0
NotLater t c = c.updated_at ≤ t

-- Each is as late as those after it.
abbrev pub IsSorted : List ImportableChat → Type 0
IsSorted [] = Unit
IsSorted (c ∷ cs) = All (NotLater c.updated_at) cs × IsSorted cs

All-later : (s t : ℕ) (cs : List ImportableChat) → s ≤ t → All (NotLater s) cs → All (NotLater t) cs
All-later s t [] h a = tt
All-later s t (c ∷ cs) h a = (omega (arith, h, a.0), All-later s t cs h a.1)

leb_le : (m n : ℕ) → leb m n ≡ true → m ≤ n
leb_le m n h = ground arith

not_leb_le : (m n : ℕ) → leb m n ≡ false → n ≤ m
not_leb_le m n h = ground arith

insert-All {κ} :
    (P : ImportableChat → Type κ) (c : ImportableChat) (cs : List ImportableChat)
    → P c
    → All P cs
    → All P (insert c cs)
insert-All P c [] p a = (p, tt)
insert-All P c (d ∷ ds) p a = elim (Bool-cases (leb d.updated_at c.updated_at)) [
  | inl first ↦ rw first (p, a)
  | inr later ↦ rw later (a.0, insert-All P c ds p a.1)
]

insert-IsSorted :
    (c : ImportableChat) (cs : List ImportableChat) → IsSorted cs → IsSorted (insert c cs)
insert-IsSorted c [] s = (tt, tt)
insert-IsSorted c (d ∷ ds) s = elim (Bool-cases (leb d.updated_at c.updated_at)) [
  | inl first ↦
      let low = leb_le d.updated_at c.updated_at first in
      rw first ((low, All-later d.updated_at c.updated_at ds low s.0), s)
  | inr later ↦ rw later (
    insert-All (NotLater d.updated_at) c ds (not_leb_le d.updated_at c.updated_at later) s.0,
    insert-IsSorted c ds s.1,
  )
]

pub sort_recent-IsSorted : (cs : List ImportableChat) → IsSorted (sort_recent cs)
sort_recent-IsSorted [] = tt
sort_recent-IsSorted (c ∷ cs) = insert-IsSorted c (sort_recent cs) (sort_recent-IsSorted cs)

pub sort_recent-All {κ} :
    (P : ImportableChat → Type κ) (cs : List ImportableChat) → All P cs → All P (sort_recent cs)
sort_recent-All P [] a = tt
sort_recent-All P (c ∷ cs) a = insert-All P c (sort_recent cs) a.0 (sort_recent-All P cs a.1)

pub take-All {κ} :
    (P : ImportableChat → Type κ) (n : ℕ) (cs : List ImportableChat) → All P cs → All P (take n cs)
take-All P zero cs a = tt
take-All P (suc n) [] a = tt
take-All P (suc n) (c ∷ cs) a = (a.0, take-All P n cs a.1)

pub take-IsSorted : (n : ℕ) (cs : List ImportableChat) → IsSorted cs → IsSorted (take n cs)
take-IsSorted zero cs s = tt
take-IsSorted (suc n) [] s = tt
take-IsSorted (suc n) (c ∷ cs) s =
    (take-All (NotLater c.updated_at) n cs s.0, take-IsSorted n cs s.1)

insert-Perm : (c : ImportableChat) (cs : List ImportableChat) → Perm (insert c cs) (c ∷ cs)
insert-Perm c [] = Perm.refl (c ∷ [])
insert-Perm c (d ∷ ds) = elim (Bool-cases (leb d.updated_at c.updated_at)) [
  | inl first ↦ rw first (Perm.refl (c ∷ d ∷ ds))
  | inr later ↦ rw later (Perm.trans (Perm.cons d (insert-Perm c ds)) (Perm.swap c d ds))
]

pub sort_recent-Perm : (cs : List ImportableChat) → Perm (sort_recent cs) cs
sort_recent-Perm [] = Perm.refl []
sort_recent-Perm (c ∷ cs) =
    Perm.trans (insert-Perm c (sort_recent cs)) (Perm.cons c (sort_recent-Perm cs))

-- What a filter takes and what it leaves are together what there was.
pub filter-Perm :
    (p : ImportableChat → Bool) (cs : List ImportableChat)
    → Perm (filter p cs ++ filter (λ c. not (p c)) cs) cs
filter-Perm p [] = Perm.refl []
filter-Perm p (c ∷ cs) = elim (Bool-cases (p c)) [
  | inl kept ↦ rw kept (Perm.cons c (filter-Perm p cs))
  | inr gone ↦ rw gone (
      Perm.trans (perm_middle (filter p cs) (filter (λ d. not (p d)) cs))
        (Perm.cons c (filter-Perm p cs)))
]

-- A chat that a full list has no place for: it is not later than any of the list.
abbrev pub NoPlace : ℕ → List ImportableChat → ImportableChat → Type 0
NoPlace limit found d = (length found ≡ limit) × All (λ c. d.updated_at ≤ c.updated_at) found

NoPlace-cons :
    (n : ℕ) (c : ImportableChat) (found ds : List ImportableChat)
    → All (NotLater c.updated_at) ds
    → All (NoPlace n found) ds
    → All (NoPlace (suc n) (c ∷ found)) ds
NoPlace-cons n c found [] s a = tt
NoPlace-cons n c found (d ∷ ds) s a =
    ((omega (arith, a.0.0), (s.0, a.0.1)), NoPlace-cons n c found ds s.1 a.1)

append-All {κ} :
    (P : ImportableChat → Type κ) (xs ys : List ImportableChat)
    → All P (xs ++ ys)
    → All P xs × All P ys
append-All P [] ys a = (tt, a)
append-All P (x ∷ xs) ys a = let rest = append-All P xs ys a.1 in ((a.0, rest.0), rest.1)

none_left : (cs : List ImportableChat) → All (NoPlace 0 []) cs
none_left [] = tt
none_left (c ∷ cs) = ((refl, tt), none_left cs)

-- What is taken of a sorted list, and the rest, which a full list has no place for.
pub take-NoPlace :
    (n : ℕ) (cs : List ImportableChat)
    → IsSorted cs
    → (rest : List ImportableChat) × (take n cs ++ rest ≡ cs) × All (NoPlace n (take n cs)) rest
take-NoPlace zero cs s = (cs, refl, none_left cs)
take-NoPlace (suc n) [] s = ([], refl, tt)
take-NoPlace (suc n) (c ∷ cs) s =
    let (rest, whole, places) = take-NoPlace n cs s.1 in
    let later = subst (All (NotLater c.updated_at)) (sym whole) s.0 in
    (
      rest,
      ap (λ ds. c ∷ ds) whole,
      NoPlace-cons n c (take n cs) rest
          (append-All (NotLater c.updated_at) (take n cs) rest later).1 places,
    )

pub All-append {κ} :
    (P : ImportableChat → Type κ) (xs ys : List ImportableChat)
    → All P xs
    → All P ys
    → All P (xs ++ ys)
All-append P [] ys a b = b
All-append P (x ∷ xs) ys a b = (a.0, All-append P xs ys a.1 b)
