-- ===== src/Mcp/Search.antt =====
-- apps/shell/src/main/mcp-home.ts: the search for the marks of the block, in texts that are put together.
use deepseek_harness.Common.{
  Text, ℕ, false, Option, none, some, [], ◌∷◌, ◌++◌, ◌≡◌, refl, arith, sym, ap, ◌∙◌, nat_eq,
  contains, length, length-append, ◌≤◌, ◌==◌, Bool-cases, Option-cases, inl, inr, nat_beq_iff,
  subst,
}
use mathlib.Core.List.{append_assoc}
use deepseek_harness.Supervisor.Output.{strip}
use deepseek_harness.Mcp.Patch.{cut_at, cut_here, before_unit}

-- Whether a text starts with another depends only on as many units.
strip-long :
    (p w x y : Text) → length p ≤ length w → strip p (w ++ x) ≡ none → strip p (w ++ y) ≡ none
strip-long [] w x y l h = absurd (cc h)
strip-long (c ∷ p) [] x y l h = absurd (omega (arith, l))
strip-long (c ∷ p) (d ∷ w) x y l h = elim (Bool-cases (c == d)) [
  | inl same ↦ rw same (strip-long p w x y (omega (arith, l)) (ground arith))
  | inr other ↦ rw other refl
]

strip-stop :
    (p w x : Text) (u : ℕ) → contains p u ≡ false → strip p w ≡ none → strip p (w ++ (u ∷ x)) ≡ none
strip-stop [] w x u n h = absurd (cc h)
strip-stop (c ∷ p) [] x u n h = ground arith
strip-stop (c ∷ p) (d ∷ w) x u n h = ground (arith, strip-stop p w x u)

cut_here-none :
    (o : Option Text) (later : Option (Text × Text))
    → cut_here o later ≡ none
    → (o ≡ none) × (later ≡ none)
cut_here-none none later h = (refl, h)
cut_here-none (some o) later h = absurd (cc h)

before_unit-none : (c : ℕ) (o : Option (Text × Text)) → before_unit c o ≡ none → o ≡ none
before_unit-none c none h = refl
before_unit-none c (some o) h = absurd (cc h)

pub strip-append : (p x : Text) → strip p (p ++ x) ≡ some x
strip-append [] x = refl
strip-append (c ∷ p) x = rw ((nat_beq_iff c c).1 refl) (strip-append p x)

strip-prefix : (p a b : Text) → strip p (a ++ b) ≡ none → strip p a ≡ none
strip-prefix [] a b h = absurd (cc h)
strip-prefix (c ∷ p) [] b h = refl
strip-prefix (c ∷ p) (d ∷ a) b h = ground (arith, strip-prefix p a b)

pub strip_sound : (p t a : Text) → strip p t ≡ some a → t ≡ p ++ a
strip_sound [] t a h = cc h
strip_sound (c ∷ p) [] a h = absurd (cc h)
strip_sound (c ∷ p) (d ∷ t) a h = elim (Bool-cases (c == d)) [
  | inl same ↦ cc ((nat_beq_iff c d).0 same, strip_sound p t a (ground arith))
  | inr other ↦ absurd (ground arith)
]

cut_here-some :
    (o : Option Text) (later : Option (Text × Text)) (c : ℕ) (b a : Text)
    → cut_here o later ≡ some (c ∷ b, a)
    → (o ≡ none) × (later ≡ some (c ∷ b, a))
cut_here-some none later c b a h = (refl, h)
cut_here-some (some o) later c b a h = absurd (cc h)

before_unit-some :
    (c d : ℕ) (o : Option (Text × Text)) (b a : Text)
    → before_unit c o ≡ some (d ∷ b, a)
    → o ≡ some (b, a)
before_unit-some c d none b a h = absurd (cc h)
before_unit-some c d (some (x, y)) b a h = cc h

cut_at-head : (p t a : Text) → strip p t ≡ some a → cut_at p t ≡ some ([], a)
unfolding cut_at
cut_at-head p [] a h = rw h refl
cut_at-head p (c ∷ t) a h = ap (λ o. cut_here o (before_unit c (cut_at p t))) h

cut_at-later :
    (p : Text) (c : ℕ) (t b a : Text)
    → strip p (c ∷ t) ≡ none
    → cut_at p t ≡ some (b, a)
    → cut_at p (c ∷ t) ≡ some (c ∷ b, a)
unfolding cut_at
cut_at-later p c t b a h k =
    ap (λ o. cut_here o (before_unit c (cut_at p t))) h ∙ ap (before_unit c) k

cut_at-cons :
    (p : Text) (c d : ℕ) (t b a : Text)
    → cut_at p (c ∷ t) ≡ some (d ∷ b, a)
    → (strip p (c ∷ t) ≡ none) × (cut_at p t ≡ some (b, a))
unfolding cut_at
cut_at-cons p c d t b a h =
    let (first, later) = cut_here-some (strip p (c ∷ t)) (before_unit c (cut_at p t)) d b a h in
    (first, before_unit-some c d (cut_at p t) b a later)

cut_at-none :
    (p : Text) (c : ℕ) (t : Text)
    → cut_at p (c ∷ t) ≡ none
    → (strip p (c ∷ t) ≡ none) × (cut_at p t ≡ none)
unfolding cut_at
cut_at-none p c t h =
    let (first, later) = cut_here-none (strip p (c ∷ t)) (before_unit c (cut_at p t)) h in
    (first, before_unit-none c (cut_at p t) later)

-- A text that stands somewhere is found there or before.
pub cut_at_first :
    (p b x : Text)
    → (cut : Text × Text) × (cut_at p (b ++ (p ++ x)) ≡ some cut) × (length cut.0 ≤ length b)
cut_at_first p [] x = (([], x), cut_at-head p (p ++ x) x (strip-append p x), omega arith)
cut_at_first p (c ∷ b) x = elim (Option-cases (strip p (c ∷ (b ++ (p ++ x))))) [
  | inr (a, here) ↦ (([], a), cut_at-head p (c ∷ (b ++ (p ++ x))) a here, omega arith)
  | inl later ↦
      let ((before, after), found, first) = cut_at_first p b x in
      (
        (c ∷ before, after),
        cut_at-later p c (b ++ (p ++ x)) before after later found,
        omega (arith, first),
      )
]

-- What stands after the first mark does not matter to where it is.
pub cut_at-again :
    (p b x y : Text)
    → cut_at p (b ++ (p ++ x)) ≡ some (b, x)
    → cut_at p (b ++ (p ++ y)) ≡ some (b, y)
cut_at-again p [] x y h = cut_at-head p (p ++ y) y (strip-append p y)
cut_at-again p (c ∷ b) x y h =
    let (first, later) = cut_at-cons p c c (b ++ (p ++ x)) b x h in
    cut_at-later p c (b ++ (p ++ y)) b y
      (subst (λ t. strip p (c ∷ t) ≡ none) (append_assoc b p y)
        (strip-long p (c ∷ (b ++ p)) x y (omega (arith, length-append b p))
          (subst (λ t. strip p (c ∷ t) ≡ none) (sym (append_assoc b p x)) first)))
      (cut_at-again p b x y later)

-- A line end that the mark does not have keeps it apart from what is before.
pub cut_at-line :
    (p w : Text) (u : ℕ) (t b a : Text)
    → contains p u ≡ false
    → cut_at p w ≡ none
    → cut_at p t ≡ some (b, a)
    → cut_at p (w ++ (u ∷ t)) ≡ some (w ++ (u ∷ b), a)
unfolding cut_at
cut_at-line p [] u t b a n h k =
    cut_at-later p u t b a (strip-stop p [] t u n (cut_here-none (strip p []) none h).0) k
cut_at-line p (c ∷ w) u t b a n h k =
    let (first, later) = cut_at-none p c w h in
    cut_at-later p c (w ++ (u ∷ t)) (w ++ (u ∷ b)) a (strip-stop p (c ∷ w) t u n first)
      (cut_at-line p w u t b a n later k)

pub cut_at-prefix : (p a b : Text) → cut_at p (a ++ b) ≡ none → cut_at p a ≡ none
unfolding cut_at
cut_at-prefix p [] [] h = h
cut_at-prefix p [] (c ∷ b) h =
    ap (λ o. cut_here o none) (strip-prefix p [] (c ∷ b) (cut_at-none p c b h).0)
cut_at-prefix p (c ∷ a) b h =
    let (first, later) = cut_at-none p c (a ++ b) h in
    ap (λ o. cut_here o (before_unit c (cut_at p a))) (strip-prefix p (c ∷ a) b first)
    ∙ ap (before_unit c) (cut_at-prefix p a b later)

here_sound :
    (p t : Text) (o : Option Text) (b a : Text)
    → strip p t ≡ o
    → cut_here o none ≡ some (b, a)
    → t ≡ b ++ (p ++ a)
here_sound p t none b a e h = absurd (cc h)
here_sound p t (some after) b a e h = cc (strip_sound p t after e, h)

later_sound :
    (p : Text) (c : ℕ) (t : Text) (o : Option Text) (later : Option (Text × Text)) (b a : Text)
    → ((b a : Text) → later ≡ some (b, a) → t ≡ b ++ (p ++ a))
    → strip p (c ∷ t) ≡ o
    → cut_here o (before_unit c later) ≡ some (b, a)
    → (c ∷ t) ≡ b ++ (p ++ a)
later_sound p c t (some after) later b a sound e h = cc (strip_sound p (c ∷ t) after e, h)
later_sound p c t none none b a sound e h = absurd (cc h)
later_sound p c t none (some (x, y)) b a sound e h = cc (sound x y refl, h)

-- A text is what was before the mark, the mark, and what was after it.
pub cut_at_sound : (p t b a : Text) → cut_at p t ≡ some (b, a) → t ≡ b ++ (p ++ a)
unfolding cut_at
cut_at_sound p [] b a h = here_sound p [] (strip p []) b a refl h
cut_at_sound p (c ∷ t) b a h =
    later_sound p c t (strip p (c ∷ t)) (cut_at p t) b a (cut_at_sound p t) refl h
