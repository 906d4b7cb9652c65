-- ===== src/Repo/Revision/Operators.antt =====
-- What the operators `~n` and `^n` behind the base of a revision mean.
use mcagit.Common.{
  ℕ, zero, suc, ◌-◌, ◌^◌, ◌<◌, ◌≤◌, ◌≡◌, ◌↔◌, refl, sym, subst, ap, ◌∙◌, arith, List, [], ◌∷◌, ◌++◌,
  false, Option, none, some, length, get_elem?, length-append,
}
use mcagit.Common.Text.{Text, Every}
use mcagit.Nbt.Decimal.{is_digit, parse_usize, show_nat}
use mcagit.Nbt.Decimal.RoundTrip.{parse_usize-show_nat, show_nat-digits}
use mcagit.Repo.Manifest.{CommitObject}
use mcagit.Repo.Result.{Result, ok, ◌>>=◌, >>=-eq-ok}
use mcagit.Repo.Store.{Format, Repository, read_commit}
use mcagit.Repo.Directory.{Directory}
use mcagit.Repo.Refs.{or_bad_ref}
use mcagit.Repo.Revision.{
  TagFormat, is_op, base_of, ops_of, digits_of, after_digits, count_of, first_parent, nth_parent,
  nth_ancestor, apply_ops, resolve_base, resolve_ref,
}

-- An operator with its number, if one is written.
pub data Operator : Type 0 where
  up parent : Option ℕ → Operator

abbrev pub print_number : Option ℕ → Text
print_number none = []
print_number (some n) = show_nat n

abbrev pub print_one : Operator → Text
print_one (up n) = b'~' ∷ print_number n
print_one (parent n) = b'^' ∷ print_number n

unfoldable pub print : List Operator → Text
print [] = []
print (o ∷ os) = print_one o ++ print os

-- The number that an operator without one stands for.
abbrev pub times : Option ℕ → ℕ
times none = 1
times (some n) = n

abbrev number : Operator → ℕ
number (up n) = times n
number (parent n) = times n

-- Every number is a `usize`.
abbrev pub AllSmall : List Operator → Type 0
AllSmall [] = Unit {0}
AllSmall (o ∷ os) = (number o < 2 ^ 64) × AllSmall os

-- A base holds no operator.
abbrev pub IsPlain : Text → Type 0
IsPlain [] = Unit {0}
IsPlain (c ∷ s) = (is_op c ≡ false) × IsPlain s

digits_of-append :
    (s t : Text)
    → Every is_digit s
    → digits_of t ≡ []
    → after_digits t ≡ t
    → (digits_of (s ++ t) ≡ s) × (after_digits (s ++ t) ≡ t)
unfolding digits_of after_digits
digits_of-append [] t d e f = (e, f)
digits_of-append (c ∷ s) t d e f =
    let (h, k) = digits_of-append s t d.1 e f in (ground (arith, d.0, h), ground (arith, d.0, k))

-- Printed operators begin with no digit.
print-digits :
    (os : List Operator) → (digits_of (print os) ≡ []) × (after_digits (print os) ≡ print os)
unfolding digits_of after_digits print
print-digits [] = (refl, refl)
print-digits (up n ∷ os) = (refl, refl)
print-digits (parent n ∷ os) = (refl, refl)

-- The number behind an operator, and what is behind the number.
count_of-print :
    (n : Option ℕ) (os : List Operator)
    → times n < 2 ^ 64
    → (count_of (print_number n ++ print os) ≡ times n)
      × (after_digits (print_number n ++ print os) ≡ print os)
unfolding parse_usize count_of
count_of-print none os h =
    let (none_first, all) = print-digits os in (rw (count_of, none_first) refl, all)
count_of-print (some n) os h =
    let (none_first, all) = print-digits os in
    let (d, a) = digits_of-append (show_nat n) (print os) (show_nat-digits n) none_first all in
    (rw (count_of, d, parse_usize-show_nat n h) refl, a)

print-longer :
    (o : Operator) (os : List Operator) → suc (length (print os)) ≤ length (print (o ∷ os))
unfolding print
print-longer (up n) os = omega (arith, length-append (print_number n) (print os))
print-longer (parent n) os = omega (arith, length-append (print_number n) (print os))

base_of-print :
    (base : Text) (os : List Operator) → IsPlain base → base_of (base ++ print os) ≡ base
unfolding base_of print
base_of-print [] [] p = refl
base_of-print [] (up n ∷ os) p = refl
base_of-print [] (parent n ∷ os) p = refl
base_of-print (c ∷ base) os (h, p) = rw h (ap (λ s. c ∷ s) (base_of-print base os p))

ops_of-print :
    (base : Text) (os : List Operator) → IsPlain base → ops_of (base ++ print os) ≡ print os
unfolding ops_of print
ops_of-print [] [] p = refl
ops_of-print [] (up n ∷ os) p = refl
ops_of-print [] (parent n ∷ os) p = refl
ops_of-print (c ∷ base) os (h, p) = rw h (ops_of-print base os p)

or_bad_ref-eq-ok : {A : Type 0} (o : Option A) (a : A) → (or_bad_ref o ≡ ok a) ↔ (o ≡ some a)
or_bad_ref-eq-ok none a = (λ e. cc, λ e. cc)
or_bad_ref-eq-ok (some b) a = (λ e. cc, λ e. cc)

module _ (fmt : Format) (tag_format : TagFormat) (repo : Repository) where
  -- The parent of a commit at a place, the first at 0.
  pub record ParentAt (i : ℕ) (h p : Text) : Type 0 where
    pub commit : CommitObject
    pub stored : read_commit fmt repo h ≡ ok commit
    pub listed : get_elem? commit.parents i ≡ some p

  -- The commit to which a list of operators leads: `~n` takes the first parent n times, and `^n`
  -- takes the n-th parent, the first one for 0 as for 1. Without a number n is 1.
  pub data Leads : Text → List Operator → Text → Type 0 where
    stop : {h : Text} → Leads h [] h
    stay : {h c : Text} {os : List Operator} → Leads h os c → Leads h (up (some 0) ∷ os) c
    climb :
        {h p c : Text} {n : ℕ} {os : List Operator}
        → ParentAt 0 h p
        → Leads p (up (some n) ∷ os) c
        → Leads h (up (some (suc n)) ∷ os) c
    climb_one :
        {h p c : Text} {os : List Operator}
        → ParentAt 0 h p
        → Leads p os c
        → Leads h (up none ∷ os) c
    branch :
        {h p c : Text} {n : Option ℕ} {os : List Operator}
        → ParentAt (times n - 1) h p
        → Leads p os c
        → Leads h (parent n ∷ os) c

  first_parent-ParentAt :
      (h p : Text) → (first_parent fmt tag_format repo h ≡ ok p) ↔ ParentAt 0 h p
  unfolding first_parent
  first_parent-ParentAt h p = (
    λ e.
        let (c, s, f) = >>=-eq-ok (read_commit fmt repo h) _ e in
        record { commit = c; stored = s; listed = (or_bad_ref-eq-ok _ p).0 f },
    λ a. rw a.stored ((or_bad_ref-eq-ok _ p).1 a.listed),
  )

  nth_parent-ParentAt :
      (h p : Text) (n : ℕ) → (nth_parent fmt tag_format repo h n ≡ ok p) ↔ ParentAt (n - 1) h p
  unfolding nth_parent
  nth_parent-ParentAt h p n = (
    λ e.
        let (c, s, f) = >>=-eq-ok (read_commit fmt repo h) _ e in
        record { commit = c; stored = s; listed = (or_bad_ref-eq-ok _ p).0 f },
    λ a. rw a.stored ((or_bad_ref-eq-ok _ p).1 a.listed),
  )

  climbed :
      (n : ℕ) (h p c : Text) (os : List Operator)
      → nth_ancestor fmt tag_format repo h n ≡ ok p
      → Leads p os c
      → Leads h (up (some n) ∷ os) c
  unfolding nth_ancestor
  climbed zero h p c os e l = let same : h ≡ p = cc in stay (subst (λ x. Leads x os c) (sym same) l)
  climbed (suc n) h p c os e l =
      let (q, f, g) = >>=-eq-ok (first_parent fmt tag_format repo h) _ e in
      climb ((first_parent-ParentAt h q).0 f) (climbed n q p c os g l)

  climbs :
      (n : ℕ) (h c : Text) (os : List Operator)
      → Leads h (up (some n) ∷ os) c
      → (p : Text) × (nth_ancestor fmt tag_format repo h n ≡ ok p) × Leads p os c
  unfolding nth_ancestor
  climbs zero h c os (stay l) = (h, refl, l)
  climbs (suc n) h c os (climb {p = q} a l) =
      let (p, e, m) = climbs n q c os l in (p, rw ((first_parent-ParentAt h q).1 a) e, m)

  -- One operator, as the loop takes it.
  abbrev one : Text → Operator → Result Text
  one h (up n) = nth_ancestor fmt tag_format repo h (times n)
  one h (parent n) = nth_parent fmt tag_format repo h (times n)

  one-Leads :
      (o : Operator) (h p c : Text) (os : List Operator)
      → one h o ≡ ok p
      → Leads p os c
      → Leads h (o ∷ os) c
  unfolding nth_ancestor
  one-Leads (up (some n)) h p c os e l = climbed n h p c os e l
  one-Leads (up none) h p c os e l =
      let (q, f, g) = >>=-eq-ok (first_parent fmt tag_format repo h) _ e in
      let same : q ≡ p = cc in
      climb_one ((first_parent-ParentAt h q).0 f) (subst (λ x. Leads x os c) (sym same) l)
  one-Leads (parent n) h p c os e l = branch ((nth_parent-ParentAt h p (times n)).0 e) l

  Leads-one :
      (o : Operator) (h c : Text) (os : List Operator)
      → Leads h (o ∷ os) c
      → (p : Text) × (one h o ≡ ok p) × Leads p os c
  unfolding nth_ancestor
  Leads-one (up (some n)) h c os l = climbs n h c os l
  Leads-one (up none) h c os (climb_one {p = p} a l) =
      (p, rw ((first_parent-ParentAt h p).1 a) refl, l)
  Leads-one (parent n) h c os (branch {p = p} a l) = (p, (nth_parent-ParentAt h p (times n)).1 a, l)

  apply_ops_step :
      (o : Operator) (os : List Operator) (fuel : ℕ) (h : Text)
      → number o < 2 ^ 64
      → apply_ops fmt tag_format (suc fuel) repo h (print (o ∷ os))
        ≡ (one h o >>= λ p. apply_ops fmt tag_format fuel repo p (print os))
  unfolding print apply_ops
  apply_ops_step (up n) os fuel h small =
      let (count, after) = count_of-print n os small in rw (count, after) refl
  apply_ops_step (parent n) os fuel h small =
      let (count, after) = count_of-print n os small in rw (count, after) refl

  stopped : (h c : Text) → Leads h [] c → h ≡ c
  stopped h c stop = refl

  apply_ops-Leads :
      (os : List Operator) (fuel : ℕ) (h c : Text)
      → length (print os) ≤ fuel
      → AllSmall os
      → (apply_ops fmt tag_format fuel repo h (print os) ≡ ok c) ↔ Leads h os c
  unfolding print apply_ops
  apply_ops-Leads [] fuel h c b small = (
    λ e. let same : h ≡ c = cc in subst (λ x. Leads h [] x) same stop,
    λ l. ap ok (stopped h c l),
  )
  apply_ops-Leads (o ∷ os) zero h c b small = absurd (omega (arith, print-longer o os))
  apply_ops-Leads (o ∷ os) (suc fuel) h c b (s, small) =
      let step = apply_ops_step o os fuel h s in
      let shorter : length (print os) ≤ fuel = omega (arith, print-longer o os) in
      (
        λ e.
            let (p, f, g) = >>=-eq-ok (one h o) _ (sym step ∙ e) in
            one-Leads o h p c os f ((apply_ops-Leads os fuel p c shorter small).0 g),
        λ l.
            let (p, f, m) = Leads-one o h c os l in
            step ∙ rw f ((apply_ops-Leads os fuel p c shorter small).1 m),
      )

  -- Let a revision be a base without `~` and `^` and printed operators behind it, whose numbers are
  -- `usize`. Then resolve_ref returns an id exactly if the base resolves to one and the operators
  -- lead from that one to it: `~n` over the first parent n times, `^n` to the n-th parent (the
  -- first one for 0 too), both with 1 for n where no number is written.
  pub resolve_ref-Leads :
      (dir : Directory) (base : Text) (os : List Operator) (c : Text)
      → IsPlain base
      → AllSmall os
      → (resolve_ref fmt tag_format repo dir (base ++ print os) ≡ ok c)
        ↔ ((h : Text) × (resolve_base fmt tag_format repo dir base ≡ ok h) × Leads h os c)
  unfolding resolve_ref
  resolve_ref-Leads dir base os c plain small =
      let eb = base_of-print base os plain in
      let eo = ops_of-print base os plain in
      (
        λ e.
            let (h, f, g) =
              >>=-eq-ok (resolve_base fmt tag_format repo dir base) _ (rw (eb, eo) at e) in
            (h, f, (apply_ops-Leads os _ h c (omega arith) small).0 g),
        λ (h, f, l). rw (eb, eo, f) ((apply_ops-Leads os _ h c (omega arith) small).1 l),
      )
