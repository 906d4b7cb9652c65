-- ===== src/Repo/Revision/Total.antt =====
-- Resolving a revision ends.
use mcagit.Common.{
  ℕ, zero, suc, ◌≢◌, ◌≤◌, arith, List, [], ◌∷◌, Bool, true, false, Option, none, some, ◌==◌,
  if◌then◌else◌, length, get_elem?,
}
use mcagit.Common.Text.{Text}
use mcagit.Repo.Result.{Result, ok, err, >>=-ne-diverged, bad_ref, diverged}
use mcagit.Repo.Store.{Format, Repository, read_commit, from_json}
use mcagit.Repo.History.Fuel.{read-ne-diverged}
use mcagit.Repo.Directory.{Directory}
use mcagit.Repo.Refs.{
  reflog, branch_reflog, or_bad_ref, reflog_at, reflog_commit_at, branch_reflog_commit_at,
  read_branch, read_tag,
}
use mcagit.Common.Split.{split, strip_last}
use mcagit.Nbt.Decimal.{parse_usize}
use mcagit.Repo.Revision.{
  exists, TagFormat, after_digits, count_of, base_of, ops_of, first_parent, nth_parent,
  nth_ancestor, apply_ops, peel_loop, peel_to_commit, read_tag_object, head_log_base,
  branch_log_base, hex_base, named_base, resolve_base, resolve_ref,
}

length-after_digits : (s : Text) → length (after_digits s) ≤ length s
unfolding after_digits
length-after_digits [] = omega arith
length-after_digits (c ∷ s) = ground (arith, length-after_digits s)

bad_ref_fine : {A : Type 0} → ◌≢◌ {A = Result A} (err bad_ref) (err diverged)
bad_ref_fine e = cc

or_bad_ref_fine : {A : Type 0} (o : Option A) → or_bad_ref o ≢ err diverged
or_bad_ref_fine none = λ e. cc
or_bad_ref_fine (some a) = λ e. cc

module _ (fmt : Format) (tag_format : TagFormat) (repo : Repository) where
  read_commit_fine : (h : Text) → read_commit fmt repo h ≢ err diverged
  unfolding read_commit from_json
  read_commit_fine h e = ground (arith, read-ne-diverged fmt repo h)

  first_parent_fine : (h : Text) → first_parent fmt tag_format repo h ≢ err diverged
  unfolding first_parent
  first_parent_fine h =
      >>=-ne-diverged (read_commit fmt repo h) _ (read_commit_fine h) (λ c e. or_bad_ref_fine _)

  nth_parent_fine : (h : Text) (n : ℕ) → nth_parent fmt tag_format repo h n ≢ err diverged
  unfolding nth_parent
  nth_parent_fine h n =
      >>=-ne-diverged (read_commit fmt repo h) _ (read_commit_fine h) (λ c e. or_bad_ref_fine _)

  nth_ancestor_fine : (n : ℕ) (h : Text) → nth_ancestor fmt tag_format repo h n ≢ err diverged
  unfolding nth_ancestor
  nth_ancestor_fine zero h = λ e. cc
  nth_ancestor_fine (suc n) h =
      >>=-ne-diverged (first_parent fmt tag_format repo h) _ (first_parent_fine h)
        (λ p e. nth_ancestor_fine n p)

  if_fine :
      {A : Type 0} (b : Bool) (m n : Result A)
      → m ≢ err diverged
      → n ≢ err diverged
      → (if b then m else n) ≢ err diverged
  if_fine true m n hm hn = hm
  if_fine false m n hm hn = hn

  apply_ops_fine :
      (fuel : ℕ) (h ops : Text)
      → length ops ≤ fuel
      → apply_ops fmt tag_format fuel repo h ops ≢ err diverged
  unfolding apply_ops
  apply_ops_fine fuel h [] b = λ e. cc
  apply_ops_fine zero h (op ∷ rest) b = absurd (omega arith)
  apply_ops_fine (suc fuel) h (op ∷ rest) b =
      >>=-ne-diverged _ _
        (if_fine (op == b'~') _ _ (nth_ancestor_fine (count_of rest) h)
          (if_fine (op == b'^') _ _ (nth_parent_fine h (count_of rest)) (λ e. cc)))
        (λ p e. apply_ops_fine fuel p (after_digits rest) (omega (arith, length-after_digits rest)))

  option_fine :
      {A B : Type 0} (o : Option A) (m : Result B) (f : A → Result B)
      → m ≢ err diverged
      → ((a : A) → f a ≢ err diverged)
      → (elim o [ none ↦ m | some a ↦ f a ]) ≢ err diverged
  option_fine none m f hm hf = hm
  option_fine (some a) m f hm hf = hf a

  peel_fine : (rounds : ℕ) (h : Text) → peel_loop fmt tag_format rounds repo h ≢ err diverged
  unfolding peel_loop
  peel_fine zero h = λ e. cc
  peel_fine (suc rounds) h =
      option_fine (read_tag_object fmt tag_format repo h) _ _ (λ e. cc)
        (λ tag. peel_fine rounds tag.object)

  hex_fine : (base : Text) → hex_base repo base ≢ err diverged
  unfolding hex_base
  hex_fine base =
      if_fine _ _ _ (if_fine (exists repo base) (ok base) _ (λ e. cc) (or_bad_ref_fine _))
        bad_ref_fine

  named_fine :
      (dir : Directory) (base : Text) → named_base fmt tag_format repo dir base ≢ err diverged
  unfolding named_base peel_to_commit
  named_fine dir base = if_fine _ _ _ (or_bad_ref_fine _) (
      option_fine (read_branch dir base) _ _
        (option_fine (read_tag dir base) _ _ (hex_fine base) (λ h. peel_fine 100 h)) (λ h e. cc))

  reflog_at_fine : (entries : List Text) (n : ℕ) → reflog_at entries n ≢ err diverged
  unfolding reflog_at
  reflog_at_fine entries n =
      >>=-ne-diverged (or_bad_ref (get_elem? entries n)) _ (or_bad_ref_fine _) (λ line e.
        >>=-ne-diverged (or_bad_ref (get_elem? (split 32 line) 1)) _ (or_bad_ref_fine _)
          (λ field f. or_bad_ref_fine _))

  -- The answer of a form that fits is no divergence.
  abbrev FineAnswer : Option (Result Text) → Type 0
  FineAnswer none = Unit {0}
  FineAnswer (some r) = r ≢ err diverged

  answer_option :
      {A : Type 0} (o : Option A) (f : A → Option (Result Text))
      → ((a : A) → FineAnswer (f a))
      → FineAnswer (elim o [ none ↦ none | some a ↦ f a ])
  answer_option none f h = tt
  answer_option (some a) f h = h a

  answer_if :
      (b : Bool) (r : Result Text) → r ≢ err diverged → FineAnswer (if b then some r else none)
  answer_if true r h = h
  answer_if false r h = tt

  head_log_fine : (dir : Directory) (base : Text) → FineAnswer (head_log_base dir base)
  unfolding head_log_base reflog_commit_at
  head_log_fine dir base = answer_option _ _ (λ rest.
      answer_option (strip_last b'}' rest) _ (λ digits.
        >>=-ne-diverged (or_bad_ref (parse_usize digits)) _ (or_bad_ref_fine _)
          (λ n e. reflog_at_fine (reflog dir) n)))

  branch_log_fine : (dir : Directory) (base : Text) → FineAnswer (branch_log_base dir base)
  unfolding branch_log_base branch_reflog_commit_at
  branch_log_fine dir base = answer_option _ _ (λ parts.
      answer_option (strip_last b'}' parts.1) _ (λ digits. answer_if _ _ (
        >>=-ne-diverged (or_bad_ref (parse_usize digits)) _ (or_bad_ref_fine _)
          (λ n e. reflog_at_fine (branch_reflog dir parts.0) n))))

  answer_fine :
      (o : Option (Result Text)) (m : Result Text)
      → FineAnswer o
      → m ≢ err diverged
      → (elim o [ some r ↦ r | none ↦ m ]) ≢ err diverged
  answer_fine none m ho hm = hm
  answer_fine (some r) m ho hm = ho

  base_fine :
      (dir : Directory) (base : Text) → resolve_base fmt tag_format repo dir base ≢ err diverged
  unfolding resolve_base
  base_fine dir base =
      answer_fine _ _ (head_log_fine dir base)
        (answer_fine _ _ (branch_log_fine dir base) (named_fine dir base))

  -- On every repository and every text resolve_ref never runs out of rounds: whatever it returns,
  -- an id or an error, is an answer of the program.
  pub resolve_ref-ne-diverged :
      (dir : Directory) (spec : Text) → resolve_ref fmt tag_format repo dir spec ≢ err diverged
  unfolding resolve_ref
  resolve_ref-ne-diverged dir spec =
      >>=-ne-diverged (resolve_base fmt tag_format repo dir (base_of spec)) _
        (base_fine dir (base_of spec))
        (λ hash e. apply_ops_fine (length (ops_of spec)) hash (ops_of spec) (omega arith))
