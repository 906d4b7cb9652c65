-- ===== src/Repo/History/Walk.antt =====
-- The worklist loop against reachability, for any function that expands a node.
use mcagit.Common.{
  ℕ, zero, suc, ◌+◌, List, [], ◌∷◌, true, false, ◌||◌, ◌≡◌, ◌↔◌, inl, inr, refl, sym, ◌∙◌, subst,
  arith, length, Bool-cases,
}
use mcagit.Common.Text.{Text, text_eq, text_eq_iff, text_eq_refl}
use mcagit.Common.Members.{contains}
use mcagit.Repo.Result.{Result, ok, ◌>>=◌, >>=-eq-ok}
use mcagit.Repo.History.{push_all, walk}

pub contains-push_all :
    (ps stack : List Text) (j : Text)
    → contains (push_all ps stack) j ≡ (contains ps j || contains stack j)
unfolding push_all contains
contains-push_all [] stack j = refl
contains-push_all (p ∷ ps) stack j = ground (arith, contains-push_all ps (p ∷ stack) j)

pub length-push_all : (ps stack : List Text) → length (push_all ps stack) ≡ length ps + length stack
unfolding push_all
length-push_all [] stack = omega arith
length-push_all (p ∷ ps) stack = omega (arith, length-push_all ps (p ∷ stack))

module _ (expand : Text → Result (List Text)) where
  -- What can be reached from `start`.
  pub data Reach (start : Text) : Text → Type 0 where
    here : Reach start start
    step :
        {c p : Text} {ps : List Text}
        → Reach start c
        → expand c ≡ ok ps
        → contains ps p ≡ true
        → Reach start p

  pub Reach-trans : {a b c : Text} → Reach a b → Reach b c → Reach a c
  Reach-trans r here = r
  Reach-trans r (step s e m) = step (Reach-trans r s) e m

  -- One round of the loop, on a node that was seen and on a new one.
  pub walk_seen :
      (fuel : ℕ) (set stack : List Text) (c : Text)
      → contains set c ≡ true
      → walk expand (suc fuel) set (c ∷ stack) ≡ walk expand fuel set stack
  unfolding walk
  walk_seen fuel set stack c h = rw (h, walk)

  pub walk_new :
      (fuel : ℕ) (set stack : List Text) (c : Text)
      → contains set c ≡ false
      → walk expand (suc fuel) set (c ∷ stack)
        ≡ (expand c >>= λ ps. walk expand fuel (c ∷ set) (push_all ps stack))
  unfolding walk
  walk_new fuel set stack c h = rw (h, walk)

module _ {κ} (P : Text → Type κ) where
  abbrev pub Each : List Text → Type κ
  Each xs = (c : Text) → contains xs c ≡ true → P c

  pub Each-cons : (x : Text) (xs : List Text) → P x → Each xs → Each (x ∷ xs)
  unfolding contains
  Each-cons x xs hx hxs c m = elim (Bool-cases (text_eq x c)) [
    | inl e ↦ subst P ((text_eq_iff x c).0 e) hx
    | inr n ↦ hxs c (ground arith)
  ]

  pub Each-tail : (x : Text) (xs : List Text) → Each (x ∷ xs) → Each xs
  unfolding contains
  Each-tail x xs h c m = h c (ground arith)

  pub Each-head : (x : Text) (xs : List Text) → Each (x ∷ xs) → P x
  unfolding contains
  Each-head x xs h = h x (ground (arith, text_eq_refl x))

  pub Each-push_all : (ps stack : List Text) → Each ps → Each stack → Each (push_all ps stack)
  unfolding push_all
  Each-push_all [] stack hp hs = hs
  Each-push_all (p ∷ ps) stack hp hs =
      Each-push_all ps (p ∷ stack) (Each-tail p ps hp) (Each-cons p stack (Each-head p ps hp) hs)

-- A predicate that expansion keeps holds of all that the walk collects.
module _ {κ} (expand : Text → Result (List Text)) (P : Text → Type κ) where
  pub walk_keeps :
      ((c p : Text) (ps : List Text) → P c → expand c ≡ ok ps → contains ps p ≡ true → P p)
      → (fuel : ℕ) (set stack : List Text) {r : List Text} → Each P set
      → Each P stack
      → walk expand fuel set stack ≡ ok r
      → Each P r
  unfolding walk
  walk_keeps keep fuel set [] hs hk e = λ c m. hs c (ground arith)
  walk_keeps keep zero set (s ∷ stack) hs hk e = cc
  walk_keeps keep (suc f) set (s ∷ stack) hs hk e = elim (Bool-cases (contains set s)) [
    | inl seen ↦
        walk_keeps keep f set stack hs (Each-tail P s stack hk)
          (sym (walk_seen expand f set stack s seen) ∙ e)
    | inr new ↦
        let (ps, ex, rest) =
          >>=-eq-ok (expand s) (λ ps. walk expand f (s ∷ set) (push_all ps stack))
            (sym (walk_new expand f set stack s new) ∙ e) in
        let hs' = Each-head P s stack hk in
        walk_keeps keep f (s ∷ set) (push_all ps stack) (Each-cons P s set hs' hs)
          (Each-push_all P ps stack (λ p m. keep s p ps hs' ex m) (Each-tail P s stack hk)) rest
  ]

-- What is pushed for a collected node is collected or still waits.
module _ (expand : Text → Result (List Text)) where
  abbrev pub Closed : List Text → List Text → Type 0
  Closed set stack =
      (c p : Text) (ps : List Text)
      → contains set c ≡ true
      → expand c ≡ ok ps
      → contains ps p ≡ true
      → (contains set p || contains stack p) ≡ true

  Closed-seen :
      (set stack : List Text) (s : Text)
      → contains set s ≡ true
      → Closed set (s ∷ stack)
      → Closed set stack
  unfolding contains
  Closed-seen set stack s seen h c p ps m e mp = ground (arith, text_eq_iff s p, h c p ps m e mp)

  Closed-new :
      (set stack : List Text) (s : Text) (qs : List Text)
      → expand s ≡ ok qs
      → Closed set (s ∷ stack)
      → Closed (s ∷ set) (push_all qs stack)
  unfolding contains
  Closed-new set stack s qs ex h c p ps m e mp =
      ground (arith, contains-push_all qs stack p, text_eq_iff s c, h c p ps)

  pub walk_closes :
      (fuel : ℕ) (set stack : List Text) {r : List Text}
      → Closed set stack
      → walk expand fuel set stack ≡ ok r
      → Closed r [] × Each (λ c. contains r c ≡ true) set × Each (λ c. contains r c ≡ true) stack
  unfolding walk contains
  walk_closes fuel set [] h e =
      (λ c p ps m ex mp. ground (arith, h c p ps), λ c m. ground arith, λ c m. cc)
  walk_closes zero set (s ∷ stack) h e = cc
  walk_closes (suc f) set (s ∷ stack) {r} h e = elim (Bool-cases (contains set s)) [
    | inl seen ↦
        let (closed, old, pending) =
          walk_closes f set stack (Closed-seen set stack s seen h)
            (sym (walk_seen expand f set stack s seen) ∙ e) in
        (closed, old, Each-cons (λ c. contains r c ≡ true) s stack (old s seen) pending)
    | inr new ↦
        let (ps, ex, rest) =
          >>=-eq-ok (expand s) (λ ps. walk expand f (s ∷ set) (push_all ps stack))
            (sym (walk_new expand f set stack s new) ∙ e) in
        let (closed, old, pending) =
          walk_closes f (s ∷ set) (push_all ps stack) (Closed-new set stack s ps ex h) rest in
        (
          closed,
          Each-tail (λ c. contains r c ≡ true) s set old,
          Each-cons (λ c. contains r c ≡ true) s stack
              (Each-head (λ c. contains r c ≡ true) s set old)
              (λ c m. pending c (ground (arith, contains-push_all ps stack c))),
        )
  ]

  complete :
      (r : List Text) {start : Text}
      → Closed r []
      → contains r start ≡ true
      → {c : Text} → Reach expand start c
      → contains r c ≡ true
  unfolding contains
  complete r closed m here = m
  complete r closed m (step {c} {p} {ps} rc ex mp) =
      ground (arith, closed c p ps (complete r closed m rc) ex mp)

  -- A walk from one node collects exactly what can be reached from it.
  pub walk-Reach_iff :
      (fuel : ℕ) (start : Text) {r : List Text}
      → walk expand fuel [] (start ∷ []) ≡ ok r
      → (c : Text) → (contains r c ≡ true) ↔ Reach expand start c
  walk-Reach_iff fuel start {r} e c =
      let (closed, _, from_start) = walk_closes fuel [] (start ∷ []) none_yet e in
      (
        walk_keeps expand (Reach expand start) (λ c p ps rc ex m. step rc ex m) fuel [] (start ∷ [])
            (λ d m. absurd (nothing d m))
            (Each-cons (Reach expand start) start [] here (λ d m. absurd (nothing d m))) e c,
        complete r closed (from_start start at_front),
      )
    where
      nothing : (d : Text) → ¬ (contains [] d ≡ true)
      nothing d m = unfold contains in cc

      none_yet : Closed [] (start ∷ [])
      none_yet c p ps m ex mp = absurd (nothing c m)

      at_front : contains (start ∷ []) start ≡ true
      at_front = unfold contains in ground (arith, text_eq_refl start)
