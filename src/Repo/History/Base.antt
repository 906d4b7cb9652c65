-- ===== src/Repo/History/Base.antt =====
-- `merge_base` returns a best common ancestor, and finds one where there is any.
use mcagit.Common.{
  List, [], ◌∷◌, true, false, ◌&&◌, ◌||◌, none, some, ◌≡◌, ◌≢◌, ◌↔◌, ◌⊎◌, inl, inr, refl, sym, ◌∙◌,
  ap, subst, Bool-cases, Option-cases, arith,
}
use mcagit.Common.Text.{Text, text_eq, text_eq_iff, text_eq_refl}
use mcagit.Common.Members.{contains}
use mcagit.Repo.Result.{ok}
use mcagit.Repo.Store.{Format, Repository}
use mcagit.Repo.History.{
  ancestors, dominated, undominated, merge_base, intersection, insert_sorted, sort, is_nil,
}
use mcagit.Repo.History.Ancestors.{IsAncestor, ancestors_total}
use mathlib.Core.List.{head?}

contains-insert_sorted :
    (x : Text) (ys : List Text) (j : Text)
    → contains (insert_sorted x ys) j ≡ (text_eq x j || contains ys j)
unfolding insert_sorted contains
contains-insert_sorted x [] j = refl
contains-insert_sorted x (y ∷ ys) j = ground (arith, contains-insert_sorted x ys j)

pub contains-sort : (xs : List Text) (j : Text) → contains (sort xs) j ≡ contains xs j
unfolding sort contains
contains-sort [] j = refl
contains-sort (x ∷ xs) j = ground (arith, contains-insert_sorted x (sort xs) j, contains-sort xs j)

pub contains-intersection :
    (xs ys : List Text) (j : Text)
    → contains (intersection xs ys) j ≡ (contains xs j && contains ys j)
unfolding intersection contains
contains-intersection [] ys j = refl
contains-intersection (x ∷ xs) ys j = ground (arith, text_eq_iff x j, contains-intersection xs ys j)

contains-head? : (xs : List Text) {m : Text} → head? xs ≡ some m → contains xs m ≡ true
unfolding contains
contains-head? [] e = cc
contains-head? (x ∷ xs) {m} e = ground (arith, text_eq_refl x)

nothing_in : (xs : List Text) (c : Text) → is_nil xs ≡ true → ¬ (contains xs c ≡ true)
unfolding contains
nothing_in [] c h m = cc
nothing_in (_ ∷ _) c h m = cc

head?-none : (xs : List Text) → head? xs ≡ none → is_nil xs ≡ true
head?-none [] h = refl
head?-none (x ∷ xs) h = cc

-- The answer of `dominated` for one candidate.
abbrev Dominates : Format → Repository → Text → List Text → Text → Type 0
Dominates fmt repo c os o = (contains os o ≡ true) × (o ≢ c) × IsAncestor fmt repo o c

module _ (fmt : Format) (repo : Repository) where
  Dominates-weaken :
      (c o : Text) (os : List Text) (w : Text)
      → Dominates fmt repo c os w
      → Dominates fmt repo c (o ∷ os) w
  unfolding contains
  Dominates-weaken c o os w (m, n, r) = (ground arith, n, r)

  Dominates-cons :
      (c o : Text) (os : List Text) (w : Text)
      → Dominates fmt repo c (o ∷ os) w
      → (w ≡ o) ⊎ Dominates fmt repo c os w
  unfolding contains
  Dominates-cons c o os w (m, n, r) = elim (Bool-cases (text_eq o w)) [
    | inl e ↦ inl (sym ((text_eq_iff o w).0 e))
    | inr e ↦ inr (ground arith, n, r)
  ]

  dominated_total :
      (c : Text) (os : List Text)
      → ((dominated fmt repo c os ≡ ok true) × ((o : Text) × Dominates fmt repo c os o))
        ⊎ ((dominated fmt repo c os ≡ ok false) × ((o : Text) → ¬ Dominates fmt repo c os o))
  unfolding dominated contains
  dominated_total c [] = inr (refl, λ o d. cc)
  dominated_total c (o ∷ os) = elim (Bool-cases (text_eq o c)) [
    | inl same ↦ elim (dominated_total c os) [
      | inl (e, (w, d)) ↦ inl (rw same e, (w, Dominates-weaken c o os w d))
      | inr (e, free) ↦ inr (
        rw same e,
        λ w d. elim (Dominates-cons c o os w d) [
          | inl q ↦ d.1 (q ∙ (text_eq_iff o c).0 same)
          | inr rest ↦ free w rest
        ],
      )
    ]
    | inr other ↦
        let (anc, ea, iff) = ancestors_total fmt repo o in
        elim (Bool-cases (contains anc c)) [
          | inl above ↦ inl (
            rw (other, ea) (rw above refl),
            (o, (ground (arith, text_eq_refl o), ground (arith, text_eq_iff o c), (iff c).0 above)),
          )
          | inr apart ↦ elim (dominated_total c os) [
            | inl (e, (w, d)) ↦ inl (rw (other, ea) (rw apart e), (w, Dominates-weaken c o os w d))
            | inr (e, free) ↦ inr (
              rw (other, ea) (rw apart e),
              λ w d. elim (Dominates-cons c o os w d) [
                | inl q ↦ cc (apart, (iff c).1 (subst (λ x. IsAncestor fmt repo x c) q d.2))
                | inr rest ↦ free w rest
              ],
            )
          ]
        ]
  ]

  -- No other common ancestor descends from it.
  abbrev Free : List Text → Text → Type 0
  Free common c = (o : Text) → ¬ Dominates fmt repo c common o

  undominated_total :
      (common cs : List Text)
      → (bases : List Text) × (undominated fmt repo common cs ≡ ok bases)
        × ((c : Text) → contains bases c ≡ true → (contains cs c ≡ true) × Free common c)
        × ((c : Text) → contains cs c ≡ true → Free common c → contains bases c ≡ true)
  unfolding undominated contains
  undominated_total common [] = ([], refl, λ c m. cc, λ c m f. m)
  undominated_total common (c ∷ cs) =
      let (bases, e, only, all) = undominated_total common cs in
      elim (dominated_total c common) [
        | inl (d, (w, dom)) ↦ (
          bases,
          rw (d, e),
          λ x m. (ground (arith, (only x m).0), (only x m).1),
          λ x m f. elim (Bool-cases (text_eq c x)) [
            | inl q ↦
                absurd
                  (f w (subst (λ y. Dominates fmt repo y common w) ((text_eq_iff c x).0 q) dom))
            | inr n ↦ all x (ground arith) f
          ],
        )
        | inr (d, free) ↦ (
          c ∷ bases,
          rw (d, e),
          λ x m. elim (Bool-cases (text_eq c x)) [
            | inl q ↦ (ground arith, subst (Free common) ((text_eq_iff c x).0 q) free)
            | inr n ↦ let rest = only x (ground arith) in (ground arith, rest.1)
          ],
          λ x m f. elim (Bool-cases (text_eq c x)) [
            | inl q ↦ ground arith
            | inr n ↦ let rest = all x (ground arith) f in ground arith
          ],
        )
      ]

  abbrev pub IsCommon : Text → Text → Text → Type 0
  IsCommon a b c = IsAncestor fmt repo a c × IsAncestor fmt repo b c

  pub IsCommon-total :
      (a b : Text)
      → (aa : List Text) × (ab : List Text) × (ancestors fmt repo a ≡ ok aa)
        × (ancestors fmt repo b ≡ ok ab)
        × ((c : Text) → (contains (intersection aa ab) c ≡ true) ↔ IsCommon a b c)
  IsCommon-total a b =
      let (aa, ea, ia) = ancestors_total fmt repo a in
      let (ab, eb, ib) = ancestors_total fmt repo b in
      (
        aa,
        ab,
        ea,
        eb,
        λ c. (
          λ m. (
            (ia c).0 (ground (arith, contains-intersection aa ab c)),
            (ib c).0 (ground (arith, contains-intersection aa ab c)),
          ),
          λ (ra, rb).
              let ma = (ia c).1 ra in
              let mb = (ib c).1 rb in ground (arith, contains-intersection aa ab c),
        ),
      )

  -- A common ancestor from which no other common ancestor descends.
  abbrev pub IsBest : Text → Text → Text → Type 0
  IsBest a b m = IsCommon a b m × ((o : Text) → IsCommon a b o → o ≢ m → ¬ IsAncestor fmt repo o m)

  merge_base_bases :
      (a b : Text)
      → (bases : List Text) × (merge_base fmt repo a b ≡ ok (head? (sort bases)))
        × ((c : Text) → (contains bases c ≡ true) ↔ IsBest a b c)
  unfolding merge_base
  merge_base_bases a b =
      let (aa, ab, ea, eb, common) = IsCommon-total a b in
      let (bases, e, only, all) = undominated_total (intersection aa ab) (intersection aa ab) in
      elim (Bool-cases (is_nil (intersection aa ab))) [
        | inl empty ↦ (
          [],
          rw (ea, eb) (rw empty (unfold sort in refl)),
          λ c. (
            λ m. absurd (nothing_in [] c refl m),
            λ best. absurd (nothing_in (intersection aa ab) c empty ((common c).1 best.0)),
          ),
        )
        | inr full ↦ (
          bases,
          rw (ea, eb) (rw full (rw e refl)),
          λ c. (
            λ m.
                let (mc, free) = only c m in
                ((common c).0 mc, λ o oc n r. free o ((common o).1 oc, n, r)),
            λ (cc', best). all c ((common c).1 cc') (λ o (mo, n, r). best o ((common o).0 mo) n r),
          ),
        )
      ]

  -- On every repository merge_base returns without an error: either with a common ancestor that is
  -- an ancestor of no other common ancestor, or with none where no such commit exists.
  pub merge_base_total :
      (a b : Text)
      → ((m : Text) × (merge_base fmt repo a b ≡ ok (some m)) × IsBest a b m)
        ⊎ ((merge_base fmt repo a b ≡ ok none) × ((m : Text) → ¬ IsBest a b m))
  merge_base_total a b =
      let (bases, e, best) = merge_base_bases a b in
      elim (Option-cases (head? (sort bases))) [
        | inl h ↦ inr (
          e ∙ ap ok h,
          λ m bm.
              nothing_in (sort bases) m (head?-none (sort bases) h)
                (contains-sort bases m ∙ (best m).1 bm),
        )
        | inr (m, h) ↦ inl (
          m,
          e ∙ ap ok h,
          (best m).0 (sym (contains-sort bases m) ∙ contains-head? (sort bases) h),
        )
      ]
