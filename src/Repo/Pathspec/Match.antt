-- ===== src/Repo/Pathspec/Match.antt =====
-- The loop of `seg_match` of crates/repo/src/pathspec.rs finds every match.
use mcagit.Common.{
  ℕ, suc, ◌+◌, ◌≤◌, [], ◌∷◌, ◌++◌, Bool, true, false, ◌||◌, Option, none, some, ◌==◌, ◌≡◌, refl,
  sym, ap, ap₂, ◌∙◌, arith, length, length-append, append_assoc,
}
use mcagit.Common.Text.{Text, Every-append}
use mcagit.Repo.Pathspec.{tail, rounds}
use mcagit.Repo.Pathspec.Glob.{anywhere, glob, NoStar, reach_here, anywhere-anywhere}

-- What the last star can still reach.
abbrev pub retry : Option (Text × Text) → Bool
retry none = false
retry (some (q, m)) = anywhere (glob q) (tail m)

abbrev pub left : ℕ → Text → Option (Text × Text) → ℕ
left each s none = rounds each s
left each s (some (q, m)) = rounds each m

-- Between the last star and the present position the pattern has no star, and as many bytes as the text.
pub record IsBehind (each : ℕ) (p s q m : Text) : Type 0 where
  pub u : Text
  pub v : Text
  pub pattern_parts : q ≡ u ++ p
  pub text_parts : m ≡ v ++ s
  pub same_length : length u ≡ length v
  pub plain : NoStar u
  pub literal : NoStar m
  pub room : length q + length m ≤ each

abbrev pub IsPlaced : ℕ → Text → Text → Option (Text × Text) → Type 0
IsPlaced each p s none = Unit
IsPlaced each p s (some (q, m)) = IsBehind each p s q m

pub retry-anywhere :
    (each : ℕ) (p s : Text) (star : Option (Text × Text))
    → IsPlaced each p s star
    → retry star ≡ true
    → anywhere (glob p) s ≡ true
retry-anywhere each p s none b h = cc
retry-anywhere each p s (some (q, m)) b h =
    reach_here b.u p b.v s b.plain b.same_length
      (ap₂ (λ x y. anywhere (glob x) (tail y)) (sym b.pattern_parts) (sym b.text_parts) ∙ h)

pub anywhere-unfold : (f : Text → Bool) (t : Text) → anywhere f t ≡ (f t || anywhere f (tail t))
unfolding anywhere
anywhere-unfold f [] = ground arith
anywhere-unfold f (c ∷ t) = refl

anywhere-ext :
    (f g : Text → Bool) (t : Text) → ((s : Text) → f s ≡ g s) → anywhere f t ≡ anywhere g t
unfolding anywhere
anywhere-ext f g [] h = h []
anywhere-ext f g (c ∷ t) h = ap₂ (λ a b. a || b) (h (c ∷ t)) (anywhere-ext f g t h)

pub glob-star : (q : ℕ) (p s : Text) → (q == b'*') ≡ true → glob (q ∷ p) s ≡ anywhere (glob p) s
unfolding glob
glob-star q p s h = ground arith

-- Behind a star, an earlier star is of no use.
pub glob_forgets :
    (q : ℕ) (p s : Text)
    → (q == b'*') ≡ true
    → anywhere (glob (q ∷ p)) s ≡ true
    → anywhere (glob p) s ≡ true
glob_forgets q p s h e =
    anywhere-anywhere (glob p) s
      (sym (anywhere-ext (glob (q ∷ p)) (anywhere (glob p)) s (λ t. glob-star q p t h)) ∙ e)

pub IsBehind-next :
    (each a c : ℕ) (p s q m : Text)
    → (a == b'*') ≡ false
    → IsBehind each (a ∷ p) (c ∷ s) q m
    → IsBehind each p s q m
IsBehind-next each a c p s q m n b = record {
  u = b.u ++ (a ∷ []);
  v = b.v ++ (c ∷ []);
  pattern_parts = b.pattern_parts ∙ sym (append_assoc b.u (a ∷ []) p);
  text_parts = b.text_parts ∙ sym (append_assoc b.v (c ∷ []) s);
  same_length =
      omega (arith, length-append b.u (a ∷ []), length-append b.v (c ∷ []), b.same_length);
  plain = Every-append _ b.u (a ∷ []) b.plain (ground arith, tt);
  literal = b.literal;
  room = b.room;
}

pub IsBehind-start :
    (each : ℕ) (q m : Text) → NoStar m → length q + length m ≤ each → IsBehind each q m q m
IsBehind-start each q m n h = record {
  u = [];
  v = [];
  pattern_parts = refl;
  text_parts = refl;
  same_length = refl;
  plain = tt;
  literal = n;
  room = h;
}

pub NoStar-tail : (m : Text) → NoStar m → NoStar (tail m)
NoStar-tail [] h = tt
NoStar-tail (c ∷ m) h = h.1

-- A retry takes a byte off the text of the star, and has the rounds for it.
pub rounds-tail :
    (each : ℕ) (p : Text) (c : ℕ) (s q m : Text) (fuel : ℕ)
    → IsBehind each p (c ∷ s) q m
    → rounds each m + (length p + suc (length s)) ≤ suc fuel
    → (rounds each (tail m) + (length q + length (tail m)) ≤ fuel)
      × (length q + length (tail m) ≤ each)
rounds-tail each p c s q m fuel b h = go m b.text_parts b.room h
  where
    go :
        (m' : Text)
        → m' ≡ b.v ++ (c ∷ s)
        → length q + length m' ≤ each
        → rounds each m' + (length p + suc (length s)) ≤ suc fuel
        → (rounds each (tail m') + (length q + length (tail m')) ≤ fuel)
          × (length q + length (tail m') ≤ each)
    go [] e r h' = absurd (omega (arith, ap length e, length-append b.v (c ∷ s)))
    go (d ∷ m') e r h' = (omega (arith, r, h'), omega (arith, r))

pub rounds-left :
    (each : ℕ) (p s : Text) (star : Option (Text × Text))
    → IsPlaced each p s star
    → rounds each s ≤ left each s star
rounds-left each p s none b = omega arith
rounds-left each p s (some (q, m)) b =
    omega (arith, ap (rounds each) b.text_parts, rounds-append b.v)
  where
    rounds-append : (v : Text) → rounds each (v ++ s) ≡ rounds each v + rounds each s
    rounds-append [] = omega arith
    rounds-append (d ∷ v) = omega (arith, rounds-append v)
