-- ===== src/Base/FilePath/Laws.antt =====
-- Laws of Go's `path.Join`.
use mathlib.Core.List.{reverse, reverse-append}
use Prim.Native.Nat.{ℕ}
use mathlib.Core.Path.{◌≡◌, refl, ◌∙◌, sym, ap}
use mathlib.Core.Bool.{Bool, true, false}
use mathlib.Core.List.{List, [], ◌∷◌, ◌++◌, append_assoc}
use native.Mathlib.Omega.{arith}
use mathlib.Core.Logic.{inl, inr}
use garden_docker.Base.Text.{Bool-cases, ==_refl, Str, txt, ◌==◌, ◌=?◌}
use garden_docker.Base.FilePath.{
  split, rooted, push, push_all, join_with_slash, render, clean, join,
}

-- A name of one element, which a path keeps as it is.
pub record IsElement (e : Str) : Type 0 where
  pub not_empty : (e == []) ≡ false
  pub not_dot : (e == txt ".") ≡ false
  pub not_dots : (e == txt "..") ≡ false
  pub not_split : split e ≡ e ∷ []
  pub not_rooted : rooted e ≡ false

pub split-cons : (s : Str) → (e : Str) × (es : List Str) × (split s ≡ e ∷ es)
unfolding split
split-cons [] = ([], [], refl)
split-cons (c ∷ s) = elim (Bool-cases (c =? b'/')) [
  | inl h ↦ ([], split s, ground arith)
  | inr h ↦ ((c ∷ (split-cons s).0), (split-cons s).1, ground (arith, split-cons s))
]

pub split-append : (s t : Str) → split (s ++ (b'/' ∷ t)) ≡ split s ++ split t
unfolding split
split-append [] t = refl
split-append (c ∷ s) t = ground (arith, split-append s t, split-cons s)

pub push_all-append :
    (r : Bool) (kept xs ys : List Str)
    → push_all r kept (xs ++ ys) ≡ push_all r (push_all r kept xs) ys
unfolding push_all
push_all-append r kept [] ys = refl
push_all-append r kept (x ∷ xs) ys = push_all-append r (push r kept x) xs ys

pub push-IsElement : (r : Bool) (kept : List Str) {e : Str} → IsElement e → push r kept e ≡ e ∷ kept
unfolding push
push-IsElement r kept h = ground arith

join_with_slash-snoc :
    (x : Str) (xs : List Str) (e : Str)
    → join_with_slash ((x ∷ xs) ++ (e ∷ [])) ≡ join_with_slash (x ∷ xs) ++ (b'/' ∷ e)
unfolding join_with_slash
join_with_slash-snoc x [] e = refl
join_with_slash-snoc x (y ∷ ys) e = simp (join_with_slash-snoc y ys e, append_assoc)

pub clean_lem : (s : Str) → clean s ≡ render (rooted s) (reverse (push_all (rooted s) [] (split s)))
unfolding clean
clean_lem s = refl

rooted-append : (c : ℕ) (s t : Str) → rooted ((c ∷ s) ++ t) ≡ rooted (c ∷ s)
unfolding rooted
rooted-append c s t = refl

render-snoc :
    (r : Bool) (x : Str) (xs : List Str) (e : Str)
    → render r ((x ∷ xs) ++ (e ∷ [])) ≡ render r (x ∷ xs) ++ (b'/' ∷ e)
render-snoc true x xs e = ap (λ (t : Str). b'/' ∷ t) (join_with_slash-snoc x xs e)
render-snoc false x xs e = join_with_slash-snoc x xs e

-- Two elements in a row.
render_two :
    (r : Bool) (kept : List Str) (a b : Str)
    → render r (reverse (b ∷ a ∷ kept)) ≡ render r (reverse (a ∷ kept)) ++ (b'/' ∷ b)
render_two r kept a b =
    rw (reverse-append (b ∷ []) (a ∷ kept), reverse-append (a ∷ []) kept) (go (reverse kept))
  where
    go :
        (xs : List Str)
        → render r ((xs ++ (a ∷ [])) ++ (b ∷ [])) ≡ render r (xs ++ (a ∷ [])) ++ (b'/' ∷ b)
    go [] = render-snoc r a [] b
    go (x ∷ xs) = render-snoc r x (xs ++ (a ∷ [])) b

-- The elements that cleaning keeps of `s`, the last first.
abbrev pub kept : Str → List Str
kept s = push_all (rooted s) [] (split s)

pub kept_append :
    (c : ℕ) (s : Str) {e : Str} → IsElement e → kept ((c ∷ s) ++ (b'/' ∷ e)) ≡ e ∷ kept (c ∷ s)
unfolding push_all
kept_append c s {e} h =
    rw (rooted-append, split-append, h.not_split, push_all-append) (push-IsElement _ _ h)

pub kept-IsElement : (e : Str) → IsElement e → kept e ≡ e ∷ []
unfolding push_all
kept-IsElement e h = rw h.not_split (push-IsElement _ _ h)

-- One more element below a path whose last kept element is `a`.
pub clean_below :
    (c : ℕ) (s a : Str) (more : List Str) {e : Str}
    → IsElement e
    → kept (c ∷ s) ≡ a ∷ more
    → clean ((c ∷ s) ++ (b'/' ∷ e)) ≡ clean (c ∷ s) ++ (b'/' ∷ e)
unfolding rooted push_all
clean_below c s a more {e} h p =
    clean_lem ((c ∷ s) ++ (b'/' ∷ e))
    ∙ ap (λ (es : List Str). render (rooted (c ∷ s)) (reverse es))
        (kept_append c s h ∙ ap (λ (es : List Str). e ∷ es) p)
    ∙ render_two (rooted (c ∷ s)) more a e
    ∙ ap (λ (es : List Str). render (rooted (c ∷ s)) (reverse es) ++ (b'/' ∷ e)) (sym p)
    ∙ ap (λ (t : Str). t ++ (b'/' ∷ e)) (sym (clean_lem (c ∷ s)))

-- Joining two elements to a directory is joining the first, then a slash and the second.
pub join_two :
    (d a b : Str)
    → IsElement a
    → IsElement b
    → join (d ∷ a ∷ b ∷ []) ≡ join (d ∷ a ∷ []) ++ (b'/' ∷ b)
unfolding join
join_two [] [] b ha hb = cc (ha.not_empty, ==_refl [])
join_two [] (c ∷ s) b ha hb = clean_below c s (c ∷ s) [] hb (kept-IsElement (c ∷ s) ha)
join_two (c ∷ s) a b ha hb =
    ap clean (sym (append_assoc (c ∷ s) (b'/' ∷ a) (b'/' ∷ b)))
    ∙ clean_below c (s ++ (b'/' ∷ a)) a (kept (c ∷ s)) hb (kept_append c s ha)
