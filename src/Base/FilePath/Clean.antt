-- ===== src/Base/FilePath/Clean.antt =====
-- `path.Clean` keeps a path that it has returned, so that joining in two goes is joining at once.
use mathlib.Core.List.{reverse, reverse-append, List, [], ◌∷◌, ◌++◌}
use mathlib.Core.Path.{◌≡◌, refl, ◌∙◌, sym, ap}
use mathlib.Core.Bool.{Bool, true, false}
use mathlib.Core.Logic.{inl, inr}
use Prim.Native.Nat.{ℕ}
use native.Mathlib.Omega.{arith}
use garden_docker.Base.Text.{Bool-cases, ==_refl, Str, txt, str_dec, ◌=?◌}
use garden_docker.Base.FilePath.{
  split, rooted, push, push_all, onto_first, join_with_slash, render, clean, join,
}
use garden_docker.Base.FilePath.Laws.{
  IsElement, split-append, clean_lem, kept, kept-IsElement, clean_below, kept_append, join_two,
}
use garden_docker.Base.FilePath.Kept.{
  IsWhole, IsUnsplit, Each, none_left, one_more, AllDots, no_dots, more_dots, IsKept, nothing, name,
  dots, dots-IsWhole, rooted-IsWhole, push-IsKept, push_all-IsKept,
}

split_empty : split [] ≡ [] ∷ []
unfolding split
split_empty = refl

split-slash : (c : ℕ) (s : Str) → (c =? b'/') ≡ true → split (c ∷ s) ≡ [] ∷ split s
unfolding split
split-slash c s h = ground arith

split-byte : (c : ℕ) (s : Str) → (c =? b'/') ≡ false → split (c ∷ s) ≡ onto_first (c ∷ []) (split s)
unfolding split
split-byte c s h = ground arith

onto_first-IsUnsplit :
    (c : ℕ) (es : List Str)
    → (c =? b'/') ≡ false
    → Each IsUnsplit es
    → Each IsUnsplit (onto_first (c ∷ []) es)
unfolding split
onto_first-IsUnsplit c [] h none_left =
    one_more (rw (split-byte c [] h) (ap (onto_first (c ∷ [])) split_empty)) none_left
onto_first-IsUnsplit c (e ∷ es) h (one_more k ks) = one_more (rw (split-byte c e h, k) refl) ks

split-IsUnsplit : (s : Str) → Each IsUnsplit (split s)
unfolding split
split-IsUnsplit [] = one_more refl none_left
split-IsUnsplit (c ∷ s) = elim (Bool-cases (c =? b'/')) [
  | inl h ↦ rw (split-slash c s h) (one_more refl (split-IsUnsplit s))
  | inr h ↦ rw (split-byte c s h) (onto_first-IsUnsplit c (split s) h (split-IsUnsplit s))
]

push_all-keeps :
    (r : Bool) (xs : List Str)
    → Each IsUnsplit xs
    → (es : List Str) → IsKept r es
    → IsKept r (push_all r es xs)
unfolding push_all
push_all-keeps r [] none_left es k = k
push_all-keeps r (x ∷ xs) (one_more h hs) es k =
    push_all-keeps r xs hs (push r es x) (push-IsKept x h k)

kept-IsKept : (s : Str) → IsKept (rooted s) (kept s)
kept-IsKept s = push_all-keeps (rooted s) (split s) (split-IsUnsplit s) [] nothing

-- The elements of a rendered path.
split-join_with_slash :
    (x : Str) (xs : List Str) → Each IsUnsplit (x ∷ xs) → split (join_with_slash (x ∷ xs)) ≡ x ∷ xs
unfolding join_with_slash
split-join_with_slash x [] (one_more h none_left) = h
split-join_with_slash x (y ∷ ys) (one_more h hs) =
    rw (split-append x (join_with_slash (y ∷ ys)), h, split-join_with_slash y ys hs) refl

Each-append : {P : Str → Type 0} {xs ys : List Str} → Each P xs → Each P ys → Each P (xs ++ ys)
Each-append none_left k = k
Each-append (one_more h hs) k = one_more h (Each-append hs k)

Each-reverse : {P : Str → Type 0} (xs : List Str) → Each P xs → Each P (reverse xs)
Each-reverse [] none_left = none_left
Each-reverse (x ∷ xs) (one_more h hs) =
    rw (reverse-append (x ∷ []) xs) (Each-append (Each-reverse xs hs) (one_more h none_left))

AllDots-IsWhole : {es : List Str} → AllDots es → Each IsWhole es
AllDots-IsWhole no_dots = none_left
AllDots-IsWhole (more_dots h) = one_more dots-IsWhole (AllDots-IsWhole h)

IsKept-IsWhole : {r : Bool} {es : List Str} → IsKept r es → Each IsWhole es
IsKept-IsWhole nothing = none_left
IsKept-IsWhole (name h k) =
    one_more (record { not_empty = h.not_empty; not_split = h.not_split }) (IsKept-IsWhole k)
IsKept-IsWhole (dots h) = AllDots-IsWhole (more_dots h)

IsWhole-IsUnsplit : {es : List Str} → Each IsWhole es → Each IsUnsplit es
IsWhole-IsUnsplit none_left = none_left
IsWhole-IsUnsplit (one_more h hs) = one_more h.not_split (IsWhole-IsUnsplit hs)

push_all-empty : (r : Bool) (xs : List Str) → push_all r [] ([] ∷ xs) ≡ push_all r [] xs
unfolding push_all str_dec
push_all-empty r xs = refl

push_all-dot : push_all false [] (split (txt ".")) ≡ []
unfolding push_all split txt str_dec
push_all-dot = refl

push_all-join_with_slash :
    (r : Bool) (xs : List Str)
    → Each IsWhole xs
    → push_all r [] (split (join_with_slash xs)) ≡ push_all r [] xs
unfolding join_with_slash
push_all-join_with_slash r [] h = ap (push_all r []) split_empty ∙ push_all-empty r []
push_all-join_with_slash r (x ∷ xs) h =
    ap (push_all r []) (split-join_with_slash x xs (IsWhole-IsUnsplit h))

-- Cleaning a rendered path goes by the elements it was rendered from.
push_all-render :
    (r : Bool) (xs : List Str)
    → Each IsWhole xs
    → push_all r [] (split (render r xs)) ≡ push_all r [] xs
unfolding push_all
push_all-render true xs h =
    rw (split-slash b'/' (join_with_slash xs) refl)
      (push_all-empty true (split (join_with_slash xs)) ∙ push_all-join_with_slash true xs h)
push_all-render false [] h = push_all-dot
push_all-render false (x ∷ xs) h = push_all-join_with_slash false (x ∷ xs) h

rooted-first : (x t : Str) → IsWhole x → rooted (x ++ t) ≡ false
unfolding rooted
rooted-first [] t h = cc (h.not_empty, ==_refl [])
rooted-first (c ∷ s) t h = rooted-IsWhole h

rooted-render : (r : Bool) (xs : List Str) → Each IsWhole xs → rooted (render r xs) ≡ r
unfolding rooted join_with_slash txt
rooted-render true xs h = refl
rooted-render false [] h = refl
rooted-render false (x ∷ []) (one_more h hs) = rooted-IsWhole h
rooted-render false (x ∷ y ∷ ys) (one_more h hs) = rooted-first x _ h

-- A cleaned path keeps its elements and whether it is rooted.
rooted-clean : (s : Str) → rooted (clean s) ≡ rooted s
rooted-clean s = rw (clean_lem s) (
    rooted-render (rooted s) (reverse (kept s))
      (Each-reverse (kept s) (IsKept-IsWhole (kept-IsKept s))))

pub kept-clean : (s : Str) → kept (clean s) ≡ kept s
kept-clean s =
    ap (λ (r : Bool). push_all r [] (split (clean s))) (rooted-clean s)
    ∙ ap (λ (t : Str). push_all (rooted s) [] (split t)) (clean_lem s)
    ∙ push_all-render (rooted s) (reverse (kept s))
        (Each-reverse (kept s) (IsKept-IsWhole (kept-IsKept s)))
    ∙ push_all-IsKept (kept-IsKept s)

pub clean-clean : (s : Str) → clean (clean s) ≡ clean s
clean-clean s =
    clean_lem (clean s)
    ∙ ap (λ (r : Bool). render r (reverse (kept (clean s)))) (rooted-clean s)
    ∙ ap (λ (es : List Str). render (rooted s) (reverse es)) (kept-clean s)
    ∙ sym (clean_lem s)

-- A path that ends with the name `a`, and that cleaning keeps.
pub record EndsWith (a q : Str) : Type 0 where
  pub more : List Str
  pub its_kept : kept q ≡ a ∷ more
  pub its_clean : clean q ≡ q

pub join-EndsWith : (d a : Str) → IsElement a → EndsWith a (join (d ∷ a ∷ []))
unfolding join join_with_slash
join-EndsWith [] [] h = cc (h.not_empty, ==_refl [])
join-EndsWith [] (c ∷ s) h = record {
  more = [];
  its_kept = kept-clean (c ∷ s) ∙ kept-IsElement (c ∷ s) h;
  its_clean = clean-clean (c ∷ s);
}
join-EndsWith (c ∷ s) a h = record {
  more = kept (c ∷ s);
  its_kept = kept-clean ((c ∷ s) ++ (b'/' ∷ a)) ∙ kept_append c s h;
  its_clean = clean-clean ((c ∷ s) ++ (b'/' ∷ a));
}

clean_empty : clean [] ≡ b'.' ∷ []
unfolding clean rooted split push_all txt str_dec join_with_slash
clean_empty = refl

pub join_below : (q a b : Str) → EndsWith a q → IsElement b → join (q ∷ b ∷ []) ≡ q ++ (b'/' ∷ b)
unfolding join join_with_slash
join_below [] a b h hb = cc (clean_empty, h.its_clean)
join_below (c ∷ s) a b h hb =
    clean_below c s a h.more hb h.its_kept ∙ ap (λ (t : Str). t ++ (b'/' ∷ b)) h.its_clean

-- Joining in two goes is joining at once.
pub join-join :
    (d a b : Str)
    → IsElement a
    → IsElement b
    → join (join (d ∷ a ∷ []) ∷ b ∷ []) ≡ join (d ∷ a ∷ b ∷ [])
join-join d a b ha hb =
    join_below (join (d ∷ a ∷ [])) a b (join-EndsWith d a ha) hb ∙ sym (join_two d a b ha hb)
