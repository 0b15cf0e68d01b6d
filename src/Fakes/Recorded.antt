-- ===== src/Fakes/Recorded.antt =====
-- What the doubles of fakes/ have noted after calls, by their counts and arguments.
use Prim.Native.Nat.{ℕ, ◌+◌}
use garden_docker.Base.{List, [], ◌∷◌, ◌++◌, ◌≡◌, refl, sym, ap, ◌∙◌, ok}
use mathlib.Core.List.{append_assoc, append-nil}
use garden_docker.Base.Lists.{length, get_elem?, length-append, get_elem?-append}
use garden_docker.Fakes.{Fake, indexed, noted, by_stub, call, call_count, args_of_call, always}

module _ {W A R : Type 0} where
  -- The double and the world after calls with these arguments, the first one first.
  abbrev pub after_calls : List A → Fake W A R × W → Fake W A R × W
  after_calls [] s = s
  after_calls (a ∷ args) s = after_calls args (call a s).1

  args-after_calls :
      (args : List A) (f : Fake W A R) (w : W)
      → (after_calls args (f, w)).0.args_for_call ≡ f.args_for_call ++ args
  unfolding call
  args-after_calls [] f w = sym (append-nil f.args_for_call)
  args-after_calls (a ∷ args) f w =
      args-after_calls args (noted a f) (by_stub f.stub f.results a w).1
      ∙ append_assoc f.args_for_call (a ∷ []) args

  answers-after_calls :
      (args : List A) (f : Fake W A R) (w : W) (r : R) (b : A)
      → (call b (after_calls args (always r f, w))).0 ≡ ok r
  unfolding call always
  answers-after_calls [] f w r b = refl
  answers-after_calls (a ∷ args) f w r b = answers-after_calls args (noted a f) w r b

  -- After any calls, a double has counted them on top of those before, the arguments of the call
  -- with a number from there on are those that it was made with, a number beyond the last call
  -- panics, and if its results were fixed, without a stub, before the calls, then one more call
  -- answers these results.
  pub after_calls-noted :
      (args : List A) (f : Fake W A R) (w : W) (r : R) (i : ℕ) (b : A)
      → let s = after_calls args (f, w) in
        (call_count s.0 ≡ call_count f + length args)
        × (args_of_call s.0 (call_count f + i) ≡ indexed (get_elem? args i))
        × ((call b (after_calls args (always r f, w))).0 ≡ ok r)
  unfolding call_count args_of_call
  after_calls-noted args f w r i b =
      let p = args-after_calls args f w in
      (
        ap length p ∙ length-append f.args_for_call args,
        ap (λ (xs : List A). indexed (get_elem? xs (length f.args_for_call + i))) p
            ∙ ap indexed (get_elem?-append f.args_for_call args i),
        answers-after_calls args f w r b,
      )
