-- ===== src/Props/Laws.antt =====
-- What the methods of props.go do on every state, the nil map included.
use garden_docker.Base.{
  Str, Bool-cases, true, false, Option, none, some, List, [], ◌∷◌, ◌≡◌, ◌↔◌, inl, inr, refl, Go, ok,
  panic, arith, ◌==◌, if◌then◌else◌,
}
use garden_docker.Base.GoMap.{GoMap, RangeOrder, In, In-order, get-put, get-delete}
use garden_docker.Props.{
  PropsHandler, new_props_handler, read, contents, get_property, set_property, remove_property,
  all_agree, has_properties, nil_map_write,
}

-- The wanted entry is held.
abbrev pub Holds : PropsHandler → Str × Str → Type 0
Holds c (k, v) = read c.props k ≡ some v

all_agree-In :
    (c : PropsHandler) (es : GoMap Str)
    → all_agree c.props es ≡ true
    → (e : Str × Str) → In e es
    → Holds c e
unfolding all_agree
all_agree-In c [] h e i = absurd i
all_agree-In c ((k, v) ∷ es) h (j, w) (inl p) = ground arith
all_agree-In c ((k, v) ∷ es) h (j, w) (inr i) = all_agree-In c es (ground arith) (j, w) i

all_agree_of_In :
    (c : PropsHandler) (es : GoMap Str)
    → ((e : Str × Str) → In e es → Holds c e)
    → all_agree c.props es ≡ true
unfolding all_agree
all_agree_of_In c [] h = refl
all_agree_of_In c ((k, v) ∷ es) h =
    ground (arith, h (k, v) (inl refl), all_agree_of_In c es (λ e i. h e (inr i)))

-- HasProperties is true exactly when every wanted entry is held with its value, whatever the order
-- in which the runtime visits the wanted map.
pub has_properties_iff :
    (o : RangeOrder Str) (c : PropsHandler) (wanted : Option (GoMap Str))
    → (has_properties o c wanted ≡ true) ↔ ((e : Str × Str) → In e (contents wanted) → Holds c e)
unfolding has_properties
has_properties_iff o c wanted = (
  λ h e i. all_agree-In c (o.order (contents wanted)) h e ((In-order o e (contents wanted)).1 i),
  λ h.
      all_agree_of_In c (o.order (contents wanted))
        (λ e i. h e ((In-order o e (contents wanted)).0 i)),
)

-- On a handler that has a map, SetProperty and RemoveProperty return without error, and a later
-- read of any key gives the new value at the key that was set, nothing at the key that was
-- removed, and the old value elsewhere.
read-set-remove :
    (m : GoMap Str) (k v j : Str)
    → let c : PropsHandler = record { props = some m } in
      ((set_property k v c).0 ≡ ok tt)
      × (read (set_property k v c).1.props j ≡ (if k == j then some v else read c.props j))
      × ((remove_property k c).0 ≡ ok tt)
      × (read (remove_property k c).1.props j ≡ (if k == j then none else read c.props j))
unfolding set_property remove_property read
read-set-remove m k v j = (refl, get-put k j v m, refl, get-delete k j m)

-- A call of a method that may write.
pub data PropsCall : Type 0 where
  set : Str → Str → PropsCall
  remove : Str → PropsCall

abbrev pub perform : PropsCall → Go PropsHandler (Unit {0})
perform (set k v) = set_property k v
perform (remove k) = remove_property k

-- The handler after a sequence of calls, where a caller survives a panic, as an HTTP handler does.
abbrev pub after_calls : List PropsCall → PropsHandler → PropsHandler
after_calls [] c = c
after_calls (call ∷ calls) c = after_calls calls (perform call c).1

after_calls_nil : (calls : List PropsCall) → after_calls calls new_props_handler ≡ new_props_handler
unfolding set_property remove_property
after_calls_nil [] = refl
after_calls_nil (set k v ∷ calls) = after_calls_nil calls
after_calls_nil (remove k ∷ calls) = after_calls_nil calls

-- A nil map agrees with no map that wants something.
pub has_properties_nil :
    (o : RangeOrder Str) (e : Str × Str) (wanted : GoMap Str)
    → has_properties o new_props_handler (some (e ∷ wanted)) ≡ false
unfolding read
has_properties_nil o e wanted =
    elim (Bool-cases (has_properties o new_props_handler (some (e ∷ wanted)))) [
      | inl h ↦ cc ((has_properties_iff o new_props_handler (some (e ∷ wanted))).0 h e (inl refl))
      | inr h ↦ h
    ]

-- On the handler that a new container gets, after any calls whatever, SetProperty panics, the
-- handler is as new, GetProperty returns the empty string without error for every name, and
-- HasProperties holds of no map that wants something.
pub new_handler_stays_empty :
    (o : RangeOrder Str) (calls : List PropsCall) (k v : Str) (e : Str × Str) (wanted : GoMap Str)
    → let c = after_calls calls new_props_handler in
      (set_property k v c ≡ (panic nil_map_write, new_props_handler))
      × (get_property k c ≡ (ok [], new_props_handler))
      × (has_properties o c (some (e ∷ wanted)) ≡ false)
unfolding set_property get_property read
new_handler_stays_empty o calls k v e wanted =
    rw (after_calls_nil calls) (refl, refl, has_properties_nil o e wanted)
