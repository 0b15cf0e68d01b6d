-- ===== src/Base/Flags/Defined.antt =====
-- Which flags are defined, and reading arguments in two parts.
use garden_docker.Base.{Str, Bool, Bool-cases, some, List, ◌++◌, ◌≡◌, inl, inr, refl, ◌==◌}
use garden_docker.Base.GoMap
use garden_docker.Base.GoMap.{GoMap, get-put}
use garden_docker.Base.Flags.{Reads, nothing, apart, joined}
use garden_docker.GardenDocker.{accepts}

-- The flag is defined.
abbrev pub Defined : Str → GoMap Str → Type 0
Defined name flags = (v : Str) × (GoMap.get name flags ≡ some v)

pub Defined-put :
    (name k v : Str) (flags : GoMap Str) → Defined name flags → Defined name (GoMap.put k v flags)
Defined-put name k v flags (old, h) = elim (Bool-cases (k == name)) [
  | inl e ↦ (v, rw (get-put k name v flags, e) refl)
  | inr e ↦ (old, rw (get-put k name v flags, e) h)
]

pub Defined-Reads :
    (accepts : Str → Str → Bool) (name : Str) (args : List Str) (f g : GoMap Str)
    → Reads accepts args f g
    → Defined name f
    → Defined name g
Defined-Reads accepts name _ f _ nothing d = d
Defined-Reads accepts name _ f g (apart {name = k} {value = v} {args = args} h i a r) d =
    Defined-Reads accepts name args (GoMap.put k v f) g r (Defined-put name k v f d)
Defined-Reads accepts name _ f g (joined {name = k} {value = v} {args = args} h i a r) d =
    Defined-Reads accepts name args (GoMap.put k v f) g r (Defined-put name k v f d)

pub Reads-append :
    (accepts : Str → Str → Bool) (xs ys : List Str) (f g h : GoMap Str)
    → Reads accepts xs f g
    → Reads accepts ys g h
    → Reads accepts (xs ++ ys) f h
Reads-append accepts _ ys f _ h nothing q = q
Reads-append accepts _ ys f g h (apart {name = k} {value = v} {args = args} x y a r) q =
    apart x y a (Reads-append accepts args ys (GoMap.put k v f) g h r q)
Reads-append accepts _ ys f g h (joined {name = k} {value = v} {args = args} x y a r) q =
    joined x y a (Reads-append accepts args ys (GoMap.put k v f) g h r q)
