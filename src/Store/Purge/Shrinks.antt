-- ===== src/Store/Purge/Shrinks.antt =====
-- Operations that only take things from the disk.
use oscdn.Base.{◌≡◌, none, some, inl, inr, Option-cases, Bytes, lookup}
use oscdn.Store.World.{World, Node}
use oscdn.Store.Download.{Library, Config}
use oscdn.Store.Download.Admitted.{AllAdmitted}

-- Whatever is on the second disk is on the first, at the same path.
abbrev pub Shrinks : World → World → Type 0
Shrinks w w' =
    (path : Bytes) (n : Node) → lookup path w'.disk ≡ some n → lookup path w.disk ≡ some n

pub Shrinks-refl : (w : World) → Shrinks w w
Shrinks-refl w path n h = h

pub Shrinks-trans : (a b c : World) → Shrinks a b → Shrinks b c → Shrinks a c
Shrinks-trans a b c ab bc path n h = ab path n (bc path n h)

pub Shrinks-none :
    (w w' : World) (path : Bytes)
    → Shrinks w w'
    → lookup path w.disk ≡ none
    → lookup path w'.disk ≡ none
Shrinks-none w w' path s h = elim (Option-cases (lookup path w'.disk)) [
  | inl e ↦ e
  | inr (n, e) ↦ let e' = s path n e in cc
]

pub Shrinks-AllAdmitted :
    (lib : Library) (cfg : Config) (w w' : World)
    → Shrinks w w'
    → AllAdmitted lib cfg w
    → AllAdmitted lib cfg w'
Shrinks-AllAdmitted lib cfg w w' s h path c found = h path c (s path _ found)
