-- ===== src/Base/Http.antt =====
-- What the code uses of Go's package net/http: headers by canonical key, methods, status codes.
use oscdn.Base.{Bytes, List, [], ◌∷◌, none, some, lookup}

-- The values of a key in order; the keys are canonical, as the server and the client store them.
abbrev pub Header : Type 0
Header = List (Bytes × List Bytes)

-- `Header.Values`
unfoldable pub values : Header → Bytes → List Bytes
unfolding lookup
values h key = elim (lookup key h) [ none ↦ [] | some vs ↦ vs ]

-- `Header.Get`: the first value, or an empty text.
unfoldable pub get : Header → Bytes → Bytes
unfolding values
get h key = elim (values h key) [ [] ↦ [] | v ∷ vs ↦ v ]
