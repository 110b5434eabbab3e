-- ===== src/Fileutil/Laws.antt =====
-- What every call of a walk keeps, the walk keeps.
use oscdn.Base.{
  ap, ◌∙◌, ◌≡◌, ◌⊎◌, inl, inr, subst, sym, Bool, List, [], ◌∷◌, arith, Bytes, All, refl, ◌++◌,
}
use oscdn.Fileutil.{stopped, failed, Ended, Call, walk_dir, walked}

module _ {A S : Type 0} (root : Bytes) (fn : S → Bytes → Bool → A → Bool × S) where
  walk_dir-cases :
      (s : S) (c : Call A) (calls : List (Call A))
      → let s' = (fn s c.path c.is_dir c.env).1 in
        ((walk_dir root fn s (c ∷ calls)).1 ≡ s)
        ⊎ (((walk_dir root fn s (c ∷ calls)).1 ≡ s')
            ⊎ (((walk_dir root fn s (c ∷ calls)).1 ≡ (walk_dir root fn s calls).1)
                ⊎ ((walk_dir root fn s (c ∷ calls)).1 ≡ (walk_dir root fn s' calls).1)))
  unfolding walk_dir
  walk_dir-cases s c calls = ground arith

  module _ (P : S → Type 0) (Q : A → Type 0)
      (keeps : (s : S) (path : Bytes) (a_dir : Bool) (env : A)
        → Q env
        → P s
        → P (fn s path a_dir env).1) where
    pub walk_dir-keeps :
        (s : S) (calls : List (Call A))
        → All (λ c. Q c.env) calls
        → P s
        → P (walk_dir root fn s calls).1
    unfolding walk_dir
    walk_dir-keeps s [] _ h = h
    walk_dir-keeps s (c ∷ calls) (q, qs) h =
        let h' = keeps s c.path c.is_dir c.env q h in
        elim (walk_dir-cases s c calls) [
          | inl e ↦ subst P (sym e) h
          | inr (inl e) ↦ subst P (sym e) h'
          | inr (inr (inl e)) ↦ subst P (sym e) (walk_dir-keeps s calls qs h)
          | inr (inr (inr e)) ↦
              subst P (sym e) (walk_dir-keeps (fn s c.path c.is_dir c.env).1 calls qs h')
        ]

  -- The rest of the calls, if the walk has not ended.
  abbrev pub go_on : Ended × S → List (Call A) → Ended × S
  go_on (e, s) calls = elim e [
    | walked ↦ walk_dir root fn s calls
    | stopped ↦ (stopped, s)
    | failed x ↦ (failed x, s)
  ]

  pub walk_dir-append :
      (s : S) (before after : List (Call A))
      → walk_dir root fn s (before ++ after) ≡ go_on (walk_dir root fn s before) after
  unfolding walk_dir
  walk_dir-append s [] after = refl
  walk_dir-append s (c ∷ before) after = ground (
    arith,
    walk_dir-append s before after,
    walk_dir-append (fn s c.path c.is_dir c.env).1 before after,
  )

  go_on-walked :
      (r : Ended × S) (calls : List (Call A))
      → (go_on r calls).0 ≡ walked
      → go_on r calls ≡ walk_dir root fn r.1 calls
  go_on-walked (walked, s) calls h = refl
  go_on-walked (stopped, s) calls h = ground arith
  go_on-walked (failed x, s) calls h = ground arith

  -- A walk that goes through to its end does so from any place on.
  pub walk_dir-walked :
      (s : S) (before after : List (Call A))
      → (walk_dir root fn s (before ++ after)).0 ≡ walked
      → walk_dir root fn s (before ++ after) ≡ walk_dir root fn (walk_dir root fn s before).1 after
  walk_dir-walked s before after h =
      let e = walk_dir-append s before after in
      e ∙ go_on-walked (walk_dir root fn s before) after (sym (ap (λ r. r.0) e) ∙ h)
