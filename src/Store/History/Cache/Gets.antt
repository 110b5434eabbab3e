-- ===== src/Store/History/Cache/Gets.antt =====
-- What a call of `Get` makes of the entry at a path.
use oscdn.Base.{
  ◌≡◌, ◌∙◌, refl, sym, subst, ap, inl, inr, false, some, Option, arith, Bytes, lookup, str_eq,
  str_eq_iff, Bool-cases, ltb_ℤ,
}
use oscdn.Store.Urls.{Url, Urls, get_urls}
use oscdn.Store.World.{World, Node, content}
use oscdn.Store.Download.{Library, Config, Attempt, data_path}
use oscdn.Store.Get.{Request, get, get_locked}
use oscdn.Store.Get.Keeps.{get_locked-kept}
use oscdn.Store.History.{got, step}
use oscdn.Store.History.Isolated.{is_own, is_sweep}
use oscdn.Store.History.Turns.{Made, unchanged, start_download-IsMade, get_locked-kept_fresh}
use oscdn.Store.History.Cache.{is_fresh, Evolves, gets, IsEvolved, kept-IsEvolved, other-IsEvolved}

module _ (lib : Library) (cfg : Config) (p : Bytes) where
  old-IsEvolved :
      (w : World) (req : Request) (a : Attempt) (base key : Url)
      → get_urls lib.parse_url req.raw_url req.host ≡ Urls.ok base key
      → data_path lib cfg base key ≡ p
      → is_fresh req.now (lookup p w.disk) ≡ false
      → IsEvolved lib cfg p (got req a) w (get_locked lib cfg w base key req.range req.now a).1
  old-IsEvolved w req a base key urls own old =
      let path = data_path lib cfg base key in
      gets req a base key (lookup p w.disk)
        (lookup p (get_locked lib cfg w base key req.range req.now a).1.disk) urls own old
        (subst
          (λ q.
            Made lib cfg base key a (lookup q w.disk)
              (lookup q (get_locked lib cfg w base key req.range req.now a).1.disk))
          own
          (get_locked-kept lib cfg base key a req.range
            (λ s. Made lib cfg base key a (lookup path w.disk) (lookup path s.disk)) (λ s ds h. h)
            (λ s h. start_download-IsMade lib cfg base key a (lookup path w.disk) s h) w req.now
            unchanged))

  locked-IsEvolved :
      (w : World) (req : Request) (a : Attempt) (base key : Url)
      → get_urls lib.parse_url req.raw_url req.host ≡ Urls.ok base key
      → data_path lib cfg base key ≡ p
      → (n : Option Node) → lookup p w.disk ≡ n
      → IsEvolved lib cfg p (got req a) w (get_locked lib cfg w base key req.range req.now a).1
  unfolding is_fresh
  locked-IsEvolved w req a base key urls own (some (content c)) e =
      elim (Bool-cases (ltb_ℤ req.now c.info.expires_at)) [
        | inl fresh ↦
            kept-IsEvolved lib cfg p (got req a) w
              (get_locked lib cfg w base key req.range req.now a).1
              (ap (λ v. lookup p v.disk)
                (get_locked-kept_fresh lib cfg w base key req.range req.now a c
                  (ap (λ q. lookup q w.disk) own ∙ e) (ground arith)))
        | inr old ↦ old-IsEvolved w req a base key urls own (rw e old)
      ]
  locked-IsEvolved w req a base key urls own n e =
      old-IsEvolved w req a base key urls own (rw e refl)

  pub get-IsEvolved :
      (w : World) (req : Request) (a : Attempt) (u : Urls)
      → get_urls lib.parse_url req.raw_url req.host ≡ u
      → IsEvolved lib cfg p (got req a) w (step lib cfg w (got req a))
  unfolding step get is_own is_sweep
  get-IsEvolved w req a (Urls.err x) e =
      kept-IsEvolved lib cfg p (got req a) w (step lib cfg w (got req a)) (ground arith)
  get-IsEvolved w req a (Urls.ok base key) e =
      elim (Bool-cases (str_eq (data_path lib cfg base key) p)) [
        | inr other ↦ other-IsEvolved lib cfg p w (got req a) (ground arith) refl
        | inl own ↦ elim (Bool-cases w.released) [
          | inl over ↦
              kept-IsEvolved lib cfg p (got req a) w (step lib cfg w (got req a)) (ground arith)
          | inr running ↦
              let reached : (step lib cfg w (got req a)).disk
                  ≡ (get_locked lib cfg w base key req.range req.now a).1.disk =
                ground arith in
              subst (λ d. Evolves lib cfg p (got req a) (lookup p w.disk) (lookup p d))
                (sym reached)
                (locked-IsEvolved w req a base key e
                  ((str_eq_iff (data_path lib cfg base key) p).0 own) (lookup p w.disk) refl)
        ]
      ]
