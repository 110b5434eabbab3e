-- ===== src/Store/History/Whole.antt =====
-- Which contents on the disk are whole: all but those whose download is in progress.
pub mod Steps
pub mod Lives
pub mod Delivered
use oscdn.Base.{
  ◌≢◌, erase, ◌≡◌, refl, ◌∙◌, sym, ap, subst, ◌⊎◌, inl, inr, ◌<◌, ℕ, ◌+◌, Bool, true, false, Option,
  none, some, [], arith, Bool-cases, Bytes, length, lookup, lookup-erase, lookup-insert, str_eq,
  str_eq_iff, str_eq_refl, pos, ◌≤ℤ◌,
}
use oscdn.Base.Http.{Header}
use oscdn.Store.Urls.{Url}
use oscdn.Store.World.{Info, World, Content, content, move_to_trash, moved, is_exists}
use oscdn.Store.Download.{Library, Config, Attempt, create_data, data_path}

-- The body has the recorded size, if that is known.
abbrev pub IsWhole : Content → Type 0
IsWhole c = pos 0 ≤ℤ c.info.size → c.info.size ≡ pos (length c.body)

-- A content stands at the one path of its key, its number has been given out, and it is whole or has
-- its own download registered under its key.
pub record IsSettled (place : Bytes → Bytes) (w : World) (path : Bytes) (c : Content) : Type 0 where
  pub placed : path ≡ place c.info.key_url
  pub numbered : c.file < w.next_file
  pub whole : IsWhole c ⊎ (lookup c.info.key_url w.downloads ≡ some c.file)

abbrev pub AllSettled : (Bytes → Bytes) → World → Type 0
AllSettled place w =
    (path : Bytes) (c : Content) → lookup path w.disk ≡ some (content c) → IsSettled place w path c

absent_apart :
    (w : World) (path p : Bytes) (c : Content)
    → path ≡ p
    → is_exists w path ≡ some false
    → lookup p w.disk ≡ some (content c)
    → ⊥
unfolding is_exists
absent_apart w path p c same gone found = ground (arith, ap (λ q. lookup q w.disk) same)

module _ (place : Bytes → Bytes) where
  pub move_to_trash-AllSettled :
      (w w' : World) (path : Bytes)
      → move_to_trash w path ≡ moved w'
      → AllSettled place w
      → AllSettled place w'
  unfolding move_to_trash
  move_to_trash-AllSettled w w' path e h p c found =
      let i = h p c (ground (arith, lookup-erase path p w.disk)) in
      record {
        placed = i.placed;
        numbered = ground (arith, i.numbered);
        whole = ground (arith, i.whole);
      }

  -- Contents at two paths have two keys.
  other_key :
      (path key p k : Bytes) → path ≡ place key → p ≡ place k → path ≢ p → str_eq key k ≡ false
  other_key path key p k e e' ne = elim (Bool-cases (str_eq key k)) [
    | inl same ↦ absurd (ne (e ∙ ap place ((str_eq_iff key k).0 same) ∙ sym e'))
    | inr other ↦ other
  ]

  -- The removal of a download whose data is gone.
  pub forgotten-AllSettled :
      (w : World) (path key : Bytes)
      → path ≡ place key
      → is_exists w path ≡ some false
      → AllSettled place w
      → AllSettled place (record w { downloads = erase key w.downloads })
  unfolding is_exists
  forgotten-AllSettled w path key at gone h p c found =
      let i = h p c found in
      let apart : str_eq key c.info.key_url ≡ false =
        other_key path key p c.info.key_url at i.placed
          (λ same. absent_apart w path p c same gone found) in
      record {
        placed = i.placed;
        numbered = i.numbered;
        whole = ground (arith, i.whole, lookup-erase key c.info.key_url w.downloads, apart);
      }

  -- New data at a path that was free.
  pub create_data-AllSettled :
      (w : World) (path key : Bytes) (info : Info) (header : Header)
      → path ≡ place key
      → lookup path w.disk ≡ none
      → info.key_url ≡ key
      → AllSettled place w
      → AllSettled place (create_data w path key info header)
  unfolding create_data
  create_data-AllSettled w path key info header at free own h p c found =
      elim (Bool-cases (str_eq path p)) [
        | inl same ↦
            let is_new : new ≡ c = ground (arith, lookup-insert path p (content new) w.disk) in
            subst (IsSettled place (create_data w path key info header) p) is_new (record {
              placed = sym ((str_eq_iff path p).0 same) ∙ at ∙ ap place (sym own);
              numbered = omega arith;
              whole = inr (
                  ground (
                    arith,
                    lookup-insert key info.key_url w.next_file w.downloads,
                    str_eq_iff key info.key_url,
                  ));
            })
        | inr other ↦
            let i = h p c (ground (arith, lookup-insert path p (content new) w.disk)) in
            let apart : str_eq key c.info.key_url ≡ false =
              other_key path key p c.info.key_url at i.placed
                (λ e. ground (arith, str_eq_iff path p)) in
            record {
              placed = i.placed;
              numbered = omega (arith, i.numbered);
              whole =
                  ground (
                    arith,
                    i.whole,
                    apart,
                    lookup-insert key c.info.key_url w.next_file w.downloads,
                  );
            }
      ]
    where
      new : Content
      new = record { info = info; header = header; body = []; file = w.next_file }
