-- ===== src/Store/Trash/Empties.antt =====
-- The trash is emptied, one level of its directories with each walk.
use oscdn.Base.{suc, zero, ◌≤◌, ℕ, ◌-◌, ◌≡◌, ◌↔◌, refl, true, arith}
use oscdn.Store.Trash.{
  sweeps, is_empty, Entries, nothing, file, dir, remove_file, remove_dir, sweep_visit, enter, sweep,
  depth, is_removable,
}

is_empty-depth : (entries : Entries) → (is_empty entries ≡ true) ↔ (depth entries ≡ 0)
unfolding is_empty depth
is_empty-depth nothing = ground arith
is_empty-depth (file keeps rest) = ground arith
is_empty-depth (dir keeps inner rest) = ground arith

-- A walk over what can be removed goes through to its end, leaves what can be removed, and takes
-- away one level.
sweep-depth :
    (entries : Entries)
    → is_removable entries ≡ true
    → ((sweep entries).0 ≡ true)
      × (is_removable (sweep entries).1 ≡ true)
      × (depth (sweep entries).1 ≡ depth entries - 1)
unfolding sweep depth is_removable remove_file remove_dir sweep_visit enter
sweep-depth nothing h = (refl, refl, refl)
sweep-depth (file keeps rest) h = ground (arith, sweep-depth rest)
sweep-depth (dir keeps inner rest) h =
    ground (arith, sweep-depth inner, sweep-depth rest, is_empty-depth inner)

depth-eq_zero : (entries : Entries) → (entries ≡ nothing) ↔ (depth entries ≡ 0)
unfolding depth
depth-eq_zero nothing = ground arith
depth-eq_zero (file keeps rest) = ground arith
depth-eq_zero (dir keeps inner rest) = ground arith

-- While nothing is moved to the trash and the system refuses to remove nothing of what lies there,
-- the walks of the trash cleaner empty it: after so many walks as its directories are deep nothing
-- is left, and after fewer something is.
pub sweeps-depth :
    (n : ℕ) (entries : Entries)
    → is_removable entries ≡ true
    → (sweeps n entries ≡ nothing) ↔ (depth entries ≤ n)
unfolding sweeps
sweeps-depth zero entries h = ground (arith, depth-eq_zero entries)
sweeps-depth (suc n) entries h =
    ground (arith, sweep-depth entries, sweeps-depth n (sweep entries).1)
