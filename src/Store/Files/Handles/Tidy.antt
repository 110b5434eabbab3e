-- ===== src/Store/Files/Handles/Tidy.antt =====
-- No file stays open behind a handle but those of one that is in use.
use oscdn.Base.{
  Bool-cases, inl, inr, ◌∙◌, ℕ, ◌≡◌, refl, Bool, true, false, not, ◌&&◌, List, [], ◌∷◌, arith,
  if◌then◌else◌,
}
use oscdn.Store.Files.Handles.{
  Fd, nil, opened, closed, Handle, info, header, body, Answers, close_fd, close_fds, open_fds,
  opened_or_nil, transfer_fds, create_handle, open_handle, close_handle, new_handle, Use, create_it,
  open_it, close_it, use_handle, use_all, counts, open_count,
}

-- The number of open files that the flags of a handle stand for.
unfoldable pub due : Handle → ℕ
due h = if h.initialized && not h.close_done then 3 else 0

-- Only a handle in use has been closed.
record IsTidy (h : Handle) : Type 0 where
  matched : open_count h ≡ due h
  used : h.close_done ≡ true → h.initialized ≡ true

close_fd-counts : (closes : Bool) (f : Fd) → counts (close_fd closes f).1 ≡ 0
unfolding counts close_fd
close_fd-counts closes nil = refl
close_fd-counts closes opened = refl
close_fd-counts closes closed = refl

close_fds-open_count : (h : Handle) (env : Answers) → open_count (close_fds h env).1 ≡ 0
unfolding open_count close_fds
close_fds-open_count h env = omega (
  arith,
  close_fd-counts (env.closes info) h.info_fd,
  close_fd-counts (env.closes header) h.header_fd,
  close_fd-counts (env.closes body) h.body_fd,
)

close_fds-flags :
    (h : Handle) (env : Answers)
    → ((close_fds h env).1.initialized ≡ h.initialized)
      × ((close_fds h env).1.close_done ≡ h.close_done)
unfolding close_fds
close_fds-flags h env = (refl, refl)

open_fds-open_count :
    (h : Handle) (env : Answers)
    → open_count (open_fds h env).1 ≡ (if (open_fds h env).0 then 3 else 0)
unfolding open_fds opened_or_nil open_count counts
open_fds-open_count h env =
    let one = record h { info_fd = opened_or_nil (env.opens info) } in
    let two = record one { header_fd = opened_or_nil (env.opens header) } in
    let three = record two { body_fd = opened_or_nil (env.opens body) } in
    ground (
      arith,
      close_fds-open_count one env,
      close_fds-open_count two env,
      close_fds-open_count three env,
    )

open_fds-flags :
    (h : Handle) (env : Answers)
    → ((open_fds h env).1.initialized ≡ h.initialized)
      × ((open_fds h env).1.close_done ≡ h.close_done)
unfolding open_fds close_fds
open_fds-flags h env = ground arith

-- Opening a handle that was not in use.
transfer_fds-IsTidy :
    (r : Bool × Handle) (env : Answers)
    → open_count r.1 ≡ (if r.0 then 3 else 0)
    → r.1.initialized ≡ false
    → r.1.close_done ≡ false
    → IsTidy (transfer_fds r env).1
unfolding transfer_fds due open_count close_fds
transfer_fds-IsTidy (false, h) env n i c = record { matched = ground arith; used = λ k. cc }
transfer_fds-IsTidy (true, h) env n i c = record {
  matched = ground (arith, close_fds-open_count h env);
  used = ground arith;
}

IsTidy-fresh : (h : Handle) → IsTidy h → h.initialized ≡ false → h.close_done ≡ false
IsTidy-fresh h t i = ground (arith, t.used)

started :
    (h : Handle) (env : Answers)
    → IsTidy h
    → h.initialized ≡ false
    → IsTidy (transfer_fds (open_fds h env) env).1
started h env t i =
    let (same, again) = open_fds-flags h env in
    transfer_fds-IsTidy (open_fds h env) env (open_fds-open_count h env) (same ∙ i)
      (again ∙ IsTidy-fresh h t i)

create_handle-IsTidy : (h : Handle) (env : Answers) → IsTidy h → IsTidy (create_handle h env).1
unfolding create_handle
create_handle-IsTidy h env t = elim (Bool-cases h.initialized) [
  | inl i ↦ simp i t
  | inr i ↦ elim (Bool-cases env.made) [
    | inl m ↦ simp (i, m) (started h env t i)
    | inr m ↦ simp (i, m) t
  ]
]

open_handle-IsTidy : (h : Handle) (env : Answers) → IsTidy h → IsTidy (open_handle h env).1
unfolding open_handle
open_handle-IsTidy h env t = elim (Bool-cases h.initialized) [
  | inl i ↦ simp i t
  | inr i ↦ simp i (started h env t i)
]

close_handle-IsTidy : (h : Handle) (env : Answers) → IsTidy h → IsTidy (close_handle h env).1
unfolding close_handle due
close_handle-IsTidy h env t = record {
  matched = ground (
    arith,
    t.matched,
    close_fds-open_count (record h { close_done = true }) env,
    close_fds-flags (record h { close_done = true }) env,
  );
  used = ground (arith, t.used, close_fds-flags (record h { close_done = true }) env);
}

use_all-IsTidy : (h : Handle) (us : List (Use × Answers)) → IsTidy h → IsTidy (use_all h us)
unfolding use_all use_handle
use_all-IsTidy h [] t = t
use_all-IsTidy h ((create_it, env) ∷ us) t =
    use_all-IsTidy (create_handle h env).1 us (create_handle-IsTidy h env t)
use_all-IsTidy h ((open_it, env) ∷ us) t =
    use_all-IsTidy (open_handle h env).1 us (open_handle-IsTidy h env t)
use_all-IsTidy h ((close_it, env) ∷ us) t =
    use_all-IsTidy (close_handle h env).1 us (close_handle-IsTidy h env t)

-- Through any sequence of calls of Create, Open and Close on a new handle, whatever fails in them,
-- the handle holds its three files open from the call that succeeds to the first Close, and no file
-- at any other time: every error closes what was opened.
pub use_all-open_count :
    (us : List (Use × Answers)) → open_count (use_all new_handle us) ≡ due (use_all new_handle us)
unfolding open_count due counts
use_all-open_count us =
    (use_all-IsTidy new_handle us (record { matched = refl; used = λ c. cc })).matched
