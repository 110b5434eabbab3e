-- ===== src/Store/Follow/Whole.antt =====
-- A reader that follows a download gets all of its body file.
use oscdn.Base.{
  take_of_ge, subst, ◌≤◌, ℕ, zero, suc, ◌≡◌, refl, sym, ap, ◌∙◌, Bool, true, false, [], ◌∷◌, ◌++◌,
  arith, length, length-append, append_assoc, append-nil, take, drop, Bytes,
}
use oscdn.Store.Follow.{
  Moves, stop, go, moves, reads, ends, polls, sees_closed, Phase, copying, waiting, last_copy, done,
  Pipe, is_copying, read_some, end_copy, Follows, starts, writes, closes,
}

is_last : Phase → Bool
is_last copying = false
is_last waiting = false
is_last last_copy = true
is_last done = true

-- What has been sent is the beginning of the file, all of it behind the return, and in the last copy
-- the channel has been closed.
record IsFollowing (p : Pipe) : Type 0 where
  ahead : Bytes
  prefix : p.body ≡ p.sent ++ ahead
  final : is_last p.phase ≡ true → p.closed ≡ true
  whole : p.phase ≡ done → p.sent ≡ p.body

drop-append : (s t : Bytes) → drop (length s) (s ++ t) ≡ t
drop-append [] t = refl
drop-append (c ∷ s) t = drop-append s t

take-drop : (k : ℕ) (s : Bytes) → take k s ++ drop k s ≡ s
take-drop zero s = refl
take-drop (suc k) [] = refl
take-drop (suc k) (c ∷ s) = ap (λ t. c ∷ t) (take-drop k s)

nothing_ahead : (s t ahead : Bytes) → t ≡ s ++ ahead → length t ≤ length s → s ≡ t
nothing_ahead s t [] e h = sym (e ∙ append-nil s)
nothing_ahead s t (c ∷ ahead) e h = absurd (omega (arith, ap length e, length-append s (c ∷ ahead)))

is_last-end_copy :
    (phase : Phase)
    → is_copying phase ≡ true
    → is_last (end_copy phase) ≡ true
    → is_last phase ≡ true
unfolding is_last is_copying end_copy
is_last-end_copy copying c e = e
is_last-end_copy waiting c e = e
is_last-end_copy last_copy c e = refl
is_last-end_copy done c e = refl

Follows-IsFollowing : (p : Pipe) → Follows p → IsFollowing p
unfolding is_last read_some is_copying
Follows-IsFollowing _ (starts body) = record {
  ahead = body;
  prefix = refl;
  final = λ e. ground arith;
  whole = λ e. ground arith;
}
Follows-IsFollowing _ (writes chunk {p = p} open_yet f) =
    let i = Follows-IsFollowing p f in
    record {
      ahead = i.ahead ++ chunk;
      prefix = ap (λ s. s ++ chunk) i.prefix ∙ append_assoc p.sent i.ahead chunk;
      final = i.final;
      whole = λ e. ground (arith, i.final (ap is_last e));
    }
Follows-IsFollowing _ (closes {p = p} f) =
    let i = Follows-IsFollowing p f in
    record { ahead = i.ahead; prefix = i.prefix; final = λ e. refl; whole = i.whole }
Follows-IsFollowing _ (moves (reads k p copies) f) =
    let i = Follows-IsFollowing p f in
    record {
      ahead = drop k i.ahead;
      prefix =
          let dropped = ap (drop (length p.sent)) i.prefix ∙ drop-append p.sent i.ahead in
          i.prefix
          ∙ ap (λ s. p.sent ++ s) (sym (take-drop k i.ahead))
          ∙ sym (append_assoc p.sent (take k i.ahead) (drop k i.ahead))
          ∙ ap (λ d. (p.sent ++ take k d) ++ drop k i.ahead) (sym dropped);
      final = i.final;
      whole = λ e. cc (sym copies ∙ ap is_copying e);
    }
Follows-IsFollowing _ (moves (ends p copies at_end) f) =
    let i = Follows-IsFollowing p f in
    record {
      ahead = i.ahead;
      prefix = i.prefix;
      final = λ e. i.final (is_last-end_copy p.phase copies e);
      whole = λ e. nothing_ahead p.sent p.body i.ahead i.prefix (ground arith);
    }
Follows-IsFollowing _ (moves (polls p waits) f) =
    let i = Follows-IsFollowing p f in
    record {
      ahead = i.ahead;
      prefix = i.prefix;
      final = λ e. ground arith;
      whole = λ e. ground arith;
    }
Follows-IsFollowing _ (moves (sees_closed p waits over) f) =
    let i = Follows-IsFollowing p f in
    record { ahead = i.ahead; prefix = i.prefix; final = λ e. over; whole = λ e. ground arith }

-- However the writes of the download and the reads of its follower alternate, and however much each
-- read takes: once the follower has returned, with no error and no release of the store, the download
-- is over, and all of its body file has gone into the pipe, in order.
pub Follows-whole : (p : Pipe) → Follows p → p.phase ≡ done → (p.closed ≡ true) × (p.sent ≡ p.body)
unfolding is_last
Follows-whole p f e = let i = Follows-IsFollowing p f in (i.final (ap is_last e), i.whole e)

-- The state with all of the file sent, in a phase.
abbrev in_phase : Pipe → Phase → Pipe
in_phase p phase = record p { sent = p.body; phase = phase }

Moves-append : (p q r : Pipe) → Moves p q → Moves q r → Moves p r
Moves-append p _ r (stop _) n = n
Moves-append p q r (go {q = q'} m ms) n = go m (Moves-append q' q r ms n)

read_some-ahead :
    (p : Pipe) (ahead : Bytes)
    → p.body ≡ p.sent ++ ahead
    → read_some (length ahead) p ≡ in_phase p p.phase
unfolding read_some
read_some-ahead p ahead e =
    let dropped = ap (drop (length p.sent)) e ∙ drop-append p.sent ahead in
    ap (λ s. record p { sent = s })
      (ap (λ d. p.sent ++ take (length ahead) d) dropped
        ∙ ap (λ s. p.sent ++ s) (take_of_ge (length ahead) ahead (omega arith))
        ∙ sym e)

-- A copy to its end: one read of all that is ahead.
copy-Moves :
    (p : Pipe) (ahead : Bytes)
    → p.body ≡ p.sent ++ ahead
    → is_copying p.phase ≡ true
    → Moves p (in_phase p (end_copy p.phase))
copy-Moves p ahead e copies =
    let at_end = ends (in_phase p p.phase) copies (ground arith) in
    go (reads (length ahead) p copies) (
      subst (λ s. Moves s (in_phase p (end_copy p.phase))) (sym (read_some-ahead p ahead e))
        (go at_end (stop (in_phase p (end_copy p.phase)))))

waiting-Moves :
    (p : Pipe) (ahead : Bytes)
    → p.body ≡ p.sent ++ ahead
    → p.phase ≡ waiting
    → p.closed ≡ true
    → Moves p (in_phase p done)
unfolding is_copying end_copy
waiting-Moves p ahead e waits over =
    go (sees_closed p waits over) (copy-Moves (record p { phase = last_copy }) ahead e refl)

returning :
    (p : Pipe) (phase : Phase)
    → IsFollowing p
    → p.phase ≡ phase
    → p.closed ≡ true
    → Moves p (in_phase p done)
unfolding is_copying end_copy
returning p copying i e over =
    Moves-append p (in_phase p waiting) (in_phase p done)
      (subst (λ f. Moves p (in_phase p (end_copy f))) e
        (copy-Moves p i.ahead i.prefix (ap is_copying e)))
      (waiting-Moves (in_phase p waiting) [] (sym (append-nil p.body)) refl over)
returning p waiting i e over = waiting-Moves p i.ahead i.prefix e over
returning p last_copy i e over =
    subst (λ f. Moves p (in_phase p (end_copy f))) e
      (copy-Moves p i.ahead i.prefix (ap is_copying e))
returning p done i e over =
    subst (λ q. Moves p q)
      (ap (λ s. record p { sent = s }) (i.whole e)
        ∙ ap (λ f. record p { sent = p.body; phase = f }) e)
      (stop p)

-- Once the download is over, its follower can go on to its return from every state that it can be in,
-- and has then sent all of the body file.
pub Follows-returns :
    (p : Pipe)
    → Follows p
    → p.closed ≡ true
    → (q : Pipe) × Moves p q × (q.phase ≡ done) × (q.sent ≡ p.body)
Follows-returns p f over =
    (in_phase p done, returning p p.phase (Follows-IsFollowing p f) refl over, refl, refl)
