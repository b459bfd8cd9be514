-- ===== src/Sync/Push/Batches.antt =====
-- What `do_push` sends: the lines behind the cursor, each once and in order, in requests of at most
-- 500 lines.
use browser_visit_logger.Base.{
  append_assoc, List, [], ◌∷◌, ◌≡◌, ◌++◌, none, Option, Text, arith, ap, append-nil, refl, ◌∙◌, sym,
  some, length, suc, All, ◌≤◌, ◌+◌, All-append, length-append, Bool, leb, if◌then◌else◌, true,
  false,
}
use browser_visit_logger.Sync.Push.{
  Peer, LogLine, push_lines, send_push, Session, and_then, do_push, lines_to_push, batch_size,
  moved, cursor_after,
}
use mathlib.Core.List.{flat_map}
use browser_visit_logger.Sync.Push.Behind.{lines_behind, lines_to_push_lem}
use browser_visit_logger.Sync.Cursors.{get_cursor, Cursor}

-- The lines of all requests.
abbrev pub all_of : List (List LogLine) → List LogLine
all_of requests = flat_map (λ b. b) requests

nil_first {ℓ} : {A : Type ℓ} (xs ys : List A) → (xs ++ []) ++ ys ≡ xs ++ ys
nil_first xs ys = ap (λ zs. zs ++ ys) (append-nil xs)

nothing {ℓ} : {A : Type ℓ} (xs : List A) → xs ≡ (xs ++ []) ++ []
nothing xs = sym (nil_first xs [] ∙ append-nil xs)

shift {ℓ} :
    {A : Type ℓ} (xs ys : List A) (z : A) (zs : List A)
    → (xs ++ (ys ++ z ∷ [])) ++ zs ≡ (xs ++ ys) ++ z ∷ zs
shift xs ys z zs =
    ap (λ t. t ++ zs) (sym (append_assoc xs ys (z ∷ []))) ∙ append_assoc (xs ++ ys) (z ∷ []) zs

all_of-snoc : (xs : List (List LogLine)) (b : List LogLine) → all_of (xs ++ b ∷ []) ≡ all_of xs ++ b
unfolding flat_map
all_of-snoc [] b = append-nil b
all_of-snoc (x ∷ xs) b = rw (all_of-snoc xs b, append_assoc) refl

abbrev pub IsSmall : List LogLine → Type 0
IsSmall b = length b ≤ 500

module _ (env : Peer) where
  send_push_sent :
      (lines : List LogLine) (s : Session) → (send_push env lines s).0.sent ≡ s.sent ++ lines ∷ []
  unfolding send_push
  send_push_sent lines s = ground arith

  -- What a return of `push_lines` says of the requests.
  Sends : List LogLine → Type 0
  Sends ls =
      (batch : List LogLine) (s : Session)
      → (push_lines env ls batch s).1 ≡ none
      → all_of (push_lines env ls batch s).0.sent ≡ all_of s.sent ++ batch ++ ls

  push_lines_sent : (ls : List LogLine) → Sends ls
  unfolding Sends push_lines
  push_lines_sent [] [] s h = nothing (all_of s.sent)
  push_lines_sent [] (b ∷ bs) s h =
      ap all_of (send_push_sent (b ∷ bs) s) ∙ all_of-snoc s.sent (b ∷ bs) ∙ sym (append-nil _)
  push_lines_sent (l ∷ ls) batch s h =
      choose (push_lines_sent ls) (leb batch_size (length (batch ++ l ∷ []))) h
    where
      full :
          Sends ls
          → (r : Session × Option Text) → r.0.sent ≡ s.sent ++ (batch ++ l ∷ []) ∷ []
          → (and_then (push_lines env ls []) r).1 ≡ none
          → all_of (and_then (push_lines env ls []) r).0.sent ≡ all_of s.sent ++ batch ++ l ∷ ls
      full ih (t, none) e h =
          ih [] t h
          ∙ nil_first (all_of t.sent) ls
          ∙ ap (λ r. all_of r ++ ls) e
          ∙ ap (λ r. r ++ ls) (all_of-snoc s.sent (batch ++ l ∷ []))
          ∙ shift (all_of s.sent) batch l ls
      full ih (t, some x) e h = ground arith

      choose :
          Sends ls
          → (b : Bool)
          → (if b
              then and_then (push_lines env ls []) (send_push env (batch ++ l ∷ []) s)
              else push_lines env ls (batch ++ l ∷ []) s).1
            ≡ none
          → all_of
              (if b
                then and_then (push_lines env ls []) (send_push env (batch ++ l ∷ []) s)
                else push_lines env ls (batch ++ l ∷ []) s).0.sent
            ≡ all_of s.sent ++ batch ++ l ∷ ls
      choose ih true h =
          full ih (send_push env (batch ++ l ∷ []) s) (send_push_sent (batch ++ l ∷ []) s) h
      choose ih false h = ih (batch ++ l ∷ []) s h ∙ shift (all_of s.sent) batch l ls

  -- Whatever the server answers, no request is longer.
  Bounded : List LogLine → Type 0
  Bounded ls =
      (batch : List LogLine) (s : Session)
      → suc (length batch) ≤ 500
      → All IsSmall s.sent
      → All IsSmall (push_lines env ls batch s).0.sent

  sent-IsSmall :
      (b : List LogLine) (s : Session)
      → length b ≤ 500
      → All IsSmall s.sent
      → All IsSmall (send_push env b s).0.sent
  sent-IsSmall b s n a = rw (send_push_sent b s) (All-append IsSmall s.sent (b ∷ []) a (n, tt))

  push_lines-Bounded : (ls : List LogLine) → Bounded ls
  unfolding Bounded push_lines
  push_lines-Bounded [] [] s n a = a
  push_lines-Bounded [] (b ∷ bs) s n a = sent-IsSmall (b ∷ bs) s (omega arith) a
  push_lines-Bounded (l ∷ ls) batch s n a =
      choose (push_lines-Bounded ls) (leb batch_size (length (batch ++ l ∷ []))) refl
    where
      longer : length (batch ++ l ∷ []) ≡ length batch + 1
      longer = length-append batch (l ∷ [])

      full :
          Bounded ls
          → (r : Session × Option Text) → All IsSmall r.0.sent
          → All IsSmall (and_then (push_lines env ls []) r).0.sent
      full ih (t, none) h = ih [] t (ground arith) h
      full ih (t, some x) h = h

      choose :
          Bounded ls
          → (b : Bool) → leb batch_size (length (batch ++ l ∷ [])) ≡ b
          → All IsSmall
              (if b
                then and_then (push_lines env ls []) (send_push env (batch ++ l ∷ []) s)
                else push_lines env ls (batch ++ l ∷ []) s).0.sent
      choose ih true e =
          full ih (send_push env (batch ++ l ∷ []) s)
            (sent-IsSmall (batch ++ l ∷ []) s (ground (arith, longer)) a)
      choose ih false e = ih (batch ++ l ∷ []) s (ground (arith, longer)) a

  moved_sent : (cursor last : Cursor) (s : Session) → (moved env cursor last s).sent ≡ s.sent
  moved_sent cursor last s = ground arith

  -- A push that ends without an exception has sent the lines behind the cursor, each once and in
  -- order: the lines of all requests are those of the earlier requests and then, of all numbered lines
  -- of all local logs, day by day, those of a later day than the cursor's and those of the cursor's
  -- day with a larger number.
  pub do_push_sends_lines_after_cursor :
      (s : Session)
      → (do_push env s).1 ≡ none
      → all_of (do_push env s).0.sent
        ≡ all_of s.sent ++ lines_behind env.log_dir (get_cursor env.machine_id s.db) s.fs
  unfolding do_push Sends Bounded
  do_push_sends_lines_after_cursor s h =
      one (push_lines env lines [] s)
        (λ e. push_lines_sent lines [] s e ∙ nil_first (all_of s.sent) lines) h
      ∙ ap (λ ls. all_of s.sent ++ ls)
          (lines_to_push_lem env.log_dir (get_cursor env.machine_id s.db) s.fs)
    where
      lines : List LogLine
      lines = lines_to_push env.log_dir (get_cursor env.machine_id s.db) s.fs

      one :
          (r : Session × Option Text)
          → (r.1 ≡ none → all_of r.0.sent ≡ all_of s.sent ++ lines)
          → (and_then
              (λ t. (
                moved env
                    (get_cursor env.machine_id s.db)
                    (cursor_after lines (get_cursor env.machine_id s.db))
                    t,
                none,
              ))
              r).1
            ≡ none
          → all_of
              (and_then
                (λ t. (
                  moved env
                      (get_cursor env.machine_id s.db)
                      (cursor_after lines (get_cursor env.machine_id s.db))
                      t,
                  none,
                ))
                r).0.sent
            ≡ all_of s.sent ++ lines
      one (t, none) ih h =
          ap all_of (
            moved_sent (get_cursor env.machine_id s.db)
              (cursor_after lines (get_cursor env.machine_id s.db)) t)
          ∙ ih refl
      one (t, some x) ih h = ground arith

  -- Whether it fails or not, a push sends no request of more than 500 lines.
  pub do_push_sends_at_most_500 :
      (s : Session) → All IsSmall s.sent → All IsSmall (do_push env s).0.sent
  unfolding do_push Sends Bounded
  do_push_sends_at_most_500 s a =
      one (push_lines env lines [] s) (push_lines-Bounded lines [] s (ground arith) a)
    where
      lines : List LogLine
      lines = lines_to_push env.log_dir (get_cursor env.machine_id s.db) s.fs

      one :
          (r : Session × Option Text)
          → All IsSmall r.0.sent
          → All IsSmall
              (and_then
                (λ t. (
                  moved env
                      (get_cursor env.machine_id s.db)
                      (cursor_after lines (get_cursor env.machine_id s.db))
                      t,
                  none,
                ))
                r).0.sent
      one (t, none) h =
          rw
            (moved_sent (get_cursor env.machine_id s.db)
              (cursor_after lines (get_cursor env.machine_id s.db)) t)
            h
      one (t, some x) h = h
