-- ===== src/QueryServer/Run/Timer.antt =====
-- How the timer decides a reply.
use Prim.Native.Nat.{min}
use browser_visit_logger.Base.{
  Text, ℕ, List, [], ◌∷◌, Bool, true, false, nat_eq, none, take, arith, ◌≡◌, ◌≤◌, ◌<◌, text_eq, suc,
  zero, refl, ltb, map, inl, inr, Bool-cases, ◌∙◌, ◌+◌, ◌↔◌, if◌then◌else◌,
}
use browser_visit_logger.QueryServer.Validate.{validate_readonly_sql}
use browser_visit_logger.QueryServer.Run.{
  Reply, raised, answered, do_query, Statement, hard_max_rows, reply_of, answer_of, interrupted,
  default_timeout_s, run_with_timeout, fetchmany,
}
use Prim.Native.Nat.{min}

-- All rows of a statement.
abbrev pub rows_of : {Value : Type 0} → Statement Value → List (List Value)
rows_of st = map (λ r. r.0) st.timed_rows

pub capped : (n : ℕ) → (if ltb hard_max_rows n then hard_max_rows else n) ≡ min n hard_max_rows
capped n = ground arith

module _ {Value : Type 0} where
  -- Without a timer, fetching gives the first rows.
  fetchmany_lem :
      (n : ℕ) (rows : List (List Value × ℕ)) (now : ℕ)
      → fetchmany none n rows now ≡ answered (take n (map (λ r. r.0) rows))
  unfolding fetchmany
  fetchmany_lem zero rows now = refl
  fetchmany_lem (suc n) [] now = refl
  fetchmany_lem (suc n) ((row, cost) ∷ rows) now = rw (fetchmany_lem n rows (now + cost)) refl

  -- A reply is decided by the time of the first row, and by the rows without their times.
  pub reply_of_lem :
      (limit : ℕ) (st : Statement Value)
      → reply_of limit (answered st) ≡ (
          if ltb default_timeout_s st.first_after
          then raised interrupted
          else answered (answer_of limit st.columns (take (suc limit) (rows_of st))))
  unfolding run_with_timeout
  reply_of_lem limit st = elim (Bool-cases (ltb default_timeout_s st.first_after)) [
    | inl late ↦ rw (from_zero, late) refl
    | inr early ↦ rw (from_zero, early, fetchmany_lem (suc limit) st.timed_rows st.first_after) refl
  ]
    where
      from_zero : 0 + st.first_after ≡ st.first_after
      from_zero = omega arith

module _ {Value : Type 0} (exists : Bool) (prepare : Text → Reply (Statement Value)) where
  -- A statement that passes the validation, on a database that is there and with room for a row, is
  -- interrupted exactly where its first row takes longer than the limit: the time that the other
  -- rows take is not limited.
  pub do_query_interrupts :
      (sql : Text) (max_rows : ℕ) (st : Statement Value)
      → exists ≡ true
      → 1 ≤ max_rows
      → validate_readonly_sql sql ≡ none
      → prepare sql ≡ answered st
      → (do_query exists prepare sql max_rows ≡ raised interrupted)
        ↔ (default_timeout_s < st.first_after)
  unfolding do_query
  do_query_interrupts sql max_rows st there room valid prepared =
      one (ltb default_timeout_s st.first_after) refl (reply ∙ reply_of_lem limit st)
    where
      limit : ℕ
      limit = min max_rows hard_max_rows

      reply : do_query exists prepare sql max_rows ≡ reply_of limit (answered st)
      reply = rw (valid, there, prepared) (ground (arith, capped max_rows))

      one :
          (b : Bool)
          → ltb default_timeout_s st.first_after ≡ b
          → do_query exists prepare sql max_rows ≡ (
              if b
              then raised interrupted
              else answered (answer_of limit st.columns (take (suc limit) (rows_of st))))
          → (do_query exists prepare sql max_rows ≡ raised interrupted)
            ↔ (default_timeout_s < st.first_after)
      one true e k = ((λ h. ground arith), λ h. k)
      one false e k = ((λ h. absurd (ground arith)), λ h. absurd (ground arith))
