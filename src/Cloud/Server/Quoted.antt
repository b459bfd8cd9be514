-- ===== src/Cloud/Server/Quoted.antt =====
-- The program that changes the allowlist on the machine gets its arguments as they are.
use browser_visit_logger.Base.{Text, none, some, [], ◌∷◌, ◌++◌, ◌≡◌, refl, ap, ◌∙◌, map}
use browser_visit_logger.Base.Strings.{codes, join}
use browser_visit_logger.Cloud.Quote.{quote, quoted, words, unquoted, is_plain}
use browser_visit_logger.Cloud.Quote.Laws.{words-quoted}
use browser_visit_logger.Cloud.Server.Scripts.{
  EnrollOp, list_machines, revoke, enroll, argv_of, program_line, enroll_program,
}

quote-python : quote (codes "python3") ≡ codes "python3"
unfolding quote is_plain
quote-python = refl

quote-option : quote (codes "-c") ≡ codes "-c"
unfolding quote is_plain
quote-option = refl

line_lem :
    (program : Text) (op : EnrollOp)
    → codes "python3 -c " ++ (quote program ++ (b' ' ∷ quoted (argv_of op)))
      ≡ quoted (codes "python3" ∷ codes "-c" ∷ program ∷ argv_of op)
unfolding join
line_lem program op = rw (quote-python, quote-option) (same op)
  where
    same :
        (o : EnrollOp)
        → codes "python3 -c " ++ (quote program ++ (b' ' ∷ quoted (argv_of o)))
          ≡ codes "python3"
            ++ (b' '
                ∷ (codes "-c" ++ (b' ' ∷ join (b' ' ∷ []) (quote program ∷ map quote (argv_of o)))))
    same list_machines = refl
    same (revoke machine_id) = refl
    same (enroll machine_id fp) = refl

-- Whatever a machine id and a fingerprint hold, a shell reads the line that changes the allowlist as a
-- run of `python3 -c` with the program, the database, the operation and these arguments as they are.
pub program_line_reads_back :
    (op : EnrollOp)
    → words unquoted none (program_line op)
      ≡ some (codes "python3" ∷ codes "-c" ∷ enroll_program ∷ argv_of op)
unfolding program_line
program_line_reads_back op =
    ap (words unquoted none) (line_lem enroll_program op)
    ∙ words-quoted (codes "python3" ∷ codes "-c" ∷ enroll_program ∷ argv_of op)
