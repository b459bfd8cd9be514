-- ===== src/Enrolment/Laws.antt =====
-- The table has one row for a machine, and the last command on a machine decides.
use browser_visit_logger.Base.{
  Text, ℕ, Bool, List, [], ◌∷◌, ◌++◌, if◌then◌else◌, ◌==◌, text_eq, nat_eq, keep, not, ◌≡◌, ◌||◌,
  ◌&&◌, arith, refl, Option, none, some, ◌∙◌, is_empty,
}
use browser_visit_logger.Enrolment.{
  Machine, Args, is_machine, insert_or_replace, enroll, enroll_with, enroll_main, revoke_machine,
  cert_fingerprint, list_all, Reading, fingerprint_of, raised, lacks_cryptography,
}

-- The rows of a machine.
abbrev pub rows_of : Text → List Machine → List Machine
rows_of id machines = keep (is_machine id) machines

rows_of-append :
    (id : Text) (ms : List Machine) (m : Machine)
    → rows_of id (ms ++ m ∷ []) ≡ rows_of id ms ++ rows_of id (m ∷ [])
rows_of-append id [] m = refl
rows_of-append id (k ∷ ms) m = ground (arith, rows_of-append id ms m)

rows_of-without :
    (i id : Text) (ms : List Machine)
    → rows_of i (keep (λ k. not (is_machine id k)) ms) ≡ (if i == id then [] else rows_of i ms)
unfolding is_machine
rows_of-without i id [] = ground arith
rows_of-without i id (k ∷ ms) = ground (arith, rows_of-without i id ms)

rows_of-nil : (xs : List Machine) → xs ++ [] ≡ xs
rows_of-nil [] = refl
rows_of-nil (x ∷ xs) = ground (arith, rows_of-nil xs)

joined :
    (i : Text) (m : Machine) (xs rows : List Machine)
    → xs ≡ (if i == m.machine_id then [] else rows)
    → xs ++ rows_of i (m ∷ []) ≡ (if i == m.machine_id then m ∷ [] else rows)
unfolding is_machine
joined i m xs rows h = ground (arith, rows_of-nil rows)

rows_of-insert :
    (i : Text) (m : Machine) (ms : List Machine)
    → rows_of i (insert_or_replace m ms) ≡ (if i == m.machine_id then m ∷ [] else rows_of i ms)
unfolding insert_or_replace
rows_of-insert i m ms =
    rows_of-append i (keep (λ k. not (is_machine m.machine_id k)) ms) m
    ∙ joined i m _ _ (rows_of-without i m.machine_id ms)

-- What the sync server reads off the table: the fingerprint that a machine may show.
abbrev pub fingerprint : List Machine → Option Text
fingerprint [] = none
fingerprint (m ∷ machines) = some m.cert_sha256

abbrev pub allowed : List Machine → Text → Option Text
allowed machines id = fingerprint (rows_of id machines)

-- What a command means for the allowlist, as a function from machines to fingerprints.
pub data Change : Type 0 where
  nothing : Change
  forget : (id : Text) → Change
  accept : (id fp : Text) → Change

unfoldable pub changed : Change → (Text → Option Text) → Text → Option Text
unfolding text_eq
changed nothing f i = f i
changed (forget id) f i = if i == id then none else f i
changed (accept id fp) f i = if i == id then some fp else f i

abbrev accepting : Text → Reading → Change
accepting id raised = nothing
accepting id lacks_cryptography = nothing
accepting id (fingerprint_of f) = accept id f

-- A command changes nothing if it lists, lacks an option or gets no fingerprint of the certificate.
unfoldable pub meant : Args → Reading → Change
meant args fp =
    if args.list || is_empty args.machine_id
    then nothing
    else if args.revoke
    then forget args.machine_id
    else if is_empty args.cert
    then nothing
    else accepting args.machine_id fp

abbrev read_code : Reading → Option ℕ
read_code raised = none
read_code lacks_cryptography = some 2
read_code (fingerprint_of f) = some 0

-- The exit code: none where the certificate's exception ends the command, and 2 where `cryptography`
-- is missing.
unfoldable pub code_meant : Args → Reading → Option ℕ
code_meant args fp =
    if args.list
    then some 0
    else if is_empty args.machine_id || (not args.revoke && is_empty args.cert)
    then some 2
    else if args.revoke
    then some 0
    else read_code fp

allowed-insert :
    (m : Machine) (ms : List Machine) (i : Text)
    → allowed (insert_or_replace m ms) i
      ≡ changed (accept m.machine_id m.cert_sha256) (allowed ms) i
unfolding changed
allowed-insert m ms i = ground (arith, rows_of-insert i m ms)

allowed-without :
    (id : Text) (ms : List Machine) (i : Text)
    → allowed (keep (λ k. not (is_machine id k)) ms) i ≡ changed (forget id) (allowed ms) i
unfolding changed
allowed-without id ms i = ground (arith, rows_of-without i id ms)

module _ (read_bytes : Text → Option Text) (has_cryptography : Bool) (der_of : Text → Option Text)
    (sha256 : Text → Text) (now : Text) where
  enroll_with-allowed :
      (id : Text) (machines : List Machine) (fp : Reading) (i : Text)
      → (allowed
            (enroll_with read_bytes has_cryptography der_of sha256 now id machines fp).machines
            i
          ≡ changed (accepting id fp) (allowed machines) i)
        × ((enroll_with read_bytes has_cryptography der_of sha256 now id machines fp).code
            ≡ read_code fp)
  unfolding changed
  enroll_with-allowed id machines raised i = (refl, refl)
  enroll_with-allowed id machines lacks_cryptography i = (refl, refl)
  enroll_with-allowed id machines (fingerprint_of fp) i = (
    unfold changed in
        allowed-insert (record { machine_id = id; cert_sha256 = fp; enrolled_at = now }) machines i,
    refl,
  )

  -- Whatever the options and the rows, the command changes the fingerprint that each machine may show
  -- as it is meant to, and exits as it is meant to: listing, a missing option, a certificate that
  -- cannot be read and a missing `cryptography` leave every machine's fingerprint, and no command
  -- touches another machine's.
  pub enroll_main-allowed :
      (args : Args) (machines : List Machine) (i : Text)
      → (allowed
            (enroll_main read_bytes has_cryptography der_of sha256 now args machines).machines
            i
          ≡ changed
              (meant args
                (cert_fingerprint read_bytes has_cryptography der_of sha256 now args.cert))
              (allowed machines)
              i)
        × ((enroll_main read_bytes has_cryptography der_of sha256 now args machines).code
            ≡ code_meant args
                (cert_fingerprint read_bytes has_cryptography der_of sha256 now args.cert))
  unfolding enroll_main list_all revoke_machine enroll meant code_meant changed
  enroll_main-allowed args machines i = ground (
    arith,
    enroll_with-allowed args.machine_id machines
        (cert_fingerprint read_bytes has_cryptography der_of sha256 now args.cert) i,
    allowed-without args.machine_id machines i,
  )
