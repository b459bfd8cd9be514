-- ===== src/Enrolment.antt =====
-- `enroll_machine.py`: the table of the machines that may sync.
pub mod Laws
use browser_visit_logger.Base.{
  Text, ℕ, List, [], ◌∷◌, Bool, true, false, if◌then◌else◌, ◌==◌, nat_eq, text_eq, Option, none,
  some, ◌-◌, length, take, map, keep, is_empty, not, ◌++◌, suc, zero,
}
use browser_visit_logger.Base.Strings.{codes, decimal, text_le, has_part}
use browser_visit_logger.Base.Sorting.{sorted}

-- A row of `enrolled_machines`.
pub record Machine : Type 0 where
  pub machine_id : Text
  pub cert_sha256 : Text
  pub enrolled_at : Text

-- The command's options; an option that is not given is empty.
pub record Args : Type 0 where
  pub machine_id : Text
  pub cert : Text
  pub revoke : Bool
  pub list : Bool

-- How a command ends: the rows of the table, what it prints, and its exit code, none where an
-- exception ends it.
pub record Ended : Type 0 where
  pub machines : List Machine
  pub printed : List Text
  pub code : Option ℕ

unfoldable pub is_machine : Text → Machine → Bool
unfolding text_eq
is_machine id m = m.machine_id == id

-- `INSERT OR REPLACE`, by the primary key `machine_id`
unfoldable pub insert_or_replace : Machine → List Machine → List Machine
insert_or_replace m machines = keep (λ k. not (is_machine m.machine_id k)) machines ++ (m ∷ [])

abbrev spaces : ℕ → Text
spaces zero = []
spaces (suc n) = b' ' ∷ spaces n

-- `f'{s:30s}'`
abbrev padded : Text → Text
padded s = s ++ spaces (30 - length s)

abbrev pub by_machine_id : Machine → Machine → Bool
by_machine_id a b = text_le a.machine_id b.machine_id

abbrev pub listed : Machine → Text
listed m =
    padded m.machine_id
    ++ (codes "  " ++ (take 16 m.cert_sha256 ++ (codes "...  " ++ m.enrolled_at)))

-- How the reading of a certificate ends: with its fingerprint, with an exception, or with the exit of
-- the whole command where `cryptography` is not installed.
pub data Reading : Type 0 where
  fingerprint_of : Text → Reading
  raised : Reading
  lacks_cryptography : Reading

-- What the command reads and calls: the bytes of a file, whose path has its `~` expanded, whether
-- `cryptography` can be imported, its decoding of a PEM certificate,
-- `hashlib.sha256(…).hexdigest()`, and the time.
module _ (read_bytes : Text → Option Text) (has_cryptography : Bool) (der_of : Text → Option Text)
    (sha256 : Text → Text) (now : Text) where
  abbrev pub hashed : Option Text → Reading
  hashed none = raised
  hashed (some der) = fingerprint_of (sha256 der)

  abbrev pub decoded : Option Text → Reading
  decoded none = raised
  decoded (some bytes) =
      if has_part (codes "-----BEGIN CERTIFICATE-----") bytes
      then if has_cryptography then hashed (der_of bytes) else lacks_cryptography
      else hashed (some bytes)

  unfoldable pub cert_fingerprint : Text → Reading
  cert_fingerprint path = decoded (read_bytes path)

  abbrev pub enroll_with : Text → List Machine → Reading → Ended
  enroll_with id machines raised = record { machines = machines; printed = []; code = none }
  enroll_with id machines lacks_cryptography = record {
    machines = machines;
    printed =
        codes
          "error: needs `cryptography` (pip install cryptography) to decode PEM. Or supply a DER file directly."
        ∷ [];
    code = some 2;
  }
  enroll_with id machines (fingerprint_of fp) = record {
    machines =
        insert_or_replace (record { machine_id = id; cert_sha256 = fp; enrolled_at = now })
          machines;
    printed = (codes "enrolled " ++ (id ++ (codes " with fingerprint " ++ fp))) ∷ [];
    code = some 0;
  }

  -- `enroll`
  unfoldable pub enroll : Text → Text → List Machine → Ended
  enroll id cert machines = enroll_with id machines (cert_fingerprint cert)

-- `revoke`
unfoldable pub revoke_machine : Text → List Machine → Ended
revoke_machine id machines = record {
  machines = keep (λ k. not (is_machine id k)) machines;
  printed =
      (codes "revoked "
        ++ (id
            ++ (codes " (deleted "
                ++ (decimal (length (keep (is_machine id) machines)) ++ codes " row(s))"))))
      ∷ [];
  code = some 0;
}

-- `list_all`
unfoldable pub list_all : List Machine → Ended
list_all machines = record {
  machines = machines;
  printed = map listed (sorted by_machine_id machines);
  code = some 0;
}

abbrev pub refused : Text → List Machine → Ended
refused message machines = record { machines = machines; printed = message ∷ []; code = some 2 }

module _ (read_bytes : Text → Option Text) (has_cryptography : Bool) (der_of : Text → Option Text)
    (sha256 : Text → Text) (now : Text) where
  -- `main`
  unfoldable pub enroll_main : Args → List Machine → Ended
  enroll_main args machines =
      if args.list
      then list_all machines
      else if is_empty args.machine_id
      then refused (codes "error: --machine-id required (or use --list)") machines
      else if args.revoke
      then revoke_machine args.machine_id machines
      else if is_empty args.cert
      then refused (codes "error: --cert required to enroll") machines
      else enroll read_bytes has_cryptography der_of sha256 now args.machine_id args.cert machines
