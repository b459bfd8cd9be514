-- ===== src/Cloud/Server/Scripts.antt =====
-- browser-visit-tools/manage_sync_server.py: the lines that its commands run on the machine.
use browser_visit_logger.Base.{
  ℕ, Text, Bool, Option, none, some, List, [], ◌∷◌, ◌++◌, map, if◌then◌else◌,
}
use browser_visit_logger.Base.Strings.{codes, newline, decimal}
use browser_visit_logger.Cloud.Aws.{grpc_port}
use browser_visit_logger.Cloud.Quote.{quote, quoted}

-- Lines that end in a newline each.
abbrev text_of_lines : List Text → Text
text_of_lines [] = []
text_of_lines (line ∷ lines) = line ++ (newline ∷ text_of_lines lines)

-- `_DB_SUMMARY_PY`
abbrev pub db_summary_program : Text
db_summary_program = text_of_lines (
    codes "import sqlite3, sys"
    ∷ codes "try:"
    ∷ codes "    c = sqlite3.connect(\"file:%s?mode=ro\" % sys.argv[1], uri=True)"
    ∷ codes "    def count(t):"
    ∷ codes "        try:"
    ∷ codes "            return str(c.execute(\"SELECT COUNT(*) FROM %s\" % t).fetchone()[0])"
    ∷ codes "        except Exception:"
    ∷ codes "            return \"n/a\""
    ∷ codes "    print(\"  event rows to seal: read=%s skimmed=%s\""
    ∷ codes "          % (count(\"read_events\"), count(\"skimmed_events\")))"
    ∷ codes "    rows = c.execute(\"SELECT date, sealed FROM snapshots \""
    ∷ codes "                     \"ORDER BY date DESC LIMIT 5\").fetchall()"
    ∷ codes "    if not rows:"
    ∷ codes "        print(\"  snapshots table: (empty)\")"
    ∷ codes "    for d, s in rows:"
    ∷ codes "        print(\"  snapshots: %s sealed=%s\" % (d, s))"
    ∷ codes "except Exception as e:"
    ∷ codes "    print(\"  (query failed: %s)\" % e)"
    ∷ [])

-- `_ENROLL_PY`
abbrev pub enroll_program : Text
enroll_program = text_of_lines (
    codes "import sqlite3, sys, datetime"
    ∷ codes "conn = sqlite3.connect(sys.argv[1])"
    ∷ codes "conn.execute(\"PRAGMA busy_timeout=5000\")"
    ∷ codes "conn.execute(\"CREATE TABLE IF NOT EXISTS enrolled_machines (\""
    ∷ codes "             \"machine_id TEXT PRIMARY KEY, cert_sha256 TEXT NOT NULL, \""
    ∷ codes "             \"enrolled_at TEXT NOT NULL)\")"
    ∷ codes "op = sys.argv[2]"
    ∷ codes "if op == \"list\":"
    ∷ codes "    rows = conn.execute(\"SELECT machine_id, cert_sha256, enrolled_at FROM \""
    ∷ codes "                        \"enrolled_machines ORDER BY machine_id\").fetchall()"
    ∷ codes "    for r in rows:"
    ∷ codes "        print(\"%-30s %s... %s\" % (r[0], r[1][:16], r[2]))"
    ∷ codes "    print(\"(%d enrolled)\" % len(rows))"
    ∷ codes "elif op == \"revoke\":"
    ∷ codes "    n = conn.execute(\"DELETE FROM enrolled_machines WHERE machine_id=?\","
    ∷ codes "                     (sys.argv[3],)).rowcount"
    ∷ codes "    conn.commit()"
    ∷ codes "    print(\"revoked %s (%d row(s))\" % (sys.argv[3], n))"
    ∷ codes "else:"
    ∷ codes "    conn.execute(\"INSERT OR REPLACE INTO enrolled_machines VALUES (?,?,?)\","
    ∷ codes "                 (sys.argv[3], sys.argv[4],"
    ∷ codes "                  datetime.datetime.now(datetime.timezone.utc).isoformat()))"
    ∷ codes "    conn.commit()"
    ∷ codes "    print(\"enrolled %s\" % sys.argv[3])"
    ∷ [])

-- `_rclone_conf`
abbrev pub rclone_conf : Text → Text
rclone_conf root_folder_id = text_of_lines (
    codes "[gdrive]"
    ∷ codes "type = drive"
    ∷ codes "scope = drive"
    ∷ codes "service_account_file = /etc/browser-visit-sync/gdrive-sa.json"
    ∷ (codes "root_folder_id = " ++ root_folder_id)
    ∷ [])

-- `aws s3 cp` of an object of the bucket
abbrev fetch : Text → Text → Text
fetch bucket rest = codes "aws s3 cp s3://" ++ (bucket ++ rest)

abbrev pub strict : Text
strict = codes "set -euo pipefail"

-- The script of `cmd_provision`
unfoldable pub provision_script : Text → List Text
provision_script bucket =
    strict
    ∷ codes
        "id -u bvlsync &>/dev/null || useradd --system --no-create-home --shell /usr/sbin/nologin bvlsync"
    ∷ codes "mkdir -p /var/lib/browser-visit-sync/logs /etc/browser-visit-sync"
    ∷ codes "chown -R bvlsync:bvlsync /var/lib/browser-visit-sync"
    ∷ codes "chmod 750 /etc/browser-visit-sync"
    ∷ fetch bucket (codes "/deploy/sync-server.service /etc/systemd/system/sync-server.service")
    ∷ fetch bucket (codes "/tls/server.crt /etc/browser-visit-sync/server.crt")
    ∷ fetch bucket (codes "/tls/server.key /etc/browser-visit-sync/server.key")
    ∷ fetch bucket (codes "/tls/clients-ca.crt /etc/browser-visit-sync/clients-ca.crt")
    ∷ codes "chown -R bvlsync:bvlsync /etc/browser-visit-sync"
    ∷ codes "chmod 600 /etc/browser-visit-sync/server.key"
    ∷ codes "systemctl daemon-reload"
    ∷ codes "systemctl enable sync-server"
    ∷ []

-- The script of `cmd_provision_drive`
unfoldable pub provision_drive_script : Text → Text → List Text
provision_drive_script bucket root_folder_id =
    strict
    ∷ codes "command -v rclone >/dev/null || dnf install -y rclone fuse3"
    ∷ codes "mkdir -p /mnt/gdrive-snapshots"
    ∷ codes "chown bvlsync:bvlsync /mnt/gdrive-snapshots"
    ∷ fetch bucket (codes "/gdrive/gdrive-sa.json /etc/browser-visit-sync/gdrive-sa.json")
    ∷ (codes "printf %s "
        ++ (quote (rclone_conf root_folder_id) ++ codes " > /etc/browser-visit-sync/rclone.conf"))
    ∷ fetch bucket
        (codes "/deploy/gdrive-snapshots.service /etc/systemd/system/gdrive-snapshots.service")
    ∷ codes
        "chown bvlsync:bvlsync /etc/browser-visit-sync/gdrive-sa.json /etc/browser-visit-sync/rclone.conf"
    ∷ codes "chmod 400 /etc/browser-visit-sync/gdrive-sa.json"
    ∷ codes "chmod 600 /etc/browser-visit-sync/rclone.conf"
    ∷ codes "systemctl daemon-reload"
    ∷ codes "systemctl enable --now gdrive-snapshots"
    ∷ []

-- The script of `cmd_drive_status`
unfoldable pub drive_status_script : List Text
drive_status_script =
    (codes "runuser -u bvlsync -- mountpoint -q /mnt/gdrive-snapshots "
      ++ codes "&& echo \"mount: mounted at /mnt/gdrive-snapshots\" || echo \"mount: NOT mounted\"")
    ∷ codes
        "echo \"service: $(systemctl is-active gdrive-snapshots.service 2>/dev/null || echo absent)\""
    ∷ (codes
          "echo \"recent snapshot days on Drive:\"; days=$(runuser -u bvlsync -- ls -1 /mnt/gdrive-snapshots "
        ++ codes "2>/dev/null | tail -5); echo \"${days:-  (none yet)}\"")
    ∷ (codes "echo \"canonical DB (sealer input + state):\"; python3 -c "
        ++ (quote db_summary_program ++ codes " /var/lib/browser-visit-sync/browser-visits.db"))
    ∷ []

-- The names of `_SEALER_SCRIPTS`
abbrev pub sealer_names : List Text
sealer_names = codes "snapshot_mover.py" ∷ codes "seal_completed_days.py" ∷ []

abbrev fetch_script : Text → Text → Text
fetch_script bucket name =
    fetch bucket (codes "/sealer/" ++ (name ++ (codes " /usr/local/lib/bvl/" ++ name)))

-- The script of `cmd_provision_sealer`
unfoldable pub provision_sealer_script : Text → List Text
provision_sealer_script bucket =
    strict
    ∷ codes "mkdir -p /usr/local/lib/bvl"
    ∷ (map (fetch_script bucket) sealer_names
        ++ (codes "chmod 0755 /usr/local/lib/bvl/seal_completed_days.py"
            ∷ fetch bucket (
                codes "/deploy/gdrive-verifier.service /etc/systemd/system/gdrive-verifier.service")
            ∷ fetch bucket
                (codes "/deploy/gdrive-verifier.timer /etc/systemd/system/gdrive-verifier.timer")
            ∷ codes "systemctl daemon-reload"
            ∷ codes "systemctl enable --now gdrive-verifier.timer"
            ∷ []))

-- The lines of `cmd_sealer_run`
unfoldable pub sealer_run_script : Bool → List Text
sealer_run_script dry_run =
    strict
    ∷ (codes "runuser -u bvlsync -- env BVL_ICLOUD_SNAPSHOTS_DIR=/mnt/gdrive-snapshots "
        ++ (codes
              "BVL_DB_FILE=/var/lib/browser-visit-sync/browser-visits.db BVL_MATCH_BY_FILENAME=1 "
            ++ (codes "python3 /usr/local/lib/bvl/seal_completed_days.py"
                ++ (if dry_run then codes " --dry-run" else []))))
    ∷ []

-- The script of `_deploy`
unfoldable pub deploy_script : Text → Text → List Text
deploy_script bucket key =
    strict
    ∷ fetch bucket (codes "/" ++ (key ++ codes " /tmp/sync-server.new"))
    ∷ codes "install -m 0755 /tmp/sync-server.new /usr/local/bin/sync-server"
    ∷ codes "rm -f /tmp/sync-server.new"
    ∷ codes "systemctl restart sync-server"
    ∷ []

-- The lines of `cmd_status`
unfoldable pub status_script : List Text
status_script =
    codes "systemctl is-active sync-server || true"
    ∷ codes "systemctl status sync-server --no-pager || true"
    ∷ []

abbrev since_option : (Text → Text) → Option Text → Text
since_option repr none = []
since_option repr (some []) = []
since_option repr (some (c ∷ t)) = codes " --since " ++ repr (c ∷ t)

-- The line of `cmd_logs`; `repr` is that of Python.
unfoldable pub logs_script : (Text → Text) → ℕ → Option Text → List Text
logs_script repr lines since =
    (codes "journalctl -u sync-server -n "
      ++ (decimal lines ++ (codes " --no-pager" ++ since_option repr since)))
    ∷ []

-- The script of `cmd_health`
unfoldable pub health_script : List Text
health_script =
    codes "set -e"
    ∷ (codes "systemctl is-active --quiet sync-server && echo \"service: active\" "
        ++ codes "|| { echo \"service: INACTIVE\"; exit 1; }")
    ∷ (codes "timeout 3 bash -c \"</dev/tcp/127.0.0.1/"
        ++ (grpc_port
            ++ (codes "\" && echo \"port "
                ++ (grpc_port
                    ++ (codes ": open\" || { echo \"port "
                        ++ (grpc_port ++ codes ": CLOSED\"; exit 1; }"))))))
    ∷ (codes "use=$(df --output=pcent /var/lib/browser-visit-sync | tail -1 | tr -dc \"0-9\"); "
        ++ codes
            "echo \"disk: ${use}% used\"; [ \"$use\" -lt 90 ] || { echo \"disk: OVER 90%\"; exit 1; }")
    ∷ []

-- What `enroll` does to the table on the machine.
pub data EnrollOp : Type 0 where
  list_machines : EnrollOp
  revoke : (machine_id : Text) → EnrollOp
  enroll : (machine_id fp : Text) → EnrollOp

abbrev pub enrolled_db : Text
enrolled_db = codes "/var/lib/browser-visit-sync/enrolled_machines.db"

abbrev pub argv_of : EnrollOp → List Text
argv_of list_machines = enrolled_db ∷ codes "list" ∷ []
argv_of (revoke machine_id) = enrolled_db ∷ codes "revoke" ∷ machine_id ∷ []
argv_of (enroll machine_id fp) = enrolled_db ∷ codes "enroll" ∷ machine_id ∷ fp ∷ []

abbrev pub owner_line : EnrollOp → List Text
owner_line list_machines = []
owner_line (revoke machine_id) = (codes "chown bvlsync:bvlsync " ++ enrolled_db) ∷ []
owner_line (enroll machine_id fp) = (codes "chown bvlsync:bvlsync " ++ enrolled_db) ∷ []

-- The line that runs the program.
unfoldable pub program_line : EnrollOp → Text
program_line op = codes "python3 -c " ++ (quote enroll_program ++ (b' ' ∷ quoted (argv_of op)))

-- `_enroll_remote`
unfoldable pub enroll_remote : EnrollOp → List Text
enroll_remote op = strict ∷ program_line op ∷ owner_line op
