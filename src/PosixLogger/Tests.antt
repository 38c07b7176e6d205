-- ===== src/PosixLogger/Tests.antt =====
-- A line of the log.
use releveldb.Base.{◌≡◌, ◌++◌, some, ltb, length, take, codes, if◌then◌else◌}
use releveldb.PosixLogger.{logv_line}
use releveldb.PosixLogger.Line.{ended, logv_line-ended}

logv_line-ended_example :
    logv_line (codes "1 ") (codes "2 ") (codes "done")
    ≡ some (
        ended (
          if ltb (length (codes "1 " ++ codes "done")) 500
          then codes "1 " ++ codes "done"
          else take 29999 (codes "2 " ++ codes "done")))
logv_line-ended_example = logv_line-ended (codes "1 ") (codes "2 ") (codes "done")
